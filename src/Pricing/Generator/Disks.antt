-- ===== src/Pricing/Generator/Disks.antt =====
-- processDiskSKU: the prices of the disks.
use karpenter_provider_yande.Prelude.{
  String, Bool, true, false, not, ◌&&◌, ◌||◌, Option, none, some, ◌==◌, if◌then◌else◌, contains,
}
use karpenter_provider_yande.Pricing.Generator.{Sku, DiskPricing, RegionPricing}
use karpenter_provider_yande.Pricing.Generator.Skus.{Parsing, price_of_sku}

-- the name, in lower case, and the unit of a disk; images and snapshots are none
unfoldable pub is_disk : String → String → Bool
is_disk name unit =
    not (contains name "образ" || contains name "снимок")
    && (unit == "gbyte*hour"
        && (contains name "хранилище"
            || (contains name "файловая система"
                || (contains name "hdd"
                    || (contains name "ssd"
                        || (contains name "disk" || contains name "storage"))))))

module _ {Float : Type 0} where
  -- the four kinds of disk, in the order of the source; another kind changes nothing
  unfoldable pub priced_disks : String → Float → DiskPricing Float → DiskPricing Float
  priced_disks name price disks =
      if contains name "сверхбыстрое" && contains name "3 репликами"
      then record disks { ssd_io = price }
      else if contains name "нереплицируемое"
          || (contains name "non-replicated" || contains name "nonreplicated")
      then record disks { ssd_nonreplicated = price }
      else if (contains name "быстрое" || contains name "быстрая")
          && (contains name "ssd"
              && (not (contains name "сверхбыстрое") && not (contains name "нереплицируемое")))
      then record disks { ssd = price }
      else if (contains name "стандартное" || contains name "стандартная") && contains name "hdd"
      then record disks { hdd = price }
      else disks

  module _ (ps : Parsing Float) (to_lower : String → String) where
    unfoldable pub set_disks : String → Option Float → RegionPricing Float → RegionPricing Float
    unfolding priced_disks
    set_disks name none pricing = pricing
    set_disks name (some price) pricing = record pricing {
      disks = priced_disks name price pricing.disks;
    }

    -- whether the SKU was that of a disk, and the prices after it
    unfoldable pub process_disk_sku : Sku → RegionPricing Float → Bool × RegionPricing Float
    unfolding set_disks is_disk
    process_disk_sku sku pricing =
        let name = to_lower sku.name in
        if is_disk name sku.pricing_unit
        then (true, set_disks name (price_of_sku ps to_lower sku) pricing)
        else (false, pricing)
