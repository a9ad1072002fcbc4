-- ===== src/Pricing/Generator/Skus.antt =====
-- processSKU: the prices of the cores and of the memory of a platform.
use karpenter_provider_yande.Prelude.{String, Option, none, some, [], ◌==◌, if◌then◌else◌}
use karpenter_provider_yande.Prelude.Maps.{lookup, insert}
use karpenter_provider_yande.Prelude.Int.{ℤ, pos, eqb_ℤ}
use karpenter_provider_yande.Yandex.Platform.{PlatformId, platform_unknown}
use karpenter_provider_yande.Pricing.Generator.{
  Sku, PlatformPricing, RegionPricing, set_fraction, unit_price_of,
}
use karpenter_provider_yande.Pricing.Generator.Names.{
  find_platform_from_sku, extract_fraction_from_sku, is_preemptible,
}

-- strconv.ParseFloat, none for its error, and the literal 0
pub record Parsing (Float : Type 0) : Type 0 where
  pub zero_price : Float
  pub parse_float : String → Option Float

-- the fraction 0 stands for the whole core
abbrev pub whole_if_zero : ℤ → ℤ
whole_if_zero z = if eqb_ℤ z (pos 0) then pos 100 else z

module _ {Float : Type 0} (ps : Parsing Float) (to_lower : String → String) where
  -- the entry of a platform that is not there yet
  abbrev new_platform : PlatformId → PlatformPricing Float
  new_platform id = record {
    platform_id = id;
    per_fraction = [];
    preemptible_per_fraction = [];
    ram = ps.zero_price;
    preemptible_ram = ps.zero_price;
  }

  unfoldable pub platform_of : PlatformId → Option (PlatformPricing Float) → PlatformPricing Float
  platform_of id none = new_platform id
  platform_of id (some p) = p

  -- the switch over the pricing unit
  unfoldable pub priced_platform : Sku → Float → PlatformPricing Float → PlatformPricing Float
  priced_platform sku price platform =
      let name = to_lower sku.name in
      let fraction = whole_if_zero (extract_fraction_from_sku name) in
      if sku.pricing_unit == "core*hour"
      then (if is_preemptible name
          then record platform {
            preemptible_per_fraction =
                set_fraction fraction price platform.preemptible_per_fraction;
          }
          else record platform { per_fraction = set_fraction fraction price platform.per_fraction })
      else if sku.pricing_unit == "gbyte*hour"
      then (if is_preemptible name
          then record platform { preemptible_ram = price }
          else record platform { ram = price })
      else platform

  unfoldable pub set_platform : Sku → PlatformId → Float → RegionPricing Float → RegionPricing Float
  unfolding platform_of priced_platform
  set_platform sku id price pricing = if id == platform_unknown then pricing else record pricing {
    platforms =
        insert id (priced_platform sku price (platform_of id (lookup id pricing.platforms)))
          pricing.platforms;
  }

  -- the price of a SKU, if it has a version with a rate and the rate can be read
  unfoldable pub price_of_sku : Sku → Option Float
  price_of_sku sku = elim (unit_price_of sku.pricing_versions) [
    | none ↦ none
    | some p ↦ ps.parse_float p
  ]

  unfoldable pub process_sku : Sku → RegionPricing Float → RegionPricing Float
  unfolding set_platform price_of_sku
  process_sku sku pricing = elim (price_of_sku sku) [
    | none ↦ pricing
    | some price ↦ set_platform sku (find_platform_from_sku (to_lower sku.name)) price pricing
  ]
