-- ===== src/Pricing/Generator/Laws.antt =====
-- The fraction of a SKU, and what one SKU may change.
use Prim.Native.String.{◌++◌ as ◌+++◌}
use karpenter_provider_yande.Prelude.{
  String, ◌≡◌, refl, sym, subst, inl, inr, Bool, true, false, Option, none, some, arith, ◌==◌,
  eq_iff, if◌then◌else◌, contains, Bool-cases,
}
use karpenter_provider_yande.Prelude.Maps.{lookup}
use karpenter_provider_yande.Prelude.Int.{ℤ, pos}
use karpenter_provider_yande.Pricing.Generator.{Sku, RegionPricing}
use karpenter_provider_yande.Pricing.Generator.Names.{
  or_whole, matched_fraction, extract_fraction_from_sku,
}
use karpenter_provider_yande.Pricing.Generator.Percent.{find_percent, find_percent-contains}
use karpenter_provider_yande.Pricing.Generator.Skus.{Parsing, process_sku, set_platform}
use karpenter_provider_yande.Pricing.Generator.Disks.{set_disks, process_disk_sku}

contained :
    (name g h : String)
    → contains name (g +++ "%") ≡ true
    → (g == h) ≡ true
    → contains name (h +++ "%") ≡ true
contained name g h c e = subst (λ x. contains name (x +++ "%") ≡ true) ((eq_iff g h).0 e) c

-- a group that is none of the mapped fractions
unmapped :
    (a b c d : Bool)
    → a ≡ false
    → b ≡ false
    → c ≡ false
    → d ≡ false
    → or_whole (
        if a
        then some (pos 5)
        else if b
        then some (pos 20)
        else if c
        then some (pos 50)
        else if d
        then some (pos 100)
        else none)
      ≡ pos 100
unmapped a b c d h k l m = rw (h, k, l, m) refl

differs :
    (name g h : String)
    → contains name (g +++ "%") ≡ true
    → contains name (h +++ "%") ≡ false
    → (h == g) ≡ false
differs name g h c n = elim (Bool-cases (h == g)) [
  | inr e ↦ e
  | inl e ↦
      let same : contains name (h +++ "%") ≡ true =
        subst (λ x. contains name (x +++ "%") ≡ true) (sym ((eq_iff h g).0 e)) c in
      cc
]

no_match :
    (name : String) (o : Option String)
    → find_percent name ≡ o
    → contains name "5%" ≡ false
    → contains name "20%" ≡ false
    → contains name "50%" ≡ false
    → contains name "100%" ≡ false
    → matched_fraction o ≡ pos 100
unfolding matched_fraction lookup
no_match name none f a b c d = refl
no_match name (some g) f a b c d =
    let found = find_percent-contains name g f in
    unmapped ("5" == g) ("20" == g) ("50" == g) ("100" == g) (differs name g "5" found a)
      (differs name g "20" found b) (differs name g "50" found c) (differs name g "100" found d)

fraction_of :
    (a b c d : Bool) (z : ℤ)
    → (a ≡ false → b ≡ false → c ≡ false → d ≡ false → z ≡ pos 100)
    → (if a then pos 5 else if b then pos 20 else if c then pos 50 else if d then pos 100 else z)
      ≡ (if a then pos 5 else if b then pos 20 else if c then pos 50 else pos 100)
fraction_of true b c d z h = refl
fraction_of false true c d z h = refl
fraction_of false false true d z h = refl
fraction_of false false false true z h = refl
fraction_of false false false false z h = h refl refl refl refl

-- The fraction of a SKU is decided by the texts 5%, 20% and 50%, in this order, and is 100
-- otherwise: neither the text 100% nor the regular expression changes it.
pub extract_fraction_from_sku-texts :
    (name : String)
    → extract_fraction_from_sku name ≡ (
        if contains name "5%"
        then pos 5
        else if contains name "20%"
        then pos 20
        else if contains name "50%"
        then pos 50
        else pos 100)
unfolding extract_fraction_from_sku
extract_fraction_from_sku-texts name =
    fraction_of (contains name "5%") (contains name "20%") (contains name "50%")
      (contains name "100%") _ (no_match name (find_percent name) refl)

module _ {Float : Type 0} (ps : Parsing Float) (to_lower : String → String) where
  -- a SKU of a platform leaves the disks
  pub process_sku-disks :
      (sku : Sku) (pricing : RegionPricing Float)
      → (process_sku ps to_lower sku pricing).disks ≡ pricing.disks
  unfolding process_sku set_platform
  process_sku-disks sku pricing = ground arith

  -- a SKU of a disk leaves the platforms
  pub process_disk_sku-platforms :
      (sku : Sku) (pricing : RegionPricing Float)
      → (process_disk_sku ps to_lower sku pricing).1.platforms ≡ pricing.platforms
  unfolding process_disk_sku set_disks
  process_disk_sku-platforms sku pricing = ground arith
