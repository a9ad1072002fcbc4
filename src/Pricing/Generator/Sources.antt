-- ===== src/Pricing/Generator/Sources.antt =====
-- Where the prices of the cores come from.
use mathlib.Core.List.{Memᴰ}
use karpenter_provider_yande.Prelude.{ne_of_test}
use karpenter_provider_yande.Prelude.{
  String, ◌≡◌, refl, sym, ap, ◌∙◌, subst, ◌≢◌, Bool, true, false, Option, none, some, List, [], ◌∷◌,
  ◌==◌, eq_iff, if◌then◌else◌, All,
}
use karpenter_provider_yande.Prelude.Maps.{lookup, insert, lookup-insert}
use karpenter_provider_yande.Prelude.Int.{ℤ, eqb_ℤ}
use karpenter_provider_yande.Yandex.Platform.{PlatformId, platform_unknown}
use karpenter_provider_yande.Pricing.Generator.{Sku, PlatformPricing, RegionPricing, set_fraction}
use karpenter_provider_yande.Pricing.Generator.Names.{
  find_platform_from_sku, extract_fraction_from_sku, is_preemptible,
}
use karpenter_provider_yande.Pricing.Generator.Skus.{
  Parsing, whole_if_zero, platform_of, priced_platform, set_platform, price_of_sku, process_sku,
}
use karpenter_provider_yande.Pricing.Generator.Disks.{process_disk_sku}
use karpenter_provider_yande.Pricing.Generator.Pages.{is_skipped, or_platform, add_sku, add_skus}
use karpenter_provider_yande.Pricing.Generator.Laws.{process_disk_sku-platforms}

set_fraction-All :
    {Float : Type 0} (P : ℤ × Float → Type 0) (z : ℤ) (p : Float) (m : List (ℤ × Float))
    → P (z, p)
    → All P m
    → All P (set_fraction z p m)
unfolding set_fraction
set_fraction-All P z p [] h k = (h, tt)
set_fraction-All P z p ((y, q) ∷ m) h k = decide (eqb_ℤ y z) (set_fraction-All P z p m h k.1)
  where
    decide :
        (b : Bool)
        → All P (set_fraction z p m)
        → All P (if b then (z, p) ∷ m else (y, q) ∷ set_fraction z p m)
    decide true r = (h, k.1)
    decide false r = (k.0, r)

module _ {Float : Type 0} (ps : Parsing Float) (to_lower : String → String) where
  -- A SKU of the list that is not passed over has the price, for the platform, the fraction and
  -- the kind of machine.
  abbrev pub Source : List Sku → PlatformId → Bool → ℤ × Float → Type 0
  Source skus id preemptible e =
      (sku : Sku) × Memᴰ sku skus
      × (is_skipped sku ≡ false)
      × (find_platform_from_sku (to_lower sku.name) ≡ id)
      × (id ≢ platform_unknown)
      × (sku.pricing_unit ≡ "core*hour")
      × (is_preemptible (to_lower sku.name) ≡ preemptible)
      × (whole_if_zero (extract_fraction_from_sku (to_lower sku.name)) ≡ e.0)
      × (price_of_sku ps to_lower sku ≡ some e.1)

  abbrev pub PlatformSourced : List Sku → PlatformId → PlatformPricing Float → Type 0
  PlatformSourced skus id p =
      All (Source skus id false) p.per_fraction
      × All (Source skus id true) p.preemptible_per_fraction

  -- every price of a core has its SKU
  abbrev pub Sourced : List Sku → RegionPricing Float → Type 0
  Sourced skus pricing =
      (id : PlatformId) (p : PlatformPricing Float)
      → lookup id pricing.platforms ≡ some p
      → PlatformSourced skus id p

  platform_of-PlatformSourced :
      (skus : List Sku) (id : PlatformId) (o : Option (PlatformPricing Float))
      → ((p : PlatformPricing Float) → o ≡ some p → PlatformSourced skus id p)
      → PlatformSourced skus id (platform_of ps to_lower id o)
  unfolding platform_of
  platform_of-PlatformSourced skus id none h = (tt, tt)
  platform_of-PlatformSourced skus id (some p) h = h p refl

  priced-PlatformSourced :
      (skus : List Sku) (sku : Sku) (price : Float) (p : PlatformPricing Float)
      → Memᴰ sku skus
      → is_skipped sku ≡ false
      → find_platform_from_sku (to_lower sku.name) ≢ platform_unknown
      → price_of_sku ps to_lower sku ≡ some price
      → PlatformSourced skus (find_platform_from_sku (to_lower sku.name)) p
      → PlatformSourced skus
          (find_platform_from_sku (to_lower sku.name))
          (priced_platform ps to_lower sku price p)
  unfolding priced_platform
  priced-PlatformSourced skus sku price p m s n h k =
      decide (sku.pricing_unit == "core*hour") refl (sku.pricing_unit == "gbyte*hour")
        (is_preemptible (to_lower sku.name)) refl
    where
      decide :
          (b : Bool)
          → (sku.pricing_unit == "core*hour") ≡ b
          → (g : Bool) → (c : Bool) → is_preemptible (to_lower sku.name) ≡ c
          → PlatformSourced skus (find_platform_from_sku (to_lower sku.name)) (
              if b
              then (if c
                  then record p {
                    preemptible_per_fraction =
                        set_fraction
                          (whole_if_zero (extract_fraction_from_sku (to_lower sku.name)))
                          price
                          p.preemptible_per_fraction;
                  }
                  else record p {
                    per_fraction =
                        set_fraction
                          (whole_if_zero (extract_fraction_from_sku (to_lower sku.name)))
                          price
                          p.per_fraction;
                  })
              else if g
              then (if c then record p { preemptible_ram = price } else record p { ram = price })
              else p)
      decide true e g true f = (
        k.0,
        set_fraction-All _ _ price p.preemptible_per_fraction
            (sku, m, s, refl, n, (eq_iff _ _).0 e, f, refl, h) k.1,
      )
      decide true e g false f = (
        set_fraction-All _ _ price p.per_fraction (sku, m, s, refl, n, (eq_iff _ _).0 e, f, refl, h)
            k.0,
        k.1,
      )
      decide false e true true f = k
      decide false e true false f = k
      decide false e false c f = k

  abbrev found_platform : Sku → PlatformId
  found_platform sku = find_platform_from_sku (to_lower sku.name)

  abbrev new_price : Sku → Float → RegionPricing Float → PlatformPricing Float
  new_price sku price pricing =
      priced_platform ps to_lower sku price (
        platform_of ps to_lower (found_platform sku)
          (lookup (found_platform sku) pricing.platforms))

  inserted-Sourced :
      (skus : List Sku) (found : PlatformId) (new : PlatformPricing Float)
      (pricing : RegionPricing Float)
      → PlatformSourced skus found new
      → Sourced skus pricing
      → Sourced skus (record pricing { platforms = insert found new pricing.platforms })
  inserted-Sourced skus found new pricing h k id p l =
      own (found == id) refl (sym (lookup-insert found id new pricing.platforms) ∙ l)
    where
      own :
          (c : Bool)
          → (found == id) ≡ c
          → (if c then some new else lookup id pricing.platforms) ≡ some p
          → PlatformSourced skus id p
      own false f l = k id p l
      own true f l =
          let same : new ≡ p = cc in
          subst (λ i. PlatformSourced skus i p) ((eq_iff found id).0 f)
            (subst (PlatformSourced skus found) same h)

  set_platform-Sourced :
      (skus : List Sku) (sku : Sku) (price : Float) (pricing : RegionPricing Float)
      → Memᴰ sku skus
      → is_skipped sku ≡ false
      → price_of_sku ps to_lower sku ≡ some price
      → Sourced skus pricing
      → Sourced skus (set_platform ps to_lower sku (found_platform sku) price pricing)
  unfolding set_platform
  set_platform-Sourced skus sku price pricing m s h k =
      decide (found_platform sku == platform_unknown) refl
    where
      decide :
          (b : Bool)
          → (found_platform sku == platform_unknown) ≡ b
          → Sourced skus (
              if b then pricing else record pricing {
                platforms =
                    insert (found_platform sku) (new_price sku price pricing) pricing.platforms;
              })
      decide true e = k
      decide false e =
          inserted-Sourced skus (found_platform sku) (new_price sku price pricing) pricing
            (priced-PlatformSourced skus sku price _ m s (ne_of_test _ _ e) h (
              platform_of-PlatformSourced skus (found_platform sku)
                (lookup (found_platform sku) pricing.platforms)
                (λ q f. k (found_platform sku) q f)))
            k

  process_sku-Sourced :
      (skus : List Sku) (sku : Sku) (o : Option Float) (pricing : RegionPricing Float)
      → Memᴰ sku skus
      → is_skipped sku ≡ false
      → price_of_sku ps to_lower sku ≡ o
      → Sourced skus pricing
      → Sourced skus (elim o [
        | none ↦ pricing
        | some price ↦
            set_platform ps to_lower sku (find_platform_from_sku (to_lower sku.name)) price pricing
      ])
  process_sku-Sourced skus sku none pricing m s h k = k
  process_sku-Sourced skus sku (some price) pricing m s h k =
      set_platform-Sourced skus sku price pricing m s h k

  add_sku-Sourced :
      (skus : List Sku) (sku : Sku) (pricing : RegionPricing Float)
      → Memᴰ sku skus
      → Sourced skus pricing
      → Sourced skus (add_sku ps to_lower sku pricing)
  unfolding add_sku process_sku or_platform
  add_sku-Sourced skus sku pricing m k =
      decide (is_skipped sku) refl (process_disk_sku ps to_lower sku pricing) refl
    where
      decide :
          (b : Bool)
          → is_skipped sku ≡ b
          → (r : Bool × RegionPricing Float) → process_disk_sku ps to_lower sku pricing ≡ r
          → Sourced skus (if b then pricing else or_platform ps to_lower sku r)
      decide true e r f = k
      decide false e (true, after) f = λ id p l. k id p (
          ap (lookup id)
            (sym (process_disk_sku-platforms ps to_lower sku pricing) ∙ ap (λ t. t.1.platforms) f)
          ∙ l)
      decide false e (false, after) f = process_sku-Sourced skus sku _ after m e refl (λ id p l.
          k id p (
            ap (lookup id)
              (sym (process_disk_sku-platforms ps to_lower sku pricing) ∙ ap (λ t. t.1.platforms) f)
            ∙ l))

  -- a part of the list keeps the sources
  add_skus-Sourced_of :
      (skus part : List Sku) (pricing : RegionPricing Float)
      → ((sku : Sku) → Memᴰ sku part → Memᴰ sku skus)
      → Sourced skus pricing
      → Sourced skus (add_skus ps to_lower part pricing)
  unfolding add_skus
  add_skus-Sourced_of skus [] pricing h k = k
  add_skus-Sourced_of skus (sku ∷ part) pricing h k =
      add_skus-Sourced_of skus part (add_sku ps to_lower sku pricing) (λ s m. h s (Memᴰ.tail m))
        (add_sku-Sourced skus sku pricing (h sku (Memᴰ.head refl)) k)

  -- Every core price that is gathered from a list of SKUs, from no prices on, is the first rate of
  -- the latest version of one of them that is not passed over, whose name speaks of its platform, of
  -- its fraction and, for the prices of preemptible machines, of those.
  pub add_skus-Sourced :
      (skus : List Sku) (pricing : RegionPricing Float)
      → pricing.platforms ≡ []
      → Sourced skus (add_skus ps to_lower skus pricing)
  unfolding lookup
  add_skus-Sourced skus pricing e =
      add_skus-Sourced_of skus skus pricing (λ sku m. m)
        (λ id p l. let absurd : none ≡ some p = sym (ap (lookup id) e) ∙ l in cc)
