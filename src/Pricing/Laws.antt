-- ===== src/Pricing/Laws.antt =====
-- The two generated tables agree: what is sold has the prices that its offerings ask for.
use mathlib.Core.List.{Memᴰ}
use karpenter_provider_yande.Prelude.{same_bool, same_bool-eq}
use karpenter_provider_yande.Prelude.{
  ℕ, String, ◌≡◌, refl, sym, ap, ◌∙◌, subst, inl, inr, Bool, true, false, ◌&&◌, Option, none, some,
  List, [], ◌∷◌, arith, ◌==◌, eq_iff, is_some, Bool-cases,
}
use karpenter_provider_yande.Prelude.Maps.{Map, lookup}
use karpenter_provider_yande.Prelude.Int.{ℤ}
use karpenter_provider_yande.Yandex.InstanceType.{InstanceType}
use karpenter_provider_yande.InstanceTypes.Provider.{InstanceConfiguration}
use karpenter_provider_yande.InstanceTypes.Configuration.{ru_available_configurations}
use karpenter_provider_yande.Pricing.Provider.{
  Floats, PricingPlatform, fraction_price, type_price, on_demand_of, spot_of, on_demand_price,
  spot_price,
}
use karpenter_provider_yande.Pricing.Table.{ru_pricing}

and-true : (a b : Bool) → (a && b) ≡ true → (a ≡ true) × (b ≡ true)
and-true true b h = (refl, h)
and-true false b h = cc

module _ {Float : Type 0} where
  -- a configuration has an on-demand price, and a spot price exactly where it can be preempted
  covers : PricingPlatform Float → InstanceConfiguration ℕ → Bool
  covers p c =
      is_some (fraction_price c.core_fraction p.per_fraction)
      && same_bool (is_some (fraction_price c.core_fraction p.preemptible_per_fraction))
          c.can_be_preemptible

  all_covered : PricingPlatform Float → List (InstanceConfiguration ℕ) → Bool
  all_covered p [] = true
  all_covered p (c ∷ cs) = covers p c && all_covered p cs

  -- a platform without prices asks for nothing
  priced : Option (PricingPlatform Float) → List (InstanceConfiguration ℕ) → Bool
  priced none cs = true
  priced (some p) cs = all_covered p cs

  tables_agree : Map (PricingPlatform Float) → Map (List (InstanceConfiguration ℕ)) → Bool
  tables_agree pricing [] = true
  tables_agree pricing ((platform, cs) ∷ rest) =
      priced (lookup platform pricing) cs && tables_agree pricing rest

  all_covered-mem :
      (p : PricingPlatform Float) (c : InstanceConfiguration ℕ)
      (cs : List (InstanceConfiguration ℕ))
      → all_covered p cs ≡ true
      → Memᴰ c cs
      → covers p c ≡ true
  unfolding all_covered
  all_covered-mem p c [] h m = elim m [ ]
  all_covered-mem p c (d ∷ cs) h (Memᴰ.head e) =
      subst (λ x. covers p x ≡ true) (sym e) (ground arith)
  all_covered-mem p c (d ∷ cs) h (Memᴰ.tail m) = all_covered-mem p c cs (ground arith) m

  tables_agree-lookup :
      (pricing : Map (PricingPlatform Float)) (configuration : Map (List (InstanceConfiguration ℕ)))
      (platform : String) (cs : List (InstanceConfiguration ℕ))
      → tables_agree pricing configuration ≡ true
      → lookup platform configuration ≡ some cs
      → priced (lookup platform pricing) cs ≡ true
  unfolding tables_agree lookup
  tables_agree-lookup pricing [] platform cs h e = cc
  tables_agree-lookup pricing ((q, ds) ∷ rest) platform cs h e = elim (Bool-cases (q == platform)) [
    | inl same ↦
        let found : some ds ≡ some cs = rw same at e in
        let both = and-true (priced (lookup q pricing) ds) _ h in
        let at_platform =
          subst (λ x. priced (lookup x pricing) ds ≡ true) ((eq_iff q platform).0 same) both.0 in
        let equal : ds ≡ cs = cc in
        subst (λ l. priced (lookup platform pricing) l ≡ true) equal at_platform
    | inr other ↦
        let both = and-true (priced (lookup q pricing) ds) _ h in
        tables_agree-lookup pricing rest platform cs both.1 (rw other at e)
  ]

chained :
    {A B : Type 0} (o : Option A) (g : A → B)
    → is_some (elim o [ none ↦ none | some a ↦ some (g a) ]) ≡ is_some o
chained none g = refl
chained (some a) g = refl

module _ {Quantity : Type 0} (f : Floats Quantity) where
  ru_tables_agree : tables_agree (ru_pricing f) ru_available_configurations ≡ true
  unfolding tables_agree priced all_covered covers fraction_price lookup
  ru_tables_agree = refl

  on_demand-is_some :
      (mapping : Map (PricingPlatform f.Float)) (t : InstanceType Quantity)
      (p : PricingPlatform f.Float) (platform : String) (fraction : ℤ)
      → t.platform ≡ platform
      → t.core_fraction ≡ fraction
      → lookup platform mapping ≡ some p
      → is_some (on_demand_price f mapping t) ≡ is_some (fraction_price fraction p.per_fraction)
  unfolding on_demand_price on_demand_of
  on_demand-is_some mapping t p platform fraction h k e =
      ap (λ x. is_some (on_demand_of f t (lookup x mapping))) h
      ∙ ap (λ o. is_some (on_demand_of f t o)) e
      ∙ chained (fraction_price t.core_fraction p.per_fraction) (λ cpu. type_price f t cpu p.ram)
      ∙ ap (λ z. is_some (fraction_price z p.per_fraction)) k

  spot-is_some :
      (mapping : Map (PricingPlatform f.Float)) (t : InstanceType Quantity)
      (p : PricingPlatform f.Float) (platform : String) (fraction : ℤ)
      → t.platform ≡ platform
      → t.core_fraction ≡ fraction
      → lookup platform mapping ≡ some p
      → is_some (spot_price f mapping t)
        ≡ is_some (fraction_price fraction p.preemptible_per_fraction)
  unfolding spot_price spot_of
  spot-is_some mapping t p platform fraction h k e =
      ap (λ x. is_some (spot_of f t (lookup x mapping))) h
      ∙ ap (λ o. is_some (spot_of f t o)) e
      ∙ chained (fraction_price t.core_fraction p.preemptible_per_fraction)
          (λ cpu. type_price f t cpu p.preemptible_ram)
      ∙ ap (λ z. is_some (fraction_price z p.preemptible_per_fraction)) k

  -- A type of a configuration that the region sells has an on-demand price if its platform has any
  -- prices, and then it has a spot price exactly where the configuration can be preempted.
  pub ru_pricing-configurations :
      (platform : String) (cs : List (InstanceConfiguration ℕ)) (c : InstanceConfiguration ℕ)
      (p : PricingPlatform f.Float) (t : InstanceType Quantity)
      → lookup platform ru_available_configurations ≡ some cs
      → Memᴰ c cs
      → lookup platform (ru_pricing f) ≡ some p
      → t.platform ≡ platform
      → t.core_fraction ≡ c.core_fraction
      → (is_some (on_demand_price f (ru_pricing f) t) ≡ true)
        × (is_some (spot_price f (ru_pricing f) t) ≡ c.can_be_preemptible)
  unfolding priced covers
  ru_pricing-configurations platform cs c p t sold m has same_platform same_fraction =
      let agreed =
        tables_agree-lookup (ru_pricing f) ru_available_configurations platform cs ru_tables_agree
          sold in
      let covered = all_covered-mem p c cs (rw has at agreed) m in
      let both = and-true (is_some (fraction_price c.core_fraction p.per_fraction)) _ covered in
      (
        on_demand-is_some (ru_pricing f) t p platform c.core_fraction same_platform same_fraction
              has
            ∙ both.0,
        spot-is_some (ru_pricing f) t p platform c.core_fraction same_platform same_fraction has
            ∙ same_bool-eq _ _ both.1,
      )
