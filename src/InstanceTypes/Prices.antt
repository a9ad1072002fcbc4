-- ===== src/InstanceTypes/Prices.antt =====
-- The offerings with the default prices: which of them can be launched.
use karpenter_provider_yande.Prelude.{
  ℕ, String, ◌≡◌, refl, ap, ◌∙◌, Bool, true, false, ◌&&◌, ◌||◌, Option, none, some, List, [], ◌∷◌,
  ◌++◌, arith, ◌==◌, is_some, any,
}
use karpenter_provider_yande.Prelude.Maps.{lookup}
use karpenter_provider_yande.NodeClass.Types.{NodeClass}
use karpenter_provider_yande.Yandex.Decimal.{IsInt64, Free}
use karpenter_provider_yande.Yandex.InstanceType.{
  InstanceType, Quantities, string, received, received-string,
}
use karpenter_provider_yande.InstanceTypes.Requirements.{Scheduling}
use karpenter_provider_yande.InstanceTypes.Offerings.{
  Offering, OfferedType, Pricing, price_of, make_offering, zone_offerings, append_all,
  create_offerings, inject,
}
use karpenter_provider_yande.Pricing.Provider.{
  Floats, PricingPlatform, on_demand_price, spot_price, on_demand_of, spot_of, disk_price,
}
use karpenter_provider_yande.Pricing.Table.{ru_pricing, ru_disk_pricing}
use mathlib.Core.List.{Memᴰ}
use karpenter_provider_yande.InstanceTypes.Provider.{InstanceConfiguration}
use karpenter_provider_yande.InstanceTypes.Configuration.{ru_available_configurations}
use karpenter_provider_yande.Pricing.Laws.{ru_pricing-configurations}

-- pricing.NewDefaultProvider
abbrev pub default_pricing : {Quantity : Type 0} → Floats Quantity → Pricing Quantity
default_pricing f = record {
  Price = f.Float;
  zero_price = f.decimal 0;
  plus = f.plus;
  on_demand_price = on_demand_price f (ru_pricing f);
  spot_price = spot_price f (ru_pricing f);
  disk_price = disk_price f (ru_disk_pricing f);
}

any-append :
    {A : Type 0} (p : A → Bool) (xs ys : List A) → any p (xs ++ ys) ≡ (any p xs || any p ys)
any-append p [] ys = refl
any-append p (x ∷ xs) ys = ground (arith, any-append p xs ys)

and_false : (b : Bool) → false ≡ (b && false)
and_false true = refl
and_false false = refl

-- The values of the capacity type requirement of a type, a set in some order: on-demand, and spot
-- if the type can be preemptible.
pub data CapacityTypes : Bool → List String → Type 0 where
  both : CapacityTypes true ("on-demand" ∷ "spot" ∷ [])
  both_reversed : CapacityTypes true ("spot" ∷ "on-demand" ∷ [])
  one : CapacityTypes false ("on-demand" ∷ [])

module _ (qs : Quantities) (sch : Scheduling) (pr : Pricing qs.Quantity) where
  abbrev Offerings : Type 0
  Offerings = List (Offering sch.Requirements pr.Price)

  abbrev pub can_launch : Offerings → Bool
  can_launch os = any (λ o. o.available) os

  abbrev pub listed : List String → String → Bool
  listed zones zone = any (λ z. z == zone) zones

  -- a price for one of the capacity types
  abbrev pub has_price : Bool → InstanceType qs.Quantity → Bool
  has_price b it = is_some (pr.on_demand_price it) || (b && is_some (pr.spot_price it))

  one_price : (o s z : Bool) → ((o && z) || false) ≡ ((o || (false && s)) && z)
  one_price true s true = refl
  one_price true s false = refl
  one_price false s z = refl

  two_prices : (o s z : Bool) → ((o && z) || ((s && z) || false)) ≡ ((o || (true && s)) && z)
  two_prices true true true = refl
  two_prices true false true = refl
  two_prices true true false = refl
  two_prices true false false = refl
  two_prices false true true = refl
  two_prices false true false = refl
  two_prices false false z = refl

  one_price_first : (o s z : Bool) → ((s && z) || ((o && z) || false)) ≡ ((o || (true && s)) && z)
  one_price_first true true true = refl
  one_price_first true false true = refl
  one_price_first true true false = refl
  one_price_first true false false = refl
  one_price_first false true true = refl
  one_price_first false true false = refl
  one_price_first false false z = refl

  zone-can_launch :
      (nc : NodeClass) (it : InstanceType qs.Quantity) (it_zones : List String) (zone : String)
      (b : Bool) (types : List String)
      → CapacityTypes b types
      → (os : Offerings) × (zone_offerings qs sch pr nc it it_zones zone types ≡ some os)
        × (can_launch os ≡ (has_price b it && listed it_zones zone))
  unfolding zone_offerings price_of make_offering
  zone-can_launch nc it it_zones zone _ _ both = (
    _,
    refl,
    two_prices (is_some (pr.on_demand_price it)) (is_some (pr.spot_price it))
        (listed it_zones zone),
  )
  zone-can_launch nc it it_zones zone _ _ both_reversed = (
    _,
    refl,
    one_price_first (is_some (pr.on_demand_price it)) (is_some (pr.spot_price it))
        (listed it_zones zone),
  )
  zone-can_launch nc it it_zones zone _ _ one = (
    _,
    refl,
    one_price (is_some (pr.on_demand_price it)) (is_some (pr.spot_price it)) (listed it_zones zone),
  )

  spread : (h z r : Bool) → ((h && z) || (h && r)) ≡ (h && (z || r))
  spread true z r = refl
  spread false z r = refl

  -- For the capacity types of a type, createOfferings gives an offering that can be launched exactly
  -- where one of them has a price and one of all zones is a zone of the type.
  pub create_offerings-can_launch :
      (nc : NodeClass) (it : InstanceType qs.Quantity) (it_zones zones : List String) (b : Bool)
      (types : List String)
      → CapacityTypes b types
      → (os : Offerings) × (create_offerings qs sch pr nc it it_zones types zones ≡ some os)
        × (can_launch os ≡ (has_price b it && any (listed it_zones) zones))
  unfolding create_offerings append_all
  create_offerings-can_launch nc it it_zones [] b types l = ([], refl, and_false (has_price b it))
  create_offerings-can_launch nc it it_zones (zone ∷ zones) b types l =
      let (os, e, f) = zone-can_launch nc it it_zones zone b types l in
      let (more, g, h) = create_offerings-can_launch nc it it_zones zones b types l in
      (
        os ++ more,
        ap (λ o. append_all o (create_offerings qs sch pr nc it it_zones types zones)) e
            ∙ ap (append_all (some os)) g,
        any-append (λ o. o.available) os more
            ∙ ap (λ x. x || can_launch more) f
            ∙ ap (λ x. (has_price b it && listed it_zones zone) || x) h
            ∙ spread (has_price b it) (listed it_zones zone) (any (listed it_zones) zones),
      )

  injected :
      {R : Type 0} (it : OfferedType sch.Requirements pr.Price R) (o : Option Offerings)
      (os : Offerings)
      → o ≡ some os
      → ◌≡◌ {A = Option (OfferedType sch.Requirements pr.Price R)}
          (elim o [ none ↦ none | some l ↦ some (record it { offerings = l }) ])
          (some (record it { offerings = os }))
  injected it o os e =
      ap (λ o. elim o [ none ↦ none | some l ↦ some (record it { offerings = l }) ]) e

  -- InjectOfferings of a type named by `t`: its offerings, and which of them can be launched
  pub inject-can_launch :
      {R : Type 0} (blank t : InstanceType qs.Quantity) (nc : NodeClass) (zones : List String)
      (b : Bool) (it : OfferedType sch.Requirements pr.Price R)
      → Free b'_' t.platform
      → IsInt64 t.core_fraction
      → it.name ≡ string qs t
      → CapacityTypes b (sch.values_of "karpenter.sh/capacity-type" it.requirements)
      → (it' : OfferedType sch.Requirements pr.Price R) × (inject qs sch pr blank nc zones it
          ≡ some it')
        × (can_launch it'.offerings ≡ (
            has_price b t
            && any (listed (sch.values_of "topology.kubernetes.io/zone" it.requirements)) zones))
  unfolding inject
  inject-can_launch blank t nc zones b it free int named types =
      let read : received qs blank it.name ≡ t =
        ap (received qs blank) named ∙ received-string qs blank t free int in
      let (os, e, f) =
        create_offerings-can_launch nc t
          (sch.values_of "topology.kubernetes.io/zone" it.requirements) zones b _ types in
      (
        record it { offerings = os },
        injected it _ os (
            ap
              (λ r.
                create_offerings qs sch pr nc r
                  (sch.values_of "topology.kubernetes.io/zone" it.requirements)
                  (sch.values_of "karpenter.sh/capacity-type" it.requirements) zones)
              read
            ∙ e),
        f,
      )

priced_or_not : (x y z b : Bool) → x ≡ z → y ≡ (z && b) → (x || (b && y)) ≡ z
priced_or_not true y true b h k = refl
priced_or_not true y false b h k = cc
priced_or_not false y true b h k = cc
priced_or_not false y false true h k = k
priced_or_not false y false false h k = refl

module _ {Quantity : Type 0} (f : Floats Quantity) where
  -- the two prices of a sold type, whether its platform is priced or not
  sold_prices :
      (platform : String) (cs : List (InstanceConfiguration ℕ)) (c : InstanceConfiguration ℕ)
      (t : InstanceType Quantity) (o : Option (PricingPlatform f.Float))
      → lookup platform ru_available_configurations ≡ some cs
      → Memᴰ c cs
      → t.platform ≡ platform
      → t.core_fraction ≡ c.core_fraction
      → lookup platform (ru_pricing f) ≡ o
      → (is_some (on_demand_price f (ru_pricing f) t) ≡ is_some o)
        × (is_some (spot_price f (ru_pricing f) t) ≡ (is_some o && c.can_be_preemptible))
  unfolding on_demand_price spot_price on_demand_of spot_of
  sold_prices platform cs c t none sold m same fraction e = (
    ap (λ x. is_some (on_demand_of f t (lookup x (ru_pricing f)))) same
        ∙ ap (λ o. is_some (on_demand_of f t o)) e,
    ap (λ x. is_some (spot_of f t (lookup x (ru_pricing f)))) same
        ∙ ap (λ o. is_some (spot_of f t o)) e,
  )
  sold_prices platform cs c t (some p) sold m same fraction e =
      ru_pricing-configurations f platform cs c p t sold m e same fraction

-- A type of a configuration that the region sells, injected with the default prices, can be
-- launched exactly if its platform has prices and one of the provider's zones is among its own.
-- Its name is the one that NewInstanceType gives it, its platform has no underscore and its core
-- fraction is an int64. The values of its capacity type requirement are taken to be those that
-- computeRequirements asks for, in either order: on-demand, and spot if the configuration can be
-- preemptible, so no label of the node class that replaces the requirement.
pub inject-ru_configurations :
    (qs : Quantities) (sch : Scheduling) (f : Floats qs.Quantity) {R : Type 0}
    (blank t : InstanceType qs.Quantity) (nc : NodeClass) (zones : List String)
    (cs : List (InstanceConfiguration ℕ)) (c : InstanceConfiguration ℕ)
    (it : OfferedType sch.Requirements f.Float R)
    → lookup t.platform ru_available_configurations ≡ some cs
    → Memᴰ c cs
    → t.core_fraction ≡ c.core_fraction
    → Free b'_' t.platform
    → IsInt64 t.core_fraction
    → it.name ≡ string qs t
    → CapacityTypes c.can_be_preemptible
        (sch.values_of "karpenter.sh/capacity-type" it.requirements)
    → (it' : OfferedType sch.Requirements f.Float R) × (inject qs sch
          (default_pricing f)
          blank
          nc
          zones
          it
        ≡ some it')
      × (any (λ o. o.available) it'.offerings ≡ (
          is_some (lookup t.platform (ru_pricing f))
          && any
              (λ zone.
                any (λ z. z == zone) (sch.values_of "topology.kubernetes.io/zone" it.requirements))
              zones))
inject-ru_configurations qs sch f blank t nc zones cs c it sold m fraction free int named types =
    let (it', e, g) =
      inject-can_launch qs sch (default_pricing f) blank t nc zones c.can_be_preemptible it free int
        named types in
    let (h, k) = sold_prices f t.platform cs c t _ sold m refl fraction refl in
    (
      it',
      e,
      g
          ∙ ap
              (λ b.
                b
                && any
                    (λ zone.
                      any (λ z. z == zone)
                        (sch.values_of "topology.kubernetes.io/zone" it.requirements))
                    zones)
              (priced_or_not _ _ _ c.can_be_preemptible h k),
    )
