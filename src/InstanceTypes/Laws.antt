-- ===== src/InstanceTypes/Laws.antt =====
-- The table of names, the number of offerings, and the reserved memory.
use karpenter_provider_yande.Prelude.{
  ℕ, suc, ◌+◌, ◌*◌, ◌/◌, ◌≤◌, String, ◌≡◌, refl, sym, ap, ◌∙◌, Bool, true, false, some, List, [],
  ◌∷◌, ◌++◌, arith, ◌==◌, eq_iff, ltb, if◌then◌else◌, length, length-append,
}
use karpenter_provider_yande.Prelude.Maps.{Map, lookup, lookup-insert}
use karpenter_provider_yande.NodeClass.Types.{NodeClass}
use karpenter_provider_yande.Yandex.InstanceType.{InstanceType, Quantities, string}
use karpenter_provider_yande.InstanceTypes.Requirements.{
  Scheduling, capacity_types, gib, min_of, reserved_hundredths, kube_reserved_memory,
}
use karpenter_provider_yande.InstanceTypes.Offerings.{
  Offering, Pricing, price_of, zone_offerings, append_all, create_offerings,
}
use karpenter_provider_yande.InstanceTypes.Provider.{
  InstanceConfiguration, InfoInstanceType, generate_instance_types, add_names, add_configs,
  build_names, names_instance_type,
}

hundredths_bound : (m : ℕ) → reserved_hundredths m ≤ 25 * m
unfolding reserved_hundredths min_of
hundredths_bound m = ground arith

quarter : (x m : ℕ) → x ≤ 25 * m → 4 * (x / 100) ≤ m
quarter x m h = omega arith

above : (m : ℕ) → gib ≤ m → ltb m gib ≡ false
above m h = ground arith

suc-mul : (n m : ℕ) → suc n * m ≡ m + n * m
suc-mul n m = ground arith

zero-mul : (m : ℕ) → 0 ≡ 0 * m
zero-mul m = omega arith

-- From 1 GiB on, a node reserves at most a quarter of its memory for the kubelet.
pub kube_reserved_memory-quarter : (m : ℕ) → gib ≤ m → 4 * kube_reserved_memory m ≤ m
unfolding kube_reserved_memory
kube_reserved_memory-quarter m h =
    rw (above m h) (quarter (reserved_hundredths m) m (hundredths_bound m))

module _ (qs : Quantities) {Float : Type 0} (cpu_quantity : ℕ → qs.Quantity)
    (memory_quantity : Float → ℕ → qs.Quantity) where
  -- each entry stands under the name of its type
  abbrev Named : Map (InfoInstanceType qs.Quantity) → Type 0
  Named names =
      (n : String) (i : InfoInstanceType qs.Quantity)
      → lookup n names ≡ some i
      → string qs i.info ≡ n

  add_names-Named :
      (b : Bool) (ts : List (InstanceType qs.Quantity)) (names : Map (InfoInstanceType qs.Quantity))
      → Named names
      → Named (add_names qs cpu_quantity memory_quantity b ts names)
  unfolding add_names
  add_names-Named b [] names h = h
  add_names-Named b (t ∷ ts) names h =
      add_names-Named b ts _
        (λ n i e. own n i (string qs t == n) refl (sym (lookup-insert _ n _ names) ∙ e))
    where
      own :
          (n : String) (i : InfoInstanceType qs.Quantity) (c : Bool)
          → (string qs t == n) ≡ c
          → (if c then some (record { info = t; can_be_preemptible = b }) else lookup n names)
            ≡ some i
          → string qs i.info ≡ n
      own n i true d e =
          let same : record { info = t; can_be_preemptible = b } ≡ i = cc in
          ap (λ x. string qs x.info) (sym same) ∙ (eq_iff (string qs t) n).0 d
      own n i false d e = h n i e

  add_configs-Named :
      (platform : String) (cs : List (InstanceConfiguration Float))
      (names : Map (InfoInstanceType qs.Quantity))
      → Named names
      → Named (add_configs qs cpu_quantity memory_quantity platform cs names)
  unfolding add_configs
  add_configs-Named platform [] names h = h
  add_configs-Named platform (c ∷ cs) names h = add_configs-Named platform cs _ (
      add_names-Named c.can_be_preemptible
        (generate_instance_types qs cpu_quantity memory_quantity platform c) names h)

  build_names-Named :
      (configuration : Map (List (InstanceConfiguration Float)))
      (names : Map (InfoInstanceType qs.Quantity))
      → Named names
      → Named (build_names qs cpu_quantity memory_quantity configuration names)
  unfolding build_names
  build_names-Named [] names h = h
  build_names-Named ((platform, cs) ∷ rest) names h =
      build_names-Named rest _ (add_configs-Named platform cs names h)

  -- The table of names holds under each name a type that has this name.
  pub names_instance_type-string :
      (configuration : Map (List (InstanceConfiguration Float))) (n : String)
      (i : InfoInstanceType qs.Quantity)
      → lookup n (names_instance_type qs cpu_quantity memory_quantity configuration) ≡ some i
      → string qs i.info ≡ n
  unfolding names_instance_type lookup
  names_instance_type-string configuration n i e =
      build_names-Named configuration [] (λ m j h. cc) n i e

module _ (qs : Quantities) (sch : Scheduling) (pr : Pricing qs.Quantity) where
  zone_offerings-length :
      (nc : NodeClass) (it : InstanceType qs.Quantity) (it_zones : List String) (zone : String)
      (b : Bool)
      → (os : List (Offering sch.Requirements pr.Price)) × (zone_offerings qs sch pr nc it it_zones
            zone
            (capacity_types b)
          ≡ some os)
        × (length os ≡ length (capacity_types b))
  unfolding zone_offerings capacity_types price_of
  zone_offerings-length nc it it_zones zone true = (_, refl, refl)
  zone_offerings-length nc it it_zones zone false = (_, refl, refl)

  -- For the capacity types that computeRequirements gives a type, createOfferings does not panic,
  -- and makes one offering for each zone and capacity type.
  pub create_offerings-length :
      (nc : NodeClass) (it : InstanceType qs.Quantity) (it_zones zones : List String) (b : Bool)
      → (os : List (Offering sch.Requirements pr.Price)) × (create_offerings qs sch pr nc it
            it_zones
            (capacity_types b)
            zones
          ≡ some os)
        × (length os ≡ length zones * length (capacity_types b))
  unfolding create_offerings append_all
  create_offerings-length nc it it_zones [] b = ([], refl, zero-mul (length (capacity_types b)))
  create_offerings-length nc it it_zones (zone ∷ zones) b =
      let (os, e, f) = zone_offerings-length nc it it_zones zone b in
      let (more, g, h) = create_offerings-length nc it it_zones zones b in
      let sum : length os + length more ≡ suc (length zones) * length (capacity_types b) =
        rw (suc-mul, f, h) refl in
      (
        os ++ more,
        ap (λ o. append_all o (create_offerings qs sch pr nc it it_zones (capacity_types b) zones))
              e
            ∙ ap (append_all (some os)) g,
        length-append os more ∙ sum,
      )
