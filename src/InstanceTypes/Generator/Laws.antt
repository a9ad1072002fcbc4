-- ===== src/InstanceTypes/Generator/Laws.antt =====
-- What config_gen.go stores is fit for use: sorted, without duplicates, never empty.
use karpenter_provider_yande.Prelude.{
  ℕ, ◌+◌, String, ◌≡◌, refl, sym, ◌∙◌, subst, ◌⊎◌, inl, inr, Bool, true, false, Option, none, some,
  List, [], ◌∷◌, arith, ◌==◌, ltb, if◌then◌else◌, is_empty, All, All-append,
}
use karpenter_provider_yande.Prelude.Maps.{lookup, lookup-insert}
use karpenter_provider_yande.Prelude.Errors.{ok}
use karpenter_provider_yande.Prelude.Int.{ℤ, pos, eqb_ℤ, ltb_ℤ, pos_part, neg_part}
use karpenter_provider_yande.Prelude.Sort.{sort_slice, IsSorted, IsLess, sort_slice-IsSorted}
use karpenter_provider_yande.Yandex.Platform.{PlatformId}
use karpenter_provider_yande.Yandex.Decimal.{parse_int}
use karpenter_provider_yande.InstanceTypes.Generator.{
  AllowedConfiguration, Platform, InstanceConfiguration, RegionConfig, platform_mapping, Memories,
  supported_fraction, core_fraction_of, collected_memory, sorted_vcpus, sorted_memory,
  with_configuration, add_configuration, add_configurations, store_configurations, process_platform,
  process_platforms, fetch_config_from_api,
}
use karpenter_provider_yande.InstanceTypes.Generator.Cores.{collected_cores}
use karpenter_provider_yande.InstanceTypes.Generator.Distinct.{
  remove_duplicates, Distinct, remove_duplicates-Distinct, sort_slice-Distinct,
}
use karpenter_provider_yande.InstanceTypes.Generator.{ap}
use karpenter_provider_yande.InstanceTypes.Generator.{Result}

eqb_ℤ-sym : (x y : ℤ) → eqb_ℤ x y ≡ eqb_ℤ y x
eqb_ℤ-sym x y = ground arith

ltb_ℤ-IsLess : IsLess ltb_ℤ
ltb_ℤ-IsLess = record {
  asym = λ x y h. asymmetric (pos_part x) (neg_part x) (pos_part y) (neg_part y) h;
  trans = λ x y z h k.
      transitive (pos_part x) (neg_part x) (pos_part y) (neg_part y) (pos_part z) (neg_part z) h k;
}
  where
    asymmetric : (a b c d : ℕ) → ltb (a + d) (c + b) ≡ true → ltb (c + b) (a + d) ≡ false
    asymmetric a b c d h = ground arith

    transitive :
        (a b c d e f : ℕ)
        → ltb (c + b) (a + d) ≡ false
        → ltb (e + d) (c + f) ≡ false
        → ltb (e + b) (a + f) ≡ false
    transitive a b c d e f h k = ground arith

abbrev pub IsSupported : ℤ → Type 0
IsSupported z = (z ≡ pos 5) ⊎ ((z ≡ pos 20) ⊎ ((z ≡ pos 50) ⊎ (z ≡ pos 100)))

fraction_test-IsSupported :
    (a b c d : Bool) (z : ℤ)
    → (if a
        then some (pos 5)
        else if b
        then some (pos 20)
        else if c
        then some (pos 50)
        else if d
        then some (pos 100)
        else none)
      ≡ some z
    → IsSupported z
fraction_test-IsSupported true b c d z h = inl cc
fraction_test-IsSupported false true c d z h = inr (inl cc)
fraction_test-IsSupported false false true d z h = inr (inr (inl cc))
fraction_test-IsSupported false false false true z h = inr (inr (inr cc))
fraction_test-IsSupported false false false false z h = cc

core_fraction_of-IsSupported : (s : String) (z : ℤ) → core_fraction_of s ≡ some z → IsSupported z
unfolding core_fraction_of
core_fraction_of-IsSupported s z h = decide (parse_int s) h
  where
    decide :
        (o : Option ℤ)
        → ◌≡◌ {A = Option ℤ} (elim o [ none ↦ none | some y ↦ supported_fraction y ]) (some z)
        → IsSupported z
    decide none h = cc
    decide (some y) h = supported_of y h
      where
        supported_of : (y : ℤ) → supported_fraction y ≡ some z → IsSupported z
        supported_of y h =
            fraction_test-IsSupported (eqb_ℤ y (pos 5)) (eqb_ℤ y (pos 20)) (eqb_ℤ y (pos 50))
              (eqb_ℤ y (pos 100)) z h

module _ {Float : Type 0} (ms : Memories Float) (ordered : IsLess ms.less_float)
    (symmetric : (x y : Float) → ms.same_float x y ≡ ms.same_float y x) where
  -- a configuration as the provider uses it
  abbrev pub IsWellFormed : InstanceConfiguration Float → Type 0
  IsWellFormed c =
      IsSupported c.core_fraction
      × (is_empty c.vcpu ≡ false)
      × (is_empty c.memory_per_core ≡ false)
      × IsSorted ltb_ℤ c.vcpu
      × Distinct eqb_ℤ c.vcpu
      × IsSorted ms.less_float c.memory_per_core
      × Distinct ms.same_float c.memory_per_core

  with_configuration-IsWellFormed :
      (reject : Bool) (fraction : ℤ) (cores : List ℤ) (memory : List Float)
      (cs : List (InstanceConfiguration Float))
      → IsSupported fraction
      → All IsWellFormed cs
      → All IsWellFormed (
          with_configuration ms reject fraction
            (sorted_vcpus ms cores)
            (sorted_memory ms memory)
            cs)
  unfolding with_configuration sorted_vcpus sorted_memory
  with_configuration-IsWellFormed reject fraction cores memory cs f h =
      decide (sort_slice ltb_ℤ (remove_duplicates eqb_ℤ cores))
        (sort_slice ms.less_float (remove_duplicates ms.same_float memory))
        (sort_slice-IsSorted ltb_ℤ-IsLess _)
        (sort_slice-Distinct eqb_ℤ ltb_ℤ eqb_ℤ-sym _ (remove_duplicates-Distinct eqb_ℤ cores))
        (sort_slice-IsSorted ordered _)
        (sort_slice-Distinct ms.same_float ms.less_float symmetric _
          (remove_duplicates-Distinct ms.same_float memory))
    where
      decide :
          (v : List ℤ) (m : List Float)
          → IsSorted ltb_ℤ v
          → Distinct eqb_ℤ v
          → IsSorted ms.less_float m
          → Distinct ms.same_float m
          → All IsWellFormed (with_configuration ms reject fraction v m cs)
      decide [] m p q r s = h
      decide (x ∷ v) [] p q r s = h
      decide (x ∷ v) (y ∷ m) p q r s =
          All-append IsWellFormed cs _ h ((f, refl, refl, p, q, r, s), tt)

  add_configuration-IsWellFormed :
      (reject : Bool) (a : AllowedConfiguration) (cs : List (InstanceConfiguration Float))
      → All IsWellFormed cs
      → All IsWellFormed (add_configuration ms reject a cs)
  unfolding add_configuration
  add_configuration-IsWellFormed reject a cs h =
      decide (core_fraction_of a.core_fraction) refl (collected_cores a.cores)
    where
      decide :
          (o : Option ℤ)
          → core_fraction_of a.core_fraction ≡ o
          → (c : Option (List ℤ))
          → All IsWellFormed (elim o [
            | none ↦ cs
            | some fraction ↦ elim c [
              | none ↦ cs
              | some cores ↦
                  with_configuration ms reject fraction
                    (sorted_vcpus ms cores)
                    (sorted_memory ms (collected_memory ms a.memory_per_core))
                    cs
            ]
          ])
      decide none e c = h
      decide (some z) e none = h
      decide (some z) e (some cores) =
          with_configuration-IsWellFormed reject z cores (collected_memory ms a.memory_per_core) cs
            (core_fraction_of-IsSupported a.core_fraction z e) h

  add_configurations-IsWellFormed :
      (reject : Bool) (as_read : List AllowedConfiguration)
      (cs : List (InstanceConfiguration Float))
      → All IsWellFormed cs
      → All IsWellFormed (add_configurations ms reject as_read cs)
  unfolding add_configurations
  add_configurations-IsWellFormed reject [] cs h = h
  add_configurations-IsWellFormed reject (a ∷ rest) cs h =
      add_configurations-IsWellFormed reject rest _ (add_configuration-IsWellFormed reject a cs h)

  -- what is stored for a platform
  abbrev pub IsUsable : RegionConfig Float → Type 0
  IsUsable config =
      (id : PlatformId) (cs : List (InstanceConfiguration Float))
      → lookup id config.configurations ≡ some cs
      → (is_empty cs ≡ false) × All IsWellFormed cs

  store_configurations-IsUsable :
      (o : Option PlatformId) (cs : List (InstanceConfiguration Float))
      (config : RegionConfig Float)
      → All IsWellFormed cs
      → IsUsable config
      → IsUsable (store_configurations ms o cs config)
  unfolding store_configurations
  store_configurations-IsUsable none cs config h k = k
  store_configurations-IsUsable (some new) [] config h k = k
  store_configurations-IsUsable (some new) (c ∷ cs) config h k = λ id ds e.
      own id ds (new == id) (sym (lookup-insert new id (c ∷ cs) config.configurations) ∙ e)
    where
      own :
          (id : PlatformId) (ds : List (InstanceConfiguration Float)) (b : Bool)
          → (if b then some (c ∷ cs) else lookup id config.configurations) ≡ some ds
          → (is_empty ds ≡ false) × All IsWellFormed ds
      own id ds true e =
          let same : c ∷ cs ≡ ds = cc in
          subst (λ l. (is_empty l ≡ false) × All IsWellFormed l) same (refl, h)
      own id ds false e = k id ds e

  process_platforms-IsUsable :
      (platforms : List Platform) (config : RegionConfig Float)
      → IsUsable config
      → IsUsable (process_platforms ms platforms config)
  unfolding process_platforms process_platform
  process_platforms-IsUsable [] config h = h
  process_platforms-IsUsable (p ∷ ps) config h = process_platforms-IsUsable ps _ (
      store_configurations-IsUsable (lookup p.id platform_mapping) _ config
        (add_configurations-IsWellFormed p.reject_preemptible p.allowed_configurations [] tt) h)

  config_of :
      (x y : RegionConfig Float) → ◌≡◌ {A = Result (RegionConfig Float)} (ok x) (ok y) → x ≡ y
  config_of x y h = cc

  -- Whatever platforms the cloud lists, a platform that is stored has a configuration, and each of
  -- its configurations has a supported core fraction, at least one number of cores and one size
  -- of memory, and both lists in order and without duplicates. The order of sort.Float64s is
  -- taken to be a strict weak order, and == of float64 to be symmetric.
  pub fetch_config_from_api-IsWellFormed :
      (platforms : List Platform) (region : String) (config : RegionConfig Float) (id : PlatformId)
      (cs : List (InstanceConfiguration Float))
      → fetch_config_from_api ms (ok platforms) region ≡ ok config
      → lookup id config.configurations ≡ some cs
      → (is_empty cs ≡ false) × All IsWellFormed cs
  unfolding fetch_config_from_api lookup
  fetch_config_from_api-IsWellFormed platforms region config id cs h e =
      let same = config_of _ config h in
      process_platforms-IsUsable platforms (record { region = region; configurations = [] })
        (λ i ds f. cc) id cs (ap (λ x. lookup id x.configurations) same ∙ e)
