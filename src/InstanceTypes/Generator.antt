-- ===== src/InstanceTypes/Generator.antt =====
-- config_gen.go: how the cloud's list of platforms becomes the configurations of a region.
pub mod Cores
pub mod Distinct
pub mod Output
pub mod Laws
pub mod Known
pub mod Constants
use karpenter_provider_yande.Prelude.{
  ℕ, zero, suc, ◌+◌, ◌-◌, ◌*◌, ◌/◌, ◌%◌, ◌^◌, ◌≤◌, ◌<◌, String, ◌≡◌, refl, sym, ap, ◌∙◌, subst, ◌≢◌,
  ◌↔◌, ◌⊎◌, inl, inr, Bool, true, false, not, ◌&&◌, ◌||◌, Option, none, some, List, [], ◌∷◌, ◌++◌,
  map, arith, ◌==◌, eq_iff, eq_refl, ltb, leb, eqb, if◌then◌else◌, is_some, contains, has_prefix,
  ltb→lt, leb→le, eqb_iff, Bool-cases, Option-cases, length, is_empty, select, any, find_first, All,
  head?, All-select, All-map, All-append, All-select_of, length-append, length-select-le,
  length-map, is_some-find_first,
}
use karpenter_provider_yande.Prelude.Maps.{
  Map, Labels, lookup, insert, remove, at, assign, lookup-insert, lookup-remove, map_laws,
}
use karpenter_provider_yande.Prelude.Errors.{
  Error, Result, ok, err, message, api_error, wrap, Reason, not_found, conflict, unavailable,
  error_text, is_not_found, is_conflict, ◌>>=◌, or_wrap, ignore_not_found, says_not_found,
  Result-cases,
}
use karpenter_provider_yande.Prelude.Int.{ℤ, pos, eqb_ℤ, ltb_ℤ}
use karpenter_provider_yande.Prelude.Sort.{sort_slice}
use karpenter_provider_yande.Yandex.Platform.{
  PlatformId, platform_intel_broadwell, platform_intel_cascade_lake, platform_intel_ice_lake,
  platform_amd_zen3, platform_amd_zen4, platform_intel_ice_lake_compute_optimized,
  platform_amd_zen4_compute_optimized, platform_intel_broadwell_v100,
  platform_intel_cascade_lake_v100, platform_amd_epyc_a100, platform_amd_epyc_9474f_gen2,
  platform_intel_ice_lake_t4, platform_intel_ice_lake_t4i,
}
use karpenter_provider_yande.Yandex.Decimal.{parse_int}
use karpenter_provider_yande.InstanceTypes.Generator.Cores.{Dynamic, collected_cores}
use karpenter_provider_yande.InstanceTypes.Generator.Distinct.{remove_duplicates}

-- the parts of AllowedConfiguration and Platform that the program reads
pub record AllowedConfiguration : Type 0 where
  pub cores : Dynamic
  pub memory_per_core : List String
  pub core_fraction : String

pub record Platform : Type 0 where
  pub id : String
  pub allowed_configurations : List AllowedConfiguration
  pub reject_preemptible : Bool

pub record InstanceConfiguration (Float : Type 0) : Type 0 where
  pub core_fraction : ℤ
  pub vcpu : List ℤ
  pub memory_per_core : List Float
  pub can_be_preemptible : Bool

pub record RegionConfig (Float : Type 0) : Type 0 where
  pub region : String
  pub configurations : Map (List (InstanceConfiguration Float))

abbrev pub platform_mapping : Map PlatformId
platform_mapping =
    ("standard-v1", platform_intel_broadwell)
    ∷ ("standard-v2", platform_intel_cascade_lake)
    ∷ ("standard-v3", platform_intel_ice_lake)
    ∷ ("amd-v1", platform_amd_zen3)
    ∷ ("standard-v4a", platform_amd_zen4)
    ∷ ("highfreq-v3", platform_intel_ice_lake_compute_optimized)
    ∷ ("highfreq-v4a", platform_amd_zen4_compute_optimized)
    ∷ ("gpu-standard-v1", platform_intel_broadwell_v100)
    ∷ ("gpu-standard-v2", platform_intel_cascade_lake_v100)
    ∷ ("gpu-standard-v3", platform_amd_epyc_a100)
    ∷ ("gpu-standard-v3i", platform_amd_epyc_9474f_gen2)
    ∷ ("standard-v3-t4", platform_intel_ice_lake_t4)
    ∷ ("standard-v3-t4i", platform_intel_ice_lake_t4i)
    ∷ []

-- the switch over the fraction: none is its default case
unfoldable pub supported_fraction : ℤ → Option ℤ
supported_fraction z =
    if eqb_ℤ z (pos 5)
    then some (pos 5)
    else if eqb_ℤ z (pos 20)
    then some (pos 20)
    else if eqb_ℤ z (pos 50)
    then some (pos 50)
    else if eqb_ℤ z (pos 100)
    then some (pos 100)
    else none

-- what is read of the text of a fraction
unfoldable pub core_fraction_of : String → Option ℤ
unfolding supported_fraction
core_fraction_of s = elim (parse_int s) [ none ↦ none | some z ↦ supported_fraction z ]

-- float64: the division of an int64 by 2 ^ 30, ==, and the order of sort.Float64s
pub record Memories (Float : Type 0) : Type 0 where
  pub of_bytes : ℤ → Float
  pub same_float : Float → Float → Bool
  pub less_float : Float → Float → Bool

module _ {Float : Type 0} (ms : Memories Float) where
  -- the memories that can be read
  unfoldable pub collected_memory : List String → List Float
  collected_memory [] = []
  collected_memory (s ∷ ss) =
      let rest = collected_memory ss in
      elim (parse_int s) [ none ↦ rest | some bytes ↦ ms.of_bytes bytes ∷ rest ]

  unfoldable pub sorted_vcpus : List ℤ → List ℤ
  sorted_vcpus vcpus = sort_slice ltb_ℤ (remove_duplicates eqb_ℤ vcpus)

  unfoldable pub sorted_memory : List Float → List Float
  sorted_memory memory = sort_slice ms.less_float (remove_duplicates ms.same_float memory)

  -- the end of one turn: a configuration with cores and memory is appended
  unfoldable pub with_configuration :
      Bool
      → ℤ
      → List ℤ
      → List Float
      → List (InstanceConfiguration Float)
      → List (InstanceConfiguration Float)
  with_configuration reject fraction vcpus memory configurations =
      if not (is_empty vcpus) && not (is_empty memory)
      then configurations
        ++ (record {
          core_fraction = fraction;
          vcpu = vcpus;
          memory_per_core = memory;
          can_be_preemptible = not reject;
        }
            ∷ [])
      else configurations

  -- one turn of the loop over the allowed configurations, with its two uses of continue
  unfoldable pub add_configuration :
      Bool
      → AllowedConfiguration
      → List (InstanceConfiguration Float)
      → List (InstanceConfiguration Float)
  unfolding core_fraction_of sorted_vcpus sorted_memory collected_memory with_configuration
  add_configuration reject allowed configurations = elim (core_fraction_of allowed.core_fraction) [
    | none ↦ configurations
    | some fraction ↦ elim (collected_cores allowed.cores) [
      | none ↦ configurations
      | some cores ↦
          with_configuration reject fraction (sorted_vcpus cores)
            (sorted_memory (collected_memory allowed.memory_per_core)) configurations
    ]
  ]

  unfoldable pub add_configurations :
      Bool
      → List AllowedConfiguration
      → List (InstanceConfiguration Float)
      → List (InstanceConfiguration Float)
  unfolding add_configuration
  add_configurations reject [] configurations = configurations
  add_configurations reject (a ∷ rest) configurations =
      add_configurations reject rest (add_configuration reject a configurations)

  unfoldable pub store_configurations :
      Option PlatformId
      → List (InstanceConfiguration Float)
      → RegionConfig Float
      → RegionConfig Float
  store_configurations none cs config = config
  store_configurations (some id) [] config = config
  store_configurations (some id) (c ∷ cs) config = record config {
    configurations = insert id (c ∷ cs) config.configurations;
  }

  unfoldable pub process_platform : Platform → RegionConfig Float → RegionConfig Float
  unfolding add_configurations store_configurations
  process_platform platform config =
      store_configurations (lookup platform.id platform_mapping)
        (add_configurations platform.reject_preemptible platform.allowed_configurations []) config

  unfoldable pub process_platforms : List Platform → RegionConfig Float → RegionConfig Float
  unfolding process_platform
  process_platforms [] config = config
  process_platforms (p ∷ ps) config = process_platforms ps (process_platform p config)

  -- fetchConfigFromAPI, from what its request returns
  unfoldable pub fetch_config_from_api :
      Result (List Platform) → String → Result (RegionConfig Float)
  unfolding process_platforms
  fetch_config_from_api (err e) region = err e
  fetch_config_from_api (ok platforms) region =
      ok (process_platforms platforms (record { region = region; configurations = [] }))
