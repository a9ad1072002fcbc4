-- ===== src/Pricing/Generator/Names.antt =====
-- The platform and the core fraction that the name of a SKU speaks of. `name` is the name in lower
-- case throughout.
use karpenter_provider_yande.Prelude.{
  String, Bool, ◌&&◌, ◌||◌, Option, none, some, [], ◌∷◌, ◌==◌, if◌then◌else◌, contains,
}
use karpenter_provider_yande.Prelude.Maps.{Map, lookup}
use karpenter_provider_yande.Prelude.Int.{ℤ, pos}
use karpenter_provider_yande.Yandex.Platform.{
  PlatformId, platform_unknown, platform_intel_broadwell, platform_intel_cascade_lake,
  platform_intel_ice_lake, platform_amd_zen3, platform_amd_zen4,
  platform_intel_ice_lake_compute_optimized, platform_amd_zen4_compute_optimized,
  platform_intel_broadwell_v100, platform_intel_cascade_lake_v100, platform_amd_epyc_a100,
  platform_amd_epyc_9474f_gen2, platform_intel_ice_lake_t4, platform_intel_ice_lake_t4i,
}
use karpenter_provider_yande.Pricing.Generator.Percent.{find_percent}

unfoldable pub find_ice_lake : String → PlatformId
find_ice_lake name =
    if contains name "tesla" && contains name "t4"
    then if contains name "t4i" then platform_intel_ice_lake_t4i else platform_intel_ice_lake_t4
    else if contains name "compute" || contains name "highfreq"
    then platform_intel_ice_lake_compute_optimized
    else platform_intel_ice_lake

unfoldable pub find_amd : String → PlatformId
find_amd name =
    if contains name "9474f" || contains name "gen2"
    then platform_amd_epyc_9474f_gen2
    else if contains name "ampere" || contains name "a100"
    then platform_amd_epyc_a100
    else if contains name "compute" || contains name "highfreq"
    then platform_amd_zen4_compute_optimized
    else if contains name "standard-v4a"
    then platform_amd_zen4
    else platform_amd_zen3

unfoldable pub find_platform_from_sku : String → PlatformId
unfolding find_ice_lake find_amd
find_platform_from_sku name =
    if contains name "broadwell"
    then if contains name "tesla" || contains name "v100"
      then platform_intel_broadwell_v100
      else platform_intel_broadwell
    else if contains name "cascade"
    then if contains name "tesla" || contains name "v100"
      then platform_intel_cascade_lake_v100
      else platform_intel_cascade_lake
    else if contains name "ice"
    then find_ice_lake name
    else if contains name "amd" || contains name "epyc"
    then find_amd name
    else platform_unknown

abbrev pub fraction_mapping : Map ℤ
fraction_mapping = ("5", pos 5) ∷ ("20", pos 20) ∷ ("50", pos 50) ∷ ("100", pos 100) ∷ []

abbrev pub or_whole : Option ℤ → ℤ
or_whole none = pos 100
or_whole (some z) = z

-- fractionMapping of the match of (\d+)%, or 100
unfoldable pub matched_fraction : Option String → ℤ
matched_fraction none = pos 100
matched_fraction (some group) = or_whole (lookup group fraction_mapping)

unfoldable pub extract_fraction_from_sku : String → ℤ
unfolding matched_fraction
extract_fraction_from_sku name =
    if contains name "5%"
    then pos 5
    else if contains name "20%"
    then pos 20
    else if contains name "50%"
    then pos 50
    else if contains name "100%"
    then pos 100
    else matched_fraction (find_percent name)

unfoldable pub is_preemptible : String → Bool
is_preemptible name = contains name "preemptible" || contains name "прерываем"

-- getConstantName
unfoldable pub get_constant_name : PlatformId → String
get_constant_name platform_id =
    if platform_id == platform_intel_broadwell
    then "PlatformIntelBroadwell"
    else if platform_id == platform_intel_cascade_lake
    then "PlatformIntelCascadeLake"
    else if platform_id == platform_intel_ice_lake
    then "PlatformIntelIceLake"
    else if platform_id == platform_amd_zen3
    then "PlatformAMDZen3"
    else if platform_id == platform_amd_zen4
    then "PlatformAMDZen4"
    else if platform_id == platform_intel_ice_lake_compute_optimized
    then "PlatformIntelIceLakeComputeOptimized"
    else if platform_id == platform_amd_zen4_compute_optimized
    then "PlatformAmdZen4ComputeOptimized"
    else if platform_id == platform_intel_broadwell_v100
    then "PlatformIntelBroadwellNVIDIATeslaV100"
    else if platform_id == platform_intel_cascade_lake_v100
    then "PlatformIntelCascadeLakeNVIDIATeslaV100"
    else if platform_id == platform_amd_epyc_a100
    then "PlatformAMDEPYCNVIDIAAmpereA100"
    else if platform_id == platform_amd_epyc_9474f_gen2
    then "PlatformAMDEPYC9474FGen2"
    else if platform_id == platform_intel_ice_lake_t4
    then "PlatformIntelIceLakeNVIDIATeslaT4"
    else if platform_id == platform_intel_ice_lake_t4i
    then "PlatformIntelIceLakeNVIDIaTeslaT4i"
    else platform_id
