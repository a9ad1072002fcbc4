-- ===== src/InstanceTypes/Generator/Output.antt =====
-- generateConfigFile: the configurations under the names of the platforms' constants.
use karpenter_provider_yande.Prelude.{
  String, Bool, none, some, List, [], ◌∷◌, ◌++◌, map, ◌==◌, if◌then◌else◌,
}
use karpenter_provider_yande.Prelude.Maps.{Map, lookup, insert}
use karpenter_provider_yande.Prelude.Sort.{sort_slice}
use karpenter_provider_yande.Yandex.Platform.{
  PlatformId, platform_intel_broadwell, platform_intel_cascade_lake, platform_intel_ice_lake,
  platform_amd_zen3, platform_amd_zen4, platform_intel_ice_lake_compute_optimized,
  platform_amd_zen4_compute_optimized, platform_intel_broadwell_v100,
  platform_intel_cascade_lake_v100, platform_amd_epyc_a100, platform_amd_epyc_9474f_gen2,
  platform_intel_ice_lake_t4, platform_intel_ice_lake_t4i,
}
use karpenter_provider_yande.InstanceTypes.Generator.{InstanceConfiguration, RegionConfig}

-- getConstantName
unfoldable pub get_constant_name : PlatformId → String
get_constant_name platform_id =
    if platform_id == platform_intel_broadwell
    then "PlatformIntelBroadwell"
    else if platform_id == platform_intel_cascade_lake
    then "PlatformIntelCascadeLake"
    else if platform_id == platform_intel_ice_lake
    then "PlatformIntelIceLake"
    else if platform_id == platform_amd_zen3
    then "PlatformAMDZen3"
    else if platform_id == platform_amd_zen4
    then "PlatformAMDZen4"
    else if platform_id == platform_intel_ice_lake_compute_optimized
    then "PlatformIntelIceLakeComputeOptimized"
    else if platform_id == platform_amd_zen4_compute_optimized
    then "PlatformAmdZen4ComputeOptimized"
    else if platform_id == platform_intel_broadwell_v100
    then "PlatformIntelBroadwellNVIDIATeslaV100"
    else if platform_id == platform_intel_cascade_lake_v100
    then "PlatformIntelCascadeLakeNVIDIATeslaV100"
    else if platform_id == platform_amd_epyc_a100
    then "PlatformAMDEPYCNVIDIAAmpereA100"
    else if platform_id == platform_amd_epyc_9474f_gen2
    then "PlatformAMDEPYC9474FGen2"
    else if platform_id == platform_intel_ice_lake_t4
    then "PlatformIntelIceLakeNVIDIATeslaT4"
    else if platform_id == platform_intel_ice_lake_t4i
    then "PlatformIntelIceLakeNVIDIATeslaT4i"
    else platform_id

-- the template's data beside the time, before the template prints it: the memory per core is
-- printed with %.2f
pub record ConfigFile (Float : Type 0) : Type 0 where
  pub region : String
  pub configurations : Map (List (InstanceConfiguration Float))

module _ {Float : Type 0} where
  -- the copy of one configuration, field by field
  unfoldable pub converted_configs :
      List (InstanceConfiguration Float)
      → List (InstanceConfiguration Float)
      → List (InstanceConfiguration Float)
  converted_configs [] converted = converted
  converted_configs (c ∷ cs) converted = converted_configs cs (
      converted
      ++ (record {
        core_fraction = c.core_fraction;
        vcpu = c.vcpu;
        memory_per_core = c.memory_per_core;
        can_be_preemptible = c.can_be_preemptible;
      }
          ∷ []))

  -- config.Configurations[id], nil where it is missing
  unfoldable pub configurations_at :
      String → Map (List (InstanceConfiguration Float)) → List (InstanceConfiguration Float)
  configurations_at id m = elim (lookup id m) [ none ↦ [] | some cs ↦ cs ]

  unfoldable pub convert_configurations :
      List String
      → Map (List (InstanceConfiguration Float))
      → Map (List (InstanceConfiguration Float))
      → Map (List (InstanceConfiguration Float))
  unfolding converted_configs configurations_at
  convert_configurations [] m data_configurations = data_configurations
  convert_configurations (id ∷ ids) m data_configurations = convert_configurations ids m (
      insert (get_constant_name id) (converted_configs (configurations_at id m) [])
        data_configurations)

  -- `less` is the order of sort.Strings
  unfoldable pub config_file : (String → String → Bool) → RegionConfig Float → ConfigFile Float
  unfolding convert_configurations
  config_file less config = record {
    region = config.region;
    configurations =
        convert_configurations (sort_slice less (map (λ e. e.0) config.configurations))
          config.configurations [];
  }
