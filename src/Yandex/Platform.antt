-- ===== src/Yandex/Platform.antt =====
-- The constants of pkg/yandex/types.go: platforms, core fractions and disk types.
use karpenter_provider_yande.Prelude.Int.{ℤ}
use karpenter_provider_yande.Prelude.{String}

abbrev pub PlatformId : Type 0
PlatformId = String

abbrev pub platform_unknown : PlatformId
platform_unknown = "unknown"

abbrev pub platform_intel_broadwell : PlatformId
platform_intel_broadwell = "standard-v1"

abbrev pub platform_intel_cascade_lake : PlatformId
platform_intel_cascade_lake = "standard-v2"

abbrev pub platform_intel_ice_lake : PlatformId
platform_intel_ice_lake = "standard-v3"

abbrev pub platform_amd_zen3 : PlatformId
platform_amd_zen3 = "amd-v1"

abbrev pub platform_amd_zen4 : PlatformId
platform_amd_zen4 = "standard-v4a"

abbrev pub platform_intel_ice_lake_compute_optimized : PlatformId
platform_intel_ice_lake_compute_optimized = "highfreq-v3"

abbrev pub platform_amd_zen4_compute_optimized : PlatformId
platform_amd_zen4_compute_optimized = "highfreq-v4a"

abbrev pub platform_intel_broadwell_v100 : PlatformId
platform_intel_broadwell_v100 = "gpu-standard-v1"

abbrev pub platform_intel_cascade_lake_v100 : PlatformId
platform_intel_cascade_lake_v100 = "gpu-standard-v2"

abbrev pub platform_amd_epyc_a100 : PlatformId
platform_amd_epyc_a100 = "gpu-standard-v3"

abbrev pub platform_amd_epyc_9474f_gen2 : PlatformId
platform_amd_epyc_9474f_gen2 = "gpu-standard-v3i"

abbrev pub platform_intel_ice_lake_t4 : PlatformId
platform_intel_ice_lake_t4 = "standard-v3-t4"

abbrev pub platform_intel_ice_lake_t4i : PlatformId
platform_intel_ice_lake_t4i = "standard-v3-t4i"

abbrev pub DiskType : Type 0
DiskType = String

abbrev pub ssd : DiskType
ssd = "network-ssd"

abbrev pub hdd : DiskType
hdd = "network-hdd"

abbrev pub ssd_nonreplicated : DiskType
ssd_nonreplicated = "network-ssd-nonreplicated"

abbrev pub ssd_io : DiskType
ssd_io = "network-ssd-io-m3"

-- Disk: the size, an int64, in GiB
pub record Disk : Type 0 where
  pub type : DiskType
  pub size : ℤ
