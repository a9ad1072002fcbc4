-- ===== src/InstanceTypes/Configuration.antt =====
-- ru.configuration.go: what the region sells. The memory per core is in hundredths of a GiB.
use karpenter_provider_yande.Prelude.{ℕ, List, [], ◌∷◌, true, false}
use karpenter_provider_yande.Prelude.Maps.{Map}
use karpenter_provider_yande.Prelude.Int.{pos}
use karpenter_provider_yande.Yandex.Platform.{
  platform_amd_epyc_9474f_gen2, platform_amd_epyc_a100, platform_intel_broadwell,
  platform_intel_broadwell_v100, platform_intel_cascade_lake, platform_intel_cascade_lake_v100,
  platform_intel_ice_lake, platform_intel_ice_lake_compute_optimized, platform_intel_ice_lake_t4,
  platform_intel_ice_lake_t4i,
}
use karpenter_provider_yande.InstanceTypes.Provider.{InstanceConfiguration}

abbrev pub ru_available_configurations : Map (List (InstanceConfiguration ℕ))
ru_available_configurations =
    (
      platform_amd_epyc_9474f_gen2,
      record {
        core_fraction = pos 100;
        vcpu = 18 ∷ 36 ∷ 72 ∷ 180 ∷ [];
        memory_per_core = 800 ∷ [];
        can_be_preemptible = true;
      }
          ∷ [],
    )
    ∷ (
      platform_amd_epyc_a100,
      record {
        core_fraction = pos 100;
        vcpu = 28 ∷ 56 ∷ 112 ∷ 224 ∷ [];
        memory_per_core = 425 ∷ [];
        can_be_preemptible = true;
      }
          ∷ [],
    )
    ∷ (
      platform_intel_broadwell,
      record {
        core_fraction = pos 5;
        vcpu = 2 ∷ 4 ∷ [];
        memory_per_core = 50 ∷ 100 ∷ 150 ∷ 200 ∷ [];
        can_be_preemptible = true;
      }
          ∷ record {
            core_fraction = pos 20;
            vcpu = 2 ∷ 4 ∷ [];
            memory_per_core = 50 ∷ 100 ∷ 150 ∷ 200 ∷ 250 ∷ 300 ∷ 350 ∷ 400 ∷ [];
            can_be_preemptible = true;
          }
          ∷ record {
            core_fraction = pos 100;
            vcpu = 2 ∷ 4 ∷ 6 ∷ 8 ∷ 10 ∷ 12 ∷ 14 ∷ 16 ∷ 20 ∷ 24 ∷ 28 ∷ 32 ∷ [];
            memory_per_core = 100 ∷ 200 ∷ 300 ∷ 400 ∷ 500 ∷ 600 ∷ 700 ∷ 800 ∷ [];
            can_be_preemptible = true;
          }
          ∷ [],
    )
    ∷ (
      platform_intel_broadwell_v100,
      record {
        core_fraction = pos 100;
        vcpu = 8 ∷ 16 ∷ 32 ∷ [];
        memory_per_core = 1200 ∷ [];
        can_be_preemptible = true;
      }
          ∷ [],
    )
    ∷ (
      platform_intel_cascade_lake,
      record {
        core_fraction = pos 5;
        vcpu = 2 ∷ 4 ∷ [];
        memory_per_core = 25 ∷ 50 ∷ 100 ∷ 150 ∷ 200 ∷ [];
        can_be_preemptible = true;
      }
          ∷ record {
            core_fraction = pos 20;
            vcpu = 2 ∷ 4 ∷ [];
            memory_per_core = 50 ∷ 100 ∷ 150 ∷ 200 ∷ 250 ∷ 300 ∷ 350 ∷ 400 ∷ [];
            can_be_preemptible = true;
          }
          ∷ record {
            core_fraction = pos 50;
            vcpu = 2 ∷ 4 ∷ [];
            memory_per_core = 50 ∷ 100 ∷ 150 ∷ 200 ∷ 250 ∷ 300 ∷ 350 ∷ 400 ∷ [];
            can_be_preemptible = true;
          }
          ∷ record {
            core_fraction = pos 100;
            vcpu =
                2 ∷ 4 ∷ 6 ∷ 8 ∷ 10 ∷ 12 ∷ 14 ∷ 16 ∷ 20 ∷ 24 ∷ 28 ∷ 32 ∷ 36 ∷ 40 ∷ 44 ∷ 48 ∷ 52 ∷ 56
                ∷ 60 ∷ 64 ∷ 68 ∷ 72 ∷ 76 ∷ 80 ∷ [];
            memory_per_core =
                100 ∷ 200 ∷ 300 ∷ 400 ∷ 500 ∷ 600 ∷ 700 ∷ 800 ∷ 900 ∷ 1000 ∷ 1100 ∷ 1200 ∷ 1300
                ∷ 1400 ∷ 1500 ∷ 1600 ∷ [];
            can_be_preemptible = true;
          }
          ∷ [],
    )
    ∷ (
      platform_intel_cascade_lake_v100,
      record {
        core_fraction = pos 100;
        vcpu = 8 ∷ 16 ∷ 32 ∷ 64 ∷ [];
        memory_per_core = 600 ∷ [];
        can_be_preemptible = true;
      }
          ∷ [],
    )
    ∷ (
      platform_intel_ice_lake,
      record {
        core_fraction = pos 20;
        vcpu = 2 ∷ 4 ∷ [];
        memory_per_core = 50 ∷ 100 ∷ 150 ∷ 200 ∷ 250 ∷ 300 ∷ 350 ∷ 400 ∷ [];
        can_be_preemptible = true;
      }
          ∷ record {
            core_fraction = pos 50;
            vcpu = 2 ∷ 4 ∷ [];
            memory_per_core = 50 ∷ 100 ∷ 150 ∷ 200 ∷ 250 ∷ 300 ∷ 350 ∷ 400 ∷ [];
            can_be_preemptible = true;
          }
          ∷ record {
            core_fraction = pos 100;
            vcpu =
                2 ∷ 4 ∷ 6 ∷ 8 ∷ 10 ∷ 12 ∷ 14 ∷ 16 ∷ 20 ∷ 24 ∷ 28 ∷ 32 ∷ 36 ∷ 40 ∷ 44 ∷ 48 ∷ 52 ∷ 56
                ∷ 60 ∷ 64 ∷ 68 ∷ 72 ∷ 76 ∷ 80 ∷ 84 ∷ 88 ∷ 92 ∷ 96 ∷ [];
            memory_per_core =
                100 ∷ 200 ∷ 300 ∷ 400 ∷ 500 ∷ 600 ∷ 700 ∷ 800 ∷ 900 ∷ 1000 ∷ 1100 ∷ 1200 ∷ 1300
                ∷ 1400 ∷ 1500 ∷ 1600 ∷ [];
            can_be_preemptible = true;
          }
          ∷ [],
    )
    ∷ (
      platform_intel_ice_lake_compute_optimized,
      record {
        core_fraction = pos 100;
        vcpu =
            2 ∷ 4 ∷ 6 ∷ 8 ∷ 10 ∷ 12 ∷ 14 ∷ 16 ∷ 20 ∷ 24 ∷ 28 ∷ 32 ∷ 36 ∷ 40 ∷ 44 ∷ 48 ∷ 52 ∷ 56
            ∷ [];
        memory_per_core =
            100 ∷ 200 ∷ 300 ∷ 400 ∷ 500 ∷ 600 ∷ 700 ∷ 800 ∷ 900 ∷ 1000 ∷ 1100 ∷ 1200 ∷ 1300 ∷ 1400
            ∷ 1500 ∷ 1600 ∷ [];
        can_be_preemptible = false;
      }
          ∷ [],
    )
    ∷ (
      platform_intel_ice_lake_t4,
      record {
        core_fraction = pos 100;
        vcpu = 4 ∷ 8 ∷ 16 ∷ 32 ∷ [];
        memory_per_core = 400 ∷ [];
        can_be_preemptible = true;
      }
          ∷ [],
    )
    ∷ (
      platform_intel_ice_lake_t4i,
      record {
        core_fraction = pos 100;
        vcpu = 4 ∷ 8 ∷ 16 ∷ 32 ∷ [];
        memory_per_core = 400 ∷ [];
        can_be_preemptible = true;
      }
          ∷ [],
    )
    ∷ []
