-- ===== src/Pricing/Table.antt =====
-- ru.pricing.go: the prices of an hour, literals with four decimals.
use karpenter_provider_yande.Prelude.{[], ◌∷◌}
use karpenter_provider_yande.Prelude.Maps.{Map}
use karpenter_provider_yande.Prelude.Int.{pos}
use karpenter_provider_yande.Yandex.Platform.{
  platform_amd_zen3, platform_amd_zen4_compute_optimized, platform_intel_broadwell,
  platform_intel_cascade_lake, platform_intel_ice_lake, platform_intel_ice_lake_compute_optimized,
  ssd, hdd, ssd_nonreplicated, ssd_io,
}
use karpenter_provider_yande.Pricing.Provider.{Floats, PricingPlatform}

module _ {Quantity : Type 0} (f : Floats Quantity) where
  abbrev pub ru_pricing : Map (PricingPlatform f.Float)
  ru_pricing =
      (
        platform_amd_zen3,
        record {
          per_fraction =
              (pos 20, f.decimal 4752) ∷ (pos 50, f.decimal 6912) ∷ (pos 100, f.decimal 11340) ∷ [];
          preemptible_per_fraction =
              (pos 20, f.decimal 1512) ∷ (pos 50, f.decimal 2160) ∷ (pos 100, f.decimal 3132) ∷ [];
          ram = f.decimal 3024;
          preemptible_ram = f.decimal 756;
        },
      )
      ∷ (
        platform_amd_zen4_compute_optimized,
        record {
          per_fraction =
              (pos 20, f.decimal 4580)
              ∷ (pos 50, f.decimal 11450)
              ∷ (pos 100, f.decimal 22900)
              ∷ [];
          preemptible_per_fraction =
              (pos 20, f.decimal 1374) ∷ (pos 50, f.decimal 3435) ∷ (pos 100, f.decimal 16030) ∷ [];
          ram = f.decimal 4200;
          preemptible_ram = f.decimal 1260;
        },
      )
      ∷ (
        platform_intel_broadwell,
        record {
          per_fraction =
              (pos 5, f.decimal 3193) ∷ (pos 20, f.decimal 9064) ∷ (pos 100, f.decimal 11536) ∷ [];
          preemptible_per_fraction =
              (pos 5, f.decimal 1957) ∷ (pos 20, f.decimal 2781) ∷ (pos 100, f.decimal 3502) ∷ [];
          ram = f.decimal 4017;
          preemptible_ram = f.decimal 1236;
        },
      )
      ∷ (
        platform_intel_cascade_lake,
        record {
          per_fraction =
              (pos 5, f.decimal 1728)
              ∷ (pos 20, f.decimal 5292)
              ∷ (pos 50, f.decimal 7776)
              ∷ (pos 100, f.decimal 12852)
              ∷ [];
          preemptible_per_fraction =
              (pos 5, f.decimal 1080)
              ∷ (pos 20, f.decimal 1728)
              ∷ (pos 50, f.decimal 2376)
              ∷ (pos 100, f.decimal 3456)
              ∷ [];
          ram = f.decimal 3348;
          preemptible_ram = f.decimal 756;
        },
      )
      ∷ (
        platform_intel_ice_lake,
        record {
          per_fraction =
              (pos 20, f.decimal 4752) ∷ (pos 50, f.decimal 6912) ∷ (pos 100, f.decimal 11340) ∷ [];
          preemptible_per_fraction =
              (pos 20, f.decimal 1512) ∷ (pos 50, f.decimal 2160) ∷ (pos 100, f.decimal 3132) ∷ [];
          ram = f.decimal 3024;
          preemptible_ram = f.decimal 756;
        },
      )
      ∷ (
        platform_intel_ice_lake_compute_optimized,
        record {
          per_fraction = (pos 100, f.decimal 19008) ∷ [];
          preemptible_per_fraction = [];
          ram = f.decimal 3456;
          preemptible_ram = f.decimal 0;
        },
      )
      ∷ []

  -- of 1 GB of disk
  abbrev pub ru_disk_pricing : Map f.Float
  ru_disk_pricing =
      (ssd, f.decimal 179)
      ∷ (hdd, f.decimal 44)
      ∷ (ssd_nonreplicated, f.decimal 132)
      ∷ (ssd_io, f.decimal 297)
      ∷ []
