-- ===== src/Tests/TypeRuns.antt =====
-- One configuration of two sizes, in two zones.
use karpenter_provider_yande.Prelude.{
  ℕ, ◌≡◌, refl, true, none, some, List, [], ◌∷◌, ◌==◌, find_first,
}
use karpenter_provider_yande.Prelude.Maps.{Map, lookup, insert}
use karpenter_provider_yande.Prelude.Int.{pos}
use karpenter_provider_yande.Yandex.Decimal.{format_int}
use karpenter_provider_yande.Yandex.InstanceType.{string}
use karpenter_provider_yande.InstanceTypes.Requirements.{Scheduling, Requirement}
use karpenter_provider_yande.InstanceTypes.Provider.{
  InstanceConfiguration, InfoInstanceType, generate_instance_types, names_instance_type, add_names,
  add_configs, build_names, with_cpus, with_cpu,
}
use karpenter_provider_yande.Tests.YandexRuns.{unit_quantities, half_core}

abbrev configuration : Map (List (InstanceConfiguration ℕ))
configuration =
    (
      "standard-v3",
      record {
        core_fraction = pos 50;
        vcpu = 2 ∷ [];
        memory_per_core = 4 ∷ [];
        can_be_preemptible = true;
      }
          ∷ [],
    )
    ∷ []

abbrev half : InfoInstanceType Unit
half = record { info = half_core; can_be_preemptible = true }

half_named :
    lookup "standard-v3_1Gi_1Gi_50"
      (names_instance_type unit_quantities (λ n. tt) (λ m n. tt) configuration)
    ≡ some half
unfolding names_instance_type build_names add_configs add_names generate_instance_types with_cpus
    with_cpu insert lookup string format_int
half_named = refl

abbrev pub listed_requirements : Scheduling
listed_requirements = record {
  Requirements = List Requirement;
  new = λ rs. rs;
  add = λ r rs. r ∷ rs;
  values_of = λ key rs. elim (find_first (λ r. r.key == key) rs) [ none ↦ [] | some r ↦ r.values ];
}
