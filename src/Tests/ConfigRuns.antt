-- ===== src/Tests/ConfigRuns.antt =====
-- A list of one platform, with cores in both forms and a memory that cannot be read.
use karpenter_provider_yande.Prelude.{is_empty, false, refl}
use karpenter_provider_yande.Prelude.Maps.{insert}
use karpenter_provider_yande.Prelude.Sort.{sort_slice, sort_insert}
use karpenter_provider_yande.Yandex.Decimal.{parse_int}
use karpenter_provider_yande.InstanceTypes.Generator.{
  process_platforms, process_platform, add_configurations, add_configuration, store_configurations,
  core_fraction_of, supported_fraction, sorted_vcpus, sorted_memory, collected_memory,
  with_configuration, InstanceConfiguration,
}
use karpenter_provider_yande.InstanceTypes.Generator.Cores.{
  collected_cores, add_items, add_item, add_entry, add_texts, add_text, add_core, entry,
}
use karpenter_provider_yande.InstanceTypes.Generator.Distinct.{remove_duplicates, add_unseen}
use karpenter_provider_yande.Prelude.{ℕ, ◌/◌, ◌^◌, ◌≡◌, true, false, List, [], ◌∷◌, arith, ltb, eqb}
use karpenter_provider_yande.Prelude.Maps.{lookup}
use karpenter_provider_yande.Prelude.Errors.{ok}
use karpenter_provider_yande.Prelude.Int.{pos_part}
use karpenter_provider_yande.InstanceTypes.Generator.{
  Platform, RegionConfig, Memories, fetch_config_from_api,
}
use karpenter_provider_yande.InstanceTypes.Generator.Cores.{
  text_value, list_value, object_value, no_values, value_then, no_entries, entry_then,
}
use karpenter_provider_yande.InstanceTypes.Generator.Laws.{
  IsWellFormed, fetch_config_from_api-IsWellFormed,
}
use karpenter_provider_yande.InstanceTypes.Generator.Output.{get_constant_name, config_file}
use karpenter_provider_yande.InstanceTypes.Generator.Constants.{config_file-fetch}
use karpenter_provider_yande.Tests.Instances.{ltb-IsLess}
use karpenter_provider_yande.Prelude.Int.{pos}
use karpenter_provider_yande.Prelude.{All}
use karpenter_provider_yande.Prelude.{some}

abbrev memories : Memories ℕ
memories = record { of_bytes = λ z. pos_part z / 2 ^ 30; same_float = eqb; less_float = ltb }

abbrev platforms : List Platform
platforms =
    record {
      id = "standard-v3";
      allowed_configurations =
          record {
            cores = list_value (
                value_then (text_value "4") (
                  value_then
                    (object_value (
                      entry_then "cores"
                        (list_value
                          (value_then (text_value "2") (value_then (text_value "4") no_values)))
                        no_entries))
                    no_values));
            memory_per_core = "2147483648" ∷ "1073741824" ∷ "?" ∷ [];
            core_fraction = "100";
          }
          ∷ [];
      reject_preemptible = false;
    }
    ∷ []

symmetric : (x y : ℕ) → eqb x y ≡ eqb y x
symmetric x y = ground arith

abbrev sorted_out : List (InstanceConfiguration ℕ)
sorted_out =
    record {
      core_fraction = pos 100;
      vcpu = pos 2 ∷ pos 4 ∷ [];
      memory_per_core = 1 ∷ 2 ∷ [];
      can_be_preemptible = true;
    }
    ∷ []

abbrev fetched : RegionConfig ℕ
fetched = record { region = "ru"; configurations = ("standard-v3", sorted_out) ∷ [] }

fetched_once : fetch_config_from_api memories (ok platforms) "ru" ≡ ok fetched
unfolding fetch_config_from_api process_platforms process_platform add_configurations
    add_configuration store_configurations core_fraction_of supported_fraction sorted_vcpus
    sorted_memory collected_memory with_configuration collected_cores add_items add_item add_entry
    add_texts add_text add_core entry remove_duplicates add_unseen sort_slice sort_insert parse_int
    lookup insert
fetched_once = refl

stored : lookup "standard-v3" fetched.configurations ≡ some sorted_out
unfolding lookup
stored = refl

fetch_config_from_api-IsWellFormed_example :
    (is_empty sorted_out ≡ false) × All (IsWellFormed memories ltb-IsLess symmetric) sorted_out
fetch_config_from_api-IsWellFormed_example =
    fetch_config_from_api-IsWellFormed memories ltb-IsLess symmetric platforms "ru" fetched
      "standard-v3" sorted_out fetched_once stored

config_file-fetch_example :
    lookup (get_constant_name "standard-v3") (config_file (λ a b. false) fetched).configurations
    ≡ lookup "standard-v3" fetched.configurations
config_file-fetch_example =
    config_file-fetch (λ a b. false) memories platforms "ru" fetched "standard-v3" fetched_once refl
