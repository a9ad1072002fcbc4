-- ===== src/Tests/PriceRuns.antt =====
-- A price list of two pages, and the types of the region.
use karpenter_provider_yande.Prelude.Maps.{insert}
use karpenter_provider_yande.Pricing.Generator.{
  PlatformPricing, get_currency, set_fraction, unit_price_of, first_rate,
}
use karpenter_provider_yande.Pricing.Generator.Skus.{
  process_sku, price_of_sku, set_platform, platform_of, priced_platform,
}
use karpenter_provider_yande.Pricing.Generator.Disks.{process_disk_sku, is_disk}
use karpenter_provider_yande.Pricing.Generator.Pages.{
  fetch_pages, turn, page_of, add_sku, or_platform, is_skipped,
}
use mathlib.Core.List.{Memᴰ}
use karpenter_provider_yande.Prelude.{
  ℕ, ◌+◌, ◌*◌, ◌/◌, ◌^◌, ◌<◌, String, ◌≡◌, refl, true, false, ◌&&◌, none, some, List, [], ◌∷◌,
  arith, ◌==◌, if◌then◌else◌, is_some, any,
}
use karpenter_provider_yande.Prelude.Maps.{lookup}
use karpenter_provider_yande.Prelude.Errors.{ok}
use karpenter_provider_yande.Prelude.Int.{pos, pos_part}
use karpenter_provider_yande.Prelude.{ne_of_test}
use karpenter_provider_yande.Yandex.InstanceType.{InstanceType, string}
use karpenter_provider_yande.Pricing.Generator.{Sku, PriceResponse, RegionPricing}
use karpenter_provider_yande.Pricing.Generator.Names
use karpenter_provider_yande.Pricing.Generator.Names.{extract_fraction_from_sku}
use karpenter_provider_yande.Pricing.Generator.Laws.{extract_fraction_from_sku-texts}
use karpenter_provider_yande.Pricing.Generator.Skus.{Parsing}
use karpenter_provider_yande.Pricing.Generator.Pages.{
  Response, page, add_skus, no_pricing, fetch_pricing_from_api,
}
use karpenter_provider_yande.Pricing.Generator.Sources.{PlatformSourced}
use karpenter_provider_yande.Pricing.Generator.Paging.{
  Paged, last, next, fetch_pricing_from_api-Paged, fetch_pricing_from_api-PlatformSourced,
}
use karpenter_provider_yande.Pricing.Provider.{Floats}
use karpenter_provider_yande.Pricing.Table.{ru_pricing}
use karpenter_provider_yande.InstanceTypes.Generator.Output.{get_constant_name}
use karpenter_provider_yande.InstanceTypes.Generator.Constants.{get_constant_name-same}
use karpenter_provider_yande.InstanceTypes.Provider.{InstanceConfiguration}
use karpenter_provider_yande.InstanceTypes.Configuration.{ru_available_configurations}
use karpenter_provider_yande.InstanceTypes.Requirements.{Requirement, kube_reserved_memory}
use karpenter_provider_yande.InstanceTypes.NewType.{
  kube_reserved_cpu, kube_reserved_ephemeral_storage, eviction_memory, eviction_storage,
}
use karpenter_provider_yande.InstanceTypes.Overhead.{overhead-less}
use karpenter_provider_yande.InstanceTypes.Offerings.{OfferedType, inject}
use karpenter_provider_yande.InstanceTypes.Prices.{
  CapacityTypes, both, default_pricing, inject-ru_configurations,
}
use karpenter_provider_yande.Tests.YandexRuns.{unit_quantities, half_core}
use karpenter_provider_yande.Tests.TypeRuns.{listed_requirements}
use karpenter_provider_yande.Yandex.Decimal.{format_int}
use karpenter_provider_yande.Tests.NodeClassRuns.{class}

-- prices in hundredths of a rouble
abbrev parsing : Parsing ℕ
parsing = record { zero_price = 0; parse_float = λ s. if s == "1.15" then some 115 else none }

abbrev core_sku : Sku
core_sku = record {
  id = "sku-1";
  name = "intel ice lake. 100% vcpu";
  pricing_unit = "core*hour";
  deprecated = false;
  pricing_versions =
      record {
        id = "v1";
        pricing_expression = record {
          quantum = "1";
          rates = record { start_pricing_quantity = "0"; unit_price = "1.15" } ∷ [];
        };
      }
      ∷ [];
}

abbrev first_page : PriceResponse
first_page = record { skus = core_sku ∷ []; next_page_token = "2" }

abbrev second_page : PriceResponse
second_page = record { skus = []; next_page_token = "" }

abbrev price_list : String → Response
price_list token = if token == "" then page first_page else page second_page

abbrev same_text : String → String
same_text s = s

two_pages : Paged price_list "" (first_page ∷ second_page ∷ [])
two_pages =
    next "" first_page (second_page ∷ []) refl (ne_of_test "2" "" refl)
      (last "2" second_page refl refl)

fetch_pricing_from_api-Paged_example :
    fetch_pricing_from_api parsing same_text price_list 2 "ru"
    ≡ some (ok (add_skus parsing same_text (core_sku ∷ []) (no_pricing parsing same_text "ru")))
fetch_pricing_from_api-Paged_example =
    fetch_pricing_from_api-Paged parsing same_text price_list (first_page ∷ second_page ∷ []) 2 "ru"
      two_pages (omega arith)

abbrev ice_lake_prices : PlatformPricing ℕ
ice_lake_prices = record {
  platform_id = "standard-v3";
  per_fraction = (pos 100, 115) ∷ [];
  preemptible_per_fraction = [];
  ram = 0;
  preemptible_ram = 0;
}

abbrev fetched : RegionPricing ℕ
fetched = record {
  region = "ru";
  currency = "RUB";
  platforms = ("standard-v3", ice_lake_prices) ∷ [];
  disks = record { ssd = 0; hdd = 0; ssd_nonreplicated = 0; ssd_io = 0 };
}

fetched_once : fetch_pricing_from_api parsing same_text price_list 2 "ru" ≡ some (ok fetched)
unfolding fetch_pricing_from_api fetch_pages turn page_of add_skus add_sku or_platform process_sku
    process_disk_sku is_disk is_skipped price_of_sku unit_price_of first_rate set_platform
    platform_of priced_platform set_fraction Names.find_platform_from_sku Names.find_ice_lake
    extract_fraction_from_sku Names.is_preemptible get_currency lookup insert
fetched_once = refl

stored : lookup "standard-v3" fetched.platforms ≡ some ice_lake_prices
unfolding lookup
stored = refl

fetch_pricing_from_api-PlatformSourced_example :
    PlatformSourced parsing same_text (core_sku ∷ []) "standard-v3" ice_lake_prices
fetch_pricing_from_api-PlatformSourced_example =
    fetch_pricing_from_api-PlatformSourced parsing same_text price_list
      (first_page ∷ second_page ∷ []) 2 "ru" fetched "standard-v3" ice_lake_prices two_pages
      (omega arith) fetched_once stored

extract_fraction_from_sku-texts_example : extract_fraction_from_sku "regular vcpu 15%" ≡ pos 5
extract_fraction_from_sku-texts_example = extract_fraction_from_sku-texts "regular vcpu 15%"

get_constant_name-same_example :
    Names.get_constant_name "standard-v3" ≡ get_constant_name "standard-v3"
get_constant_name-same_example =
    get_constant_name-same "standard-v3" (ne_of_test "standard-v3" "standard-v3-t4i" refl)

overhead-less_example :
    (kube_reserved_cpu 2 < 1000 * 2)
    × (kube_reserved_memory (2 ^ 32) + eviction_memory < 2 ^ 32)
    × (kube_reserved_ephemeral_storage + pos_part (eviction_storage (pos (2 ^ 35))) < 2 ^ 35)
overhead-less_example = overhead-less 2 (2 ^ 32) (2 ^ 35) (omega arith) (omega arith) (omega arith)

abbrev floats : Floats Unit
floats = record {
  Float = ℕ;
  decimal = λ n. n;
  of_int = pos_part;
  plus = λ a b. a + b;
  times = λ a b. a * b;
  over = λ a n. a / n;
  approximate = λ q. 2;
  value = λ q. pos (2 ^ 33);
}

abbrev broadwell : InstanceType Unit
broadwell = record { platform = "standard-v1"; cpu = tt; memory = tt; core_fraction = pos 5 }

abbrev small_share : InstanceConfiguration ℕ
small_share = record {
  core_fraction = pos 5;
  vcpu = 2 ∷ 4 ∷ [];
  memory_per_core = 50 ∷ 100 ∷ 150 ∷ 200 ∷ [];
  can_be_preemptible = true;
}

abbrev broadwell_configurations : List (InstanceConfiguration ℕ)
broadwell_configurations =
    small_share
    ∷ record {
      core_fraction = pos 20;
      vcpu = 2 ∷ 4 ∷ [];
      memory_per_core = 50 ∷ 100 ∷ 150 ∷ 200 ∷ 250 ∷ 300 ∷ 350 ∷ 400 ∷ [];
      can_be_preemptible = true;
    }
    ∷ record {
      core_fraction = pos 100;
      vcpu = 2 ∷ 4 ∷ 6 ∷ 8 ∷ 10 ∷ 12 ∷ 14 ∷ 16 ∷ 20 ∷ 24 ∷ 28 ∷ 32 ∷ [];
      memory_per_core = 100 ∷ 200 ∷ 300 ∷ 400 ∷ 500 ∷ 600 ∷ 700 ∷ 800 ∷ [];
      can_be_preemptible = true;
    }
    ∷ []

sold : lookup "standard-v1" ru_available_configurations ≡ some broadwell_configurations
unfolding lookup
sold = refl

abbrev offered : OfferedType (List Requirement) ℕ Unit
offered = record {
  name = "standard-v1_1Gi_1Gi_5";
  requirements =
      record { key = "karpenter.sh/capacity-type"; values = "on-demand" ∷ "spot" ∷ [] }
      ∷ record { key = "topology.kubernetes.io/zone"; values = "a" ∷ [] }
      ∷ [];
  offerings = [];
  resources = tt;
}

offered_name : offered.name ≡ string unit_quantities broadwell
unfolding string format_int
offered_name = refl

both_types :
    CapacityTypes true
      (listed_requirements.values_of "karpenter.sh/capacity-type" offered.requirements)
both_types = both

inject-ru_configurations_example :
    (it' : OfferedType (List Requirement) ℕ Unit) × (inject unit_quantities listed_requirements
        (default_pricing floats)
        half_core
        class
        ("a" ∷ "b" ∷ [])
        offered
      ≡ some it')
    × (any (λ o. o.available) it'.offerings ≡ (
        is_some (lookup "standard-v1" (ru_pricing floats))
        && any
            (λ zone.
              any
                (λ z. z == zone)
                (listed_requirements.values_of "topology.kubernetes.io/zone" offered.requirements))
            ("a" ∷ "b" ∷ [])))
inject-ru_configurations_example =
    inject-ru_configurations unit_quantities listed_requirements floats half_core broadwell class
      ("a" ∷ "b" ∷ []) broadwell_configurations small_share offered sold (Memᴰ.head refl) refl
      (refl, (refl, (refl, (refl, (refl, (refl, (refl, (refl, (refl, (refl, (refl, tt)))))))))))
      (omega arith) offered_name both_types
