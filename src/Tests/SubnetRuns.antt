-- ===== src/Tests/SubnetRuns.antt =====
-- The subnet provider against a cloud with two subnets.
use mathlib.Core.List.{Perm}
use karpenter_provider_yande.Prelude.{
  ℕ, String, ◌≡◌, refl, none, some, List, [], ◌∷◌, ◌==◌, if◌then◌else◌,
}
use karpenter_provider_yande.Prelude.Maps.{lookup, insert}
use karpenter_provider_yande.Prelude.Errors.{Result, ok}
use karpenter_provider_yande.Prelude.Sort.{sort_slice, sort_insert}
use karpenter_provider_yande.NodeClass.Types.{SubnetSelectorTerm}
use karpenter_provider_yande.NodeClass.Selector.{VpcSubnet, keep}
use karpenter_provider_yande.Subnet.Capacity.{
  Subnet, addresses_of_mask, comes_before, calculate_ips,
}
use karpenter_provider_yande.Prelude.Int.{pos}
use karpenter_provider_yande.Subnet.Provider.{Answers, list, build, measure, total_ips}
use karpenter_provider_yande.Subnet.Provider.Kept.{Measures}
use karpenter_provider_yande.Subnet.Provider.Order.{Ordered}
use karpenter_provider_yande.Subnet.Provider.Laws.{list_fresh}
use karpenter_provider_yande.Tests.Instances.{map_cache}

abbrev vpc_subnets : List VpcSubnet
vpc_subnets =
    record {
      id = "s-a";
      zone_id = "ru-central1-a";
      labels = [];
      v4_cidr_blocks = "10.0.0.0/29" ∷ [];
    }
    ∷ record {
      id = "s-b";
      zone_id = "ru-central1-b";
      labels = [];
      v4_cidr_blocks = "10.1.0.0/28" ∷ [];
    }
    ∷ []

abbrev mask_of : String → Result ℕ
mask_of cidr = if cidr == "10.0.0.0/29" then ok 29 else ok 28

abbrev answers : Answers
answers = record {
  hash_key = λ terms. ok "key";
  list_network_subnets = ok vpc_subnets;
  used_ips = λ id. ok 1;
  parse_mask = mask_of;
}

abbrev terms : List SubnetSelectorTerm
terms = record { labels = []; id = "s-a" } ∷ record { labels = []; id = "s-b" } ∷ []

abbrev found : List Subnet
found =
    record { id = "s-b"; zone_id = "ru-central1-b"; available_ip_address_count = pos 13 }
    ∷ record { id = "s-a"; zone_id = "ru-central1-a"; available_ip_address_count = pos 5 }
    ∷ []

miss : lookup {V = List Subnet} "key" [] ≡ none
unfolding lookup
miss = refl

listed : (list (map_cache (List Subnet)) answers terms []).0 ≡ ok found
unfolding list build measure total_ips calculate_ips addresses_of_mask keep comes_before sort_slice
    sort_insert lookup insert
listed = refl

list_fresh_example :
    (subnets : List VpcSubnet) × (built : List Subnet) × (answers.list_network_subnets ≡ ok subnets)
    × Measures answers terms subnets built
    × Perm found built
    × Ordered found
    × (lookup "key" (list (map_cache (List Subnet)) answers terms []).1 ≡ some found)
list_fresh_example =
    list_fresh (map_cache (List Subnet)) answers terms [] "key" found refl miss listed
