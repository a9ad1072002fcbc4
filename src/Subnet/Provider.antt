-- ===== src/Subnet/Provider.antt =====
-- DefaultProvider.List: the cached, sorted list of the subnets that the selector terms keep.
pub mod Kept
pub mod Order
pub mod Laws
use karpenter_provider_yande.Prelude.{
  ℕ, zero, suc, ◌+◌, ◌-◌, ◌*◌, ◌/◌, ◌%◌, ◌^◌, ◌≤◌, ◌<◌, String, ◌≡◌, refl, sym, ap, ◌∙◌, subst, ◌≢◌,
  ◌↔◌, ◌⊎◌, inl, inr, Bool, true, false, not, ◌&&◌, ◌||◌, Option, none, some, List, [], ◌∷◌, ◌++◌,
  map, arith, ◌==◌, eq_iff, eq_refl, ltb, leb, eqb, if◌then◌else◌, is_some, contains, has_prefix,
  ltb→lt, leb→le, eqb_iff, Bool-cases, Option-cases, length, is_empty, select, any, find_first, All,
  head?, All-select, All-map, All-append, All-select_of, length-append, length-select-le,
  length-map, is_some-find_first,
}
use karpenter_provider_yande.Prelude.Maps.{
  Map, Labels, lookup, insert, remove, at, assign, lookup-insert, lookup-remove, map_laws,
}
use karpenter_provider_yande.Prelude.Errors.{
  Error, Result, ok, err, message, api_error, wrap, Reason, not_found, conflict, unavailable,
  error_text, is_not_found, is_conflict, ◌>>=◌, or_wrap, ignore_not_found, says_not_found,
}
use karpenter_provider_yande.Prelude.Int.{sub_ℕ}
use karpenter_provider_yande.Prelude.Sort.{sort_slice}
use karpenter_provider_yande.Prelude.Cache.{CacheOf}
use karpenter_provider_yande.NodeClass.Types.{SubnetSelectorTerm}
use karpenter_provider_yande.NodeClass.Selector.{VpcSubnet, keep}
use karpenter_provider_yande.Subnet.Capacity.{Subnet, calculate_ips, comes_before}

-- What one call of List meets outside: the hash of the terms as the cache's key, the cloud's
-- answers, and net.ParseCIDR. The iterator of the cloud client yields no nil subnet.
pub record Answers : Type 0 where
  pub hash_key : List SubnetSelectorTerm → Result String
  pub list_network_subnets : Result (List VpcSubnet)
  pub used_ips : String → Result ℕ
  pub parse_mask : String → Result ℕ

-- the loop over the CIDR blocks
unfoldable pub total_ips : (String → Result ℕ) → List String → Result ℕ
unfolding calculate_ips
total_ips parse_mask [] = ok 0
total_ips parse_mask (cidr ∷ cidrs) = do
  c ← or_wrap "failed to calculate ips: " (calculate_ips parse_mask cidr)
  rest ← total_ips parse_mask cidrs
  ok (c + rest)

-- the rest of the loop's body, for a subnet that is kept
unfoldable pub measure : Answers → VpcSubnet → Result Subnet
unfolding total_ips
measure a subnet = do
  in_use ← or_wrap "failed to list used ips: " (a.used_ips subnet.id)
  total ← total_ips a.parse_mask subnet.v4_cidr_blocks
  ok (record {
    id = subnet.id;
    zone_id = subnet.zone_id;
    available_ip_address_count = sub_ℕ total in_use;
  })

-- the loop over the subnets
unfoldable pub build : Answers → List SubnetSelectorTerm → List VpcSubnet → Result (List Subnet)
build a terms [] = ok []
build a terms (subnet ∷ subnets) =
    let rest = build a terms subnets in
    if keep terms subnet then (do sub ← measure a subnet; subs ← rest; ok (sub ∷ subs)) else rest

module _ (cache : CacheOf (List Subnet)) where
  open cache use {Cache, get, set}

  -- after a miss
  fetch : Answers → List SubnetSelectorTerm → String → Cache → Result (List Subnet) × Cache
  fetch a terms key c =
      let fetched = (do
        subnets ← or_wrap "failed to list subnets: " a.list_network_subnets
        subs ← build a terms subnets
        ok (sort_slice comes_before subs)) in
      elim fetched [ ok subs ↦ (ok subs, set key subs c) | err e ↦ (err e, c) ]

  unfoldable pub list : Answers → List SubnetSelectorTerm → Cache → Result (List Subnet) × Cache
  unfolding fetch
  list a terms c = elim (a.hash_key terms) [
    | err e ↦ (err e, c)
    | ok key ↦ elim (get key c) [ some subs ↦ (ok subs, c) | none ↦ fetch a terms key c ]
  ]
