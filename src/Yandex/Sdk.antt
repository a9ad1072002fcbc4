-- ===== src/Yandex/Sdk.antt =====
-- YCSDK of pkg/yandex/sdk.go, over the cloud's API.
pub mod Create
pub mod Laws
pub mod Refinement
use Prim.Native.String.{◌++◌ as ◌+++◌}
use karpenter_provider_yande.Prelude.{
  ℕ, zero, suc, ◌+◌, ◌-◌, ◌*◌, ◌/◌, ◌%◌, ◌^◌, ◌≤◌, ◌<◌, String, ◌≡◌, refl, sym, ap, ◌∙◌, subst, ◌≢◌,
  ◌↔◌, ◌⊎◌, inl, inr, Bool, true, false, not, ◌&&◌, ◌||◌, Option, none, some, List, [], ◌∷◌, ◌++◌,
  map, arith, ◌==◌, eq_iff, eq_refl, ltb, leb, eqb, if◌then◌else◌, is_some, contains, has_prefix,
  ltb→lt, leb→le, eqb_iff, Bool-cases, Option-cases, length, is_empty, select, any, find_first, All,
  head?, All-select, All-map, All-append, All-select_of, length-append, length-select-le,
  length-map, is_some-find_first,
}
use karpenter_provider_yande.Prelude.Maps.{
  Map, Labels, lookup, insert, remove, at, assign, lookup-insert, lookup-remove, map_laws,
}
use karpenter_provider_yande.Prelude.Errors.{
  Error, Result, ok, err, message, api_error, wrap, Reason, not_found, conflict, unavailable,
  error_text, is_not_found, is_conflict, ◌>>=◌, or_wrap, ignore_not_found, says_not_found,
  Result-cases,
}
use karpenter_provider_yande.Prelude.Int.{ℤ}
use karpenter_provider_yande.Yandex.NodeGroup.{NodeGroup, Node}
use karpenter_provider_yande.NodeClass.Selector.{VpcSubnet}

pub record Cluster : Type 0 where
  pub network_id : String
  pub folder_id : String
  -- IpAllocationPolicy.NodeIpv4CidrMaskSize, if the policy is there
  pub node_cidr_mask_size : Option ℕ

-- The calls of the cloud's API that only read. `used_addresses` lists the pages that the iterator
-- of UsedIPsInSubnet yields to Take(100), each a number of addresses or an error.
pub record Api : Type 0 where
  pub cluster : String → Result Cluster
  pub network_subnets : String → Result (List VpcSubnet)
  pub used_addresses : String → List (Result ℕ)
  pub node_groups : String → Result (List NodeGroup)
  pub nodes : String → Result (List Node)
  pub operations : String → Result (List String)
  pub node_group : String → Result NodeGroup
  pub instance_labels : String → Result Labels
  pub security_group_network : String → Result String

unfoldable pub is_managed : String → NodeGroup → Bool
is_managed cluster_id item =
    item.cluster_id == cluster_id && at "managed-by" item.labels == "karpenter"

module _ (cluster_id : String) (api : Api) where
  unfoldable pub network_id : Result String
  network_id = do cluster ← api.cluster cluster_id; ok cluster.network_id

  unfoldable pub list_network_subnets : Result (List VpcSubnet)
  unfolding network_id
  list_network_subnets = do
    network ← or_wrap "failed to get network id: " network_id
    api.network_subnets network

  -- for iter.Next() { … res += len(addresses) }
  unfoldable pub sum_pages : ℕ → List (Result ℕ) → Result ℕ
  sum_pages res [] = ok res
  sum_pages res (err e ∷ pages) = err (wrap "failed to get subnet used addresses: " e)
  sum_pages res (ok n ∷ pages) = sum_pages (res + n) pages

  unfoldable pub used_ips_in_subnet : String → Result ℕ
  unfolding sum_pages
  used_ips_in_subnet subnet_id = sum_pages 0 (api.used_addresses subnet_id)

  -- subnetMask: 24, or the size of the policy where that is positive
  unfoldable pub node_mask : Option ℕ → ℕ
  node_mask none = 24
  node_mask (some size) = if ltb 0 size then size else 24

  -- int(math.Pow(2, 31 - mask)): a mask over 31 gives a fraction, whose integer part is 0
  unfoldable pub pods_of_mask : ℕ → ℕ
  pods_of_mask mask = if leb mask 31 then 2 ^ (31 - mask) else 0

  unfoldable pub max_pods_per_node : Result ℕ
  unfolding node_mask pods_of_mask
  max_pods_per_node = do
    cluster ← api.cluster cluster_id
    ok (pods_of_mask (node_mask cluster.node_cidr_mask_size))

  unfoldable pub list_node_groups : Result (List NodeGroup)
  unfolding is_managed
  list_node_groups = do
    cluster ← api.cluster cluster_id
    ngs ← api.node_groups cluster.folder_id
    ok (select (is_managed cluster_id) ngs)

  unfoldable pub get_node_group : String → Result NodeGroup
  get_node_group id = api.node_group id

  unfoldable pub first_instance : List Node → Result String
  first_instance [] = err (message "not found")
  first_instance (node ∷ nodes) =
      if node.instance_id == ""
      then err (message "not found")
      else ok ("yandex://" +++ node.instance_id)

  unfoldable pub provider_id_for : String → Result String
  unfolding first_instance
  provider_id_for id = do nodes ← api.nodes id; first_instance nodes

  unfoldable pub group_of_label : String → Result NodeGroup
  unfolding get_node_group
  group_of_label id =
      if id == "" then err (message "could not get node group id") else get_node_group id

  -- `trim` is strings.TrimPrefix(…, "yandex://")
  unfoldable pub get_node_group_by_provider_id : (String → String) → String → Result NodeGroup
  unfolding group_of_label
  get_node_group_by_provider_id trim provider_id = do
    labels ← api.instance_labels (trim provider_id)
    group_of_label (at "managed-kubernetes-node-group-id" labels)

  unfoldable pub first_node : List Node → Result Node
  first_node [] = err (message "nodes not found")
  first_node (node ∷ nodes) = ok node

  unfoldable pub get_node_from_node_group : String → Result Node
  unfolding first_node
  get_node_from_node_group id = do nodes ← api.nodes id; first_node nodes

  -- grpcstatus.Code(err) == codes.NotFound
  missing_group : Error → Result Bool
  missing_group (api_error not_found m) = ok false
  missing_group e = err e

  in_network : String → Result String → Result Bool
  in_network group_network (err e) = err e
  in_network group_network (ok network) =
      ok (not (not (group_network == "") && not (group_network == network)))

  unfoldable pub security_group_exists : String → Result Bool
  unfolding network_id in_network missing_group
  security_group_exists id = elim (api.security_group_network id) [
    | ok group_network ↦ in_network group_network network_id
    | err e ↦ missing_group e
  ]
