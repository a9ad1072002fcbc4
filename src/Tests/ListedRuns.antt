-- ===== src/Tests/ListedRuns.antt =====
-- A launch over the small cloud.
use karpenter_provider_yande.Prelude.{String, ◌≡◌, refl, sym, ap, ◌∙◌, none, some, List, [], ◌∷◌}
use karpenter_provider_yande.Prelude.Maps.{Labels, lookup, insert, assign}
use karpenter_provider_yande.Prelude.Errors.{Result, ok}
use karpenter_provider_yande.NodeClass.Types.{NodeClass}
use karpenter_provider_yande.CloudProvider.Types.{answer}
use karpenter_provider_yande.CloudProvider.Resolve.{
  node_class_from_node_claim, unless_deleting, resolve_instance_types, cheaper, launches,
  launchable,
}
use karpenter_provider_yande.CloudProvider.Create.{
  returned, Launch, create, not_ready, launch_if_ready, launch, narrowed, compatible_offerings,
  completed, zone_to_subnet, launch_first, available_offerings, pick_offering, pick, nth, is_spot,
  launch_offering, group_map, node_map, request, create_args, finish,
}
use karpenter_provider_yande.CloudProvider.Listed.{create-shown}
use karpenter_provider_yande.Prelude.Int.{pos}
use karpenter_provider_yande.Prelude.Sort.{sort_slice, sort_insert}
use karpenter_provider_yande.Yandex.NodeGroup.{NodeGroup, provisioning}
use karpenter_provider_yande.Yandex.Sdk.{list_node_groups}
use karpenter_provider_yande.Yandex.Sdk.Create.{
  create_fixed_node_group, create_after, create_unless, created, find_by_name,
}
use karpenter_provider_yande.Yandex.Sdk.Refinement.{shown}
use karpenter_provider_yande.Tests.Instances.{plain_karpenter, map_cache}
use karpenter_provider_yande.Prelude.Cache.{CacheOf}
use karpenter_provider_yande.Prelude.Maps.{Map, at}
use karpenter_provider_yande.Prelude.{false, inl, inr, Bool-cases, eq_iff}
use karpenter_provider_yande.Prelude.Errors.{err, message}
use karpenter_provider_yande.Yandex.CachedSdk.{
  CachedValue, created_tuple, create_key, cache_key, create_cached,
}
use karpenter_provider_yande.Yandex.CachedSdk
use karpenter_provider_yande.CloudProvider.Create.{ended}
use karpenter_provider_yande.CloudProvider.Types.{Claim, node_group_id_key}
use karpenter_provider_yande.CloudProvider.Claim.{
  claim_of, type_labels, type_capacity, type_allocatable, allocatable_of, node_group_to_node_claim,
  identified, provider_id,
}
use karpenter_provider_yande.CloudProvider.Operations.{claim_for}
use karpenter_provider_yande.Yandex.Decimal.{format_int}
use karpenter_provider_yande.CloudProvider.Laws.{StandsFor}
use karpenter_provider_yande.CloudProvider.Listed.{operated}
use karpenter_provider_yande.Yandex.Sdk.{get_node_group, provider_id_for, first_instance}
use karpenter_provider_yande.Yandex.Sdk.Create.{create_request}
use karpenter_provider_yande.Tests.SdkRuns.{
  State, small_cloud, small_cloud-CloudLaws, lower, api_of, group_among,
}
use karpenter_provider_yande.Tests.LaunchRuns.{reader, ready, claim, one_type, surroundings}
use karpenter_provider_yande.Prelude.Maps.{Map}
use karpenter_provider_yande.Prelude.{◌==◌}

abbrev cached : CacheOf CachedValue
cached = map_cache CachedValue

abbrev plain_hash : String → String
plain_hash s = s

-- the parts that the cached client replaces are left out of use
abbrev others : Launch plain_karpenter (Map CachedValue × State)
others = record {
  kube = reader;
  ready_condition = λ nc. some ready;
  list_types = λ nc. ok (one_type ∷ []);
  list_subnets = λ nc. ok [];
  rand = λ n. 0;
  parse_name =
      λ s. ok (record { platform = "standard-v3"; cpu = 2; memory = 4; core_fraction = pos 100 });
  string_of = λ q. "2";
  value_of = pos;
  create = λ a t. none;
  get_node_group = λ id t. err (message "unused");
  claim_for = λ t ng it. err (message "unused");
}

abbrev launcher : Launch plain_karpenter (Map CachedValue × State)
launcher = operated plain_karpenter small_cloud lower "cat-1" plain_hash cached others surroundings

abbrev wanted : Claim plain_karpenter
wanted = record claim { name = "pool-a"; labels = ("karpenter.sh/nodepool", "pool") ∷ [] }

abbrev new_group : NodeGroup
new_group = record {
  id = "ng-1";
  name = "pool-a";
  cluster_id = "cat-1";
  labels =
      ("karpenter.sh/nodepool", "pool")
      ∷ ("karpenter.yandex.cloud/yandexnodeclass", "")
      ∷ ("karpenter.sh/capacity-type", "on-demand")
      ∷ ("managed-by", "karpenter")
      ∷ ("karpenter.yandex.cloud/instance-cpu-platform", "standard-v3")
      ∷ ("karpenter.yandex.cloud/instance-cpu", "2")
      ∷ ("karpenter.yandex.cloud/instance-memory", "2")
      ∷ ("karpenter.yandex.cloud/instance-cpu-fraction", "100")
      ∷ [];
  node_labels =
      ("karpenter.sh/nodepool", "pool")
      ∷ ("karpenter.yandex.cloud/instance-cpu-platform", "standard-v3")
      ∷ ("karpenter.yandex.cloud/instance-cpu", "2")
      ∷ ("karpenter.yandex.cloud/instance-memory", "2")
      ∷ ("karpenter.yandex.cloud/instance-cpu-fraction", "100")
      ∷ ("karpenter.sh/capacity-type", "on-demand")
      ∷ [];
  group_status = provisioning;
  created_at = 0;
  platform_id = "standard-v3";
  core_fraction = pos 100;
  cores = pos 2;
  memory = pos 4;
  preemptible = false;
  zones = "" ∷ [];
}

abbrev after_launch : Map CachedValue × State
after_launch =
    (("CreateFixedNodeGroup-pool-a", created_tuple (ok "ng-1")) ∷ [], (new_group ∷ [], []))

abbrev answered : Claim plain_karpenter
answered = claim_of plain_karpenter 200 new_group (some one_type) "yandex://vm-1"

launched :
    create plain_karpenter launcher wanted ([], ([], []))
    ≡ (returned (answer answered), after_launch)
unfolding create node_class_from_node_claim unless_deleting not_ready launch_if_ready
    resolve_instance_types cheaper launches launchable sort_slice sort_insert launch narrowed
    compatible_offerings zone_to_subnet launch_first available_offerings pick_offering pick nth
    is_spot lookup launch_offering group_map node_map request create_args ended finish completed
    insert assign create_fixed_node_group create_after create_unless created list_node_groups
    find_by_name CachedSdk.create_fixed_node_group create_cached create_key cache_key get_node_group
    claim_for node_group_to_node_claim identified provider_id provider_id_for first_instance
    create_request format_int claim_of type_labels type_capacity type_allocatable allocatable_of
launched = refl

named :
    (gs : List NodeGroup) (id : String) (ng : NodeGroup) → group_among id gs ≡ ok ng → ng.id ≡ id
named [] id ng h = cc
named (g ∷ gs) id ng h = elim (Bool-cases (g.id == id)) [
  | inl e ↦ here ((eq_iff g.id id).0 e) (rw e at h)
  | inr e ↦ named gs id ng (rw e at h)
]
  where
    here : g.id ≡ id → ◌≡◌ {A = Result NodeGroup} (ok g) (ok ng) → ng.id ≡ id
    here e k = let same : g ≡ ng = cc in ap (λ x. x.id) (sym same) ∙ e

no_own_label :
    (nc : NodeClass) (own : Labels)
    → node_class_from_node_claim reader claim.node_class_ref ≡ ok nc
    → nc.spec.node_labels ≡ some own
    → lookup "managed-by" own ≡ none
unfolding node_class_from_node_claim unless_deleting lookup
no_own_label nc own h e = of_own (ap (λ n. n.spec.node_labels) (of_class h) ∙ e)
  where
    of_class : {a b : NodeClass} → ◌≡◌ {A = Result NodeClass} (ok a) (ok b) → a ≡ b
    of_class h = cc

    of_own : some [] ≡ some own → lookup "managed-by" own ≡ none
    of_own h = let same : [] ≡ own = cc in ap (lookup "managed-by") (sym same)

not_cached : lookup {V = CachedValue} (create_key plain_hash wanted.name) [] ≡ none
unfolding lookup
not_cached = refl

create-shown_example :
    (ngs : List NodeGroup) × (ng : NodeGroup) × (list_node_groups "cat-1" (api_of after_launch.1)
      ≡ ok ngs)
    × (shown ngs wanted.name ≡ some (at node_group_id_key answered.labels))
    × (get_node_group "cat-1" (api_of after_launch.1) (at node_group_id_key answered.labels)
        ≡ ok ng)
    × StandsFor plain_karpenter ng answered
create-shown_example =
    create-shown plain_karpenter small_cloud lower "cat-1" plain_hash cached small_cloud-CloudLaws
      others surroundings (unfold get_node_group in λ s id ng h. named s.0 id ng h) wanted []
      after_launch.0 ([], []) after_launch.1 answered not_cached no_own_label launched
