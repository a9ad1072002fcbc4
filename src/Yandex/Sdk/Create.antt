-- ===== src/Yandex/Sdk/Create.antt =====
-- CreateFixedNodeGroup and DeleteNodeGroup, the calls that change the cloud.
use Prim.Native.String.{◌++◌ as ◌+++◌}
use karpenter_provider_yande.Prelude.{
  ℕ, String, Bool, true, false, ◌&&◌, Option, none, some, List, [], ◌∷◌, ◌==◌, if◌then◌else◌,
  contains, is_empty, select, find_first,
}
use karpenter_provider_yande.Prelude.Maps.{Labels, insert}
use karpenter_provider_yande.Prelude.Errors.{Error, Result, ok, err, message, wrap}
use karpenter_provider_yande.Prelude.Int.{ℤ, pos, eqb_ℤ}
use karpenter_provider_yande.Yandex.NodeGroup.{NodeGroup}
use karpenter_provider_yande.Yandex.Sdk.{Api, list_node_groups}

-- the arguments of CreateFixedNodeGroup; quantities by their Value()
pub record CreateArgs : Type 0 where
  pub name : String
  pub labels : Labels
  pub node_labels : Labels
  pub platform_id : String
  pub core_fraction : ℤ
  pub cpu : ℤ
  pub memory : ℤ
  pub preemptible : Bool
  pub zone_id : String
  pub subnet_id : String
  pub security_groups : List String
  pub software_accelerated_network_settings : Bool
  pub disk_type : String
  pub disk_size : ℤ

pub data NetworkType : Type 0 where
  standard software_accelerated : NetworkType

-- CreateNodeGroupRequest
pub record CreateRequest : Type 0 where
  pub cluster_id : String
  pub name : String
  pub description : String
  pub labels : Labels
  pub template_name : String
  pub template_labels : Labels
  pub platform_id : String
  pub core_fraction : ℤ
  pub cores : ℤ
  pub memory : ℤ
  pub disk_type_id : String
  pub disk_size : ℤ
  pub metadata : Labels
  pub preemptible : Bool
  pub subnet_ids : List String
  pub security_group_ids : List String
  pub network_type : NetworkType
  pub fixed_size : ℕ
  pub zone_ids : List String
  pub max_unavailable : ℕ
  pub max_expansion : ℕ
  pub auto_repair : Bool
  pub auto_upgrade : Bool
  pub taint_key : String
  pub node_labels : Labels

-- for k, v := range nodeLabels { labels[k] = strings.ToLower(v) }
unfoldable pub add_lowered : (String → String) → Labels → Labels → Labels
add_lowered to_lower [] labels = labels
add_lowered to_lower ((k, v) ∷ rest) labels =
    add_lowered to_lower rest (insert k (to_lower v) labels)

unfoldable pub create_labels : (String → String) → CreateArgs → Labels
unfolding add_lowered
create_labels to_lower args =
    add_lowered to_lower args.node_labels (insert "managed-by" "karpenter" args.labels)

unfoldable pub create_request : (String → String) → String → CreateArgs → CreateRequest
unfolding create_labels
create_request to_lower cluster_id args =
    let labels = create_labels to_lower args in
    record {
      cluster_id = cluster_id;
      name = args.name;
      description = "karpenter node group";
      labels = labels;
      template_name = args.name +++ ("-" +++ (args.zone_id +++ "-{instance.index}"));
      template_labels = labels;
      platform_id = args.platform_id;
      core_fraction = args.core_fraction;
      cores = args.cpu;
      memory = args.memory;
      disk_type_id = args.disk_type;
      disk_size = args.disk_size;
      metadata = ("enable-oslogin", "true") ∷ [];
      preemptible = args.preemptible;
      subnet_ids = args.subnet_id ∷ [];
      security_group_ids = args.security_groups;
      network_type =
          if args.software_accelerated_network_settings && eqb_ℤ args.core_fraction (pos 100)
          then software_accelerated
          else standard;
      fixed_size = 1;
      zone_ids = args.zone_id ∷ [];
      max_unavailable = 0;
      max_expansion = 1;
      auto_repair = true;
      auto_upgrade = false;
      taint_key = "karpenter.sh/unregistered";
      node_labels = args.node_labels;
    }

-- The cloud as a state `S`: what its reading calls answer, and the two changes. The create call
-- answers with the metadata of its operation, or none where that is of another type.
pub record Cloud (S : Type 0) : Type 0 where
  pub api : S → Api
  pub create : CreateRequest → S → Result (Option String) × S
  pub delete : String → S → Option Error × S

unfoldable pub find_by_name : String → List NodeGroup → Option NodeGroup
find_by_name name ngs = find_first (λ ng. ng.name == name) ngs

module _ {S : Type 0} (cloud : Cloud S) (to_lower : String → String) (cluster_id : String) where
  unfoldable pub created : Result (Option String) → Result String
  created (err e) = err e
  created (ok none) = err (message "could not get Instance ID from create operation metadata")
  created (ok (some id)) = ok id

  unfoldable pub create_unless : CreateArgs → Option NodeGroup → S → Result String × S
  unfolding created
  create_unless args (some existed) s = (ok existed.id, s)
  create_unless args none s =
      let (r, s') = cloud.create (create_request to_lower cluster_id args) s in (created r, s')

  unfoldable pub create_after : CreateArgs → Result (List NodeGroup) → S → Result String × S
  unfolding create_unless find_by_name
  create_after args (err e) s = (err (wrap "failed to list node groups: " e), s)
  create_after args (ok ngs) s = create_unless args (find_by_name args.name ngs) s

  unfoldable pub create_fixed_node_group : CreateArgs → S → Result String × S
  unfolding create_after
  create_fixed_node_group args s = create_after args (list_node_groups cluster_id (cloud.api s)) s

  -- an operation on the group whose metadata names DeleteNodeGroup
  unfoldable pub delete_unless : String → List String → S → Option Error × S
  delete_unless id operations s =
      if is_empty (select (λ url. contains url "DeleteNodeGroup") operations)
      then cloud.delete id s
      else (none, s)

  unfoldable pub delete_after : String → Result (List String) → S → Option Error × S
  unfolding delete_unless
  delete_after id (err e) s = (some (wrap "failed to list node group operations: " e), s)
  delete_after id (ok operations) s = delete_unless id operations s

  unfoldable pub delete_node_group : String → S → Option Error × S
  unfolding delete_after
  delete_node_group id s = delete_after id ((cloud.api s).operations id) s
