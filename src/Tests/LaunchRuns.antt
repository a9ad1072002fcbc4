-- ===== src/Tests/LaunchRuns.antt =====
-- Create and List of the cloud provider against a cloud with one group.
use karpenter_provider_yande.Prelude.{ℕ, ◌+◌, ◌≡◌, refl, true, false, none, some, [], ◌∷◌}
use karpenter_provider_yande.Prelude.Maps.{lookup, insert, assign}
use karpenter_provider_yande.Prelude.Errors.{ok}
use karpenter_provider_yande.Prelude.Int.{pos}
use karpenter_provider_yande.Prelude.Sort.{sort_slice, sort_insert}
use karpenter_provider_yande.Yandex.NodeGroup.{NodeGroup, running}
use karpenter_provider_yande.Yandex.Sdk.{
  Api, list_node_groups, is_managed, provider_id_for, first_instance,
}
use karpenter_provider_yande.NodeClass.Types.{NodeClass, Condition, is_true}
use karpenter_provider_yande.CloudProvider.Types.{Claim, OfferedType, answer, KubeReader}
use karpenter_provider_yande.CloudProvider.Claim.{
  claim_of, node_group_to_node_claim, identified, provider_id,
}
use karpenter_provider_yande.CloudProvider.Resolve.{
  node_class_from_node_claim, node_class_from_node_group, node_class_from_node_pool,
  node_pool_from_node_group, unless_deleting, resolve_instance_types, cheaper, launches, launchable,
}
use karpenter_provider_yande.CloudProvider.Operations.{
  Surroundings, list, claims, claim_or_skip, claim_for, type_of_group,
}
use karpenter_provider_yande.CloudProvider.Create.{
  returned, Launch, create, launch_if_ready, not_ready, launch, launch_first, launch_offering,
  request, ended, finish, narrowed, compatible_offerings, completed, available_offerings,
  pick_offering, pick, nth, is_spot, group_map, node_map, create_args, zone_to_subnet,
}
use karpenter_provider_yande.CloudProvider.Laws.{FromGroups, list-FromGroups}
use karpenter_provider_yande.CloudProvider.Launches.{ReadyClass, create-ReadyClass}
use karpenter_provider_yande.Tests.Instances.{plain_karpenter}

abbrev class : NodeClass
class = record {
  name = "default";
  uid = "u";
  generation = 3;
  deleting = false;
  finalizers = [];
  spec = record {
    platform = "standard-v3";
    core_fractions = [];
    subnet_selector_terms = [];
    disk_type = "network-ssd";
    disk_size = pos 34359738368;
    labels = some [];
    node_labels = some [];
    security_groups = [];
    software_accelerated_network_settings = false;
  };
  subnets = [];
  conditions = [];
}

abbrev pub ready : Condition
ready = record {
  type = "Ready";
  state = is_true;
  reason = "Ready";
  message = "";
  observed_generation = 3;
  last_transition_time = some 1;
}

abbrev pub reader : KubeReader
reader = record {
  node_class = λ name. ok class;
  node_pool = λ name. ok (record { node_class_ref = "default" });
}

abbrev pub group : NodeGroup
group = record {
  id = "ng-1";
  name = "pool-a";
  cluster_id = "cat-1";
  labels = ("managed-by", "karpenter") ∷ ("karpenter.sh/nodepool", "pool") ∷ [];
  node_labels = [];
  group_status = running;
  created_at = 100;
  platform_id = "standard-v3";
  core_fraction = pos 100;
  cores = pos 2;
  memory = pos 4;
  preemptible = false;
  zones = "ru-central1-a" ∷ [];
}

abbrev pub claim : Claim plain_karpenter
claim = claim_of plain_karpenter 200 group none "yandex://vm-1"

abbrev api : Api
api = record {
  cluster =
      λ c. ok (record { network_id = "net"; folder_id = "folder"; node_cidr_mask_size = none });
  network_subnets = λ n. ok [];
  used_addresses = λ id. [];
  node_groups = λ folder. ok (group ∷ []);
  nodes = λ id.
      ok (record { instance_id = "vm-1"; cloud_status = "RUNNING"; status_message = "" } ∷ []);
  operations = λ id. ok [];
  node_group = λ id. ok group;
  instance_labels = λ id. ok [];
  security_group_network = λ id. ok "net";
}

abbrev pub surroundings : Surroundings plain_karpenter
surroundings = record {
  cluster_id = "cat-1";
  api = api;
  kube = reader;
  polls = λ id. [];
  now = 200;
  trim_prefix = λ s. s;
  decimal = λ z. 2;
  binary = λ z. 4;
  instance_type = λ nc it. ok none;
  list_types = λ nc. ok [];
}

groups_listed : list_node_groups "cat-1" api ≡ ok (group ∷ [])
unfolding list_node_groups is_managed lookup
groups_listed = refl

claims_listed : list plain_karpenter surroundings ≡ ok (claim ∷ [])
unfolding list claims claim_or_skip claim_for type_of_group node_class_from_node_group
    node_class_from_node_pool node_pool_from_node_group unless_deleting node_group_to_node_claim
    identified provider_id provider_id_for first_instance list_node_groups is_managed lookup
claims_listed = refl

list-FromGroups_example : FromGroups plain_karpenter surroundings (group ∷ []) (claim ∷ [])
list-FromGroups_example =
    list-FromGroups plain_karpenter surroundings (group ∷ []) (claim ∷ []) groups_listed
      claims_listed

abbrev pub one_type : OfferedType plain_karpenter
one_type = record {
  name = "standard-v3_2_4Gi_100";
  requirements = [];
  offerings = some (
      record {
        requirements = ("karpenter.sh/capacity-type", "on-demand") ∷ [];
        price = 3;
        available = true;
      }
      ∷ []);
  capacity = [];
  overhead = [];
}

abbrev launcher : Launch plain_karpenter ℕ
launcher = record {
  kube = reader;
  ready_condition = λ nc. some ready;
  list_types = λ nc. ok (one_type ∷ []);
  list_subnets = λ nc. ok [];
  rand = λ n. 0;
  parse_name =
      λ s. ok (record { platform = "standard-v3"; cpu = 2; memory = 4; core_fraction = pos 100 });
  string_of = λ q. "2";
  value_of = pos;
  create = λ a s. some (ok "ng-1", s + 1);
  get_node_group = λ id s. ok group;
  claim_for = λ s ng it. ok claim;
}

launched : create plain_karpenter launcher claim 0 ≡ (returned (answer claim), 1)
unfolding create node_class_from_node_claim unless_deleting not_ready launch_if_ready
    resolve_instance_types cheaper launches launchable sort_slice sort_insert launch narrowed
    compatible_offerings zone_to_subnet launch_first available_offerings pick_offering pick nth
    is_spot lookup launch_offering group_map node_map request create_args ended finish completed
    insert assign
launched = refl

create-ReadyClass_example : ReadyClass plain_karpenter launcher claim.node_class_ref
create-ReadyClass_example = create-ReadyClass plain_karpenter launcher claim 0 1 claim launched
