-- ===== src/NodeClass/Types.antt =====
-- pkg/apis/v1alpha1/types.go and labels.go.
use karpenter_provider_yande.Prelude.{ℕ, String, Bool, Option, List, map, is_some, select}
use karpenter_provider_yande.Prelude.Maps.{Labels}
use karpenter_provider_yande.Prelude.Int.{ℤ}

abbrev pub condition_type_subnets_ready : String
condition_type_subnets_ready = "SubnetsReady"

abbrev pub condition_type_validation_succeeded : String
condition_type_validation_succeeded = "ValidationSucceeded"

-- status.ConditionReady of operatorpkg
abbrev pub condition_ready : String
condition_ready = "Ready"

abbrev pub termination_finalizer : String
termination_finalizer = "karpenter.yandex.cloud/termination"

abbrev pub label_instance_cpu_platform : String
label_instance_cpu_platform = "karpenter.yandex.cloud/instance-cpu-platform"

abbrev pub label_instance_cpu : String
label_instance_cpu = "karpenter.yandex.cloud/instance-cpu"

abbrev pub label_instance_memory : String
label_instance_memory = "karpenter.yandex.cloud/instance-memory"

abbrev pub label_instance_type : String
label_instance_type = "karpenter.yandex.cloud/instance-type"

abbrev pub label_instance_cpu_fraction : String
label_instance_cpu_fraction = "karpenter.yandex.cloud/instance-cpu-fraction"

pub record SubnetSelectorTerm : Type 0 where
  pub labels : Labels
  pub id : String

-- YandexNodeClassSpec. A quantity is its value in bytes; `none` is a nil map.
pub record Spec : Type 0 where
  pub platform : String
  pub core_fractions : List String
  pub subnet_selector_terms : List SubnetSelectorTerm
  pub disk_type : String
  pub disk_size : ℤ
  pub labels : Option Labels
  pub node_labels : Option Labels
  pub security_groups : List String
  pub software_accelerated_network_settings : Bool

pub data ConditionStatus : Type 0 where
  is_true is_false is_unknown : ConditionStatus

-- metav1.Condition; `none` is the zero time
pub record Condition : Type 0 where
  pub type : String
  pub state : ConditionStatus
  pub reason : String
  pub message : String
  pub observed_generation : ℕ
  pub last_transition_time : Option ℕ

-- Subnet of the status
pub record StatusSubnet : Type 0 where
  pub id : String
  pub zone_id : String

-- YandexNodeClass: the parts of the metadata, the spec and the status that the program uses.
pub record NodeClass : Type 0 where
  pub name : String
  pub uid : String
  pub generation : ℕ
  pub deleting : Bool  -- the deletion timestamp is set
  pub finalizers : List String
  pub spec : Spec
  pub subnets : List StatusSubnet
  pub conditions : List Condition

-- SetConditions: a condition with the zero transition time is left out
unfoldable pub set_conditions : List Condition → NodeClass → NodeClass
set_conditions cs nc = record nc { conditions = select (λ c. is_some c.last_transition_time) cs }

-- GetConditions
unfoldable pub get_conditions : NodeClass → List Condition
get_conditions nc = map (λ c. c) nc.conditions
