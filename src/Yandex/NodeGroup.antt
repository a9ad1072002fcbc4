-- ===== src/Yandex/NodeGroup.antt =====
-- The parts of k8s.NodeGroup and k8s.Node (go-genproto) that the program reads.
use karpenter_provider_yande.Prelude.{ℕ, String, Bool, true, false, List}
use karpenter_provider_yande.Prelude.Maps.{Labels}
use karpenter_provider_yande.Prelude.Int.{ℤ}

pub data GroupStatus : Type 0 where
  unspecified provisioning running reconciling stopping stopped deleting starting : GroupStatus

abbrev pub is_provisioning : GroupStatus → Bool
is_provisioning provisioning = true
is_provisioning _ = false

abbrev pub is_starting : GroupStatus → Bool
is_starting starting = true
is_starting _ = false

-- the three statuses that stand for a group on its way out
abbrev pub is_terminating : GroupStatus → Bool
is_terminating stopping = true
is_terminating stopped = true
is_terminating deleting = true
is_terminating _ = false

pub record NodeGroup : Type 0 where
  pub id : String
  pub name : String
  pub cluster_id : String
  pub labels : Labels
  pub node_labels : Labels
  pub group_status : GroupStatus
  pub created_at : ℕ
  pub platform_id : String
  pub core_fraction : ℤ
  pub cores : ℤ
  pub memory : ℤ
  pub preemptible : Bool
  pub zones : List String

-- a node of a group, by its cloud status
pub record Node : Type 0 where
  pub instance_id : String
  pub cloud_status : String
  pub status_message : String
