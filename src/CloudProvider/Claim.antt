-- ===== src/CloudProvider/Claim.antt =====
-- nodeGroupToNodeClaim: the node claim that stands for a node group.
use karpenter_provider_yande.Prelude.{
  ℕ, String, Bool, true, false, not, ◌||◌, Option, none, some, List, [], ◌∷◌, ◌==◌, eqb,
  if◌then◌else◌, select,
}
use karpenter_provider_yande.Prelude.Maps.{Map, Labels, insert, assign}
use karpenter_provider_yande.Prelude.Errors.{Error, Result, ok, err, message, wrap}
use karpenter_provider_yande.CloudProvider.Types.{Karpenter, Claim, OfferedType}
use karpenter_provider_yande.CloudProvider.GroupLabels.{node_group_labels}
use karpenter_provider_yande.Yandex.NodeGroup.{
  NodeGroup, is_terminating, is_provisioning, is_starting,
}

-- the loop that asks for the provider id once a second until five minutes have passed: `polls` are
-- the answers that arrive in that time. The id with the last error.
unfoldable pub poll : Error → List (Result String) → String × Option Error
poll last [] = ("", some last)
poll last (ok id ∷ polls) = (id, none)
poll last (err e ∷ polls) = poll e polls

-- the first answer, and the loop where the group is still coming up
unfoldable pub provider_id : Bool → Result String → List (Result String) → String × Option Error
provider_id coming_up (ok id) polls = (id, none)
provider_id true (err e) polls = poll e polls
provider_id false (err e) polls = ("", some e)

module _ (k : Karpenter) where
  -- the labels of requirements with one value
  unfoldable pub single_labels : Map (ℕ × List String) → Labels
  single_labels [] = []
  single_labels ((key, (len, values)) ∷ reqs) =
      let rest = single_labels reqs in
      if eqb len 1 then insert key (elim values [ [] ↦ "" | v ∷ vs ↦ v ]) rest else rest

  -- lo.PickBy(…, resourceFilter)
  unfoldable pub nonzero : Map k.Quantity → Map k.Quantity
  nonzero m = select (λ e. not (k.is_zero e.1)) m

  unfoldable pub allocatable_of : OfferedType k → Map k.Quantity
  allocatable_of it = elim it.offerings [
    | some os ↦ nonzero (k.allocatable it)
    | none ↦ nonzero it.capacity
  ]

  -- labels, capacity and allocatable of an instance type; all empty for a nil one
  unfoldable pub type_labels : Option (OfferedType k) → Labels
  type_labels none = []
  type_labels (some it) = single_labels (k.entries it.requirements)

  unfoldable pub type_capacity : Option (OfferedType k) → Map k.Quantity
  type_capacity none = []
  type_capacity (some it) = nonzero it.capacity

  unfoldable pub type_allocatable : Option (OfferedType k) → Map k.Quantity
  type_allocatable none = []
  type_allocatable (some it) = allocatable_of it

  unfoldable pub claim_of : ℕ → NodeGroup → Option (OfferedType k) → String → Claim k
  claim_of now ng it id = record {
    name = "";
    labels = assign (type_labels it) (node_group_labels ng);
    annotations = [];
    creation = ng.created_at;
    deletion = if is_terminating ng.group_status then some now else none;
    node_class_ref = "";
    requirements = k.no_requirements;
    requests = [];
    provider_id = id;
    capacity = type_capacity it;
    allocatable = type_allocatable it;
  }

  -- fmt.Errorf with %w of the last error; a nil one prints as it stands
  unfoldable pub no_provider_id : Option Error → Error
  no_provider_id none = message "failed to determine provider id: %!w(<nil>)"
  no_provider_id (some e) = wrap "failed to determine provider id: " e

  unfoldable pub identified :
      ℕ → NodeGroup → Option (OfferedType k) → String × Option Error → Result (Claim k)
  identified now ng it (id, last) =
      if id == "" then err (no_provider_id last) else ok (claim_of now ng it id)

  unfoldable pub node_group_to_node_claim :
      ℕ
      → Result String
      → List (Result String)
      → NodeGroup
      → Option (OfferedType k)
      → Result (Claim k)
  node_group_to_node_claim now first polls ng it =
      identified now ng it
        (provider_id (is_provisioning ng.group_status || is_starting ng.group_status) first polls)
