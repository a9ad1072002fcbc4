-- ===== src/CloudProvider/Events.antt =====
-- events.go and the event that Create publishes, with the constant answers of the provider.
use karpenter_provider_yande.Prelude.{
  String, ◌≡◌, refl, ap, ◌∙◌, true, List, [], ◌∷◌, if◌then◌else◌,
}
use karpenter_provider_yande.Prelude.Errors.{Error, Result, ok, err, wrap, is_not_found}
use karpenter_provider_yande.NodeClass.Types.{NodeClass}
use karpenter_provider_yande.CloudProvider.Types.{Karpenter, Claim, refuse, insufficient_capacity}
use karpenter_provider_yande.CloudProvider.Resolve.{node_class_from_node_claim}
use karpenter_provider_yande.CloudProvider.Create.{
  Launch, returned, class_error, not_ready, launch_if_ready, create,
}

pub data EventType : Type 0 where
  normal warning : EventType

-- events.Event, its object by the UID
pub record Event : Type 0 where
  pub involved_object : String
  pub type : EventType
  pub text_of_event : String
  pub dedupe_values : List String

unfoldable pub node_pool_failed_to_resolve_node_class : String → Event
node_pool_failed_to_resolve_node_class uid = record {
  involved_object = uid;
  type = warning;
  text_of_event = "Failed resolving NodeClass";
  dedupe_values = uid ∷ [];
}

unfoldable pub node_claim_failed_to_resolve_node_class : String → Event
node_claim_failed_to_resolve_node_class uid = record {
  involved_object = uid;
  type = warning;
  text_of_event = "Failed resolving NodeClass";
  dedupe_values = uid ∷ [];
}

-- what Create publishes for a claim of this UID, once its node class is resolved
unfoldable pub published_by_create : String → Result NodeClass → List Event
unfolding node_claim_failed_to_resolve_node_class
published_by_create uid (ok nc) = []
published_by_create uid (err e) =
    if is_not_found e then node_claim_failed_to_resolve_node_class uid ∷ [] else []

-- IsDrifted: no reason
unfoldable pub is_drifted : {Claim : Type 0} → Claim → String
is_drifted claim = ""

unfoldable pub repair_policies : {Policy : Type 0} → List Policy
repair_policies = []

-- Name
abbrev pub provider_name : String
provider_name = "yandex"

-- If the node class of a claim is not found, Create publishes its event, answers that there is no
-- capacity and leaves the cloud as it is.
published_by_create-create :
    (k : Karpenter) {S : Type 0} (w : Launch k S) (uid : String) (claim : Claim k) (s : S)
    (e : Error)
    → node_class_from_node_claim w.kube claim.node_class_ref ≡ err e
    → is_not_found e ≡ true
    → (published_by_create uid (node_class_from_node_claim w.kube claim.node_class_ref)
        ≡ node_claim_failed_to_resolve_node_class uid ∷ [])
      × (create k w claim s
          ≡ (returned (refuse (insufficient_capacity (wrap "resolving nodeclass, " e))), s))
unfolding published_by_create create class_error
published_by_create-create k w uid claim s e h n = (
  ap (published_by_create uid) h ∙ rw n refl,
  ap
        (λ r. elim r [
          | err x ↦ (returned (refuse (class_error k w x)), s)
          | ok nc ↦ launch_if_ready k w claim nc (not_ready nc (w.ready_condition nc)) s
        ])
        h
      ∙ rw n refl,
)
