-- ===== src/NodeClass/SubnetReconciler.antt =====
-- Subnet.Reconcile of pkg/controllers/nodeclass/subnet.go.
use karpenter_provider_yande.Prelude.{◌≡◌, refl, ◌↔◌, false, List, [], ◌∷◌, map, is_empty}
use karpenter_provider_yande.Prelude.Errors.{Result, ok, err, wrap}
use karpenter_provider_yande.NodeClass.Types.{
  NodeClass, StatusSubnet, is_true, condition_type_subnets_ready,
}
use karpenter_provider_yande.NodeClass.Conditions.{ConditionSet}
use karpenter_provider_yande.NodeClass.Validation.{Requeue, after}
use karpenter_provider_yande.Subnet.Capacity.{Subnet}

abbrev pub to_status : Subnet → StatusSubnet
to_status sub = record { id = sub.id; zone_id = sub.zone_id }

module _ (conds : ConditionSet) where
  open conds use {state, set_true, set_false, state-set_true, state-set_false}

  abbrev resolved : List Subnet → NodeClass → NodeClass
  resolved [] nc = record nc {
    subnets = [];
    conditions =
        set_false condition_type_subnets_ready "SubnetsNotFound"
          "SubnetSelector did not match any Subnets" nc.conditions;
  }
  resolved (sub ∷ subs) nc = record nc {
    subnets = map to_status (sub ∷ subs);
    conditions = set_true condition_type_subnets_ready nc.conditions;
  }

  -- `listed` is what the subnet provider's List returned; an error leaves the node class alone.
  unfoldable pub reconcile : Result (List Subnet) → NodeClass → NodeClass × Result Requeue
  reconcile (err e) nc = (nc, err (wrap "getting subnets, " e))
  reconcile (ok subs) nc = (resolved subs nc, ok (after 60))

  -- After a listing that succeeds, the status holds the listed subnets in their order, and the
  -- condition SubnetsReady is true exactly when there are any.
  pub reconcile-status :
      (subs : List Subnet) (nc : NodeClass)
      → ((reconcile (ok subs) nc).0.subnets ≡ map to_status subs)
        × ((state condition_type_subnets_ready (reconcile (ok subs) nc).0.conditions ≡ is_true)
            ↔ (is_empty subs ≡ false))
  unfolding reconcile
  reconcile-status [] nc = (
    refl,
    (
      (λ e. cc (
          state-set_false condition_type_subnets_ready "SubnetsNotFound"
            "SubnetSelector did not match any Subnets" nc.conditions)),
      (λ e. cc),
    ),
  )
  reconcile-status (sub ∷ subs) nc = (refl, ((λ e. refl), (λ e. state-set_true _ _)))
