-- ===== src/CloudProvider/Operations.antt =====
-- Delete, Get, List and GetInstanceTypes of the cloud provider.
use Prim.Native.String.{◌++◌ as ◌+++◌}
use karpenter_provider_yande.Prelude.{
  ℕ, String, not, Option, none, some, List, [], ◌∷◌, ◌==◌, if◌then◌else◌, has_prefix,
}
use karpenter_provider_yande.Prelude.Maps.{Labels, at}
use karpenter_provider_yande.Prelude.Errors.{
  Error, Result, ok, err, message, wrap, is_not_found, ◌>>=◌, or_wrap, says_not_found,
}
use karpenter_provider_yande.Prelude.Int.{ℤ}
use karpenter_provider_yande.NodeClass.Types.{NodeClass}
use karpenter_provider_yande.CloudProvider.Types.{
  Karpenter, Claim, OfferedType, NodePool, KubeReader, CloudError, plain, node_claim_not_found,
  Answer, answer, refuse, node_group_id_key,
}
use karpenter_provider_yande.CloudProvider.Claim.{node_group_to_node_claim}
use karpenter_provider_yande.CloudProvider.Resolve.{
  node_class_from_node_group, node_class_from_node_pool, group_type,
}
use karpenter_provider_yande.Yandex.NodeGroup.{NodeGroup}
use karpenter_provider_yande.Yandex.InstanceType.{InstanceType}
use karpenter_provider_yande.Yandex.Sdk.{
  Api, list_node_groups, get_node_group_by_provider_id, provider_id_for,
}

-- an error of DeleteNodeGroup
unfoldable pub delete_error : String → Error → CloudError
delete_error id e =
    if says_not_found e
    then node_claim_not_found (message ("nodegroup " +++ (id +++ " not found")))
    else plain e

module _ {S : Type 0} (delete_node_group : String → S → Option Error × S) where
  unfoldable pub deleted : String → Option Error × S → Option CloudError × S
  deleted id (none, s) = (none, s)
  deleted id (some e, s) = (some (delete_error id e), s)

  -- Delete, of a claim with a name and labels
  unfoldable pub delete : String → Labels → S → Option CloudError × S
  delete name labels s =
      let id = at node_group_id_key labels in
      if id == ""
      then (
        some (node_claim_not_found (message ("nodeGroupId is empty for nodeclaim " +++ name))),
        s,
      )
      else deleted id (delete_node_group id s)

-- an error of GetNodeGroupByProviderId
unfoldable pub get_error : String → Error → CloudError
get_error provider_id e =
    if says_not_found e
    then node_claim_not_found (message ("instance " +++ (provider_id +++ " not found")))
    else plain (wrap "getting node group, " e)

abbrev pub or_refuse : {A B : Type 0} → (Error → CloudError) → Result A → (A → Answer B) → Answer B
or_refuse f (ok a) next = next a
or_refuse f (err e) next = refuse (f e)

-- What the operations meet outside. `polls` are the later answers of ProviderIdFor for a group,
-- `now` is the clock, and `instance_type` is GetInstanceType of the instance type provider.
pub record Surroundings (k : Karpenter) : Type 0 where
  pub cluster_id : String
  pub api : Api
  pub kube : KubeReader
  pub polls : String → List (Result String)
  pub now : ℕ
  pub trim_prefix : String → String
  pub decimal : ℤ → k.Quantity
  pub binary : ℤ → k.Quantity
  pub instance_type : NodeClass → InstanceType k.Quantity → Result (Option (OfferedType k))
  pub list_types : NodeClass → Result (List (OfferedType k))

module _ (k : Karpenter) (w : Surroundings k) where
  unfoldable pub claim_for : NodeGroup → Option (OfferedType k) → Result (Claim k)
  claim_for ng it =
      node_group_to_node_claim k w.now (provider_id_for w.cluster_id w.api ng.id) (w.polls ng.id) ng
        it

  -- nodeGroupToInstanceType
  unfoldable pub type_of_group : NodeGroup → NodeClass → Result (Option (OfferedType k))
  type_of_group ng nc = w.instance_type nc (group_type w.decimal w.binary ng)

  -- Get, after the group is found
  unfoldable pub get_claim : NodeGroup → Answer (Claim k)
  get_claim ng =
      or_refuse (λ e. plain (wrap "getting node class, " e)) (node_class_from_node_group w.kube ng)
        (λ nc.
          or_refuse (λ e. plain (wrap "getting instance type, " e)) (type_of_group ng nc)
            (λ it. or_refuse plain (claim_for ng it) answer))

  unfoldable pub get : String → Answer (Claim k)
  unfolding get_claim
  get provider_id =
      if provider_id == ""
      then refuse (plain (message "providerID is empty"))
      else if not (has_prefix provider_id "yandex://")
      then refuse (plain (message "providerID does not have the correct prefix"))
      else or_refuse (get_error provider_id)
          (get_node_group_by_provider_id w.cluster_id w.api w.trim_prefix provider_id) get_claim

  -- the body of List's loop: none where it continues
  unfoldable pub claim_or_skip : NodeGroup → Option (Claim k)
  claim_or_skip ng = elim (node_class_from_node_group w.kube ng) [
    | err e ↦ none
    | ok nc ↦ elim (type_of_group ng nc) [
      | err e ↦ none
      | ok it ↦ elim (claim_for ng it) [ err e ↦ none | ok c ↦ some c ]
    ]
  ]

  unfoldable pub claims : List NodeGroup → List (Claim k)
  claims [] = []
  claims (ng ∷ ngs) =
      let rest = claims ngs in elim (claim_or_skip ng) [ none ↦ rest | some c ↦ c ∷ rest ]

  unfoldable pub list : Result (List (Claim k))
  list = do ngs ← or_wrap "listing nodes, " (list_node_groups w.cluster_id w.api); ok (claims ngs)

  -- GetInstanceTypes: a missing node class publishes an event, and gives no types and no error
  unfoldable pub get_instance_types : NodePool → Result (List (OfferedType k)) × List String
  get_instance_types np = elim (node_class_from_node_pool w.kube np) [
    | ok nc ↦ (or_wrap "listing instance types, " (w.list_types nc), [])
    | err e ↦
        if is_not_found e
        then (ok [], "Failed resolving NodeClass" ∷ [])
        else (err (wrap "resolving nodeClass, " e), [])
  ]
