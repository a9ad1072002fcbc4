-- ===== src/CloudProvider/Resolve.antt =====
-- How the cloud provider finds the node class, the node pool and the instance types.
use Prim.Native.String.{◌++◌ as ◌+++◌}
use karpenter_provider_yande.Prelude.{
  String, Bool, not, ◌&&◌, none, some, List, [], if◌then◌else◌, is_empty, select,
}
use karpenter_provider_yande.Prelude.Maps.{lookup}
use karpenter_provider_yande.Prelude.Errors.{Error, Result, ok, err, api_error, not_found, ◌>>=◌}
use karpenter_provider_yande.Prelude.Int.{ℤ}
use karpenter_provider_yande.Prelude.Sort.{sort_slice}
use karpenter_provider_yande.NodeClass.Types.{NodeClass}
use karpenter_provider_yande.CloudProvider.Types.{
  Karpenter, Claim, OfferedType, Offer, NodePool, KubeReader, nodepool_label_key,
}
use karpenter_provider_yande.Yandex.NodeGroup.{NodeGroup}
use karpenter_provider_yande.Yandex.InstanceType.{InstanceType}

-- newTerminatingNodeClassError; %q of a name without special characters is the quoted name
unfoldable pub terminating_error : String → Error
terminating_error name = api_error not_found (
    "ec2nodeclasses.karpenter.yandex.cloud \""
    +++ (name +++ "\" is terminating, treating as not found"))

-- a node class on its way out counts as missing
unfoldable pub unless_deleting : NodeClass → Result NodeClass
unless_deleting nc = if nc.deleting then err (terminating_error nc.name) else ok nc

module _ (kube : KubeReader) where
  -- resolveNodeClassFromNodeClaim, by the claim's node class reference
  unfoldable pub node_class_from_node_claim : String → Result NodeClass
  node_class_from_node_claim ref = do nc ← kube.node_class ref; unless_deleting nc

  unfoldable pub node_class_from_node_pool : NodePool → Result NodeClass
  node_class_from_node_pool np = do nc ← kube.node_class np.node_class_ref; unless_deleting nc

  unfoldable pub node_pool_from_node_group : NodeGroup → Result NodePool
  node_pool_from_node_group ng = elim (lookup nodepool_label_key ng.labels) [
    | some name ↦ kube.node_pool name
    | none ↦ err (api_error not_found "nodepools.karpenter.yandex.cloud \"\" not found")
  ]

  unfoldable pub node_class_from_node_group : NodeGroup → Result NodeClass
  unfolding node_pool_from_node_group node_class_from_node_pool
  node_class_from_node_group ng = do np ← node_pool_from_node_group ng; node_class_from_node_pool np

-- nodeGroupToYandexInstanceType; the two functions are resource.NewQuantity in each format
unfoldable pub group_type : {Q : Type 0} → (ℤ → Q) → (ℤ → Q) → NodeGroup → InstanceType Q
group_type decimal binary ng = record {
  platform = ng.platform_id;
  cpu = decimal ng.cores;
  memory = binary ng.memory;
  core_fraction = ng.core_fraction;
}

module _ (k : Karpenter) where
  -- Offerings.Compatible(reqs).Available() of an instance type
  unfoldable pub launchable : k.Requirements → OfferedType k → List (Offer k)
  launchable reqs it = elim it.offerings [
    | none ↦ []
    | some os ↦ select (λ o. o.available) (select (λ o. k.is_compatible reqs o.requirements) os)
  ]

  unfoldable pub cheaper : k.Requirements → OfferedType k → OfferedType k → Bool
  unfolding launchable
  cheaper reqs x y = k.less (k.cheapest (launchable reqs x)) (k.cheapest (launchable reqs y))

  unfoldable pub launches : Claim k → OfferedType k → Bool
  unfolding launchable
  launches claim it =
      not (is_empty (launchable claim.requirements it)) && k.fits claim.requests (k.allocatable it)

  -- resolveInstanceTypes
  unfoldable pub resolve_instance_types :
      Claim k → Result (List (OfferedType k)) → Result (List (OfferedType k))
  unfolding cheaper launches
  resolve_instance_types claim listed = do
    types ← listed
    ok (sort_slice (cheaper claim.requirements) (select (launches claim) types))
