-- ===== src/CloudProvider/Types.antt =====
-- The values that the cloud provider exchanges with the core of Karpenter (sigs.k8s.io/karpenter),
-- and the operations of that library that the provider calls: a parameter.
use karpenter_provider_yande.Prelude.{ℕ, String, Bool, Option, List}
use karpenter_provider_yande.Prelude.Maps.{Map, Labels}
use karpenter_provider_yande.Prelude.Errors.{Error, Result}
use karpenter_provider_yande.NodeClass.Types.{NodeClass}

abbrev pub nodepool_label_key : String
nodepool_label_key = "karpenter.sh/nodepool"

abbrev pub capacity_type_label_key : String
capacity_type_label_key = "karpenter.sh/capacity-type"

abbrev pub yandexnodeclass_key : String
yandexnodeclass_key = "karpenter.yandex.cloud/yandexnodeclass"

abbrev pub node_group_id_key : String
node_group_id_key = "yandex.cloud/node-group-id"

-- the kinds of error that Karpenter tells apart
pub data CloudError : Type 0 where
  plain : Error → CloudError
  node_claim_not_found : Error → CloudError
  insufficient_capacity : Error → CloudError
  node_class_not_ready : Error → CloudError
  -- NewCreateError(err, reason, message)
  create_error : Error → String → String → CloudError

pub data Answer (A : Type 0) : Type 0 where
  answer : A → Answer A
  refuse : CloudError → Answer A

-- cloudprovider.Offering, its requirements those of the library
pub record Offering (Requirements Price : Type 0) : Type 0 where
  pub requirements : Requirements
  pub price : Price
  pub available : Bool

-- cloudprovider.InstanceType; `none` stands for nil offerings
pub record InstanceOffer (Requirements Price Quantity : Type 0) : Type 0 where
  pub name : String
  pub requirements : Requirements
  pub offerings : Option (List (Offering Requirements Price))
  pub capacity : Map Quantity
  pub overhead : Map Quantity

-- karpv1.NodeClaim: the parts of the metadata, the spec and the status that the program uses
pub record NodeClaim (Requirements Quantity : Type 0) : Type 0 where
  pub name : String
  pub labels : Labels
  pub annotations : Labels
  pub creation : ℕ
  pub deletion : Option ℕ
  pub node_class_ref : String
  pub requirements : Requirements
  pub requests : Map Quantity
  pub provider_id : String
  pub capacity : Map Quantity
  pub allocatable : Map Quantity

-- karpv1.NodePool, by the name of its node class
pub record NodePool : Type 0 where
  pub node_class_ref : String

-- Karpenter's library. `entries` are the keys of a set of requirements, each with Len() and
-- Values(); `combine` is Add of all of another set, `require_in` Add of one requirement In.
pub record Karpenter : Type 1 where
  pub Requirements : Type 0
  pub Price : Type 0
  pub Quantity : Type 0
  pub is_zero : Quantity → Bool
  pub entries : Requirements → Map (ℕ × List String)
  pub no_requirements : Requirements
  pub combine : Requirements → Requirements → Requirements
  pub require_in : String → String → Requirements → Requirements
  -- receiver and argument: `is_compatible` is IsCompatible with AllowUndefinedWellKnownLabels, as
  -- Offerings.Compatible calls it, `is_strictly_compatible` without that option
  pub is_compatible : Requirements → Requirements → Bool
  pub is_strictly_compatible : Requirements → Requirements → Bool
  -- Get(key).Any() of an offering's requirements, for the capacity type and the zone
  pub value_of : String → Requirements → String
  pub less : Price → Price → Bool
  -- Offerings.Cheapest().Price
  pub cheapest : List (Offering Requirements Price) → Price
  -- the quantities that Allocatable() leaves of a capacity
  pub allocatable : InstanceOffer Requirements Price Quantity → Map Quantity
  -- resources.Fits
  pub fits : Map Quantity → Map Quantity → Bool

module _ (k : Karpenter) where
  abbrev pub Offer : Type 0
  Offer = Offering k.Requirements k.Price

  abbrev pub OfferedType : Type 0
  OfferedType = InstanceOffer k.Requirements k.Price k.Quantity

  abbrev pub Claim : Type 0
  Claim = NodeClaim k.Requirements k.Quantity

-- kubeClient.Get of the two kinds that the provider reads
pub record KubeReader : Type 0 where
  pub node_class : String → Result NodeClass
  pub node_pool : String → Result NodePool
