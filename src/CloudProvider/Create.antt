-- ===== src/CloudProvider/Create.antt =====
-- Create of the cloud provider.
use karpenter_provider_yande.Prelude.{
  ℕ, zero, suc, String, Bool, Option, none, some, List, [], ◌∷◌, map, ◌==◌, eqb, if◌then◌else◌,
  is_some, length, is_empty, select,
}
use karpenter_provider_yande.Prelude.Maps.{Map, Labels, lookup, insert, at}
use karpenter_provider_yande.Prelude.Errors.{Error, Result, ok, err, message, wrap, is_not_found}
use karpenter_provider_yande.Prelude.Int.{ℤ}
use karpenter_provider_yande.NodeClass.Types.{
  NodeClass, Condition, is_true, is_false, is_unknown, label_instance_cpu_platform,
  label_instance_cpu, label_instance_memory, label_instance_cpu_fraction,
}
use karpenter_provider_yande.CloudProvider.Types.{
  Karpenter, Claim, OfferedType, Offer, KubeReader, CloudError, plain, insufficient_capacity,
  node_class_not_ready, create_error, Answer, answer, refuse, nodepool_label_key,
  yandexnodeclass_key, capacity_type_label_key,
}
use karpenter_provider_yande.CloudProvider.Resolve.{
  node_class_from_node_claim, resolve_instance_types,
}
use karpenter_provider_yande.CloudProvider.Operations.{or_refuse}
use karpenter_provider_yande.Yandex.Decimal.{format_int}
use karpenter_provider_yande.Yandex.InstanceType.{InstanceType}
use karpenter_provider_yande.Yandex.Sdk.Create.{CreateArgs}
use karpenter_provider_yande.Yandex.NodeGroup.{NodeGroup}
use karpenter_provider_yande.Subnet.Capacity.{Subnet}

-- the end of a call: a panic of the Go runtime, or what it returns
pub data Ended (A : Type 0) : Type 0 where
  panicked : Ended A
  returned : A → Ended A

-- The Ready condition of the node class. A nil condition counts as unknown, and its message is then
-- read through the nil pointer.
unfoldable pub not_ready : NodeClass → Option Condition → Ended (Option CloudError)
not_ready nc none = panicked
not_ready nc (some c) = elim c.state [
  | is_false ↦ returned (some (node_class_not_ready (message c.message)))
  | is_unknown ↦ returned (
      some (
        create_error
          (wrap "resolving nodeclass readiness, nodeclass is in Ready=Unknown, "
            (message c.message))
          "NodeClassReadinessUnknown" "NodeClass is in Ready=Unknown"))
  | is_true ↦
      if eqb c.observed_generation nc.generation
      then returned none
      else returned (
          some (
            node_class_not_ready
              (message "nodeclass status has not been reconciled against the latest spec")))
]

-- lo.SliceToMap: of two subnets of a zone, the later one
unfoldable pub zone_to_subnet : List Subnet → Map Subnet
zone_to_subnet [] = []
zone_to_subnet (s ∷ ss) =
    let rest = zone_to_subnet ss in
    if is_some (lookup s.zone_id rest) then rest else insert s.zone_id s rest

-- zoneToSubnet[zone].ID: the zero Subnet has the empty id
unfoldable pub subnet_of : String → Map Subnet → String
subnet_of zone m = elim (lookup zone m) [ none ↦ "" | some s ↦ s.id ]

-- x[i]
unfoldable pub nth {ℓ} : {A : Type ℓ} → ℕ → List A → Option A
nth n [] = none
nth zero (x ∷ xs) = some x
nth (suc n) (x ∷ xs) = nth n xs

module _ (k : Karpenter) where
  -- the offerings of a type that are compatible, with the requirements of the type, the node pool
  -- and the node class added to their own
  unfoldable pub completed : Claim k → OfferedType k → Offer k → Offer k
  completed claim it o = record o {
    requirements = k.require_in yandexnodeclass_key (at yandexnodeclass_key claim.labels) (
        k.require_in nodepool_label_key (at nodepool_label_key claim.labels)
          (k.combine o.requirements it.requirements));
  }

  unfoldable pub compatible_offerings : Claim k → OfferedType k → List (Offer k)
  compatible_offerings claim it = elim it.offerings [
    | none ↦ []
    | some os ↦
        select (λ o. k.is_strictly_compatible o.requirements claim.requirements)
          (map (completed claim it) os)
  ]

  -- the second filter over the types, which keeps the compatible offerings of each
  unfoldable pub narrowed : Claim k → List (OfferedType k) → List (OfferedType k)
  narrowed claim [] = []
  narrowed claim (it ∷ its) =
      let rest = narrowed claim its in
      let offerings = compatible_offerings claim it in
      if is_empty offerings then rest else record it { offerings = some offerings } ∷ rest

  unfoldable pub available_offerings : OfferedType k → List (Offer k)
  available_offerings it = elim it.offerings [ none ↦ [] | some os ↦ select (λ o. o.available) os ]

  unfoldable pub is_spot : Offer k → Bool
  is_spot o = k.value_of capacity_type_label_key o.requirements == "spot"

  -- `rand n` is rand.Intn(n), which panics at 0
  unfoldable pub pick : (ℕ → ℕ) → List (Offer k) → Option (Offer k)
  pick rand [] = none
  pick rand (o ∷ os) = nth (rand (length (o ∷ os))) (o ∷ os)

  unfoldable pub pick_offering : (ℕ → ℕ) → List (Offer k) → Option (Offer k)
  pick_offering rand available =
      let spot = select is_spot available in
      if is_empty spot then pick rand available else pick rand spot

  -- maps.Clone of a nil map is nil, and an assignment to a nil map panics: none
  unfoldable pub group_map : Option Labels → Claim k → String → Option Labels
  group_map none claim capacity_type = none
  group_map (some m) claim capacity_type = some (
      insert capacity_type_label_key capacity_type (
        insert yandexnodeclass_key (at yandexnodeclass_key claim.labels)
          (insert nodepool_label_key (at nodepool_label_key claim.labels) m)))

module _ (k : Karpenter) (string_of : k.Quantity → String) (value_of : k.Quantity → ℤ) where
  unfoldable pub node_map :
      Option Labels → Claim k → InstanceType k.Quantity → String → Option Labels
  node_map none claim yait capacity_type = none
  node_map (some m) claim yait capacity_type = some (
      insert capacity_type_label_key capacity_type (
        insert label_instance_cpu_fraction (format_int yait.core_fraction) (
          insert label_instance_memory (string_of yait.memory) (
            insert label_instance_cpu (string_of yait.cpu) (
              insert label_instance_cpu_platform yait.platform
                (insert nodepool_label_key (at nodepool_label_key claim.labels) m))))))

  -- the call of CreateFixedNodeGroup
  unfoldable pub create_args :
      Claim k
      → NodeClass
      → Map Subnet
      → InstanceType k.Quantity
      → Offer k
      → Labels
      → Labels
      → CreateArgs
  create_args claim nc subnets yait o labels node_labels =
      let zone = k.value_of "topology.kubernetes.io/zone" o.requirements in
      record {
        name = claim.name;
        labels = labels;
        node_labels = node_labels;
        platform_id = yait.platform;
        core_fraction = yait.core_fraction;
        cpu = value_of yait.cpu;
        memory = value_of yait.memory;
        preemptible = is_spot k o;
        zone_id = zone;
        subnet_id = subnet_of zone subnets;
        security_groups = nc.spec.security_groups;
        software_accelerated_network_settings = nc.spec.software_accelerated_network_settings;
        disk_type = nc.spec.disk_type;
        disk_size = nc.spec.disk_size;
      }

-- What Create meets outside, over the state `S` of the cloud and its client. `create` is
-- CreateFixedNodeGroup of the client, none its panic; `claim_for` turns the new group into the claim
-- that Create returns. Listed fills the three with the cached client.
pub record Launch (k : Karpenter) (S : Type 0) : Type 0 where
  pub kube : KubeReader
  pub ready_condition : NodeClass → Option Condition
  pub list_types : NodeClass → Result (List (OfferedType k))
  pub list_subnets : NodeClass → Result (List Subnet)
  pub rand : ℕ → ℕ
  pub parse_name : String → Result (InstanceType k.Quantity)
  pub string_of : k.Quantity → String
  pub value_of : k.Quantity → ℤ
  pub create : CreateArgs → S → Option (Result String × S)
  pub get_node_group : String → S → Result NodeGroup
  pub claim_for : S → NodeGroup → Option (OfferedType k) → Result (Claim k)

module _ (k : Karpenter) {S : Type 0} (w : Launch k S) where
  -- after CreateFixedNodeGroup
  unfoldable pub finish : OfferedType k → Result String × S → Answer (Claim k) × S
  finish it (err e, s) = (refuse (plain (wrap "creating instance, " e)), s)
  finish it (ok id, s) = (
    or_refuse (λ e. plain (wrap "getting node group, " e)) (w.get_node_group id s)
        (λ ng. or_refuse plain (w.claim_for s ng (some it)) answer),
    s,
  )

  -- the call of CreateFixedNodeGroup has ended
  unfoldable pub ended :
      OfferedType k → S → Option (Result String × S) → Ended (Answer (Claim k)) × S
  ended it s none = (panicked, s)
  ended it s (some r) = let (a, s') = finish it r in (returned a, s')

  -- both label maps are there, or an assignment has panicked
  unfoldable pub request :
      Claim k
      → NodeClass
      → Map Subnet
      → OfferedType k
      → Offer k
      → InstanceType k.Quantity
      → Option Labels
      → Option Labels
      → S
      → Ended (Answer (Claim k)) × S
  request claim nc subnets it o yait (some labels) (some node_labels) s =
      let args = create_args k w.string_of w.value_of claim nc subnets yait o labels node_labels in
      ended it s (w.create args s)
  request claim nc subnets it o yait _ _ s = (panicked, s)

  unfoldable pub launch_offering :
      Claim k
      → NodeClass
      → Map Subnet
      → OfferedType k
      → Option (Offer k)
      → S
      → Ended (Answer (Claim k)) × S
  launch_offering claim nc subnets it none s = (panicked, s)
  launch_offering claim nc subnets it (some o) s = elim (w.parse_name it.name) [
    | err e ↦ (returned (refuse (plain (wrap "parse instance type name: " e))), s)
    | ok yait ↦
        let capacity_type = k.value_of capacity_type_label_key o.requirements in
        request claim nc subnets it o yait (group_map k nc.spec.labels claim capacity_type)
          (node_map k w.string_of w.value_of nc.spec.node_labels claim yait capacity_type) s
  ]

  -- instanceTypes[0] of the narrowed types, which panics where there is none
  unfoldable pub launch_first :
      Claim k → NodeClass → Map Subnet → List (OfferedType k) → S → Ended (Answer (Claim k)) × S
  launch_first claim nc subnets [] s = (panicked, s)
  launch_first claim nc subnets (it ∷ its) s =
      launch_offering claim nc subnets it (pick_offering k w.rand (available_offerings k it)) s

  unfoldable pub launch :
      Claim k → NodeClass → Result (List (OfferedType k)) → S → Ended (Answer (Claim k)) × S
  launch claim nc (err e) s = (
    returned (
        refuse (
          create_error (wrap "resolving instance types, " e) "InstanceTypeResolutionFailed"
            "Error resolving instance types")),
    s,
  )
  launch claim nc (ok []) s = (
    returned (
        refuse (
          insufficient_capacity
            (message "all requested instance types were unavailable during launch"))),
    s,
  )
  launch claim nc (ok (it ∷ its)) s = elim (w.list_subnets nc) [
    | err e ↦ (returned (refuse (plain (wrap "listing subnets, " e))), s)
    | ok subnets ↦ launch_first claim nc (zone_to_subnet subnets) (narrowed k claim (it ∷ its)) s
  ]

  unfoldable pub launch_if_ready :
      Claim k → NodeClass → Ended (Option CloudError) → S → Ended (Answer (Claim k)) × S
  launch_if_ready claim nc panicked s = (panicked, s)
  launch_if_ready claim nc (returned (some e)) s = (returned (refuse e), s)
  launch_if_ready claim nc (returned none) s =
      launch claim nc (resolve_instance_types k claim (w.list_types nc)) s

  -- an error of resolveNodeClassFromNodeClaim; the event that it publishes is left out
  unfoldable pub class_error : Error → CloudError
  class_error e =
      if is_not_found e
      then insufficient_capacity (wrap "resolving nodeclass, " e)
      else plain (wrap "resolving nodeclass, " e)

  unfoldable pub create : Claim k → S → Ended (Answer (Claim k)) × S
  create claim s = elim (node_class_from_node_claim w.kube claim.node_class_ref) [
    | err e ↦ (returned (refuse (class_error e)), s)
    | ok nc ↦ launch_if_ready claim nc (not_ready nc (w.ready_condition nc)) s
  ]
