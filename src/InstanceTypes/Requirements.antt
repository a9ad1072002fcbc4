-- ===== src/InstanceTypes/Requirements.antt =====
-- computeRequirements, computeCapacity and the parts of NewInstanceType of types.go, over
-- requirements that are written as lists of values.
use karpenter_provider_yande.Prelude.{
  ℕ, ◌+◌, ◌-◌, ◌*◌, ◌/◌, ◌^◌, String, Bool, Option, none, some, List, [], ◌∷◌, map, ltb, leb,
  if◌then◌else◌,
}
use karpenter_provider_yande.Prelude.Maps.{Labels}
use karpenter_provider_yande.NodeClass.Types.{
  NodeClass, label_instance_cpu_platform, label_instance_cpu, label_instance_memory,
  label_instance_type, label_instance_cpu_fraction,
}
use karpenter_provider_yande.Yandex.Decimal.{format_int}
use karpenter_provider_yande.Yandex.InstanceType.{InstanceType, Quantities, string}

-- scheduling.NewRequirement(key, In, values...)
pub record Requirement : Type 0 where
  pub key : String
  pub values : List String

-- The library's set of requirements of one node: NewRequirements, Add, and the values of Get.
-- Documented: a requirement that is added is intersected with that of its key, and a key without a
-- requirement has no values.
pub record Scheduling : Type 1 where
  pub Requirements : Type 0
  pub new : List Requirement → Requirements
  pub add : Requirement → Requirements → Requirements
  pub values_of : String → Requirements → List String

unfoldable pub capacity_types : Bool → List String
capacity_types can_be_preemptible =
    if can_be_preemptible then "on-demand" ∷ "spot" ∷ [] else "on-demand" ∷ []

unfoldable pub available_zones : NodeClass → List String
available_zones nc = map (λ s. s.zone_id) nc.subnets

module _ (qs : Quantities) where
  -- the requirements that every type has, in the order of the source
  unfoldable pub base_requirements : InstanceType qs.Quantity → NodeClass → Bool → List Requirement
  base_requirements info nc can_be_preemptible =
      let name = string qs info in
      record { key = "node.kubernetes.io/instance-type"; values = name ∷ [] }
      ∷ record { key = "beta.kubernetes.io/instance-type"; values = name ∷ [] }
      ∷ record { key = "kubernetes.io/arch"; values = "amd64" ∷ [] }
      ∷ record { key = "kubernetes.io/os"; values = "linux" ∷ [] }
      ∷ record { key = "topology.kubernetes.io/zone"; values = available_zones nc }
      ∷ record { key = "failure-domain.beta.kubernetes.io/zone"; values = available_zones nc }
      ∷ record { key = "karpenter.sh/capacity-type"; values = capacity_types can_be_preemptible }
      ∷ record { key = label_instance_cpu_platform; values = info.platform ∷ [] }
      ∷ record { key = label_instance_cpu; values = qs.quantity_string info.cpu ∷ [] }
      ∷ record { key = label_instance_memory; values = qs.quantity_string info.memory ∷ [] }
      ∷ record { key = label_instance_type; values = name ∷ [] }
      ∷ record { key = label_instance_cpu_fraction; values = format_int info.core_fraction ∷ [] }
      ∷ record { key = "yandex.cloud/pci-topology"; values = "k8s" ∷ [] }
      ∷ record { key = "yandex.cloud/preemptible"; values = "true" ∷ "false" ∷ [] }
      ∷ record { key = "node.kubernetes.io/masq-agent-ds-ready"; values = "true" ∷ [] }
      ∷ record { key = "node.kubernetes.io/node-problem-detector-ds-ready"; values = "true" ∷ [] }
      ∷ []

  module _ (sch : Scheduling) where
    -- for k, v := range nodeClass.Spec.NodeLabels
    unfoldable pub add_node_labels : Labels → sch.Requirements → sch.Requirements
    add_node_labels [] r = r
    add_node_labels ((k, v) ∷ rest) r =
        add_node_labels rest (sch.add (record { key = k; values = v ∷ [] }) r)

    -- ranging over a nil map does nothing
    unfoldable pub node_labels_of : Option Labels → Labels
    node_labels_of none = []
    node_labels_of (some m) = m

    unfoldable pub compute_requirements :
        InstanceType qs.Quantity → NodeClass → Bool → sch.Requirements
    compute_requirements info nc can_be_preemptible =
        add_node_labels (node_labels_of nc.spec.node_labels)
          (sch.new (base_requirements info nc can_be_preemptible))

-- kubeReservedMemory, in bytes: 25 % of the first 4 GiB, 20 % of the next 4, 10 % of the next 8,
-- 6 % of the next 112 and 2 % of the rest. The source adds the parts in floating point and then
-- cuts the fraction off; here the sum of hundredths is divided once.
abbrev pub gib : ℕ
gib = 2 ^ 30

unfoldable pub min_of : ℕ → ℕ → ℕ
min_of a b = if leb a b then a else b

unfoldable pub reserved_hundredths : ℕ → ℕ
unfolding min_of
reserved_hundredths m =
    25 * min_of m (4 * gib)
    + 20 * min_of (m - 4 * gib) (4 * gib)
    + 10 * min_of (m - 8 * gib) (8 * gib)
    + 6 * min_of (m - 16 * gib) (112 * gib)
    + 2 * (m - 128 * gib)

unfoldable pub kube_reserved_memory : ℕ → ℕ
unfolding reserved_hundredths
kube_reserved_memory m = if ltb m gib then 255 * 2 ^ 20 else reserved_hundredths m / 100
