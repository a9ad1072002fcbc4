-- ===== src/InstanceTypes/NewType.antt =====
-- NewInstanceType, computeCapacity, kubeReservedResources and evictionThreshold of types.go.
use karpenter_provider_yande.Prelude.{
  ℕ, suc, ◌+◌, ◌-◌, ◌*◌, ◌/◌, ◌^◌, Bool, [], ◌∷◌, ltb, if◌then◌else◌,
}
use karpenter_provider_yande.Prelude.Maps.{Map}
use karpenter_provider_yande.Prelude.Int.{ℤ, pos, negsuc, pos_part}
use karpenter_provider_yande.NodeClass.Types.{NodeClass}
use karpenter_provider_yande.Yandex.InstanceType.{InstanceType, Quantities, string}
use karpenter_provider_yande.InstanceTypes.Requirements.{
  Scheduling, compute_requirements, kube_reserved_memory, min_of,
}
use karpenter_provider_yande.InstanceTypes.Offerings.{OfferedType}

-- kubeReservedCPU, in tenths of a thousandth of a core: 6 % of the first core, 1 % of the second,
-- 0.5 % of the next two and 0.25 % of the rest
unfoldable pub reserved_tenths : ℕ → ℕ
unfolding min_of
reserved_tenths cores =
    600 * min_of cores 1 + 100 * min_of (cores - 1) 1 + 50 * min_of (cores - 2) 2 + 25 * (cores - 4)

-- math.Round: a half is rounded up. Only an odd number of cores over four gives a half, and the
-- source's product in floating point may then lie on either side of it.
unfoldable pub kube_reserved_cpu : ℕ → ℕ
unfolding reserved_tenths
kube_reserved_cpu cores = (reserved_tenths cores + 5) / 10

-- resource.MustParse("15Gi")
abbrev pub kube_reserved_ephemeral_storage : ℕ
kube_reserved_ephemeral_storage = 15 * 2 ^ 30

-- resource.MustParse("356Mi")
abbrev pub eviction_memory : ℕ
eviction_memory = 356 * 2 ^ 20

-- math.Ceil(storage / 100 * 10), as the exact quotient
unfoldable pub eviction_storage : ℤ → ℤ
eviction_storage (pos n) = pos ((n + 9) / 10)
eviction_storage (negsuc n) = if ltb (suc n) 10 then pos 0 else negsuc (suc n / 10 - 1)

-- The readings and the makers of quantities: Value, MilliValue, NewQuantity, NewMilliQuantity.
pub record Measures (Quantity : Type 0) : Type 0 where
  pub value : Quantity → ℤ
  pub milli_value : Quantity → ℤ
  pub quantity : ℤ → Quantity
  pub milli_quantity : ℕ → Quantity

-- InstanceTypeOverhead; the part reserved for the system is empty
pub record Overhead (Quantity : Type 0) : Type 0 where
  pub kube_reserved : Map Quantity
  pub system_reserved : Map Quantity
  pub eviction_threshold : Map Quantity

-- what OfferedType holds beside the name, the requirements and the offerings
pub record Resources (Quantity : Type 0) : Type 0 where
  pub capacity : Map Quantity
  pub overhead : Overhead Quantity

module _ (qs : Quantities) (ms : Measures qs.Quantity) where
  unfoldable pub compute_capacity : InstanceType qs.Quantity → qs.Quantity → ℕ → Map qs.Quantity
  compute_capacity info disk_size pods =
      ("cpu", info.cpu)
      ∷ ("memory", info.memory)
      ∷ ("ephemeral-storage", disk_size)
      ∷ ("pods", ms.quantity (pos pods))
      ∷ []

  -- a memory below zero is below 1 GiB, and a CPU below one core has no whole core
  unfoldable pub kube_reserved_resources : qs.Quantity → qs.Quantity → Map qs.Quantity
  kube_reserved_resources cpu memory =
      ("memory", ms.quantity (pos (kube_reserved_memory (pos_part (ms.value memory)))))
      ∷ ("cpu", ms.milli_quantity (kube_reserved_cpu (pos_part (ms.milli_value cpu) / 1000)))
      ∷ ("ephemeral-storage", ms.quantity (pos kube_reserved_ephemeral_storage))
      ∷ []

  unfoldable pub eviction_threshold : ℤ → Map qs.Quantity
  eviction_threshold storage =
      ("memory", ms.quantity (pos eviction_memory))
      ∷ ("ephemeral-storage", ms.quantity (eviction_storage storage))
      ∷ []

  module _ (sch : Scheduling) {Price : Type 0} where
    unfoldable pub new_instance_type :
        InstanceType qs.Quantity
        → NodeClass
        → ℕ
        → Bool
        → OfferedType sch.Requirements Price (Resources qs.Quantity)
    new_instance_type info nc max_pods can_be_preemptible = record {
      name = string qs info;
      requirements = compute_requirements qs sch info nc can_be_preemptible;
      offerings = [];
      resources = record {
        capacity = compute_capacity info (ms.quantity nc.spec.disk_size) max_pods;
        overhead = record {
          kube_reserved = kube_reserved_resources info.cpu info.memory;
          system_reserved = [];
          eviction_threshold = eviction_threshold nc.spec.disk_size;
        };
      };
    }
