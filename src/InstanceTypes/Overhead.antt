-- ===== src/InstanceTypes/Overhead.antt =====
-- What a node keeps back from its pods: the reservations of types.go against the capacity.
use karpenter_provider_yande.Prelude.{ℕ, ◌+◌, ◌*◌, ◌/◌, ◌≤◌, ◌<◌, arith}
use karpenter_provider_yande.InstanceTypes.Requirements.{gib, min_of, kube_reserved_memory}
use karpenter_provider_yande.InstanceTypes.NewType.{
  reserved_tenths, kube_reserved_cpu, kube_reserved_ephemeral_storage, eviction_memory,
  eviction_storage,
}
use karpenter_provider_yande.InstanceTypes.Laws.{kube_reserved_memory-quarter}
use karpenter_provider_yande.Prelude.Int.{pos, pos_part}

tenths_bound : (c : ℕ) → reserved_tenths c ≤ 600 * c
unfolding reserved_tenths min_of
tenths_bound c = ground arith

rounded : (x c : ℕ) → 1 ≤ c → x ≤ 600 * c → (x + 5) / 10 < 1000 * c
rounded x c p h = omega arith

-- A node of at least one core, 1 GiB of memory and 17 GiB of disk keeps back less of each than it
-- has: the reservation of the CPU, the one of the memory with the eviction threshold, and the
-- one of the disk with its eviction threshold.
pub overhead-less :
    (cores memory storage : ℕ)
    → 1 ≤ cores
    → gib ≤ memory
    → 17 * gib ≤ storage
    → (kube_reserved_cpu cores < 1000 * cores)
      × (kube_reserved_memory memory + eviction_memory < memory)
      × (kube_reserved_ephemeral_storage + pos_part (eviction_storage (pos storage)) < storage)
unfolding kube_reserved_cpu eviction_storage
overhead-less cores memory storage h k l = (
  rounded (reserved_tenths cores) cores h (tenths_bound cores),
  (let q = kube_reserved_memory-quarter memory k in omega arith),
  omega arith,
)
