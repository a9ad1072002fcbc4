-- ===== src/NodeClass/Disk.antt =====
-- rulesForDiskType and validateDisk of pkg/controllers/nodeclass/validation.go.
use Prim.Native.String.{◌++◌ as ◌+++◌}
use karpenter_provider_yande.Prelude.{
  ℕ, zero, suc, ◌*◌, ◌%◌, ◌^◌, ◌≤◌, ◌<◌, String, ◌≡◌, refl, sym, ◌∙◌, ◌≢◌, ◌↔◌, ◌⊎◌, inl, inr, Bool,
  true, false, not, ◌&&◌, ◌||◌, Option, none, some, arith, ◌==◌, eq_iff, ltb, eqb, if◌then◌else◌,
  Bool-cases,
}
use karpenter_provider_yande.Prelude.Int.{ℤ, pos, negsuc}
use karpenter_provider_yande.NodeClass.Types.{Spec}

abbrev pub mb : ℕ
mb = 2 ^ 20

abbrev pub gb : ℕ
gb = 2 ^ 30

abbrev pub tb : ℕ
tb = 2 ^ 40

abbrev pub step_network_disk_bytes : ℕ
step_network_disk_bytes = 4 * mb

abbrev pub max_default_bytes : ℕ
max_default_bytes = 4 * tb

abbrev pub step_non_replicated : ℕ
step_non_replicated = 93 * gb

pub record DiskRules : Type 0 where
  pub min_bytes : ℕ
  pub step_bytes : ℕ
  pub max_bytes : ℕ

abbrev pub network_rules : DiskRules
network_rules = record {
  min_bytes = step_network_disk_bytes;
  step_bytes = step_network_disk_bytes;
  max_bytes = max_default_bytes;
}

abbrev pub non_replicated_rules : DiskRules
non_replicated_rules = record {
  min_bytes = step_non_replicated;
  step_bytes = step_non_replicated;
  max_bytes = max_default_bytes;
}

unfoldable pub rules_for_disk_type : String → Option DiskRules
rules_for_disk_type t =
    if t == "network-ssd" || t == "network-hdd"
    then some network_rules
    else if t == "network-ssd-nonreplicated" || t == "network-ssd-io-m3"
    then some non_replicated_rules
    else none

-- (reason, msg); the empty reason is success
abbrev pub Verdict : Type 0
Verdict = String × String

abbrev pub accepted : Verdict
accepted = ("", "")

-- The last case of validateDisk names the default type where the field is empty.
too_large : (ℕ → String) → String → ℕ → Verdict
too_large quantity disk_type max_bytes =
    if disk_type == "" || disk_type == "network-ssd" || disk_type == "network-hdd"
    then (
      "InvalidDiskSize",
      "spec.diskSize must be <= "
          +++ (quantity max_bytes
              +++ (" for diskType=" +++ (if disk_type == "" then "network-ssd" else disk_type))),
    )
    else (
      "InvalidDiskSize",
      "spec.diskSize must be <= " +++ (quantity max_bytes +++ (" for diskType=" +++ disk_type)),
    )

-- the three tests against the rules of the type, in order
check_rules : (ℕ → String) → String → ℕ → DiskRules → Verdict
unfolding too_large
check_rules quantity disk_type size_bytes r =
    if ltb 0 r.min_bytes && ltb size_bytes r.min_bytes
    then (
      "InvalidDiskSize",
      "spec.diskSize must be >= " +++ (quantity r.min_bytes +++ (" for diskType=" +++ disk_type)),
    )
    else if ltb 0 r.step_bytes && not (eqb (size_bytes % r.step_bytes) 0)
    then (
      "InvalidDiskSize",
      "spec.diskSize must be a multiple of "
          +++ (quantity r.step_bytes +++ (" for diskType=" +++ disk_type)),
    )
    else if ltb 0 r.max_bytes && ltb r.max_bytes size_bytes
    then too_large quantity disk_type r.max_bytes
    else accepted

abbrev pub effective_type : String → String
effective_type t = if t == "" then "network-ssd" else t

check_type : (ℕ → String) → String → ℕ → Option DiskRules → Verdict
unfolding check_rules
check_type quantity disk_type size_bytes none =
    ("InvalidDiskType", "unsupported spec.diskType=" +++ effective_type disk_type)
check_type quantity disk_type size_bytes (some r) = check_rules quantity disk_type size_bytes r

-- `quantity` prints a number of bytes, as resource.NewQuantity(…, resource.BinarySI).String().
validate_size : (ℕ → String) → String → ℤ → Verdict
unfolding check_type rules_for_disk_type
validate_size quantity disk_type (negsuc n) = ("InvalidDiskSize", "spec.diskSize must be > 0")
validate_size quantity disk_type (pos zero) = ("InvalidDiskSize", "spec.diskSize must be > 0")
validate_size quantity disk_type (pos (suc n)) =
    check_type quantity disk_type (suc n) (rules_for_disk_type (effective_type disk_type))

unfoldable pub validate_disk : (ℕ → String) → Spec → Verdict
unfolding validate_size
validate_disk quantity spec = validate_size quantity spec.disk_type spec.disk_size

-- The restrictions of Yandex Cloud: a positive number of whole steps, and at most 4 TiB.
abbrev pub Steps : ℕ → ℤ → Type 0
Steps step (pos n) = (0 < n) × (n % step ≡ 0) × (n ≤ max_default_bytes)
Steps step (negsuc n) = ⊥

abbrev pub IsNetwork : String → Type 0
IsNetwork t = (t ≡ "network-ssd") ⊎ (t ≡ "network-hdd")

abbrev pub IsNonReplicated : String → Type 0
IsNonReplicated t = (t ≡ "network-ssd-nonreplicated") ⊎ (t ≡ "network-ssd-io-m3")

abbrev pub IsValidDisk : Spec → Type 0
IsValidDisk spec =
    let t = effective_type spec.disk_type in
    (IsNetwork t × Steps (2 ^ 22) spec.disk_size)
    ⊎ (IsNonReplicated t × Steps (93 * 2 ^ 30) spec.disk_size)

size_ne : ◌≢◌ {A = String} "InvalidDiskSize" ""
size_ne e = ground (arith, eq_iff "InvalidDiskSize" "")

three_tests :
    (a b c : Bool) (m n : String) (v : Verdict)
    → v.0 ≡ "InvalidDiskSize"
    → ((if a
          then ("InvalidDiskSize", m)
          else if b
          then ("InvalidDiskSize", n)
          else if c
          then v
          else accepted).0
        ≡ "")
      ↔ ((a ≡ false) × (b ≡ false) × (c ≡ false))
three_tests true b c m n v h = ((λ e. absurd (size_ne e)), (λ e. cc))
three_tests false true c m n v h = ((λ e. absurd (size_ne e)), (λ e. cc))
three_tests false false true m n v h = ((λ e. absurd (size_ne (sym h ∙ e))), (λ e. cc))
three_tests false false false m n v h = ((λ e. (refl, refl, refl)), (λ e. refl))

too_large-reason : (q : ℕ → String) (t : String) (n : ℕ) → (too_large q t n).0 ≡ "InvalidDiskSize"
unfolding too_large
too_large-reason q t n = elim (Bool-cases (t == "" || t == "network-ssd" || t == "network-hdd")) [
  | inl e ↦ rw e
  | inr e ↦ rw e
]

check_rules-network :
    (q : ℕ → String) (t : String) (n : ℕ)
    → 0 < n
    → ((check_rules q t n network_rules).0 ≡ "") ↔ Steps (2 ^ 22) (pos n)
unfolding check_rules
check_rules-network q t n h =
    let tests =
      three_tests (ltb n (4 * mb)) (not (eqb (n % (4 * mb)) 0)) (ltb (4 * tb) n) _ _ _
        (too_large-reason q t (4 * tb)) in
    (
      (λ e. let (a, b, c) = tests.0 e in ground (arith, a, b, c)),
      (λ e. tests.1 (ground arith, ground arith, ground arith)),
    )

check_rules-non_replicated :
    (q : ℕ → String) (t : String) (n : ℕ)
    → 0 < n
    → ((check_rules q t n non_replicated_rules).0 ≡ "") ↔ Steps (93 * 2 ^ 30) (pos n)
unfolding check_rules
check_rules-non_replicated q t n h =
    let tests =
      three_tests (ltb n (93 * gb)) (not (eqb (n % (93 * gb)) 0)) (ltb (4 * tb) n) _ _ _
        (too_large-reason q t (4 * tb)) in
    (
      (λ e. let (a, b, c) = tests.0 e in ground (arith, a, b, c)),
      (λ e. tests.1 (ground arith, ground arith, ground arith)),
    )

-- The rules of a type, or none where it is neither of the two kinds.
rules_cases :
    (t : String)
    → (IsNetwork t × ¬ IsNonReplicated t × (rules_for_disk_type t ≡ some network_rules))
      ⊎ (¬ IsNetwork t × IsNonReplicated t × (rules_for_disk_type t ≡ some non_replicated_rules))
      ⊎ (¬ IsNetwork t × ¬ IsNonReplicated t × (rules_for_disk_type t ≡ none))
unfolding rules_for_disk_type
rules_cases t = ground (
  arith,
  eq_iff t "network-ssd",
  eq_iff t "network-hdd",
  eq_iff t "network-ssd-nonreplicated",
  eq_iff t "network-ssd-io-m3",
  eq_iff "network-ssd" "network-ssd-nonreplicated",
  eq_iff "network-ssd" "network-ssd-io-m3",
  eq_iff "network-hdd" "network-ssd-nonreplicated",
  eq_iff "network-hdd" "network-ssd-io-m3",
)

type_ne : ◌≢◌ {A = String} "InvalidDiskType" ""
type_ne e = ground (arith, eq_iff "InvalidDiskType" "")

check_type_iff :
    (q : ℕ → String) (t : String) (n : ℕ)
    → 0 < n
    → ((check_type q t n (rules_for_disk_type (effective_type t))).0 ≡ "") ↔ (
        (IsNetwork (effective_type t) × Steps (2 ^ 22) (pos n))
        ⊎ (IsNonReplicated (effective_type t) × Steps (93 * 2 ^ 30) (pos n)))
unfolding check_type
check_type_iff q t n h = elim (rules_cases (effective_type t)) [
  | inl (k, j, e) ↦
      let c = check_rules-network q t n h in
      rw e ((λ a. inl (k, c.0 a)), (λ a. elim a [ inl (_, s) ↦ c.1 s | inr (m, s) ↦ absurd (j m) ]))
  | inr (inl (j, k, e)) ↦
      let c = check_rules-non_replicated q t n h in
      rw e ((λ a. inr (k, c.0 a)), (λ a. elim a [ inl (m, s) ↦ absurd (j m) | inr (m, s) ↦ c.1 s ]))
  | inr (inr (j, k, e)) ↦ rw e (
    (λ a. absurd (type_ne a)),
    (λ a. elim a [ inl (m, s) ↦ absurd (j m) | inr (m, s) ↦ absurd (k m) ]),
  )
]

validate_size_iff :
    (q : ℕ → String) (t : String) (z : ℤ)
    → ((validate_size q t z).0 ≡ "") ↔ (
        (IsNetwork (effective_type t) × Steps (2 ^ 22) z)
        ⊎ (IsNonReplicated (effective_type t) × Steps (93 * 2 ^ 30) z))
unfolding validate_size
validate_size_iff q t (negsuc n) =
    ((λ e. absurd (size_ne e)), (λ a. elim a [ inl (_, s) ↦ absurd s | inr (_, s) ↦ absurd s ]))
validate_size_iff q t (pos zero) = (
  (λ e. absurd (size_ne e)),
  (λ a. elim a [ inl (_, s) ↦ absurd (omega arith) | inr (_, s) ↦ absurd (omega arith) ]),
)
validate_size_iff q t (pos (suc n)) = check_type_iff q t (suc n) (omega arith)

-- validateDisk accepts exactly the disks within the restrictions: a network-ssd or network-hdd disk of
-- whole 4 MiB steps, or a non-replicated or io-m3 disk of whole 93 GiB steps, positive and at most
-- 4 TiB; an empty type stands for network-ssd.
pub validate_disk_iff :
    (q : ℕ → String) (spec : Spec) → ((validate_disk q spec).0 ≡ "") ↔ IsValidDisk spec
unfolding validate_disk
validate_disk_iff q spec = validate_size_iff q spec.disk_type spec.disk_size
