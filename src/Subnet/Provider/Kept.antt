-- ===== src/Subnet/Provider/Kept.antt =====
-- The loop of List over the subnets of the network: which of them it keeps, and what it makes of
-- them.
use karpenter_provider_yande.Prelude.{
  ℕ, ◌+◌, ◌-◌, ◌^◌, String, ◌≡◌, refl, sym, ap, ◌∙◌, subst, inl, inr, true, false, List, [], ◌∷◌,
  arith, leb, Bool-cases, any,
}
use karpenter_provider_yande.Prelude.Errors.{Result, ok, Result-cases}
use karpenter_provider_yande.Prelude.Int.{sub_ℕ}
use karpenter_provider_yande.NodeClass.Types.{SubnetSelectorTerm}
use karpenter_provider_yande.NodeClass.Selector.{VpcSubnet, keep, selects, keep-eq-any}
use karpenter_provider_yande.Subnet.Capacity.{Subnet, addresses_of_mask, calculate_ips}
use karpenter_provider_yande.Subnet.Provider.{Answers, total_ips, measure, build}

-- The addresses of the blocks of a subnet: 2 ^ (32 - mask) less the two that no host gets, and
-- none where that is not positive.
pub data Totals (parse_mask : String → Result ℕ) : List String → ℕ → Type 0 where
  no_block : Totals parse_mask [] 0
  one_more :
      (cidr : String) (cidrs : List String) (mask rest : ℕ)
      → parse_mask cidr ≡ ok mask
      → Totals parse_mask cidrs rest
      → Totals parse_mask (cidr ∷ cidrs) (2 ^ (32 - mask) - 2 + rest)

-- `sub` says of a subnet its id, its zone, and the addresses of its blocks less those in use.
pub record IsMeasured (a : Answers) (subnet : VpcSubnet) (sub : Subnet) : Type 0 where
  pub in_use : ℕ
  pub total : ℕ
  pub id : sub.id ≡ subnet.id
  pub zone : sub.zone_id ≡ subnet.zone_id
  pub used : a.used_ips subnet.id ≡ ok in_use
  pub totals : Totals a.parse_mask subnet.v4_cidr_blocks total
  pub available : sub.available_ip_address_count ≡ sub_ℕ total in_use

-- The subnets of the network that some term selects, by its id or by its labels, measured in the
-- order of the cloud's answer.
pub data Measures (a : Answers) (terms : List SubnetSelectorTerm)
    : List VpcSubnet → List Subnet → Type 0 where
  nothing : Measures a terms [] []
  selected :
      (s : VpcSubnet) (ss : List VpcSubnet) (sub : Subnet) (subs : List Subnet)
      → any (selects s) terms ≡ true
      → IsMeasured a s sub
      → Measures a terms ss subs
      → Measures a terms (s ∷ ss) (sub ∷ subs)
  left_out :
      (s : VpcSubnet) (ss : List VpcSubnet) (subs : List Subnet)
      → any (selects s) terms ≡ false
      → Measures a terms ss subs
      → Measures a terms (s ∷ ss) subs

large_mask : (mask : ℕ) → leb mask 32 ≡ false → 0 ≡ 2 ^ (32 - mask) - 2
large_mask mask h = let none_left : 32 - mask ≡ 0 = ground arith in rw none_left refl

addresses : (mask : ℕ) → addresses_of_mask mask ≡ 2 ^ (32 - mask) - 2
unfolding addresses_of_mask
addresses mask = elim (Bool-cases (leb mask 32)) [
  | inl e ↦ rw e refl
  | inr e ↦ rw e (large_mask mask e)
]

counted :
    (parse_mask : String → Result ℕ) (cidr : String) (n : ℕ)
    → calculate_ips parse_mask cidr ≡ ok n
    → (mask : ℕ) × (parse_mask cidr ≡ ok mask) × (n ≡ 2 ^ (32 - mask) - 2)
unfolding calculate_ips
counted parse_mask cidr n h = elim (Result-cases (parse_mask cidr)) [
  | inr (x, f) ↦ absurd (ground arith)
  | inl (mask, f) ↦
      let same : addresses_of_mask mask ≡ n = ground arith in (mask, f, sym same ∙ addresses mask)
]

total_ips-Totals :
    (parse_mask : String → Result ℕ) (cidrs : List String) (n : ℕ)
    → total_ips parse_mask cidrs ≡ ok n
    → Totals parse_mask cidrs n
unfolding total_ips
total_ips-Totals parse_mask [] n h =
    let same : 0 ≡ n = cc in subst (Totals parse_mask []) same no_block
total_ips-Totals parse_mask (cidr ∷ cidrs) n h =
    elim (Result-cases (calculate_ips parse_mask cidr)) [
      | inr (x, f) ↦ absurd (ground arith)
      | inl (c, f) ↦ elim (Result-cases (total_ips parse_mask cidrs)) [
        | inr (x, g) ↦ absurd (ground arith)
        | inl (rest, g) ↦
            let (mask, m, e) = counted parse_mask cidr c f in
            let same : c + rest ≡ n = ground arith in
            subst (Totals parse_mask (cidr ∷ cidrs)) (ap (λ k. k + rest) (sym e) ∙ same)
              (one_more cidr cidrs mask rest m (total_ips-Totals parse_mask cidrs rest g))
      ]
    ]

pub measure-IsMeasured :
    (a : Answers) (subnet : VpcSubnet) (sub : Subnet)
    → measure a subnet ≡ ok sub
    → IsMeasured a subnet sub
unfolding measure
measure-IsMeasured a subnet sub h = elim (Result-cases (a.used_ips subnet.id)) [
  | inr (x, f) ↦ absurd (ground arith)
  | inl (in_use, f) ↦ elim (Result-cases (total_ips a.parse_mask subnet.v4_cidr_blocks)) [
    | inr (x, g) ↦ absurd (ground arith)
    | inl (total, g) ↦ record {
      in_use = in_use;
      total = total;
      id = ground arith;
      zone = ground arith;
      used = f;
      totals = total_ips-Totals a.parse_mask subnet.v4_cidr_blocks total g;
      available = ground arith;
    }
  ]
]

-- one step of the loop that succeeds: the subnet is measured, and the rest is built
pub build-cons :
    (a : Answers) (terms : List SubnetSelectorTerm) (s : VpcSubnet) (ss : List VpcSubnet)
    (built : List Subnet)
    → keep terms s ≡ true
    → build a terms (s ∷ ss) ≡ ok built
    → (sub : Subnet) × (rest : List Subnet) × IsMeasured a s sub
      × (build a terms ss ≡ ok rest)
      × (built ≡ sub ∷ rest)
unfolding build
build-cons a terms s ss built e h = elim (Result-cases (measure a s)) [
  | inr (x, f) ↦ absurd (ground arith)
  | inl (sub, f) ↦ elim (Result-cases (build a terms ss)) [
    | inr (x, g) ↦ absurd (ground arith)
    | inl (rest, g) ↦ (sub, rest, measure-IsMeasured a s sub f, g, ground arith)
  ]
]

pub build-Measures :
    (a : Answers) (terms : List SubnetSelectorTerm) (subnets : List VpcSubnet) (built : List Subnet)
    → build a terms subnets ≡ ok built
    → Measures a terms subnets built
unfolding build
build-Measures a terms [] built h =
    let same : [] ≡ built = cc in subst (Measures a terms []) same nothing
build-Measures a terms (s ∷ ss) built h = elim (Bool-cases (keep terms s)) [
  | inl e ↦
      let (sub, rest, m, f, same) = build-cons a terms s ss built e h in
      subst (Measures a terms (s ∷ ss)) (sym same) (
        selected s ss sub rest (sym (keep-eq-any terms s) ∙ e) m (build-Measures a terms ss rest f))
  | inr e ↦
      left_out s ss built (sym (keep-eq-any terms s) ∙ e)
        (build-Measures a terms ss built (rw e at h))
]
