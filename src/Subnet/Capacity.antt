-- ===== src/Subnet/Capacity.antt =====
-- calculateIPs, and the order in which the subnets are offered.
use karpenter_provider_yande.Prelude.{
  ℕ, zero, suc, ◌-◌, ◌^◌, ◌≤◌, ◌<◌, String, ◌≡◌, inl, inr, Bool, arith, leb, if◌then◌else◌,
  Bool-cases,
}
use karpenter_provider_yande.Prelude.Errors.{Result, ok, ◌>>=◌}
use karpenter_provider_yande.Prelude.Int.{ℤ, ltb_ℤ, eqb_ℤ}
use karpenter_provider_yande.Prelude.Sort.{IsLess}
use karpenter_provider_yande.Prelude.TextOrder.{text_less, text_less_asym, text_less_trans}

-- `parse_mask` is net.ParseCIDR followed by Mask.Size(): the length of the mask, up to 128 for IPv6.
-- math.Pow(2, 32 - mask) is below 1 for a mask over 32, and its integer part is then 0.
unfoldable pub addresses_of_mask : ℕ → ℕ
addresses_of_mask mask = if leb mask 32 then 2 ^ (32 - mask) - 2 else 0

unfoldable pub calculate_ips : (String → Result ℕ) → String → Result ℕ
unfolding addresses_of_mask
calculate_ips parse_mask cidr = do mask ← parse_mask cidr; ok (addresses_of_mask mask)

-- Subnet
pub record Subnet : Type 0 where
  pub id : String
  pub zone_id : String
  pub available_ip_address_count : ℤ

-- the comparison of sort.Slice: more free addresses first, then the zone
unfoldable pub comes_before : Subnet → Subnet → Bool
comes_before a b =
    if eqb_ℤ a.available_ip_address_count b.available_ip_address_count
    then text_less a.zone_id b.zone_id
    else ltb_ℤ b.available_ip_address_count a.available_ip_address_count

small : (k : ℕ) → k < 2 → 2 ^ k ≤ 2
small zero h = omega arith
small (suc zero) h = omega arith
small (suc (suc k)) h = absurd (omega arith)

-- Masks of 31 and 32 bits, and those of IPv6, leave no address.
pub addresses_of_mask_small : (mask : ℕ) → 31 ≤ mask → addresses_of_mask mask ≡ 0
unfolding addresses_of_mask
addresses_of_mask_small mask h = elim (Bool-cases (leb mask 32)) [
  | inl e ↦ rw e (ground (arith, small (32 - mask) (omega arith)))
  | inr e ↦ rw e
]

pub comes_before-IsLess : IsLess comes_before
unfolding comes_before
comes_before-IsLess = record {
  asym = λ a b h. ground (arith, text_less_asym a.zone_id b.zone_id);
  trans = λ a b c h k. ground (arith, text_less_trans a.zone_id b.zone_id c.zone_id);
}
