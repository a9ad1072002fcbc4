-- ===== src/Subnet/Provider/Order.antt =====
-- The order of the subnets that List returns.
use karpenter_provider_yande.Prelude.{
  ◌≡◌, sym, ap, ◌⊎◌, inl, inr, true, false, List, [], ◌∷◌, arith, Bool-cases, All, All-map,
}
use karpenter_provider_yande.Prelude.Int.{ℤ, pos, negsuc, ltb_ℤ, eqb_ℤ}
use karpenter_provider_yande.Prelude.Sort.{IsSorted}
use karpenter_provider_yande.Prelude.TextOrder.{text_less}
use karpenter_provider_yande.Subnet.Capacity.{Subnet, comes_before}

-- One subnet may stand before another: it has more free addresses, or as many and no later zone.
abbrev pub Precedes : Subnet → Subnet → Type 0
Precedes x y =
    (ltb_ℤ y.available_ip_address_count x.available_ip_address_count ≡ true)
    ⊎ ((x.available_ip_address_count ≡ y.available_ip_address_count)
        × (text_less y.zone_id x.zone_id ≡ false))

-- Each subnet may stand before all later ones.
abbrev pub Ordered : List Subnet → Type 0
Ordered [] = Unit
Ordered (x ∷ xs) = All (Precedes x) xs × Ordered xs

same_number : (a b : ℤ) → eqb_ℤ a b ≡ true → a ≡ b
same_number (pos n) (pos m) h = let e : n ≡ m = ground arith in ap pos e
same_number (pos n) (negsuc m) h = absurd (ground arith)
same_number (negsuc n) (pos m) h = absurd (ground arith)
same_number (negsuc n) (negsuc m) h = let e : n ≡ m = ground arith in ap negsuc e

greater : (a b : ℤ) → eqb_ℤ a b ≡ false → ltb_ℤ b a ≡ false → ltb_ℤ a b ≡ true
greater a b e h = ground arith

precedes : (x y : Subnet) → comes_before y x ≡ false → Precedes x y
unfolding comes_before
precedes x y h =
    elim (Bool-cases (eqb_ℤ y.available_ip_address_count x.available_ip_address_count)) [
      | inl e ↦ inr (sym (same_number _ _ e), rw e at h)
      | inr e ↦
          inl (greater y.available_ip_address_count x.available_ip_address_count e (rw e at h))
    ]

pub Ordered-IsSorted : (xs : List Subnet) → IsSorted comes_before xs → Ordered xs
Ordered-IsSorted [] h = tt
Ordered-IsSorted (x ∷ xs) h = (All-map xs (λ y. precedes x y) h.0, Ordered-IsSorted xs h.1)
