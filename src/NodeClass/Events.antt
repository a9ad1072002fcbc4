-- ===== src/NodeClass/Events.antt =====
-- pkg/controllers/nodeclass/events.go.
use Prim.Native.String.{◌++◌ as ◌+++◌}
use karpenter_provider_yande.Prelude.{
  ℕ, ◌+◌, String, ◌≡◌, refl, List, [], ◌∷◌, ltb, leb, if◌then◌else◌, length,
}
use karpenter_provider_yande.Yandex.Decimal.{format_nat}

-- the loop of PrettySlice at index `i`, with the elements that are left
pretty_from : ℕ → ℕ → List String → String
pretty_from max i [] = ""
pretty_from max i (elem ∷ elems) =
    let rest = pretty_from max (i + 1) elems in
    if leb max i
    then " and " +++ (format_nat (length (elem ∷ elems)) +++ " other(s)")
    else if ltb 0 i
    then ", " +++ (elem +++ rest)
    else elem +++ rest

unfoldable pub pretty_slice : List String → ℕ → String
unfolding pretty_from format_nat
pretty_slice s max_items = pretty_from max_items 0 s

unfoldable pub waiting_message : List String → String
unfolding pretty_slice
waiting_message names = "Waiting on NodeClaim termination for " +++ pretty_slice names 5

pretty_slice_short : pretty_slice ("a" ∷ "b" ∷ []) 5 ≡ "a, b"
unfolding pretty_slice
pretty_slice_short = refl

pretty_slice_long : pretty_slice ("a" ∷ "b" ∷ "c" ∷ "d" ∷ []) 2 ≡ "a, b and 2 other(s)"
unfolding pretty_slice
pretty_slice_long = refl
