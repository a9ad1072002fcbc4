-- ===== src/Yandex/MatchLabels.antt =====
-- pkg/yandex/utils.go, and the selector terms that the subnet provider and the validation share.
use mathlib.Core.List.{Perm, Permᴰ}
use mathlib.Core.Logic.{∥∥₁_elim}
use karpenter_provider_yande.Prelude.{
  String, ◌≡◌, refl, ◌∙◌, ◌↔◌, ◌⊎◌, inl, inr, Bool, true, false, none, some, [], ◌∷◌, arith, ◌==◌,
  eq_iff, if◌then◌else◌, All,
}
use karpenter_provider_yande.Prelude.Maps.{Labels, lookup}
use karpenter_provider_yande.Prelude.{Bool-cases}
use karpenter_provider_yande.Prelude.{Option-cases}

-- one round of the loop
unfoldable pub match_label : Labels → String → String → Bool
match_label current key value = elim (lookup key current) [
  | none ↦ false
  | some v ↦ if value == "*" then true else v == value
]

unfoldable pub match_labels : Labels → Labels → Bool
unfolding match_label
match_labels current [] = true
match_labels current ((key, value) ∷ wanted) =
    if match_label current key value then match_labels current wanted else false

-- The object has the label, with the wanted value or with any value for `*`.
abbrev pub Carries : Labels → String × String → Type 0
Carries current w = (v : String) × (lookup w.0 current ≡ some v) × ((w.1 ≡ "*") ⊎ (v ≡ w.1))

match_label-Carries :
    (current : Labels) (key value : String)
    → (match_label current key value ≡ true) ↔ Carries current (key, value)
unfolding match_label
match_label-Carries current key value = elim (Option-cases (lookup key current)) [
  | inl e ↦ rw e ((λ h. cc), (λ (v, h, _). cc))
  | inr (v, e) ↦ rw e (
    (λ h. (v, refl, ground (arith, eq_iff value "*", eq_iff v value))),
    (λ (u, h, c). ground (arith, eq_iff value "*", eq_iff v value)),
  )
]

-- MatchLabels accepts exactly the objects that carry every wanted label, `*` standing for any value.
pub match_labels_iff :
    (current wanted : Labels) → (match_labels current wanted ≡ true) ↔ All (Carries current) wanted
unfolding match_labels
match_labels_iff current [] = ((λ _. tt), (λ _. refl))
match_labels_iff current ((key, value) ∷ wanted) =
    let one = match_label-Carries current key value in
    let rest = match_labels_iff current wanted in
    elim (Bool-cases (match_label current key value)) [
      | inl e ↦ rw e ((λ h. (one.0 e, rest.0 h)), (λ h. rest.1 h.1))
      | inr e ↦ rw e ((λ h. cc), (λ h. cc (one.1 h.0)))
    ]

match_labels-permᴰ :
    (current : Labels) {a b : Labels} → Permᴰ a b → match_labels current a ≡ match_labels current b
unfolding match_labels
match_labels-permᴰ current Permᴰ.nil = refl
match_labels-permᴰ current (Permᴰ.cons e p) = ground (arith, e, match_labels-permᴰ current p)
match_labels-permᴰ current (Permᴰ.swap e f) = ground (arith, e, f)
match_labels-permᴰ current (Permᴰ.trans p q) =
    match_labels-permᴰ current p ∙ match_labels-permᴰ current q

Bool-set : IsSet Bool
Bool-set = hlevel

-- The answer does not depend on the order in which Go ranges over the wanted labels.
pub match_labels-perm :
    (current a b : Labels) → Perm a b → match_labels current a ≡ match_labels current b
match_labels-perm current a b p = ∥∥₁_elim p (Bool-set _ _) (λ d. match_labels-permᴰ current d)
