-- ===== src/Prelude/Sort.antt =====
-- sort.Slice: some order of the elements that agrees with `less`. It is not stable, so only the
-- two laws below are used of it.
use mathlib.Core.Path.{◌≡◌}
use mathlib.Core.Bool.{Bool, true, false}
use mathlib.Core.List.{List, [], ◌∷◌, Perm}
use mathlib.Core.List.Perm
use mathlib.Core.Logic.{inl, inr}
use native.Mathlib.Omega.{arith}
use karpenter_provider_yande.Prelude.Tests.{if◌then◌else◌, Bool-cases}
use karpenter_provider_yande.Prelude.Lists.{All, All-map}

module _ {ℓ} {A : Type ℓ} (less : A → A → Bool) where
  unfoldable pub sort_insert : A → List A → List A
  sort_insert x [] = x ∷ []
  sort_insert x (y ∷ ys) = if less y x then y ∷ sort_insert x ys else x ∷ y ∷ ys

  unfoldable pub sort_slice : List A → List A
  unfolding sort_insert
  sort_slice [] = []
  sort_slice (x ∷ xs) = sort_insert x (sort_slice xs)

  -- no later element is less than an earlier one
  abbrev pub IsSorted : List A → Type ℓ
  IsSorted [] = Unit
  IsSorted (x ∷ xs) = All (λ y. less y x ≡ false) xs × IsSorted xs

  pub sort_insert-perm : (x : A) (xs : List A) → Perm (sort_insert x xs) (x ∷ xs)
  unfolding sort_insert
  sort_insert-perm x [] = Perm.refl (x ∷ [])
  sort_insert-perm x (y ∷ ys) = elim (Bool-cases (less y x)) [
    | inl e ↦ rw e (Perm.trans (Perm.cons y (sort_insert-perm x ys)) (Perm.swap x y ys))
    | inr e ↦ rw e (Perm.refl (x ∷ y ∷ ys))
  ]

  pub sort_slice-perm : (xs : List A) → Perm (sort_slice xs) xs
  unfolding sort_slice
  sort_slice-perm [] = Perm.refl []
  sort_slice-perm (x ∷ xs) =
      Perm.trans (sort_insert-perm x (sort_slice xs)) (Perm.cons x (sort_slice-perm xs))

-- what sort.Slice asks of `less`: a strict weak order
pub record IsLess {ℓ} {A : Type ℓ} (less : A → A → Bool) : Type ℓ where
  pub asym : (x y : A) → less x y ≡ true → less y x ≡ false
  pub trans : (x y z : A) → less y x ≡ false → less z y ≡ false → less z x ≡ false

module _ {ℓ} {A : Type ℓ} {less : A → A → Bool} (law : IsLess less) where
  All-sort_insert :
      (z x : A) (xs : List A)
      → less x z ≡ false
      → All (λ y. less y z ≡ false) xs
      → All (λ y. less y z ≡ false) (sort_insert less x xs)
  unfolding sort_insert
  All-sort_insert z x [] e h = (e, tt)
  All-sort_insert z x (y ∷ ys) e h = ground (arith, All-sort_insert z x ys e h.1)

  sort_insert-IsSorted :
      (x : A) (xs : List A) → IsSorted less xs → IsSorted less (sort_insert less x xs)
  unfolding sort_insert
  sort_insert-IsSorted x [] h = (tt, tt)
  sort_insert-IsSorted x (y ∷ ys) h = elim (Bool-cases (less y x)) [
    | inl e ↦ rw e (All-sort_insert y x ys (law.asym y x e) h.0, sort_insert-IsSorted x ys h.1)
    | inr e ↦ rw e ((e, All-map ys (λ z f. law.trans x y z e f) h.0), h)
  ]

  -- The sorted list has no element before one that is less.
  pub sort_slice-IsSorted : (xs : List A) → IsSorted less (sort_slice less xs)
  unfolding sort_slice
  sort_slice-IsSorted [] = tt
  sort_slice-IsSorted (x ∷ xs) =
      sort_insert-IsSorted x (sort_slice less xs) (sort_slice-IsSorted xs)

-- what holds of every element holds of every element of the sorted list
module _ {ℓ κ} {A : Type ℓ} (P : A → Type κ) (less : A → A → Bool) where
  pub All-sort_insert_of : (x : A) (xs : List A) → P x → All P xs → All P (sort_insert less x xs)
  unfolding sort_insert
  All-sort_insert_of x [] p h = (p, tt)
  All-sort_insert_of x (y ∷ ys) p h = elim (Bool-cases (less y x)) [
    | inl e ↦ rw e (h.0, All-sort_insert_of x ys p h.1)
    | inr e ↦ rw e (p, h)
  ]

  pub All-sort_slice : (xs : List A) → All P xs → All P (sort_slice less xs)
  unfolding sort_slice
  All-sort_slice [] h = tt
  All-sort_slice (x ∷ xs) h = All-sort_insert_of x (sort_slice less xs) h.0 (All-sort_slice xs h.1)
