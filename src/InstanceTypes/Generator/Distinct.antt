-- ===== src/InstanceTypes/Generator/Distinct.antt =====
-- removeDuplicatesInt and removeDuplicatesFloat, for a test of equality.
use karpenter_provider_yande.Prelude.{or_true}
use karpenter_provider_yande.Prelude.{
  ◌≡◌, refl, ◌∙◌, Bool, true, false, ◌||◌, List, [], ◌∷◌, if◌then◌else◌, any, All, All-map,
}
use karpenter_provider_yande.Prelude.Sort.{
  sort_insert, sort_slice, All-sort_insert_of, All-sort_slice,
}

module _ {A : Type 0} (same : A → A → Bool) where
  -- the loop: `seen` are the keys of the map
  unfoldable pub add_unseen : List A → List A → List A
  add_unseen seen [] = []
  add_unseen seen (v ∷ vs) =
      let skipped = add_unseen seen vs in
      let kept = v ∷ add_unseen (v ∷ seen) vs in if any (λ x. same x v) seen then skipped else kept

  unfoldable pub remove_duplicates : List A → List A
  unfolding add_unseen
  remove_duplicates vs = add_unseen [] vs

  -- no element is the same as a later one
  abbrev pub Distinct : List A → Type 0
  Distinct [] = Unit
  Distinct (x ∷ xs) = All (λ y. same x y ≡ false) xs × Distinct xs

  split_or : (a b : Bool) → (a || b) ≡ false → (a ≡ false) × (b ≡ false)
  split_or false b h = (refl, h)
  split_or true b h = cc

  -- what is kept is not among the seen
  add_unseen-unseen :
      (seen vs : List A) → All (λ y. any (λ x. same x y) seen ≡ false) (add_unseen seen vs)
  unfolding add_unseen
  add_unseen-unseen seen [] = tt
  add_unseen-unseen seen (v ∷ vs) =
      decide (any (λ x. same x v) seen) refl (add_unseen-unseen seen vs)
        (add_unseen-unseen (v ∷ seen) vs)
    where
      decide :
          (b : Bool)
          → any (λ x. same x v) seen ≡ b
          → All (λ y. any (λ x. same x y) seen ≡ false) (add_unseen seen vs)
          → All (λ y. any (λ x. same x y) (v ∷ seen) ≡ false) (add_unseen (v ∷ seen) vs)
          → All
              (λ y. any (λ x. same x y) seen ≡ false)
              (if b then add_unseen seen vs else v ∷ add_unseen (v ∷ seen) vs)
      decide true e h k = h
      decide false e h k =
          (e, All-map (add_unseen (v ∷ seen) vs) (λ y u. (split_or (same v y) _ u).1) k)

  add_unseen-Distinct : (seen vs : List A) → Distinct (add_unseen seen vs)
  unfolding add_unseen
  add_unseen-Distinct seen [] = tt
  add_unseen-Distinct seen (v ∷ vs) =
      decide (any (λ x. same x v) seen) (add_unseen-Distinct seen vs)
        (add_unseen-Distinct (v ∷ seen) vs)
    where
      decide :
          (b : Bool)
          → Distinct (add_unseen seen vs)
          → Distinct (add_unseen (v ∷ seen) vs)
          → Distinct (if b then add_unseen seen vs else v ∷ add_unseen (v ∷ seen) vs)
      decide true h k = h
      decide false h k = (
        All-map (add_unseen (v ∷ seen) vs) (λ y u. (split_or (same v y) _ u).0)
            (add_unseen-unseen (v ∷ seen) vs),
        k,
      )

  pub remove_duplicates-Distinct : (vs : List A) → Distinct (remove_duplicates vs)
  unfolding remove_duplicates
  remove_duplicates-Distinct vs = add_unseen-Distinct [] vs

  module _ (reflexive : (x : A) → same x x ≡ true) where
    moved : (a b c : Bool) → ((a || b) || c) ≡ true → (b || (a || c)) ≡ true
    moved true true c h = refl
    moved true false c h = refl
    moved false true c h = refl
    moved false false c h = h

    covered :
        (seen vs : List A)
        → All
            (λ v. (any (λ x. same x v) seen || any (λ x. same x v) (add_unseen seen vs)) ≡ true)
            vs
    unfolding add_unseen
    covered seen [] = tt
    covered seen (v ∷ vs) =
        decide (any (λ x. same x v) seen) refl (covered seen vs) (covered (v ∷ seen) vs)
      where
        decide :
            (b : Bool)
            → any (λ x. same x v) seen ≡ b
            → All
                (λ w. (any (λ x. same x w) seen || any (λ x. same x w) (add_unseen seen vs)) ≡ true)
                vs
            → All
                (λ w.
                  (any (λ x. same x w) (v ∷ seen) || any (λ x. same x w) (add_unseen (v ∷ seen) vs))
                  ≡ true)
                vs
            → All
                (λ w.
                  (any (λ x. same x w) seen
                    || any
                        (λ x. same x w)
                        (if b then add_unseen seen vs else v ∷ add_unseen (v ∷ seen) vs))
                  ≡ true)
                (v ∷ vs)
        decide true e h k = (rw e refl, h)
        decide false e h k = (
          rw (reflexive v) (or_true (any (λ x. same x v) seen)),
          All-map vs
              (λ w u.
                moved (same v w) (any (λ x. same x w) seen)
                  (any (λ x. same x w) (add_unseen (v ∷ seen) vs)) u)
              k,
        )

    -- nothing is lost
    pub remove_duplicates-covered :
        (vs : List A) → All (λ v. any (λ x. same x v) (remove_duplicates vs) ≡ true) vs
    unfolding remove_duplicates
    remove_duplicates-covered vs = covered [] vs

  -- sorting keeps the elements distinct, if the test is symmetric
  module _ (less : A → A → Bool) (symmetric : (x y : A) → same x y ≡ same y x) where
    sort_insert-Distinct :
        (x : A) (xs : List A)
        → All (λ y. same x y ≡ false) xs
        → Distinct xs
        → Distinct (sort_insert less x xs)
    unfolding sort_insert
    sort_insert-Distinct x [] h k = (tt, tt)
    sort_insert-Distinct x (y ∷ ys) h k = decide (less y x) (sort_insert-Distinct x ys h.1 k.1)
      where
        decide :
            (b : Bool)
            → Distinct (sort_insert less x ys)
            → Distinct (if b then y ∷ sort_insert less x ys else x ∷ y ∷ ys)
        decide true r =
            (All-sort_insert_of (λ z. same y z ≡ false) less x ys (symmetric y x ∙ h.0) k.0, r)
        decide false r = (h, k)

    pub sort_slice-Distinct : (xs : List A) → Distinct xs → Distinct (sort_slice less xs)
    unfolding sort_slice
    sort_slice-Distinct [] h = tt
    sort_slice-Distinct (x ∷ xs) h =
        sort_insert-Distinct x (sort_slice less xs)
          (All-sort_slice (λ z. same x z ≡ false) less xs h.0) (sort_slice-Distinct xs h.1)
