-- ===== src/InstanceTypes/Generator/Known.antt =====
-- The platforms that the generators know, and that their constants differ.
use karpenter_provider_yande.Prelude.{same_bool, same_bool-eq}
use karpenter_provider_yande.Prelude.{
  ◌≡◌, refl, sym, ap, ◌∙◌, Bool, true, false, ◌&&◌, ◌||◌, List, [], ◌∷◌, map, arith, ◌==◌, eq_iff,
  any,
}
use karpenter_provider_yande.Prelude.Sort.{sort_slice, sort_insert}
use karpenter_provider_yande.Yandex.Platform.{PlatformId}
use karpenter_provider_yande.InstanceTypes.Generator.{platform_mapping}
use karpenter_provider_yande.InstanceTypes.Generator.Output.{get_constant_name}

abbrev pub known_platforms : List PlatformId
known_platforms = map (λ e. e.1) platform_mapping

abbrev pub is_known : PlatformId → Bool
is_known id = any (λ k. k == id) known_platforms

every : (PlatformId → Bool) → List PlatformId → Bool
every p [] = true
every p (x ∷ xs) = p x && every p xs

every-at :
    (p : PlatformId → Bool) (xs : List PlatformId) (x : PlatformId)
    → every p xs ≡ true
    → any (λ k. k == x) xs ≡ true
    → p x ≡ true
unfolding every
every-at p [] x h k = cc
every-at p (y ∷ ys) x h k = decide (y == x) refl (p y) refl h k (λ i j. every-at p ys x i j)
  where
    decide :
        (b : Bool)
        → (y == x) ≡ b
        → (c : Bool) → p y ≡ c
        → (c && every p ys) ≡ true
        → (b || any (λ k. k == x) ys) ≡ true
        → (every p ys ≡ true → any (λ k. k == x) ys ≡ true → p x ≡ true)
        → p x ≡ true
    decide true e true f h k ih = ap p (sym ((eq_iff y x).0 e)) ∙ f
    decide true e false f h k ih = cc
    decide false e true f h k ih = ih h k
    decide false e false f h k ih = cc

-- different platforms have different constants
names_distinct :
    every
      (λ a.
        every
          (λ b. same_bool (get_constant_name a == get_constant_name b) (a == b))
          known_platforms)
      known_platforms
    ≡ true
unfolding every get_constant_name
names_distinct = refl

pub constants_differ :
    (a b : PlatformId)
    → is_known a ≡ true
    → is_known b ≡ true
    → (get_constant_name a == get_constant_name b) ≡ (a == b)
constants_differ a b h k = same_bool-eq _ _ (
    every-at (λ y. same_bool (get_constant_name a == get_constant_name y) (a == y)) known_platforms
      b
      (every-at
        (λ x.
          every (λ y. same_bool (get_constant_name x == get_constant_name y) (x == y))
            known_platforms)
        known_platforms a names_distinct h)
      k)

any-sort_insert :
    (p : PlatformId → Bool) (less : PlatformId → PlatformId → Bool) (x : PlatformId)
    (xs : List PlatformId)
    → any p (sort_insert less x xs) ≡ (p x || any p xs)
unfolding sort_insert
any-sort_insert p less x [] = refl
any-sort_insert p less x (y ∷ ys) = ground (arith, any-sort_insert p less x ys)

pub any-sort_slice :
    (p : PlatformId → Bool) (less : PlatformId → PlatformId → Bool) (xs : List PlatformId)
    → any p (sort_slice less xs) ≡ any p xs
unfolding sort_slice
any-sort_slice p less [] = refl
any-sort_slice p less (x ∷ xs) =
    any-sort_insert p less x (sort_slice less xs) ∙ ap (λ b. p x || b) (any-sort_slice p less xs)
