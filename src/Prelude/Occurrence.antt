-- ===== src/Prelude/Occurrence.antt =====
-- strings.Contains finds every occurrence.
use Prim.Native.String.{◌++◌ as ◌+++◌, begins, same, find, len}
use Prim.Native.String.find
use Prim.Native.String.append
use Prim.Native.String.len
use Prim.Native.Char.{code, len_utf8}
use Prim.Native.Nat.{ℕ, ◌≤◌, ◌+◌, compare, Ordering}
use Prim.Native.String.{String}
use mathlib.Core.Path.{◌≡◌, refl, ap, ◌∙◌, sym, subst}
use mathlib.Core.Bool.{true}
use native.Mathlib.Omega.{arith}
use karpenter_provider_yande.Prelude.Tests.{contains}

compare_self : (n : ℕ) → compare n n ≡ Ordering.eq
compare_self n = ground arith

-- a text begins with its first part
begins-append : (t v : String) (y n : ℕ) → begins (t +++ v) t y n ≡ y
begins-append String.[] v y n = refl
begins-append (String.◌∷◌ c t) v y n =
    ap (λ w. begins w (String.◌∷◌ c t) y n) (append.cons c t v)
    ∙ ap (λ o. same o (begins (t +++ v) t y n) n) (compare_self (code c))
    ∙ begins-append t v y n

within : (s t : String) → find s t ≤ len s → contains s t ≡ true
within s t h = ground arith

begins-le : (s t : String) (n m : ℕ) → n ≤ m → begins s t 0 n ≤ m
begins-le s String.[] n m h = omega arith
begins-le String.[] (String.◌∷◌ d t) n m h = h
begins-le (String.◌∷◌ c s) (String.◌∷◌ d t) n m h =
    same-le (compare (code c) (code d)) (begins s t 0 n) n m (begins-le s t n m h) h
  where
    same-le : (o : Ordering) (a n m : ℕ) → a ≤ m → n ≤ m → same o a n ≤ m
    same-le Ordering.lt a n m h k = k
    same-le Ordering.eq a n m h k = h
    same-le Ordering.gt a n m h k = k

find-append : (u t v : String) → find (u +++ (t +++ v)) t ≤ len (u +++ (t +++ v))
find-append String.[] t v =
    subst (λ w. find w t ≤ len w) (sym (append.nil (t +++ v))) (at_start t v (t +++ v) refl)
  where
    at_start : (t v w : String) → w ≡ t +++ v → find w t ≤ len w
    at_start t v String.[] e =
        rw (find.nil t)
          (rw (subst (λ w. begins w t 0 1 ≡ 0) (sym e) (begins-append t v 0 1)) (omega arith))
    at_start t v (String.◌∷◌ c s) e = rw (find.cons c s t) (
        rw
          (subst (λ w. begins w t 0 (len_utf8 c + find s t) ≡ 0) (sym e)
            (begins-append t v 0 (len_utf8 c + find s t)))
          (omega arith))
find-append (String.◌∷◌ c u) t v =
    subst (λ w. find w t ≤ len w) (sym (append.cons c u (t +++ v)))
      (rw (find.cons c (u +++ (t +++ v)) t) (
        begins-le (String.◌∷◌ c (u +++ (t +++ v))) t _ _
          (rw (len.cons c (u +++ (t +++ v))) (omega (arith, find-append u t v)))))

-- a text contains its middle part
pub contains-append : (u t v : String) → contains (u +++ (t +++ v)) t ≡ true
contains-append u t v = within _ _ (find-append u t v)
