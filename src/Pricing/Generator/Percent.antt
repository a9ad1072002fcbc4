-- ===== src/Pricing/Generator/Percent.antt =====
-- The regular expression (\d+)% of price_gen.go, and what its match says of the text.
use Prim.Native.String.{◌++◌ as ◌+++◌}
use Prim.Native.String.append
use Prim.Native.Char.{Char, code}
use text.Mathlib.TextEquality.{codes_equal}
use Prim.Native.Nat.{compare, Ordering}
use karpenter_provider_yande.Prelude.{
  String, ◌≡◌, refl, sym, ap, ◌∙◌, subst, Bool, true, false, ◌&&◌, Option, none, some, leb, eqb,
  if◌then◌else◌, contains,
}
use karpenter_provider_yande.Prelude.Occurrence.{contains-append}

abbrev is_digit : Char → Bool
is_digit c = leb 48 (code c) && leb (code c) 57

-- a character before what was matched
abbrev before : Char → Option String → Option String
before c none = none
before c (some g) = some (String.◌∷◌ c g)

-- the digits at the start of a text, if a percent sign follows them
unfoldable pub digits_percent : String → Option String
digits_percent String.[] = none
digits_percent (String.◌∷◌ c s) =
    let rest = digits_percent s in
    if eqb (code c) 37 then some String.[] else if is_digit c then before c rest else none

-- at least one digit
abbrev nonempty : Option String → Option String
nonempty none = none
nonempty (some String.[]) = none
nonempty (some (String.◌∷◌ c g)) = some (String.◌∷◌ c g)

abbrev or_later : Option String → Option String → Option String
or_later none o = o
or_later (some g) o = some g

-- the group of the leftmost match
unfoldable pub find_percent : String → Option String
unfolding digits_percent
find_percent String.[] = none
find_percent (String.◌∷◌ c s) =
    let later = find_percent s in or_later (nonempty (digits_percent (String.◌∷◌ c s))) later

percent_of : (c : Char) → eqb (code c) 37 ≡ true → c ≡ "%"
percent_of c h = codes_equal c "%" (is_equal (compare (code c) 37) h)
  where
    is_equal : (o : Ordering) → elim o [ Ordering.eq ↦ true | _ ↦ false ] ≡ true → o ≡ Ordering.eq
    is_equal Ordering.eq h = refl
    is_equal Ordering.lt h = cc
    is_equal Ordering.gt h = cc

-- the text starts with the digits and the percent sign
digits_percent-found :
    (s g : String) → digits_percent s ≡ some g → (v : String) × (s ≡ g +++ ("%" +++ v))
unfolding digits_percent
digits_percent-found String.[] g h = cc
digits_percent-found (String.◌∷◌ c s) g h =
    decide (eqb (code c) 37) refl (is_digit c) (digits_percent s) refl h
      (λ r k. digits_percent-found s r k)
  where
    decide :
        (b : Bool)
        → eqb (code c) 37 ≡ b
        → (d : Bool) → (o : Option String) → digits_percent s ≡ o
        → (if b then some String.[] else if d then before c o else none) ≡ some g
        → ((r : String) → digits_percent s ≡ some r → (v : String) × (s ≡ r +++ ("%" +++ v)))
        → (v : String) × (String.◌∷◌ c s ≡ g +++ ("%" +++ v))
    decide true e d o k h ih =
        let same : String.[] ≡ g = cc in
        (
          s,
          subst (λ x. String.◌∷◌ c s ≡ x +++ ("%" +++ s)) same
              (ap (λ x. String.◌∷◌ x s) (percent_of c e)
                ∙ sym (append.cons "%" String.[] s ∙ ap (λ x. String.◌∷◌ "%" x) (append.nil s))
                ∙ sym (append.nil ("%" +++ s))),
        )
    decide false e false o k h ih = cc
    decide false e true none k h ih = cc
    decide false e true (some r) k h ih =
        let (v, f) = ih r k in
        let same : String.◌∷◌ c r ≡ g = cc in
        (
          v,
          subst (λ x. String.◌∷◌ c s ≡ x +++ ("%" +++ v)) same
              (ap (λ x. String.◌∷◌ c x) f ∙ sym (append.cons c r ("%" +++ v))),
        )

nonempty-found : (o : Option String) (g : String) → nonempty o ≡ some g → o ≡ some g
nonempty-found none g h = cc
nonempty-found (some String.[]) g h = cc
nonempty-found (some (String.◌∷◌ c r)) g h = h

append_assoc : (a b c : String) → (a +++ b) +++ c ≡ a +++ (b +++ c)
append_assoc String.[] b c = ap (λ x. x +++ c) (append.nil b) ∙ sym (append.nil (b +++ c))
append_assoc (String.◌∷◌ x a) b c =
    ap (λ y. y +++ c) (append.cons x a b)
    ∙ append.cons x (a +++ b) c
    ∙ ap (λ y. String.◌∷◌ x y) (append_assoc a b c)
    ∙ sym (append.cons x a (b +++ c))

find_percent-found :
    (s g : String)
    → find_percent s ≡ some g
    → (u : String) × (v : String) × (s ≡ u +++ ((g +++ "%") +++ v))
unfolding find_percent
find_percent-found String.[] g h = cc
find_percent-found (String.◌∷◌ c s) g h =
    decide (nonempty (digits_percent (String.◌∷◌ c s))) refl h (λ k. find_percent-found s g k)
  where
    decide :
        (o : Option String)
        → nonempty (digits_percent (String.◌∷◌ c s)) ≡ o
        → or_later o (find_percent s) ≡ some g
        → (find_percent s ≡ some g → (u : String) × (v : String) × (s ≡ u +++ ((g +++ "%") +++ v)))
        → (u : String) × (v : String) × (String.◌∷◌ c s ≡ u +++ ((g +++ "%") +++ v))
    decide none e h ih =
        let (u, v, f) = ih h in
        (String.◌∷◌ c u, v, ap (λ x. String.◌∷◌ c x) f ∙ sym (append.cons c u ((g +++ "%") +++ v)))
    decide (some r) e h ih =
        let (v, f) =
          digits_percent-found (String.◌∷◌ c s) g
            (nonempty-found (digits_percent (String.◌∷◌ c s)) g (e ∙ h)) in
        (String.[], v, f ∙ sym (append_assoc g "%" v) ∙ sym (append.nil ((g +++ "%") +++ v)))

-- The text contains the group of the match, with the percent sign.
pub find_percent-contains : (s g : String) → find_percent s ≡ some g → contains s (g +++ "%") ≡ true
find_percent-contains s g h =
    let (u, v, e) = find_percent-found s g h in
    subst (λ x. contains x (g +++ "%") ≡ true) (sym e) (contains-append u (g +++ "%") v)
