-- ===== src/Prelude/TextOrder.antt =====
-- Go's `<` on strings, and that it is a strict weak order.
use Prim.Native.Char.{Char, code}
use Prim.Native.String.{compare}
use Prim.Native.String.compare
use package.text.Mathlib.Text.{is_lt}
use native.Mathlib.Omega.{arith}
use mathlib.Core.Path.{◌≡◌, refl}
use mathlib.Core.Bool.{Bool, true, false, ◌&&◌, ◌||◌}
use Prim.Native.String.{String}
use karpenter_provider_yande.Prelude.Tests.{ltb, eqb}

unfoldable pub text_less : String → String → Bool
text_less s t = is_lt (compare s t)

nil_nil : text_less String.[] String.[] ≡ false
unfolding text_less
nil_nil = refl

nil_cons : (d : Char) (t : String) → text_less String.[] (String.◌∷◌ d t) ≡ true
unfolding text_less
nil_cons d t = rw (compare.nil-cons d t)

cons_nil : (c : Char) (s : String) → text_less (String.◌∷◌ c s) String.[] ≡ false
unfolding text_less
cons_nil c s = rw (compare.cons-nil c s)

cons_cons :
    (c d : Char) (s t : String)
    → text_less (String.◌∷◌ c s) (String.◌∷◌ d t)
      ≡ (ltb (code c) (code d) || (eqb (code c) (code d) && text_less s t))
unfolding text_less
cons_cons c d s t = rw (compare.cons-cons c d s t) (ground arith)

pub text_less_asym : (s t : String) → text_less s t ≡ true → text_less t s ≡ false
text_less_asym String.[] String.[] h = nil_nil
text_less_asym String.[] (String.◌∷◌ d t) h = cons_nil d t
text_less_asym (String.◌∷◌ c s) String.[] h = ground (arith, cons_nil c s)
text_less_asym (String.◌∷◌ c s) (String.◌∷◌ d t) h =
    ground (arith, cons_cons c d s t, cons_cons d c t s, text_less_asym s t)

pub text_less_trans :
    (s t u : String) → text_less t s ≡ false → text_less u t ≡ false → text_less u s ≡ false
text_less_trans String.[] String.[] u h k = k
text_less_trans String.[] (String.◌∷◌ d t) String.[] h k = nil_nil
text_less_trans String.[] (String.◌∷◌ d t) (String.◌∷◌ e u) h k = cons_nil e u
text_less_trans (String.◌∷◌ c s) String.[] u h k = ground (arith, nil_cons c s)
text_less_trans (String.◌∷◌ c s) (String.◌∷◌ d t) String.[] h k = ground (arith, nil_cons d t)
text_less_trans (String.◌∷◌ c s) (String.◌∷◌ d t) (String.◌∷◌ e u) h k =
    ground (arith, cons_cons d c t s, cons_cons e d u t, cons_cons e c u s, text_less_trans s t u)
