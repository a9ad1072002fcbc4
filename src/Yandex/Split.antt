-- ===== src/Yandex/Split.antt =====
-- strings.Split(s, sep) for a separator of one character.
use Prim.Native.Char.{Char, code}
use text.Mathlib.TextLemmas.{nil-append, cons-append}
use karpenter_provider_yande.Yandex.Decimal.{Free}
use Prim.Native.String.{◌++◌ as ◌+++◌}
use karpenter_provider_yande.Prelude.{
  ℕ, String, ◌≡◌, refl, List, [], ◌∷◌, eqb, if◌then◌else◌, eqb_iff,
}

-- what one more character does to the pieces of the rest
abbrev glue : Char → List String → List String
glue c [] = String.◌∷◌ c String.[] ∷ []
glue c (p ∷ ps) = String.◌∷◌ c p ∷ ps

unfoldable pub split : ℕ → String → List String
split sep String.[] = String.[] ∷ []
split sep (String.◌∷◌ c s) =
    let rest = split sep s in if eqb (code c) sep then String.[] ∷ rest else glue c rest

-- a text with no separator is one piece
pub split-Free : (sep : ℕ) (s : String) → Free sep s → split sep s ≡ s ∷ []
unfolding split
split-Free sep String.[] h = refl
split-Free sep (String.◌∷◌ c s) h = rw h.0 (rw (split-Free sep s h.1))

-- a piece with no separator, the separator, and the rest
pub split-append :
    (c : Char) (s t : String)
    → Free (code c) s
    → split (code c) (s +++ String.◌∷◌ c t) ≡ s ∷ split (code c) t
unfolding split
split-append c String.[] t h = rw (nil-append, (eqb_iff (code c) (code c)).1 refl)
split-append c (String.◌∷◌ d s) t h = rw (cons-append, h.0) (rw (split-append c s t h.1))
