-- ===== src/Prelude/Maps.antt =====
-- Go's map[string]V as an association list that holds each key once. The order of the entries is
-- the order of one `range` over the map.
use Prim.Native.String.{String}
use mathlib.Core.Path.{◌≡◌, refl}
use mathlib.Core.Option.{Option, none, some}
use mathlib.Core.List.{List, [], ◌∷◌}
use native.Mathlib.Omega.{arith}
use text.Mathlib.Text.{◌==◌}
use text.Mathlib.TextEquality.{eq_iff}
use karpenter_provider_yande.Prelude.Tests.{if◌then◌else◌}

abbrev pub Map {ℓ} : Type ℓ → Type ℓ
Map V = List (String × V)

abbrev pub Labels : Type 0
Labels = Map String

module _ {ℓ} {V : Type ℓ} where
  -- v, ok := m[k]
  unfoldable pub lookup : String → Map V → Option V
  lookup k [] = none
  lookup k ((j, v) ∷ m) = if j == k then some v else lookup k m

  -- m[k] = v
  unfoldable pub insert : String → V → Map V → Map V
  insert k v [] = (k, v) ∷ []
  insert k v ((j, w) ∷ m) = if j == k then (k, v) ∷ m else (j, w) ∷ insert k v m

  -- delete(m, k)
  unfoldable pub remove : String → Map V → Map V
  remove k [] = []
  remove k ((j, v) ∷ m) = if j == k then remove k m else (j, v) ∷ remove k m

  -- a key that is written holds the new value, and the others keep theirs
  pub lookup-insert :
      (key asked : String) (new : V) (entries : Map V)
      → lookup asked (insert key new entries)
        ≡ (if key == asked then some new else lookup asked entries)
  unfolding insert lookup
  lookup-insert key asked new [] = refl
  lookup-insert key asked new ((first, old) ∷ rest) = ground (
    arith,
    lookup-insert key asked new rest,
    eq_iff first key,
    eq_iff first asked,
    eq_iff key asked,
  )

  pub lookup-remove :
      (k j : String) (m : Map V) → lookup j (remove k m) ≡ (if k == j then none else lookup j m)
  unfolding lookup remove
  lookup-remove k j [] = ground arith
  lookup-remove k j ((i, w) ∷ m) =
      ground (arith, eq_iff k j, eq_iff i k, eq_iff i j, lookup-remove k j m)

-- m[k] of a map of texts: the empty text where the key is missing
abbrev pub at : String → Labels → String
at k m = elim (lookup k m) [ none ↦ "" | some v ↦ v ]

module _ {ℓ} {V : Type ℓ} where
  -- lo.Assign(m, n): the entries of n over those of m. A map holds each key once, so the order in
  -- which the entries of n are written does not matter.
  unfoldable pub assign : Map V → Map V → Map V
  assign m [] = m
  assign m ((k, v) ∷ n) = insert k v (assign m n)

  abbrev pub or_else : Option V → Option V → Option V
  or_else none o = o
  or_else (some v) o = some v

  pub lookup-assign :
      (k : String) (m n : Map V) → lookup k (assign m n) ≡ or_else (lookup k n) (lookup k m)
  unfolding lookup assign
  lookup-assign k m [] = refl
  lookup-assign k m ((j, v) ∷ n) =
      ground (arith, lookup-assign k m n, lookup-insert j k v (assign m n))

pub ruleset map_laws = (lookup-insert, lookup-remove)
