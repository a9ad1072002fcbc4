-- ===== src/Prelude/Errors.antt =====
-- Go's `error` values, as far as the program inspects them.
use Prim.Native.String.{String, ◌++◌}
use mathlib.Core.Path.{◌≡◌, refl}
use mathlib.Core.Logic.{◌⊎◌, inl, inr}
use mathlib.Core.Bool.{Bool, true, false, ◌||◌}
use mathlib.Core.Option.{Option, none, some}
use karpenter_provider_yande.Prelude.Tests.{contains}

-- The reason of an API status error, of Kubernetes or of gRPC.
pub data Reason : Type 0 where
  not_found conflict unavailable : Reason

pub data Error : Type 0 where
  -- fmt.Errorf without %w, errors.New
  message : String → Error
  -- a status error of an API
  api_error : Reason → String → Error
  -- fmt.Errorf("<prefix>, %w", err)
  wrap : String → Error → Error

-- err.Error()
unfoldable pub error_text : Error → String
error_text (message s) = s
error_text (api_error r s) = s
error_text (wrap p e) = p ++ error_text e

-- errors.IsNotFound(err), which looks through %w
unfoldable pub is_not_found : Error → Bool
is_not_found (message s) = false
is_not_found (api_error not_found s) = true
is_not_found (api_error conflict s) = false
is_not_found (api_error unavailable s) = false
is_not_found (wrap p e) = is_not_found e

-- errors.IsConflict(err)
unfoldable pub is_conflict : Error → Bool
is_conflict (message s) = false
is_conflict (api_error not_found s) = false
is_conflict (api_error conflict s) = true
is_conflict (api_error unavailable s) = false
is_conflict (wrap p e) = is_conflict e

pub data Result {ℓ} (A : Type ℓ) : Type ℓ where
  ok : A → Result A
  err : Error → Result A

infixl 5 ◌>>=◌
abbrev pub ◌>>=◌ {ℓ κ} : {A : Type ℓ} {B : Type κ} → Result A → (A → Result B) → Result B
ok a >>= f = f a
err e >>= f = err e

-- return nil, fmt.Errorf("<prefix>, %w", err)
abbrev pub or_wrap {ℓ} : {A : Type ℓ} → String → Result A → Result A
or_wrap p (ok a) = ok a
or_wrap p (err e) = err (wrap p e)

-- client.IgnoreNotFound(err)
unfoldable pub ignore_not_found : Error → Option Error
unfolding is_not_found
ignore_not_found e = elim (is_not_found e) [ true ↦ none | false ↦ some e ]

-- the text test by which the program recognises a missing cloud resource
unfoldable pub says_not_found : Error → Bool
unfolding error_text
says_not_found e = contains (error_text e) "not found" || contains (error_text e) "NotFound"

pub Result-cases {ℓ} :
    {A : Type ℓ} (r : Result A) → ((a : A) × (r ≡ ok a)) ⊎ ((e : Error) × (r ≡ err e))
Result-cases (ok a) = inl (a, refl)
Result-cases (err e) = inr (e, refl)
