-- ===== src/Tests/AuthRuns.antt =====
-- One exchange of a token, and the reads after it.
use karpenter_provider_yande.Prelude.{◌+◌, ◌<◌, ◌≡◌, refl, some, List, [], ◌∷◌, arith}
use karpenter_provider_yande.Prelude.Errors.{ok}
use karpenter_provider_yande.Prelude.Int.{pos}
use karpenter_provider_yande.Yandex.Auth.{
  decoded, add_seconds, oidc_refresh_threshold, lifetime, exchange_jwt_for_iam_token, Cached, Token,
  read_cached, renewed, renew, iam_token_of, get_iam_token,
}
use karpenter_provider_yande.Yandex.Auth.Renewal.{
  Section, renewal, Reached, start, after_renewal, Issued, read_cached-Issued, get_iam_token-again,
}

abbrev empty : Cached
empty = record { token = ""; expires_at = 0 }

abbrev hour : Cached
hour = record { token = "t1"; expires_at = 4600000000000 }

abbrev hour_token : Token
hour_token = record { iam_token = "t1"; expires_at = 4600000000000 }

abbrev history : List Section
history = renewal "jwt" (decoded "t1" (pos 3600)) 1000000000000 ∷ []

renewed_once : (renew "jwt" (decoded "t1" (pos 3600)) 1000000000000 empty).1 ≡ hour
unfolding renew renewed add_seconds exchange_jwt_for_iam_token lifetime
renewed_once = refl

reached : Reached history hour
reached =
    after_renewal "jwt" (decoded "t1" (pos 3600)) 1000000000000 [] empty hour (start 0) renewed_once

read_once : read_cached 2000000000000 hour ≡ some hour_token
unfolding read_cached
read_once = refl

read_cached-Issued_example :
    Issued history hour_token × (2000000000000 + oidc_refresh_threshold < 4600000000000)
read_cached-Issued_example =
    read_cached-Issued history hour 2000000000000 hour_token reached
      (unfold lifetime in omega arith, tt) read_once

first_call :
    get_iam_token 999000000000 "jwt" (decoded "t1" (pos 3600)) 1000000000000 empty
    ≡ (ok hour_token, hour)
unfolding get_iam_token iam_token_of read_cached renew renewed add_seconds
    exchange_jwt_for_iam_token lifetime
first_call = refl

get_iam_token-again_example :
    get_iam_token 2000000000000 "" (decoded "t2" (pos 60)) 2001000000000 hour
    ≡ (ok hour_token, hour)
get_iam_token-again_example =
    get_iam_token-again 999000000000 1000000000000 2000000000000 2001000000000 "jwt" ""
      (decoded "t1" (pos 3600)) (decoded "t2" (pos 60)) empty hour hour_token first_call
      (omega arith)
