-- ===== src/Yandex/Auth.antt =====
-- The credentials of pkg/yandex/auth.go: their sources, the exchange of a token and its cache.
pub mod Renewal
use karpenter_provider_yande.Prelude.{
  ℕ, zero, suc, ◌+◌, ◌-◌, ◌*◌, ◌/◌, ◌%◌, ◌^◌, ◌≤◌, ◌<◌, String, ◌≡◌, refl, sym, ap, ◌∙◌, subst, ◌≢◌,
  ◌↔◌, ◌⊎◌, inl, inr, Bool, true, false, not, ◌&&◌, ◌||◌, Option, none, some, List, [], ◌∷◌, ◌++◌,
  map, arith, ◌==◌, eq_iff, eq_refl, ltb, leb, eqb, if◌then◌else◌, is_some, contains, has_prefix,
  ltb→lt, leb→le, eqb_iff, Bool-cases, Option-cases, length, is_empty, select, any, find_first, All,
  head?, All-select, All-map, All-append, All-select_of, length-append, length-select-le,
  length-map, is_some-find_first,
}
use karpenter_provider_yande.Prelude.Maps.{
  Map, Labels, lookup, insert, remove, at, assign, lookup-insert, lookup-remove, map_laws,
}
use karpenter_provider_yande.Prelude.Errors.{
  Error, Result, ok, err, message, api_error, wrap, Reason, not_found, conflict, unavailable,
  error_text, is_not_found, is_conflict, ◌>>=◌, or_wrap, ignore_not_found, says_not_found,
  Result-cases,
}
use Prim.Native.String.{◌++◌ as ◌+++◌}
use karpenter_provider_yande.Prelude.Int.{ℤ, pos_part}

-- what the program reads of its environment; `file` is os.ReadFile
pub record Environment : Type 0 where
  pub getenv : String → String
  pub file : String → Result String

-- ycsdk.Credentials; `Key` is iamkey.Key
pub data Credentials (Key : Type 0) : Type 0 where
  iam_token : String → Credentials Key
  oauth_token : String → Credentials Key
  service_account_key : Key → Credentials Key
  oidc : String → Credentials Key
  instance_service_account : Credentials Key

-- `trim` is strings.TrimSpace
unfoldable pub jwt_of : (String → String) → Result String → String
jwt_of trim (ok data_read) = trim data_read
jwt_of trim (err e) = ""

unfoldable pub get_jwt_from_env : (String → String) → Environment → String
unfolding jwt_of
get_jwt_from_env trim env =
    let path = env.getenv "YANDEX_SA_TOKEN_FILE" in
    if path == "" then "" else jwt_of trim (env.file path)

-- `unmarshal` is json.Unmarshal of a key, and `of_key` ycsdk.ServiceAccountKey
module _ {Key : Type 0} (unmarshal : String → Result Key)
    (of_key : Key → Result (Credentials Key)) where
  unfoldable pub key_credentials : String → Result String → Result (Credentials Key)
  key_credentials path (err e) =
      err (wrap ("failed to read service account key from " +++ (path +++ ": ")) e)
  key_credentials path (ok raw) = elim (unmarshal raw) [
    | err e ↦ err (wrap "malformed service account key json: " e)
    | ok key ↦ of_key key
  ]

  unfoldable pub credentials_from_env : Environment → Result (Credentials Key)
  unfolding key_credentials
  credentials_from_env env =
      let token = env.getenv "YANDEX_IAM_TOKEN" in
      let oauth = env.getenv "YANDEX_OAUTH_TOKEN" in
      let path = env.getenv "YANDEX_SERVICE_ACCOUNT_KEY" in
      let sa_id = env.getenv "YANDEX_SA_ID" in
      if not (token == "")
      then ok (iam_token token)
      else if not (oauth == "")
      then ok (oauth_token oauth)
      else if not (path == "")
      then key_credentials path (env.file path)
      else if not (sa_id == "") && not (env.getenv "YANDEX_SA_TOKEN_FILE" == "")
      then ok (oidc sa_id)
      else ok instance_service_account

-- the answer of the token service: an error of the transport, a status with a body, or a body of
-- status 200 that decodes to a token and its lifetime
pub data Exchange : Type 0 where
  no_request : Error → Exchange
  transport : Error → Exchange
  bad_status : String → String → Exchange
  undecodable : Error → Exchange
  decoded : String → ℤ → Exchange

-- out.ExpiresIn, or twelve hours where that is not positive
unfoldable pub lifetime : ℤ → ℕ
lifetime z = if leb (pos_part z) 0 then 43200 else pos_part z

unfoldable pub exchange_jwt_for_iam_token : Exchange → Result (String × ℕ)
exchange_jwt_for_iam_token (no_request e) = err (wrap "create token exchange request: " e)
exchange_jwt_for_iam_token (transport e) = err (wrap "token exchange request: " e)
exchange_jwt_for_iam_token (bad_status status body) =
    err (message ("token exchange failed: " +++ (status +++ (": " +++ body))))
exchange_jwt_for_iam_token (undecodable e) = err (wrap "decode token exchange response: " e)
exchange_jwt_for_iam_token (decoded token expires_in) =
    if token == ""
    then err (message "token exchange: empty access_token in response")
    else ok (token, lifetime expires_in)

-- now.Add(time.Duration(seconds) * time.Second): the product is an int64 of nanoseconds and wraps.
-- Times are nanoseconds since Go's zero time, the year 1; a negative duration of at most 292 years
-- does not reach before it from a clock of today.
unfoldable pub add_seconds : ℕ → ℕ → ℕ
add_seconds now seconds =
    let d = (seconds * 1000000000) % 2 ^ 64 in
    if ltb d (2 ^ 63) then now + d else now - (2 ^ 64 - d)

-- oidcRefreshThreshold
abbrev pub oidc_refresh_threshold : ℕ
oidc_refresh_threshold = 300000000000

-- the fields of oidcCredentials that change: cachedToken and cachedExpiresAt, in nanoseconds
pub record Cached : Type 0 where
  pub token : String
  pub expires_at : ℕ

pub record Token : Type 0 where
  pub iam_token : String
  pub expires_at : ℕ

-- the section under the read lock: the cached token, with more than five minutes to live
unfoldable pub read_cached : ℕ → Cached → Option Token
read_cached now c =
    if not (c.token == "") && ltb (now + oidc_refresh_threshold) c.expires_at
    then some (record { iam_token = c.token; expires_at = c.expires_at })
    else none

-- The section under the write lock. `jwt` is what getJWT returns, `answer` the answer of the token
-- service, and `now` the clock after it.
unfoldable pub renewed : ℕ → Result (String × ℕ) → Cached → Result Token × Cached
renewed now (err e) c = (err e, c)
renewed now (ok (token, expires_in)) c = (
  ok (record { iam_token = token; expires_at = add_seconds now expires_in }),
  record { token = token; expires_at = add_seconds now expires_in },
)

unfoldable pub renew : String → Exchange → ℕ → Cached → Result Token × Cached
unfolding renewed exchange_jwt_for_iam_token
renew jwt answer now c =
    if jwt == ""
    then (err (message "OIDC: JWT is not set"), c)
    else renewed now (exchange_jwt_for_iam_token answer) c

-- IAMToken, of a caller that meets no other between its two sections
unfoldable pub iam_token_of : Option Token → String → Exchange → ℕ → Cached → Result Token × Cached
unfolding renew
iam_token_of (some t) jwt answer after c = (ok t, c)
iam_token_of none jwt answer after c = renew jwt answer after c

unfoldable pub get_iam_token : ℕ → String → Exchange → ℕ → Cached → Result Token × Cached
unfolding iam_token_of read_cached
get_iam_token now jwt answer after c = iam_token_of (read_cached now c) jwt answer after c
