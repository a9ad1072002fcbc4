-- ===== src/Yandex/Auth/Renewal.antt =====
-- The cached token: which calls of IAMToken renew it, in any order of their sections.
use karpenter_provider_yande.Prelude.{
  ℕ, ◌+◌, ◌*◌, ◌≤◌, All, ◌<◌, String, ◌≡◌, refl, sym, ap, ◌∙◌, subst, ◌≢◌, ◌⊎◌, inl, inr, Bool,
  true, false, not, ◌&&◌, Option, none, some, List, [], ◌∷◌, arith, ◌==◌, eq_iff, ltb,
  if◌then◌else◌, ltb→lt,
}
use karpenter_provider_yande.Prelude.Errors.{Result, ok, err, message}
use karpenter_provider_yande.Yandex.Auth.{
  add_seconds, oidc_refresh_threshold, Exchange, no_request, transport, bad_status, undecodable,
  decoded, lifetime, exchange_jwt_for_iam_token, Cached, Token, read_cached, renewed, renew,
  iam_token_of, get_iam_token,
}
use mathlib.Core.List.{Memᴰ}
use karpenter_provider_yande.Prelude.Int.{ℤ}

-- A section of IAMToken that some caller runs under the lock, with what it meets outside.
pub data Section : Type 0 where
  reading : ℕ → Section
  renewal : String → Exchange → ℕ → Section

-- the cached token after a sequence of sections, the last one first, in any order of the callers
pub data Reached : List Section → Cached → Type 0 where
  start : (expires_at : ℕ) → Reached [] (record { token = ""; expires_at = expires_at })
  after_reading :
      (now : ℕ) (h : List Section) (c : Cached) → Reached h c → Reached (reading now ∷ h) c
  after_renewal :
      (jwt : String) (answer : Exchange) (now : ℕ) (h : List Section) (c c' : Cached)
      → Reached h c
      → (renew jwt answer now c).1 ≡ c'
      → Reached (renewal jwt answer now ∷ h) c'

-- a section of the history has received the token from the token service, for a JWT that is set;
-- the expiry as it is computed
abbrev Received : List Section → Token → Type 0
Received h t =
    (jwt : String) × (expires_in : ℤ) × (now : ℕ) × Memᴰ
      (renewal jwt (decoded t.iam_token expires_in) now) h
    × (jwt ≢ "")
    × (t.iam_token ≢ "")
    × (t.expires_at ≡ add_seconds now (lifetime expires_in))

-- The same, with the expiry that the token service meant: its seconds after the exchange.
abbrev pub Issued : List Section → Token → Type 0
Issued h t =
    (jwt : String) × (expires_in : ℤ) × (now : ℕ) × Memᴰ
      (renewal jwt (decoded t.iam_token expires_in) now) h
    × (jwt ≢ "")
    × (t.iam_token ≢ "")
    × (t.expires_at ≡ now + lifetime expires_in * 1000000000)

-- the token service has answered with at most 9223372036 seconds, 292 years
abbrev pub IsShort : Section → Type 0
IsShort (renewal jwt (decoded token expires_in) now) = lifetime expires_in ≤ 9223372036
IsShort _ = Unit

add_seconds_short :
    (now seconds : ℕ) → seconds ≤ 9223372036 → add_seconds now seconds ≡ now + seconds * 1000000000
unfolding add_seconds
add_seconds_short now seconds h = ground arith

mem-IsShort : (a : Section) (h : List Section) → All IsShort h → Memᴰ a h → IsShort a
mem-IsShort a [] s m = elim m [ ]
mem-IsShort a (b ∷ h) s (Memᴰ.head e) = subst IsShort (sym e) s.0
mem-IsShort a (b ∷ h) s (Memᴰ.tail m) = mem-IsShort a h s.1 m

issued : (h : List Section) (t : Token) → All IsShort h → Received h t → Issued h t
issued h t s (jwt, z, now, m, j, n, e) =
    (jwt, z, now, m, j, n, e ∙ add_seconds_short now (lifetime z) (mem-IsShort _ h s m))

abbrev as_token : Cached → Token
as_token c = record { iam_token = c.token; expires_at = c.expires_at }

earlier : (a : Section) (h : List Section) (t : Token) → Received h t → Received (a ∷ h) t
earlier a h t (jwt, z, now, m, j, n, e) = (jwt, z, now, Memᴰ.tail m, j, n, e)

unset : (t : String) → (t == "") ≡ false → t ≢ ""
unset t h e = ground (arith, eq_iff t "")

exchanged :
    (answer : Exchange) (token : String) (n : ℕ)
    → exchange_jwt_for_iam_token answer ≡ ok (token, n)
    → (z : ℤ) × (answer ≡ decoded token z) × (token ≢ "") × (n ≡ lifetime z)
unfolding exchange_jwt_for_iam_token
exchanged (no_request e) token n h = cc
exchanged (transport e) token n h = cc
exchanged (bad_status s b) token n h = cc
exchanged (undecodable e) token n h = cc
exchanged (decoded t z) token n h = decide (t == "") refl h
  where
    decide :
        (b : Bool)
        → (t == "") ≡ b
        → ◌≡◌ {A = Result (String × ℕ)}
            (if b
              then err (message "token exchange: empty access_token in response")
              else ok (t, lifetime z))
            (ok (token, n))
        → (y : ℤ) × (decoded t z ≡ decoded token y) × (token ≢ "") × (n ≡ lifetime y)
    decide true e k = cc
    decide false e k =
        let same : ◌≡◌ {A = String × ℕ} (t, lifetime z) (token, n) = cc in
        (
          z,
          ap (λ p. decoded p.0 z) same,
          subst (λ p. p.0 ≢ "") same (unset t e),
          ap (λ p. p.1) (sym same),
        )

-- what one renewal leaves: the token of before, or one that it has received
renew-stored :
    (jwt : String) (answer : Exchange) (now : ℕ) (h : List Section) (c : Cached)
    → ((renew jwt answer now c).1 ≡ c)
      ⊎ Received (renewal jwt answer now ∷ h) (as_token (renew jwt answer now c).1)
unfolding renew renewed
renew-stored jwt answer now h c = decide (jwt == "") refl (exchange_jwt_for_iam_token answer) refl
  where
    decide :
        (b : Bool)
        → (jwt == "") ≡ b
        → (r : Result (String × ℕ)) → exchange_jwt_for_iam_token answer ≡ r
        → ((if b then (err (message "OIDC: JWT is not set"), c) else renewed now r c).1 ≡ c)
          ⊎ Received (renewal jwt answer now ∷ h) (
              as_token (if b then (err (message "OIDC: JWT is not set"), c) else renewed now r c).1)
    decide true e r k = inl refl
    decide false e (err x) k = inl refl
    decide false e (ok (token, n)) k =
        let (z, f, g, l) = exchanged answer token n k in
        inr (
          jwt,
          z,
          now,
          Memᴰ.head (ap (λ a. renewal jwt a now) (sym f)),
          unset jwt e,
          g,
          ap (λ x. add_seconds now x) l,
        )

stored_token :
    (h : List Section) (c : Cached) → Reached h c → (c.token ≡ "") ⊎ Received h (as_token c)
stored_token _ _ (start x) = inl refl
stored_token _ _ (after_reading now h c r) = elim (stored_token h c r) [
  | inl e ↦ inl e
  | inr i ↦ inr (earlier (reading now) h (as_token c) i)
]
stored_token _ _ (after_renewal jwt answer now h c c' r e) =
    subst (λ d. (d.token ≡ "") ⊎ Received (renewal jwt answer now ∷ h) (as_token d)) e
      (either (stored_token h c r) (renew-stored jwt answer now h c))
  where
    either :
        (c.token ≡ "") ⊎ Received h (as_token c)
        → ((renew jwt answer now c).1 ≡ c)
          ⊎ Received (renewal jwt answer now ∷ h) (as_token (renew jwt answer now c).1)
        → ((renew jwt answer now c).1.token ≡ "")
          ⊎ Received (renewal jwt answer now ∷ h) (as_token (renew jwt answer now c).1)
    either s (inr i) = inr i
    either (inl n) (inl k) = inl (ap (λ d. d.token) k ∙ n)
    either (inr i) (inl k) = inr (
        subst (λ d. Received (renewal jwt answer now ∷ h) (as_token d)) (sym k)
          (earlier _ h (as_token c) i))

usable_of :
    (b l : Bool) (c : Cached) (t : Token)
    → (if not b && l then some (as_token c) else none) ≡ some t
    → (b ≡ false) × (l ≡ true) × (as_token c ≡ t)
usable_of true l c t h = cc
usable_of false true c t h = (refl, refl, cc)
usable_of false false c t h = cc

-- Whatever the order in which callers run their sections, a token that one of them reads from the
-- cache was received by an exchange of an earlier section for a JWT that is set, expires when
-- that exchange said, and has more than five minutes to live. No exchange is taken to have answered
-- with a lifetime of more than 9223372036 seconds, beyond which the product of nanoseconds wraps.
pub read_cached-Issued :
    (h : List Section) (c : Cached) (now : ℕ) (t : Token)
    → Reached h c
    → All IsShort h
    → read_cached now c ≡ some t
    → Issued h t × (now + oidc_refresh_threshold < t.expires_at)
unfolding read_cached
read_cached-Issued h c now t r short e =
    let (n, l, same) =
      usable_of (c.token == "") (ltb (now + oidc_refresh_threshold) c.expires_at) c t e in
    subst (λ u. Issued h u × (now + oidc_refresh_threshold < u.expires_at)) same
      (
        issued h (as_token c) short (stored (stored_token h c r) n),
        ltb→lt (now + oidc_refresh_threshold) c.expires_at l,
      )
  where
    stored :
        (c.token ≡ "") ⊎ Received h (as_token c) → (c.token == "") ≡ false → Received h (as_token c)
    stored (inl k) n = elim (unset c.token n k) [ ]
    stored (inr i) n = i

reused :
    (now : ℕ) (c : Cached)
    → c.token ≢ ""
    → now + oidc_refresh_threshold < c.expires_at
    → read_cached now c ≡ some (as_token c)
unfolding read_cached
reused now c n l = rw (set_token n, leb_of l) refl
  where
    set_token : c.token ≢ "" → (c.token == "") ≡ false
    set_token n = ground (arith, eq_iff c.token "")

    leb_of :
        now + oidc_refresh_threshold < c.expires_at
        → ltb (now + oidc_refresh_threshold) c.expires_at ≡ true
    leb_of l = ground arith

-- a call that returns a token leaves it in the cache
left_cached :
    (now after : ℕ) (jwt : String) (answer : Exchange) (c c' : Cached) (t : Token)
    (o : Option Token)
    → read_cached now c ≡ o
    → iam_token_of o jwt answer after c ≡ (ok t, c')
    → (as_token c' ≡ t) × (c'.token ≢ "")
unfolding iam_token_of renew renewed read_cached
left_cached now after jwt answer c c' t (some u) r e =
    let (n, l, same) =
      usable_of (c.token == "") (ltb (now + oidc_refresh_threshold) c.expires_at) c u r in
    let both : ◌≡◌ {A = Result Token × Cached} (ok u, c) (ok t, c') = e in
    let cached : c ≡ c' = ap (λ p. p.1) both in
    (
      ap as_token (sym cached) ∙ (same ∙ ok_of (ap (λ p. p.0) both)),
      subst (λ d. d.token ≢ "") cached (unset c.token n),
    )
  where
    ok_of : ◌≡◌ {A = Result Token} (ok u) (ok t) → u ≡ t
    ok_of h = cc
left_cached now after jwt answer c c' t none r e =
    decide (jwt == "") (exchange_jwt_for_iam_token answer) refl e
  where
    decide :
        (b : Bool) (x : Result (String × ℕ))
        → exchange_jwt_for_iam_token answer ≡ x
        → (if b then (err (message "OIDC: JWT is not set"), c) else renewed after x c) ≡ (ok t, c')
        → (as_token c' ≡ t) × (c'.token ≢ "")
    decide true x k h =
        let f : ◌≡◌ {A = Result Token} (err (message "OIDC: JWT is not set")) (ok t) =
          ap (λ p. p.0) h in
        cc
    decide false (err x) k h = let f : ◌≡◌ {A = Result Token} (err x) (ok t) = ap (λ p. p.0) h in cc
    decide false (ok (token, n)) k h =
        let (z, f, g, l) = exchanged answer token n k in
        let tok : ◌≡◌ {A = Result Token}
            (ok (record { iam_token = token; expires_at = add_seconds after n })) (ok t) =
          ap (λ p. p.0) h in
        let same : record { iam_token = token; expires_at = add_seconds after n } ≡ t = cc in
        (ap (λ p. as_token p.1) (sym h) ∙ same, subst (λ d. d.token ≢ "") (ap (λ p. p.1) h) g)

-- When IAMToken has returned a token after an exchange, a later call returns the same token and
-- changes nothing, without a look at the JWT or at the token service, as long as the token has more
-- than five minutes to live.
pub get_iam_token-again :
    (now after later after_later : ℕ) (jwt jwt' : String) (answer answer' : Exchange)
    (c c' : Cached) (t : Token)
    → get_iam_token now jwt answer after c ≡ (ok t, c')
    → later + oidc_refresh_threshold < t.expires_at
    → get_iam_token later jwt' answer' after_later c' ≡ (ok t, c')
unfolding get_iam_token
get_iam_token-again now after later after_later jwt jwt' answer answer' c c' t e l =
    let (same, n) = left_cached now after jwt answer c c' t _ refl e in
    let live = subst (λ u. later + oidc_refresh_threshold < u.expires_at) (sym same) l in
    ap (λ o. iam_token_of o jwt' answer' after_later c') (reused later c' n live ∙ ap some same)
