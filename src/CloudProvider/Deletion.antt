-- ===== src/CloudProvider/Deletion.antt =====
-- Delete over the cached client, as the operator builds it, and Karpenter's retries of it.
use Prim.Native.String.{◌++◌ as ◌+++◌}
use karpenter_provider_yande.Prelude.{
  ℕ, suc, String, ◌≡◌, refl, ap, ◌∙◌, ◌⊎◌, inl, inr, Bool, true, false, Option, none, some, List,
  [], ◌∷◌, ◌==◌, eq_refl, if◌then◌else◌, length, All,
}
use karpenter_provider_yande.Prelude.Maps.{Labels, at}
use karpenter_provider_yande.Prelude.Errors.{Error, message, says_not_found}
use karpenter_provider_yande.Prelude.Cache.{CacheOf}
use karpenter_provider_yande.CloudProvider.Types.{
  CloudError, node_claim_not_found, node_group_id_key,
}
use karpenter_provider_yande.CloudProvider.Operations.{delete_error, delete, deleted}
use karpenter_provider_yande.Yandex.CachedSdk.{
  CachedValue, deleted_error, Changes, delete_key, as_error, delete_cached, delete_node_group,
}
use karpenter_provider_yande.Yandex.CachedSdk.Laws.{WellTyped, set-delete, expire-WellTyped}

-- A retry of Delete, or the expiry of an entry of the cache between two of them.
pub data Turn : Type 0 where
  retry : Turn
  expiry : String → Turn

-- what Delete answers to the error of DeleteNodeGroup
abbrev pub answer_to : String → Option Error → Option CloudError
answer_to id none = none
answer_to id (some e) = some (delete_error id e)

abbrev pub gone_answer : String → CloudError
gone_answer id = node_claim_not_found (message ("nodegroup " +++ (id +++ " not found")))

abbrev pub retries : List Turn → ℕ
retries [] = 0
retries (retry ∷ rest) = suc (retries rest)
retries (expiry k ∷ rest) = retries rest

delete_error-gone :
    (id : String) (e : Error) → says_not_found e ≡ true → delete_error id e ≡ gone_answer id
unfolding delete_error
delete_error-gone id e h = rw h refl

module _ (md5_hex : String → String) (inj : (a b : String) → md5_hex a ≡ md5_hex b → a ≡ b)
    (cache : CacheOf CachedValue) {S : Type 0} (sdk : Changes S) where
  open cache use {Cache, get, set, get-set, get-delete}

  -- the answers of one turn before those of the rest; none is a panic
  abbrev cons_answer :
      Option CloudError
      → Option (List (Option CloudError) × (Cache × S))
      → Option (List (Option CloudError) × (Cache × S))
  cons_answer a none = none
  cons_answer a (some r) = some (a ∷ r.0, r.1)

  -- Delete of a claim whose label names the node group `id`, again and again
  unfoldable pub turns :
      String → List Turn → Cache × S → Option (List (Option CloudError) × (Cache × S))
  turns id [] t = some ([], t)
  turns id (retry ∷ rest) t = elim (delete_node_group md5_hex cache sdk id t) [
    | none ↦ none
    | some r ↦ cons_answer (answer_to id r.0) (turns id rest r.1)
  ]
  turns id (expiry k ∷ rest) (c, s) = turns id rest (cache.delete k c, s)

  -- the cloud has no such group any more
  abbrev pub IsGone : String → S → Type 0
  IsGone id s = (e : Error) × (sdk.delete id s ≡ (some e, s)) × (says_not_found e ≡ true)

  -- what the cache may hold for the group: nothing, or that the group is not found
  abbrev Fresh : String → Cache → Type 0
  Fresh id c =
      (get (delete_key md5_hex id) c ≡ none)
      ⊎ ((e : Error) × (get (delete_key md5_hex id) c ≡ some (deleted_error (some e)))
          × (says_not_found e ≡ true))

  -- one retry, with what the cache holds
  retry-kept :
      (id : String) (c : Cache) (s : S) (o : Option CachedValue)
      → get (delete_key md5_hex id) c ≡ o
      → WellTyped md5_hex inj cache sdk c
      → IsGone id s
      → (r : Option Error) × (c' : Cache) × (delete_cached md5_hex cache sdk id o (c, s)
          ≡ some (r, (c', s)))
        × WellTyped md5_hex inj cache sdk c'
  unfolding delete_cached as_error
  retry-kept id c s none h w (e, gone, not_there) = (
    some e,
    set (delete_key md5_hex id) (deleted_error (some e)) c,
    ap (λ p. some (p.0, (set (delete_key md5_hex id) (deleted_error p.0) c, p.1))) gone,
    set-delete md5_hex inj cache sdk id (some e) c w,
  )
  retry-kept id c s (some v) h w gone =
      let (r, q) = w.1 id v h in
      (r, c, ap (λ x. elim (as_error x) [ none ↦ none | some y ↦ some (y, (c, s)) ]) q, w)

  retry-Fresh :
      (id : String) (c : Cache) (s : S)
      → Fresh id c
      → IsGone id s
      → (e : Error) × (c' : Cache) × (delete_node_group md5_hex cache sdk id (c, s)
          ≡ some (some e, (c', s)))
        × (says_not_found e ≡ true)
        × Fresh id c'
  unfolding delete_node_group delete_cached as_error
  retry-Fresh id c s (inl h) (e, gone, not_there) = (
    e,
    set (delete_key md5_hex id) (deleted_error (some e)) c,
    ap (λ o. delete_cached md5_hex cache sdk id o (c, s)) h
        ∙ ap (λ p. some (p.0, (set (delete_key md5_hex id) (deleted_error p.0) c, p.1))) gone,
    not_there,
    inr (
      e,
      get-set _ _ _ _
          ∙ ap (λ b. if b then some (deleted_error (some e)) else get (delete_key md5_hex id) c)
              (eq_refl (delete_key md5_hex id)),
      not_there,
    ),
  )
  retry-Fresh id c s (inr (e, h, not_there)) gone = (
    e,
    c,
    ap (λ o. delete_cached md5_hex cache sdk id o (c, s)) h,
    not_there,
    inr (e, h, not_there),
  )

  expiry-Fresh : (id k : String) (c : Cache) → Fresh id c → Fresh id (cache.delete k c)
  expiry-Fresh id k c f = decide (k == delete_key md5_hex id) refl f
    where
      decide :
          (b : Bool) → (k == delete_key md5_hex id) ≡ b → Fresh id c → Fresh id (cache.delete k c)
      decide true e f =
          inl (get-delete _ _ _ ∙ ap (λ b. if b then none else get (delete_key md5_hex id) c) e)
      decide false e (inl h) =
          inl (get-delete _ _ _ ∙ ap (λ b. if b then none else get (delete_key md5_hex id) c) e ∙ h)
      decide false e (inr (x, h, n)) = inr (
        x,
        get-delete _ _ _ ∙ ap (λ b. if b then none else get (delete_key md5_hex id) c) e ∙ h,
        n,
      )

  -- the turns before the expiry neither panic nor touch the cloud
  turns-kept :
      (id : String) (before : List Turn) (c : Cache) (s : S)
      → WellTyped md5_hex inj cache sdk c
      → IsGone id s
      → (answers : List (Option CloudError)) × (c' : Cache) × (turns id before (c, s)
          ≡ some (answers, (c', s)))
  unfolding turns delete_node_group
  turns-kept id [] c s w gone = ([], c, refl)
  turns-kept id (retry ∷ rest) c s w gone =
      let (r, c', e, w') = retry-kept id c s _ refl w gone in
      let (answers, d, f) = turns-kept id rest c' s w' gone in
      (
        answer_to id r ∷ answers,
        d,
        ap
              (λ o. elim o [
                | none ↦ none
                | some r ↦ cons_answer (answer_to id r.0) (turns id rest r.1)
              ])
              e
            ∙ ap (cons_answer (answer_to id r)) f,
      )
  turns-kept id (expiry k ∷ rest) c s w gone =
      turns-kept id rest (cache.delete k c) s (expire-WellTyped md5_hex inj cache sdk k c w) gone

  turns-Fresh :
      (id : String) (later : List Turn) (c : Cache) (s : S)
      → Fresh id c
      → IsGone id s
      → (answers : List (Option CloudError)) × (c' : Cache) × (turns id later (c, s)
          ≡ some (answers, (c', s)))
        × (length answers ≡ retries later)
        × All (λ a. a ≡ some (gone_answer id)) answers
  unfolding turns
  turns-Fresh id [] c s f gone = ([], c, refl, refl, tt)
  turns-Fresh id (retry ∷ rest) c s f gone =
      let (e, c', d, n, f') = retry-Fresh id c s f gone in
      let (answers, c'', g, l, all) = turns-Fresh id rest c' s f' gone in
      (
        some (delete_error id e) ∷ answers,
        c'',
        ap
              (λ o. elim o [
                | none ↦ none
                | some r ↦ cons_answer (answer_to id r.0) (turns id rest r.1)
              ])
              d
            ∙ ap (cons_answer (some (delete_error id e))) g,
        ap suc l,
        (ap some (delete_error-gone id e n), all),
      )
  turns-Fresh id (expiry k ∷ rest) c s f gone =
      turns-Fresh id rest (cache.delete k c) s (expiry-Fresh id k c f) gone

  -- Once the cloud has no such node group, Karpenter's retries of Delete end: after any turns, once the
  -- cached answer for the group expires, every further retry is answered with NodeClaimNotFound,
  -- whatever else expires, and the cloud is left as it is. The cache is one whose entries have the
  -- kind of their key, and MD5 is taken to have no collision.
  pub turns-finish :
      (id : String) (before later : List Turn) (c : Cache) (s : S)
      → WellTyped md5_hex inj cache sdk c
      → IsGone id s
      → (first answers : List (Option CloudError)) × (c' c'' : Cache) × (turns id before (c, s)
          ≡ some (first, (c', s)))
        × (turns id (expiry (delete_key md5_hex id) ∷ later) (c', s) ≡ some (answers, (c'', s)))
        × (length answers ≡ retries later)
        × All (λ a. a ≡ some (gone_answer id)) answers
  unfolding turns
  turns-finish id before later c s w gone =
      let (first, c', e) = turns-kept id before c s w gone in
      let key = delete_key md5_hex id in
      let empty : get key (cache.delete key c') ≡ none =
        get-delete _ _ _ ∙ ap (λ b. if b then none else get key c') (eq_refl key) in
      let (answers, c'', f, l, all) =
        turns-Fresh id later (cache.delete key c') s (inl empty) gone in
      (first, answers, c', c'', e, f, l, all)

-- Delete of a claim whose label names a node group answers so.
delete-answer_to :
    {S : Type 0} (delete_group : String → S → Option Error × S) (name : String) (labels : Labels)
    (s : S)
    → (at node_group_id_key labels == "") ≡ false
    → delete delete_group name labels s ≡ (
      answer_to (at node_group_id_key labels) (delete_group (at node_group_id_key labels) s).0,
      (delete_group (at node_group_id_key labels) s).1,
    )
unfolding delete deleted
delete-answer_to {S = S} delete_group name labels s h =
    rw h (decide (delete_group (at node_group_id_key labels) s))
  where
    decide :
        (r : Option Error × S)
        → deleted delete_group (at node_group_id_key labels) r
          ≡ (answer_to (at node_group_id_key labels) r.0, r.1)
    decide (none, t) = refl
    decide (some e, t) = refl
