-- ===== src/Yandex/CachedSdk/Laws.antt =====
-- A cached change is made once, and no call meets an entry of the other kind.
use Prim.Native.String.{◌++◌ as ◌+++◌}
use Prim.Native.Char.{code}
use package.text.Mathlib.TextLemmas.{cons-append}
use karpenter_provider_yande.Prelude.{
  ℕ, String, ◌≡◌, refl, sym, ap, ◌∙◌, subst, inl, inr, Bool, true, false, Option, none, some, List,
  [], ◌∷◌, arith, ◌==◌, eq_iff, eq_refl, if◌then◌else◌, Bool-cases,
}
use karpenter_provider_yande.Prelude.Errors.{Error, Result}
use karpenter_provider_yande.Prelude.Cache.{CacheOf}
use karpenter_provider_yande.Yandex.Sdk.Create.{CreateArgs}
use karpenter_provider_yande.Yandex.CachedSdk.{
  CachedValue, created_tuple, deleted_error, Changes, cache_key, create_key, delete_key, as_tuple,
  as_error, create_cached, create_fixed_node_group, delete_cached, delete_node_group,
}

-- A call of the cached SDK, or the expiry of an entry between two calls.
pub data Step : Type 0 where
  create : CreateArgs → Step
  delete : String → Step
  expire : String → Step

first : String → ℕ
first String.[] = 0
first (String.◌∷◌ c s) = code c

first_create : (x : String) → first ("CreateFixedNodeGroup" +++ x) ≡ 67
unfolding first
first_create x = rw cons-append refl

first_delete : (x : String) → first ("DeleteNodeGroup" +++ x) ≡ 68
unfolding first
first_delete x = rw cons-append refl

keys_differ :
    (md5_hex : String → String)
    → ((a b : String) → md5_hex a ≡ md5_hex b → a ≡ b)
    → (name id : String) → (create_key md5_hex name == delete_key md5_hex id) ≡ false
unfolding create_key delete_key cache_key
keys_differ md5_hex inj name id =
    elim (Bool-cases (
      md5_hex ("CreateFixedNodeGroup" +++ ("-" +++ name))
      == md5_hex ("DeleteNodeGroup" +++ ("-" +++ id)))) [
        | inr e ↦ e
        | inl e ↦
            let same = inj _ _ ((eq_iff _ _).0 e) in
            ground (arith, first_create ("-" +++ name), first_delete ("-" +++ id), ap first same)
      ]

grown :
    (P : CachedValue → Type 0) (b : Bool) (w : CachedValue) (o : Option CachedValue)
    (v : CachedValue)
    → (if b then some w else o) ≡ some v
    → P w
    → (o ≡ some v → P v)
    → P v
grown P true w o v e p h = let same : w ≡ v = cc in subst P same p
grown P false w o v e p h = h e

kept :
    (b : Bool) (o : Option CachedValue) (v : CachedValue)
    → (if b then none else o) ≡ some v
    → o ≡ some v
kept true o v e = cc
kept false o v e = e

abbrev pub state_after : {A T : Type 0} → Option (A × T) → Option T
state_after none = none
state_after (some r) = some r.1

module _ (md5_hex : String → String) (inj : (a b : String) → md5_hex a ≡ md5_hex b → a ≡ b)
    (cache : CacheOf CachedValue) {S : Type 0} (sdk : Changes S) where
  open cache use {Cache, get, set, get-set, get-delete}

  -- one step of the program: none is a panic
  unfoldable pub step : Step → Cache × S → Option (Cache × S)
  step (create args) s = state_after (create_fixed_node_group md5_hex cache sdk args s)
  step (delete id) s = state_after (delete_node_group md5_hex cache sdk id s)
  step (expire k) (c, s) = some (cache.delete k c, s)

  unfoldable pub run : List Step → Cache × S → Option (Cache × S)
  run [] s = some s
  run (a ∷ rest) s = elim (step a s) [ none ↦ none | some after ↦ run rest after ]

  -- entries under the key of a creation are tuples, and those of a deletion errors
  abbrev pub WellTyped : Cache → Type 0
  WellTyped c =
      ((name : String) (v : CachedValue)
        → get (create_key md5_hex name) c ≡ some v
        → (r : Result String) × (v ≡ created_tuple r))
      × ((id : String) (v : CachedValue)
          → get (delete_key md5_hex id) c ≡ some v
          → (e : Option Error) × (v ≡ deleted_error e))

  set-create :
      (name : String) (r : Result String) (c : Cache)
      → WellTyped c
      → WellTyped (set (create_key md5_hex name) (created_tuple r) c)
  set-create name r c (h, k) = (
    λ n v e.
        grown (λ w. (q : Result String) × (w ≡ created_tuple q))
          (create_key md5_hex name == create_key md5_hex n) _ _ v (sym (get-set _ _ _ _) ∙ e)
          (r, refl) (h n v),
    λ id v e. k id v (sym (rw (get-set, keys_differ md5_hex inj name id) refl) ∙ e),
  )

  pub set-delete :
      (id : String) (d : Option Error) (c : Cache)
      → WellTyped c
      → WellTyped (set (delete_key md5_hex id) (deleted_error d) c)
  set-delete id d c (h, k) = (
    λ n v e. h n v (sym (rw (get-set, differ' n) refl) ∙ e),
    λ i v e.
        grown (λ w. (q : Option Error) × (w ≡ deleted_error q))
          (delete_key md5_hex id == delete_key md5_hex i) _ _ v (sym (get-set _ _ _ _) ∙ e)
          (d, refl) (k i v),
  )
    where
      differ' : (n : String) → (delete_key md5_hex id == create_key md5_hex n) ≡ false
      differ' n = ground (
        arith,
        eq_iff (delete_key md5_hex id) (create_key md5_hex n),
        eq_iff (create_key md5_hex n) (delete_key md5_hex id),
        keys_differ md5_hex inj n id,
      )

  pub expire-WellTyped : (k : String) (c : Cache) → WellTyped c → WellTyped (cache.delete k c)
  expire-WellTyped k c (h, g) = (
    λ n v e. h n v (kept (k == create_key md5_hex n) _ v (sym (get-delete _ _ _) ∙ e)),
    λ id v e. g id v (kept (k == delete_key md5_hex id) _ v (sym (get-delete _ _ _) ∙ e)),
  )

  created-total :
      (args : CreateArgs) (o : Option CachedValue) (c : Cache) (s : S)
      → get (create_key md5_hex args.name) c ≡ o
      → WellTyped c
      → (r : Result String × (Cache × S)) × (create_cached md5_hex cache sdk args o (c, s) ≡ some r)
        × WellTyped r.1.0
  unfolding create_cached as_tuple
  created-total args none c s e w = (_, refl, set-create args.name (sdk.create args s).0 c w)
  created-total args (some v) c s e w =
      let (r, q) = w.0 args.name v e in
      ((r, (c, s)), ap (λ x. elim (as_tuple x) [ none ↦ none | some y ↦ some (y, (c, s)) ]) q, w)

  deleted-total :
      (id : String) (o : Option CachedValue) (c : Cache) (s : S)
      → get (delete_key md5_hex id) c ≡ o
      → WellTyped c
      → (r : Option Error × (Cache × S)) × (delete_cached md5_hex cache sdk id o (c, s) ≡ some r)
        × WellTyped r.1.0
  unfolding delete_cached as_error
  deleted-total id none c s e w = (_, refl, set-delete id (sdk.delete id s).0 c w)
  deleted-total id (some v) c s e w =
      let (r, q) = w.1 id v e in
      ((r, (c, s)), ap (λ x. elim (as_error x) [ none ↦ none | some y ↦ some (y, (c, s)) ]) q, w)

  step-total :
      (a : Step) (c : Cache) (s : S)
      → WellTyped c
      → (t : Cache × S) × (step a (c, s) ≡ some t) × WellTyped t.0
  unfolding step create_fixed_node_group delete_node_group
  step-total (create args) c s w =
      let (r, e, v) = created-total args _ c s refl w in (r.1, ap state_after e, v)
  step-total (delete id) c s w =
      let (r, e, v) = deleted-total id _ c s refl w in (r.1, ap state_after e, v)
  step-total (expire k) c s w = (_, refl, expire-WellTyped k c w)

  -- From a cache whose entries have the kind of their key, as the empty one, any sequence of calls
  -- and expiries runs without a failed type assertion, and ends in such a cache. MD5 is taken to
  -- have no collision.
  pub run-WellTyped :
      (steps : List Step) (c : Cache) (s : S)
      → WellTyped c
      → (t : Cache × S) × (run steps (c, s) ≡ some t) × WellTyped t.0
  unfolding run
  run-WellTyped [] c s w = ((c, s), refl, w)
  run-WellTyped (a ∷ rest) c s w =
      let ((c', s'), e, v) = step-total a c s w in
      let (t, f, u) = run-WellTyped rest c' s' v in
      (t, ap (λ o. elim o [ none ↦ none | some after ↦ run rest after ]) e ∙ f, u)

  again_of :
      (args : CreateArgs) (o : Option CachedValue) (c c' : Cache) (s s' : S) (r : Result String)
      → get (create_key md5_hex args.name) c ≡ o
      → create_cached md5_hex cache sdk args o (c, s) ≡ some (r, (c', s'))
      → get (create_key md5_hex args.name) c' ≡ some (created_tuple r)
  unfolding create_cached as_tuple
  again_of args none c c' s s' r e h =
      let same : ◌≡◌ {A = Result String × (Cache × S)}
          (
            (sdk.create args s).0,
            (
              set (create_key md5_hex args.name) (created_tuple (sdk.create args s).0) c,
              (sdk.create args s).1,
            ),
          )
          (r, (c', s')) =
        cc in
      subst (λ t. get (create_key md5_hex args.name) t.1.0 ≡ some (created_tuple t.0)) same
        (rw (get-set, eq_refl (create_key md5_hex args.name)) refl)
  again_of args (some (created_tuple q)) c c' s s' r e h =
      let same : ◌≡◌ {A = Result String × (Cache × S)} (q, (c, s)) (r, (c', s')) = cc in
      subst (λ t. get (create_key md5_hex args.name) t.1.0 ≡ some (created_tuple t.0)) same e
  again_of args (some (deleted_error q)) c c' s s' r e h = cc

  -- While the entry of a first call has not expired, a second CreateFixedNodeGroup for the name
  -- returns what the first did, error or id, and changes neither the cache nor the cloud.
  pub create_fixed_node_group-cached :
      (args later : CreateArgs) (c c' : Cache) (s s' : S) (r : Result String)
      → later.name ≡ args.name
      → create_fixed_node_group md5_hex cache sdk args (c, s) ≡ some (r, (c', s'))
      → create_fixed_node_group md5_hex cache sdk later (c', s') ≡ some (r, (c', s'))
  unfolding create_fixed_node_group create_cached as_tuple
  create_fixed_node_group-cached args later c c' s s' r n h =
      ap (λ o. create_cached md5_hex cache sdk later o (c', s'))
        (ap (λ x. get (create_key md5_hex x) c') n ∙ again_of args _ c c' s s' r refl h)
