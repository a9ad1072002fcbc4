-- ===== src/Yandex/CachedSdk.antt =====
-- CachedSDK of pkg/yandex/cached_sdk.go: one cache for the answers of both changes.
pub mod Laws
use Prim.Native.String.{◌++◌ as ◌+++◌}
use karpenter_provider_yande.Prelude.{
  ℕ, zero, suc, ◌+◌, ◌-◌, ◌*◌, ◌/◌, ◌%◌, ◌^◌, ◌≤◌, ◌<◌, String, ◌≡◌, refl, sym, ap, ◌∙◌, subst, ◌≢◌,
  ◌↔◌, ◌⊎◌, inl, inr, Bool, true, false, not, ◌&&◌, ◌||◌, Option, none, some, List, [], ◌∷◌, ◌++◌,
  map, arith, ◌==◌, eq_iff, eq_refl, ltb, leb, eqb, if◌then◌else◌, is_some, contains, has_prefix,
  ltb→lt, leb→le, eqb_iff, Bool-cases, Option-cases, length, is_empty, select, any, find_first, All,
  head?, All-select, All-map, All-append, All-select_of, length-append, length-select-le,
  length-map, is_some-find_first,
}
use karpenter_provider_yande.Prelude.Maps.{
  Map, Labels, lookup, insert, remove, at, assign, lookup-insert, lookup-remove, map_laws,
}
use karpenter_provider_yande.Prelude.Errors.{
  Error, Result, ok, err, message, api_error, wrap, Reason, not_found, conflict, unavailable,
  error_text, is_not_found, is_conflict, ◌>>=◌, or_wrap, ignore_not_found, says_not_found,
  Result-cases,
}
use karpenter_provider_yande.Prelude.Cache.{CacheOf}
use karpenter_provider_yande.Yandex.Sdk.Create.{CreateArgs}

-- what the cache holds: a lo.Tuple2[string, error], or an error that may be nil
pub data CachedValue : Type 0 where
  created_tuple : Result String → CachedValue
  deleted_error : Option Error → CachedValue

-- the two calls of the SDK that the cache stands before, over the state of the cloud
pub record Changes (S : Type 0) : Type 0 where
  pub create : CreateArgs → S → Result String × S
  pub delete : String → S → Option Error × S

-- fmt.Sprintf("%x", md5.Sum(key)) is a parameter
module _ (md5_hex : String → String) where
  -- generateMD5CacheKey, with its one argument
  unfoldable pub cache_key : String → String → String
  cache_key method arg = md5_hex (method +++ ("-" +++ arg))

  unfoldable pub create_key : String → String
  unfolding cache_key
  create_key name = cache_key "CreateFixedNodeGroup" name

  unfoldable pub delete_key : String → String
  unfolding cache_key
  delete_key id = cache_key "DeleteNodeGroup" id

-- value.(lo.Tuple2[string, error]); none is the panic of a failed type assertion
unfoldable pub as_tuple : CachedValue → Option (Result String)
as_tuple (created_tuple r) = some r
as_tuple (deleted_error e) = none

-- nil, or value.(error)
unfoldable pub as_error : CachedValue → Option (Option Error)
as_error (created_tuple r) = none
as_error (deleted_error e) = some e

module _ (md5_hex : String → String) (cache : CacheOf CachedValue) {S : Type 0}
    (sdk : Changes S) where
  open cache use {Cache, get, set}

  unfoldable pub create_cached :
      CreateArgs → Option CachedValue → Cache × S → Option (Result String × (Cache × S))
  create_cached args (some v) (c, s) = elim (as_tuple v) [ none ↦ none | some r ↦ some (r, (c, s)) ]
  create_cached args none (c, s) =
      let (r, s') = sdk.create args s in
      some (r, (set (create_key md5_hex args.name) (created_tuple r) c, s'))

  -- none is a panic
  unfoldable pub create_fixed_node_group :
      CreateArgs → Cache × S → Option (Result String × (Cache × S))
  create_fixed_node_group args (c, s) =
      create_cached args (get (create_key md5_hex args.name) c) (c, s)

  unfoldable pub delete_cached :
      String → Option CachedValue → Cache × S → Option (Option Error × (Cache × S))
  delete_cached id (some v) (c, s) = elim (as_error v) [ none ↦ none | some e ↦ some (e, (c, s)) ]
  delete_cached id none (c, s) =
      let (e, s') = sdk.delete id s in
      some (e, (set (delete_key md5_hex id) (deleted_error e) c, s'))

  unfoldable pub delete_node_group : String → Cache × S → Option (Option Error × (Cache × S))
  delete_node_group id (c, s) = delete_cached id (get (delete_key md5_hex id) c) (c, s)
