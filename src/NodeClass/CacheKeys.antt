-- ===== src/NodeClass/CacheKeys.antt =====
-- cacheKey and clearCacheEntries of pkg/controllers/nodeclass/validation.go.
use Prim.Native.String.{◌++◌ as ◌+++◌}
use package.text.Mathlib.TextLemmas.{nil-append, cons-append}
use mathlib.Core.List.{Memᴰ}
use karpenter_provider_yande.Prelude.{
  String, ◌≡◌, refl, ap, ◌∙◌, subst, inl, inr, Bool, true, false, Option, none, List, [], ◌∷◌,
  arith, ◌==◌, eq_iff, if◌then◌else◌, Bool-cases, Option-cases, select, All,
}
use karpenter_provider_yande.Prelude.Maps.{Labels}
use karpenter_provider_yande.Prelude.Int.{ℤ}
use karpenter_provider_yande.Prelude.Cache.{CacheOf}
use karpenter_provider_yande.NodeClass.Types.{NodeClass, StatusSubnet}
use karpenter_provider_yande.Yandex.Decimal.{Free}
use karpenter_provider_yande.Yandex.Split.{split, split-Free, split-append}

-- what cacheKey hashes
pub record HashInput : Type 0 where
  pub subnets : List StatusSubnet
  pub labels : Option Labels
  pub disk_type : String
  pub disk_size : ℤ
  pub security_groups : List String
  pub software_accelerated_network_settings : Bool
  pub core_fractions : List String

unfoldable pub hash_input : NodeClass → HashInput
hash_input nc = record {
  subnets = nc.subnets;
  labels = nc.spec.labels;
  disk_type = nc.spec.disk_type;
  disk_size = nc.spec.disk_size;
  security_groups = nc.spec.security_groups;
  software_accelerated_network_settings = nc.spec.software_accelerated_network_settings;
  core_fractions = nc.spec.core_fractions;
}

-- The hash of hashstructure, printed by %016x: hexadecimal digits, so no colon.
pub record Hashing : Type 0 where
  pub hex : HashInput → String
  pub hex-Free : (i : HashInput) → Free b':' (hex i)

unfoldable pub cache_key : Hashing → NodeClass → String
unfolding hash_input
cache_key h nc = nc.name +++ (":" +++ h.hex (hash_input nc))

-- parts[0] == name, of a key with two parts; any other key is passed over
unfoldable pub names : String → List String → Bool
names name (p ∷ q ∷ []) = p == name
names name _ = false

unfoldable pub belongs_to : String → String → Bool
unfolding names
belongs_to name key = names name (split b':' key)

module _ {V : Type 0} (cache : CacheOf V) where
  open cache use {Cache, get, delete, keys, get-delete, keys-get}

  unfoldable pub delete_all : List String → Cache → Cache
  delete_all [] c = c
  delete_all (k ∷ ks) c = delete_all ks (delete k c)

  unfoldable pub clear_cache_entries : String → Cache → Cache
  clear_cache_entries name c = delete_all (select (belongs_to name) (keys c)) c

  delete_all-none :
      (k : String) (ks : List String) (c : Cache) → get k c ≡ none → get k (delete_all ks c) ≡ none
  unfolding delete_all
  delete_all-none k [] c h = h
  delete_all-none k (j ∷ ks) c h =
      delete_all-none k ks (delete j c) (ground (arith, get-delete j k c))

  delete_all-mem :
      (k : String) (ks : List String) (c : Cache) → Memᴰ k ks → get k (delete_all ks c) ≡ none
  unfolding delete_all
  delete_all-mem k [] c m = elim m [ ]
  delete_all-mem k (j ∷ ks) c (Memᴰ.head e) =
      delete_all-none k ks (delete j c) (ground (arith, get-delete j k c, eq_iff j k, e))
  delete_all-mem k (j ∷ ks) c (Memᴰ.tail m) = delete_all-mem k ks (delete j c) m

  delete_all-ne :
      (k : String) (ks : List String) (c : Cache)
      → All (λ j. (j == k) ≡ false) ks
      → get k (delete_all ks c) ≡ get k c
  unfolding delete_all
  delete_all-ne k [] c h = refl
  delete_all-ne k (j ∷ ks) c h =
      delete_all-ne k ks (delete j c) h.1 ∙ rw (get-delete j k c) (rw h.0)

mem-select :
    (p : String → Bool) (k : String) (ks : List String)
    → Memᴰ k ks
    → p k ≡ true
    → Memᴰ k (select p ks)
mem-select p k [] m h = elim m [ ]
mem-select p k (j ∷ ks) (Memᴰ.head e) h =
    let same : p j ≡ true = subst (λ x. p x ≡ true) e h in rw same (Memᴰ.head e)
mem-select p k (j ∷ ks) (Memᴰ.tail m) h = elim (Bool-cases (p j)) [
  | inl e ↦ rw e (Memᴰ.tail (mem-select p k ks m h))
  | inr e ↦ rw e (mem-select p k ks m h)
]

select-ne :
    (p : String → Bool) (k : String) (ks : List String)
    → p k ≡ false
    → All (λ j. (j == k) ≡ false) (select p ks)
select-ne p k [] h = tt
select-ne p k (j ∷ ks) h = elim (Bool-cases (p j)) [
  | inl e ↦ rw e (other j e, select-ne p k ks h)
  | inr e ↦ rw e (select-ne p k ks h)
]
  where
    other : (j : String) → p j ≡ true → (j == k) ≡ false
    other j e = elim (Bool-cases (j == k)) [ inl q ↦ cc (ap p ((eq_iff j k).0 q)) | inr q ↦ q ]

belongs_to-key :
    (h : Hashing) (name : String) (nc : NodeClass)
    → Free b':' nc.name
    → belongs_to name (cache_key h nc) ≡ (nc.name == name)
unfolding belongs_to cache_key
belongs_to-key h name nc f =
    rw (cons-append, nil-append)
      (rw (split-append ":" nc.name (h.hex (hash_input nc)) f)
        (rw (split-Free b':' (h.hex (hash_input nc)) (h.hex-Free (hash_input nc)))))

module _ {V : Type 0} (cache : CacheOf V) (h : Hashing) where
  open cache use {Cache, get, keys, keys-get}

  -- Clearing a node class removes its entry whatever its spec was when the entry was made, and
  -- changes the entry of no node class of another name; names hold no colon.
  pub clear_cache_entries_lem :
      (name : String) (c : Cache) (nc : NodeClass)
      → Free b':' nc.name
      → get (cache_key h nc) (clear_cache_entries cache name c)
        ≡ (if nc.name == name then none else get (cache_key h nc) c)
  unfolding clear_cache_entries
  clear_cache_entries_lem name c nc f =
      let k = cache_key h nc in
      elim (Bool-cases (nc.name == name)) [
        | inr e ↦ rw e (
            delete_all-ne cache k _ c
              (select-ne (belongs_to name) k (keys c) (belongs_to-key h name nc f ∙ e)))
        | inl e ↦ rw e (elim (Option-cases (get k c)) [
          | inl g ↦ delete_all-none cache k _ c g
          | inr (v, g) ↦ delete_all-mem cache k _ c (
              mem-select (belongs_to name) k (keys c) (keys-get k v c g)
                (belongs_to-key h name nc f ∙ e))
        ])
      ]
