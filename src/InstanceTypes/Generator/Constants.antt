-- ===== src/InstanceTypes/Generator/Constants.antt =====
-- The names of the platforms' constants in the generated files.
use karpenter_provider_yande.Prelude.{subst}
use karpenter_provider_yande.Prelude.{or_true, append_one, append_nil}
use karpenter_provider_yande.Pricing.Generator.Names
use karpenter_provider_yande.Prelude.{
  String, ◌≡◌, refl, sym, ap, ◌∙◌, ◌≢◌, inl, inr, Bool, true, false, ◌||◌, Option, none, some, List,
  [], ◌∷◌, ◌++◌, map, arith, ◌==◌, eq_iff, if◌then◌else◌, is_some, Bool-cases, any, All,
}
use karpenter_provider_yande.Prelude.Maps.{Map, lookup, insert, lookup-insert}
use karpenter_provider_yande.Prelude.Errors.{Result, ok}
use karpenter_provider_yande.Prelude.Sort.{sort_slice, All-sort_slice}
use karpenter_provider_yande.Yandex.Platform.{PlatformId, platform_intel_ice_lake_t4i}
use karpenter_provider_yande.InstanceTypes.Generator.{
  InstanceConfiguration, RegionConfig, Platform, Memories, platform_mapping, add_configurations,
  store_configurations, process_platform, process_platforms, fetch_config_from_api,
}
use karpenter_provider_yande.InstanceTypes.Generator.Output.{
  get_constant_name, converted_configs, configurations_at, convert_configurations, config_file,
}
use karpenter_provider_yande.InstanceTypes.Generator.Known.{
  is_known, constants_differ, any-sort_slice,
}

is_other : (a b : String) → a ≢ b → (a == b) ≡ false
is_other a b h = elim (Bool-cases (a == b)) [ inl e ↦ absurd (h ((eq_iff a b).0 e)) | inr e ↦ e ]

-- The two generators give a platform the same constant, except NVIDIA Tesla T4i.
pub get_constant_name-same :
    (id : PlatformId)
    → id ≢ platform_intel_ice_lake_t4i
    → Names.get_constant_name id ≡ get_constant_name id
unfolding get_constant_name Names.get_constant_name
get_constant_name-same id h = rw (is_other id platform_intel_ice_lake_t4i h) refl

abbrev Configurations : Type 0 → Type 0
Configurations Float = Map (List (InstanceConfiguration Float))

lookup-known :
    (m : Map PlatformId) (key : String) (id : PlatformId)
    → lookup key m ≡ some id
    → any (λ k. k == id) (map (λ e. e.1) m) ≡ true
unfolding lookup
lookup-known [] key id h = cc
lookup-known ((k, v) ∷ m) key id h = decide (k == key) h (λ e. lookup-known m key id e)
  where
    decide :
        (b : Bool)
        → (if b then some v else lookup key m) ≡ some id
        → (lookup key m ≡ some id → any (λ k. k == id) (map (λ e. e.1) m) ≡ true)
        → (v == id || any (λ k. k == id) (map (λ e. e.1) m)) ≡ true
    decide true h ih = let same : v ≡ id = cc in rw ((eq_iff v id).1 same) refl
    decide false h ih = rw (ih h) (or_true (v == id))

merged :
    {A : Type 0} (a b : Bool) (x y w : Option A)
    → (b ≡ true → y ≡ x)
    → (if a then x else (if b then y else w)) ≡ (if b || a then x else w)
merged true true x y w h = refl
merged true false x y w h = refl
merged false true x y w h = h refl
merged false false x y w h = refl

module _ {Float : Type 0} where
  keys-lookup :
      (id : PlatformId) (m : Configurations Float)
      → any (λ k. k == id) (map (λ e. e.0) m) ≡ is_some (lookup id m)
  unfolding lookup
  keys-lookup id [] = refl
  keys-lookup id ((k, cs) ∷ m) = ground (arith, keys-lookup id m)

  converted-append :
      (cs converted : List (InstanceConfiguration Float))
      → converted_configs cs converted ≡ converted ++ cs
  unfolding converted_configs
  converted-append [] converted = sym (append_nil converted)
  converted-append (c ∷ cs) converted =
      converted-append cs (converted ++ (c ∷ [])) ∙ append_one converted cs c

  abbrev written : PlatformId → Configurations Float → List (InstanceConfiguration Float)
  written id m = converted_configs (configurations_at id m) []

  -- the entry of a platform after the loop over the names
  convert-lookup :
      (id : PlatformId) (ids : List String) (m written_before : Configurations Float)
      → is_known id ≡ true
      → All (λ j. is_known j ≡ true) ids
      → lookup (get_constant_name id) (convert_configurations ids m written_before) ≡ (
          if any (λ j. j == id) ids
          then some (written id m)
          else lookup (get_constant_name id) written_before)
  unfolding convert_configurations
  convert-lookup id [] m w k h = refl
  convert-lookup id (j ∷ ids) m w k h =
      convert-lookup id ids m (insert (get_constant_name j) (written j m) w) k h.1
      ∙ ap (λ o. if any (λ i. i == id) ids then some (written id m) else o)
          (lookup-insert (get_constant_name j) (get_constant_name id) (written j m) w
            ∙ ap (λ b. if b then some (written j m) else lookup (get_constant_name id) w)
                (constants_differ j id h.0 k))
      ∙ merged (any (λ i. i == id) ids) (j == id) (some (written id m)) (some (written j m))
          (lookup (get_constant_name id) w) (λ e. ap (λ i. some (written i m)) ((eq_iff j id).0 e))

  config_file-lookup :
      (less : String → String → Bool) (config : RegionConfig Float) (id : PlatformId)
      → is_known id ≡ true
      → All (λ e. is_known e.0 ≡ true) config.configurations
      → lookup (get_constant_name id) (config_file less config).configurations
        ≡ lookup id config.configurations
  unfolding config_file configurations_at lookup
  config_file-lookup less config id k h =
      convert-lookup id (sort_slice less (map (λ e. e.0) config.configurations))
        config.configurations [] k
        (All-sort_slice (λ j. is_known j ≡ true) less _ (keys_known config.configurations h))
      ∙ ap (λ b. if b then some (written id config.configurations) else none)
          (any-sort_slice (λ j. j == id) less (map (λ e. e.0) config.configurations)
            ∙ keys-lookup id config.configurations)
      ∙ found (lookup id config.configurations) refl
    where
      found :
          (o : Option (List (InstanceConfiguration Float)))
          → lookup id config.configurations ≡ o
          → (if is_some o then some (written id config.configurations) else none) ≡ o
      found none e = refl
      found (some cs) e =
          ap (λ o. some (converted_configs (elim o [ none ↦ [] | some ds ↦ ds ]) [])) e
          ∙ ap some (converted-append cs [])

      keys_known :
          (m : Configurations Float)
          → All (λ e. is_known e.0 ≡ true) m
          → All (λ j. is_known j ≡ true) (map (λ e. e.0) m)
      keys_known [] h = tt
      keys_known (e ∷ m) h = (h.0, keys_known m h.1)

  insert-known :
      (id : PlatformId) (cs : List (InstanceConfiguration Float)) (m : Configurations Float)
      → is_known id ≡ true
      → All (λ e. is_known e.0 ≡ true) m
      → All (λ e. is_known e.0 ≡ true) (insert id cs m)
  unfolding insert
  insert-known id cs [] k h = (k, tt)
  insert-known id cs ((j, ds) ∷ m) k h = decide (j == id) (insert-known id cs m k h.1)
    where
      decide :
          (b : Bool)
          → All (λ e. is_known e.0 ≡ true) (insert id cs m)
          → All (λ e. is_known e.0 ≡ true) (if b then (id, cs) ∷ m else (j, ds) ∷ insert id cs m)
      decide true r = (k, h.1)
      decide false r = (h.0, r)

  store-known :
      (o : Option PlatformId) (cs : List (InstanceConfiguration Float)) (ms : Memories Float)
      (config : RegionConfig Float)
      → ((id : PlatformId) → o ≡ some id → is_known id ≡ true)
      → All (λ e. is_known e.0 ≡ true) config.configurations
      → All (λ e. is_known e.0 ≡ true) (store_configurations ms o cs config).configurations
  unfolding store_configurations
  store-known none cs ms config k h = h
  store-known (some id) [] ms config k h = h
  store-known (some id) (c ∷ cs) ms config k h =
      insert-known id (c ∷ cs) config.configurations (k id refl) h

  process_platforms-known :
      (platforms : List Platform) (ms : Memories Float) (config : RegionConfig Float)
      → All (λ e. is_known e.0 ≡ true) config.configurations
      → All (λ e. is_known e.0 ≡ true) (process_platforms ms platforms config).configurations
  unfolding process_platforms process_platform
  process_platforms-known [] ms config h = h
  process_platforms-known (p ∷ ps) ms config h = process_platforms-known ps ms _ (
      store-known (lookup p.id platform_mapping)
        (add_configurations ms p.reject_preemptible p.allowed_configurations []) ms config
        (λ id e. lookup-known platform_mapping p.id id e) h)

  config_of :
      (x y : RegionConfig Float) → ◌≡◌ {A = Result (RegionConfig Float)} (ok x) (ok y) → x ≡ y
  config_of x y h = cc

  -- Whatever platforms the cloud lists, the data that is handed to the template of the generated
  -- file has, under the constant of a known platform, exactly the configurations that were fetched
  -- for it, and nothing if none were. The printing by the template, which writes the memory with two
  -- decimals, is not part of the statement.
  pub config_file-fetch :
      (less : String → String → Bool) (ms : Memories Float) (platforms : List Platform)
      (region : String) (config : RegionConfig Float) (id : PlatformId)
      → fetch_config_from_api ms (ok platforms) region ≡ ok config
      → is_known id ≡ true
      → lookup (get_constant_name id) (config_file less config).configurations
        ≡ lookup id config.configurations
  unfolding fetch_config_from_api
  config_file-fetch less ms platforms region config id h k = config_file-lookup less config id k (
      subst (λ x. All (λ e. is_known e.0 ≡ true) x.configurations) (config_of _ config h)
        (process_platforms-known platforms ms (record { region = region; configurations = [] }) tt))
