-- ===== src/Tests/Instances.antt =====
-- Concrete functions in the place of the libraries' code.
use mathlib.Core.List.{Memᴰ}
use karpenter_provider_yande.Prelude.{
  ℕ, String, ◌≡◌, refl, ap, if◌then◌else◌, sym, inl, inr, true, some, List, [], ◌∷◌, map, arith,
  ◌==◌, eq_iff, ltb, eqb, Bool-cases,
}
use karpenter_provider_yande.Prelude.Maps.{
  Map, Labels, lookup, insert, remove, at, assign, lookup-insert, lookup-remove,
}
use karpenter_provider_yande.Prelude.Cache.{CacheOf}
use karpenter_provider_yande.Prelude.Sort.{IsLess}
use karpenter_provider_yande.CloudProvider.Types.{Karpenter}
use karpenter_provider_yande.CloudProvider.Cheapest.{CheapestLaw}
use karpenter_provider_yande.Prelude.{false}

abbrev pub keys_of : {V : Type 0} → Map V → List String
keys_of [] = []
keys_of ((k, v) ∷ m) = k ∷ keys_of m

pub keys_of-lookup :
    {V : Type 0} (k : String) (v : V) (m : Map V) → lookup k m ≡ some v → Memᴰ k (keys_of m)
unfolding lookup
keys_of-lookup k v [] h = cc
keys_of-lookup k v ((j, w) ∷ m) h = elim (Bool-cases (j == k)) [
  | inl e ↦ Memᴰ.head (sym ((eq_iff j k).0 e))
  | inr e ↦ Memᴰ.tail (keys_of-lookup k v m (rw e at h))
]

-- a cache whose entries never expire
abbrev pub map_cache : (V : Type 0) → CacheOf V
map_cache V = record {
  Cache = Map V;
  get = lookup;
  set = insert;
  delete = remove;
  keys = keys_of;
  get-set = λ k j v c. lookup-insert k j v c;
  get-delete = λ k j c. lookup-remove k j c;
  keys-get = keys_of-lookup;
}

abbrev least : List ℕ → ℕ
least [] = 0
least (n ∷ []) = n
least (n ∷ m ∷ ns) = let rest = least (m ∷ ns) in if ltb rest n then rest else n

least-mem : (n : ℕ) (ns : List ℕ) → Memᴰ (least (n ∷ ns)) (n ∷ ns)
least-mem n [] = Memᴰ.head refl
least-mem n (m ∷ ns) = elim (Bool-cases (ltb (least (m ∷ ns)) n)) [
  | inl e ↦ rw e (Memᴰ.tail (least-mem m ns))
  | inr e ↦ rw e (Memᴰ.head refl)
]

least-least : (x : ℕ) (ns : List ℕ) → Memᴰ x ns → ltb x (least ns) ≡ false
least-least x [] m = elim m [ ]
least-least x (n ∷ []) (Memᴰ.head e) = rw e (ground arith)
least-least x (n ∷ []) (Memᴰ.tail m) = elim m [ ]
least-least x (n ∷ m ∷ ns) (Memᴰ.head e) = rw e (ground arith)
least-least x (n ∷ m ∷ ns) (Memᴰ.tail p) = ground (arith, least-least x (m ∷ ns) p)

mem-map_price :
    {A : Type 0} (f : A → ℕ) (x : ℕ) (os : List A)
    → Memᴰ x (map f os)
    → (o : A) × Memᴰ o os × (f o ≡ x)
mem-map_price f x [] m = elim m [ ]
mem-map_price f x (o ∷ os) (Memᴰ.head e) = (o, Memᴰ.head refl, sym e)
mem-map_price f x (o ∷ os) (Memᴰ.tail m) =
    let (p, n, e) = mem-map_price f x os m in (p, Memᴰ.tail n, e)

price-mem : {A : Type 0} (f : A → ℕ) (o : A) (os : List A) → Memᴰ o os → Memᴰ (f o) (map f os)
price-mem f o [] m = elim m [ ]
price-mem f o (p ∷ os) (Memᴰ.head e) = Memᴰ.head (ap f e)
price-mem f o (p ∷ os) (Memᴰ.tail m) = Memᴰ.tail (price-mem f o os m)

-- Requirements are label maps, prices and quantities numbers.
abbrev pub plain_karpenter : Karpenter
plain_karpenter = record {
  Requirements = Labels;
  Price = ℕ;
  Quantity = ℕ;
  is_zero = λ q. eqb q 0;
  entries = λ m. map (λ e. (e.0, (1, e.1 ∷ []))) m;
  no_requirements = [];
  combine = assign;
  require_in = insert;
  is_compatible = λ a b. true;
  is_strictly_compatible = λ a b. true;
  value_of = at;
  less = ltb;
  cheapest = λ os. least (map (λ o. o.price) os);
  allocatable = λ it. it.capacity;
  fits = λ a b. true;
}

pub plain_cheapest : CheapestLaw plain_karpenter
plain_cheapest = record {
  price_listed = λ o os.
      mem-map_price (λ o. o.price) (least (map (λ o. o.price) (o ∷ os))) (o ∷ os)
        (least-mem o.price (map (λ o. o.price) os));
  none_less =
      λ o os m. least-least o.price (map (λ o. o.price) os) (price-mem (λ o. o.price) o os m);
}

pub ltb-IsLess : IsLess ltb
ltb-IsLess = record { asym = λ x y h. ground arith; trans = λ x y z h k. ground arith }
