-- ===== src/Subnet/Provider/Laws.antt =====
-- What List returns, and what the cache does to it.
use karpenter_provider_yande.Prelude.{String, ◌≡◌, inl, inr, none, some, List, arith, eq_refl}
use karpenter_provider_yande.Prelude.Errors.{ok}
use mathlib.Core.List.{Perm}
use karpenter_provider_yande.Prelude.Sort.{sort_slice, sort_slice-perm, sort_slice-IsSorted}
use karpenter_provider_yande.Prelude.Cache.{CacheOf}
use karpenter_provider_yande.NodeClass.Types.{SubnetSelectorTerm}
use karpenter_provider_yande.NodeClass.Selector.{VpcSubnet}
use karpenter_provider_yande.Subnet.Capacity.{Subnet, comes_before, comes_before-IsLess}
use karpenter_provider_yande.Subnet.Provider.{Answers, build, list}
use karpenter_provider_yande.Subnet.Provider.Kept.{Measures, build-Measures}
use karpenter_provider_yande.Subnet.Provider.Order.{Ordered, Ordered-IsSorted}
use karpenter_provider_yande.Prelude.Errors.{Result-cases}

module _ (cache : CacheOf (List Subnet)) where
  open cache use {Cache, get, set, get-set}

  -- A call that misses the cache and succeeds returns, in some order, exactly the subnets of the
  -- network that some term selects, by its id or by its labels, each as often as the cloud lists it.
  -- Each has its id, its zone and the addresses of its blocks less those in use; those with more free
  -- addresses come first, and among equals the zones are in order. The result is left in the cache
  -- under the key of the terms.
  pub list_fresh :
      (a : Answers) (terms : List SubnetSelectorTerm) (c : Cache) (key : String)
      (subs : List Subnet)
      → a.hash_key terms ≡ ok key
      → get key c ≡ none
      → (list cache a terms c).0 ≡ ok subs
      → (subnets : List VpcSubnet) × (built : List Subnet) × (a.list_network_subnets ≡ ok subnets)
        × Measures a terms subnets built
        × Perm subs built
        × Ordered subs
        × (get key (list cache a terms c).1 ≡ some subs)
  unfolding list
  list_fresh a terms c key subs hk hm h = elim (Result-cases a.list_network_subnets) [
    | inr (e, f) ↦ absurd (ground arith)
    | inl (subnets, f) ↦ elim (Result-cases (build a terms subnets)) [
      | inr (e, g) ↦ absurd (ground arith)
      | inl (built, g) ↦
          let same : subs ≡ sort_slice comes_before built = ground arith in
          (
            subnets,
            built,
            f,
            build-Measures a terms subnets built g,
            rw same (sort_slice-perm comes_before built),
            rw same (
                Ordered-IsSorted (sort_slice comes_before built)
                  (sort_slice-IsSorted comes_before-IsLess built)),
            ground (arith, get-set key key subs c, eq_refl key),
          )
    ]
  ]

  -- A call that succeeds is repeated from the cache: the next call with the same terms returns the same
  -- subnets whatever the cloud answers then, and leaves the cache as it is.
  pub list_again :
      (a b : Answers) (terms : List SubnetSelectorTerm) (c : Cache) (subs : List Subnet)
      → b.hash_key terms ≡ a.hash_key terms
      → (list cache a terms c).0 ≡ ok subs
      → list cache b terms (list cache a terms c).1 ≡ (ok subs, (list cache a terms c).1)
  unfolding list
  list_again a b terms c subs hk h = elim (Result-cases (a.hash_key terms)) [
    | inr (e, f) ↦ absurd (ground arith)
    | inl (key, f) ↦ ground (arith, get-set key key subs c, eq_refl key)
  ]
