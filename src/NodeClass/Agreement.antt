-- ===== src/NodeClass/Agreement.antt =====
-- The subnet provider and the validation hold the same selector loop: what the one resolves, the
-- other accepts.
use karpenter_provider_yande.Prelude.{
  String, ◌≡◌, refl, sym, ap, ◌∙◌, subst, inl, inr, true, false, none, some, List, [], ◌∷◌, map,
  arith, ◌==◌, eq_iff, eq_refl, is_some, Bool-cases, Option-cases, is_empty, All,
}
use karpenter_provider_yande.Prelude.Maps.{Map, lookup, insert, lookup-insert}
use karpenter_provider_yande.Prelude.Errors.{ok, Result-cases}
use karpenter_provider_yande.Prelude.Sort.{sort_slice, All-sort_slice}
use karpenter_provider_yande.Prelude.Cache.{CacheOf}
use karpenter_provider_yande.NodeClass.Types.{Spec, SubnetSelectorTerm}
use karpenter_provider_yande.NodeClass.Disk.{accepted}
use karpenter_provider_yande.NodeClass.Selector.{
  VpcSubnet, keep, collect, check_status, validate_subnets,
}
use karpenter_provider_yande.NodeClass.SubnetReconciler.{to_status}
use karpenter_provider_yande.Subnet.Capacity.{Subnet, comes_before}
use karpenter_provider_yande.Subnet.Provider.{Answers, build, list}
use karpenter_provider_yande.Subnet.Provider.Kept.{build-cons}

abbrev pub Zones : Type 0
Zones = String → String

-- The cloud's subnets have ids, and an id stands for one zone.
abbrev pub HasId : Zones → VpcSubnet → Type 0
HasId zone_of s = ((s.id == "") ≡ false) × (s.zone_id ≡ zone_of s.id)

abbrev InZones : Zones → Map String → Type 0
InZones zone_of m = (k z : String) → lookup k m ≡ some z → z ≡ zone_of k

abbrev Has : String → Map String → Type 0
Has k m = is_some (lookup k m) ≡ true

module _ (zone_of : Zones) (terms : List SubnetSelectorTerm) where
  InZones-insert :
      (s : VpcSubnet) (m : Map String)
      → s.zone_id ≡ zone_of s.id
      → InZones zone_of m
      → InZones zone_of (insert s.id s.zone_id m)
  InZones-insert s m e old k z h = elim (Bool-cases (s.id == k)) [
    | inl q ↦
        let same = (eq_iff s.id k).0 q in
        let now : some s.zone_id ≡ some z = rw (lookup-insert s.id k s.zone_id m, q) at h in
        ground (arith, same, e, ap zone_of same)
    | inr q ↦ old k z (rw (lookup-insert s.id k s.zone_id m, q) at h)
  ]

  Has-insert : (k j z : String) (m : Map String) → Has k m → Has k (insert j z m)
  Has-insert k j z m h = ground (arith, lookup-insert j k z m)

  Has-insert_self : (j z : String) (m : Map String) → Has j (insert j z m)
  Has-insert_self j z m = ground (arith, lookup-insert j j z m, eq_refl j)

  collect_kept :
      (s : VpcSubnet) (ss : List VpcSubnet) (m : Map String)
      → (s.id == "") ≡ false
      → keep terms s ≡ true
      → collect terms (map some (s ∷ ss)) m ≡ collect terms (map some ss) (insert s.id s.zone_id m)
  unfolding collect
  collect_kept s ss m h e = ground arith

  collect_skipped :
      (s : VpcSubnet) (ss : List VpcSubnet) (m : Map String)
      → (s.id == "") ≡ false
      → keep terms s ≡ false
      → collect terms (map some (s ∷ ss)) m ≡ collect terms (map some ss) m
  unfolding collect
  collect_skipped s ss m h e = ground arith

  collect-InZones :
      (subnets : List VpcSubnet) (m : Map String)
      → All (HasId zone_of) subnets
      → InZones zone_of m
      → InZones zone_of (collect terms (map some subnets) m)
  collect-InZones [] m all old = unfold collect in old
  collect-InZones (s ∷ ss) m all old = elim (Bool-cases (keep terms s)) [
    | inl e ↦
        rw (collect_kept s ss m all.0.0 e)
          (collect-InZones ss _ all.1 (InZones-insert s m all.0.1 old))
    | inr e ↦ rw (collect_skipped s ss m all.0.0 e) (collect-InZones ss m all.1 old)
  ]

  collect-Has :
      (k : String) (subnets : List VpcSubnet) (m : Map String)
      → All (HasId zone_of) subnets
      → Has k m
      → Has k (collect terms (map some subnets) m)
  collect-Has k [] m all h = unfold collect in h
  collect-Has k (s ∷ ss) m all h = elim (Bool-cases (keep terms s)) [
    | inl e ↦
        rw (collect_kept s ss m all.0.0 e)
          (collect-Has k ss _ all.1 (Has-insert k s.id s.zone_id m h))
    | inr e ↦ rw (collect_skipped s ss m all.0.0 e) (collect-Has k ss m all.1 h)
  ]

  -- what the validation asks of a resolved subnet
  abbrev Resolved : Map String → Subnet → Type 0
  Resolved m sub = ((sub.id == "") ≡ false) × Has sub.id m × (sub.zone_id ≡ zone_of sub.id)

  build-Resolved :
      (a : Answers) (subnets : List VpcSubnet) (built : List Subnet) (m : Map String)
      → All (HasId zone_of) subnets
      → build a terms subnets ≡ ok built
      → All (Resolved (collect terms (map some subnets) m)) built
  unfolding build
  build-Resolved a [] built m all h =
      subst (All (Resolved (collect terms (map some []) m))) nothing tt
    where
      nothing : [] ≡ built
      nothing = ground arith
  build-Resolved a (s ∷ ss) built m all h = elim (Bool-cases (keep terms s)) [
    | inr e ↦ rw (collect_skipped s ss m all.0.0 e) (build-Resolved a ss built m all.1 (rw e at h))
    | inl e ↦
        let (sub, rest, made, more, split) = build-cons a terms s ss built e h in
        let m' = insert s.id s.zone_id m in
        rw (collect_kept s ss m all.0.0 e, split)
          (
            (
              ground (arith, made.id, all.0.0),
              rw made.id (collect-Has s.id ss m' all.1 (Has-insert_self s.id s.zone_id m)),
              made.zone ∙ all.0.1 ∙ ap zone_of (sym made.id),
            ),
            build-Resolved a ss rest m' all.1 more,
          )
  ]

  check_status-accepted :
      (m : Map String) (seen : List String) (subs : List Subnet)
      → InZones zone_of m
      → All (Resolved m) subs
      → check_status m seen (map to_status subs) ≡ accepted
  unfolding check_status
  check_status-accepted m seen [] z all = refl
  check_status-accepted m seen (sub ∷ subs) z all = elim (Option-cases (lookup sub.id m)) [
    | inl e ↦ absurd (ground arith)
    | inr (zone, e) ↦
        let same : zone ≡ sub.zone_id = z sub.id zone e ∙ sym all.0.2 in
        rw (all.0.0, e, same)
          (ground (
            arith,
            eq_refl sub.zone_id,
            check_status-accepted m (sub.id ∷ seen) subs z all.1,
            check_status-accepted m seen subs z all.1,
          ))
  ]

Has-filled : (k : String) (m : Map String) → Has k m → is_empty m ≡ false
unfolding lookup
Has-filled k [] h = cc
Has-filled k (e ∷ m) h = refl

none_inside : (k z : String) → ¬ (lookup k [] ≡ some z)
unfolding lookup
none_inside k z e = cc

-- The subnets that a fresh call of List resolves, put into the status, pass the validation against the
-- same answer of the cloud, if there is a term and some subnet is resolved: the selector loops of
-- the provider and of the validation agree. The cloud's subnets have ids, and an id has one zone.
pub resolved_accepted :
    (cache : CacheOf (List Subnet)) (zone_of : Zones) (a : Answers) (spec : Spec) (c : cache.Cache)
    (key : String) (subnets : List VpcSubnet) (sub : Subnet) (subs : List Subnet)
    → All (HasId zone_of) subnets
    → is_empty spec.subnet_selector_terms ≡ false
    → a.hash_key spec.subnet_selector_terms ≡ ok key
    → cache.get key c ≡ none
    → a.list_network_subnets ≡ ok subnets
    → (list cache a spec.subnet_selector_terms c).0 ≡ ok (sub ∷ subs)
    → validate_subnets (ok (map some subnets)) spec (map to_status (sub ∷ subs)) ≡ accepted
unfolding list validate_subnets
resolved_accepted cache zone_of a spec c key subnets sub subs ids term hash miss listed h =
    elim (Result-cases (build a spec.subnet_selector_terms subnets)) [
      | inr (e, g) ↦ absurd (ground arith)
      | inl (built, g) ↦
          let terms = spec.subnet_selector_terms in
          let matched = collect terms (map some subnets) [] in
          let order : sub ∷ subs ≡ sort_slice comes_before built = ground arith in
          let all : All (Resolved zone_of terms matched) (sub ∷ subs) =
            subst (All (Resolved zone_of terms matched)) (sym order) (
              All-sort_slice (Resolved zone_of terms matched) comes_before built
                (build-Resolved zone_of terms a subnets built [] ids g)) in
          let inside : InZones zone_of matched =
            collect-InZones zone_of terms subnets [] ids (λ k z e. absurd (none_inside k z e)) in
          rw (term, Has-filled sub.id matched all.0.1)
            (check_status-accepted zone_of terms matched [] (sub ∷ subs) inside all)
    ]
