-- ===== src/NodeClass/Validation/Laws.antt =====
-- What Validation.Reconcile decides, and what it leaves in the cache.
use karpenter_provider_yande.Prelude.{
  String, ◌≡◌, refl, sym, ◌∙◌, ◌≢◌, ◌↔◌, ◌⊎◌, inl, inr, Bool, true, false, none, some, arith, ◌==◌,
  eq_iff, eq_refl, if◌then◌else◌, Bool-cases, is_empty,
}
use karpenter_provider_yande.Prelude.Errors.{Error, err}
use karpenter_provider_yande.Prelude.Cache.{CacheOf}
use karpenter_provider_yande.NodeClass.Types.{
  NodeClass, ConditionStatus, is_true, is_false, is_unknown, condition_type_subnets_ready,
  condition_type_validation_succeeded,
}
use karpenter_provider_yande.NodeClass.Conditions.{ConditionSet}
use karpenter_provider_yande.NodeClass.Disk.{validate_disk}
use karpenter_provider_yande.NodeClass.San.{validate_san}
use karpenter_provider_yande.NodeClass.SecurityGroups.{validate_security_groups}
use karpenter_provider_yande.NodeClass.Selector.{validate_subnets}
use karpenter_provider_yande.NodeClass.CacheKeys.{Hashing, cache_key}
use karpenter_provider_yande.NodeClass.Validation.{Cloud, reconcile, verdict_of}
use karpenter_provider_yande.NodeClass.Validation.{first_failure}
use karpenter_provider_yande.NodeClass.Disk.{Verdict}
use karpenter_provider_yande.Prelude.{ne_of_test}
use karpenter_provider_yande.NodeClass.Validation.{dependencies_not_ready}
use karpenter_provider_yande.NodeClass.Validation.{awaiting}
use karpenter_provider_yande.NodeClass.Validation.{should_cache_validation_failure}

-- All four checks accept the node class.
abbrev pub AllAccept : Cloud → NodeClass → Type 0
AllAccept cloud nc =
    ((validate_disk cloud.binary_si nc.spec).0 ≡ "")
    × ((validate_san nc.spec).0 ≡ "")
    × ((validate_subnets cloud.list_network_subnets nc.spec nc.subnets).0 ≡ "")
    × ((validate_security_groups cloud.security_group_exists nc.spec.security_groups).0 ≡ "")

first_failure_iff :
    (d s n g : Verdict)
    → ((first_failure d s n g).0.0 ≡ "") ↔ ((d.0 ≡ "") × (s.0 ≡ "") × (n.0 ≡ "") × (g.0 ≡ ""))
unfolding first_failure
first_failure_iff d s n g =
    ground (arith, eq_iff d.0 "", eq_iff s.0 "", eq_iff n.0 "", eq_iff g.0 "")

-- a lookup of the subnets that failed gives the verdict, which is not cached
verdict_of-lookup_failed :
    (cloud : Cloud) (nc : NodeClass) (e : Error)
    → ((validate_disk cloud.binary_si nc.spec).0 ≡ "")
    → ((validate_san nc.spec).0 ≡ "")
    → (is_empty nc.spec.subnet_selector_terms ≡ false)
    → cloud.list_network_subnets ≡ err e
    → ((verdict_of cloud nc).0.0 ≡ "SubnetLookupFailed") × ((verdict_of cloud nc).1 ≡ false)
unfolding verdict_of validate_subnets should_cache_validation_failure
verdict_of-lookup_failed cloud nc e d s t l = rw (d, s, t, l) (refl, refl)

status_cases : (s : ConditionStatus) → (s ≡ is_true) ⊎ (s ≡ is_false) ⊎ (s ≡ is_unknown)
status_cases is_true = inl refl
status_cases is_false = inr (inl refl)
status_cases is_unknown = inr (inr refl)

verdict_of_iff :
    (cloud : Cloud) (nc : NodeClass) → ((verdict_of cloud nc).0.0 ≡ "") ↔ AllAccept cloud nc
unfolding verdict_of
verdict_of_iff cloud nc = first_failure_iff _ _ _ _

module _ (conds : ConditionSet) (h : Hashing) (cache : CacheOf String) where
  open conds use {state, state-set_true, state-set_false, state-set_unknown}
  open cache use {Cache, get, get-set}

  -- With its subnets ready and nothing cached, a node class is marked as valid exactly when all four
  -- checks accept it.
  pub reconcile-fresh :
      (cloud : Cloud) (nc : NodeClass) (c : Cache)
      → state condition_type_subnets_ready nc.conditions ≡ is_true
      → get (cache_key h nc) c ≡ none
      → (state condition_type_validation_succeeded
            (reconcile conds h cache false cloud nc c).0.0.conditions
          ≡ is_true)
        ↔ AllAccept cloud nc
  unfolding reconcile
  reconcile-fresh cloud nc c ready miss =
      let i = verdict_of_iff cloud nc in
      rw (ready, miss)
        (elim (Bool-cases ((verdict_of cloud nc).0.0 == "")) [
          | inl e ↦ rw e (
            (λ _. i.0 ((eq_iff _ "").0 e)),
            (λ _. state-set_true condition_type_validation_succeeded nc.conditions),
          )
          | inr e ↦ rw e (
            (λ k. cc (
                state-set_false condition_type_validation_succeeded (verdict_of cloud nc).0.0
                  (verdict_of cloud nc).0.1 nc.conditions)),
            (λ a. absurd (ne_of_test _ "" e (i.1 a))),
          )
        ])

  -- When the subnets cannot be listed, a node class whose disk and core fractions are accepted is
  -- marked as invalid, and the failure is not cached: the cache is as it was.
  pub reconcile-lookup_failed :
      (cloud : Cloud) (nc : NodeClass) (c : Cache) (e : Error)
      → state condition_type_subnets_ready nc.conditions ≡ is_true
      → get (cache_key h nc) c ≡ none
      → ((validate_disk cloud.binary_si nc.spec).0 ≡ "")
      → ((validate_san nc.spec).0 ≡ "")
      → (is_empty nc.spec.subnet_selector_terms ≡ false)
      → cloud.list_network_subnets ≡ err e
      → (state condition_type_validation_succeeded
            (reconcile conds h cache false cloud nc c).0.0.conditions
          ≡ is_false)
        × ((reconcile conds h cache false cloud nc c).0.1 ≡ c)
  unfolding reconcile
  reconcile-lookup_failed cloud nc c e ready miss d s t l =
      let (r, k) = verdict_of-lookup_failed cloud nc e d s t l in
      rw (ready, miss) (rw (r, k) (state-set_false _ _ _ _, refl))

  -- While the subnets are not ready, the node class is not marked as valid, the cache is as it was,
  -- and neither the checks nor the cache have a part in the outcome: the node class and the
  -- requeue are the same for any other answers of the cloud, any other cache and either setting of
  -- the dry run.
  pub reconcile-not_ready :
      (off off' : Bool) (cloud cloud' : Cloud) (nc : NodeClass) (c c' : Cache)
      → state condition_type_subnets_ready nc.conditions ≢ is_true
      → (state condition_type_validation_succeeded
            (reconcile conds h cache off cloud nc c).0.0.conditions
          ≢ is_true)
        × ((reconcile conds h cache off cloud nc c).0.1 ≡ c)
        × ((reconcile conds h cache off cloud nc c).0.0
            ≡ (reconcile conds h cache off' cloud' nc c').0.0)
        × ((reconcile conds h cache off cloud nc c).1
            ≡ (reconcile conds h cache off' cloud' nc c').1)
  unfolding reconcile
  reconcile-not_ready off off' cloud cloud' nc c c' wait =
      elim (status_cases (state condition_type_subnets_ready nc.conditions)) [
        | inl e ↦ absurd (wait e)
        | inr (inl e) ↦ rw e (
          (λ k. cc (
              state-set_false condition_type_validation_succeeded dependencies_not_ready awaiting
                nc.conditions)),
          refl,
          refl,
          refl,
        )
        | inr (inr e) ↦ rw e (
          (λ k. cc (
              state-set_unknown condition_type_validation_succeeded dependencies_not_ready awaiting
                nc.conditions)),
          refl,
          refl,
          refl,
        )
      ]

  abbrev state_of : String → ConditionStatus
  state_of reason = if reason == "" then is_true else is_false

  reconcile_miss :
      (cloud : Cloud) (nc : NodeClass) (c : Cache)
      → state condition_type_subnets_ready nc.conditions ≡ is_true
      → get (cache_key h nc) c ≡ none
      → (verdict_of cloud nc).1 ≡ true
      → (state condition_type_validation_succeeded
            (reconcile conds h cache false cloud nc c).0.0.conditions
          ≡ state_of (verdict_of cloud nc).0.0)
        × ((reconcile conds h cache false cloud nc c).0.1
            ≡ cache.set (cache_key h nc) (verdict_of cloud nc).0.0 c)
  unfolding reconcile
  reconcile_miss cloud nc c ready miss keep =
      rw (ready, miss)
        (elim (Bool-cases ((verdict_of cloud nc).0.0 == "")) [
          | inl e ↦ rw e (state-set_true _ _, rw ((eq_iff _ "").0 e))
          | inr e ↦ rw (e, keep) (state-set_false _ _ _ _, refl)
        ])

  reconcile_hit :
      (cloud : Cloud) (nc : NodeClass) (c : Cache) (reason : String)
      → state condition_type_subnets_ready nc.conditions ≡ is_true
      → get (cache_key h nc) c ≡ some reason
      → (state condition_type_validation_succeeded
            (reconcile conds h cache false cloud nc c).0.0.conditions
          ≡ state_of reason)
        × ((reconcile conds h cache false cloud nc c).0.1 ≡ c)
  unfolding reconcile
  reconcile_hit cloud nc c reason ready hit =
      rw (ready, hit)
        (elim (Bool-cases (reason == "")) [
          | inl e ↦ rw e (state-set_true _ _, refl)
          | inr e ↦ rw e (state-set_false _ _ _ _, refl)
        ])

  -- A verdict that was reached without a failed lookup is repeated from the cache: until the entry
  -- expires, reconciling the same node class again leaves the cache and the validity as they are,
  -- whatever the cloud answers then.
  pub reconcile-repeat :
      (cloud later : Cloud) (nc : NodeClass) (c : Cache) (again : NodeClass)
      → state condition_type_subnets_ready nc.conditions ≡ is_true
      → get (cache_key h nc) c ≡ none
      → (verdict_of cloud nc).1 ≡ true
      → cache_key h again ≡ cache_key h nc
      → state condition_type_subnets_ready again.conditions ≡ is_true
      → (let c' = (reconcile conds h cache false cloud nc c).0.1 in
          (state condition_type_validation_succeeded
              (reconcile conds h cache false later again c').0.0.conditions
            ≡ state condition_type_validation_succeeded
                (reconcile conds h cache false cloud nc c).0.0.conditions)
          × ((reconcile conds h cache false later again c').0.1 ≡ c'))
  reconcile-repeat cloud later nc c again ready miss keep same ready' =
      let (first, stored) = reconcile_miss cloud nc c ready miss keep in
      let k = cache_key h nc in
      let r = (verdict_of cloud nc).0.0 in
      let found : get (cache_key h again) (reconcile conds h cache false cloud nc c).0.1 ≡ some r =
        rw (same, stored) (ground (arith, get-set k k r c, eq_refl k)) in
      let (second, left) = reconcile_hit later again _ r ready' found in (second ∙ sym first, left)

  -- the validation only changes the conditions
  pub subnets-reconcile :
      (off : Bool) (cloud : Cloud) (nc : NodeClass) (c : Cache)
      → (reconcile conds h cache off cloud nc c).0.0.subnets ≡ nc.subnets
  unfolding reconcile
  subnets-reconcile off cloud nc c = ground arith
