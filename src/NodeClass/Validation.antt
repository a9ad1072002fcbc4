-- ===== src/NodeClass/Validation.antt =====
-- Validation.Reconcile of pkg/controllers/nodeclass/validation.go.
pub mod Laws
use karpenter_provider_yande.Prelude.{
  ℕ, zero, suc, ◌+◌, ◌-◌, ◌*◌, ◌/◌, ◌%◌, ◌^◌, ◌≤◌, ◌<◌, String, ◌≡◌, refl, sym, ap, ◌∙◌, subst, ◌≢◌,
  ◌↔◌, ◌⊎◌, inl, inr, Bool, true, false, not, ◌&&◌, ◌||◌, Option, none, some, List, [], ◌∷◌, ◌++◌,
  map, arith, ◌==◌, eq_iff, eq_refl, ltb, leb, eqb, if◌then◌else◌, is_some, contains, has_prefix,
  ltb→lt, leb→le, eqb_iff, Bool-cases, Option-cases, length, is_empty, select, any, find_first, All,
  head?, All-select, All-map, All-append, All-select_of, length-append, length-select-le,
  length-map, is_some-find_first,
}
use karpenter_provider_yande.Prelude.Maps.{
  Map, Labels, lookup, insert, remove, at, assign, lookup-insert, lookup-remove, map_laws,
}
use karpenter_provider_yande.Prelude.Errors.{
  Error, Result, ok, err, message, api_error, wrap, Reason, not_found, conflict, unavailable,
  error_text, is_not_found, is_conflict, ◌>>=◌, or_wrap, ignore_not_found, says_not_found,
  Result-cases,
}
use karpenter_provider_yande.Prelude.Cache.{CacheOf}
use karpenter_provider_yande.NodeClass.Types.{
  NodeClass, Spec, Condition, ConditionStatus, is_true, is_false, is_unknown,
  condition_type_subnets_ready, condition_type_validation_succeeded,
}
use karpenter_provider_yande.NodeClass.Conditions.{ConditionSet}
use karpenter_provider_yande.NodeClass.Disk.{Verdict, validate_disk}
use karpenter_provider_yande.NodeClass.San.{validate_san}
use karpenter_provider_yande.NodeClass.SecurityGroups.{validate_security_groups}
use karpenter_provider_yande.NodeClass.Selector.{VpcSubnet, validate_subnets}
use karpenter_provider_yande.NodeClass.CacheKeys.{Hashing, cache_key}

-- reconcile.Result: Requeue, and RequeueAfter in seconds (0 is unset)
pub record Requeue : Type 0 where
  pub requeue : Bool
  pub requeue_after : ℕ

abbrev pub no_requeue : Requeue
no_requeue = record { requeue = false; requeue_after = 0 }

abbrev pub after : ℕ → Requeue
after seconds = record { requeue = false; requeue_after = seconds }

abbrev pub requeue_after_time : ℕ
requeue_after_time = 600

abbrev pub dependencies_not_ready : String
dependencies_not_ready = "DependenciesNotReady"

abbrev pub awaiting : String
awaiting = "Awaiting AMI, Instance Profile, Security Group, and Subnet resolution"

-- the cloud's answers during one call, and the printing of quantities
pub record Cloud : Type 0 where
  pub list_network_subnets : Result (List (Option VpcSubnet))
  pub security_group_exists : String → Result Bool
  pub binary_si : ℕ → String

unfoldable pub required_conditions : List String
required_conditions = condition_type_subnets_ready ∷ []

unfoldable pub should_cache_validation_failure : String → Bool
should_cache_validation_failure reason =
    if reason == "SubnetLookupFailed" || reason == "SecurityGroupLookupFailed" then false else true

abbrev pub is_status : ConditionStatus → ConditionStatus → Bool
is_status is_true is_true = true
is_status is_false is_false = true
is_status is_unknown is_unknown = true
is_status _ _ = false

-- the first reason among those of the four checks, and whether it may be cached
unfoldable pub first_failure : (disk san subnets groups : Verdict) → Verdict × Bool
first_failure disk san subnets groups =
    if not (disk.0 == "")
    then (disk, true)
    else if not (san.0 == "")
    then (san, true)
    else if not (subnets.0 == "")
    then (subnets, should_cache_validation_failure subnets.0)
    else if not (groups.0 == "")
    then (groups, should_cache_validation_failure groups.0)
    else (("", ""), true)

unfoldable pub verdict_of : Cloud → NodeClass → Verdict × Bool
unfolding first_failure
verdict_of cloud nc =
    first_failure (validate_disk cloud.binary_si nc.spec) (validate_san nc.spec)
      (validate_subnets cloud.list_network_subnets nc.spec nc.subnets)
      (validate_security_groups cloud.security_group_exists nc.spec.security_groups)

module _ (conds : ConditionSet) (h : Hashing) (cache : CacheOf String) where
  open conds use {state, set_true, set_false, set_unknown}
  open cache use {Cache, get, set}

  -- Some required condition has this status.
  abbrev pub any_required : ConditionStatus → NodeClass → Bool
  any_required s nc = any (λ t. is_status (state t nc.conditions) s) required_conditions

  abbrev succeed : NodeClass → NodeClass
  succeed nc = record nc { conditions = set_true condition_type_validation_succeeded nc.conditions }

  abbrev fail : Verdict → NodeClass → NodeClass
  fail v nc = record nc {
    conditions = set_false condition_type_validation_succeeded v.0 v.1 nc.conditions;
  }

  -- the branch of a cached verdict
  from_cache : String → NodeClass → NodeClass
  from_cache reason nc =
      if reason == "" then succeed nc else fail (reason, "something went wrong") nc

  -- the checks, with the dry run enabled; the key is that of the node class
  run_checks : Cloud → NodeClass → Cache → NodeClass × Cache
  unfolding verdict_of
  run_checks cloud nc c =
      let (v, cached) = verdict_of cloud nc in
      if v.0 == ""
      then (succeed nc, set (cache_key h nc) "" c)
      else (fail v nc, if cached then set (cache_key h nc) v.0 c else c)

  uncached : Bool → Cloud → NodeClass → Cache → NodeClass × Cache
  unfolding run_checks
  uncached dry_run_disabled cloud nc c =
      if dry_run_disabled then (succeed nc, set (cache_key h nc) "" c) else run_checks cloud nc c

  -- The new node class, the new cache and the result; there is no error.
  unfoldable pub reconcile : Bool → Cloud → NodeClass → Cache → (NodeClass × Cache) × Requeue
  unfolding from_cache uncached required_conditions
  reconcile dry_run_disabled cloud nc c =
      if any_required is_false nc
      then ((fail (dependencies_not_ready, awaiting) nc, c), after requeue_after_time)
      else if any_required is_unknown nc
      then (
        (
          record nc {
            conditions =
                set_unknown condition_type_validation_succeeded dependencies_not_ready awaiting
                  nc.conditions;
          },
          c,
        ),
        after requeue_after_time,
      )
      else elim (get (cache_key h nc) c) [
        | some reason ↦ ((from_cache reason nc, c), after requeue_after_time)
        | none ↦ (uncached dry_run_disabled cloud nc c, after requeue_after_time)
      ]
