-- ===== src/NodeClass/Controller.antt =====
-- Controller.Reconcile and finalize of pkg/controllers/nodeclass/controller.go.
pub mod Laws
use karpenter_provider_yande.Prelude.{
  ℕ, zero, suc, ◌+◌, ◌-◌, ◌*◌, ◌/◌, ◌%◌, ◌^◌, ◌≤◌, ◌<◌, String, ◌≡◌, refl, sym, ap, ◌∙◌, subst, ◌≢◌,
  ◌↔◌, ◌⊎◌, inl, inr, Bool, true, false, not, ◌&&◌, ◌||◌, Option, none, some, List, [], ◌∷◌, ◌++◌,
  map, arith, ◌==◌, eq_iff, eq_refl, ltb, leb, eqb, if◌then◌else◌, is_some, contains, has_prefix,
  ltb→lt, leb→le, eqb_iff, Bool-cases, Option-cases, length, is_empty, select, any, find_first, All,
  head?, All-select, All-map, All-append, All-select_of, length-append, length-select-le,
  length-map, is_some-find_first,
}
use karpenter_provider_yande.Prelude.Maps.{
  Map, Labels, lookup, insert, remove, at, assign, lookup-insert, lookup-remove, map_laws,
}
use karpenter_provider_yande.Prelude.Errors.{
  Error, Result, ok, err, message, api_error, wrap, Reason, not_found, conflict, unavailable,
  error_text, is_not_found, is_conflict, ◌>>=◌, or_wrap, ignore_not_found, says_not_found,
  Result-cases,
}
use karpenter_provider_yande.Prelude.Cache.{CacheOf}
use karpenter_provider_yande.NodeClass.Types.{NodeClass, termination_finalizer}
use karpenter_provider_yande.NodeClass.Conditions.{ConditionSet}
use karpenter_provider_yande.NodeClass.CacheKeys.{Hashing, clear_cache_entries}
use karpenter_provider_yande.NodeClass.Validation.{Requeue, no_requeue, after, Cloud}
use karpenter_provider_yande.NodeClass.Validation
use karpenter_provider_yande.NodeClass.SubnetReconciler
use karpenter_provider_yande.NodeClass.Events.{waiting_message}
use karpenter_provider_yande.Subnet.Capacity.{Subnet}

-- controllerutil: ContainsFinalizer, AddFinalizer, RemoveFinalizer
unfoldable pub contains_finalizer : NodeClass → Bool
contains_finalizer nc = any (λ f. f == termination_finalizer) nc.finalizers

unfoldable pub add_finalizer : NodeClass → NodeClass
add_finalizer nc = record nc { finalizers = nc.finalizers ++ termination_finalizer ∷ [] }

unfoldable pub remove_finalizer : NodeClass → NodeClass
remove_finalizer nc = record nc {
  finalizers = select (λ f. not (f == termination_finalizer)) nc.finalizers;
}

-- The Kubernetes client and the helpers of other libraries: `patch stored now` is the outcome of a
-- patch from `stored` to `now`, with the object that the server returns.
pub record Kube : Type 0 where
  pub patch : NodeClass → NodeClass → Result NodeClass
  pub patch_status : NodeClass → NodeClass → Result NodeClass
  pub list_node_claims : NodeClass → Result (List String)
  pub deep_equal : NodeClass → NodeClass → Bool
  pub min_requeue : List Requeue → Requeue

-- A request or an event that leaves the controller, in order.
pub data Effect : Type 0 where
  patched : NodeClass → Effect
  patched_status : NodeClass → Effect
  published : String → Effect

-- reconcile.Result with the errors that multierr.Append has gathered
pub record Outcome : Type 0 where
  pub result : Requeue
  pub errors : List Error

abbrev pub done : Requeue → Outcome
done r = record { result = r; errors = [] }

abbrev pub failed : List Error → Outcome
failed es = record { result = no_requeue; errors = es }

abbrev pub conflict_requeue : Outcome
conflict_requeue = done (record { requeue = true; requeue_after = 0 })

abbrev pub option_list {ℓ} : {A : Type ℓ} → Option A → List A
option_list none = []
option_list (some a) = a ∷ []

abbrev pub errors_of {ℓ} : {A : Type ℓ} → Result A → List Error
errors_of (ok a) = []
errors_of (err e) = e ∷ []

abbrev pub result_of : Result Requeue → Requeue
result_of (ok r) = r
result_of (err e) = no_requeue

-- everything that one call of Reconcile meets outside
pub record World : Type 0 where
  pub kube : Kube
  pub listed_subnets : NodeClass → Result (List Subnet)
  pub cloud : Cloud
  pub dry_run_disabled : Bool

-- the outcome, the effects in order and the validation cache afterwards
abbrev pub Run : Type 0 → Type 0
Run Cache = Outcome × List Effect × Cache

module _ (conds : ConditionSet) (h : Hashing) (cache : CacheOf String) where
  open cache use {Cache}

  -- the patch of finalize has answered
  unfoldable pub finish : NodeClass → Cache → Result NodeClass → List Effect → Run Cache
  finish now c (ok nc) fx = (done no_requeue, fx, clear_cache_entries cache nc.name c)
  finish now c (err e) fx = (
    elim (is_conflict e) [
      | true ↦ conflict_requeue
      | false ↦ failed (option_list (ignore_not_found (wrap "removing termination finalizer, " e)))
    ],
    fx,
    c,
  )

  unfoldable pub finalize_with : Kube → NodeClass → Cache → Result (List String) → Run Cache
  finalize_with kube nc c (err e) =
      (failed (wrap "listing nodeclaims that are using nodeclass, " e ∷ []), [], c)
  finalize_with kube nc c (ok (name ∷ names)) =
      (done (after 600), published (waiting_message (name ∷ names)) ∷ [], c)
  finalize_with kube nc c (ok []) =
      let now = remove_finalizer nc in
      if kube.deep_equal nc now
      then (done no_requeue, [], clear_cache_entries cache nc.name c)
      else finish now c (kube.patch nc now) (patched now ∷ [])

  unfoldable pub finalize : Kube → NodeClass → Cache → Run Cache
  finalize kube nc c =
      if contains_finalizer nc
      then finalize_with kube nc c (kube.list_node_claims nc)
      else (done no_requeue, [], c)

  -- after both reconcilers: the status patch, and the outcome
  unfoldable pub conclude : List Error → Requeue → Outcome
  conclude [] r = done r
  conclude (e ∷ es) r = failed (e ∷ es)

  unfoldable pub settle :
      Kube → NodeClass → NodeClass → List Error → Requeue → Cache → List Effect → Run Cache
  settle kube stored now es r c fx =
      if kube.deep_equal stored now then (conclude es r, fx, c) else (
        elim (kube.patch_status stored now) [
          | ok nc ↦ conclude es r
          | err e ↦ elim (is_conflict e) [
            | true ↦ conflict_requeue
            | false ↦ conclude (es ++ option_list (ignore_not_found e)) r
          ]
        ],
        fx ++ patched_status now ∷ [],
        c,
      )

  -- the loop over the reconcilers: the subnets first, then the validation
  unfoldable pub reconcilers : World → NodeClass → Cache → List Effect → Run Cache
  reconcilers w stored c fx =
      let (nc1, r1) = SubnetReconciler.reconcile conds (w.listed_subnets stored) stored in
      let ((nc2, c'), r2) = Validation.reconcile conds h cache w.dry_run_disabled w.cloud nc1 c in
      settle w.kube stored nc2 (errors_of r1) (w.kube.min_requeue (result_of r1 ∷ r2 ∷ [])) c' fx

  -- the patch that adds the finalizer has failed; the second error is what IgnoreNotFound leaves
  unfoldable pub patch_failed : World → NodeClass → Cache → Error → Option Error → Run Cache
  patch_failed w now c e none = reconcilers w now c (patched now ∷ [])
  patch_failed w now c e (some e') = (
    elim (is_conflict e) [ true ↦ conflict_requeue | false ↦ failed (e ∷ []) ],
    patched now ∷ [],
    c,
  )

  -- the patch that adds the finalizer has answered; a missing object is passed over
  unfoldable pub with_finalizer : World → NodeClass → Cache → Result NodeClass → Run Cache
  with_finalizer w now c (ok nc) = reconcilers w nc c (patched now ∷ [])
  with_finalizer w now c (err e) = patch_failed w now c e (ignore_not_found e)

  unfoldable pub reconcile : World → NodeClass → Cache → Run Cache
  reconcile w nc c =
      if nc.deleting
      then finalize w.kube nc c
      else if contains_finalizer nc
      then reconcilers w nc c []
      else with_finalizer w (add_finalizer nc) c (w.kube.patch nc (add_finalizer nc))
