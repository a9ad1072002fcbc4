-- ===== src/NodeClass/Controller/Laws.antt =====
-- What the controller may do to a node class.
use mathlib.Core.List.{Memᴰ}
use karpenter_provider_yande.Prelude.{
  String, ◌≡◌, refl, ap, ◌∙◌, ◌≢◌, ◌⊎◌, Bool, inl, inr, true, false, Option, none, some, List, [],
  ◌∷◌, ◌++◌, arith, ◌==◌, Bool-cases, any, head?,
}
use karpenter_provider_yande.Prelude.Errors.{Error, Result, ok, err, ignore_not_found, is_not_found}
use karpenter_provider_yande.Prelude.Cache.{CacheOf}
use karpenter_provider_yande.NodeClass.Types.{
  NodeClass, is_true, termination_finalizer, condition_type_subnets_ready,
  condition_type_validation_succeeded,
}
use karpenter_provider_yande.NodeClass.Conditions.{ConditionSet}
use karpenter_provider_yande.NodeClass.CacheKeys.{Hashing}
use karpenter_provider_yande.NodeClass.Validation.{Requeue}
use karpenter_provider_yande.NodeClass.Validation.Laws.{reconcile-not_ready}
use karpenter_provider_yande.NodeClass.SubnetReconciler
use karpenter_provider_yande.NodeClass.Validation
use karpenter_provider_yande.NodeClass.Controller.{
  Kube, Effect, patched, patched_status, published, World, contains_finalizer, add_finalizer,
  finalize, finalize_with, reconcile,
}
use karpenter_provider_yande.NodeClass.Controller.{waiting_message}
use karpenter_provider_yande.NodeClass.Controller.{settle}
use karpenter_provider_yande.NodeClass.Controller.{reconcilers}
use karpenter_provider_yande.NodeClass.Controller.{with_finalizer}
use karpenter_provider_yande.NodeClass.Controller.{errors_of}
use karpenter_provider_yande.NodeClass.Controller.{result_of}
use karpenter_provider_yande.NodeClass.Controller.{patch_failed}
use karpenter_provider_yande.NodeClass.Controller.{after}
use karpenter_provider_yande.NodeClass.Validation.Laws.{subnets-reconcile}

module _ (conds : ConditionSet) (h : Hashing) (cache : CacheOf String) where
  open cache use {Cache}
  open conds use {state, state-set_false}

  -- The finalizer of a node class that is being deleted is given up only after the cluster has answered
  -- that no NodeClaim uses it: without that answer no patch is sent and the validation cache keeps
  -- its entries.
  pub finalize_waits :
      (kube : Kube) (nc now : NodeClass) (c : Cache)
      → kube.list_node_claims nc ≢ ok []
      → ¬ Memᴰ (patched now) (finalize conds h cache kube nc c).1
        × ((finalize conds h cache kube nc c).2 ≡ c)
  unfolding finalize finalize_with
  finalize_waits kube nc now c used = elim (Bool-cases (contains_finalizer nc)) [
    | inr e ↦ rw e ((λ m. elim m [ ]), refl)
    | inl e ↦ rw e (waits (kube.list_node_claims nc) used)
  ]
    where
      waits :
          (r : Result (List String))
          → r ≢ ok []
          → ¬ Memᴰ (patched now) (finalize_with conds h cache kube nc c r).1
            × ((finalize_with conds h cache kube nc c r).2 ≡ c)
      waits (err e) u = ((λ m. elim m [ ]), refl)
      waits (ok []) u = absurd (u refl)
      waits (ok (n ∷ ns)) u = ((λ m. only m), refl)
        where
          only : ¬ Memᴰ (patched now) (published (waiting_message (n ∷ ns)) ∷ [])
          only (Memᴰ.head q) = cc
          only (Memᴰ.tail m) = elim m [ ]

  settle-head :
      (kube : Kube) (stored now : NodeClass) (es : List Error) (r : Requeue) (c : Cache)
      (x : Effect) (fx : List Effect)
      → head? (settle conds h cache kube stored now es r c (x ∷ fx)).1 ≡ some x
  unfolding settle
  settle-head kube stored now es r c x fx = elim (Bool-cases (kube.deep_equal stored now)) [
    | inl e ↦ rw e
    | inr e ↦ rw e
  ]

  reconcilers-head :
      (w : World) (nc : NodeClass) (c : Cache) (x : Effect) (fx : List Effect)
      → head? (reconcilers conds h cache w nc c (x ∷ fx)).1 ≡ some x
  unfolding reconcilers
  reconcilers-head w nc c x fx =
      let (nc1, r1) = SubnetReconciler.reconcile conds (w.listed_subnets nc) nc in
      let ((nc2, c'), r2) = Validation.reconcile conds h cache w.dry_run_disabled w.cloud nc1 c in
      settle-head w.kube nc nc2 (errors_of r1) (w.kube.min_requeue (result_of r1 ∷ r2 ∷ [])) c' x fx

  patch_failed-head :
      (w : World) (now : NodeClass) (c : Cache) (e : Error) (o : Option Error)
      → head? (patch_failed conds h cache w now c e o).1 ≡ some (patched now)
  unfolding patch_failed
  patch_failed-head w now c e none = reconcilers-head w now c (patched now) []
  patch_failed-head w now c e (some x) = refl

  with_finalizer-head :
      (w : World) (now : NodeClass) (c : Cache) (r : Result NodeClass)
      → head? (with_finalizer conds h cache w now c r).1 ≡ some (patched now)
  unfolding with_finalizer
  with_finalizer-head w now c (ok nc) = reconcilers-head w nc c (patched now) []
  with_finalizer-head w now c (err e) = patch_failed-head w now c e (ignore_not_found e)

  -- how the patch that adds the finalizer can end: it is answered, the node class is gone, or
  -- nothing but the patch has happened
  abbrev pub PatchEnded : NodeClass → Cache → Result NodeClass → List Effect → Cache → Type 0
  PatchEnded nc c r fx c' =
      ((stored : NodeClass) × (r ≡ ok stored))
      ⊎ ((e : Error) × (r ≡ err e) × (is_not_found e ≡ true))
      ⊎ ((fx ≡ patched (add_finalizer nc) ∷ []) × (c' ≡ c))

  ignored :
      (e : Error) (b : Bool)
      → is_not_found e ≡ b
      → (is_not_found e ≡ true) ⊎ ((x : Error) × (ignore_not_found e ≡ some x))
  unfolding ignore_not_found
  ignored e true q = inl q
  ignored e false q = inr (e, ap (λ b. elim b [ true ↦ none | false ↦ some e ]) q)

  failed_patch :
      (w : World) (nc : NodeClass) (c : Cache) (e x : Error) (o : Option Error)
      → o ≡ some x
      → ((patch_failed conds h cache w (add_finalizer nc) c e o).1
          ≡ patched (add_finalizer nc) ∷ [])
        × ((patch_failed conds h cache w (add_finalizer nc) c e o).2 ≡ c)
  unfolding patch_failed
  failed_patch w nc c e x none q = cc
  failed_patch w nc c e x (some y) q = (refl, refl)

  patch_ended :
      (w : World) (nc : NodeClass) (c : Cache) (r : Result NodeClass)
      → PatchEnded nc c r
          (with_finalizer conds h cache w (add_finalizer nc) c r).1
          (with_finalizer conds h cache w (add_finalizer nc) c r).2
  unfolding with_finalizer
  patch_ended w nc c (ok stored) = inl (stored, refl)
  patch_ended w nc c (err e) = elim (ignored e (is_not_found e) refl) [
    | inl q ↦ inr (inl (e, refl, q))
    | inr (x, q) ↦ inr (inr (failed_patch w nc c e x (ignore_not_found e) q))
  ]

  any-snoc :
      (xs : List String)
      → any (λ f. f == termination_finalizer) (xs ++ termination_finalizer ∷ []) ≡ true
  any-snoc [] = refl
  any-snoc (x ∷ xs) = ground (arith, any-snoc xs)

  -- A live node class with no finalizer gets it first: the first request is the patch that adds it.
  -- Unless that patch is answered, or fails because the node class is gone, it is the only request
  -- and the validation cache is as it was, so no status is written then.
  pub reconcile-finalizer_first :
      (w : World) (nc : NodeClass) (c : Cache)
      → nc.deleting ≡ false
      → contains_finalizer nc ≡ false
      → (head? (reconcile conds h cache w nc c).1 ≡ some (patched (add_finalizer nc)))
        × (contains_finalizer (add_finalizer nc) ≡ true)
        × PatchEnded nc c
            (w.kube.patch nc (add_finalizer nc))
            (reconcile conds h cache w nc c).1
            (reconcile conds h cache w nc c).2
  unfolding reconcile
  reconcile-finalizer_first w nc c live bare = (
    simp (live, bare)
        (with_finalizer-head w (add_finalizer nc) c (w.kube.patch nc (add_finalizer nc))),
    unfold contains_finalizer add_finalizer in any-snoc nc.finalizers,
    simp (live, bare) (patch_ended w nc c (w.kube.patch nc (add_finalizer nc))),
  )

  settle-mem :
      (kube : Kube) (stored nc now : NodeClass) (es : List Error) (r : Requeue) (c : Cache)
      → Memᴰ (patched_status now) (settle conds h cache kube stored nc es r c []).1
      → now ≡ nc
  unfolding settle
  settle-mem kube stored nc now es r c m = elim (Bool-cases (kube.deep_equal stored nc)) [
    | inl e ↦ nothing (rw e at m)
    | inr e ↦ only (rw e at m)
  ]
    where
      nothing : Memᴰ (patched_status now) [] → now ≡ nc
      nothing k = elim k [ ]

      only : Memᴰ (patched_status now) (patched_status nc ∷ []) → now ≡ nc
      only (Memᴰ.head q) = cc
      only (Memᴰ.tail k) = elim k [ ]

  -- With the finalizer in place and no subnet that matches, whatever status is written has no subnets
  -- and is not valid: the validation runs after the subnets, on their result.
  pub reconcile-no_subnets :
      (w : World) (nc now : NodeClass) (c : Cache)
      → nc.deleting ≡ false
      → contains_finalizer nc ≡ true
      → w.listed_subnets nc ≡ ok []
      → Memᴰ (patched_status now) (reconcile conds h cache w nc c).1
      → (now.subnets ≡ []) × (state condition_type_validation_succeeded now.conditions ≢ is_true)
  reconcile-no_subnets w nc now c live has none_match m =
      let nc1 = (SubnetReconciler.reconcile conds (ok []) nc).0 in
      let run = Validation.reconcile conds h cache w.dry_run_disabled w.cloud nc1 c in
      let m' : Memᴰ (patched_status now) (reconcilers conds h cache w nc c []).1 =
        unfold reconcile in simp (live, has) at m in
      let same : now ≡ run.0.0 =
        settle-mem w.kube nc run.0.0 now [] (w.kube.min_requeue (after 60 ∷ run.1 ∷ [])) run.0.1
          (unfold reconcilers SubnetReconciler.reconcile in simp none_match at m') in
      let status = SubnetReconciler.reconcile-status conds [] nc in
      let waiting : state condition_type_subnets_ready nc1.conditions ≢ is_true =
        λ k. cc (status.1.0 k) in
      rw same (
        subnets-reconcile conds h cache w.dry_run_disabled w.cloud nc1 c ∙ status.0,
        (reconcile-not_ready conds h cache w.dry_run_disabled w.dry_run_disabled w.cloud w.cloud nc1
            c c waiting).0,
      )
