-- ===== src/Collector/Orphans.antt =====
-- pkg/controllers/nodeclaim/garbagecollection: instances of the cloud without a claim in the
-- cluster.
pub mod Workers
use karpenter_provider_yande.Prelude.{
  ℕ, ◌+◌, ◌-◌, ◌%◌, ◌^◌, ◌≤◌, ◌<◌, String, ◌≡◌, refl, ap, ◌⊎◌, inl, inr, Bool, true, false, not,
  ◌&&◌, Option, none, some, List, [], ◌∷◌, arith, ◌==◌, ltb, leb, if◌then◌else◌, is_some,
  Bool-cases, select, any, find_first, All,
}
use karpenter_provider_yande.Prelude.Errors.{Error, Result, ok, err, wrap, ignore_not_found}
use karpenter_provider_yande.CloudProvider.Types.{
  Karpenter, Claim, CloudError, plain, node_claim_not_found,
}

-- a node of the cluster: its name and the provider id of its spec
pub record ClusterNode : Type 0 where
  pub name : String
  pub provider_id : String

-- cloudprovider.IgnoreNodeClaimNotFoundError
unfoldable pub ignore_claim_not_found : CloudError → Option CloudError
ignore_claim_not_found (node_claim_not_found e) = none
ignore_claim_not_found e = some e

-- sets.New(…).Has(id), over the claims' provider ids that are set
unfoldable pub known : List String → String → Bool
known ids id = any (λ j. j == id) (select (λ j. not (j == "")) ids)

wraps : (n : ℕ) → n < 2 ^ 64 - 1 → (n + 1) % 2 ^ 64 ≡ n + 1
wraps n h = omega arith

twenty : (n : ℕ) → ◌≡◌ {A = ℕ} (if leb (n + 1) 20 then 10 else 120) (if ltb n 20 then 10 else 120)
twenty n = ground arith

module _ (k : Karpenter) where
  -- time.Since(created) > 30s, in seconds
  unfoldable pub is_orphan : ℕ → List String → Claim k → Bool
  is_orphan now ids nc = not (known ids nc.provider_id) && ltb (nc.creation + 30) now

  -- Delete of the cloud provider and of the Kubernetes client, over the state of both
  module _ {S : Type 0} (delete_claim : Claim k → S → Option CloudError × S)
      (delete_node : ClusterNode → S → Option Error × S) where
    unfoldable pub node_deleted : Option Error × S → Option CloudError × S
    node_deleted (none, s) = (none, s)
    node_deleted (some e, s) =
        (elim (ignore_not_found e) [ none ↦ none | some f ↦ some (plain f) ], s)

    unfoldable pub clean_node : Option ClusterNode → S → Option CloudError × S
    clean_node none s = (none, s)
    clean_node (some node) s = node_deleted (delete_node node s)

    unfoldable pub claim_deleted :
        Claim k → List ClusterNode → Option CloudError × S → Option CloudError × S
    claim_deleted nc nodes (some e, s) = (ignore_claim_not_found e, s)
    claim_deleted nc nodes (none, s) =
        clean_node (find_first (λ n. n.provider_id == nc.provider_id) nodes) s

    unfoldable pub garbage_collect : Claim k → List ClusterNode → S → Option CloudError × S
    garbage_collect nc nodes s = claim_deleted nc nodes (delete_claim nc s)

    -- workqueue.ParallelizeUntil, as the order of its indices; the errors that are not nil
    unfoldable pub collect_all :
        ℕ → List String → List ClusterNode → List (Claim k) → S → List CloudError × S
    collect_all now ids nodes [] s = ([], s)
    collect_all now ids nodes (nc ∷ ncs) s =
        let (e, s1) = if is_orphan now ids nc then garbage_collect nc nodes s else (none, s) in
        let (es, s2) = collect_all now ids nodes ncs s1 in
        (elim e [ none ↦ es | some f ↦ f ∷ es ], s2)

    -- the end: the count of successes goes up, in a uint64, and decides on the next run
    unfoldable pub conclude : ℕ → List CloudError × S → (List CloudError × ℕ) × (ℕ × S)
    conclude count ([], s) =
        let next = (count + 1) % 2 ^ 64 in (([], if leb next 20 then 10 else 120), (next, s))
    conclude count (e ∷ es, s) = ((e ∷ es, 0), (count, s))

    -- Reconcile: the errors and the seconds until the next run, and the count and the state
    -- afterwards. The three lists are those of the cloud's claims, the cluster's claims by provider
    -- id, and the nodes.
    unfoldable pub reconcile :
        ℕ
        → Result (List (Claim k))
        → Result (List String)
        → Result (List ClusterNode)
        → ℕ × S
        → (List CloudError × ℕ) × (ℕ × S)
    reconcile now (err e) ids nodes (count, s) =
        ((plain (wrap "listing cloudprovider nodeclaims, " e) ∷ [], 0), (count, s))
    reconcile now (ok ncs) (err e) nodes (count, s) = ((plain e ∷ [], 0), (count, s))
    reconcile now (ok ncs) (ok ids) (err e) (count, s) = ((plain e ∷ [], 0), (count, s))
    reconcile now (ok ncs) (ok ids) (ok nodes) (count, s) =
        conclude count (collect_all now ids nodes (select (λ nc. not (is_some nc.deletion)) ncs) s)

    -- what is left alone: on its way out already, known to the cluster, or not older than 30 s
    abbrev pub Spared : ℕ → List String → Claim k → Type 0
    Spared now ids nc =
        (is_some nc.deletion ≡ true) ⊎ (known ids nc.provider_id ≡ true) ⊎ (now ≤ nc.creation + 30)

    not_orphan :
        (now : ℕ) (ids : List String) (nc : Claim k)
        → Spared now ids nc
        → is_some nc.deletion ≡ false
        → is_orphan now ids nc ≡ false
    unfolding is_orphan
    not_orphan now ids nc (inl d) h = cc
    not_orphan now ids nc (inr (inl g)) h = ground (arith, g)
    not_orphan now ids nc (inr (inr g)) h = elim (Bool-cases (known ids nc.provider_id)) [
      | inl e ↦ ground (arith, e)
      | inr e ↦ ground (arith, e, g)
    ]

    Spared-if :
        (now : ℕ) (ids : List String) (nodes : List ClusterNode) (nc : Claim k)
        (ncs : List (Claim k)) (s : S) (b : Bool)
        → is_some nc.deletion ≡ b
        → Spared now ids nc
        → collect_all now ids nodes ncs s ≡ ([], s)
        → collect_all now ids nodes (if not b then nc ∷ ncs else ncs) s ≡ ([], s)
    unfolding collect_all
    Spared-if now ids nodes nc ncs s true e h rec = rec
    Spared-if now ids nodes nc ncs s false e h rec = simp (not_orphan now ids nc h e, rec)

    Spared-All :
        (now : ℕ) (ids : List String) (nodes : List ClusterNode) (ncs : List (Claim k)) (s : S)
        → All (Spared now ids) ncs
        → collect_all now ids nodes (select (λ nc. not (is_some nc.deletion)) ncs) s ≡ ([], s)
    unfolding collect_all
    Spared-All now ids nodes [] s h = refl
    Spared-All now ids nodes (nc ∷ ncs) s h =
        Spared-if now ids nodes nc (select (λ c. not (is_some c.deletion)) ncs) s
          (is_some nc.deletion) refl h.0 (Spared-All now ids nodes ncs s h.1)

    -- A run that finds every claim of the cloud being deleted, known to the cluster, or at most 30
    -- seconds old deletes nothing, has no error, and asks for the next run in ten seconds up to the
    -- twentieth success and in two minutes from then on, as long as the count fits a uint64.
    pub reconcile-Spared :
        (now : ℕ) (ncs : List (Claim k)) (ids : List String) (nodes : List ClusterNode) (count : ℕ)
        (s : S)
        → All (Spared now ids) ncs
        → count < 2 ^ 64 - 1
        → reconcile now (ok ncs) (ok ids) (ok nodes) (count, s)
          ≡ (([], if ltb count 20 then 10 else 120), (count + 1, s))
    unfolding reconcile conclude
    reconcile-Spared now ncs ids nodes count s h b =
        rw (Spared-All now ids nodes ncs s h)
          (rw (wraps count b) (ap (λ n. (([], n), (count + 1, s))) (twenty count)))
