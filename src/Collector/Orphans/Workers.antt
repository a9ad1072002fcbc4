-- ===== src/Collector/Orphans/Workers.antt =====
-- The workers of one run: their deletions in any order that the scheduler may choose.
use mathlib.Core.List.{Memᴰ}
use karpenter_provider_yande.Prelude.{
  ℕ, zero, suc, String, ◌≡◌, refl, Bool, true, false, Option, none, some, List, [], ◌∷◌, ◌++◌,
  arith, ◌==◌, if◌then◌else◌, find_first, All, All-map,
}
use karpenter_provider_yande.Prelude.Errors.{Error}
use karpenter_provider_yande.CloudProvider.Types.{Karpenter, Claim, CloudError}
use karpenter_provider_yande.Collector.Orphans.{
  ClusterNode, is_orphan, ignore_claim_not_found, node_deleted,
}

module _ (k : Karpenter) where
  -- garbageCollect of one claim, before the claim's deletion, before that of its node, and after
  pub data Job : Type 0 where
    to_delete : Claim k → Job
    to_clean : Claim k → ClusterNode → Job
    finished : Option CloudError → Job

  -- a call that a worker has made, with whether it succeeded
  pub data Call : Type 0 where
    claim_call : Claim k → Bool → Call
    node_call : ClusterNode → Call

  -- the jobs of the orphans; the other indices have nothing to do
  unfoldable pub jobs_of : ℕ → List String → List (Claim k) → List Job
  jobs_of now ids [] = []
  jobs_of now ids (nc ∷ ncs) =
      (if is_orphan k now ids nc then to_delete nc else finished none) ∷ jobs_of now ids ncs

  module _ {S : Type 0} (delete_claim : Claim k → S → Option CloudError × S)
      (delete_node : ClusterNode → S → Option Error × S) (nodes : List ClusterNode) where
    abbrev pub after_claim : Claim k → Option ClusterNode → Job
    after_claim nc none = finished none
    after_claim nc (some node) = to_clean nc node

    unfoldable pub after_delete : Claim k → Option CloudError × S → Job × (List Call × S)
    after_delete nc (some e, s) =
        (finished (ignore_claim_not_found e), (claim_call nc false ∷ [], s))
    after_delete nc (none, s) = (
      after_claim nc (find_first (λ n. n.provider_id == nc.provider_id) nodes),
      (claim_call nc true ∷ [], s),
    )

    -- one call of a job
    unfoldable pub work : Job → S → Job × (List Call × S)
    unfolding after_delete
    work (to_delete nc) s = after_delete nc (delete_claim nc s)
    work (to_clean nc node) s =
        let (e, s') = node_deleted k delete_claim delete_node (delete_node node s) in
        (finished e, (node_call node ∷ [], s'))
    work (finished e) s = (finished e, ([], s))

    -- the worker of index i makes its next call; an index past the end is none of theirs
    unfoldable pub work_at : ℕ → List Job → S → List Job × (List Call × S)
    unfolding work
    work_at i [] s = ([], ([], s))
    work_at zero (j ∷ js) s = let (j', done) = work j s in (j' ∷ js, done)
    work_at (suc i) (j ∷ js) s = let (js', done) = work_at i js s in (j ∷ js', done)

    -- a schedule of indices; the calls are logged, the last one first
    unfoldable pub schedule : List ℕ → List Job → List Call → S → List Job × (List Call × S)
    unfolding work_at
    schedule [] js calls s = (js, (calls, s))
    schedule (i ∷ is) js calls s =
        let (js', new) = work_at i js s in schedule is js' (new.0 ++ calls) new.1

    -- an orphan's claim was deleted
    abbrev pub Deleted : ℕ → List String → List Call → ClusterNode → Type 0
    Deleted now ids calls node =
        (nc : Claim k) × Memᴰ (claim_call nc true) calls
        × ((node.provider_id == nc.provider_id) ≡ true)

    abbrev pub AllowedCall : ℕ → List String → List Call → Call → Type 0
    AllowedCall now ids older (claim_call nc b) = is_orphan k now ids nc ≡ true
    AllowedCall now ids older (node_call node) = Deleted now ids older node

    -- each call is of an orphan, and a node's comes after the deletion of its claim
    abbrev pub Ordered : ℕ → List String → List Call → Type 0
    Ordered now ids [] = Unit
    Ordered now ids (call ∷ older) = AllowedCall now ids older call × Ordered now ids older

    abbrev Sound : ℕ → List String → List Call → Job → Type 0
    Sound now ids calls (to_delete nc) = is_orphan k now ids nc ≡ true
    Sound now ids calls (to_clean nc node) = Deleted now ids calls node
    Sound now ids calls (finished e) = Unit

    jobs_of-Sound :
        (now : ℕ) (ids : List String) (ncs : List (Claim k))
        → All (Sound now ids []) (jobs_of now ids ncs)
    unfolding jobs_of
    jobs_of-Sound now ids [] = tt
    jobs_of-Sound now ids (nc ∷ ncs) =
        (decide (is_orphan k now ids nc) refl, jobs_of-Sound now ids ncs)
      where
        decide :
            (b : Bool)
            → is_orphan k now ids nc ≡ b
            → Sound now ids [] (if b then to_delete nc else finished none)
        decide true e = e
        decide false e = tt

    Sound-more :
        (now : ℕ) (ids : List String) (call : Call) (calls : List Call) (j : Job)
        → Sound now ids calls j
        → Sound now ids (call ∷ calls) j
    Sound-more now ids call calls (to_delete nc) h = h
    Sound-more now ids call calls (to_clean nc node) (c, m, e) = (c, Memᴰ.tail m, e)
    Sound-more now ids call calls (finished e) h = tt

    -- what one call leaves: the job is sound, and so is the log
    abbrev Kept : ℕ → List String → List Call → Job × (List Call × S) → Type 0
    Kept now ids calls r =
        Sound now ids (r.1.0 ++ calls) r.0
        × Ordered now ids (r.1.0 ++ calls)
        × ((j : Job) → Sound now ids calls j → Sound now ids (r.1.0 ++ calls) j)

    after_delete-Kept :
        (now : ℕ) (ids : List String) (calls : List Call) (nc : Claim k) (r : Option CloudError × S)
        → is_orphan k now ids nc ≡ true
        → Ordered now ids calls
        → Kept now ids calls (after_delete nc r)
    unfolding after_delete
    after_delete-Kept now ids calls nc (some e, s) h o =
        (tt, (h, o), λ j x. Sound-more now ids (claim_call nc false) calls j x)
    after_delete-Kept now ids calls nc (none, s) h o = (
      next_job (find_first (λ n. n.provider_id == nc.provider_id) nodes) refl,
      (h, o),
      λ j x. Sound-more now ids (claim_call nc true) calls j x,
    )
      where
        found :
            (ns : List ClusterNode) (node : ClusterNode)
            → find_first (λ n. n.provider_id == nc.provider_id) ns ≡ some node
            → (node.provider_id == nc.provider_id) ≡ true
        found [] node e = cc
        found (n ∷ ns) node e = ground (arith, found ns node)

        next_job :
            (f : Option ClusterNode)
            → find_first (λ n. n.provider_id == nc.provider_id) nodes ≡ f
            → Sound now ids (claim_call nc true ∷ calls) (after_claim nc f)
        next_job none e = tt
        next_job (some node) e = (nc, Memᴰ.head refl, found nodes node e)

    work-Kept :
        (now : ℕ) (ids : List String) (calls : List Call) (j : Job) (s : S)
        → Sound now ids calls j
        → Ordered now ids calls
        → Kept now ids calls (work j s)
    unfolding work
    work-Kept now ids calls (to_delete nc) s h o =
        after_delete-Kept now ids calls nc (delete_claim nc s) h o
    work-Kept now ids calls (to_clean nc node) s h o =
        (tt, (h, o), λ j x. Sound-more now ids (node_call node) calls j x)
    work-Kept now ids calls (finished e) s h o = (tt, o, λ j x. x)

    abbrev AllKept : ℕ → List String → List Call → List Job × (List Call × S) → Type 0
    AllKept now ids calls r =
        All (Sound now ids (r.1.0 ++ calls)) r.0
        × Ordered now ids (r.1.0 ++ calls)
        × ((j : Job) → Sound now ids calls j → Sound now ids (r.1.0 ++ calls) j)

    work_at-Kept :
        (now : ℕ) (ids : List String) (calls : List Call) (i : ℕ) (js : List Job) (s : S)
        → All (Sound now ids calls) js
        → Ordered now ids calls
        → AllKept now ids calls (work_at i js s)
    unfolding work_at
    work_at-Kept now ids calls i [] s h o = (tt, o, λ j x. x)
    work_at-Kept now ids calls zero (j ∷ js) s h o =
        let (x, y, more) = work-Kept now ids calls j s h.0 o in ((x, All-map js more h.1), y, more)
    work_at-Kept now ids calls (suc i) (j ∷ js) s h o =
        let (xs, y, more) = work_at-Kept now ids calls i js s h.1 o in ((more j h.0, xs), y, more)

    schedule-Ordered_of :
        (now : ℕ) (ids : List String) (is : List ℕ) (js : List Job) (calls : List Call) (s : S)
        → All (Sound now ids calls) js
        → Ordered now ids calls
        → Ordered now ids (schedule is js calls s).1.0
    unfolding schedule
    schedule-Ordered_of now ids [] js calls s h o = o
    schedule-Ordered_of now ids (i ∷ is) js calls s h o =
        let (xs, y, more) = work_at-Kept now ids calls i js s h o in
        schedule-Ordered_of now ids is (work_at i js s).0 _ _ xs y

    -- In whatever order the workers' calls are scheduled, a call that deletes a claim is of an orphan, and
    -- a call that deletes a node comes after the deletion of an orphan of its provider id has
    -- succeeded.
    pub schedule-Ordered :
        (now : ℕ) (ids : List String) (ncs : List (Claim k)) (is : List ℕ) (s : S)
        → Ordered now ids (schedule is (jobs_of now ids ncs) [] s).1.0
    schedule-Ordered now ids ncs is s =
        schedule-Ordered_of now ids is (jobs_of now ids ncs) [] s (jobs_of-Sound now ids ncs) tt
