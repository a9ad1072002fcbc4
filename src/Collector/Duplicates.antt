-- ===== src/Collector/Duplicates.antt =====
-- pkg/controllers/cloud/garbagecollection: node groups that cannot come up, since an instance of
-- their name exists.
use karpenter_provider_yande.Prelude.{
  ℕ, String, ◌≡◌, refl, ap, subst, ◌↔◌, eq_iff, inl, inr, Bool, true, false, not, Option, List, [],
  ◌∷◌, ◌==◌, if◌then◌else◌, contains, Bool-cases,
}
use karpenter_provider_yande.Prelude.Errors.{Error, Result, ok, err, wrap}
use karpenter_provider_yande.Yandex.NodeGroup.{
  NodeGroup, Node, GroupStatus, is_provisioning, unspecified, provisioning, running, reconciling,
  stopping, stopped, deleting, starting,
}
use karpenter_provider_yande.Prelude.{arith}

-- how the loop's body judges a group, from the answer of GetNodeFromNodeGroup
unfoldable pub is_duplicate : NodeGroup → Result Node → Bool
is_duplicate ng (err e) = false
is_duplicate ng (ok node) =
    if not (is_provisioning ng.group_status)
    then false
    else if not (node.cloud_status == "CREATING_INSTANCE")
    then false
    else contains node.status_message "ALREADY_EXISTS"

-- The cloud as a state: the answer of GetNodeFromNodeGroup, and DeleteNodeGroup.
module _ {S : Type 0} (node_of : String → S → Result Node)
    (delete : String → S → Option Error × S) where
  -- the body of the loop: an error of the deletion is logged only
  unfoldable pub visit : NodeGroup → S → S
  visit ng s = if is_duplicate ng (node_of ng.id s) then (delete ng.id s).1 else s

  unfoldable pub visit_all : List NodeGroup → S → S
  visit_all [] s = s
  visit_all (ng ∷ ngs) s = visit_all ngs (visit ng s)

  -- Reconcile: the seconds until the next run
  unfoldable pub reconcile : Result (List NodeGroup) → S → Result ℕ × S
  reconcile (err e) s = (err (wrap "listing node groups: " e), s)
  reconcile (ok ngs) s = (ok 600, visit_all ngs s)

-- A group that cannot come up, by the cloud's answer on its node: the group is being provisioned,
-- its instance is being created, and the message says that there is one already.
pub record IsDuplicate (ng : NodeGroup) (answer : Result Node) : Type 0 where
  pub node : Node
  pub answered : answer ≡ ok node
  pub coming_up : ng.group_status ≡ provisioning
  pub creating : node.cloud_status ≡ "CREATING_INSTANCE"
  pub refused : contains node.status_message "ALREADY_EXISTS" ≡ true

is_provisioning_iff : (s : GroupStatus) → is_provisioning s ≡ true → s ≡ provisioning
is_provisioning_iff unspecified h = cc
is_provisioning_iff provisioning h = refl
is_provisioning_iff running h = cc
is_provisioning_iff reconciling h = cc
is_provisioning_iff stopping h = cc
is_provisioning_iff stopped h = cc
is_provisioning_iff deleting h = cc
is_provisioning_iff starting h = cc

tests_iff :
    (p c e : Bool)
    → ((if not p then false else if not c then false else e) ≡ true)
      ↔ ((p ≡ true) × (c ≡ true) × (e ≡ true))
tests_iff p c e = ground arith

is_duplicate-IsDuplicate :
    (ng : NodeGroup) (answer : Result Node) → is_duplicate ng answer ≡ true → IsDuplicate ng answer
unfolding is_duplicate
is_duplicate-IsDuplicate ng (err e) h = cc
is_duplicate-IsDuplicate ng (ok node) h =
    let (p, c, e) =
      (tests_iff (is_provisioning ng.group_status) (node.cloud_status == "CREATING_INSTANCE")
          (contains node.status_message "ALREADY_EXISTS")).0
        h in
    record {
      node = node;
      answered = refl;
      coming_up = is_provisioning_iff ng.group_status p;
      creating = (eq_iff node.cloud_status "CREATING_INSTANCE").0 c;
      refused = e;
    }

found_duplicate :
    (ng : NodeGroup) (answer : Result Node) → IsDuplicate ng answer → is_duplicate ng answer ≡ true
unfolding is_duplicate
found_duplicate ng answer d = rw (d.answered, d.coming_up, d.creating, d.refused) refl

module _ {S : Type 0} (node_of : String → S → Result Node)
    (delete : String → S → Option Error × S) where
  -- A run over the groups from one state of the cloud to another: a group is deleted if it is a
  -- duplicate by the answer that the cloud gives in the state at its turn, and passed over if not.
  pub data Runs : List NodeGroup → S → S → Type 0 where
    over : (s : S) → Runs [] s s
    deleted :
        (ng : NodeGroup) (ngs : List NodeGroup) (s s' : S)
        → IsDuplicate ng (node_of ng.id s)
        → Runs ngs (delete ng.id s).1 s'
        → Runs (ng ∷ ngs) s s'
    passed :
        (ng : NodeGroup) (ngs : List NodeGroup) (s s' : S)
        → ¬ IsDuplicate ng (node_of ng.id s)
        → Runs ngs s s'
        → Runs (ng ∷ ngs) s s'

  visit_if :
      (ng : NodeGroup) (ngs : List NodeGroup) (s s' : S) (b : Bool)
      → is_duplicate ng (node_of ng.id s) ≡ b
      → Runs ngs (if b then (delete ng.id s).1 else s) s'
      → Runs (ng ∷ ngs) s s'
  visit_if ng ngs s s' true e r = deleted ng ngs s s' (is_duplicate-IsDuplicate ng _ e) r
  visit_if ng ngs s s' false e r = passed ng ngs s s' (λ d. let t = found_duplicate ng _ d in cc) r

  runs_of : (ngs : List NodeGroup) (s : S) → Runs ngs s (visit_all node_of delete ngs s)
  unfolding visit_all visit
  runs_of [] s = over s
  runs_of (ng ∷ ngs) s =
      visit_if ng ngs s _ (is_duplicate ng (node_of ng.id s)) refl (runs_of ngs _)

  not_found :
      (ng : NodeGroup) (s : S)
      → ¬ IsDuplicate ng (node_of ng.id s)
      → is_duplicate ng (node_of ng.id s) ≡ false
  not_found ng s n = elim (Bool-cases (is_duplicate ng (node_of ng.id s))) [
    | inl e ↦ absurd (n (is_duplicate-IsDuplicate ng _ e))
    | inr e ↦ e
  ]

  of_runs : (ngs : List NodeGroup) (s s' : S) → Runs ngs s s' → visit_all node_of delete ngs s ≡ s'
  unfolding visit_all visit
  of_runs _ _ _ (over s) = refl
  of_runs _ _ _ (deleted ng ngs s s' d r) =
      rw (found_duplicate ng _ d) (of_runs ngs (delete ng.id s).1 s' r)
  of_runs _ _ _ (passed ng ngs s s' n r) = rw (not_found ng s n) (of_runs ngs s s' r)

  -- Reconcile asks for the next run in ten minutes and leaves the cloud in a state exactly if a run
  -- over the listed groups in turn leads there, which deletes those, and only those, that are being
  -- provisioned with a node whose status is CREATING_INSTANCE and whose message says ALREADY_EXISTS,
  -- as the cloud answers at the group's turn, whatever the deletions before it have answered.
  pub reconcile-duplicates :
      (ngs : List NodeGroup) (s s' : S)
      → (reconcile node_of delete (ok ngs) s ≡ (ok 600, s')) ↔ Runs ngs s s'
  unfolding reconcile
  reconcile-duplicates ngs s s' = (
    (λ e. subst (λ t. Runs ngs s t) (ap (λ p. p.1) e) (runs_of ngs s)),
    (λ r. ap (λ t. (ok 600, t)) (of_runs ngs s s' r)),
  )
