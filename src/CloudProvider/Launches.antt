-- ===== src/CloudProvider/Launches.antt =====
-- A launch: a ready node class, and a spot offering where there is one.
use mathlib.Core.List.{Memᴰ}
use karpenter_provider_yande.Prelude.{
  ℕ, zero, suc, String, ◌≡◌, refl, sym, ◌∙◌, subst, inl, inr, Bool, true, false, Option, none, some,
  List, [], ◌∷◌, arith, if◌then◌else◌, eqb_iff, Bool-cases, is_empty, select, any,
}
use karpenter_provider_yande.Prelude.Errors.{Result, ok, err, ◌>>=◌}
use karpenter_provider_yande.NodeClass.Types.{
  NodeClass, Condition, ConditionStatus, is_true, is_false, is_unknown,
}
use karpenter_provider_yande.CloudProvider.Types.{
  Karpenter, Claim, Offer, CloudError, Answer, answer, refuse,
}
use karpenter_provider_yande.CloudProvider.Resolve.{
  node_class_from_node_claim, unless_deleting, terminating_error,
}
use karpenter_provider_yande.CloudProvider.Cheapest.{mem-of-select}
use karpenter_provider_yande.CloudProvider.Create.{
  Ended, panicked, returned, not_ready, is_spot, pick, pick_offering, nth, Launch, class_error,
  launch_if_ready, create,
}

module _ (k : Karpenter) {S : Type 0} (w : Launch k S) where
  -- the node class of a launch: it is there, it is not being deleted, and its Ready condition is
  -- true and of its present generation
  abbrev pub ReadyClass : String → Type 0
  ReadyClass ref =
      (nc : NodeClass) × (w.kube.node_class ref ≡ ok nc)
      × (nc.deleting ≡ false)
      × ((c : Condition) × (w.ready_condition nc ≡ some c)
          × (c.state ≡ is_true)
          × (c.observed_generation ≡ nc.generation))

  pub of_class :
      (claim : Claim k) (s s' : S) (c : Claim k) (r : Result NodeClass)
      → ◌≡◌ {A = Ended (Answer (Claim k)) × S}
          (elim r [
            | err e ↦ (returned (refuse (class_error k w e)), s)
            | ok nc ↦ launch_if_ready k w claim nc (not_ready nc (w.ready_condition nc)) s
          ])
          (returned (answer c), s')
      → (nc : NodeClass) × (r ≡ ok nc)
        × (launch_if_ready k w claim nc (not_ready nc (w.ready_condition nc)) s
            ≡ (returned (answer c), s'))
  of_class claim s s' c (err e) h = cc
  of_class claim s s' c (ok nc) h = (nc, refl, h)

  pub of_ready :
      (claim : Claim k) (nc : NodeClass) (o : Ended (Option CloudError)) (s s' : S) (c : Claim k)
      → launch_if_ready k w claim nc o s ≡ (returned (answer c), s')
      → o ≡ returned none
  unfolding launch_if_ready
  of_ready claim nc panicked s s' c h = cc
  of_ready claim nc (returned (some e)) s s' c h = cc
  of_ready claim nc (returned none) s s' c h = refl

  of_condition_state :
      (nc : NodeClass) (c : Condition) (t : ConditionStatus)
      → c.state ≡ t
      → not_ready nc (some c) ≡ returned none
      → (c.state ≡ is_true) × (c.observed_generation ≡ nc.generation)
  unfolding not_ready
  of_condition_state nc c is_true e h =
      (e, ground (arith, rw e at h, eqb_iff c.observed_generation nc.generation))
  of_condition_state nc c is_false e h = let h' = rw e at h in cc
  of_condition_state nc c is_unknown e h = let h' = rw e at h in cc

  of_condition :
      (nc : NodeClass) (o : Option Condition)
      → not_ready nc o ≡ returned none
      → (c : Condition) × (o ≡ some c)
        × (c.state ≡ is_true)
        × (c.observed_generation ≡ nc.generation)
  unfolding not_ready
  of_condition nc none h = cc
  of_condition nc (some c) h =
      let (t, g) = of_condition_state nc c c.state refl h in (c, refl, t, g)

  of_deleting :
      (nc n : NodeClass) (b : Bool)
      → n.deleting ≡ b
      → (if b then err (terminating_error n.name) else ok n) ≡ ok nc
      → (ok n ≡ ok nc) × (nc.deleting ≡ false)
  of_deleting nc n true e h = cc
  of_deleting nc n false e h = let same : n ≡ nc = cc in (h, subst (λ x. x.deleting ≡ false) same e)

  of_kube :
      (nc : NodeClass) (r : Result NodeClass)
      → (r >>= unless_deleting) ≡ ok nc
      → (r ≡ ok nc) × (nc.deleting ≡ false)
  unfolding unless_deleting
  of_kube nc (err e) h = cc
  of_kube nc (ok n) h = of_deleting nc n n.deleting refl h

  -- Create returns a claim only for a node class that exists, is not being deleted, and is ready by
  -- a condition of its present generation.
  pub create-ReadyClass :
      (claim : Claim k) (s s' : S) (c : Claim k)
      → create k w claim s ≡ (returned (answer c), s')
      → ReadyClass claim.node_class_ref
  unfolding create node_class_from_node_claim
  create-ReadyClass claim s s' c h =
      let (nc, e, h1) =
        of_class claim s s' c (node_class_from_node_claim w.kube claim.node_class_ref) h in
      let (there, alive) = of_kube nc (w.kube.node_class claim.node_class_ref) e in
      (nc, there, alive, of_condition nc (w.ready_condition nc) (of_ready claim nc _ s s' c h1))

nth-mem : {A : Type 0} (n : ℕ) (xs : List A) (a : A) → nth n xs ≡ some a → Memᴰ a xs
unfolding nth
nth-mem n [] a h = cc
nth-mem zero (x ∷ xs) a h = Memᴰ.head cc
nth-mem (suc n) (x ∷ xs) a h = Memᴰ.tail (nth-mem n xs a h)

pick-mem :
    (k : Karpenter) (rand : ℕ → ℕ) (os : List (Offer k)) (o : Offer k)
    → pick k rand os ≡ some o
    → Memᴰ o os
unfolding pick
pick-mem k rand [] o h = cc
pick-mem k rand (x ∷ os) o h = nth-mem _ (x ∷ os) o h

module _ {A : Type 0} (p : A → Bool) where
  any-mem : (a : A) (xs : List A) → Memᴰ a xs → p a ≡ true → any p xs ≡ true
  any-mem a [] m h = elim m [ ]
  any-mem a (x ∷ xs) (Memᴰ.head e) h = let here = subst (λ y. p y ≡ true) e h in ground arith
  any-mem a (x ∷ xs) (Memᴰ.tail m) h = ground (arith, any-mem a xs m h)

  any-empty : (xs : List A) → is_empty (select p xs) ≡ true → any p xs ≡ false
  any-empty [] h = refl
  any-empty (x ∷ xs) h = ground (arith, any-empty xs)

module _ (k : Karpenter) where
  -- The offering that Create picks is among the available ones, and is spot if any of them is.
  pub pick_offering-spot :
      (rand : ℕ → ℕ) (available : List (Offer k)) (o : Offer k)
      → pick_offering k rand available ≡ some o
      → Memᴰ o available × (is_spot k o ≡ any (is_spot k) available)
  unfolding pick_offering
  pick_offering-spot rand available o h =
      elim (Bool-cases (is_empty (select (is_spot k) available))) [
        | inl e ↦
            let m = pick-mem k rand available o (rw e at h) in
            let no = any-empty (is_spot k) available e in
            (m, ground (arith, any-mem (is_spot k) o available m, no))
        | inr e ↦
            let (m, q) = mem-of-select (is_spot k) o available (pick-mem k rand _ o (rw e at h)) in
            (m, q ∙ sym (any-mem (is_spot k) o available m q))
      ]
