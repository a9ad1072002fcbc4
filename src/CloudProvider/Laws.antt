-- ===== src/CloudProvider/Laws.antt =====
-- What Karpenter relies on: a claim names its group, and List makes none up.
use karpenter_provider_yande.Prelude.{
  ℕ, String, ◌≡◌, refl, sym, ◌∙◌, subst, Bool, true, false, Option, none, some, List, [], ◌∷◌, ◌==◌,
  if◌then◌else◌, is_some,
}
use karpenter_provider_yande.Prelude.Maps.{lookup, at, assign}
use karpenter_provider_yande.Prelude.Errors.{Error, Result, ok, err}
use karpenter_provider_yande.Prelude.Maps.{lookup-assign}
use karpenter_provider_yande.CloudProvider.Types.{
  Karpenter, Claim, OfferedType, node_group_id_key, capacity_type_label_key,
}
use karpenter_provider_yande.CloudProvider.GroupLabels.{
  node_group_labels, provided, capacity_type_of, group_id_label, capacity_type_label,
}
use karpenter_provider_yande.CloudProvider.Claim.{
  type_labels, claim_of, identified, node_group_to_node_claim,
}
use karpenter_provider_yande.CloudProvider.Resolve.{node_class_from_node_group, group_type}
use karpenter_provider_yande.CloudProvider.Operations.{
  delete, deleted, Surroundings, claim_for, type_of_group, claim_or_skip, claims, list,
}
use karpenter_provider_yande.NodeClass.Types.{NodeClass}
use karpenter_provider_yande.Yandex.Sdk.{list_node_groups}
use karpenter_provider_yande.Yandex.NodeGroup.{NodeGroup, is_terminating}

-- a chain that continues at an error gives something only where each result is there
through :
    {A B : Type 0} (r : Result A) (f : A → Option B) (b : B)
    → elim r [ err e ↦ none | ok a ↦ f a ] ≡ some b
    → (a : A) × (r ≡ ok a) × (f a ≡ some b)
through (err e) f b h = cc
through (ok a) f b h = (a, refl, h)

back :
    {A B : Type 0} (r : Result A) (f : A → Option B) (a : A) (b : B)
    → r ≡ ok a
    → f a ≡ some b
    → elim r [ err e ↦ none | ok a ↦ f a ] ≡ some b
back (err e) f a b h g = cc
back (ok x) f a b h g = let same : a ≡ x = cc in subst (λ y. f y ≡ some b) same g

deletion_of : (now : ℕ) (b : Bool) → is_some (if b then some now else none) ≡ b
deletion_of now true = refl
deletion_of now false = refl

module _ (k : Karpenter) where
  -- what a claim says of its group
  abbrev pub StandsFor : NodeGroup → Claim k → Type 0
  StandsFor ng c =
      (at node_group_id_key c.labels ≡ ng.id)
      × (at capacity_type_label_key c.labels ≡ capacity_type_of ng.preemptible)
      × (is_some c.deletion ≡ is_terminating ng.group_status)
      × ((c.provider_id == "") ≡ false)

  own_label :
      (key v : String) (ng : NodeGroup) (it : Option (OfferedType k))
      → lookup key (provided ng) ≡ some v
      → at key (assign (type_labels k it) (node_group_labels ng)) ≡ v
  unfolding node_group_labels
  own_label key v ng it h = rw (at, lookup-assign, lookup-assign, h) refl

  stands :
      (now : ℕ) (ng : NodeGroup) (it : Option (OfferedType k)) (id : String)
      → (id == "") ≡ false
      → StandsFor ng (claim_of k now ng it id)
  unfolding claim_of
  stands now ng it id h = (
    own_label node_group_id_key ng.id ng it (group_id_label ng),
    own_label capacity_type_label_key (capacity_type_of ng.preemptible) ng it
        (capacity_type_label ng),
    deletion_of now (is_terminating ng.group_status),
    h,
  )

  identified-StandsFor :
      (now : ℕ) (ng : NodeGroup) (it : Option (OfferedType k)) (id : String) (last : Option Error)
      (b : Bool) (c : Claim k)
      → (id == "") ≡ b
      → identified k now ng it (id, last) ≡ ok c
      → StandsFor ng c
  unfolding identified
  identified-StandsFor now ng it id last true c e h = cc
  identified-StandsFor now ng it id last false c e h =
      let same : claim_of k now ng it id ≡ c = cc in
      subst (λ x. StandsFor ng x) same (stands now ng it id e)

  -- The claim that nodeGroupToNodeClaim makes names the group in its label node-group-id, has the
  -- group's capacity type, is marked as being deleted exactly when the group is stopping, stopped
  -- or being deleted, and has a provider id.
  pub node_group_to_node_claim-StandsFor :
      (now : ℕ) (first : Result String) (polls : List (Result String)) (ng : NodeGroup)
      (it : Option (OfferedType k)) (c : Claim k)
      → node_group_to_node_claim k now first polls ng it ≡ ok c
      → StandsFor ng c
  unfolding node_group_to_node_claim
  node_group_to_node_claim-StandsFor now first polls ng it c h =
      identified-StandsFor now ng it _ _ _ c refl h

  -- Deleting the claim that was made of a group with an id is DeleteNodeGroup of that group.
  pub delete-claim :
      {S : Type 0} (delete_node_group : String → S → Option Error × S) (now : ℕ)
      (first : Result String) (polls : List (Result String)) (ng : NodeGroup)
      (it : Option (OfferedType k)) (c : Claim k) (s : S)
      → node_group_to_node_claim k now first polls ng it ≡ ok c
      → (ng.id == "") ≡ false
      → delete delete_node_group c.name c.labels s
        ≡ deleted delete_node_group ng.id (delete_node_group ng.id s)
  unfolding delete
  delete-claim d now first polls ng it c s h e =
      let (id, cap, del, pid) = node_group_to_node_claim-StandsFor now first polls ng it c h in
      rw id (rw e)

  module _ (w : Surroundings k) where
    -- The node class, the instance type and the provider id of a group are found, and the claim is
    -- made of them.
    pub record Resolves (ng : NodeGroup) (c : Claim k) : Type 1 where
      pub class : NodeClass
      pub it : Option (OfferedType k)
      pub class_found : node_class_from_node_group w.kube ng ≡ ok class
      pub type_found : w.instance_type class (group_type w.decimal w.binary ng) ≡ ok it
      pub claim_made : claim_for k w ng it ≡ ok c

    -- The claims of a list of groups: one for each group that is resolved, which stands for it, and
    -- none for a group of which no claim can be made.
    pub data FromGroups : List NodeGroup → List (Claim k) → Type 1 where
      none_left : FromGroups [] []
      shown :
          (ng : NodeGroup) (ngs : List NodeGroup) (c : Claim k) (cs : List (Claim k))
          → Resolves ng c
          → StandsFor ng c
          → FromGroups ngs cs
          → FromGroups (ng ∷ ngs) (c ∷ cs)
      skipped :
          (ng : NodeGroup) (ngs : List NodeGroup) (cs : List (Claim k))
          → ((c : Claim k) → ¬ Resolves ng c)
          → FromGroups ngs cs
          → FromGroups (ng ∷ ngs) cs

    of_claim : (ng : NodeGroup) (c : Claim k) → claim_or_skip k w ng ≡ some c → Resolves ng c
    unfolding claim_or_skip type_of_group
    of_claim ng c h =
        let (nc, p, h1) =
          through (node_class_from_node_group w.kube ng)
            (λ nc. elim (w.instance_type nc (group_type w.decimal w.binary ng)) [
              | err e ↦ none
              | ok it ↦ elim (claim_for k w ng it) [ err e ↦ none | ok c ↦ some c ]
            ])
            c h in
        let (it, q, h2) =
          through (w.instance_type nc (group_type w.decimal w.binary ng))
            (λ it. elim (claim_for k w ng it) [ err e ↦ none | ok c ↦ some c ]) c h1 in
        let (c', r, h3) = through (claim_for k w ng it) some c h2 in
        let same : c' ≡ c = cc in
        record {
          class = nc;
          it = it;
          class_found = p;
          type_found = q;
          claim_made = subst (λ x. claim_for k w ng it ≡ ok x) same r;
        }

    Resolves-StandsFor : (ng : NodeGroup) (c : Claim k) → Resolves ng c → StandsFor ng c
    unfolding claim_for
    Resolves-StandsFor ng c r = node_group_to_node_claim-StandsFor w.now _ _ ng r.it c r.claim_made

    resolved : (ng : NodeGroup) (c : Claim k) → Resolves ng c → claim_or_skip k w ng ≡ some c
    unfolding claim_or_skip type_of_group
    resolved ng c r =
        back (node_class_from_node_group w.kube ng)
          (λ nc. elim (w.instance_type nc (group_type w.decimal w.binary ng)) [
            | err e ↦ none
            | ok it ↦ elim (claim_for k w ng it) [ err e ↦ none | ok c ↦ some c ]
          ])
          r.class c r.class_found
          (back (w.instance_type r.class (group_type w.decimal w.binary ng))
            (λ it. elim (claim_for k w ng it) [ err e ↦ none | ok c ↦ some c ]) r.it c r.type_found
            (back (claim_for k w ng r.it) some c c r.claim_made refl))

    with_claim :
        (ng : NodeGroup) (ngs : List NodeGroup) (rest : List (Claim k)) (o : Option (Claim k))
        → claim_or_skip k w ng ≡ o
        → FromGroups ngs rest
        → FromGroups (ng ∷ ngs) (elim o [ none ↦ rest | some c ↦ c ∷ rest ])
    with_claim ng ngs rest none e h =
        skipped ng ngs rest (λ c r. let both = sym e ∙ resolved ng c r in cc) h
    with_claim ng ngs rest (some c) e h =
        let r = of_claim ng c e in shown ng ngs c rest r (Resolves-StandsFor ng c r) h

    claims-FromGroups : (ngs : List NodeGroup) → FromGroups ngs (claims k w ngs)
    unfolding claims
    claims-FromGroups [] = none_left
    claims-FromGroups (ng ∷ ngs) =
        with_claim ng ngs (claims k w ngs) (claim_or_skip k w ng) refl (claims-FromGroups ngs)

    -- List returns the claims of the groups that ListNodeGroups returned, in their order: one claim,
    -- which stands for the group, for each group whose node class and instance type are found and of
    -- which a claim can be made with that type, and none for any other group.
    pub list-FromGroups :
        (ngs : List NodeGroup) (cs : List (Claim k))
        → list_node_groups w.cluster_id w.api ≡ ok ngs
        → list k w ≡ ok cs
        → FromGroups ngs cs
    unfolding list
    list-FromGroups ngs cs e h =
        let h' = rw e at h in
        let same : claims k w ngs ≡ cs = cc in
        subst (λ l. FromGroups ngs l) same (claims-FromGroups ngs)
