-- ===== src/Yandex/Sdk/Refinement.antt =====
-- CreateFixedNodeGroup as the insertion into a store of names: what runs of creations may do.
use karpenter_provider_yande.Prelude.{
  String, ◌≡◌, refl, sym, ap, ◌∙◌, subst, ◌⊎◌, inl, inr, Bool, true, false, Option, none, some,
  List, [], ◌∷◌, ◌++◌, arith, ◌==◌, eq_iff, if◌then◌else◌, select, find_first,
}
use karpenter_provider_yande.Prelude.Maps.{lookup}
use karpenter_provider_yande.Prelude.Errors.{Result, ok, err}
use karpenter_provider_yande.Yandex.NodeGroup.{NodeGroup}
use karpenter_provider_yande.Yandex.Sdk.{is_managed, list_node_groups}
use karpenter_provider_yande.Yandex.Sdk.Create.{
  CreateArgs, Cloud, create_request, find_by_name, create_unless, create_after,
  create_fixed_node_group,
}
use karpenter_provider_yande.Yandex.Sdk.Laws.{
  CloudLaws, listed, relisted, to_test, managed_by, find-grown, created_ok,
}

-- the abstract store: the node group that a name has, if any
abbrev pub Store : Type 0
Store = String → Option String

abbrev pub bind_name : String → String → Store → Store
bind_name name id store = λ n. if name == n then some id else store n

-- the store after creations, each with the id that it returned
abbrev pub after_all : List (CreateArgs × String) → Store → Store
after_all [] store = store
after_all ((args, id) ∷ rest) store = after_all rest (bind_name args.name id store)

-- a creation binds a new name, or returns the id that the name has
abbrev pub BindsOnce : List (CreateArgs × String) → Store → Type 0
BindsOnce [] store = Unit
BindsOnce ((args, id) ∷ rest) store =
    ((store args.name ≡ none) ⊎ (store args.name ≡ some id))
    × BindsOnce rest (bind_name args.name id store)

-- the store that a listing shows
abbrev pub shown : List NodeGroup → Store
shown ngs =
    λ name. elim (find_first (λ ng. ng.name == name) ngs) [ none ↦ none | some g ↦ some g.id ]

after_all-same :
    (trace : List (CreateArgs × String)) (v w : Store)
    → ((n : String) → v n ≡ w n)
    → (n : String) → after_all trace v n ≡ after_all trace w n
after_all-same [] v w h n = h n
after_all-same ((args, id) ∷ rest) v w h n =
    after_all-same rest (bind_name args.name id v) (bind_name args.name id w)
      (λ k. ap (λ o. if args.name == k then some id else o) (h k)) n

BindsOnce-same :
    (trace : List (CreateArgs × String)) (v w : Store)
    → ((n : String) → v n ≡ w n)
    → BindsOnce trace w
    → BindsOnce trace v
BindsOnce-same [] v w h b = tt
BindsOnce-same ((args, id) ∷ rest) v w h b = (
  elim b.0 [ inl e ↦ inl (h args.name ∙ e) | inr e ↦ inr (h args.name ∙ e) ],
  BindsOnce-same rest (bind_name args.name id v) (bind_name args.name id w)
      (λ k. ap (λ o. if args.name == k then some id else o) (h k)) b.1,
)

-- an element of another name is passed over
find-other :
    (p q : NodeGroup → Bool) (before after : List NodeGroup) (g : NodeGroup)
    → p g ≡ false
    → find_first p (select q (before ++ (g ∷ after))) ≡ find_first p (select q (before ++ after))
find-other p q [] after g h = ground arith
find-other p q (x ∷ before) after g h = ground (arith, find-other p q before after g h)

id_of : Option NodeGroup → Option String
id_of o = elim o [ none ↦ none | some g ↦ some g.id ]

-- a listing that grows by a group of a new name shows that name, and the others as before
grown-shown :
    (q : NodeGroup → Bool) (before after : List NodeGroup) (x : NodeGroup) (name id n : String)
    → q x ≡ true
    → x.name ≡ name
    → x.id ≡ id
    → find_first (λ ng. ng.name == name) (select q (before ++ after)) ≡ none
    → shown (select q (before ++ (x ∷ after))) n
      ≡ bind_name name id (shown (select q (before ++ after))) n
unfolding id_of
grown-shown q before after x name id n managed same_name same_id new = decide (name == n) refl
  where
    decide :
        (b : Bool)
        → (name == n) ≡ b
        → shown (select q (before ++ (x ∷ after))) n
          ≡ (if b then some id else shown (select q (before ++ after)) n)
    decide true e =
        let asked : name ≡ n = (eq_iff name n).0 e in
        ap id_of (
          find-grown (λ ng. ng.name == n) q before after x ((eq_iff x.name n).1 (same_name ∙ asked))
            managed
            (subst (λ k. find_first (λ ng. ng.name == k) (select q (before ++ after)) ≡ none) asked
              new))
        ∙ ap some same_id
    decide false e =
        ap id_of (find-other (λ ng. ng.name == n) q before after x (ap (λ k. k == n) same_name ∙ e))

module _ {S : Type 0} (cloud : Cloud S) (law : CloudLaws cloud) (to_lower : String → String)
    (cluster_id : String) where
  -- a sequence of creations that succeed, with what they return
  pub data Created : List (CreateArgs × String) → S → S → Type 0 where
    no_more : (s : S) → Created [] s s
    create_then :
        (args : CreateArgs) (id : String) (rest : List (CreateArgs × String)) (s s' t : S)
        → lookup "managed-by" args.node_labels ≡ none
        → create_fixed_node_group cloud to_lower cluster_id args s ≡ (ok id, s')
        → Created rest s' t
        → Created ((args, id) ∷ rest) s t

  -- what the listings before and after one creation show
  abbrev Shows : CreateArgs → String → List NodeGroup → S → Type 0
  Shows args id ngs s' =
      (ngs' : List NodeGroup) × (list_node_groups cluster_id (cloud.api s') ≡ ok ngs')
      × ((shown ngs args.name ≡ none) ⊎ (shown ngs args.name ≡ some id))
      × ((n : String) → shown ngs' n ≡ bind_name args.name id (shown ngs) n)

  new_group :
      (args : CreateArgs) (id : String) (s s' : S) (ngs : List NodeGroup)
      → lookup "managed-by" args.node_labels ≡ none
      → list_node_groups cluster_id (cloud.api s) ≡ ok ngs
      → find_first (λ ng. ng.name == args.name) ngs ≡ none
      → cloud.create (create_request to_lower cluster_id args) s ≡ (ok (some id), s')
      → Shows args id ngs s'
  unfolding create_request
  new_group args id s s' ngs m l none_yet h =
      let (c, all, e, f, g) = listed cluster_id (cloud.api s) ngs l in
      let (before, after, x, q, r, i, name, cluster, labels) =
        law.created_listed (create_request to_lower cluster_id args) id s s' h c all e f in
      let managed = to_test cluster_id x cluster (labels ∙ managed_by to_lower args m) in
      let was : ngs ≡ select (is_managed cluster_id) (before ++ after) =
        g ∙ ap (select (is_managed cluster_id)) q in
      (
        select (is_managed cluster_id) (before ++ (x ∷ after)),
        relisted cluster_id (cloud.api s') c (before ++ (x ∷ after))
            (law.same_cluster (create_request to_lower cluster_id args) id s s' h cluster_id ∙ e) r,
        inl (ap (λ o. elim o [ none ↦ none | some d ↦ some d.id ]) none_yet),
        λ n.
            grown-shown (is_managed cluster_id) before after x args.name id n managed name i
              (subst (λ o. find_first (λ ng. ng.name == args.name) o ≡ none) was none_yet)
            ∙ ap (λ o. bind_name args.name id (shown o) n) (sym was),
      )

  old_group :
      (args : CreateArgs) (id : String) (s : S) (ngs : List NodeGroup) (g : NodeGroup)
      → list_node_groups cluster_id (cloud.api s) ≡ ok ngs
      → find_first (λ ng. ng.name == args.name) ngs ≡ some g
      → g.id ≡ id
      → Shows args id ngs s
  unfolding id_of
  old_group args id s ngs g l f e =
      (ngs, l, inr (ap id_of f ∙ ap some e), λ n. decide n (args.name == n) refl)
    where
      decide :
          (n : String) (b : Bool)
          → (args.name == n) ≡ b
          → shown ngs n ≡ (if b then some id else shown ngs n)
      decide n true c =
          ap (λ k. shown ngs k) (sym ((eq_iff args.name n).0 c)) ∙ ap id_of f ∙ ap some e
      decide n false c = refl

  pub one_creation :
      (args : CreateArgs) (id : String) (s s' : S) (ngs : List NodeGroup)
      (r : Result (List NodeGroup))
      → lookup "managed-by" args.node_labels ≡ none
      → list_node_groups cluster_id (cloud.api s) ≡ ok ngs
      → list_node_groups cluster_id (cloud.api s) ≡ r
      → create_after cloud to_lower cluster_id args r s ≡ (ok id, s')
      → Shows args id ngs s'
  unfolding create_after create_unless find_by_name
  one_creation args id s s' ngs (err e) m l k h = cc
  one_creation args id s s' ngs (ok ms) m l k h =
      let same : ms ≡ ngs = cc in
      decide (find_first (λ ng. ng.name == args.name) ngs) refl (
        subst
          (λ o.
            create_unless cloud to_lower cluster_id args (find_first (λ ng. ng.name == args.name) o)
              s
            ≡ (ok id, s'))
          same h)
    where
      decide :
          (o : Option NodeGroup)
          → find_first (λ ng. ng.name == args.name) ngs ≡ o
          → create_unless cloud to_lower cluster_id args o s ≡ (ok id, s')
          → Shows args id ngs s'
      decide (some g) f h =
          let result : ◌≡◌ {A = Result String} (ok g.id) (ok id) = ap (λ p. p.0) h in
          subst (λ x. Shows args id ngs x) (ap (λ p. p.1) h) (old_group args id s ngs g l f cc)
      decide none f h =
          let made =
            created_ok cloud law to_lower cluster_id
              (cloud.create (create_request to_lower cluster_id args) s).0 id (ap (λ p. p.0) h) in
          new_group args id s s' ngs m l f cc

  -- A run of creations that all succeed, none of whose node labels set managed-by, is a run of a
  -- store that binds each name once: a creation either binds a name that is free or returns the id that
  -- the name has, and at the end the listing shows the store after all the bindings, with the other
  -- names as before. The cloud is taken to list a group that it has created.
  pub create_fixed_node_group-refines :
      (trace : List (CreateArgs × String)) (s t : S) (ngs : List NodeGroup)
      → list_node_groups cluster_id (cloud.api s) ≡ ok ngs
      → Created trace s t
      → (ngs' : List NodeGroup) × (list_node_groups cluster_id (cloud.api t) ≡ ok ngs')
        × BindsOnce trace (shown ngs)
        × ((name : String) → shown ngs' name ≡ after_all trace (shown ngs) name)
  unfolding create_fixed_node_group
  create_fixed_node_group-refines _ s _ ngs l (no_more _) = (ngs, l, tt, λ n. refl)
  create_fixed_node_group-refines _ s t ngs l (create_then args id rest _ s' _ m h r) =
      let (ngs', k, once, shows) = one_creation args id s s' ngs _ m l refl h in
      let (last, j, more, ends) = create_fixed_node_group-refines rest s' t ngs' k r in
      (
        last,
        j,
        (
          once,
          BindsOnce-same rest (bind_name args.name id (shown ngs)) (shown ngs') (λ n. sym (shows n))
              more,
        ),
        λ n. ends n ∙ after_all-same rest (shown ngs') (bind_name args.name id (shown ngs)) shows n,
      )
