-- ===== src/Yandex/Sdk/Laws.antt =====
-- Duplicates: one name has one node group, and a group is deleted once.
use karpenter_provider_yande.Prelude.{
  String, ◌≡◌, refl, ap, ◌∙◌, subst, Bool, true, false, Option, none, some, List, [], ◌∷◌, ◌++◌,
  arith, ◌==◌, eq_iff, eq_refl, if◌then◌else◌, contains, is_empty, select, find_first, All,
  All-select, All-map,
}
use karpenter_provider_yande.Prelude.Maps.{Labels, lookup, insert, at, lookup-insert}
use karpenter_provider_yande.Prelude.Errors.{Result, ok, err, ◌>>=◌}
use karpenter_provider_yande.Yandex.NodeGroup.{NodeGroup}
use karpenter_provider_yande.Yandex.Sdk.{Api, Cluster, is_managed, list_node_groups}
use karpenter_provider_yande.Yandex.Sdk.Create.{
  CreateArgs, CreateRequest, Cloud, create_labels, create_request, add_lowered, find_by_name,
  created, create_unless, create_after, create_fixed_node_group, delete_unless, delete_after,
  delete_node_group,
}

-- What the API documents of its two changes: a group that was created is listed with the name, the
-- labels and the cluster of the request among the older groups of the cluster's folder, and a deletion that was accepted
-- is listed as an operation of the group.
pub record CloudLaws {S : Type 0} (cloud : Cloud S) : Type 0 where
  pub same_cluster :
      (req : CreateRequest) (id : String) (s s' : S)
      → cloud.create req s ≡ (ok (some id), s')
      → (c : String) → (cloud.api s').cluster c ≡ (cloud.api s).cluster c
  pub created_listed :
      (req : CreateRequest) (id : String) (s s' : S)
      → cloud.create req s ≡ (ok (some id), s')
      → (c : Cluster) (old : List NodeGroup) → (cloud.api s).cluster req.cluster_id ≡ ok c
      → (cloud.api s).node_groups c.folder_id ≡ ok old
      → (before : List NodeGroup) × (after : List NodeGroup) × (g : NodeGroup) × (old
          ≡ before ++ after)
        × ((cloud.api s').node_groups c.folder_id ≡ ok (before ++ (g ∷ after)))
        × (g.id ≡ id)
        × (g.name ≡ req.name)
        × (g.cluster_id ≡ req.cluster_id)
        × (at "managed-by" g.labels ≡ at "managed-by" req.labels)
  pub deleted_listed :
      (id : String) (s s' : S)
      → cloud.delete id s ≡ (none, s')
      → (operations : List String) × ((cloud.api s').operations id ≡ ok operations)
        × (is_empty (select (λ url. contains url "DeleteNodeGroup") operations) ≡ false)

module _ (cluster_id : String) where
  of_test :
      (g : NodeGroup)
      → is_managed cluster_id g ≡ true
      → (g.cluster_id ≡ cluster_id) × (at "managed-by" g.labels ≡ "karpenter")
  unfolding is_managed
  of_test g h =
      ground (arith, eq_iff g.cluster_id cluster_id, eq_iff (at "managed-by" g.labels) "karpenter")

  pub to_test :
      (g : NodeGroup)
      → g.cluster_id ≡ cluster_id
      → at "managed-by" g.labels ≡ "karpenter"
      → is_managed cluster_id g ≡ true
  unfolding is_managed
  to_test g h k =
      ground (arith, eq_iff g.cluster_id cluster_id, eq_iff (at "managed-by" g.labels) "karpenter")

  -- what a listing that succeeds has read
  of_groups :
      (folder_of : Cluster) (r : Result (List NodeGroup)) (ngs : List NodeGroup)
      → (r >>= λ all. ok (select (is_managed cluster_id) all)) ≡ ok ngs
      → (all : List NodeGroup) × (r ≡ ok all) × (ngs ≡ select (is_managed cluster_id) all)
  of_groups c (err e) ngs h = cc
  of_groups c (ok all) ngs h = (all, refl, cc)

  listed_of :
      (api : Api) (r : Result Cluster) (ngs : List NodeGroup)
      → (r >>= λ c. api.node_groups c.folder_id >>= λ all. ok (select (is_managed cluster_id) all))
        ≡ ok ngs
      → (c : Cluster) × (all : List NodeGroup) × (r ≡ ok c)
        × (api.node_groups c.folder_id ≡ ok all)
        × (ngs ≡ select (is_managed cluster_id) all)
  listed_of api (err e) ngs h = cc
  listed_of api (ok c) ngs h =
      let (all, e, f) = of_groups c (api.node_groups c.folder_id) ngs h in (c, all, refl, e, f)

  pub listed :
      (api : Api) (ngs : List NodeGroup)
      → list_node_groups cluster_id api ≡ ok ngs
      → (c : Cluster) × (all : List NodeGroup) × (api.cluster cluster_id ≡ ok c)
        × (api.node_groups c.folder_id ≡ ok all)
        × (ngs ≡ select (is_managed cluster_id) all)
  unfolding list_node_groups
  listed api ngs h = listed_of api (api.cluster cluster_id) ngs h

  pub relisted :
      (api : Api) (c : Cluster) (all : List NodeGroup)
      → api.cluster cluster_id ≡ ok c
      → api.node_groups c.folder_id ≡ ok all
      → list_node_groups cluster_id api ≡ ok (select (is_managed cluster_id) all)
  unfolding list_node_groups
  relisted api c all h k = simp (h, k)

  -- ListNodeGroups returns only node groups of this cluster whose label managed-by is karpenter.
  pub list_node_groups-managed :
      (api : Api) (ngs : List NodeGroup)
      → list_node_groups cluster_id api ≡ ok ngs
      → All (λ g. (g.cluster_id ≡ cluster_id) × (at "managed-by" g.labels ≡ "karpenter")) ngs
  list_node_groups-managed api ngs h =
      let (c, all, e, f, g) = listed api ngs h in
      rw g (
        All-map (select (is_managed cluster_id) all) of_test
          (All-select (is_managed cluster_id) all))

-- a list that grows by one element that passes both tests has it as the first that passes both
pub find-grown :
    (p q : NodeGroup → Bool) (before after : List NodeGroup) (g : NodeGroup)
    → p g ≡ true
    → q g ≡ true
    → find_first p (select q (before ++ after)) ≡ none
    → find_first p (select q (before ++ (g ∷ after))) ≡ some g
find-grown p q [] after g h k n = ground arith
find-grown p q (x ∷ before) after g h k n = ground (arith, find-grown p q before after g h k)

lookup-lowered :
    (to_lower : String → String) (rest labels : Labels) (k : String)
    → lookup k rest ≡ none
    → lookup k (add_lowered to_lower rest labels) ≡ lookup k labels
unfolding lookup add_lowered
lookup-lowered to_lower [] labels k h = refl
lookup-lowered to_lower ((j, v) ∷ rest) labels k h = ground (
  arith,
  lookup-lowered to_lower rest (insert j (to_lower v) labels) k,
  lookup-insert j k (to_lower v) labels,
)

pub managed_by :
    (to_lower : String → String) (args : CreateArgs)
    → lookup "managed-by" args.node_labels ≡ none
    → at "managed-by" (create_labels to_lower args) ≡ "karpenter"
unfolding create_labels
managed_by to_lower args h =
    rw
      (
        at,
        lookup-lowered to_lower args.node_labels (insert "managed-by" "karpenter" args.labels)
            "managed-by" h,
      )
      (rw (lookup-insert "managed-by" "managed-by" "karpenter" args.labels) refl)

module _ {S : Type 0} (cloud : Cloud S) (law : CloudLaws cloud) (to_lower : String → String)
    (cluster_id : String) where
  -- the request's group is found once it is listed
  found_after :
      (args : CreateArgs) (id : String) (s s' : S) (ngs : List NodeGroup)
      → lookup "managed-by" args.node_labels ≡ none
      → list_node_groups cluster_id (cloud.api s) ≡ ok ngs
      → find_by_name args.name ngs ≡ none
      → cloud.create (create_request to_lower cluster_id args) s ≡ (ok (some id), s')
      → (ngs' : List NodeGroup) × (g : NodeGroup) × (list_node_groups cluster_id (cloud.api s')
          ≡ ok ngs')
        × (find_by_name args.name ngs' ≡ some g)
        × (g.id ≡ id)
  unfolding find_by_name create_request
  found_after args id s s' ngs m l n h =
      let (c, all, e, f, g) = listed cluster_id (cloud.api s) ngs l in
      let (before, after, x, q, r, i, name, cluster, labels) =
        law.created_listed (create_request to_lower cluster_id args) id s s' h c all e f in
      (
        select (is_managed cluster_id) (before ++ (x ∷ after)),
        x,
        relisted cluster_id (cloud.api s') c (before ++ (x ∷ after))
            (law.same_cluster (create_request to_lower cluster_id args) id s s' h cluster_id ∙ e) r,
        find-grown (λ ng. ng.name == args.name) (is_managed cluster_id) before after x
            (ap (λ t. t == args.name) name ∙ eq_refl args.name)
            (to_test cluster_id x cluster (labels ∙ managed_by to_lower args m))
            (subst
              (λ l.
                find_first (λ ng. ng.name == args.name) (select (is_managed cluster_id) l) ≡ none)
              q (subst (λ l. find_first (λ ng. ng.name == args.name) l ≡ none) g n)),
        i,
      )

  existing :
      (args : CreateArgs) (id : String) (s : S) (ngs : List NodeGroup) (g : NodeGroup)
      → list_node_groups cluster_id (cloud.api s) ≡ ok ngs
      → find_by_name args.name ngs ≡ some g
      → g.id ≡ id
      → create_fixed_node_group cloud to_lower cluster_id args s ≡ (ok id, s)
  unfolding create_fixed_node_group create_after create_unless
  existing args id s ngs g l f e = simp (l, f, e)

  pub created_ok :
      (r : Result (Option String)) (id : String)
      → created cloud to_lower cluster_id r ≡ ok id
      → r ≡ ok (some id)
  unfolding created
  created_ok (err e) id h = cc
  created_ok (ok none) id h = cc
  created_ok (ok (some i)) id h = cc

  again_of_group :
      (args : CreateArgs) (id : String) (s s' : S) (ngs : List NodeGroup) (o : Option NodeGroup)
      → lookup "managed-by" args.node_labels ≡ none
      → list_node_groups cluster_id (cloud.api s) ≡ ok ngs
      → find_by_name args.name ngs ≡ o
      → create_unless cloud to_lower cluster_id args o s ≡ (ok id, s')
      → create_fixed_node_group cloud to_lower cluster_id args s' ≡ (ok id, s')
  unfolding create_unless
  again_of_group args id s s' ngs (some g) m l f h =
      subst (λ t. create_fixed_node_group cloud to_lower cluster_id args t ≡ (ok id, t))
        (ap (λ p. p.1) h) (existing args id s ngs g l f cc)
  again_of_group args id s s' ngs none m l f h =
      let made =
        created_ok (cloud.create (create_request to_lower cluster_id args) s).0 id
          (ap (λ p. p.0) h) in
      let (ngs', g, k, n, i) = found_after args id s s' ngs m l f cc in
      existing args id s' ngs' g k n i

  again_of_list :
      (args : CreateArgs) (id : String) (s s' : S) (r : Result (List NodeGroup))
      → lookup "managed-by" args.node_labels ≡ none
      → list_node_groups cluster_id (cloud.api s) ≡ r
      → create_after cloud to_lower cluster_id args r s ≡ (ok id, s')
      → create_fixed_node_group cloud to_lower cluster_id args s' ≡ (ok id, s')
  unfolding create_after
  again_of_list args id s s' (err e) m l h = cc
  again_of_list args id s s' (ok ngs) m l h =
      again_of_group args id s s' ngs (find_by_name args.name ngs) m l refl h

  -- Once CreateFixedNodeGroup has returned an id, a second call with the same arguments returns the
  -- same id and leaves the cloud as it is, where the node labels do not set managed-by themselves.
  -- The cloud is taken to list a group that it has created.
  pub create_fixed_node_group-again :
      (args : CreateArgs) (id : String) (s s' : S)
      → lookup "managed-by" args.node_labels ≡ none
      → create_fixed_node_group cloud to_lower cluster_id args s ≡ (ok id, s')
      → create_fixed_node_group cloud to_lower cluster_id args s' ≡ (ok id, s')
  unfolding create_fixed_node_group
  create_fixed_node_group-again args id s s' m h =
      again_of_list args id s s' (list_node_groups cluster_id (cloud.api s)) m refl h

  listed_deletion :
      (id : String) (s : S) (operations : List String)
      → (cloud.api s).operations id ≡ ok operations
      → is_empty (select (λ url. contains url "DeleteNodeGroup") operations) ≡ false
      → delete_node_group cloud to_lower cluster_id id s ≡ (none, s)
  unfolding delete_node_group delete_after delete_unless
  listed_deletion id s operations h k = simp (h, k)

  delete_again_if :
      (id : String) (s s' : S) (operations : List String) (b : Bool)
      → (cloud.api s).operations id ≡ ok operations
      → is_empty (select (λ url. contains url "DeleteNodeGroup") operations) ≡ b
      → (if b then cloud.delete id s else (none, s)) ≡ (none, s')
      → delete_node_group cloud to_lower cluster_id id s' ≡ (none, s')
  delete_again_if id s s' operations true l e h =
      let (later, k, n) = law.deleted_listed id s s' h in listed_deletion id s' later k n
  delete_again_if id s s' operations false l e h =
      subst (λ t. delete_node_group cloud to_lower cluster_id id t ≡ (none, t)) (ap (λ p. p.1) h)
        (listed_deletion id s operations l e)

  delete_again_of :
      (id : String) (s s' : S) (r : Result (List String))
      → (cloud.api s).operations id ≡ r
      → delete_after cloud to_lower cluster_id id r s ≡ (none, s')
      → delete_node_group cloud to_lower cluster_id id s' ≡ (none, s')
  unfolding delete_after delete_unless
  delete_again_of id s s' (err e) l h = cc
  delete_again_of id s s' (ok operations) l h =
      delete_again_if id s s' operations
        (is_empty (select (λ url. contains url "DeleteNodeGroup") operations)) l refl h

  -- Once DeleteNodeGroup has succeeded, a second call for the group succeeds without another
  -- deletion: it leaves the cloud as it is. The cloud is taken to list a deletion that it has accepted
  -- among the operations of the group.
  pub delete_node_group-again :
      (id : String) (s s' : S)
      → delete_node_group cloud to_lower cluster_id id s ≡ (none, s')
      → delete_node_group cloud to_lower cluster_id id s' ≡ (none, s')
  unfolding delete_node_group
  delete_node_group-again id s s' h = delete_again_of id s s' ((cloud.api s).operations id) refl h
