-- ===== src/CloudProvider/Listed.antt =====
-- Create over the cached client, as the operator joins them: the node group behind the claim that it
-- answers.
use karpenter_provider_yande.Prelude.{
  String, ◌≡◌, refl, sym, ap, ◌∙◌, none, some, List, eq_refl, if◌then◌else◌,
}
use karpenter_provider_yande.Prelude.Maps.{Labels, at, lookup}
use karpenter_provider_yande.Prelude.Errors.{Result, ok, err}
use karpenter_provider_yande.NodeClass.Types.{NodeClass}
use karpenter_provider_yande.CloudProvider.Types.{Karpenter, Claim, answer, node_group_id_key}
use karpenter_provider_yande.CloudProvider.Resolve.{node_class_from_node_claim}
use karpenter_provider_yande.CloudProvider.Operations.{Surroundings, claim_for}
use karpenter_provider_yande.CloudProvider.Create.{returned, Launch, create}
use karpenter_provider_yande.CloudProvider.Requested.{create-Requested}
use karpenter_provider_yande.Yandex.NodeGroup.{NodeGroup}
use karpenter_provider_yande.Yandex.Sdk.{list_node_groups, get_node_group}
use karpenter_provider_yande.Yandex.Sdk.Create.{
  CreateArgs, Cloud, create_after, create_fixed_node_group, delete_node_group,
}
use karpenter_provider_yande.Yandex.CachedSdk
use karpenter_provider_yande.Yandex.CachedSdk.{CachedValue, created_tuple, Changes, create_key}
use karpenter_provider_yande.Prelude.Cache.{CacheOf}
use karpenter_provider_yande.CloudProvider.Laws.{StandsFor, node_group_to_node_claim-StandsFor}
use karpenter_provider_yande.Yandex.Sdk.Laws.{CloudLaws}
use karpenter_provider_yande.Yandex.Sdk.Refinement.{shown, one_creation}

creation-shown :
    {S : Type 0} (cloud : Cloud S) (law : CloudLaws cloud) (to_lower : String → String)
    (cluster_id : String) (args : CreateArgs) (id : String) (s s' : S)
    → lookup "managed-by" args.node_labels ≡ none
    → (r : Result (List NodeGroup)) → list_node_groups cluster_id (cloud.api s) ≡ r
    → create_after cloud to_lower cluster_id args r s ≡ (ok id, s')
    → (ngs : List NodeGroup) × (list_node_groups cluster_id (cloud.api s') ≡ ok ngs)
      × (shown ngs args.name ≡ some id)
unfolding create_after
creation-shown cloud law to_lower cluster_id args id s s' m (err e) l h = cc
creation-shown cloud law to_lower cluster_id args id s s' m (ok ngs) l h =
    let (ngs', k, once, shows) =
      one_creation cloud law to_lower cluster_id args id s s' ngs (ok ngs) m l l h in
    (
      ngs',
      k,
      shows args.name ∙ ap (λ b. if b then some id else shown ngs args.name) (eq_refl args.name),
    )

-- The cached client and the cloud behind it, as the operator gives them to the cloud provider: the
-- cache stands before CreateFixedNodeGroup, and the group and its provider id are read from the
-- cloud. `others` are the remaining parts of Create's surroundings, `around` those of the reading.
module _ (k : Karpenter) {S : Type 0} (cloud : Cloud S) (to_lower : String → String)
    (cluster_id : String) (md5_hex : String → String) (cache : CacheOf CachedValue) where
  open cache use {Cache, get}

  abbrev pub sdk_changes : Changes S
  sdk_changes = record {
    create = create_fixed_node_group cloud to_lower cluster_id;
    delete = delete_node_group cloud to_lower cluster_id;
  }

  abbrev pub operated : Launch k (Cache × S) → Surroundings k → Launch k (Cache × S)
  operated others around = record others {
    create = CachedSdk.create_fixed_node_group md5_hex cache sdk_changes;
    get_node_group = λ id (c, s). get_node_group cluster_id (cloud.api s) id;
    claim_for = λ (c, s) ng it.
        claim_for k (record around { cluster_id = cluster_id; api = cloud.api s }) ng it;
  }

  -- a name that is not in the cache is created by the cloud
  uncached :
      (args : CreateArgs) (c : Cache) (s : S) (id : String) (t : Cache × S)
      → get (create_key md5_hex args.name) c ≡ none
      → CachedSdk.create_fixed_node_group md5_hex cache sdk_changes args (c, s) ≡ some (ok id, t)
      → create_fixed_node_group cloud to_lower cluster_id args s ≡ (ok id, t.1)
  unfolding CachedSdk.create_fixed_node_group CachedSdk.create_cached
  uncached args c s id t miss h =
      let h' = rw miss at h in
      let made = create_fixed_node_group cloud to_lower cluster_id args s in
      let same : ◌≡◌ {A = Result String × (Cache × S)}
          (made.0, (cache.set (create_key md5_hex args.name) (created_tuple made.0) c, made.1))
          (ok id, t) =
        cc in
      ap (λ p. (p.0, p.1.1)) same

  -- When Create, over the cached client, answers a claim for a name that is not in the cache, the
  -- cloud then lists a managed node group under that name, and the answer is the claim that
  -- stands for it: its label node-group-id is the id of that group. The node labels of the class do
  -- not set managed-by, and the cloud is taken to list a group that it has created and to
  -- answer the question for an id with the group of that id.
  pub create-shown :
      (law : CloudLaws cloud) (others : Launch k (Cache × S)) (around : Surroundings k)
      → ((s : S) (id : String) (ng : NodeGroup)
          → get_node_group cluster_id (cloud.api s) id ≡ ok ng
          → ng.id ≡ id)
      → (claim : Claim k) (c c' : Cache) (s s' : S) (answered : Claim k)
      → get (create_key md5_hex claim.name) c ≡ none
      → ((nc : NodeClass) (own : Labels)
          → node_class_from_node_claim others.kube claim.node_class_ref ≡ ok nc
          → nc.spec.node_labels ≡ some own
          → lookup "managed-by" own ≡ none)
      → create k (operated others around) claim (c, s) ≡ (returned (answer answered), (c', s'))
      → (ngs : List NodeGroup) × (ng : NodeGroup) × (list_node_groups cluster_id (cloud.api s')
          ≡ ok ngs)
        × (shown ngs claim.name ≡ some (at node_group_id_key answered.labels))
        × (get_node_group cluster_id (cloud.api s') (at node_group_id_key answered.labels) ≡ ok ng)
        × StandsFor k ng answered
  unfolding create_fixed_node_group claim_for
  create-shown law others around named claim c c' s s' answered miss plain_labels h =
      let (nc, e, sent) =
        create-Requested k (operated others around) claim (c, s) (c', s') answered h in
      let (args, id, it, ng, own, name, has_own, same, made, got, claimed) = sent in
      let fresh = ap (λ n. get (create_key md5_hex n) c) name ∙ miss in
      let (ngs, listing, now_shown) =
        creation-shown cloud law to_lower cluster_id args id s s'
          (same ∙ plain_labels nc own e has_own) (list_node_groups cluster_id (cloud.api s)) refl
          (uncached args c s id (c', s') fresh made) in
      let stands =
        node_group_to_node_claim-StandsFor k around.now _ _ ng (some it) answered claimed in
      let label : at node_group_id_key answered.labels ≡ id = stands.0 ∙ named s' id ng got in
      (
        ngs,
        ng,
        listing,
        ap (shown ngs) (sym name) ∙ now_shown ∙ ap some (sym label),
        ap (λ x. get_node_group cluster_id (cloud.api s') x) label ∙ got,
        stands,
      )
