-- ===== src/Tests/SdkRuns.antt =====
-- A cloud with one folder, whose state is its node groups and the ids whose deletion it has taken.
use karpenter_provider_yande.Prelude.{
  String, ◌≡◌, refl, sym, ap, ◌∙◌, Bool, true, false, ◌||◌, Option, none, some, List, [], ◌∷◌, ◌==◌,
  eq_refl, any, All,
}
use karpenter_provider_yande.Prelude.Maps.{Map, lookup, insert, at}
use karpenter_provider_yande.Prelude.Errors.{Error, Result, ok, err, message}
use karpenter_provider_yande.Prelude.Int.{pos}
use karpenter_provider_yande.Yandex.NodeGroup.{NodeGroup, provisioning}
use karpenter_provider_yande.Yandex.Sdk.{Api, is_managed, list_node_groups}
use karpenter_provider_yande.Yandex.Sdk.Create.{
  CreateArgs, CreateRequest, Cloud, create_request, create_labels, add_lowered, create_after,
  create_unless, created, find_by_name, delete_after, delete_unless, create_fixed_node_group,
  delete_node_group,
}
use karpenter_provider_yande.Yandex.Sdk.Laws.{
  CloudLaws, list_node_groups-managed, create_fixed_node_group-again, delete_node_group-again,
}
use karpenter_provider_yande.Yandex.CachedSdk.{CachedValue, created_tuple, Changes}
use karpenter_provider_yande.Yandex.CachedSdk
use karpenter_provider_yande.Yandex.CachedSdk.Laws.{
  create, delete, WellTyped, run, run-WellTyped, create_fixed_node_group-cached,
}
use karpenter_provider_yande.Yandex.Sdk.Refinement.{
  Created, no_more, create_then, BindsOnce, after_all, shown, create_fixed_node_group-refines,
}
use karpenter_provider_yande.Yandex.CachedSdk.{delete_key}
use karpenter_provider_yande.CloudProvider.Types.{CloudError}
use karpenter_provider_yande.CloudProvider.Deletion.{
  retry, expiry, gone_answer, IsGone, turns, turns-finish,
}
use karpenter_provider_yande.Prelude.{length}
use karpenter_provider_yande.Prelude.Errors.{api_error, not_found, says_not_found, error_text}
use karpenter_provider_yande.Tests.Instances.{map_cache}
use karpenter_provider_yande.Prelude.{if◌then◌else◌}

abbrev pub State : Type 0
State = List NodeGroup × List String

abbrev pub group_of : CreateRequest → NodeGroup
group_of req = record {
  id = "ng-1";
  name = req.name;
  cluster_id = req.cluster_id;
  labels = req.labels;
  node_labels = req.node_labels;
  group_status = provisioning;
  created_at = 0;
  platform_id = req.platform_id;
  core_fraction = req.core_fraction;
  cores = req.cores;
  memory = req.memory;
  preemptible = req.preemptible;
  zones = req.zone_ids;
}

abbrev pub operations_of : Bool → List String
operations_of true = "yandex.cloud.k8s.v1.DeleteNodeGroupMetadata" ∷ []
operations_of false = []

abbrev pub group_among : String → List NodeGroup → Result NodeGroup
group_among id [] = err (message "not found")
group_among id (g ∷ gs) = if g.id == id then ok g else group_among id gs

abbrev pub api_of : State → Api
api_of s = record {
  cluster =
      λ c. ok (record { network_id = "net"; folder_id = "folder"; node_cidr_mask_size = none });
  network_subnets = λ n. ok [];
  used_addresses = λ id. [];
  node_groups = λ folder. ok s.0;
  nodes = λ id.
      ok (record { instance_id = "vm-1"; cloud_status = "RUNNING"; status_message = "" } ∷ []);
  operations = λ id. ok (operations_of (any (λ j. j == id) s.1));
  node_group = λ id. group_among id s.0;
  instance_labels = λ id. ok [];
  security_group_network = λ id. ok "net";
}

abbrev pub small_cloud : Cloud State
small_cloud = record {
  api = api_of;
  create = λ req s. (ok (some "ng-1"), (group_of req ∷ s.0, s.1));
  delete = λ id s. (none, (s.0, id ∷ s.1));
}

abbrev args : CreateArgs
args = record {
  name = "pool-a";
  labels = ("team", "infra") ∷ [];
  node_labels = ("disk", "SSD") ∷ [];
  platform_id = "standard-v3";
  core_fraction = pos 100;
  cpu = pos 2;
  memory = pos 4294967296;
  preemptible = false;
  zone_id = "ru-central1-a";
  subnet_id = "subnet-a";
  security_groups = [];
  software_accelerated_network_settings = false;
  disk_type = "network-ssd";
  disk_size = pos 34359738368;
}

listed_after :
    (req : CreateRequest) (id : String) (s s' : State)
    → ◌≡◌ {A = Result (Option String) × State}
        (ok (some "ng-1"), (group_of req ∷ s.0, s.1))
        (ok (some id), s')
    → (old : List NodeGroup) → ◌≡◌ {A = Result (List NodeGroup)} (ok s.0) (ok old)
    → ◌≡◌ {A = Result (List NodeGroup)} (ok s'.0) (ok (group_of req ∷ old))
listed_after req id s s' h old e =
    let same : s.0 ≡ old = cc in ap (λ p. ok p.1.0) (sym h) ∙ ap (λ l. ok (group_of req ∷ l)) same

same_id :
    (id : String) (s s' : State)
    → ◌≡◌ {A = Result (Option String) × State} (ok (some "ng-1"), s) (ok (some id), s')
    → "ng-1" ≡ id
same_id id s s' h = cc

operations_after :
    (id : String) (s s' : State)
    → ◌≡◌ {A = Option Error × State} (none, (s.0, id ∷ s.1)) (none, s')
    → ◌≡◌ {A = Result (List String)}
        (ok (operations_of (any (λ j. j == id) s'.1)))
        (ok (operations_of true))
operations_after id s s' h =
    ap (λ p. ok (operations_of (any (λ j. j == id) p.1.1))) (sym h)
    ∙ ap (λ b. ok (operations_of (b || any (λ j. j == id) s.1))) (eq_refl id)

pub small_cloud-CloudLaws : CloudLaws small_cloud
small_cloud-CloudLaws = record {
  same_cluster = λ req id s s' h c. refl;
  created_listed = λ req id s s' h cluster old known e. (
    [],
    old,
    group_of req,
    refl,
    listed_after req id s s' h old e,
    same_id id _ s' h,
    refl,
    refl,
    refl,
  );
  deleted_listed = λ id s s' h. (operations_of true, operations_after id s s' h, refl);
}

-- texts that are lower case already
abbrev pub lower : String → String
lower s = s

abbrev after_create : State
after_create = (group_of (create_request lower "cat-1" args) ∷ [], [])

first_create :
    create_fixed_node_group small_cloud lower "cat-1" args ([], []) ≡ (ok "ng-1", after_create)
unfolding create_fixed_node_group create_after create_unless created list_node_groups find_by_name
first_create = refl

no_own_label : lookup "managed-by" args.node_labels ≡ none
unfolding lookup
no_own_label = refl

first_delete :
    delete_node_group small_cloud lower "cat-1" "ng-1" ([], []) ≡ (none, ([], "ng-1" ∷ []))
unfolding delete_node_group delete_after delete_unless
first_delete = refl

delete_node_group-again_example :
    delete_node_group small_cloud lower "cat-1" "ng-1" ([], "ng-1" ∷ []) ≡ (none, ([], "ng-1" ∷ []))
delete_node_group-again_example =
    delete_node_group-again small_cloud small_cloud-CloudLaws lower "cat-1" "ng-1" ([], [])
      ([], "ng-1" ∷ []) first_delete

listing : list_node_groups "cat-1" (api_of after_create) ≡ ok (after_create.0)
unfolding list_node_groups is_managed create_request create_labels add_lowered insert lookup
listing = refl

list_node_groups-managed_example :
    All (λ g. (g.cluster_id ≡ "cat-1") × (at "managed-by" g.labels ≡ "karpenter")) after_create.0
list_node_groups-managed_example =
    list_node_groups-managed "cat-1" (api_of after_create) after_create.0 listing

abbrev changes : Changes State
changes = record {
  create = create_fixed_node_group small_cloud lower "cat-1";
  delete = delete_node_group small_cloud lower "cat-1";
}

abbrev plain_hash : String → String
plain_hash s = s

empty-WellTyped : WellTyped plain_hash (λ a b e. e) (map_cache CachedValue) changes []
unfolding lookup
empty-WellTyped = ((λ n v e. cc), (λ id v e. cc))

run-WellTyped_example :
    (t : Map CachedValue × State) × (run plain_hash
        (λ a b e. e)
        (map_cache CachedValue)
        changes
        (create args ∷ delete "ng-1" ∷ create args ∷ [])
        ([], ([], []))
      ≡ some t)
    × WellTyped plain_hash (λ a b e. e) (map_cache CachedValue) changes t.0
run-WellTyped_example =
    run-WellTyped plain_hash (λ a b e. e) (map_cache CachedValue) changes
      (create args ∷ delete "ng-1" ∷ create args ∷ []) [] ([], []) empty-WellTyped

abbrev cached_once : Map CachedValue
cached_once = ("CreateFixedNodeGroup-pool-a", created_tuple (ok "ng-1")) ∷ []

cached_create :
    CachedSdk.create_fixed_node_group plain_hash (map_cache CachedValue) changes args ([], ([], []))
    ≡ some (ok "ng-1", (cached_once, after_create))
unfolding CachedSdk.create_fixed_node_group CachedSdk.create_cached CachedSdk.create_key
    CachedSdk.cache_key create_fixed_node_group create_after create_unless created list_node_groups
    find_by_name lookup insert
cached_create = refl

create_fixed_node_group-cached_example :
    CachedSdk.create_fixed_node_group plain_hash
      (map_cache CachedValue)
      changes
      args
      (cached_once, after_create)
    ≡ some (ok "ng-1", (cached_once, after_create))
create_fixed_node_group-cached_example =
    create_fixed_node_group-cached plain_hash (λ a b e. e) (map_cache CachedValue) changes args args
      [] cached_once ([], []) after_create (ok "ng-1") refl cached_create

create_fixed_node_group_twice :
    create_fixed_node_group small_cloud lower "cat-1" args after_create ≡ (ok "ng-1", after_create)
create_fixed_node_group_twice =
    create_fixed_node_group-again small_cloud small_cloud-CloudLaws lower "cat-1" args "ng-1"
      ([], []) after_create no_own_label first_create

-- two creations of one name
two_creations :
    Created small_cloud small_cloud-CloudLaws lower "cat-1"
      ((args, "ng-1") ∷ (args, "ng-1") ∷ [])
      ([], [])
      after_create
two_creations =
    create_then args "ng-1" ((args, "ng-1") ∷ []) ([], []) after_create after_create no_own_label
      first_create
      (create_then args "ng-1" [] after_create after_create after_create no_own_label
        create_fixed_node_group_twice (no_more after_create))

empty_listing : list_node_groups "cat-1" (api_of ([], [])) ≡ ok []
unfolding list_node_groups
empty_listing = refl

create_fixed_node_group-refines_example :
    (ngs' : List NodeGroup) × (list_node_groups "cat-1" (api_of after_create) ≡ ok ngs')
    × BindsOnce ((args, "ng-1") ∷ (args, "ng-1") ∷ []) (shown [])
    × ((name : String)
        → shown ngs' name ≡ after_all ((args, "ng-1") ∷ (args, "ng-1") ∷ []) (shown []) name)
create_fixed_node_group-refines_example =
    create_fixed_node_group-refines small_cloud small_cloud-CloudLaws lower "cat-1"
      ((args, "ng-1") ∷ (args, "ng-1") ∷ []) ([], []) after_create [] empty_listing two_creations

-- a cloud that has lost its node groups
abbrev emptied : Changes Unit
emptied = record {
  create = λ a s. (err (message "quota"), s);
  delete = λ id s. (some (api_error not_found "NotFound"), s);
}

emptied-WellTyped : WellTyped plain_hash (λ a b e. e) (map_cache CachedValue) emptied []
unfolding lookup
emptied-WellTyped = ((λ n v e. cc), (λ id v e. cc))

no_group_left : IsGone plain_hash (λ a b e. e) (map_cache CachedValue) emptied "ng-1" tt
unfolding says_not_found error_text
no_group_left = (api_error not_found "NotFound", refl, refl)

turns-finish_example :
    (first answers : List (Option CloudError)) × (c' c'' : Map CachedValue) × (turns plain_hash
        (λ a b e. e)
        (map_cache CachedValue)
        emptied
        "ng-1"
        (retry ∷ [])
        ([], tt)
      ≡ some (first, (c', tt)))
    × (turns plain_hash
          (λ a b e. e)
          (map_cache CachedValue)
          emptied
          "ng-1"
          (expiry (delete_key plain_hash "ng-1") ∷ retry ∷ retry ∷ [])
          (c', tt)
        ≡ some (answers, (c'', tt)))
    × (length answers ≡ 2)
    × All (λ a. a ≡ some (gone_answer "ng-1")) answers
turns-finish_example =
    turns-finish plain_hash (λ a b e. e) (map_cache CachedValue) emptied "ng-1" (retry ∷ [])
      (retry ∷ retry ∷ []) [] tt emptied-WellTyped no_group_left
