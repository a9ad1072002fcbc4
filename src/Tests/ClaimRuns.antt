-- ===== src/Tests/ClaimRuns.antt =====
-- Claims, launches and the collectors against a small cloud.
use mathlib.Core.List.{Memᴰ}
use karpenter_provider_yande.Prelude.{
  ℕ, String, ◌≡◌, refl, inl, inr, true, Option, none, some, List, [], ◌∷◌, arith, ltb, ◌↔◌,
  if◌then◌else◌, any,
}
use karpenter_provider_yande.Prelude.Maps.{lookup}
use karpenter_provider_yande.Prelude.Errors.{Error, Result, ok, err, message}
use karpenter_provider_yande.Prelude.Int.{pos}
use karpenter_provider_yande.Prelude.Sort.{sort_slice, sort_insert}
use karpenter_provider_yande.Yandex.NodeGroup.{NodeGroup, provisioning, Node}
use karpenter_provider_yande.CloudProvider.Types.{Claim, Offer, OfferedType, CloudError}
use karpenter_provider_yande.CloudProvider.Claim.{
  node_group_to_node_claim, claim_of, identified, provider_id, poll,
}
use karpenter_provider_yande.CloudProvider.Resolve.{
  resolve_instance_types, cheaper, launches, launchable,
}
use karpenter_provider_yande.CloudProvider.Operations.{delete, deleted}
use karpenter_provider_yande.CloudProvider.Create.{pick_offering, pick, nth, is_spot}
use karpenter_provider_yande.CloudProvider.Laws.{
  StandsFor, node_group_to_node_claim-StandsFor, delete-claim,
}
use karpenter_provider_yande.CloudProvider.Launches.{pick_offering-spot}
use karpenter_provider_yande.CloudProvider.Cheapest.{
  IsLaunchable, CheapestFirst, resolve_instance_types-cheapest,
}
use karpenter_provider_yande.Collector.Duplicates
use karpenter_provider_yande.Collector.Orphans
use karpenter_provider_yande.Tests.Instances.{plain_karpenter, ltb-IsLess, plain_cheapest}

abbrev group : NodeGroup
group = record {
  id = "ng-1";
  name = "pool-a";
  cluster_id = "cat-1";
  labels = [];
  node_labels = ("yandex.cloud/node-group-id", "forged") ∷ [];
  group_status = provisioning;
  created_at = 100;
  platform_id = "standard-v3";
  core_fraction = pos 100;
  cores = pos 2;
  memory = pos 4;
  preemptible = true;
  zones = "ru-central1-a" ∷ [];
}

-- the id comes at the second question of the loop
abbrev late : List (Result String)
late = err (message "nodes not found") ∷ ok "yandex://vm-1" ∷ []

abbrev claim : Claim plain_karpenter
claim = claim_of plain_karpenter 200 group none "yandex://vm-1"

claimed :
    node_group_to_node_claim plain_karpenter 200 (err (message "not found")) late group none
    ≡ ok claim
unfolding node_group_to_node_claim identified provider_id poll
claimed = refl

node_group_to_node_claim-StandsFor_example : StandsFor plain_karpenter group claim
node_group_to_node_claim-StandsFor_example =
    node_group_to_node_claim-StandsFor plain_karpenter 200 (err (message "not found")) late group
      none claim claimed

abbrev log_delete : String → List String → Option Error × List String
log_delete id s = (none, id ∷ s)

delete-claim_example :
    delete log_delete claim.name claim.labels [] ≡ deleted log_delete "ng-1" (log_delete "ng-1" [])
delete-claim_example =
    delete-claim plain_karpenter log_delete 200 (err (message "not found")) late group none claim []
      claimed refl

abbrev offer : String → ℕ → Offer plain_karpenter
offer kind price = record {
  requirements = ("karpenter.sh/capacity-type", kind) ∷ [];
  price = price;
  available = true;
}

pick_offering-spot_example :
    Memᴰ (offer "spot" 3) (offer "on-demand" 9 ∷ offer "spot" 3 ∷ [])
    × (is_spot plain_karpenter (offer "spot" 3)
        ≡ any (is_spot plain_karpenter) (offer "on-demand" 9 ∷ offer "spot" 3 ∷ []))
pick_offering-spot_example =
    pick_offering-spot plain_karpenter (λ n. 0) (offer "on-demand" 9 ∷ offer "spot" 3 ∷ [])
      (offer "spot" 3) picked
  where
    picked :
        pick_offering plain_karpenter (λ n. 0) (offer "on-demand" 9 ∷ offer "spot" 3 ∷ [])
        ≡ some (offer "spot" 3)
    picked = unfold pick_offering pick nth is_spot lookup in refl

abbrev type_at : String → ℕ → OfferedType plain_karpenter
type_at name price = record {
  name = name;
  requirements = [];
  offerings = some (offer "on-demand" price ∷ []);
  capacity = [];
  overhead = [];
}

resolve_instance_types-cheapest_example :
    (Memᴰ (type_at "small" 3) (type_at "small" 3 ∷ type_at "large" 9 ∷ []) ↔ (
      Memᴰ (type_at "small" 3) (type_at "large" 9 ∷ type_at "small" 3 ∷ [])
      × IsLaunchable plain_karpenter claim (type_at "small" 3)))
    × CheapestFirst plain_karpenter claim (type_at "small" 3 ∷ type_at "large" 9 ∷ [])
resolve_instance_types-cheapest_example =
    resolve_instance_types-cheapest plain_karpenter claim ltb-IsLess plain_cheapest
      (type_at "large" 9 ∷ type_at "small" 3 ∷ []) (type_at "small" 3 ∷ type_at "large" 9 ∷ [])
      (type_at "small" 3) resolved
  where
    resolved :
        resolve_instance_types plain_karpenter claim
          (ok (type_at "large" 9 ∷ type_at "small" 3 ∷ []))
        ≡ ok (type_at "small" 3 ∷ type_at "large" 9 ∷ [])
    resolved =
        unfold resolve_instance_types cheaper launches launchable sort_slice sort_insert in refl

abbrev creating : Node
creating = record {
  instance_id = "";
  cloud_status = "CREATING_INSTANCE";
  status_message = "ALREADY_EXISTS: pool-a-1";
}

reconcile-duplicates_example :
    (Duplicates.reconcile (λ id s. ok creating) log_delete (ok (group ∷ [])) []
      ≡ (ok 600, "ng-1" ∷ []))
    ↔ Duplicates.Runs (λ id s. ok creating) log_delete (group ∷ []) [] ("ng-1" ∷ [])
reconcile-duplicates_example =
    Duplicates.reconcile-duplicates (λ id s. ok creating) log_delete (group ∷ []) [] ("ng-1" ∷ [])

abbrev log_claim : Claim plain_karpenter → List String → Option CloudError × List String
log_claim c s = (none, c.name ∷ s)

abbrev log_node : Orphans.ClusterNode → List String → Option Error × List String
log_node n s = (none, n.name ∷ s)

reconcile-Spared_example :
    Orphans.reconcile plain_karpenter log_claim log_node 500
      (ok (claim ∷ []))
      (ok ("yandex://vm-1" ∷ []))
      (ok [])
      (20, [])
    ≡ (([], if ltb 20 20 then 10 else 120), (21, []))
reconcile-Spared_example =
    Orphans.reconcile-Spared plain_karpenter log_claim log_node 500 (claim ∷ [])
      ("yandex://vm-1" ∷ []) [] 20 [] (inr (inl known_claim), tt) (omega arith)
  where
    known_claim : Orphans.known ("yandex://vm-1" ∷ []) claim.provider_id ≡ true
    known_claim = unfold Orphans.known claim_of in refl
