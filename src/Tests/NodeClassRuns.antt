-- ===== src/Tests/NodeClassRuns.antt =====
-- A node class through its reconcilers.
use mathlib.Core.List.{Memᴰ}
use karpenter_provider_yande.Prelude.{
  String, ◌≡◌, refl, ◌≢◌, ◌↔◌, ◌⊎◌, Bool, true, false, none, some, List, [], ◌∷◌, map, ◌==◌,
  eq_refl, if◌then◌else◌, is_empty, any, All, head?,
}
use karpenter_provider_yande.Prelude.Maps.{lookup, insert}
use karpenter_provider_yande.Prelude.Errors.{Result, ok}
use karpenter_provider_yande.Prelude.Int.{pos}
use karpenter_provider_yande.Prelude.Cache.{CacheOf}
use karpenter_provider_yande.NodeClass.Types.{
  NodeClass, Spec, Condition, ConditionStatus, is_true, is_false, is_unknown,
  condition_type_subnets_ready, condition_type_validation_succeeded,
}
use karpenter_provider_yande.NodeClass.Conditions.{ConditionSet}
use karpenter_provider_yande.NodeClass.CacheKeys.{
  Hashing, cache_key, clear_cache_entries, clear_cache_entries_lem,
}
use karpenter_provider_yande.NodeClass.Disk.{validate_disk, validate_disk_iff, IsValidDisk}
use karpenter_provider_yande.NodeClass.San.{validate_san, validate_san_iff}
use karpenter_provider_yande.NodeClass.SecurityGroups.{
  validate_security_groups, validate_security_groups_iff,
}
use karpenter_provider_yande.NodeClass.Selector.{VpcSubnet, keep}
use karpenter_provider_yande.NodeClass.SubnetReconciler
use karpenter_provider_yande.NodeClass.Validation
use karpenter_provider_yande.NodeClass.Controller
use karpenter_provider_yande.NodeClass.Validation.Laws.{
  reconcile-not_ready, reconcile-fresh, AllAccept,
}
use karpenter_provider_yande.NodeClass.Controller.Laws.{
  finalize_waits, PatchEnded, reconcile-finalizer_first,
}
use karpenter_provider_yande.Subnet.Capacity.{Subnet}
use karpenter_provider_yande.Prelude.Sort.{sort_slice, sort_insert}
use karpenter_provider_yande.NodeClass.Disk.{accepted}
use karpenter_provider_yande.NodeClass.Selector.{validate_subnets}
use karpenter_provider_yande.NodeClass.Agreement.{resolved_accepted}
use karpenter_provider_yande.Subnet.Provider.{Answers, list, build, measure, total_ips}
use karpenter_provider_yande.Tests.Instances.{map_cache}
use karpenter_provider_yande.NodeClass.Controller.Laws.{PatchEnded}

-- conditions, the latest first
abbrev state_of : String → List Condition → ConditionStatus
state_of t [] = is_unknown
state_of t (c ∷ cs) = if c.type == t then c.state else state_of t cs

abbrev put : ConditionStatus → String → String → String → List Condition → List Condition
put s t r m cs =
    record {
      type = t;
      state = s;
      reason = r;
      message = m;
      observed_generation = 1;
      last_transition_time = some 1;
    }
    ∷ cs

abbrev latest_first : ConditionSet
latest_first = record {
  state = state_of;
  set_true = λ t cs. put is_true t t "" cs;
  set_false = put is_false;
  set_unknown = put is_unknown;
  state-set_true = λ t cs. rw (eq_refl t) refl;
  state-set_false = λ t r m cs. rw (eq_refl t) refl;
  state-set_unknown = λ t r m cs. rw (eq_refl t) refl;
  state-set_true_ne = λ t u cs h k. rw h refl;
  state-set_false_ne = λ t u r m cs h k. rw h refl;
}

abbrev one_hash : Hashing
one_hash = record { hex = λ i. "0f"; hex-Free = λ i. (refl, (refl, tt)) }

abbrev pub spec : Spec
spec = record {
  platform = "standard-v3";
  core_fractions = "50" ∷ "100" ∷ [];
  subnet_selector_terms = record { labels = []; id = "s-a" } ∷ [];
  disk_type = "network-ssd";
  disk_size = pos 34359738368;
  labels = none;
  node_labels = none;
  security_groups = "sg-1" ∷ [];
  software_accelerated_network_settings = true;
}

abbrev pub class : NodeClass
class = record {
  name = "default";
  uid = "u";
  generation = 1;
  deleting = false;
  finalizers = [];
  spec = spec;
  subnets = [];
  conditions = [];
}

abbrev cloud : Validation.Cloud
cloud = record {
  list_network_subnets =
      ok (some (record { id = "s-a"; zone_id = "a"; labels = []; v4_cidr_blocks = [] }) ∷ []);
  security_group_exists = λ id. ok true;
  binary_si = λ n. "n";
}

validate_disk_iff_example : ((validate_disk (λ n. "n") spec).0 ≡ "") ↔ IsValidDisk spec
validate_disk_iff_example = validate_disk_iff (λ n. "n") spec

validate_san_iff_example : ((validate_san spec).0 ≡ "") ↔ (
    (spec.software_accelerated_network_settings ≡ false)
    ⊎ (spec.core_fractions ≡ [])
    ⊎ (any (λ cf. cf == "100") spec.core_fractions ≡ true))
validate_san_iff_example = validate_san_iff spec

validate_security_groups_iff_example :
    ((validate_security_groups (λ id. ok true) ("sg-1" ∷ [])).0 ≡ "")
    ↔ All {A = String} (λ id. ◌≡◌ {A = Result Bool} (ok true) (ok true)) ("sg-1" ∷ [])
validate_security_groups_iff_example = validate_security_groups_iff (λ id. ok true) ("sg-1" ∷ [])

abbrev subnet : VpcSubnet
subnet = record { id = "s-a"; zone_id = "a"; labels = []; v4_cidr_blocks = [] }

abbrev resolved_subnets : List Subnet
resolved_subnets = record { id = "s-a"; zone_id = "a"; available_ip_address_count = pos 5 } ∷ []

reconcile-status_example :
    ((SubnetReconciler.reconcile latest_first (ok resolved_subnets) class).0.subnets
      ≡ map SubnetReconciler.to_status resolved_subnets)
    × ((state_of condition_type_subnets_ready
            (SubnetReconciler.reconcile latest_first (ok resolved_subnets) class).0.conditions
          ≡ is_true)
        ↔ (is_empty resolved_subnets ≡ false))
reconcile-status_example = SubnetReconciler.reconcile-status latest_first resolved_subnets class

abbrev cache : CacheOf String
cache = map_cache String

reconcile-not_ready_example :
    (state_of condition_type_validation_succeeded
        (Validation.reconcile latest_first one_hash cache false cloud class []).0.0.conditions
      ≢ is_true)
    × ((Validation.reconcile latest_first one_hash cache false cloud class []).0.1 ≡ [])
    × ((Validation.reconcile latest_first one_hash cache false cloud class []).0.0
        ≡ (Validation.reconcile latest_first one_hash cache true cloud class
            (("k", "reason") ∷ [])).0.0)
    × ((Validation.reconcile latest_first one_hash cache false cloud class []).1
        ≡ (Validation.reconcile latest_first one_hash cache true cloud class
            (("k", "reason") ∷ [])).1)
reconcile-not_ready_example =
    reconcile-not_ready latest_first one_hash cache false true cloud cloud class []
      (("k", "reason") ∷ []) (λ e. cc)

abbrev ready_class : NodeClass
ready_class = record class {
  conditions = put is_true "SubnetsReady" "" "" [];
  subnets = record { id = "s-a"; zone_id = "a" } ∷ [];
}

no_entry : lookup {V = String} (cache_key one_hash ready_class) [] ≡ none
unfolding lookup
no_entry = refl

reconcile-fresh_example :
    (state_of condition_type_validation_succeeded
        (Validation.reconcile latest_first one_hash cache false cloud ready_class []).0.0.conditions
      ≡ is_true)
    ↔ AllAccept cloud ready_class
reconcile-fresh_example =
    reconcile-fresh latest_first one_hash cache cloud ready_class [] refl no_entry

clear_cache_entries_lem_example :
    lookup
      (cache_key one_hash class)
      (clear_cache_entries cache "default" (("default:0f", "") ∷ []))
    ≡ (if class.name == "default"
        then none
        else lookup (cache_key one_hash class) (("default:0f", "") ∷ []))
clear_cache_entries_lem_example =
    clear_cache_entries_lem cache one_hash "default" (("default:0f", "") ∷ []) class
      (refl, (refl, (refl, (refl, (refl, (refl, (refl, tt)))))))

abbrev kube : Controller.Kube
kube = record {
  patch = λ stored now. ok now;
  patch_status = λ stored now. ok now;
  list_node_claims = λ nc. ok ("claim-1" ∷ []);
  deep_equal = λ a b. false;
  min_requeue = λ rs. Validation.after 60;
}

finalize_waits_example :
    ¬ Memᴰ
      (Controller.patched class)
      (Controller.finalize latest_first one_hash cache kube class []).1
    × ((Controller.finalize latest_first one_hash cache kube class []).2 ≡ [])
finalize_waits_example = finalize_waits latest_first one_hash cache kube class class [] (λ e. cc)

abbrev world : Controller.World
world = record {
  kube = kube;
  listed_subnets = λ nc. ok resolved_subnets;
  cloud = cloud;
  dry_run_disabled = false;
}

reconcile-finalizer_first_example :
    (head? (Controller.reconcile latest_first one_hash cache world class []).1
      ≡ some (Controller.patched (Controller.add_finalizer class)))
    × (Controller.contains_finalizer (Controller.add_finalizer class) ≡ true)
    × PatchEnded latest_first one_hash cache class []
        (world.kube.patch class (Controller.add_finalizer class))
        (Controller.reconcile latest_first one_hash cache world class []).1
        (Controller.reconcile latest_first one_hash cache world class []).2
reconcile-finalizer_first_example =
    reconcile-finalizer_first latest_first one_hash cache world class [] refl no_finalizer
  where
    no_finalizer : Controller.contains_finalizer class ≡ false
    no_finalizer = unfold Controller.contains_finalizer in refl

abbrev subnet_answers : Answers
subnet_answers = record {
  hash_key = λ terms. ok "key";
  list_network_subnets = ok (subnet ∷ []);
  used_ips = λ id. ok 0;
  parse_mask = λ cidr. ok 28;
}

abbrev measured : Subnet
measured = record { id = "s-a"; zone_id = "a"; available_ip_address_count = pos 0 }

no_list : lookup {V = List Subnet} "key" [] ≡ none
unfolding lookup
no_list = refl

resolved_once :
    (list (map_cache (List Subnet)) subnet_answers spec.subnet_selector_terms []).0
    ≡ ok (measured ∷ [])
unfolding list build measure total_ips keep sort_slice sort_insert lookup insert
resolved_once = refl

resolved_accepted_example :
    validate_subnets
      (ok (map some (subnet ∷ [])))
      spec
      (map SubnetReconciler.to_status (measured ∷ []))
    ≡ accepted
resolved_accepted_example =
    resolved_accepted (map_cache (List Subnet)) (λ id. "a") subnet_answers spec [] "key"
      (subnet ∷ []) measured [] ((refl, refl), tt) refl refl no_list refl resolved_once
