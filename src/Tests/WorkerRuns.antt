-- ===== src/Tests/WorkerRuns.antt =====
-- Two instances without a claim, whose workers take turns.
use karpenter_provider_yande.Prelude.{ℕ, ◌+◌, Option, none, List, [], ◌∷◌}
use karpenter_provider_yande.Prelude.Errors.{Error}
use karpenter_provider_yande.CloudProvider.Types.{Claim, CloudError}
use karpenter_provider_yande.Collector.Orphans.{ClusterNode}
use karpenter_provider_yande.Collector.Orphans.Workers.{
  jobs_of, schedule, Ordered, schedule-Ordered,
}
use karpenter_provider_yande.Tests.Instances.{plain_karpenter}
use karpenter_provider_yande.Tests.LaunchRuns.{claim}

abbrev lost : List (Claim plain_karpenter)
lost = claim ∷ record claim { provider_id = "yandex://vm-2" } ∷ []

abbrev nodes : List ClusterNode
nodes = record { name = "n1"; provider_id = "yandex://vm-1" } ∷ []

-- the state counts the calls
abbrev delete_claim : Claim plain_karpenter → ℕ → Option CloudError × ℕ
delete_claim nc s = (none, s + 1)

abbrev delete_node : ClusterNode → ℕ → Option Error × ℕ
delete_node node s = (none, s + 1)

schedule-Ordered_example :
    Ordered plain_karpenter delete_claim delete_node nodes 300 []
      (schedule plain_karpenter delete_claim delete_node nodes
        (0 ∷ 1 ∷ 0 ∷ [])
        (jobs_of plain_karpenter 300 [] lost)
        []
        0).1.0
schedule-Ordered_example =
    schedule-Ordered plain_karpenter delete_claim delete_node nodes 300 [] lost (0 ∷ 1 ∷ 0 ∷ []) 0
