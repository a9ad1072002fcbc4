-- ===== src/CloudProvider/GroupLabels.antt =====
-- nodeGroupLabels: the labels that a node of a group carries.
use Prim.Native.String.{◌++◌ as ◌+++◌}
use karpenter_provider_yande.Prelude.{String, ◌≡◌, refl, Bool, true, false, some, List, [], ◌∷◌}
use karpenter_provider_yande.Prelude.Maps.{Labels, lookup, at, assign}
use karpenter_provider_yande.Prelude.Maps.{lookup-assign}
use karpenter_provider_yande.CloudProvider.Types.{node_group_id_key, capacity_type_label_key}
use karpenter_provider_yande.Yandex.NodeGroup.{NodeGroup}

abbrev pub zone_of : List String → String
zone_of [] = ""
zone_of (z ∷ zs) = z

abbrev pub true_or_false : Bool → String
true_or_false true = "true"
true_or_false false = "false"

abbrev pub capacity_type_of : Bool → String
capacity_type_of true = "spot"
capacity_type_of false = "on-demand"

-- the assignments, in the order of the source
unfoldable pub provided : NodeGroup → Labels
provided ng =
    let zone = zone_of ng.zones in
    ("beta.kubernetes.io/arch", "amd64")
    ∷ ("kubernetes.io/arch", "amd64")
    ∷ ("beta.kubernetes.io/instance-type", ng.platform_id)
    ∷ ("node.kubernetes.io/instance-type", ng.platform_id)
    ∷ ("beta.kubernetes.io/os", "linux")
    ∷ ("kubernetes.io/os", "linux")
    ∷ ("failure-domain.beta.kubernetes.io/zone", zone)
    ∷ ("topology.kubernetes.io/zone", zone)
    ∷ ("kubernetes.io/hostname", ng.name +++ "-1")
    ∷ (node_group_id_key, ng.id)
    ∷ ("yandex.cloud/pci-topology", "k8s")
    ∷ ("yandex.cloud/preemptible", true_or_false ng.preemptible)
    ∷ (capacity_type_label_key, capacity_type_of ng.preemptible)
    ∷ []

unfoldable pub node_group_labels : NodeGroup → Labels
node_group_labels ng = assign (assign [] ng.node_labels) (provided ng)

-- a key that the provider sets has the provider's value, whatever the node labels say
pub lookup-provided :
    (k v : String) (ng : NodeGroup)
    → lookup k (provided ng) ≡ some v
    → at k (node_group_labels ng) ≡ v
unfolding node_group_labels
lookup-provided k v ng h = rw (at, lookup-assign, h) refl

pub group_id_label : (ng : NodeGroup) → lookup node_group_id_key (provided ng) ≡ some ng.id
unfolding provided lookup
group_id_label ng = refl

pub capacity_type_label :
    (ng : NodeGroup)
    → lookup capacity_type_label_key (provided ng) ≡ some (capacity_type_of ng.preemptible)
unfolding provided lookup
capacity_type_label ng = refl
