-- ===== src/NodeClass/Selector.antt =====
-- The selector loop that subnet.DefaultProvider.List and validateSubnetsExist both contain, and
-- validateSubnetsExist of pkg/controllers/nodeclass/validation.go.
use Prim.Native.String.{◌++◌ as ◌+++◌}
use karpenter_provider_yande.Prelude.{
  String, ◌≡◌, refl, Bool, true, false, not, ◌&&◌, ◌||◌, Option, none, some, List, [], ◌∷◌, arith,
  ◌==◌, if◌then◌else◌, is_empty, any,
}
use karpenter_provider_yande.Prelude.Maps.{Map, Labels, lookup, insert}
use karpenter_provider_yande.Prelude.Errors.{Result, ok, err, error_text}
use karpenter_provider_yande.NodeClass.Types.{SubnetSelectorTerm, Spec, StatusSubnet}
use karpenter_provider_yande.NodeClass.Disk.{Verdict, accepted}
use karpenter_provider_yande.Yandex.MatchLabels.{match_labels}

-- vpc.Subnet
pub record VpcSubnet : Type 0 where
  pub id : String
  pub zone_id : String
  pub labels : Labels
  pub v4_cidr_blocks : List String

-- for _, term := range terms { … keep … break … }
unfoldable pub keep : List SubnetSelectorTerm → VpcSubnet → Bool
keep [] subnet = false
keep (term ∷ terms) subnet =
    if not (term.id == "") && subnet.id == term.id
    then true
    else if is_empty term.labels
    then keep terms subnet
    else if match_labels subnet.labels term.labels
    then true
    else keep terms subnet

-- A term selects a subnet by its id or by its labels; empty ids and empty label sets select nothing.
abbrev pub selects : VpcSubnet → SubnetSelectorTerm → Bool
selects subnet term =
    (not (term.id == "") && subnet.id == term.id)
    || (not (is_empty term.labels) && match_labels subnet.labels term.labels)

-- The loop keeps a subnet exactly when some term selects it: the terms are ORed.
pub keep-eq-any :
    (terms : List SubnetSelectorTerm) (subnet : VpcSubnet)
    → keep terms subnet ≡ any (selects subnet) terms
unfolding keep
keep-eq-any [] subnet = refl
keep-eq-any (term ∷ terms) subnet = ground (arith, keep-eq-any terms subnet)

-- The loop that fills `matched`; a nil subnet and one with no id are passed over.
unfoldable pub collect : List SubnetSelectorTerm → List (Option VpcSubnet) → Map String → Map String
collect terms [] matched = matched
collect terms (none ∷ subnets) matched = collect terms subnets matched
collect terms (some subnet ∷ subnets) matched = collect terms subnets (
    if subnet.id == ""
    then matched
    else if keep terms subnet
    then insert subnet.id subnet.zone_id matched
    else matched)

-- The loop over the subnets of the status; `seen` holds the ids met before.
unfoldable pub check_status : Map String → List String → List StatusSubnet → Verdict
check_status matched seen [] = accepted
check_status matched seen (st ∷ sts) =
    let rest = check_status matched (st.id ∷ seen) sts in
    let dup = check_status matched seen sts in
    if st.id == ""
    then ("InvalidSubnet", "status.subnets contains empty id")
    else if any (λ id. id == st.id) seen
    then dup
    else elim (lookup st.id matched) [
      | none ↦ (
        "SubnetSelectorMismatch",
        "resolved subnet does not match spec.subnetSelectorTerms: " +++ st.id,
      )
      | some zone ↦
          if not (st.zone_id == "") && (not (zone == "") && not (st.zone_id == zone))
          then (
            "SubnetZoneMismatch",
            "subnet zone mismatch for "
                +++ (st.id +++ (": status=" +++ (st.zone_id +++ (", cloud=" +++ zone)))),
          )
          else rest
    ]

check_matched : List StatusSubnet → Map String → Verdict
unfolding check_status
check_matched sts matched =
    if is_empty matched
    then ("NoSubnetsMatched", "no subnets in the cluster network match spec.subnetSelectorTerms")
    else if is_empty sts
    then accepted
    else check_status matched [] sts

with_subnets :
    List SubnetSelectorTerm → List StatusSubnet → Result (List (Option VpcSubnet)) → Verdict
unfolding check_matched collect
with_subnets terms sts (err e) =
    ("SubnetLookupFailed", "failed to list network subnets: " +++ error_text e)
with_subnets terms sts (ok subnets) = check_matched sts (collect terms subnets [])

-- `listed` is the answer of ListNetworkSubnets.
unfoldable pub validate_subnets :
    Result (List (Option VpcSubnet)) → Spec → List StatusSubnet → Verdict
unfolding with_subnets
validate_subnets listed spec sts =
    if is_empty spec.subnet_selector_terms
    then ("InvalidSubnetSelector", "spec.subnetSelectorTerms must not be empty")
    else with_subnets spec.subnet_selector_terms sts listed
