-- ===== src/Startup.antt =====
-- pkg/operator: the options, and what the operator reads of the cloud before it starts.
use karpenter_provider_yande.Prelude.{
  ℕ, String, ◌≡◌, refl, sym, ap, ◌∙◌, subst, Bool, true, false, ◌||◌, Option, none, some, List, [],
  ◌∷◌, ◌++◌, arith, ◌==◌, eq_iff, if◌then◌else◌, any,
}
use karpenter_provider_yande.Prelude.Errors.{Error, Result, ok, err, message, wrap}
use karpenter_provider_yande.NodeClass.Selector.{VpcSubnet}
use karpenter_provider_yande.Yandex.Sdk.{Api, list_network_subnets, max_pods_per_node}

-- a call that returns, or that has ended the process
pub data Process (A : Type 0) : Type 0 where
  exited : ℕ → Process A
  went_on : A → Process A

pub record Options : Type 0 where
  pub cluster_id : String

unfoldable pub validate_required_fields : Options → Option Error
validate_required_fields o =
    if o.cluster_id == "" then some (message "missing field, cluster-id") else none

-- multierr.Combine of one error
unfoldable pub validate : Options → Option Error
unfolding validate_required_fields
validate o = validate_required_fields o

-- the answer of the flag library: its help was asked for, an error, or the options
pub data Flags : Type 0 where
  help : Flags
  bad_flags : Error → Flags
  flags : Options → Flags

unfoldable pub parse : Flags → Process (Result Options)
unfolding validate
parse help = exited 0
parse (bad_flags e) = went_on (err (wrap "parsing flags, " e))
parse (flags o) = elim (validate o) [
  | none ↦ went_on (ok o)
  | some e ↦ went_on (err (wrap "validating options, " e))
]

-- azs.Insert(s.ZoneId), of a set as the list of its elements
unfoldable pub insert_zone : String → List String → List String
insert_zone z zs = if any (λ y. y == z) zs then zs else zs ++ (z ∷ [])

unfoldable pub insert_zones : List VpcSubnet → List String → List String
unfolding insert_zone
insert_zones [] azs = azs
insert_zones (s ∷ ss) azs = insert_zones ss (insert_zone s.zone_id azs)

-- what the providers are built from
pub record Operator : Type 0 where
  pub max_pods_per_node : ℕ
  pub azs : List String

unfoldable pub with_subnets : ℕ → Result (List VpcSubnet) → Process Operator
unfolding insert_zones
with_subnets pods (err e) = exited 1
with_subnets pods (ok subnets) =
    went_on (record { max_pods_per_node = pods; azs = insert_zones subnets [] })

unfoldable pub with_pods : Result ℕ → Result (List VpcSubnet) → Process Operator
unfolding with_subnets
with_pods (err e) subnets = exited 1
with_pods (ok pods) subnets = with_subnets pods subnets

-- NewOperator, with the result of NewSDK; the address that KubeDNSIP finds is only logged
unfoldable pub new_operator : Options → (String → Result Api) → Process Operator
unfolding with_pods
new_operator options new_sdk = elim (new_sdk options.cluster_id) [
  | err e ↦ exited 1
  | ok api ↦
      with_pods (max_pods_per_node options.cluster_id api)
        (list_network_subnets options.cluster_id api)
]

-- KubeDNSIP: `cluster_ip` reads the service kube-dns, none where there is no client, and `parse_ip`
-- is net.ParseIP
unfoldable pub kube_dns_ip :
    {Ip : Type 0} → (String → Option Ip) → Option (Result String) → Result Ip
kube_dns_ip parse_ip none = err (message "no K8s client provided")
kube_dns_ip parse_ip (some (err e)) = err e
kube_dns_ip parse_ip (some (ok address)) = elim (parse_ip address) [
  | none ↦ err (message "parsing cluster IP")
  | some ip ↦ ok ip
]

any-snoc :
    (p : String → Bool) (xs : List String) (x : String) → any p (xs ++ (x ∷ [])) ≡ (any p xs || p x)
any-snoc p [] x = ground arith
any-snoc p (y ∷ ys) x = ground (arith, any-snoc p ys x)

insert_zone-any :
    (zone z : String) (zs : List String)
    → any (λ y. y == zone) (insert_zone z zs) ≡ (any (λ y. y == zone) zs || (z == zone))
unfolding insert_zone
insert_zone-any zone z zs = decide (any (λ y. y == z) zs) refl
  where
    absorbed : (b c : Bool) → (c ≡ true → b ≡ true) → b ≡ (b || c)
    absorbed true c h = refl
    absorbed false true h = h refl
    absorbed false false h = refl

    decide :
        (b : Bool)
        → any (λ y. y == z) zs ≡ b
        → any (λ y. y == zone) (if b then zs else zs ++ (z ∷ []))
          ≡ (any (λ y. y == zone) zs || (z == zone))
    decide true e =
        absorbed (any (λ y. y == zone) zs) (z == zone)
          (λ h. subst (λ k. any (λ y. y == k) zs ≡ true) ((eq_iff z zone).0 h) e)
    decide false e = any-snoc (λ y. y == zone) zs z

insert_zones-any :
    (zone : String) (ss : List VpcSubnet) (azs : List String)
    → any (λ y. y == zone) (insert_zones ss azs)
      ≡ (any (λ y. y == zone) azs || any (λ s. s.zone_id == zone) ss)
unfolding insert_zones
insert_zones-any zone [] azs = ground arith
insert_zones-any zone (s ∷ ss) azs =
    insert_zones-any zone ss (insert_zone s.zone_id azs)
    ∙ ap (λ b. b || any (λ t. t.zone_id == zone) ss) (insert_zone-any zone s.zone_id azs)
    ∙ or_assoc (any (λ y. y == zone) azs) (s.zone_id == zone) (any (λ t. t.zone_id == zone) ss)
  where
    or_assoc : (a b c : Bool) → ((a || b) || c) ≡ (a || (b || c))
    or_assoc true b c = refl
    or_assoc false b c = refl

-- An operator that starts has the zones of the subnets of the cluster's network, and no others.
pub new_operator-zones :
    (options : Options) (new_sdk : String → Result Api) (api : Api) (subnets : List VpcSubnet)
    (operator : Operator)
    → new_sdk options.cluster_id ≡ ok api
    → list_network_subnets options.cluster_id api ≡ ok subnets
    → new_operator options new_sdk ≡ went_on operator
    → (zone : String) → any (λ z. z == zone) operator.azs ≡ any (λ s. s.zone_id == zone) subnets
unfolding new_operator
new_operator-zones options new_sdk api subnets operator built listed h zone =
    decide (max_pods_per_node options.cluster_id api) (
      ap (λ r. with_pods (max_pods_per_node options.cluster_id api) r) (sym listed)
      ∙ ap
          (λ r. elim r [
            | err e ↦ exited 1
            | ok a ↦
                with_pods (max_pods_per_node options.cluster_id a)
                  (list_network_subnets options.cluster_id a)
          ])
          (sym built)
      ∙ h)
  where
    decide :
        (r : Result ℕ)
        → with_pods r (ok subnets) ≡ went_on operator
        → any (λ z. z == zone) operator.azs ≡ any (λ s. s.zone_id == zone) subnets
    decide (err e) k = cc
    decide (ok pods) k =
        let same : record { max_pods_per_node = pods; azs = insert_zones subnets [] } ≡ operator =
          cc in
        ap (λ o. any (λ z. z == zone) o.azs) (sym same) ∙ insert_zones-any zone subnets []
