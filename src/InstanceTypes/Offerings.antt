-- ===== src/InstanceTypes/Offerings.antt =====
-- createOfferings and InjectOfferings of pkg/providers/instancetype/offering/offering.go.
use karpenter_provider_yande.Prelude.{
  String, Bool, ◌&&◌, Option, none, some, List, [], ◌∷◌, ◌++◌, ◌==◌, if◌then◌else◌, is_some, any,
}
use karpenter_provider_yande.NodeClass.Types.{NodeClass}
use karpenter_provider_yande.Yandex.InstanceType.{InstanceType, Quantities, received}
use karpenter_provider_yande.Yandex.Platform.{Disk}
use karpenter_provider_yande.Prelude.Int.{ℤ, pos, negsuc}
use karpenter_provider_yande.InstanceTypes.Requirements.{Scheduling}
use karpenter_provider_yande.Prelude.{◌/◌}
use karpenter_provider_yande.Prelude.{◌^◌}
use karpenter_provider_yande.Prelude.{ltb}
use karpenter_provider_yande.Prelude.{suc}
use karpenter_provider_yande.Prelude.{◌-◌}

-- cloudprovider.InstanceType and its offerings, over the library's requirements and prices
pub record Offering (Requirements Price : Type 0) : Type 0 where
  pub requirements : Requirements
  pub price : Price
  pub available : Bool

pub record OfferedType (Requirements Price Resources : Type 0) : Type 0 where
  pub name : String
  pub requirements : Requirements
  pub offerings : List (Offering Requirements Price)
  -- Capacity and Overhead
  pub resources : Resources

-- pricing.Provider: floating point prices, zero and their sum.
pub record Pricing (Quantity : Type 0) : Type 1 where
  pub Price : Type 0
  pub zero_price : Price
  pub plus : Price → Price → Price
  pub on_demand_price : InstanceType Quantity → Option Price
  pub spot_price : InstanceType Quantity → Option Price
  pub disk_price : Disk → Option Price

-- an int64 divided by 2 ^ 30, towards zero
abbrev pub in_gib : ℤ → ℤ
in_gib (pos n) = pos (n / 2 ^ 30)
in_gib (negsuc n) = if ltb (suc n) (2 ^ 30) then pos 0 else negsuc (suc n / 2 ^ 30 - 1)

unfoldable pub disk_from_node_class : NodeClass → Disk
disk_from_node_class nc = record { type = nc.spec.disk_type; size = in_gib nc.spec.disk_size }

-- both lists one after the other, or the panic of either
unfoldable pub append_all : {A : Type 0} → Option (List A) → Option (List A) → Option (List A)
append_all none o = none
append_all (some xs) none = none
append_all (some xs) (some ys) = some (xs ++ ys)

module _ (qs : Quantities) (sch : Scheduling) (pr : Pricing qs.Quantity) where
  -- the switch over the capacity type: none is the panic of its default case
  unfoldable pub price_of : String → InstanceType qs.Quantity → Option (Option pr.Price)
  price_of capacity_type it =
      if capacity_type == "on-demand"
      then some (pr.on_demand_price it)
      else if capacity_type == "spot"
      then some (pr.spot_price it)
      else none

  -- price, hasPrice: zero where there is none; the disk's price is added where it is known
  unfoldable pub full_price : Option pr.Price → Option pr.Price → pr.Price
  full_price none none = pr.zero_price
  full_price none (some d) = pr.plus pr.zero_price d
  full_price (some p) none = p
  full_price (some p) (some d) = pr.plus p d

  unfoldable pub make_offering :
      NodeClass
      → List String
      → String
      → String
      → Option pr.Price
      → Offering sch.Requirements pr.Price
  make_offering nc it_zones zone capacity_type price = record {
    requirements = sch.new (
        record { key = "karpenter.sh/capacity-type"; values = capacity_type ∷ [] }
        ∷ record { key = "topology.kubernetes.io/zone"; values = zone ∷ [] }
        ∷ []);
    price = full_price price (pr.disk_price (disk_from_node_class nc));
    available = is_some price && any (λ z. z == zone) it_zones;
  }

  -- the inner loop, over the capacity types of one zone
  unfoldable pub zone_offerings :
      NodeClass
      → InstanceType qs.Quantity
      → List String
      → String
      → List String
      → Option (List (Offering sch.Requirements pr.Price))
  zone_offerings nc it it_zones zone [] = some []
  zone_offerings nc it it_zones zone (t ∷ ts) =
      let rest = zone_offerings nc it it_zones zone ts in
      elim (price_of t it) [
        | none ↦ none
        | some price ↦ elim rest [
          | none ↦ none
          | some os ↦ some (make_offering nc it_zones zone t price ∷ os)
        ]
      ]

  -- the loop over all zones, in the order of one range over the set
  unfoldable pub create_offerings :
      NodeClass
      → InstanceType qs.Quantity
      → List String
      → List String
      → List String
      → Option (List (Offering sch.Requirements pr.Price))
  create_offerings nc it it_zones types [] = some []
  create_offerings nc it it_zones types (zone ∷ zones) =
      let rest = create_offerings nc it it_zones types zones in
      append_all (zone_offerings nc it it_zones zone types) rest

  -- The body of InjectOfferings. `zero` is yandex.InstanceType{}, on which FromString is called; its
  -- error is dropped.
  unfoldable pub inject :
      {R : Type 0}
      → InstanceType qs.Quantity
      → NodeClass
      → List String
      → OfferedType sch.Requirements pr.Price R
      → Option (OfferedType sch.Requirements pr.Price R)
  inject zero nc zones it =
      elim (create_offerings nc (received qs zero it.name)
        (sch.values_of "topology.kubernetes.io/zone" it.requirements)
        (sch.values_of "karpenter.sh/capacity-type" it.requirements) zones) [
          | none ↦ none
          | some os ↦ some (record it { offerings = os })
        ]

  unfoldable pub inject_offerings :
      {R : Type 0}
      → InstanceType qs.Quantity
      → NodeClass
      → List String
      → List (OfferedType sch.Requirements pr.Price R)
      → Option (List (OfferedType sch.Requirements pr.Price R))
  inject_offerings zero nc zones [] = some []
  inject_offerings zero nc zones (it ∷ its) =
      let rest = inject_offerings zero nc zones its in
      elim (inject zero nc zones it) [
        | none ↦ none
        | some t ↦ elim rest [ none ↦ none | some ts ↦ some (t ∷ ts) ]
      ]
