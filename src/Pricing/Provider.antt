-- ===== src/Pricing/Provider.antt =====
-- DefaultProvider of pkg/providers/pricing/pricing.go. Go's float64 is a parameter.
use karpenter_provider_yande.Prelude.{ℕ, Option, none, some, List, [], ◌∷◌, if◌then◌else◌}
use karpenter_provider_yande.Prelude.Maps.{Map, lookup}
use karpenter_provider_yande.Prelude.Int.{ℤ, eqb_ℤ}
use karpenter_provider_yande.Yandex.Platform.{Disk}
use karpenter_provider_yande.Yandex.InstanceType.{InstanceType}

-- float64, as far as prices need it, and the two readings of a quantity. `decimal n` is the literal
-- of n ten-thousandths.
pub record Floats (Quantity : Type 0) : Type 1 where
  pub Float : Type 0
  pub decimal : ℕ → Float
  pub of_int : ℤ → Float
  pub plus : Float → Float → Float
  pub times : Float → Float → Float
  pub over : Float → ℕ → Float
  -- AsApproximateFloat64 and Value
  pub approximate : Quantity → Float
  pub value : Quantity → ℤ

-- pricingPlatform of pricing_types.go
pub record PricingPlatform (Float : Type 0) : Type 0 where
  pub per_fraction : List (ℤ × Float)
  pub preemptible_per_fraction : List (ℤ × Float)
  pub ram : Float
  pub preemptible_ram : Float

-- price, ok := m[fraction]
unfoldable pub fraction_price : {Float : Type 0} → ℤ → List (ℤ × Float) → Option Float
fraction_price z [] = none
fraction_price z ((y, p) ∷ m) = if eqb_ℤ y z then some p else fraction_price z m

module _ {Quantity : Type 0} (f : Floats Quantity) where
  -- cpuPrice*cores + memPrice*(bytes/1024/1024/1024)
  unfoldable pub type_price : InstanceType Quantity → f.Float → f.Float → f.Float
  type_price it cpu_price mem_price =
      f.plus (f.times cpu_price (f.approximate it.cpu))
        (f.times mem_price (f.over (f.over (f.over (f.of_int (f.value it.memory)) 1024) 1024) 1024))

  -- none is the answer (0, false)
  unfoldable pub on_demand_of :
      InstanceType Quantity → Option (PricingPlatform f.Float) → Option f.Float
  on_demand_of it none = none
  on_demand_of it (some platform) = elim (fraction_price it.core_fraction platform.per_fraction) [
    | none ↦ none
    | some cpu_price ↦ some (type_price it cpu_price platform.ram)
  ]

  unfoldable pub spot_of : InstanceType Quantity → Option (PricingPlatform f.Float) → Option f.Float
  spot_of it none = none
  spot_of it (some platform) =
      elim (fraction_price it.core_fraction platform.preemptible_per_fraction) [
        | none ↦ none
        | some cpu_price ↦ some (type_price it cpu_price platform.preemptible_ram)
      ]

  unfoldable pub on_demand_price :
      Map (PricingPlatform f.Float) → InstanceType Quantity → Option f.Float
  unfolding on_demand_of
  on_demand_price mapping it = on_demand_of it (lookup it.platform mapping)

  unfoldable pub spot_price : Map (PricingPlatform f.Float) → InstanceType Quantity → Option f.Float
  unfolding spot_of
  spot_price mapping it = spot_of it (lookup it.platform mapping)

  unfoldable pub disk_price : Map f.Float → Disk → Option f.Float
  disk_price prices disk = elim (lookup disk.type prices) [
    | none ↦ none
    | some price ↦ some (f.times price (f.of_int disk.size))
  ]
