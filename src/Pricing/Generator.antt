-- ===== src/Pricing/Generator.antt =====
-- price_gen.go: how the price list of the cloud becomes the prices of a region.
pub mod Names
pub mod Percent
pub mod Skus
pub mod Disks
pub mod Pages
pub mod Output
pub mod Laws
pub mod Sources
pub mod Paging
use Prim.Native.String.{String}
use mathlib.Core.Bool.{Bool}
use mathlib.Core.Option.{Option, none, some}
use mathlib.Core.List.{List, [], ◌∷◌}
use text.Mathlib.Text.{◌==◌}
use karpenter_provider_yande.Prelude.{if◌then◌else◌}
use karpenter_provider_yande.Prelude.Maps.{Map}
use karpenter_provider_yande.Prelude.Int.{ℤ, eqb_ℤ}

-- the parts of the price list's JSON that the program reads
pub record Rate : Type 0 where
  pub start_pricing_quantity : String
  pub unit_price : String

pub record PricingExpression : Type 0 where
  pub quantum : String
  pub rates : List Rate

pub record PricingVersion : Type 0 where
  pub id : String
  pub pricing_expression : PricingExpression

pub record Sku : Type 0 where
  pub id : String
  pub name : String
  pub pricing_unit : String
  pub deprecated : Bool
  pub pricing_versions : List PricingVersion

pub record PriceResponse : Type 0 where
  pub skus : List Sku
  pub next_page_token : String

pub record PlatformPricing (Float : Type 0) : Type 0 where
  pub platform_id : String
  pub per_fraction : List (ℤ × Float)
  pub preemptible_per_fraction : List (ℤ × Float)
  pub ram : Float
  pub preemptible_ram : Float

pub record DiskPricing (Float : Type 0) : Type 0 where
  pub ssd : Float
  pub hdd : Float
  pub ssd_nonreplicated : Float
  pub ssd_io : Float

pub record RegionPricing (Float : Type 0) : Type 0 where
  pub region : String
  pub currency : String
  pub platforms : Map (PlatformPricing Float)
  pub disks : DiskPricing Float

unfoldable pub get_currency : String → String
get_currency region = if region == "ru" then "RUB" else if region == "kz" then "KZT" else "USD"

-- m[fraction] = price
unfoldable pub set_fraction : {Float : Type 0} → ℤ → Float → List (ℤ × Float) → List (ℤ × Float)
set_fraction z p [] = (z, p) ∷ []
set_fraction z p ((y, q) ∷ m) = if eqb_ℤ y z then (z, p) ∷ m else (y, q) ∷ set_fraction z p m

-- latestVersion.PricingExpression.Rates[0].UnitPrice, of the first of the versions, if both are there
unfoldable pub first_rate : List Rate → Option String
first_rate [] = none
first_rate (r ∷ rs) = some r.unit_price

unfoldable pub unit_price_of : List PricingVersion → Option String
unfolding first_rate
unit_price_of [] = none
unit_price_of (v ∷ vs) = first_rate v.pricing_expression.rates
