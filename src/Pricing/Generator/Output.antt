-- ===== src/Pricing/Generator/Output.antt =====
-- generatePricingFile: the prices under the names of the platforms' constants. The template that
-- prints them is text.
use karpenter_provider_yande.Prelude.{String, Bool, none, some, List, [], ◌∷◌, map}
use karpenter_provider_yande.Prelude.Maps.{Map, lookup, insert}
use karpenter_provider_yande.Prelude.Int.{ℤ}
use karpenter_provider_yande.Prelude.Sort.{sort_slice}
use karpenter_provider_yande.Pricing.Provider.{PricingPlatform}
use karpenter_provider_yande.Pricing.Generator.{
  PlatformPricing, DiskPricing, RegionPricing, set_fraction,
}
use karpenter_provider_yande.Pricing.Generator.Names.{get_constant_name}

-- the template's data beside the time
pub record PricingFile (Float : Type 0) : Type 0 where
  pub region : String
  pub platforms : Map (PricingPlatform Float)
  pub disks : DiskPricing Float

module _ {Float : Type 0} where
  -- the loop over the fractions
  unfoldable pub converted_fractions : List (ℤ × Float) → List (ℤ × Float) → List (ℤ × Float)
  converted_fractions [] converted = converted
  converted_fractions ((fraction, price) ∷ m) converted =
      converted_fractions m (set_fraction fraction price converted)

  unfoldable pub converted_platform : PlatformPricing Float → PricingPlatform Float
  unfolding converted_fractions
  converted_platform platform = record {
    per_fraction = converted_fractions platform.per_fraction [];
    preemptible_per_fraction = converted_fractions platform.preemptible_per_fraction [];
    ram = platform.ram;
    preemptible_ram = platform.preemptible_ram;
  }

  module _ (zero_price : Float) where
    -- pricing.Platforms[id]: the zero value where it is missing
    unfoldable pub platform_at : String → Map (PlatformPricing Float) → PlatformPricing Float
    platform_at id platforms = elim (lookup id platforms) [
      | some p ↦ p
      | none ↦ record {
        platform_id = "";
        per_fraction = [];
        preemptible_per_fraction = [];
        ram = zero_price;
        preemptible_ram = zero_price;
      }
    ]

    unfoldable pub convert_platforms :
        List String
        → Map (PlatformPricing Float)
        → Map (PricingPlatform Float)
        → Map (PricingPlatform Float)
    unfolding converted_platform platform_at
    convert_platforms [] platforms data_platforms = data_platforms
    convert_platforms (id ∷ ids) platforms data_platforms = convert_platforms ids platforms (
        insert (get_constant_name id) (converted_platform (platform_at id platforms))
          data_platforms)

    -- `less` is the order of sort.Strings
    unfoldable pub pricing_file : (String → String → Bool) → RegionPricing Float → PricingFile Float
    unfolding convert_platforms
    pricing_file less pricing = record {
      region = pricing.region;
      platforms =
          convert_platforms (sort_slice less (map (λ e. e.0) pricing.platforms)) pricing.platforms
            [];
      disks = pricing.disks;
    }
