-- ===== src/Pricing/Generator/Pages.antt =====
-- fetchPricingFromAPI: the pages of the price list, one after the other.
use karpenter_provider_yande.Prelude.{
  ℕ, zero, suc, String, Bool, true, false, ◌||◌, Option, none, some, List, [], ◌∷◌, ◌==◌,
  if◌then◌else◌, contains,
}
use karpenter_provider_yande.Prelude.Errors.{Error, Result, ok, err, message, wrap}
use karpenter_provider_yande.Pricing.Generator.{Sku, PriceResponse, RegionPricing, get_currency}
use karpenter_provider_yande.Pricing.Generator.Skus.{Parsing, process_sku}
use karpenter_provider_yande.Pricing.Generator.Disks.{process_disk_sku}

-- the answer to the request of one page
pub data Response : Type 0 where
  no_request : Error → Response
  transport : Error → Response
  -- the text of a status that is not 200, with the body
  bad_status : String → Response
  undecodable : Error → Response
  page : PriceResponse → Response

unfoldable pub page_of : Response → Result PriceResponse
page_of (no_request e) = err (wrap "failed to create request: " e)
page_of (transport e) = err (wrap "HTTP request failed: " e)
page_of (bad_status m) = err (message m)
page_of (undecodable e) = err (wrap "failed to decode response: " e)
page_of (page p) = ok p

-- the SKUs that the loop passes over
unfoldable pub is_skipped : Sku → Bool
is_skipped sku =
    sku.deprecated
    || (contains sku.name "резервирование"
        || (contains sku.name "Программно ускоренная сеть"
            || (contains sku.name "Самостоятельная покупка"
                || contains sku.name "Выделенный хост")))

module _ {Float : Type 0} (ps : Parsing Float) (to_lower : String → String) where
  unfoldable pub or_platform : Sku → Bool × RegionPricing Float → RegionPricing Float
  or_platform sku (true, pricing) = pricing
  or_platform sku (false, pricing) = process_sku ps to_lower sku pricing

  -- the body of the loop over the SKUs
  unfoldable pub add_sku : Sku → RegionPricing Float → RegionPricing Float
  unfolding or_platform
  add_sku sku pricing =
      if is_skipped sku then pricing else or_platform sku (process_disk_sku ps to_lower sku pricing)

  unfoldable pub add_skus : List Sku → RegionPricing Float → RegionPricing Float
  add_skus [] pricing = pricing
  add_skus (sku ∷ skus) pricing = add_skus skus (add_sku sku pricing)

  abbrev pub no_pricing : String → RegionPricing Float
  no_pricing region = record {
    region = region;
    currency = get_currency region;
    platforms = [];
    disks = record {
      ssd = ps.zero_price;
      hdd = ps.zero_price;
      ssd_nonreplicated = ps.zero_price;
      ssd_io = ps.zero_price;
    };
  }

  -- one turn of the loop, with what the next turns do from a token on
  unfoldable pub turn :
      (String → RegionPricing Float → Option (Result (RegionPricing Float)))
      → RegionPricing Float
      → Result PriceResponse
      → Option (Result (RegionPricing Float))
  turn go_on pricing (err e) = some (err e)
  turn go_on pricing (ok p) =
      let after = add_skus p.skus pricing in
      let rest = go_on p.next_page_token after in
      if p.next_page_token == "" then some (ok after) else rest

  module _ (api : String → Response) where
    -- The loop from one page token on. Its fuel bounds the pages: none is a run that has not ended.
    unfoldable pub fetch_pages :
        ℕ → String → RegionPricing Float → Option (Result (RegionPricing Float))
    unfolding turn page_of
    fetch_pages zero token pricing = none
    fetch_pages (suc fuel) token pricing =
        turn (λ t after. fetch_pages fuel t after) pricing (page_of (api token))

    unfoldable pub fetch_pricing_from_api : ℕ → String → Option (Result (RegionPricing Float))
    unfolding fetch_pages
    fetch_pricing_from_api fuel region = fetch_pages fuel "" (no_pricing region)
