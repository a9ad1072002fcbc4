-- ===== src/Pricing/Generator/Paging.antt =====
-- The loop over the pages ends with the last page, and gathers the SKUs of them all.
use karpenter_provider_yande.Prelude.{append_nil}
use karpenter_provider_yande.Prelude.{
  ℕ, zero, suc, ◌≤◌, String, ◌≡◌, refl, sym, ap, ◌∙◌, ◌≢◌, inl, inr, Bool, true, false, Option,
  some, List, [], ◌∷◌, ◌++◌, arith, ◌==◌, eq_iff, if◌then◌else◌, Bool-cases, length,
}
use karpenter_provider_yande.Prelude.Errors.{Result, ok}
use karpenter_provider_yande.Pricing.Generator.Sources.{PlatformSourced, add_skus-Sourced}
use karpenter_provider_yande.Pricing.Generator.{PlatformPricing}
use karpenter_provider_yande.Yandex.Platform.{PlatformId}
use karpenter_provider_yande.Prelude.Maps.{lookup}
use karpenter_provider_yande.Pricing.Generator.{Sku, PriceResponse, RegionPricing}
use karpenter_provider_yande.Pricing.Generator.Skus.{Parsing}
use karpenter_provider_yande.Pricing.Generator.Pages.{
  Response, page, page_of, add_skus, no_pricing, turn, fetch_pages, fetch_pricing_from_api,
}

-- the pages that the price list gives from one token on, up to the first without a next token
pub data Paged (api : String → Response) : String → List PriceResponse → Type 0 where
  last :
      (token : String) (p : PriceResponse)
      → api token ≡ page p
      → p.next_page_token ≡ ""
      → Paged api token (p ∷ [])
  next :
      (token : String) (p : PriceResponse) (ps : List PriceResponse)
      → api token ≡ page p
      → p.next_page_token ≢ ""
      → Paged api p.next_page_token ps
      → Paged api token (p ∷ ps)

-- the SKUs of all pages
abbrev pub all_skus : List PriceResponse → List Sku
all_skus [] = []
all_skus (p ∷ ps) = p.skus ++ all_skus ps

module _ {Float : Type 0} (ps : Parsing Float) (to_lower : String → String) where
  add_skus-append :
      (xs ys : List Sku) (pricing : RegionPricing Float)
      → add_skus ps to_lower (xs ++ ys) pricing
        ≡ add_skus ps to_lower ys (add_skus ps to_lower xs pricing)
  unfolding add_skus
  add_skus-append [] ys pricing = refl
  add_skus-append (x ∷ xs) ys pricing = add_skus-append xs ys _

  is_last :
      (b : Bool) (x y : Option (Result (RegionPricing Float))) → b ≡ true → (if b then x else y) ≡ x
  is_last true x y h = refl
  is_last false x y h = cc

  is_next :
      (s : String) (x y : Option (Result (RegionPricing Float)))
      → s ≢ ""
      → (if s == "" then x else y) ≡ y
  is_next s x y h = elim (Bool-cases (s == "")) [
    | inl e ↦ absurd (h ((eq_iff s "").0 e))
    | inr e ↦ rw e refl
  ]

  opened :
      (api : String → Response) (token : String) (fuel : ℕ) (pricing : RegionPricing Float)
      (p : PriceResponse)
      → api token ≡ page p
      → fetch_pages ps to_lower api (suc fuel) token pricing ≡ (
          if p.next_page_token == ""
          then some (ok (add_skus ps to_lower p.skus pricing))
          else fetch_pages ps to_lower api fuel p.next_page_token
              (add_skus ps to_lower p.skus pricing))
  unfolding fetch_pages page_of turn
  opened api token fuel pricing p e =
      ap
        (λ r.
          turn ps to_lower (λ t after. fetch_pages ps to_lower api fuel t after) pricing
            (page_of r))
        e

  fetch_pages-Paged :
      (api : String → Response) (token : String) (pages : List PriceResponse) (fuel : ℕ)
      (pricing : RegionPricing Float)
      → Paged api token pages
      → length pages ≤ fuel
      → fetch_pages ps to_lower api fuel token pricing
        ≡ some (ok (add_skus ps to_lower (all_skus pages) pricing))
  fetch_pages-Paged api token _ zero pricing (last _ p e n) l = absurd (omega arith)
  fetch_pages-Paged api token _ zero pricing (next _ p rest e n r) l = absurd (omega arith)
  fetch_pages-Paged api token _ (suc fuel) pricing (last _ p e n) l =
      opened api token fuel pricing p e
      ∙ (is_last (p.next_page_token == "") _ _ ((eq_iff p.next_page_token "").1 n)
          ∙ ap (λ x. some (ok (add_skus ps to_lower x pricing))) (sym (append_nil p.skus)))
  fetch_pages-Paged api token _ (suc fuel) pricing (next _ p rest e n r) l =
      opened api token fuel pricing p e
      ∙ (is_next p.next_page_token _ _ n
          ∙ fetch_pages-Paged api p.next_page_token rest fuel (add_skus ps to_lower p.skus pricing)
              r (omega arith)
          ∙ ap (λ x. some (ok x)) (sym (add_skus-append p.skus (all_skus rest) pricing)))

  -- If the price list has finitely many pages, the loop ends for any fuel of at least their number,
  -- without an error, and the prices are those of the SKUs of all pages, in their order.
  pub fetch_pricing_from_api-Paged :
      (api : String → Response) (pages : List PriceResponse) (fuel : ℕ) (region : String)
      → Paged api "" pages
      → length pages ≤ fuel
      → fetch_pricing_from_api ps to_lower api fuel region
        ≡ some (ok (add_skus ps to_lower (all_skus pages) (no_pricing ps to_lower region)))
  unfolding fetch_pricing_from_api
  fetch_pricing_from_api-Paged api pages fuel region r l =
      fetch_pages-Paged api "" pages fuel (no_pricing ps to_lower region) r l

  pricing_of :
      (x y : RegionPricing Float)
      → ◌≡◌ {A = Option (Result (RegionPricing Float))} (some (ok x)) (some (ok y))
      → x ≡ y
  pricing_of x y h = cc

  -- If the price list has finitely many pages and the fuel is at least their number, every core price
  -- that the loop returns is the first rate of the latest version of a SKU of some page that is not
  -- passed over, whose name speaks of the platform, of the fraction and, for preemptible machines, of
  -- those.
  pub fetch_pricing_from_api-PlatformSourced :
      (api : String → Response) (pages : List PriceResponse) (fuel : ℕ) (region : String)
      (pricing : RegionPricing Float) (id : PlatformId) (p : PlatformPricing Float)
      → Paged api "" pages
      → length pages ≤ fuel
      → fetch_pricing_from_api ps to_lower api fuel region ≡ some (ok pricing)
      → lookup id pricing.platforms ≡ some p
      → PlatformSourced ps to_lower (all_skus pages) id p
  fetch_pricing_from_api-PlatformSourced api pages fuel region pricing id p r l h e =
      let same =
        pricing_of _ pricing (sym (fetch_pricing_from_api-Paged api pages fuel region r l) ∙ h) in
      add_skus-Sourced ps to_lower (all_skus pages) (no_pricing ps to_lower region) refl id p
        (ap (λ x. lookup id x.platforms) same ∙ e)
