-- ===== src/Product/Catalog.antt =====
-- GetProductsByPage of GoodFood-BE/internal/server/handlers/products.go and GetProductsUtil of
-- GoodFood-BE/internal/utils/products_helper.go. The search by similarity and the SELECT of a page in the order
-- of the price are parameters.
use good_food_be.Base.{
  ℕ, String, Bool, true, ◌&&◌, Option, none, some, List, [], ◌∷◌, ◌==◌, str_eq, if◌then◌else◌,
}
use good_food_be.Base.Int.{ℤ, pos, ◌-ℤ◌, ◌*ℤ◌, leb_ℤ, wrap64}
use good_food_be.Store.{Result, done, failed}
use good_food_be.Cache.{
  int, text, Key, Redis, Lookup, hit, unreadable, unavailable, get_cache, set_cache,
}
use good_food_be.Http.{ok, error, Action, ◌>>=◌, ◌>>◌, error_if, read}
use good_food_be.Paging.{Float64, page_count, is_zero}
use good_food_be.ProductType.{ProductType, ProductTypeTable}
use good_food_be.Product.{Product, CatalogPage, State, ProductTable}

-- The query parameters of GetProductsByPage.
pub record CatalogQuery : Type 0 where
  pub page : ℤ
  pub type_name : String
  pub search : String
  pub min_price : ℤ
  pub max_price : ℤ
  pub order_by : String

abbrev pub catalog_key : CatalogQuery → Key
catalog_key q = record {
  format = "products:page=%d:type=%s:search=%s:minPrice=%d:maxPrice=%d:orderBy=%s";
  args =
      int q.page
      ∷ text q.type_name
      ∷ text q.search
      ∷ int q.min_price
      ∷ int q.max_price
      ∷ text q.order_by
      ∷ [];
}

abbrev pub catalog_keys : Key
catalog_keys = record { format = "products:keys"; args = [] }

-- `price_of` is the float32 of a whole number; `similar` the similarity of two texts; `page_query order
-- condition limit offset` the SELECT.
module _ {F : Type 0} (float : Float64 F) (types : ProductTypeTable) (products : ProductTable)
    (redis : Redis CatalogPage) (type_rows : List ProductType) (price_of : ℤ → ℤ)
    (similar : String → String → Bool)
    (page_query : String → (Product → Bool) → ℕ → ℤ → List Product → Result (List Product)) where
  -- status = true AND price BETWEEN …, and the search, if there is one.
  abbrev pub on_sale : CatalogQuery → Product → Bool
  on_sale q p =
      p.status
      && leb_ℤ (price_of q.min_price) p.price
      && leb_ℤ p.price (price_of q.max_price)
      && (if str_eq q.search "" then true else similar p.product_name q.search)

  abbrev pub fetch_catalog : CatalogQuery → (Product → Bool) → List Product → Option CatalogPage
  fetch_catalog q condition rows = elim (products.count condition rows) [
    | failed e ↦ none
    | done total ↦
        elim (page_query q.order_by condition 6 (wrap64 (wrap64 (q.page -ℤ pos 1) *ℤ pos 6)) rows) [
          | failed e ↦ none
          | done found ↦
              some (record { rows = found; total_page = page_count float (pos total) (pos 6) })
        ]
  ]

  abbrev pub of_type : CatalogQuery → Result ProductType → List Product → Option CatalogPage
  of_type q (failed e) rows = none
  of_type q (done type) rows =
      fetch_catalog q (λ p. on_sale q p && p.product_type_id == type.product_type_id) rows

  -- none is any of the function's errors; the handler answers all of them with the same text.
  unfoldable pub get_products_util : CatalogQuery → List Product → Option CatalogPage
  get_products_util q rows =
      if str_eq q.type_name ""
      then fetch_catalog q (on_sale q) rows
      else of_type q (types.one (λ t. str_eq t.type_name q.type_name) type_rows) rows

  abbrev pub kept : CatalogQuery → Option CatalogPage → Action State ⊥ CatalogPage
  kept q none s = (error 500 "Failed to fetch products by page", s)
  kept q (some answer) s = (
    ok answer,
    record s { cache = set_cache redis (catalog_key q) answer (some catalog_keys) s.cache },
  )

  abbrev pub cached_or_fetch : CatalogQuery → Lookup CatalogPage → Action State ⊥ CatalogPage
  cached_or_fetch q (hit answer) s = (ok answer, s)
  cached_or_fetch q unreadable s = kept q (get_products_util q s.products) s
  cached_or_fetch q unavailable s = kept q (get_products_util q s.products) s

  unfoldable pub get_products_by_page : CatalogQuery → Action State ⊥ CatalogPage
  get_products_by_page q = do
    error_if (is_zero q.page) 400 "Did not receive pageNum"
    s ← read
    cached_or_fetch q (get_cache redis (catalog_key q) (λ v. some v) s.cache)
