-- ===== src/Product/Stale.antt =====
-- What the cache still answers after AdminProductUpdate.
use good_food_be.Base.{
  ℕ, ◌≡◌, refl, ap, ◌∙◌, String, Bool, false, Option, none, some, List, [], ◌∷◌, if◌then◌else◌,
}
use good_food_be.Base.Int.{ℤ}
use good_food_be.Store.{Result}
use good_food_be.Cache.{Key, same_key, listed, str, Cache, Redis, hit, get_cache, clear_cache}
use good_food_be.Cache.Read.{Answers}
use good_food_be.Cache.Clear.{Deletes, clear_cache_exact}
use good_food_be.Http.{Response, ok, error, error_struct, panic, Ends}
use good_food_be.Paging.{Float64, is_zero}
use good_food_be.ProductType.{ProductType, ProductTypeTable}
use good_food_be.Product.{
  Product, ProductResponse, ProductError, CatalogPage, State, ProductTable, ImageTable,
}
use good_food_be.Product.Edit.{catalog_pattern, detail_pattern, clear_product, admin_product_update}
use good_food_be.Product.Edited.{Edits, admin_product_update-Edits}
use good_food_be.Product.Catalog.{CatalogQuery, catalog_key, get_products_by_page}

module _ (redis : Redis CatalogPage) (up : Deletes redis) where
  pattern_kept : (q : CatalogQuery) → listed (catalog_key q) (catalog_pattern ∷ []) ≡ false
  unfolding same_key
  pattern_kept q = refl

  detail_kept :
      (q : CatalogQuery) (id : ℕ) → listed (catalog_key q) (detail_pattern id ∷ []) ≡ false
  unfolding same_key
  detail_kept q id = refl

  one_kept :
      (k j : Key) (c : Cache CatalogPage)
      → listed k (j ∷ []) ≡ false
      → clear_cache (some redis) (j ∷ []) c k ≡ c k
  one_kept k j c differ =
      clear_cache_exact redis up (j ∷ []) c k ∙ ap (λ x. if x then none else c k) differ

  clear_kept :
      (q : CatalogQuery) (id : ℕ) (c : Cache CatalogPage)
      → clear_product (some redis) id c (catalog_key q) ≡ c (catalog_key q)
  clear_kept q id c =
      one_kept (catalog_key q) (detail_pattern id)
        (clear_cache (some redis) (catalog_pattern ∷ []) c) (detail_kept q id)
      ∙ one_kept (catalog_key q) catalog_pattern c (pattern_kept q)

  -- Whatever the request does, the entry of the page is as it was.
  entry_kept :
      (q : CatalogQuery) (product_id : ℕ) (body : ProductResponse) (s : State)
      (run : Response ProductError ProductResponse × State)
      → Ends (Edits (some redis) product_id body s) s run
      → run.1.cache (catalog_key q) ≡ s.cache (catalog_key q)
  entry_kept q product_id body s (ok answer, s') (valid, stands, rows, stay, cleared) =
      ap (λ c. c (catalog_key q)) cleared ∙ clear_kept q answer.product.product_id s.cache
  entry_kept q product_id body s (error code text, s') same = ap (λ t. t.cache (catalog_key q)) same
  entry_kept q product_id body s (error_struct code e, s') same =
      ap (λ t. t.cache (catalog_key q)) same
  entry_kept q product_id body s (panic, s') same = ap (λ t. t.cache (catalog_key q)) same

module _ {F : Type 0} (float : Float64 F) (types : ProductTypeTable) (products : ProductTable)
    (images : ImageTable) (redis : Redis CatalogPage) (type_rows : List ProductType)
    (price_of : ℤ → ℤ) (similar : String → String → Bool)
    (page_query : String → (Product → Bool) → ℕ → ℤ → List Product → Result (List Product))
    (db_ok : Bool) (begin commit : Option String) (up : Deletes redis)
    (answers : Answers redis) where
  abbrev update : ℕ → ProductResponse → State → State
  update product_id body s =
      (admin_product_update products images (some redis) db_ok begin commit product_id (some body)
        s).1

  -- A page of products that is cached is answered as it was after any AdminProductUpdate, whatever product it
  -- has changed: ClearCache takes the text with "*" in it as the key of one set, and no page is stored or
  -- registered under it. The server must answer, and the page not be 0.
  pub admin_product_update-get_products_by_page :
      (q : CatalogQuery) (product_id : ℕ) (body : ProductResponse) (s : State)
      (answer : CatalogPage)
      → is_zero q.page ≡ false
      → s.cache (catalog_key q) ≡ some (str answer)
      → get_products_by_page float types products redis type_rows price_of similar page_query q
          (update product_id body s)
        ≡ (ok answer, update product_id body s)
  unfolding get_products_by_page get_cache
  admin_product_update-get_products_by_page q product_id body s answer paged cached =
      let found = answers (catalog_key q) (update product_id body s).cache answer (
        entry_kept redis up q product_id body s
          (admin_product_update products images (some redis) db_ok begin commit product_id
            (some body) s)
          (admin_product_update-Edits products images (some redis) db_ok begin commit product_id
            body s)
        ∙ cached) in
      let looked : get_cache redis (catalog_key q) (λ v. some v) (update product_id body s).cache
          ≡ hit answer =
        rw (get_cache, found) refl in
      rw (paged, looked) refl
