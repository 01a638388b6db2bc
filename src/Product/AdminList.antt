-- ===== src/Product/AdminList.antt =====
-- GetAdminProducts and GetAdminProductDetail of GoodFood-BE/internal/server/handlers/admin_products.go with
-- GetAdminProductsUtil of GoodFood-BE/internal/utils/products_helper.go; GetFour, GetTypes and GetSimilar of
-- GoodFood-BE/internal/server/handlers/products.go. ILIKE, the text of a number, the counts of FetchCards and the
-- SELECT of a page are parameters.
use good_food_be.Base.{
  ℕ, ◌≡◌, ◌≤◌, String, Bool, true, false, not, ◌&&◌, ◌||◌, Option, none, some, List, [], ◌∷◌, map,
  length, All, ◌==◌, str_eq, if◌then◌else◌,
}
use good_food_be.Base.Int.{ℤ, pos, ◌-ℤ◌, ◌*ℤ◌, wrap64}
use good_food_be.Store.{Result, done, failed, get}
use good_food_be.Http.{ok, panic, Action, ◌>>=◌, ◌>>◌, pure, error_if, or_message, or_error, read}
use good_food_be.Paging.{Float64, page_count, is_zero}
use good_food_be.Product.{Product, ProductImage, ProductTable, ImageTable, product_key}
use good_food_be.ProductType.{ProductType, ProductTypeTable, type_key}

-- The ORDER BY of a SELECT.
pub data Order : Type 0 where
  unordered by_id low_to_high high_to_low : Order

-- SELECT … WHERE p ORDER BY … LIMIT n OFFSET m, with n and m in this order, and what its success means.
pub record ProductPages : Type 0 where
  pub page : Order → (Product → Bool) → ℕ → ℤ → List Product → Result (List Product)
  pub page_found :
      (o : Order) (p : Product → Bool) (n : ℕ) (m : ℤ) (t rs : List Product)
      → page o p n m t ≡ done rs
      → (length rs ≤ n) × All (λ r. (p r ≡ true) × (get product_key r.product_id t ≡ some r)) rs

-- dto.ProductCards
pub record ProductCards : Type 0 where
  pub total_product : ℕ
  pub total_inactive : ℕ

-- dto.ProductResponse, as far as the list fills it.
pub record TypedProduct : Type 0 where
  pub product : Product
  pub product_type : ProductType

-- dto.GetFourStruct, where the type may be a nil pointer.
pub record FeaturedProduct : Type 0 where
  pub product : Product
  pub product_type : Option ProductType

-- What GetAdminProducts answers.
pub record AdminPage : Type 0 where
  pub data_rows : List TypedProduct
  pub cards : ProductCards
  pub type_rows : List ProductType
  pub total_page : ℤ

-- What GetAdminProductDetail answers.
pub record AdminDetail : Type 0 where
  pub detail : TypedProduct
  pub image_rows : List ProductImage

pub record AdminState : Type 0 where
  pub products : List Product
  pub types : List ProductType
  pub images : List ProductImage

pub record AdminQuery : Type 0 where
  pub page : ℤ
  pub sort : String
  pub search : String

-- qm.Load of the types of some products.
abbrev pub one_of_types : List Product → ProductType → Bool
one_of_types [] t = false
one_of_types (p ∷ ps) t = p.product_type_id == t.product_type_id || one_of_types ps t

-- `*p.R.ProductTypeIDProductType` for each product; none is the dereference of nil.
unfoldable pub with_types : List ProductType → List Product → Option (List TypedProduct)
with_types loaded [] = some []
with_types loaded (p ∷ ps) = elim (get type_key p.product_type_id loaded) [
  | none ↦ none
  | some t ↦ elim (with_types loaded ps) [
    | none ↦ none
    | some rest ↦ some (record { product = p; product_type = t } ∷ rest)
  ]
]

abbrev pub or_panic : {S E A : Type 0} → Option A → Action S E A
or_panic none s = (panic, s)
or_panic (some a) s = (ok a, s)

-- `ilike pattern x` with a pattern that holds no wildcards of the code's own, and `contains` the one between
-- two "%"; `weight_text` is CAST(weight AS TEXT).
module _ (types : ProductTypeTable) (ilike contains : String → String → Bool)
    (weight_text : ℤ → String) where
  abbrev pub of_searched_type : Result ProductType → Result (Product → Bool)
  of_searched_type (failed e) = failed e
  of_searched_type (done t) = done (λ p. p.product_type_id == t.product_type_id)

  abbrev pub if_searched : String → Result (Product → Bool) → Result (Product → Bool)
  if_searched search condition = if str_eq search "" then done (λ p. true) else condition

  -- The switch over the sort filters, as the WHERE of the count and of the page.
  unfoldable pub admin_condition : String → String → List ProductType → Result (Product → Bool)
  admin_condition sort search rows =
      if str_eq sort "Type"
      then if_searched search (of_searched_type (types.one (λ t. ilike search t.type_name) rows))
      else if str_eq sort "Product Name"
      then if_searched search (done (λ p. contains search p.product_name))
      else if str_eq sort "Weight"
      then if_searched search (done (λ p. contains search (weight_text p.weight)))
      else if str_eq sort "Active Status"
      then done (λ p. p.status)
      else if str_eq sort "Inactive Status"
      then done (λ p. not p.status)
      else done (λ p. true)

abbrev pub admin_order : String → Order
admin_order sort =
    if str_eq sort "Low to high price"
    then low_to_high
    else if str_eq sort "High to low price"
    then high_to_low
    else by_id

module _ {F : Type 0} (float : Float64 F) (products : ProductTable) (types : ProductTypeTable)
    (pages : ProductPages) (ilike contains : String → String → Bool) (weight_text : ℤ → String)
    (fetch_cards : List Product → Result ProductCards) where
  abbrev pub typed_rows :
      AdminState
      → ProductCards
      → List ProductType
      → ℕ
      → List Product
      → Action AdminState ⊥ AdminPage
  typed_rows t cards type_rows total rows = do
    loaded ← or_message (types.all (one_of_types rows) t.types) 500
    response ← or_panic (with_types loaded rows)
    pure (record {
      data_rows = response;
      cards = cards;
      type_rows = type_rows;
      total_page = page_count float (pos total) (pos 6);
    })

  abbrev pub get_admin_products_util :
      AdminQuery → AdminState → ProductCards → Action AdminState ⊥ AdminPage
  get_admin_products_util q t cards = do
    type_rows ← or_message (types.all (λ x. true) t.types) 500
    condition ←
        or_message (admin_condition types ilike contains weight_text q.sort q.search t.types) 500
    total ← or_message (products.count condition t.products) 500
    rows ←
        or_message
          (pages.page (admin_order q.sort) condition 6 (wrap64 (wrap64 (q.page -ℤ pos 1) *ℤ pos 6))
            t.products)
          500
    typed_rows t cards type_rows total rows

  unfoldable pub get_admin_products : AdminQuery → Action AdminState ⊥ AdminPage
  get_admin_products q = do
    error_if (is_zero q.page) 400 "Did not receive page"
    s ← read
    cards ← or_message (fetch_cards s.products) 500
    get_admin_products_util q s cards

module _ (products : ProductTable) (types : ProductTypeTable) (images : ImageTable)
    (pages : ProductPages) where
  abbrev pub detail_of :
      List Product → List ProductImage → List ProductType → Action AdminState ⊥ AdminDetail
  detail_of found pictures loaded s = elim (with_types loaded found) [
    | some (typed ∷ rest) ↦ (ok (record { detail = typed; image_rows = pictures }), s)
    | _ ↦ (panic, s)
  ]

  -- The errors of the query and of its two qm.Load have one answer.
  unfoldable pub get_admin_product_detail : ℕ → Action AdminState ⊥ AdminDetail
  get_admin_product_detail id = do
    error_if (id == 0) 400 "Did not receive productID!"
    s ← read
    product ← or_error (products.one (λ p. p.product_id == id) s.products) 500 "Product not found!"
    loaded ← or_error (types.all (one_of_types (product ∷ [])) s.types) 500 "Product not found!"
    pictures ←
        or_error (images.all (λ i. i.product_id == product.product_id) s.images) 500
          "Product not found!"
    detail_of (product ∷ []) pictures loaded

  abbrev pub featured : List ProductType → Product → FeaturedProduct
  featured loaded p = record { product = p; product_type = get type_key p.product_type_id loaded }

  -- At most four products that are on sale.
  unfoldable pub get_four : Action AdminState ⊥ (List FeaturedProduct)
  get_four = do
    s ← read
    rows ← or_message (pages.page unordered (λ p. p.status) 4 (pos 0) s.products) 500
    loaded ← or_message (types.all (one_of_types rows) s.types) 500
    pure (map (featured loaded) rows)

  unfoldable pub get_types : Action AdminState ⊥ (List ProductType)
  get_types = do
    s ← read
    or_error (types.all (λ t. t.status) s.types) 500 "Failed to fetch product types!"

  unfoldable pub get_similar : ℕ → ℕ → Action AdminState ⊥ (List Product)
  get_similar product_id type_id = do
    error_if (product_id == 0) 400 "Did not receive ID!"
    error_if (type_id == 0) 400 "Did not receive typeID!"
    s ← read
    or_error
        (products.all (λ p. not (p.product_id == product_id) && p.product_type_id == type_id)
          s.products)
        500 "ID not found!"
