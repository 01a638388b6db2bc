-- ===== src/ProductType/AdminList.antt =====
-- GetAdminProductTypes of GoodFood-BE/internal/server/handlers/admin_productTypes.go. ILIKE is a parameter.
use good_food_be.Base.{
  ⊤, ℕ, suc, ◌≡◌, ◌≤◌, refl, ap, subst, some, inl, inr, String, Bool, true, List, [], ◌∷◌, All,
  length, ◌==◌, str_eq, if◌then◌else◌, Bool-cases,
}
use good_food_be.Base.Int.{ℤ, pos}
use good_food_be.Store.{Result, Result-cases, done, failed, get, tally}
use good_food_be.Http.{Action, Ends, ◌>>=◌, ◌>>◌, pure, error_if, or_message, read}
use good_food_be.Paging.{Float64, paginate, is_zero}
use good_food_be.Product.{Product, ProductTable, product_key}
use good_food_be.ProductType.{ProductType, ProductTypeTable, type_key}

-- dto.ProductTypesResponse
pub record ProductTypesResponse : Type 0 where
  pub product_type : ProductType
  pub total_product : ℕ

pub record TypePage : Type 0 where
  pub data_rows : List ProductTypesResponse
  pub total_page : ℤ

pub record TypeState : Type 0 where
  pub types : List ProductType
  pub products : List Product

abbrev pub of_type : ProductType → Product → Bool
of_type t p = p.product_type_id == t.product_type_id

unfoldable pub type_condition : (String → String → Bool) → String → ProductType → Bool
type_condition contains search t = if str_eq search "" then true else contains search t.type_name

-- The loop that counts the products of each type.
unfoldable pub count_products :
    ProductTable → List Product → List ProductType → Result (List ProductTypesResponse)
count_products products rows [] = done []
count_products products rows (t ∷ ts) = elim (products.count (of_type t) rows) [
  | failed e ↦ failed e
  | done total ↦ elim (count_products products rows ts) [
    | failed e ↦ failed e
    | done rest ↦ done (record { product_type = t; total_product = total } ∷ rest)
  ]
]

module _ {F : Type 0} (float : Float64 F) (types : ProductTypeTable) (products : ProductTable)
    (contains : String → String → Bool) where
  abbrev pub list_types : ℤ → String → TypeState → Action TypeState ⊥ TypePage
  list_types page search s = do
    total ← or_message (types.count (type_condition contains search) s.types) 500
    let (offset, total_page) = paginate float page (pos 6) (pos total)
    rows ← or_message (types.select (type_condition contains search) 6 offset s.types) 500
    response ← or_message (count_products products s.products rows) 500
    pure (record { data_rows = response; total_page = total_page })

  unfoldable pub get_admin_product_types : ℤ → String → Action TypeState ⊥ TypePage
  get_admin_product_types page search = do
    error_if (is_zero page) 400 "Did not receive page"
    s ← read
    list_types page search s

-- A row that meets `P`, with the number of the products of its type.
abbrev pub IsCounted : (ProductType → Type 0) → List Product → ProductTypesResponse → Type 0
IsCounted P rows r =
    P r.product_type × (r.total_product ≡ tally product_key (of_type r.product_type) rows rows)

Counts :
    (ProductType → Type 0)
    → List Product
    → List ProductType
    → Result (List ProductTypesResponse)
    → Type 0
Counts P rows ts (failed e) = ⊤
Counts P rows ts (done rs) = (length rs ≡ length ts) × All (IsCounted P rows) rs

Counts-step :
    (P : ProductType → Type 0) (rows : List Product) (t : ProductType) (ts : List ProductType)
    (total : ℕ)
    → P t
    → total ≡ tally product_key (of_type t) rows rows
    → (rest : Result (List ProductTypesResponse)) → Counts P rows ts rest
    → Counts P rows (t ∷ ts) (elim rest [
      | failed e ↦ failed e
      | done rs ↦ done (record { product_type = t; total_product = total } ∷ rs)
    ])
unfolding Counts
Counts-step P rows t ts total p e (failed wrong) c = tt
Counts-step P rows t ts total p e (done rs) (long, all) = (ap suc long, ((p, e), all))

count_products-Counts :
    (products : ProductTable) (P : ProductType → Type 0) (rows : List Product)
    (ts : List ProductType)
    → All P ts
    → Counts P rows ts (count_products products rows ts)
unfolding Counts count_products
count_products-Counts products P rows [] all = (refl, tt)
count_products-Counts products P rows (t ∷ ts) (here, there) =
    elim (Result-cases (products.count (of_type t) rows)) [
      | inr (wrong, e) ↦ rw (e, count_products) tt
      | inl (total, e) ↦
          rw (e, count_products)
            (Counts-step P rows t ts total here (products.count_found (of_type t) rows total e)
              (count_products products rows ts) (count_products-Counts products P rows ts there))
    ]

module _ {F : Type 0} (float : Float64 F) (types : ProductTypeTable) (products : ProductTable)
    (contains : String → String → Bool) where
  -- At most six types that match the search, each with the number of its products, and the number of pages that
  -- Paginate gives for as many as match.
  ListsTypes : ℤ → String → TypeState → TypePage → TypeState → Type 0
  ListsTypes page search s answer s' =
      (s' ≡ s)
      × (length answer.data_rows ≤ 6)
      × All
          (IsCounted
            (λ t.
              (type_condition contains search t ≡ true)
              × (get type_key t.product_type_id s.types ≡ some t))
            s.products)
          answer.data_rows
      × (answer.total_page
          ≡ (paginate float page (pos 6)
              (pos (tally type_key (type_condition contains search) s.types s.types))).1)

  counted :
      (page : ℤ) (search : String) (s : TypeState) (total : ℕ) (rows : List ProductType)
      → types.count (type_condition contains search) s.types ≡ done total
      → types.select
          (type_condition contains search)
          6
          (paginate float page (pos 6) (pos total)).0
          s.types
        ≡ done rows
      → (response : List ProductTypesResponse)
      → count_products products s.products rows ≡ done response
      → ListsTypes page search s
          (record {
            data_rows = response;
            total_page = (paginate float page (pos 6) (pos total)).1;
          })
          s
  unfolding ListsTypes Counts
  counted page search s total rows e1 e2 response e3 =
      let (few, all) =
        types.select_found (type_condition contains search) 6
          (paginate float page (pos 6) (pos total)).0 s.types rows e2 in
      let made =
        subst
          (Counts
            (λ t.
              (type_condition contains search t ≡ true)
              × (get type_key t.product_type_id s.types ≡ some t))
            s.products rows)
          e3 (count_products-Counts products _ s.products rows all) in
      (
        refl,
        rw (made.0) few,
        made.1,
        ap (λ n. (paginate float page (pos 6) (pos n)).1)
            (types.count_found (type_condition contains search) s.types total e1),
      )

  -- GetAdminProductTypes writes nothing; a request that it answers has at most six types, each a row of the table
  -- that matches the search, with the number of the products of that type in the table of products, and the
  -- number of pages that Paginate gives for the number of all types that match.
  get_admin_product_types-ListsTypes :
      (page : ℤ) (search : String) (s : TypeState)
      → Ends
          (ListsTypes page search s)
          s
          (get_admin_product_types float types products contains page search s)
  unfolding get_admin_product_types
  get_admin_product_types-ListsTypes page search s = elim (Bool-cases (is_zero page)) [
    | inl no_page ↦ rw no_page refl
    | inr given ↦
        rw given (elim (Result-cases (types.count (type_condition contains search) s.types)) [
          | inr (wrong, e) ↦ rw e refl
          | inl (total, e1) ↦
              rw e1
                (elim (Result-cases (
                  types.select (type_condition contains search) 6
                    (paginate float page (pos 6) (pos total)).0 s.types)) [
                      | inr (wrong, e) ↦ rw e refl
                      | inl (rows, e2) ↦
                          rw e2 (elim (Result-cases (count_products products s.products rows)) [
                            | inr (wrong, e) ↦ rw e refl
                            | inl (response, e3) ↦
                                rw e3 (counted page search s total rows e1 e2 response e3)
                          ])
                    ])
        ])
  ]
