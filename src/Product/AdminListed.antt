-- ===== src/Product/AdminListed.antt =====
-- What GetAdminProducts answers.
use good_food_be.Base.{
  ℕ, suc, ◌≡◌, ◌≤◌, refl, sym, ap, ◌∙◌, subst, inl, inr, String, Bool, true, Option, none, some,
  List, [], ◌∷◌, length, All, Bool-cases, Option-cases, arith,
}
use good_food_be.Base.Int.{ℤ, pos, ◌-ℤ◌, ◌*ℤ◌, wrap64}
use good_food_be.Store.{Result, Result-cases, done, get, chosen, tally}
use good_food_be.Http.{Ends}
use good_food_be.Paging.{Float64, page_count, is_zero}
use good_food_be.Product.{Product, ProductTable, product_key}
use good_food_be.Product.AdminList.{
  ProductPages, ProductCards, TypedProduct, AdminPage, AdminState, AdminQuery, one_of_types,
  with_types, admin_condition, admin_order, typed_rows, get_admin_products_util, get_admin_products,
}
use good_food_be.ProductType.{ProductType, ProductTypeTable, type_key}

-- Rows that carry a property and their type, made of products that have it.
abbrev Typed : (Product → Type 0) → List ProductType → TypedProduct → Type 0
Typed P loaded r =
    P r.product × (get type_key r.product.product_type_id loaded ≡ some r.product_type)

some-inj {ℓ} : {A : Type ℓ} (x y : A) → ◌≡◌ {A = Option A} (some x) (some y) → x ≡ y
some-inj x y e = ap (λ o. elim o [ none ↦ x | some z ↦ z ]) e

with_types-Typed :
    (P : Product → Type 0) (loaded : List ProductType) (ps : List Product) (rs : List TypedProduct)
    → All P ps
    → with_types loaded ps ≡ some rs
    → (length rs ≡ length ps) × All (Typed P loaded) rs
unfolding with_types
with_types-Typed P loaded [] rs all e =
    subst (λ x. (length x ≡ 0) × All (Typed P loaded) x) (some-inj [] rs e) (refl, tt)
with_types-Typed P loaded (p ∷ ps) rs (here, there) e =
    elim (Option-cases (get type_key p.product_type_id loaded)) [
      | inl out ↦ absurd (nil_type (subst step out e))
      | inr (t, found) ↦ elim (Option-cases (with_types loaded ps)) [
        | inl out ↦ absurd (nil_type (subst (rest_of t) out (subst step found e)))
        | inr (rest, made) ↦
            let (long, all) = with_types-Typed P loaded ps rest there made in
            subst (λ x. (length x ≡ suc (length ps)) × All (Typed P loaded) x)
              (some-inj (record { product = p; product_type = t } ∷ rest) rs
                (subst (rest_of t) made (subst step found e)))
              (ap suc long, ((here, found), all))
      ]
    ]
  where
    rest_of : ProductType → Option (List TypedProduct) → Type 0
    rest_of t o =
        elim o [ none ↦ none | some rest ↦ some (record { product = p; product_type = t } ∷ rest) ]
        ≡ some rs

    step : Option ProductType → Type 0
    step o =
        elim o [
          | none ↦ none
          | some t ↦ elim (with_types loaded ps) [
            | none ↦ none
            | some rest ↦ some (record { product = p; product_type = t } ∷ rest)
          ]
        ]
        ≡ some rs

    nil_type : none ≡ some rs → ⊥
    nil_type h = ground arith

-- The type of a row is the one that stands in the table under the row's type ID.
loaded_type :
    (types : ProductTypeTable) (t loaded : List ProductType) (ps : List Product) (k : ℕ)
    (x : ProductType)
    → types.all (one_of_types ps) t ≡ done loaded
    → get type_key k loaded ≡ some x
    → get type_key k t ≡ some x
loaded_type types t loaded ps k x e found =
    of_chosen (get type_key k t) (sym (types.all_found (one_of_types ps) t loaded k e) ∙ found)
  where
    of_chosen : (o : Option ProductType) → chosen (one_of_types ps) o ≡ some x → o ≡ some x
    of_chosen none h = h
    of_chosen (some y) h = ground arith

module _ {F : Type 0} (float : Float64 F) (types : ProductTypeTable)
    (ilike contains : String → String → Bool) (weight_text : ℤ → String) where
  -- The row meets the condition, stands in the table, and comes with its type of the table.
  abbrev IsListed : (Product → Bool) → AdminState → TypedProduct → Type 0
  IsListed condition s r =
      ((condition r.product ≡ true)
        × (get product_key r.product.product_id s.products ≡ some r.product))
      × (get type_key r.product.product_type_id s.types ≡ some r.product_type)

  -- At most six rows that are listed, and the number of pages that all rows of the same condition make; nothing
  -- is written.
  Lists : AdminQuery → AdminState → AdminPage → AdminState → Type 0
  Lists q s answer s' =
      (s' ≡ s)
      × ((condition : Product → Bool) × (admin_condition types ilike contains weight_text q.sort
              q.search s.types
            ≡ done condition)
          × (length answer.data_rows ≤ 6)
          × All (IsListed condition s) answer.data_rows
          × (answer.total_page
              ≡ page_count float (pos (tally product_key condition s.products s.products)) (pos 6)))

module _ {F : Type 0} (float : Float64 F) (products : ProductTable) (types : ProductTypeTable)
    (pages : ProductPages) (ilike contains : String → String → Bool) (weight_text : ℤ → String)
    (fetch_cards : List Product → Result ProductCards) where
  All-IsListed :
      (condition : Product → Bool) (s : AdminState) (ps : List Product) (loaded : List ProductType)
      → types.all (one_of_types ps) s.types ≡ done loaded
      → (rs : List TypedProduct)
      → All
          (Typed
            (λ p. (condition p ≡ true) × (get product_key p.product_id s.products ≡ some p))
            loaded)
          rs
      → All (IsListed float types ilike contains weight_text condition s) rs
  All-IsListed condition s ps loaded e [] all = tt
  All-IsListed condition s ps loaded e (r ∷ rs) ((here, typed), there) = (
    (here, loaded_type types s.types loaded ps r.product.product_type_id r.product_type e typed),
    All-IsListed condition s ps loaded e rs there,
  )

  typed_rows-Lists :
      (q : AdminQuery) (s : AdminState) (cards : ProductCards) (type_rows : List ProductType)
      (condition : Product → Bool) (total : ℕ) (rows : List Product)
      → admin_condition types ilike contains weight_text q.sort q.search s.types ≡ done condition
      → products.count condition s.products ≡ done total
      → (offset : ℤ) → pages.page (admin_order q.sort) condition 6 offset s.products ≡ done rows
      → Ends (Lists float types ilike contains weight_text q s) s (
          typed_rows float products types pages ilike contains weight_text fetch_cards s cards
            type_rows total rows s)
  unfolding Lists
  typed_rows-Lists q s cards type_rows condition total rows valid counted offset found =
      elim (Result-cases (types.all (one_of_types rows) s.types)) [
        | inr (wrong, e) ↦ rw e refl
        | inl (loaded, e) ↦ elim (Option-cases (with_types loaded rows)) [
          | inl nil ↦ rw (e, nil) refl
          | inr (response, made) ↦
              let (few, all) =
                pages.page_found (admin_order q.sort) condition 6 offset s.products rows found in
              let (long, typed) =
                with_types-Typed
                  (λ p. (condition p ≡ true) × (get product_key p.product_id s.products ≡ some p))
                  loaded rows response all made in
              rw (e, made)
                (
                  refl,
                  (
                    condition,
                    valid,
                    rw long few,
                    All-IsListed condition s rows loaded e response typed,
                    ap (λ n. page_count float (pos n) (pos 6))
                        (products.count_found condition s.products total counted),
                  ),
                )
        ]
      ]

  util-Lists :
      (q : AdminQuery) (s : AdminState) (cards : ProductCards)
      → Ends (Lists float types ilike contains weight_text q s) s (
          get_admin_products_util float products types pages ilike contains weight_text fetch_cards
            q s cards s)
  util-Lists q s cards = elim (Result-cases (types.all (λ x. true) s.types)) [
    | inr (wrong, e) ↦ rw e refl
    | inl (type_rows, e1) ↦
        rw e1
          (elim (Result-cases
            (admin_condition types ilike contains weight_text q.sort q.search s.types)) [
              | inr (wrong, e) ↦ rw e refl
              | inl (condition, e2) ↦
                  rw e2 (elim (Result-cases (products.count condition s.products)) [
                    | inr (wrong, e) ↦ rw e refl
                    | inl (total, e3) ↦
                        rw e3
                          (elim (Result-cases (
                            pages.page (admin_order q.sort) condition 6
                              (wrap64 (wrap64 (q.page -ℤ pos 1) *ℤ pos 6)) s.products)) [
                                | inr (wrong, e) ↦ rw e refl
                                | inl (rows, e4) ↦ rw e4 (
                                    typed_rows-Lists q s cards type_rows condition total rows e2 e3
                                      (wrap64 (wrap64 (q.page -ℤ pos 1) *ℤ pos 6)) e4)
                              ])
                  ])
            ])
  ]

  -- GetAdminProducts writes nothing. A request that it answers has at most six rows, each a product of the table
  -- that meets the filter of the sort and the search, with the type that its type ID names; and the number of
  -- pages is that of all products which meet the same filter, six on a page.
  get_admin_products-Lists :
      (q : AdminQuery) (s : AdminState)
      → Ends
          (Lists float types ilike contains weight_text q s)
          s
          (get_admin_products float products types pages ilike contains weight_text fetch_cards q s)
  unfolding get_admin_products
  get_admin_products-Lists q s = elim (Bool-cases (is_zero q.page)) [
    | inl no_page ↦ rw no_page refl
    | inr given ↦ rw given (elim (Result-cases (fetch_cards s.products)) [
      | inr (wrong, e) ↦ rw e refl
      | inl (cards, e) ↦ rw e (util-Lists q s cards)
    ])
  ]
