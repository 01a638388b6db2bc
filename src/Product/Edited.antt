-- ===== src/Product/Edited.antt =====
-- What AdminProductUpdate leaves in the tables.
use good_food_be.Base.{
  ⊤, ℕ, ◌≡◌, refl, sym, ap, subst, inl, inr, String, Bool, true, false, ◌&&◌, ◌==◌, Option, some,
  List, [], ◌∷◌, is_some, if◌then◌else◌, Bool-cases, Option-cases, arith,
}
use good_food_be.Store.{Result-cases, done, get}
use good_food_be.Store.Rows.{done-injective}
use good_food_be.Store.Laws.{one_by_key}
use good_food_be.Cache.{Redis}
use good_food_be.Http.{Action, ok, error_struct, Ends, bind_ok, bind_error_struct}
use good_food_be.Product.{
  Product, ProductImage, ProductResponse, ProductError, CatalogPage, State, ProductTable,
  ImageTable, product_key, validation_product,
}
use good_food_be.Product.Edit.{
  with_cover, clear_product, replace_images, update_product, update_valid, valid_or,
  admin_product_update,
}

-- Without new images, the images are as they were.
abbrev pub StayWithout : List ProductImage → List ProductImage → List ProductImage → Type 0
StayWithout [] t t' = t' ≡ t
StayWithout (img ∷ rest) t t' = ⊤

-- The body is valid; the product under the parameter's ID stands in the table; the row of the body, with that
-- product's cover image if there is one, stands in place of the row under the body's own ID, if there is one.
abbrev pub Edits :
    Option (Redis CatalogPage) → ℕ → ProductResponse → State → ProductResponse → State → Type 0
Edits redis product_id body s answer s' =
    ((validation_product body false).0 ≡ true)
    × ((old : Product) × (get product_key product_id s.products ≡ some old)
        × (answer.product ≡ with_cover old body.product))
    × ((k : ℕ)
        → get product_key k s'.products ≡ (
            if answer.product.product_id == k && is_some (get product_key k s.products)
            then some answer.product
            else get product_key k s.products))
    × StayWithout body.product_images s.images s'.images
    × (s'.cache ≡ clear_product redis answer.product.product_id s.cache)

module _ (products : ProductTable) (images : ImageTable) (redis : Option (Redis CatalogPage))
    (db_ok : Bool) (begin commit : Option String) where
  stay :
      (id : ℕ) (new rows t t' : List ProductImage)
      → replace_images images id new t ≡ done (rows, t')
      → StayWithout new t t'
  stay id [] rows t t' e = sym (ap (λ x. x.1) (done-injective e))
  stay id (img ∷ rest) rows t t' e = tt

  update_product-Edits :
      (product_id : ℕ) (body : ProductResponse) (s : State)
      → (validation_product body false).0 ≡ true
      → Ends
          (Edits redis product_id body s)
          s
          (update_product products images redis commit product_id body s)
  update_product-Edits product_id body s valid =
      elim (Result-cases (products.one (λ p. p.product_id == product_id) s.products)) [
        | inr (e, wrong) ↦ rw (wrong) refl
        | inl (old, found) ↦
            let row : Product = with_cover old body.product in
            elim (Result-cases (products.update row s.products)) [
              | inr (e, wrong) ↦ rw (found, wrong) refl
              | inl (t, wrote) ↦
                  elim (Result-cases
                    (replace_images images row.product_id body.product_images s.images)) [
                      | inr (e, wrong) ↦ rw (found, wrote, wrong) refl
                      | inl ((rows, u), replaced) ↦ elim (Option-cases commit) [
                        | inr (text, refused) ↦ rw (found, wrote, replaced, refused) refl
                        | inl committed ↦
                            rw (found, wrote, replaced, committed)
                              (
                                valid,
                                (
                                  old,
                                  (one_by_key products product_id s.products old found).1,
                                  refl,
                                ),
                                (λ k. products.update_get row s.products t k wrote),
                                stay row.product_id body.product_images rows s.images u replaced,
                                refl,
                              )
                      ]
                    ]
            ]
      ]

  valid_passes : (p : Bool × ProductError) (s : State) → p.0 ≡ true → valid_or p s ≡ (ok tt, s)
  valid_passes (true, e) s h = refl
  valid_passes (false, e) s h = ground arith

  invalid_ends :
      (p : Bool × ProductError) (s : State) → p.0 ≡ false → valid_or p s ≡ (error_struct 400 p.1, s)
  invalid_ends (true, e) s h = ground arith
  invalid_ends (false, e) s h = refl

  update_valid-Edits :
      (product_id : ℕ) (body : ProductResponse) (s : State)
      → (validation_product body false).0 ≡ true
      → Ends
          (Edits redis product_id body s)
          s
          (update_valid products images redis db_ok begin commit product_id body s)
  update_valid-Edits product_id body s valid = elim (Bool-cases db_ok) [
    | inr wrong ↦ rw (wrong) refl
    | inl right ↦ elim (Option-cases begin) [
      | inr (text, refused) ↦ rw (right, refused) refl
      | inl begun ↦ rw (right, begun) (update_product-Edits product_id body s valid)
    ]
  ]

  pub admin_product_update-Edits :
      (product_id : ℕ) (body : ProductResponse) (s : State)
      → Ends
          (Edits redis product_id body s)
          s
          (admin_product_update products images redis db_ok begin commit product_id (some body) s)
  unfolding admin_product_update
  admin_product_update-Edits product_id body s =
      let check : Action State ProductError ⊤ = valid_or (validation_product body false) in
      let rest : ⊤ → Action State ProductError ProductResponse =
        λ _. update_valid products images redis db_ok begin commit product_id body in
      elim (Bool-cases (product_id == 0)) [
        | inl missing ↦ rw (missing) refl
        | inr given ↦ elim (Bool-cases (validation_product body false).0) [
          | inr invalid ↦ rw (given) (
              subst (Ends (Edits redis product_id body s) s)
                (sym (
                  bind_error_struct check rest
                    (invalid_ends (validation_product body false) s invalid)))
                refl)
          | inl valid ↦ rw (given) (
              subst (Ends (Edits redis product_id body s) s)
                (sym (bind_ok check rest (valid_passes (validation_product body false) s valid)))
                (update_valid-Edits product_id body s valid))
        ]
      ]
