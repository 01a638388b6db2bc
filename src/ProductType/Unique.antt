-- ===== src/ProductType/Unique.antt =====
-- The names of the product types stay distinct and not empty under AdminProductTypeUpdate.
use good_food_be.Base.{
  ℕ, ◌≡◌, ◌≢◌, inl, inr, refl, sym, ap, ◌∙◌, subst, true, false, Option, none, some, List, ◌==◌,
  str_eq, str_eq_iff, Bool-cases, arith, ℕ_discrete,
}
use good_food_be.Store.{done, Result-cases}
use good_food_be.Store.Rows.{key-get}
use good_food_be.Store.Laws.{Elsewhere, update-Writes, one_by_key}
use good_food_be.Http.{Response, ok, error, error_struct, panic}
use good_food_be.ProductType.{
  ProductType, ProductTypeError, ProductTypeTable, type_key, type_of, namesake, named,
  validation_product_type, admin_product_type_update,
}

-- No name is empty, and no two rows have the same name.
unfoldable pub Distinct : List ProductType → Type 0
Distinct t =
    ((k : ℕ) (p : ProductType) → type_of k t ≡ some p → str_eq p.type_name "" ≡ false)
    × ((k j : ℕ) (p q : ProductType)
        → type_of k t ≡ some p
        → type_of j t ≡ some q
        → p.type_name ≡ q.type_name
        → k ≡ j)

-- A change of one row to a name that no other row has keeps the names distinct.
change-Distinct :
    (id : ℕ) (new : ProductType) (t t' : List ProductType)
    → str_eq new.type_name "" ≡ false
    → ((k : ℕ) (p : ProductType) → type_of k t ≡ some p → k ≢ id → p.type_name ≢ new.type_name)
    → type_of id t' ≡ some new
    → Elsewhere type_key id t t'
    → Distinct t
    → Distinct t'
unfolding Distinct
change-Distinct id new t t' full free now rest (named, apart) = (
  λ k p here. elim (ℕ_discrete k id) [
    | yes same ↦ ground (arith, subst (λ j. type_of j t' ≡ some p) same here)
    | no differ ↦ named k p (sym (rest k differ) ∙ here)
  ],
  λ k j p q here there names. elim (ℕ_discrete k id) [
    | yes k_id ↦ elim (ℕ_discrete j id) [
      | yes j_id ↦ k_id ∙ sym j_id
      | no j_other ↦ absurd (
          free j q (sym (rest j j_other) ∙ there) j_other (
            sym names
            ∙ ap (λ x. x.type_name)
                (the_same p new (sym (subst (λ i. type_of i t' ≡ some p) k_id here) ∙ now))))
    ]
    | no k_other ↦ elim (ℕ_discrete j id) [
      | yes j_id ↦ absurd (
          free k p (sym (rest k k_other) ∙ here) k_other (
            names
            ∙ ap (λ x. x.type_name)
                (the_same q new (sym (subst (λ i. type_of i t' ≡ some q) j_id there) ∙ now))))
      | no j_other ↦
          apart k j p q (sym (rest k k_other) ∙ here) (sym (rest j j_other) ∙ there) names
    ]
  ],
)
  where
    the_same : (p q : ProductType) → some p ≡ some q → p ≡ q
    the_same p q e = ap (λ o. elim o [ none ↦ p | some x ↦ x ]) e

module _ (db : ProductTypeTable) where
  valid_name :
      (pt : ProductType) (t : List ProductType)
      → (validation_product_type db pt t).0 ≡ true
      → (str_eq pt.type_name "" ≡ false) × (db.exists (namesake pt) t ≡ done false)
  unfolding validation_product_type
  valid_name pt t valid = elim (Bool-cases (str_eq pt.type_name "")) [
    | inl blank ↦ ground arith
    | inr full ↦ elim (Result-cases (db.exists (namesake pt) t)) [
      | inr (e, wrong) ↦ ground arith
      | inl (true, there) ↦ ground arith
      | inl (false, free) ↦ (full, free)
    ]
  ]

  no_namesake :
      (pt : ProductType) (t : List ProductType) (k : ℕ) (p : ProductType)
      → db.exists (namesake pt) t ≡ done false
      → type_of k t ≡ some p
      → p.product_type_id ≢ pt.product_type_id
      → p.type_name ≢ pt.type_name
  no_namesake pt t k p free here differ same = ground (
    arith,
    db.exists_missing (namesake pt) t k p free here,
    (str_eq_iff p.type_name pt.type_name).1 same,
  )

  abbrev After : Response ProductTypeError ProductType × List ProductType → Type 0
  After (ok row, t') = Distinct t'
  After (error code text, t') = Distinct t'
  After (error_struct code e, t') = Distinct t'
  After (panic, t') = Distinct t'

  after-Distinct :
      (r : Response ProductTypeError ProductType × List ProductType) → After r → Distinct r.1
  after-Distinct (ok row, t') h = h
  after-Distinct (error code text, t') h = h
  after-Distinct (error_struct code e, t') h = h
  after-Distinct (panic, t') h = h

  update-After :
      (pt : ProductType) (t : List ProductType)
      → Distinct t
      → After (admin_product_type_update db (some pt) t)
  unfolding admin_product_type_update
  update-After pt t h = elim (Bool-cases (validation_product_type db pt t).0) [
    | inr invalid ↦ rw invalid h
    | inl valid ↦ elim (Result-cases (db.one (λ p. p.product_type_id == pt.product_type_id) t)) [
      | inr (e, wrong) ↦ rw (valid, wrong) h
      | inl (old, found) ↦
          let new : ProductType = record old { status = pt.status; type_name = pt.type_name } in
          elim (Result-cases (db.update new t)) [
            | inr (e, wrong) ↦ rw (valid, found, wrong) h
            | inl (t', wrote) ↦
                let (same, here) = one_by_key db pt.product_type_id t old found in
                let (now, rest) =
                  update-Writes db new old t t' wrote
                    (subst (λ j. type_of j t ≡ some old) (sym same) here) in
                let (full, free) = valid_name pt t valid in
                rw (valid, found, wrote)
                  (change-Distinct pt.product_type_id new t t' full
                    (λ k p there other.
                      no_namesake pt t k p free there
                        (λ e. other (sym (key-get type_key k t p there) ∙ e)))
                    (subst (λ j. type_of j t' ≡ some new) same now)
                    (subst (λ j. Elsewhere type_key j t t') same rest) h)
          ]
    ]
  ]

  unparsed : (t : List ProductType) → (admin_product_type_update db none t).1 ≡ t
  unfolding admin_product_type_update
  unparsed t = refl

  -- AdminProductTypeUpdate keeps the names of the product types distinct and not empty, however it ends: a
  -- name is written only if the query for another row of that name has answered that there is none.
  pub admin_product_type_update-Distinct :
      (body : Option ProductType) (t : List ProductType)
      → Distinct t
      → Distinct (admin_product_type_update db body t).1
  admin_product_type_update-Distinct none t h = subst Distinct (sym (unparsed t)) h
  admin_product_type_update-Distinct (some pt) t h =
      after-Distinct (admin_product_type_update db (some pt) t) (update-After pt t h)
