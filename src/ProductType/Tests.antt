-- ===== src/ProductType/Tests.antt =====
-- A product type that is renamed.
use good_food_be.Base.{
  ◌≡◌, refl, sym, ap, ◌∙◌, Bool, true, false, some, none, [], ◌∷◌, arith, str_eq, ◌==◌, ◌≢◌, ◌⊎◌,
  inl, inr, if◌then◌else◌, ==_sound, str_eq_iff,
}
use good_food_be.Store.Memory.{memory, memory_run}
use good_food_be.Http.{error_struct}
use good_food_be.ProductType.{
  ProductType, ProductTypeTable, type_key, validation_product_type, admin_product_type_update,
}
use good_food_be.ProductType.Unique.{Distinct, admin_product_type_update-Distinct}

abbrev db : ProductTypeTable
db = memory type_key (λ p id. record p { product_type_id = id }) (λ p id. refl)

abbrev rice : ProductType
rice = record { product_type_id = 1; type_name = "Rice"; status = true }

abbrev soup : ProductType
soup = record { product_type_id = 2; type_name = "Soup"; status = true }

taken_run :
    admin_product_type_update db (some (record soup { type_name = "Rice" })) (rice ∷ soup ∷ []) ≡ (
      error_struct 400 (record { err_type_name = "Product type already exists" }),
      rice ∷ soup ∷ [],
    )
unfolding admin_product_type_update validation_product_type memory_run
taken_run = refl

-- What stands in the table, by the outcome of the two tests of the keys.
rows :
    (x y : Bool) (p : ProductType)
    → (if x then some rice else if y then some soup else none) ≡ some p
    → ((x ≡ true) × (p ≡ rice)) ⊎ ((y ≡ true) × (p ≡ soup))
rows true y p e = inl (refl, ap (λ o. elim o [ none ↦ rice | some q ↦ q ]) (sym e))
rows false true p e = inr (refl, ap (λ o. elim o [ none ↦ soup | some q ↦ q ]) (sym e))
rows false false p e = ground arith

differ : rice.type_name ≢ soup.type_name
differ e = ground (arith, (str_eq_iff "Rice" "Soup").1 e)

table-Distinct : Distinct (rice ∷ soup ∷ [])
unfolding Distinct
table-Distinct = (
  λ k p here. elim (rows (1 == k) (2 == k) p here) [
    | inl (at, is) ↦ ap (λ q. str_eq q.type_name "") is
    | inr (at, is) ↦ ap (λ q. str_eq q.type_name "") is
  ],
  λ k j p q here there names. elim (rows (1 == k) (2 == k) p here) [
    | inl (at_k, p_is) ↦ elim (rows (1 == j) (2 == j) q there) [
      | inl (at_j, q_is) ↦ sym (==_sound 1 k at_k) ∙ ==_sound 1 j at_j
      | inr (at_j, q_is) ↦
          absurd (differ (sym (ap (λ x. x.type_name) p_is) ∙ names ∙ ap (λ x. x.type_name) q_is))
    ]
    | inr (at_k, p_is) ↦ elim (rows (1 == j) (2 == j) q there) [
      | inl (at_j, q_is) ↦
          absurd
            (differ (sym (ap (λ x. x.type_name) q_is) ∙ sym names ∙ ap (λ x. x.type_name) p_is))
      | inr (at_j, q_is) ↦ sym (==_sound 2 k at_k) ∙ ==_sound 2 j at_j
    ]
  ],
)

admin_product_type_update-Distinct_example :
    Distinct
      (admin_product_type_update db
        (some (record soup { type_name = "Noodles" }))
        (rice ∷ soup ∷ [])).1
admin_product_type_update-Distinct_example =
    admin_product_type_update-Distinct db (some (record soup { type_name = "Noodles" }))
      (rice ∷ soup ∷ []) table-Distinct
