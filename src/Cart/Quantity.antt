-- ===== src/Cart/Quantity.antt =====
-- What a request does to the rows of a cart, and what a reader sees of it.
use good_food_be.Base.{
  ⊤, ℕ, ◌≡◌, ◌≢◌, ◌⊎◌, refl, ap, ◌∙◌, subst, inl, inr, true, false, Option, none, some, List, [],
  ◌∷◌, arith, ◌==◌, Bool-cases, Option-cases,
}
use good_food_be.Base.Int.{◌+ℤ◌, wrap64}
use good_food_be.Store.{done, failed, no_rows, fault, chosen, Result-cases}
use good_food_be.Store.Laws.{Elsewhere, update-Writes, insert-Adds}
use good_food_be.Cache.{Redis, get_cache}
use good_food_be.Http.{Response, ok, error, error_struct, panic}
use good_food_be.Cart.{
  CartDetail, CartTable, CartDetailResponse, State, Added, inserted, merged, cart_key, row_of,
  redis_key, of_account, of_product, build_cart_response, add_to_cart, get_cart_detail,
}
use good_food_be.Cart.Coherence.{Coherent, rows_of}

-- A row that was not there, with the fields of `d`, is the only change.
abbrev pub IsInsert : CartDetail → List CartDetail → List CartDetail → Type 0
IsInsert d t t' =
    (id : ℕ) × (row_of id t ≡ none)
    × (row_of id t' ≡ some (record d { cart_id = id }))
    × Elsewhere cart_key id t t'

-- How AddToCart may end: with a new row for the product, the quantity that was sent, and no other change
-- of the table; with a row of the same product and account whose quantity has grown by what was sent,
-- in 64-bit arithmetic, and no other change; or with an error, after which the table is as it was or has
-- one new row, the one that could not be read back.
abbrev pub AddsOne :
    {P : Type 0} → CartDetail → List CartDetail → Response ⊥ (Added P) → List CartDetail → Type 0
AddsOne d t (ok (merged row)) t' =
    (of_product d row ≡ true)
    × ((old : CartDetail)
        → row_of row.cart_id t ≡ some old
        → row ≡ record old { quantity = wrap64 (old.quantity +ℤ d.quantity) })
    × (row_of row.cart_id t ≢ none)
    × (row_of row.cart_id t' ≡ some row)
    × Elsewhere cart_key row.cart_id t t'
AddsOne d t (ok (inserted (row, product))) t' =
    (of_product d row ≡ true)
    × ((k : ℕ) (c : CartDetail) → row_of k t ≡ some c → of_product d c ≡ false)
    × (row_of row.cart_id t' ≡ some row)
    × IsInsert d t t'
AddsOne d t (error code text) t' = (t' ≡ t) ⊎ IsInsert d t t'
AddsOne d t (error_struct code e) t' = ⊥
AddsOne d t panic t' = ⊥

module _ {P : Type 0} (redis : Redis (List (CartDetailResponse P))) (db : CartTable)
    (product : ℕ → Option P) where
  insert_step :
      (d row : CartDetail) (t t' : List CartDetail)
      → db.insert d t ≡ done (row, t')
      → IsInsert d t t'
  insert_step d row t t' wrote =
      let (fresh, made, now, rest) = insert-Adds db d row t t' wrote in
      (row.cart_id, fresh, subst (λ r. row_of row.cart_id t' ≡ some r) made now, rest)

  module _ (d : CartDetail) (t : List CartDetail) where
    merge_step :
        (old : CartDetail) (t' : List CartDetail)
        → db.one (of_product d) t ≡ done old
        → db.update (record old { quantity = wrap64 (old.quantity +ℤ d.quantity) }) t ≡ done t'
        → AddsOne {P = P} d t
            (ok (merged (record old { quantity = wrap64 (old.quantity +ℤ d.quantity) })))
            t'
    merge_step old t' found wrote =
        let (hit, here) = db.one_found (of_product d) t old found in
        let (now, rest) = update-Writes db _ old t t' wrote here in
        (hit, λ x there. ground arith, λ out. ground arith, now, rest)

    read_step :
        (row new : CartDetail) (t' : List CartDetail)
        → db.one (of_product d) t ≡ failed no_rows
        → db.insert d t ≡ done (row, t')
        → db.one (of_product d) t' ≡ done new
        → AddsOne {P = P} d t (ok (inserted (new, product new.product_id))) t'
    read_step row new t' missing wrote found =
        let (hit, here) = db.one_found (of_product d) t' new found in
        (
          hit,
          λ k c there. db.one_missing (of_product d) t k c missing there,
          here,
          insert_step d row t t' wrote,
        )

  -- AddToCart either adds the sent quantity, in 64-bit arithmetic, to the row of the product in the
  -- account's cart, or, if there is none, inserts one row with what was sent. It changes nothing else of
  -- the table. On an error the table is as it was or has the one inserted row.
  pub add_to_cart-AddsOne :
      (d : CartDetail) (s : State P)
      → let (r, s') = add_to_cart db redis product (some d) s in AddsOne d s.carts r s'.carts
  unfolding add_to_cart
  add_to_cart-AddsOne d s = elim (Result-cases (db.one (of_product d) s.carts)) [
    | inl (old, found) ↦
        elim (Result-cases
          (db.update (record old { quantity = wrap64 (old.quantity +ℤ d.quantity) }) s.carts)) [
            | inl (t', wrote) ↦ rw (found, wrote) (merge_step d s.carts old t' found wrote)
            | inr (e, wrong) ↦ rw (found, wrong) (inl refl)
          ]
    | inr (no_rows, missing) ↦ elim (Result-cases (db.insert d s.carts)) [
      | inl ((row, t'), wrote) ↦ elim (Result-cases (db.one (of_product d) t')) [
        | inl (new, found) ↦
            rw (missing, wrote, found) (read_step d s.carts row new t' missing wrote found)
        | inr (e, lost) ↦ rw (missing, wrote, lost) (inr (insert_step d row s.carts t' wrote))
      ]
      | inr (e, wrong) ↦ rw (missing, wrong) (inl refl)
    ]
    | inr (fault text, missing) ↦ rw missing (inl refl)
  ]

  pub rows_of-build : (rs : List CartDetail) → rows_of (build_cart_response product rs) ≡ rs
  unfolding build_cart_response
  rows_of-build [] = refl
  rows_of-build (r ∷ rs) = rw (rows_of-build rs)

  -- A response shows the rows of the account, or is an error.
  abbrev pub Shows : ℕ → List CartDetail → Response ⊥ (List (CartDetailResponse P)) → Type 0
  Shows account_id t (ok view) =
      (k : ℕ) → row_of k (rows_of view) ≡ chosen (of_account account_id) (row_of k t)
  Shows account_id t (error code text) = ⊤
  Shows account_id t (error_struct code e) = ⊥
  Shows account_id t panic = ⊥

  fetched :
      (account_id : ℕ) (t rs : List CartDetail)
      → db.all (of_account account_id) t ≡ done rs
      → (k : ℕ)
      → row_of k (rows_of (build_cart_response product rs))
        ≡ chosen (of_account account_id) (row_of k t)
  fetched account_id t rs found k =
      ap (row_of k) (rows_of-build rs) ∙ db.all_found (of_account account_id) t rs k found

  -- While the cached carts are those of the table, a reader cannot tell whether GetCartDetail answers
  -- from the cache: every list it answers with has exactly the account's rows of the table.
  pub get_cart_detail-Shows :
      (account_id : ℕ) (s : State P)
      → Coherent s
      → Shows account_id s.carts (get_cart_detail db redis product account_id s).0
  unfolding get_cart_detail get_cache Coherent
  get_cart_detail-Shows account_id s h = elim (Bool-cases (account_id == 0)) [
    | inl no_account ↦ rw no_account tt
    | inr has_account ↦ elim (Option-cases (redis.get (redis_key account_id) s.cache)) [
      | inr (view, cached) ↦
          rw (has_account, cached, get_cache)
            (h account_id view (redis.get_found _ s.cache view cached))
      | inl absent ↦ elim (Result-cases (db.all (of_account account_id) s.carts)) [
        | inl (rs, found) ↦
            rw (has_account, absent, found, get_cache) (fetched account_id s.carts rs found)
        | inr (e, wrong) ↦ rw (has_account, absent, wrong, get_cache) tt
      ]
    ]
  ]
