-- ===== src/Cart/Coherence/Many.antt =====
-- AddToCart and DeleteAllItems: the requests that find rows by their account.
use good_food_be.Base.{ℕ, ◌≡◌, refl, ap, inl, inr, Option, none, some, List, arith, Option-cases}
use good_food_be.Base.Int.{ℤ, ◌+ℤ◌, wrap64}
use good_food_be.Store.{done, no_rows, fault, Result-cases}
use good_food_be.Store.Rows.{get-has_key}
use good_food_be.Store.Laws.{update-Writes, insert-Adds}
use good_food_be.Cache.{Redis}
use good_food_be.Cache.Clear.{Deletes}
use good_food_be.Cart.{
  CartDetail, CartTable, CartDetailResponse, State, cart_key, row_of, of_account, of_product,
  add_to_cart, delete_all_items,
}
use good_food_be.Cart.Coherence.{
  Coherent, Only, update-Only, insert-Only, cleared, cleared-Coherent,
}

module _ {P : Type 0} (redis : Redis (List (CartDetailResponse P))) (up : Deletes redis) where
  module _ (db : CartTable) (product : ℕ → Option P) where
    insert_step :
        (d row : CartDetail) (t t' : List CartDetail)
        → db.insert d t ≡ done (row, t')
        → Only d.account_id t t'
    insert_step d row t t' wrote =
        let (fresh, made, now, rest) = insert-Adds db d row t t' wrote in
        insert-Only d.account_id row t t' (ap (λ c. c.account_id) made) fresh now rest

    merge_step :
        (d old : CartDetail) (quantity : ℤ) (t t' : List CartDetail)
        → db.one (of_product d) t ≡ done old
        → db.update (record old { quantity = quantity }) t ≡ done t'
        → Only d.account_id t t'
    merge_step d old quantity t t' found wrote =
        let (hit, here) = db.one_found (of_product d) t old found in
        let (now, rest) =
          update-Writes db (record old { quantity = quantity }) old t t' wrote here in
        update-Only d.account_id old (record old { quantity = quantity }) t t' (ground arith)
          (ground arith) here now rest

    same-Only : (account_id : ℕ) (t : List CartDetail) → Only account_id t t
    same-Only account_id t other k ne = refl

    -- With a server that answers DEL, AddToCart keeps the cached carts equal to the table, whether it
    -- inserts, adds to a quantity or fails.
    pub add_to_cart-Coherent :
        (body : Option CartDetail) (s : State P)
        → Coherent s
        → Coherent (add_to_cart db redis product body s).1
    unfolding add_to_cart cleared
    add_to_cart-Coherent none s h = h
    add_to_cart-Coherent (some d) s h = elim (Result-cases (db.one (of_product d) s.carts)) [
      | inl (old, found) ↦
          let q = wrap64 (old.quantity +ℤ d.quantity) in
          elim (Result-cases (db.update (record old { quantity = q }) s.carts)) [
            | inl (t', wrote) ↦
                rw (found, wrote)
                  (cleared-Coherent redis up d.account_id s t' h
                    (merge_step d old q s.carts t' found wrote))
            | inr (e, wrong) ↦
                rw (found, wrong)
                  (cleared-Coherent redis up d.account_id s s.carts h
                    (same-Only d.account_id s.carts))
          ]
      | inr (no_rows, missing) ↦ elim (Result-cases (db.insert d s.carts)) [
        | inl ((row, t'), wrote) ↦ elim (Result-cases (db.one (of_product d) t')) [
          | inl (again, found) ↦
              rw (missing, wrote, found)
                (cleared-Coherent redis up d.account_id s t' h (insert_step d row s.carts t' wrote))
          | inr (e, lost) ↦
              rw (missing, wrote, lost)
                (cleared-Coherent redis up d.account_id s t' h (insert_step d row s.carts t' wrote))
        ]
        | inr (e, wrong) ↦
            rw (missing, wrong)
              (cleared-Coherent redis up d.account_id s s.carts h (same-Only d.account_id s.carts))
      ]
      | inr (fault text, missing) ↦
          rw missing
            (cleared-Coherent redis up d.account_id s s.carts h (same-Only d.account_id s.carts))
    ]

    delete_all_step :
        (account_id : ℕ) (rs t t' : List CartDetail)
        → db.all (of_account account_id) t ≡ done rs
        → db.delete_all rs t ≡ done t'
        → Only account_id t t'
    delete_all_step account_id rs t t' found wrote other k ne = elim (Option-cases (row_of k t)) [
      | inl out ↦ ground (
        arith,
        db.delete_all_get rs t t' k wrote,
        db.all_found (of_account account_id) t rs k found,
        get-has_key cart_key k rs,
      )
      | inr (c, here) ↦ ground (
        arith,
        db.delete_all_get rs t t' k wrote,
        db.all_found (of_account account_id) t rs k found,
        get-has_key cart_key k rs,
      )
    ]

    -- With a server that answers DEL, DeleteAllItems keeps the cached carts equal to the table.
    pub delete_all_items-Coherent :
        (account_id : ℕ) (s : State P)
        → Coherent s
        → Coherent (delete_all_items db redis product account_id s).1
    unfolding delete_all_items cleared
    delete_all_items-Coherent account_id s h =
        elim (Result-cases (db.all (of_account account_id) s.carts)) [
          | inl (rs, found) ↦ elim (Result-cases (db.delete_all rs s.carts)) [
            | inl (t', wrote) ↦
                rw (found, wrote)
                  (cleared-Coherent redis up account_id s t' h
                    (delete_all_step account_id rs s.carts t' found wrote))
            | inr (e, wrong) ↦ rw (found, wrong) h
          ]
          | inr (e, wrong) ↦ rw wrong h
        ]
