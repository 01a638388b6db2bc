-- ===== src/Cart/Coherence/Single.antt =====
-- Cart_ModifyQuantity and DeleteCartItem: the requests that find a row by its cart ID.
use good_food_be.Base.{ℕ, ◌≡◌, sym, subst, inl, inr, Option, none, some, List, ◌==◌, Bool-cases}
use good_food_be.Base.Int.{ℤ}
use good_food_be.Store.{done, Result-cases}
use good_food_be.Store.Laws.{update-Writes, delete-Removes, one_by_key}
use good_food_be.Cache.{Redis}
use good_food_be.Cache.Clear.{Deletes}
use good_food_be.Cart.{
  CartDetail, CartTable, CartDetailResponse, State, row_of, by_id, cart_modify_quantity,
  delete_cart_item,
}
use good_food_be.Cart.Coherence.{
  Coherent, Only, update-Only, delete-Only, cleared, cleared-Coherent,
}

-- What the request names: the cart row, if there is one, belongs to the account.
abbrev pub BelongsTo : ℕ → ℕ → List CartDetail → Type 0
BelongsTo account_id cart_id t =
    (c : CartDetail) → row_of cart_id t ≡ some c → c.account_id ≡ account_id

module _ {P : Type 0} (redis : Redis (List (CartDetailResponse P))) (up : Deletes redis) where
  module _ (db : CartTable) (product : ℕ → Option P) where
    modify_step :
        (account_id cart_id : ℕ) (old : CartDetail) (quantity : ℤ) (t t' : List CartDetail)
        → BelongsTo account_id cart_id t
        → db.one (by_id cart_id) t ≡ done old
        → db.update (record old { quantity = quantity }) t ≡ done t'
        → Only account_id t t'
    modify_step account_id cart_id old quantity t t' own found wrote =
        let (same, here) = one_by_key db cart_id t old found in
        let here' : row_of old.cart_id t ≡ some old =
          subst (λ j. row_of j t ≡ some old) (sym same) here in
        let (now, rest) =
          update-Writes db (record old { quantity = quantity }) old t t' wrote here' in
        update-Only account_id old (record old { quantity = quantity }) t t' (own old here)
          (own old here) here' now rest

    -- With a server that answers DEL, Cart_ModifyQuantity keeps the cached carts equal to the table if
    -- the cart row belongs to the account of the request, which the handler does not check.
    pub cart_modify_quantity-Coherent :
        (cart_id account_id : ℕ) (body : Option CartDetail) (s : State P)
        → BelongsTo account_id cart_id s.carts
        → Coherent s
        → Coherent (cart_modify_quantity db redis product cart_id account_id body s).1
    unfolding cart_modify_quantity cleared
    cart_modify_quantity-Coherent cart_id account_id none s own h =
        elim (Bool-cases (cart_id == 0)) [
          | inl no_cart ↦ rw no_cart h
          | inr has_cart ↦ elim (Bool-cases (account_id == 0)) [
            | inl no_account ↦ rw (has_cart, no_account) h
            | inr has_account ↦ rw (has_cart, has_account) h
          ]
        ]
    cart_modify_quantity-Coherent cart_id account_id (some d) s own h =
        elim (Bool-cases (cart_id == 0)) [
          | inl no_cart ↦ rw no_cart h
          | inr has_cart ↦ elim (Bool-cases (account_id == 0)) [
            | inl no_account ↦ rw (has_cart, no_account) h
            | inr has_account ↦ elim (Result-cases (db.one (by_id cart_id) s.carts)) [
              | inl (old, found) ↦
                  elim (Result-cases (db.update (record old { quantity = d.quantity }) s.carts)) [
                    | inl (t', wrote) ↦
                        rw (has_cart, has_account, found, wrote)
                          (cleared-Coherent redis up account_id s t' h (
                            modify_step account_id cart_id old d.quantity s.carts t' own found
                              wrote))
                    | inr (e, wrong) ↦ rw (has_cart, has_account, found, wrong) h
                  ]
              | inr (e, wrong) ↦ rw (has_cart, has_account, wrong) h
            ]
          ]
        ]

    delete_step :
        (account_id cart_id : ℕ) (old : CartDetail) (t t' : List CartDetail)
        → BelongsTo account_id cart_id t
        → db.one (by_id cart_id) t ≡ done old
        → db.delete old t ≡ done t'
        → Only account_id t t'
    delete_step account_id cart_id old t t' own found wrote =
        let (same, here) = one_by_key db cart_id t old found in
        let (now, rest) = delete-Removes db old t t' wrote in
        delete-Only account_id old.cart_id old t t' (own old here)
          (subst (λ j. row_of j t ≡ some old) (sym same) here) now rest

    -- With a server that answers DEL, DeleteCartItem keeps the cached carts equal to the table if the cart
    -- row belongs to the account of the request, which the handler does not check.
    pub delete_cart_item-Coherent :
        (cart_id account_id : ℕ) (s : State P)
        → BelongsTo account_id cart_id s.carts
        → Coherent s
        → Coherent (delete_cart_item db redis product cart_id account_id s).1
    unfolding delete_cart_item cleared
    delete_cart_item-Coherent cart_id account_id s own h = elim (Bool-cases (cart_id == 0)) [
      | inl no_cart ↦ rw no_cart h
      | inr has_cart ↦ elim (Bool-cases (account_id == 0)) [
        | inl no_account ↦ rw (has_cart, no_account) h
        | inr has_account ↦ elim (Result-cases (db.one (by_id cart_id) s.carts)) [
          | inl (old, found) ↦ elim (Result-cases (db.delete old s.carts)) [
            | inl (t', wrote) ↦
                rw (has_cart, has_account, found, wrote)
                  (cleared-Coherent redis up account_id s t' h
                    (delete_step account_id cart_id old s.carts t' own found wrote))
            | inr (e, wrong) ↦ rw (has_cart, has_account, found, wrong) h
          ]
          | inr (e, wrong) ↦ rw (has_cart, has_account, wrong) h
        ]
      ]
    ]
