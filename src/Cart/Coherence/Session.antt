-- ===== src/Cart/Coherence/Session.antt =====
-- Any sequence of requests to the cart.
use good_food_be.Base.{
  ⊤, [], ◌∷◌, ℕ, ◌≡◌, sym, ap, ◌∙◌, inl, inr, Option, some, List, ◌==◌, ==_sound, Bool-cases,
  Option-cases,
}
use good_food_be.Store.{Result-cases, done, chosen}
use good_food_be.Cache.{Redis, get_cache, set_cache}
use good_food_be.Cache.Clear.{Deletes}
use good_food_be.Cache.Stored.{set_cache-string}
use good_food_be.Cart.{
  CartDetail, CartTable, CartDetailResponse, State, row_of, redis_key, of_account,
  build_cart_response, get_cart_detail, fetch_cart, cart_modify_quantity, delete_cart_item,
  add_to_cart, delete_all_items,
}
use good_food_be.Cart.Coherence.{Coherent, rows_of, redis_key_same}
use good_food_be.Cart.Coherence.Many.{add_to_cart-Coherent, delete_all_items-Coherent}
use good_food_be.Cart.Coherence.Single.{
  BelongsTo, cart_modify_quantity-Coherent, delete_cart_item-Coherent,
}
use good_food_be.Cart.Quantity.{Shows, rows_of-build, get_cart_detail-Shows}

module _ {P : Type 0} (redis : Redis (List (CartDetailResponse P))) (db : CartTable)
    (product : ℕ → Option P) where
  -- What is stored for an account is what the table has for it.
  stored-Coherent :
      (account_id : ℕ) (s : State P) (rs : List CartDetail)
      → db.all (of_account account_id) s.carts ≡ done rs
      → Coherent s
      → Coherent (record s {
        cache =
            set_cache redis
              (redis_key account_id)
              (build_cart_response product rs)
              (some (redis_key account_id))
              s.cache;
      })
  unfolding Coherent
  stored-Coherent account_id s rs found h other view there k =
      elim (set_cache-string redis (redis_key account_id) (build_cart_response product rs) view
        s.cache (redis_key other) there) [
          | inr before ↦ h other view before k
          | inl (same, is) ↦
              let here : account_id ≡ other =
                ==_sound account_id other (sym (redis_key_same account_id other) ∙ same) in
              ap (λ v. row_of k (rows_of v)) (sym is)
              ∙ ap (row_of k) (rows_of-build redis db product rs)
              ∙ db.all_found (of_account account_id) s.carts rs k found
              ∙ ap (λ a. chosen (of_account a) (row_of k s.carts)) here
        ]

  -- GetCartDetail keeps the cached carts equal to the table.
  get_cart_detail-Coherent :
      (account_id : ℕ) (s : State P)
      → Coherent s
      → Coherent (get_cart_detail db redis product account_id s).1
  unfolding get_cart_detail get_cache
  get_cart_detail-Coherent account_id s h = elim (Bool-cases (account_id == 0)) [
    | inl no_account ↦ rw no_account h
    | inr has_account ↦ elim (Option-cases (redis.get (redis_key account_id) s.cache)) [
      | inr (view, cached) ↦ rw (has_account, cached, get_cache) h
      | inl absent ↦ elim (Result-cases (db.all (of_account account_id) s.carts)) [
        | inl (rs, found) ↦
            rw (has_account, absent, found, get_cache) (stored-Coherent account_id s rs found h)
        | inr (e, wrong) ↦ rw (has_account, absent, wrong, get_cache) h
      ]
    ]
  ]

-- A request to the cart, with the parameters of its handler.
pub data CartRequest : Type 0 where
  show : ℕ → CartRequest
  fetch : ℕ → CartRequest
  modify : ℕ → ℕ → Option CartDetail → CartRequest
  drop_item : ℕ → ℕ → CartRequest
  add : Option CartDetail → CartRequest
  drop_all : ℕ → CartRequest

module _ {P : Type 0} (redis : Redis (List (CartDetailResponse P))) (db : CartTable)
    (product : ℕ → Option P) where
  -- The state that a request leaves.
  unfoldable pub served : CartRequest → State P → State P
  served (show account_id) s = (get_cart_detail db redis product account_id s).1
  served (fetch account_id) s = (fetch_cart db redis product account_id s).1
  served (modify cart_id account_id body) s =
      (cart_modify_quantity db redis product cart_id account_id body s).1
  served (drop_item cart_id account_id) s =
      (delete_cart_item db redis product cart_id account_id s).1
  served (add body) s = (add_to_cart db redis product body s).1
  served (drop_all account_id) s = (delete_all_items db redis product account_id s).1

  unfoldable pub session : List CartRequest → State P → State P
  session [] s = s
  session (r ∷ rs) s = session rs (served r s)

  -- A request names the cart row of another account nowhere.
  abbrev pub IsOwn : CartRequest → State P → Type 0
  IsOwn (modify cart_id account_id body) s = BelongsTo account_id cart_id s.carts
  IsOwn (drop_item cart_id account_id) s = BelongsTo account_id cart_id s.carts
  IsOwn _ s = ⊤

  unfoldable pub AreOwn : List CartRequest → State P → Type 0
  AreOwn [] s = ⊤
  AreOwn (r ∷ rs) s = IsOwn r s × AreOwn rs (served r s)

  fetch_cart-Coherent :
      (account_id : ℕ) (s : State P)
      → Coherent s
      → Coherent (fetch_cart db redis product account_id s).1
  unfolding fetch_cart
  fetch_cart-Coherent account_id s h = elim (Bool-cases (account_id == 0)) [
    | inl no_account ↦ rw no_account h
    | inr has_account ↦ elim (Result-cases (db.all (of_account account_id) s.carts)) [
      | inl (rs, found) ↦ rw (has_account, found) h
      | inr (e, wrong) ↦ rw (has_account, wrong) h
    ]
  ]

  served-Coherent :
      (up : Deletes redis) (r : CartRequest) (s : State P)
      → IsOwn r s
      → Coherent s
      → Coherent (served r s)
  unfolding served
  served-Coherent up (show account_id) s own h =
      get_cart_detail-Coherent redis db product account_id s h
  served-Coherent up (fetch account_id) s own h = fetch_cart-Coherent account_id s h
  served-Coherent up (modify cart_id account_id body) s own h =
      cart_modify_quantity-Coherent redis up db product cart_id account_id body s own h
  served-Coherent up (drop_item cart_id account_id) s own h =
      delete_cart_item-Coherent redis up db product cart_id account_id s own h
  served-Coherent up (add body) s own h = add_to_cart-Coherent redis up db product body s h
  served-Coherent up (drop_all account_id) s own h =
      delete_all_items-Coherent redis up db product account_id s h

  session-Coherent :
      (up : Deletes redis) (rs : List CartRequest) (s : State P)
      → AreOwn rs s
      → Coherent s
      → Coherent (session rs s)
  unfolding session AreOwn
  session-Coherent up [] s own h = h
  session-Coherent up (r ∷ rs) s (here, there) h =
      session-Coherent up rs (served r s) there (served-Coherent up r s here h)

  -- On a server that answers DEL, after any sequence of requests to the six handlers of the cart, from tables and a
  -- cache that agree, the cached carts agree with the table, and GetCartDetail answers with exactly the rows of
  -- the account in the table, or an error: if no request modifies or deletes the cart row of another account,
  -- which the handlers do not check.
  pub session-Shows :
      (up : Deletes redis) (rs : List CartRequest) (account_id : ℕ) (s : State P)
      → AreOwn rs s
      → Coherent s
      → Coherent (session rs s)
        × Shows redis db product account_id
            (session rs s).carts
            (get_cart_detail db redis product account_id (session rs s)).0
  session-Shows up rs account_id s own h =
      let after = session-Coherent up rs s own h in
      (after, get_cart_detail-Shows redis db product account_id (session rs s) after)
