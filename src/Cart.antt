-- ===== src/Cart.antt =====
-- GoodFood-BE/internal/server/handlers/carts.go and BuildCartResponse of
-- GoodFood-BE/internal/utils/cart_helper.go, on the table `cart_detail` and the cache.
pub mod Coherence
pub mod Quantity
mod Tests
use good_food_be.Base.{ℕ, Bool, Option, none, some, List, [], ◌∷◌, map, ◌==◌, ◌&&◌, ⊤}
use good_food_be.Base.Int.{ℤ, ◌+ℤ◌, wrap64}
use good_food_be.Store.{DbError, no_rows, fault, Result, done, failed, Table, get}
use good_food_be.Cache.{
  Arg, num, Key, Cache, Redis, Lookup, hit, unreadable, unavailable, get_cache, set_cache,
  clear_cache,
}
use good_food_be.Http.{
  Response, ok, error, Action, ◌>>=◌, ◌>>◌, pure, error_if, parsed, or_error, read, write,
}

-- models.CartDetail
pub record CartDetail : Type 0 where
  pub cart_id : ℕ
  pub quantity : ℤ
  pub product_id : ℕ
  pub account_id : ℕ

abbrev pub cart_key : CartDetail → ℕ
cart_key c = c.cart_id

abbrev pub CartTable : Type 0
CartTable = Table cart_key (λ c id. record c { cart_id = id })

-- The row under a cart ID.
abbrev pub row_of : ℕ → List CartDetail → Option CartDetail
row_of = get cart_key

-- fmt.Sprintf("cart:accountID=%d", accountID)
abbrev pub redis_key : ℕ → Key
redis_key account_id = record { format = "cart:accountID=%d"; args = num account_id ∷ [] }

-- dto.CartDetailResponse; `P` is models.Product, which the handlers only pass on.
abbrev pub CartDetailResponse : Type 0 → Type 0
CartDetailResponse P = CartDetail × Option P

-- The cache holds the JSON of the response.
pub record State (P : Type 0) : Type 0 where
  pub carts : List CartDetail
  pub cache : Cache (List (CartDetailResponse P))

abbrev pub Handler : Type 0 → Type 0 → Type 0
Handler P A = Action (State P) ⊥ A

-- Each row with the product that `qm.Load` has fetched for it.
unfoldable pub build_cart_response :
    {P : Type 0} → (ℕ → Option P) → List CartDetail → List (CartDetailResponse P)
build_cart_response product carts = map (λ c. (c, product c.product_id)) carts

-- What AddToCart answers with: the new row and its product, or the row whose quantity has grown.
pub data Added (P : Type 0) : Type 0 where
  inserted : CartDetailResponse P → Added P
  merged : CartDetail → Added P

abbrev pub of_account : ℕ → CartDetail → Bool
of_account account_id c = c.account_id == account_id

abbrev pub of_product : CartDetail → CartDetail → Bool
of_product d c = c.product_id == d.product_id && c.account_id == d.account_id

abbrev pub by_id : ℕ → CartDetail → Bool
by_id cart_id c = c.cart_id == cart_id

module _ {P : Type 0} (db : CartTable) (redis : Redis (List (CartDetailResponse P)))
    (product : ℕ → Option P) where
  -- utils.ClearCache(redisKey)
  clear : ℕ → Handler P ⊤
  clear account_id s =
      (ok tt, record s { cache = clear_cache (some redis) (redis_key account_id ∷ []) s.cache })

  write_carts : List CartDetail → Handler P ⊤
  write_carts carts s = (ok tt, record s { carts = carts })

  fetch_and_cache : ℕ → Handler P (List (CartDetailResponse P))
  unfolding build_cart_response
  fetch_and_cache account_id = do
    s ← read
    cart_details ← or_error (db.all (of_account account_id) s.carts) 500 "Cart detail not found"
    let response = build_cart_response product cart_details
    let key = redis_key account_id
    write (record s { cache = set_cache redis key response (some key) s.cache })
    pure response

  -- `if ok, _ := utils.GetCache(…); ok { return c.JSON(cachedCart) }`, and what follows it.
  cached_or_fetch :
      ℕ → Lookup (List (CartDetailResponse P)) → Handler P (List (CartDetailResponse P))
  unfolding fetch_and_cache
  cached_or_fetch account_id (hit cached_cart) = pure cached_cart
  cached_or_fetch account_id unreadable = fetch_and_cache account_id
  cached_or_fetch account_id unavailable = fetch_and_cache account_id

  unfoldable pub get_cart_detail : ℕ → Handler P (List (CartDetailResponse P))
  unfolding cached_or_fetch
  get_cart_detail account_id = do
    error_if (account_id == 0) 400 "Did not receive accountID"
    s ← read
    cached_or_fetch account_id (get_cache redis (redis_key account_id) some s.cache)

  unfoldable pub fetch_cart : ℕ → Handler P (List (CartDetailResponse P))
  unfolding build_cart_response
  fetch_cart account_id = do
    error_if (account_id == 0) 401 "Did not receive accountID"
    s ← read
    cart_detail ← or_error (db.all (of_account account_id) s.carts) 500 "Cart detail not found"
    pure (build_cart_response product cart_detail)

  -- Cart_ModifyQuantity: the row is found by `cart_id` alone.
  unfoldable pub cart_modify_quantity : ℕ → ℕ → Option CartDetail → Handler P CartDetail
  unfolding clear write_carts
  cart_modify_quantity cart_id account_id body = do
    error_if (cart_id == 0) 401 "Did not receive cartID"
    error_if (account_id == 0) 401 "Did not receive accountID"
    cart_detail ← parsed body 400 "Invalid request body"
    s ← read
    found ← or_error (db.one (by_id cart_id) s.carts) 500 "Cart detail not found"
    let update = record found { quantity = cart_detail.quantity }
    carts ← or_error (db.update update s.carts) 500 "Failed to update cart quantity"
    write_carts carts
    clear account_id
    pure update

  unfoldable pub delete_cart_item : ℕ → ℕ → Handler P CartDetail
  unfolding clear write_carts
  delete_cart_item cart_id account_id = do
    error_if (cart_id == 0) 401 "Did not receive cartID"
    error_if (account_id == 0) 401 "Did not receive accountID"
    s ← read
    cart_item ← or_error (db.one (by_id cart_id) s.carts) 500 "No cart item found"
    carts ← or_error (db.delete cart_item s.carts) 500 "Failed to delete cart item"
    write_carts carts
    clear account_id
    pure cart_item

  insert_new : CartDetail → Handler P (Added P)
  unfolding write_carts
  insert_new cart_detail = do
    s ← read
    (row, carts) ← or_error (db.insert cart_detail s.carts) 500 "Couldn't insert new cart detail"
    write_carts carts
    inserted_cart ←
        or_error (db.one (of_product cart_detail) carts) 500
          "Couldn't retrieve newly inserted cart detail"
    pure (inserted (inserted_cart, product inserted_cart.product_id))

  merge : CartDetail → CartDetail → Handler P (Added P)
  unfolding write_carts
  merge cart_detail check = do
    s ← read
    let check' = record check { quantity = wrap64 (check.quantity +ℤ cart_detail.quantity) }
    carts ← or_error (db.update check' s.carts) 500 "Couldn't modify item's quantity"
    write_carts carts
    pure (merged check')

  -- The cache is cleared before the table is written.
  unfoldable pub add_to_cart : Option CartDetail → Handler P (Added P)
  unfolding clear insert_new merge
  add_to_cart body = do
    cart_detail ← parsed body 400 "Invalid body"
    clear cart_detail.account_id
    s ← read
    elim (db.one (of_product cart_detail) s.carts) [
      | done check ↦ merge cart_detail check
      | failed no_rows ↦ insert_new cart_detail
      | failed (fault e) ↦ λ s'. (error 500 "Database error", s')
    ]

  -- The account ID is not checked: a request without one deletes the rows of account 0.
  unfoldable pub delete_all_items : ℕ → Handler P ⊤
  unfolding clear write_carts
  delete_all_items account_id = do
    s ← read
    cart_to_delete ←
        or_error (db.all (of_account account_id) s.carts) 401 "Did not receive accountID"
    carts ←
        or_error (db.delete_all cart_to_delete s.carts) 500
          "Couldn't delete cart items of the provided accountID"
    write_carts carts
    clear account_id
