-- ===== src/Cart/Coherence.antt =====
-- The cached carts against the table: which requests keep them equal.
pub mod Many
pub mod Single
pub mod Session
use good_food_be.Base.{
  ℕ, ◌≡◌, ◌≢◌, refl, sym, ap, ◌∙◌, subst, inl, inr, Bool, true, false, Option, none, some, List, [],
  ◌∷◌, map, arith, ◌==◌, if◌then◌else◌, ==_sound, Bool-cases, Option-cases, ℕ_discrete,
}
use good_food_be.Base.Int.{ℤ, ◌+ℤ◌, wrap64}
use good_food_be.Store.{done, failed, no_rows, fault, chosen, get, has_key, Result-cases}
use good_food_be.Store.Rows.{get-has_key}
use good_food_be.Store.Laws.{Elsewhere, update-Writes, delete-Removes, insert-Adds, one_by_key}
use good_food_be.Cache.{Arg, num, Key, same_key, Cache, Redis, str, clear_cache}
use good_food_be.Cache.Clear.{Deletes, clear_cache_exact, same_key_refl}
use good_food_be.Http.{Response}
use good_food_be.Cart.{
  CartDetail, CartTable, CartDetailResponse, State, cart_key, row_of, redis_key, of_account,
  of_product, by_id, add_to_cart, cart_modify_quantity, delete_cart_item, delete_all_items,
}

-- The rows of a cached response.
abbrev pub rows_of : {P : Type 0} → List (CartDetailResponse P) → List CartDetail
rows_of = map (λ x. x.0)

-- Every cached cart shows exactly the rows that the table has for the account.
unfoldable pub Coherent : {P : Type 0} → State P → Type 0
Coherent {P} s =
    (account_id : ℕ) (view : List (CartDetailResponse P))
    → s.cache (redis_key account_id) ≡ some (str view)
    → (k : ℕ) → row_of k (rows_of view) ≡ chosen (of_account account_id) (row_of k s.carts)

-- Whatever the table does to it, a row is not one of another account's.
abbrev pub Only : ℕ → List CartDetail → List CartDetail → Type 0
Only account_id t t' =
    (other k : ℕ)
    → other ≢ account_id
    → chosen (of_account other) (row_of k t') ≡ chosen (of_account other) (row_of k t)

redis_key_same : (a b : ℕ) → same_key (redis_key a) (redis_key b) ≡ (a == b)
unfolding same_key
redis_key_same a b = ground arith

pub update-Only :
    (account_id : ℕ) (old new : CartDetail) (t t' : List CartDetail)
    → old.account_id ≡ account_id
    → new.account_id ≡ account_id
    → row_of new.cart_id t ≡ some old
    → row_of new.cart_id t' ≡ some new
    → Elsewhere cart_key new.cart_id t t'
    → Only account_id t t'
update-Only account_id old new t t' own own' here now rest other k ne =
    elim (ℕ_discrete k new.cart_id) [
      | yes same ↦ rw (same, here, now) (ground arith)
      | no differ ↦ ap (chosen (of_account other)) (rest k differ)
    ]

pub delete-Only :
    (account_id id : ℕ) (old : CartDetail) (t t' : List CartDetail)
    → old.account_id ≡ account_id
    → row_of id t ≡ some old
    → row_of id t' ≡ none
    → Elsewhere cart_key id t t'
    → Only account_id t t'
delete-Only account_id id old t t' own here now rest other k ne = elim (ℕ_discrete k id) [
  | yes same ↦ rw (same, here, now) (ground arith)
  | no differ ↦ ap (chosen (of_account other)) (rest k differ)
]

pub insert-Only :
    (account_id : ℕ) (new : CartDetail) (t t' : List CartDetail)
    → new.account_id ≡ account_id
    → row_of new.cart_id t ≡ none
    → row_of new.cart_id t' ≡ some new
    → Elsewhere cart_key new.cart_id t t'
    → Only account_id t t'
insert-Only account_id new t t' own here now rest other k ne = elim (ℕ_discrete k new.cart_id) [
  | yes same ↦ rw (same, here, now) (ground arith)
  | no differ ↦ ap (chosen (of_account other)) (rest k differ)
]

module _ {P : Type 0} (redis : Redis (List (CartDetailResponse P))) (up : Deletes redis) where
  pub cleared : ℕ → Cache (List (CartDetailResponse P)) → Cache (List (CartDetailResponse P))
  cleared account_id = clear_cache (some redis) (redis_key account_id ∷ [])

  cleared_entry :
      (account_id other : ℕ) (c : Cache (List (CartDetailResponse P)))
      → cleared account_id c (redis_key other)
        ≡ (if account_id == other then none else c (redis_key other))
  unfolding cleared
  cleared_entry account_id other c = ground (
    arith,
    clear_cache_exact redis up (redis_key account_id ∷ []) c (redis_key other),
    redis_key_same account_id other,
  )

  -- Clearing the account's entry restores coherence after a change of the account's rows.
  pub cleared-Coherent :
      (account_id : ℕ) (s : State P) (t' : List CartDetail)
      → Coherent s
      → Only account_id s.carts t'
      → Coherent (record s { carts = t'; cache = cleared account_id s.cache })
  unfolding Coherent
  cleared-Coherent account_id s t' h only other view cached k = elim (ℕ_discrete other account_id) [
    | yes same ↦ absurd (ground (arith, cleared_entry account_id other s.cache))
    | no ne ↦
        h other view (ground (arith, cleared_entry account_id other s.cache)) k
        ∙ sym (only other k ne)
  ]
