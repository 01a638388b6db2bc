-- ===== src/Cart/Tests.antt =====
-- Cart handlers on a small table and an empty cache.
use good_food_be.Base.{ℕ, ◌≡◌, refl, Option, some, none, List, [], ◌∷◌, arith, ap, sym, subst}
use good_food_be.Base.Int.{pos, wrap64, ◌+ℤ◌}
use good_food_be.Store.Memory.{memory, memory_run}
use good_food_be.Http.{ok}
use good_food_be.Cache.{Redis, get_cache}
use good_food_be.Cache.Server.{server, empty}
use good_food_be.Cache.Clear.{Deletes}
use good_food_be.Cart.{
  CartDetail, CartDetailResponse, CartTable, State, row_of, cart_key, merged, add_to_cart,
  get_cart_detail,
}
use good_food_be.Cart.Coherence.{Coherent}
use good_food_be.Cart.Coherence.Single.{BelongsTo}
use good_food_be.Cart.Coherence.Session.{
  CartRequest, show, add, modify, served, session, AreOwn, session-Shows,
}
use good_food_be.Cart.Quantity.{AddsOne, Shows, add_to_cart-AddsOne}

abbrev db : CartTable
db = memory cart_key (λ c id. record c { cart_id = id }) (λ c id. refl)

abbrev redis : Redis (List (CartDetailResponse ℕ))
redis = server

abbrev product : ℕ → Option ℕ
product id = some id

up : Deletes redis
up ks c e = ground arith

abbrev rice : CartDetail
rice = record { cart_id = 1; quantity = pos 2; product_id = 10; account_id = 7 }

abbrev soup : CartDetail
soup = record { cart_id = 2; quantity = pos 1; product_id = 11; account_id = 8 }

abbrev more_rice : CartDetail
more_rice = record { cart_id = 0; quantity = pos 3; product_id = 10; account_id = 7 }

abbrev start : State ℕ
start = record { carts = rice ∷ soup ∷ []; cache = empty }

add_run :
    (add_to_cart db redis product (some more_rice) start).0
    ≡ ok (merged (record rice { quantity = pos 5 }))
unfolding add_to_cart memory_run wrap64 ◌+ℤ◌
add_run = refl

start-Coherent : Coherent start
unfolding Coherent
start-Coherent account_id view e k = ground arith

rice-BelongsTo : BelongsTo 7 1 start.carts
rice-BelongsTo c e = ap (λ o. elim o [ none ↦ 7 | some x ↦ x.account_id ]) (sym e)

add_to_cart-AddsOne_example :
    let (r, s') = add_to_cart db redis product (some more_rice) start in
    AddsOne more_rice start.carts r s'.carts
add_to_cart-AddsOne_example = add_to_cart-AddsOne redis db product more_rice start

-- Account 7 looks at its cart, adds rice, and changes the quantity of its first row.
abbrev requests : List CartRequest
requests = show 7 ∷ add (some more_rice) ∷ modify 1 7 (some more_rice) ∷ []

added_run :
    (served redis db product (add (some more_rice)) (served redis db product (show 7) start)).carts
    ≡ record rice { quantity = pos 5 } ∷ soup ∷ []
unfolding served get_cart_detail get_cache add_to_cart memory_run wrap64 ◌+ℤ◌
added_run = refl

abbrev more : CartDetail
more = record rice { quantity = pos 5 }

own :
    BelongsTo 7 1
      (served redis db product
        (add (some more_rice))
        (served redis db product (show 7) start)).carts
own c e =
    let found : some more ≡ some c = subst (λ t. row_of 1 t ≡ some c) added_run e in
    ap (λ o. elim o [ none ↦ 7 | some x ↦ x.account_id ]) (sym found)

requests-AreOwn : AreOwn redis db product requests start
unfolding AreOwn
requests-AreOwn = (tt, (tt, (own, tt)))

session-Shows_example :
    Coherent (session redis db product requests start)
    × Shows redis db product 7
        (session redis db product requests start).carts
        (get_cart_detail db redis product 7 (session redis db product requests start)).0
session-Shows_example =
    session-Shows redis db product up requests 7 start requests-AreOwn start-Coherent
