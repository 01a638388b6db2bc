-- ===== src/Routes/Tests.antt =====
-- A router that walks the groups in their order, and requests to it.
use Prim.Native.Char.{code}
use Prim.Native.String.{[] as nil, ◌∷◌ as cons}
use good_food_be.Base.{
  ℕ, ◌≡◌, ◌⊎◌, inl, inr, refl, ap, subst, String, Bool, true, false, ◌&&◌, Option, none, some, List,
  [], ◌∷◌, Elem, str_eq, Bool-cases, Option-cases, ◌==◌, if◌then◌else◌, arith,
}
use good_food_be.Auth.Middleware.{Passed, next, error, auth_middleware, split}
use good_food_be.Auth.Tests.{jwt}
use good_food_be.Routes.{
  Method, get, post, put, delete, Handler, get_admin_invoice, Route, Group, Request, Fiber, Served,
  handled, answered, run_guard,
}
use good_food_be.Routes.Table.{
  routes, app_group, websocket_group, chatbot_group, user_group, product_group, cart_group,
  address_group, invoice_group, order_history_group, customer_review_group, change_password_group,
  dashboard_group, admin_invoice_group, admin_user_group, admin_product_type_group,
  admin_product_group, admin_statistic_group, admin_review_group,
}
use good_food_be.Routes.Guarded.{LoggedIn, is_open, serve-LoggedIn}

append : String → String → String
append nil t = t
append (cons c s) t = cons c (append s t)

-- A path without its leading slash, which a group's prefix may leave out.
without_slash : String → String
without_slash nil = nil
without_slash (cons c s) = if code c == b'/' then s else cons c s

abbrev fits : String → String → String → Bool
fits prefix path asked = str_eq (without_slash (append prefix path)) (without_slash asked)

same_method : Method → Method → Bool
same_method get get = true
same_method post post = true
same_method put put = true
same_method delete delete = true
same_method _ _ = false

same_method_sound : (m n : Method) → same_method m n ≡ true → m ≡ n
unfolding same_method
same_method_sound get get e = refl
same_method_sound post post e = refl
same_method_sound put put e = refl
same_method_sound delete delete e = refl
same_method_sound get post e = ground arith
same_method_sound get put e = ground arith
same_method_sound get delete e = ground arith
same_method_sound post get e = ground arith
same_method_sound post put e = ground arith
same_method_sound post delete e = ground arith
same_method_sound put get e = ground arith
same_method_sound put post e = ground arith
same_method_sound put delete e = ground arith
same_method_sound delete get e = ground arith
same_method_sound delete post e = ground arith
same_method_sound delete put e = ground arith

chosen : String → Request → Route → Bool
chosen prefix q r = same_method r.method q.method && fits prefix r.path q.path

Found : List Route → Route → String → Request → Type 0
Found rs r prefix q = Elem r rs × (r.method ≡ q.method) × (fits prefix r.path q.path ≡ true)

first_route : String → List Route → Request → Option Route
first_route prefix [] q = none
first_route prefix (r ∷ rs) q =
    let rest = first_route prefix rs q in if chosen prefix q r then some r else rest

first_group : List Group → Request → Option (Group × Route)
first_group [] q = none
first_group (g ∷ gs) q =
    let rest = first_group gs q in
    elim (first_route g.prefix g.routes q) [ some r ↦ some (g, r) | none ↦ rest ]

hand_on : Handler → Passed → Served
hand_on h (next user) = handled h user
hand_on h (error code message) = answered code

hand_to : ℕ → Request → Option (Group × Route) → Served
hand_to now q none = answered 404
hand_to now q (some (g, r)) = hand_on r.handler (run_guard g.guard jwt now q.authorization)

walk : List Group → ℕ → Request → Served
walk gs now q = hand_to now q (first_group gs q)

chosen_and : (a b : Bool) → (a && b) ≡ true → (a ≡ true) × (b ≡ true)
chosen_and a b e = (ground arith, ground arith)

some_same {ℓ} : {A : Type ℓ} (x y : A) → ◌≡◌ {A = Option A} (some x) (some y) → x ≡ y
some_same x y e = ap (λ o. elim o [ none ↦ x | some z ↦ z ]) e

head-Found :
    (prefix : String) (rs : List Route) (q : Request) (x r : Route)
    → chosen prefix q x ≡ true
    → x ≡ r
    → Found (x ∷ rs) r prefix q
unfolding Found chosen
head-Found prefix rs q x r is e =
    let (asked, at) = chosen_and (same_method x.method q.method) (fits prefix x.path q.path) is in
    subst (λ (t : Route). Found (x ∷ rs) t prefix q) e
      (inl refl, same_method_sound x.method q.method asked, at)

route-Found :
    (prefix : String) (rs : List Route) (q : Request) (r : Route)
    → first_route prefix rs q ≡ some r
    → Found rs r prefix q
unfolding first_route Found
route-Found prefix [] q r e = ground arith
route-Found prefix (x ∷ rs) q r e = elim (Bool-cases (chosen prefix q x)) [
  | inl is ↦
      head-Found prefix rs q x r is
        (some_same x r (subst (λ b. (if b then some x else first_route prefix rs q) ≡ some r) is e))
  | inr other ↦
      let (at, asked, fit) =
        route-Found prefix rs q r
          (subst (λ b. (if b then some x else first_route prefix rs q) ≡ some r) other e) in
      (inr at, asked, fit)
]

GroupFound : List Group → Group × Route → Request → Type 0
GroupFound gs (g, r) q = Elem g gs × Found g.routes r g.prefix q

group_found :
    (gs : List Group) (q : Request) (found : Group × Route)
    → first_group gs q ≡ some found
    → GroupFound gs found q
unfolding first_group GroupFound
group_found [] q found e = ground arith
group_found (x ∷ gs) q (g, r) e = elim (Option-cases (first_route x.prefix x.routes q)) [
  | inl nothing ↦
      let (at, it) = group_found gs q (g, r) (subst (λ o. choose o ≡ some (g, r)) nothing e) in
      (inr at, it)
  | inr (r', is) ↦
      subst (λ (t : Group × Route). GroupFound (x ∷ gs) t q)
        (some_same (x, r') (g, r) (subst (λ o. choose o ≡ some (g, r)) is e))
        (inl refl, route-Found x.prefix x.routes q r' is)
]
  where
    choose : Option Route → Option (Group × Route)
    choose o = elim o [ some r' ↦ some (x, r') | none ↦ first_group gs q ]

Meets : List Group → ℕ → Request → Handler → Option String → Type 0
Meets gs now q handler user =
    (group : Group) × (found : Route) × Elem group gs
    × Elem found group.routes
    × (found.handler ≡ handler)
    × (found.method ≡ q.method)
    × (fits group.prefix found.path q.path ≡ true)
    × (run_guard group.guard jwt now q.authorization ≡ next user)

handed_on :
    (h handler : Handler) (passed : Passed) (user : Option String)
    → hand_on h passed ≡ handled handler user
    → (h ≡ handler) × (passed ≡ next user)
unfolding hand_on
handed_on h handler (next u) user e = (ground arith, ground arith)
handed_on h handler (error c m) user e = absurd (ground arith)

walk_handled :
    (gs : List Group) (now : ℕ) (q : Request) (handler : Handler) (user : Option String)
    → walk gs now q ≡ handled handler user
    → Meets gs now q handler user
unfolding walk Meets hand_to GroupFound Found
walk_handled gs now q handler user e = elim (Option-cases (first_group gs q)) [
  | inl nothing ↦ absurd (lost (subst (λ o. hand_to now q o ≡ handled handler user) nothing e))
  | inr ((g, r), is) ↦
      let (at, (in_group, asked, fit)) = group_found gs q (g, r) is in
      let (same, passed) =
        handed_on r.handler handler (run_guard g.guard jwt now q.authorization) user
          (subst (λ o. hand_to now q o ≡ handled handler user) is e) in
      (g, r, at, in_group, same, asked, fit, passed)
]
  where
    lost : answered 404 ≡ handled handler user → ⊥
    lost h = ground arith

router : Fiber jwt
unfolding walk Meets
router = record { matches = fits; serve = walk; serve_handled = walk_handled }

abbrev list_orders : Request
list_orders = record { method = get; path = "/api/admin/order"; authorization = "Bearer token_a" }

-- The lister of all orders runs for any account whose token verifies.
orders_listed : router.serve routes 0 list_orders ≡ handled get_admin_invoice (some "an")
unfolding router walk hand_to hand_on first_group first_route chosen same_method append
    without_slash run_guard auth_middleware split routes app_group websocket_group chatbot_group
    user_group product_group cart_group address_group invoice_group order_history_group
    customer_review_group change_password_group dashboard_group admin_invoice_group admin_user_group
    admin_product_type_group admin_product_group admin_statistic_group admin_review_group
orders_listed = refl

serve-LoggedIn_example :
    LoggedIn jwt 0 list_orders (some "an")
    ⊎ ((is_open get_admin_invoice ≡ true) × (◌≡◌ {A = Option String} (some "an") none))
serve-LoggedIn_example =
    serve-LoggedIn jwt router 0 list_orders get_admin_invoice (some "an") orders_listed
