-- ===== src/Routes/Guarded.antt =====
-- Which handlers of GoodFood-BE/internal/server/routes.go a request reaches, and as whom.
use good_food_be.Base.{
  ℕ, ◌≡◌, ◌⊎◌, inl, inr, refl, sym, ap, ◌∙◌, String, Bool, true, false, ◌&&◌, ◌||◌, Option, none,
  some, List, [], ◌∷◌, Elem, str_eq, Bool-cases, arith,
}
use good_food_be.Auth.{Claims, Jwt}
use good_food_be.Auth.Middleware.{
  next, Bears, auth_middleware, optional_auth_middleware, bearer_next, split,
}
use good_food_be.Routes.{
  Guard, unguarded, optional, required, Handler, hello_world_handler, health_handler,
  handle_user_websocket, handle_admin_web_socket, call_vertex_ai, handle_register, handle_login,
  handle_logout, handle_login_google, handle_login_facebook, refresh_token, handle_update_account,
  handle_forgot_password, validate_reset_token, handle_reset_password, handle_contact, get_four,
  get_types, get_products_by_page, classify_image, get_detail, get_similar, Route, Group, Request,
  Fiber, handled, run_guard,
}
use good_food_be.Routes.Table.{
  routes, app_group, websocket_group, chatbot_group, user_group, product_group, cart_group,
  address_group, invoice_group, order_history_group, customer_review_group, change_password_group,
  dashboard_group, admin_invoice_group, admin_user_group, admin_product_type_group,
  admin_product_group, admin_statistic_group, admin_review_group,
}

-- The handlers that are meant for visitors.
unfoldable pub is_open : Handler → Bool
is_open hello_world_handler = true
is_open health_handler = true
is_open handle_user_websocket = true
is_open handle_admin_web_socket = true
is_open call_vertex_ai = true
is_open handle_register = true
is_open handle_login = true
is_open handle_logout = true
is_open handle_login_google = true
is_open handle_login_facebook = true
is_open refresh_token = true
is_open handle_update_account = true
is_open handle_forgot_password = true
is_open validate_reset_token = true
is_open handle_reset_password = true
is_open handle_contact = true
is_open get_four = true
is_open get_types = true
is_open get_products_by_page = true
is_open classify_image = true
is_open get_detail = true
is_open get_similar = true
is_open _ = false

all_open : List Route → Bool
all_open [] = true
all_open (r ∷ rs) = is_open r.handler && all_open rs

is_required : Guard → Bool
is_required required = true
is_required _ = false

-- A group asks for a login, or has handlers for visitors only.
all_guarded : List Group → Bool
all_guarded [] = true
all_guarded (g ∷ gs) = (is_required g.guard || all_open g.routes) && all_guarded gs

and_left : (a b : Bool) → (a && b) ≡ true → a ≡ true
and_left a b e = ground arith

and_right : (a b : Bool) → (a && b) ≡ true → b ≡ true
and_right a b e = ground arith

open-Elem :
    (rs : List Route) (r : Route) → all_open rs ≡ true → Elem r rs → is_open r.handler ≡ true
unfolding all_open
open-Elem [] r all at = elim at [ ]
open-Elem (x ∷ rs) r all (inl e) =
    ap (λ (t : Route). is_open t.handler) e ∙ and_left (is_open x.handler) (all_open rs) all
open-Elem (x ∷ rs) r all (inr at) =
    open-Elem rs r (and_right (is_open x.handler) (all_open rs) all) at

guarded-Elem :
    (gs : List Group) (g : Group)
    → all_guarded gs ≡ true
    → Elem g gs
    → (is_required g.guard || all_open g.routes) ≡ true
unfolding all_guarded
guarded-Elem [] g all at = elim at [ ]
guarded-Elem (x ∷ gs) g all (inl e) =
    ap (λ (t : Group). is_required t.guard || all_open t.routes) e
    ∙ and_left (is_required x.guard || all_open x.routes) (all_guarded gs) all
guarded-Elem (x ∷ gs) g all (inr at) =
    guarded-Elem gs g (and_right (is_required x.guard || all_open x.routes) (all_guarded gs) all) at

routes_guarded : all_guarded routes ≡ true
unfolding all_guarded all_open is_open is_required routes app_group websocket_group chatbot_group
    user_group product_group cart_group address_group invoice_group order_history_group
    customer_review_group change_password_group dashboard_group admin_invoice_group admin_user_group
    admin_product_type_group admin_product_group admin_statistic_group admin_review_group
routes_guarded = refl

-- The request carries a bearer token that verifies, and the user is the one of its claims.
abbrev pub LoggedIn : Jwt → ℕ → Request → Option String → Type 0
LoggedIn jwt now request user =
    (username : String) × (user ≡ some username) × Bears jwt now request.authorization username

module _ (jwt : Jwt) (now : ℕ) (request : Request) (user : Option String) where
  from_bearer :
      (token : String) (claims : Claims)
      → split request.authorization ≡ "Bearer" ∷ token ∷ []
      → jwt.parse now token ≡ some claims
      → user ≡ some claims.username
      → LoggedIn jwt now request user
  from_bearer token claims words good named =
      (claims.username, named, (token, claims, words, good, refl))

  required_next :
      auth_middleware jwt now request.authorization ≡ next user → LoggedIn jwt now request user
  unfolding auth_middleware
  required_next e = elim (Bool-cases (str_eq request.authorization "")) [
    | inl blank ↦ ground arith
    | inr given ↦
        let (token, claims, words, good, named) =
          bearer_next jwt now (split request.authorization) user (ground arith) in
        from_bearer token claims words good named
  ]

  optional_next :
      optional_auth_middleware jwt now request.authorization ≡ next user
      → LoggedIn jwt now request user ⊎ (user ≡ none)
  unfolding optional_auth_middleware
  optional_next e = elim (Bool-cases (str_eq request.authorization "")) [
    | inl blank ↦ inr (ground arith)
    | inr given ↦
        let (token, claims, words, good, named) =
          bearer_next jwt now (split request.authorization) user (ground arith) in
        inl (from_bearer token claims words good named)
  ]

  guard_next :
      (g : Guard)
      → run_guard g jwt now request.authorization ≡ next user
      → LoggedIn jwt now request user ⊎ ((is_required g ≡ false) × (user ≡ none))
  unfolding run_guard is_required
  guard_next unguarded e = inr (refl, ground arith)
  guard_next optional e = elim (optional_next e) [
    | inl is ↦ inl is
    | inr nobody ↦ inr (refl, nobody)
  ]
  guard_next required e = inl (required_next e)

only_open :
    (g : Group)
    → is_required g.guard ≡ false
    → (is_required g.guard || all_open g.routes) ≡ true
    → all_open g.routes ≡ true
only_open g no_guard e = ground arith

-- A request that reaches a handler over the routes of RegisterFiberRoutes either carries a bearer token that
-- VerifyToken accepts, and the handler sees the username of its claims; or the handler is one of the 22 that
-- are open to visitors, and sees no user.
pub serve-LoggedIn :
    (jwt : Jwt) (fiber : Fiber jwt) (now : ℕ) (request : Request) (handler : Handler)
    (user : Option String)
    → fiber.serve routes now request ≡ handled handler user
    → LoggedIn jwt now request user ⊎ ((is_open handler ≡ true) × (user ≡ none))
serve-LoggedIn jwt fiber now request handler user e =
    let (g, r, in_routes, in_group, is, _, _, passed) =
      fiber.serve_handled routes now request handler user e in
    elim (guard_next jwt now request user g.guard passed) [
      | inl logged ↦ inl logged
      | inr (not_required, nobody) ↦ inr (
        ap is_open (sym is)
            ∙ open-Elem g.routes r
                (only_open g not_required (guarded-Elem routes g routes_guarded in_routes))
                in_group,
        nobody,
      )
    ]
