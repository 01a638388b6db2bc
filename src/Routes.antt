-- ===== src/Routes.antt =====
-- The routes that RegisterFiberRoutes of GoodFood-BE/internal/server/routes.go registers, as data. Fiber, which
-- matches a request against them, is a parameter.
pub mod Table
pub mod Guarded
mod Tests
use good_food_be.Base.{ℕ, ◌≡◌, String, Bool, true, Option, none, List, [], ◌∷◌, Elem}
use good_food_be.Auth.{Jwt}
use good_food_be.Auth.Middleware.{Passed, next, auth_middleware, optional_auth_middleware}

pub data Method : Type 0 where
  get post put delete : Method

-- The handlers, by their names in the source.
pub data Handler : Type 0 where
  hello_world_handler health_handler handle_user_websocket handle_admin_web_socket : Handler
  call_vertex_ai handle_register handle_login handle_logout handle_login_google : Handler
  handle_login_facebook refresh_token handle_update_account handle_forgot_password : Handler
  validate_reset_token handle_reset_password handle_contact get_four get_types : Handler
  get_products_by_page classify_image get_detail get_similar fetch_cart get_cart_detail : Handler
  cart_modify_quantity delete_cart_item add_to_cart delete_all_items fetch_address : Handler
  address_insert address_detail address_update address_delete address_fill : Handler
  address_quick_change invoice_pay invoice_pay_vnpay get_order_history cancel_order : Handler
  get_order_history_detail get_review_data handle_submit_review get_review_detail : Handler
  handle_update_review change_password_submit get_dashboard get_line_chart : Handler
  get_pie_chart get_bar_chart get_admin_invoice get_admin_invoice_detail update_invoice : Handler
  get_admin_users get_admin_user_detail admin_user_create admin_user_update : Handler
  get_admin_product_types get_admin_product_type_detail admin_product_type_create : Handler
  admin_product_type_update get_admin_products get_admin_product_detail : Handler
  admin_product_create admin_product_update get_admin_statistics get_admin_review : Handler
  get_admin_review_analysis get_admin_review_detail insert_review_reply : Handler
  update_review_reply : Handler

-- The middleware that a group was made with.
pub data Guard : Type 0 where
  unguarded optional required : Guard

pub record Route : Type 0 where
  pub method : Method
  pub path : String
  pub handler : Handler

abbrev pub route : Method → String → Handler → Route
route m p h = record { method = m; path = p; handler = h }

-- `s.App.Group(prefix, guard)` with what is registered on it.
pub record Group : Type 0 where
  pub prefix : String
  pub guard : Guard
  pub routes : List Route

pub record Request : Type 0 where
  pub method : Method
  pub path : String
  pub authorization : String

-- A request reaches a handler, with the username of its context, or is answered before it does.
pub data Served : Type 0 where
  handled : Handler → Option String → Served
  answered : ℕ → Served

unfoldable pub run_guard : Guard → Jwt → ℕ → String → Passed
run_guard unguarded jwt now header = next none
run_guard optional jwt now header = optional_auth_middleware jwt now header
run_guard required jwt now header = auth_middleware jwt now header

-- Fiber's router over a JWT library. What the code relies on: a handler runs only for a request that one of its
-- registered routes matches, after the middleware of the route's group has called Next, and sees the username
-- that this middleware has set. The last field is for a table of groups, a request and its instant.
pub record Fiber (jwt : Jwt) : Type 0 where
  pub matches : String → String → String → Bool
  pub serve : List Group → ℕ → Request → Served
  pub serve_handled :
      (groups : List Group) (now : ℕ) (request : Request) (handler : Handler) (user : Option String)
      → serve groups now request ≡ handled handler user
      → (group : Group) × (found : Route) × Elem group groups
        × Elem found group.routes
        × (found.handler ≡ handler)
        × (found.method ≡ request.method)
        × (matches group.prefix found.path request.path ≡ true)
        × (run_guard group.guard jwt now request.authorization ≡ next user)
