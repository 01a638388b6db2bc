-- ===== src/Routes/Table.antt =====
-- The groups and routes of RegisterFiberRoutes, in the order in which they are registered.
use good_food_be.Base.{List, [], ◌∷◌}
use good_food_be.Routes.{
  get, post, put, delete, unguarded, optional, required, route, Group, hello_world_handler,
  health_handler, handle_user_websocket, handle_admin_web_socket, call_vertex_ai, handle_register,
  handle_login, handle_logout, handle_login_google, handle_login_facebook, refresh_token,
  handle_update_account, handle_forgot_password, validate_reset_token, handle_reset_password,
  handle_contact, get_four, get_types, get_products_by_page, classify_image, get_detail,
  get_similar, fetch_cart, get_cart_detail, cart_modify_quantity, delete_cart_item, add_to_cart,
  delete_all_items, fetch_address, address_insert, address_detail, address_update, address_delete,
  address_fill, address_quick_change, invoice_pay, invoice_pay_vnpay, get_order_history,
  cancel_order, get_order_history_detail, get_review_data, handle_submit_review, get_review_detail,
  handle_update_review, change_password_submit, get_dashboard, get_line_chart, get_pie_chart,
  get_bar_chart, get_admin_invoice, get_admin_invoice_detail, update_invoice, get_admin_users,
  get_admin_user_detail, admin_user_create, admin_user_update, get_admin_product_types,
  get_admin_product_type_detail, admin_product_type_create, admin_product_type_update,
  get_admin_products, get_admin_product_detail, admin_product_create, admin_product_update,
  get_admin_statistics, get_admin_review, get_admin_review_analysis, get_admin_review_detail,
  insert_review_reply, update_review_reply,
}

unfoldable pub app_group : Group
app_group = record {
  prefix = "";
  guard = unguarded;
  routes = route get "/" hello_world_handler ∷ route get "/health" health_handler ∷ [];
}

unfoldable pub websocket_group : Group
websocket_group = record {
  prefix = "/ws";
  guard = unguarded;
  routes =
      route get "/user/:accountID" handle_user_websocket
      ∷ route get "/admin/:adminID" handle_admin_web_socket
      ∷ [];
}

unfoldable pub chatbot_group : Group
chatbot_group = record {
  prefix = "/api/chatbot";
  guard = optional;
  routes = route post "/call" call_vertex_ai ∷ [];
}

unfoldable pub user_group : Group
user_group = record {
  prefix = "/api/user";
  guard = optional;
  routes =
      route post "/register" handle_register
      ∷ route post "/login" handle_login
      ∷ route get "/logout" handle_logout
      ∷ route post "/login/google" handle_login_google
      ∷ route post "/login/facebook" handle_login_facebook
      ∷ route post "/refresh-token" refresh_token
      ∷ route put "/update" handle_update_account
      ∷ route post "/forgot-password/sendOTP" handle_forgot_password
      ∷ route get "/forgot-password/validate" validate_reset_token
      ∷ route post "/forgot-password/reset" handle_reset_password
      ∷ route post "/contact" handle_contact
      ∷ [];
}

unfoldable pub product_group : Group
product_group = record {
  prefix = "/api/products";
  guard = unguarded;
  routes =
      route get "/getFeaturings" get_four
      ∷ route get "/getTypes" get_types
      ∷ route get "/" get_products_by_page
      ∷ route post "/classify-image" classify_image
      ∷ route get "/detail" get_detail
      ∷ route get "/similar" get_similar
      ∷ [];
}

unfoldable pub cart_group : Group
cart_group = record {
  prefix = "/api/cart";
  guard = required;
  routes =
      route get "/fetch" fetch_cart
      ∷ route get "" get_cart_detail
      ∷ route post "/modify" cart_modify_quantity
      ∷ route delete "/delete" delete_cart_item
      ∷ route post "/add" add_to_cart
      ∷ route delete "/deleteAll" delete_all_items
      ∷ [];
}

unfoldable pub address_group : Group
address_group = record {
  prefix = "api/address";
  guard = required;
  routes =
      route get "/fetch" fetch_address
      ∷ route post "/insert" address_insert
      ∷ route get "/detail" address_detail
      ∷ route put "/update" address_update
      ∷ route delete "/delete" address_delete
      ∷ route get "/fill" address_fill
      ∷ route put "/quickChange" address_quick_change
      ∷ [];
}

unfoldable pub invoice_group : Group
invoice_group = record {
  prefix = "api/invoice";
  guard = required;
  routes = route post "/pay" invoice_pay ∷ route post "/pay/vnpay" invoice_pay_vnpay ∷ [];
}

unfoldable pub order_history_group : Group
order_history_group = record {
  prefix = "api/order-history";
  guard = required;
  routes =
      route get "" get_order_history
      ∷ route put "/update" cancel_order
      ∷ route get "/details" get_order_history_detail
      ∷ [];
}

unfoldable pub customer_review_group : Group
customer_review_group = record {
  prefix = "api/review";
  guard = required;
  routes =
      route get "" get_review_data
      ∷ route post "/create" handle_submit_review
      ∷ route get "/detail" get_review_detail
      ∷ route put "/update" handle_update_review
      ∷ [];
}

unfoldable pub change_password_group : Group
change_password_group = record {
  prefix = "api/change-password";
  guard = required;
  routes = route post "/submit" change_password_submit ∷ [];
}

unfoldable pub dashboard_group : Group
dashboard_group = record {
  prefix = "api/admin";
  guard = required;
  routes =
      route get "/dashboard" get_dashboard
      ∷ route get "/linechart" get_line_chart
      ∷ route get "/piechart" get_pie_chart
      ∷ route get "/barchart" get_bar_chart
      ∷ [];
}

unfoldable pub admin_invoice_group : Group
admin_invoice_group = record {
  prefix = "api/admin/order";
  guard = required;
  routes =
      route get "" get_admin_invoice
      ∷ route get "/detail" get_admin_invoice_detail
      ∷ route put "/update" update_invoice
      ∷ [];
}

unfoldable pub admin_user_group : Group
admin_user_group = record {
  prefix = "api/admin/user";
  guard = required;
  routes =
      route get "" get_admin_users
      ∷ route get "/detail" get_admin_user_detail
      ∷ route post "/create" admin_user_create
      ∷ route put "/update" admin_user_update
      ∷ [];
}

unfoldable pub admin_product_type_group : Group
admin_product_type_group = record {
  prefix = "api/admin/product-type";
  guard = required;
  routes =
      route get "" get_admin_product_types
      ∷ route get "/detail" get_admin_product_type_detail
      ∷ route post "/create" admin_product_type_create
      ∷ route put "/update" admin_product_type_update
      ∷ [];
}

unfoldable pub admin_product_group : Group
admin_product_group = record {
  prefix = "api/admin/product";
  guard = required;
  routes =
      route get "" get_admin_products
      ∷ route get "/detail" get_admin_product_detail
      ∷ route post "/create" admin_product_create
      ∷ route put "/update" admin_product_update
      ∷ [];
}

unfoldable pub admin_statistic_group : Group
admin_statistic_group = record {
  prefix = "api/admin/statistic";
  guard = required;
  routes = route get "" get_admin_statistics ∷ [];
}

unfoldable pub admin_review_group : Group
admin_review_group = record {
  prefix = "api/admin/review";
  guard = required;
  routes =
      route get "" get_admin_review
      ∷ route get "/review-analysis" get_admin_review_analysis
      ∷ route get "/detail" get_admin_review_detail
      ∷ route post "/reply" insert_review_reply
      ∷ route put "/update" update_review_reply
      ∷ [];
}

unfoldable pub routes : List Group
routes =
    app_group ∷ websocket_group ∷ chatbot_group ∷ user_group ∷ product_group ∷ cart_group
    ∷ address_group ∷ invoice_group ∷ order_history_group ∷ customer_review_group
    ∷ change_password_group ∷ dashboard_group ∷ admin_invoice_group ∷ admin_user_group
    ∷ admin_product_type_group ∷ admin_product_group ∷ admin_statistic_group ∷ admin_review_group
    ∷ []
