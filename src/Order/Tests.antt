-- ===== src/Order/Tests.antt =====
-- CancelOrder and the order history on a small table.
use good_food_be.Base.{ℕ, refl, inr, String, true, false, some, none, List, [], ◌∷◌, arith}
use good_food_be.Base.Int.{ℤ, pos}
use good_food_be.Store.{Result, done}
use good_food_be.Store.Memory.{memory}
use good_food_be.Http.{Ends}
use good_food_be.Cache.{Redis, str, Key}
use good_food_be.Cache.Server.{server, empty, put}
use good_food_be.Cache.Clear.{Deletes}
use good_food_be.Paging.Rational.{rational}
use good_food_be.Invoice.{Invoice, InvoiceTable, invoice_key}
use good_food_be.Order.{InvoiceList, Page, State, page_key, cancel_order}
use good_food_be.Order.Cancel.{Cancels, cancel_order-Cancels}

abbrev invoices : InvoiceTable
invoices = memory invoice_key (λ i id. record i { invoice_id = id }) (λ i id. refl)

abbrev redis : Redis Page
redis = server

abbrev page_query : String → ℕ → ℤ → List Invoice → Result (List InvoiceList)
page_query tab account_id offset t = done []

abbrev count_query : String → ℕ → List Invoice → Result ℕ
count_query tab account_id t = done 0

abbrev order : Invoice
order = record {
  invoice_id = 1;
  shipping_fee = 0;
  total_price = 0;
  created_at = 0;
  payment_method = true;
  status = false;
  note = none;
  cancel_reason = none;
  receive_address = "1 Le Loi";
  receive_name = "An";
  receive_phone = "0900000001";
  account_id = 7;
  invoice_status_id = 1;
}

abbrev body : InvoiceList
body = record {
  invoice_id = 1;
  total_products = 2;
  address = "1 Le Loi";
  status = false;
  total_money = 0;
  cancel_reason = "late";
}

abbrev shown : Page
shown = record { rows = body ∷ []; total_page = pos 1 }

abbrev key : Key
key = page_key 7 "Order Placed" (pos 1)

abbrev start : State
start = record { invoices = order ∷ []; cache = put key (some (str shown)) empty }

up : Deletes redis
up ks c e = ground arith

cancel_order-Cancels_example :
    Ends
      (Cancels 1 "late" start)
      start
      (cancel_order rational invoices redis page_query count_query 1 (inr body) start)
cancel_order-Cancels_example =
    cancel_order-Cancels rational invoices redis page_query count_query 1 body start
