-- ===== src/Invoice/Tests.antt =====
-- Orders on small tables.
use good_food_be.Base.{
  ℕ, ◌≡◌, ◌↔◌, ◌⊎◌, refl, inr, String, true, false, Option, some, none, List, [], ◌∷◌, arith,
  str_eq,
}
use good_food_be.Base.Int.{pos}
use good_food_be.Store.{done}
use good_food_be.Store.Memory.{memory, memory_run}
use good_food_be.Http.{Ends}
use good_food_be.Invoice.{
  Invoice, InvoiceStatus, InvoiceDetail, InvoiceTable, StatusTable, DetailTable, invoice_key,
  status_key, detail_key,
}
use good_food_be.Invoice.Status as status
use good_food_be.Invoice.Status.{
  CancelEmail, UpdateInvoiceStruct, progression, advance, update_invoice_status,
}
use good_food_be.Invoice.Status.Progress.{
  Stage, placed, confirmed, cancelled, id_of, name_of, Offers, StandsAt, PaidIfDelivered,
  advance-StandsAt,
}
use good_food_be.Invoice.Status.Reached.{Jumps, advance_iff}
use good_food_be.Invoice.Status.Outcome.{Updates}
use good_food_be.Invoice.Status.Update.{update_invoice_status-Updates}
use good_food_be.Paging.Rational.{rational}
use good_food_be.Invoice.Listing.{InvoiceQuery, get_admin_invoice}
use good_food_be.Invoice.Listed.{Lists, get_admin_invoice-Lists}
use good_food_be.Invoice.Pay as pay
use good_food_be.Invoice.Pay.{InvoicePayload, invoice_pay}
use good_food_be.Invoice.Pay.Atomic.{Placed, invoice_pay-Placed}

abbrev invoices : InvoiceTable
invoices = memory invoice_key (λ i id. record i { invoice_id = id }) (λ i id. refl)

abbrev statuses : StatusTable
statuses = memory status_key (λ s id. record s { invoice_status_id = id }) (λ s id. refl)

abbrev details : DetailTable
details = memory detail_key (λ d id. record d { invoice_detail_id = id }) (λ d id. refl)

abbrev order : Invoice
order = record {
  invoice_id = 1;
  shipping_fee = 0;
  total_price = 0;
  created_at = 0;
  payment_method = true;
  status = false;
  note = none;
  cancel_reason = none;
  receive_address = "1 Le Loi";
  receive_name = "An";
  receive_phone = "0900000001";
  account_id = 7;
  invoice_status_id = 1;
}

abbrev status_row : Stage → InvoiceStatus
status_row a = record { invoice_status_id = id_of a; status_name = name_of a }

abbrev status_rows : List InvoiceStatus
status_rows = status_row placed ∷ status_row confirmed ∷ status_row cancelled ∷ []

abbrev email_of : ℕ → String
email_of id = "an@example.com"

abbrev send : CancelEmail → Option String
send mail = none

abbrev cancel_body : UpdateInvoiceStruct
cancel_body = record { status_name = "Cancelled"; cancel_reason = some "late" }

abbrev start : status.State
start = record { invoices = order ∷ []; sent = [] }

abbrev line : InvoiceDetail
line = record {
  invoice_detail_id = 0;
  quantity = pos 2;
  price = 0;
  product_id = 10;
  invoice_id = 0;
}

abbrev payload : InvoicePayload
payload = record { invoice = record order { invoice_id = 0 }; invoice_details = line ∷ line ∷ [] }

abbrev tables : pay.State
tables = record { invoices = order ∷ []; details = [] }

pay_run :
    (invoice_pay invoices details none none (inr payload) tables).1.details
    ≡ record line { invoice_detail_id = 2; invoice_id = 2 }
      ∷ record line { invoice_detail_id = 1; invoice_id = 2 }
      ∷ []
unfolding invoice_pay memory_run pay.insert_order pay.insert_details
pay_run = refl

offered : Offers placed cancelled
unfolding progression
offered = refl

advance_iff_example :
    ((advance 6 (some "late") order).invoice_status_id ≡ 6)
    ↔ (Offers placed cancelled ⊎ Jumps cancelled)
advance_iff_example = advance_iff placed cancelled (some "late") order refl

unpaid : PaidIfDelivered order
unpaid e = ground arith

advance-StandsAt_example :
    StandsAt cancelled (some "late") (advance 6 (some "late") order)
    × PaidIfDelivered (advance 6 (some "late") order)
advance-StandsAt_example = advance-StandsAt placed cancelled (some "late") order offered refl unpaid

asked_for :
    statuses.one (λ x. str_eq x.status_name cancel_body.status_name) status_rows
    ≡ done (status_row cancelled)
unfolding memory_run
asked_for = refl

update_invoice_status-Updates_example :
    Updates email_of 6 1
      (some "late")
      start
      (update_invoice_status invoices statuses status_rows str_eq email_of send 1 cancel_body start)
update_invoice_status-Updates_example =
    update_invoice_status-Updates invoices statuses status_rows str_eq email_of send 1 cancel_body
      start (status_row cancelled) asked_for

invoice_pay-Placed_example :
    Ends
      (Placed payload tables)
      tables
      (invoice_pay invoices details none none (inr payload) tables)
invoice_pay-Placed_example = invoice_pay-Placed invoices details none none payload tables

abbrev by_name : InvoiceQuery
by_name = record {
  page = pos 1;
  sort = "Customer name";
  search = "An";
  date_from = "";
  date_to = "";
}

get_admin_invoice-Lists_example :
    Ends
      (Lists statuses []
        (λ search text. str_eq search text)
        (λ n. "1")
        (λ time. time)
        (λ date. none)
        rational
        invoices
        by_name
        (order ∷ []))
      (order ∷ [])
      (get_admin_invoice rational invoices statuses []
        (λ search text. str_eq search text)
        (λ n. "1")
        (λ time. time)
        (λ date. none)
        (λ t. done (record { total_invoice = 1; total_canceled = 0 }))
        (λ i. none)
        by_name
        (order ∷ []))
get_admin_invoice-Lists_example =
    get_admin_invoice-Lists rational invoices statuses [] (λ search text. str_eq search text)
      (λ n. "1") (λ time. time) (λ date. none)
      (λ t. done (record { total_invoice = 1; total_canceled = 0 })) (λ i. none) by_name
      (order ∷ [])
