-- ===== src/Invoice.antt =====
-- Invoices: GoodFood-BE/internal/utils/admin_invoices_helper.go, its handlers in
-- GoodFood-BE/internal/server/handlers/admin_invoices.go, and InvoicePay of
-- GoodFood-BE/internal/server/handlers/invoices.go. The tables `invoice`, `invoice_status` and
-- `invoice_detail`; LIKE, the mail server and the transactions are parameters.
pub mod Status
pub mod Pay
pub mod Listing
pub mod Filters
pub mod Listed
pub mod Detail
mod Tests
use good_food_be.Base.{ℕ, String, Bool, Option, List}
use good_food_be.Base.Int.{ℤ}
use good_food_be.Store.{Table, get}

-- models.Invoice. The float32 amounts are only copied, and stand as their bit patterns.
pub record Invoice : Type 0 where
  pub invoice_id : ℕ
  pub shipping_fee : ℕ
  pub total_price : ℕ
  pub created_at : ℕ
  pub payment_method : Bool
  -- whether it is paid
  pub status : Bool
  pub note : Option String
  pub cancel_reason : Option String
  pub receive_address : String
  pub receive_name : String
  pub receive_phone : String
  pub account_id : ℕ
  pub invoice_status_id : ℕ

-- models.InvoiceStatus
pub record InvoiceStatus : Type 0 where
  pub invoice_status_id : ℕ
  pub status_name : String

-- models.InvoiceDetail
pub record InvoiceDetail : Type 0 where
  pub invoice_detail_id : ℕ
  pub quantity : ℤ
  pub price : ℕ
  pub product_id : ℕ
  pub invoice_id : ℕ

abbrev pub invoice_key : Invoice → ℕ
invoice_key i = i.invoice_id

abbrev pub status_key : InvoiceStatus → ℕ
status_key s = s.invoice_status_id

abbrev pub detail_key : InvoiceDetail → ℕ
detail_key d = d.invoice_detail_id

abbrev pub InvoiceTable : Type 0
InvoiceTable = Table invoice_key (λ i id. record i { invoice_id = id })

abbrev pub StatusTable : Type 0
StatusTable = Table status_key (λ s id. record s { invoice_status_id = id })

abbrev pub DetailTable : Type 0
DetailTable = Table detail_key (λ d id. record d { invoice_detail_id = id })

-- The invoice under an ID.
abbrev pub invoice_of : ℕ → List Invoice → Option Invoice
invoice_of = get invoice_key
