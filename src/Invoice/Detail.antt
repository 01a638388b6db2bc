-- ===== src/Invoice/Detail.antt =====
-- GetAdminInvoiceDetail of GoodFood-BE/internal/server/handlers/admin_invoices.go. The SELECT that joins the lines of an
-- invoice with its products is a parameter.
use good_food_be.Base.{ℕ, String, Bool, Option, List, ◌==◌}
use good_food_be.Base.Int.{ℤ}
use good_food_be.Store.{Result}
use good_food_be.Http.{Action, ◌>>=◌, ◌>>◌, pure, error_if, or_message, read}
use good_food_be.Invoice.{Invoice, InvoiceStatus, InvoiceTable, StatusTable}
use good_food_be.Invoice.Status.{CancelEmail, fetch_invoice_and_status, fetch_status_progression}

-- dto.InvoiceDetailResponse; the float64 price is its bit pattern.
pub record InvoiceDetailResponse : Type 0 where
  pub invoice_detail_id : ℕ
  pub invoice_id : ℕ
  pub product_id : ℕ
  pub price : ℕ
  pub quantity : ℤ
  pub product_name : String
  pub receive_name : String
  pub receive_phone : String
  pub receive_address : String

-- What GetAdminInvoiceDetail answers.
pub record InvoicePage : Type 0 where
  pub list_status : List InvoiceStatus
  pub list_invoice_details : List InvoiceDetailResponse

module _ (invoices : InvoiceTable) (statuses : StatusTable) (status_rows : List InvoiceStatus)
    (like : String → String → Bool) (email_of : ℕ → String) (send : CancelEmail → Option String)
    (fetch_invoice_details : ℕ → Result (List InvoiceDetailResponse)) where
  unfoldable pub get_admin_invoice_detail : ℕ → Action (List Invoice) ⊥ InvoicePage
  get_admin_invoice_detail invoice_id = do
    error_if (invoice_id == 0) 400 "Did not receive invoiceID"
    t ← read
    (invoice, status) ←
        or_message
          (fetch_invoice_and_status invoices statuses status_rows like email_of send invoice_id t)
          500
    next ←
        or_message
          (fetch_status_progression invoices statuses status_rows like email_of send status) 500
    details ← or_message (fetch_invoice_details invoice.invoice_id) 500
    pure (record { list_status = next; list_invoice_details = details })
