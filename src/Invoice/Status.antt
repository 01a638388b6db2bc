-- ===== src/Invoice/Status.antt =====
-- The status of an order: FetchInvoiceAndStatus, FetchStatusProgression and UpdateInvoiceStatus of
-- GoodFood-BE/internal/utils/admin_invoices_helper.go, and the handlers GetAdminInvoiceDetail and
-- UpdateInvoice of GoodFood-BE/internal/server/handlers/admin_invoices.go.
pub mod Progress
pub mod Reached
pub mod Outcome
pub mod Update
use good_food_be.Base.{
  ⊤, ℕ, String, Bool, true, false, Option, none, some, List, [], ◌∷◌, ◌++◌, ◌+◌, ◌==◌, ◌&&◌, ◌||◌,
  not, str_eq, if◌then◌else◌,
}
use good_food_be.Store.{DbError, fault, message, Result, done, failed}
use good_food_be.Http.{
  Response, ok, error, Action, ◌>>=◌, ◌>>◌, pure, error_if, parsed, or_error, or_message, read,
}
use good_food_be.Invoice.{
  Invoice, InvoiceStatus, InvoiceTable, StatusTable, invoice_key, status_key,
}

abbrev pub status_order_placed : String
status_order_placed = "Order Placed"

abbrev pub status_cancelled : String
status_cancelled = "Cancelled"

abbrev pub status_order_confirmed : String
status_order_confirmed = "Order Confirmed"

abbrev pub status_processing : String
status_processing = "Order Processing"

abbrev pub status_shipping : String
status_shipping = "Shipping"

abbrev pub status_delivered : String
status_delivered = "Delivered"

-- An order cancellation mail: SendOrderCancelEmail with its body's two variable parts.
pub record CancelEmail : Type 0 where
  pub to_email : String
  pub reason : String
  pub is_paid : Bool

-- The invoices, and the mails that the mail server has accepted, newest first.
pub record State : Type 0 where
  pub invoices : List Invoice
  pub sent : List CancelEmail

-- dto.UpdateInvoiceStruct
pub record UpdateInvoiceStruct : Type 0 where
  pub status_name : String
  pub cancel_reason : Option String

-- `null.String.String`: the empty text where it is null.
abbrev pub or_empty : Option String → String
or_empty none = ""
or_empty (some text) = text

-- The names that FetchStatusProgression asks for.
unfoldable pub progression : String → List String
progression name =
    if str_eq name status_order_placed
    then name ∷ "Cancelled" ∷ "Order Confirmed" ∷ []
    else if str_eq name status_order_confirmed
    then name ∷ "Order Processing" ∷ []
    else if str_eq name status_processing
    then name ∷ "Shipping" ∷ []
    else if str_eq name status_shipping
    then name ∷ "Delivered" ∷ []
    else if str_eq name status_delivered
    then name ∷ []
    else name ∷ []

-- The business logic of UpdateInvoiceStatus on the invoice, given the ID of the status asked for.
unfoldable pub advance : ℕ → Option String → Invoice → Invoice
advance asked reason invoice =
    let moved =
      if not (invoice.invoice_status_id == asked) && not (asked == 6)
      then record invoice { invoice_status_id = invoice.invoice_status_id + 1 }
      else invoice in
    let delivered =
      if asked == 5 then record moved { invoice_status_id = 5; status = true } else moved in
    if asked == 6
    then record delivered { invoice_status_id = 6; cancel_reason = reason }
    else delivered

-- `like` is SQL's LIKE, its pattern last; `email_of` is the loaded relation's mail address;
-- `send` is the mail server, which gives an error's text or nothing.
module _ (invoices : InvoiceTable) (statuses : StatusTable) (status_rows : List InvoiceStatus)
    (like : String → String → Bool) (email_of : ℕ → String)
    (send : CancelEmail → Option String) where
  abbrev like_any : List String → String → Bool
  like_any [] name = false
  like_any (p ∷ ps) name = like name p || like_any ps name

  unfoldable pub fetch_invoice_and_status : ℕ → List Invoice → Result (Invoice × InvoiceStatus)
  fetch_invoice_and_status invoice_id t = elim (invoices.one (λ i. i.invoice_id == invoice_id) t) [
    | failed e ↦ failed (fault "Invoice not found!")
    | done invoice ↦
        elim (statuses.one (λ s. s.invoice_status_id == invoice.invoice_status_id) status_rows) [
          | failed e ↦ failed e
          | done status ↦ done (invoice, status)
        ]
  ]

  unfoldable pub fetch_status_progression : InvoiceStatus → Result (List InvoiceStatus)
  unfolding progression
  fetch_status_progression status =
      statuses.all (λ s. like_any (progression status.status_name) s.status_name) status_rows

  abbrev pub cancel_email : Invoice → CancelEmail
  cancel_email invoice = record {
    to_email = email_of invoice.account_id;
    reason = or_empty invoice.cancel_reason;
    is_paid = invoice.status;
  }

  -- The mail goes out before the invoice is written.
  unfoldable pub notify : ℕ → Invoice → Action State ⊥ ⊤
  notify asked invoice s =
      if asked == 6
      then elim (send (cancel_email invoice)) [
        | some text ↦ (error 500 text, s)
        | none ↦ (ok tt, record s { sent = cancel_email invoice ∷ s.sent })
      ]
      else (ok tt, s)

  -- `invoice.Update`
  unfoldable pub save_invoice : Invoice → Action State ⊥ Invoice
  save_invoice invoice s = elim (invoices.update invoice s.invoices) [
    | done t ↦ (ok invoice, record s { invoices = t })
    | failed e ↦ (error 500 (message e), s)
  ]

  unfoldable pub update_invoice_status : ℕ → UpdateInvoiceStruct → Action State ⊥ Invoice
  update_invoice_status invoice_id status = do
    invoice_status ←
        or_error (statuses.one (λ s. like s.status_name status.status_name) status_rows) 500
          "Invoice status not found!"
    s ← read
    invoice ←
        or_error (invoices.one (λ i. i.invoice_id == invoice_id) s.invoices) 500
          "Invoice not found!"
    let asked = invoice_status.invoice_status_id
    let invoice' = advance asked status.cancel_reason invoice
    notify asked invoice'
    save_invoice invoice'

  -- The handler UpdateInvoice.
  unfoldable pub update_invoice : ℕ → Option UpdateInvoiceStruct → Action State ⊥ Invoice
  unfolding update_invoice_status
  update_invoice invoice_id body = do
    error_if (invoice_id == 0) 400 "Did not receive invoiceID"
    status ← parsed body 400 "Invalid body!"
    update_invoice_status invoice_id status
