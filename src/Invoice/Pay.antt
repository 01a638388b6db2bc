-- ===== src/Invoice/Pay.antt =====
-- Placing an order: InvoicePay of GoodFood-BE/internal/server/handlers/invoices.go. Its transaction
-- works on a copy of the two tables, which the state takes over at Commit; any return before that is
-- the deferred Rollback.
pub mod Atomic
use Prim.Native.String.{◌++◌ as text_append}
use good_food_be.Base.{
  ⊤, ℕ, ◌≡◌, ◌⊎◌, inl, inr, refl, sym, ap, subst, String, Bool, Option, none, some, List, [], ◌∷◌,
  All, str_eq,
}
use good_food_be.Store.{DbError, message, Result, done, failed, Result-cases, get}
use good_food_be.Store.Laws.{Elsewhere, insert-Adds}
use good_food_be.Http.{Response, ok, error, error_struct, panic, Action}
use good_food_be.Invoice.{
  Invoice, InvoiceDetail, InvoiceTable, DetailTable, invoice_key, detail_key, invoice_of,
}

-- dto.InvoicePayload; its `product` list is only sent back, and left out.
pub record InvoicePayload : Type 0 where
  pub invoice : Invoice
  pub invoice_details : List InvoiceDetail

-- The two tables that the transaction writes.
pub record State : Type 0 where
  pub invoices : List Invoice
  pub details : List InvoiceDetail

-- `begin` and `commit` are the connection's answers: an error's text or nothing. `parse_error` is the
-- text of BodyParser's error.
module _ (invoices : InvoiceTable) (details : DetailTable) (begin commit : Option String) where
  -- The loop over the details. It ranges over copies: the payload's own details keep the IDs that they
  -- came with.
  unfoldable pub insert_details :
      ℕ → List InvoiceDetail → List InvoiceDetail → Result (List InvoiceDetail)
  insert_details invoice_id [] t = done t
  insert_details invoice_id (detail ∷ rest) t =
      elim (details.insert (record detail { invoice_id = invoice_id }) t) [
        | failed e ↦ failed e
        | done (row, t') ↦ insert_details invoice_id rest t'
      ]

  -- The inserts, on the transaction's copy. Insert sets the new ID in the payload's invoice.
  unfoldable pub insert_order : InvoicePayload → State → Result (InvoicePayload × State)
  insert_order payload s = elim (invoices.insert payload.invoice s.invoices) [
    | failed e ↦ failed e
    | done (invoice, t) ↦
        elim (insert_details invoice.invoice_id payload.invoice_details s.details) [
          | failed e ↦ failed e
          | done u ↦
              done (record payload { invoice = invoice }, record { invoices = t; details = u })
        ]
  ]

  abbrev pub committed :
      State → Result (InvoicePayload × State) → Option String → Response ⊥ InvoicePayload × State
  committed s (failed e) text = (error 500 (message e), s)
  committed s (done (payload, s')) none = (ok payload, s')
  committed s (done (payload, s')) (some text) = (error 500 text, s)

  abbrev pub begun : InvoicePayload → Option String → Action State ⊥ InvoicePayload
  begun payload (some text) s = (error 500 text, s)
  begun payload none s = committed s (insert_order payload s) commit

  -- `parse` is the body, or the text of BodyParser's error.
  unfoldable pub invoice_pay : String ⊎ InvoicePayload → Action State ⊥ InvoicePayload
  invoice_pay (inl text) s = (error 401 (text_append "Invalid body details: " text), s)
  invoice_pay (inr payload) s = begun payload begin s
