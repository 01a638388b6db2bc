-- ===== src/Invoice/Status/Outcome.antt =====
-- How UpdateInvoiceStatus may leave the invoices and the mails.
use mathlib.Core.Option
use good_food_be.Base.{ℕ, ◌≡◌, ◌≢◌, String, Option, some, List, ◌∷◌, arith}
use good_food_be.Store.Laws.{Elsewhere}
use good_food_be.Http.{Response, ok, error, error_struct, panic}
use good_food_be.Invoice.{Invoice, invoice_key, invoice_of}
use good_food_be.Invoice.Status.{CancelEmail, State, or_empty, advance}

-- What advance leaves alone.
pub advance_keys :
    (asked : ℕ) (reason : Option String) (i : Invoice)
    → ((advance asked reason i).invoice_id ≡ i.invoice_id)
      × ((advance asked reason i).account_id ≡ i.account_id)
unfolding advance
advance_keys asked reason i = (ground arith, ground arith)

-- The mails after the request: one more, to the account of the order, exactly if the cancellation was
-- asked for.
unfoldable pub Mailed :
    (ℕ → String) → ℕ → Option String → State → Invoice → List CancelEmail → Type 0
Mailed email_of asked reason s row sent =
    (asked ≢ 6 → sent ≡ s.sent)
    × (asked ≡ 6
        → sent
          ≡ record {
            to_email = email_of row.account_id;
            reason = or_empty reason;
            is_paid = row.status;
          }
            ∷ s.sent)

-- How UpdateInvoiceStatus may end, once the status asked for has the ID `asked`. With 200, only the
-- invoice is written, by the business logic, and a mail has gone to its account exactly if the
-- cancellation was asked for. With an error no invoice is written.
abbrev pub Updates :
    (ℕ → String) → ℕ → ℕ → Option String → State → Response ⊥ Invoice × State → Type 0
Updates email_of asked invoice_id reason s (ok row, s') =
    (Option.map (advance asked reason) (invoice_of invoice_id s.invoices) ≡ some row)
    × (invoice_of invoice_id s'.invoices ≡ some row)
    × Elsewhere invoice_key invoice_id s.invoices s'.invoices
    × Mailed email_of asked reason s row s'.sent
Updates email_of asked invoice_id reason s (error code text, s') = s'.invoices ≡ s.invoices
Updates email_of asked invoice_id reason s (error_struct code e, s') = ⊥
Updates email_of asked invoice_id reason s (panic, s') = ⊥

pub advance_reason :
    (reason : Option String) (i : Invoice) → (advance 6 reason i).cancel_reason ≡ reason
unfolding advance
advance_reason reason i = ground arith
