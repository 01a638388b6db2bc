-- ===== src/Invoice/Status/Update.antt =====
-- What UpdateInvoiceStatus writes and whom it mails.
use mathlib.Core.Option
use good_food_be.Base.{
  ℕ, ◌≡◌, refl, sym, ap, ◌∙◌, subst, inl, inr, String, Bool, true, false, Option, none, some, List,
  ◌∷◌, ◌==◌, arith, Bool-cases, Option-cases, ==_sound,
}
use good_food_be.Store.{message, done, Result-cases}
use good_food_be.Store.Laws.{Elsewhere, update-Writes, one_by_key}
use good_food_be.Http.{Response, ok, error, ◌>>◌, bind_ok, bind_error}
use good_food_be.Invoice.{
  Invoice, InvoiceStatus, InvoiceTable, StatusTable, invoice_key, invoice_of,
}
use good_food_be.Invoice.Status.{
  CancelEmail, State, UpdateInvoiceStruct, or_empty, advance, update_invoice_status, notify,
  cancel_email, save_invoice,
}
use good_food_be.Invoice.Status.Outcome.{advance_keys, advance_reason, Mailed, Updates}

module _ (invoices : InvoiceTable) (statuses : StatusTable) (status_rows : List InvoiceStatus)
    (like : String → String → Bool) (email_of : ℕ → String)
    (send : CancelEmail → Option String) where
  module _ (invoice_id : ℕ) (body : UpdateInvoiceStruct) (s : State) (target : InvoiceStatus)
      (asked_for : statuses.one (λ x. like x.status_name body.status_name) status_rows
        ≡ done target) where
    abbrev asked : ℕ
    asked = target.invoice_status_id

    written :
        (old : Invoice) (t' : List Invoice)
        → invoices.one (λ i. i.invoice_id == invoice_id) s.invoices ≡ done old
        → invoices.update (advance asked body.cancel_reason old) s.invoices ≡ done t'
        → (Option.map (advance asked body.cancel_reason) (invoice_of invoice_id s.invoices)
            ≡ some (advance asked body.cancel_reason old))
          × (invoice_of invoice_id t' ≡ some (advance asked body.cancel_reason old))
          × Elsewhere invoice_key invoice_id s.invoices t'
    written old t' found wrote =
        let (same, here) = one_by_key invoices invoice_id s.invoices old found in
        let key = (advance_keys asked body.cancel_reason old).0 ∙ same in
        let (now, rest) =
          update-Writes invoices (advance asked body.cancel_reason old) old s.invoices t' wrote
            (subst (λ j. invoice_of j s.invoices ≡ some old) (sym key) here) in
        (
          rw here,
          subst (λ j. invoice_of j t' ≡ some (advance asked body.cancel_reason old)) key now,
          subst (λ j. Elsewhere invoice_key j s.invoices t') key rest,
        )

    -- The last step, behind the mail.
    save_step :
        (old : Invoice) (sent : List CancelEmail)
        → invoices.one (λ i. i.invoice_id == invoice_id) s.invoices ≡ done old
        → Mailed email_of asked body.cancel_reason s (advance asked body.cancel_reason old) sent
        → Updates email_of asked invoice_id body.cancel_reason s (
            save_invoice invoices statuses status_rows like email_of send
              (advance asked body.cancel_reason old)
              (record s { sent = sent }))
    unfolding save_invoice
    save_step old sent found mailed =
        let after = record s { sent = sent } in
        elim (Result-cases (invoices.update (advance asked body.cancel_reason old) s.invoices)) [
          | inl (t', wrote) ↦
              let (was, now, rest) = written old t' found wrote in
              let run : save_invoice invoices statuses status_rows like email_of send
                    (advance asked body.cancel_reason old) after
                  ≡ (
                    ok (advance asked body.cancel_reason old),
                    record { invoices = t'; sent = sent },
                  ) =
                rw (save_invoice, wrote) refl in
              subst (Updates email_of asked invoice_id body.cancel_reason s) (sym run)
                (was, now, rest, mailed)
          | inr (e, wrong) ↦
              let run : save_invoice invoices statuses status_rows like email_of send
                    (advance asked body.cancel_reason old) after
                  ≡ (error 500 (message e), after) =
                rw (save_invoice, wrong) refl in
              subst (Updates email_of asked invoice_id body.cancel_reason s) (sym run) refl
        ]

    Mailed-none :
        (old : Invoice)
        → (asked == 6) ≡ false
        → Mailed email_of asked body.cancel_reason s (advance asked body.cancel_reason old) s.sent
    unfolding Mailed
    Mailed-none old other = (λ ne. refl, λ six. ground arith)

    Mailed-one :
        (old : Invoice)
        → (asked == 6) ≡ true
        → Mailed email_of asked body.cancel_reason s (advance asked body.cancel_reason old) (
            cancel_email invoices statuses status_rows like email_of send
              (advance asked body.cancel_reason old)
            ∷ s.sent)
    unfolding Mailed
    Mailed-one old six = (
      λ ne. ground arith,
      λ e.
          ap
            (λ r.
              record {
                to_email = email_of (advance asked body.cancel_reason old).account_id;
                reason = or_empty r;
                is_paid = (advance asked body.cancel_reason old).status;
              }
              ∷ s.sent)
            (subst (λ n. (advance n body.cancel_reason old).cancel_reason ≡ body.cancel_reason)
              (sym (==_sound asked 6 six)) (advance_reason body.cancel_reason old)),
    )

    abbrev run : Response ⊥ Invoice × State
    run = update_invoice_status invoices statuses status_rows like email_of send invoice_id body s

    abbrev Post : Response ⊥ Invoice × State → Type 0
    Post = Updates email_of asked invoice_id body.cancel_reason s

    -- Up to the mail.
    found_step :
        (old : Invoice)
        → invoices.one (λ i. i.invoice_id == invoice_id) s.invoices ≡ done old
        → run
          ≡ (notify invoices statuses status_rows like email_of send asked
                  (advance asked body.cancel_reason old)
                >> save_invoice invoices statuses status_rows like email_of send
                    (advance asked body.cancel_reason old))
              s
    unfolding update_invoice_status
    found_step old found = rw (asked_for, found) refl

    notify_quiet :
        (invoice : Invoice)
        → (asked == 6) ≡ false
        → notify invoices statuses status_rows like email_of send asked invoice s ≡ (ok tt, s)
    unfolding notify
    notify_quiet invoice other = rw (notify, other) refl

    notify_refused :
        (invoice : Invoice) (text : String)
        → (asked == 6) ≡ true
        → send (cancel_email invoices statuses status_rows like email_of send invoice) ≡ some text
        → notify invoices statuses status_rows like email_of send asked invoice s
          ≡ (error 500 text, s)
    unfolding notify
    notify_refused invoice text six refused = rw (notify, six, refused) refl

    notify_sent :
        (invoice : Invoice)
        → (asked == 6) ≡ true
        → send (cancel_email invoices statuses status_rows like email_of send invoice) ≡ none
        → notify invoices statuses status_rows like email_of send asked invoice s ≡ (
          ok tt,
          record s {
            sent = cancel_email invoices statuses status_rows like email_of send invoice ∷ s.sent;
          },
        )
    unfolding notify
    notify_sent invoice six accepted = rw (notify, six, accepted) refl

    -- UpdateInvoiceStatus, once it has found the status asked for: with 200 it has applied the business
    -- logic to the one invoice and sent a mail exactly for a cancellation; with an error it has written
    -- no invoice.
    pub update_invoice_status-Updates :
        Updates email_of target.invoice_status_id invoice_id body.cancel_reason s
          (update_invoice_status invoices statuses status_rows like email_of send invoice_id body s)
    unfolding update_invoice_status
    update_invoice_status-Updates =
        elim (Result-cases (invoices.one (λ i. i.invoice_id == invoice_id) s.invoices)) [
          | inr (e, wrong) ↦
              let gone : run ≡ (error 500 "Invoice not found!", s) =
                rw (update_invoice_status, asked_for, wrong) refl in
              subst Post (sym gone) refl
          | inl (old, found) ↦ elim (Bool-cases (asked == 6)) [
            | inr other ↦
                subst Post
                  (sym (
                    found_step old found
                    ∙ bind_ok
                        (notify invoices statuses status_rows like email_of send asked
                          (advance asked body.cancel_reason old))
                        (λ _.
                          save_invoice invoices statuses status_rows like email_of send
                            (advance asked body.cancel_reason old))
                        (notify_quiet (advance asked body.cancel_reason old) other)))
                  (save_step old s.sent found (Mailed-none old other))
            | inl six ↦
                elim (Option-cases (
                  send (
                    cancel_email invoices statuses status_rows like email_of send
                      (advance asked body.cancel_reason old)))) [
                        | inr (text, refused) ↦
                            subst Post
                              (sym (
                                found_step old found
                                ∙ bind_error
                                    (notify invoices statuses status_rows like email_of send asked
                                      (advance asked body.cancel_reason old))
                                    (λ _.
                                      save_invoice invoices statuses status_rows like email_of send
                                        (advance asked body.cancel_reason old))
                                    (notify_refused (advance asked body.cancel_reason old) text six
                                      refused)))
                              refl
                        | inl accepted ↦
                            subst Post
                              (sym (
                                found_step old found
                                ∙ bind_ok
                                    (notify invoices statuses status_rows like email_of send asked
                                      (advance asked body.cancel_reason old))
                                    (λ _.
                                      save_invoice invoices statuses status_rows like email_of send
                                        (advance asked body.cancel_reason old))
                                    (notify_sent (advance asked body.cancel_reason old) six
                                      accepted)))
                              (save_step old
                                (cancel_email invoices statuses status_rows like email_of send
                                    (advance asked body.cancel_reason old)
                                  ∷ s.sent)
                                found (Mailed-one old six))
                      ]
          ]
        ]
