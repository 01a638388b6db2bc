-- ===== src/Order/Cancel.antt =====
-- What CancelOrder writes.
use good_food_be.Base.{ℕ, ◌≡◌, inl, inr, refl, sym, subst, String, some, List, ◌==◌, Bool-cases}
use good_food_be.Base.Int.{ℤ}
use good_food_be.Store.{Result, done, Result-cases}
use good_food_be.Store.Laws.{Elsewhere, update-Writes, one_by_key}
use good_food_be.Cache.{Redis}
use good_food_be.Http.{Ends}
use good_food_be.Paging.{Float64}
use good_food_be.Invoice.{Invoice, InvoiceTable, invoice_key, invoice_of}
use good_food_be.Order.{InvoiceList, Page, State, cancelled, save_cancelled, cancel_order}

-- The order stood in the table; it, and no other row, now has status 6 and the reason.
abbrev pub Cancels : ℕ → String → State → Invoice → State → Type 0
Cancels invoice_id reason s row s' =
    (old : Invoice) × (invoice_of invoice_id s.invoices ≡ some old)
    × (row ≡ record old { invoice_status_id = 6; cancel_reason = some reason })
    × (invoice_of invoice_id s'.invoices ≡ some row)
    × Elsewhere invoice_key invoice_id s.invoices s'.invoices

module _ {F : Type 0} (float : Float64 F) (invoices : InvoiceTable) (redis : Redis Page)
    (page_query : String → ℕ → ℤ → List Invoice → Result (List InvoiceList))
    (count_query : String → ℕ → List Invoice → Result ℕ) where
  module _ (invoice_id : ℕ) (body : InvoiceList) (s : State) where
    saved :
        (old : Invoice)
        → invoices.one (λ i. i.invoice_id == invoice_id) s.invoices ≡ done old
        → Ends (Cancels invoice_id body.cancel_reason s) s (
            save_cancelled float invoices redis page_query count_query
              (cancelled float invoices redis page_query count_query body.cancel_reason old)
              s)
    saved old found =
        let row = cancelled float invoices redis page_query count_query body.cancel_reason old in
        let (same, here) = one_by_key invoices invoice_id s.invoices old found in
        elim (Result-cases (invoices.update row s.invoices)) [
          | inr (e, wrong) ↦ rw wrong refl
          | inl (t, wrote) ↦
              let (now, others) =
                update-Writes invoices row old s.invoices t wrote
                  (subst (λ j. invoice_of j s.invoices ≡ some old) (sym same) here) in
              rw wrote (
                old,
                here,
                refl,
                subst (λ j. invoice_of j t ≡ some row) same now,
                subst (λ j. Elsewhere invoice_key j s.invoices t) same others,
              )
        ]

    -- CancelOrder answers 200 only after it has set the status of the order to 6 with the reason given,
    -- whatever its status was and whosever order it is, and has changed no other order; with an error
    -- nothing has changed.
    pub cancel_order-Cancels :
        Ends
          (Cancels invoice_id body.cancel_reason s)
          s
          (cancel_order float invoices redis page_query count_query invoice_id (inr body) s)
    unfolding cancel_order
    cancel_order-Cancels = elim (Bool-cases (invoice_id == 0)) [
      | inl zero_id ↦ rw zero_id refl
      | inr given ↦
          elim (Result-cases (invoices.one (λ i. i.invoice_id == invoice_id) s.invoices)) [
            | inr (e, wrong) ↦ rw (given, wrong) refl
            | inl (old, found) ↦ rw (given, found) (saved old found)
          ]
    ]
