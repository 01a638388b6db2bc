-- ===== src/Invoice/Pay/Atomic.antt =====
-- What a placed order leaves in the tables.
use good_food_be.Base.{
  ⊤, ℕ, ◌≡◌, inl, inr, refl, sym, subst, ◌∙◌, String, Option, none, some, List, [], ◌∷◌, All,
  Option-cases, arith,
}
use good_food_be.Store.{Result, done, failed, Result-cases, get}
use good_food_be.Store.Laws.{Elsewhere, insert-Adds}
use good_food_be.Http.{Ends}
use good_food_be.Invoice.{
  InvoiceDetail, InvoiceTable, DetailTable, invoice_key, detail_key, invoice_of,
}
use good_food_be.Invoice.Pay.{
  InvoicePayload, State, insert_details, insert_order, begun, committed, invoice_pay,
}

-- The rows are the details, each under the invoice's ID and a key of its own.
abbrev pub Numbered : ℕ → List InvoiceDetail → List InvoiceDetail → Type 0
Numbered id [] [] = ⊤
Numbered id (d ∷ ds) (r ∷ rs) =
    (r ≡ record d { invoice_id = id; invoice_detail_id = r.invoice_detail_id }) × Numbered id ds rs
Numbered id [] (r ∷ rs) = ⊥
Numbered id (d ∷ ds) [] = ⊥

-- Every row is kept as it was.
unfoldable pub Keeps : List InvoiceDetail → List InvoiceDetail → Type 0
Keeps t t' =
    (k : ℕ) (r : InvoiceDetail) → get detail_key k t ≡ some r → get detail_key k t' ≡ some r

abbrev pub Stand : List InvoiceDetail → List InvoiceDetail → Type 0
Stand t rows = All (λ r. get detail_key r.invoice_detail_id t ≡ some r) rows

-- The details stand in the new table, and the older rows are as they were.
abbrev pub Entered : ℕ → List InvoiceDetail → List InvoiceDetail → List InvoiceDetail → Type 0
Entered id ds t t' =
    ((rows : List InvoiceDetail) × Numbered id ds rows × Stand t' rows) × Keeps t t'

abbrev Inserts : ℕ → List InvoiceDetail → List InvoiceDetail → Result (List InvoiceDetail) → Type 0
Inserts id ds t (failed e) = ⊤
Inserts id ds t (done t') = Entered id ds t t'

-- The order that the answer shows is new and stands in the tables with all of its details, and every other
-- order and every older detail is as it was.
abbrev pub Placed : InvoicePayload → State → InvoicePayload → State → Type 0
Placed payload s made s' =
    (made.invoice ≡ record payload.invoice { invoice_id = made.invoice.invoice_id })
    × (invoice_of made.invoice.invoice_id s.invoices ≡ none)
    × (invoice_of made.invoice.invoice_id s'.invoices ≡ some made.invoice)
    × Elsewhere invoice_key made.invoice.invoice_id s.invoices s'.invoices
    × Entered made.invoice.invoice_id payload.invoice_details s.details s'.details

abbrev Orders : InvoicePayload → State → Result (InvoicePayload × State) → Type 0
Orders payload s (failed e) = ⊤
Orders payload s (done (made, s')) = Placed payload s made s'

Keeps-refl : (t : List InvoiceDetail) → Keeps t t
unfolding Keeps
Keeps-refl t k r e = e

module _ (details : DetailTable) where
  Keeps-insert :
      (d row : InvoiceDetail) (t t' t'' : List InvoiceDetail)
      → details.insert d t ≡ done (row, t')
      → Keeps t' t''
      → Keeps t t'' × (get detail_key row.invoice_detail_id t'' ≡ some row)
  unfolding Keeps
  Keeps-insert d row t t' t'' e rest =
      let (free, numbered, here, others) = insert-Adds details d row t t' e in
      (
        λ k r old. rest k r (
            others k
              (λ same. ground (arith, subst (λ j. get detail_key j t ≡ none) (sym same) free, old))
            ∙ old),
        rest row.invoice_detail_id row here,
      )

module _ (invoices : InvoiceTable) (details : DetailTable) (begin commit : Option String) where
  inserts :
      (id : ℕ) (ds t : List InvoiceDetail)
      → Inserts id ds t (insert_details invoices details begin commit id ds t)
  unfolding insert_details
  inserts id [] t = (([], tt, tt), Keeps-refl t)
  inserts id (d ∷ ds) t = elim (Result-cases (details.insert (record d { invoice_id = id }) t)) [
    | inr (e, wrong) ↦ rw (insert_details, wrong) tt
    | inl ((row, t'), made) ↦
        elim (Result-cases (insert_details invoices details begin commit id ds t')) [
          | inr (e, wrong) ↦ rw (insert_details, made, wrong) tt
          | inl (t'', rest) ↦
              let ((rows, numbered, stand), keep) =
                subst (Inserts id ds t') rest (inserts id ds t') in
              let (keep', here) =
                Keeps-insert details (record d { invoice_id = id }) row t t' t'' made keep in
              rw (insert_details, made, rest)
                (
                  (
                    row ∷ rows,
                    (
                      (insert-Adds details (record d { invoice_id = id }) row t t' made).1,
                      numbered,
                    ),
                    (here, stand),
                  ),
                  keep',
                )
        ]
  ]

  orders :
      (payload : InvoicePayload) (s : State)
      → Orders payload s (insert_order invoices details begin commit payload s)
  unfolding insert_order
  orders payload s = elim (Result-cases (invoices.insert payload.invoice s.invoices)) [
    | inr (e, wrong) ↦ rw (insert_order, wrong) tt
    | inl ((invoice, t), made) ↦
        elim (Result-cases (
          insert_details invoices details begin commit invoice.invoice_id payload.invoice_details
            s.details)) [
              | inr (e, wrong) ↦ rw (insert_order, made, wrong) tt
              | inl (u, rest) ↦
                  let (free, numbered, here, others) =
                    insert-Adds invoices payload.invoice invoice s.invoices t made in
                  let entered =
                    subst (Inserts invoice.invoice_id payload.invoice_details s.details) rest
                      (inserts invoice.invoice_id payload.invoice_details s.details) in
                  rw (insert_order, made, rest) (numbered, free, here, others, entered)
            ]
  ]

  ends :
      (payload : InvoicePayload) (s : State) (r : Result (InvoicePayload × State))
      → Orders payload s r
      → Ends (Placed payload s) s (committed invoices details begin commit s r commit)
  ends payload s (failed e) o = refl
  ends payload s (done (made, s')) o = elim (Option-cases commit) [
    | inr (text, refused) ↦ rw refused refl
    | inl kept ↦ rw kept o
  ]

  commits :
      (payload : InvoicePayload) (s : State)
      → Ends (Placed payload s) s (begun invoices details begin commit payload none s)
  commits payload s =
      ends payload s (insert_order invoices details begin commit payload s) (orders payload s)

  -- InvoicePay is all or nothing: with 200 the order that it answers is new and stands in the tables with
  -- every one of its details under its ID, and no other row has changed; with an error, of the inserts or
  -- of Commit, both tables are as they were.
  pub invoice_pay-Placed :
      (payload : InvoicePayload) (s : State)
      → Ends (Placed payload s) s (invoice_pay invoices details begin commit (inr payload) s)
  unfolding invoice_pay
  invoice_pay-Placed payload s = elim (Option-cases begin) [
    | inr (text, refused) ↦ rw refused refl
    | inl opened ↦
        subst (λ b. Ends (Placed payload s) s (begun invoices details begin commit payload b s))
          (sym opened) (commits payload s)
  ]
