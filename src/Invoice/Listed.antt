-- ===== src/Invoice/Listed.antt =====
-- What GetAdminInvoice lists and counts.
use good_food_be.Base.{
  suc, subst, ℕ, ◌≡◌, refl, sym, ap, ◌∙◌, ◌≤◌, ◌⊎◌, inl, inr, String, Bool, true, Option, some,
  List, [], ◌∷◌, length, All, Bool-cases, Sum-cases,
}
use good_food_be.Base.Int.{pos}
use good_food_be.Store.{Result, Result-cases, done, get}
use good_food_be.Http.{Ends, ◌>>=◌}
use good_food_be.Review.Listing.{or_text}
use good_food_be.Paging.{Float64, paginate, is_zero}
use good_food_be.Invoice.{Invoice, InvoiceStatus, InvoiceTable, StatusTable, invoice_key}
use good_food_be.Invoice.Listing.{
  InvoiceCards, InvoicePage, InvoiceQuery, Condition, meets, build_invoice_filters, dates,
  map_invoices, list_invoices, get_admin_invoice,
}
use good_food_be.Invoice.Filters.{Filters, IsBuilt, build_invoice_filters-IsBuilt}

module _ (statuses : StatusTable) (status_rows : List InvoiceStatus)
    (ilike : String → String → Bool) (digits : ℕ → String) (day : ℕ → ℕ)
    (parse_date : String → Option ℕ) where
  -- The rows are at most six, stand in the table and meet the condition asked for, and the number of pages is
  -- that of the rows that meet it.
  abbrev pub Lists :
      {F : Type 0}
      → Float64 F
      → InvoiceTable
      → InvoiceQuery
      → List Invoice
      → InvoicePage
      → List Invoice
      → Type 0
  Lists float invoices q t page t' =
      (t' ≡ t)
      × ((condition : Condition) × (total : ℕ) × Filters statuses status_rows ilike digits day
            parse_date q condition
          × (invoices.count condition t ≡ done total)
          × (page.total_page ≡ (paginate float q.page (pos 6) (pos total)).1)
          × (length page.rows ≤ 6)
          × All
              (λ r.
                (condition r.invoice ≡ true)
                × (get invoice_key r.invoice.invoice_id t ≡ some r.invoice))
              page.rows)

length-map_invoices :
    (status_of : Invoice → Option InvoiceStatus) (rows : List Invoice)
    → length (map_invoices status_of rows) ≡ length rows
length-map_invoices status_of [] = refl
length-map_invoices status_of (i ∷ rows) = ap suc (length-map_invoices status_of rows)

All-map_invoices :
    (P : Invoice → Type 0) (status_of : Invoice → Option InvoiceStatus) (rows : List Invoice)
    → All P rows
    → All (λ r. P r.invoice) (map_invoices status_of rows)
All-map_invoices P status_of [] h = tt
All-map_invoices P status_of (i ∷ rows) h = (h.0, All-map_invoices P status_of rows h.1)

module _ {F : Type 0} (float : Float64 F) (invoices : InvoiceTable) (statuses : StatusTable)
    (status_rows : List InvoiceStatus) (ilike : String → String → Bool) (digits : ℕ → String)
    (day : ℕ → ℕ) (parse_date : String → Option ℕ)
    (fetch_cards : List Invoice → Result InvoiceCards)
    (status_of : Invoice → Option InvoiceStatus) where
  list_invoices-Lists :
      (q : InvoiceQuery) (cards : InvoiceCards) (query total : List Condition) (t : List Invoice)
      → query ≡ total
      → Filters statuses status_rows ilike digits day parse_date q (meets query)
      → Ends (Lists statuses status_rows ilike digits day parse_date float invoices q t) t (
          list_invoices float invoices statuses status_rows ilike digits day parse_date fetch_cards
            status_of q cards
            (query, total)
            t)
  list_invoices-Lists q cards query total t same asked =
      elim (Result-cases (invoices.count (meets total) t)) [
        | inr (e, wrong) ↦ rw (wrong) refl
        | inl (n, counted) ↦
            elim (Result-cases
              (invoices.select (meets query) 6 (paginate float q.page (pos 6) (pos n)).0 t)) [
                | inr (e, wrong) ↦ rw (counted, wrong) refl
                | inl (rows, selected) ↦
                    let (few, stand) =
                      invoices.select_found (meets query) 6
                        (paginate float q.page (pos 6) (pos n)).0 t rows selected in
                    rw (counted, selected)
                      (
                        refl,
                        (
                          meets query,
                          n,
                          asked,
                          ap (λ c. invoices.count (meets c) t) same ∙ counted,
                          refl,
                          subst (λ k. k ≤ 6) (sym (length-map_invoices status_of rows)) few,
                          All-map_invoices
                              (λ i.
                                (meets query i ≡ true) × (get invoice_key i.invoice_id t ≡ some i))
                              status_of rows stand,
                        ),
                      )
              ]
      ]

  filtered :
      (q : InvoiceQuery) (cards : InvoiceCards) (t : List Invoice)
      (mods : String ⊎ (List Condition × List Condition))
      → IsBuilt statuses status_rows ilike digits day parse_date q mods
      → Ends (Lists statuses status_rows ilike digits day parse_date float invoices q t) t (
          (or_text mods 500
              >>= list_invoices float invoices statuses status_rows ilike digits day parse_date
                  fetch_cards status_of q cards)
            t)
  filtered q cards t (inl wrong) h = refl
  filtered q cards t (inr (query, total)) h = list_invoices-Lists q cards query total t h.0 h.1

  -- GetAdminInvoice changes nothing. With 200 the invoices that it shows are at most six, stand in the table and
  -- meet the condition that is asked for, and the number of pages is Paginate's for the count of the invoices
  -- that meet it. The condition is, with a search, that the invoice's ID or the customer's name is like the
  -- search, or that the invoice has the status that is found by a name like it, as the sort says; without a
  -- search and sorted by "Created at", that the day lies between the two dates, if the first is not zero and
  -- before the second; and no condition in any other case.
  pub get_admin_invoice-Lists :
      (q : InvoiceQuery) (t : List Invoice)
      → Ends (Lists statuses status_rows ilike digits day parse_date float invoices q t) t (
          get_admin_invoice float invoices statuses status_rows ilike digits day parse_date
            fetch_cards status_of q t)
  unfolding get_admin_invoice
  get_admin_invoice-Lists q t = elim (Result-cases (fetch_cards t)) [
    | inr (e, wrong) ↦ rw (wrong) refl
    | inl (cards, fetched) ↦ elim (Bool-cases (is_zero q.page)) [
      | inl missing ↦ rw (fetched, missing) refl
      | inr given ↦ elim (Sum-cases (dates parse_date q)) [
        | inl (wrong, e) ↦ rw (fetched, given, e) refl
        | inr ((from, to), e) ↦
            rw (fetched, given, e)
              (filtered q cards t
                (build_invoice_filters statuses status_rows ilike digits day q.search q.sort from
                  to)
                (build_invoice_filters-IsBuilt statuses status_rows ilike digits day parse_date q
                  from to e))
      ]
    ]
  ]
