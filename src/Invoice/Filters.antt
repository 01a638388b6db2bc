-- ===== src/Invoice/Filters.antt =====
-- What BuildInvoiceFilters of GoodFood-BE/internal/utils/admin_invoices_helper.go builds: the condition that the query
-- parameters of a list of invoices ask for.
use good_food_be.Base.{
  ℕ, ◌≡◌, ◌≢◌, refl, ◌≤◌, ◌<◌, ◌⊎◌, inl, inr, String, Bool, true, false, not, ◌&&◌, Option, List,
  [], ◌==◌, leb, ltb, str_eq, str_eq_iff, if◌then◌else◌, Bool-cases, arith, ℕ_discrete,
}
use good_food_be.Store.{Result, done, failed}
use good_food_be.Review.Listing.{parse_date_range}
use good_food_be.Invoice.{Invoice, InvoiceStatus, StatusTable}
use good_food_be.Invoice.Listing.{
  InvoiceQuery, Condition, meets, both, build_invoice_filters, status_filter, search_filter, dates,
}

module _ (statuses : StatusTable) (status_rows : List InvoiceStatus)
    (ilike : String → String → Bool) (digits : ℕ → String) (day : ℕ → ℕ)
    (parse_date : String → Option ℕ) where
  -- The condition that a request asks for: by a search in the column that the list is sorted by, or without a
  -- search by the dates; no condition where the column cannot be searched or the dates are no range.
  pub data Filters (q : InvoiceQuery) (p : Condition) : Type 0 where
    by_id :
        q.search ≢ ""
        → q.sort ≡ "Invoice ID"
        → ((i : Invoice) → p i ≡ ilike q.search (digits i.invoice_id))
        → Filters q p
    by_customer :
        q.search ≢ ""
        → q.sort ≡ "Customer name"
        → ((i : Invoice) → p i ≡ ilike q.search i.receive_name)
        → Filters q p
    by_status :
        (status : InvoiceStatus)
        → q.search ≢ ""
        → q.sort ≡ "Invoice status"
        → statuses.one (λ s. ilike q.search s.status_name) status_rows ≡ done status
        → ((i : Invoice) → p i ≡ (i.invoice_status_id == status.invoice_status_id))
        → Filters q p
    by_date :
        (from to : ℕ)
        → q.search ≡ ""
        → q.sort ≡ "Created at"
        → parse_date_range parse_date q.date_from q.date_to ≡ inr (from, to)
        → 0 < from
        → from < to
        → ((i : Invoice) → p i ≡ (leb from (day i.created_at) && leb (day i.created_at) to))
        → Filters q p
    no_column :
        q.search ≢ ""
        → q.sort ≢ "Invoice ID"
        → q.sort ≢ "Customer name"
        → q.sort ≢ "Invoice status"
        → ((i : Invoice) → p i ≡ true)
        → Filters q p
    no_dates : q.search ≡ "" → q.sort ≢ "Created at" → ((i : Invoice) → p i ≡ true) → Filters q p
    no_range :
        (from to : ℕ)
        → q.search ≡ ""
        → q.sort ≡ "Created at"
        → parse_date_range parse_date q.date_from q.date_to ≡ inr (from, to)
        → (from ≡ 0) ⊎ (to ≤ from)
        → ((i : Invoice) → p i ≡ true)
        → Filters q p

  -- The two lists of BuildInvoiceFilters are the same, and have the condition that is asked for.
  abbrev pub IsBuilt : InvoiceQuery → String ⊎ (List Condition × List Condition) → Type 0
  IsBuilt q (inl wrong) = Unit
  IsBuilt q (inr (query, total)) = (query ≡ total) × Filters q (meets query)

  and_true : (b : Bool) → (b && true) ≡ b
  and_true true = refl
  and_true false = refl

  is_text : (x y : String) → str_eq x y ≡ true → x ≡ y
  is_text x y e = (str_eq_iff x y).0 e

  no_text : (x y : String) → str_eq x y ≡ false → x ≢ y
  no_text x y e same = ground (arith, (str_eq_iff x y).1 same)

  status_filter-IsBuilt :
      (q : InvoiceQuery) (r : Result InvoiceStatus)
      → q.search ≢ ""
      → q.sort ≡ "Invoice status"
      → statuses.one (λ s. ilike q.search s.status_name) status_rows ≡ r
      → IsBuilt q (status_filter statuses status_rows ilike digits day r)
  status_filter-IsBuilt q (failed e) given sort found = tt
  status_filter-IsBuilt q (done status) given sort found = (
    refl,
    by_status status given sort found
        (λ i. and_true (i.invoice_status_id == status.invoice_status_id)),
  )

  search_filter-IsBuilt :
      (q : InvoiceQuery)
      → q.search ≢ ""
      → IsBuilt q (search_filter statuses status_rows ilike digits day q.search q.sort)
  search_filter-IsBuilt q given = elim (Bool-cases (str_eq q.sort "Invoice ID")) [
    | inl e ↦ rw (e) (
      refl,
      by_id given (is_text q.sort "Invoice ID" e)
          (λ i. and_true (ilike q.search (digits i.invoice_id))),
    )
    | inr e ↦ elim (Bool-cases (str_eq q.sort "Customer name")) [
      | inl e' ↦
          rw (e, e')
            (
              refl,
              by_customer given (is_text q.sort "Customer name" e')
                  (λ i. and_true (ilike q.search i.receive_name)),
            )
      | inr e' ↦ elim (Bool-cases (str_eq q.sort "Invoice status")) [
        | inl e'' ↦
            rw (e, e', e'')
              (status_filter-IsBuilt q
                (statuses.one (λ s. ilike q.search s.status_name) status_rows) given
                (is_text q.sort "Invoice status" e'') refl)
        | inr e'' ↦
            let all : Filters q (meets []) =
              no_column given (no_text q.sort "Invoice ID" e) (no_text q.sort "Customer name" e')
                (no_text q.sort "Invoice status" e'') (λ i. refl) in
            rw (e, e', e'') (refl, all)
      ]
    ]
  ]

  dates_parsed :
      (q : InvoiceQuery) (from to : ℕ)
      → str_eq q.sort "Created at" ≡ true
      → dates parse_date q ≡ inr (from, to)
      → parse_date_range parse_date q.date_from q.date_to ≡ inr (from, to)
  dates_parsed q from to sort e = rw (sort) at e

  no_range_cases :
      (from to : ℕ)
      → (not (from == 0) && not (to == 0) && ltb from to) ≡ false
      → (from ≡ 0) ⊎ (to ≤ from)
  no_range_cases from to e = elim (ℕ_discrete from 0) [
    | yes none ↦ inl none
    | no some_day ↦ inr (ground arith)
  ]

  dates-IsBuilt :
      (q : InvoiceQuery) (from to : ℕ)
      → q.search ≡ ""
      → dates parse_date q ≡ inr (from, to)
      → IsBuilt q (
          if str_eq q.sort "Created at" && not (from == 0) && not (to == 0) && ltb from to
          then inr (both (λ i. leb from (day i.created_at) && leb (day i.created_at) to) ([], []))
          else inr ([], []))
  dates-IsBuilt q from to blank e = elim (Bool-cases (str_eq q.sort "Created at")) [
    | inr other ↦
        let all : Filters q (meets []) =
          no_dates blank (no_text q.sort "Created at" other) (λ i. refl) in
        rw (other) (refl, all)
    | inl sort ↦
        let at = is_text q.sort "Created at" sort in
        let parsed = dates_parsed q from to sort e in
        elim (Bool-cases (not (from == 0) && not (to == 0) && ltb from to)) [
          | inl range ↦
              rw (sort, range)
                (
                  refl,
                  by_date from to blank at parsed (ground arith) (ground arith)
                      (λ i. and_true (leb from (day i.created_at) && leb (day i.created_at) to)),
                )
          | inr range ↦
              let all : Filters q (meets []) =
                no_range from to blank at parsed (no_range_cases from to range) (λ i. refl) in
              rw (sort, range) (refl, all)
        ]
  ]

  pub build_invoice_filters-IsBuilt :
      (q : InvoiceQuery) (from to : ℕ)
      → dates parse_date q ≡ inr (from, to)
      → IsBuilt q
          (build_invoice_filters statuses status_rows ilike digits day q.search q.sort from to)
  unfolding build_invoice_filters
  build_invoice_filters-IsBuilt q from to e = elim (Bool-cases (str_eq q.search "")) [
    | inl blank ↦ rw (blank) (dates-IsBuilt q from to (is_text q.search "" blank) e)
    | inr given ↦ rw (given) (search_filter-IsBuilt q (no_text q.search "" given))
  ]
