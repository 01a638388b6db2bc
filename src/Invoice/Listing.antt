-- ===== src/Invoice/Listing.antt =====
-- GetAdminInvoice of GoodFood-BE/internal/server/handlers/admin_invoices.go with BuildInvoiceFilters and MapInvoices
-- of GoodFood-BE/internal/utils/admin_invoices_helper.go. ILIKE, the text of a number, the day of a time and the
-- SELECT of the counts are parameters. Nothing is written, so a request is answered from the two tables.
use good_food_be.Base.{
  ℕ, ◌⊎◌, inl, inr, String, Bool, true, not, ◌&&◌, Option, List, [], ◌∷◌, ◌++◌, map, ◌==◌, leb, ltb,
  str_eq, if◌then◌else◌,
}
use good_food_be.Base.Int.{ℤ, pos}
use good_food_be.Store.{message, Result, done, failed}
use good_food_be.Http.{Action, ◌>>=◌, ◌>>◌, pure, error_if, or_message, read}
use good_food_be.Paging.{Float64, paginate, is_zero}
use good_food_be.Invoice.{Invoice, InvoiceStatus, InvoiceTable, StatusTable}
use good_food_be.Review.Listing.{parse_date_range, or_text}

-- dto.InvoiceCards
pub record InvoiceCards : Type 0 where
  pub total_invoice : ℕ
  pub total_canceled : ℕ

-- dto.InvoiceResponse, as far as MapInvoices fills it.
pub record InvoiceResponse : Type 0 where
  pub invoice : Invoice
  pub invoice_status : Option InvoiceStatus

pub record InvoicePage : Type 0 where
  pub rows : List InvoiceResponse
  pub cards : InvoiceCards
  pub total_page : ℤ

-- The query parameters.
pub record InvoiceQuery : Type 0 where
  pub page : ℤ
  pub sort : String
  pub search : String
  pub date_from : String
  pub date_to : String

abbrev pub Condition : Type 0
Condition = Invoice → Bool

-- WHERE: an invoice meets all the conditions.
abbrev pub meets : List Condition → Condition
meets [] i = true
meets (p ∷ ps) i = p i && meets ps i

-- The conditions of the query and those of the count, with one more in each.
abbrev pub both : Condition → List Condition × List Condition → List Condition × List Condition
both p (query, total) = (query ++ (p ∷ []), total ++ (p ∷ []))

-- `ilike search text` is `text ILIKE %search%`, and `digits` is CAST(… AS TEXT).
module _ (statuses : StatusTable) (status_rows : List InvoiceStatus)
    (ilike : String → String → Bool) (digits : ℕ → String) (day : ℕ → ℕ) where
  abbrev pub status_filter : Result InvoiceStatus → String ⊎ (List Condition × List Condition)
  status_filter (failed e) = inl (message e)
  status_filter (done status) =
      inr (both (λ i. i.invoice_status_id == status.invoice_status_id) ([], []))

  abbrev pub search_filter : String → String → String ⊎ (List Condition × List Condition)
  search_filter search sort =
      if str_eq sort "Invoice ID"
      then inr (both (λ i. ilike search (digits i.invoice_id)) ([], []))
      else if str_eq sort "Customer name"
      then inr (both (λ i. ilike search i.receive_name) ([], []))
      else if str_eq sort "Invoice status"
      then status_filter (statuses.one (λ s. ilike search s.status_name) status_rows)
      else inr ([], [])

  unfoldable pub build_invoice_filters :
      String → String → ℕ → ℕ → String ⊎ (List Condition × List Condition)
  build_invoice_filters search sort from to =
      if not (str_eq search "")
      then search_filter search sort
      else if str_eq sort "Created at" && not (from == 0) && not (to == 0) && ltb from to
      then inr (both (λ i. leb from (day i.created_at) && leb (day i.created_at) to) ([], []))
      else inr ([], [])

-- The zero times, unless the list is sorted by the date.
abbrev pub dates : (String → Option ℕ) → InvoiceQuery → String ⊎ (ℕ × ℕ)
dates parse_date q =
    if str_eq q.sort "Created at"
    then parse_date_range parse_date q.date_from q.date_to
    else inr (0, 0)

abbrev pub map_invoices : (Invoice → Option InvoiceStatus) → List Invoice → List InvoiceResponse
map_invoices status_of rows = map (λ i. record { invoice = i; invoice_status = status_of i }) rows

module _ {F : Type 0} (float : Float64 F) (invoices : InvoiceTable) (statuses : StatusTable)
    (status_rows : List InvoiceStatus) (ilike : String → String → Bool) (digits : ℕ → String)
    (day : ℕ → ℕ) (parse_date : String → Option ℕ)
    (fetch_cards : List Invoice → Result InvoiceCards)
    (status_of : Invoice → Option InvoiceStatus) where
  -- From the two lists of conditions on.
  abbrev pub list_invoices :
      InvoiceQuery
      → InvoiceCards
      → List Condition × List Condition
      → Action (List Invoice) ⊥ InvoicePage
  list_invoices q cards (query, total) = do
    t ← read
    total_invoice ← or_message (invoices.count (meets total) t) 500
    let (offset, total_page) = paginate float q.page (pos 6) (pos total_invoice)
    rows ← or_message (invoices.select (meets query) 6 offset t) 500
    pure (record { rows = map_invoices status_of rows; cards = cards; total_page = total_page })

  unfoldable pub get_admin_invoice : InvoiceQuery → Action (List Invoice) ⊥ InvoicePage
  get_admin_invoice q = do
    t ← read
    cards ← or_message (fetch_cards t) 500
    error_if (is_zero q.page) 400 "Did not receive page"
    (from, to) ← or_text (dates parse_date q) 400
    mods ←
        or_text
          (build_invoice_filters statuses status_rows ilike digits day q.search q.sort from to) 500
    list_invoices q cards mods
