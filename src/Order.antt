-- ===== src/Order.antt =====
-- The order history: GoodFood-BE/internal/server/handlers/orderhistory.go, on the table `invoice` and the
-- cache. The two raw SELECTs, joins over three tables, are run by the database and are parameters.
pub mod Cancel
pub mod Stale
pub mod Details
mod Tests
use good_food_be.Base.{
  ℕ, ◌⊎◌, inl, inr, String, Bool, true, false, Option, none, some, List, [], ◌∷◌, ◌==◌,
  if◌then◌else◌,
}
use good_food_be.Base.Int.{ℤ, pos, ◌-ℤ◌, ◌*ℤ◌, wrap64}
use good_food_be.Store.{message, Result, done, failed}
use good_food_be.Cache.{
  Arg, num, int, text, Key, Cache, Redis, Lookup, hit, unreadable, unavailable, get_cache,
  set_cache, clear_cache,
}
use good_food_be.Http.{
  Response, ok, error, Action, ◌>>=◌, ◌>>◌, pure, error_if, or_message, read, write,
}
use good_food_be.Paging.{Float64, paginate, is_zero}
use good_food_be.Invoice.{Invoice, InvoiceTable, invoice_key}
use good_food_be.Invoice.Status.{status_order_placed, status_cancelled}

-- dto.InvoiceList; the float64 amount is only copied, and stands as its bit pattern.
pub record InvoiceList : Type 0 where
  pub invoice_id : ℕ
  pub total_products : ℕ
  pub address : String
  pub status : Bool
  pub total_money : ℕ
  pub cancel_reason : String

-- The answer of GetOrderHistory, as it is cached too.
pub record Page : Type 0 where
  pub rows : List InvoiceList
  pub total_page : ℤ

pub record State : Type 0 where
  pub invoices : List Invoice
  pub cache : Cache Page

-- fmt.Sprintf("orderhistory:accountID=%d:tab=%s:page=%d", accountID, tab, page)
abbrev pub page_key : ℕ → String → ℤ → Key
page_key account_id tab page = record {
  format = "orderhistory:accountID=%d:tab=%s:page=%d";
  args = num account_id ∷ text tab ∷ int page ∷ [];
}

-- fmt.Sprintf("orderhistory:accountID=%d:tab:%s", accountID, tab)
abbrev pub pages_key : ℕ → String → Key
pages_key account_id tab = record {
  format = "orderhistory:accountID=%d:tab:%s";
  args = num account_id ∷ text tab ∷ [];
}

-- fmt.Sprintf("orderhistory:accountID=%d:tab=%s", toUpdate.AccountID, …)
abbrev pub tab_key : ℕ → String → Key
tab_key account_id tab = record {
  format = "orderhistory:accountID=%d:tab=%s";
  args = num account_id ∷ text tab ∷ [];
}

-- `page_size` is utils.PageSize. `page_query tab account_id offset` and `count_query tab account_id` are
-- the SELECTs of GetOrderHistory on what the database holds.
module _ {F : Type 0} (float : Float64 F) (invoices : InvoiceTable) (redis : Redis Page)
    (page_query : String → ℕ → ℤ → List Invoice → Result (List InvoiceList))
    (count_query : String → ℕ → List Invoice → Result ℕ) where
  abbrev pub page_size : ℤ
  page_size = pos 6

  unfoldable pub fetch_page : String → ℕ → ℤ → State → Result Page
  fetch_page tab account_id page s =
      elim (page_query tab account_id (wrap64 ((page -ℤ pos 1) *ℤ page_size)) s.invoices) [
        | failed e ↦ failed e
        | done rows ↦ elim (count_query tab account_id s.invoices) [
          | failed e ↦ failed e
          | done total ↦
              done
                (record { rows = rows; total_page = (paginate float page page_size (pos total)).1 })
        ]
      ]

  abbrev pub stored : String → ℕ → ℤ → Result Page → Action State ⊥ Page
  stored tab account_id page (failed e) s = (error 500 (message e), s)
  stored tab account_id page (done answer) s = (
    ok answer,
    record s {
      cache =
          set_cache redis (page_key account_id tab page) answer (some (pages_key account_id tab))
            s.cache;
    },
  )

  abbrev pub cached_or_fetch : String → ℕ → ℤ → Lookup Page → Action State ⊥ Page
  cached_or_fetch tab account_id page (hit answer) s = (ok answer, s)
  cached_or_fetch tab account_id page unreadable s =
      stored tab account_id page (fetch_page tab account_id page s) s
  cached_or_fetch tab account_id page unavailable s =
      stored tab account_id page (fetch_page tab account_id page s) s

  unfoldable pub get_order_history : String → ℕ → ℤ → Action State ⊥ Page
  get_order_history tab account_id page = do
    error_if (account_id == 0) 400 "Did not receive accountID!"
    error_if (is_zero page) 400 "Did not receive pageNum"
    s ← read
    cached_or_fetch tab account_id page
        (get_cache redis (page_key account_id tab page) (λ v. some v) s.cache)

  abbrev pub cancelled : String → Invoice → Invoice
  cancelled reason invoice = record invoice { invoice_status_id = 6; cancel_reason = some reason }

  -- utils.ClearCache(tab1, tab2)
  abbrev pub clear_tabs : ℕ → Cache Page → Cache Page
  clear_tabs account_id c =
      clear_cache (some redis)
        (tab_key account_id status_order_placed ∷ tab_key account_id status_cancelled ∷ []) c

  abbrev pub save_cancelled : Invoice → Action State ⊥ Invoice
  save_cancelled to_update = do
    s ← read
    t ← or_message (invoices.update to_update s.invoices) 500
    write (record { invoices = t; cache = clear_tabs to_update.account_id s.cache })
    pure to_update

  -- FindInvoice is a search by primary key. `body` is the parsed dto.InvoiceList, or the text of
  -- BodyParser's error.
  unfoldable pub cancel_order : ℕ → String ⊎ InvoiceList → Action State ⊥ Invoice
  cancel_order invoice_id (inl bad) = do
    error_if (invoice_id == 0) 400 "Did not receive invoiceID!"
    λ s. (error 400 bad, s)
  cancel_order invoice_id (inr body) = do
    error_if (invoice_id == 0) 400 "Did not receive invoiceID!"
    s ← read
    to_update ← or_message (invoices.one (λ i. i.invoice_id == invoice_id) s.invoices) 500
    save_cancelled (cancelled body.cancel_reason to_update)
