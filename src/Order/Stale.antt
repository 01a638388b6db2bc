-- ===== src/Order/Stale.antt =====
-- What the cache still answers after CancelOrder.
use good_food_be.Base.{
  ℕ, ◌≡◌, ◌≢◌, inl, inr, refl, ap, ◌∙◌, String, false, none, some, List, [], ◌∷◌, ◌==◌, Bool-cases,
  ==_ne, if◌then◌else◌,
}
use good_food_be.Base.Int.{ℤ}
use good_food_be.Store.{Result, Result-cases}
use good_food_be.Cache.{Key, same_key, listed, str, Cache, Redis, hit, get_cache}
use good_food_be.Cache.Clear.{Deletes, clear_cache_exact}
use good_food_be.Http.{Response, ok, error, error_struct, panic}
use good_food_be.Paging.{Float64, is_zero}
use good_food_be.Invoice.{Invoice, InvoiceTable}
use good_food_be.Invoice.Status.{status_order_placed, status_cancelled}
use good_food_be.Order.{
  InvoiceList, Page, State, page_key, tab_key, cancelled, clear_tabs, cancel_order,
  get_order_history,
}

-- The entry is as it was, however the request ends.
abbrev Keeps : Key → State → Response ⊥ Invoice × State → Type 0
Keeps k s (ok row, s') = s'.cache k ≡ s.cache k
Keeps k s (error code text, s') = s'.cache k ≡ s.cache k
Keeps k s (error_struct code e, s') = s'.cache k ≡ s.cache k
Keeps k s (panic, s') = s'.cache k ≡ s.cache k

Keeps-entry :
    (k : Key) (s : State) (r : Response ⊥ Invoice × State) → Keeps k s r → r.1.cache k ≡ s.cache k
Keeps-entry k s (ok row, s') h = h
Keeps-entry k s (error code text, s') h = h
Keeps-entry k s (error_struct code e, s') h = h
Keeps-entry k s (panic, s') h = h

-- The server answers every GET of a string.
abbrev pub Answers : Redis Page → Type 0
Answers redis = (k : Key) (c : Cache Page) (v : Page) → c k ≡ some (str v) → redis.get k c ≡ some v

module _ {F : Type 0} (float : Float64 F) (invoices : InvoiceTable) (redis : Redis Page)
    (page_query : String → ℕ → ℤ → List Invoice → Result (List InvoiceList))
    (count_query : String → ℕ → List Invoice → Result ℕ) (up : Deletes redis)
    (answers : Answers redis) where
  kept :
      (a b : ℕ) (t u : String) (tab : String) (page : ℤ)
      → listed (page_key a tab page) (tab_key b t ∷ tab_key b u ∷ []) ≡ false
  unfolding same_key
  kept a b t u tab page = refl

  module _ (account_id : ℕ) (tab : String) (page : ℤ) where
    tabs_kept :
        (b : ℕ) (c : Cache Page)
        → clear_tabs float invoices redis page_query count_query b c (page_key account_id tab page)
          ≡ c (page_key account_id tab page)
    tabs_kept b c =
        clear_cache_exact redis up (tab_key b status_order_placed ∷ tab_key b status_cancelled ∷ [])
          c (page_key account_id tab page)
        ∙ ap (λ x. if x then none else c (page_key account_id tab page))
            (kept account_id b status_order_placed status_cancelled tab page)

    abbrev cancel : ℕ → InvoiceList → State → State
    cancel id body s = (cancel_order float invoices redis page_query count_query id (inr body) s).1

    cancel-Keeps :
        (id : ℕ) (body : InvoiceList) (s : State)
        → Keeps
            (page_key account_id tab page)
            s
            (cancel_order float invoices redis page_query count_query id (inr body) s)
    unfolding cancel_order
    cancel-Keeps id body s = elim (Bool-cases (id == 0)) [
      | inl zero_id ↦ rw zero_id refl
      | inr given ↦ elim (Result-cases (invoices.one (λ i. i.invoice_id == id) s.invoices)) [
        | inr (e, wrong) ↦ rw (given, wrong) refl
        | inl (old, found) ↦
            elim (Result-cases (
              invoices.update
                (cancelled float invoices redis page_query count_query body.cancel_reason old)
                s.invoices)) [
                  | inr (e, wrong) ↦ rw (given, found, wrong) refl
                  | inl (t, wrote) ↦ rw (given, found, wrote) (tabs_kept old.account_id s.cache)
                ]
      ]
    ]

    cancel_kept :
        (id : ℕ) (body : InvoiceList) (s : State)
        → (cancel id body s).cache (page_key account_id tab page)
          ≡ s.cache (page_key account_id tab page)
    cancel_kept id body s =
        Keeps-entry (page_key account_id tab page) s
          (cancel_order float invoices redis page_query count_query id (inr body) s)
          (cancel-Keeps id body s)

    -- A page of the order history that is cached is answered as it was after any CancelOrder, also one of
    -- the same account: the keys that CancelOrder clears are neither the page's nor the set's in which
    -- GetOrderHistory has registered it.
    cancel_order-get_order_history :
        (id : ℕ) (body : InvoiceList) (s : State) (answer : Page)
        → account_id ≢ 0
        → is_zero page ≡ false
        → s.cache (page_key account_id tab page) ≡ some (str answer)
        → get_order_history float invoices redis page_query count_query tab account_id page
            (cancel id body s)
          ≡ (ok answer, cancel id body s)
    unfolding get_order_history get_cache
    cancel_order-get_order_history id body s answer given paged cached =
        let found =
          answers (page_key account_id tab page) (cancel id body s).cache answer
            (cancel_kept id body s ∙ cached) in
        let looked : get_cache redis (page_key account_id tab page) (λ v. some v)
              (cancel id body s).cache
            ≡ hit answer =
          rw (get_cache, found) refl in
        rw (==_ne account_id 0 given, paged, looked) refl
