-- ===== src/Review/Details.antt =====
-- GetReviewData and GetReviewDetail of GoodFood-BE/internal/server/handlers/review.go, GetAdminReviewDetail of
-- GoodFood-BE/internal/server/handlers/admin_reviews.go. The rows that qm.Load finds for a review are parameters, as is
-- the microservice that analyses a text.
use good_food_be.Base.{ℕ, ◌⊎◌, String, Option, none, some, List, [], ◌∷◌, ◌==◌, ◌||◌, ◌&&◌}
use good_food_be.Http.{ok, Action, ◌>>=◌, ◌>>◌, pure, error_if, or_message, read, write}
use good_food_be.Cache.{
  num, Key, Cache, Redis, Lookup, hit, unreadable, unavailable, get_cache, set_cache,
}
use good_food_be.Invoice.{Invoice, InvoiceDetail, DetailTable}
use good_food_be.Product.{Product}
use good_food_be.Order.Details.{InvoiceDetailStruct, DetailState, detail_struct}
use good_food_be.Review.{
  Review, ReviewImage, Reply, AnalyzeResult, ReviewTable, ImageTable, ReplyTable,
}
use good_food_be.Review.Listing.{or_text}
use good_food_be.Review.Fetch.{Goroutine, Queries, ReviewData, ask, fetch_review_data}

-- The response's last value; none is the empty struct.
abbrev pub last_of : {A : Type 0} → (InvoiceDetail → A) → Option A → List InvoiceDetail → Option A
last_of f response [] = response
last_of f response (d ∷ ds) = last_of f (some (f d)) ds

module _ (details : DetailTable) (reviews : ReviewTable) (product_of : InvoiceDetail → Product)
    (invoice_of : InvoiceDetail → Invoice) where
  -- Each round of the loop replaces the response; the productID is demanded, and not used.
  unfoldable pub get_review_data : ℕ → ℕ → Action DetailState ⊥ (Option InvoiceDetailStruct)
  get_review_data invoice_id product_id = do
    error_if (invoice_id == 0 || product_id == 0) 400 "Did not receive invoiceID or productID"
    s ← read
    rows ← or_message (details.all (λ d. d.invoice_id == invoice_id) s.details) 500
    pure (last_of (detail_struct details reviews product_of invoice_of s) none rows)

-- dto.ReviewResponse with all its relations; `A` is an account.
pub record FullReview (A : Type 0) : Type 0 where
  pub review : Review
  pub review_account : A
  pub review_product : Product
  pub review_images : List ReviewImage
  pub review_reply : List Reply
  pub review_invoice : Invoice

-- What GetReviewDetail answers.
pub record ReviewDetail (A : Type 0) : Type 0 where
  pub full : FullReview A
  pub detail : InvoiceDetail

module _ {A : Type 0} (details : DetailTable) (reviews : ReviewTable)
    (loaded : Review → FullReview A) where
  unfoldable pub get_review_detail : ℕ → Action DetailState ⊥ (ReviewDetail A)
  get_review_detail review_id = do
    error_if (review_id == 0) 400 "Did not receive reviewID!"
    s ← read
    review ← or_message (reviews.one (λ r. r.review_id == review_id) s.reviews) 500
    detail ←
        or_message
          (details.one (λ d. d.invoice_id == review.invoice_id && d.product_id == review.product_id)
            s.details)
          500
    pure (record { full = loaded review; detail = detail })

-- What GetAdminReviewDetail answers, as it is cached too.
pub record AnalyzedReview : Type 0 where
  pub fetched : ReviewData
  pub result : List AnalyzeResult

pub record AnalyzedState : Type 0 where
  pub reviews : List Review
  pub images : List ReviewImage
  pub replies : List Reply
  pub cache : Cache AnalyzedReview

abbrev pub analyzed_key : ℕ → Key
analyzed_key id = record { format = "review:reviewID=%d:"; args = num id ∷ [] }

module _ (reviews : ReviewTable) (images : ImageTable) (replies : ReplyTable)
    (redis : Redis AnalyzedReview) (analyze : List String → List ℕ → String ⊎ List AnalyzeResult)
    (schedule : List Goroutine) where
  -- The queries of the three goroutines.
  abbrev pub asked : ℕ → AnalyzedState → Queries
  asked id s = ask reviews images replies id s.reviews s.images s.replies

  abbrev pub analyze_fetched : ℕ → ReviewData → Action AnalyzedState ⊥ AnalyzedReview
  analyze_fetched id fetched = do
    result ← or_text (analyze (fetched.review.comment ∷ []) (fetched.review.review_id ∷ [])) 500
    s ← read
    let answer : AnalyzedReview = record { fetched = fetched; result = result }
    write (record s {
      cache = set_cache redis (analyzed_key id) answer (some (analyzed_key id)) s.cache;
    })
    pure answer

  abbrev pub fetch_analyzed : ℕ → Action AnalyzedState ⊥ AnalyzedReview
  fetch_analyzed id = do
    s ← read
    fetched ← or_text (fetch_review_data schedule (asked id s)) 500
    analyze_fetched id fetched

  abbrev pub cached_or_analyze : ℕ → Lookup AnalyzedReview → Action AnalyzedState ⊥ AnalyzedReview
  cached_or_analyze id (hit answer) s = (ok answer, s)
  cached_or_analyze id unreadable s = fetch_analyzed id s
  cached_or_analyze id unavailable s = fetch_analyzed id s

  unfoldable pub get_admin_review_detail : ℕ → Action AnalyzedState ⊥ AnalyzedReview
  get_admin_review_detail id = do
    error_if (id == 0) 400 "Did not receive reviewID"
    s ← read
    cached_or_analyze id (get_cache redis (analyzed_key id) (λ v. some v) s.cache)
