-- ===== src/Review/Analysis.antt =====
-- GetAdminReviewAnalysis of GoodFood-BE/internal/server/handlers/admin_reviews.go.
use good_food_be.Base.{
  ℕ, ◌-◌, ◌⊎◌, inl, inr, String, true, ◌&&◌, Option, none, some, List, [], ◌∷◌, map, length, take,
  drop, str_eq, if◌then◌else◌,
}
use good_food_be.Base.Int.{ℤ, pos, ◌+ℤ◌, ◌-ℤ◌, ◌*ℤ◌, wrap64, ltb_ℤ, leb_ℤ, pos_part}
use good_food_be.Cache.{
  int, text, Key, Cache, Redis, Lookup, hit, unreadable, unavailable, get_cache, set_cache,
}
use good_food_be.Http.{
  ok, error, panic, Action, ◌>>=◌, ◌>>◌, pure, error_if, or_message, read, write,
}
use good_food_be.Paging.{Float64, page_count, is_zero}
use good_food_be.Review.{Review, AnalyzeResult, ReviewTable}
use good_food_be.Review.Sentiment.{append_sorting_result}

-- The answer, as it is cached too.
pub record AnalysisPage : Type 0 where
  pub result : List AnalyzeResult
  pub page : ℤ
  pub total_page : ℤ

pub record State : Type 0 where
  pub reviews : List Review
  pub cache : Cache AnalysisPage

-- `xs[low:high]`, where `high` is at most the length; `none` is the panic.
abbrev pub go_slice {ℓ} : {A : Type ℓ} → List A → ℤ → ℤ → Option (List A)
go_slice xs low high =
    if leb_ℤ (pos 0) low && leb_ℤ low high
    then some (take (pos_part high - pos_part low) (drop (pos_part low) xs))
    else none

unfoldable pub page_slice {ℓ} : {A : Type ℓ} → ℤ → List A → Option (List A)
page_slice page xs =
    let total : ℤ = pos (length xs) in
    let start_index : ℤ = wrap64 (wrap64 (page -ℤ pos 1) *ℤ pos 6) in
    let end_index : ℤ = wrap64 (start_index +ℤ pos 6) in
    go_slice xs start_index (if ltb_ℤ total end_index then total else end_index)

abbrev pub analysis_key : ℤ → String → Key
analysis_key page sort = record {
  format = "reviewAnalysis:list:page=%d:sort=%s";
  args = int page ∷ text sort ∷ [];
}

-- The sentiments that the handler passes on to AppendSortingResult; otherwise it keeps nothing.
unfoldable pub sorted_by : String → List AnalyzeResult → List AnalyzeResult
sorted_by sort results =
    if str_eq sort "Positive Sentiment"
    then append_sorting_result results sort
    else if str_eq sort "Negative Sentiment"
    then append_sorting_result results sort
    else if str_eq sort "Neutral Sentiment"
    then append_sorting_result results sort
    else if str_eq sort "Mixed Sentiment"
    then append_sorting_result results sort
    else []

-- An error of the microservice, with its text, is answered with 500.
abbrev pub analyzed : {S E A : Type 0} → String ⊎ A → Action S E A
analyzed (inl wrong) s = (error 500 wrong, s)
analyzed (inr results) s = (ok results, s)

-- A slice out of range panics.
abbrev pub sliced : {S E A : Type 0} → Option A → Action S E A
sliced none s = (panic, s)
sliced (some a) s = (ok a, s)

-- `analyze` is AnalyzeReviews: the comments and the IDs.
module _ {F : Type 0} (float : Float64 F) (reviews : ReviewTable) (redis : Redis AnalysisPage)
    (analyze : List String → List ℕ → String ⊎ List AnalyzeResult) where
  abbrev pub fetch_analysis : ℤ → String → Action State ⊥ AnalysisPage
  fetch_analysis page sort = do
    s ← read
    rows ← or_message (reviews.all (λ r. true) s.reviews) 500
    results ← analyzed (analyze (map (λ r. r.comment) rows) (map (λ r. r.review_id) rows))
    let kept = sorted_by sort results
    let total_page = page_count float (pos (length kept)) (pos 6)
    paged ← sliced (page_slice page kept)
    let answer : AnalysisPage = record { result = paged; page = page; total_page = total_page }
    write (record s {
      cache =
          set_cache redis (analysis_key page sort) answer (some (analysis_key page sort)) s.cache;
    })
    pure answer

  abbrev pub cached_or_analyze : ℤ → String → Lookup AnalysisPage → Action State ⊥ AnalysisPage
  cached_or_analyze page sort (hit answer) s = (ok answer, s)
  cached_or_analyze page sort unreadable s = fetch_analysis page sort s
  cached_or_analyze page sort unavailable s = fetch_analysis page sort s

  unfoldable pub get_admin_review_analysis : ℤ → String → Action State ⊥ AnalysisPage
  get_admin_review_analysis page sort = do
    error_if (is_zero page) 401 "Did not receive page"
    s ← read
    cached_or_analyze page sort (get_cache redis (analysis_key page sort) (λ v. some v) s.cache)
