-- ===== src/Review/Listing.antt =====
-- GetAdminReview of GoodFood-BE/internal/server/handlers/admin_reviews.go with BuildReviewFilters of
-- GoodFood-BE/internal/utils/admin_reviews_helper.go and ParseDateRange of admin_invoices_helper.go. A date is the
-- number of days since 0001-01-01, Go's zero time. ILIKE, the parsing of dates and numbers, the texts of
-- their errors, and the rows that a review refers to are parameters.
use good_food_be.Base.{
  ℕ, ◌⊎◌, inl, inr, String, Bool, true, false, not, ◌&&◌, ◌||◌, Option, none, some, List, [], ◌∷◌,
  map, str_eq, if◌then◌else◌, ◌==◌, leb, ltb,
}
use good_food_be.Base.Int.{ℤ, pos, ◌-ℤ◌, ◌*ℤ◌, wrap64, eq_ℤ}
use good_food_be.Store.{message, Result, done, failed}
use good_food_be.Cache.{
  num, int, text, Key, Cache, Redis, Lookup, hit, unreadable, unavailable, get_cache, set_cache,
}
use good_food_be.Http.{ok, error, Action, ◌>>=◌, ◌>>◌, pure, error_if, or_message, read, write}
use good_food_be.Paging.{Float64, page_count, is_zero}
use good_food_be.Review.{Review, ReviewCards, AnalyzeResult, ReviewTable}
use good_food_be.Review.Analysis.{analyzed}

-- dto.ReviewResponse, as far as the list fills it.
pub record ReviewResponse (A P : Type 0) : Type 0 where
  pub review : Review
  pub review_account : A
  pub review_product : P

-- The answer, as it is cached too.
pub record ReviewPage (A P : Type 0) : Type 0 where
  pub data_rows : List (ReviewResponse A P)
  pub result : List AnalyzeResult
  pub cards : ReviewCards
  pub total_page : ℤ

pub record State (A P : Type 0) : Type 0 where
  pub reviews : List Review
  pub cache : Cache (ReviewPage A P)

-- The query parameters.
pub record ListQuery : Type 0 where
  pub page : ℤ
  pub sort : String
  pub search : String
  pub date_from : String
  pub date_to : String

-- The two dates, or the error's text.
abbrev pub wrong_format : String
wrong_format = "Invalid format for dateFrom/dateTo (expect yyyy-mm-dd)"

abbrev pub ordered : Option ℕ → Option ℕ → String ⊎ (ℕ × ℕ)
ordered none to = inl wrong_format
ordered (some from) none = inl wrong_format
ordered (some from) (some to) =
    if ltb to from then inl "Date to can't be before date from" else inr (from, to)

unfoldable pub parse_date_range : (String → Option ℕ) → String → String → String ⊎ (ℕ × ℕ)
parse_date_range parse_date from to =
    if str_eq from "" || str_eq to ""
    then inl "Date from or date to is empty!"
    else ordered (parse_date from) (parse_date to)

-- WHERE: a review meets all the conditions.
abbrev pub meets : List (Review → Bool) → Review → Bool
meets [] r = true
meets (p ∷ ps) r = p r && meets ps r

abbrev pub one_of : List ℕ → ℕ → Bool
one_of [] k = false
one_of (j ∷ js) k = j == k || one_of js k

-- `find_products search` are the IDs of the products whose names match, `atoi` reads a number or gives its
-- error's text, `ilike search` is the match with "%search%", and `day` the day of a time.
module _ (find_products : String → Result (List ℕ)) (atoi : String → String ⊎ ℤ)
    (ilike : String → String → Bool) (day : ℕ → ℕ) where
  abbrev pub product_filter : Result (List ℕ) → String ⊎ List (Review → Bool)
  product_filter (failed e) = inl (message e)
  product_filter (done []) = inr []
  product_filter (done (id ∷ ids)) = inr ((λ r. one_of (id ∷ ids) r.product_id) ∷ [])

  abbrev pub stars_filter : String ⊎ ℤ → String ⊎ List (Review → Bool)
  stars_filter (inl wrong) = inl wrong
  stars_filter (inr stars) = inr ((λ r. eq_ℤ (pos r.stars) stars) ∷ [])

  abbrev pub date_filter : String → ℕ → ℕ → List (Review → Bool)
  date_filter search from to =
      if str_eq search "" && not (from == 0) && not (to == 0) && ltb from to
      then (λ r. leb from (day r.review_date) && leb (day r.review_date) to) ∷ []
      else []

  unfoldable pub build_review_filters : String → String → ℕ → ℕ → String ⊎ List (Review → Bool)
  build_review_filters sort search from to =
      if str_eq sort "Product Name"
      then product_filter (find_products search)
      else if str_eq sort "Stars"
      then stars_filter (atoi search)
      else if str_eq sort "Comment"
      then inr ((λ r. ilike search r.comment) ∷ [])
      else if str_eq sort "Review Date"
      then inr (date_filter search from to)
      else inr []

-- An error's text, answered with the code.
abbrev pub or_text : {S E A : Type 0} → String ⊎ A → ℕ → Action S E A
or_text (inl wrong) code s = (error code wrong, s)
or_text (inr a) code s = (ok a, s)

abbrev pub list_format : String
list_format = "review:list:page=%d:sort=%s:search=%s:ngayFrom=%s:ngayTo=%s"

abbrev pub list_key : ListQuery → ℕ → ℕ → Key
list_key q from to = record {
  format = list_format;
  args = int q.page ∷ text q.sort ∷ text q.search ∷ num from ∷ num to ∷ [];
}

-- `loaded` are the rows that a review refers to, `fetch_cards` the SELECT of the counts, and `cache_error`
-- the text of GetCache's error.
module _ {F A P : Type 0} (float : Float64 F) (reviews : ReviewTable)
    (redis : Redis (ReviewPage A P)) (parse_date : String → Option ℕ)
    (find_products : String → Result (List ℕ)) (atoi : String → String ⊎ ℤ)
    (ilike : String → String → Bool) (day : ℕ → ℕ)
    (analyze : List String → List ℕ → String ⊎ List AnalyzeResult)
    (fetch_cards : List Review → Result ReviewCards) (loaded : Review → A × P)
    (cache_error : String) where
  abbrev pub shown : Review → ReviewResponse A P
  shown r = record { review = r; review_account = (loaded r).0; review_product = (loaded r).1 }

  abbrev pub list_reviews : ListQuery → ℕ → ℕ → Action (State A P) ⊥ (ReviewPage A P)
  list_reviews q from to = do
    s ← read
    cards ← or_message (fetch_cards s.reviews) 500
    mods ← or_text (build_review_filters find_products atoi ilike day q.sort q.search from to) 400
    total ← or_message (reviews.count (meets mods) s.reviews) 500
    rows ←
        or_message
          (reviews.select (meets mods) 6 (wrap64 (wrap64 (q.page -ℤ pos 1) *ℤ pos 6)) s.reviews) 500
    results ← analyzed (analyze (map (λ r. r.comment) rows) (map (λ r. r.review_id) rows))
    let answer : ReviewPage A P = record {
      data_rows = map shown rows;
      result = results;
      cards = cards;
      total_page = page_count float (pos total) (pos 6);
    }
    write (record s {
      cache = set_cache redis (list_key q from to) answer (some (list_key q from to)) s.cache;
    })
    pure answer

  abbrev pub cached_or_list :
      ListQuery → ℕ → ℕ → Lookup (ReviewPage A P) → Action (State A P) ⊥ (ReviewPage A P)
  cached_or_list q from to (hit answer) s = (ok answer, s)
  cached_or_list q from to unavailable s = (error 500 cache_error, s)
  cached_or_list q from to unreadable s = list_reviews q from to s

  unfoldable pub get_admin_review : ListQuery → Action (State A P) ⊥ (ReviewPage A P)
  get_admin_review q = do
    error_if (is_zero q.page) 400 "Did not receive page"
    (from, to) ← or_text (parse_date_range parse_date q.date_from q.date_to) 400
    s ← read
    cached_or_list q from to (get_cache redis (list_key q from to) (λ v. some v) s.cache)
