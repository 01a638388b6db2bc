-- ===== src/Review/Unanswered.antt =====
-- GetAdminReview on a cache that holds no list of reviews.
use good_food_be.Base.{
  ℕ, ◌≡◌, ◌≢◌, refl, sym, subst, ◌⊎◌, inl, inr, String, Bool, false, Option, some, List, [], ◌∷◌,
  All, Bool-cases, arith,
}
use good_food_be.Base.Int.{ℤ}
use good_food_be.Store.{Result}
use good_food_be.Cache.{Key, Redis}
use good_food_be.Cache.Read.{NoString, get_cache-NoString}
use good_food_be.Http.{Response, ok, error, error_struct, panic}
use good_food_be.Paging.{Float64, is_zero}
use good_food_be.Review.{Review, ReviewCards, AnalyzeResult, ReviewTable}
use good_food_be.Review.Listing.{
  ReviewPage, State, ListQuery, parse_date_range, list_format, list_key, get_admin_review,
}

-- An error, and nothing has changed.
abbrev pub Refused : {S A : Type 0} → S → Response ⊥ A × S → Type 0
Refused s (ok a, t) = ⊥
Refused s (error code text, t) = (code ≢ 200) × (t ≡ s)
Refused s (error_struct code e, t) = ⊥
Refused s (panic, t) = ⊥

-- No list of reviews is cached.
abbrev pub NoList : {A P : Type 0} → State A P → Type 0
NoList s = (key : Key) → key.format ≡ list_format → NoString (s.cache key)

module _ {F A P : Type 0} (float : Float64 F) (reviews : ReviewTable)
    (redis : Redis (ReviewPage A P)) (parse_date : String → Option ℕ)
    (find_products : String → Result (List ℕ)) (atoi : String → String ⊎ ℤ)
    (ilike : String → String → Bool) (day : ℕ → ℕ)
    (analyze : List String → List ℕ → String ⊎ List AnalyzeResult)
    (fetch_cards : List Review → Result ReviewCards) (loaded : Review → A × P)
    (cache_error : String) where
  handle : ListQuery → State A P → Response ⊥ (ReviewPage A P) × State A P
  handle =
      get_admin_review float reviews redis parse_date find_products atoi ilike day analyze
        fetch_cards loaded cache_error

  -- The requests, one after the other: their responses.
  unfoldable pub serve : List ListQuery → State A P → List (Response ⊥ (ReviewPage A P) × State A P)
  unfolding handle
  serve [] s = []
  serve (q ∷ qs) s = let answered = handle q s in answered ∷ serve qs answered.1

  from_cache :
      (q : ListQuery) (s : State A P)
      → NoList s
      → (dates : String ⊎ (ℕ × ℕ)) → parse_date_range parse_date q.date_from q.date_to ≡ dates
      → is_zero q.page ≡ false
      → Refused s (handle q s)
  unfolding handle get_admin_review
  from_cache q s h (inl wrong) e page = rw (page, e) ((λ x. ground arith), refl)
  from_cache q s h (inr (from, to)) e page =
      rw
        (
          page,
          e,
          get_cache-NoString redis (list_key q from to) (λ v. some v) s.cache
              (h (list_key q from to) refl),
        )
        ((λ x. ground arith), refl)

  handle-Refused : (q : ListQuery) (s : State A P) → NoList s → Refused s (handle q s)
  unfolding handle get_admin_review
  handle-Refused q s h = elim (Bool-cases (is_zero q.page)) [
    | inl missing ↦ rw (missing) ((λ x. ground arith), refl)
    | inr page ↦ from_cache q s h (parse_date_range parse_date q.date_from q.date_to) refl page
  ]

  same_state : {s : State A P} (r : Response ⊥ (ReviewPage A P) × State A P) → Refused s r → r.1 ≡ s
  same_state (ok a, t) h = elim h [ ]
  same_state (error code text, t) h = h.1
  same_state (error_struct code e, t) h = elim h [ ]
  same_state (panic, t) h = elim h [ ]

  -- While no list of reviews is in the cache, GetAdminReview refuses every request with an error and puts
  -- none there: GetCache reports a missing key as an error, and the handler ends there. So however many
  -- requests come, and whatever the tables hold, none of them is answered with 200.
  pub serve-Refused :
      (qs : List ListQuery) (s : State A P) → NoList s → All (Refused s) (serve qs s)
  unfolding serve
  serve-Refused [] s h = tt
  serve-Refused (q ∷ qs) s h =
      let refused : Refused s (handle q s) = handle-Refused q s h in
      (
        refused,
        subst (λ t. All (Refused s) (serve qs t)) (sym (same_state (handle q s) refused))
            (serve-Refused qs s h),
      )
