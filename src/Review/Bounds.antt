-- ===== src/Review/Bounds.antt =====
-- The slice of GetAdminReviewAnalysis.
use good_food_be.Base.{
  ℕ, ◌≡◌, refl, ap, zero, suc, ◌+◌, ◌-◌, ◌*◌, ◌^◌, ◌<◌, ◌≤◌, inl, inr, ◌⊎◌, String, true, false,
  Option, none, some, List, [], ◌∷◌, map, length, take, drop, leb, ltb, if◌then◌else◌, Bool-cases,
  arith,
}
use good_food_be.Base.Int.{ℤ, pos, negsuc, ◌+ℤ◌, ◌-ℤ◌, ◌*ℤ◌, wrap64, ltb_ℤ}
use good_food_be.Store.{done}
use good_food_be.Cache.{Redis}
use good_food_be.Cache.Read.{get_cache_missing}
use good_food_be.Http.{Response, ok, panic}
use good_food_be.Paging.{Float64, page_count, is_zero}
use good_food_be.Review.{Review, AnalyzeResult, ReviewTable}
use good_food_be.Review.Analysis.{
  AnalysisPage, State, go_slice, page_slice, analysis_key, sorted_by, fetch_analysis,
  get_admin_review_analysis,
}

-- Pages and lists of this size do not overflow.
abbrev pub large : ℕ
large = 2 ^ 60

length-drop : {A : Type 0} (n : ℕ) (xs : List A) → length (drop n xs) ≡ length xs - n
length-drop zero xs = ground arith
length-drop (suc n) [] = ground arith
length-drop (suc n) (x ∷ xs) = ground (arith, length-drop n xs)

take_all :
    {A : Type 0} (n m : ℕ) (xs : List A) → length xs ≤ n → length xs ≤ m → take n xs ≡ take m xs
take_all zero zero xs h k = refl
take_all zero (suc m) [] h k = refl
take_all zero (suc m) (x ∷ xs) h k = ground arith
take_all (suc n) zero [] h k = refl
take_all (suc n) zero (x ∷ xs) h k = ground arith
take_all (suc n) (suc m) [] h k = refl
take_all (suc n) (suc m) (x ∷ xs) h k =
    ap (λ ys. x ∷ ys) (take_all n m xs (ground (arith, h)) (ground (arith, k)))

start_of : (n : ℕ) → n < large → wrap64 (wrap64 (pos (suc n) -ℤ pos 1) *ℤ pos 6) ≡ pos (n * 6)
unfolding wrap64 ◌-ℤ◌ ◌*ℤ◌
start_of n h = ground (arith, h)

end_of : (n : ℕ) → n < large → wrap64 (pos (n * 6) +ℤ pos 6) ≡ pos (suc n * 6)
unfolding wrap64 ◌+ℤ◌
end_of n h = ground (arith, h)

start_below :
    (n : ℕ) → n < large → wrap64 (wrap64 (negsuc n -ℤ pos 1) *ℤ pos 6) ≡ negsuc (n * 6 + 11)
unfolding wrap64 ◌-ℤ◌ ◌*ℤ◌
start_below n h = ground (arith, h)

-- The page's part of the list, if it begins inside the list or at its end.
abbrev pub part_of : {A : Type 0} → ℕ → List A → Option (List A)
part_of n xs = if leb (n * 6) (length xs) then some (take 6 (drop (n * 6) xs)) else none

six : (n : ℕ) → suc n * 6 - n * 6 ≡ 6
six n = omega arith

go_slice_negative :
    {A : Type 0} (xs : List A) (k : ℕ) (high : ℤ) → go_slice xs (negsuc k) high ≡ none
go_slice_negative xs k high = ground arith

go_slice-part_of :
    {A : Type 0} (n : ℕ) (xs : List A)
    → go_slice xs
        (pos (n * 6))
        (if ltb_ℤ (pos (length xs)) (pos (suc n * 6)) then pos (length xs) else pos (suc n * 6))
      ≡ part_of n xs
go_slice-part_of n xs = elim (Bool-cases (ltb (length xs) (suc n * 6))) [
  | inl short ↦ elim (Bool-cases (leb (n * 6) (length xs))) [
    | inl inside ↦ ground (
      arith,
      take_all (length xs - n * 6) 6 (drop (n * 6) xs) (ground (arith, length-drop (n * 6) xs))
          (ground (arith, length-drop (n * 6) xs)),
    )
    | inr outside ↦ ground (arith, outside, short)
  ]
  | inr long ↦ ground (arith, long, ap (λ k. some (take k (drop (n * 6) xs))) (six n))
]

pub page_slice-part_of :
    {A : Type 0} (n : ℕ) (xs : List A) → n < large → page_slice (pos (suc n)) xs ≡ part_of n xs
unfolding page_slice
page_slice-part_of n xs h = rw (start_of n h, end_of n h) (go_slice-part_of n xs)

pub page_slice_below :
    {A : Type 0} (n : ℕ) (xs : List A) → n < large → page_slice (negsuc n) xs ≡ none
unfolding page_slice
page_slice_below n xs h = rw (start_below n h) (
    go_slice_negative xs (n * 6 + 11) (
      if ltb_ℤ (pos (length xs)) (wrap64 (negsuc (n * 6 + 11) +ℤ pos 6))
      then pos (length xs)
      else wrap64 (negsuc (n * 6 + 11) +ℤ pos 6)))

above_zero : (n : ℕ) → is_zero (pos (suc n)) ≡ false
above_zero n = ground arith

below_zero : (n : ℕ) → is_zero (negsuc n) ≡ false
below_zero n = ground arith

module _ {F : Type 0} (float : Float64 F) (reviews : ReviewTable) (redis : Redis AnalysisPage)
    (analyze : List String → List ℕ → String ⊎ List AnalyzeResult) where
  abbrev pub page_of :
      ℤ → String → List AnalyzeResult → Option (List AnalyzeResult) → Response ⊥ AnalysisPage
  page_of page sort kept none = panic
  page_of page sort kept (some part) = ok (record {
    result = part;
    page = page;
    total_page = page_count float (pos (length kept)) (pos 6);
  })

  -- What the handler does from its queries on, by the slice.
  fetched :
      (page : ℤ) (sort : String) (s : State) (rows : List Review) (results : List AnalyzeResult)
      (part : Option (List AnalyzeResult))
      → reviews.all (λ r. true) s.reviews ≡ done rows
      → analyze (map (λ r. r.comment) rows) (map (λ r. r.review_id) rows) ≡ inr results
      → page_slice page (sorted_by sort results) ≡ part
      → (fetch_analysis float reviews redis analyze page sort s).0
        ≡ page_of page sort (sorted_by sort results) part
  fetched page sort s rows results none e e' slice = rw (e, e', slice) refl
  fetched page sort s rows results (some part) e e' slice = rw (e, e', slice) refl

  -- Without an entry in the cache, and where the query and the microservice answer, GetAdminReviewAnalysis
  -- answers a page from 1 on with the at most six results that stand there, counted in pages of six, also one
  -- page behind the last if that is full, or the first if there are none; it panics at every page behind that,
  -- and at every negative page. Pages and results are fewer than 2^60, so that nothing overflows.
  pub get_admin_review_analysis-page_of :
      (n : ℕ) (sort : String) (s : State) (rows : List Review) (results : List AnalyzeResult)
      → n < large
      → ((page : ℤ) → redis.get (analysis_key page sort) s.cache ≡ none)
      → reviews.all (λ r. true) s.reviews ≡ done rows
      → analyze (map (λ r. r.comment) rows) (map (λ r. r.review_id) rows) ≡ inr results
      → ((get_admin_review_analysis float reviews redis analyze (pos (suc n)) sort s).0
          ≡ page_of
              (pos (suc n))
              sort
              (sorted_by sort results)
              (part_of n (sorted_by sort results)))
        × ((get_admin_review_analysis float reviews redis analyze (negsuc n) sort s).0 ≡ panic)
  unfolding get_admin_review_analysis
  get_admin_review_analysis-page_of n sort s rows results h miss e e' = (
    rw
        (
          above_zero n,
          get_cache_missing redis (analysis_key (pos (suc n)) sort) (λ v. some v) s.cache
              (miss (pos (suc n))),
        )
        (fetched (pos (suc n)) sort s rows results (part_of n (sorted_by sort results)) e e'
          (page_slice-part_of n (sorted_by sort results) h)),
    rw
        (
          below_zero n,
          get_cache_missing redis (analysis_key (negsuc n) sort) (λ v. some v) s.cache
              (miss (negsuc n)),
        )
        (fetched (negsuc n) sort s rows results none e e'
          (page_slice_below n (sorted_by sort results) h)),
  )
