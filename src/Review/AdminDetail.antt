-- ===== src/Review/AdminDetail.antt =====
-- What GetAdminReviewDetail answers where the cache has no entry.
use good_food_be.Base.{
  ℕ, ◌≡◌, refl, sym, subst, ◌⊎◌, inl, inr, String, true, some, List, [], ◌∷◌, ◌++◌, ◌==◌, arith,
  Bool-cases, Sum-cases,
}
use good_food_be.Store.{get, chosen, Result, done, failed}
use good_food_be.Cache.{Redis, set_cache}
use good_food_be.Cache.Read.{NoString, get_cache-NoString}
use good_food_be.Http.{Ends, ◌>>=◌}
use good_food_be.Review.{
  Review, ReviewImage, AnalyzeResult, ReviewTable, ImageTable, ReplyTable, review_key, image_key,
}
use good_food_be.Review.Listing.{or_text}
use good_food_be.Review.Fetch.{Goroutine, ReviewData, ask}
use good_food_be.Review.Sends.{found, found_images, errors_of, reply_errors}
use good_food_be.Review.Interleaved.{fetch_review_data-IsFetched}
use good_food_be.Review.Details.{
  AnalyzedReview, AnalyzedState, analyzed_key, asked, analyze_fetched, fetch_analyzed,
  get_admin_review_detail,
}

images_done :
    (r : Result Review) (i : Result (List ReviewImage)) (p : List String)
    → errors_of r ++ (errors_of i ++ p) ≡ []
    → i ≡ done (found_images i)
images_done r (done imgs) p none_sent = refl
images_done (done x) (failed e) p none_sent = ground arith
images_done (failed x) (failed e) p none_sent = ground arith

module _ (reviews : ReviewTable) (images : ImageTable) (replies : ReplyTable)
    (redis : Redis AnalyzedReview)
    (analyze : List String → List ℕ → String ⊎ List AnalyzeResult) where
  -- The review of the ID with all its images and the reply that the table gives, the analysis of its comment, and
  -- the cache with this answer.
  pub Reviews : ℕ → AnalyzedState → AnalyzedReview → AnalyzedState → Type 0
  Reviews id s answer s' =
      ((answer.fetched.review.review_id == id) ≡ true)
      × (get review_key answer.fetched.review.review_id s.reviews ≡ some answer.fetched.review)
      × ((k : ℕ)
          → get image_key k answer.fetched.images
            ≡ chosen (λ i. i.review_id == id) (get image_key k s.images))
      × (answer.fetched.reply ≡ found (replies.one (λ r. r.review_id == id) s.replies))
      × (analyze (answer.fetched.review.comment ∷ []) (answer.fetched.review.review_id ∷ [])
          ≡ inr answer.result)
      × (s' ≡ record s {
        cache = set_cache redis (analyzed_key id) answer (some (analyzed_key id)) s.cache;
      })

  analyze_fetched-Reviews :
      (id : ℕ) (s : AnalyzedState) (schedule : List Goroutine) (fetched : ReviewData)
      → reviews.one (λ x. x.review_id == id) s.reviews ≡ done fetched.review
      → images.all (λ x. x.review_id == id) s.images ≡ done fetched.images
      → fetched.reply ≡ found (replies.one (λ x. x.review_id == id) s.replies)
      → Ends
          (Reviews id s)
          s
          (analyze_fetched reviews images replies redis analyze schedule id fetched s)
  unfolding Reviews
  analyze_fetched-Reviews id s schedule fetched e1 e2 e3 =
      elim (Sum-cases (analyze (fetched.review.comment ∷ []) (fetched.review.review_id ∷ []))) [
        | inl (wrong, e) ↦ rw (e, or_text) refl
        | inr (result, e) ↦
            rw (e, or_text)
              (
                (reviews.one_found (λ x. x.review_id == id) s.reviews fetched.review e1).0,
                (reviews.one_found (λ x. x.review_id == id) s.reviews fetched.review e1).1,
                (λ k. images.all_found (λ x. x.review_id == id) s.images fetched.images k e2),
                e3,
                e,
                refl,
              )
      ]

  fetch_analyzed-Reviews :
      (id : ℕ) (s : AnalyzedState) (schedule : List Goroutine)
      → Ends (Reviews id s) s (fetch_analyzed reviews images replies redis analyze schedule id s)
  unfolding ask
  fetch_analyzed-Reviews id s schedule =
      let q = asked reviews images replies redis analyze schedule id s in
      let after : String ⊎ ReviewData → Type 0 = λ x.
        Ends (Reviews id s) s (
          (or_text x 500 >>= analyze_fetched reviews images replies redis analyze schedule id) s) in
      elim (fetch_review_data-IsFetched schedule q).1 [
        | inl (wrong, sent, e) ↦ subst after (sym e) refl
        | inr (none_sent, (r, is, e)) ↦ subst after (sym e) (
            analyze_fetched-Reviews id s schedule
              (record { review = r; images = found_images q.for_images; reply = found q.for_reply })
              is (images_done q.for_review q.for_images (reply_errors q.for_reply) none_sent) refl)
      ]

  -- GetAdminReviewDetail, where no string is cached for the ID, answers under every schedule of its three goroutines
  -- with the review of the ID, all its images, the reply that the table gives for it, if any, and the
  -- microservice's analysis of its comment; it writes only this answer to the cache. With any other answer
  -- nothing changes.
  pub get_admin_review_detail-Reviews :
      (id : ℕ) (s : AnalyzedState) (schedule : List Goroutine)
      → NoString (s.cache (analyzed_key id))
      → Ends
          (Reviews id s)
          s
          (get_admin_review_detail reviews images replies redis analyze schedule id s)
  unfolding get_admin_review_detail
  get_admin_review_detail-Reviews id s schedule absent = elim (Bool-cases (id == 0)) [
    | inl no_id ↦ rw no_id refl
    | inr given ↦
        rw (given, get_cache-NoString redis (analyzed_key id) (λ v. some v) s.cache absent)
          (fetch_analyzed-Reviews id s schedule)
  ]
