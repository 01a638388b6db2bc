-- ===== src/Review/Interleaved.antt =====
-- FetchReviewData under every schedule of its goroutines.
use good_food_be.Base.{
  ◌+◌, ◌≡◌, ◌⊎◌, refl, ◌∙◌, ap, subst, inl, inr, String, true, none, some, List, [], ◌∷◌, length,
  All, List-cases, arith, Elem,
}
use good_food_be.Store.{no_rows, fault, Result, done, failed}
use good_food_be.Review.{Review, ReviewImage, Reply}
use good_food_be.Review.Fetch.{
  Queries, Shared, launched, Goroutine, review_goroutine, images_goroutine, reply_goroutine,
  images_step, reply_step, step, run, waited, ReviewData, outcome, fetch_review_data,
}
use good_food_be.Review.Sends.{
  found, found_images, errors_of, reply_errors, all_errors, when, queries, launched-Consistent,
  if_cases, step-Consistent, Consistent,
}

run-Consistent :
    (q : Queries) (gs : List Goroutine) (s : Shared) → Consistent q s → Consistent q (run q gs s)
unfolding run
run-Consistent q [] s c = c
run-Consistent q (g ∷ gs) s c = run-Consistent q gs (step q g s) (step-Consistent q g s c).0

images_step_reviewed :
    (i : Result (List ReviewImage)) (s : Shared) → (images_step i s).reviewed ≡ s.reviewed
images_step_reviewed (done imgs) s = refl
images_step_reviewed (failed e) s = ground arith

reply_step_others :
    (p : Result Reply) (s : Shared)
    → ((reply_step p s).reviewed ≡ s.reviewed) × ((reply_step p s).imaged ≡ s.imaged)
reply_step_others (done r) s = (refl, refl)
reply_step_others (failed no_rows) s = (refl, refl)
reply_step_others (failed (fault text)) s = ground arith

images_reviewed : (q : Queries) (s : Shared) → (step q images_goroutine s).reviewed ≡ s.reviewed
unfolding step
images_reviewed q s =
    if_cases (λ x. x.reviewed ≡ s.reviewed) s.imaged s (images_step q.for_images s) (λ h. refl)
      (λ h. images_step_reviewed q.for_images s)

reply_others :
    (q : Queries) (s : Shared)
    → ((step q reply_goroutine s).reviewed ≡ s.reviewed)
      × ((step q reply_goroutine s).imaged ≡ s.imaged)
unfolding step
reply_others q s =
    if_cases (λ x. (x.reviewed ≡ s.reviewed) × (x.imaged ≡ s.imaged)) s.replied s
      (reply_step q.for_reply s) (λ h. (refl, refl)) (λ h. reply_step_others q.for_reply s)

-- After wg.Wait all three have ended.
waited_ended :
    (q : Queries) (s : Shared)
    → Consistent q s
    → let s' = run q waited s in
      Consistent q s' × (s'.reviewed ≡ true) × (s'.imaged ≡ true) × (s'.replied ≡ true)
unfolding run
waited_ended q s c =
    let s1 = step q review_goroutine s in
    let (c1, e1) = step-Consistent q review_goroutine s c in
    let s2 = step q images_goroutine s1 in
    let (c2, e2) = step-Consistent q images_goroutine s1 c1 in
    let (c3, e3) = step-Consistent q reply_goroutine s2 c2 in
    let (same_reviewed, same_imaged) = reply_others q s2 in
    (c3, same_reviewed ∙ images_reviewed q s1 ∙ e1, same_imaged ∙ e2, e3)

-- An error that a goroutine has sent, or the rows that the queries have found.
abbrev pub IsFetched : Queries → String ⊎ ReviewData → Type 0
IsFetched q result =
    ((e : String) × Elem e (all_errors q) × (result ≡ inl e))
    ⊎ ((all_errors q ≡ [])
        × ((r : Review) × (q.for_review ≡ done r)
            × (result
                ≡ inr (record {
                  review = r;
                  images = found_images q.for_images;
                  reply = found q.for_reply;
                }))))

no_errors :
    (r : Result Review) (i : Result (List ReviewImage)) (p : Result Reply) (s : Shared)
    → s.errors ≡ []
    → s.review ≡ found r
    → s.images ≡ found_images i
    → s.reply ≡ found p
    → 0 ≡ length (errors_of r) + length (errors_of i) + length (reply_errors p)
    → IsFetched (queries r i p) (outcome s)
no_errors (done x) (done y) (done z) s e er ei ep none_sent =
    inr (refl, (x, refl, rw (e, er, ei, ep) refl))
no_errors (done x) (done y) (failed no_rows) s e er ei ep none_sent =
    inr (refl, (x, refl, rw (e, er, ei, ep) refl))
no_errors (done x) (done y) (failed (fault text)) s e er ei ep none_sent = absurd (omega arith)
no_errors (done x) (failed y) p s e er ei ep none_sent = absurd (omega arith)
no_errors (failed x) i p s e er ei ep none_sent = absurd (omega arith)

ended_IsFetched :
    (q : Queries) (s : Shared)
    → Consistent q s
    → s.reviewed ≡ true
    → s.imaged ≡ true
    → s.replied ≡ true
    → IsFetched q (outcome s)
ended_IsFetched q s c reviewed imaged replied = elim (List-cases s.errors) [
  | inr (e, es, some_sent) ↦
      inl (
        e,
        (subst (All (λ x. Elem x (all_errors q))) some_sent c.theirs).0,
        ap first_error some_sent,
      )
  | inl nothing ↦
      no_errors q.for_review q.for_images q.for_reply s nothing
        (c.review_is ∙ ap (λ b. when b (found q.for_review) none) reviewed)
        (c.images_is ∙ ap (λ b. when b (found_images q.for_images) []) imaged)
        (c.reply_is ∙ ap (λ b. when b (found q.for_reply) none) replied)
        (ground (arith, c.sent, reviewed, imaged, replied, nothing))
]
  where
    first_error : List String → String ⊎ ReviewData
    first_error xs = elim xs [
      | e ∷ es ↦ inl e
      | [] ↦ elim s.review [
        | none ↦ inl "review not found"
        | some r ↦ inr (record { review = r; images = s.images; reply = s.reply })
      ]
    ]

-- Every goroutine has called wg.Done.
abbrev pub HaveEnded : Shared → Type 0
HaveEnded s = (s.reviewed ≡ true) × (s.imaged ≡ true) × (s.replied ≡ true)

-- In whatever order the three goroutines of FetchReviewData run, all of them end before wg.Wait returns, none held up
-- by the channel, and the result is one of the errors that they send, if there is one, and else the review with its images and
-- its reply. A missing reply is no error, and no order gives anything else.
pub fetch_review_data-IsFetched :
    (schedule : List Goroutine) (q : Queries)
    → HaveEnded (run q waited (run q schedule launched))
      × IsFetched q (fetch_review_data schedule q)
unfolding fetch_review_data
fetch_review_data-IsFetched schedule q =
    let (c, reviewed, imaged, replied) =
      waited_ended q (run q schedule launched)
        (run-Consistent q schedule launched (launched-Consistent q)) in
    (
      (reviewed, imaged, replied),
      ended_IsFetched q (run q waited (run q schedule launched)) c reviewed imaged replied,
    )
