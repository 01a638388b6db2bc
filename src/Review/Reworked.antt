-- ===== src/Review/Reworked.antt =====
-- What HandleUpdateReview leaves in the table of the reviews.
use good_food_be.Base.{
  ⊤, ℕ, ◌≡◌, ◌≢◌, refl, sym, subst, ◌⊎◌, inl, inr, String, Option, some, List, ◌==◌, Bool-cases,
  Sum-cases, arith,
}
use good_food_be.Store.{get, DbError, Result-cases, done, failed, message}
use good_food_be.Store.Laws.{Elsewhere, one_by_key, update-Writes}
use good_food_be.Cache.{Redis}
use good_food_be.Http.{Response, ok, error, Action, ◌>>◌, bind_ok, bind_error}
use good_food_be.Review.{Review, ReviewTable, ImageTable, review_key}
use good_food_be.Review.Upload.{ReviewSubmitRequest, ReviewContentDetection, Form, Binaries}
use good_food_be.Review.Submit.{State}
use good_food_be.Review.Moderated.{error_not_ok}
use good_food_be.Review.Accepted.{IsAccepted, IsAccepted-unique, accept_then}
use good_food_be.Review.Update.{
  reworked, uploaded, update_row, update_images, update_accepted, handle_update_review,
}
use good_food_be.Review.Kept.{Keeps-update_images}

-- The review under the ID has the comment and the stars of the body and its other fields as they were, and no
-- other review differs.
abbrev pub IsReworked : ℕ → Review → List Review → List Review → Type 0
IsReworked id body t t' =
    (old : Review) × (get review_key id t ≡ some old)
    × (get review_key id t' ≡ some (record old { comment = body.comment; stars = body.stars }))
    × Elsewhere review_key id t t'

module _ {V : Type 0} (reviews : ReviewTable) (images : ImageTable) (redis : Option (Redis V))
    (unmarshal : String → String ⊎ ReviewSubmitRequest)
    (moderate : String → Binaries → String ⊎ ReviewContentDetection)
    (upload : Binaries → String ⊎ List String) (remove : String → String ⊎ ⊤) where
  -- What can end a request between the moderation and the writing of the row.
  abbrev pub Stops : ℕ → ReviewSubmitRequest → Binaries → State V → Type 0
  Stops id body binaries s =
      (id ≡ 0)
      ⊎ ((wrong : String) × (uploaded upload binaries ≡ inl wrong))
      ⊎ ((e : DbError) × (reviews.one (λ r. r.review_id == id) s.reviews ≡ failed e))
      ⊎ ((old : Review) × (e : DbError) × (reviews.one (λ r. r.review_id == id) s.reviews
            ≡ done old)
          × (reviews.update (reworked body.review old) s.reviews ≡ failed e))

  -- Nothing is written and the answer is an error, and then the form has not passed or something stopped the
  -- request; or the form has passed, and the review is changed.
  abbrev pub Reworks : ℕ → Form → State V → Response ⊥ ReviewSubmitRequest × State V → Type 0
  Reworks id form s run =
      ((run.1 ≡ s)
        × ((a : ReviewSubmitRequest) → run.0 ≢ ok a)
        × ((body : ReviewSubmitRequest) (binaries : Binaries)
            → IsAccepted unmarshal moderate form body binaries
            → Stops id body binaries s))
      ⊎ ((body : ReviewSubmitRequest) × (binaries : Binaries) × IsAccepted unmarshal moderate form
            body binaries
          × IsReworked id body.review s.reviews run.1.reviews)

  stopped :
      (id : ℕ) (form : Form) (s : State V) (body : ReviewSubmitRequest) (binaries : Binaries)
      (code : ℕ) (text : String)
      → IsAccepted unmarshal moderate form body binaries
      → Stops id body binaries s
      → Reworks id form s (error code text, s)
  stopped id form s body binaries code text h stops = inl (
    refl,
    (λ a. error_not_ok code text a),
    λ body' binaries' h'.
        let (same, same') =
          IsAccepted-unique unmarshal moderate form body body' binaries binaries' h h' in
        subst (λ b. Stops id b binaries' s) same (subst (λ x. Stops id body x s) same' stops),
  )

  row_updated :
      (id : ℕ) (body old : Review) (t : List Review) (s : State V)
      → reviews.one (λ r. r.review_id == id) s.reviews ≡ done old
      → reviews.update (reworked body old) s.reviews ≡ done t
      → update_row reviews images redis upload remove id body s ≡ (ok tt, record s { reviews = t })
  row_updated id body old t s found wrote = rw (found, wrote) refl

  -- The row is written, or the request ends with an error before anything is.
  row_cases :
      (id : ℕ) (body : ReviewSubmitRequest) (binaries : Binaries) (s : State V)
      → ((code : ℕ) × (text : String) × (update_row reviews images redis upload remove id
              body.review s
            ≡ (error code text, s))
          × Stops id body binaries s)
        ⊎ ((t : List Review) × (update_row reviews images redis upload remove id body.review s
              ≡ (ok tt, record s { reviews = t }))
            × IsReworked id body.review s.reviews t)
  row_cases id body binaries s =
      elim (Result-cases (reviews.one (λ r. r.review_id == id) s.reviews)) [
        | inr (e', e) ↦ inl (500, message e', rw (e) refl, inr (inr (inl (e', e))))
        | inl (old, found) ↦
            elim (Result-cases (reviews.update (reworked body.review old) s.reviews)) [
              | inr (e', e) ↦
                  inl (500, message e', rw (found, e) refl, inr (inr (inr (old, e', found, e))))
              | inl (t, wrote) ↦
                  let (same, here) = one_by_key reviews id s.reviews old found in
                  let there : get review_key old.review_id s.reviews ≡ some old =
                    subst (λ k. get review_key k s.reviews ≡ some old) (sym same) here in
                  let (stands, others) =
                    update-Writes reviews (reworked body.review old) old s.reviews t wrote there in
                  inr (
                    t,
                    row_updated id body.review old t s found wrote,
                    subst (λ k. IsReworked k body.review s.reviews t) same
                        (old, there, stands, others),
                  )
            ]
      ]

  uploaded_then :
      (id : ℕ) (form : Form) (s : State V) (body : ReviewSubmitRequest) (binaries : Binaries)
      (urls : List String)
      → IsAccepted unmarshal moderate form body binaries
      → Reworks id form s (
          (update_row reviews images redis upload remove id body.review
              >> update_images reviews images redis upload remove body urls)
            s)
  uploaded_then id form s body binaries urls h =
      let row : Action (State V) ⊥ ⊤ =
        update_row reviews images redis upload remove id body.review in
      let rest : ⊤ → Action (State V) ⊥ ReviewSubmitRequest =
        λ _. update_images reviews images redis upload remove body urls in
      elim (row_cases id body binaries s) [
        | inl (code, text, e, stops) ↦
            subst (Reworks id form s) (sym (bind_error row rest e))
              (stopped id form s body binaries code text h stops)
        | inr (t, e, its) ↦ subst (Reworks id form s) (sym (bind_ok row rest e)) (
            inr (
              body,
              binaries,
              h,
              subst (IsReworked id body.review s.reviews)
                  (sym (
                    Keeps-update_images reviews images redis upload remove body urls
                      (record s { reviews = t })))
                  its,
            ))
      ]

  upload_fails :
      (id : ℕ) (body : ReviewSubmitRequest) (binaries : Binaries) (s : State V) (wrong : String)
      → uploaded upload binaries ≡ inl wrong
      → (error 500 wrong, s)
        ≡ update_accepted reviews images redis upload remove id (body, binaries) s
  upload_fails id body binaries s wrong e = rw (e) refl

  accepted_then :
      (id : ℕ) (form : Form) (s : State V) (body : ReviewSubmitRequest) (binaries : Binaries)
      → IsAccepted unmarshal moderate form body binaries
      → Reworks id form s (update_accepted reviews images redis upload remove id (body, binaries) s)
  accepted_then id form s body binaries h = elim (Sum-cases (uploaded upload binaries)) [
    | inl (wrong, e) ↦
        subst (Reworks id form s) (upload_fails id body binaries s wrong e)
          (stopped id form s body binaries 500 wrong h (inr (inl (wrong, e))))
    | inr (urls, e) ↦ rw (e) (uploaded_then id form s body binaries urls h)
  ]

  -- HandleUpdateReview ends in one of two ways. Either nothing is written and the answer is an error; this is so
  -- only if the form has not passed the moderation as in HandleSubmitReview, or the ID is 0, or the upload of
  -- its files, the search of the review or its update fails. Or the form has passed, and the review under the
  -- request's ID, whosever it is, has the comment and the stars of the form and its other fields as before, no
  -- other review differs, whatever becomes of its images.
  pub handle_update_review-Reworks :
      (id : ℕ) (form : Form) (s : State V)
      → Reworks id form s
          (handle_update_review reviews images redis upload remove unmarshal moderate id form s)
  unfolding handle_update_review
  handle_update_review-Reworks id form s = elim (Bool-cases (id == 0)) [
    | inl missing ↦ rw (missing) (
        inl (
          refl,
          (λ a. error_not_ok 400 "Did not receive reviewID" a),
          λ body binaries h. inl (ground (arith, missing)),
        ))
    | inr given ↦ rw (given) (
        accept_then unmarshal moderate form s
          (update_accepted reviews images redis upload remove id) (Reworks id form s)
          (accepted_then id form s)
          (λ code text none_passes. inl (
            refl,
            (λ a. error_not_ok code text a),
            λ body binaries h. absurd (none_passes body binaries h),
          )))
  ]
