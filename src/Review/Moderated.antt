-- ===== src/Review/Moderated.antt =====
-- What a form must pass before HandleSubmitReview writes.
use good_food_be.Base.{
  ⊤, ℕ, ◌≡◌, ◌≢◌, refl, sym, ap, ◌∙◌, subst, ◌⊎◌, inl, inr, String, Option, none, some, List, [],
  ◌∷◌, ◌++◌, map, Sum-cases, arith,
}
use good_food_be.Store.{get, Result-cases, done, failed, DbError, message}
use good_food_be.Store.Laws.{Elsewhere, insert-Adds}
use good_food_be.Cache.{Redis, clear_cache}
use good_food_be.Http.{Response, ok, error, error_struct, panic, ◌>>◌, pure, bind_ok, bind_error}
use good_food_be.Review.{Review, ReviewImage, ReviewTable, ImageTable, review_key}
use good_food_be.Review.Upload.{ReviewSubmitRequest, ReviewContentDetection, Form, Binaries}
use good_food_be.Review.Submit.{
  State, insert_images, insert_review, detail_keys, submit_images, submit_accepted, image_at,
  handle_submit_review,
}
use good_food_be.Review.Accepted.{IsAccepted, IsAccepted-unique, accept_then}

-- One new review stands in the table, the body's under the key that it has got.
abbrev pub IsAdded : Review → List Review → List Review → Type 0
IsAdded review t t' =
    (row : Review) × (get review_key row.review_id t ≡ none)
    × (row ≡ record review { review_id = row.review_id })
    × (get review_key row.review_id t' ≡ some row)
    × Elsewhere review_key row.review_id t t'

pub error_not_ok :
    {E A : Type 0} (code : ℕ) (text : String) (a : A)
    → ◌≢◌ {A = Response E A} (error code text) (ok a)
error_not_ok code text a e = ground arith

pub images_keep :
    {V : Type 0} (images : ImageTable) (list : List ReviewImage) (s : State V)
    → (insert_images images list s).1.reviews ≡ s.reviews
images_keep images [] s = refl
images_keep images (img ∷ rest) s = elim (Result-cases (images.insert img s.images)) [
  | inl ((row, t), e) ↦ rw (e, insert_images) (images_keep images rest (record s { images = t }))
  | inr (e', e) ↦ rw (e, insert_images) refl
]

pub after_images :
    {V : Type 0} (run : Response ⊥ ⊤ × State V) (s : State V) (a : ReviewSubmitRequest)
    → (((λ (_ : State V). run) >> pure a) s).1 ≡ run.1
after_images (ok x, t) s a = refl
after_images (error code text, t) s a = refl
after_images (error_struct code e, t) s a = refl
after_images (panic, t) s a = refl

module _ {V : Type 0} (reviews : ReviewTable) (images : ImageTable) (redis : Option (Redis V))
    (unmarshal : String → String ⊎ ReviewSubmitRequest)
    (moderate : String → Binaries → String ⊎ ReviewContentDetection)
    (upload : Binaries → String ⊎ List String) where
  -- Nothing is written and the answer is an error, and then the form has not passed or its review could not be
  -- inserted; or the form has passed, and its review is inserted.
  abbrev pub Submits : Form → State V → Response ⊥ ReviewSubmitRequest × State V → Type 0
  Submits form s run =
      ((run.1 ≡ s)
        × ((a : ReviewSubmitRequest) → run.0 ≢ ok a)
        × ((body : ReviewSubmitRequest) (binaries : Binaries)
            → IsAccepted unmarshal moderate form body binaries
            → (e : DbError) × (reviews.insert body.review s.reviews ≡ failed e)))
      ⊎ ((body : ReviewSubmitRequest) × (binaries : Binaries) × IsAccepted unmarshal moderate form
            body binaries
          × IsAdded body.review s.reviews run.1.reviews)

  submit_images_keep :
      (body : ReviewSubmitRequest) (binaries : Binaries) (row : Review) (s : State V)
      → (submit_images reviews images redis upload body binaries row s).1.reviews ≡ s.reviews
  submit_images_keep body binaries row s = elim (Sum-cases (upload binaries)) [
    | inl (wrong, e) ↦ rw (e) refl
    | inr (urls, e) ↦
        let list : List ReviewImage = body.review_images ++ map (image_at row.review_id) urls in
        rw (e) (
          ap (λ t. t.reviews)
            (after_images (insert_images images list s) s (record body { review = row }))
          ∙ images_keep images list s)
  ]

  inserted :
      (review row : Review) (s : State V) (t : List Review)
      → reviews.insert review s.reviews ≡ done (row, t)
      → insert_review reviews images redis upload review s ≡ (
        ok row,
        record s {
          reviews = t;
          cache = clear_cache redis (detail_keys row.product_id ∷ []) s.cache;
        },
      )
  inserted review row s t e = rw (e) refl

  refused :
      (review : Review) (s : State V) (e' : DbError)
      → reviews.insert review s.reviews ≡ failed e'
      → insert_review reviews images redis upload review s ≡ (error 500 (message e'), s)
  refused review s e' e = rw (e) refl

  accepted_then :
      (form : Form) (s : State V) (body : ReviewSubmitRequest) (binaries : Binaries)
      → IsAccepted unmarshal moderate form body binaries
      → Submits form s (submit_accepted reviews images redis upload (body, binaries) s)
  accepted_then form s body binaries h =
      elim (Result-cases (reviews.insert body.review s.reviews)) [
        | inl ((row, t), e) ↦
            let s' : State V = record s {
              reviews = t;
              cache = clear_cache redis (detail_keys row.product_id ∷ []) s.cache;
            } in
            let kept : (submit_accepted reviews images redis upload (body, binaries) s).1.reviews
                ≡ t =
              ap (λ x. x.1.reviews)
                (bind_ok (insert_review reviews images redis upload body.review)
                  (submit_images reviews images redis upload body binaries)
                  (inserted body.review row s t e))
              ∙ submit_images_keep body binaries row s' in
            let (fresh, its, there, others) = insert-Adds reviews body.review row s.reviews t e in
            inr (
              body,
              binaries,
              h,
              subst (IsAdded body.review s.reviews) (sym kept) (row, fresh, its, there, others),
            )
        | inr (e', e) ↦
            subst (Submits form s)
              (sym (
                bind_error (insert_review reviews images redis upload body.review)
                  (submit_images reviews images redis upload body binaries)
                  (refused body.review s e' e)))
              (inl (
                refl,
                (λ a. error_not_ok 500 (message e') a),
                λ body' binaries' h'. (
                  e',
                  subst (λ b. reviews.insert b.review s.reviews ≡ failed e')
                      (IsAccepted-unique unmarshal moderate form body body' binaries binaries' h
                        h').0
                      e,
                ),
              ))
      ]

  -- HandleSubmitReview ends in one of two ways. Either nothing is written and the answer is an error; this is so
  -- only if the form has not passed the moderation, or if the insertion of its review fails. Or the form has
  -- passed, and the review of the form and no other stands in the table as a new one, whatever becomes of its
  -- images. A form has passed if its JSON and its files could be read and the microservice, asked with the
  -- comment and the files' contents, gives an answer that does not label the comment toxic and marks none of
  -- the images that it lists as nudity or violence; files that the answer does not list pass with it.
  pub handle_submit_review-Submits :
      (form : Form) (s : State V)
      → Submits form s (handle_submit_review reviews images redis upload unmarshal moderate form s)
  unfolding handle_submit_review
  handle_submit_review-Submits form s =
      accept_then unmarshal moderate form s (submit_accepted reviews images redis upload)
        (Submits form s) (accepted_then form s)
        (λ code text none_passes. inl (
          refl,
          (λ a. error_not_ok code text a),
          λ body binaries h. absurd (none_passes body binaries h),
        ))
