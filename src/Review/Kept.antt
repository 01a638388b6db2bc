-- ===== src/Review/Kept.antt =====
-- What HandleUpdateReview of GoodFood-BE/internal/server/handlers/review.go does behind the update of the row leaves the
-- reviews alone.
use good_food_be.Base.{
  ⊤, ℕ, ◌≡◌, refl, ◌∙◌, ◌⊎◌, inl, inr, String, Option, List, [], ◌∷◌, ◌++◌, map, ◌==◌,
}
use good_food_be.Store.{Result, Result-cases, done, failed}
use good_food_be.Cache.{Redis}
use good_food_be.Http.{
  Response, ok, error, error_struct, panic, Action, ◌>>=◌, ◌>>◌, pure, or_message,
}
use good_food_be.Review.{ReviewImage, ReviewTable, ImageTable}
use good_food_be.Review.Listing.{or_text}
use good_food_be.Review.Upload.{ReviewSubmitRequest, Binaries}
use good_food_be.Review.Submit.{State, insert_images, image_at}
use good_food_be.Review.Moderated.{images_keep}
use good_food_be.Review.Update.{
  remove_stored, delete_images, replace_images, clear_detail, update_images,
}

-- The reviews are as they were, however the action ends.
abbrev pub Keeps : {V A : Type 0} → Action (State V) ⊥ A → Type 0
Keeps {V = V} m = (s : State V) → (m s).1.reviews ≡ s.reviews

module _ {V A B : Type 0} where
  Keeps-run :
      (run : Response ⊥ A × State V) (f : A → Action (State V) ⊥ B) (s : State V)
      → ((a : A) → Keeps (f a))
      → (((λ (_ : State V). run) >>= f) s).1.reviews ≡ run.1.reviews
  Keeps-run (ok a, t) f s k = k a t
  Keeps-run (error code text, t) f s k = refl
  Keeps-run (error_struct code e, t) f s k = refl
  Keeps-run (panic, t) f s k = refl

  Keeps-bind :
      (m : Action (State V) ⊥ A) (f : A → Action (State V) ⊥ B)
      → Keeps m
      → ((a : A) → Keeps (f a))
      → Keeps (m >>= f)
  Keeps-bind m f h k s = Keeps-run (m s) f s k ∙ h s

module _ {V : Type 0} where
  Keeps-or_text : {A : Type 0} (x : String ⊎ A) (code : ℕ) → Keeps {V = V} (or_text x code)
  Keeps-or_text (inl wrong) code s = refl
  Keeps-or_text (inr a) code s = refl

  Keeps-or_message : {A : Type 0} (x : Result A) (code : ℕ) → Keeps {V = V} (or_message x code)
  Keeps-or_message (failed e) code s = refl
  Keeps-or_message (done a) code s = refl

  Keeps-delete_images :
      (images : ImageTable) (list : List ReviewImage) → Keeps {V = V} (delete_images images list)
  Keeps-delete_images images [] s = refl
  Keeps-delete_images images (img ∷ rest) s = elim (Result-cases (images.delete img s.images)) [
    | inl (t, e) ↦ rw (e, delete_images) (Keeps-delete_images images rest (record s { images = t }))
    | inr (e', e) ↦ rw (e, delete_images) refl
  ]

module _ {V : Type 0} (reviews : ReviewTable) (images : ImageTable) (redis : Option (Redis V))
    (upload : Binaries → String ⊎ List String) (remove : String → String ⊎ ⊤) where
  Keeps-replace_images :
      (body : ReviewSubmitRequest) (urls : List String)
      → Keeps (replace_images reviews images redis upload remove body urls)
  Keeps-replace_images body [] s = refl
  Keeps-replace_images body (url ∷ urls) s =
      Keeps-bind (or_message (images.all (λ i. i.review_id == body.review.review_id) s.images) 500)
        (λ old.
          or_text (remove_stored remove old) 500
          >> (delete_images images old
              >> insert_images images
                  (body.review_images ++ map (image_at body.review.review_id) (url ∷ urls))))
        (Keeps-or_message (images.all (λ i. i.review_id == body.review.review_id) s.images) 500)
        (λ old.
          Keeps-bind (or_text (remove_stored remove old) 500)
            (λ _.
              delete_images images old
              >> insert_images images
                  (body.review_images ++ map (image_at body.review.review_id) (url ∷ urls)))
            (Keeps-or_text (remove_stored remove old) 500)
            (λ _.
              Keeps-bind (delete_images images old)
                (λ _.
                  insert_images images
                    (body.review_images ++ map (image_at body.review.review_id) (url ∷ urls)))
                (Keeps-delete_images images old)
                (λ _ t.
                  images_keep images
                    (body.review_images ++ map (image_at body.review.review_id) (url ∷ urls)) t)))
        s

  pub Keeps-update_images :
      (body : ReviewSubmitRequest) (urls : List String)
      → Keeps (update_images reviews images redis upload remove body urls)
  Keeps-update_images body urls =
      Keeps-bind (replace_images reviews images redis upload remove body urls)
        (λ _. clear_detail reviews images redis upload remove body.review.product_id >> pure body)
        (Keeps-replace_images body urls) (λ _ s. refl)
