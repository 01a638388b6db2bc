-- ===== src/Review/Update.antt =====
-- HandleUpdateReview of GoodFood-BE/internal/server/handlers/review.go.
use good_food_be.Base.{⊤, ℕ, ◌⊎◌, inl, inr, String, Option, List, [], ◌∷◌, ◌++◌, map, ◌==◌}
use good_food_be.Store.{message, done, failed}
use good_food_be.Cache.{num, Key, Redis, clear_cache}
use good_food_be.Http.{ok, error, Action, ◌>>=◌, ◌>>◌, pure, error_if, or_message, read, write}
use good_food_be.Review.{Review, ReviewImage, ReviewTable, ImageTable}
use good_food_be.Review.Listing.{or_text}
use good_food_be.Review.Upload.{ReviewSubmitRequest, ReviewContentDetection, Form, Binaries, accept}
use good_food_be.Review.Submit.{State, image_at, insert_images}

-- fmt.Sprintf("product:detail:%d:filter=*:page=*", body.ProductID)
abbrev pub detail_pattern : ℕ → Key
detail_pattern product_id = record {
  format = "product:detail:%d:filter=*:page=*";
  args = num product_id ∷ [];
}

-- review.Comment = body.Comment and review.Stars = body.Stars
abbrev pub reworked : Review → Review → Review
reworked body review = record review { comment = body.comment; stars = body.stars }

-- Without a file there is nothing to upload.
abbrev pub uploaded : (Binaries → String ⊎ List String) → Binaries → String ⊎ List String
uploaded upload [] = inr []
uploaded upload (file ∷ files) = upload (file ∷ files)

-- The loop over the images in the storage; `remove` is DeleteFirebaseImage, an error's text or nothing.
abbrev pub remove_stored : (String → String ⊎ ⊤) → List ReviewImage → String ⊎ ⊤
remove_stored remove [] = inr tt
remove_stored remove (img ∷ rest) = elim (remove img.image_name) [
  | inl wrong ↦ inl wrong
  | inr done_one ↦ remove_stored remove rest
]

-- The loop over the images in the table; those before an error are gone.
abbrev pub delete_images : {V : Type 0} → ImageTable → List ReviewImage → Action (State V) ⊥ ⊤
delete_images images [] s = (ok tt, s)
delete_images images (img ∷ rest) s = elim (images.delete img s.images) [
  | failed e ↦ (error 500 (message e), s)
  | done t ↦ delete_images images rest (record s { images = t })
]

module _ {V : Type 0} (reviews : ReviewTable) (images : ImageTable) (redis : Option (Redis V))
    (upload : Binaries → String ⊎ List String) (remove : String → String ⊎ ⊤) where
  -- New images take the place of the old ones of the body's review.
  abbrev pub replace_images : ReviewSubmitRequest → List String → Action (State V) ⊥ ⊤
  replace_images body [] = pure tt
  replace_images body (url ∷ urls) = do
    s ← read
    old ← or_message (images.all (λ i. i.review_id == body.review.review_id) s.images) 500
    or_text (remove_stored remove old) 500
    delete_images images old
    insert_images images (body.review_images ++ map (image_at body.review.review_id) (url ∷ urls))

  abbrev pub update_row : ℕ → Review → Action (State V) ⊥ ⊤
  update_row review_id body = do
    s ← read
    review ← or_message (reviews.one (λ r. r.review_id == review_id) s.reviews) 500
    t ← or_message (reviews.update (reworked body review) s.reviews) 500
    write (record s { reviews = t })

  abbrev pub clear_detail : ℕ → Action (State V) ⊥ ⊤
  clear_detail product_id = do
    s ← read
    write (record s { cache = clear_cache redis (detail_pattern product_id ∷ []) s.cache })

  abbrev pub update_images :
      ReviewSubmitRequest → List String → Action (State V) ⊥ ReviewSubmitRequest
  update_images body urls = do
    replace_images body urls
    clear_detail body.review.product_id
    pure body

  -- Behind the moderation.
  abbrev pub update_accepted :
      ℕ → ReviewSubmitRequest × Binaries → Action (State V) ⊥ ReviewSubmitRequest
  update_accepted review_id (body, binaries) = do
    urls ← or_text (uploaded upload binaries) 500
    update_row review_id body.review
    update_images body urls

  unfoldable pub handle_update_review :
      (String → String ⊎ ReviewSubmitRequest)
      → (String → Binaries → String ⊎ ReviewContentDetection)
      → ℕ
      → Form
      → Action (State V) ⊥ ReviewSubmitRequest
  handle_update_review unmarshal moderate review_id form = do
    error_if (review_id == 0) 400 "Did not receive reviewID"
    accepted ← accept unmarshal moderate form
    update_accepted review_id accepted
