-- ===== src/Review/Submit.antt =====
-- HandleSubmitReview of GoodFood-BE/internal/server/handlers/review.go. The storage of images is a parameter: the
-- URLs of the images, or an error's text.
use good_food_be.Base.{⊤, ℕ, ◌⊎◌, String, Option, List, [], ◌∷◌, ◌++◌, map}
use good_food_be.Store.{message, done, failed}
use good_food_be.Cache.{num, Key, Cache, Redis, clear_cache}
use good_food_be.Http.{ok, error, Action, ◌>>=◌, ◌>>◌, pure, or_message, read, write}
use good_food_be.Review.{Review, ReviewImage, ReviewTable, ImageTable}
use good_food_be.Review.Listing.{or_text}
use good_food_be.Review.Upload.{ReviewSubmitRequest, ReviewContentDetection, Form, Binaries, accept}

-- `V` is what the pages of products are cached as.
pub record State (V : Type 0) : Type 0 where
  pub reviews : List Review
  pub images : List ReviewImage
  pub cache : Cache V

-- fmt.Sprintf("product:detail:%d:keys", body.ProductID)
abbrev pub detail_keys : ℕ → Key
detail_keys product_id = record { format = "product:detail:%d:keys"; args = num product_id ∷ [] }

abbrev pub image_at : ℕ → String → ReviewImage
image_at id url = record { review_image_id = 0; image_name = url; review_id = id }

-- The loop that inserts the images; those before an error stay.
abbrev pub insert_images : {V : Type 0} → ImageTable → List ReviewImage → Action (State V) ⊥ ⊤
insert_images images [] s = (ok tt, s)
insert_images images (img ∷ rest) s = elim (images.insert img s.images) [
  | failed e ↦ (error 500 (message e), s)
  | done (row, t) ↦ insert_images images rest (record s { images = t })
]

module _ {V : Type 0} (reviews : ReviewTable) (images : ImageTable) (redis : Option (Redis V))
    (upload : Binaries → String ⊎ List String) where
  abbrev pub insert_review : Review → Action (State V) ⊥ Review
  insert_review review = do
    s ← read
    (row, t) ← or_message (reviews.insert review s.reviews) 500
    write (record s {
      reviews = t;
      cache = clear_cache redis (detail_keys row.product_id ∷ []) s.cache;
    })
    pure row

  abbrev pub submit_images :
      ReviewSubmitRequest → Binaries → Review → Action (State V) ⊥ ReviewSubmitRequest
  submit_images body binaries row = do
    urls ← or_text (upload binaries) 500
    insert_images images (body.review_images ++ map (image_at row.review_id) urls)
    pure (record body { review = row })

  -- From the insertion of the review on.
  abbrev pub submit_accepted :
      ReviewSubmitRequest × Binaries → Action (State V) ⊥ ReviewSubmitRequest
  submit_accepted (body, binaries) = do
    row ← insert_review body.review
    submit_images body binaries row

  unfoldable pub handle_submit_review :
      (String → String ⊎ ReviewSubmitRequest)
      → (String → Binaries → String ⊎ ReviewContentDetection)
      → Form
      → Action (State V) ⊥ ReviewSubmitRequest
  handle_submit_review unmarshal moderate form = accept unmarshal moderate form >>= submit_accepted
