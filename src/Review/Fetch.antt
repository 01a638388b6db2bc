-- ===== src/Review/Fetch.antt =====
-- FetchReviewData of GoodFood-BE/internal/utils/admin_reviews_helper.go: three goroutines, each with one query, that
-- share three variables and a channel for three errors. A schedule says in which order the goroutines run.
use good_food_be.Base.{
  ℕ, ◌⊎◌, inl, inr, String, Bool, true, false, Option, none, some, List, [], ◌∷◌, ◌++◌, length, ltb,
  ◌==◌, if◌then◌else◌,
}
use good_food_be.Store.{no_rows, fault, message, Result, done, failed}
use good_food_be.Review.{Review, ReviewImage, Reply, ReviewTable, ImageTable, ReplyTable}

-- What the queries of the three goroutines return.
pub record Queries : Type 0 where
  pub for_review : Result Review
  pub for_images : Result (List ReviewImage)
  pub for_reply : Result Reply

unfoldable pub ask :
    ReviewTable
    → ImageTable
    → ReplyTable
    → ℕ
    → List Review
    → List ReviewImage
    → List Reply
    → Queries
ask reviews images replies id t i r = record {
  for_review = reviews.one (λ x. x.review_id == id) t;
  for_images = images.all (λ x. x.review_id == id) i;
  for_reply = replies.one (λ x. x.review_id == id) r;
}

-- The variables, the errors sent to errChan, and which goroutines have called wg.Done.
pub record Shared : Type 0 where
  pub review : Option Review
  pub images : List ReviewImage
  pub reply : Option Reply
  pub errors : List String
  pub reviewed : Bool
  pub imaged : Bool
  pub replied : Bool

abbrev pub launched : Shared
launched = record {
  review = none;
  images = [];
  reply = none;
  errors = [];
  reviewed = false;
  imaged = false;
  replied = false;
}

pub data Goroutine : Type 0 where
  review_goroutine images_goroutine reply_goroutine : Goroutine

-- `make(chan error, 3)`; a send to a full channel waits.
abbrev pub capacity : ℕ
capacity = 3

abbrev pub has_room : Shared → Bool
has_room s = ltb (length s.errors) capacity

abbrev pub review_step : Result Review → Shared → Shared
review_step (done r) s = record s { review = some r; reviewed = true }
review_step (failed e) s =
    if has_room s then record s { errors = s.errors ++ message e ∷ []; reviewed = true } else s

abbrev pub images_step : Result (List ReviewImage) → Shared → Shared
images_step (done imgs) s = record s { images = imgs; imaged = true }
images_step (failed e) s =
    if has_room s then record s { errors = s.errors ++ message e ∷ []; imaged = true } else s

-- A review without a reply is no error.
abbrev pub reply_step : Result Reply → Shared → Shared
reply_step (done r) s = record s { reply = some r; replied = true }
reply_step (failed no_rows) s = record s { replied = true }
reply_step (failed (fault text)) s =
    if has_room s then record s { errors = s.errors ++ text ∷ []; replied = true } else s

-- A goroutine that has ended does nothing any more.
unfoldable pub step : Queries → Goroutine → Shared → Shared
step q review_goroutine s = if s.reviewed then s else review_step q.for_review s
step q images_goroutine s = if s.imaged then s else images_step q.for_images s
step q reply_goroutine s = if s.replied then s else reply_step q.for_reply s

unfoldable pub run : Queries → List Goroutine → Shared → Shared
run q [] s = s
run q (g ∷ gs) s = run q gs (step q g s)

-- wg.Wait: the goroutines that the schedule left out run to their end.
abbrev pub waited : List Goroutine
waited = review_goroutine ∷ images_goroutine ∷ reply_goroutine ∷ []

pub record ReviewData : Type 0 where
  pub review : Review
  pub images : List ReviewImage
  pub reply : Option Reply

-- After close(errChan): the first error that was sent, or the data.
abbrev pub outcome : Shared → String ⊎ ReviewData
outcome s = elim s.errors [
  | e ∷ es ↦ inl e
  | [] ↦ elim s.review [
    | none ↦ inl "review not found"
    | some r ↦ inr (record { review = r; images = s.images; reply = s.reply })
  ]
]

unfoldable pub fetch_review_data : List Goroutine → Queries → String ⊎ ReviewData
fetch_review_data schedule q = outcome (run q waited (run q schedule launched))
