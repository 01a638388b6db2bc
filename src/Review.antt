-- ===== src/Review.antt =====
-- Reviews: GoodFood-BE/internal/server/handlers/review.go and admin_reviews.go, GoodFood-BE/internal/utils/
-- admin_reviews_helper.go and GoodFood-BE/internal/dto/review_dto.go. The microservice that analyses and moderates
-- texts and images is a parameter, as are the storage of images and the tables.
pub mod Sentiment
pub mod Analysis
pub mod Bounds
pub mod Listing
pub mod Unanswered
pub mod Upload
pub mod Submit
pub mod Update
pub mod Kept
pub mod Reworked
pub mod Replies
pub mod Fetch
pub mod Sends
pub mod Details
pub mod Reviewed
pub mod AdminDetail
pub mod Interleaved
pub mod Accepted
pub mod Moderated
pub mod Tests
mod DetailTests
use good_food_be.Base.{ℕ, String, Bool, List}
use good_food_be.Store.{Table}

-- models.Review; the date is a number of the clock.
pub record Review : Type 0 where
  pub review_id : ℕ
  pub review_date : ℕ
  pub stars : ℕ
  pub comment : String
  pub status : Bool
  pub product_id : ℕ
  pub account_id : ℕ
  pub invoice_id : ℕ

-- models.ReviewImage
pub record ReviewImage : Type 0 where
  pub review_image_id : ℕ
  pub image_name : String
  pub review_id : ℕ

-- models.Reply
pub record Reply : Type 0 where
  pub reply_id : ℕ
  pub reply : String
  pub is_replied : Bool
  pub review_id : ℕ
  pub account_id : ℕ

-- dto.ClauseAnalysis
pub record ClauseAnalysis : Type 0 where
  pub clause : String
  pub sentiment : String

-- dto.AnalyzeResult
pub record AnalyzeResult : Type 0 where
  pub review_id : ℕ
  pub review : String
  pub clauses : List String
  pub analysis : List ClauseAnalysis
  pub summary : String

-- dto.ReviewCards
pub record ReviewCards : Type 0 where
  pub total_review : ℕ
  pub total_5s : ℕ

abbrev pub review_key : Review → ℕ
review_key r = r.review_id

abbrev pub image_key : ReviewImage → ℕ
image_key r = r.review_image_id

abbrev pub reply_key : Reply → ℕ
reply_key r = r.reply_id

abbrev pub ReviewTable : Type 0
ReviewTable = Table review_key (λ r id. record r { review_id = id })

abbrev pub ImageTable : Type 0
ImageTable = Table image_key (λ r id. record r { review_image_id = id })

abbrev pub ReplyTable : Type 0
ReplyTable = Table reply_key (λ r id. record r { reply_id = id })
