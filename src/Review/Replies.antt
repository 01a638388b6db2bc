-- ===== src/Review/Replies.antt =====
-- InsertReviewReply and UpdateReviewReply of GoodFood-BE/internal/server/handlers/admin_reviews.go, on the table
-- `reply`.
use good_food_be.Base.{ℕ, true, Option, List, ◌==◌}
use good_food_be.Http.{Action, ◌>>=◌, ◌>>◌, pure, error_if, parsed, or_message, read, write}
use good_food_be.Review.{Reply, ReplyTable}

module _ (replies : ReplyTable) where
  unfoldable pub insert_review_reply : Option Reply → Action (List Reply) ⊥ Reply
  insert_review_reply body = do
    reply ← parsed body 400 "Invalid body!"
    error_if reply.is_replied 500 "Already replied to this review!"
    t ← read
    (row, t') ← or_message (replies.insert (record reply { is_replied = true }) t) 500
    write t'
    pure row

  -- The parameter replyID is demanded, and not used.
  unfoldable pub update_review_reply : ℕ → Option Reply → Action (List Reply) ⊥ Reply
  update_review_reply reply_id body = do
    reply ← parsed body 400 "Invalid body!"
    error_if (reply_id == 0) 400 "Did not receive replyID"
    t ← read
    t' ← or_message (replies.update reply t) 500
    write t'
    pure reply
