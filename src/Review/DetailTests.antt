-- ===== src/Review/DetailTests.antt =====
-- A review whose images cannot be read, and one that is shown.
use good_food_be.Base.{ℕ, ◌≡◌, refl, true, false, none, [], ◌∷◌, arith}
use good_food_be.Base.Int.{pos}
use good_food_be.Store.{done, failed, fault}
use good_food_be.Store.Memory.{memory}
use good_food_be.Cache.{Redis}
use good_food_be.Cache.Read.{NoString}
use good_food_be.Cache.Server.{server, empty}
use good_food_be.Http.{Ends}
use good_food_be.Invoice.{Invoice, InvoiceDetail, DetailTable, detail_key}
use good_food_be.Order.Details.{DetailState, get_order_history_detail}
use good_food_be.Product.{Product}
use good_food_be.Review.{ReplyTable, reply_key}
use good_food_be.Review.Fetch.{
  Queries, images_goroutine, reply_goroutine, launched, run, waited, fetch_review_data,
}
use good_food_be.Review.Interleaved.{HaveEnded, IsFetched, fetch_review_data-IsFetched}
use good_food_be.Review.Details.{
  AnalyzedReview, AnalyzedState, analyzed_key, get_review_data, get_admin_review_detail,
}
use good_food_be.Review.Reviewed.{final_answer, get_review_data-get_order_history_detail}
use good_food_be.Review.AdminDetail.{Reviews, get_admin_review_detail-Reviews}
use good_food_be.Review.Tests.{reviews, images, good, analyze}

abbrev replies : ReplyTable
replies = memory reply_key (λ r id. record r { reply_id = id }) (λ r id. refl)

abbrev details : DetailTable
details = memory detail_key (λ d id. record d { invoice_detail_id = id }) (λ d id. refl)

abbrev broken : Queries
broken = record {
  for_review = done good;
  for_images = failed (fault "connection reset");
  for_reply = failed (fault "connection reset");
}

fetch_review_data-IsFetched_example :
    HaveEnded (run broken waited (run broken (reply_goroutine ∷ images_goroutine ∷ []) launched))
    × IsFetched broken (fetch_review_data (reply_goroutine ∷ images_goroutine ∷ []) broken)
fetch_review_data-IsFetched_example =
    fetch_review_data-IsFetched (reply_goroutine ∷ images_goroutine ∷ []) broken

abbrev redis : Redis AnalyzedReview
redis = server

abbrev reviewed : AnalyzedState
reviewed = record { reviews = good ∷ []; images = []; replies = []; cache = empty }

absent : NoString (reviewed.cache (analyzed_key 1))
absent v e = ground arith

get_admin_review_detail-Reviews_example :
    Ends (Reviews reviews images replies redis analyze 1 reviewed) reviewed (
      get_admin_review_detail reviews images replies redis analyze
        (reply_goroutine ∷ [])
        1
        reviewed)
get_admin_review_detail-Reviews_example =
    get_admin_review_detail-Reviews reviews images replies redis analyze 1 reviewed
      (reply_goroutine ∷ []) absent

-- Two lines of an invoice, of the products 3 and 8.
abbrev line : ℕ → InvoiceDetail
line product = record {
  invoice_detail_id = product;
  quantity = pos 1;
  price = 10;
  product_id = product;
  invoice_id = 2;
}

abbrev bought : DetailState
bought = record { details = line 3 ∷ line 8 ∷ []; reviews = good ∷ [] }

abbrev product_of : InvoiceDetail → Product
product_of d = record {
  product_id = d.product_id;
  product_name = "Rice";
  price = pos 10;
  cover_image = "rice.png";
  description = none;
  status = true;
  insert_date = 0;
  product_type_id = 1;
  weight = pos 1;
}

abbrev invoice_of : InvoiceDetail → Invoice
invoice_of d = record {
  invoice_id = 2;
  shipping_fee = 0;
  total_price = 20;
  created_at = 0;
  payment_method = false;
  status = false;
  note = none;
  cancel_reason = none;
  receive_address = "";
  receive_name = "";
  receive_phone = "";
  account_id = 7;
  invoice_status_id = 5;
}

get_review_data-get_order_history_detail_example :
    get_review_data details reviews product_of invoice_of 2 3 bought ≡ (
      final_answer (get_order_history_detail details reviews product_of invoice_of 2 bought).0,
      bought,
    )
get_review_data-get_order_history_detail_example =
    get_review_data-get_order_history_detail details reviews product_of invoice_of 2 3 bought refl
      refl
