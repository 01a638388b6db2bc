-- ===== src/Order/Details.antt =====
-- GetOrderHistoryDetail of GoodFood-BE/internal/server/handlers/orderhistory.go. The product and the invoice that
-- qm.Load finds for a line of an invoice are parameters.
use good_food_be.Base.{ℕ, String, Bool, false, List, map, ◌==◌}
use good_food_be.Base.Int.{ℤ}
use good_food_be.Store.{Result, done, failed}
use good_food_be.Http.{Action, ◌>>=◌, ◌>>◌, pure, error_if, or_message, read}
use good_food_be.Invoice.{Invoice, InvoiceDetail, DetailTable}
use good_food_be.Product.{Product}
use good_food_be.Review.{Review, ReviewTable}

-- dto.InvoiceDetailStruct; the amounts are bit patterns of float32.
pub record InvoiceDetailStruct : Type 0 where
  pub invoice_id : ℕ
  pub image : String
  pub product : Product
  pub quantity : ℤ
  pub total_money : ℕ
  pub shipping_fee : ℕ
  pub review_check : Bool

pub record DetailState : Type 0 where
  pub details : List InvoiceDetail
  pub reviews : List Review

-- `exists, _ := …`
abbrev pub or_false : Result Bool → Bool
or_false (done b) = b
or_false (failed e) = false

module _ (details : DetailTable) (reviews : ReviewTable) (product_of : InvoiceDetail → Product)
    (invoice_of : InvoiceDetail → Invoice) where
  -- One round of the loop: the line, and whether its product has any review.
  abbrev pub detail_struct : DetailState → InvoiceDetail → InvoiceDetailStruct
  detail_struct s d = record {
    invoice_id = d.invoice_id;
    image = (product_of d).cover_image;
    product = product_of d;
    quantity = d.quantity;
    total_money = d.price;
    shipping_fee = (invoice_of d).shipping_fee;
    review_check =
        or_false (reviews.exists (λ r. r.product_id == (product_of d).product_id) s.reviews);
  }

  unfoldable pub get_order_history_detail : ℕ → Action DetailState ⊥ (List InvoiceDetailStruct)
  get_order_history_detail invoice_id = do
    error_if (invoice_id == 0) 400 "Did not receive invoiceID!"
    s ← read
    rows ← or_message (details.all (λ d. d.invoice_id == invoice_id) s.details) 500
    pure (map (detail_struct s) rows)
