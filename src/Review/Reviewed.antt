-- ===== src/Review/Reviewed.antt =====
-- GetReviewData of GoodFood-BE/internal/server/handlers/review.go against GetOrderHistoryDetail of
-- GoodFood-BE/internal/server/handlers/orderhistory.go.
use good_food_be.Base.{ℕ, ◌≡◌, refl, inl, inr, false, Option, none, some, List, [], ◌∷◌, map, ◌==◌}
use good_food_be.Store.{Result-cases}
use good_food_be.Http.{Response, ok, error, error_struct, panic}
use good_food_be.Invoice.{Invoice, InvoiceDetail, DetailTable}
use good_food_be.Order.Details.{
  InvoiceDetailStruct, DetailState, detail_struct, get_order_history_detail,
}
use good_food_be.Product.{Product}
use good_food_be.Review.{ReviewTable}
use good_food_be.Review.Details.{last_of, get_review_data}

-- The last element of a list.
unfoldable pub final : {A : Type 0} → List A → Option A
final [] = none
final (x ∷ []) = some x
final (x ∷ y ∷ ys) = final (y ∷ ys)

last_of-final :
    {A : Type 0} (f : InvoiceDetail → A) (d : InvoiceDetail) (ds : List InvoiceDetail)
    (o : Option A)
    → last_of f o (d ∷ ds) ≡ final (map f (d ∷ ds))
unfolding final
last_of-final f d [] o = refl
last_of-final f d (e ∷ ds) o = last_of-final f e ds (some (f d))

last_of-none :
    {A : Type 0} (f : InvoiceDetail → A) (ds : List InvoiceDetail)
    → last_of f none ds ≡ final (map f ds)
unfolding final
last_of-none f [] = refl
last_of-none f (d ∷ ds) = last_of-final f d ds none

-- An answer with lines becomes the answer with the last of them, and any other stays as it is.
unfoldable pub final_answer :
    Response ⊥ (List InvoiceDetailStruct) → Response ⊥ (Option InvoiceDetailStruct)
final_answer (ok lines) = ok (final lines)
final_answer (error code text) = error code text
final_answer (error_struct code e) = error_struct code e
final_answer panic = panic

module _ (details : DetailTable) (reviews : ReviewTable) (product_of : InvoiceDetail → Product)
    (invoice_of : InvoiceDetail → Invoice) where
  -- Given an invoice and a product ID, GetReviewData answers with the last of the lines that
  -- GetOrderHistoryDetail lists for the invoice, with the empty struct if there is none, and with the same
  -- error if that fails: whatever product is asked for.
  pub get_review_data-get_order_history_detail :
      (invoice_id product_id : ℕ) (s : DetailState)
      → (invoice_id == 0) ≡ false
      → (product_id == 0) ≡ false
      → get_review_data details reviews product_of invoice_of invoice_id product_id s ≡ (
        final_answer
            (get_order_history_detail details reviews product_of invoice_of invoice_id s).0,
        s,
      )
  unfolding get_review_data get_order_history_detail final_answer
  get_review_data-get_order_history_detail invoice_id product_id s invoice product =
      elim (Result-cases (details.all (λ d. d.invoice_id == invoice_id) s.details)) [
        | inr (wrong, e) ↦ rw (invoice, product, e) refl
        | inl (rows, e) ↦
            rw
              (
                invoice,
                product,
                e,
                last_of-none (detail_struct details reviews product_of invoice_of s) rows,
              )
              refl
      ]
