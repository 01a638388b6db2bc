-- ===== src/Product/Shown.antt =====
-- What GetDetail answers where the cache has no entry.
use good_food_be.Base.{
  ℕ, ◌≡◌, refl, inl, inr, String, Bool, true, Option, some, List, ◌==◌, Bool-cases,
}
use good_food_be.Base.Int.{ℤ, pos, ◌-ℤ◌, ◌*ℤ◌, wrap64}
use good_food_be.Store.{Result-cases, done, get, chosen}
use good_food_be.Cache.{Redis, set_cache}
use good_food_be.Cache.Read.{NoString, get_cache-NoString}
use good_food_be.Http.{Ends, pure}
use good_food_be.Http.Steps.{reads-Ends}
use good_food_be.Paging.{Float64, page_count}
use good_food_be.Product.{Product, ProductImage, ProductTable, ImageTable, product_key, image_key}
use good_food_be.Product.Detail.{
  ReviewResponse, DetailPage, State, DetailQuery, detail_key, Loaded, ReviewPages, review_condition,
  review_display, count_stars, build_product_detail, with_counts, store_detail, fetch_detail,
  get_detail,
}
use good_food_be.Review.{Review, ReviewTable}
use good_food_be.Review.Submit.{detail_keys}
use good_food_be.Product.Displayed.{
  IsShown, IsCounted, reviews_with, Displayed, review_display-Displayed, count_stars-IsCounted,
}

module _ {F A : Type 0} (float : Float64 F) (redis : Redis (DetailPage A))
    (atoi : String → Option ℤ) where
  -- The product of the request with its images, and a page of its reviews with the number of pages that the
  -- filter has and the five counts; nothing is written but the cache.
  abbrev pub Shows : DetailQuery → State A → DetailPage A → State A → Type 0
  Shows q s answer s' =
      ((answer.detail.product.product_id == q.id) ≡ true)
      × (get product_key answer.detail.product.product_id s.products ≡ some answer.detail.product)
      × ((k : ℕ)
          → get image_key k answer.detail.product_images
            ≡ chosen (λ i. i.product_id == answer.detail.product.product_id)
                (get image_key k s.images))
      × ((condition : Review → Bool) × (review_condition atoi q.id q.filter ≡ some condition)
          × IsShown condition s.reviews answer.detail.five_stars_review
          × (answer.total_page ≡ page_count float (pos (reviews_with condition s.reviews)) (pos 3)))
      × IsCounted q.id s.reviews answer.detail.stars
      × (s' ≡ record s {
        cache = set_cache redis (detail_key q) answer (some (detail_keys q.id)) s.cache;
      })

module _ {F A : Type 0} (float : Float64 F) (products : ProductTable) (images : ImageTable)
    (reviews : ReviewTable) (pages : ReviewPages) (redis : Redis (DetailPage A))
    (atoi : String → Option ℤ) (loaded : Review → Loaded A) where
  -- From the product on.
  Built : DetailQuery → State A → DetailPage A → Type 0
  Built q s answer =
      ((answer.detail.product.product_id == q.id) ≡ true)
      × (get product_key answer.detail.product.product_id s.products ≡ some answer.detail.product)
      × ((k : ℕ)
          → get image_key k answer.detail.product_images
            ≡ chosen (λ i. i.product_id == answer.detail.product.product_id)
                (get image_key k s.images))
      × Displayed float products images reviews pages redis atoi loaded q s
          (answer.detail.five_stars_review, answer.total_page)
      × IsCounted q.id s.reviews answer.detail.stars

  with_counts-Built :
      (q : DetailQuery) (s : State A) (product : Product) (pictures : List ProductImage)
      → products.one (λ p. p.product_id == q.id) s.products ≡ done product
      → images.all (λ i. i.product_id == product.product_id) s.images ≡ done pictures
      → (displayed : List (ReviewResponse A) × ℤ)
      → Displayed float products images reviews pages redis atoi loaded q s displayed
      → Ends
          (λ answer s'. (s' ≡ s) × Built q s answer)
          s
          (with_counts float products images reviews pages redis atoi loaded q s product pictures
            displayed s)
  unfolding Built
  with_counts-Built q s product pictures e1 e2 (rows, total_page) shows =
      reads-Ends (λ answer s'. (s' ≡ s) × Built q s answer) (IsCounted q.id s.reviews) s
        (λ stars. pure (record {
          detail = record {
            product = product;
            product_images = pictures;
            five_stars_review = rows;
            stars = stars;
          };
          total_page = total_page;
        }))
        (λ stars counted. (
          refl,
          (
            (products.one_found (λ p. p.product_id == q.id) s.products product e1).0,
            (products.one_found (λ p. p.product_id == q.id) s.products product e1).1,
            (λ k.
                images.all_found (λ i. i.product_id == product.product_id) s.images pictures k e2),
            shows,
            counted,
          ),
        ))
        (count_stars float products images reviews pages redis atoi loaded q.id s.reviews)
        (count_stars-IsCounted float products images reviews pages redis atoi loaded q.id s)

  build_product_detail-Built :
      (q : DetailQuery) (s : State A)
      → Ends
          (λ answer s'. (s' ≡ s) × Built q s answer)
          s
          (build_product_detail float products images reviews pages redis atoi loaded q s s)
  unfolding Built
  build_product_detail-Built q s =
      elim (Result-cases (products.one (λ p. p.product_id == q.id) s.products)) [
        | inr (wrong, e) ↦ rw e refl
        | inl (product, e1) ↦
            rw e1
              (elim (Result-cases (images.all (λ i. i.product_id == product.product_id) s.images)) [
                | inr (wrong, e) ↦ rw e refl
                | inl (pictures, e2) ↦ rw e2 (
                    reads-Ends (λ answer s'. (s' ≡ s) × Built q s answer)
                      (Displayed float products images reviews pages redis atoi loaded q s) s
                      (with_counts float products images reviews pages redis atoi loaded q s product
                        pictures)
                      (with_counts-Built q s product pictures e1 e2)
                      (review_display float products images reviews pages redis atoi loaded q.id
                        q.filter (wrap64 (wrap64 (q.page -ℤ pos 1) *ℤ pos 3)) s.reviews)
                      (review_display-Displayed float products images reviews pages redis atoi
                        loaded q (wrap64 (wrap64 (q.page -ℤ pos 1) *ℤ pos 3)) s))
              ])
      ]

  fetch_detail-Shows :
      (q : DetailQuery) (s : State A)
      → Ends
          (Shows float redis atoi q s)
          s
          (fetch_detail float products images reviews pages redis atoi loaded q s)
  unfolding Built Displayed
  fetch_detail-Shows q s =
      reads-Ends (Shows float redis atoi q s) (Built q s) s
        (store_detail float products images reviews pages redis atoi loaded q)
        (λ answer (its, there, pictures, shows, counted).
          (its, there, pictures, shows, counted, refl))
        (build_product_detail float products images reviews pages redis atoi loaded q s)
        (build_product_detail-Built q s)

  pub get_detail-Shows :
      (q : DetailQuery) (s : State A)
      → NoString (s.cache (detail_key q))
      → Ends
          (Shows float redis atoi q s)
          s
          (get_detail float products images reviews pages redis atoi loaded q s)
  unfolding get_detail
  get_detail-Shows q s absent = elim (Bool-cases (q.id == 0)) [
    | inl zero_id ↦ rw zero_id refl
    | inr given ↦
        rw (given, get_cache-NoString redis (detail_key q) (λ v. some v) s.cache absent)
          (fetch_detail-Shows q s)
  ]
