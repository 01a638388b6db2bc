-- ===== src/Product/Detail.antt =====
-- GetDetail of GoodFood-BE/internal/server/handlers/products.go with BuildProductDetail, reviewDisplay and
-- countStars of GoodFood-BE/internal/utils/products_helper.go. strconv.Atoi, the rows that a review refers to and
-- the SELECT of a page of reviews in the order of their keys are parameters.
use good_food_be.Base.{
  ℕ, ◌≡◌, ◌≤◌, String, Bool, true, ◌&&◌, ◌||◌, Option, none, some, List, [], ◌∷◌, map, length, All,
  ◌==◌, str_eq, if◌then◌else◌,
}
use good_food_be.Base.Int.{ℤ, pos, ◌-ℤ◌, ◌*ℤ◌, ltb_ℤ, eq_ℤ, wrap64}
use good_food_be.Store.{Result, done, get}
use good_food_be.Cache.{
  num, int, text, Key, Cache, Redis, Lookup, hit, unreadable, unavailable, get_cache, set_cache,
}
use good_food_be.Http.{ok, error, Action, ◌>>=◌, ◌>>◌, pure, error_if, or_message, read, write}
use good_food_be.Paging.{Float64, page_count}
use good_food_be.Product.{Product, ProductImage, ProductTable, ImageTable}
use good_food_be.Review.{Review, ReviewImage, Reply, ReviewTable, review_key}
use good_food_be.Review.Submit.{detail_keys}

-- dto.ReviewResponse, as far as reviewDisplay fills it; `A` is an account.
pub record ReviewResponse (A : Type 0) : Type 0 where
  pub review : Review
  pub review_account : A
  pub review_product : Product
  pub review_images : List ReviewImage
  pub review_reply : List Reply

-- dto.Star
pub record Star : Type 0 where
  pub five_stars : ℕ
  pub four_stars : ℕ
  pub three_stars : ℕ
  pub two_stars : ℕ
  pub one_stars : ℕ

-- dto.ProductDetailResponse
pub record ProductDetailResponse (A : Type 0) : Type 0 where
  pub product : Product
  pub product_images : List ProductImage
  pub five_stars_review : List (ReviewResponse A)
  pub stars : Star

-- What GetDetail answers, as it is cached too.
pub record DetailPage (A : Type 0) : Type 0 where
  pub detail : ProductDetailResponse A
  pub total_page : ℤ

pub record State (A : Type 0) : Type 0 where
  pub products : List Product
  pub images : List ProductImage
  pub reviews : List Review
  pub cache : Cache (DetailPage A)

-- The query parameters.
pub record DetailQuery : Type 0 where
  pub id : ℕ
  pub filter : String
  pub page : ℤ

abbrev pub detail_key : DetailQuery → Key
detail_key q = record {
  format = "product:detail:%d:filter=%s:page=%d";
  args = num q.id ∷ text q.filter ∷ int q.page ∷ [];
}

-- What the LEFT JOINs of qm.Load find for a review.
pub record Loaded (A : Type 0) : Type 0 where
  pub account : A
  pub product : Product
  pub images : List ReviewImage
  pub replies : List Reply

-- SELECT … WHERE p ORDER BY key LIMIT n OFFSET m, with n and m in this order, and what its success means.
pub record ReviewPages : Type 0 where
  pub page : (Review → Bool) → ℕ → ℤ → List Review → Result (List Review)
  pub page_found :
      (p : Review → Bool) (n : ℕ) (m : ℤ) (t rs : List Review)
      → page p n m t ≡ done rs
      → (length rs ≤ n) × All (λ r. (p r ≡ true) × (get review_key r.review_id t ≡ some r)) rs

abbrev pub of_product : ℕ → Review → Bool
of_product id r = r.product_id == id

abbrev pub with_stars : ℕ → ℤ → Review → Bool
with_stars id star r = of_product id r && eq_ℤ (pos r.stars) star

-- The WHERE of a filter; none is "invalid star filter".
unfoldable pub review_condition : (String → Option ℤ) → ℕ → String → Option (Review → Bool)
review_condition atoi id filter =
    if str_eq filter "All" then some (of_product id) else elim (atoi filter) [
      | none ↦ none
      | some star ↦
          if ltb_ℤ star (pos 1) || ltb_ℤ (pos 5) star then none else some (with_stars id star)
    ]

-- An optional value, or an error's text.
abbrev pub or_fail : {S E B : Type 0} → Option B → ℕ → String → Action S E B
or_fail none code wrong s = (error code wrong, s)
or_fail (some b) code wrong s = (ok b, s)

module _ {F A : Type 0} (float : Float64 F) (products : ProductTable) (images : ImageTable)
    (reviews : ReviewTable) (pages : ReviewPages) (redis : Redis (DetailPage A))
    (atoi : String → Option ℤ) (loaded : Review → Loaded A) where
  abbrev pub shown : Review → ReviewResponse A
  shown r = record {
    review = r;
    review_account = (loaded r).account;
    review_product = (loaded r).product;
    review_images = (loaded r).images;
    review_reply = (loaded r).replies;
  }

  abbrev pub review_display :
      ℕ → String → ℤ → List Review → Action (State A) ⊥ (List (ReviewResponse A) × ℤ)
  review_display id filter offset t = do
    condition ← or_fail (review_condition atoi id filter) 500 "invalid star filter"
    total ← or_message (reviews.count condition t) 500
    rows ← or_message (pages.page condition 3 offset t) 500
    pure (map shown rows, page_count float (pos total) (pos 3))

  -- The loop over the five ratings.
  abbrev pub count_stars : ℕ → List Review → Action (State A) ⊥ Star
  count_stars id t = do
    one ← or_message (reviews.count (with_stars id (pos 1)) t) 500
    two ← or_message (reviews.count (with_stars id (pos 2)) t) 500
    three ← or_message (reviews.count (with_stars id (pos 3)) t) 500
    four ← or_message (reviews.count (with_stars id (pos 4)) t) 500
    five ← or_message (reviews.count (with_stars id (pos 5)) t) 500
    pure (record {
      five_stars = five;
      four_stars = four;
      three_stars = three;
      two_stars = two;
      one_stars = one;
    })

  abbrev pub with_counts :
      DetailQuery
      → State A
      → Product
      → List ProductImage
      → List (ReviewResponse A) × ℤ
      → Action (State A) ⊥ (DetailPage A)
  with_counts q t product pictures (rows, total_page) = do
    stars ← count_stars q.id t.reviews
    pure (record {
      detail = record {
        product = product;
        product_images = pictures;
        five_stars_review = rows;
        stars = stars;
      };
      total_page = total_page;
    })

  abbrev pub build_product_detail : DetailQuery → State A → Action (State A) ⊥ (DetailPage A)
  build_product_detail q t = do
    product ← or_message (products.one (λ p. p.product_id == q.id) t.products) 500
    pictures ← or_message (images.all (λ i. i.product_id == product.product_id) t.images) 500
    displayed ← review_display q.id q.filter (wrap64 (wrap64 (q.page -ℤ pos 1) *ℤ pos 3)) t.reviews
    with_counts q t product pictures displayed

  abbrev pub store_detail : DetailQuery → DetailPage A → Action (State A) ⊥ (DetailPage A)
  store_detail q answer = do
    s ← read
    write (record s {
      cache = set_cache redis (detail_key q) answer (some (detail_keys q.id)) s.cache;
    })
    pure answer

  abbrev pub fetch_detail : DetailQuery → Action (State A) ⊥ (DetailPage A)
  fetch_detail q = do s ← read; answer ← build_product_detail q s; store_detail q answer

  abbrev pub cached_or_build :
      DetailQuery → Lookup (DetailPage A) → Action (State A) ⊥ (DetailPage A)
  cached_or_build q (hit answer) s = (ok answer, s)
  cached_or_build q unreadable s = fetch_detail q s
  cached_or_build q unavailable s = fetch_detail q s

  unfoldable pub get_detail : DetailQuery → Action (State A) ⊥ (DetailPage A)
  get_detail q = do
    error_if (q.id == 0) 400 "ID not found"
    s ← read
    cached_or_build q (get_cache redis (detail_key q) (λ v. some v) s.cache)
