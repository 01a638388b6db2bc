-- ===== src/Product/DetailTests.antt =====
-- A product with two reviews whose details are shown, and a review that a cached page does not show.
use good_food_be.Base.{
  ℕ, ◌≡◌, refl, ap, subst, ◌≤◌, Bool-cases, ◌⊎◌, inl, inr, String, Option, none, some, [], ◌∷◌,
  ◌==◌, str_eq, if◌then◌else◌, arith,
}
use good_food_be.Base.Int.{ℤ, pos}
use good_food_be.Store.Memory.{memory_select, select_found}
use good_food_be.Cache.{Redis, str}
use good_food_be.Cache.Read.{NoString, Answers}
use good_food_be.Cache.Clear.{Deletes, same_key_refl}
use good_food_be.Cache.Server.{server, empty, put}
use good_food_be.Http.{ok, Ends}
use good_food_be.Paging.{page_count}
use good_food_be.Paging.Rational.{rational}
use good_food_be.Product.Tests.{products, images, rice}
use good_food_be.Product.Detail.{
  DetailPage, ReviewPages, Loaded, State, DetailQuery, detail_key, of_product, get_detail,
}
use good_food_be.Product.Displayed.{reviews_with}
use good_food_be.Product.Ratings.{IsRated, total_stars, get_detail-total_stars}
use good_food_be.Product.Unseen.{seen_after, handle_submit_review-get_detail}
use good_food_be.Review.{Review, review_key}
use good_food_be.Review.Upload.{ReviewSubmitRequest}
use good_food_be.Review.Submit.{State as SubmitState, handle_submit_review}
use good_food_be.Review.Tests.{reviews, images as review_images, good, moderate, form}

-- An account is a number here.
abbrev redis : Redis (DetailPage ℕ)
redis = server

abbrev pages : ReviewPages
pages = record { page = memory_select review_key; page_found = select_found review_key }

abbrev loaded : Review → Loaded ℕ
loaded r = record { account = r.account_id; product = rice; images = []; replies = [] }

abbrev atoi : String → Option ℤ
atoi s = if str_eq s "5" then some (pos 5) else none

abbrev all_of_rice : DetailQuery
all_of_rice = record { id = 1; filter = "All"; page = pos 1 }

abbrev praise : Review
praise = record good { product_id = 1; review_id = 4 }

abbrev shop : State ℕ
shop = record { products = rice ∷ []; images = []; reviews = praise ∷ []; cache = empty }

absent : NoString (shop.cache (detail_key all_of_rice))
absent v e = ground arith

rated : IsRated shop.reviews
rated k r e = elim (Bool-cases (4 == k)) [
  | inl here ↦
      let is : praise ≡ r =
        ap (λ o. elim o [ none ↦ praise | some x ↦ x ])
          (subst (λ b. (if b then some praise else none) ≡ some r) here e) in
      subst (λ (x : Review). (1 ≤ x.stars) × (x.stars ≤ 5)) is (omega arith)
  | inr other ↦ absurd (nothing (subst (λ b. (if b then some praise else none) ≡ some r) other e))
]
  where
    nothing : none ≡ some r → ⊥
    nothing h = ground arith

get_detail-total_stars_example :
    Ends
      (λ answer s'.
        (total_stars answer.detail.stars ≡ reviews_with (of_product 1) (praise ∷ []))
        × (answer.total_page ≡ page_count rational (pos (total_stars answer.detail.stars)) (pos 3)))
      shop
      (get_detail rational products images reviews pages redis atoi loaded all_of_rice shop)
get_detail-total_stars_example =
    get_detail-total_stars rational products images reviews pages redis atoi loaded all_of_rice shop
      refl absent rated

-- Its details, cached while it had no reviews.
abbrev unpraised : DetailPage ℕ
unpraised = record {
  detail = record {
    product = rice;
    product_images = [];
    five_stars_review = [];
    stars = record {
      five_stars = 0;
      four_stars = 0;
      three_stars = 0;
      two_stars = 0;
      one_stars = 0;
    };
  };
  total_page = pos 0;
}

abbrev visited : SubmitState (DetailPage ℕ)
visited = record {
  reviews = [];
  images = [];
  cache = put (detail_key all_of_rice) (some (str unpraised)) empty;
}

up : Deletes redis
up ks c e = ground arith

answers : Answers redis
answers k c v e = ground arith

cached : visited.cache (detail_key all_of_rice) ≡ some (str unpraised)
cached = ground (arith, same_key_refl (detail_key all_of_rice))

abbrev praise_rice : String → String ⊎ ReviewSubmitRequest
praise_rice json = inr (record { review = praise; review_images = [] })

abbrev praised : SubmitState (DetailPage ℕ)
praised =
    (handle_submit_review reviews review_images (some redis) (λ binaries. inr []) praise_rice
      moderate form visited).1

handle_submit_review-get_detail_example :
    get_detail rational products images reviews pages redis atoi loaded all_of_rice
      (seen_after (rice ∷ []) [] praised)
    ≡ (ok unpraised, seen_after (rice ∷ []) [] praised)
handle_submit_review-get_detail_example =
    handle_submit_review-get_detail rational products images reviews review_images pages redis atoi
      loaded praise_rice moderate (λ binaries. inr []) up answers all_of_rice form visited unpraised
      (rice ∷ []) [] refl cached
