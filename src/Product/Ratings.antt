-- ===== src/Product/Ratings.antt =====
-- The five counts of countStars against the number of pages that reviewDisplay finds.
use good_food_be.Base.{
  ℕ, ◌≡◌, ◌≤◌, ◌+◌, refl, sym, ap, ◌∙◌, inl, inr, String, Option, none, some, List, [], ◌∷◌,
  Option-cases, Bool, Bool-cases, suc, if◌then◌else◌, str_eq_iff, arith,
}
use good_food_be.Base.Int.{ℤ, pos}
use good_food_be.Store.{get, tally}
use good_food_be.Cache.{Redis}
use good_food_be.Cache.Read.{NoString}
use good_food_be.Http.{Ends}
use good_food_be.Http.Steps.{Ends-map}
use good_food_be.Paging.{Float64, page_count}
use good_food_be.Product.{ProductTable, ImageTable}
use good_food_be.Product.Detail.{
  Star, DetailPage, State, Loaded, ReviewPages, of_product, with_stars, DetailQuery, detail_key,
  review_condition, get_detail,
}
use good_food_be.Product.Displayed.{reviews_with, IsCounted}
use good_food_be.Product.Shown.{Shows, get_detail-Shows}
use good_food_be.Review.{Review, ReviewTable, review_key}

-- Every review of the table has between one and five stars.
abbrev pub IsRated : List Review → Type 0
IsRated t = (k : ℕ) (r : Review) → get review_key k t ≡ some r → (1 ≤ r.stars) × (r.stars ≤ 5)

abbrev pub total_stars : Star → ℕ
total_stars s = s.one_stars + s.two_stars + s.three_stars + s.four_stars + s.five_stars

tally-out :
    (p : Review → Bool) (t rs : List Review) (r : Review)
    → get review_key r.review_id t ≡ none
    → tally review_key p t (r ∷ rs) ≡ tally review_key p t rs
unfolding tally
tally-out p t rs r out = rw (tally, out) refl

tally-found :
    (p : Review → Bool) (t rs : List Review) (r x : Review)
    → get review_key r.review_id t ≡ some x
    → tally review_key p t (r ∷ rs)
      ≡ (if p x then suc (tally review_key p t rs) else tally review_key p t rs)
unfolding tally
tally-found p t rs r x found = elim (Bool-cases (p x)) [
  | inl meets ↦ rw (tally, found, meets) refl
  | inr fails ↦ rw (tally, found, fails) refl
]

ratings : ℕ → List Review → List Review → ℕ
ratings id t rs =
    tally review_key (with_stars id (pos 1)) t rs
    + tally review_key (with_stars id (pos 2)) t rs
    + tally review_key (with_stars id (pos 3)) t rs
    + tally review_key (with_stars id (pos 4)) t rs
    + tally review_key (with_stars id (pos 5)) t rs

ratings-of_product :
    (id : ℕ) (t rs : List Review)
    → IsRated t
    → ratings id t rs ≡ tally review_key (of_product id) t rs
unfolding ratings tally
ratings-of_product id t [] rated = refl
ratings-of_product id t (r ∷ rs) rated = elim (Option-cases (get review_key r.review_id t)) [
  | inl out ↦ ground (
    arith,
    ratings-of_product id t rs rated,
    tally-out (with_stars id (pos 1)) t rs r out,
    tally-out (with_stars id (pos 2)) t rs r out,
    tally-out (with_stars id (pos 3)) t rs r out,
    tally-out (with_stars id (pos 4)) t rs r out,
    tally-out (with_stars id (pos 5)) t rs r out,
    tally-out (of_product id) t rs r out,
  )
  | inr (x, found) ↦ ground (
    arith,
    ratings-of_product id t rs rated,
    rated r.review_id x found,
    tally-found (with_stars id (pos 1)) t rs r x found,
    tally-found (with_stars id (pos 2)) t rs r x found,
    tally-found (with_stars id (pos 3)) t rs r x found,
    tally-found (with_stars id (pos 4)) t rs r x found,
    tally-found (with_stars id (pos 5)) t rs r x found,
    tally-found (of_product id) t rs r x found,
  )
]

stars_whole :
    {A : Type 0} (id : ℕ) (s : State A) (stars : Star)
    → IsRated s.reviews
    → IsCounted id s.reviews stars
    → total_stars stars ≡ reviews_with (of_product id) s.reviews
unfolding ratings
stars_whole id s stars rated (one, two, three, four, five) =
    omega (arith, ratings-of_product id s.reviews s.reviews rated)

module _ {F A : Type 0} (float : Float64 F) (products : ProductTable) (images : ImageTable)
    (reviews : ReviewTable) (pages : ReviewPages) (redis : Redis (DetailPage A))
    (atoi : String → Option ℤ) (loaded : Review → Loaded A) where
  of_all :
      (q : DetailQuery) (condition : Review → Bool)
      → q.filter ≡ "All"
      → review_condition atoi q.id q.filter ≡ some condition
      → condition ≡ of_product q.id
  unfolding review_condition
  of_all q condition all valid =
      let found : some (of_product q.id) ≡ some condition =
        sym (rw (review_condition, (str_eq_iff q.filter "All").1 all) refl) ∙ valid in
      ap (λ o. elim o [ none ↦ of_product q.id | some p ↦ p ]) (sym found)

  -- Where every review has between one and five stars and no string is cached for the query, the answer of
  -- GetDetail to the filter "All" fits together: its five counts add up to the number of the product's
  -- reviews, and its number of pages is that of as many reviews, three on a page. With any other answer
  -- nothing changes.
  pub get_detail-total_stars :
      (q : DetailQuery) (s : State A)
      → q.filter ≡ "All"
      → NoString (s.cache (detail_key q))
      → IsRated s.reviews
      → Ends
          (λ answer s'.
            (total_stars answer.detail.stars ≡ reviews_with (of_product q.id) s.reviews)
            × (answer.total_page
                ≡ page_count float (pos (total_stars answer.detail.stars)) (pos 3)))
          s
          (get_detail float products images reviews pages redis atoi loaded q s)
  get_detail-total_stars q s all absent rated =
      Ends-map (Shows float redis atoi q s) _ s
        (λ answer s' (its, there, pictures, (condition, valid, shows, paged), counted, same).
          let sum : total_stars answer.detail.stars ≡ reviews_with (of_product q.id) s.reviews =
            stars_whole q.id s answer.detail.stars rated counted in
          (
            sum,
            paged
                ∙ ap
                    (λ (p : Review → Bool).
                      page_count float (pos (reviews_with p s.reviews)) (pos 3))
                    (of_all q condition all valid)
                ∙ ap (λ n. page_count float (pos n) (pos 3)) (sym sum),
          ))
        (get_detail float products images reviews pages redis atoi loaded q s)
        (get_detail-Shows float products images reviews pages redis atoi loaded q s absent)
