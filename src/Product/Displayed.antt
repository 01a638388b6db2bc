-- ===== src/Product/Displayed.antt =====
-- What reviewDisplay and countStars of GoodFood-BE/internal/utils/products_helper.go find.
use good_food_be.Base.{
  ℕ, ◌≡◌, ◌≤◌, refl, inl, inr, String, Bool, true, Option, some, List, [], ◌∷◌, map, length, All,
  arith, Option-cases, ap,
}
use good_food_be.Base.Int.{ℤ, pos}
use good_food_be.Store.{Result-cases, done, get, tally}
use good_food_be.Cache.{Redis}
use good_food_be.Http.{Ends}
use good_food_be.Paging.{Float64, page_count}
use good_food_be.Product.{ProductTable, ImageTable}
use good_food_be.Product.Detail.{
  ReviewResponse, Star, DetailPage, State, DetailQuery, Loaded, ReviewPages, with_stars,
  review_condition, or_fail, shown, review_display, count_stars,
}
use good_food_be.Review.{Review, ReviewTable, review_key}

pub All-map :
    {A B : Type 0} (P : B → Type 0) (f : A → B) (xs : List A)
    → All (λ x. P (f x)) xs
    → All P (map f xs)
All-map P f [] all = tt
All-map P f (x ∷ xs) (here, there) = (here, All-map P f xs there)

length-map : {A B : Type 0} (f : A → B) (xs : List A) → length (map f xs) ≡ length xs
length-map f [] = refl
length-map f (x ∷ xs) = ground (arith, length-map f xs)

-- The number of reviews that meet a condition.
abbrev pub reviews_with : (Review → Bool) → List Review → ℕ
reviews_with p t = tally review_key p t t

-- At most three reviews, all of the table and of the filter's condition.
abbrev pub IsShown : {A : Type 0} → (Review → Bool) → List Review → List (ReviewResponse A) → Type 0
IsShown condition t rows =
    (length rows ≤ 3)
    × All (λ r. (condition r.review ≡ true) × (get review_key r.review.review_id t ≡ some r.review))
        rows

-- Each rating with the number of the product's reviews that give it.
abbrev pub IsCounted : ℕ → List Review → Star → Type 0
IsCounted id t stars =
    (stars.one_stars ≡ reviews_with (with_stars id (pos 1)) t)
    × (stars.two_stars ≡ reviews_with (with_stars id (pos 2)) t)
    × (stars.three_stars ≡ reviews_with (with_stars id (pos 3)) t)
    × (stars.four_stars ≡ reviews_with (with_stars id (pos 4)) t)
    × (stars.five_stars ≡ reviews_with (with_stars id (pos 5)) t)

module _ {F A : Type 0} (float : Float64 F) (products : ProductTable) (images : ImageTable)
    (reviews : ReviewTable) (pages : ReviewPages) (redis : Redis (DetailPage A))
    (atoi : String → Option ℤ) (loaded : Review → Loaded A) where
  unfoldable pub Displayed : DetailQuery → State A → List (ReviewResponse A) × ℤ → Type 0
  Displayed q s (rows, total_page) =
      (condition : Review → Bool) × (review_condition atoi q.id q.filter ≡ some condition)
      × IsShown condition s.reviews rows
      × (total_page ≡ page_count float (pos (reviews_with condition s.reviews)) (pos 3))

  displayed :
      (q : DetailQuery) (offset : ℤ) (s : State A) (condition : Review → Bool)
      → review_condition atoi q.id q.filter ≡ some condition
      → (total : ℕ) (rows : List Review) → reviews.count condition s.reviews ≡ done total
      → pages.page condition 3 offset s.reviews ≡ done rows
      → Displayed q s (
        map (shown float products images reviews pages redis atoi loaded) rows,
        page_count float (pos total) (pos 3),
      )
  unfolding Displayed
  displayed q offset s condition valid total rows counted found =
      let (few, all) = pages.page_found condition 3 offset s.reviews rows found in
      let it = shown float products images reviews pages redis atoi loaded in
      (
        condition,
        valid,
        (rw (length-map it rows) few, All-map _ it rows all),
        ap (λ n. page_count float (pos n) (pos 3))
            (reviews.count_found condition s.reviews total counted),
      )

  pub review_display-Displayed :
      (q : DetailQuery) (offset : ℤ) (s : State A)
      → Ends
          (λ r s'. (s' ≡ s) × Displayed q s r)
          s
          (review_display float products images reviews pages redis atoi loaded q.id q.filter offset
            s.reviews s)
  review_display-Displayed q offset s = elim (Option-cases (review_condition atoi q.id q.filter)) [
    | inl invalid ↦ rw (invalid, or_fail) refl
    | inr (condition, valid) ↦
        rw (valid, or_fail)
          (elim (Result-cases (reviews.count condition s.reviews)) [
            | inr (wrong, e) ↦ rw e refl
            | inl (total, counted) ↦
                rw counted (elim (Result-cases (pages.page condition 3 offset s.reviews)) [
                  | inr (wrong, e) ↦ rw e refl
                  | inl (rows, found) ↦
                      rw found
                        ((refl, displayed q offset s condition valid total rows counted found))
                ])
          ])
  ]

  pub count_stars-IsCounted :
      (id : ℕ) (s : State A)
      → Ends
          (λ stars s'. (s' ≡ s) × IsCounted id s.reviews stars)
          s
          (count_stars float products images reviews pages redis atoi loaded id s.reviews s)
  count_stars-IsCounted id s =
      elim (Result-cases (reviews.count (with_stars id (pos 1)) s.reviews)) [
        | inr (wrong, e) ↦ rw e refl
        | inl (one, e1) ↦
            rw e1 (elim (Result-cases (reviews.count (with_stars id (pos 2)) s.reviews)) [
              | inr (wrong, e) ↦ rw e refl
              | inl (two, e2) ↦
                  rw e2 (elim (Result-cases (reviews.count (with_stars id (pos 3)) s.reviews)) [
                    | inr (wrong, e) ↦ rw e refl
                    | inl (three, e3) ↦
                        rw e3
                          (elim (Result-cases (reviews.count (with_stars id (pos 4)) s.reviews)) [
                            | inr (wrong, e) ↦ rw e refl
                            | inl (four, e4) ↦
                                rw e4
                                  (elim (Result-cases
                                    (reviews.count (with_stars id (pos 5)) s.reviews)) [
                                      | inr (wrong, e) ↦ rw e refl
                                      | inl (five, e5) ↦ rw e5 (
                                        refl,
                                        (
                                          reviews.count_found (with_stars id (pos 1)) s.reviews one
                                              e1,
                                          reviews.count_found (with_stars id (pos 2)) s.reviews two
                                              e2,
                                          reviews.count_found (with_stars id (pos 3)) s.reviews
                                              three e3,
                                          reviews.count_found (with_stars id (pos 4)) s.reviews four
                                              e4,
                                          reviews.count_found (with_stars id (pos 5)) s.reviews five
                                              e5,
                                        ),
                                      )
                                    ])
                          ])
                  ])
            ])
      ]
