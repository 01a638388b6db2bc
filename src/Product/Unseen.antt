-- ===== src/Product/Unseen.antt =====
-- What the cache still answers for a product's details after HandleSubmitReview.
use good_food_be.Base.{
  ℕ, ◌≡◌, refl, ap, ◌∙◌, ◌⊎◌, inl, inr, String, false, Option, none, some, List, [], ◌∷◌, ◌++◌, map,
  Sum-cases, ◌==◌, if◌then◌else◌,
}
use good_food_be.Base.Int.{ℤ}
use good_food_be.Store.{Result-cases, message}
use good_food_be.Cache.{Cache, same_key, listed, str, Redis, hit, get_cache, clear_cache}
use good_food_be.Cache.Read.{Answers}
use good_food_be.Cache.Clear.{Deletes, clear_cache_exact}
use good_food_be.Http.{Response, ok, error, bind_ok, bind_error}
use good_food_be.Paging.{Float64}
use good_food_be.Product.{Product, ProductImage, ProductTable, ImageTable}
use good_food_be.Product.Detail.{
  DetailPage, State, DetailQuery, detail_key, Loaded, ReviewPages, get_detail,
}
use good_food_be.Review.{Review, ReviewImage, ReviewTable, ImageTable as ReviewImageTable}
use good_food_be.Review.Upload.{ReviewSubmitRequest, ReviewContentDetection, Form, Binaries}
use good_food_be.Review.Moderated.{after_images}
use good_food_be.Review.Accepted.{accept_then}
use good_food_be.Review.Submit.{
  State as SubmitState, detail_keys, image_at, insert_images, insert_review, submit_images,
  submit_accepted, handle_submit_review,
}

images_cache :
    {V : Type 0} (images : ReviewImageTable) (list : List ReviewImage) (s : SubmitState V)
    → (insert_images images list s).1.cache ≡ s.cache
images_cache images [] s = refl
images_cache images (img ∷ rest) s = elim (Result-cases (images.insert img s.images)) [
  | inl ((row, t), e) ↦ rw (e, insert_images) (images_cache images rest (record s { images = t }))
  | inr (e', e) ↦ rw (e, insert_images) refl
]

module _ {A : Type 0} (redis : Redis (DetailPage A)) (up : Deletes redis) where
  keys_kept : (q : DetailQuery) (id : ℕ) → listed (detail_key q) (detail_keys id ∷ []) ≡ false
  unfolding same_key
  keys_kept q id = refl

  clear_kept :
      (q : DetailQuery) (id : ℕ) (c : Cache (DetailPage A))
      → clear_cache (some redis) (detail_keys id ∷ []) c (detail_key q) ≡ c (detail_key q)
  clear_kept q id c =
      clear_cache_exact redis up (detail_keys id ∷ []) c (detail_key q)
      ∙ ap (λ x. if x then none else c (detail_key q)) (keys_kept q id)

module _ {A : Type 0} (reviews : ReviewTable) (images : ReviewImageTable)
    (redis : Redis (DetailPage A)) (up : Deletes redis)
    (unmarshal : String → String ⊎ ReviewSubmitRequest)
    (moderate : String → Binaries → String ⊎ ReviewContentDetection)
    (upload : Binaries → String ⊎ List String) (q : DetailQuery) where
  -- The entry of the query is as it was.
  Keeps :
      SubmitState (DetailPage A)
      → Response ⊥ ReviewSubmitRequest × SubmitState (DetailPage A)
      → Type 0
  Keeps s run = run.1.cache (detail_key q) ≡ s.cache (detail_key q)

  submit_images_cache :
      (body : ReviewSubmitRequest) (binaries : Binaries) (row : Review)
      (s : SubmitState (DetailPage A))
      → (submit_images reviews images (some redis) upload body binaries row s).1.cache ≡ s.cache
  submit_images_cache body binaries row s = elim (Sum-cases (upload binaries)) [
    | inl (wrong, e) ↦ rw (e) refl
    | inr (urls, e) ↦
        let list : List ReviewImage = body.review_images ++ map (image_at row.review_id) urls in
        rw (e) (
          ap (λ t. t.cache)
            (after_images (insert_images images list s) s (record body { review = row }))
          ∙ images_cache images list s)
  ]

  accepted-Keeps :
      (s : SubmitState (DetailPage A)) (body : ReviewSubmitRequest) (binaries : Binaries)
      → Keeps s (submit_accepted reviews images (some redis) upload (body, binaries) s)
  unfolding Keeps
  accepted-Keeps s body binaries = elim (Result-cases (reviews.insert body.review s.reviews)) [
    | inl ((row, t), e) ↦
        let s' : SubmitState (DetailPage A) = record s {
          reviews = t;
          cache = clear_cache (some redis) (detail_keys row.product_id ∷ []) s.cache;
        } in
        let inserted : insert_review reviews images (some redis) upload body.review s
            ≡ (ok row, s') =
          rw e refl in
        ap (λ x. x.1.cache (detail_key q))
          (bind_ok (insert_review reviews images (some redis) upload body.review)
            (submit_images reviews images (some redis) upload body binaries) inserted)
        ∙ ap (λ c. c (detail_key q)) (submit_images_cache body binaries row s')
        ∙ clear_kept redis up q row.product_id s.cache
    | inr (wrong, e) ↦
        let refused : insert_review reviews images (some redis) upload body.review s
            ≡ (error 500 (message wrong), s) =
          rw e refl in
        ap (λ x. x.1.cache (detail_key q))
          (bind_error (insert_review reviews images (some redis) upload body.review)
            (submit_images reviews images (some redis) upload body binaries) refused)
  ]

  submit-Keeps :
      (form : Form) (s : SubmitState (DetailPage A))
      → Keeps s (handle_submit_review reviews images (some redis) upload unmarshal moderate form s)
  unfolding handle_submit_review Keeps
  submit-Keeps form s =
      accept_then unmarshal moderate form s (submit_accepted reviews images (some redis) upload)
        (Keeps s) (λ body binaries h. accepted-Keeps s body binaries)
        (λ code text none_passes. refl)

-- The tables and the cache as a request for a product's details meets them after a review was submitted.
abbrev pub seen_after :
    {A : Type 0} → List Product → List ProductImage → SubmitState (DetailPage A) → State A
seen_after products images s = record {
  products = products;
  images = images;
  reviews = s.reviews;
  cache = s.cache;
}

module _ {F A : Type 0} (float : Float64 F) (products : ProductTable) (images : ImageTable)
    (reviews : ReviewTable) (review_images : ReviewImageTable) (pages : ReviewPages)
    (redis : Redis (DetailPage A)) (atoi : String → Option ℤ) (loaded : Review → Loaded A)
    (unmarshal : String → String ⊎ ReviewSubmitRequest)
    (moderate : String → Binaries → String ⊎ ReviewContentDetection)
    (upload : Binaries → String ⊎ List String) where
  abbrev submitted : Form → SubmitState (DetailPage A) → SubmitState (DetailPage A)
  submitted form s =
      (handle_submit_review reviews review_images (some redis) upload unmarshal moderate form s).1

  -- On a server that answers, the details of a product that are cached for a query are answered as they were
  -- after any HandleSubmitReview, also where it has added a review of this product: ClearCache deletes the set
  -- of keys before it reads it, and so clears no page of details. The ID of the query must not be 0.
  pub handle_submit_review-get_detail :
      (up : Deletes redis) (answers : Answers redis) (q : DetailQuery) (form : Form)
      (s : SubmitState (DetailPage A)) (answer : DetailPage A) (product_rows : List Product)
      (image_rows : List ProductImage)
      → (q.id == 0) ≡ false
      → s.cache (detail_key q) ≡ some (str answer)
      → get_detail float products images reviews pages redis atoi loaded q
          (seen_after product_rows image_rows (submitted form s))
        ≡ (ok answer, seen_after product_rows image_rows (submitted form s))
  unfolding get_detail get_cache Keeps
  handle_submit_review-get_detail up answers q form s answer product_rows image_rows given cached =
      let kept = submit-Keeps reviews review_images redis up unmarshal moderate upload q form s in
      let found = answers (detail_key q) (submitted form s).cache answer (kept ∙ cached) in
      let looked : get_cache redis (detail_key q) (λ v. some v) (submitted form s).cache
          ≡ hit answer =
        rw (get_cache, found) refl in
      rw (given, looked) refl
