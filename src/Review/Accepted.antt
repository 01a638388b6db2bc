-- ===== src/Review/Accepted.antt =====
-- What HandleSubmitReview and HandleUpdateReview let pass before they write.
use good_food_be.Base.{
  ℕ, ◌≡◌, ◌≢◌, refl, sym, ap, ◌∙◌, subst, ◌⊎◌, inl, inr, String, false, List, [], ◌∷◌, All, str_eq,
  Bool-cases, Sum-cases, arith,
}
use good_food_be.Http.{Action, ◌>>=◌, bind_ok, bind_error, Response, ok, error, error_struct, panic}
use good_food_be.Review.Upload.{
  ReviewSubmitRequest, ImageDetectionResult, ReviewContentDetection, Form, FormFile, Binaries,
  read_files, check_images, check_content, accept,
}

-- The comment is not labelled toxic, and no image that the microservice lists is marked as nudity or violence. Of a file
-- that it does not list nothing is known.
abbrev pub IsClean : ReviewContentDetection → Type 0
IsClean result =
    (str_eq result.label "toxic" ≡ false)
    × All (λ img. (img.nsfw ≡ false) × (img.violent ≡ false)) result.images

check_images-All :
    (images : List ImageDetectionResult)
    → check_images images ≡ inr tt
    → All (λ img. (img.nsfw ≡ false) × (img.violent ≡ false)) images
check_images-All [] e = tt
check_images-All (img ∷ images) e =
    ((ground (arith, e), ground (arith, e)), check_images-All images (ground (arith, e)))

check_content-IsClean :
    (result : ReviewContentDetection) → check_content result ≡ inr tt → IsClean result
check_content-IsClean result e =
    (ground (arith, e), check_images-All result.images (ground (arith, e)))

abbrev un_inr : {A B : Type 0} → B → A ⊎ B → B
un_inr b (inl a) = b
un_inr b (inr b') = b'

inr-injective : {A B : Type 0} {x y : B} → ◌≡◌ {A = A ⊎ B} (inr x) (inr y) → x ≡ y
inr-injective {x = x} e = ap (un_inr x) e

check_images-clean :
    (images : List ImageDetectionResult)
    → All (λ img. (img.nsfw ≡ false) × (img.violent ≡ false)) images
    → check_images images ≡ inr tt
check_images-clean [] h = refl
check_images-clean (img ∷ images) h = rw (h.0.0, h.0.1) (check_images-clean images h.1)

IsClean-check_content :
    (result : ReviewContentDetection) → IsClean result → check_content result ≡ inr tt
IsClean-check_content result h = rw (h.0) (check_images-clean result.images h.1)

module _ (unmarshal : String → String ⊎ ReviewSubmitRequest)
    (moderate : String → Binaries → String ⊎ ReviewContentDetection) where
  -- The form holds the review, and what the microservice answers on the comment and the contents of its files is clean.
  abbrev pub IsAccepted : Form → ReviewSubmitRequest → Binaries → Type 0
  IsAccepted form body binaries =
      (str_eq form.review_json "" ≡ false)
      × (unmarshal form.review_json ≡ inr body)
      × ((files : List FormFile) × (form.files ≡ inr files)
          × (read_files (inr []) files ≡ inr binaries))
      × ((result : ReviewContentDetection) × (moderate body.review.comment binaries ≡ inr result)
          × IsClean result)

  abbrev pub Accepts :
      {S : Type 0} → Form → S → Response ⊥ (ReviewSubmitRequest × Binaries) × S → Type 0
  Accepts form s (ok (body, binaries), t) = (t ≡ s) × IsAccepted form body binaries
  Accepts form s (error code text, t) = (t ≡ s) × (code ≢ 200)
  Accepts form s (error_struct code e, t) = ⊥
  Accepts form s (panic, t) = ⊥

  checked :
      {S : Type 0} (form : Form) (s : S) (body : ReviewSubmitRequest) (files : List FormFile)
      (binaries : Binaries) (result : ReviewContentDetection)
      → unmarshal form.review_json ≡ inr body
      → form.files ≡ inr files
      → read_files (inr []) files ≡ inr binaries
      → moderate body.review.comment binaries ≡ inr result
      → str_eq form.review_json "" ≡ false
      → Accepts form s (accept unmarshal moderate form s)
  unfolding accept
  checked form s body files binaries result parsed given read found here =
      elim (Sum-cases (check_content result)) [
        | inl (wrong, bad) ↦ rw (here, parsed, given, read, found, bad) (refl, λ x. ground arith)
        | inr (_, good) ↦
            rw (here, parsed, given, read, found, good)
              (
                refl,
                (
                  here,
                  parsed,
                  (files, refl, read),
                  (result, found, check_content-IsClean result good),
                ),
              )
      ]

  accept-Accepts :
      {S : Type 0} (form : Form) (s : S) → Accepts form s (accept unmarshal moderate form s)
  unfolding accept
  accept-Accepts form s = elim (Bool-cases (str_eq form.review_json "")) [
    | inl empty ↦ rw (empty) (refl, λ x. ground arith)
    | inr here ↦ elim (Sum-cases (unmarshal form.review_json)) [
      | inl (wrong, e) ↦ rw (here, e) (refl, λ x. ground arith)
      | inr (body, parsed) ↦ elim (Sum-cases form.files) [
        | inl (wrong, e) ↦ rw (here, parsed, e) (refl, λ x. ground arith)
        | inr (files, given) ↦ elim (Sum-cases (read_files (inr []) files)) [
          | inl (wrong, e) ↦ rw (here, parsed, given, e) (refl, λ x. ground arith)
          | inr (binaries, read) ↦ elim (Sum-cases (moderate body.review.comment binaries)) [
            | inl (wrong, e) ↦ rw (here, parsed, given, read, e) (refl, λ x. ground arith)
            | inr (result, found) ↦
                checked form s body files binaries result parsed given read found here
          ]
        ]
      ]
    ]
  ]

  -- Of a form only one body and one list of contents pass.
  pub IsAccepted-unique :
      (form : Form) (body body' : ReviewSubmitRequest) (binaries binaries' : Binaries)
      → IsAccepted form body binaries
      → IsAccepted form body' binaries'
      → (body ≡ body') × (binaries ≡ binaries')
  IsAccepted-unique form body body' binaries binaries' h h' =
      let (given, parsed, (files, there, read), found) = h in
      let (given', parsed', (files', there', read'), found') = h' in
      let same : files ≡ files' = inr-injective (sym there ∙ there') in
      (
        inr-injective (sym parsed ∙ parsed'),
        inr-injective (sym read ∙ ap (read_files (inr [])) same ∙ read'),
      )

  -- Such a form does pass.
  IsAccepted-accept :
      {S : Type 0} (form : Form) (s : S) (body : ReviewSubmitRequest) (binaries : Binaries)
      → IsAccepted form body binaries
      → accept unmarshal moderate form s ≡ (ok (body, binaries), s)
  unfolding accept
  IsAccepted-accept form s body binaries h =
      let (given, parsed, (files, there, read), (result, found, clean)) = h in
      rw (given, parsed, there, read, found, IsClean-check_content result clean) refl

  refused_form :
      {S : Type 0} (form : Form) (s t : S) (code : ℕ) (text : String)
      → accept unmarshal moderate form s ≡ (error code text, t)
      → (body : ReviewSubmitRequest) (binaries : Binaries) → IsAccepted form body binaries
      → ⊥
  refused_form form s t code text e body binaries h =
      not_both (ap (λ x. x.0) (sym e ∙ IsAccepted-accept form s body binaries h))
    where
      not_both :
          ◌≡◌ {A = Response ⊥ (ReviewSubmitRequest × Binaries)}
            (error code text)
            (ok (body, binaries))
          → ⊥
      not_both e = ground arith

  accepted_or_not :
      {S B : Type 0} (form : Form) (s : S) (rest : ReviewSubmitRequest × Binaries → Action S ⊥ B)
      (Q : Response ⊥ B × S → Type 0) (run : Response ⊥ (ReviewSubmitRequest × Binaries) × S)
      → accept unmarshal moderate form s ≡ run
      → Accepts form s run
      → ((body : ReviewSubmitRequest) (binaries : Binaries)
          → IsAccepted form body binaries
          → Q (rest (body, binaries) s))
      → ((code : ℕ) (text : String)
          → ((body : ReviewSubmitRequest) (binaries : Binaries) → IsAccepted form body binaries → ⊥)
          → Q (error code text, s))
      → Q ((accept unmarshal moderate form >>= rest) s)
  accepted_or_not form s rest Q (ok (body, binaries), t) e (same, h) accepted refused =
      subst Q (sym (bind_ok (accept unmarshal moderate form) rest e))
        (subst (λ x. Q (rest (body, binaries) x)) (sym same) (accepted body binaries h))
  accepted_or_not form s rest Q (error code text, t) e (same, h) accepted refused =
      subst Q (sym (bind_error (accept unmarshal moderate form) rest e)) (
        subst (λ x. Q (error code text, x)) (sym same)
          (refused code text (refused_form form s t code text e)))
  accepted_or_not form s rest Q (error_struct code e', t) e h accepted refused = elim h [ ]
  accepted_or_not form s rest Q (panic, t) e h accepted refused = elim h [ ]

  -- What follows the moderation runs with an accepted form, or the request ends with an error before it.
  pub accept_then :
      {S B : Type 0} (form : Form) (s : S) (rest : ReviewSubmitRequest × Binaries → Action S ⊥ B)
      (Q : Response ⊥ B × S → Type 0)
      → ((body : ReviewSubmitRequest) (binaries : Binaries)
          → IsAccepted form body binaries
          → Q (rest (body, binaries) s))
      → ((code : ℕ) (text : String)
          → ((body : ReviewSubmitRequest) (binaries : Binaries) → IsAccepted form body binaries → ⊥)
          → Q (error code text, s))
      → Q ((accept unmarshal moderate form >>= rest) s)
  accept_then form s rest Q accepted refused =
      accepted_or_not form s rest Q (accept unmarshal moderate form s) refl (accept-Accepts form s)
        accepted refused
