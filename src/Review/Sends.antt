-- ===== src/Review/Sends.antt =====
-- The steps of the goroutines of FetchReviewData, and what holds between them.
use good_food_be.Base.{
  ◌+◌, ◌≡◌, ◌⊎◌, ◌≤◌, refl, inl, inr, String, Bool, true, false, Option, none, some, List, [], ◌∷◌,
  ◌++◌, length, All, if◌then◌else◌, arith, Elem, ltb,
}
use good_food_be.Store.{no_rows, fault, message, Result, done, failed}
use good_food_be.Review.{Review, ReviewImage, Reply}
use good_food_be.Review.Fetch.{
  Queries, Shared, launched, Goroutine, review_goroutine, images_goroutine, reply_goroutine,
  review_step, images_step, reply_step, step,
}

-- What a goroutine's query makes of its variable and of the channel.
abbrev pub found : {A : Type 0} → Result A → Option A
found (done a) = some a
found (failed e) = none

abbrev pub found_images : Result (List ReviewImage) → List ReviewImage
found_images (done imgs) = imgs
found_images (failed e) = []

abbrev pub errors_of : {A : Type 0} → Result A → List String
errors_of (done a) = []
errors_of (failed e) = message e ∷ []

abbrev pub reply_errors : Result Reply → List String
reply_errors (done a) = []
reply_errors (failed no_rows) = []
reply_errors (failed (fault text)) = text ∷ []

-- All the errors that the three goroutines send.
abbrev pub all_errors : Queries → List String
all_errors q = errors_of q.for_review ++ (errors_of q.for_images ++ reply_errors q.for_reply)

abbrev pub when {ℓ} : {A : Type ℓ} → Bool → A → A → A
when b x y = if b then x else y

pub record Consistent (q : Queries) (s : Shared) : Type 0 where
  pub review_is : s.review ≡ when s.reviewed (found q.for_review) none
  pub images_is : s.images ≡ when s.imaged (found_images q.for_images) []
  pub reply_is : s.reply ≡ when s.replied (found q.for_reply) none
  pub sent :
      length s.errors
      ≡ when s.reviewed (length (errors_of q.for_review)) 0
        + when s.imaged (length (errors_of q.for_images)) 0
        + when s.replied (length (reply_errors q.for_reply)) 0
  pub theirs : All (λ e. Elem e (all_errors q)) s.errors

length-snoc : (xs : List String) (x : String) → length (xs ++ x ∷ []) ≡ length xs + 1
length-snoc [] x = refl
length-snoc (y ∷ ys) x = omega (arith, length-snoc ys x)

All-snoc :
    (P : String → Type 0) (xs : List String) (x : String) → All P xs → P x → All P (xs ++ x ∷ [])
All-snoc P [] x all p = (p, tt)
All-snoc P (y ∷ ys) x (here, there) p = (here, All-snoc P ys x there p)

errors_of_short : {A : Type 0} (r : Result A) → length (errors_of r) ≤ 1
errors_of_short (done a) = omega arith
errors_of_short (failed e) = omega arith

reply_errors_short : (r : Result Reply) → length (reply_errors r) ≤ 1
reply_errors_short (done a) = omega arith
reply_errors_short (failed no_rows) = omega arith
reply_errors_short (failed (fault text)) = omega arith

Elem-left : (x : String) (xs ys : List String) → Elem x xs → Elem x (xs ++ ys)
Elem-left x [] ys at = elim at [ ]
Elem-left x (y ∷ xs) ys (inl e) = inl e
Elem-left x (y ∷ xs) ys (inr at) = inr (Elem-left x xs ys at)

Elem-right : (x : String) (xs ys : List String) → Elem x ys → Elem x (xs ++ ys)
Elem-right x [] ys at = at
Elem-right x (y ∷ xs) ys at = inr (Elem-right x xs ys at)

abbrev pub queries : Result Review → Result (List ReviewImage) → Result Reply → Queries
queries r i p = record { for_review = r; for_images = i; for_reply = p }

pub launched-Consistent : (q : Queries) → Consistent q launched
launched-Consistent q = record {
  review_is = refl;
  images_is = refl;
  reply_is = refl;
  sent = refl;
  theirs = tt;
}

-- A goroutine that has not ended finds room in the channel.
has_room_for :
    (q : Queries) (s : Shared)
    → Consistent q s
    → (s.reviewed ≡ false) ⊎ (s.imaged ≡ false) ⊎ (s.replied ≡ false)
    → ltb (length s.errors) 3 ≡ true
has_room_for q s c (inl pending) =
    ground (arith, c.sent, errors_of_short q.for_images, reply_errors_short q.for_reply)
has_room_for q s c (inr (inl pending)) =
    ground (arith, c.sent, errors_of_short q.for_review, reply_errors_short q.for_reply)
has_room_for q s c (inr (inr pending)) =
    ground (arith, c.sent, errors_of_short q.for_review, errors_of_short q.for_images)

review_sends :
    (r : Result Review) (i : Result (List ReviewImage)) (p : Result Reply) (s : Shared)
    → Consistent (queries r i p) s
    → s.reviewed ≡ false
    → Consistent (queries r i p) (review_step r s) × ((review_step r s).reviewed ≡ true)
review_sends (done x) i p s c pending = (
  record {
    review_is = refl;
    images_is = c.images_is;
    reply_is = c.reply_is;
    sent = ground (arith, c.sent);
    theirs = c.theirs;
  },
  refl,
)
review_sends (failed e) i p s c pending =
    rw (has_room_for (queries (failed e) i p) s c (inl pending)) (
      record {
        review_is = ground (arith, c.review_is);
        images_is = c.images_is;
        reply_is = c.reply_is;
        sent = ground (arith, c.sent, length-snoc s.errors (message e));
        theirs = All-snoc _ s.errors (message e) c.theirs (inl refl);
      },
      refl,
    )

images_sends :
    (r : Result Review) (i : Result (List ReviewImage)) (p : Result Reply) (s : Shared)
    → Consistent (queries r i p) s
    → s.imaged ≡ false
    → Consistent (queries r i p) (images_step i s) × ((images_step i s).imaged ≡ true)
images_sends r (done x) p s c pending = (
  record {
    review_is = c.review_is;
    images_is = refl;
    reply_is = c.reply_is;
    sent = ground (arith, c.sent);
    theirs = c.theirs;
  },
  refl,
)
images_sends r (failed e) p s c pending =
    rw (has_room_for (queries r (failed e) p) s c (inr (inl pending))) (
      record {
        review_is = c.review_is;
        images_is = ground (arith, c.images_is);
        reply_is = c.reply_is;
        sent = ground (arith, c.sent, length-snoc s.errors (message e));
        theirs =
            All-snoc _ s.errors (message e) c.theirs
              (Elem-right (message e) (errors_of r) (message e ∷ reply_errors p) (inl refl));
      },
      refl,
    )

reply_sends :
    (r : Result Review) (i : Result (List ReviewImage)) (p : Result Reply) (s : Shared)
    → Consistent (queries r i p) s
    → s.replied ≡ false
    → Consistent (queries r i p) (reply_step p s) × ((reply_step p s).replied ≡ true)
reply_sends r i (done x) s c pending = (
  record {
    review_is = c.review_is;
    images_is = c.images_is;
    reply_is = refl;
    sent = ground (arith, c.sent);
    theirs = c.theirs;
  },
  refl,
)
reply_sends r i (failed no_rows) s c pending = (
  record {
    review_is = c.review_is;
    images_is = c.images_is;
    reply_is = ground (arith, c.reply_is);
    sent = ground (arith, c.sent);
    theirs = c.theirs;
  },
  refl,
)
reply_sends r i (failed (fault text)) s c pending =
    rw (has_room_for (queries r i (failed (fault text))) s c (inr (inr pending))) (
      record {
        review_is = c.review_is;
        images_is = c.images_is;
        reply_is = ground (arith, c.reply_is);
        sent = ground (arith, c.sent, length-snoc s.errors text);
        theirs = All-snoc _ s.errors text c.theirs (
            Elem-right text (errors_of r) (errors_of i ++ text ∷ [])
              (Elem-right text (errors_of i) (text ∷ []) (inl refl)));
      },
      refl,
    )

pub if_cases :
    {A : Type 0} (P : A → Type 0) (b : Bool) (x y : A)
    → (b ≡ true → P x)
    → (b ≡ false → P y)
    → P (if b then x else y)
if_cases P true x y yes_case no_case = yes_case refl
if_cases P false x y yes_case no_case = no_case refl

abbrev pub ended : Goroutine → Shared → Bool
ended review_goroutine s = s.reviewed
ended images_goroutine s = s.imaged
ended reply_goroutine s = s.replied

-- A step of a goroutine never waits: it ends it.
pub step-Consistent :
    (q : Queries) (g : Goroutine) (s : Shared)
    → Consistent q s
    → Consistent q (step q g s) × (ended g (step q g s) ≡ true)
unfolding step
step-Consistent q review_goroutine s c =
    if_cases (λ x. Consistent q x × (ended review_goroutine x ≡ true)) s.reviewed s
      (review_step q.for_review s) (λ over. (c, over))
      (review_sends q.for_review q.for_images q.for_reply s c)
step-Consistent q images_goroutine s c =
    if_cases (λ x. Consistent q x × (ended images_goroutine x ≡ true)) s.imaged s
      (images_step q.for_images s) (λ over. (c, over))
      (images_sends q.for_review q.for_images q.for_reply s c)
step-Consistent q reply_goroutine s c =
    if_cases (λ x. Consistent q x × (ended reply_goroutine x ≡ true)) s.replied s
      (reply_step q.for_reply s) (λ over. (c, over))
      (reply_sends q.for_review q.for_images q.for_reply s c)
