-- ===== src/Chatbot/Schedule.antt =====
-- The goroutines of place_order in any order. Each makes one step: respChan has room for one answer, and a
-- goroutine that finds it full waits; errChan has room for all of them. A goroutine that panics ends the process, since
-- none of them recovers.
use good_food_be.Base.{
  ℕ, ◌≡◌, suc, ◌+◌, String, Bool, true, false, Option, none, some, List, [], ◌∷◌, ◌++◌, length,
  arith,
}
use good_food_be.Cart.{CartDetailResponse}
use good_food_be.Address.{Address}
use good_food_be.Http.{Response, ok, error}
use good_food_be.Chatbot.{Outcome, answers, fails, adds, panics, Reply, said, ready}

-- `waiting` are the goroutines that have not made their step; `responses` and `errors` are the channels; `crashed` is
-- whether the process has ended.
pub record Run (P : Type 0) : Type 0 where
  pub waiting : List (Outcome P)
  pub responses : List String
  pub errors : List String
  pub carts : List (CartDetailResponse P)
  pub crashed : Bool

module _ {P : Type 0} where
  abbrev pub begin : List (Outcome P) → Run P
  begin outcomes = record {
    waiting = outcomes;
    responses = [];
    errors = [];
    carts = [];
    crashed = false;
  }

  -- Any goroutine may be the next, until the process ends; the others are `before` and `after` it.
  pub data Step (s t : Run P) : Type 0 where
    answers_first :
        (before after : List (Outcome P)) (text : String)
        → s.crashed ≡ false
        → s.waiting ≡ before ++ (answers text ∷ after)
        → s.responses ≡ []
        → t ≡ record s { waiting = before ++ after; responses = text ∷ [] }
        → Step s t
    fails_too :
        (before after : List (Outcome P)) (wrong : String)
        → s.crashed ≡ false
        → s.waiting ≡ before ++ (fails wrong ∷ after)
        → t ≡ record s { waiting = before ++ after; errors = s.errors ++ (wrong ∷ []) }
        → Step s t
    adds_one :
        (before after : List (Outcome P)) (cart : CartDetailResponse P)
        → s.crashed ≡ false
        → s.waiting ≡ before ++ (adds cart ∷ after)
        → t ≡ record s { waiting = before ++ after; carts = s.carts ++ (cart ∷ []) }
        → Step s t
    panics_one :
        (before after : List (Outcome P))
        → s.crashed ≡ false
        → s.waiting ≡ before ++ (panics ∷ after)
        → t ≡ record s { crashed = true }
        → Step s t

  pub data Reach (s : Run P) : Run P → Type 0 where
    here : Reach s s
    next : {t u : Run P} → Reach s t → Step t u → Reach s u

  -- Behind wg.Wait(), when no goroutine is left.
  abbrev pub or_ready :
      List String → List (CartDetailResponse P) → Option Address → String → Response ⊥ (Reply P)
  or_ready (wrong ∷ errors) carts address payment = error 500 wrong
  or_ready [] carts address payment = ok (ready carts address payment)

  abbrev pub answered :
      List String
      → List String
      → List (CartDetailResponse P)
      → Option Address
      → String
      → Response ⊥ (Reply P)
  answered (text ∷ responses) errors carts address payment = ok (said text)
  answered [] errors carts address payment = or_ready errors carts address payment

  -- The answer of place_order, if all its goroutines have ended.
  unfoldable pub finish : Run P → Option Address → String → Option (Response ⊥ (Reply P))
  finish run address payment = elim run.waiting [
    | [] ↦ some (answered run.responses run.errors run.carts address payment)
    | x ∷ xs ↦ none
  ]

  -- How many goroutines have an answer to send.
  unfoldable pub answering : List (Outcome P) → ℕ
  answering [] = 0
  answering (answers text ∷ rest) = suc (answering rest)
  answering (fails wrong ∷ rest) = answering rest
  answering (adds cart ∷ rest) = answering rest
  answering (panics ∷ rest) = answering rest

  -- How many goroutines panic.
  unfoldable pub panicking : List (Outcome P) → ℕ
  panicking [] = 0
  panicking (answers text ∷ rest) = panicking rest
  panicking (fails wrong ∷ rest) = panicking rest
  panicking (adds cart ∷ rest) = panicking rest
  panicking (panics ∷ rest) = suc (panicking rest)

  pub answering-append :
      (xs ys : List (Outcome P)) → answering (xs ++ ys) ≡ answering xs + answering ys
  unfolding answering
  answering-append [] ys = ground arith
  answering-append (answers text ∷ xs) ys = ground (arith, answering-append xs ys)
  answering-append (fails wrong ∷ xs) ys = answering-append xs ys
  answering-append (adds cart ∷ xs) ys = answering-append xs ys
  answering-append (panics ∷ xs) ys = answering-append xs ys

  pub panicking-append :
      (xs ys : List (Outcome P)) → panicking (xs ++ ys) ≡ panicking xs + panicking ys
  unfolding panicking
  panicking-append [] ys = ground arith
  panicking-append (answers text ∷ xs) ys = panicking-append xs ys
  panicking-append (fails wrong ∷ xs) ys = panicking-append xs ys
  panicking-append (adds cart ∷ xs) ys = panicking-append xs ys
  panicking-append (panics ∷ xs) ys = ground (arith, panicking-append xs ys)

  pub length-append : (xs ys : List (Outcome P)) → length (xs ++ ys) ≡ length xs + length ys
  length-append [] ys = ground arith
  length-append (x ∷ xs) ys = ground (arith, length-append xs ys)
