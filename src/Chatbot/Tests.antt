-- ===== src/Chatbot/Tests.antt =====
-- Orders of products that are not sold.
use good_food_be.Base.{ℕ, ◌≡◌, refl, String, false, some, none, List, [], ◌∷◌, ◌≤◌, arith}
use good_food_be.Base.Int.{pos}
use good_food_be.Store.{no_rows, failed}
use good_food_be.Chatbot.{Outcome, panics, outcome, asked_words, asked_panic}
use good_food_be.Chatbot.Schedule.{
  Run, begin, answers_first, Reach, here, next, finish, answering, panicking,
}
use good_food_be.Chatbot.Blocked.{Reach-finish}
use good_food_be.Chatbot.Progress.{CanEnd, Reach-CanEnd}

-- Every product is a number here, and none is found.
abbrev asked : String → Outcome ℕ
asked name =
    outcome (λ p. p) (λ question. asked_words "We do not sell it") (λ n. failed no_rows) (λ n. n) 1
      (record { product_name = some name; quantity = some (pos 1) })

abbrev one_asked : List (Outcome ℕ)
one_asked = asked "pho" ∷ []

abbrev two_asked : List (Outcome ℕ)
two_asked = asked "pho" ∷ asked "bun" ∷ []

abbrev answered_once : Run ℕ
answered_once = record {
  waiting = asked "bun" ∷ [];
  responses = "We do not sell it" ∷ [];
  errors = [];
  carts = [];
  crashed = false;
}

reach : Reach (begin two_asked) answered_once
unfolding outcome
reach = next here (answers_first [] (asked "bun" ∷ []) "We do not sell it" refl refl refl refl)

two_answering : 2 ≤ answering two_asked
unfolding answering outcome
two_answering = omega arith

one_answering : answering one_asked ≤ 1
unfolding answering outcome
one_answering = omega arith

none_panicking : panicking one_asked ≡ 0
unfolding panicking outcome
none_panicking = refl

-- A product with no quantity.
no_quantity :
    outcome {P = ℕ}
      (λ p. p)
      (λ question. asked_panic)
      (λ n. failed no_rows)
      (λ n. n)
      1
      (record { product_name = some "pho"; quantity = none })
    ≡ panics
unfolding outcome
no_quantity = refl

Reach-finish_example : finish answered_once none "COD" ≡ none
Reach-finish_example = Reach-finish two_asked two_answering reach none "COD"

Reach-CanEnd_example : CanEnd (begin one_asked) none "COD"
Reach-CanEnd_example = Reach-CanEnd one_asked one_answering none_panicking here none "COD"
