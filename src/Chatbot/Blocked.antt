-- ===== src/Chatbot/Blocked.antt =====
-- Where place_order does not come to its answer: two products that need the model's words.
use good_food_be.Base.{
  ℕ, inl, inr, ◌≡◌, refl, sym, ap, subst, ◌+◌, ◌≤◌, String, Option, none, List, [], ◌∷◌, ◌++◌,
  length, List-cases, arith,
}
use good_food_be.Address.{Address}
use good_food_be.Chatbot.{Outcome, answers, fails, adds, panics}
use good_food_be.Chatbot.Schedule.{
  Run, begin, Step, answers_first, fails_too, adds_one, panics_one, Reach, here, next, finish,
  answering, answering-append,
}

-- The answers that are sent and that are still to be sent are `count`, and at most one of them is sent.
abbrev pub Holds : {P : Type 0} → ℕ → Run P → Type 0
Holds count run =
    (answering run.waiting + length run.responses ≡ count) × (length run.responses ≤ 1)

module _ {P : Type 0} where
  answering-middle :
      (before after : List (Outcome P)) (x : Outcome P)
      → answering (before ++ (x ∷ after)) ≡ answering (before ++ after) + answering (x ∷ [])
  unfolding answering
  answering-middle before after (answers text) =
      ground (arith, answering-append before (answers text ∷ after), answering-append before after)
  answering-middle before after (fails wrong) =
      ground (arith, answering-append before (fails wrong ∷ after), answering-append before after)
  answering-middle before after (adds cart) =
      ground (arith, answering-append before (adds cart ∷ after), answering-append before after)
  answering-middle before after panics =
      ground (arith, answering-append before (panics ∷ after), answering-append before after)

  pub Step-Holds : (count : ℕ) (s t : Run P) → Step s t → Holds count s → Holds count t
  unfolding answering
  Step-Holds count s t (answers_first before after text runs waits free e) h =
      subst (Holds count) (sym e) (
        ground (
          arith,
          h,
          ap answering waits,
          answering-middle before after (answers text),
          ap (length {A = String}) free,
        ))
  Step-Holds count s t (fails_too before after wrong runs waits e) h =
      subst (Holds count) (sym e)
        (ground (arith, h, ap answering waits, answering-middle before after (fails wrong)))
  Step-Holds count s t (adds_one before after cart runs waits e) h =
      subst (Holds count) (sym e)
        (ground (arith, h, ap answering waits, answering-middle before after (adds cart)))
  Step-Holds count s t (panics_one before after runs waits e) h = subst (Holds count) (sym e) h

  pub Reach-Holds :
      {xs : List (Outcome P)} {t : Run P} → Reach (begin xs) t → Holds (answering xs) t
  Reach-Holds {xs = xs} here = (ground arith, ground arith)
  Reach-Holds {xs = xs} (next {t = s} {u = t} r st) =
      Step-Holds (answering xs) s t st (Reach-Holds r)

  still_waiting :
      (t : Run P)
      → 1 ≤ answering t.waiting
      → (address : Option Address) (payment : String) → finish t address payment ≡ none
  unfolding answering finish
  still_waiting t h address payment = elim (List-cases t.waiting) [
    | inl none_left ↦ ground (arith, ap answering none_left)
    | inr (x, xs, left) ↦ rw (left) refl
  ]

  -- Where the lookups of two products or more end in an answer of the model, no run of place_order's
  -- goroutines comes to an end, in whatever order they go: in every state that they reach, one of them
  -- has not ended, and the request has no response.
  pub Reach-finish :
      (xs : List (Outcome P))
      → 2 ≤ answering xs
      → {t : Run P} → Reach (begin xs) t
      → (address : Option Address) (payment : String) → finish t address payment ≡ none
  Reach-finish xs two {t = t} r address payment =
      still_waiting t (ground (arith, Reach-Holds r)) address payment
