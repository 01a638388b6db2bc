-- ===== src/Chatbot/Progress.antt =====
-- Where place_order comes to its answer: at most one product needs the model's words, and no goroutine panics.
use good_food_be.Base.{
  ◌≡◌, refl, sym, subst, false, ap, suc, ◌+◌, ◌≤◌, String, Option, some, List, [], ◌∷◌, ◌++◌,
  length, arith,
}
use good_food_be.Address.{Address}
use good_food_be.Http.{Response}
use good_food_be.Chatbot.{Outcome, answers, fails, adds, panics, Reply}
use good_food_be.Chatbot.Schedule.{
  Run, begin, Step, answers_first, fails_too, adds_one, panics_one, Reach, here, next, finish,
  answered, answering, panicking, panicking-append, length-append,
}
use good_food_be.Chatbot.Blocked.{Holds, Reach-Holds, Step-Holds}

empty : (texts : List String) → length texts ≤ 0 → texts ≡ []
empty [] h = refl
empty (text ∷ texts) h = ground arith

module _ {P : Type 0} where
  -- The run ends: its goroutines can go on until none is left, and then place_order has its response.
  abbrev pub CanEnd : Run P → Option Address → String → Type 0
  CanEnd t address payment =
      (u : Run P) × (response : Response ⊥ (Reply P)) × Reach t u
      × (finish u address payment ≡ some response)

  then : {s t u : Run P} → Step s t → Reach t u → Reach s u
  then st here = next here st
  then st (next r last) = next (then st r) last

  -- respChan has room for the answers that are still to be sent.
  abbrev Room : Run P → Type 0
  Room run = answering run.waiting + length run.responses ≤ 1

  Step-Room : {s t : Run P} → Step s t → Room s → Room t
  Step-Room {s = s} {t = t} st room =
      let kept : Holds (answering s.waiting + length s.responses) t =
        Step-Holds (answering s.waiting + length s.responses) s t st (refl, ground (arith, room)) in
      ground (arith, kept)

  -- The process runs, and no goroutine that waits will panic.
  abbrev Safe : Run P → Type 0
  Safe run = (run.crashed ≡ false) × (panicking run.waiting ≡ 0)

  panicking-middle :
      (before after : List (Outcome P)) (x : Outcome P)
      → panicking (before ++ (x ∷ after)) ≡ panicking (before ++ after) + panicking (x ∷ [])
  unfolding panicking
  panicking-middle before after (answers text) =
      ground (arith, panicking-append before (answers text ∷ after), panicking-append before after)
  panicking-middle before after (fails wrong) =
      ground (arith, panicking-append before (fails wrong ∷ after), panicking-append before after)
  panicking-middle before after (adds cart) =
      ground (arith, panicking-append before (adds cart ∷ after), panicking-append before after)
  panicking-middle before after panics =
      ground (arith, panicking-append before (panics ∷ after), panicking-append before after)

  Step-Safe : {s t : Run P} → Step s t → Safe s → Safe t
  unfolding panicking
  Step-Safe (answers_first before after text runs waits free e) safe = subst Safe (sym e) (
    safe.0,
    ground (arith, safe.1, ap panicking waits, panicking-middle before after (answers text)),
  )
  Step-Safe (fails_too before after wrong runs waits e) safe = subst Safe (sym e) (
    safe.0,
    ground (arith, safe.1, ap panicking waits, panicking-middle before after (fails wrong)),
  )
  Step-Safe (adds_one before after cart runs waits e) safe = subst Safe (sym e) (
    safe.0,
    ground (arith, safe.1, ap panicking waits, panicking-middle before after (adds cart)),
  )
  Step-Safe (panics_one before after runs waits e) safe =
      absurd (ground (arith, safe.1, ap panicking waits, panicking-middle before after panics))

  Reach-Safe : {xs : List (Outcome P)} {t : Run P} → panicking xs ≡ 0 → Reach (begin xs) t → Safe t
  Reach-Safe none_panics here = (refl, none_panics)
  Reach-Safe none_panics (next r st) = Step-Safe st (Reach-Safe none_panics r)

  -- The first goroutine that waits makes its step.
  first :
      (x : Outcome P) (xs : List (Outcome P)) (s : Run P)
      → s.waiting ≡ x ∷ xs
      → Room s
      → Safe s
      → (t : Run P) × Step s t × (t.waiting ≡ xs)
  unfolding answering panicking
  first (answers text) xs s e room safe = (
    record s { waiting = xs; responses = text ∷ [] },
    answers_first [] xs text safe.0 e (empty s.responses (ground (arith, room, ap answering e)))
        refl,
    refl,
  )
  first (fails wrong) xs s e room safe = (
    record s { waiting = xs; errors = s.errors ++ (wrong ∷ []) },
    fails_too [] xs wrong safe.0 e refl,
    refl,
  )
  first (adds cart) xs s e room safe = (
    record s { waiting = xs; carts = s.carts ++ (cart ∷ []) },
    adds_one [] xs cart safe.0 e refl,
    refl,
  )
  first panics xs s e room safe = absurd (ground (arith, safe.1, ap panicking e))

  drain :
      (xs : List (Outcome P)) (s : Run P)
      → s.waiting ≡ xs
      → Room s
      → Safe s
      → (address : Option Address) (payment : String) → CanEnd s address payment
  unfolding finish
  drain [] s e room safe address payment =
      (s, answered s.responses s.errors s.carts address payment, here, rw (e) refl)
  drain (x ∷ xs) s e room safe address payment =
      let (t, st, e') = first x xs s e room safe in
      let (u, response, r, over) =
        drain xs t e' (Step-Room st room) (Step-Safe st safe) address payment in
      (u, response, then st r, over)

  -- Where at most one product's lookup ends in an answer of the model and none panics, place_order is never
  -- stuck: from every state that its goroutines can reach, whatever order they went in, they can go on until
  -- none is left, and the request then gets a response.
  pub Reach-CanEnd :
      (xs : List (Outcome P))
      → answering xs ≤ 1
      → panicking xs ≡ 0
      → {t : Run P} → Reach (begin xs) t
      → (address : Option Address) (payment : String) → CanEnd t address payment
  Reach-CanEnd xs one none_panics {t = t} r address payment =
      drain t.waiting t refl (ground (arith, one, Reach-Holds r)) (Reach-Safe none_panics r) address
        payment

  length-middle :
      (before after : List (Outcome P)) (x : Outcome P)
      → length (before ++ (x ∷ after)) ≡ suc (length (before ++ after))
  length-middle before after x =
      ground (arith, length-append before (x ∷ after), length-append before after)

  -- Each step of place_order's goroutines that does not end the process takes one of those that wait, so a run has at
  -- most as many steps as there are products.
  length-Step :
      {s t : Run P} → Step s t → t.crashed ≡ false → length s.waiting ≡ suc (length t.waiting)
  length-Step (answers_first before after text runs waits free e) up = ground (
    arith,
    ap length waits,
    length-middle before after (answers text),
    ap (λ run. length run.waiting) e,
  )
  length-Step (fails_too before after wrong runs waits e) up = ground (
    arith,
    ap length waits,
    length-middle before after (fails wrong),
    ap (λ run. length run.waiting) e,
  )
  length-Step (adds_one before after cart runs waits e) up = ground (
    arith,
    ap length waits,
    length-middle before after (adds cart),
    ap (λ run. length run.waiting) e,
  )
  length-Step (panics_one before after runs waits e) up =
      absurd (ground (arith, up, ap (λ run. run.crashed) e))
