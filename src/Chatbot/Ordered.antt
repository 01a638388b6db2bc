-- ===== src/Chatbot/Ordered.antt =====
-- When CallVertexAI of GoodFood-BE/internal/server/handlers/chatbot.go places an order.
use good_food_be.Base.{
  ◌≡◌, ◌≢◌, refl, ap, ◌∙◌, subst, inl, inr, String, Option, none, some, List, [], ◌∷◌, str_eq,
  str_eq_iff, Option-cases, Bool-cases, arith,
}
use good_food_be.Base.Int.{ℤ}
use good_food_be.Chatbot.Dispatch.{
  Args, FunctionCall, Part, Candidate, Generated, Dispatched, order, refuses, function_of, called,
  part_call, first_call, all_texts, answered, call_or_text, dispatch, call_vertex_ai,
}
use good_food_be.Chatbot.Calls.{IsQuiet, CallsOrder, FirstOrder, function_order, unknown_name}

module _ {I : Type 0} (atoi : String → Option ℤ) (append : String → String → String) where
  called_order :
      (call : FunctionCall I) (p : Part I) (is : List I) (method : String) (o : Option (Args I))
      → p.function_call ≡ some call
      → call.args ≡ o
      → elim o [
        | none ↦ some (refuses 400 "Function call args is nil")
        | some args ↦ function_of atoi append call.name args
      ]
        ≡ some (order is method)
      → CallsOrder is method p
  called_order call p is method none has e calls = absurd (ground arith)
  called_order call p is method (some args) has e calls =
      let (name, listed, paid) = function_order atoi append call.name args is method calls in
      (call, args, has, name, e, listed, paid)

  part_order :
      (p : Part I) (is : List I) (method : String) (o : Option (FunctionCall I))
      → p.function_call ≡ o
      → elim o [ none ↦ none | some call ↦ called atoi append call ] ≡ some (order is method)
      → CallsOrder is method p
  part_order p is method none has e = absurd (ground arith)
  part_order p is method (some call) has e = called_order call p is method call.args has refl e

  called_quiet :
      (call : FunctionCall I) (o : Option (Args I))
      → elim o [
        | none ↦ some (refuses 400 "Function call args is nil")
        | some args ↦ function_of atoi append call.name args
      ]
        ≡ none
      → call.name ≢ "place_order"
  called_quiet call none e = absurd (ground arith)
  called_quiet call (some args) e = unknown_name atoi append call.name args e

  part-IsQuiet :
      (p : Part I) (o : Option (FunctionCall I))
      → p.function_call ≡ o
      → elim o [ none ↦ none | some call ↦ called atoi append call ] ≡ none
      → IsQuiet (some p)
  part-IsQuiet p none has e = inl has
  part-IsQuiet p (some call) has e = inr (call, has, called_quiet call call.args e)

  first_order :
      (ps : List (Option (Part I))) (is : List I) (method : String)
      → first_call atoi append ps ≡ some (order is method)
      → FirstOrder is method ps
  unfolding first_call
  first_order [] is method e = absurd (ground arith)
  first_order (none ∷ ps) is method e = absurd (ground arith)
  first_order (some p ∷ ps) is method e = elim (Option-cases (part_call atoi append p)) [
    | inl quiet ↦
        let (before, q, after, split, silent, calls) =
          first_order ps is method (subst chosen quiet e) in
        (
          some p ∷ before,
          q,
          after,
          ap (λ xs. some p ∷ xs) split,
          (part-IsQuiet p p.function_call refl quiet, silent),
          calls,
        )
    | inr (d, calls) ↦ (
      [],
      p,
      ps,
      refl,
      tt,
      part_order p is method p.function_call refl (calls ∙ subst chosen calls e),
    )
  ]
    where
      chosen : Option (Dispatched I) → Type 0
      chosen o =
          elim o [ none ↦ first_call atoi append ps | some d ↦ some d ] ≡ some (order is method)

  answered_no_order :
      (t : String) (is : List I) (method : String) → answered atoi append t ≡ order is method → ⊥
  answered_no_order t is method e = elim (Bool-cases (str_eq t "")) [
    | inl empty ↦ ground arith
    | inr text ↦ ground arith
  ]

  dispatch_order :
      (ps : List (Option (Part I))) (cs : List (Option (Candidate I))) (is : List I)
      (method : String) (o : Option (Dispatched I))
      → first_call atoi append ps ≡ o
      → call_or_text atoi append o cs ≡ order is method
      → FirstOrder is method ps
  dispatch_order ps cs is method (some d) first e = first_order ps is method (first ∙ ap some e)
  dispatch_order ps cs is method none first e =
      absurd (answered_no_order (all_texts atoi append cs "") is method e)

  generated_order :
      (g : Generated I) (is : List I) (method : String)
      → dispatch atoi append g ≡ order is method
      → (ps : List (Option (Part I))) × (cs : List (Option (Candidate I))) × (g
          ≡ some (some (some ps) ∷ cs))
        × FirstOrder is method ps
  unfolding dispatch
  generated_order none is method e = absurd (answered_no_order "" is method e)
  generated_order (some []) is method e = absurd (answered_no_order "" is method e)
  generated_order (some (none ∷ cs)) is method e =
      absurd (answered_no_order (all_texts atoi append (none ∷ cs) "") is method e)
  generated_order (some (some none ∷ cs)) is method e =
      absurd (answered_no_order (all_texts atoi append (some none ∷ cs) "") is method e)
  generated_order (some (some (some ps) ∷ cs)) is method e = (
    ps,
    cs,
    refl,
    dispatch_order ps (some (some ps) ∷ cs) is method (first_call atoi append ps) refl e,
  )

  -- CallVertexAI goes on to place_order only where the prompt is not empty and the model's first candidate has a
  -- part that calls place_order, with products that are all objects, just the items of the order, and with the
  -- payment method of the order; the parts before it call no function, or another one. Any other response of
  -- the model, or none, places no order.
  pub call_vertex_ai-FirstOrder :
      (generate : String → Generated I) (body : Option String) (is : List I) (method : String)
      → call_vertex_ai atoi append generate body ≡ order is method
      → (prompt : String) × (ps : List (Option (Part I))) × (cs : List (Option (Candidate I)))
        × (body ≡ some prompt)
        × (prompt ≢ "")
        × (generate prompt ≡ some (some (some ps) ∷ cs))
        × FirstOrder is method ps
  unfolding call_vertex_ai
  call_vertex_ai-FirstOrder generate none is method e = absurd (ground arith)
  call_vertex_ai-FirstOrder generate (some prompt) is method e =
      elim (Bool-cases (str_eq prompt "")) [
        | inl empty ↦ absurd (ground arith)
        | inr asked ↦
            let (ps, cs, response, first) =
              generated_order (generate prompt) is method (ground arith) in
            (
              prompt,
              ps,
              cs,
              refl,
              (λ same. ground (arith, (str_eq_iff prompt "").1 same)),
              response,
              first,
            )
      ]
