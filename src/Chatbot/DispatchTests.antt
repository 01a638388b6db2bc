-- ===== src/Chatbot/DispatchTests.antt =====
-- A response whose second part orders two items.
use good_food_be.Base.{ℕ, ◌≡◌, ◌≢◌, refl, String, Option, none, some, List, [], ◌∷◌}
use good_food_be.Base.Int.{ℤ}
use good_food_be.Chatbot.Dispatch.{
  given, Args, Part, Candidate, Generated, order, dispatch, first_call, function_of, call_vertex_ai,
}
use good_food_be.Chatbot.Calls.{FirstOrder}
use good_food_be.Chatbot.Ordered.{call_vertex_ai-FirstOrder}

abbrev atoi : String → Option ℤ
atoi s = none

abbrev append : String → String → String
append s t = t

abbrev args : Args ℕ
args = record {
  order_id = "";
  products = given (some 1 ∷ some 2 ∷ []);
  payment_method = given "COD";
}

abbrev ordering : Part ℕ
ordering = record {
  text = "";
  function_call = some (record { name = "place_order"; args = some args });
}

abbrev hello : Part ℕ
hello = record { text = "Sure!"; function_call = none }

abbrev generate : String → Generated ℕ
generate prompt = some (some (some (some hello ∷ some ordering ∷ [])) ∷ [])

ordered : call_vertex_ai atoi append generate (some "Two rice") ≡ order (1 ∷ 2 ∷ []) "COD"
unfolding call_vertex_ai dispatch first_call function_of
ordered = refl

call_vertex_ai-FirstOrder_example :
    (prompt : String) × (ps : List (Option (Part ℕ))) × (cs : List (Option (Candidate ℕ))) × (◌≡◌
      {A = Option String}
      (some "Two rice")
      (some prompt))
    × (prompt ≢ "")
    × (generate prompt ≡ some (some (some ps) ∷ cs))
    × FirstOrder (1 ∷ 2 ∷ []) "COD" ps
call_vertex_ai-FirstOrder_example =
    call_vertex_ai-FirstOrder atoi append generate (some "Two rice") (1 ∷ 2 ∷ []) "COD" ordered
