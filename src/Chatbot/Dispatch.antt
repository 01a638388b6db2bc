-- ===== src/Chatbot/Dispatch.antt =====
-- CallVertexAI of GoodFood-BE/internal/server/handlers/chatbot.go, with the one of
-- GoodFood-BE/internal/utils/utilities.go that asks the model: what the model's response makes the handler do. The model,
-- strconv.Atoi and the items of an order are parameters.
use good_food_be.Base.{ℕ, String, Option, none, some, List, [], ◌∷◌, str_eq, if◌then◌else◌}
use good_food_be.Base.Int.{ℤ}

-- An argument of a function call: `args[name]` with its type assertion.
pub data Field (A : Type 0) : Type 0 where
  missing : Field A
  wrong_type : Field A
  given : A → Field A

-- The arguments that the handler reads; `order_id` as `fmt.Sprintf("%v", …)` prints it, and a product that is no
-- JSON object as none.
pub record Args (I : Type 0) : Type 0 where
  pub order_id : String
  pub products : Field (List (Option I))
  pub payment_method : Field String

pub record FunctionCall (I : Type 0) : Type 0 where
  pub name : String
  pub args : Option (Args I)

pub record Part (I : Type 0) : Type 0 where
  pub text : String
  pub function_call : Option (FunctionCall I)

-- genai.GenerateContentResponse: its candidates, each with the parts of its content; none is a nil pointer.
abbrev pub Candidate : Type 0 → Type 0
Candidate I = Option (List (Option (Part I)))

abbrev pub Generated : Type 0 → Type 0
Generated I = Option (List (Option (Candidate I)))

-- What CallVertexAI does with a response: it goes on to one of its functions, answers with a text or an error, or
-- panics.
pub data Dispatched (I : Type 0) : Type 0 where
  order_status : ℤ → Dispatched I
  top_product : Dispatched I
  order : List I → String → Dispatched I
  says : String → Dispatched I
  refuses : ℕ → String → Dispatched I
  panics : Dispatched I

-- The loop over the products; none where one is no object.
abbrev pub objects : {I : Type 0} → List (Option I) → Option (List I)
objects [] = some []
objects (none ∷ ps) = none
objects (some p ∷ ps) = elim (objects ps) [ none ↦ none | some is ↦ some (p ∷ is) ]

abbrev pub status_call : {I : Type 0} → Option ℤ → Dispatched I
status_call none = refuses 400 "Invalid order_id in function call"
status_call (some id) = order_status id

abbrev pub paid_by : {I : Type 0} → List I → Field String → Dispatched I
paid_by is (given method) = order is method
paid_by is missing = refuses 400 "Invalid payment_method"
paid_by is wrong_type = refuses 400 "Invalid payment_method"

abbrev pub parsed_products : {I : Type 0} → Option (List I) → Field String → Dispatched I
parsed_products none method = refuses 400 "Invalid product item format"
parsed_products (some is) method = paid_by is method

abbrev pub order_call : {I : Type 0} → Field (List (Option I)) → Field String → Dispatched I
order_call missing method = refuses 400 "Missing products in function call"
order_call wrong_type method = refuses 400 "Invalid products format"
order_call (given ps) method = parsed_products (objects ps) method

module _ {I : Type 0} (atoi : String → Option ℤ) (append : String → String → String) where
  -- The switch over the function's name; none is an unknown function, after which the loop goes on.
  unfoldable pub function_of : String → Args I → Option (Dispatched I)
  function_of name args =
      if str_eq name "get_order_status"
      then some (status_call (atoi args.order_id))
      else if str_eq name "get_top_product"
      then some top_product
      else if str_eq name "place_order"
      then some (order_call args.products args.payment_method)
      else none

  abbrev pub called : FunctionCall I → Option (Dispatched I)
  called call = elim call.args [
    | none ↦ some (refuses 400 "Function call args is nil")
    | some args ↦ function_of call.name args
  ]

  abbrev pub part_call : Part I → Option (Dispatched I)
  part_call p = elim p.function_call [ none ↦ none | some call ↦ called call ]

  -- The loop over the parts of the first candidate, which reads each without a test for nil.
  unfoldable pub first_call : List (Option (Part I)) → Option (Dispatched I)
  first_call [] = none
  first_call (none ∷ ps) = some panics
  first_call (some p ∷ ps) = elim (part_call p) [ none ↦ first_call ps | some d ↦ some d ]

  -- The texts of the parts, one after the other.
  unfoldable pub texts : List (Option (Part I)) → String → String
  texts [] result = result
  texts (none ∷ ps) result = texts ps result
  texts (some p ∷ ps) result = texts ps (if str_eq p.text "" then result else append result p.text)

  unfoldable pub all_texts : List (Option (Candidate I)) → String → String
  all_texts [] result = result
  all_texts (none ∷ cs) result = all_texts cs result
  all_texts (some none ∷ cs) result = all_texts cs result
  all_texts (some (some ps) ∷ cs) result = all_texts cs (texts ps result)

  abbrev pub answered : String → Dispatched I
  answered result =
      if str_eq result ""
      then refuses 500 "Vertex AI returned empty or invalid response"
      else says result

  abbrev pub call_or_text : Option (Dispatched I) → List (Option (Candidate I)) → Dispatched I
  call_or_text (some d) cs = d
  call_or_text none cs = answered (all_texts cs "")

  unfoldable pub dispatch : Generated I → Dispatched I
  dispatch none = answered ""
  dispatch (some []) = answered ""
  dispatch (some (some (some ps) ∷ cs)) = call_or_text (first_call ps) (some (some ps) ∷ cs)
  dispatch (some (some none ∷ cs)) = answered (all_texts (some none ∷ cs) "")
  dispatch (some (none ∷ cs)) = answered (all_texts (none ∷ cs) "")

  -- The handler, on its parsed body. Asking the model fails with no error: SendError, whose result is
  -- returned as the error, answers nil.
  unfoldable pub call_vertex_ai : (String → Generated I) → Option String → Dispatched I
  call_vertex_ai generate none = refuses 400 "Invalid prompt!"
  call_vertex_ai generate (some prompt) =
      if str_eq prompt "" then refuses 400 "Prompt cannot be empty" else dispatch (generate prompt)
