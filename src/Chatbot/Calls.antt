-- ===== src/Chatbot/Calls.antt =====
-- The function calls of a response that CallVertexAI of GoodFood-BE/internal/server/handlers/chatbot.go reads as an order.
use good_food_be.Base.{
  ◌≡◌, ◌≢◌, refl, sym, ap, ◌∙◌, subst, ◌⊎◌, inl, inr, String, Option, none, some, List, [], ◌∷◌,
  ◌++◌, map, All, str_eq, str_eq_iff, Option-cases, Bool-cases, arith,
}
use good_food_be.Base.Int.{ℤ}
use good_food_be.Chatbot.Dispatch.{
  Field, missing, wrong_type, given, Args, FunctionCall, Part, Dispatched, order, objects,
  status_call, paid_by, parsed_products, order_call, function_of,
}

-- A part that calls no function, or one that is not place_order.
abbrev pub IsQuiet : {I : Type 0} → Option (Part I) → Type 0
IsQuiet none = ⊥
IsQuiet {I} (some p) =
    (p.function_call ≡ none)
    ⊎ ((call : FunctionCall I) × (p.function_call ≡ some call) × (call.name ≢ "place_order"))

-- The part calls place_order with these items, all of them objects, and this payment method.
abbrev pub CallsOrder : {I : Type 0} → List I → String → Part I → Type 0
CallsOrder {I} items method p =
    (call : FunctionCall I) × (args : Args I) × (p.function_call ≡ some call)
    × (call.name ≡ "place_order")
    × (call.args ≡ some args)
    × (args.products ≡ given (map some items))
    × (args.payment_method ≡ given method)

abbrev pub FirstOrder : {I : Type 0} → List I → String → List (Option (Part I)) → Type 0
FirstOrder {I} items method ps =
    (before : List (Option (Part I))) × (p : Part I) × (after : List (Option (Part I))) × (ps
      ≡ before ++ some p ∷ after)
    × All IsQuiet before
    × CallsOrder items method p

objects-some :
    {I : Type 0} (ps : List (Option I)) (is : List I) → objects ps ≡ some is → ps ≡ map some is
objects-some [] is e = ap (λ o. elim o [ none ↦ [] | some xs ↦ map some xs ]) e
objects-some (none ∷ ps) is e = absurd (ground arith)
objects-some (some p ∷ ps) is e = elim (Option-cases (objects ps)) [
  | inl out ↦
      absurd
        (no_items (subst (λ o. elim o [ none ↦ none | some js ↦ some (p ∷ js) ] ≡ some is) out e))
  | inr (js, found) ↦
      ap (λ xs. some p ∷ xs) (objects-some ps js found)
      ∙ ap (λ o. elim o [ none ↦ [] | some xs ↦ map some xs ])
          (subst (λ o. elim o [ none ↦ none | some ks ↦ some (p ∷ ks) ] ≡ some is) found e)
]
  where
    no_items : none ≡ some is → ⊥
    no_items h = ground arith

-- The two parts of an order.
abbrev items_of : {I : Type 0} → List I → Dispatched I → List I
items_of other (order is method) = is
items_of other _ = other

abbrev method_of : {I : Type 0} → Dispatched I → String
method_of (order is method) = method
method_of _ = ""

paid_order :
    {I : Type 0} (js is : List I) (m : Field String) (method : String)
    → paid_by js m ≡ order is method
    → (js ≡ is) × (m ≡ given method)
paid_order js is missing method e = absurd (ground arith)
paid_order js is wrong_type method e = absurd (ground arith)
paid_order js is (given n) method e = (ap (items_of js) e, ap (λ d. given (method_of d)) e)

products_order :
    {I : Type 0} (ps : List (Option I)) (is : List I) (m : Field String) (method : String)
    → (o : Option (List I)) → objects ps ≡ o
    → parsed_products o m ≡ order is method
    → (ps ≡ map some is) × (m ≡ given method)
products_order ps is m method none found e = absurd (ground arith)
products_order ps is m method (some js) found e =
    let (same, paid) = paid_order js is m method e in
    (objects-some ps js found ∙ ap (map some) same, paid)

order_call-order :
    {I : Type 0} (f : Field (List (Option I))) (is : List I) (m : Field String) (method : String)
    → order_call f m ≡ order is method
    → (f ≡ given (map some is)) × (m ≡ given method)
order_call-order missing is m method e = absurd (ground arith)
order_call-order wrong_type is m method e = absurd (ground arith)
order_call-order (given ps) is m method e =
    let (listed, paid) = products_order ps is m method (objects ps) refl e in
    (ap given listed, paid)

module _ {I : Type 0} (atoi : String → Option ℤ) (append : String → String → String) where
  status_no_order :
      (o : Option ℤ) (is : List I) (method : String) → status_call o ≡ order is method → ⊥
  status_no_order none is method e = ground arith
  status_no_order (some id) is method e = ground arith

  some_dispatched :
      (d d' : Dispatched I) → ◌≡◌ {A = Option (Dispatched I)} (some d) (some d') → d ≡ d'
  some_dispatched d d' e = ap (λ o. elim o [ none ↦ d | some x ↦ x ]) e

  pub function_order :
      (name : String) (args : Args I) (is : List I) (method : String)
      → function_of atoi append name args ≡ some (order is method)
      → (name ≡ "place_order")
        × (args.products ≡ given (map some is))
        × (args.payment_method ≡ given method)
  unfolding function_of
  function_order name args is method e = elim (Bool-cases (str_eq name "get_order_status")) [
    | inl status ↦ absurd (
        status_no_order (atoi args.order_id) is method
          (some_dispatched _ _ (sym (rw status refl) ∙ e)))
    | inr not_status ↦ elim (Bool-cases (str_eq name "get_top_product")) [
      | inl top ↦ absurd (ground arith)
      | inr not_top ↦ elim (Bool-cases (str_eq name "place_order")) [
        | inr unknown ↦ absurd (ground arith)
        | inl placed ↦
            let (listed, paid) =
              order_call-order args.products is args.payment_method method (ground arith) in
            ((str_eq_iff name "place_order").0 placed, listed, paid)
      ]
    ]
  ]

  pub unknown_name :
      (name : String) (args : Args I)
      → function_of atoi append name args ≡ none
      → name ≢ "place_order"
  unfolding function_of
  unknown_name name args e = elim (Bool-cases (str_eq name "get_order_status")) [
    | inl status ↦ absurd (ground arith)
    | inr not_status ↦ elim (Bool-cases (str_eq name "get_top_product")) [
      | inl top ↦ absurd (ground arith)
      | inr not_top ↦ elim (Bool-cases (str_eq name "place_order")) [
        | inl placed ↦ absurd (ground arith)
        | inr unknown ↦ λ same. ground (arith, (str_eq_iff name "place_order").1 same)
      ]
    ]
  ]
