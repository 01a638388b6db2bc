-- ===== src/Http.antt =====
-- Requests and responses: GoodFood-BE/internal/service/error.go and the way every handler of
-- GoodFood-BE/internal/server/handlers ends. A handler is a function of its parsed request and of the
-- state that it reads and writes, and returns the response with the state that it leaves: what was
-- written before an error stays written.
--
-- A request arrives parsed. `QueryInt(name, 0)` and `Query(name, "")` are the arguments of a handler;
-- a body is an `Option`, `none` where BodyParser fails.
pub mod Steps
use good_food_be.Base.{⊤, ℕ, ◌≡◌, ap, String, Bool, true, false, Option, none, some}
use good_food_be.Store.{message, Result, done, failed}

-- `error` is SendError, `error_struct` is SendErrorStruct, `ok` is the 200 response with its data, and
-- `panic` a run-time panic of the handler.
pub data Response (E A : Type 0) : Type 0 where
  ok : A → Response E A
  error : ℕ → String → Response E A
  error_struct : ℕ → E → Response E A
  panic : Response E A

-- The HTTP status of a response. Fiber answers a panic of a handler with 500.
abbrev pub status : {E A : Type 0} → Response E A → ℕ
status (ok a) = 200
status (error code text) = code
status (error_struct code e) = code
status panic = 500

abbrev pub Action : Type 0 → Type 0 → Type 0 → Type 0
Action S E A = S → Response E A × S

infixl 5 ◌>>=◌ ◌>>◌
abbrev pub ◌>>=◌ : {S E A B : Type 0} → Action S E A → (A → Action S E B) → Action S E B
◌>>=◌ m f s =
    let (r, s') = m s in
    elim r [
      | ok a ↦ f a s'
      | error code text ↦ (error code text, s')
      | error_struct code e ↦ (error_struct code e, s')
      | panic ↦ (panic, s')
    ]

abbrev pub ◌>>◌ : {S E A B : Type 0} → Action S E A → Action S E B → Action S E B
m >> k = m >>= λ _. k

module _ {S E : Type 0} where
  abbrev pub pure : {A : Type 0} → A → Action S E A
  pure a s = (ok a, s)

  -- `if c { return service.SendError(c, code, text) }`
  abbrev pub error_if : Bool → ℕ → String → Action S E ⊤
  error_if true code text s = (error code text, s)
  error_if false code text s = (ok tt, s)

  -- `if err := c.BodyParser(&body); err != nil { return service.SendError(c, code, text) }`
  abbrev pub parsed : {A : Type 0} → Option A → ℕ → String → Action S E A
  parsed none code text s = (error code text, s)
  parsed (some a) code text s = (ok a, s)

  -- A query whose failure is answered with a fixed text.
  abbrev pub or_error : {A : Type 0} → Result A → ℕ → String → Action S E A
  or_error (done a) code text s = (ok a, s)
  or_error (failed e) code text s = (error code text, s)

  -- A query whose failure is answered with `err.Error()`.
  abbrev pub or_message : {A : Type 0} → Result A → ℕ → Action S E A
  or_message (done a) code s = (ok a, s)
  or_message (failed e) code s = (error code (message e), s)

  abbrev pub read : Action S E S
  read s = (ok s, s)

  abbrev pub write : S → Action S E ⊤
  write s' s = (ok tt, s')

-- A request that answers 200 meets `P`; any other leaves the state as it was.
abbrev pub Ends : {S E A : Type 0} → (A → S → Type 0) → S → Response E A × S → Type 0
Ends P s (ok a, s') = P a s'
Ends P s (error code text, s') = s' ≡ s
Ends P s (error_struct code e, s') = s' ≡ s
Ends P s (panic, s') = s' ≡ s

module _ {S E A B : Type 0} (m : Action S E A) (f : A → Action S E B) {s s' : S} where
  pub bind_ok : {a : A} → m s ≡ (ok a, s') → (m >>= f) s ≡ f a s'
  bind_ok e = ap (λ x. ((λ _. x) >>= f) s) e

  pub bind_error :
      {code : ℕ} {text : String} → m s ≡ (error code text, s') → (m >>= f) s ≡ (error code text, s')
  bind_error e = ap (λ x. ((λ _. x) >>= f) s) e

  pub bind_error_struct :
      {code : ℕ} {e : E} → m s ≡ (error_struct code e, s') → (m >>= f) s ≡ (error_struct code e, s')
  bind_error_struct h = ap (λ x. ((λ _. x) >>= f) s) h
