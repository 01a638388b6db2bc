-- ===== src/Http/Steps.antt =====
-- How a postcondition passes through the steps of a handler.
use good_food_be.Base.{
  ⊤, ℕ, ◌≡◌, refl, sym, subst, String, Bool, false, Option, some, inl, inr, Bool-cases,
  Option-cases,
}
use good_food_be.Store.{Result, done, Result-cases}
use good_food_be.Http.{
  Response, ok, error, error_struct, panic, Action, ◌>>=◌, Ends, or_message, or_error, error_if,
  parsed,
}

module _ {S E A : Type 0} (P : A → S → Type 0) (s : S) where
  -- A query that fails ends the request, and the rest of it sees what it has found.
  pub or_message-Ends :
      {B : Type 0} (r : Result B) (code : ℕ) (f : B → Action S E A)
      → ((b : B) → r ≡ done b → Ends P s (f b s))
      → Ends P s ((or_message r code >>= f) s)
  or_message-Ends r code f h = elim (Result-cases r) [
    | inl (b, e) ↦ subst (λ x. Ends P s ((or_message x code >>= f) s)) (sym e) (h b e)
    | inr (wrong, e) ↦ subst (λ x. Ends P s ((or_message x code >>= f) s)) (sym e) refl
  ]

  pub or_error-Ends :
      {B : Type 0} (r : Result B) (code : ℕ) (text : String) (f : B → Action S E A)
      → ((b : B) → r ≡ done b → Ends P s (f b s))
      → Ends P s ((or_error r code text >>= f) s)
  or_error-Ends r code text f h = elim (Result-cases r) [
    | inl (b, e) ↦ subst (λ x. Ends P s ((or_error x code text >>= f) s)) (sym e) (h b e)
    | inr (wrong, e) ↦ subst (λ x. Ends P s ((or_error x code text >>= f) s)) (sym e) refl
  ]

  pub error_if-Ends :
      (b : Bool) (code : ℕ) (text : String) (f : ⊤ → Action S E A)
      → (b ≡ false → Ends P s (f tt s))
      → Ends P s ((error_if b code text >>= f) s)
  error_if-Ends b code text f h = elim (Bool-cases b) [
    | inl e ↦ subst (λ x. Ends P s ((error_if x code text >>= f) s)) (sym e) refl
    | inr e ↦ subst (λ x. Ends P s ((error_if x code text >>= f) s)) (sym e) (h e)
  ]

  pub parsed-Ends :
      {B : Type 0} (o : Option B) (code : ℕ) (text : String) (f : B → Action S E A)
      → ((b : B) → o ≡ some b → Ends P s (f b s))
      → Ends P s ((parsed o code text >>= f) s)
  parsed-Ends o code text f h = elim (Option-cases o) [
    | inl e ↦ subst (λ x. Ends P s ((parsed x code text >>= f) s)) (sym e) refl
    | inr (b, e) ↦ subst (λ x. Ends P s ((parsed x code text >>= f) s)) (sym e) (h b e)
  ]

module _ {S E B A : Type 0} (P : A → S → Type 0) (R : B → Type 0) (s : S) (f : B → Action S E A)
    (rest : (b : B) → R b → Ends P s (f b s)) where
  after :
      (run : Response E B × S)
      → Ends (λ b s'. (s' ≡ s) × R b) s run
      → Ends P s (((λ (_ : S). run) >>= f) s)
  after (ok b, s') (same, r) = subst (λ t. Ends P s (f b t)) (sym same) (rest b r)
  after (error code text, s') same = same
  after (error_struct code e, s') same = same
  after (panic, s') same = same

  -- A part that only reads, with what it establishes for the rest.
  pub reads-Ends :
      (m : Action S E B) → Ends (λ b s'. (s' ≡ s) × R b) s (m s) → Ends P s ((m >>= f) s)
  reads-Ends m h = after (m s) h

pub Ends-map :
    {S E A : Type 0} (P Q : A → S → Type 0) (s : S)
    → ((a : A) (s' : S) → P a s' → Q a s')
    → (run : Response E A × S) → Ends P s run
    → Ends Q s run
Ends-map P Q s h (ok a, s') p = h a s' p
Ends-map P Q s h (error code text, s') same = same
Ends-map P Q s h (error_struct code e, s') same = same
Ends-map P Q s h (panic, s') same = same
