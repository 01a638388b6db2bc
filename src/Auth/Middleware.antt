-- ===== src/Auth/Middleware.antt =====
-- The bearer token: AuthMiddleware, OptionalAuthMiddleware and GetAuthenticatedUser of
-- GoodFood-BE/internal/auth/auth_middleware.go.
use Prim.Native.Char.{Char, code}
use Prim.Native.String.{[] as nil, ◌∷◌ as cons}
use good_food_be.Base.{
  ℕ, ◌≡◌, ◌↔◌, inl, inr, refl, ap, subst, String, Option, none, some, List, [], ◌∷◌, ◌==◌, str_eq,
  str_eq_iff, if◌then◌else◌, Bool-cases, arith,
}
use good_food_be.Auth.{Claims, Jwt}

-- The text between the spaces: strings.Split(header, " ").
abbrev pub extend : Char → List String → List String
extend c [] = cons c nil ∷ []
extend c (w ∷ ws) = cons c w ∷ ws

unfoldable pub split : String → List String
split nil = nil ∷ []
split (cons c s) = let ws = split s in if code c == 32 then nil ∷ ws else extend c ws

-- A middleware ends the request with an error, or hands on to the next handler, with the username in the
-- request's context if it is set.
pub data Passed : Type 0 where
  next : Option String → Passed
  error : ℕ → String → Passed

module _ (jwt : Jwt) where
  abbrev pub verified : Option Claims → Passed
  verified none = error 401 "Invalid or expired token"
  verified (some claims) = next (some claims.username)

  -- From the split header on; both middlewares do the same.
  abbrev pub bearer : ℕ → List String → Passed
  bearer now (scheme ∷ token ∷ []) =
      if str_eq scheme "Bearer"
      then verified (jwt.parse now token)
      else error 401 "Invalid Authorization format"
  bearer now _ = error 401 "Invalid Authorization format"

  unfoldable pub auth_middleware : ℕ → String → Passed
  auth_middleware now header =
      if str_eq header ""
      then error 401 "Missing Authorization header"
      else bearer now (split header)

  unfoldable pub optional_auth_middleware : ℕ → String → Passed
  optional_auth_middleware now header =
      if str_eq header "" then next none else bearer now (split header)

-- The context's username; "" where nobody is logged in.
unfoldable pub get_authenticated_user : Option String → String
get_authenticated_user none = ""
get_authenticated_user (some username) = if str_eq username "" then "" else username

-- The header is a bearer token that the JWT library accepts now, for the user.
abbrev pub Bears : Jwt → ℕ → String → String → Type 0
Bears jwt now header username =
    (token : String) × (claims : Claims) × (split header ≡ "Bearer" ∷ token ∷ [])
    × (jwt.parse now token ≡ some claims)
    × (claims.username ≡ username)

module _ (jwt : Jwt) (now : ℕ) where
  verified_next :
      (o : Option Claims) (user : Option String)
      → verified jwt o ≡ next user
      → (claims : Claims) × (o ≡ some claims) × (user ≡ some claims.username)
  verified_next none user e = ground arith
  verified_next (some claims) user e = (claims, refl, ground arith)

  pub bearer_next :
      (ws : List String) (user : Option String)
      → bearer jwt now ws ≡ next user
      → (token : String) × (claims : Claims) × (ws ≡ "Bearer" ∷ token ∷ [])
        × (jwt.parse now token ≡ some claims)
        × (user ≡ some claims.username)
  bearer_next [] user e = ground arith
  bearer_next (a ∷ []) user e = ground arith
  bearer_next (a ∷ token ∷ []) user e = elim (Bool-cases (str_eq a "Bearer")) [
    | inr other ↦ ground arith
    | inl scheme ↦
        let (claims, good, named) = verified_next (jwt.parse now token) user (ground arith) in
        (token, claims, ap (λ x. x ∷ token ∷ []) ((str_eq_iff a "Bearer").0 scheme), good, named)
  ]
  bearer_next (a ∷ b ∷ c ∷ ws) user e = ground arith

  no_words : (token : String) → split "" ≡ "Bearer" ∷ token ∷ [] → ⊥
  unfolding split
  no_words token e = ground arith

  -- AuthMiddleware hands a request on exactly if its header is a bearer token that VerifyToken accepts, and
  -- the username that it puts into the context is then the one of the token's claims.
  pub auth_middleware_iff :
      (header : String) (username : String)
      → (auth_middleware jwt now header ≡ next (some username)) ↔ Bears jwt now header username
  unfolding auth_middleware
  auth_middleware_iff header username = (
    λ e. elim (Bool-cases (str_eq header "")) [
      | inl blank ↦ ground arith
      | inr given ↦
          let (token, claims, words, good, named) =
            bearer_next (split header) (some username) (ground arith) in
          (token, claims, words, good, ground arith)
    ],
    λ (token, claims, words, good, named). elim (Bool-cases (str_eq header "")) [
      | inl blank ↦ absurd (
          no_words token
            (subst (λ h. split h ≡ "Bearer" ∷ token ∷ []) ((str_eq_iff header "").0 blank) words))
      | inr given ↦ rw (given, words, good, named) refl
    ],
  )
