-- ===== src/Auth/Tests.antt =====
-- A session that is rotated, replayed and stolen.
use good_food_be.Base.{
  ℕ, ◌≡◌, ◌⊎◌, ◌↔◌, refl, sym, ap, ◌∙◌, subst, inl, inr, String, Bool, true, false, ◌&&◌, Option,
  some, none, [], ◌∷◌, arith, str_eq, str_eq_iff, ◌==◌, if◌then◌else◌, Elem,
}
use good_food_be.Auth.SessionStore.{RefreshRecord, Sessions}
use good_food_be.Auth.Memory.{sessions_server}
use good_food_be.Auth.{
  Claims, Jwt, RotateError, reuse_detected, Rotated, rotated, refused, validate_refresh_and_rotate,
  revoke_all_user_refresh_tokens, create_token,
}
use good_food_be.Auth.Rotate.{Serves, rotate_once, reuse_revokes}
use good_food_be.Auth.Middleware.{Bears, next, error, auth_middleware, auth_middleware_iff, split}

-- Two refresh tokens, of the sessions "a" and "b"; an access token does not parse.
abbrev pub claims_a : Claims
claims_a = record { username = "an"; id = "a"; expires_at = 604800; issued_at = 0 }

abbrev pub claims_b : Claims
claims_b = record { username = "an"; id = "b"; expires_at = 604801; issued_at = 1 }

abbrev pub same_claims : Claims → Claims → Bool
same_claims c d =
    str_eq c.username d.username
    && str_eq c.id d.id
    && c.expires_at == d.expires_at
    && c.issued_at == d.issued_at

abbrev pub sign : Claims → Option String
sign c =
    if same_claims c claims_a
    then some "token_a"
    else if same_claims c claims_b
    then some "token_b"
    else some "access"

abbrev pub parse : ℕ → String → Option Claims
parse now t =
    if str_eq t "token_a" then some claims_a else if str_eq t "token_b" then some claims_b else none

same_sound : (c d : Claims) → same_claims c d ≡ true → c ≡ d
same_sound c d h = ground (arith, str_eq_iff c.username d.username, str_eq_iff c.id d.id)

-- What `sign` answers, by the outcome of its two tests.
signed_as :
    (x y : Bool) (t : String)
    → (if x then some "token_a" else if y then some "token_b" else some "access") ≡ some t
    → ((x ≡ true) × (t ≡ "token_a")) ⊎ ((y ≡ true) × (t ≡ "token_b")) ⊎ (t ≡ "access")
signed_as true y t e = inl (refl, ground arith)
signed_as false true t e = inr (inl (refl, ground arith))
signed_as false false t e = inr (inr (ground arith))

parsed_a : (c : Claims) → parse 0 "token_a" ≡ some c → c ≡ claims_a
parsed_a c e = ground arith

parsed_b : (c : Claims) → parse 0 "token_b" ≡ some c → c ≡ claims_b
parsed_b c e = ground arith

pub parse_sign :
    (now : ℕ) (c c' : Claims) (t : String) → sign c ≡ some t → parse now t ≡ some c' → c' ≡ c
parse_sign now c c' t signed parsed =
    elim (signed_as (same_claims c claims_a) (same_claims c claims_b) t signed) [
      | inl (same, is) ↦
          parsed_a c' (subst (λ x. parse now x ≡ some c') is parsed)
          ∙ sym (same_sound c claims_a same)
      | inr (inl (same, is)) ↦
          parsed_b c' (subst (λ x. parse now x ≡ some c') is parsed)
          ∙ sym (same_sound c claims_b same)
      | inr (inr is) ↦ absurd (refused_access (subst (λ x. parse now x ≡ some c') is parsed))
    ]
  where
    refused_access : parse now "access" ≡ some c' → ⊥
    refused_access e = ground arith

pub parse_same :
    (now later : ℕ) (c c' : Claims) (t : String)
    → parse now t ≡ some c
    → parse later t ≡ some c'
    → c' ≡ c
parse_same now later c c' t e e' = ap (λ o. elim o [ none ↦ c | some x ↦ x ]) (sym e' ∙ e)

abbrev pub jwt : Jwt
jwt = record { sign = sign; parse = parse; parse_sign = parse_sign; parse_same = parse_same }

abbrev pub hash : String → String
hash t = t

pub serves : Serves sessions_server
serves = record {
  gets = λ j s e. ground arith;
  sets = λ j r ttl s e. ground arith;
  dels = λ j s e. ground arith;
  sadds = λ u j s e. ground arith;
  lists = λ u s e. ground arith;
  execs = λ cs s e. ground arith;
}

abbrev pub session : RefreshRecord
session = record {
  username = "an";
  token_hash = "token_a";
  expires_at = 604800;
  user_agent = "browser";
  ip = "10.0.0.1";
}

abbrev pub start : Sessions
start = record {
  records = λ j. if str_eq j "a" then some session else none;
  of_user = λ u. if str_eq u "an" then "a" ∷ [] else [];
}

abbrev once : Rotated × Sessions
once =
    validate_refresh_and_rotate jwt sessions_server hash 1 "b" "token_a" "browser" "10.0.0.1" start

rotate_run : once.0 ≡ rotated "access" "token_b" "b"
unfolding validate_refresh_and_rotate create_token
rotate_run = refl

rotate_once_example :
    (e : RotateError) × (validate_refresh_and_rotate jwt sessions_server hash 9 "c" "token_a" "curl"
        "10.0.0.9" once.1
      ≡ (refused e, once.1))
rotate_once_example =
    rotate_once jwt sessions_server hash serves 1 "b" "token_a" "browser" "10.0.0.1" "access"
      "token_b" "b" start once.1 (ap (λ r. (r, once.1)) rotate_run) 9 "c" "curl" "10.0.0.9"

-- The session "a" was stored for another token.
abbrev stolen : Sessions
stolen = record start {
  records = λ j. if str_eq j "a" then some (record session { token_hash = "token_x" }) else none;
}

reuse_revokes_example :
    (validate_refresh_and_rotate jwt sessions_server hash 1 "b" "token_a" "browser" "10.0.0.1"
        stolen
      ≡ (
        refused reuse_detected,
        revoke_all_user_refresh_tokens jwt sessions_server hash "an" stolen,
      ))
    × ((j : String)
        → Elem j ("a" ∷ [])
        → (validate_refresh_and_rotate jwt sessions_server hash 1 "b" "token_a" "browser" "10.0.0.1"
              stolen).1.records
            j
          ≡ none)
reuse_revokes_example =
    reuse_revokes jwt sessions_server hash serves 1 "b" "token_a" "browser" "10.0.0.1" stolen
      claims_a (record session { token_hash = "token_x" }) refl refl refl refl

bearer_run : auth_middleware jwt 1 "Bearer token" ≡ error 401 "Invalid or expired token"
unfolding auth_middleware split
bearer_run = refl

auth_middleware_iff_example :
    (auth_middleware jwt 1 "Bearer token_a" ≡ next (some "an")) ↔ Bears jwt 1 "Bearer token_a" "an"
auth_middleware_iff_example = auth_middleware_iff jwt 1 "Bearer token_a" "an"
