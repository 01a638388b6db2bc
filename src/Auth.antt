-- ===== src/Auth.antt =====
-- Tokens and sessions: GoodFood-BE/internal/auth/auth.go. The JWT library, SHA-256, UUIDs, the clock and
-- the Redis server are no code of the repository and are parameters. A request reads the clock as one
-- instant, in seconds.
pub mod SessionStore
pub mod Rotate
pub mod Middleware
pub mod Memory
pub mod Tests
use good_food_be.Base.{
  ℕ, ◌≡◌, ◌+◌, ◌-◌, ◌*◌, ◌⊎◌, inl, inr, String, Bool, true, false, not, Option, none, some, List,
  [], ◌∷◌, ◌==◌, str_eq, if◌then◌else◌,
}
use good_food_be.Auth.SessionStore.{RefreshRecord, Sessions, Command, del, srem, SessionServer}

-- Claims; the empty ID is that of an access token.
pub record Claims : Type 0 where
  pub username : String
  pub id : String
  pub expires_at : ℕ
  pub issued_at : ℕ

-- `jwt.NewWithClaims(…).SignedString(secretKey)`, and `jwt.ParseWithClaims` with `token.Valid` at an
-- instant. What the code relies on: a token keeps the claims that it was signed with.
pub record Jwt : Type 0 where
  pub sign : Claims → Option String
  pub parse : ℕ → String → Option Claims
  pub parse_sign :
      (now : ℕ) (claims claims' : Claims) (token : String)
      → sign claims ≡ some token
      → parse now token ≡ some claims'
      → claims' ≡ claims
  pub parse_same :
      (now later : ℕ) (claims claims' : Claims) (token : String)
      → parse now token ≡ some claims
      → parse later token ≡ some claims'
      → claims' ≡ claims

-- The error values that ValidateRefreshAndRotate returns.
pub data RotateError : Type 0 where
  token_refused missing_jti redis_error not_found reuse_detected not_signed : RotateError

-- Its results: the tokens with the new jti, an error, or the dereference of nil claims.
pub data Rotated : Type 0 where
  rotated : String → String → String → Rotated
  refused : RotateError → Rotated
  panics : Rotated

-- GetRefreshRecord: a record, (nil, nil), or an error.
pub data Lookup : Type 0 where
  found : RefreshRecord → Lookup
  missing : Lookup
  broken : Lookup

-- `jti` is what uuid.New returns; `sha256_hex` is sha256 with its hex encoding.
module _ (jwt : Jwt) (redis : SessionServer) (sha256_hex : String → String) where
  abbrev pub hash_token : String → String
  hash_token token = sha256_hex token

  abbrev pub access_claims : ℕ → String → Claims
  access_claims now username = record {
    username = username;
    id = "";
    expires_at = now + 15 * 60;
    issued_at = now;
  }

  abbrev pub refresh_claims : ℕ → String → String → Claims
  refresh_claims now jti username = record {
    username = username;
    id = jti;
    expires_at = now + 7 * 24 * 3600;
    issued_at = now;
  }

  -- The access token and the refresh token; the jti is the argument.
  unfoldable pub create_token : ℕ → String → String → Option (String × String)
  create_token now jti username = elim (jwt.sign (access_claims now username)) [
    | none ↦ none
    | some access ↦ elim (jwt.sign (refresh_claims now jti username)) [
      | none ↦ none
      | some refresh ↦ some (access, refresh)
    ]
  ]

  abbrev pub verify_token : ℕ → String → Option Claims
  verify_token now token = jwt.parse now token

  -- Whether the error is nil, and the server afterwards. A set that cannot be extended takes the record
  -- back. Expire has no effect on what stands in the set now.
  unfoldable pub save_refresh_token :
      ℕ → String → String → String → String → String → ℕ → Sessions → Bool × Sessions
  save_refresh_token now jti refresh_token username user_agent ip expires_at s =
      let rec : RefreshRecord = record {
        username = username;
        token_hash = hash_token refresh_token;
        expires_at = expires_at;
        user_agent = user_agent;
        ip = ip;
      } in
      let ttl : ℕ = if expires_at - now == 0 then 1 else expires_at - now in
      elim (redis.set jti rec ttl s) [
        | none ↦ (false, s)
        | some stored ↦ elim (redis.sadd username jti stored) [
          | some s' ↦ (true, s')
          | none ↦ elim (redis.del_record jti stored) [
            | none ↦ (false, stored)
            | some s' ↦ (false, s')
          ]
        ]
      ]

  abbrev pub as_lookup : Option (Option RefreshRecord) → Lookup
  as_lookup none = broken
  as_lookup (some none) = missing
  as_lookup (some (some rec)) = found rec

  get_refresh_record : String → Sessions → Lookup
  get_refresh_record jti s = as_lookup (redis.get jti s)

  -- The set of the record's user first, if the record can be read; the errors of both commands are
  -- ignored by every caller.
  abbrev pub or_same : Option Sessions → Sessions → Sessions
  or_same none s = s
  or_same (some s') s = s'

  abbrev pub leave_set : String → Lookup → Sessions → Sessions
  leave_set jti (found rec) s = or_same (redis.srem_member rec.username jti s) s
  leave_set jti missing s = s
  leave_set jti broken s = s

  unfoldable pub revoke_refresh_token : String → Sessions → Sessions
  unfolding get_refresh_record
  revoke_refresh_token jti s =
      let s' = leave_set jti (get_refresh_record jti s) s in or_same (redis.del_record jti s') s'

  abbrev pub pipeline : String → List String → List Command
  pipeline username [] = []
  pipeline username (j ∷ js) = del j ∷ srem username j ∷ pipeline username js

  unfoldable pub revoke_all_user_refresh_tokens : String → Sessions → Sessions
  revoke_all_user_refresh_tokens username s = elim (redis.smembers username s) [
    | none ↦ s
    | some jtis ↦ or_same (redis.exec (pipeline username jtis) s) s
  ]

  -- The tail of ValidateRefreshAndRotate, once the record has matched.
  abbrev pub renewed :
      ℕ
      → String
      → Claims
      → String
      → String
      → Option (String × String)
      → Sessions
      → Rotated × Sessions
  renewed now new_jti claims user_agent ip none s = (refused not_signed, s)
  renewed now new_jti claims user_agent ip (some (access, refresh)) s =
      elim (verify_token now refresh) [
        | none ↦ (panics, s)
        | some new_claims ↦
            let (saved, s') =
              save_refresh_token now new_jti refresh claims.username user_agent ip
                new_claims.expires_at s in
            (rotated access refresh new_jti, revoke_refresh_token claims.id s')
      ]

  abbrev pub matched :
      ℕ → String → Claims → String → String → String → Lookup → Sessions → Rotated × Sessions
  matched now new_jti claims refresh_token user_agent ip broken s = (refused redis_error, s)
  matched now new_jti claims refresh_token user_agent ip missing s = (refused not_found, s)
  matched now new_jti claims refresh_token user_agent ip (found rec) s =
      if not (str_eq rec.token_hash (hash_token refresh_token))
      then (refused reuse_detected, revoke_all_user_refresh_tokens rec.username s)
      else renewed now new_jti claims user_agent ip (create_token now new_jti claims.username) s

  unfoldable pub validate_refresh_and_rotate :
      ℕ → String → String → String → String → Sessions → Rotated × Sessions
  unfolding get_refresh_record
  validate_refresh_and_rotate now new_jti refresh_token user_agent ip s =
      elim (verify_token now refresh_token) [
        | none ↦ (refused token_refused, s)
        | some claims ↦
            if str_eq claims.id ""
            then (refused missing_jti, s)
            else matched now new_jti claims refresh_token user_agent ip
                (get_refresh_record claims.id s) s
      ]
