-- ===== src/Account/Login.antt =====
-- Logging in and out: HandleLogin, RefreshToken and HandleLogout of
-- GoodFood-BE/internal/server/handlers/users.go, and LoginWithAccount of
-- GoodFood-BE/internal/utils/user_helper.go, on the sessions of GoodFood-BE/internal/auth.
use good_food_be.Base.{
  ⊤, ℕ, ◌≡◌, refl, sym, ap, ◌∙◌, subst, String, false, not, Option, none, some, List, str_eq,
  if◌then◌else◌,
}
use good_food_be.Http.{Response, ok, error, panic, Action, ◌>>=◌, ◌>>◌, error_if, parsed, or_error}
use good_food_be.Auth.SessionStore.{Sessions, SessionServer}
use good_food_be.Auth.{
  Claims, Jwt, RotateError, missing_jti, not_found, reuse_detected, Rotated, rotated, refused,
  panics, create_token, verify_token, save_refresh_token, revoke_refresh_token,
  validate_refresh_and_rotate,
}
use good_food_be.Auth.Rotate.{Serves, revoked, refused_after}
use good_food_be.Account.{Account, AccountTable, Bcrypt}

-- The client's side of a request: the refresh cookie, "" where there is none, and what is stored with a
-- session.
pub record Client : Type 0 where
  pub refresh_cookie : String
  pub user_agent : String
  pub ip : String

-- What the answers carry: the account and the access token, and the refresh cookie that is set.
pub record Login : Type 0 where
  pub user : Account
  pub access_token : String
  pub cookie : String

-- The body of HandleLogin.
pub record Credentials : Type 0 where
  pub username : String
  pub password : String

-- The texts of the errors of ValidateRefreshAndRotate that the source writes itself; the others are the
-- libraries'.
module _ (jwt : Jwt) (redis : SessionServer) (sha256_hex : String → String)
    (library_text : RotateError → String) where
  abbrev pub rotate_text : RotateError → String
  rotate_text missing_jti = "missing jti in refresh token"
  rotate_text not_found = "refresh token not found or revoked"
  rotate_text reuse_detected = "refresh token reuse detected"
  rotate_text e = library_text e

  -- LoginWithAccount, from its tokens on. The error of SaveRefreshToken is ignored.
  abbrev pub issued :
      ℕ → String → Client → Account → Option (String × String) → Action Sessions ⊥ Login
  issued now jti client acc none s = (error 500 "Failed to create tokens", s)
  issued now jti client acc (some (access, refresh)) s =
      elim (verify_token jwt redis sha256_hex now refresh) [
        | none ↦ (panic, s)
        | some claims ↦
            let (saved, s') =
              save_refresh_token jwt redis sha256_hex now jti refresh acc.username client.user_agent
                client.ip claims.expires_at s in
            (ok (record { user = acc; access_token = access; cookie = refresh }), s')
      ]

  unfoldable pub login_with_account : ℕ → String → Client → Account → Action Sessions ⊥ Login
  login_with_account now jti client acc s =
      issued now jti client acc (create_token jwt redis sha256_hex now jti acc.username) s

  -- The accounts are only read.
  unfoldable pub handle_login :
      AccountTable
      → Bcrypt
      → List Account
      → ℕ
      → String
      → Client
      → Option Credentials
      → Action Sessions ⊥ Login
  unfolding login_with_account
  handle_login accounts bcrypt t now jti client body' = do
    body ← parsed body' 400 "Invalid request body"
    user ← or_error (accounts.one (λ a. str_eq a.username body.username) t) 500 "User not found!"
    error_if (not (bcrypt.matches user.password body.password)) 401
        "Username or password does not match!"
    login_with_account now jti client user

  -- The access token and the new cookie.
  abbrev pub refreshed : Rotated × Sessions → Response ⊥ (String × String) × Sessions
  refreshed (rotated access refresh jti, s) = (ok (access, refresh), s)
  refreshed (refused e, s) = (error 401 (rotate_text e), s)
  refreshed (panics, s) = (panic, s)

  unfoldable pub refresh_token : ℕ → String → Client → Action Sessions ⊥ (String × String)
  refresh_token now jti client s =
      if str_eq client.refresh_cookie ""
      then (error 401 "No refresh token", s)
      else refreshed (
          validate_refresh_and_rotate jwt redis sha256_hex now jti client.refresh_cookie
            client.user_agent client.ip s)

  -- The cookie is set to the empty text in any case.
  unfoldable pub handle_logout : ℕ → Client → Action Sessions ⊥ ⊤
  handle_logout now client s =
      if str_eq client.refresh_cookie ""
      then (ok tt, s)
      else elim (verify_token jwt redis sha256_hex now client.refresh_cookie) [
        | none ↦ (ok tt, s)
        | some claims ↦ (ok tt, revoke_refresh_token jwt redis sha256_hex claims.id s)
      ]

  module _ (serves : Serves redis) where
    logged_out :
        (now : ℕ) (client : Client) (claims : Claims) (s : Sessions)
        → str_eq client.refresh_cookie "" ≡ false
        → jwt.parse now client.refresh_cookie ≡ some claims
        → (handle_logout now client s).1.records claims.id ≡ none
    unfolding handle_logout
    logged_out now client claims s given good =
        let run : handle_logout now client s
            ≡ (ok tt, revoke_refresh_token jwt redis sha256_hex claims.id s) =
          rw (given, good) refl in
        ap (λ r. r.1.records claims.id) run ∙ revoked jwt redis sha256_hex serves claims.id s

    -- With a server that answers: if HandleLogout gets a refresh cookie that is valid at the time, then
    -- whoever presents the same cookie to RefreshToken afterwards, at any time and from any client, is
    -- answered 401 and changes nothing.
    pub handle_logout-refresh_token :
        (now : ℕ) (client : Client) (claims : Claims) (s : Sessions)
        → str_eq client.refresh_cookie "" ≡ false
        → jwt.parse now client.refresh_cookie ≡ some claims
        → (later : ℕ) (jti : String) (other : Client) → other.refresh_cookie ≡ client.refresh_cookie
        → (text : String) × (refresh_token later jti other (handle_logout now client s).1
            ≡ (error 401 text, (handle_logout now client s).1))
    unfolding refresh_token
    handle_logout-refresh_token now client claims s given good later jti other same =
        let s' : Sessions = (handle_logout now client s).1 in
        let (e, out) =
          refused_after jwt redis sha256_hex serves later jti other.refresh_cookie other.user_agent
            other.ip s'
            (λ c again.
              subst (λ x. s'.records x.id ≡ none)
                (sym (
                  jwt.parse_same now later claims c client.refresh_cookie good
                    (subst (λ t. jwt.parse later t ≡ some c) same again)))
                (logged_out now client claims s given good)) in
        (rotate_text e, rw (ap (λ t. str_eq t "") same ∙ given) (ap refreshed out))
