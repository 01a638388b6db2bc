-- ===== src/Account/Oauth.antt =====
-- Login by Google or Facebook: HandleOAuthLogin of GoodFood-BE/internal/utils/user_helper.go, behind the
-- provider's check of the token.
use good_food_be.Base.{
  ℕ, ◌≡◌, ◌⊎◌, inl, inr, refl, String, Bool, true, false, Option, none, some, List, str_eq, arith,
}
use good_food_be.Store.{Table, DbError, Result, done, failed, Result-cases}
use good_food_be.Http.{Response, error, panic, Action, ◌>>=◌, ◌>>◌, or_error, read, write}
use good_food_be.Auth.SessionStore.{Sessions, SessionServer}
use good_food_be.Auth.{Jwt, RotateError}
use good_food_be.Account.{Account, AccountTable, Bcrypt, account_of}
use good_food_be.Account.Login.{Client, Login, login_with_account}

-- models.OauthAccount, less the time that the database sets.
pub record OauthAccount : Type 0 where
  pub oauth_id : ℕ
  pub account_id : ℕ
  pub provider : String
  pub provider_user_id : String

abbrev pub oauth_key : OauthAccount → ℕ
oauth_key o = o.oauth_id

abbrev pub OauthTable : Type 0
OauthTable = Table oauth_key (λ o id. record o { oauth_id = id })

pub record State : Type 0 where
  pub accounts : List Account
  pub oauths : List OauthAccount
  pub sessions : Sessions

-- What the provider tells of the user.
pub record Profile : Type 0 where
  pub provider : String
  pub provider_user_id : String
  pub email : String
  pub full_name : String
  pub avatar_url : String

module _ (jwt : Jwt) (redis : SessionServer) (sha256_hex : String → String)
    (library_text : RotateError → String) (accounts : AccountTable) (oauths : OauthTable)
    (bcrypt : Bcrypt) where
  abbrev pub with_sessions : Response ⊥ Login × Sessions → State → Response ⊥ Login × State
  with_sessions (r, sessions) s = (r, record s { sessions = sessions })

  -- LoginWithAccount; a nil account is dereferenced.
  abbrev pub login_as : ℕ → String → Client → Option Account → Action State ⊥ Login
  login_as now jti client none s = (panic, s)
  login_as now jti client (some acc) s =
      with_sessions
        (login_with_account jwt redis sha256_hex library_text now jti client acc s.sessions) s

  -- The error of GenerateFromPassword is ignored; its result is then empty.
  abbrev pub hashed_or_empty : Result String → String
  hashed_or_empty (done hashed) = hashed
  hashed_or_empty (failed e) = ""

  abbrev pub new_user : Profile → Account
  new_user p = record {
    account_id = 0;
    username = p.provider_user_id;
    password = hashed_or_empty (bcrypt.generate p.provider_user_id);
    phone_number = none;
    email = p.email;
    full_name = p.full_name;
    gender = true;
    avatar = some p.avatar_url;
    status = true;
    role = false;
    email_verified = false;
  }

  abbrev pub create_linked : ℕ → String → Client → Profile → Action State ⊥ Login
  create_linked now jti client p = do
    s ← read
    (row, t) ← or_error (accounts.insert (new_user p) s.accounts) 500 "Failed to create account"
    write (record s { accounts = t })
    (oauth, u) ←
        or_error
          (oauths.insert
            (record {
              oauth_id = 0;
              account_id = row.account_id;
              provider = p.provider;
              provider_user_id = p.provider_user_id;
            })
            s.oauths)
          500 "Failed to create OAuth account"
    write (record { accounts = t; oauths = u; sessions = s.sessions })
    login_as now jti client (some row)

  -- Where the search by mail address fails, the account is nil, and the source reads its EmailVerified.
  abbrev pub by_email : ℕ → String → Client → Profile → Result Account → Action State ⊥ Login
  by_email now jti client p (failed e) s = (panic, s)
  by_email now jti client p (done existing) s = create_linked now jti client p s

  abbrev pub by_oauth : ℕ → String → Client → Profile → Result OauthAccount → Action State ⊥ Login
  by_oauth now jti client p (done oauth) s =
      login_as now jti client (account_of oauth.account_id s.accounts) s
  by_oauth now jti client p (failed e) s =
      by_email now jti client p (accounts.one (λ a. str_eq a.email p.email) s.accounts) s

  unfoldable pub handle_oauth_login : ℕ → String → Client → Profile → Action State ⊥ Login
  handle_oauth_login now jti client p s =
      by_oauth now jti client p
        (oauths.one (λ o. str_eq o.provider_user_id p.provider_user_id) s.oauths) s

  -- The constraint UNIQUE (email) of the table: no row is inserted whose mail address another one has.
  abbrev pub UniqueEmail : Type 0
  UniqueEmail =
      (a row old : Account) (t t' : List Account) (id : ℕ)
      → accounts.insert a t ≡ done (row, t')
      → account_of id t ≡ some old
      → str_eq old.email a.email ≡ false

  -- No account has the mail address, as far as the search tells, and the request panics; or one has it, and the
  -- answer is an error. Nothing has changed.
  abbrev pub ShutOut : Profile → State → Response ⊥ Login × State → Type 0
  ShutOut p s run =
      ((e : DbError) × (accounts.one (λ a. str_eq a.email p.email) s.accounts ≡ failed e)
        × (run ≡ (panic, s)))
      ⊎ ((old : Account) × (account_of old.account_id s.accounts ≡ some old)
          × (str_eq old.email p.email ≡ true)
          × (run ≡ (error 500 "Failed to create account", s)))

  module _ (now : ℕ) (jti : String) (client : Client) (p : Profile) (s : State)
      (unique : UniqueEmail) where
    create_linked-refuses :
        (old : Account)
        → account_of old.account_id s.accounts ≡ some old
        → str_eq old.email p.email ≡ true
        → create_linked now jti client p s ≡ (error 500 "Failed to create account", s)
    create_linked-refuses old here hit =
        elim (Result-cases (accounts.insert (new_user p) s.accounts)) [
          | inr (e, wrong) ↦ rw wrong refl
          | inl ((row, t), wrote) ↦ absurd (
              clash (str_eq old.email p.email) hit
                (unique (new_user p) row old s.accounts t old.account_id wrote here))
        ]
      where
        clash : (b : Bool) → b ≡ true → b ≡ false → ⊥
        clash b yes_it no_it = ground arith

    -- With the constraint UNIQUE (email) on the accounts, nobody can sign up by Google or Facebook: for a user
    -- whose provider ID the search does not find, HandleOAuthLogin ends with nothing changed and no session. It panics if
    -- the search finds no account with the user's mail address, and answers that it failed to create the
    -- account if one is there, which it does not link.
    pub handle_oauth_login-ShutOut :
        (e : DbError)
        → oauths.one (λ o. str_eq o.provider_user_id p.provider_user_id) s.oauths ≡ failed e
        → ShutOut p s (handle_oauth_login now jti client p s)
    unfolding handle_oauth_login
    handle_oauth_login-ShutOut e unknown =
        elim (Result-cases (accounts.one (λ a. str_eq a.email p.email) s.accounts)) [
          | inr (e', wrong) ↦ inl (e', wrong, rw (unknown, wrong) refl)
          | inl (old, found) ↦
              let (hit, here) =
                accounts.one_found (λ a. str_eq a.email p.email) s.accounts old found in
              inr (old, here, hit, rw (unknown, found) (create_linked-refuses old here hit))
        ]
