-- ===== src/Account/Reset.antt =====
-- The reset of a forgotten password: HandleForgotPassword, ValidateResetToken and HandleResetPassword of
-- GoodFood-BE/internal/server/handlers/users.go, on the table `account`, the cache and the queue of mails.
use Prim.Native.String.{◌++◌ as append}
use good_food_be.Base.{
  ⊤, ℕ, ◌≡◌, ◌⊎◌, inl, inr, refl, String, true, Option, none, some, List, [], ◌∷◌, str_eq,
  Bool-cases, Option-cases,
}
use good_food_be.Store.{Result, done, failed, Result-cases, message}
use good_food_be.Store.Laws.{Elsewhere, update-Writes}
use good_food_be.Cache.{
  text, Key, Cache, Redis, Lookup, hit, unreadable, unavailable, get_cache, set_cache, clear_cache,
}
use good_food_be.Http.{ok, error, Action, ◌>>=◌, ◌>>◌, error_if, or_message, read, write, Ends}
use good_food_be.Account.{Account, AccountTable, Bcrypt, account_key, account_of}

-- The JSON that the code stores here: the text of a mail address.
pub data Json : Type 0 where
  quoted : String → Json

-- json.Unmarshal of a text into a fiber.Map, which fails.
abbrev pub as_map : Json → Option (List (String × Json))
as_map (quoted address) = none

-- dto.ResetPass; its confirmation is never read.
pub record ResetPass : Type 0 where
  pub token : String
  pub new_pass : String
  pub email : String

-- A mail task of the queue: the address and the link.
pub record ResetMail : Type 0 where
  pub to_email : String
  pub reset_link : String

pub record State : Type 0 where
  pub accounts : List Account
  pub cache : Cache Json
  pub queue : List ResetMail

-- fmt.Sprintf("resetPass:token=%s", token)
abbrev pub reset_key : String → Key
reset_key token = record { format = "resetPass:token=%s"; args = text token ∷ [] }

-- `new_token` is what uuid.NewV4 returns; `enqueue` is the answer of asynq, for the task's making too.
module _ (db : AccountTable) (redis : Redis Json) (bcrypt : Bcrypt)
    (enqueue : ResetMail → Option String) where
  abbrev pub enqueued : String → ResetMail → Option String → Action State ⊥ (Option String)
  enqueued token mail (some wrong) s = (error 500 wrong, s)
  enqueued token mail none s = (ok (some token), record s { queue = mail ∷ s.queue })

  abbrev pub send_token : String → Account → Action State ⊥ (Option String)
  send_token token acc = do
    s ← read
    write (record s { cache = set_cache redis (reset_key token) (quoted acc.email) none s.cache })
    let mail : ResetMail = record {
      to_email = acc.email;
      reset_link = append "http://localhost:5173/reset-password?token=" token;
    }
    enqueued token mail (enqueue mail)

  abbrev pub for_account : Result String → Result Account → Action State ⊥ (Option String)
  for_account new_token (failed e) s = (ok none, s)
  for_account (failed e) (done acc) s = (error 500 (message e), s)
  for_account (done token) (done acc) s = send_token token acc s

  -- HandleForgotPassword: 200 with the token in the answer, or without one where no account is found.
  unfoldable pub handle_forgot_password :
      Result String → String ⊎ String → Action State ⊥ (Option String)
  handle_forgot_password new_token (inl bad) s = (error 400 bad, s)
  handle_forgot_password new_token (inr email) s =
      for_account new_token (db.one (λ a. str_eq a.email email) s.accounts) s

  abbrev pub validated : Lookup (List (String × Json)) → Action State ⊥ (List (String × Json))
  validated unavailable s = (error 500 "Error validating token", s)
  validated unreadable s = (error 500 "Invalid or expired token", s)
  validated (hit cached_token) s = (ok cached_token, s)

  unfoldable pub validate_reset_token : String → Action State ⊥ (List (String × Json))
  validate_reset_token token = do
    error_if (str_eq token "") 400 "Did not receive token!"
    s ← read
    validated (get_cache redis (reset_key token) as_map s.cache)

  unfoldable pub handle_reset_password : Option ResetPass → Action State ⊥ ⊤
  handle_reset_password none s = (error 400 "Invalid request body", s)
  handle_reset_password (some body) s =
      (do
        user ← or_message (db.one (λ a. str_eq a.email body.email) s.accounts) 500
        hashed_pass ← or_message (bcrypt.generate body.new_pass) 500
        t ← or_message (db.update (record user { password = hashed_pass }) s.accounts) 500
        write (record s {
          accounts = t;
          cache = clear_cache (some redis) (reset_key body.token ∷ []) s.cache;
        }))
        s

  -- An account with the mail address accepts the new password, and no other account has changed.
  abbrev pub Resets : ResetPass → State → State → Type 0
  Resets body s s' =
      (user : Account) × (hashed : String) × (account_of user.account_id s.accounts ≡ some user)
      × (str_eq user.email body.email ≡ true)
      × (account_of user.account_id s'.accounts ≡ some (record user { password = hashed }))
      × (bcrypt.matches hashed body.new_pass ≡ true)
      × Elsewhere account_key user.account_id s.accounts s'.accounts

  reset_ends :
      (body : ResetPass) (s : State)
      → Ends (λ u s'. Resets body s s') s (handle_reset_password (some body) s)
  unfolding handle_reset_password
  reset_ends body s = elim (Result-cases (db.one (λ a. str_eq a.email body.email) s.accounts)) [
    | inr (e, wrong) ↦ rw wrong refl
    | inl (user, found) ↦ elim (Result-cases (bcrypt.generate body.new_pass)) [
      | inr (e, wrong) ↦ rw (found, wrong) refl
      | inl (hashed, made) ↦
          elim (Result-cases (db.update (record user { password = hashed }) s.accounts)) [
            | inr (e, wrong) ↦ rw (found, made, wrong) refl
            | inl (t, wrote) ↦
                let (named, here) =
                  db.one_found (λ a. str_eq a.email body.email) s.accounts user found in
                let (now, others) =
                  update-Writes db (record user { password = hashed }) user s.accounts t wrote
                    here in
                rw (found, made, wrote)
                  (
                    user,
                    hashed,
                    here,
                    named,
                    now,
                    bcrypt.matches_generate body.new_pass hashed made,
                    others,
                  )
          ]
    ]
  ]

  -- The same request with another token, and with another cache: the answer and the accounts are the same.
  abbrev pub IgnoresToken : ResetPass → State → Type 0
  IgnoresToken body s =
      (token : String) (cache : Cache Json)
      → let run = handle_reset_password (some body) s in
        let other =
          handle_reset_password (some (record body { token = token }))
            (record s { cache = cache }) in
        (other.0 ≡ run.0) × (other.1.accounts ≡ run.1.accounts)

  reset_ignores : (body : ResetPass) (s : State) → IgnoresToken body s
  unfolding handle_reset_password
  reset_ignores body s token cache =
      elim (Result-cases (db.one (λ a. str_eq a.email body.email) s.accounts)) [
        | inr (e, wrong) ↦ rw wrong (refl, refl)
        | inl (user, found) ↦ elim (Result-cases (bcrypt.generate body.new_pass)) [
          | inr (e, wrong) ↦ rw (found, wrong) (refl, refl)
          | inl (hashed, made) ↦
              elim (Result-cases (db.update (record user { password = hashed }) s.accounts)) [
                | inr (e, wrong) ↦ rw (found, made, wrong) (refl, refl)
                | inl (t, wrote) ↦ rw (found, made, wrote) (refl, refl)
              ]
        ]
      ]

  -- HandleResetPassword answers 200 only after it has set the password of an account with the mail address of
  -- the body, and of no other account; with an error nothing has changed. Its answer and the accounts that it
  -- leaves are the same for any other token in the body and any other contents of the cache.
  pub handle_reset_password-Resets :
      (body : ResetPass) (s : State)
      → Ends (λ u s'. Resets body s s') s (handle_reset_password (some body) s)
        × IgnoresToken body s
  handle_reset_password-Resets body s = (reset_ends body s, reset_ignores body s)

  -- ValidateResetToken answers no token with 200: what HandleForgotPassword has cached is a text, and is
  -- decoded into a map.
  validate_reset_token_refuses :
      (token : String) (s : State)
      → (code : ℕ) × (wrong : String) × (validate_reset_token token s ≡ (error code wrong, s))
  unfolding validate_reset_token get_cache
  validate_reset_token_refuses token s = elim (Bool-cases (str_eq token "")) [
    | inl blank ↦ (400, "Did not receive token!", rw blank refl)
    | inr given ↦ elim (Option-cases (redis.get (reset_key token) s.cache)) [
      | inl out ↦ (500, "Error validating token", rw (given, get_cache, out) refl)
      | inr (quoted address, there) ↦
          (500, "Invalid or expired token", rw (given, get_cache, there) refl)
    ]
  ]
