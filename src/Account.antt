-- ===== src/Account.antt =====
-- Accounts: HandleRegister and HandleUpdateAccount of GoodFood-BE/internal/server/handlers/users.go,
-- AdminUserCreate, AdminUserUpdate and validationUser of GoodFood-BE/internal/server/handlers/admin_users.go,
-- and GoodFood-BE/internal/server/handlers/changepassword.go, on the table `account`. bcrypt is a parameter.
pub mod Password
pub mod Register
pub mod Login
pub mod Oauth
pub mod Reset
pub mod AdminList
pub mod Memory
mod Tests
use Prim.Native.String.{len}
use good_food_be.Base.{
  ⊤, ℕ, ◌≡◌, ◌≢◌, ◌⊎◌, inl, inr, String, Bool, true, false, not, ◌&&◌, Option, none, some, List,
  ◌==◌, leb, str_eq, if◌then◌else◌,
}
use good_food_be.Store.{Table, Result, done, failed, get, message}
use good_food_be.Http.{
  Response, ok, error, error_struct, Action, ◌>>=◌, ◌>>◌, pure, error_if, parsed, or_message, read,
  write,
}

-- models.Account
pub record Account : Type 0 where
  pub account_id : ℕ
  pub username : String
  pub password : String
  pub phone_number : Option String
  pub email : String
  pub full_name : String
  pub gender : Bool
  pub avatar : Option String
  pub status : Bool
  pub role : Bool
  pub email_verified : Bool

-- dto.UserError
pub record UserError : Type 0 where
  pub err_name : String
  pub err_username : String
  pub err_phone : String
  pub err_email : String
  pub err_password : String

-- dto.ChangePassRequest
pub record ChangePassRequest : Type 0 where
  pub account_id : ℕ
  pub old_password : String
  pub new_password : String
  pub confirm_password : String

-- dto.ChangePassErr; its fourth field is never set.
pub record ChangePassErr : Type 0 where
  pub err_old_password : String
  pub err_new_password : String
  pub err_confirm_password : String

-- bcrypt.GenerateFromPassword, whose error has a text, and whether CompareHashAndPassword returns nil.
pub record Bcrypt : Type 0 where
  pub generate : String → Result String
  pub matches : String → String → Bool
  pub matches_generate :
      (password hashed : String) → generate password ≡ done hashed → matches hashed password ≡ true

abbrev pub account_key : Account → ℕ
account_key a = a.account_id

abbrev pub AccountTable : Type 0
AccountTable = Table account_key (λ a id. record a { account_id = id })

-- The account under an ID.
abbrev pub account_of : ℕ → List Account → Option Account
account_of = get account_key

-- `null.String.String`: the empty text where it is null.
abbrev pub or_empty : Option String → String
or_empty none = ""
or_empty (some text) = text

-- `column = $1` of SQL, which no null satisfies.
abbrev pub is_phone : String → Option String → Bool
is_phone text none = false
is_phone text (some phone) = str_eq phone text

-- One field's check in validationUser: empty, or already there. A query that fails counts as not there.
abbrev pub taken : String → String → String → Result Bool → String
taken text empty_text exists_text (failed e) = if str_eq text "" then empty_text else ""
taken text empty_text exists_text (done b) =
    if str_eq text "" then empty_text else if b then exists_text else ""

module _ (db : AccountTable) where
  -- The texts of the error object; an empty one is no error.
  unfoldable pub user_errors : Account → Bool → Bool → Bool → Bool → List Account → UserError
  user_errors user has_password has_username has_email has_phone t = record {
    err_name = if str_eq user.full_name "" then "Please input your full name!" else "";
    err_username =
        if has_username
        then taken user.username "Please input your username!" "Username already exists!"
            (db.exists (λ a. str_eq a.username user.username) t)
        else "";
    err_phone =
        if has_phone
        then taken (or_empty user.phone_number) "Please input your phone number!"
            "Phone number already exists!"
            (db.exists (λ a. is_phone (or_empty user.phone_number) a.phone_number) t)
        else "";
    err_email =
        if has_email
        then taken user.email "Please input your email!" "Email already exists!"
            (db.exists (λ a. str_eq a.email user.email) t)
        else "";
    err_password =
        if has_password
        then if str_eq user.password "" then "Please input your password!" else ""
        else "";
  }

  -- `isValid` is set to false exactly where a text is set.
  abbrev pub no_errors : UserError → Bool
  no_errors e =
      str_eq e.err_name ""
      && str_eq e.err_username ""
      && str_eq e.err_phone ""
      && str_eq e.err_email ""
      && str_eq e.err_password ""

  unfoldable pub validation_user :
      Account → Bool → Bool → Bool → Bool → List Account → Bool × UserError
  unfolding user_errors
  validation_user user has_password has_username has_email has_phone t =
      let e = user_errors user has_password has_username has_email has_phone t in (no_errors e, e)

  -- `if valid, errObj := validationUser(…); !valid { return service.SendErrorStruct(c, code, errObj) }`
  abbrev pub valid_or : Bool × UserError → ℕ → Action (List Account) UserError ⊤
  valid_or (true, e) code t = (ok tt, t)
  valid_or (false, e) code t = (error_struct code e, t)

  unfoldable pub handle_register : Bcrypt → Option Account → Action (List Account) UserError Account
  handle_register bcrypt body = do
    user ← parsed body 400 "Invalid request body"
    t ← read
    valid_or (validation_user user true true true true t) 500
    hashed_pass ← or_message (bcrypt.generate user.password) 500
    (row, t') ← or_message (db.insert (record user { password = hashed_pass }) t) 500
    write t'
    pure row

  unfoldable pub admin_user_create : Option Account → Action (List Account) UserError Account
  admin_user_create body = do
    user ← parsed body 400 "Invalid body!"
    t ← read
    valid_or (validation_user user false true false false t) 400
    (row, t') ← or_message (db.insert user t) 500
    write t'
    pure row

  -- The fields that HandleUpdateAccount takes from the body; the gender is not one of them.
  abbrev pub updated_account : Account → Account → Account
  updated_account account body = record account {
    full_name = body.full_name;
    phone_number = some (or_empty body.phone_number);
    email = body.email;
    avatar =
        if str_eq (or_empty body.avatar) "" then account.avatar else some (or_empty body.avatar);
  }

  unfoldable pub handle_update_account :
      ℕ → Option Account → Action (List Account) UserError Account
  handle_update_account account_id body' = do
    error_if (account_id == 0) 400 "Did not receive accountID!"
    body ← parsed body' 400 "Invalid request body"
    t ← read
    account ← or_message (db.one (λ a. a.account_id == account_id) t) 500
    valid_or
        (validation_user body false false (not (str_eq body.email account.email))
          (not (str_eq (or_empty body.phone_number) (or_empty account.phone_number))) t)
        400
    t' ← or_message (db.update (updated_account account body) t) 500
    write t'
    pure (updated_account account body)

  unfoldable pub admin_user_update : ℕ → Option Account → Action (List Account) UserError Account
  admin_user_update account_id body = do
    error_if (account_id == 0) 400 "Did not receive accountID"
    user_body ← parsed body 400 "Invalid body!"
    t ← read
    user ← or_message (db.one (λ a. a.account_id == account_id) t) 500
    let user' = record user {
      full_name = user_body.full_name;
      role = user_body.role;
      gender = user_body.gender;
      status = user_body.status;
    }
    t' ← or_message (db.update user' t) 500
    write t'
    pure user'
