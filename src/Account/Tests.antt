-- ===== src/Account/Tests.antt =====
-- Registration and the change of a password on a small table.
use good_food_be.Base.{
  Option, ◌≡◌, refl, ap, subst, String, true, false, some, none, [], ◌∷◌, str_eq, str_eq_refl,
}
use good_food_be.Store.{done, failed}
use good_food_be.Store.Memory.{memory, memory_run}
use good_food_be.Http.{ok, Ends}
use good_food_be.Account.{
  Account, AccountTable, Bcrypt, ChangePassRequest, account_key, handle_register, validation_user,
  user_errors,
}
use good_food_be.Account.Password.{Changes, change_password_submit, change_password_submit-Changes}
use good_food_be.Auth.Memory.{sessions_server}
use good_food_be.Auth.Tests.{jwt, hash, serves, claims_a, start}
use good_food_be.Account.Login.{Client, refresh_token, handle_logout, handle_logout-refresh_token}
use good_food_be.Http.{error, panic}
use good_food_be.Account.Memory.{unique_db, unique_insert, unique_db-UniqueEmail}
use good_food_be.Auth.{RotateError}
use good_food_be.Store.{no_rows}
use good_food_be.Account.Oauth.{
  OauthTable, Profile, State, ShutOut, oauth_key, handle_oauth_login, handle_oauth_login-ShutOut,
}
use good_food_be.Cache.{Redis}
use good_food_be.Cache.Server.{server, empty}
use good_food_be.Account.Reset as reset
use good_food_be.Account.Reset.{
  Json, ResetPass, ResetMail, Resets, IgnoresToken, handle_reset_password, validate_reset_token,
  handle_reset_password-Resets,
}
use good_food_be.Account.Register.{Registers, handle_register-Registers}

abbrev db : AccountTable
db = memory account_key (λ a id. record a { account_id = id }) (λ a id. refl)

-- A hash that hides nothing.
abbrev bcrypt : Bcrypt
bcrypt = record {
  generate = λ p. done p;
  matches = str_eq;
  matches_generate = λ p h e.
      subst (λ x. str_eq x p ≡ true) (ap (λ r. elim r [ done x ↦ x | failed f ↦ p ]) e)
        (str_eq_refl p);
}

abbrev an : Account
an = record {
  account_id = 1;
  username = "an";
  password = "rice and soup";
  phone_number = some "0900000001";
  email = "an@example.com";
  full_name = "An";
  gender = true;
  avatar = none;
  status = true;
  role = false;
  email_verified = true;
}

abbrev binh : Account
binh = record an {
  account_id = 0;
  username = "binh";
  phone_number = some "0900000002";
  email = "binh@example.com";
}

abbrev request : ChangePassRequest
request = record {
  account_id = 1;
  old_password = "rice and soup";
  new_password = "soup and rice";
  confirm_password = "soup and rice";
}

handle_register-Registers_example :
    Ends
      (Registers db bcrypt binh (an ∷ []))
      (an ∷ [])
      (handle_register db bcrypt (some binh) (an ∷ []))
handle_register-Registers_example = handle_register-Registers db bcrypt binh (an ∷ [])

register_run :
    (handle_register db bcrypt (some binh) (an ∷ [])).0 ≡ ok (record binh { account_id = 2 })
unfolding handle_register validation_user user_errors memory_run
register_run = refl

change_password_submit-Changes_example :
    Ends
      (λ body t'. (body ≡ request) × Changes db bcrypt request (an ∷ []) t')
      (an ∷ [])
      (change_password_submit db bcrypt (some request) (an ∷ []))
change_password_submit-Changes_example = change_password_submit-Changes db bcrypt request (an ∷ [])

abbrev library_text : RotateError → String
library_text e = "token is malformed"

abbrev browser : Client
browser = record { refresh_cookie = "token_a"; user_agent = "browser"; ip = "10.0.0.1" }

abbrev curl : Client
curl = record { refresh_cookie = "token_a"; user_agent = "curl"; ip = "10.0.0.9" }

handle_logout-refresh_token_example :
    (text : String) × (refresh_token jwt sessions_server hash library_text 9 "c" curl
        (handle_logout jwt sessions_server hash library_text 1 browser start).1
      ≡ (error 401 text, (handle_logout jwt sessions_server hash library_text 1 browser start).1))
handle_logout-refresh_token_example =
    handle_logout-refresh_token jwt sessions_server hash library_text serves 1 browser claims_a
      start refl refl 9 "c" curl refl

abbrev oauths : OauthTable
oauths = memory oauth_key (λ o id. record o { oauth_id = id }) (λ o id. refl)

-- The provider's name for the user is the username in the session's tokens.
abbrev profile : Profile
profile = record {
  provider = "google";
  provider_user_id = "an";
  email = "an@example.com";
  full_name = "An";
  avatar_url = "";
}

abbrev before : State
before = record { accounts = an ∷ []; oauths = []; sessions = start }

unknown : oauths.one (λ o. str_eq o.provider_user_id "an") [] ≡ failed no_rows
unfolding memory_run
unknown = refl

handle_oauth_login-ShutOut_example :
    ShutOut jwt sessions_server hash library_text unique_db oauths bcrypt profile before (
      handle_oauth_login jwt sessions_server hash library_text unique_db oauths bcrypt 1 "b" browser
        profile before)
handle_oauth_login-ShutOut_example =
    handle_oauth_login-ShutOut jwt sessions_server hash library_text unique_db oauths bcrypt 1 "b"
      browser profile before unique_db-UniqueEmail no_rows unknown

-- A profile with a new mail address: the nil account is dereferenced.
new_user_run :
    (handle_oauth_login jwt sessions_server hash library_text unique_db oauths bcrypt 1 "b" browser
      (record profile { email = "new@example.com" })
      before).0
    ≡ panic
unfolding handle_oauth_login memory_run unique_insert
new_user_run = refl

abbrev redis : Redis Json
redis = server

abbrev enqueue : ResetMail → Option String
enqueue mail = none

abbrev forgotten : reset.State
forgotten = record { accounts = an ∷ []; cache = empty; queue = [] }

abbrev guess : ResetPass
guess = record { token = "guess"; new_pass = "soup and rice"; email = "an@example.com" }

handle_reset_password-Resets_example :
    Ends
      (λ u s'. Resets db redis bcrypt enqueue guess forgotten s')
      forgotten
      (handle_reset_password db redis bcrypt enqueue (some guess) forgotten)
    × IgnoresToken db redis bcrypt enqueue guess forgotten
handle_reset_password-Resets_example =
    handle_reset_password-Resets db redis bcrypt enqueue guess forgotten
