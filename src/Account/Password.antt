-- ===== src/Account/Password.antt =====
-- The change of a password: GoodFood-BE/internal/server/handlers/changepassword.go. The cookie that the
-- answer sets is not modelled.
use Prim.Native.String.{len}
use good_food_be.Base.{
  ⊤, ◌≡◌, ◌<◌, inl, inr, refl, sym, subst, String, Bool, true, false, not, ◌&&◌, Option, some, List,
  ◌==◌, leb, str_eq, if◌then◌else◌, Bool-cases, arith, str_eq_iff,
}
use good_food_be.Store.{Result-cases}
use good_food_be.Store.Laws.{Elsewhere, update-Writes, one_by_key}
use good_food_be.Http.{
  ok, error_struct, Action, ◌>>=◌, ◌>>◌, pure, parsed, or_message, read, write, Ends,
}
use good_food_be.Account.{
  Account, AccountTable, ChangePassRequest, ChangePassErr, Bcrypt, account_key, account_of,
}

module _ (db : AccountTable) (bcrypt : Bcrypt) where
  -- `len` counts bytes, as Go's does.
  abbrev pub old_password_error : String → String → String
  old_password_error stored old =
      if leb (len old) 7
      then "Old password needs to be at least 8 characters!"
      else if not (bcrypt.matches stored old)
      then "Wrong password!"
      else ""

  abbrev pub new_password_error : String → String → String
  new_password_error stored new =
      if leb (len new) 7
      then "New password needs to be at least 8 characters!"
      else if bcrypt.matches stored new
      then "New password can't be old password!"
      else ""

  unfoldable pub validate_change_pass : ChangePassRequest → Account → ChangePassErr × Bool
  validate_change_pass body user = (
    record {
      err_old_password = old_password_error user.password body.old_password;
      err_new_password = new_password_error user.password body.new_password;
      err_confirm_password =
          if str_eq body.confirm_password body.new_password then "" else "Password does not match!";
    },
    not (leb (len body.old_password) 7)
        && bcrypt.matches user.password body.old_password
        && not (leb (len body.new_password) 7)
        && not (bcrypt.matches user.password body.new_password)
        && str_eq body.confirm_password body.new_password,
  )

  abbrev pub valid_change : ChangePassErr × Bool → Action (List Account) ChangePassErr ⊤
  valid_change (e, true) t = (ok tt, t)
  valid_change (e, false) t = (error_struct 400 e, t)

  unfoldable pub change_password_submit :
      Option ChangePassRequest → Action (List Account) ChangePassErr ChangePassRequest
  change_password_submit request = do
    body ← parsed request 400 "Invalid body"
    t ← read
    user ← or_message (db.one (λ a. a.account_id == body.account_id) t) 404
    valid_change (validate_change_pass body user)
    hashed_pass ← or_message (bcrypt.generate body.new_password) 500
    t' ← or_message (db.update (record user { password = hashed_pass }) t) 500
    write t'
    pure body

  -- The account knew the old password, the new one is at least 8 bytes long and confirmed, and the account's
  -- row now accepts it; no other account has changed.
  abbrev pub Changes : ChangePassRequest → List Account → List Account → Type 0
  Changes body t t' =
      (user : Account) × (hashed : String) × (account_of body.account_id t ≡ some user)
      × (bcrypt.matches user.password body.old_password ≡ true)
      × (7 < len body.new_password)
      × (body.confirm_password ≡ body.new_password)
      × (account_of body.account_id t' ≡ some (record user { password = hashed }))
      × (bcrypt.matches hashed body.new_password ≡ true)
      × Elsewhere account_key body.account_id t t'

  -- ChangePasswordSubmit answers 200 only if the old password is the account's and the new one is confirmed
  -- and at least 8 bytes long; then the account accepts the new password and no other row has changed. With
  -- an error no row has changed.
  pub change_password_submit-Changes :
      (body : ChangePassRequest) (t : List Account)
      → Ends
          (λ body' t'. (body' ≡ body) × Changes body t t')
          t
          (change_password_submit (some body) t)
  unfolding change_password_submit validate_change_pass
  change_password_submit-Changes body t =
      elim (Result-cases (db.one (λ a. a.account_id == body.account_id) t)) [
        | inr (e, wrong) ↦ rw wrong refl
        | inl (user, found) ↦ elim (Bool-cases (validate_change_pass body user).1) [
          | inr invalid ↦ rw (found, invalid) refl
          | inl valid ↦ elim (Result-cases (bcrypt.generate body.new_password)) [
            | inr (e, wrong) ↦ rw (found, valid, wrong) refl
            | inl (hashed, made) ↦
                elim (Result-cases (db.update (record user { password = hashed }) t)) [
                  | inr (e, wrong) ↦ rw (found, valid, made, wrong) refl
                  | inl (t', wrote) ↦
                      let (same, here) = one_by_key db body.account_id t user found in
                      let (now, others) =
                        update-Writes db (record user { password = hashed }) user t t' wrote
                          (subst (λ j. account_of j t ≡ some user) (sym same) here) in
                      rw (found, valid, made, wrote)
                        (
                          refl,
                          (
                            user,
                            hashed,
                            here,
                            ground arith,
                            ground arith,
                            (str_eq_iff body.confirm_password body.new_password).0 (ground arith),
                            subst (λ j. account_of j t' ≡ some (record user { password = hashed }))
                                same now,
                            bcrypt.matches_generate body.new_password hashed made,
                            subst (λ j. Elsewhere account_key j t t') same others,
                          ),
                        )
                ]
          ]
        ]
      ]
