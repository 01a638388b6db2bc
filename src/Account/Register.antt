-- ===== src/Account/Register.antt =====
-- What a registration guarantees.
use good_food_be.Base.{
  ℕ, ◌≡◌, ◌≢◌, inl, inr, refl, subst, String, Bool, true, false, none, some, List, str_eq,
  Bool-cases, arith,
}
use good_food_be.Store.{DbError, done, failed, Result-cases}
use good_food_be.Store.Laws.{Elsewhere, insert-Adds}
use good_food_be.Http.{Ends}
use good_food_be.Account.{
  Account, AccountTable, Bcrypt, account_key, account_of, or_empty, is_phone, taken,
  validation_user, handle_register,
}

module _ (db : AccountTable) where
  -- If the query has an answer, no account satisfies the condition.
  unfoldable pub Free : (Account → Bool) → List Account → Type 0
  Free p t =
      ((e : DbError) → db.exists p t ≢ failed e)
      → (k : ℕ) (a : Account) → account_of k t ≡ some a
      → p a ≡ false

  taken-Free :
      (p : Account → Bool) (t : List Account) (text empty_text exists_text : String)
      → str_eq empty_text "" ≡ false
      → str_eq exists_text "" ≡ false
      → str_eq (taken text empty_text exists_text (db.exists p t)) "" ≡ true
      → Free p t
  unfolding Free
  taken-Free p t text empty_text exists_text full there fine answers k a here =
      elim (Result-cases (db.exists p t)) [
        | inr (e, wrong) ↦ absurd (answers e wrong)
        | inl (false, out) ↦ db.exists_missing p t k a out here
        | inl (true, in_use) ↦ absurd (
            refuted (str_eq text "") refl
              (subst (λ r. str_eq (taken text empty_text exists_text r) "" ≡ true) in_use fine))
      ]
    where
      refuted :
          (b : Bool)
          → str_eq text "" ≡ b
          → str_eq (taken text empty_text exists_text (done true)) "" ≡ true
          → ⊥
      refuted b same fine' = ground arith

  -- The account's name, mail address and phone number are no other account's.
  abbrev pub AllFree : Account → List Account → Type 0
  AllFree user t =
      Free (λ a. str_eq a.username user.username) t
      × Free (λ a. str_eq a.email user.email) t
      × Free (λ a. is_phone (or_empty user.phone_number) a.phone_number) t

  valid-AllFree :
      (user : Account) (t : List Account)
      → (validation_user db user true true true true t).0 ≡ true
      → AllFree user t
  unfolding validation_user
  valid-AllFree user t valid = (
    taken-Free (λ a. str_eq a.username user.username) t user.username "Please input your username!"
        "Username already exists!" refl refl (ground arith),
    taken-Free (λ a. str_eq a.email user.email) t user.email "Please input your email!"
        "Email already exists!" refl refl (ground arith),
    taken-Free (λ a. is_phone (or_empty user.phone_number) a.phone_number) t
        (or_empty user.phone_number) "Please input your phone number!"
        "Phone number already exists!" refl refl (ground arith),
  )

  module _ (bcrypt : Bcrypt) where
    -- The row is new and the body's, with a password that the body's matches; no other row has changed.
    abbrev pub Registers : Account → List Account → Account → List Account → Type 0
    Registers user t row t' =
        (hashed : String) × (row ≡ record user { account_id = row.account_id; password = hashed })
        × (bcrypt.matches hashed user.password ≡ true)
        × (account_of row.account_id t ≡ none)
        × (account_of row.account_id t' ≡ some row)
        × Elsewhere account_key row.account_id t t'
        × AllFree user t

    -- HandleRegister answers 200 only with a new row that carries the fields of the body and a hash of its
    -- password, and then no account had its username, mail address or phone number, so far as the query
    -- for it had an answer; no other row has changed. With an error no row has changed.
    pub handle_register-Registers :
        (user : Account) (t : List Account)
        → Ends (Registers user t) t (handle_register db bcrypt (some user) t)
    unfolding handle_register
    handle_register-Registers user t =
        elim (Bool-cases (validation_user db user true true true true t).0) [
          | inr invalid ↦ rw invalid refl
          | inl valid ↦ elim (Result-cases (bcrypt.generate user.password)) [
            | inr (e, wrong) ↦ rw (valid, wrong) refl
            | inl (hashed, made) ↦
                elim (Result-cases (db.insert (record user { password = hashed }) t)) [
                  | inr (e, wrong) ↦ rw (valid, made, wrong) refl
                  | inl ((row, t'), wrote) ↦
                      let (fresh, same, now, others) =
                        insert-Adds db (record user { password = hashed }) row t t' wrote in
                      rw (valid, made, wrote)
                        (
                          hashed,
                          same,
                          bcrypt.matches_generate user.password hashed made,
                          fresh,
                          now,
                          others,
                          valid-AllFree user t valid,
                        )
                ]
          ]
        ]
