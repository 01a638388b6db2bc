-- ===== src/Account/Memory.antt =====
-- A table of accounts in memory with the constraint UNIQUE (email) of
-- GoodFood-BE/migrations/0001_init.up.sql.
use good_food_be.Base.{
  ℕ, ◌≡◌, refl, inl, inr, String, Bool, false, some, none, List, [], ◌∷◌, ◌||◌, ◌==◌, str_eq,
  if◌then◌else◌, Bool-cases, arith,
}
use good_food_be.Store.{Result, done, failed, fault, get}
use good_food_be.Store.Memory.{memory, memory_insert, insert_new, insert_get}
use good_food_be.Account.{Account, AccountTable, account_key, account_of}

abbrev pub has_email : String → List Account → Bool
has_email email [] = false
has_email email (a ∷ rest) = str_eq a.email email || has_email email rest

refused :
    (a : Account × List Account)
    → failed (fault "duplicate key value violates unique constraint") ≡ done a
    → ⊥
refused a e = ground arith

abbrev pub with_id : Account → ℕ → Account
with_id a id = record a { account_id = id }

unfoldable pub unique_insert : Account → List Account → Result (Account × List Account)
unfolding memory_insert
unique_insert a t =
    if has_email a.email t
    then failed (fault "duplicate key value violates unique constraint")
    else memory_insert account_key with_id (λ x id. refl) a t

pub unique_new :
    (r r' : Account) (t t' : List Account)
    → unique_insert r t ≡ done (r', t')
    → (get account_key (account_key r') t ≡ none) × (r' ≡ with_id r (account_key r'))
unfolding unique_insert
unique_new r r' t t' e = elim (Bool-cases (has_email r.email t)) [
  | inl taken ↦ absurd (refused _ (rw (taken) at e))
  | inr free ↦ insert_new account_key with_id (λ x id. refl) r r' t t' (rw (free) at e)
]

pub unique_get :
    (r r' : Account) (t t' : List Account) (k : ℕ)
    → unique_insert r t ≡ done (r', t')
    → get account_key k t' ≡ (if account_key r' == k then some r' else get account_key k t)
unfolding unique_insert
unique_get r r' t t' k e = elim (Bool-cases (has_email r.email t)) [
  | inl taken ↦ absurd (refused _ (rw (taken) at e))
  | inr free ↦ insert_get account_key with_id (λ x id. refl) r r' t t' k (rw (free) at e)
]

abbrev pub unique_db : AccountTable
unique_db = record (memory account_key with_id (λ a id. refl)) {
  insert = unique_insert;
  insert_new = unique_new;
  insert_get = unique_get;
}

no_email :
    (email : String) (t : List Account) (id : ℕ) (old : Account)
    → has_email email t ≡ false
    → account_of id t ≡ some old
    → str_eq old.email email ≡ false
no_email email [] id old free here = ground arith
no_email email (a ∷ t) id old free here = ground (arith, no_email email t id old)

-- The rows that it takes have a mail address that no other has.
pub unique_db-UniqueEmail :
    (a row old : Account) (t t' : List Account) (id : ℕ)
    → unique_db.insert a t ≡ done (row, t')
    → account_of id t ≡ some old
    → str_eq old.email a.email ≡ false
unfolding unique_insert
unique_db-UniqueEmail a row old t t' id e here = elim (Bool-cases (has_email a.email t)) [
  | inl taken ↦ absurd (refused _ (rw (taken) at e))
  | inr free ↦ no_email a.email t id old free here
]
