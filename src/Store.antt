-- ===== src/Store.antt =====
-- The boundary to PostgreSQL. The handlers reach a table through the query builder
-- (One, All, Count, Exists, Insert, Update, Delete of GoodFood-BE/models, which is generated and
-- only builds SQL); the engine behind it is no code of the repository. `Table` is what the code
-- relies on: the calls, each of which may fail, and the documented meaning of a call that succeeds,
-- told through `get`, the row that stands under a primary key.
pub mod Rows
pub mod Memory
pub mod Laws
use good_food_be.Base.{
  ℕ, suc, String, ◌≡◌, ◌⊎◌, inl, inr, refl, ◌≤◌, Bool, true, false, Option, none, some, List, [],
  ◌∷◌, ◌&&◌, ◌||◌, ◌==◌, if◌then◌else◌, is_some, All, Elem, length,
}
use good_food_be.Base.Int.{ℤ}

-- `sql.ErrNoRows`, or any other error with its text.
pub data DbError : Type 0 where
  no_rows : DbError
  fault : String → DbError

-- `err.Error()`
abbrev pub message : DbError → String
message no_rows = "sql: no rows in result set"
message (fault text) = text

pub data Result (A : Type 0) : Type 0 where
  done : A → Result A
  failed : DbError → Result A

pub Result-cases :
    {A : Type 0} (r : Result A) → ((a : A) × (r ≡ done a)) ⊎ ((e : DbError) × (r ≡ failed e))
Result-cases (done a) = inl (a, refl)
Result-cases (failed e) = inr (e, refl)

module _ {Row : Type 0} (key : Row → ℕ) where
  -- The row under a primary key.
  abbrev pub get : ℕ → List Row → Option Row
  get k [] = none
  get k (r ∷ rs) = if key r == k then some r else get k rs

  -- Whether a row of the list has the key.
  abbrev pub has_key : ℕ → List Row → Bool
  has_key k [] = false
  has_key k (r ∷ rs) = key r == k || has_key k rs

-- The row, if the condition holds of it.
abbrev pub chosen : {Row : Type 0} → (Row → Bool) → Option Row → Option Row
chosen p none = none
chosen p (some r) = if p r then some r else none

-- The rows of a list that stand in the table and meet the condition.
unfoldable pub tally : {Row : Type 0} → (Row → ℕ) → (Row → Bool) → List Row → List Row → ℕ
tally key p t [] = 0
tally key p t (r ∷ rs) = elim (chosen p (get key (key r) t)) [
  | none ↦ tally key p t rs
  | some x ↦ suc (tally key p t rs)
]

-- One table, given its primary key and the assignment of a generated key: the calls on it, and what
-- they mean when they succeed.
pub record Table {Row : Type 0} (key : Row → ℕ) (with_key : Row → ℕ → Row) : Type 0 where
  -- SELECT … WHERE p LIMIT 1
  pub one : (Row → Bool) → List Row → Result Row
  -- SELECT … WHERE p
  pub all : (Row → Bool) → List Row → Result (List Row)
  -- SELECT … WHERE p ORDER BY key DESC LIMIT n OFFSET m, with n and m in this order
  pub select : (Row → Bool) → ℕ → ℤ → List Row → Result (List Row)
  -- SELECT COUNT(*) … WHERE p
  pub count : (Row → Bool) → List Row → Result ℕ
  -- SELECT EXISTS (… WHERE p)
  pub exists : (Row → Bool) → List Row → Result Bool
  pub insert : Row → List Row → Result (Row × List Row)
  pub update : Row → List Row → Result (List Row)
  pub delete : Row → List Row → Result (List Row)
  pub delete_all : List Row → List Row → Result (List Row)
  pub one_found :
      (p : Row → Bool) (t : List Row) (r : Row)
      → one p t ≡ done r
      → (p r ≡ true) × (get key (key r) t ≡ some r)
  pub one_missing :
      (p : Row → Bool) (t : List Row) (k : ℕ) (r : Row)
      → one p t ≡ failed no_rows
      → get key k t ≡ some r
      → p r ≡ false
  pub all_found :
      (p : Row → Bool) (t rs : List Row) (k : ℕ)
      → all p t ≡ done rs
      → get key k rs ≡ chosen p (get key k t)
  pub select_found :
      (p : Row → Bool) (n : ℕ) (m : ℤ) (t rs : List Row)
      → select p n m t ≡ done rs
      → (length rs ≤ n) × All (λ r. (p r ≡ true) × (get key (key r) t ≡ some r)) rs
  pub count_found :
      (p : Row → Bool) (t : List Row) (n : ℕ) → count p t ≡ done n → n ≡ tally key p t t
  pub exists_found :
      (p : Row → Bool) (t : List Row)
      → exists p t ≡ done true
      → (r : Row) × (p r ≡ true) × (get key (key r) t ≡ some r)
  pub exists_missing :
      (p : Row → Bool) (t : List Row) (k : ℕ) (r : Row)
      → exists p t ≡ done false
      → get key k t ≡ some r
      → p r ≡ false
  -- A new row takes a key that is not in use, its own or the next of the sequence.
  pub insert_new :
      (r r' : Row) (t t' : List Row)
      → insert r t ≡ done (r', t')
      → (get key (key r') t ≡ none) × (r' ≡ with_key r (key r'))
  pub insert_get :
      (r r' : Row) (t t' : List Row) (k : ℕ)
      → insert r t ≡ done (r', t')
      → get key k t' ≡ (if key r' == k then some r' else get key k t)
  -- UPDATE … WHERE key = …: a row that is not there is not written.
  pub update_get :
      (r : Row) (t t' : List Row) (k : ℕ)
      → update r t ≡ done t'
      → get key k t' ≡ (if key r == k && is_some (get key k t) then some r else get key k t)
  pub delete_get :
      (r : Row) (t t' : List Row) (k : ℕ)
      → delete r t ≡ done t'
      → get key k t' ≡ (if key r == k then none else get key k t)
  pub delete_all_get :
      (rs t t' : List Row) (k : ℕ)
      → delete_all rs t ≡ done t'
      → get key k t' ≡ (if has_key key k rs then none else get key k t)
