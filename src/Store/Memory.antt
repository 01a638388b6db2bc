-- ===== src/Store/Memory.antt =====
-- A table in memory that meets the laws of `Table`: the hypotheses can hold, and the tests run on it.
use good_food_be.Base.{
  ℕ, suc, ◌≡◌, ◌≤◌, refl, sym, ◌∙◌, Bool, true, false, none, some, List, [], ◌∷◌, ◌==◌, ap, subst,
  if◌then◌else◌, is_some, All, length, take, drop, arith, Option-cases, inl, inr, ◌&&◌,
}
use good_food_be.Base.Int.{ℤ, pos, negsuc}
use good_food_be.Store.{no_rows, Result, done, failed, fault, chosen, get, has_key, Table, tally}
use good_food_be.Store.Rows.{
  done-injective, IsWanted, find_from, filter_from, replace, remove, remove_all, next_key,
  find_from-IsWanted, filter_from-All, find_from-none, get-has_key, get-filter_from, get-replace,
  get-remove, get-remove_all, get-next_key, All-drop, All-take, length-take-le,
}

module _ {Row : Type 0} (key : Row → ℕ) where
  unfoldable pub memory_one : (Row → Bool) → List Row → Result Row
  memory_one p t = elim (find_from key p t t) [ none ↦ failed no_rows | some r ↦ done r ]

  pub one_found :
      (p : Row → Bool) (t : List Row) (r : Row) → memory_one p t ≡ done r → IsWanted key p t r
  unfolding memory_one
  one_found p t r e = elim (Option-cases (find_from key p t t)) [
    | inl out ↦ ground arith
    | inr (y, found) ↦
        subst (IsWanted key p t) (ground arith) (find_from-IsWanted key p t t y found)
  ]

  pub one_missing :
      (p : Row → Bool) (t : List Row) (k : ℕ) (r : Row)
      → memory_one p t ≡ failed no_rows
      → get key k t ≡ some r
      → p r ≡ false
  unfolding memory_one
  one_missing p t k r e g = elim (Option-cases (find_from key p t t)) [
    | inl out ↦ find_from-none key p t t k r out (rw (get-has_key key k t, g)) g
    | inr (y, found) ↦ ground arith
  ]

  unfoldable pub memory_all : (Row → Bool) → List Row → List Row
  unfolding filter_from
  memory_all p t = filter_from key p t t

  pub all_found :
      (p : Row → Bool) (t rs : List Row) (k : ℕ)
      → done (memory_all p t) ≡ done rs
      → get key k rs ≡ chosen p (get key k t)
  unfolding memory_all
  all_found p t rs k e =
      subst (λ x. get key k x ≡ chosen p (get key k t)) (done-injective e)
        (ground (arith, get-filter_from key p t t k, get-has_key key k t))

  length-filter_from :
      (p : Row → Bool) (t rs : List Row) → length (filter_from key p t rs) ≡ tally key p t rs
  unfolding filter_from tally
  length-filter_from p t [] = refl
  length-filter_from p t (r ∷ rs) = elim (Option-cases (chosen p (get key (key r) t))) [
    | inl out ↦ rw (out, filter_from, tally) (length-filter_from p t rs)
    | inr (y, found) ↦ rw (found, filter_from, tally) (ap suc (length-filter_from p t rs))
  ]

  pub count_found :
      (p : Row → Bool) (t : List Row) (n : ℕ)
      → done (length (memory_all p t)) ≡ done n
      → n ≡ tally key p t t
  unfolding memory_all
  count_found p t n e = sym (done-injective e) ∙ length-filter_from p t t

  unfoldable pub memory_exists : (Row → Bool) → List Row → Bool
  unfolding find_from
  memory_exists p t = is_some (find_from key p t t)

  pub exists_found :
      (p : Row → Bool) (t : List Row)
      → done (memory_exists p t) ≡ done true
      → (r : Row) × (p r ≡ true) × (get key (key r) t ≡ some r)
  unfolding memory_exists
  exists_found p t e = elim (Option-cases (find_from key p t t)) [
    | inl out ↦ ground arith
    | inr (y, found) ↦ let w = find_from-IsWanted key p t t y found in (y, w.0, w.1)
  ]

  pub exists_missing :
      (p : Row → Bool) (t : List Row) (k : ℕ) (r : Row)
      → done (memory_exists p t) ≡ done false
      → get key k t ≡ some r
      → p r ≡ false
  unfolding memory_exists
  exists_missing p t k r e g = elim (Option-cases (find_from key p t t)) [
    | inl out ↦ find_from-none key p t t k r out (rw (get-has_key key k t, g)) g
    | inr (y, found) ↦ ground arith
  ]

  -- PostgreSQL refuses a negative OFFSET.
  unfoldable pub memory_select : (Row → Bool) → ℕ → ℤ → List Row → Result (List Row)
  unfolding filter_from
  memory_select p n (pos m) t = done (take n (drop m (filter_from key p t t)))
  memory_select p n (negsuc m) t = failed (fault "OFFSET must not be negative")

  pub select_found :
      (p : Row → Bool) (n : ℕ) (m : ℤ) (t rs : List Row)
      → memory_select p n m t ≡ done rs
      → (length rs ≤ n) × All (IsWanted key p t) rs
  unfolding memory_select
  select_found p n (pos m) t rs e =
      subst (λ x. (length x ≤ n) × All (IsWanted key p t) x) (done-injective e)
        (
          length-take-le key n _,
          All-take key (IsWanted key p t) n _
              (All-drop key (IsWanted key p t) m _ (filter_from-All key p t t)),
        )
  select_found p n (negsuc m) t rs e = ground arith

  pub update_get :
      (r : Row) (t t' : List Row) (k : ℕ)
      → done (replace key r t) ≡ done t'
      → get key k t' ≡ (if key r == k && is_some (get key k t) then some r else get key k t)
  update_get r t t' k e = rw (← done-injective e) (get-replace key r t k)

  pub delete_get :
      (r : Row) (t t' : List Row) (k : ℕ)
      → done (remove key (key r) t) ≡ done t'
      → get key k t' ≡ (if key r == k then none else get key k t)
  delete_get r t t' k e = rw (← done-injective e) (get-remove key (key r) t k)

  pub delete_all_get :
      (rs t t' : List Row) (k : ℕ)
      → done (remove_all key rs t) ≡ done t'
      → get key k t' ≡ (if has_key key k rs then none else get key k t)
  delete_all_get rs t t' k e = rw (← done-injective e) (get-remove_all key rs t k)

  module _ (with_key : Row → ℕ → Row)
      (key-with_key : (r : Row) (k : ℕ) → key (with_key r k) ≡ k) where
    -- `with_key` is the assignment of the generated key to the struct.
    unfoldable pub memory_insert : Row → List Row → Result (Row × List Row)
    unfolding next_key
    memory_insert r t = done (with_key r (next_key key t), with_key r (next_key key t) ∷ t)

    pub insert_new :
        (r r' : Row) (t t' : List Row)
        → memory_insert r t ≡ done (r', t')
        → (get key (key r') t ≡ none) × (r' ≡ with_key r (key r'))
    unfolding memory_insert
    insert_new r r' t t' e =
        let same : with_key r (next_key key t) ≡ r' = ap (λ x. x.0) (done-injective e) in
        subst (λ x. (get key (key x) t ≡ none) × (x ≡ with_key r (key x))) same
          (
            rw (key-with_key r (next_key key t))
                (get-next_key key t (next_key key t) (omega arith)),
            rw (key-with_key r (next_key key t)),
          )

    pub insert_get :
        (r r' : Row) (t t' : List Row) (k : ℕ)
        → memory_insert r t ≡ done (r', t')
        → get key k t' ≡ (if key r' == k then some r' else get key k t)
    unfolding memory_insert
    insert_get r r' t t' k e =
        subst
          (λ (x : Row × List Row). get key k x.1 ≡ (if key x.0 == k then some x.0 else get key k t))
          (done-injective e) refl

    abbrev pub memory : Table key with_key
    memory = record {
      one = memory_one;
      all = λ p t. done (memory_all p t);
      select = memory_select;
      count = λ p t. done (length (memory_all p t));
      exists = λ p t. done (memory_exists p t);
      insert = memory_insert;
      update = λ r t. done (replace key r t);
      delete = λ r t. done (remove key (key r) t);
      delete_all = λ rs t. done (remove_all key rs t);
      one_found = one_found;
      one_missing = one_missing;
      all_found = all_found;
      select_found = select_found;
      count_found = count_found;
      exists_found = exists_found;
      exists_missing = exists_missing;
      insert_new = insert_new;
      insert_get = insert_get;
      update_get = update_get;
      delete_get = delete_get;
      delete_all_get = delete_all_get;
    }

-- What a run of a handler on a table in memory computes with.
unfoldable pub memory_run : Unit {0}
unfolding memory_one memory_all memory_exists memory_select memory_insert find_from filter_from
    replace remove remove_all next_key
memory_run = tt
