-- ===== src/Store/Laws.antt =====
-- What a successful write has done, told by the keys: the form in which the handlers' theorems use the
-- laws of `Table`.
use good_food_be.Base.{ℕ, ◌≡◌, ◌≢◌, none, some, List, ◌==◌, ==_refl, ==_ne, ==_sound, sym, subst}
use good_food_be.Store.{Table, done, get}

-- No row but the one under `j` differs.
abbrev pub Elsewhere : {Row : Type 0} → (Row → ℕ) → ℕ → List Row → List Row → Type 0
Elsewhere key j t t' = (k : ℕ) → k ≢ j → get key k t' ≡ get key k t

module _ {Row : Type 0} {key : Row → ℕ} {with_key : Row → ℕ → Row} (db : Table key with_key) where
  pub update-Writes :
      (r old : Row) (t t' : List Row)
      → db.update r t ≡ done t'
      → get key (key r) t ≡ some old
      → (get key (key r) t' ≡ some r) × Elsewhere key (key r) t t'
  update-Writes r old t t' e here = (
    rw (db.update_get r t t' (key r) e, here, ==_refl (key r)),
    λ k ne. rw (db.update_get r t t' k e, ==_ne (key r) k (λ s. ne (sym s))),
  )

  pub delete-Removes :
      (r : Row) (t t' : List Row)
      → db.delete r t ≡ done t'
      → (get key (key r) t' ≡ none) × Elsewhere key (key r) t t'
  delete-Removes r t t' e = (
    rw (db.delete_get r t t' (key r) e, ==_refl (key r)),
    λ k ne. rw (db.delete_get r t t' k e, ==_ne (key r) k (λ s. ne (sym s))),
  )

  pub insert-Adds :
      (r r' : Row) (t t' : List Row)
      → db.insert r t ≡ done (r', t')
      → (get key (key r') t ≡ none)
        × (r' ≡ with_key r (key r'))
        × (get key (key r') t' ≡ some r')
        × Elsewhere key (key r') t t'
  insert-Adds r r' t t' e = (
    (db.insert_new r r' t t' e).0,
    (db.insert_new r r' t t' e).1,
    rw (db.insert_get r r' t t' (key r') e, ==_refl (key r')),
    λ k ne. rw (db.insert_get r r' t t' k e, ==_ne (key r') k (λ s. ne (sym s))),
  )

  -- A search by primary key finds the row under it.
  pub one_by_key :
      (id : ℕ) (t : List Row) (r : Row)
      → db.one (λ x. key x == id) t ≡ done r
      → (key r ≡ id) × (get key id t ≡ some r)
  one_by_key id t r e =
      let (hit, here) = db.one_found (λ x. key x == id) t r e in
      (==_sound (key r) id hit, subst (λ k. get key k t ≡ some r) (==_sound (key r) id hit) here)
