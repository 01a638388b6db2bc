-- ===== src/Store/Rows.antt =====
-- Lists of rows as a table: the search, the update and the removal by primary key, and the laws that
-- `get` has of them.
use good_food_be.Base.{
  ℕ, suc, ◌≡◌, ◌≤◌, refl, Bool, true, false, Option, none, some, List, [], ◌∷◌, ◌==◌, ap, subst,
  if◌then◌else◌, is_some, All, length, take, drop, arith, Option-cases, inl, inr, ltb, zero, ◌&&◌,
}
use good_food_be.Store.{Result, done, failed, chosen, get, has_key}

abbrev pub un_done : {A : Type 0} → A → Result A → A
un_done d (done a) = a
un_done d (failed e) = d

pub done-injective : {A : Type 0} {a b : A} → done a ≡ done b → a ≡ b
done-injective {a = a} e = ap (un_done a) e

module _ {Row : Type 0} (key : Row → ℕ) where
  unfoldable pub find_from : (Row → Bool) → List Row → List Row → Option Row
  find_from p t [] = none
  find_from p t (r ∷ rs) = elim (chosen p (get key (key r) t)) [
    | none ↦ find_from p t rs
    | some x ↦ some x
  ]

  unfoldable pub filter_from : (Row → Bool) → List Row → List Row → List Row
  filter_from p t [] = []
  filter_from p t (r ∷ rs) = elim (chosen p (get key (key r) t)) [
    | none ↦ filter_from p t rs
    | some x ↦ x ∷ filter_from p t rs
  ]

  unfoldable pub replace : Row → List Row → List Row
  replace r [] = []
  replace r (x ∷ xs) = if key r == key x then r ∷ xs else x ∷ replace r xs

  unfoldable pub remove : ℕ → List Row → List Row
  remove k [] = []
  remove k (x ∷ xs) = if k == key x then remove k xs else x ∷ remove k xs

  unfoldable pub remove_all : List Row → List Row → List Row
  remove_all [] t = t
  remove_all (r ∷ rs) t = remove_all rs (remove (key r) t)

  -- Above every key in use.
  unfoldable pub next_key : List Row → ℕ
  next_key [] = 1
  next_key (x ∷ xs) = if ltb (key x) (next_key xs) then next_key xs else suc (key x)

  pub key-get : (k : ℕ) (t : List Row) (x : Row) → get key k t ≡ some x → key x ≡ k
  key-get k [] x e = ground arith
  key-get k (r ∷ rs) x e = ground (arith, key-get k rs x)

  abbrev pub IsWanted : (Row → Bool) → List Row → Row → Type 0
  IsWanted p t x = (p x ≡ true) × (get key (key x) t ≡ some x)

  pub chosen-IsWanted :
      (p : Row → Bool) (t : List Row) (k : ℕ) (x : Row)
      → chosen p (get key k t) ≡ some x
      → IsWanted p t x
  chosen-IsWanted p t k x e = elim (Option-cases (get key k t)) [
    | inl out ↦ ground arith
    | inr (y, found) ↦ ground (arith, key-get k t y found)
  ]

  pub find_from-IsWanted :
      (p : Row → Bool) (t rs : List Row) (x : Row) → find_from p t rs ≡ some x → IsWanted p t x
  unfolding find_from
  find_from-IsWanted p t [] x e = ground arith
  find_from-IsWanted p t (r ∷ rs) x e = elim (Option-cases (chosen p (get key (key r) t))) [
    | inl out ↦ find_from-IsWanted p t rs x (rw (out, find_from) at e)
    | inr (y, found) ↦ subst (IsWanted p t) (ground arith) (chosen-IsWanted p t (key r) y found)
  ]

  pub filter_from-All : (p : Row → Bool) (t rs : List Row) → All (IsWanted p t) (filter_from p t rs)
  unfolding filter_from
  filter_from-All p t [] = tt
  filter_from-All p t (r ∷ rs) = elim (Option-cases (chosen p (get key (key r) t))) [
    | inl out ↦ rw (out, filter_from) (filter_from-All p t rs)
    | inr (y, found) ↦
        rw (found, filter_from) (chosen-IsWanted p t (key r) y found, filter_from-All p t rs)
  ]

  pub find_from-none :
      (p : Row → Bool) (t rs : List Row) (k : ℕ) (x : Row)
      → find_from p t rs ≡ none
      → has_key key k rs ≡ true
      → get key k t ≡ some x
      → p x ≡ false
  unfolding find_from
  find_from-none p t [] k x e h g = ground arith
  find_from-none p t (r ∷ rs) k x e h g = ground (arith, find_from-none p t rs k x)

  pub get-has_key : (k : ℕ) (t : List Row) → has_key key k t ≡ is_some (get key k t)
  get-has_key k [] = refl
  get-has_key k (r ∷ rs) = ground (arith, get-has_key k rs)

  pub get-filter_from :
      (p : Row → Bool) (t rs : List Row) (k : ℕ)
      → get key k (filter_from p t rs) ≡ (if has_key key k rs then chosen p (get key k t) else none)
  unfolding filter_from
  get-filter_from p t [] k = refl
  get-filter_from p t (r ∷ rs) k = elim (Option-cases (get key (key r) t)) [
    | inl out ↦ ground (arith, get-filter_from p t rs k)
    | inr (y, found) ↦ ground (arith, get-filter_from p t rs k, key-get (key r) t y found)
  ]

  pub get-replace :
      (r : Row) (t : List Row) (k : ℕ)
      → get key k (replace r t)
        ≡ (if key r == k && is_some (get key k t) then some r else get key k t)
  unfolding replace
  get-replace r [] k = ground arith
  get-replace r (x ∷ xs) k = ground (arith, get-replace r xs k)

  pub get-remove :
      (j : ℕ) (t : List Row) (k : ℕ)
      → get key k (remove j t) ≡ (if j == k then none else get key k t)
  unfolding remove
  get-remove j [] k = ground arith
  get-remove j (x ∷ xs) k = ground (arith, get-remove j xs k)

  pub get-remove_all :
      (rs t : List Row) (k : ℕ)
      → get key k (remove_all rs t) ≡ (if has_key key k rs then none else get key k t)
  unfolding remove_all
  get-remove_all [] t k = refl
  get-remove_all (r ∷ rs) t k =
      ground (arith, get-remove_all rs (remove (key r) t) k, get-remove (key r) t k)

  pub get-next_key : (t : List Row) (k : ℕ) → next_key t ≤ k → get key k t ≡ none
  unfolding next_key
  get-next_key [] k h = refl
  get-next_key (x ∷ xs) k h = ground (arith, get-next_key xs k)

  module _ (P : Row → Type 0) where
    pub All-drop : (n : ℕ) (rs : List Row) → All P rs → All P (drop n rs)
    All-drop zero rs h = h
    All-drop (suc n) [] h = h
    All-drop (suc n) (r ∷ rs) h = All-drop n rs h.1

    pub All-take : (n : ℕ) (rs : List Row) → All P rs → All P (take n rs)
    All-take zero rs h = tt
    All-take (suc n) [] h = h
    All-take (suc n) (r ∷ rs) h = (h.0, All-take n rs h.1)

  pub length-take-le : (n : ℕ) (rs : List Row) → length (take n rs) ≤ n
  length-take-le zero rs = omega arith
  length-take-le (suc n) [] = omega arith
  length-take-le (suc n) (r ∷ rs) = omega (arith, length-take-le n rs)
