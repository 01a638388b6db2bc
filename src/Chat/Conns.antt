-- ===== src/Chat/Conns.antt =====
-- The maps from IDs to connections, and their laws.
use good_food_be.Base.{
  ℕ, ◌≡◌, refl, Bool, false, not, Option, none, some, List, [], ◌∷◌, ◌==◌, ◌&&◌, ◌||◌,
  if◌then◌else◌, arith,
}

abbrev pub Registry : Type 0
Registry = List (ℕ × ℕ)

pub lookup : ℕ → Registry → Option ℕ
lookup j [] = none
lookup j ((k, c) ∷ rest) = if k == j then some c else lookup j rest

-- Go's `delete`.
pub remove : ℕ → Registry → Registry
remove j [] = []
remove j ((k, c) ∷ rest) = let others = remove j rest in if k == j then others else (k, c) ∷ others

-- Go's `m[k] = c`.
pub put : ℕ → ℕ → Registry → Registry
put k c m = (k, c) ∷ remove k m

-- The handler of the ID on the connection is among them.
pub runs : ℕ → ℕ → Registry → Bool
runs j d [] = false
runs j d ((k, c) ∷ rest) = (k == j && c == d) || runs j d rest

-- The handler ends.
pub drop_one : ℕ → ℕ → Registry → Registry
drop_one j d [] = []
drop_one j d ((k, c) ∷ rest) =
    let others = drop_one j d rest in if k == j && c == d then others else (k, c) ∷ others

pub lookup-nil : (j : ℕ) → lookup j [] ≡ none
unfolding lookup
lookup-nil j = refl

pub lookup-remove :
    (k j : ℕ) (m : Registry) → lookup j (remove k m) ≡ (if k == j then none else lookup j m)
unfolding lookup remove
lookup-remove k j [] = ground arith
lookup-remove k j ((i, c) ∷ m) = ground (arith, lookup-remove k j m)

pub lookup-put :
    (k c j : ℕ) (m : Registry) → lookup j (put k c m) ≡ (if k == j then some c else lookup j m)
unfolding lookup put
lookup-put k c j m = ground (arith, lookup-remove k j m)

pub runs-cons :
    (k c j d : ℕ) (m : Registry) → runs j d ((k, c) ∷ m) ≡ ((k == j && c == d) || runs j d m)
unfolding runs
runs-cons k c j d m = refl

pub runs-drop_one :
    (k c j d : ℕ) (m : Registry)
    → runs j d (drop_one k c m) ≡ (not (k == j && c == d) && runs j d m)
unfolding runs drop_one
runs-drop_one k c j d [] = ground arith
runs-drop_one k c j d ((i, e) ∷ m) = ground (arith, runs-drop_one k c j d m)
