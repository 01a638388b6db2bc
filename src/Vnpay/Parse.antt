-- ===== src/Vnpay/Parse.antt =====
-- A reader of a query, as `url.ParseQuery` reads it: the fields stand between "&", empty ones are passed over,
-- the key is what stands before the first "=", and the value behind it is unescaped.
use good_food_be.Base.{
  ℕ, ◌≡◌, refl, ap, false, Option, none, some, List, [], ◌∷◌, ◌++◌, ◌==◌, if◌then◌else◌, All,
}
use good_food_be.Vnpay.Bytes.{Text}
use good_food_be.Vnpay.Escape.{query_unescape, NoAmp}

abbrev pub added : Text → List Text → List Text
added [] fields = fields
added (c ∷ s) fields = (c ∷ s) ∷ fields

-- The text before the first "&", and the fields behind it.
unfoldable pub split : Text → Text × List Text
split [] = ([], [])
split (c ∷ s) =
    let (first, rest) = split s in if c == b'&' then ([], added first rest) else (c ∷ first, rest)

unfoldable pub fields : Text → List Text
fields s = added ((split s).0) ((split s).1)

abbrev pub consed_key : ℕ → Text × Text → Text × Text
consed_key c (k, v) = (c ∷ k, v)

-- The key and the value of a field; without "=" the value is empty.
unfoldable pub cut : Text → Text × Text
cut [] = ([], [])
cut (c ∷ s) = let rest = cut s in if c == b'=' then ([], s) else consed_key c rest

abbrev pub with_field :
    Text → Option Text → Option (List (Text × Text)) → Option (List (Text × Text))
with_field k (some v) (some rest) = some ((k, v) ∷ rest)
with_field k (some v) none = none
with_field k none rest = none

unfoldable pub read_fields : List Text → Option (List (Text × Text))
read_fields [] = some []
read_fields (f ∷ fs) = with_field ((cut f).0) (query_unescape ((cut f).1)) (read_fields fs)

unfoldable pub parse_query : Text → Option (List (Text × Text))
parse_query s = read_fields (fields s)

split-append : (x s : Text) → NoAmp x → split (x ++ (b'&' ∷ s)) ≡ (x, fields s)
unfolding split fields
split-append [] s h = refl
split-append (c ∷ x) s h = rw (h.0, split-append x s h.1) refl

pub fields-append : (x s : Text) → NoAmp x → fields (x ++ (b'&' ∷ s)) ≡ added x (fields s)
unfolding fields
fields-append x s h = ap (λ p. added p.0 p.1) (split-append x s h)

pub fields-amp : (s : Text) → fields (b'&' ∷ s) ≡ fields s
unfolding fields split
fields-amp s = refl

abbrev pub NoEquals : Text → Type 0
NoEquals s = All (λ c. (c == b'=') ≡ false) s

pub cut-append : (k v : Text) → NoEquals k → cut (k ++ (b'=' ∷ v)) ≡ (k, v)
unfolding cut
cut-append [] v h = refl
cut-append (c ∷ k) v h = rw (h.0, cut-append k v h.1) refl
