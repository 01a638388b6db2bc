-- ===== src/Vnpay/Bytes.antt =====
-- Texts as lists of bytes: Go's string comparison, `sort.Strings`, a map's lookup, and the decimal notation of
-- `strconv.Itoa` and `strconv.FormatInt`.
use Prim.Native.Char.{code}
use good_food_be.Base.{
  ℕ, ◌≡◌, refl, sym, subst, not, All, zero, suc, ◌+◌, ◌-◌, inl, inr, Bool-cases, ◌*◌, ◌/◌, ◌%◌, ◌<◌,
  String, Bool, true, false, ◌&&◌, ◌||◌, List, [], ◌∷◌, ◌++◌, ◌==◌, ltb, if◌then◌else◌, arith,
}
use good_food_be.Base.Int.{ℤ, pos, negsuc}

abbrev pub Text : Type 0
Text = List ℕ

abbrev pub codes : String → Text
codes String.[] = []
codes (String.◌∷◌ c s) = code c ∷ codes s

abbrev pub same : Text → Text → Bool
same [] [] = true
same (c ∷ s) (d ∷ t) = c == d && same s t
same _ _ = false

-- `s <= t`
abbrev pub text_le : Text → Text → Bool
text_le [] t = true
text_le (c ∷ s) [] = false
text_le (c ∷ s) (d ∷ t) = ltb c d || (c == d && text_le s t)

unfoldable pub insert : Text → List Text → List Text
insert k [] = k ∷ []
insert k (j ∷ js) = if text_le k j then k ∷ j ∷ js else j ∷ insert k js

unfoldable pub sort : List Text → List Text
sort [] = []
sort (k ∷ ks) = insert k (sort ks)

abbrev pub listed : Text → List Text → Bool
listed k [] = false
listed k (j ∷ js) = same j k || listed k js

-- The value under a key of a map, `""` if there is none.
abbrev pub value : Text → List (Text × Text) → Text
value k [] = []
value k ((j, v) ∷ m) = if same j k then v else value k m

pub same_sound : (s t : Text) → same s t ≡ true → s ≡ t
same_sound [] [] h = refl
same_sound [] (d ∷ t) h = ground arith
same_sound (c ∷ s) [] h = ground arith
same_sound (c ∷ s) (d ∷ t) h = ground (arith, same_sound s t)

pub same_refl : (s : Text) → same s s ≡ true
same_refl [] = refl
same_refl (c ∷ s) = ground (arith, same_refl s)

listed-insert : (k j : Text) (js : List Text) → listed k (insert j js) ≡ (same j k || listed k js)
unfolding insert
listed-insert k j [] = refl
listed-insert k j (i ∷ is) = ground (arith, listed-insert k j is)

-- Sorting loses no key and adds none.
pub listed-sort : (k : Text) (ks : List Text) → listed k (sort ks) ≡ listed k ks
unfolding sort
listed-sort k [] = refl
listed-sort k (j ∷ js) = ground (arith, listed-insert k j (sort js), listed-sort k js)

-- The last `fuel` digits of a number, and all of them if it has no more.
unfoldable pub digits : ℕ → ℕ → Text
digits zero n = []
digits (suc fuel) n = elim (ltb n 10) [
  | true ↦ (b'0' + n) ∷ []
  | false ↦ digits fuel (n / 10) ++ ((b'0' + n % 10) ∷ [])
]

unfoldable pub itoa : ℤ → Text
itoa (pos n) = digits (suc n) n
itoa (negsuc n) = b'-' ∷ digits (suc (suc n)) (suc n)

-- The number that decimal digits stand for, behind those that stand for `high`.
abbrev pub number_from : ℕ → Text → ℕ
number_from high [] = high
number_from high (c ∷ s) = number_from (high * 10 + (c - b'0')) s

number_from-append :
    (high : ℕ) (s t : Text) → number_from high (s ++ t) ≡ number_from (number_from high s) t
number_from-append high [] t = refl
number_from-append high (c ∷ s) t = number_from-append (high * 10 + (c - b'0')) s t

-- As many digits as the number is large are enough.
pub number_from-digits : (fuel n : ℕ) → n < fuel → number_from 0 (digits fuel n) ≡ n
unfolding digits
number_from-digits zero n h = ground arith
number_from-digits (suc fuel) n h = ground (
  arith,
  number_from-append 0 (digits fuel (n / 10)) ((b'0' + n % 10) ∷ []),
  number_from-digits fuel (n / 10),
)

abbrev same_bool : Bool → Bool → Bool
same_bool true b = b
same_bool false b = not b

same_bool_sound : (a b : Bool) → same_bool a b ≡ true → a ≡ b
same_bool_sound true true h = refl
same_bool_sound true false h = ground arith
same_bool_sound false true h = ground arith
same_bool_sound false false h = refl

-- Whether a test has one answer on all the bytes.
abbrev pub holds : (ℕ → Bool) → Bool → Text → Bool
holds p b [] = true
holds p b (c ∷ s) = same_bool (p c) b && holds p b s

pub holds-All : (p : ℕ → Bool) (b : Bool) (s : Text) → holds p b s ≡ true → All (λ c. p c ≡ b) s
holds-All p b [] h = tt
holds-All p b (c ∷ s) h =
    (same_bool_sound (p c) b (ground (arith, h)), holds-All p b s (ground (arith, h)))

abbrev pub IsBytes : Text → Type 0
IsBytes s = All (λ c. c < 256) s

pub IsBytes-append : (s t : Text) → IsBytes s → IsBytes t → IsBytes (s ++ t)
IsBytes-append [] t h k = k
IsBytes-append (c ∷ s) t h k = (h.0, IsBytes-append s t h.1 k)

pub holds-IsBytes : (s : Text) → holds (λ c. ltb c 256) true s ≡ true → IsBytes s
holds-IsBytes [] h = tt
holds-IsBytes (c ∷ s) h = (ground (arith, h), holds-IsBytes s (ground (arith, h)))

digits-IsBytes : (fuel n : ℕ) → IsBytes (digits fuel n)
unfolding digits
digits-IsBytes zero n = tt
digits-IsBytes (suc fuel) n = elim (Bool-cases (ltb n 10)) [
  | inl small ↦
      subst
        (λ b. IsBytes (elim b as (λ _. Text) [
          | true ↦ (b'0' + n) ∷ []
          | false ↦ digits fuel (n / 10) ++ ((b'0' + n % 10) ∷ [])
        ]))
        (sym small) (ground (arith, small), tt)
  | inr large ↦
      subst
        (λ b. IsBytes (elim b as (λ _. Text) [
          | true ↦ (b'0' + n) ∷ []
          | false ↦ digits fuel (n / 10) ++ ((b'0' + n % 10) ∷ [])
        ]))
        (sym large)
        (IsBytes-append (digits fuel (n / 10)) ((b'0' + n % 10) ∷ []) (digits-IsBytes fuel (n / 10))
          (ground arith, tt))
]

pub itoa-IsBytes : (a : ℤ) → IsBytes (itoa a)
unfolding itoa
itoa-IsBytes (pos n) = digits-IsBytes (suc n) n
itoa-IsBytes (negsuc n) = (omega arith, digits-IsBytes (suc (suc n)) (suc n))

pub number_from-itoa : (n : ℕ) → number_from 0 (itoa (pos n)) ≡ n
unfolding itoa
number_from-itoa n = number_from-digits (suc n) n (omega arith)

pub value-IsBytes :
    (k : Text) (m : List (Text × Text)) → All (λ p. IsBytes p.1) m → IsBytes (value k m)
value-IsBytes k [] h = tt
value-IsBytes k ((j, v) ∷ m) h = elim (Bool-cases (same j k)) [
  | inl here ↦ rw (here) (h.0)
  | inr there ↦ rw (there) (value-IsBytes k m h.1)
]
