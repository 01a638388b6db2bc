-- ===== src/Paging/Rational.antt =====
-- Fractions meet the laws of `Float64`: on the numbers that `Paginate` computes with, float64 is exact.
use native.Mathlib.Nat.{div-add-mod, mod-lt}
use good_food_be.Base.{
  ℕ, zero, suc, ◌+◌, ◌-◌, ◌*◌, ◌/◌, ◌≤◌, ◌<◌, ◌≡◌, ◌↔◌, Bool, true, refl, ap, arith, leb,
}
use good_food_be.Base.Int.{ℤ, pos, pos_part}
use good_food_be.Paging.{Float64, exact}

-- A numerator over a denominator less one. Negative values do not arise, and are read as 0.
abbrev pub Fraction : Type 0
Fraction = ℕ × ℕ

abbrev pub of_int : ℤ → Fraction
of_int z = (pos_part z, 0)

abbrev pub to_int : Fraction → ℤ
to_int x = pos (x.0 / suc x.1)

abbrev pub div : Fraction → Fraction → Fraction
div x y = (x.0 * suc y.1, suc x.1 * y.0 - 1)

abbrev pub ceil : Fraction → Fraction
ceil x = ((x.0 + x.1) / suc x.1, 0)

abbrev pub leq : Fraction → Fraction → Bool
leq x y = leb (x.0 * suc y.1) (y.0 * suc x.1)

pub to_int_of_int : (n : ℕ) → n < exact → to_int (of_int (pos n)) ≡ pos n
to_int_of_int n h = ap pos (omega arith)

pub of_int_le :
    (m n : ℕ) → m < exact → n < exact → (leq (of_int (pos m)) (of_int (pos n)) ≡ true) ↔ (m ≤ n)
of_int_le m n hm hn = (λ h. ground arith, λ h. ground arith)

pub div_le :
    (a b n : ℕ)
    → a < exact
    → 0 < b
    → b < exact
    → n < exact
    → (leq (div (of_int (pos a)) (of_int (pos b))) (of_int (pos n)) ≡ true) ↔ (a ≤ n * b)
div_le a (suc b) n ha hb hb' hn = (λ h. ground arith, λ h. ground arith)
div_le a zero n ha hb hb' hn = absurd (omega arith)

ceil_up : (a d n : ℕ) → (a + d) / suc d ≤ n → a ≤ n * suc d
ceil_up a d n h =
    grind (arith, div-add-mod (a + d) (suc d), mod-lt (a + d) {m = suc d} (omega arith))

ceil_down : (a d n : ℕ) → a ≤ n * suc d → (a + d) / suc d ≤ n
ceil_down a d n h =
    grind (arith, div-add-mod (a + d) (suc d), mod-lt (a + d) {m = suc d} (omega arith))

pub ceil_le :
    (x : Fraction) (n : ℕ)
    → n < exact
    → (leq (ceil x) (of_int (pos n)) ≡ true) ↔ (leq x (of_int (pos n)) ≡ true)
ceil_le (a, d) n hn = (λ h. ground (arith, ceil_up a d n), λ h. ground (arith, ceil_down a d n))

pub ceil_int :
    (a b : ℕ)
    → a < exact
    → 0 < b
    → b < exact
    → (n : ℕ) × (n < exact) × (ceil (div (of_int (pos a)) (of_int (pos b))) ≡ of_int (pos n))
ceil_int a b ha hb hb' = (
  (a * 1 + (1 * b - 1)) / suc (1 * b - 1),
  omega (arith, ceil_down (a * 1) (1 * b - 1) a (grind arith)),
  refl,
)

abbrev pub rational : Float64 Fraction
rational = record {
  of_int = of_int;
  to_int = to_int;
  div = div;
  ceil = ceil;
  leq = leq;
  to_int_of_int = to_int_of_int;
  of_int_le = of_int_le;
  div_le = div_le;
  ceil_le = ceil_le;
  ceil_int = ceil_int;
}
