-- ===== src/Paging.antt =====
-- `Paginate` of GoodFood-BE/internal/utils/utilities.go. Go's `int` is ℤ with its 64-bit wrap-around.
-- Its float64 arithmetic is no code of the repository: `Float64` is what the code relies on.
pub mod Pages
pub mod Rational
mod Tests
use good_food_be.Base.{ℕ, ◌*◌, ◌^◌, ◌≤◌, ◌<◌, ◌≡◌, ◌↔◌, Bool, true, if◌then◌else◌}
use good_food_be.Base.Int.{ℤ, pos, ◌-ℤ◌, ◌*ℤ◌, leb_ℤ, wrap64, pos_part, neg_part}
use good_food_be.Base.{◌==◌, ◌&&◌}

-- Integers below this bound, and the integer bounds of their quotients, survive float64.
abbrev pub exact : ℕ
exact = 2 ^ 52

-- The conversions, `/`, `math.Ceil` and `<=` of float64, on values that are no NaN.
pub record Float64 (F : Type 0) : Type 0 where
  pub of_int : ℤ → F
  pub to_int : F → ℤ
  pub div : F → F → F
  pub ceil : F → F
  pub leq : F → F → Bool
  pub to_int_of_int : (n : ℕ) → n < exact → to_int (of_int (pos n)) ≡ pos n
  pub of_int_le :
      (m n : ℕ) → m < exact → n < exact → (leq (of_int (pos m)) (of_int (pos n)) ≡ true) ↔ (m ≤ n)
  -- Rounding keeps the order against an integer, and an inexact quotient does not reach one.
  pub div_le :
      (a b n : ℕ)
      → a < exact
      → 0 < b
      → b < exact
      → n < exact
      → (leq (div (of_int (pos a)) (of_int (pos b))) (of_int (pos n)) ≡ true) ↔ (a ≤ n * b)
  pub ceil_le :
      (x : F) (n : ℕ)
      → n < exact
      → (leq (ceil x) (of_int (pos n)) ≡ true) ↔ (leq x (of_int (pos n)) ≡ true)
  -- The ceiling of a quotient of such integers is an integer.
  pub ceil_int :
      (a b : ℕ)
      → a < exact
      → 0 < b
      → b < exact
      → (n : ℕ) × (n < exact) × (ceil (div (of_int (pos a)) (of_int (pos b))) ≡ of_int (pos n))

abbrev pub is_zero : ℤ → Bool
is_zero a = pos_part a == 0 && neg_part a == 0

module _ {F : Type 0} (float : Float64 F) where
  open float use {of_int, to_int, div, ceil}

  -- `int(math.Ceil(float64(total) / float64(size)))`
  pub page_count : ℤ → ℤ → ℤ
  page_count total size = to_int (ceil (div (of_int total) (of_int size)))

  -- The offset of the page, and the number of pages.
  unfoldable pub paginate : ℤ → ℤ → ℤ → ℤ × ℤ
  unfolding page_count
  paginate page page_size total_records =
      let page' : ℤ = if leb_ℤ page (pos 0) then pos 1 else page in
      let size' : ℤ = if leb_ℤ page_size (pos 0) then pos 6 else page_size in
      (
        wrap64 ((page' -ℤ pos 1) *ℤ size'),
        if is_zero total_records then pos 0 else page_count total_records size',
      )
