-- ===== src/Paging/Tests.antt =====
-- Paging of eight records by six.
use good_food_be.Base.{ℕ, suc, ◌≡◌, refl, arith}
use good_food_be.Base.Int.{pos, ◌≤ℤ◌, ◌+ℤ◌, ◌*ℤ◌, ◌-ℤ◌, wrap64}
use good_food_be.Paging.{paginate}
use good_food_be.Paging.Rational.{rational}
use good_food_be.Paging.Pages.{paginate_unique_page}

second_page_run : paginate rational (pos 2) (pos 6) (pos 8) ≡ (pos 6, pos 2)
unfolding paginate wrap64 ◌*ℤ◌ ◌-ℤ◌
second_page_run = refl

-- The eighth record.
paginate_unique_page_example :
    (p : ℕ) × (pos (suc p) ≤ℤ (paginate rational (pos (suc p)) (pos 6) (pos 8)).1)
    × ((paginate rational (pos (suc p)) (pos 6) (pos 8)).0 ≤ℤ pos 7)
    × (pos 8 ≤ℤ (paginate rational (pos (suc p)) (pos 6) (pos 8)).0 +ℤ pos 6)
    × ((q : ℕ)
        → pos (suc q) ≤ℤ (paginate rational (pos (suc q)) (pos 6) (pos 8)).1
        → (paginate rational (pos (suc q)) (pos 6) (pos 8)).0 ≤ℤ pos 7
        → pos 8 ≤ℤ (paginate rational (pos (suc q)) (pos 6) (pos 8)).0 +ℤ pos 6
        → q ≡ p)
paginate_unique_page_example =
    paginate_unique_page rational 7 6 8 (omega arith) (omega arith) (omega arith) (omega arith)
