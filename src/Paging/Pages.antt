-- ===== src/Paging/Pages.antt =====
-- The pages cut the records into consecutive blocks: each record stands on one page, and every page
-- counted has one.
use native.Mathlib.Nat.{div-add-mod, mod-lt}
use good_food_be.Base.{
  ℕ, ◌+◌, ◌*◌, ◌/◌, ◌≤◌, ◌<◌, ◌≡◌, ap, arith, true, subst, sym, ◌∙◌, if◌then◌else◌, dec_lt, refl,
  suc, zero,
}
use good_food_be.Base.Int.{pos, ◌+ℤ◌, ◌-ℤ◌, ◌*ℤ◌, ◌≤ℤ◌, leb_ℤ, two63, wrap64_of_InRange64}
use good_food_be.Paging.{Float64, exact, is_zero, page_count, paginate}

-- `n` pages of `size` are the least number that hold `total` records.
abbrev pub IsPageCount : ℕ → ℕ → ℕ → Type 0
IsPageCount n size total = (total ≤ n * size) × ((m : ℕ) → total ≤ m * size → n ≤ m)

suc-sub_one : (p : ℕ) → pos (suc p) -ℤ pos 1 ≡ pos p
unfolding ◌-ℤ◌
suc-sub_one p = ground arith

pos-mul : (a b : ℕ) → pos a *ℤ pos b ≡ pos (a * b)
unfolding ◌*ℤ◌
pos-mul a b = ground arith

pos-add : (a b : ℕ) → pos a +ℤ pos b ≡ pos (a + b)
unfolding ◌+ℤ◌
pos-add a b = ground arith

-- A page that begins at or below a record is among the pages that hold all of them.
above_count : (n size total p i : ℕ) → total ≤ n * size → p * size ≤ i → i < total → suc p ≤ n
above_count n size total p i holds here hi = grind arith

-- Blocks of one size that share an index are the same block.
block_unique :
    (q p size i : ℕ)
    → q * size ≤ i
    → suc i ≤ q * size + size
    → p * size ≤ i
    → suc i ≤ p * size + size
    → q ≡ p
block_unique q p size i a b c d = grind arith

module _ {F : Type 0} (float : Float64 F) where
  open float use {
    of_int, to_int, div, ceil, leq, to_int_of_int, of_int_le, div_le, ceil_le, ceil_int,
  }

  module _ (total size n : ℕ) (ht : total < exact) (hs : 0 < size) (hb : size < exact)
      (small : n < exact)
      (same : ceil (div (of_int (pos total)) (of_int (pos size))) ≡ of_int (pos n)) where
    count_holds : total ≤ n * size
    count_holds = (div_le total size n ht hs hb small).0 (
        (ceil_le _ n small).0 (
          subst (λ x. leq x (of_int (pos n)) ≡ true) (sym same)
            ((of_int_le n n small small).1 (omega arith))))

    count_least_small : (m : ℕ) → m < exact → total ≤ m * size → n ≤ m
    count_least_small m hm h = (of_int_le n m small hm).0 (
        subst (λ x. leq x (of_int (pos m)) ≡ true) same
          ((ceil_le _ m hm).1 ((div_le total size m ht hs hb hm).1 h)))

    count_least : (m : ℕ) → total ≤ m * size → n ≤ m
    count_least m h = elim (dec_lt m exact) [
      | yes hm ↦ count_least_small m hm h
      | no hm ↦ omega arith
    ]

  -- The page count is the least number of pages that hold all records.
  pub page_count-IsPageCount :
      (total size : ℕ)
      → total < exact
      → 0 < size
      → size < exact
      → (n : ℕ) × (page_count float (pos total) (pos size) ≡ pos n) × IsPageCount n size total
  unfolding page_count
  page_count-IsPageCount total size ht hs hb =
      let (n, small, same) = ceil_int total size ht hs hb in
      (
        n,
        ap to_int same ∙ to_int_of_int n small,
        (
          count_holds total size n ht hs hb small same,
          count_least total size n ht hs hb small same,
        ),
      )

  -- A page within the numbers of an `int` begins behind the pages before it.
  paginate_offset :
      (p size total : ℕ)
      → 0 < size
      → p * size < two63
      → (paginate float (pos (suc p)) (pos size) (pos total)).0 ≡ pos (p * size)
  unfolding paginate
  paginate_offset p size total hs h =
      let clipped : ((if leb_ℤ (pos (suc p)) (pos 0) then pos 1 else pos (suc p)) ≡ pos (suc p)) =
        ground arith in
      let sized : ((if leb_ℤ (pos size) (pos 0) then pos 6 else pos size) ≡ pos size) =
        ground arith in
      rw (clipped, sized, suc-sub_one p, pos-mul p size)
        (wrap64_of_InRange64 (pos (p * size)) (h, omega arith))

  paginate_count :
      (p size total : ℕ)
      → total < exact
      → 0 < size
      → size < exact
      → (n : ℕ) × ((paginate float (pos p) (pos size) (pos total)).1 ≡ pos n)
        × IsPageCount n size total
  unfolding paginate
  paginate_count p size zero ht hs hb = (0, refl, (omega arith, λ m h. omega arith))
  paginate_count p size (suc total) ht hs hb =
      let sized : ((if leb_ℤ (pos size) (pos 0) then pos 6 else pos size) ≡ pos size) =
        ground arith in
      let some_rows : ((if is_zero (pos (suc total))
            then pos 0
            else page_count float (pos (suc total)) (pos size))
          ≡ page_count float (pos (suc total)) (pos size)) =
        ground arith in
      let (n, same, least) = page_count-IsPageCount (suc total) size ht hs hb in
      (n, rw sized (some_rows ∙ same), least)

  -- A counted page begins below the number of records.
  page_below :
      (q size total : ℕ)
      → 0 < size
      → size < exact
      → total < exact
      → pos (suc q) ≤ℤ (paginate float (pos (suc q)) (pos size) (pos total)).1
      → q * size < two63
  page_below q size total hs hb ht counted =
      let (n, same, (holds, least)) = paginate_count (suc q) size total ht hs hb in
      let within : (suc q ≤ n) = omega (arith, (rw same at counted)) in
      elim (dec_lt (q * size) total) [
        | yes h ↦ omega arith
        | no h ↦ absurd (omega (arith, least q (omega arith)))
      ]

  -- Of fewer than 2^52 records in pages of a positive size, also below 2^52, the record at any index
  -- stands on exactly one page: one that `Paginate` counts, and from whose offset it lies less than
  -- the page size away.
  pub paginate_unique_page :
      (i size total : ℕ)
      → 0 < size
      → size < exact
      → total < exact
      → i < total
      → (p : ℕ) × (pos (suc p) ≤ℤ (paginate float (pos (suc p)) (pos size) (pos total)).1)
        × ((paginate float (pos (suc p)) (pos size) (pos total)).0 ≤ℤ pos i)
        × (pos (suc i) ≤ℤ (paginate float (pos (suc p)) (pos size) (pos total)).0 +ℤ pos size)
        × ((q : ℕ)
            → pos (suc q) ≤ℤ (paginate float (pos (suc q)) (pos size) (pos total)).1
            → (paginate float (pos (suc q)) (pos size) (pos total)).0 ≤ℤ pos i
            → pos (suc i) ≤ℤ (paginate float (pos (suc q)) (pos size) (pos total)).0 +ℤ pos size
            → q ≡ p)
  paginate_unique_page i size total hs hb ht hi =
      let p : ℕ = i / size in
      let (n, same, (holds, least)) = paginate_count (suc p) size total ht hs hb in
      let here : (p * size ≤ i) = omega (arith, div-add-mod i size) in
      let next : (i < p * size + size) = omega (arith, div-add-mod i size, mod-lt i hs) in
      let off = paginate_offset p size total hs (omega (arith, here)) in
      let start =
        λ (q : ℕ) (c : pos (suc q) ≤ℤ (paginate float (pos (suc q)) (pos size) (pos total)).1).
          paginate_offset q size total hs (page_below q size total hs hb ht c) in
      (
        p,
        rw same (omega (arith, above_count n size total (i / size) i holds here hi)),
        rw off (omega arith),
        rw (off, pos-add (p * size) size) (omega arith),
        λ q counted begins ends.
            block_unique q p size i (omega (arith, (rw (start q counted) at begins)))
              (omega (arith, (rw (start q counted, pos-add (q * size) size) at ends))) here next,
      )
