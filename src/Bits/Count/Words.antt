-- ===== src/Bits/Count/Words.antt =====
-- src/bmfunc.h: the count of the ones of a word, and under a mask.
use bit_magic.Base.{
  ℕ, zero, suc, ◌+◌, ◌-◌, ◌/◌, ◌%◌, ◌^◌, ◌≤◌, ◌<◌, ◌≡◌, refl, ◌∙◌, ◌&&◌, ltb, leb, ◌==◌, ==→eq,
  if◌then◌else◌, arith, bit_at, bit_at-lt, bit_at_shr, bit_at_mod, bit_at-bit_and, bit_and,
}
use bit_magic.Scan.{entry}
use bit_magic.Scan.Laws.{all_below, below}
use bit_magic.Gap.Op.Sums.{sum_below, sum_below_run, sum_below_ext}
use bit_magic.Bits.Count.{bit_count_table, word_bitcount}

-- The first a values, and the n behind them.
pub sum_below-add :
    (f : ℕ → ℕ) (a n : ℕ) → sum_below f (a + n) ≡ sum_below f a + sum_below (λ i. f (a + i)) n
unfolding sum_below
sum_below-add f a zero = let e : a + 0 ≡ a = omega arith in rw e (omega arith)
sum_below-add f a (suc n) =
    let e : a + suc n ≡ suc (a + n) = omega arith in rw e (omega (arith, sum_below-add f a n))

pub sum_below_none : (f : ℕ → ℕ) → sum_below f 0 ≡ 0
unfolding sum_below
sum_below_none f = refl

table_lem : (x : ℕ) → x < 256 → entry bit_count_table x ≡ sum_below (bit_at x) 8
unfolding all_below bit_count_table sum_below bit_at
table_lem x h =
    ==→eq _ _ (below 256 (λ y. entry bit_count_table y == sum_below (bit_at y) 8) x refl h)

-- A byte of a word.
byte_lem :
    (w k : ℕ) → entry bit_count_table (w / 2 ^ k % 2 ^ 8) ≡ sum_below (λ i. bit_at w (k + i)) 8
byte_lem w k =
    table_lem (w / 2 ^ k % 2 ^ 8) (omega arith)
    ∙ sum_below_ext (bit_at (w / 2 ^ k % 2 ^ 8)) (λ i. bit_at w (k + i)) 8
        (λ i p. ground (arith, bit_at_mod (w / 2 ^ k) 8 i, bit_at_shr w k i))

pub word_bitcount_lem : (w : ℕ) → word_bitcount w ≡ sum_below (bit_at w) 32
unfolding word_bitcount
word_bitcount_lem w =
    let f = bit_at w in
    let one : w / 2 ^ 0 ≡ w = omega arith in
    let first = rw one at (byte_lem w 0) in
    omega (
      arith,
      first,
      sum_below_ext (λ i. f (0 + i)) f 8 (λ i p. let z : 0 + i ≡ i = omega arith in rw z refl),
      byte_lem w 8,
      byte_lem w 16,
      byte_lem w 24,
      sum_below-add f 8 8,
      sum_below-add f 16 8,
      sum_below-add f 24 8,
    )

-- Under a mask with ones exactly in [lo, hi), these digits count.
pub masked_count :
    (w mask lo hi : ℕ)
    → lo ≤ hi
    → hi ≤ 32
    → ((i : ℕ) → i < 32 → bit_at mask i ≡ (if leb lo i && ltb i hi then 1 else 0))
    → word_bitcount (bit_and w mask) ≡ sum_below (λ i. bit_at w (lo + i)) (hi - lo)
masked_count w mask lo hi order fits h =
    let g = bit_at (bit_and w mask) in
    let digit : (i : ℕ) → i < 32 → g i ≡ (if leb lo i && ltb i hi then bit_at w i else 0) =
      λ i p. bit_at-bit_and w mask i ∙ ground (arith, h i p, bit_at-lt w i) in
    omega (
      arith,
      word_bitcount_lem (bit_and w mask),
      sum_below_run g lo 0 0 lo (omega arith) (λ i p q. digit i (omega arith) ∙ ground arith),
      sum_below_run g (32 - hi) hi 0 32 (omega arith) (λ i p q. digit i q ∙ ground arith),
      sum_below-add g lo (hi - lo),
      sum_below_ext (λ i. g (lo + i)) (λ i. bit_at w (lo + i)) (hi - lo)
          (λ i p. digit (lo + i) (omega arith) ∙ ground arith),
      sum_below-hi g lo hi order,
      sum_below_none g,
    )
  where
    sum_below-hi : (g : ℕ → ℕ) (lo hi : ℕ) → lo ≤ hi → sum_below g (lo + (hi - lo)) ≡ sum_below g hi
    sum_below-hi g lo hi order = let e : lo + (hi - lo) ≡ hi = omega arith in rw e refl
