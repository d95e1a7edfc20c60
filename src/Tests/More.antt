-- ===== src/Tests/More.antt =====
-- src/bmfunc.h: construction, delta form, shifts and comparison of GAP blocks, and the lower-bound
-- searches, at concrete inputs.
use bit_magic.Base.{
  ℕ, zero, suc, [], ◌∷◌, ◌≡◌, ◌≢◌, refl, false, none, some, arith, ◌+◌, ◌<◌, Buffer,
}
use bit_magic.Tests.Blocks.{block, two_runs, two_runs-IsGap, low_byte, low_byte-IsGap}
use bit_magic.Gap.Layout.{gap_bit, gap_max_bits, gap_length}
use bit_magic.Gap.Op.{gap_invert}
use bit_magic.Search.{
  lower_bound_u32, lower_bound_u64, halving_loop, lower_bound_linear_u32, linear_loop,
}
use bit_magic.Search.Laws.{IsLowerBound, lower_bounds_lem}
use bit_magic.Gap.Array.{gap_set_array}
use bit_magic.Gap.Array.Pending.{holds}
use bit_magic.Gap.Array.Laws.{IsMade, gap_set_array-IsMade}
use bit_magic.Index.{block_ptr_array_range}
use bit_magic.Index.Laws.{IsUsedRange, block_ptr_array_range-IsUsedRange}
use bit_magic.Gap.Init.{gap_overhead, overhead_loop, gap_init_range_block, gap_calc_level}
use bit_magic.Gap.Init.Laws.{IsRangeBlock, gap_init_range_block_lem}
use bit_magic.Gap.Init.Levels.{IsLevelTable}
use bit_magic.Gap.Delta.{gap_2_dgap, dgap_2_gap}
use bit_magic.Gap.Delta.Laws.{dgap_2_gap-gap_2_dgap}
use bit_magic.Gap.Shift.{gap_shift_r1, gap_shift_l1}
use bit_magic.Gap.Shift.Right.{IsShiftedUp, gap_shift_r1-IsShiftedUp}
use bit_magic.Gap.Shift.Left.{IsShiftedDown, gap_shift_l1-IsShiftedDown}
use bit_magic.Gap.Compare.{gapcmp, gap_find_first_diff}
use bit_magic.Gap.Compare.Laws.{gap_find_first_diff-gap_invert}
use bit_magic.Gap.Compare.Order.{IsComparison, gapcmp-IsComparison}

-- The array of the even numbers.
abbrev evens : Buffer
evens i = i + i

lower_bound_u32_run : lower_bound_u32 evens 77 0 99 ≡ 39
unfolding lower_bound_u32 halving_loop lower_bound_linear_u32 linear_loop
lower_bound_u32_run = refl

lower_bounds_lem_example :
    IsLowerBound evens 77 0 99 (lower_bound_u32 evens 77 0 99)
    × IsLowerBound evens 77 0 99 (lower_bound_u64 evens 77 0 99)
lower_bounds_lem_example =
    lower_bounds_lem evens 77 0 99 (λ i j a b c. omega arith) (omega arith) (omega arith)

gap_init_range_block_lem_example :
    IsRangeBlock (block (6 ∷ [])) 10 20 1 (gap_init_range_block (block (6 ∷ [])) 10 20 1)
gap_init_range_block_lem_example =
    gap_init_range_block_lem (block (6 ∷ [])) 10 20 1 (omega arith) (omega arith) (omega arith)

-- The capacities of the library's default table.
abbrev default_levels : Buffer
default_levels = block (128 ∷ 256 ∷ 512 ∷ 1280 ∷ [])

default_levels-IsLevelTable : IsLevelTable default_levels
default_levels-IsLevelTable zero h = (omega arith, omega arith)
default_levels-IsLevelTable (suc zero) h = (omega arith, omega arith)
default_levels-IsLevelTable (suc (suc zero)) h = (omega arith, omega arith)
default_levels-IsLevelTable (suc (suc (suc zero))) h = (omega arith, omega arith)
default_levels-IsLevelTable (suc (suc (suc (suc k)))) h = absurd (omega arith)

two_runs_level : gap_calc_level (gap_length two_runs) default_levels ≡ some 0
unfolding gap_calc_level gap_length
two_runs_level = refl

dgap_2_gap-gap_2_dgap_example :
    dgap_2_gap (gap_2_dgap two_runs low_byte false).0 low_byte (two_runs 0) 3 ≡ two_runs 3
dgap_2_gap-gap_2_dgap_example =
    dgap_2_gap-gap_2_dgap two_runs low_byte low_byte false two_runs-IsGap 3 (omega arith)

gap_shift_r1-IsShiftedUp_example : IsShiftedUp two_runs 1 (gap_shift_r1 two_runs 1)
gap_shift_r1-IsShiftedUp_example =
    gap_shift_r1-IsShiftedUp two_runs 1 two_runs-IsGap (omega arith) (omega arith)

gap_shift_l1-IsShiftedDown_example : IsShiftedDown two_runs 1 (gap_shift_l1 two_runs 1)
gap_shift_l1-IsShiftedDown_example =
    gap_shift_l1-IsShiftedDown two_runs 1 two_runs-IsGap (omega arith) (omega arith)

gapcmp-IsComparison_example : IsComparison two_runs low_byte (gapcmp two_runs low_byte)
gapcmp-IsComparison_example = gapcmp-IsComparison two_runs low_byte two_runs-IsGap low_byte-IsGap

gap_find_first_diff-gap_invert_example :
    (gap_find_first_diff two_runs (gap_invert two_runs) ≡ none)
    × ((pos : ℕ) → pos < gap_max_bits → gap_bit two_runs pos ≢ gap_bit (gap_invert two_runs) pos)
gap_find_first_diff-gap_invert_example = gap_find_first_diff-gap_invert two_runs two_runs-IsGap

gap_set_array-IsMade_example : IsMade (holds evens 50) low_byte (gap_set_array low_byte evens 50)
gap_set_array-IsMade_example =
    gap_set_array-IsMade low_byte evens 50 (λ i h. omega arith) (λ i h. omega arith) (omega arith)
      (omega arith)

block_ptr_array_range-IsUsedRange_example : IsUsedRange two_runs (block_ptr_array_range two_runs)
block_ptr_array_range-IsUsedRange_example = block_ptr_array_range-IsUsedRange two_runs

gap_overhead_run : gap_overhead (100 ∷ 200 ∷ []) default_levels ≡ some 84
unfolding gap_overhead overhead_loop gap_calc_level
gap_overhead_run = refl
