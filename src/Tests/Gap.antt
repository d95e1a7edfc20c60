-- ===== src/Tests/Gap.antt =====
-- src/bmfunc.h: GAP blocks at concrete inputs.
use bit_magic.Base.{
  ℕ, ◌≡◌, ◌↔◌, refl, true, some, arith, ◌==◌, if◌then◌else◌, ◌+◌, ◌-◌, ◌<◌, min, max, xor1,
}
use bit_magic.Tests.Blocks.{two_runs, two_runs-IsGap, low_byte, low_byte-IsGap}
use bit_magic.Gap.Layout.{gap_bit, gap_ones, gap_max_bits, last_word, IsGap, borders_below}
use bit_magic.Gap.Find.{bfind_loop, gap_bfind, gap_test}
use bit_magic.Gap.Find.Laws.{Finds, gap_bfind-Finds, gap_test-eq-gap_bit}
use bit_magic.Gap.Count.{
  count_loop, gap_bit_count, gap_bit_count_range, range_loop, gap_bit_count_to, gap_find_rank,
  rank_loop,
}
use bit_magic.Gap.Count.Laws.{gap_bit_count-eq-gap_ones}
use bit_magic.Gap.Count.Range.{gap_bit_count_range_lem}
use bit_magic.Gap.Count.To.{gap_bit_count_to_lem, correction}
use bit_magic.Gap.Count.Rank.{IsRank, gap_find_rank-IsRank}
use bit_magic.Gap.Set.{gap_set_value, move_borders, copy_loop}
use bit_magic.Gap.Set.Laws.{IsStored, gap_set_value_lem}
use bit_magic.Gap.Op.{
  gap_buff_op, op_loop, xor_func, gap_operation_and, gap_operation_or, gap_operation_xor,
  gap_operation_sub, gap_operation_any_and, gap_operation_any_xor, gap_operation_any_sub,
  gap_count_and, gap_count_or, gap_count_xor, gap_count_sub,
}
use bit_magic.Gap.Op.Laws.{gap_buff_op_lem}
use bit_magic.Gap.Op.Named.{Combines, gap_operations_lem, xor_func_bit}
use bit_magic.Gap.Op.Any.{Never, gap_operations_any_iff}
use bit_magic.Gap.Op.Sums.{sum_below}
use bit_magic.Gap.Op.Count.{gap_counts_lem}

gap_bfind_run : gap_bfind two_runs 12 ≡ (3, 0)
unfolding gap_bfind bfind_loop
gap_bfind_run = refl

gap_test_run : gap_test two_runs 7 ≡ 1
unfolding gap_test bfind_loop
gap_test_run = refl

gap_bit_count_run : gap_bit_count two_runs 0 ≡ 65521
unfolding gap_bit_count count_loop
gap_bit_count_run = refl

gap_bit_count_range_run : gap_bit_count_range two_runs 8 25 ≡ 8
unfolding gap_bit_count_range range_loop gap_bfind bfind_loop
gap_bit_count_range_run = refl

gap_find_rank_run : gap_find_rank two_runs 7 4 ≡ (0, some 21)
unfolding gap_find_rank rank_loop gap_bfind bfind_loop
gap_find_rank_run = refl

gap_set_value_run : gap_bit (gap_set_value 0 two_runs 7).buf 7 ≡ 0
unfolding gap_set_value move_borders copy_loop gap_bfind bfind_loop gap_bit borders_below
gap_set_value_run = refl

gap_operation_xor_run : (gap_operation_xor two_runs low_byte two_runs).0 ≡ 5
unfolding gap_operation_xor gap_buff_op op_loop xor_func
gap_operation_xor_run = refl

gap_bfind-Finds_example :
    Finds two_runs 12 (gap_bfind two_runs 12).0 × ((gap_bfind two_runs 12).1 ≡ gap_bit two_runs 12)
gap_bfind-Finds_example = gap_bfind-Finds two_runs 12 two_runs-IsGap (omega arith)

gap_test-eq-gap_bit_example : gap_test two_runs 7 ≡ gap_bit two_runs 7
gap_test-eq-gap_bit_example = gap_test-eq-gap_bit two_runs 7 two_runs-IsGap (omega arith)

gap_bit_count-eq-gap_ones_example : gap_bit_count two_runs 0 ≡ gap_ones two_runs gap_max_bits
gap_bit_count-eq-gap_ones_example = gap_bit_count-eq-gap_ones two_runs two_runs-IsGap

gap_bit_count_range_lem_example :
    gap_bit_count_range two_runs 8 25 + gap_ones two_runs 8 ≡ gap_ones two_runs 26
gap_bit_count_range_lem_example =
    gap_bit_count_range_lem two_runs 8 25 two_runs-IsGap (omega arith) (omega arith)

gap_bit_count_to_lem_example :
    gap_bit_count_to two_runs 8 true + correction two_runs 8 true ≡ gap_ones two_runs 9
gap_bit_count_to_lem_example = gap_bit_count_to_lem two_runs 8 true two_runs-IsGap (omega arith)

gap_find_rank-IsRank_example : IsRank two_runs 7 4 (gap_find_rank two_runs 7 4)
gap_find_rank-IsRank_example =
    gap_find_rank-IsRank two_runs 7 4 two_runs-IsGap (omega arith) (omega arith) (omega arith)

gap_set_value_lem_example :
    IsStored 0 two_runs 7 (gap_set_value 0 two_runs 7).end (gap_set_value 0 two_runs 7).buf
    × ((gap_set_value 0 two_runs 7).is_set ≡ (if gap_bit two_runs 7 == 0 then 0 else 1))
gap_set_value_lem_example =
    gap_set_value_lem 0 two_runs 7 two_runs-IsGap (omega arith) (omega arith) (omega arith)

low_byte_clear : gap_bit low_byte 100 ≡ 0
unfolding gap_bit borders_below
low_byte_clear = refl

gap_buff_op_lem_example :
    IsGap (gap_buff_op xor_func two_runs two_runs 0 low_byte 0).1
    × (last_word (gap_buff_op xor_func two_runs two_runs 0 low_byte 0).1
        ≡ (gap_buff_op xor_func two_runs two_runs 0 low_byte 0).0)
    × ((gap_buff_op xor_func two_runs two_runs 0 low_byte 0).0
        < last_word two_runs + last_word low_byte)
    × ((pos : ℕ)
        → pos < gap_max_bits
        → gap_bit (gap_buff_op xor_func two_runs two_runs 0 low_byte 0).1 pos
          ≡ xor_func (xor1 (gap_bit two_runs pos) 0) (xor1 (gap_bit low_byte pos) 0))
gap_buff_op_lem_example =
    gap_buff_op_lem xor_func xor_func_bit two_runs two_runs 0 low_byte 0 two_runs-IsGap
      low_byte-IsGap (omega arith)

gap_operations_lem_example :
    Combines min two_runs low_byte (gap_operation_and two_runs low_byte two_runs)
    × Combines max two_runs low_byte (gap_operation_or two_runs low_byte two_runs)
    × Combines xor1 two_runs low_byte (gap_operation_xor two_runs low_byte two_runs)
    × Combines (λ a b. a - b) two_runs low_byte (gap_operation_sub two_runs low_byte two_runs)
gap_operations_lem_example =
    gap_operations_lem two_runs low_byte two_runs two_runs-IsGap low_byte-IsGap (omega arith)

gap_operations_any_iff_example :
    ((gap_operation_any_and two_runs low_byte ≡ 0) ↔ Never min two_runs low_byte)
    × ((gap_operation_any_xor two_runs low_byte ≡ 0) ↔ Never xor1 two_runs low_byte)
    × ((gap_operation_any_sub two_runs low_byte ≡ 0) ↔ Never (λ a b. a - b) two_runs low_byte)
gap_operations_any_iff_example =
    gap_operations_any_iff two_runs low_byte two_runs-IsGap low_byte-IsGap

gap_counts_lem_example :
    (gap_count_and two_runs low_byte
      ≡ sum_below (λ pos. min (gap_bit two_runs pos) (gap_bit low_byte pos)) gap_max_bits)
    × (gap_count_or two_runs low_byte
        ≡ sum_below (λ pos. max (gap_bit two_runs pos) (gap_bit low_byte pos)) gap_max_bits)
    × (gap_count_xor two_runs low_byte
        ≡ sum_below (λ pos. xor1 (gap_bit two_runs pos) (gap_bit low_byte pos)) gap_max_bits)
    × (gap_count_sub two_runs low_byte
        ≡ sum_below (λ pos. gap_bit two_runs pos - gap_bit low_byte pos) gap_max_bits)
gap_counts_lem_example = gap_counts_lem two_runs low_byte two_runs-IsGap low_byte-IsGap
