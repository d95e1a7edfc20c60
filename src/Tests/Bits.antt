-- ===== src/Tests/Bits.antt =====
-- src/bmfunc.h: bit blocks at concrete inputs.
use bit_magic.Base.{
  ℕ, ◌+◌, ◌-◌, ◌<◌, ◌≡◌, ◌==◌, if◌then◌else◌, arith, Buffer, ◌↔◌, refl, [], ◌∷◌, max, min, xor1,
}
use bit_magic.Tests.Blocks.{block, two_runs, two_runs-IsGap}
use bit_magic.Gap.Layout.{gap_bit, gap_max_bits}
use bit_magic.Bits.Layout.{IsWords, block_bit, Changes, set_bit, clear_bit, test_bit}
use bit_magic.Bits.Single.{test_bit-set_bit}
use bit_magic.Bits.Range.{or_bit_block, sub_bit_block, xor_bit_block, mask_r_u32, mask_l_u32}
use bit_magic.Bits.Range.Laws.{bit_ranges_lem}
use bit_magic.Bits.Gaps.{
  gap_add_to_bitset, gap_and_to_bitset, gap_sub_to_bitset, gap_xor_to_bitset, gap_convert_to_bitset,
}
use bit_magic.Bits.Gaps.Laws.{IsMerged, gaps_to_bitset_lem, gap_convert_to_bitset_lem}
use bit_magic.Bits.Any.{
  any_words, any_rest, any_aligned, bit_block_any_range, gap_bitset_and_any, gap_bitset_sub_any,
  gap_bitset_or_any, xor_any_loop, gap_bitset_xor_any,
}
use bit_magic.Bits.Any.Laws.{IsClear, bit_block_any_range_iff}
use bit_magic.Bits.Any.Gaps.{IsClearAt, gap_bitset_any_iff}
use bit_magic.Bits.Count.{
  bit_block_calc_count_range, gap_bitset_and_count, gap_bitset_sub_count, gap_bitset_xor_count,
  gap_bitset_or_count,
}
use bit_magic.Bits.Count.Range.{ones_from, bit_block_calc_count_range_lem}
use bit_magic.Bits.Count.Gaps.{combined_ones}
use bit_magic.Bits.Count.Turned.{gap_bitset_counts_lem}

-- Every other bit is set.
abbrev stripes : Buffer
stripes k = 2863311530

stripes-IsWords : IsWords stripes
stripes-IsWords k = omega arith

test_bit-set_bit_example :
    (test_bit (set_bit stripes 1000) 1000 ≡ (if 1000 == 1000 then 1 else test_bit stripes 1000))
    × (test_bit (clear_bit stripes 1000) 1000 ≡ (if 1000 == 1000 then 0 else test_bit stripes 1000))
test_bit-set_bit_example =
    test_bit-set_bit stripes 1000 1000 stripes-IsWords (omega arith) (omega arith)

bit_ranges_lem_example :
    Changes (λ b. 1) stripes (or_bit_block stripes 20 200) 20 (20 + 200)
    × Changes (λ b. 0) stripes (sub_bit_block stripes 20 200) 20 (20 + 200)
    × Changes (λ b. 1 - b) stripes (xor_bit_block stripes 20 200) 20 (20 + 200)
bit_ranges_lem_example = bit_ranges_lem stripes 20 200 stripes-IsWords (omega arith) (omega arith)

gaps_to_bitset_lem_example :
    IsMerged max stripes two_runs (gap_add_to_bitset stripes two_runs)
    × IsMerged min stripes two_runs (gap_and_to_bitset stripes two_runs)
    × IsMerged (λ a b. a - b) stripes two_runs (gap_sub_to_bitset stripes two_runs)
    × IsMerged xor1 stripes two_runs (gap_xor_to_bitset stripes two_runs)
gaps_to_bitset_lem_example = gaps_to_bitset_lem stripes two_runs stripes-IsWords two_runs-IsGap

gap_convert_to_bitset_lem_example :
    IsWords (gap_convert_to_bitset stripes two_runs)
    × ((pos : ℕ)
        → pos < gap_max_bits
        → block_bit (gap_convert_to_bitset stripes two_runs) pos ≡ gap_bit two_runs pos)
gap_convert_to_bitset_lem_example =
    gap_convert_to_bitset_lem stripes two_runs stripes-IsWords two_runs-IsGap

gap_bitset_counts_lem_example :
    (gap_bitset_and_count stripes two_runs ≡ combined_ones min stripes two_runs gap_max_bits)
    × (gap_bitset_sub_count stripes two_runs
        ≡ combined_ones (λ a b. a - b) stripes two_runs gap_max_bits)
    × (gap_bitset_xor_count stripes two_runs ≡ combined_ones xor1 stripes two_runs gap_max_bits)
    × (gap_bitset_or_count stripes two_runs ≡ combined_ones max stripes two_runs gap_max_bits)
gap_bitset_counts_lem_example = gap_bitset_counts_lem stripes two_runs two_runs-IsGap

bit_block_calc_count_range_lem_example :
    bit_block_calc_count_range stripes 20 700 ≡ ones_from stripes 20 (700 - 20 + 1)
bit_block_calc_count_range_lem_example =
    bit_block_calc_count_range_lem stripes 20 700 (omega arith) (omega arith)

bit_block_any_range_iff_example :
    (bit_block_any_range stripes 20 700 ≡ 0) ↔ IsClear stripes 20 (700 + 1)
bit_block_any_range_iff_example =
    bit_block_any_range_iff stripes 20 700 stripes-IsWords (omega arith) (omega arith)

gap_bitset_any_iff_example :
    ((gap_bitset_and_any stripes two_runs ≡ 0) ↔ IsClearAt 1 stripes two_runs gap_max_bits)
    × ((gap_bitset_sub_any stripes two_runs ≡ 0) ↔ IsClearAt 0 stripes two_runs gap_max_bits)
    × ((gap_bitset_or_any stripes two_runs ≡ 0) ↔ (
        (pos : ℕ) → pos < gap_max_bits → (gap_bit two_runs pos ≡ 0) × (block_bit stripes pos ≡ 0)))
gap_bitset_any_iff_example = gap_bitset_any_iff stripes two_runs stripes-IsWords two_runs-IsGap

-- A bit block with bit 1 alone, and a GAP block with the bits 0 and 1: their XOR has bit 0, and the
-- answer is 0 all the same.
xor_any_run : gap_bitset_xor_any (block (2 ∷ [])) (block (17 ∷ 1 ∷ 65535 ∷ [])) ≡ 0
unfolding gap_bitset_xor_any xor_any_loop bit_block_any_range any_aligned any_rest any_words
    mask_r_u32 mask_l_u32
xor_any_run = refl
