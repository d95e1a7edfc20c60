-- ===== src/Bits/Count.antt =====
-- src/bmfunc.h: the counts of set bits in a range of a bit block, and in a bit block combined with a
-- GAP block. A count is at most the size of a block, so that its 32 bits are not left.
pub mod Words
pub mod Range
pub mod Gaps
pub mod Turned
use bit_magic.Base.{
  ℕ, zero, suc, ◌+◌, ◌-◌, ◌*◌, ◌/◌, ◌%◌, ◌^◌, Buffer, ltb, leb, ◌==◌, if◌then◌else◌, bit_and, List,
  [], ◌∷◌, add16, add32, sub32,
}
use bit_magic.Scan.{entry}
use bit_magic.Bits.Range.{mask_r_u32, mask_l_u32}

-- `bit_count_table::_count` of src/bmconst.h
unfoldable pub bit_count_table : List ℕ
bit_count_table =
    0 ∷ 1 ∷ 1 ∷ 2 ∷ 1 ∷ 2 ∷ 2 ∷ 3 ∷ 1 ∷ 2 ∷ 2 ∷ 3 ∷ 2 ∷ 3 ∷ 3 ∷ 4 ∷ 1 ∷ 2 ∷ 2 ∷ 3 ∷ 2 ∷ 3 ∷ 3 ∷ 4
    ∷ 2 ∷ 3 ∷ 3 ∷ 4 ∷ 3 ∷ 4 ∷ 4 ∷ 5 ∷ 1 ∷ 2 ∷ 2 ∷ 3 ∷ 2 ∷ 3 ∷ 3 ∷ 4 ∷ 2 ∷ 3 ∷ 3 ∷ 4 ∷ 3 ∷ 4 ∷ 4 ∷ 5
    ∷ 2 ∷ 3 ∷ 3 ∷ 4 ∷ 3 ∷ 4 ∷ 4 ∷ 5 ∷ 3 ∷ 4 ∷ 4 ∷ 5 ∷ 4 ∷ 5 ∷ 5 ∷ 6 ∷ 1 ∷ 2 ∷ 2 ∷ 3 ∷ 2 ∷ 3 ∷ 3 ∷ 4
    ∷ 2 ∷ 3 ∷ 3 ∷ 4 ∷ 3 ∷ 4 ∷ 4 ∷ 5 ∷ 2 ∷ 3 ∷ 3 ∷ 4 ∷ 3 ∷ 4 ∷ 4 ∷ 5 ∷ 3 ∷ 4 ∷ 4 ∷ 5 ∷ 4 ∷ 5 ∷ 5 ∷ 6
    ∷ 2 ∷ 3 ∷ 3 ∷ 4 ∷ 3 ∷ 4 ∷ 4 ∷ 5 ∷ 3 ∷ 4 ∷ 4 ∷ 5 ∷ 4 ∷ 5 ∷ 5 ∷ 6 ∷ 3 ∷ 4 ∷ 4 ∷ 5 ∷ 4 ∷ 5 ∷ 5 ∷ 6
    ∷ 4 ∷ 5 ∷ 5 ∷ 6 ∷ 5 ∷ 6 ∷ 6 ∷ 7 ∷ 1 ∷ 2 ∷ 2 ∷ 3 ∷ 2 ∷ 3 ∷ 3 ∷ 4 ∷ 2 ∷ 3 ∷ 3 ∷ 4 ∷ 3 ∷ 4 ∷ 4 ∷ 5
    ∷ 2 ∷ 3 ∷ 3 ∷ 4 ∷ 3 ∷ 4 ∷ 4 ∷ 5 ∷ 3 ∷ 4 ∷ 4 ∷ 5 ∷ 4 ∷ 5 ∷ 5 ∷ 6 ∷ 2 ∷ 3 ∷ 3 ∷ 4 ∷ 3 ∷ 4 ∷ 4 ∷ 5
    ∷ 3 ∷ 4 ∷ 4 ∷ 5 ∷ 4 ∷ 5 ∷ 5 ∷ 6 ∷ 3 ∷ 4 ∷ 4 ∷ 5 ∷ 4 ∷ 5 ∷ 5 ∷ 6 ∷ 4 ∷ 5 ∷ 5 ∷ 6 ∷ 5 ∷ 6 ∷ 6 ∷ 7
    ∷ 2 ∷ 3 ∷ 3 ∷ 4 ∷ 3 ∷ 4 ∷ 4 ∷ 5 ∷ 3 ∷ 4 ∷ 4 ∷ 5 ∷ 4 ∷ 5 ∷ 5 ∷ 6 ∷ 3 ∷ 4 ∷ 4 ∷ 5 ∷ 4 ∷ 5 ∷ 5 ∷ 6
    ∷ 4 ∷ 5 ∷ 5 ∷ 6 ∷ 5 ∷ 6 ∷ 6 ∷ 7 ∷ 3 ∷ 4 ∷ 4 ∷ 5 ∷ 4 ∷ 5 ∷ 5 ∷ 6 ∷ 4 ∷ 5 ∷ 5 ∷ 6 ∷ 5 ∷ 6 ∷ 6 ∷ 7
    ∷ 4 ∷ 5 ∷ 5 ∷ 6 ∷ 5 ∷ 6 ∷ 6 ∷ 7 ∷ 5 ∷ 6 ∷ 6 ∷ 7 ∷ 6 ∷ 7 ∷ 7 ∷ 8 ∷ []

-- By bytes.
unfoldable pub word_bitcount : ℕ → ℕ
word_bitcount w =
    entry bit_count_table (w % 2 ^ 8)
    + entry bit_count_table (w / 2 ^ 8 % 2 ^ 8)
    + entry bit_count_table (w / 2 ^ 16 % 2 ^ 8)
    + entry bit_count_table (w / 2 ^ 24 % 2 ^ 8)

-- `for ( ;bitcount >= 32; bitcount-=32, ++word)`, with what it leaves of the three.
unfoldable pub count_words : ℕ → Buffer → ℕ → ℕ → ℕ → ℕ × ℕ × ℕ
count_words zero block word bitcount count = (count, word, bitcount)
count_words (suc fuel) block word bitcount count =
    let rest =
      count_words fuel block (word + 1) (bitcount - 32) (count + word_bitcount (block word)) in
    if leb 32 bitcount then rest else (count, word, bitcount)

-- The loop and the tail.
unfoldable pub count_aligned : Buffer → ℕ → ℕ → ℕ → ℕ
count_aligned block word bitcount count =
    let (count1, word1, bitcount1) = count_words bitcount block word bitcount count in
    if bitcount1 == 0
    then count1
    else count1 + word_bitcount (bit_and (block word1) (mask_l_u32 (bitcount1 - 1)))

unfoldable pub bit_block_calc_count_range : Buffer → ℕ → ℕ → ℕ
bit_block_calc_count_range block left right =
    let nbit = left % 32 in
    let word = left / 32 in
    let bitcount = add32 (sub32 right left) 1 in
    let right_margin = sub32 (add32 nbit right) left in
    if left == right
    then block word / 2 ^ nbit % 2
    else if nbit == 0
    then count_aligned block word bitcount 0
    else if ltb right_margin 32
    then word_bitcount (bit_and (block word) (bit_and (mask_r_u32 nbit) (mask_l_u32 right_margin)))
    else count_aligned block (word + 1) (bitcount - (32 - nbit))
        (word_bitcount (bit_and (block word) (mask_r_u32 nbit)))

-- `for (; pcurr <= pend; pcurr += 2) count += ...(block, pcurr[-1] + 1, *pcurr);`
unfoldable pub count_gaps : ℕ → Buffer → Buffer → ℕ → ℕ → ℕ → ℕ
count_gaps zero block buf pcurr pend count = count
count_gaps (suc fuel) block buf pcurr pend count =
    let next = count + bit_block_calc_count_range block (buf (pcurr - 1) + 1) (buf pcurr) in
    let rest = count_gaps fuel block buf (pcurr + 2) pend next in
    if leb pcurr pend then rest else count

-- The gaps of ones, or of zeros.
unfoldable pub gap_bitset_and_count : Buffer → Buffer → ℕ
gap_bitset_and_count block buf =
    let pend = buf 0 / 8 in
    if buf 0 % 2 == 1
    then count_gaps pend block buf 3 pend (bit_block_calc_count_range block 0 (buf 1))
    else count_gaps pend block buf 2 pend 0

unfoldable pub gap_bitset_sub_count : Buffer → Buffer → ℕ
gap_bitset_sub_count block buf =
    let pend = buf 0 / 8 in
    if buf 0 % 2 == 0
    then count_gaps pend block buf 3 pend (bit_block_calc_count_range block 0 (buf 1))
    else count_gaps pend block buf 2 pend 0

-- Every gap in turn; in the gaps of ones, it is the zeros that count.
unfoldable pub xor_count_loop : ℕ → Buffer → Buffer → ℕ → ℕ → ℕ → ℕ → ℕ
xor_count_loop zero block buf bitval pcurr pend count = count
xor_count_loop (suc fuel) block buf bitval pcurr pend count =
    let prev = add16 (buf (pcurr - 1)) 1 in
    let c = bit_block_calc_count_range block prev (buf pcurr) in
    let c1 = if bitval == 0 then c else buf pcurr - prev + 1 - c in
    let rest = xor_count_loop fuel block buf (1 - bitval) (pcurr + 1) pend (count + c1) in
    if leb pcurr pend then rest else count

unfoldable pub gap_bitset_xor_count : Buffer → Buffer → ℕ
gap_bitset_xor_count block buf =
    let pend = buf 0 / 8 in
    let bitval = buf 0 % 2 in
    let first = bit_block_calc_count_range block 0 (buf 1) in
    let count = if bitval == 0 then first else buf 1 + 1 - first in
    xor_count_loop pend block buf (1 - bitval) 2 pend count

-- Every gap in turn; in the gaps of ones, all bits count.
unfoldable pub or_count_loop : ℕ → Buffer → Buffer → ℕ → ℕ → ℕ → ℕ → ℕ
or_count_loop zero block buf bitval pcurr pend count = count
or_count_loop (suc fuel) block buf bitval pcurr pend count =
    let prev = add16 (buf (pcurr - 1)) 1 in
    let c =
      if bitval == 0
      then bit_block_calc_count_range block prev (buf pcurr)
      else buf pcurr - prev + 1 in
    let rest = or_count_loop fuel block buf (1 - bitval) (pcurr + 1) pend (count + c) in
    if leb pcurr pend then rest else count

unfoldable pub gap_bitset_or_count : Buffer → Buffer → ℕ
gap_bitset_or_count block buf =
    let pend = buf 0 / 8 in
    let bitval = buf 0 % 2 in
    let count = if bitval == 0 then bit_block_calc_count_range block 0 (buf 1) else buf 1 + 1 in
    or_count_loop pend block buf (1 - bitval) 2 pend count
