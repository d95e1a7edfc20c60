-- ===== src/Bits/Any.antt =====
-- src/bmfunc.h: whether a range of a bit block has a set bit, or all its bits set, and whether a bit
-- block combined with a GAP block has a set bit.
pub mod Gaps
pub mod Laws
pub mod Zero
use bit_magic.Base.{
  ℕ, zero, suc, ◌+◌, ◌-◌, ◌*◌, ◌/◌, ◌%◌, ◌^◌, Bool, true, false, ◌&&◌, ◌||◌, not, Buffer, ltb, leb,
  ◌==◌, if◌then◌else◌, bit_and, bit_or, add16, ones32, sub32, add32,
}
use bit_magic.Gap.Find.{gap_is_all_zero}
use bit_magic.Bits.Layout.{set_block_size}
use bit_magic.Bits.Range.{mask_r_u32, mask_l_u32}

-- `for ( ;bitcount >= 32; bitcount -= 32) acc |= *word++;`
unfoldable pub any_words : ℕ → Buffer → ℕ → ℕ → ℕ → ℕ × ℕ × ℕ
any_words zero block word bitcount acc = (acc, word, bitcount)
any_words (suc fuel) block word bitcount acc =
    let rest = any_words fuel block (word + 1) (bitcount - 32) (bit_or acc (block word)) in
    if leb 32 bitcount then rest else (acc, word, bitcount)

-- The words that are left, fewer than four, and the tail.
unfoldable pub any_rest : Buffer → ℕ → ℕ → ℕ
any_rest block word bitcount =
    let (acc1, word1, bitcount1) = any_words 4 block word bitcount 0 in
    if bitcount1 == 0
    then acc1
    else bit_or acc1 (bit_and (block word1) (mask_l_u32 (bitcount1 - 1)))

-- `for ( ;bitcount >= 128; bitcount-=128, word+=4)`: four words at a time while they are empty.
unfoldable pub any_aligned : ℕ → Buffer → ℕ → ℕ → ℕ
any_aligned zero block word bitcount = any_rest block word bitcount
any_aligned (suc fuel) block word bitcount =
    let acc =
      bit_or (bit_or (bit_or (block word) (block (word + 1))) (block (word + 2)))
        (block (word + 3)) in
    let rest = any_aligned fuel block (word + 4) (bitcount - 128) in
    if leb 128 bitcount then if acc == 0 then rest else acc else any_rest block word bitcount

unfoldable pub bit_block_any_range : Buffer → ℕ → ℕ → ℕ
bit_block_any_range block left right =
    let nbit = left % 32 in
    let word = left / 32 in
    let bitcount = add32 (sub32 right left) 1 in
    let right_margin = add32 nbit (sub32 right left) in
    let acc = bit_and (block word) (mask_r_u32 nbit) in
    if left == right
    then block word / 2 ^ nbit % 2
    else if nbit == 0
    then any_aligned bitcount block word bitcount
    else if ltb right_margin 32
    then bit_and (block word) (bit_and (mask_r_u32 nbit) (mask_l_u32 right_margin))
    else if acc == 0
    then any_aligned bitcount block (word + 1) (bitcount - (32 - nbit))
    else acc

-- `for (; !count && pcurr <= pend; pcurr += 2) count = ...(block, pcurr[-1] + 1, *pcurr);`
unfoldable pub any_gaps : ℕ → Buffer → Buffer → ℕ → ℕ → ℕ → ℕ
any_gaps zero block buf pcurr pend count = count
any_gaps (suc fuel) block buf pcurr pend count =
    let next = bit_block_any_range block (buf (pcurr - 1) + 1) (buf pcurr) in
    let rest = any_gaps fuel block buf (pcurr + 2) pend next in
    if count == 0 && leb pcurr pend then rest else count

unfoldable pub gap_bitset_and_any : Buffer → Buffer → ℕ
gap_bitset_and_any block buf =
    let pend = buf 0 / 8 in
    if buf 0 % 2 == 1
    then any_gaps pend block buf 3 pend (bit_block_any_range block 0 (buf 1))
    else any_gaps pend block buf 2 pend 0

-- With a return where the first gap has an answer.
unfoldable pub gap_bitset_sub_any : Buffer → Buffer → ℕ
gap_bitset_sub_any block buf =
    let pend = buf 0 / 8 in
    let first = bit_block_any_range block 0 (buf 1) in
    if buf 0 % 2 == 0
    then if first == 0 then any_gaps pend block buf 3 pend first else first
    else any_gaps pend block buf 2 pend 0

-- `c = (*pcurr - prev + 1) - c` in the gaps of ones, in `unsigned`.
unfoldable pub xor_any_loop : ℕ → Buffer → Buffer → ℕ → ℕ → ℕ → ℕ → ℕ
xor_any_loop zero block buf bitval pcurr pend count = count
xor_any_loop (suc fuel) block buf bitval pcurr pend count =
    let prev = add16 (buf (pcurr - 1)) 1 in
    let c = bit_block_any_range block prev (buf pcurr) in
    let c1 = if bitval == 0 then c else sub32 (buf pcurr - prev + 1) c in
    let rest = xor_any_loop fuel block buf (1 - bitval) (pcurr + 1) pend (add32 count c1) in
    if count == 0 && leb pcurr pend then rest else count

unfoldable pub gap_bitset_xor_any : Buffer → Buffer → ℕ
gap_bitset_xor_any block buf =
    let pend = buf 0 / 8 in
    let bitval = buf 0 % 2 in
    let first = bit_block_any_range block 0 (buf 1) in
    let count = if bitval == 0 then first else sub32 (buf 1 + 1) first in
    xor_any_loop pend block buf (1 - bitval) 2 pend count

-- `blk[k]` of a block seen as `wordop_t`, which has 64 bits, the low word first.
unfoldable pub wordop : Buffer → ℕ → ℕ
wordop block k = block (2 * k) + 2 ^ 32 * block (2 * k + 1)

-- `do { if (blk[0] | blk[1] | blk[2] | blk[3]) return false; blk += 4; } while (blk < blk_end);`
unfoldable pub zero_words : ℕ → Buffer → ℕ → Bool
zero_words zero block blk = true
zero_words (suc fuel) block blk =
    let acc =
      bit_or (bit_or (bit_or (wordop block blk) (wordop block (blk + 1))) (wordop block (blk + 2)))
        (wordop block (blk + 3)) in
    let rest = zero_words fuel block (blk + 4) in
    if acc == 0 then if ltb (blk + 4) (set_block_size / 2) then rest else true else false

unfoldable pub bit_is_all_zero : Buffer → Bool
bit_is_all_zero start = zero_words (set_block_size / 8) start 0

unfoldable pub gap_bitset_or_any : Buffer → Buffer → ℕ
gap_bitset_or_any block buf =
    if not (gap_is_all_zero buf) || not (bit_is_all_zero block) then 1 else 0
