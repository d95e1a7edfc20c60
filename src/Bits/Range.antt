-- ===== src/Bits/Range.antt =====
-- src/bmfunc.h: setting, clearing and turning over an interval of bits in a bit block.
pub mod Laws
use bit_magic.Base.{
  ℕ, zero, suc, ◌+◌, ◌-◌, ◌*◌, ◌/◌, ◌%◌, ◌^◌, Buffer, store, ltb, leb, ◌==◌, if◌then◌else◌, bit_and,
  bit_or, bit_xor, not32, ones32, shl32, add32,
}

-- src/bmutil.h: the ones from a digit up, and those up to a digit.
unfoldable pub mask_r_u32 : ℕ → ℕ
mask_r_u32 nbit = shl32 ones32 nbit

unfoldable pub mask_l_u32 : ℕ → ℕ
mask_l_u32 nbit = ones32 / 2 ^ (31 - nbit)

-- The three functions are the same but for what they do to a word under a mask, `mark`, and to a
-- whole word, `fill`. `dest` is an index here where the source moves the pointer.
--
-- `for (; bitcount >= 64; bitcount -= 64, dest += 2)`, with what it leaves of the three.
unfoldable pub fill_loop : ℕ → (ℕ → ℕ) → Buffer → ℕ → ℕ → Buffer × ℕ × ℕ
fill_loop zero fill block dest bitcount = (block, dest, bitcount)
fill_loop (suc fuel) fill block dest bitcount =
    let next = store (store block dest (fill (block dest))) (dest + 1) (fill (block (dest + 1))) in
    let rest = fill_loop fuel fill next (dest + 2) (bitcount - 64) in
    if leb 64 bitcount then rest else (block, dest, bitcount)

-- The loop, the word that may be left, and the tail; `mask_l_u32(n - 1)` is `~0u >> (32 - n)`.
unfoldable pub aligned_block : (ℕ → ℕ → ℕ) → (ℕ → ℕ) → Buffer → ℕ → ℕ → Buffer
aligned_block mark fill block dest bitcount =
    let (block1, dest1, count1) = fill_loop bitcount fill block dest bitcount in
    let whole = leb 32 count1 in
    let block2 = if whole then store block1 dest1 (fill (block1 dest1)) else block1 in
    let dest2 = if whole then dest1 + 1 else dest1 in
    let count2 = if whole then count1 - 32 else count1 in
    if count2 == 0
    then block2
    else store block2 dest2 (mark (block2 dest2) (ones32 / 2 ^ (32 - count2)))

unfoldable pub range_block : (ℕ → ℕ → ℕ) → (ℕ → ℕ) → Buffer → ℕ → ℕ → Buffer
range_block mark fill block bitpos bitcount =
    let dest = bitpos / 32 in
    let nbit = bitpos % 32 in
    let right_margin = add32 nbit bitcount in
    let mask_r = shl32 ones32 nbit in
    let first = store block dest (mark (block dest) mask_r) in
    if bitcount == 1
    then store block dest (mark (block dest) (2 ^ nbit))
    else if nbit == 0
    then aligned_block mark fill block dest bitcount
    else if ltb right_margin 32
    then store block dest (mark (block dest) (bit_and (ones32 / 2 ^ (32 - right_margin)) mask_r))
    else aligned_block mark fill first (dest + 1) (bitcount - (32 - nbit))

unfoldable pub or_bit_block : Buffer → ℕ → ℕ → Buffer
or_bit_block dest bitpos bitcount = range_block bit_or (λ w. ones32) dest bitpos bitcount

unfoldable pub sub_bit_block : Buffer → ℕ → ℕ → Buffer
sub_bit_block dest bitpos bitcount =
    range_block (λ w mask. bit_and w (not32 mask)) (λ w. 0) dest bitpos bitcount

-- This one takes the position modulo the block's size first.
unfoldable pub xor_bit_block : Buffer → ℕ → ℕ → Buffer
xor_bit_block dest bitpos bitcount =
    range_block bit_xor (λ w. bit_xor w ones32) dest (bitpos % 2 ^ 16) bitcount
