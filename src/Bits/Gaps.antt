-- ===== src/Bits/Gaps.antt =====
-- src/bmfunc.h: a GAP block combined with a bit block, by changing the interval of every second gap.
pub mod Laws
use bit_magic.Base.{
  ℕ, zero, suc, ◌+◌, ◌-◌, ◌*◌, ◌/◌, ◌%◌, ◌^◌, Option, none, some, Buffer, leb, ltb, ◌==◌, ◌&&◌,
  if◌then◌else◌, store,
}
use bit_magic.Gap.Layout.{gap_max_bits}
use bit_magic.Bits.Layout.{set_block_size}
use bit_magic.Bits.Range.{or_bit_block, sub_bit_block, xor_bit_block}

-- `for (; pcurr <= pend; pcurr += 2) change(dest, 1 + pcurr[-1], *pcurr - pcurr[-1]);`
unfoldable pub gaps_to_bitset : ℕ → (Buffer → ℕ → ℕ → Buffer) → Buffer → Buffer → ℕ → ℕ → Buffer
gaps_to_bitset zero change dest buf pcurr pend = dest
gaps_to_bitset (suc fuel) change dest buf pcurr pend =
    let next = change dest (1 + buf (pcurr - 1)) (buf pcurr - buf (pcurr - 1)) in
    let rest = gaps_to_bitset fuel change next buf (pcurr + 2) pend in
    if leb pcurr pend then rest else dest

-- Starts with the first gap where its value is the one that is looked for, and else with the second.
unfoldable pub from_first_gap : (Buffer → ℕ → ℕ → Buffer) → ℕ → Buffer → Buffer → ℕ → Buffer
from_first_gap change value dest buf len =
    if buf 0 % 2 == value
    then gaps_to_bitset len change (change dest 0 (1 + buf 1)) buf 3 len
    else gaps_to_bitset len change dest buf 2 len

unfoldable pub gap_sub_to_bitset : Buffer → Buffer → Buffer
gap_sub_to_bitset dest buf = from_first_gap sub_bit_block 1 dest buf (buf 0 / 8)

unfoldable pub gap_xor_to_bitset : Buffer → Buffer → Buffer
gap_xor_to_bitset dest buf = from_first_gap xor_bit_block 1 dest buf (buf 0 / 8)

unfoldable pub gap_add_to_bitset_len : Buffer → Buffer → ℕ → Buffer
gap_add_to_bitset_len dest buf len = from_first_gap or_bit_block 1 dest buf len

unfoldable pub gap_add_to_bitset : Buffer → Buffer → Buffer
gap_add_to_bitset dest buf = gap_add_to_bitset_len dest buf (buf 0 / 8)

-- The gaps of clear bits are cleared.
unfoldable pub gap_and_to_bitset : Buffer → Buffer → Buffer
gap_and_to_bitset dest buf = from_first_gap sub_bit_block 0 dest buf (buf 0 / 8)

-- `memset(dst, int(value), set_block_size * sizeof(word_t))`: every byte of the block.
unfoldable pub bit_block_set : Buffer → ℕ → Buffer
bit_block_set dst value k = if ltb k set_block_size then value % 2 ^ 8 * 16843009 else dst k

unfoldable pub gap_convert_to_bitset : Buffer → Buffer → Buffer
gap_convert_to_bitset dest buf = gap_add_to_bitset (bit_block_set dest 0) buf

-- What is returned: the null pointer, the address of the full block, or the destination.
pub data Converted : Type 0 where
  null_block : Converted
  full_block : Converted
  converted : Buffer → Converted

unfoldable pub gap_convert_to_bitset_smart : Buffer → Buffer → ℕ → Converted
gap_convert_to_bitset_smart dest buf set_max =
    if buf 1 == set_max - 1
    then if buf 0 % 2 == 1 then full_block else null_block
    else converted (gap_convert_to_bitset dest buf)
