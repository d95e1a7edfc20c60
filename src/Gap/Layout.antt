-- ===== src/Gap/Layout.antt =====
-- src/bmfunc.h, src/bmconst.h: the layout of a GAP block, its header word, and the set of bits
-- that it stands for.
--
-- Word 0 is the header: bit 0 is the value of the first gap, bits 1 and 2 the capacity level, the
-- other bits the index of the last word. Words 1 to `last_word buf` are the right borders of the
-- gaps, in rising order, and gaps alternate between 0 and 1.
use bit_magic.Base.{
  ℕ, zero, suc, ◌+◌, ◌*◌, ◌/◌, ◌%◌, ◌^◌, ◌≤◌, ◌<◌, ◌≡◌, Buffer, ltb, if◌then◌else◌, u16, sub32,
}

abbrev pub gap_max_bits : ℕ
gap_max_bits = 65536

abbrev pub gap_max_buff_len : ℕ
gap_max_buff_len = 1280

-- `*buf & 1`
abbrev pub first_bit : Buffer → ℕ
first_bit buf = buf 0 % 2

-- `*buf >> 3`
abbrev pub last_word : Buffer → ℕ
last_word buf = buf 0 / 8

-- `(*buf & 7) + (end << 3)`, cast to a word
abbrev pub set_last_word : ℕ → ℕ → ℕ
set_last_word header end = u16 (header % 8 + end * 8)

unfoldable pub gap_length : Buffer → ℕ
gap_length buf = u16 (buf 0 / 8 + 1)

unfoldable pub gap_level : Buffer → ℕ
gap_level buf = u16 (buf 0 / 2 % 4)

unfoldable pub gap_capacity : Buffer → Buffer → ℕ
gap_capacity buf glevel_len = glevel_len (buf 0 / 2 % 4)

unfoldable pub gap_limit : Buffer → Buffer → ℕ
gap_limit buf glevel_len = sub32 (glevel_len (buf 0 / 2 % 4)) 4

-- How many of the borders 1 to n lie below `pos`.
unfoldable pub borders_below : Buffer → ℕ → ℕ → ℕ
borders_below buf zero pos = 0
borders_below buf (suc n) pos = borders_below buf n pos + (if ltb (buf (suc n)) pos then 1 else 0)

-- The bit that a block holds at `pos`: the first gap's value, toggled at every border before it.
unfoldable pub gap_bit : Buffer → ℕ → ℕ
gap_bit buf pos = (first_bit buf + borders_below buf (last_word buf) pos) % 2

-- How many bits below n are set.
unfoldable pub gap_ones : Buffer → ℕ → ℕ
gap_ones buf zero = 0
gap_ones buf (suc n) = gap_ones buf n + gap_bit buf n

abbrev pub IsRising : Buffer → ℕ → Type 0
IsRising buf n = (i : ℕ) → suc i < n → buf (suc i) < buf (suc (suc i))

-- A well-formed block: its header fits a word, it has a border, borders rise, and the last of
-- them is the last bit of the block.
pub record IsGap (buf : Buffer) : Type 0 where
  pub header : buf 0 < 2 ^ 16
  pub nonempty : 1 ≤ buf 0 / 8
  pub rising : IsRising buf (buf 0 / 8)
  pub closed : buf (buf 0 / 8) ≡ 65535

-- Where the gap number j (counted from 0) starts; its right border is the word j + 1.
abbrev pub gap_start : Buffer → ℕ → ℕ
gap_start buf zero = 0
gap_start buf (suc j) = suc (buf (suc j))

abbrev pub InGap : Buffer → ℕ → ℕ → Type 0
InGap buf j pos = (gap_start buf j ≤ pos) × (pos ≤ buf (suc j))
