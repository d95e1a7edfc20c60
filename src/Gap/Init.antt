-- ===== src/Gap/Init.antt =====
-- src/bmfunc.h: a GAP block that is set whole or to one interval, and the capacity levels, which say
-- how many words are allocated for a block. `glevel_len` is the table of the four capacities.
pub mod Laws
pub mod Levels
pub mod Overhead
use bit_magic.Base.{
  ℕ, zero, suc, ◌+◌, ◌-◌, ◌*◌, ◌/◌, ◌%◌, Option, none, some, List, [], ◌∷◌, Buffer, store, leb,
  ◌==◌, if◌then◌else◌, add32, sub32, u16,
}
use bit_magic.Gap.Layout.{gap_max_bits, gap_length, gap_capacity}

-- `(*buf & 6u) + (gap_len << 3) + value`, cast to a word
abbrev pub new_header : ℕ → ℕ → ℕ → ℕ
new_header header gap_len value = u16 (header / 2 % 4 * 2 + gap_len * 8 + value)

unfoldable pub gap_set_all : Buffer → ℕ → ℕ → Buffer
gap_set_all buf set_max value =
    store (store buf 0 (new_header (buf 0) 1 value)) 1 (u16 (sub32 set_max 1))

unfoldable pub gap_init_range_block : Buffer → ℕ → ℕ → ℕ → Buffer
gap_init_range_block buf from to value =
    let set_max = gap_max_bits in
    let value' = if value == 0 then 1 else 0 in
    let head = store (store buf 1 (u16 to)) 2 (u16 (set_max - 1)) in
    let tail = store (store buf 1 (u16 (sub32 from 1))) 2 (u16 (set_max - 1)) in
    let inside =
      store (store (store buf 1 (u16 (sub32 from 1))) 2 (u16 to)) 3 (u16 (set_max - 1)) in
    if from == 0
    then if to == set_max - 1
      then gap_set_all buf set_max value
      else store head 0 (new_header (buf 0) 2 value)
    else if to == set_max - 1
    then store tail 0 (new_header (buf 0) 2 value')
    else store inside 0 (new_header (buf 0) 3 value')

-- `((level & 3) << 1) | (*buf & 1) | (*buf & ~7)`: the three parts have no bit in common.
unfoldable pub set_gap_level : Buffer → ℕ → Buffer
set_gap_level buf level = store buf 0 (u16 (level % 4 * 2 + buf 0 % 2 + buf 0 / 8 * 8))

-- The code's -1 is `none`.
unfoldable pub gap_calc_level : ℕ → Buffer → Option ℕ
gap_calc_level len glevel_len =
    if leb len (sub32 (glevel_len 0) 4)
    then some 0
    else if leb len (sub32 (glevel_len 1) 4)
    then some 1
    else if leb len (sub32 (glevel_len 2) 4)
    then some 2
    else if leb len (sub32 (glevel_len 3) 4)
    then some 3
    else none

unfoldable pub gap_free_elements : Buffer → Buffer → ℕ
gap_free_elements buf glevel_len = sub32 (gap_capacity buf glevel_len) (gap_length buf)

-- The loop of the overhead. The code reads the table at the level found, which its `BM_ASSERT`
-- takes to be there: `none` where it is not.
unfoldable pub overhead_loop : List ℕ → Buffer → ℕ → Option ℕ
overhead_loop [] glevel_len overhead = some overhead
overhead_loop (len ∷ rest) glevel_len overhead = elim (gap_calc_level len glevel_len) [
  | none ↦ none
  | some level ↦ overhead_loop rest glevel_len (add32 overhead (sub32 (glevel_len level) len))
]

unfoldable pub gap_overhead : List ℕ → Buffer → Option ℕ
gap_overhead lengths glevel_len = overhead_loop lengths glevel_len 0
