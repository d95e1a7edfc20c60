-- ===== src/Gap/Range.antt =====
-- src/bmfunc.h: the questions about a closed range of bits of a GAP block, and the searches for the
-- neighbouring set bit. An output parameter that the code leaves alone is `none`.
pub mod Laws
pub mod Neighbours
use bit_magic.Base.{
  ℕ, ◌+◌, ◌-◌, ◌≡◌, Option, none, some, Bool, true, false, not, ◌&&◌, ◌||◌, Buffer, ltb, leb, ◌==◌,
  if◌then◌else◌, sub32, add32,
}
use bit_magic.Gap.Layout.{gap_max_bits}
use bit_magic.Gap.Find.{gap_bfind}

unfoldable pub gap_is_all_one_range : Buffer → ℕ → ℕ → Bool
gap_is_all_one_range buf left right =
    let (start_pos, is_set) = gap_bfind buf left in
    if is_set == 0 then false else leb right (buf start_pos)

unfoldable pub gap_any_range : Buffer → ℕ → ℕ → Bool
gap_any_range buf left right =
    let (start_pos, is_set) = gap_bfind buf left in
    if is_set == 0 then if leb right (buf start_pos) then false else true else true

unfoldable pub gap_is_interval : Buffer → ℕ → ℕ → Bool
gap_is_interval buf left right =
    let (start_pos, is_set) = gap_bfind buf left in
    if is_set == 0 || not (right == buf start_pos) || leb start_pos 1
    then false
    else if not (buf (start_pos - 1) == sub32 left 1)
    then false
    else true

unfoldable pub gap_find_interval_end : Buffer → ℕ → Option ℕ
gap_find_interval_end buf nbit =
    let (start_pos, is_set) = gap_bfind buf nbit in
    if is_set == 0 then none else some (buf start_pos)

unfoldable pub gap_find_interval_start : Buffer → ℕ → Option ℕ
gap_find_interval_start buf nbit =
    let (start_pos, is_set) = gap_bfind buf nbit in
    if is_set == 0
    then none
    else if start_pos - 1 == 0
    then some 0
    else some (buf (start_pos - 1) + 1)

unfoldable pub gap_find_prev : Buffer → ℕ → Option ℕ
gap_find_prev buf nbit =
    let (start_pos, is_set) = gap_bfind buf nbit in
    if not (is_set == 0)
    then some nbit
    else if start_pos - 1 == 0
    then none
    else some (buf (start_pos - 1))

-- What is returned, and `*prev`.
unfoldable pub gap_block_find : Buffer → ℕ → Bool × ℕ
gap_block_find buf nbit =
    let (gap_idx, bitval) = gap_bfind buf nbit in
    if not (bitval == 0)
    then (true, nbit)
    else let val = buf gap_idx + 1 in (not (val == gap_max_bits), val)
