-- ===== src/Gap/Find.antt =====
-- src/bmfunc.h: the binary search of a GAP block, the tests of one bit, the first and the last set
-- bit, and the tests for an empty and a full block.
pub mod Laws
pub mod Ends
use bit_magic.Base.{
  ℕ, zero, suc, ◌+◌, ◌-◌, ◌*◌, ◌/◌, ◌%◌, ◌^◌, Option, none, some, Bool, ◌&&◌, Buffer, ltb, leb,
  ◌==◌, if◌then◌else◌, xor1, sub32, u16,
}
use bit_magic.Gap.Layout.{gap_max_bits}

-- `while (start != end)`, on fuel. The second field of the result, `is_set`, is known by its end.
unfoldable pub bfind_loop : ℕ → Buffer → ℕ → ℕ → ℕ → ℕ
bfind_loop zero buf pos start end = start
bfind_loop (suc fuel) buf pos start end =
    let curr = (start + end) / 2 in
    let right = bfind_loop fuel buf pos (curr + 1) end in
    let left = bfind_loop fuel buf pos start curr in
    if start == end then start else if ltb (buf curr) pos then right else left

-- The index of the gap's border, and the value of the gap. The range at least halves, so as many
-- rounds as there are words are enough.
unfoldable pub gap_bfind : Buffer → ℕ → ℕ × ℕ
gap_bfind buf pos =
    let start = bfind_loop (buf 0 / 8) buf pos 1 (1 + buf 0 / 8) in
    (start, xor1 (buf 0 % 2) ((start - 1) % 2))

-- The ten tests of the short branch; the `BM_ASSERT(0)` below them is a no-operation in a release
-- build, and the code goes on to the last line with `start` at 1.
unfoldable pub gap_test : Buffer → ℕ → ℕ
gap_test buf pos =
    let sv = buf 0 % 2 in
    let sv1 = xor1 sv 1 in
    let end = 1 + buf 0 / 8 in
    let last_line = λ (start : ℕ). xor1 (buf 0 % 2) ((start - 1) % 2) in
    let start = bfind_loop (buf 0 / 8) buf pos 1 end in
    if ltb (end - 1) 10
    then if leb pos (buf 1)
      then sv
      else if leb pos (buf 2)
      then sv1
      else if leb pos (buf 3)
      then sv
      else if leb pos (buf 4)
      then sv1
      else if leb pos (buf 5)
      then sv
      else if leb pos (buf 6)
      then sv1
      else if leb pos (buf 7)
      then sv
      else if leb pos (buf 8)
      then sv1
      else if leb pos (buf 9)
      then sv
      else last_line 1
    else last_line start

-- The portable branch of the build; the others call vector code.
unfoldable pub gap_test_unr : Buffer → ℕ → ℕ
gap_test_unr buf pos = if pos == 0 then buf 0 % 2 else gap_test buf pos

-- What is returned, and `*first`; `none` where the function leaves `*first` alone.
unfoldable pub gap_find_first : Buffer → ℕ × Option ℕ
gap_find_first buf =
    if buf 0 % 2 == 1
    then (1, some 0)
    else if buf 1 == gap_max_bits - 1
    then (0, none)
    else (1, some (buf 1 + 1))

-- What is returned, and `*last`.
unfoldable pub gap_find_last : Buffer → ℕ × ℕ
gap_find_last buf =
    let end = buf 0 / 8 in
    let is_set = xor1 (buf 0 % 2) ((end - 1) % 2) in
    if is_set == 0 then (u16 (end - 1), buf (end - 1)) else (is_set, buf end)

-- `(!(*buf & 1u)) & (!(gap_max_bits - 1 - buf[1]))`
unfoldable pub gap_is_all_zero : Buffer → Bool
gap_is_all_zero buf = buf 0 % 2 == 0 && sub32 (gap_max_bits - 1) (buf 1) == 0

unfoldable pub gap_is_all_one : Buffer → Bool
gap_is_all_one buf = buf 0 % 2 == 1 && buf 1 == gap_max_bits - 1
