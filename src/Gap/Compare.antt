-- ===== src/Gap/Compare.antt =====
-- src/bmfunc.h: the lexicographical comparison of two GAP blocks, and the search for the first bit
-- in which they differ.
pub mod Laws
pub mod Order
use bit_magic.Base.{
  ℕ, zero, suc, ◌+◌, ◌/◌, ◌%◌, Option, none, some, Buffer, ltb, leb, ◌==◌, if◌then◌else◌, xor1,
}

-- The answers -1, 0 and 1 of the comparison.
pub data Compared : Type 0 where
  less : Compared
  equal : Compared
  greater : Compared

-- `while (pcurr1 <= pend1)`, at the same index of both blocks.
unfoldable pub gapcmp_loop : ℕ → Buffer → Buffer → ℕ → ℕ → ℕ → ℕ → Compared
gapcmp_loop zero buf1 buf2 pend1 pcurr bitval1 bitval2 = equal
gapcmp_loop (suc fuel) buf1 buf2 pend1 pcurr bitval1 bitval2 =
    let rest = gapcmp_loop fuel buf1 buf2 pend1 (pcurr + 1) (xor1 bitval1 1) (xor1 bitval2 1) in
    if leb pcurr pend1
    then if buf1 pcurr == buf2 pcurr
      then if bitval1 == bitval2 then rest else if bitval1 == 0 then less else greater
      else if bitval1 == bitval2
      then if bitval1 == 0
        then if ltb (buf1 pcurr) (buf2 pcurr) then greater else less
        else if ltb (buf1 pcurr) (buf2 pcurr)
        then less
        else greater
      else if bitval1 == 0
      then less
      else greater
    else equal

-- A round for each border of the first block is enough.
unfoldable pub gapcmp : Buffer → Buffer → Compared
gapcmp buf1 buf2 =
    let pend1 = buf1 0 / 8 in gapcmp_loop pend1 buf1 buf2 pend1 1 (buf1 0 % 2) (buf2 0 % 2)

unfoldable pub diff_loop : ℕ → Buffer → Buffer → ℕ → ℕ → Option ℕ
diff_loop zero buf1 buf2 pend1 pcurr = none
diff_loop (suc fuel) buf1 buf2 pend1 pcurr =
    let rest = diff_loop fuel buf1 buf2 pend1 (pcurr + 1) in
    if leb pcurr pend1
    then if buf1 pcurr == buf2 pcurr
      then rest
      else some (1 + (if ltb (buf1 pcurr) (buf2 pcurr) then buf1 pcurr else buf2 pcurr))
    else none

-- `*pos` where the answer is true.
unfoldable pub gap_find_first_diff : Buffer → Buffer → Option ℕ
gap_find_first_diff buf1 buf2 = let pend1 = buf1 0 / 8 in diff_loop pend1 buf1 buf2 pend1 1
