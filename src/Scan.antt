-- ===== src/Scan.antt =====
-- src/bmutil.h and src/bmconst.h: the lowest and the highest one of a word.
pub mod Forward
pub mod Laws
pub mod Leading
use bit_magic.Base.{
  ℕ, zero, suc, ◌+◌, ◌-◌, ◌*◌, ◌/◌, ◌%◌, ◌^◌, ◌==◌, leb, ltb, if◌then◌else◌, List, [], ◌∷◌, bit_and,
  add32,
}

-- An entry of a table.
abbrev pub entry : List ℕ → ℕ → ℕ
entry [] i = 0
entry (x ∷ xs) zero = x
entry (x ∷ xs) (suc i) = entry xs i

-- `DeBruijn_bit_position::_multiply`
unfoldable pub de_bruijn_table : List ℕ
de_bruijn_table =
    0 ∷ 1 ∷ 28 ∷ 2 ∷ 29 ∷ 14 ∷ 24 ∷ 3 ∷ 30 ∷ 22 ∷ 20 ∷ 15 ∷ 25 ∷ 17 ∷ 4 ∷ 8 ∷ 31 ∷ 27 ∷ 13 ∷ 23 ∷ 21
    ∷ 19 ∷ 16 ∷ 7 ∷ 26 ∷ 12 ∷ 18 ∷ 6 ∷ 11 ∷ 5 ∷ 10 ∷ 9 ∷ []

-- `(v & -v) * 0x077CB531U >> 27`, of an `unsigned`
unfoldable pub bit_scan_fwd : ℕ → ℕ
bit_scan_fwd v =
    entry de_bruijn_table (bit_and v ((2 ^ 32 - v) % 2 ^ 32) * 0x077c_b531 % 2 ^ 32 / 2 ^ 27)

-- `first_bit_table::_idx`; its first entry is -1, which becomes an `unsigned`.
unfoldable pub first_bit_table : List ℕ
first_bit_table =
    0xffff_ffff ∷ 0 ∷ 1 ∷ 1 ∷ 2 ∷ 2 ∷ 2 ∷ 2 ∷ 3 ∷ 3 ∷ 3 ∷ 3 ∷ 3 ∷ 3 ∷ 3 ∷ 3 ∷ 4 ∷ 4 ∷ 4 ∷ 4 ∷ 4 ∷ 4
    ∷ 4 ∷ 4 ∷ 4 ∷ 4 ∷ 4 ∷ 4 ∷ 4 ∷ 4 ∷ 4 ∷ 4 ∷ 5 ∷ 5 ∷ 5 ∷ 5 ∷ 5 ∷ 5 ∷ 5 ∷ 5 ∷ 5 ∷ 5 ∷ 5 ∷ 5 ∷ 5 ∷ 5
    ∷ 5 ∷ 5 ∷ 5 ∷ 5 ∷ 5 ∷ 5 ∷ 5 ∷ 5 ∷ 5 ∷ 5 ∷ 5 ∷ 5 ∷ 5 ∷ 5 ∷ 5 ∷ 5 ∷ 5 ∷ 5 ∷ 6 ∷ 6 ∷ 6 ∷ 6 ∷ 6 ∷ 6
    ∷ 6 ∷ 6 ∷ 6 ∷ 6 ∷ 6 ∷ 6 ∷ 6 ∷ 6 ∷ 6 ∷ 6 ∷ 6 ∷ 6 ∷ 6 ∷ 6 ∷ 6 ∷ 6 ∷ 6 ∷ 6 ∷ 6 ∷ 6 ∷ 6 ∷ 6 ∷ 6 ∷ 6
    ∷ 6 ∷ 6 ∷ 6 ∷ 6 ∷ 6 ∷ 6 ∷ 6 ∷ 6 ∷ 6 ∷ 6 ∷ 6 ∷ 6 ∷ 6 ∷ 6 ∷ 6 ∷ 6 ∷ 6 ∷ 6 ∷ 6 ∷ 6 ∷ 6 ∷ 6 ∷ 6 ∷ 6
    ∷ 6 ∷ 6 ∷ 6 ∷ 6 ∷ 6 ∷ 6 ∷ 6 ∷ 6 ∷ 6 ∷ 6 ∷ 7 ∷ 7 ∷ 7 ∷ 7 ∷ 7 ∷ 7 ∷ 7 ∷ 7 ∷ 7 ∷ 7 ∷ 7 ∷ 7 ∷ 7 ∷ 7
    ∷ 7 ∷ 7 ∷ 7 ∷ 7 ∷ 7 ∷ 7 ∷ 7 ∷ 7 ∷ 7 ∷ 7 ∷ 7 ∷ 7 ∷ 7 ∷ 7 ∷ 7 ∷ 7 ∷ 7 ∷ 7 ∷ 7 ∷ 7 ∷ 7 ∷ 7 ∷ 7 ∷ 7
    ∷ 7 ∷ 7 ∷ 7 ∷ 7 ∷ 7 ∷ 7 ∷ 7 ∷ 7 ∷ 7 ∷ 7 ∷ 7 ∷ 7 ∷ 7 ∷ 7 ∷ 7 ∷ 7 ∷ 7 ∷ 7 ∷ 7 ∷ 7 ∷ 7 ∷ 7 ∷ 7 ∷ 7
    ∷ 7 ∷ 7 ∷ 7 ∷ 7 ∷ 7 ∷ 7 ∷ 7 ∷ 7 ∷ 7 ∷ 7 ∷ 7 ∷ 7 ∷ 7 ∷ 7 ∷ 7 ∷ 7 ∷ 7 ∷ 7 ∷ 7 ∷ 7 ∷ 7 ∷ 7 ∷ 7 ∷ 7
    ∷ 7 ∷ 7 ∷ 7 ∷ 7 ∷ 7 ∷ 7 ∷ 7 ∷ 7 ∷ 7 ∷ 7 ∷ 7 ∷ 7 ∷ 7 ∷ 7 ∷ 7 ∷ 7 ∷ 7 ∷ 7 ∷ 7 ∷ 7 ∷ 7 ∷ 7 ∷ 7 ∷ 7
    ∷ 7 ∷ 7 ∷ 7 ∷ 7 ∷ 7 ∷ 7 ∷ 7 ∷ 7 ∷ 7 ∷ 7 ∷ 7 ∷ 7 ∷ 7 ∷ 7 ∷ 7 ∷ 7 ∷ 7 ∷ 7 ∷ []

-- The same for a `gap_word_t`.
unfoldable pub ilog2_lut16 : ℕ → ℕ
ilog2_lut16 x =
    if bit_and x 0xff00 == 0
    then entry first_bit_table x % 2 ^ 16
    else (8 + entry first_bit_table (x / 2 ^ 8)) % 2 ^ 16

unfoldable pub ilog2_lut : ℕ → ℕ
ilog2_lut x =
    let high = bit_and x 0xffff_0000 == 0 in
    let x1 = if high then x else x / 2 ^ 16 in
    let l1 = if high then 0 else 16 in
    let low = bit_and x1 0xff00 == 0 in
    let x2 = if low then x1 else x1 / 2 ^ 8 in
    let l2 = if low then l1 else l1 + 8 in add32 l2 (entry first_bit_table x2)

-- The highest one; without an instruction for it, this is the table's.
unfoldable pub bit_scan_reverse32 : ℕ → ℕ
bit_scan_reverse32 w = ilog2_lut w

-- One step of `ilog2`: `if (x >= 1 << k) { x >>= k; l |= k; }`; the k are different powers of 2.
unfoldable pub ilog2_step : ℕ → ℕ × ℕ → ℕ × ℕ
ilog2_step k (x, l) = if leb (2 ^ k) x then (x / 2 ^ k, l + k) else (x, l)

unfoldable pub ilog2 : ℕ → ℕ
ilog2 x =
    let (x4, l4) = ilog2_step 2 (ilog2_step 4 (ilog2_step 8 (ilog2_step 16 (x, 0)))) in
    if leb 2 x4 then l4 + 1 else l4

-- `lzcnt_table::_lut` and `tzcnt_table::_lut`
unfoldable pub lzcnt_table : List ℕ
lzcnt_table = 32 ∷ 31 ∷ 30 ∷ 30 ∷ 29 ∷ 29 ∷ 29 ∷ 29 ∷ 28 ∷ 28 ∷ 28 ∷ 28 ∷ 28 ∷ 28 ∷ 28 ∷ 28 ∷ []

unfoldable pub tzcnt_table : List ℕ
tzcnt_table =
    32 ∷ 0 ∷ 1 ∷ 26 ∷ 2 ∷ 23 ∷ 27 ∷ 0 ∷ 3 ∷ 16 ∷ 24 ∷ 30 ∷ 28 ∷ 11 ∷ 0 ∷ 13 ∷ 4 ∷ 7 ∷ 17 ∷ 0 ∷ 25
    ∷ 22 ∷ 31 ∷ 15 ∷ 29 ∷ 10 ∷ 12 ∷ 6 ∷ 0 ∷ 21 ∷ 14 ∷ 9 ∷ 5 ∷ 20 ∷ 8 ∷ 19 ∷ 18 ∷ []

unfoldable pub count_leading_zeros : ℕ → ℕ
count_leading_zeros x =
    let n =
      if leb (2 ^ 16) x
      then (if leb (2 ^ 24) x
          then (if leb (2 ^ 28) x then 28 else 24)
          else if leb (2 ^ 20) x
          then 20
          else 16)
      else if leb (2 ^ 8) x
      then (if leb (2 ^ 12) x then 12 else 8)
      else if leb (2 ^ 4) x
      then 4
      else 0 in
    entry lzcnt_table (x / 2 ^ n) - n

unfoldable pub count_trailing_zeros : ℕ → ℕ
count_trailing_zeros v = entry tzcnt_table (bit_and v ((2 ^ 32 - v) % 2 ^ 32) % 37)

-- Of a 64-bit word, by its halves.
unfoldable pub count_leading_zeros_u64 : ℕ → ℕ
count_leading_zeros_u64 w =
    let w1 = w / 2 ^ 32 in
    if w1 == 0 then 32 + (31 - bit_scan_reverse32 (w % 2 ^ 32)) else 31 - bit_scan_reverse32 w1

unfoldable pub count_trailing_zeros_u64 : ℕ → ℕ
count_trailing_zeros_u64 w =
    let w1 = w % 2 ^ 32 in if w1 == 0 then 32 + bit_scan_fwd (w / 2 ^ 32) else bit_scan_fwd w1

unfoldable pub bit_scan_reverse : ℕ → ℕ
bit_scan_reverse value =
    let v = value / 2 ^ 32 in
    if v == 0 then bit_scan_reverse32 (value % 2 ^ 32) else bit_scan_reverse32 v + 32
