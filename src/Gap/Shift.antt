-- ===== src/Gap/Shift.antt =====
-- src/bmfunc.h: the shifts of a GAP block by one bit, with a carry in and a carry out.
pub mod Loop
pub mod Right
pub mod Left
use bit_magic.Base.{
  ℕ, zero, suc, ◌+◌, ◌-◌, ◌/◌, ◌%◌, Buffer, store, ltb, ◌==◌, if◌then◌else◌, xor1, add16, sub16,
}
use bit_magic.Gap.Layout.{gap_max_bits, set_last_word}
use bit_magic.Gap.Set.{gap_set_value}

-- The loops of both functions: `for (; i < len; ++i) { buf[i]++; bitval ^= 1; }`, and `buf[i]--`.
-- What is returned is the buffer and `bitval`.
unfoldable pub shift_loop : ℕ → (ℕ → ℕ) → Buffer → ℕ → ℕ → ℕ → Buffer × ℕ
shift_loop zero step buf i len bitval = (buf, bitval)
shift_loop (suc fuel) step buf i len bitval =
    let rest = shift_loop fuel step (store buf i (step (buf i))) (i + 1) len (xor1 bitval 1) in
    if ltb i len then rest else (buf, bitval)

-- The contents, the carry out and the new length.
pub record Shifted : Type 0 where
  pub buf : Buffer
  pub co : ℕ
  pub new_len : ℕ

unfoldable pub gap_shift_r1 : Buffer → ℕ → Shifted
gap_shift_r1 buf co_flag =
    let len = buf 0 / 8 in
    let (moved, bitval) = shift_loop len (λ x. add16 x 1) buf 1 len (buf 0 % 2) in
    let shortened = store moved 0 (set_last_word (moved 0) (len - 1)) in
    let stepped = if moved (len - 1) == gap_max_bits - 1 then shortened else moved in
    let full = buf 1 == gap_max_bits - 1 in
    let ready = if full then buf else stepped in
    let written = gap_set_value co_flag ready 0 in
    record { buf = written.buf; co = if full then buf 0 % 2 else bitval; new_len = written.end }

-- From `if (buf[1] != gap_max_bits - 1)` on.
unfoldable pub shift_l1_rest : Buffer → ℕ → ℕ → Shifted
shift_l1_rest buf co0 co_flag =
    let len = buf 0 / 8 in
    let moved = shift_loop len (λ x. sub16 x 1) buf 1 len (buf 0 % 2) in
    let ready = if buf 1 == gap_max_bits - 1 then buf else moved.0 in
    let written = gap_set_value co_flag ready (gap_max_bits - 1) in
    record { buf = written.buf; co = co0; new_len = written.end }

unfoldable pub gap_shift_l1 : Buffer → ℕ → Shifted
gap_shift_l1 buf co_flag =
    let co0 = buf 0 % 2 in
    let cleared = gap_set_value (xor1 co0 1) buf 0 in
    let whole = gap_set_value co_flag cleared.buf (gap_max_bits - 1) in
    if buf 1 == 0
    then if cleared.end == 1
      then record { buf = whole.buf; co = co0; new_len = whole.end }
      else shift_l1_rest cleared.buf co0 co_flag
    else shift_l1_rest buf co0 co_flag
