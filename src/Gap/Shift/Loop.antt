-- ===== src/Gap/Shift/Loop.antt =====
-- src/bmfunc.h: what the loops of the shifts leave, and the bits of a block whose borders moved.
use bit_magic.Base.{
  ℕ, zero, suc, ◌+◌, ◌-◌, ◌%◌, ◌≤◌, ◌<◌, ◌≡◌, ◌&&◌, Buffer, store, ltb, leb, if◌then◌else◌, arith,
  xor1,
}
use bit_magic.Gap.Layout.{borders_below}
use bit_magic.Gap.Shift.{shift_loop}

-- The words of [i, len) are stepped, the others kept.
pub shift_loop_word :
    (fuel : ℕ) (step : ℕ → ℕ) (buf : Buffer) (i len bitval k : ℕ)
    → len ≤ fuel + i
    → (shift_loop fuel step buf i len bitval).0 k
      ≡ (if leb i k && ltb k len then step (buf k) else buf k)
unfolding shift_loop
shift_loop_word zero step buf i len bitval k h = ground arith
shift_loop_word (suc fuel) step buf i len bitval k h =
    ground
      (arith, shift_loop_word fuel step (store buf i (step (buf i))) (i + 1) len (xor1 bitval 1) k)

-- The bit is toggled once a word.
pub shift_loop_bit :
    (fuel : ℕ) (step : ℕ → ℕ) (buf : Buffer) (i len bitval : ℕ)
    → len ≤ fuel + i
    → i ≤ len
    → bitval < 2
    → (shift_loop fuel step buf i len bitval).1 ≡ (bitval + (len - i)) % 2
unfolding shift_loop
shift_loop_bit zero step buf i len bitval h p b = ground arith
shift_loop_bit (suc fuel) step buf i len bitval h p b =
    ground
      (arith, shift_loop_bit fuel step (store buf i (step (buf i))) (i + 1) len (xor1 bitval 1))

-- Borders that all moved on by one lie below a position that moved on with them.
pub borders_below_moved :
    (low high : Buffer) (n pos : ℕ)
    → ((i : ℕ) → i < n → high (suc i) ≡ suc (low (suc i)))
    → borders_below high n (suc pos) ≡ borders_below low n pos
unfolding borders_below
borders_below_moved low high zero pos h = ground arith
borders_below_moved low high (suc n) pos h =
    ground (arith, h n, borders_below_moved low high n pos (λ i p. h i (omega arith)))
