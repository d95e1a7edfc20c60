-- ===== src/Bits/Single.antt =====
-- src/bmfunc.h: setting, clearing and testing one bit of a bit block.
use bit_magic.Base.{
  ℕ, ◌+◌, ◌/◌, ◌%◌, ◌^◌, ◌<◌, ◌≡◌, Buffer, ◌==◌, if◌then◌else◌, arith, bit_at-lt, not32,
  bit_at-bit_or, bit_at-bit_and, bit_at_power, bit_at_not, bit_or-lt, bit_and-lt, shifted_digit,
}
use bit_magic.Bits.Layout.{IsWords, block_bit, set_bit, clear_bit, test_bit, Changes, word_change}
use bit_magic.Bits.Range.Laws.{power32}

set_bit-Changes :
    (block : Buffer) (pos : ℕ)
    → IsWords block
    → pos < 2 ^ 16
    → Changes (λ b. 1) block (set_bit block pos) pos (pos + 1)
unfolding set_bit
set_bit-Changes block pos w h =
    let e : pos % 2 ^ 16 ≡ pos = omega arith in
    let n = pos % 32 in
    rw e (
      word_change (λ b. 1) block (pos / 32) _ n (n + 1) pos (pos + 1) (omega arith) (omega arith) w
        (omega arith) (bit_or-lt 32 _ _ (w (pos / 32)) (power32 n (omega arith)))
        (λ i p. ground (
          arith,
          bit_at-bit_or (block (pos / 32)) (2 ^ n) i,
          bit_at_power n i,
          bit_at-lt (block (pos / 32)) i,
        )))

clear_bit-Changes :
    (block : Buffer) (pos : ℕ)
    → IsWords block
    → pos < 2 ^ 16
    → Changes (λ b. 0) block (clear_bit block pos) pos (pos + 1)
unfolding clear_bit
clear_bit-Changes block pos w h =
    let e : pos % 2 ^ 16 ≡ pos = omega arith in
    let n = pos % 32 in
    rw e (
      word_change (λ b. 0) block (pos / 32) _ n (n + 1) pos (pos + 1) (omega arith) (omega arith) w
        (omega arith) (bit_and-lt 32 _ _ (w (pos / 32)))
        (λ i p. ground (
          arith,
          bit_at-bit_and (block (pos / 32)) (not32 (2 ^ n)) i,
          bit_at_not 32 (2 ^ n) i (power32 n (omega arith)) p,
          bit_at_power n i,
          bit_at-lt (block (pos / 32)) i,
        )))

pub test_bit-eq-block_bit :
    (block : Buffer) (pos : ℕ) → pos < 2 ^ 16 → test_bit block pos ≡ block_bit block pos
unfolding test_bit block_bit
test_bit-eq-block_bit block pos h =
    let e : pos % 2 ^ 16 ≡ pos = omega arith in rw e (shifted_digit (block (pos / 32)) (pos % 32))

-- For a block of 32-bit words and two positions below 65536, testing the one after setting or
-- clearing the other gives the bit that was written where they are the same, and the old bit
-- else.
pub test_bit-set_bit :
    (block : Buffer) (pos q : ℕ)
    → IsWords block
    → pos < 2 ^ 16
    → q < 2 ^ 16
    → (test_bit (set_bit block pos) q ≡ (if q == pos then 1 else test_bit block q))
      × (test_bit (clear_bit block pos) q ≡ (if q == pos then 0 else test_bit block q))
test_bit-set_bit block pos q w h p = (
  ground (
    arith,
    test_bit-eq-block_bit (set_bit block pos) q p,
    test_bit-eq-block_bit block q p,
    (set_bit-Changes block pos w h).bits q,
  ),
  ground (
    arith,
    test_bit-eq-block_bit (clear_bit block pos) q p,
    test_bit-eq-block_bit block q p,
    (clear_bit-Changes block pos w h).bits q,
  ),
)
