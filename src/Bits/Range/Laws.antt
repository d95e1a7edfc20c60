-- ===== src/Bits/Range/Laws.antt =====
-- src/bmfunc.h: an interval of bits is changed, and no other bit.
use bit_magic.Base.{
  ℕ, zero, suc, ◌+◌, ◌-◌, ◌*◌, ◌/◌, ◌%◌, ◌^◌, ◌≤◌, ◌<◌, ◌≡◌, refl, ◌&&◌, inl, inr, Buffer, store,
  ltb, leb, ◌==◌, if◌then◌else◌, arith, Bool-cases, ==→eq, ==→ne, leb→le, leb→lt, ltb→lt, ltb→le,
  bit_at, bit_at-lt, bit_and, bit_or, bit_xor, not32, ones32, shl32, add32, bit_at-bit_and,
  bit_at-bit_or, bit_at-bit_xor, bit_at_shl, bit_at_shr, bit_at_mod, bit_at_ones, bit_at_power,
  bit_at_not, bit_at-zero, bit_and-lt, bit_or-lt, bit_xor-lt,
}
use native.Mathlib.Nat.{div-le_self, pow-le-pow_right}
use bit_magic.Bits.Layout.{IsWords, Changes, word_change, no_change, change_both}
use bit_magic.Bits.Range.{
  fill_loop, aligned_block, range_block, or_bit_block, sub_bit_block, xor_bit_block,
}

-- The digits of the masks.
pub mask_from : (n i : ℕ) → i < 32 → bit_at (shl32 ones32 n) i ≡ (if leb n i then 1 else 0)
mask_from n i h =
    ground (arith, bit_at_mod (ones32 * 2 ^ n) 32 i, bit_at_shl ones32 n i, bit_at_ones 32 (i - n))

mask_below : (n i : ℕ) → n ≤ 32 → bit_at (ones32 / 2 ^ (32 - n)) i ≡ (if ltb i n then 1 else 0)
mask_below n i h = ground (arith, bit_at_shr ones32 (32 - n) i, bit_at_ones 32 (32 - n + i))

pub smaller : (k : ℕ) → ones32 / 2 ^ k < 2 ^ 32
smaller k = omega (arith, div-le_self ones32 (2 ^ k))

pub power32 : (n : ℕ) → n < 32 → 2 ^ n < 2 ^ 32
power32 n h = omega (arith, pow-le-pow_right {n = 2} (omega arith) {i = n} {j = 31} (omega arith))

-- What the three functions do to a digit: f under a mask, and f in a whole word.
pub record Marks (f : ℕ → ℕ) (mark : ℕ → ℕ → ℕ) (fill : ℕ → ℕ) : Type 0 where
  pub mark_bit :
      (w mask i : ℕ)
      → w < 2 ^ 32
      → mask < 2 ^ 32
      → i < 32
      → bit_at (mark w mask) i ≡ (if bit_at mask i == 1 then f (bit_at w i) else bit_at w i)
  pub mark_word : (w mask : ℕ) → w < 2 ^ 32 → mask < 2 ^ 32 → mark w mask < 2 ^ 32
  pub fill_bit : (w i : ℕ) → w < 2 ^ 32 → i < 32 → bit_at (fill w) i ≡ f (bit_at w i)
  pub fill_word : (w : ℕ) → w < 2 ^ 32 → fill w < 2 ^ 32

module _ {f : ℕ → ℕ} {mark : ℕ → ℕ → ℕ} {fill : ℕ → ℕ} (m : Marks f mark fill) where
  -- A mask with ones exactly in [lo, hi) changes these digits.
  mark-Changes :
      (block : Buffer) (d mask lo hi from to : ℕ)
      → from ≡ d * 32 + lo
      → to ≡ d * 32 + hi
      → IsWords block
      → hi ≤ 32
      → mask < 2 ^ 32
      → ((i : ℕ) → i < 32 → bit_at mask i ≡ (if leb lo i && ltb i hi then 1 else 0))
      → Changes f block (store block d (mark (block d) mask)) from to
  mark-Changes block d mask lo hi from to start end w fits small h =
      word_change f block d (mark (block d) mask) lo hi from to start end w fits
        (m.mark_word (block d) mask (w d) small)
        (λ i p. ground (arith, m.mark_bit (block d) mask i (w d) small p, h i p))

  fill-Changes :
      (block : Buffer) (d from to : ℕ)
      → from ≡ d * 32
      → to ≡ d * 32 + 32
      → IsWords block
      → Changes f block (store block d (fill (block d))) from to
  fill-Changes block d from to start end w =
      word_change f block d (fill (block d)) 0 32 from to (omega arith) end w (omega arith)
        (m.fill_word (block d) (w d)) (λ i p. ground (arith, m.fill_bit (block d) i (w d) p))

  tail-Changes :
      (block : Buffer) (d n from to : ℕ)
      → from ≡ d * 32
      → to ≡ d * 32 + n
      → IsWords block
      → n < 32
      → Changes f block
          (if n == 0 then block else store block d (mark (block d) (ones32 / 2 ^ (32 - n))))
          from
          to
  tail-Changes block d n from to start end w fits = elim (Bool-cases (n == 0)) [
    | inl none ↦ let e = ==→eq n 0 none in rw none (no_change f block from to (omega arith) w)
    | inr some ↦ rw some (
        mark-Changes block d (ones32 / 2 ^ (32 - n)) 0 n from to (omega arith) end w (omega arith)
          (smaller (32 - n)) (λ i p. ground (arith, mask_below n i (omega arith))))
  ]

  fill_loop-Changes :
      (fuel : ℕ) (block : Buffer) (dest count from : ℕ)
      → from ≡ dest * 32
      → count < fuel * 64 + 64
      → IsWords block
      → let r = fill_loop fuel fill block dest count in
        Changes f block r.0 from (r.1 * 32)
        × (r.2 < 64)
        × (r.1 * 32 + r.2 ≡ dest * 32 + count)
        × (dest ≤ r.1)
  unfolding fill_loop
  fill_loop-Changes zero block dest count from start enough w =
      (no_change f block from (dest * 32) (omega arith) w, omega arith, refl, omega arith)
  fill_loop-Changes (suc fuel) block dest count from start enough w =
      elim (Bool-cases (leb 64 count)) [
        | inr over ↦
            let o = leb→lt 64 count over in
            rw over (no_change f block from (dest * 32) (omega arith) w, o, refl, omega arith)
        | inl more ↦
            let h = leb→le 64 count more in
            let one = fill-Changes block dest from (from + 32) start (omega arith) w in
            let two =
              fill-Changes (store block dest (fill (block dest))) (dest + 1) (from + 32) (from + 64)
                (omega arith) (omega arith) one.words in
            let kept : store block dest (fill (block dest)) (dest + 1) ≡ block (dest + 1) =
              ground arith in
            let both =
              change_both f from (from + 32) (from + 64) (omega arith) (omega arith) one
                (rw kept at two) in
            let rest =
              fill_loop-Changes fuel _ (dest + 2) (count - 64) (from + 64) (omega arith)
                (omega arith) both.words in
            rw more (
              change_both f from (from + 64) _ (omega arith) (omega (arith, rest.3)) both rest.0,
              rest.1,
              omega (arith, rest.2),
              omega (arith, rest.3),
            )
      ]

  aligned_block-Changes :
      (block : Buffer) (dest count from to : ℕ)
      → from ≡ dest * 32
      → to ≡ from + count
      → IsWords block
      → Changes f block (aligned_block mark fill block dest count) from to
  unfolding aligned_block
  aligned_block-Changes block dest count from to start end w =
      let r = fill_loop count fill block dest count in
      let loop = fill_loop-Changes count block dest count from start (omega arith) w in
      elim (Bool-cases (leb 32 r.2)) [
        | inr short ↦
            let s = leb→lt 32 r.2 short in
            let tail =
              tail-Changes r.0 r.1 r.2 (r.1 * 32) to refl (omega (arith, loop.2)) loop.0.words s in
            rw short (
              change_both f from (r.1 * 32) to (omega (arith, loop.3)) (omega (arith, loop.2))
                loop.0 tail)
        | inl whole ↦
            let h = leb→le 32 r.2 whole in
            let one = fill-Changes r.0 r.1 (r.1 * 32) (r.1 * 32 + 32) refl refl loop.0.words in
            let tail =
              tail-Changes (store r.0 r.1 (fill (r.0 r.1))) (r.1 + 1) (r.2 - 32) (r.1 * 32 + 32) to
                (omega arith) (omega (arith, loop.2)) one.words (omega (arith, loop.1)) in
            rw whole (
              change_both f from (r.1 * 32) to (omega (arith, loop.3)) (omega (arith, loop.2))
                loop.0
                (change_both f (r.1 * 32) (r.1 * 32 + 32) to (omega arith) (omega (arith, loop.2))
                  one tail))
      ]

  range_block-Changes :
      (block : Buffer) (bitpos count : ℕ)
      → IsWords block
      → count ≤ 2 ^ 32 - 32
      → Changes f block (range_block mark fill block bitpos count) bitpos (bitpos + count)
  unfolding range_block
  range_block-Changes block bitpos count w few =
      let d = bitpos / 32 in
      let n = bitpos % 32 in
      let start : bitpos ≡ d * 32 + n = omega arith in
      let margin : add32 n count ≡ n + count = omega arith in
      elim (Bool-cases (count == 1)) [
        | inl single ↦
            let e = ==→eq count 1 single in
            rw single (
              mark-Changes block d (2 ^ n) n (n + 1) bitpos (bitpos + count) start (omega arith) w
                (omega arith) (power32 n (omega arith)) (λ i p. ground (arith, bit_at_power n i)))
        | inr other ↦ rw other (elim (Bool-cases (n == 0)) [
          | inl aligned ↦
              let e = ==→eq n 0 aligned in
              rw aligned
                (aligned_block-Changes block d count bitpos (bitpos + count) (omega arith) refl w)
          | inr unaligned ↦
              let ne = ==→ne n 0 unaligned in
              rw (unaligned, margin)
                (elim (Bool-cases (ltb (n + count) 32)) [
                  | inl short ↦
                      let s = ltb→lt (n + count) 32 short in
                      rw short (
                        mark-Changes block d _ n (n + count) bitpos (bitpos + count) start
                          (omega arith) w (omega arith)
                          (bit_and-lt 32 _ _ (smaller (32 - (n + count))))
                          (λ i p. ground (
                            arith,
                            bit_at-bit_and (ones32 / 2 ^ (32 - (n + count))) (shl32 ones32 n) i,
                            mask_below (n + count) i (omega arith),
                            mask_from n i p,
                          )))
                  | inr long ↦
                      let l = ltb→le (n + count) 32 long in
                      let one =
                        mark-Changes block d (shl32 ones32 n) n 32 bitpos (d * 32 + 32) start refl w
                          (omega arith) (omega arith) (λ i p. ground (arith, mask_from n i p)) in
                      rw long (
                        change_both f bitpos (d * 32 + 32) (bitpos + count) (omega arith)
                          (omega arith) one
                          (aligned_block-Changes _ (d + 1) (count - (32 - n)) (d * 32 + 32)
                            (bitpos + count) (omega arith) (omega arith) one.words))
                ])
        ])
      ]

or-Marks : Marks (λ b. 1) bit_or (λ w. ones32)
or-Marks = record {
  mark_bit =
      λ w mask i p q r. ground (arith, bit_at-bit_or w mask i, bit_at-lt w i, bit_at-lt mask i);
  mark_word = λ w mask p q. bit_or-lt 32 w mask p q;
  fill_bit = λ w i p q. ground (arith, bit_at_ones 32 i);
  fill_word = λ w p. omega arith;
}

sub-Marks : Marks (λ b. 0) (λ w mask. bit_and w (not32 mask)) (λ w. 0)
sub-Marks = record {
  mark_bit = λ w mask i p q r. ground (
    arith,
    bit_at-bit_and w (not32 mask) i,
    bit_at_not 32 mask i q r,
    bit_at-lt w i,
    bit_at-lt mask i,
  );
  mark_word = λ w mask p q. bit_and-lt 32 w (not32 mask) p;
  fill_bit = λ w i p q. bit_at-zero i;
  fill_word = λ w p. omega arith;
}

xor-Marks : Marks (λ b. 1 - b) bit_xor (λ w. bit_xor w ones32)
xor-Marks = record {
  mark_bit =
      λ w mask i p q r. ground (arith, bit_at-bit_xor w mask i, bit_at-lt w i, bit_at-lt mask i);
  mark_word = λ w mask p q. bit_xor-lt 32 w mask p q;
  fill_bit = λ w i p q. ground (arith, bit_at-bit_xor w ones32 i, bit_at_ones 32 i, bit_at-lt w i);
  fill_word = λ w p. bit_xor-lt 32 w ones32 p (omega arith);
}

pub or_bit_block-Changes :
    (block : Buffer) (bitpos count : ℕ)
    → IsWords block
    → count ≤ 2 ^ 32 - 32
    → Changes (λ b. 1) block (or_bit_block block bitpos count) bitpos (bitpos + count)
unfolding or_bit_block
or_bit_block-Changes block bitpos count w few =
    range_block-Changes or-Marks block bitpos count w few

pub sub_bit_block-Changes :
    (block : Buffer) (bitpos count : ℕ)
    → IsWords block
    → count ≤ 2 ^ 32 - 32
    → Changes (λ b. 0) block (sub_bit_block block bitpos count) bitpos (bitpos + count)
unfolding sub_bit_block
sub_bit_block-Changes block bitpos count w few =
    range_block-Changes sub-Marks block bitpos count w few

pub xor_bit_block-Changes :
    (block : Buffer) (bitpos count : ℕ)
    → IsWords block
    → bitpos < 2 ^ 16
    → count ≤ 2 ^ 32 - 32
    → Changes (λ b. 1 - b) block (xor_bit_block block bitpos count) bitpos (bitpos + count)
unfolding xor_bit_block
xor_bit_block-Changes block bitpos count w h few =
    let e : bitpos % 2 ^ 16 ≡ bitpos = omega arith in
    rw e (range_block-Changes xor-Marks block bitpos count w few)

-- For a block of 32-bit words, a position below 65536 and a count of at most 2^32 - 32, with
-- which no sum leaves 32 bits, the three functions set, clear and turn over exactly the bits from
-- the position on, as many as the count says, keep every other bit, and leave words of 32 bits.
pub bit_ranges_lem :
    (block : Buffer) (bitpos count : ℕ)
    → IsWords block
    → bitpos < 2 ^ 16
    → count ≤ 2 ^ 32 - 32
    → Changes (λ b. 1) block (or_bit_block block bitpos count) bitpos (bitpos + count)
      × Changes (λ b. 0) block (sub_bit_block block bitpos count) bitpos (bitpos + count)
      × Changes (λ b. 1 - b) block (xor_bit_block block bitpos count) bitpos (bitpos + count)
bit_ranges_lem block bitpos count w h few = (
  or_bit_block-Changes block bitpos count w few,
  sub_bit_block-Changes block bitpos count w few,
  xor_bit_block-Changes block bitpos count w h few,
)
