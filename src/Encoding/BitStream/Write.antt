-- ===== src/Encoding/BitStream/Write.antt =====
-- src/encoding.h: writing the items puts their bits into the stream, and takes no more words than
-- needed.
use bit_magic.Base.{
  ℕ, ◌+◌, ◌-◌, ◌*◌, ◌/◌, ◌^◌, ◌≤◌, ◌<◌, ◌≡◌, refl, ◌∙◌, arith, inl, inr, Bool-cases, ==→eq, ==→ne,
  List, [], ◌∷◌, ◌==◌, bit_at-zero,
}
use bit_magic.Scan.{bit_scan_reverse32}
use bit_magic.Scan.Laws.{IsTop, ilog2_lut-IsTop}
use bit_magic.Encoding.Encoder.{Encoder}
use bit_magic.Encoding.BitOut.{BitOut, bit_out, flush, flush_accum}
use bit_magic.Encoding.BitOut.Laws.{Wrote, flush_accum-Wrote, put_bit-Wrote, put_bits-Wrote}
use bit_magic.Encoding.BitOut.Zeros.{put_gamma-Wrote}
use bit_magic.Encoding.BitStream.{
  BitItem, one_bit, some_bits, gamma_code, put_item, put_items, size, digit, total_size, sequence,
  IsAllowed, AreAllowed,
}

pub scan-IsTop :
    (v : ℕ) → 1 ≤ v → v < 2 ^ 32 → IsTop v (bit_scan_reverse32 v) × (bit_scan_reverse32 v < 32)
unfolding bit_scan_reverse32
scan-IsTop v pos small = ilog2_lut-IsTop v pos small

module _ (s : ℕ → ℕ) (base : ℕ) where
  put_item-Wrote :
      (n : ℕ) (o : BitOut) (x : BitItem)
      → Wrote s base n o
      → IsAllowed o x
      → ((i : ℕ) → i < size x → s (n + i) ≡ digit x i)
      → Wrote s base (n + size x) (put_item o x)
  unfolding put_item size digit IsAllowed
  put_item-Wrote n o (one_bit v) h (bit, room) bits =
      let e : n + 0 ≡ n = omega arith in
      (put_bit-Wrote s base n (n + 1) v o refl h room bit (rw e at (bits 0 (omega arith)))).0
  put_item-Wrote n o (some_bits v c) h (pos, small, room) bits =
      (put_bits-Wrote s base n (n + c) v c o refl small h room bits).0
  put_item-Wrote n o (gamma_code v) h (pos, small) bits =
      let k = bit_scan_reverse32 v in
      let (top, fits) = scan-IsTop v pos small in
      put_gamma-Wrote s base n (n + (k + 1 + k)) k v o (omega arith) refl fits h
        (λ i p. bits i (omega arith) ∙ ground arith) (bits k (omega arith) ∙ ground arith)
        (λ i p.
          let e : n + (k + 1 + i) ≡ n + k + 1 + i = omega arith in
          let r : k + 1 + i - (k + 1) ≡ i = omega arith in
          rw (e, r) at (bits (k + 1 + i) (omega arith)) ∙ ground arith)

  -- If the bits written so far are a prefix of a sequence of bits, whole words in memory and the
  -- others in the accumulator with zeros above them, and the sequence goes on with the bits of a
  -- list of items, then that holds again after the items are written, with 0 or 1 for each bit, 1
  -- to 32 bits of each value and a 32-bit number above 0 in each code, where the accumulator has
  -- a free bit (used_bits_ < 32) before each bit and each value of the run.
  pub put_items-Wrote :
      (n : ℕ) (o : BitOut) (xs : List BitItem)
      → Wrote s base n o
      → AreAllowed o xs
      → ((i : ℕ) → i < total_size xs → s (n + i) ≡ sequence xs i)
      → Wrote s base (n + total_size xs) (put_items o xs)
  unfolding put_items total_size sequence AreAllowed
  put_items-Wrote n o [] h allowed bits = let e : n + 0 ≡ n = omega arith in rw e h
  put_items-Wrote n o (x ∷ xs) h (one, others) bits =
      let first = put_item-Wrote n o x h one (λ i p. bits i (omega arith) ∙ ground arith) in
      let end : n + size x + total_size xs ≡ n + (size x + total_size xs) = omega arith in
      rw end at (
        put_items-Wrote (n + size x) (put_item o x) xs first others (λ i p.
          let e : n + (size x + i) ≡ n + size x + i = omega arith in
          let r : size x + i - size x ≡ i = omega arith in
          rw (e, r) at (bits (size x + i) (omega arith)) ∙ ground arith))

pub bit_out-Wrote : (s : ℕ → ℕ) (e : Encoder) → Wrote s (e.buf_) 0 (bit_out e)
unfolding bit_out
bit_out-Wrote s e = record {
  full = 0;
  place = omega arith;
  count = refl;
  used = omega arith;
  past = λ i p. absurd (omega arith);
  held = λ i p. ground (arith, bit_at-zero i);
  word = omega arith;
}

-- The bits after the last item are zeros.
sequence_end : (xs : List BitItem) (i : ℕ) → total_size xs ≤ i → sequence xs i ≡ 0
unfolding sequence total_size
sequence_end [] i h = refl
sequence_end (x ∷ xs) i h = ground (arith, sequence_end xs (i - size x))

-- The run up to the end of the last word.
pub written :
    (xs : List BitItem) (e : Encoder)
    → AreAllowed (bit_out e) xs
    → let o = flush (put_items (bit_out e) xs) in
      Wrote (sequence xs) (e.buf_) ((total_size xs + 31) / 32 * 32) o × (o.used_bits_ ≡ 0)
unfolding flush flush_accum
written xs e h =
    let o = put_items (bit_out e) xs in
    let n = total_size xs in
    let run =
      put_items-Wrote (sequence xs) (e.buf_) 0 (bit_out e) xs (bit_out-Wrote (sequence xs) e) h
        (λ i p. let z : 0 + i ≡ i = omega arith in rw z refl) in
    elim (Bool-cases (o.used_bits_ == 0)) [
      | inl clean ↦
          let u = ==→eq (o.used_bits_) 0 clean in
          let e : 0 + n ≡ (n + 31) / 32 * 32 = omega (arith, run.count) in rw clean (rw e at run, u)
      | inr rest ↦
          let ne = ==→ne (o.used_bits_) 0 rest in
          rw rest (
            flush_accum-Wrote (sequence xs) _ (0 + n) ((n + 31) / 32 * 32) o
                (omega (arith, run.count, run.used)) run (λ i p q. sequence_end xs i (omega arith)),
            refl,
          )
    ]
