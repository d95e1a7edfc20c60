-- ===== src/Encoding/BitOut/Laws.antt =====
-- src/encoding.h: the bits that `bit_out` has written are a prefix of a sequence of bits.
use bit_magic.Base.{
  ℕ, zero, suc, ◌+◌, ◌-◌, ◌*◌, ◌/◌, ◌%◌, ◌^◌, ◌≤◌, ◌<◌, ◌≡◌, refl, ◌∙◌, arith, max, inl, inr,
  Bool-cases, ltb, leb, ◌==◌, ==→eq, ==→ne, leb→le, leb→lt, ltb→lt, ltb→le, if◌then◌else◌, bit_at,
  bit_and, bit_or, ones32, shl32, bit_at-bit_or, bit_at-bit_and, bit_at_mod, bit_at_shl, bit_at_shr,
  bit_at_ones, bit_at-lt, above, bit_at-zero, bit_or-lt,
}
use bit_magic.Encoding.Stream.{stream, put_32-Extends, word_at-before, word_at-put_32}
use bit_magic.Encoding.BitOut.{BitOut, flush_accum, flush_full, append, put_bit, put_loop, put_bits}

-- The first n bits of a sequence are written: whole words in memory, from `base` on, and the others
-- in the accumulator.
pub record Wrote (s : ℕ → ℕ) (base n : ℕ) (o : BitOut) : Type 0 where
  pub full : ℕ
  pub place : o.dest_.buf_ ≡ base + full * 4
  pub count : n ≡ full * 32 + o.used_bits_
  pub used : o.used_bits_ ≤ 32
  pub past : (i : ℕ) → i < full * 32 → stream (o.dest_.memory) base i ≡ s i
  pub held :
      (i : ℕ)
      → i < 32
      → bit_at (o.accum_) i ≡ (if ltb i (o.used_bits_) then s (full * 32 + i) else 0)
  pub word : o.accum_ < 2 ^ 32

pub masked_digit :
    (value c i : ℕ)
    → c ≤ 32
    → bit_at (bit_and value (ones32 / 2 ^ (32 - c))) i ≡ (if ltb i c then bit_at value i else 0)
masked_digit value c i h =
    rw (bit_at-bit_and value (ones32 / 2 ^ (32 - c)) i, bit_at_shr ones32 (32 - c) i)
      (ground (arith, bit_at_ones 32 (32 - c + i), bit_at-lt value i))

module _ (s : ℕ → ℕ) (base : ℕ) where
  -- The accumulator goes out; the bits that are not used yet are zeros.
  pub flush_accum-Wrote :
      (n m : ℕ) (o : BitOut)
      → m ≡ n + (32 - o.used_bits_)
      → Wrote s base n o
      → ((i : ℕ) → n ≤ i → i < m → s i ≡ 0)
      → Wrote s base m (flush_accum o)
  unfolding flush_accum stream
  flush_accum-Wrote n m o end h gap = record {
    full = h.full + 1;
    place = omega (arith, (put_32-Extends (o.dest_) (o.accum_) (h.word)).buf, h.place);
    count = omega (arith, h.count, h.used);
    used = omega arith;
    past = λ i p. elim (Bool-cases (ltb i (h.full * 32))) [
      | inl old ↦
          let q = ltb→lt i (h.full * 32) old in
          rw (word_at-before (o.dest_) (o.accum_) base (i / 32) (h.word) (omega (arith, h.place)))
            (h.past i q)
      | inr new ↦
          let q = ltb→le i (h.full * 32) new in
          let e : i / 32 ≡ h.full = omega arith in
          let r : h.full * 32 + i % 32 ≡ i = omega arith in
          rw (e, word_at-put_32 (o.dest_) (o.accum_) base (h.full) (h.word) (h.place))
            (ground (arith, rw r at (h.held (i % 32) (omega arith)), gap i, h.count, h.used))
    ];
    held = λ i p. ground (arith, bit_at-zero i);
    word = omega arith;
  }

  -- Bits of a value are put above the used ones.
  pub append-Wrote :
      (n m c value : ℕ) (o : BitOut)
      → m ≡ n + c
      → Wrote s base n o
      → o.used_bits_ < 32
      → o.used_bits_ + c ≤ 32
      → ((i : ℕ) → i < c → bit_at value i ≡ s (n + i))
      → ((i : ℕ) → c ≤ i → o.used_bits_ + i < 32 → bit_at value i ≡ 0)
      → Wrote s base m (append o value c)
  unfolding append
  append-Wrote n m c value o end h room fits bits none = record {
    full = h.full;
    place = h.place;
    count = omega (arith, h.count);
    used = fits;
    past = h.past;
    held = λ i p. elim (Bool-cases (ltb i (o.used_bits_))) [
      | inl old ↦ let q = ltb→lt i (o.used_bits_) old in rw (digit i p, h.held i p) (ground arith)
      | inr new ↦
          let q = ltb→le i (o.used_bits_) new in
          let r : n + (i - o.used_bits_) ≡ h.full * 32 + i = omega (arith, h.count) in
          rw (digit i p, h.held i p)
            (ground (arith, rw r at (bits (i - o.used_bits_)), none (i - o.used_bits_)))
    ];
    word = bit_or-lt 32 (o.accum_) (shl32 value (o.used_bits_)) (h.word) (omega arith);
  }
    where
      digit :
          (i : ℕ)
          → i < 32
          → bit_at (bit_or (o.accum_) (shl32 value (o.used_bits_))) i
            ≡ max
                (bit_at (o.accum_) i)
                (if ltb i (o.used_bits_) then 0 else bit_at value (i - o.used_bits_))
      digit i p = rw (bit_at-bit_or (o.accum_) (shl32 value (o.used_bits_)) i) (
          ground (
            arith,
            bit_at_mod (value * 2 ^ (o.used_bits_)) 32 i,
            bit_at_shl value (o.used_bits_) i,
          ))

  pub flush_full-Wrote :
      (n : ℕ) (o : BitOut)
      → Wrote s base n o
      → Wrote s base n (flush_full o) × ((flush_full o).used_bits_ < 32)
  unfolding flush_full flush_accum
  flush_full-Wrote n o h = elim (Bool-cases (o.used_bits_ == 32)) [
    | inl all ↦
        let e = ==→eq (o.used_bits_) 32 all in
        rw all
          (flush_accum-Wrote n n o (omega arith) h (λ i p q. absurd (omega arith)), omega arith)
    | inr part ↦ let ne = ==→ne (o.used_bits_) 32 part in rw part (h, omega (arith, h.used))
  ]

  pub put_bit-Wrote :
      (n m value : ℕ) (o : BitOut)
      → m ≡ n + 1
      → Wrote s base n o
      → o.used_bits_ < 32
      → value < 2
      → s n ≡ value
      → Wrote s base m (put_bit o value) × ((put_bit o value).used_bits_ < 32)
  unfolding put_bit bit_at
  put_bit-Wrote n m value o end h room bit next = flush_full-Wrote m (append o value 1) (
      append-Wrote n m 1 value o end h room (omega arith)
        (λ i p.
          let z : i ≡ 0 = omega arith in
          let y : n + 0 ≡ n = omega arith in rw z (rw y (omega arith)))
        (λ i p q. above 1 value i bit p))

  -- The loop writes the whole value; at most two rounds are needed.
  pub put_loop-Wrote :
      (fuel n m value c : ℕ) (o : BitOut)
      → m ≡ n + c
      → c ≤ fuel
      → Wrote s base n o
      → o.used_bits_ < 32
      → ((i : ℕ) → i < c → bit_at value i ≡ s (n + i))
      → ((i : ℕ) → c ≤ i → bit_at value i ≡ 0)
      → Wrote s base m (put_loop fuel o value c)
  unfolding put_loop append flush_accum
  put_loop-Wrote zero n m value c o end enough h room bits none =
      let e : m ≡ n = omega arith in rw e h
  put_loop-Wrote (suc fuel) n m value c o end enough h room bits none =
      let free = 32 - o.used_bits_ in
      let part = append o value free in
      elim (Bool-cases (c == 0)) [
        | inl nothing ↦
            let e0 = ==→eq c 0 nothing in let e : m ≡ n = omega arith in rw (nothing, e) h
        | inr something ↦ elim (Bool-cases (leb c free)) [
          | inl fits ↦
              let f = leb→le c free fits in
              rw (something, fits)
                (append-Wrote n m c value o end h room (omega arith) bits (λ i p q. none i p))
          | inr over ↦
              let f = leb→lt c free over in
              let filled : Wrote s base (n + free) part =
                append-Wrote n (n + free) free value o refl h room (omega arith)
                  (λ i p. bits i (omega arith)) (λ i p q. absurd (omega arith)) in
              let clean =
                flush_accum-Wrote (n + free) (n + free) part (omega arith) filled
                  (λ i p q. absurd (omega arith)) in
              rw (something, over)
                (put_loop-Wrote fuel (n + free) m (value / 2 ^ free) (c - free) (flush_accum part)
                  (omega arith) (omega arith) clean (omega arith)
                  (λ i p.
                    let e : n + (free + i) ≡ n + free + i = omega arith in
                    bit_at_shr value free i ∙ rw e at (bits (free + i) (omega arith)))
                  (λ i p. bit_at_shr value free i ∙ none (free + i) (omega arith)))
        ]
      ]

  pub put_bits-Wrote :
      (n m value c : ℕ) (o : BitOut)
      → m ≡ n + c
      → c ≤ 32
      → Wrote s base n o
      → o.used_bits_ < 32
      → ((i : ℕ) → i < c → s (n + i) ≡ bit_at value i)
      → Wrote s base m (put_bits o value c) × ((put_bits o value c).used_bits_ < 32)
  unfolding put_bits
  put_bits-Wrote n m value c o end small h room bits =
      flush_full-Wrote m (put_loop c o (bit_and value (ones32 / 2 ^ (32 - c))) c) (
        put_loop-Wrote c n m (bit_and value (ones32 / 2 ^ (32 - c))) c o end (omega arith) h room
          (λ i p. masked_digit value c i small ∙ ground (arith, bits i p))
          (λ i p. masked_digit value c i small ∙ ground arith))
