-- ===== src/Encoding/BitIn/Laws.antt =====
-- src/encoding.h: what `bit_in` reads are the next bits of the stream.
use bit_magic.Base.{
  ℕ, ◌+◌, ◌-◌, ◌*◌, ◌/◌, ◌%◌, ◌^◌, ◌≤◌, ◌<◌, ◌≡◌, refl, ap, ◌∙◌, arith, max, inl, inr, Bool-cases,
  ltb, leb, ◌==◌, ==→eq, ==→ne, leb→le, leb→lt, ltb→lt, ltb→le, if◌then◌else◌, Buffer, bit_at,
  bit_and, ones32, shl32, bit_at-bit_or, bit_at_mod, bit_at_shl, bit_at_shr, bit_or-lt, bit_and-lt,
  above,
}
use bit_magic.Encoding.BitOut.Laws.{masked_digit}
use native.Mathlib.Nat.{div-le_self}
use bit_magic.Encoding.Decoder.{Decoder, decoder, seek, set_decoder_pos, byte_at, get_32}
use bit_magic.Encoding.Stream.{stream, word_at, word_at-lt}
use bit_magic.Encoding.BitIn.{BitIn, load, drop_bits, take_accum, get_bits}

pub bit_at-shl32 :
    (v k i : ℕ)
    → bit_at (shl32 v k) i ≡ (if ltb i 32 then (if ltb i k then 0 else bit_at v (i - k)) else 0)
bit_at-shl32 v k i = ground (arith, bit_at_mod (v * 2 ^ k) 32 i, bit_at_shl v k i)

module _ (m : Buffer) (base : ℕ) where
  -- The next bit to be read is the bit number n of the stream at `base`.
  pub record AtBit (n : ℕ) (d : BitIn) : Type 0 where
    pub full : ℕ
    pub source : d.src_.memory ≡ m
    pub place : d.src_.buf_ ≡ base + full * 4
    pub count : n + (32 - d.used_bits_) ≡ full * 32
    pub used : d.used_bits_ ≤ 32
    pub word : d.accum_ < 2 ^ 32
    pub held :
        (i : ℕ)
        → d.used_bits_ < 32
        → bit_at (d.accum_) i ≡ (if ltb i (32 - d.used_bits_) then stream m base (n + i) else 0)

  loaded :
      (src : Decoder) (w : ℕ)
      → src.memory ≡ m
      → src.buf_ ≡ base + w * 4
      → (get_32 src).0 ≡ word_at m base w
  unfolding get_32 word_at decoder byte_at
  loaded src w source place = rw (get_32, word_at, source, place) refl

  stream_word : (w i : ℕ) → i < 32 → stream m base (w * 32 + i) ≡ bit_at (word_at m base w) i
  unfolding stream
  stream_word w i h =
      let e : (w * 32 + i) / 32 ≡ w = omega arith in
      let r : (w * 32 + i) % 32 ≡ i = omega arith in rw (stream, e, r) refl

  pub load-AtBit : (n : ℕ) (d : BitIn) → AtBit n d → AtBit (n + (32 - d.used_bits_)) (load d)
  unfolding load get_32 seek set_decoder_pos
  load-AtBit n d h = record {
    full = h.full + 1;
    source = h.source;
    place = omega (arith, h.place);
    count = omega (arith, h.count);
    used = omega arith;
    word = omega arith;
    held = λ i p.
        let e : n + (32 - d.used_bits_) + i ≡ h.full * 32 + i = omega (arith, h.count) in
        ap (λ (w : ℕ). bit_at w i) (loaded (d.src_) (h.full) (h.source) (h.place))
        ∙ rw e (elim (Bool-cases (ltb i 32)) [
          | inl inside ↦ let q = ltb→lt i 32 inside in rw (inside, stream_word (h.full) i q) refl
          | inr outside ↦
              let q = ltb→le i 32 outside in
              rw outside (above 32 (word_at m base (h.full)) i (word_at-lt m base (h.full)) q)
        ]);
  }

  pub drop_bits-AtBit :
      (n c : ℕ) (d : BitIn) → AtBit n d → d.used_bits_ + c ≤ 32 → AtBit (n + c) (drop_bits d c)
  unfolding drop_bits
  drop_bits-AtBit n c d h fits = record {
    full = h.full;
    source = h.source;
    place = h.place;
    count = omega (arith, h.count);
    used = fits;
    word = omega (arith, h.word, div-le_self (d.accum_) (2 ^ c));
    held = λ i p.
        let e : n + (c + i) ≡ n + c + i = omega arith in
        bit_at_shr (d.accum_) c i ∙ rw e at (h.held (c + i) (omega arith)) ∙ ground arith;
  }

  -- The digits of a value are the c bits from n on.
  abbrev pub IsRead : ℕ → ℕ → ℕ → Type 0
  IsRead n c v =
      (v < 2 ^ 32) × ((i : ℕ) → bit_at v i ≡ (if ltb i c then stream m base (n + i) else 0))

  take_accum-AtBit :
      (n c : ℕ) (d : BitIn)
      → AtBit n d
      → 1 ≤ c
      → d.used_bits_ + c ≤ 32
      → IsRead n c (take_accum d c).0 × AtBit (n + c) (take_accum d c).1
  unfolding take_accum
  take_accum-AtBit n c d h pos fits = (
    (
      bit_and-lt 32 (d.accum_) (ones32 / 2 ^ (32 - c)) (h.word),
      λ i. masked_digit (d.accum_) c i (omega arith) ∙ ground (arith, h.held i (omega arith)),
    ),
    drop_bits-AtBit n c d h fits,
  )

  -- When all bits of the accumulator are used, the next word is loaded.
  pub next-AtBit : (n : ℕ) (d : BitIn) → AtBit n d → d.used_bits_ ≡ 32 → AtBit n (load d)
  next-AtBit n d h e =
      let z : n + (32 - d.used_bits_) ≡ n = omega arith in rw z at (load-AtBit n d h)

  -- The last bits of a word, and the first ones of the next.
  joined :
      (n c free i : ℕ)
      → free < c
      → c ≤ 32
      → max (if ltb i free then stream m base (n + i) else 0) (
          if ltb i 32
          then (if ltb i free
              then 0
              else if ltb (i - free) (c - free)
              then (if ltb (i - free) 32 then stream m base (n + free + (i - free)) else 0)
              else 0)
          else 0)
        ≡ (if ltb i c then stream m base (n + i) else 0)
  joined n c free i p q = elim (Bool-cases (ltb i free)) [
    | inl low ↦ let r = ltb→lt i free low in ground arith
    | inr high ↦
        let r = ltb→le i free high in
        let e : n + free + (i - free) ≡ n + i = omega arith in rw e (ground arith)
  ]

  pub get_bits-AtBit :
      (n c : ℕ) (d : BitIn)
      → AtBit n d
      → 1 ≤ c
      → c ≤ 32
      → IsRead n c (get_bits d c).0 × AtBit (n + c) (get_bits d c).1
  unfolding get_bits load
  get_bits-AtBit n c d h pos small =
      let free = 32 - d.used_bits_ in
      let used = c - free in
      elim (Bool-cases (leb c free)) [
        | inl inside ↦
            let q = leb→le c free inside in
            rw inside (take_accum-AtBit n c d h pos (omega (arith, h.used)))
        | inr over ↦ elim (Bool-cases (d.used_bits_ == 32)) [
          | inl all ↦
              let e = ==→eq (d.used_bits_) 32 all in
              rw (over, all) (take_accum-AtBit n c (load d) (next-AtBit n d h e) pos (omega arith))
          | inr part ↦
              let q = leb→lt c free over in
              let ne = ==→ne (d.used_bits_) 32 part in
              let next = load-AtBit n d h in
              let end : n + free + used ≡ n + c = omega arith in
              let low = bit_and ((load d).accum_) (ones32 / 2 ^ (32 - used)) in
              rw (over, part)
                (
                  (
                    bit_or-lt 32 (d.accum_) (shl32 low free) (h.word) (omega arith),
                    λ i.
                        bit_at-bit_or (d.accum_) (shl32 low free) i
                        ∙ rw
                            (
                              h.held i (omega (arith, h.used)),
                              bit_at-shl32 low free i,
                              masked_digit ((load d).accum_) used (i - free) (omega arith),
                              next.held (i - free) (omega arith),
                            )
                            (joined n c free i (omega arith) (omega arith)),
                  ),
                  rw end at (drop_bits-AtBit (n + free) used (load d) next (omega arith)),
                )
        ]
      ]
