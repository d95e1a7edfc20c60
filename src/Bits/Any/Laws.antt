-- ===== src/Bits/Any/Laws.antt =====
-- src/bmfunc.h: the answer about a range of a bit block is 0 where no bit of it is set.
use bit_magic.Base.{
  ℕ, zero, suc, ◌+◌, ◌-◌, ◌*◌, ◌/◌, ◌%◌, ◌^◌, ◌≤◌, ◌<◌, ◌≡◌, ◌↔◌, refl, ◌∙◌, ◌&&◌, true, false, inl,
  inr, Bool-cases, ltb→lt, ltb→le, leb→le, leb→lt, ==→eq, ==→ne, ltb, leb, ◌==◌, if◌then◌else◌,
  arith, Buffer, bit_at, bit_at-lt, bit_at-zero, bit_and, bit_or, bit_at-bit_and, bit_and-lt,
  bit_or-lt, same_digits, shifted_digit, bit_and_ones, bit_at_ones, ones32, add32, sub32,
}
use bit_magic.Bits.Layout.{IsWords, block_bit}
use bit_magic.Bits.Range.{mask_r_u32, mask_l_u32}
use bit_magic.Bits.Count.Range.{mask_to, mask_up}
use bit_magic.Bits.Any.Zero.{bit_or-none}
use bit_magic.Bits.Any.{any_words, any_rest, any_aligned, bit_block_any_range}

-- No bit in [from, to) is set.
abbrev pub IsClear : Buffer → ℕ → ℕ → Type 0
IsClear block from to = (pos : ℕ) → from ≤ pos → pos < to → block_bit block pos ≡ 0

-- A number answers for a range.
pub record Answers (block : Buffer) (from to v : ℕ) : Type 0 where
  pub none : v ≡ 0 → IsClear block from to
  pub all : IsClear block from to → v ≡ 0
  pub word : v < 2 ^ 32

module _ (block : Buffer) (w : IsWords block) where
  -- One word, under a mask.
  word_Answers :
      (d mask lo hi from to : ℕ)
      → from ≡ d * 32 + lo
      → to ≡ d * 32 + hi
      → hi ≤ 32
      → ((i : ℕ) → i < 32 → bit_at mask i ≡ (if leb lo i && ltb i hi then 1 else 0))
      → Answers block from to (bit_and (block d) mask)
  unfolding block_bit
  word_Answers d mask lo hi from to start end fits h = record {
    none = λ e pos p q.
        let dd : pos / 32 ≡ d = omega arith in
        let i = pos % 32 in
        let z : bit_at (bit_and (block d) mask) i ≡ 0 = rw e (bit_at-zero i) in
        rw (block_bit, dd)
          (ground
            (arith, z, bit_at-bit_and (block d) mask i, h i (omega arith), bit_at-lt (block d) i));
    all = λ clear.
        same_digits 32 (bit_and (block d) mask) 0 (bit_and-lt 32 (block d) mask (w d)) (omega arith)
          (λ i p.
            let dd : (d * 32 + i) / 32 ≡ d = omega arith in
            let ii : (d * 32 + i) % 32 ≡ i = omega arith in
            let bit : lo ≤ i → i < hi → bit_at (block d) i ≡ 0 =
              λ a b. rw (dd, ii) at (clear (d * 32 + i) (omega arith) (omega arith)) in
            bit_at-bit_and (block d) mask i
            ∙ ground (arith, h i p, bit, bit_at-lt (block d) i, bit_at-zero i));
    word = bit_and-lt 32 (block d) mask (w d);
  }

  -- Two ranges that follow on.
  or_Answers :
      (from mid to a b : ℕ)
      → from ≤ mid
      → mid ≤ to
      → Answers block from mid a
      → Answers block mid to b
      → Answers block from to (bit_or a b)
  or_Answers from mid to a b p q one two = record {
    none = λ e pos lo hi.
        let parts = bit_or-none 32 a b (one.word) (two.word) e in
        elim (Bool-cases (ltb pos mid)) [
          | inl low ↦ one.none (parts.0) pos lo (ltb→lt pos mid low)
          | inr high ↦ two.none (parts.1) pos (ltb→le pos mid high) hi
        ];
    all = λ clear.
        let x = one.all (λ pos lo hi. clear pos lo (omega arith)) in
        let y = two.all (λ pos lo hi. clear pos (omega arith) hi) in rw (x, y) refl;
    word = bit_or-lt 32 a b (one.word) (two.word);
  }

  -- An answer that is not 0 holds for a longer range, and one that is 0 leaves it to what follows.
  found_Answers :
      (from mid to a : ℕ)
      → mid ≤ to
      → (a == 0) ≡ false
      → Answers block from mid a
      → Answers block from to a
  found_Answers from mid to a p some one = record {
    none = λ e. absurd (omega (arith, ==→ne a 0 some));
    all = λ clear. one.all (λ pos lo hi. clear pos lo (omega arith));
    word = one.word;
  }

  next_Answers :
      (from mid to a b : ℕ)
      → from ≤ mid
      → mid ≤ to
      → (a == 0) ≡ true
      → Answers block from mid a
      → Answers block mid to b
      → Answers block from to b
  next_Answers from mid to a b p q empty one two = record {
    none = λ e pos lo hi. elim (Bool-cases (ltb pos mid)) [
      | inl low ↦ one.none (==→eq a 0 empty) pos lo (ltb→lt pos mid low)
      | inr high ↦ two.none e pos (ltb→le pos mid high) hi
    ];
    all = λ clear. two.all (λ pos lo hi. clear pos (omega arith) hi);
    word = two.word;
  }

  none_Answers : (from to : ℕ) → to ≤ from → Answers block from to 0
  none_Answers from to h = record {
    none = λ e pos lo hi. absurd (omega arith);
    all = λ clear. refl;
    word = omega arith;
  }

  whole_Answers : (d from to : ℕ) → from ≡ d * 32 → to ≡ from + 32 → Answers block from to (block d)
  whole_Answers d from to start end = rw (bit_and_ones (block d) (w d)) at (
      word_Answers d ones32 0 32 from to (omega arith) (omega arith) (omega arith)
        (λ i p. ground (arith, bit_at_ones 32 i)))

  any_words_lem :
      (fuel from word bitcount acc : ℕ)
      → from ≤ word * 32
      → bitcount < fuel * 32 + 32
      → Answers block from (word * 32) acc
      → let r = any_words fuel block word bitcount acc in
        Answers block from (r.1 * 32) (r.0)
        × (r.2 < 32)
        × (r.1 * 32 + r.2 ≡ word * 32 + bitcount)
        × (from ≤ r.1 * 32)
  unfolding any_words
  any_words_lem zero from word bitcount acc start enough h = (h, omega arith, refl, start)
  any_words_lem (suc fuel) from word bitcount acc start enough h =
      elim (Bool-cases (leb 32 bitcount)) [
        | inr over ↦ let q = leb→lt 32 bitcount over in rw over (h, q, refl, start)
        | inl more ↦
            let q = leb→le 32 bitcount more in
            let rest =
              any_words_lem fuel from (word + 1) (bitcount - 32) (bit_or acc (block word))
                (omega arith) (omega arith)
                (or_Answers from (word * 32) ((word + 1) * 32) acc (block word) start (omega arith)
                  h (whole_Answers word (word * 32) ((word + 1) * 32) refl (omega arith))) in
            rw more (rest.0, rest.1, omega (arith, rest.2), rest.3)
      ]

  any_rest_lem :
      (from to word bitcount : ℕ)
      → from ≡ word * 32
      → to ≡ from + bitcount
      → bitcount < 128
      → Answers block from to (any_rest block word bitcount)
  unfolding any_rest
  any_rest_lem from to word bitcount start end few =
      let r = any_words 4 block word bitcount 0 in
      let loop =
        any_words_lem 4 from word bitcount 0 (omega arith) (omega arith)
          (none_Answers from (word * 32) (omega arith)) in
      elim (Bool-cases (r.2 == 0)) [
        | inl done ↦
            let e = ==→eq (r.2) 0 done in
            let t : r.1 * 32 ≡ to = omega (arith, loop.2) in rw done (rw t at (loop.0))
        | inr tail ↦
            let ne = ==→ne (r.2) 0 tail in
            rw tail (
              or_Answers from (r.1 * 32) to (r.0) _ (loop.3) (omega (arith, loop.2)) (loop.0) (
                word_Answers (r.1) (mask_l_u32 (r.2 - 1)) 0 (r.2) (r.1 * 32) to (omega arith)
                  (omega (arith, loop.2)) (omega (arith, loop.1))
                  (λ i p. ground (arith, mask_to (r.2 - 1) i, loop.1))))
      ]

  four_words :
      (d from : ℕ)
      → from ≡ d * 32
      → Answers block from
          (from + 128)
          (bit_or (bit_or (bit_or (block d) (block (d + 1))) (block (d + 2))) (block (d + 3)))
  four_words d from start =
      or_Answers from (from + 96) (from + 128) _ _ (omega arith) (omega arith)
        (or_Answers from (from + 64) (from + 96) _ _ (omega arith) (omega arith)
          (or_Answers from (from + 32) (from + 64) _ _ (omega arith) (omega arith)
            (whole_Answers d from (from + 32) start refl)
            (whole_Answers (d + 1) (from + 32) (from + 64) (omega arith) (omega arith)))
          (whole_Answers (d + 2) (from + 64) (from + 96) (omega arith) (omega arith)))
        (whole_Answers (d + 3) (from + 96) (from + 128) (omega arith) (omega arith))

  any_aligned_lem :
      (fuel from to word bitcount : ℕ)
      → from ≡ word * 32
      → to ≡ from + bitcount
      → bitcount < fuel * 128 + 128
      → Answers block from to (any_aligned fuel block word bitcount)
  unfolding any_aligned
  any_aligned_lem zero from to word bitcount start end enough =
      any_rest_lem from to word bitcount start end (omega arith)
  any_aligned_lem (suc fuel) from to word bitcount start end enough =
      let acc =
        bit_or (bit_or (bit_or (block word) (block (word + 1))) (block (word + 2)))
          (block (word + 3)) in
      let four = four_words word from start in
      elim (Bool-cases (leb 128 bitcount)) [
        | inr few ↦
            let q = leb→lt 128 bitcount few in
            rw few (any_rest_lem from to word bitcount start end q)
        | inl many ↦
            let q = leb→le 128 bitcount many in
            elim (Bool-cases (acc == 0)) [
              | inl empty ↦
                  rw (many, empty)
                    (next_Answers from (from + 128) to acc _ (omega arith) (omega arith) empty four
                      (any_aligned_lem fuel (from + 128) to (word + 4) (bitcount - 128)
                        (omega arith) (omega arith) (omega arith)))
              | inr busy ↦
                  rw (many, busy) (found_Answers from (from + 128) to acc (omega arith) busy four)
            ]
      ]

  one_Answers : (left : ℕ) → Answers block left (left + 1) (block (left / 32) / 2 ^ (left % 32) % 2)
  unfolding block_bit
  one_Answers left = record {
    none = λ e pos lo hi.
        let same : pos ≡ left = omega arith in
        rw (block_bit, same) (omega (arith, shifted_digit (block (left / 32)) (left % 32)));
    all = λ clear. omega (
      arith,
      shifted_digit (block (left / 32)) (left % 32),
      clear left (omega arith) (omega arith),
    );
    word = omega arith;
  }

  pub bit_block_any_range-Answers :
      (left right : ℕ)
      → left ≤ right
      → right < 2 ^ 32 - 1
      → Answers block left (right + 1) (bit_block_any_range block left right)
  unfolding bit_block_any_range
  bit_block_any_range-Answers left right order top =
      let nbit = left % 32 in
      let word = left / 32 in
      let n = right - left + 1 in
      let margin = nbit + (right - left) in
      let exact : add32 (sub32 right left) 1 ≡ n = omega arith in
      let exact_margin : add32 nbit (sub32 right left) ≡ margin = omega arith in
      let acc = bit_and (block word) (mask_r_u32 nbit) in
      elim (Bool-cases (left == right)) [
        | inl same ↦
            let e = ==→eq left right same in
            let end : right + 1 ≡ left + 1 = omega arith in rw (same, end) (one_Answers left)
        | inr longer ↦
            let ne = ==→ne left right longer in
            elim (Bool-cases (nbit == 0)) [
              | inl aligned ↦
                  let e = ==→eq nbit 0 aligned in
                  rw (longer, aligned, exact)
                    (any_aligned_lem n left (right + 1) word n (omega arith) (omega arith)
                      (omega arith))
              | inr inside ↦
                  let ne0 = ==→ne nbit 0 inside in
                  elim (Bool-cases (ltb margin 32)) [
                    | inl short ↦
                        let q = ltb→lt margin 32 short in
                        rw (longer, inside, exact_margin, short)
                          (word_Answers word (bit_and (mask_r_u32 nbit) (mask_l_u32 margin)) nbit
                            (suc margin) left (right + 1) (omega arith) (omega arith) q
                            (λ i p.
                              bit_at-bit_and (mask_r_u32 nbit) (mask_l_u32 margin) i
                              ∙ ground (arith, mask_up nbit i p, mask_to margin i q)))
                    | inr long ↦
                        let q = ltb→le margin 32 long in
                        let first =
                          word_Answers word (mask_r_u32 nbit) nbit 32 left (left + (32 - nbit))
                            (omega arith) (omega arith) (omega arith)
                            (λ i p. ground (arith, mask_up nbit i p)) in
                        elim (Bool-cases (acc == 0)) [
                          | inl empty ↦
                              rw (longer, inside, exact, exact_margin, long, empty)
                                (next_Answers left (left + (32 - nbit)) (right + 1) acc _
                                  (omega arith) (omega arith) empty first
                                  (any_aligned_lem n (left + (32 - nbit)) (right + 1) (word + 1)
                                    (n - (32 - nbit)) (omega arith) (omega arith) (omega arith)))
                          | inr busy ↦
                              rw (longer, inside, exact_margin, long, busy)
                                (found_Answers left (left + (32 - nbit)) (right + 1) acc
                                  (omega arith) busy first)
                        ]
                  ]
            ]
      ]

-- For a block of 32-bit words and ends of a range in order, the right one below 2^32 - 1, the
-- answer is 0 exactly where no bit from the left end to the right end, both included, is set.
pub bit_block_any_range_iff :
    (block : Buffer) (left right : ℕ)
    → IsWords block
    → left ≤ right
    → right < 2 ^ 32 - 1
    → (bit_block_any_range block left right ≡ 0) ↔ IsClear block left (right + 1)
bit_block_any_range_iff block left right w order top =
    let answer = bit_block_any_range-Answers block w left right order top in
    (answer.none, answer.all)
