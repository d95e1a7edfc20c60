-- ===== src/Bits/Count/Range.antt =====
-- src/bmfunc.h: the count of the set bits of a range of a bit block.
use bit_magic.Base.{
  ℕ, zero, suc, ◌+◌, ◌-◌, ◌*◌, ◌/◌, ◌%◌, ◌^◌, ◌≤◌, ◌<◌, ◌≡◌, refl, sym, ap, ◌∙◌, ◌&&◌, inl, inr,
  Bool-cases, ltb→lt, ltb→le, leb→le, leb→lt, ==→eq, ==→ne, ltb, leb, ◌==◌, if◌then◌else◌, arith,
  Buffer, bit_at, bit_and, ones32, add32, sub32, bit_at-bit_and, bit_at_shr, bit_at_ones,
  shifted_digit,
}
use bit_magic.Gap.Layout.{gap_max_bits}
use bit_magic.Gap.Op.Sums.{sum_below, sum_below_ext}
use bit_magic.Bits.Layout.{block_bit}
use bit_magic.Bits.Range.{mask_r_u32, mask_l_u32}
use bit_magic.Bits.Range.Laws.{mask_from}
use bit_magic.Bits.Count.{word_bitcount, count_words, count_aligned, bit_block_calc_count_range}
use bit_magic.Bits.Count.Words.{sum_below-add, sum_below_none, word_bitcount_lem, masked_count}

-- How many of the n bits from a position on are set.
unfoldable pub ones_from : Buffer → ℕ → ℕ → ℕ
ones_from block from n = sum_below (λ i. block_bit block (from + i)) n

pub ones_from-add :
    (block : Buffer) (from a b c next : ℕ)
    → c ≡ a + b
    → next ≡ from + a
    → ones_from block from c ≡ ones_from block from a + ones_from block next b
unfolding ones_from
ones_from-add block from a b c next sum start =
    let f : ℕ → ℕ = λ i. block_bit block (from + i) in
    rw (sum, start)
      (sum_below-add f a b
        ∙ ap (λ (t : ℕ). sum_below f a + t)
            (sum_below_ext (λ i. f (a + i)) (λ i. block_bit block (from + a + i)) b
              (λ i p. let e : from + (a + i) ≡ from + a + i = omega arith in rw e refl)))

-- Bits of one word.
ones_word :
    (block : Buffer) (d lo n from : ℕ)
    → from ≡ d * 32 + lo
    → lo + n ≤ 32
    → ones_from block from n ≡ sum_below (λ i. bit_at (block d) (lo + i)) n
unfolding ones_from block_bit
ones_word block d lo n from start fits =
    sum_below_ext (λ i. block_bit block (from + i)) (λ i. bit_at (block d) (lo + i)) n
      (λ i p.
        let q : (from + i) / 32 ≡ d = omega arith in
        let r : (from + i) % 32 ≡ lo + i = omega arith in rw (block_bit, q, r) refl)

whole_word :
    (block : Buffer) (d from : ℕ)
    → from ≡ d * 32
    → word_bitcount (block d) ≡ ones_from block from 32
whole_word block d from start =
    word_bitcount_lem (block d)
    ∙ sum_below_ext (bit_at (block d)) (λ i. bit_at (block d) (0 + i)) 32
        (λ i p. let z : 0 + i ≡ i = omega arith in rw z refl)
    ∙ sym (ones_word block d 0 32 from (omega arith) (omega arith))

pub mask_to : (n i : ℕ) → n < 32 → bit_at (mask_l_u32 n) i ≡ (if ltb i (suc n) then 1 else 0)
unfolding mask_l_u32
mask_to n i h = ground (arith, bit_at_shr ones32 (31 - n) i, bit_at_ones 32 (31 - n + i))

-- Bits of one word, under a mask.
masked_word :
    (block : Buffer) (d mask lo hi from n : ℕ)
    → from ≡ d * 32 + lo
    → hi ≡ lo + n
    → hi ≤ 32
    → ((i : ℕ) → i < 32 → bit_at mask i ≡ (if leb lo i && ltb i hi then 1 else 0))
    → word_bitcount (bit_and (block d) mask) ≡ ones_from block from n
masked_word block d mask lo hi from n start size fits h =
    let e : hi - lo ≡ n = omega arith in
    rw e at (masked_count (block d) mask lo hi (omega arith) fits h)
    ∙ sym (ones_word block d lo n from start (omega arith))

pub nothing : (block : Buffer) (from : ℕ) → ones_from block from 0 ≡ 0
unfolding ones_from
nothing block from = sum_below_none (λ i. block_bit block (from + i))

count_words_lem :
    (fuel : ℕ) (block : Buffer) (word bitcount count from : ℕ)
    → from ≡ word * 32
    → bitcount < fuel * 32 + 32
    → let r = count_words fuel block word bitcount count in
      (r.2 < 32)
      × (r.2 ≤ bitcount)
      × (r.1 * 32 + r.2 ≡ from + bitcount)
      × (r.0 ≡ count + ones_from block from (bitcount - r.2))
unfolding count_words
count_words_lem zero block word bitcount count from start enough =
    let e : bitcount - bitcount ≡ 0 = omega arith in
    (omega arith, omega arith, omega arith, rw e (omega (arith, nothing block from)))
count_words_lem (suc fuel) block word bitcount count from start enough =
    elim (Bool-cases (leb 32 bitcount)) [
      | inr over ↦
          let q = leb→lt 32 bitcount over in
          let e : bitcount - bitcount ≡ 0 = omega arith in
          rw (over, e) (q, omega arith, omega arith, omega (arith, nothing block from))
      | inl more ↦
          let q = leb→le 32 bitcount more in
          let r =
            count_words fuel block (word + 1) (bitcount - 32)
              (count + word_bitcount (block word)) in
          let rest =
            count_words_lem fuel block (word + 1) (bitcount - 32)
              (count + word_bitcount (block word)) (from + 32) (omega arith) (omega arith) in
          let parts =
            ones_from-add block from 32 (bitcount - 32 - r.2) (bitcount - r.2) (from + 32)
              (omega (arith, rest.1)) refl in
          rw more (
            rest.0,
            omega (arith, rest.1),
            omega (arith, rest.2),
            omega (arith, rest.3, parts, whole_word block word from start),
          )
    ]

count_aligned_lem :
    (block : Buffer) (word bitcount count from : ℕ)
    → from ≡ word * 32
    → count_aligned block word bitcount count ≡ count + ones_from block from bitcount
unfolding count_aligned
count_aligned_lem block word bitcount count from start =
    let r = count_words bitcount block word bitcount count in
    let loop = count_words_lem bitcount block word bitcount count from start (omega arith) in
    elim (Bool-cases (r.2 == 0)) [
      | inl done ↦
          let e = ==→eq (r.2) 0 done in
          let all : bitcount - r.2 ≡ bitcount = omega arith in rw done (loop.3 ∙ rw all refl)
      | inr tail ↦
          let ne = ==→ne (r.2) 0 tail in
          let last =
            masked_word block (r.1) (mask_l_u32 (r.2 - 1)) 0 (r.2) (r.1 * 32) (r.2) (omega arith)
              (omega arith) (omega (arith, loop.0))
              (λ i p. ground (arith, mask_to (r.2 - 1) i, loop.0)) in
          let parts =
            ones_from-add block from (bitcount - r.2) (r.2) bitcount (r.1 * 32)
              (omega (arith, loop.1)) (omega (arith, loop.1, loop.2)) in
          rw tail (omega (arith, loop.3, last, parts))
    ]

one_bit :
    (block : Buffer) (left : ℕ) → block (left / 32) / 2 ^ (left % 32) % 2 ≡ ones_from block left 1
unfolding ones_from sum_below block_bit
one_bit block left =
    let z : left + 0 ≡ left = omega arith in
    rw z (omega (arith, shifted_digit (block (left / 32)) (left % 32)))

pub mask_up : (n i : ℕ) → i < 32 → bit_at (mask_r_u32 n) i ≡ (if leb n i then 1 else 0)
unfolding mask_r_u32
mask_up n i h = mask_from n i h

-- For every bit block and ends of a range in order and below 65536, the count of the range is the
-- number of positions from the left end to the right end, both included, whose bit is set.
pub bit_block_calc_count_range_lem :
    (block : Buffer) (left right : ℕ)
    → left ≤ right
    → right < gap_max_bits
    → bit_block_calc_count_range block left right ≡ ones_from block left (right - left + 1)
unfolding bit_block_calc_count_range
bit_block_calc_count_range_lem block left right order top =
    let nbit = left % 32 in
    let word = left / 32 in
    let n = right - left + 1 in
    let margin = nbit + right - left in
    let exact : add32 (sub32 right left) 1 ≡ n = omega arith in
    let exact_margin : sub32 (add32 nbit right) left ≡ margin = omega arith in
    elim (Bool-cases (left == right)) [
      | inl same ↦
          let e = ==→eq left right same in
          let one : n ≡ 1 = omega arith in rw (same, one) (one_bit block left)
      | inr longer ↦
          let ne = ==→ne left right longer in
          elim (Bool-cases (nbit == 0)) [
            | inl aligned ↦
                let e = ==→eq nbit 0 aligned in
                rw (longer, aligned, exact)
                  (omega (arith, count_aligned_lem block word n 0 left (omega arith)))
            | inr inside ↦
                let ne0 = ==→ne nbit 0 inside in
                elim (Bool-cases (ltb margin 32)) [
                  | inl short ↦
                      let q = ltb→lt margin 32 short in
                      rw (longer, inside, exact_margin, short)
                        (masked_word block word (bit_and (mask_r_u32 nbit) (mask_l_u32 margin)) nbit
                          (suc margin) left n (omega arith) (omega arith) q
                          (λ i p.
                            bit_at-bit_and (mask_r_u32 nbit) (mask_l_u32 margin) i
                            ∙ ground (arith, mask_up nbit i p, mask_to margin i q)))
                  | inr long ↦
                      let q = ltb→le margin 32 long in
                      let first =
                        masked_word block word (mask_r_u32 nbit) nbit 32 left (32 - nbit)
                          (omega arith) (omega arith) (omega arith)
                          (λ i p. ground (arith, mask_up nbit i p)) in
                      let parts =
                        ones_from-add block left (32 - nbit) (n - (32 - nbit)) n
                          (left + (32 - nbit)) (omega arith) refl in
                      rw (longer, inside, exact, exact_margin, long)
                        (omega (
                          arith,
                          first,
                          parts,
                          count_aligned_lem block (word + 1) (n - (32 - nbit))
                              (word_bitcount (bit_and (block word) (mask_r_u32 nbit)))
                              (left + (32 - nbit)) (omega arith),
                        ))
                ]
          ]
    ]
