-- ===== src/Bits/Gaps/Laws.antt =====
-- src/bmfunc.h: combining a GAP block with a bit block combines their bits.
use bit_magic.Base.{
  ℕ, zero, suc, ◌+◌, ◌-◌, ◌/◌, ◌%◌, ◌^◌, ◌≤◌, ◌<◌, ◌≡◌, ◌≢◌, inl, inr, refl, Buffer, ltb, leb, ◌==◌,
  if◌then◌else◌, arith, Bool-cases, ==→eq, ==→ne, leb→le, leb→lt, ltb→lt, ltb→le, bit_at-lt,
  bit_at-zero, min, max, xor1,
}
use bit_magic.Gap.Layout.{first_bit, gap_max_bits, last_word, gap_bit, IsGap, gap_start}
use bit_magic.Gap.Order.{gap_bits, gap_bit-cases, border_last, border_top, gap_start-le}
use bit_magic.Bits.Layout.{IsWords, block_bit, Changes}
use bit_magic.Bits.Range.{or_bit_block, sub_bit_block, xor_bit_block}
use bit_magic.Bits.Range.Laws.{or_bit_block-Changes, sub_bit_block-Changes, xor_bit_block-Changes}
use bit_magic.Bits.Gaps.{
  gaps_to_bitset, from_first_gap, gap_sub_to_bitset, gap_xor_to_bitset, gap_add_to_bitset,
  gap_add_to_bitset_len, gap_and_to_bitset, bit_block_set, gap_convert_to_bitset,
}

module _ (f : ℕ → ℕ) (change : Buffer → ℕ → ℕ → Buffer)
    (changes : (dest : Buffer) (pos count : ℕ)
      → IsWords dest
      → pos < 2 ^ 16
      → count ≤ 2 ^ 32 - 32
      → Changes f dest (change dest pos count) pos (pos + count))
    (buf : Buffer) (g : IsGap buf) (value : ℕ) (bit : value < 2) where
  -- The bits below n are changed where the GAP block has the value, and no other.
  record IsMarked (dest out : Buffer) (n : ℕ) : Type 0 where
    words : IsWords out
    below :
        (pos : ℕ)
        → pos < n
        → block_bit out pos
          ≡ (if gap_bit buf pos == value then f (block_bit dest pos) else block_bit dest pos)
    above : (pos : ℕ) → n ≤ pos → block_bit out pos ≡ block_bit dest pos

  -- A gap with the value.
  mark_gap :
      (dest out : Buffer) (j from count : ℕ)
      → from ≡ gap_start buf j
      → from + count ≡ suc (buf (suc j))
      → j < last_word buf
      → value ≡ (first_bit buf + j) % 2
      → IsMarked dest out from
      → IsMarked dest (change out from count) (suc (buf (suc j)))
  mark_gap dest out j from count start size h e m =
      let lo = gap_start-le buf (last_word buf) g.rising j h in
      let c =
        changes out from count m.words (omega (arith, lo, border_top g j h))
          (omega (arith, border_top g j h)) in
      record {
        words = c.words;
        below = λ pos p. elim (Bool-cases (ltb pos from)) [
          | inl old ↦ let o = ltb→lt pos from old in ground (arith, c.bits pos, m.below pos o)
          | inr new ↦
              let n = ltb→le pos from new in
              ground (arith, c.bits pos, m.above pos n, gap_bits g j h pos (omega arith) p)
        ];
        above = λ pos p. ground (arith, c.bits pos, m.above pos (omega arith));
      }

  -- A gap with the other value is passed over.
  pass_gap :
      (dest out : Buffer) (j from : ℕ)
      → from ≡ gap_start buf j
      → j < last_word buf
      → value ≢ (first_bit buf + j) % 2
      → IsMarked dest out from
      → IsMarked dest out (suc (buf (suc j)))
  pass_gap dest out j from start h ne m =
      let lo = gap_start-le buf (last_word buf) g.rising j h in
      record {
        words = m.words;
        below = λ pos p. elim (Bool-cases (ltb pos from)) [
          | inl old ↦ m.below pos (ltb→lt pos from old)
          | inr new ↦
              let n = ltb→le pos from new in
              ground (arith, m.above pos n, gap_bits g j h pos (omega arith) p)
        ];
        above = λ pos p. m.above pos (omega arith);
      }

  whole :
      {dest out : Buffer} {n : ℕ}
      → IsMarked dest out n
      → n ≡ gap_max_bits
      → IsMarked dest out gap_max_bits
  whole m e = rw e at m

  -- Behind a gap with the value comes one without, and then the next with the value, if it is there.
  up_to_next :
      (dest out : Buffer) (j : ℕ)
      → j < last_word buf
      → value ≡ (first_bit buf + j) % 2
      → IsMarked dest out (suc (buf (suc j)))
      → (suc (suc j) < last_word buf → IsMarked dest out (suc (buf (suc (suc j)))))
        × (last_word buf ≤ suc (suc j) → IsMarked dest out gap_max_bits)
  up_to_next dest out j h e m = (
    λ p. passed (omega arith),
    λ p. elim (Bool-cases (suc j == last_word buf)) [
      | inl last ↦
          let l = ==→eq (suc j) (last_word buf) last in whole m (omega (arith, border_last g j l))
      | inr later ↦
          let l = ==→ne (suc j) (last_word buf) later in
          whole (passed (omega arith)) (omega (arith, border_last g (suc j) (omega arith)))
    ],
  )
    where
      passed : suc j < last_word buf → IsMarked dest out (suc (buf (suc (suc j))))
      passed p = pass_gap dest out (suc j) (suc (buf (suc j))) refl p (λ q. absurd (omega arith)) m

  -- From a gap with the value on, if it is there.
  gaps_to_bitset-IsMarked :
      (fuel j : ℕ) (dest out : Buffer)
      → (suc j < last_word buf → IsMarked dest out (suc (buf (suc j))))
        × (last_word buf ≤ suc j → IsMarked dest out gap_max_bits)
      → value ≡ (first_bit buf + suc j) % 2
      → last_word buf ≤ fuel + suc j
      → IsMarked dest
          (gaps_to_bitset fuel change out buf (suc (suc j)) (last_word buf))
          gap_max_bits
  unfolding gaps_to_bitset
  gaps_to_bitset-IsMarked zero j dest out (inside, over) e enough = over (omega arith)
  gaps_to_bitset-IsMarked (suc fuel) j dest out (inside, over) e enough =
      elim (Bool-cases (leb (suc (suc j)) (last_word buf))) [
        | inr done ↦
            let d = leb→lt (suc (suc j)) (last_word buf) done in rw done (over (omega arith))
        | inl more ↦
            let h = leb→le (suc (suc j)) (last_word buf) more in
            let prev : suc (suc j) - 1 ≡ suc j = omega arith in
            let start : 1 + buf (suc j) ≡ suc (buf (suc j)) = omega arith in
            let next : suc (suc j) + 2 ≡ suc (suc (suc (suc j))) = omega arith in
            let one =
              mark_gap dest out (suc j) (suc (buf (suc j))) (buf (suc (suc j)) - buf (suc j)) refl
                (omega (arith, g.rising j h)) h e (inside h) in
            rw more (
              rw prev (
                rw start (
                  rw next (
                    gaps_to_bitset-IsMarked fuel (suc (suc j)) dest _
                      (up_to_next dest _ (suc j) h e one) (omega arith) (omega arith)))))
      ]

  -- The bits where the GAP block has the value are changed, and no other.
  from_first_gap-changes :
      (dest : Buffer)
      → IsWords dest
      → let out = from_first_gap change value dest buf (last_word buf) in
        IsWords out
        × ((pos : ℕ)
            → pos < gap_max_bits
            → block_bit out pos
              ≡ (if gap_bit buf pos == value then f (block_bit dest pos) else block_bit dest pos))
  unfolding from_first_gap
  from_first_gap-changes dest w = elim (Bool-cases (first_bit buf == value)) [
    | inl first ↦
        let e = ==→eq (first_bit buf) value first in
        let one =
          mark_gap dest dest 0 0 (1 + buf 1) refl (omega arith) g.nonempty (omega arith) none in
        let m =
          gaps_to_bitset-IsMarked (last_word buf) 1 dest _
            (up_to_next dest _ 0 g.nonempty (omega arith) one) (omega arith) (omega arith) in
        rw first (m.words, m.below)
    | inr second ↦
        let ne = ==→ne (first_bit buf) value second in
        let passed = pass_gap dest dest 0 0 refl g.nonempty (λ q. absurd (omega arith)) none in
        let m =
          gaps_to_bitset-IsMarked (last_word buf) 0 dest dest
            (
              (λ p. passed),
              λ p. whole passed (omega (arith, border_last g 0 (omega (arith, g.nonempty)))),
            )
            (omega arith) (omega arith) in
        rw second (m.words, m.below)
  ]
    where
      none : IsMarked dest dest 0
      none = record { words = w; below = λ pos p. absurd (omega arith); above = λ pos p. refl }

-- A bit block that holds f of the bits of a bit block and of a GAP block.
abbrev pub IsMerged : (ℕ → ℕ → ℕ) → Buffer → Buffer → Buffer → Type 0
IsMerged f dest buf out =
    IsWords out
    × ((pos : ℕ)
        → pos < gap_max_bits
        → block_bit out pos ≡ f (block_bit dest pos) (gap_bit buf pos))

module _ (dest buf : Buffer) (w : IsWords dest) (g : IsGap buf) where
  block_bit-lt : (pos : ℕ) → block_bit dest pos < 2
  unfolding block_bit
  block_bit-lt pos = bit_at-lt (dest (pos / 32)) (pos % 32)

  merge_or : IsMerged max dest buf (gap_add_to_bitset dest buf)
  unfolding gap_add_to_bitset gap_add_to_bitset_len
  merge_or =
      let c =
        from_first_gap-changes (λ b. 1) or_bit_block
          (λ d p n v q few. or_bit_block-Changes d p n v few) buf g 1 (omega arith) dest w in
      (c.0, λ pos p. ground (arith, c.1 pos p, gap_bit-cases buf pos, block_bit-lt pos))

  merge_and : IsMerged min dest buf (gap_and_to_bitset dest buf)
  unfolding gap_and_to_bitset
  merge_and =
      let c =
        from_first_gap-changes (λ b. 0) sub_bit_block
          (λ d p n v q few. sub_bit_block-Changes d p n v few) buf g 0 (omega arith) dest w in
      (c.0, λ pos p. ground (arith, c.1 pos p, gap_bit-cases buf pos, block_bit-lt pos))

  merge_sub : IsMerged (λ a b. a - b) dest buf (gap_sub_to_bitset dest buf)
  unfolding gap_sub_to_bitset
  merge_sub =
      let c =
        from_first_gap-changes (λ b. 0) sub_bit_block
          (λ d p n v q few. sub_bit_block-Changes d p n v few) buf g 1 (omega arith) dest w in
      (c.0, λ pos p. ground (arith, c.1 pos p, gap_bit-cases buf pos, block_bit-lt pos))

  merge_xor : IsMerged xor1 dest buf (gap_xor_to_bitset dest buf)
  unfolding gap_xor_to_bitset
  merge_xor =
      let c =
        from_first_gap-changes (λ b. 1 - b) xor_bit_block xor_bit_block-Changes buf g 1
          (omega arith) dest w in
      (c.0, λ pos p. ground (arith, c.1 pos p, gap_bit-cases buf pos, block_bit-lt pos))

-- For a block of 32-bit words and a well-formed GAP block, the four functions that put a GAP
-- block into a bit block give bit blocks with the OR, the AND, the difference and the XOR of the
-- two bits at every position.
pub gaps_to_bitset_lem :
    (dest buf : Buffer)
    → IsWords dest
    → IsGap buf
    → IsMerged max dest buf (gap_add_to_bitset dest buf)
      × IsMerged min dest buf (gap_and_to_bitset dest buf)
      × IsMerged (λ a b. a - b) dest buf (gap_sub_to_bitset dest buf)
      × IsMerged xor1 dest buf (gap_xor_to_bitset dest buf)
gaps_to_bitset_lem dest buf w g =
    (merge_or dest buf w g, merge_and dest buf w g, merge_sub dest buf w g, merge_xor dest buf w g)

bit_block_set-zero :
    (dest : Buffer)
    → IsWords dest
    → IsWords (bit_block_set dest 0)
      × ((pos : ℕ) → pos < gap_max_bits → block_bit (bit_block_set dest 0) pos ≡ 0)
unfolding bit_block_set block_bit
bit_block_set-zero dest w =
    (λ k. ground (arith, w k), λ pos p. ground (arith, bit_at-zero (pos % 32)))

-- For a block of 32-bit words and a well-formed GAP block, the conversion gives a bit block that
-- has at every position the bit that the GAP block has there.
pub gap_convert_to_bitset_lem :
    (dest buf : Buffer)
    → IsWords dest
    → IsGap buf
    → IsWords (gap_convert_to_bitset dest buf)
      × ((pos : ℕ)
          → pos < gap_max_bits
          → block_bit (gap_convert_to_bitset dest buf) pos ≡ gap_bit buf pos)
unfolding gap_convert_to_bitset
gap_convert_to_bitset_lem dest buf w g =
    let z = bit_block_set-zero dest w in
    let m = merge_or (bit_block_set dest 0) buf z.0 g in
    (m.0, λ pos p. ground (arith, m.1 pos p, z.1 pos p))
