-- ===== src/Bits/Count/Turned.antt =====
-- src/bmfunc.h: the four counts of a bit block combined with a GAP block; XOR and OR go over every gap.
use bit_magic.Base.{
  ℕ, zero, suc, ◌+◌, ◌-◌, ◌%◌, ◌^◌, ◌≤◌, ◌<◌, ◌≡◌, refl, sym, ap, ◌∙◌, min, max, xor1, inl, inr,
  Bool-cases, leb→le, leb→lt, ==→eq, ==→ne, leb, ◌==◌, if◌then◌else◌, arith, Buffer,
}
use bit_magic.Gap.Layout.{first_bit, gap_max_bits, last_word, gap_bit, IsGap, gap_start}
use bit_magic.Gap.Order.{border_last, border_top, gap_start-le}
use bit_magic.Bits.Layout.{block_bit}
use bit_magic.Bits.Count.{
  bit_block_calc_count_range, gap_bitset_and_count, gap_bitset_sub_count, xor_count_loop,
  gap_bitset_xor_count, or_count_loop, gap_bitset_or_count,
}
use bit_magic.Bits.Count.Words.{sum_below_none}
use bit_magic.Bits.Count.Gaps.{combined_ones, total, kept_gap, turned_gap, full_gap, from_first_lem}

module _ (block buf : Buffer) (g : IsGap buf) where
  -- The numbers of the next round.
  steps_on :
      (j : ℕ)
      → suc j < last_word buf
      → (suc (suc j) - 1 ≡ suc j)
        × ((buf (suc j) + 1) % 2 ^ 16 ≡ suc (buf (suc j)))
        × (suc (suc j) + 1 ≡ suc (suc (suc j)))
        × (1 - (first_bit buf + suc j) % 2 ≡ (first_bit buf + suc (suc j)) % 2)
  steps_on j q = (
    omega arith,
    omega (arith, gap_start-le buf (last_word buf) g.rising (suc j) q, border_top g (suc j) q),
    omega arith,
    omega arith,
  )

  xor_gap :
      (j from : ℕ)
      → j < last_word buf
      → from ≡ gap_start buf j
      → combined_ones xor1 block buf (suc (buf (suc j)))
        ≡ combined_ones xor1 block buf from
          + (if (first_bit buf + j) % 2 == 0
              then bit_block_calc_count_range block from (buf (suc j))
              else buf (suc j) - from + 1 - bit_block_calc_count_range block from (buf (suc j)))
  unfolding total
  xor_gap j from h start = elim (Bool-cases ((first_bit buf + j) % 2 == 0)) [
    | inl clear ↦
        let e = ==→eq ((first_bit buf + j) % 2) 0 clear in
        rw clear (kept_gap xor1 block buf g j from h start (λ b p. rw e (omega arith)))
    | inr set ↦
        let ne = ==→ne ((first_bit buf + j) % 2) 0 set in
        let e : (first_bit buf + j) % 2 ≡ 1 = omega arith in
        rw set (turned_gap xor1 block buf g j from h start (λ b p. rw e (omega arith)))
  ]

  or_gap :
      (j from : ℕ)
      → j < last_word buf
      → from ≡ gap_start buf j
      → combined_ones max block buf (suc (buf (suc j)))
        ≡ combined_ones max block buf from
          + (if (first_bit buf + j) % 2 == 0
              then bit_block_calc_count_range block from (buf (suc j))
              else buf (suc j) - from + 1)
  unfolding total
  or_gap j from h start = elim (Bool-cases ((first_bit buf + j) % 2 == 0)) [
    | inl clear ↦
        let e = ==→eq ((first_bit buf + j) % 2) 0 clear in
        rw clear (kept_gap max block buf g j from h start (λ b p. rw e (omega arith)))
    | inr set ↦
        let ne = ==→ne ((first_bit buf + j) % 2) 0 set in
        let e : (first_bit buf + j) % 2 ≡ 1 = omega arith in
        rw set (full_gap max block buf g j from h start (λ b p. rw e (omega arith)))
  ]

  xor_count_loop_lem :
      (fuel j count : ℕ)
      → j < last_word buf
      → count ≡ combined_ones xor1 block buf (suc (buf (suc j)))
      → last_word buf ≤ fuel + suc j
      → xor_count_loop fuel block buf
          ((first_bit buf + suc j) % 2)
          (suc (suc j))
          (last_word buf)
          count
        ≡ combined_ones xor1 block buf gap_max_bits
  unfolding xor_count_loop
  xor_count_loop_lem zero j count h done enough =
      done ∙ ap (combined_ones xor1 block buf) (omega (arith, border_last g j (omega arith)))
  xor_count_loop_lem (suc fuel) j count h done enough =
      elim (Bool-cases (leb (suc (suc j)) (last_word buf))) [
        | inr over ↦
            let q = leb→lt (suc (suc j)) (last_word buf) over in
            rw over (
              done
              ∙ ap (combined_ones xor1 block buf) (omega (arith, border_last g j (omega arith))))
        | inl more ↦
            let q = leb→le (suc (suc j)) (last_word buf) more in
            let (prev, start, next, turn) = steps_on j q in
            rw more (
              rw prev (
                rw (start, next, turn)
                  (xor_count_loop_lem fuel (suc j) _ q
                    (rw done (sym (xor_gap (suc j) (suc (buf (suc j))) q refl))) (omega arith))))
      ]

  or_count_loop_lem :
      (fuel j count : ℕ)
      → j < last_word buf
      → count ≡ combined_ones max block buf (suc (buf (suc j)))
      → last_word buf ≤ fuel + suc j
      → or_count_loop fuel block buf
          ((first_bit buf + suc j) % 2)
          (suc (suc j))
          (last_word buf)
          count
        ≡ combined_ones max block buf gap_max_bits
  unfolding or_count_loop
  or_count_loop_lem zero j count h done enough =
      done ∙ ap (combined_ones max block buf) (omega (arith, border_last g j (omega arith)))
  or_count_loop_lem (suc fuel) j count h done enough =
      elim (Bool-cases (leb (suc (suc j)) (last_word buf))) [
        | inr over ↦
            let q = leb→lt (suc (suc j)) (last_word buf) over in
            rw over (
              done
              ∙ ap (combined_ones max block buf) (omega (arith, border_last g j (omega arith))))
        | inl more ↦
            let q = leb→le (suc (suc j)) (last_word buf) more in
            let (prev, start, next, turn) = steps_on j q in
            rw more (
              rw prev (
                rw (start, next, turn)
                  (or_count_loop_lem fuel (suc j) _ q
                    (rw done (sym (or_gap (suc j) (suc (buf (suc j))) q refl))) (omega arith))))
      ]

  xor_count_lem : gap_bitset_xor_count block buf ≡ combined_ones xor1 block buf gap_max_bits
  unfolding gap_bitset_xor_count
  xor_count_lem =
      let a : (first_bit buf + 0) % 2 ≡ buf 0 % 2 = omega arith in
      let b : buf 1 - 0 + 1 ≡ buf 1 + 1 = omega arith in
      let turn : 1 - buf 0 % 2 ≡ (first_bit buf + 1) % 2 = omega arith in
      let empty = sum_below_none (λ pos. xor1 (block_bit block pos) (gap_bit buf pos)) in
      let first = rw (a, b) at (xor_gap 0 0 g.nonempty refl) in
      rw turn (
        xor_count_loop_lem (last_word buf) 0 _ g.nonempty (omega (arith, first, empty))
          (omega arith))

  or_count_lem : gap_bitset_or_count block buf ≡ combined_ones max block buf gap_max_bits
  unfolding gap_bitset_or_count
  or_count_lem =
      let a : (first_bit buf + 0) % 2 ≡ buf 0 % 2 = omega arith in
      let b : buf 1 - 0 + 1 ≡ buf 1 + 1 = omega arith in
      let turn : 1 - buf 0 % 2 ≡ (first_bit buf + 1) % 2 = omega arith in
      let empty = sum_below_none (λ pos. max (block_bit block pos) (gap_bit buf pos)) in
      let first = rw (a, b) at (or_gap 0 0 g.nonempty refl) in
      rw turn (
        or_count_loop_lem (last_word buf) 0 _ g.nonempty (omega (arith, first, empty))
          (omega arith))

-- For every bit block and a well-formed GAP block, the four counts are the numbers of positions
-- below 65536 at which AND, SUB, XOR and OR of the bit of the bit block and the bit of the GAP
-- block are 1.
pub gap_bitset_counts_lem :
    (block buf : Buffer)
    → IsGap buf
    → (gap_bitset_and_count block buf ≡ combined_ones min block buf gap_max_bits)
      × (gap_bitset_sub_count block buf ≡ combined_ones (λ a b. a - b) block buf gap_max_bits)
      × (gap_bitset_xor_count block buf ≡ combined_ones xor1 block buf gap_max_bits)
      × (gap_bitset_or_count block buf ≡ combined_ones max block buf gap_max_bits)
unfolding gap_bitset_and_count gap_bitset_sub_count total
gap_bitset_counts_lem block buf g = (
  from_first_lem min block buf g 1 (omega arith) (λ b p. omega arith) (λ b p. omega arith),
  from_first_lem (λ a b. a - b) block buf g 0 (omega arith) (λ b p. omega arith)
      (λ b p. omega arith),
  xor_count_lem block buf g,
  or_count_lem block buf g,
)
