-- ===== src/Bits/Count/Gaps.antt =====
-- src/bmfunc.h: the counts of a bit block combined with a GAP block.
use bit_magic.Base.{
  ℕ, zero, suc, ◌+◌, ◌-◌, ◌/◌, ◌%◌, ◌≤◌, ◌<◌, ◌≡◌, refl, sym, ap, ◌∙◌, inl, inr, Bool-cases, leb→le,
  leb→lt, ==→eq, ==→ne, leb, ◌==◌, if◌then◌else◌, arith, Buffer, bit_at-lt,
}
use bit_magic.Gap.Layout.{first_bit, gap_max_bits, last_word, gap_bit, IsGap, gap_start}
use bit_magic.Gap.Order.{gap_bits, border_last, border_top, gap_start-le}
use bit_magic.Gap.Op.Sums.{sum_below, sum_below_ext, sum_below_run}
use bit_magic.Bits.Layout.{block_bit}
use bit_magic.Bits.Count.{bit_block_calc_count_range, count_gaps}
use bit_magic.Bits.Count.Words.{sum_below-add, sum_below_none}
use bit_magic.Bits.Count.Range.{ones_from, bit_block_calc_count_range_lem}

-- How many of the first n positions have op of the two bits 1.
abbrev pub combined_ones : (ℕ → ℕ → ℕ) → Buffer → Buffer → ℕ → ℕ
combined_ones op block buf n = sum_below (λ pos. op (block_bit block pos) (gap_bit buf pos)) n

block_bit-lt : (block : Buffer) (pos : ℕ) → block_bit block pos < 2
unfolding block_bit
block_bit-lt block pos = bit_at-lt (block (pos / 32)) (pos % 32)

-- A run of n values is their sum, or the n less it where they are turned over.
flipped :
    (f h : ℕ → ℕ) (n : ℕ)
    → ((i : ℕ) → i < n → h i < 2)
    → ((i : ℕ) → i < n → f i ≡ 1 - h i)
    → sum_below f n + sum_below h n ≡ n
unfolding sum_below
flipped f h zero small turn = omega arith
flipped f h (suc n) small turn = omega (
  arith,
  flipped f h n (λ i p. small i (omega arith)) (λ i p. turn i (omega arith)),
  small n (omega arith),
  turn n (omega arith),
)

module _ (op : ℕ → ℕ → ℕ) (block buf : Buffer) (g : IsGap buf) where
  unfoldable pub total : ℕ → ℕ
  total = combined_ones op block buf

  -- What a gap adds.
  gap_part :
      (j from n : ℕ)
      → j < last_word buf
      → from ≡ gap_start buf j
      → from + n ≡ suc (buf (suc j))
      → total (suc (buf (suc j)))
        ≡ total from + sum_below (λ i. op (block_bit block (from + i)) ((first_bit buf + j) % 2)) n
  unfolding total
  gap_part j from n h start size =
      let f : ℕ → ℕ = λ pos. op (block_bit block pos) (gap_bit buf pos) in
      rw (sym size) (
        sum_below-add f from n
        ∙ ap (λ (t : ℕ). sum_below f from + t)
            (sum_below_ext (λ i. f (from + i))
              (λ i. op (block_bit block (from + i)) ((first_bit buf + j) % 2)) n
              (λ i p.
                ap (op (block_bit block (from + i)))
                  (gap_bits g j h (from + i) (omega arith) (omega arith)))))

  -- A gap whose bits are kept, left out, turned over, or all counted.
  pub kept_gap :
      (j from : ℕ)
      → j < last_word buf
      → from ≡ gap_start buf j
      → ((b : ℕ) → b < 2 → op b ((first_bit buf + j) % 2) ≡ b)
      → total (suc (buf (suc j))) ≡ total from + bit_block_calc_count_range block from (buf (suc j))
  unfolding ones_from
  kept_gap j from h start keep =
      let lo = gap_start-le buf (last_word buf) g.rising j h in
      let n = buf (suc j) - from + 1 in
      omega (
        arith,
        gap_part j from n h start (omega arith),
        sum_below_ext (λ i. op (block_bit block (from + i)) ((first_bit buf + j) % 2))
            (λ i. block_bit block (from + i)) n
            (λ i p. keep (block_bit block (from + i)) (block_bit-lt block (from + i))),
        bit_block_calc_count_range_lem block from (buf (suc j)) (omega arith)
            (omega (arith, border_top g j h)),
      )

  left_out :
      (j from : ℕ)
      → j < last_word buf
      → from ≡ gap_start buf j
      → ((b : ℕ) → b < 2 → op b ((first_bit buf + j) % 2) ≡ 0)
      → total (suc (buf (suc j))) ≡ total from
  left_out j from h start none =
      let lo = gap_start-le buf (last_word buf) g.rising j h in
      let n = buf (suc j) - from + 1 in
      let f : ℕ → ℕ = λ i. op (block_bit block (from + i)) ((first_bit buf + j) % 2) in
      omega (
        arith,
        gap_part j from n h start (omega arith),
        sum_below_run f n 0 0 n (omega arith)
            (λ i p q. none (block_bit block (from + i)) (block_bit-lt block (from + i))),
        sum_below_none f,
      )

  pub turned_gap :
      (j from : ℕ)
      → j < last_word buf
      → from ≡ gap_start buf j
      → ((b : ℕ) → b < 2 → op b ((first_bit buf + j) % 2) ≡ 1 - b)
      → total (suc (buf (suc j)))
        ≡ total from
          + (buf (suc j) - from + 1 - bit_block_calc_count_range block from (buf (suc j)))
  unfolding ones_from
  turned_gap j from h start turn =
      let lo = gap_start-le buf (last_word buf) g.rising j h in
      let n = buf (suc j) - from + 1 in
      omega (
        arith,
        gap_part j from n h start (omega arith),
        flipped (λ i. op (block_bit block (from + i)) ((first_bit buf + j) % 2))
            (λ i. block_bit block (from + i)) n (λ i p. block_bit-lt block (from + i))
            (λ i p. turn (block_bit block (from + i)) (block_bit-lt block (from + i))),
        bit_block_calc_count_range_lem block from (buf (suc j)) (omega arith)
            (omega (arith, border_top g j h)),
      )

  pub full_gap :
      (j from : ℕ)
      → j < last_word buf
      → from ≡ gap_start buf j
      → ((b : ℕ) → b < 2 → op b ((first_bit buf + j) % 2) ≡ 1)
      → total (suc (buf (suc j))) ≡ total from + (buf (suc j) - from + 1)
  full_gap j from h start all =
      let lo = gap_start-le buf (last_word buf) g.rising j h in
      let n = buf (suc j) - from + 1 in
      let f : ℕ → ℕ = λ i. op (block_bit block (from + i)) ((first_bit buf + j) % 2) in
      omega (
        arith,
        gap_part j from n h start (omega arith),
        sum_below_run f n 0 1 n (omega arith)
            (λ i p q. all (block_bit block (from + i)) (block_bit-lt block (from + i))),
        sum_below_none f,
      )

  -- The loop over every other gap.
  module _ (value : ℕ) (bit : value < 2) (keep : (b : ℕ) → b < 2 → op b value ≡ b)
      (drop : (b : ℕ) → b < 2 → op b (1 - value) ≡ 0) where
    keep_at : (v : ℕ) → v ≡ value → (b : ℕ) → b < 2 → op b v ≡ b
    keep_at v e b h = rw e (keep b h)

    drop_at : (v : ℕ) → v ≡ 1 - value → (b : ℕ) → b < 2 → op b v ≡ 0
    drop_at v e b h = rw e (drop b h)

    up_to_next :
        (j count : ℕ)
        → j < last_word buf
        → value ≡ (first_bit buf + j) % 2
        → count ≡ total (suc (buf (suc j)))
        → (suc (suc j) < last_word buf → count ≡ total (suc (buf (suc (suc j)))))
          × (last_word buf ≤ suc (suc j) → count ≡ total gap_max_bits)
    up_to_next j count h e done = (
      λ p. passed (omega arith),
      λ p. elim (Bool-cases (suc j == last_word buf)) [
        | inl last ↦
            let l = ==→eq (suc j) (last_word buf) last in
            done ∙ ap total (omega (arith, border_last g j l))
        | inr later ↦
            let l = ==→ne (suc j) (last_word buf) later in
            passed (omega arith) ∙ ap total (omega (arith, border_last g (suc j) (omega arith)))
      ],
    )
      where
        passed : suc j < last_word buf → count ≡ total (suc (buf (suc (suc j))))
        passed p =
            done ∙ sym (left_out (suc j) (suc (buf (suc j))) p refl (drop_at _ (omega arith)))

    count_gaps_lem :
        (fuel j count : ℕ)
        → (suc j < last_word buf → count ≡ total (suc (buf (suc j))))
          × (last_word buf ≤ suc j → count ≡ total gap_max_bits)
        → value ≡ (first_bit buf + suc j) % 2
        → last_word buf ≤ fuel + suc j
        → count_gaps fuel block buf (suc (suc j)) (last_word buf) count ≡ total gap_max_bits
    unfolding count_gaps
    count_gaps_lem zero j count (inside, over) e enough = over (omega arith)
    count_gaps_lem (suc fuel) j count (inside, over) e enough =
        elim (Bool-cases (leb (suc (suc j)) (last_word buf))) [
          | inr done ↦
              let d = leb→lt (suc (suc j)) (last_word buf) done in rw done (over (omega arith))
          | inl more ↦
              let h = leb→le (suc (suc j)) (last_word buf) more in
              let prev : suc (suc j) - 1 ≡ suc j = omega arith in
              let start : buf (suc j) + 1 ≡ suc (buf (suc j)) = omega arith in
              let next : suc (suc j) + 2 ≡ suc (suc (suc (suc j))) = omega arith in
              let one = kept_gap (suc j) (suc (buf (suc j))) h refl (keep_at _ (omega arith)) in
              rw more (
                rw prev (
                  rw start (
                    rw next (
                      count_gaps_lem fuel (suc (suc j)) _
                        (up_to_next (suc j) _ h e (omega (arith, one, inside h))) (omega arith)
                        (omega arith)))))
        ]

    -- From the first gap on, if it has the value, and else from the second.
    pub from_first_lem :
        (if first_bit buf == value
          then count_gaps
              (last_word buf)
              block
              buf
              3
              (last_word buf)
              (bit_block_calc_count_range block 0 (buf 1))
          else count_gaps (last_word buf) block buf 2 (last_word buf) 0)
        ≡ total gap_max_bits
    unfolding total
    from_first_lem = elim (Bool-cases (first_bit buf == value)) [
      | inl first ↦
          let e = ==→eq (first_bit buf) value first in
          let one = kept_gap 0 0 g.nonempty refl (keep_at _ (omega arith)) in
          rw first (
            count_gaps_lem (last_word buf) 1 _
              (up_to_next 0 _ g.nonempty (omega arith) (
                omega
                  (arith, one, sum_below_none (λ pos. op (block_bit block pos) (gap_bit buf pos)))))
              (omega arith) (omega arith))
      | inr second ↦
          let ne = ==→ne (first_bit buf) value second in
          let start : 0 ≡ total (suc (buf 1)) = omega (
            arith,
            left_out 0 0 g.nonempty refl (drop_at _ (omega arith)),
            sum_below_none (λ pos. op (block_bit block pos) (gap_bit buf pos)),
          ) in
          rw second (
            count_gaps_lem (last_word buf) 0 0
              (
                (λ p. start),
                λ p. start ∙ ap total (omega (arith, border_last g 0 (omega (arith, g.nonempty)))),
              )
              (omega arith) (omega arith))
    ]
