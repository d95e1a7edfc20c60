-- ===== src/Gap/Count/Rank.antt =====
-- src/bmfunc.h: the search for the bit of a given rank.
use bit_magic.Base.{
  ℕ, zero, suc, ◌+◌, ◌-◌, ◌/◌, ◌%◌, ◌^◌, ◌≤◌, ◌<◌, ◌≡◌, inl, inr, refl, Buffer, ◌==◌, leb,
  Bool-cases, leb→le, leb→lt, ==→eq, ==→ne, arith, Option, none, some, add32, sub32, bit_and,
  mask32, not32-mask32, bit_and-mask32_zero,
}
use bit_magic.Gap.Layout.{gap_max_bits, last_word, gap_bit, IsGap, gap_start, gap_ones}
use bit_magic.Gap.Order.{gap_bit-InGap, border_top, border_last, gap_ones-le}
use bit_magic.Gap.Count.Before.{gap_ones-one}
use bit_magic.Gap.Count.Range.{masked_part, masked_whole}
use bit_magic.Gap.Count.{rank_loop, gap_find_rank}
use bit_magic.Gap.Find.Laws.{gap_bfind-Finds}

-- The position that holds the set bit number `rank`, counted from `from`, or what is missing.
abbrev pub IsRank : Buffer → ℕ → ℕ → ℕ × Option ℕ → Type 0
IsRank buf rank from (left, some pos) =
    (left ≡ 0)
    × (from ≤ pos)
    × (pos < gap_max_bits)
    × (gap_bit buf pos ≡ 1)
    × (gap_ones buf (suc pos) ≡ gap_ones buf from + rank)
IsRank buf rank from (left, none) =
    (0 < left) × (gap_ones buf gap_max_bits + left ≡ gap_ones buf from + rank)

-- Where a gap counts at all, its bits are set.
counting_gap :
    {buf : Buffer}
    → IsGap buf
    → (j x : ℕ) → 0 < bit_and x (mask32 ((buf 0 + j) % 2))
    → (buf 0 + j) % 2 ≡ 1
counting_gap {buf} g j x h = elim (Bool-cases ((buf 0 + j) % 2 == 0)) [
  | inl clear ↦
      absurd
        (omega (arith, bit_and-mask32_zero x ((buf 0 + j) % 2) (==→eq ((buf 0 + j) % 2) 0 clear)))
  | inr set ↦ omega (arith, ==→ne ((buf 0 + j) % 2) 0 set)
]

module _ (buf : Buffer) (rank from : ℕ) (g : IsGap buf) where
  -- A rank that the gap j reaches is found there, `more` set bits after its part from `a` on.
  in_this_gap :
      (j a more : ℕ)
      → j < last_word buf
      → gap_start buf j ≤ a
      → from ≤ a
      → 0 < more
      → a + more ≤ suc (buf (suc j))
      → (buf 0 + j) % 2 ≡ 1
      → gap_ones buf a + more ≡ gap_ones buf from + rank
      → IsRank buf rank from (0, some (a + more - 1))
  in_this_gap j a more inside p q pos_more fits v e =
      let last : suc (a + more - 1) ≡ a + more = omega arith in
      (
        refl,
        omega arith,
        omega (arith, border_top g j inside),
        omega (arith, gap_bit-InGap g j (a + more - 1) inside (omega arith, omega arith)),
        rw last (
            omega (arith, gap_ones-one g j a (a + more) inside p (omega arith) fits (omega arith))),
      )

  rank_loop-IsRank :
      (fuel i more : ℕ)
      → suc i ≤ last_word buf
      → last_word buf ≤ i + fuel
      → from ≤ buf (suc i)
      → 0 < more
      → more < 2 ^ 32
      → gap_ones buf (suc (buf (suc i))) + more ≡ gap_ones buf from + rank
      → IsRank buf rank from (
          rank_loop fuel buf
            (last_word buf)
            more
            (suc (suc i))
            (buf (suc i))
            (mask32 ((buf 0 + suc i) % 2)))
  unfolding rank_loop
  rank_loop-IsRank zero i more top enough p pos_more small e = absurd (omega arith)
  rank_loop-IsRank (suc fuel) i more top enough p pos_more small e =
      let next : suc (suc i) + 1 ≡ suc (suc (suc i)) = omega arith in
      let flipped = not32-mask32 (buf 0 + suc i) (buf 0 + suc (suc i)) (omega arith) in
      rw (next, flipped)
        (elim (Bool-cases (leb (suc (suc i)) (last_word buf))) [
          | inl inside ↦
              let h = leb→le (suc (suc i)) (last_word buf) inside in
              let part =
                masked_part g (suc i) (buf (suc i)) (buf (suc (suc i))) h (omega arith)
                  (omega (arith, g.rising i h)) (omega arith) in
              let bound = gap_ones-le buf (suc (buf (suc (suc i)))) in
              let top_border = border_top g (suc i) h in
              rw inside
                (elim (Bool-cases (
                  leb more (
                    bit_and (sub32 (buf (suc (suc i))) (buf (suc i)))
                      (mask32 ((buf 0 + suc i) % 2))))) [
                        | inl reached ↦
                            let r =
                              leb→le more
                                (bit_and (sub32 (buf (suc (suc i))) (buf (suc i)))
                                  (mask32 ((buf 0 + suc i) % 2)))
                                reached in
                            let v =
                              counting_gap g (suc i) (sub32 (buf (suc (suc i))) (buf (suc i)))
                                (omega arith) in
                            let longest =
                              gap_ones-one g (suc i) (suc (buf (suc i))) (suc (buf (suc (suc i)))) h
                                (omega arith) (omega (arith, g.rising i h)) (omega arith)
                                (omega arith) in
                            let found : add32 (buf (suc i)) more ≡ suc (buf (suc i)) + more - 1 =
                              omega arith in
                            rw (reached, found)
                              (in_this_gap (suc i) (suc (buf (suc i))) more h (omega arith)
                                (omega arith) pos_more (omega arith) v e)
                        | inr short ↦
                            let r =
                              leb→lt more
                                (bit_and (sub32 (buf (suc (suc i))) (buf (suc i)))
                                  (mask32 ((buf 0 + suc i) % 2)))
                                short in
                            rw short (
                              rank_loop-IsRank fuel (suc i) _ h (omega arith)
                                (omega (arith, g.rising i h)) (omega arith) (omega arith)
                                (omega arith))
                      ])
          | inr over ↦
              let last =
                border_last g i (omega (arith, leb→lt (suc (suc i)) (last_word buf) over)) in
              let whole : gap_max_bits ≡ suc (buf (suc i)) = omega arith in
              rw over (pos_more, rw whole e)
        ])

-- For a rank between 1 and 2^32 - 1 and a start inside a well-formed block, the search finds the
-- set bit of that rank counted from nbit_from on; where the block has too few set bits, it
-- returns how many are missing.
pub gap_find_rank-IsRank :
    (block : Buffer) (rank nbit_from : ℕ)
    → IsGap block
    → 0 < rank
    → rank < 2 ^ 32
    → nbit_from < gap_max_bits
    → IsRank block rank nbit_from (gap_find_rank block rank nbit_from)
unfolding gap_find_rank
gap_find_rank-IsRank buf rank from g pos_rank small hf =
    let ((j, at, inside, here), v) = gap_bfind-Finds buf from g hf in
    let value : gap_bit buf from ≡ (buf 0 + j) % 2 =
      omega (arith, gap_bit-InGap g j from inside here) in
    let next : suc j + 1 ≡ suc (suc j) = omega arith in
    let flipped = not32-mask32 (buf 0 + j) (buf 0 + suc j) (omega arith) in
    let part = masked_whole g j from (buf (suc j)) inside here.0 here.1 (omega arith) in
    let bound = gap_ones-le buf (suc (buf (suc j))) in
    let top_border = border_top g j inside in
    let no_carry : add32 0 (bit_and (add32 (sub32 (buf (suc j)) from) 1) (mask32 ((buf 0 + j) % 2)))
        ≡ bit_and (add32 (sub32 (buf (suc j)) from) 1) (mask32 ((buf 0 + j) % 2)) =
      omega arith in
    rw (at, v, value, next, flipped, no_carry)
      (elim (Bool-cases
        (leb rank (bit_and (add32 (sub32 (buf (suc j)) from) 1) (mask32 ((buf 0 + j) % 2))))) [
          | inl reached ↦
              let r =
                leb→le rank
                  (bit_and (add32 (sub32 (buf (suc j)) from) 1) (mask32 ((buf 0 + j) % 2)))
                  reached in
              let w = counting_gap g j (add32 (sub32 (buf (suc j)) from) 1) (omega arith) in
              let longest =
                gap_ones-one g j from (suc (buf (suc j))) inside here.0 (omega arith) (omega arith)
                  (omega arith) in
              let found : sub32 (add32 from rank) 1 ≡ from + rank - 1 = omega arith in
              rw (reached, found)
                (in_this_gap buf rank from g j from rank inside here.0 (omega arith) pos_rank
                  (omega arith) w refl)
          | inr short ↦
              let r =
                leb→lt rank
                  (bit_and (add32 (sub32 (buf (suc j)) from) 1) (mask32 ((buf 0 + j) % 2))) short in
              rw short (
                rank_loop-IsRank buf rank from g (buf 0 / 8) j _ inside (omega arith) here.1
                  (omega arith) (omega arith) (omega arith))
        ])
