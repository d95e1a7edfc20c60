-- ===== src/Gap/Count/Range.antt =====
-- src/bmfunc.h: the population count of a closed range.
use bit_magic.Base.{
  ℕ, zero, suc, ◌+◌, ◌%◌, ◌≤◌, ◌<◌, ◌≡◌, inl, inr, false, Buffer, ◌==◌, leb, ltb, Bool-cases,
  leb→le, leb→lt, ltb→lt, ltb→le, ==→eq, ==→ne, arith, add32, sub32, bit_and, mask32, not32-mask32,
  bit_and-mask32_zero, bit_and-mask32_one,
}
use bit_magic.Gap.Layout.{gap_max_bits, last_word, gap_bit, IsGap, gap_start, gap_ones}
use bit_magic.Gap.Order.{gap_bit-InGap, border_next, border_top, gap_ones-le}
use bit_magic.Gap.Count.Before.{gap_ones-one, gap_ones-zero}
use bit_magic.Gap.Count.{range_loop, gap_bit_count_range}
use bit_magic.Gap.Find.Laws.{gap_bfind-Finds}

-- The masked difference counts the set bits between two positions of one gap.
pub masked_part :
    {buf : Buffer}
    → IsGap buf
    → (j a b : ℕ) → j < last_word buf
    → gap_start buf j ≤ suc a
    → a ≤ b
    → b ≤ buf (suc j)
    → bit_and (sub32 b a) (mask32 ((buf 0 + j) % 2)) + gap_ones buf (suc a) ≡ gap_ones buf (suc b)
masked_part {buf} g j a b inside p le q = elim (Bool-cases ((buf 0 + j) % 2 == 0)) [
  | inl clear ↦
      let v = ==→eq ((buf 0 + j) % 2) 0 clear in
      omega (
        arith,
        bit_and-mask32_zero (sub32 b a) ((buf 0 + j) % 2) v,
        gap_ones-zero g j (suc a) (suc b) inside p (omega arith) (omega arith) (omega arith),
      )
  | inr set ↦
      let v : (buf 0 + j) % 2 ≡ 1 = omega (arith, ==→ne ((buf 0 + j) % 2) 0 set) in
      omega (
        arith,
        border_top g j inside,
        bit_and-mask32_one (sub32 b a) ((buf 0 + j) % 2) v (omega arith),
        gap_ones-one g j (suc a) (suc b) inside p (omega arith) (omega arith) (omega arith),
      )
]

-- The same with both ends counted.
pub masked_whole :
    {buf : Buffer}
    → IsGap buf
    → (j a b : ℕ) → j < last_word buf
    → gap_start buf j ≤ a
    → a ≤ b
    → b ≤ buf (suc j)
    → bit_and (add32 (sub32 b a) 1) (mask32 ((buf 0 + j) % 2)) + gap_ones buf a
      ≡ gap_ones buf (suc b)
masked_whole {buf} g j a b inside p le q = elim (Bool-cases ((buf 0 + j) % 2 == 0)) [
  | inl clear ↦
      let v = ==→eq ((buf 0 + j) % 2) 0 clear in
      omega (
        arith,
        bit_and-mask32_zero (add32 (sub32 b a) 1) ((buf 0 + j) % 2) v,
        gap_ones-zero g j a (suc b) inside p (omega arith) (omega arith) (omega arith),
      )
  | inr set ↦
      let v : (buf 0 + j) % 2 ≡ 1 = omega (arith, ==→ne ((buf 0 + j) % 2) 0 set) in
      omega (
        arith,
        border_top g j inside,
        bit_and-mask32_one (add32 (sub32 b a) 1) ((buf 0 + j) % 2) v (omega arith),
        gap_ones-one g j a (suc b) inside p (omega arith) (omega arith) (omega arith),
      )
]

-- A counter that holds the set bits of [left, a] holds those of [left, b] after the addition.
pub add_masked_part :
    {buf : Buffer}
    → IsGap buf
    → (j a b left counter : ℕ) → j < last_word buf
    → gap_start buf j ≤ suc a
    → a ≤ b
    → b ≤ buf (suc j)
    → counter + gap_ones buf left ≡ gap_ones buf (suc a)
    → add32 counter (bit_and (sub32 b a) (mask32 ((buf 0 + j) % 2))) + gap_ones buf left
      ≡ gap_ones buf (suc b)
add_masked_part {buf} g j a b left counter inside p le q e =
    omega (arith, masked_part g j a b inside p le q, border_top g j inside, gap_ones-le buf (suc b))

range_loop_lem :
    (fuel : ℕ) (buf : Buffer) (left right i counter : ℕ)
    → IsGap buf
    → right < gap_max_bits
    → suc i < last_word buf
    → last_word buf ≤ suc i + fuel
    → suc (buf (suc i)) ≤ right
    → counter + gap_ones buf left ≡ gap_ones buf (suc (buf (suc i)))
    → range_loop fuel buf right
          (last_word buf)
          (suc (suc i))
          (buf (suc i))
          (mask32 ((buf 0 + suc i) % 2))
          counter
        + gap_ones buf left
      ≡ gap_ones buf (suc right)
unfolding range_loop
range_loop_lem zero buf left right i counter g hr inside enough past e = absurd (omega arith)
range_loop_lem (suc fuel) buf left right i counter g hr inside enough past e =
    let next : suc (suc i) + 1 ≡ suc (suc (suc i)) = omega arith in
    let flipped = not32-mask32 (buf 0 + suc i) (buf 0 + suc (suc i)) (omega arith) in
    rw (next, flipped)
      (elim (Bool-cases (ltb (buf (suc (suc i))) right)) [
        | inl more ↦
            let h = border_next g (suc i) right inside (ltb→lt (buf (suc (suc i))) right more) hr in
            rw (more, not_last h)
              (range_loop_lem fuel buf left right (suc i) _ g hr h (omega arith)
                (ltb→lt (buf (suc (suc i))) right more)
                (add_masked_part g (suc i) (buf (suc i)) (buf (suc (suc i))) left counter inside
                  (omega arith) (omega (arith, g.rising i inside)) (omega arith) e))
        | inr over ↦ rw over (
            add_masked_part g (suc i) (buf (suc i)) right left counter inside (omega arith)
              (omega arith) (ltb→le (buf (suc (suc i))) right over) e)
      ])
  where
    not_last : suc (suc i) < last_word buf → (suc (suc i) == last_word buf) ≡ false
    not_last h = ground arith

-- For left ≤ right inside a well-formed block, the count of [left, right] and the number of set
-- bits before left make up the number of set bits up to right.
pub gap_bit_count_range_lem :
    (buf : Buffer) (left right : ℕ)
    → IsGap buf
    → left ≤ right
    → right < gap_max_bits
    → gap_bit_count_range buf left right + gap_ones buf left ≡ gap_ones buf (suc right)
unfolding gap_bit_count_range
gap_bit_count_range_lem buf left right g le hr =
    let ((j, at, inside, here), v) = gap_bfind-Finds buf left g (omega arith) in
    let value : gap_bit buf left ≡ (buf 0 + j) % 2 =
      omega (arith, gap_bit-InGap g j left inside here) in
    let next : suc j + 1 ≡ suc (suc j) = omega arith in
    let flipped = not32-mask32 (buf 0 + j) (buf 0 + suc j) (omega arith) in
    rw (at, v, value, next, flipped)
      (elim (Bool-cases (leb right (buf (suc j)))) [
        | inl within ↦
            rw within
              (masked_whole g j left right inside here.0 le (leb→le right (buf (suc j)) within))
        | inr beyond ↦
            let h = leb→lt right (buf (suc j)) beyond in
            let whole = masked_whole g j left (buf (suc j)) inside here.0 here.1 (omega arith) in
            rw beyond (
              range_loop_lem (last_word buf) buf left right j _ g hr
                (border_next g j right inside h hr) (omega arith) h
                (omega (arith, whole, gap_ones-le buf (suc (buf (suc j))), border_top g j inside)))
      ])
