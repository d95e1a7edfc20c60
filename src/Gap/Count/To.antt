-- ===== src/Gap/Count/To.antt =====
-- src/bmfunc.h: the population count of the bits up to a position.
use bit_magic.Base.{
  ℕ, zero, suc, ◌+◌, ◌%◌, ◌≤◌, ◌<◌, ◌≡◌, ◌⊎◌, ap, inl, inr, true, false, Bool, Buffer, ◌==◌, leb,
  ltb, Bool-cases, leb→le, leb→lt, ltb→lt, ltb→le, ==→eq, ==→ne, arith, if◌then◌else◌, add32, sub32,
  bit_and, mask32, not32-mask32, bit_and-mask32_zero, bit_and-mask32_one,
}
use bit_magic.Gap.Layout.{gap_max_bits, last_word, gap_bit, IsGap, InGap, gap_ones}
use bit_magic.Gap.Order.{gap_bit-InGap, border_next, border_top, gap_ones-le}
use bit_magic.Gap.Count.Before.{ones_zero}
use bit_magic.Gap.Count.{count_to_loop, gap_bit_count_to}
use bit_magic.Gap.Count.Range.{masked_whole, add_masked_part}

-- What the rank correction takes off: the bit at the position itself.
unfoldable pub correction : Buffer → ℕ → Bool → ℕ
correction buf right is_corrected = if is_corrected then gap_bit buf right else 0

masked_correction :
    {buf : Buffer}
    → IsGap buf
    → (j right : ℕ) (is_corrected : Bool) → j < last_word buf
    → InGap buf j right
    → bit_and (if is_corrected then 1 else 0) (mask32 ((buf 0 + j) % 2))
      ≡ correction buf right is_corrected
unfolding correction
masked_correction {buf} g j right false inside here =
    masked_zero (Bool-cases ((buf 0 + j) % 2 == 0))
  where
    masked_zero :
        (((buf 0 + j) % 2 == 0) ≡ true) ⊎ (((buf 0 + j) % 2 == 0) ≡ false)
        → bit_and 0 (mask32 ((buf 0 + j) % 2)) ≡ 0
    masked_zero (inl clear) =
        bit_and-mask32_zero 0 ((buf 0 + j) % 2) (==→eq ((buf 0 + j) % 2) 0 clear)
    masked_zero (inr set) =
        bit_and-mask32_one 0 ((buf 0 + j) % 2) (omega (arith, ==→ne ((buf 0 + j) % 2) 0 set))
          (omega arith)
masked_correction {buf} g j right true inside here = masked_bit (Bool-cases ((buf 0 + j) % 2 == 0))
  where
    masked_bit :
        (((buf 0 + j) % 2 == 0) ≡ true) ⊎ (((buf 0 + j) % 2 == 0) ≡ false)
        → bit_and 1 (mask32 ((buf 0 + j) % 2)) ≡ gap_bit buf right
    masked_bit (inl clear) =
        let v = ==→eq ((buf 0 + j) % 2) 0 clear in
        omega
          (arith, gap_bit-InGap g j right inside here, bit_and-mask32_zero 1 ((buf 0 + j) % 2) v)
    masked_bit (inr set) =
        let v : (buf 0 + j) % 2 ≡ 1 = omega (arith, ==→ne ((buf 0 + j) % 2) 0 set) in
        omega (
          arith,
          gap_bit-InGap g j right inside here,
          bit_and-mask32_one 1 ((buf 0 + j) % 2) v (omega arith),
        )

correction-le :
    (buf : Buffer) (right : ℕ) (c : Bool) → correction buf right c ≤ gap_ones buf (suc right)
unfolding correction gap_ones
correction-le buf right false = omega arith
correction-le buf right true = omega arith

-- The last line of both returns.
corrected_part :
    {buf : Buffer}
    → IsGap buf
    → (j right counter : ℕ) (c : Bool) → j < last_word buf
    → InGap buf j right
    → counter ≡ gap_ones buf (suc right)
    → sub32 counter (bit_and (if c then 1 else 0) (mask32 ((buf 0 + j) % 2)))
        + correction buf right c
      ≡ gap_ones buf (suc right)
corrected_part {buf} g j right counter c inside here e = omega (
  arith,
  masked_correction g j right c inside here,
  correction-le buf right c,
  gap_ones-le buf (suc right),
  border_top g j inside,
)

count_to_loop_lem :
    (fuel : ℕ) (buf : Buffer) (right : ℕ) (c : Bool) (i counter : ℕ)
    → IsGap buf
    → right < gap_max_bits
    → suc i < last_word buf
    → last_word buf ≤ suc i + fuel
    → suc (buf (suc i)) ≤ right
    → counter ≡ gap_ones buf (suc (buf (suc i)))
    → count_to_loop fuel buf right
          (last_word buf)
          (if c then 1 else 0)
          (suc (suc i))
          (buf (suc i))
          (mask32 ((buf 0 + suc i) % 2))
          counter
        + correction buf right c
      ≡ gap_ones buf (suc right)
unfolding count_to_loop
count_to_loop_lem zero buf right c i counter g hr inside enough past e = absurd (omega arith)
count_to_loop_lem (suc fuel) buf right c i counter g hr inside enough past e =
    let next : suc (suc i) + 1 ≡ suc (suc (suc i)) = omega arith in
    let flipped = not32-mask32 (buf 0 + suc i) (buf 0 + suc (suc i)) (omega arith) in
    let before : counter + gap_ones buf 0 ≡ gap_ones buf (suc (buf (suc i))) =
      omega (arith, ones_zero buf) in
    rw (next, flipped)
      (elim (Bool-cases (ltb (buf (suc (suc i))) right)) [
        | inl more ↦
            let h = border_next g (suc i) right inside (ltb→lt (buf (suc (suc i))) right more) hr in
            rw (more, not_last h)
              (count_to_loop_lem fuel buf right c (suc i) _ g hr h (omega arith)
                (ltb→lt (buf (suc (suc i))) right more)
                (omega (
                  arith,
                  ones_zero buf,
                  add_masked_part g (suc i) (buf (suc i)) (buf (suc (suc i))) 0 counter inside
                      (omega arith) (omega (arith, g.rising i inside)) (omega arith) before,
                )))
        | inr over ↦
            let h = ltb→le (buf (suc (suc i))) right over in
            rw over (
              corrected_part g (suc i) right _ c inside (past, h)
                (omega (
                  arith,
                  ones_zero buf,
                  add_masked_part g (suc i) (buf (suc i)) right 0 counter inside (omega arith)
                      (omega arith) h before,
                )))
      ])
  where
    not_last : suc (suc i) < last_word buf → (suc (suc i) == last_word buf) ≡ false
    not_last h = ground arith

-- For right inside a well-formed block, the count of the bits up to right is the number of those
-- that are set, less the bit at right itself when the rank correction is asked for.
pub gap_bit_count_to_lem :
    (buf : Buffer) (right : ℕ) (is_corrected : Bool)
    → IsGap buf
    → right < gap_max_bits
    → gap_bit_count_to buf right is_corrected + correction buf right is_corrected
      ≡ gap_ones buf (suc right)
unfolding gap_bit_count_to
gap_bit_count_to_lem buf right c g hr =
    let first : buf 0 % 2 ≡ (buf 0 + 0) % 2 = omega arith in
    let flipped = not32-mask32 (buf 0 + 0) (buf 0 + 1) (omega arith) in
    rw (first, flipped)
      (elim (Bool-cases (leb right (buf 1))) [
        | inl within ↦
            let h = leb→le right (buf 1) within in
            rw within (
              corrected_part g 0 right _ c g.nonempty (omega arith, h)
                (omega (arith, first_gap right h)))
        | inr beyond ↦
            let h = leb→lt right (buf 1) beyond in
            rw beyond (
              count_to_loop_lem (last_word buf) buf right c 0 _ g hr
                (border_next g 0 right g.nonempty h hr) (omega arith) h
                (omega (
                  arith,
                  first_gap (buf 1) (omega arith),
                  gap_ones-le buf (suc (buf 1)),
                  border_top g 0 g.nonempty,
                )))
      ])
  where
    first_gap :
        (to : ℕ)
        → to ≤ buf 1
        → bit_and (add32 to 1) (mask32 ((buf 0 + 0) % 2)) ≡ gap_ones buf (suc to)
    first_gap to h =
        let plain : add32 (sub32 to 0) 1 ≡ add32 to 1 = omega (arith, border_top g 0 g.nonempty) in
        let counted = masked_whole g 0 0 to g.nonempty (omega arith) (omega arith) h in
        omega (arith, ones_zero buf, ap (λ t. bit_and t (mask32 ((buf 0 + 0) % 2))) plain, counted)
