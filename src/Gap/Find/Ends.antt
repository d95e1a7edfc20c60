-- ===== src/Gap/Find/Ends.antt =====
-- src/bmfunc.h: the first and the last set bit of a GAP block, and the tests for an empty and a
-- full block.
use bit_magic.Base.{
  ℕ, zero, suc, ◌+◌, ◌-◌, ◌/◌, ◌%◌, ◌≤◌, ◌<◌, ◌≡◌, ◌≢◌, ◌⊎◌, ◌↔◌, inl, inr, refl, Option, none,
  some, true, Buffer, ◌==◌, if◌then◌else◌, arith, Bool-cases, ==→eq, ==→ne, xor1, u16,
}
use bit_magic.Gap.Layout.{gap_max_bits, last_word, first_bit, gap_bit, IsGap, gap_start}
use bit_magic.Gap.Order.{
  BitsAre, gap_bit-InGap, gap_bit-after, gap_bit-border, border_next, border_last, border_top,
  border_inner,
}
use bit_magic.Gap.Find.{gap_find_first, gap_find_last, gap_is_all_zero, gap_is_all_one}

-- 0 and no bit set, or 1 and the first set bit.
abbrev pub IsFirst : Buffer → ℕ × Option ℕ → Type 0
IsFirst buf (found, none) = (found ≡ 0) × BitsAre buf 0 gap_max_bits 0
IsFirst buf (found, some first) =
    (found ≡ 1) × (first < gap_max_bits) × (gap_bit buf first ≡ 1) × BitsAre buf 0 first 0

-- 0 and no bit set, or another number and the last set bit.
abbrev pub IsLast : Buffer → ℕ × ℕ → Type 0
IsLast buf (found, last) =
    (found ≡ 0) × BitsAre buf 0 gap_max_bits 0
    ⊎ (found ≢ 0)
      × (last < gap_max_bits)
      × (gap_bit buf last ≡ 1)
      × BitsAre buf (suc last) gap_max_bits 0

module _ (buf : Buffer) (g : IsGap buf) where
  -- All bits up to the first border are those of the header.
  front : (pos : ℕ) → pos ≤ buf 1 → gap_bit buf pos ≡ first_bit buf
  front pos h = omega (arith, gap_bit-InGap g 0 pos g.nonempty (omega arith, h))

  -- In a well-formed block the first set bit is found, or it is known that there is none.
  pub gap_find_first-IsFirst : IsFirst buf (gap_find_first buf)
  unfolding gap_find_first
  gap_find_first-IsFirst = elim (Bool-cases (buf 0 % 2 == 1)) [
    | inl set ↦
        let e = ==→eq (buf 0 % 2) 1 set in
        rw set
          (refl, omega arith, omega (arith, front 0 (omega arith)), λ pos p q. absurd (omega arith))
    | inr clear ↦
        let ne = ==→ne (buf 0 % 2) 1 clear in
        rw clear (elim (Bool-cases (buf 1 == gap_max_bits - 1)) [
          | inl whole ↦
              let e = ==→eq (buf 1) (gap_max_bits - 1) whole in
              rw whole (refl, λ pos p q. omega (arith, front pos (omega arith)))
          | inr part ↦
              let n = ==→ne (buf 1) (gap_max_bits - 1) part in
              let top = border_top g 0 g.nonempty in
              let inside = border_next g 0 65535 g.nonempty (omega arith) (omega arith) in
              let next : buf 1 + 1 ≡ suc (buf 1) = omega arith in
              rw (part, next)
                (
                  refl,
                  omega arith,
                  omega (arith, gap_bit-after g 0 inside),
                  λ pos p q. omega (arith, front pos (omega arith)),
                )
        ])
  ]

  -- The bits of the last gap.
  back :
      (j pos : ℕ)
      → suc j ≡ last_word buf
      → gap_start buf j ≤ pos
      → pos < gap_max_bits
      → gap_bit buf pos ≡ (first_bit buf + j) % 2
  back j pos last p q = gap_bit-InGap g j pos (omega arith) (p, omega (arith, border_last g j last))

  find-IsLast_in :
      (j : ℕ)
      → suc j ≡ last_word buf
      → IsLast buf (
          if xor1 (buf 0 % 2) (j % 2) == 0
          then (j, buf j)
          else (xor1 (buf 0 % 2) (j % 2), buf (suc j)))
  find-IsLast_in j last = elim (Bool-cases (xor1 (buf 0 % 2) (j % 2) == 0)) [
    | inr set ↦
        let ne = ==→ne (xor1 (buf 0 % 2) (j % 2)) 0 set in
        let end = border_last g j last in
        rw set (
          inr (
            ne,
            omega arith,
            omega (arith, gap_bit-border g j (omega arith)),
            λ pos p q. absurd (omega arith),
          ))
    | inl clear ↦ let e = ==→eq (xor1 (buf 0 % 2) (j % 2)) 0 clear in rw clear (before j last e)
  ]
    where
      before :
          (j : ℕ) → suc j ≡ last_word buf → xor1 (buf 0 % 2) (j % 2) ≡ 0 → IsLast buf (j, buf j)
      before zero last e = inl (refl, λ pos p q. omega (arith, back zero pos last))
      before (suc j) last e = inr (
        omega arith,
        omega (arith, border_inner g j (omega arith)),
        omega (arith, gap_bit-border g j (omega arith)),
        λ pos p q. omega (arith, back (suc j) pos last),
      )

  -- In a well-formed block the last set bit is found, or it is known that there is none.
  pub gap_find_last-IsLast : IsLast buf (gap_find_last buf)
  unfolding gap_find_last
  gap_find_last-IsLast =
      let small : u16 (buf 0 / 8 - 1) ≡ buf 0 / 8 - 1 = omega (arith, g.header) in
      let end : buf 0 / 8 ≡ suc (buf 0 / 8 - 1) = omega (arith, g.nonempty) in
      let there = find-IsLast_in (buf 0 / 8 - 1) (omega (arith, g.nonempty)) in
      rw small (rw (← end) at there)

  -- The test for an empty block.
  pub gap_is_all_zero_iff : (gap_is_all_zero buf ≡ true) ↔ BitsAre buf 0 gap_max_bits 0
  unfolding gap_is_all_zero
  gap_is_all_zero_iff = (
    (λ h pos p q. ground (arith, front pos, border_top g 0 g.nonempty)),
    (λ all. ground (
      arith,
      all 0,
      all (suc (buf 1)),
      front 0,
      gap_bit-after g 0,
      border_next g 0 65535,
      border_top g 0 g.nonempty,
      g.nonempty,
    )),
  )

  -- The test for a full block.
  pub gap_is_all_one_iff : (gap_is_all_one buf ≡ true) ↔ BitsAre buf 0 gap_max_bits 1
  unfolding gap_is_all_one
  gap_is_all_one_iff = (
    (λ h pos p q. ground (arith, front pos, border_top g 0 g.nonempty)),
    (λ all. ground (
      arith,
      all 0,
      all (suc (buf 1)),
      front 0,
      gap_bit-after g 0,
      border_next g 0 65535,
      border_top g 0 g.nonempty,
      g.nonempty,
    )),
  )

-- For a well-formed block, the tests for an empty and a full block answer true exactly when all
-- 65536 bits are 0, and all are 1.
pub gap_is_all_iff :
    (buf : Buffer)
    → IsGap buf
    → ((gap_is_all_zero buf ≡ true) ↔ BitsAre buf 0 gap_max_bits 0)
      × ((gap_is_all_one buf ≡ true) ↔ BitsAre buf 0 gap_max_bits 1)
gap_is_all_iff buf g = (gap_is_all_zero_iff buf g, gap_is_all_one_iff buf g)
