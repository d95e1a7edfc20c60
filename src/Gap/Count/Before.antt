-- ===== src/Gap/Count/Before.antt =====
-- The number of set bits before a gap, which the counting loops keep track of.
use bit_magic.Base.{
  ℕ, suc, ◌+◌, ◌-◌, ◌%◌, ◌≤◌, ◌<◌, ◌≡◌, ◌∙◌, inl, inr, refl, Buffer, ltb, Bool-cases, ltb→lt,
  ltb→le, arith, if◌then◌else◌,
}
use bit_magic.Gap.Layout.{gap_max_bits, last_word, first_bit, IsGap, gap_start, gap_ones}
use bit_magic.Gap.Order.{
  gap_bit-InGap, border_top, border_last, gap_ones_run, gap_ones-le, gap_start-le,
}

-- A part of a gap adds its length to the count, or nothing.
pub gap_ones-one :
    {buf : Buffer}
    → IsGap buf
    → (j from to : ℕ) → j < last_word buf
    → gap_start buf j ≤ from
    → from ≤ to
    → to ≤ suc (buf (suc j))
    → (first_bit buf + j) % 2 ≡ 1
    → gap_ones buf to + from ≡ gap_ones buf from + to
gap_ones-one {buf} g j from to h p le q v = omega (
  arith,
  gap_ones_run buf (to - from) from 1 to (omega arith)
      (λ pos a b. gap_bit-InGap g j pos h (omega arith, omega arith) ∙ v),
)

pub gap_ones-zero :
    {buf : Buffer}
    → IsGap buf
    → (j from to : ℕ) → j < last_word buf
    → gap_start buf j ≤ from
    → from ≤ to
    → to ≤ suc (buf (suc j))
    → (first_bit buf + j) % 2 ≡ 0
    → gap_ones buf to ≡ gap_ones buf from
gap_ones-zero {buf} g j from to h p le q v = omega (
  arith,
  gap_ones_run buf (to - from) from 0 to (omega arith)
      (λ pos a b. gap_bit-InGap g j pos h (omega arith, omega arith) ∙ v),
)

pub ones_zero : (buf : Buffer) → gap_ones buf 0 ≡ 0
unfolding gap_ones
ones_zero buf = refl

-- How many bits are set before the gap j, all of them past the last gap.
pub ones_before : Buffer → ℕ → ℕ
ones_before buf j = gap_ones buf (if ltb j (last_word buf) then gap_start buf j else gap_max_bits)

pub ones_before_past :
    (buf : Buffer) (j : ℕ) → last_word buf ≤ j → ones_before buf j ≡ gap_ones buf gap_max_bits
unfolding ones_before
ones_before_past buf j h = ground arith

pub ones_before_in :
    (buf : Buffer) (j : ℕ) → j < last_word buf → ones_before buf j ≡ gap_ones buf (gap_start buf j)
unfolding ones_before
ones_before_in buf j h = ground arith

pub ones_before-suc :
    {buf : Buffer}
    → IsGap buf
    → (j : ℕ) → j < last_word buf
    → ones_before buf (suc j) ≡ gap_ones buf (suc (buf (suc j)))
unfolding ones_before
ones_before-suc g j h = ground (arith, border_last g j)

pub ones_before_one :
    {buf : Buffer}
    → IsGap buf
    → (j : ℕ) → j < last_word buf
    → (first_bit buf + j) % 2 ≡ 1
    → ones_before buf (suc j) + gap_start buf j ≡ ones_before buf j + suc (buf (suc j))
ones_before_one {buf} g j h v = omega (
  arith,
  ones_before-suc g j h,
  ones_before_in buf j h,
  gap_ones-one g j (gap_start buf j) (suc (buf (suc j))) h (omega arith)
      (omega (arith, gap_start-le buf (last_word buf) g.rising j h)) (omega arith) v,
)

pub ones_before_zero :
    {buf : Buffer}
    → IsGap buf
    → (j : ℕ) → (first_bit buf + j) % 2 ≡ 0
    → ones_before buf (suc j) ≡ ones_before buf j
ones_before_zero {buf} g j v = elim (Bool-cases (ltb j (last_word buf))) [
  | inl inside ↦
      let h = ltb→lt j (last_word buf) inside in
      omega (
        arith,
        ones_before-suc g j h,
        ones_before_in buf j h,
        gap_ones-zero g j (gap_start buf j) (suc (buf (suc j))) h (omega arith)
            (omega (arith, gap_start-le buf (last_word buf) g.rising j h)) (omega arith) v,
      )
  | inr past ↦
      let h = ltb→le j (last_word buf) past in
      omega (arith, ones_before_past buf j h, ones_before_past buf (suc j))
]

pub ones_before-le : {buf : Buffer} → IsGap buf → (j : ℕ) → ones_before buf j ≤ 65536
unfolding ones_before
ones_before-le {buf} g j = ground (
  arith,
  gap_ones-le buf gap_max_bits,
  gap_ones-le buf (gap_start buf j),
  gap_start-le buf (last_word buf) g.rising j,
  border_top g j,
)
