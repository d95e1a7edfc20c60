-- ===== src/Gap/Range/Neighbours.antt =====
-- src/bmfunc.h: the searches for the ends of an interval and for the neighbouring set bit.
use bit_magic.Base.{
  ℕ, zero, suc, ◌+◌, ◌-◌, ◌≤◌, ◌<◌, ◌≡◌, ◌⊎◌, inl, inr, refl, not, ◌==◌, ==→eq, ==→ne, suc_ne_zero,
  Bool-cases, if◌then◌else◌, true, false, Buffer, none, some, Option, Bool, arith,
}
use bit_magic.Gap.Layout.{gap_max_bits, last_word, gap_bit, IsGap, InGap}
use bit_magic.Gap.Order.{
  BitsAre, gap_bit-InGap, gap_bit-after, gap_bit-border, border_next, border_top, gap_bit-cases,
}
use bit_magic.Gap.Find.Laws.{gap_bfind-Finds}
use bit_magic.Gap.Range.{
  gap_find_interval_end, gap_find_interval_start, gap_find_prev, gap_block_find,
}

-- The last bit of the run of set bits that holds nbit.
abbrev pub IsIntervalEnd : Buffer → ℕ → Option ℕ → Type 0
IsIntervalEnd buf nbit none = gap_bit buf nbit ≡ 0
IsIntervalEnd buf nbit (some pos) =
    (nbit ≤ pos)
    × (pos < gap_max_bits)
    × BitsAre buf nbit (suc pos) 1
    × ((suc pos ≡ gap_max_bits) ⊎ (gap_bit buf (suc pos) ≡ 0))

-- The first bit of that run.
abbrev pub IsIntervalStart : Buffer → ℕ → Option ℕ → Type 0
IsIntervalStart buf nbit none = gap_bit buf nbit ≡ 0
IsIntervalStart buf nbit (some pos) =
    (pos ≤ nbit) × BitsAre buf pos (suc nbit) 1 × ((pos ≡ 0) ⊎ (gap_bit buf (pos - 1) ≡ 0))

-- The nearest set bit at or before nbit.
abbrev pub IsPrev : Buffer → ℕ → Option ℕ → Type 0
IsPrev buf nbit none = BitsAre buf 0 (suc nbit) 0
IsPrev buf nbit (some pos) =
    (pos ≤ nbit) × (gap_bit buf pos ≡ 1) × BitsAre buf (suc pos) (suc nbit) 0

-- The nearest set bit at or after nbit; with none the position is one past the block.
abbrev pub IsNext : Buffer → ℕ → Bool × ℕ → Type 0
IsNext buf nbit (false, pos) = (pos ≡ gap_max_bits) × BitsAre buf nbit gap_max_bits 0
IsNext buf nbit (true, pos) =
    (nbit ≤ pos) × (pos < gap_max_bits) × (gap_bit buf pos ≡ 1) × BitsAre buf nbit pos 0

module _ (buf : Buffer) (nbit : ℕ) (g : IsGap buf) (hp : nbit < gap_max_bits) where
  interval_end :
      (j : ℕ)
      → j < last_word buf
      → InGap buf j nbit
      → gap_bit buf nbit ≡ 1
      → IsIntervalEnd buf nbit (some (buf (suc j)))
  interval_end j inside here set = (
    here.1,
    omega (arith, border_top g j inside),
    (λ pos p q. ground (arith, gap_bit-InGap g j nbit, gap_bit-InGap g j pos)),
    ground
        (arith, gap_bit-after g j, border_next g j 65535, border_top g j, gap_bit-InGap g j nbit),
  )

  interval_start :
      (j : ℕ)
      → j < last_word buf
      → InGap buf j nbit
      → gap_bit buf nbit ≡ 1
      → IsIntervalStart buf nbit (if j == 0 then some 0 else some (buf j + 1))
  interval_start zero inside here set = (
    here.0,
    (λ pos p q. ground (arith, gap_bit-InGap g zero nbit, gap_bit-InGap g zero pos)),
    inl refl,
  )
  interval_start (suc j) inside here set =
      let before : buf (suc j) + 1 - 1 ≡ buf (suc j) = omega arith in
      rw (suc_ne_zero j) (
        omega arith,
        (λ pos p q. ground (arith, gap_bit-InGap g (suc j) nbit, gap_bit-InGap g (suc j) pos)),
        inr (rw before (ground (arith, gap_bit-InGap g (suc j) nbit, gap_bit-border g j))),
      )

  IsPrev-clear :
      (j : ℕ)
      → j < last_word buf
      → InGap buf j nbit
      → gap_bit buf nbit ≡ 0
      → IsPrev buf nbit (if j == 0 then none else some (buf j))
  IsPrev-clear zero inside here clear =
      λ pos p q. ground (arith, gap_bit-InGap g zero nbit, gap_bit-InGap g zero pos)
  IsPrev-clear (suc j) inside here clear = rw (suc_ne_zero j) (
    omega arith,
    ground (arith, gap_bit-InGap g (suc j) nbit, gap_bit-border g j),
    (λ pos p q. ground (arith, gap_bit-InGap g (suc j) nbit, gap_bit-InGap g (suc j) pos)),
  )

  IsNext-clear :
      (j : ℕ)
      → j < last_word buf
      → InGap buf j nbit
      → gap_bit buf nbit ≡ 0
      → IsNext buf nbit (not (buf (suc j) + 1 == gap_max_bits), buf (suc j) + 1)
  IsNext-clear j inside here clear = elim (Bool-cases (buf (suc j) + 1 == gap_max_bits)) [
    | inl none_left ↦
        let e = ==→eq (buf (suc j) + 1) gap_max_bits none_left in
        rw none_left (e, λ pos p q. ground (arith, gap_bit-InGap g j nbit, gap_bit-InGap g j pos))
    | inr found ↦
        let ne = ==→ne (buf (suc j) + 1) gap_max_bits found in
        let top = border_top g j inside in
        let next = border_next g j 65535 inside (omega arith) (omega arith) in
        let same : buf (suc j) + 1 ≡ suc (buf (suc j)) = omega arith in
        rw (found, same)
          (
            omega arith,
            omega arith,
            ground (arith, gap_bit-InGap g j nbit, gap_bit-after g j),
            λ pos p q. ground (arith, gap_bit-InGap g j nbit, gap_bit-InGap g j pos),
          )
  ]

-- At a position inside a well-formed block, the search for the end of an interval answers nothing
-- at a clear bit, and else the last bit of the run of set bits.
pub gap_find_interval_end_lem :
    (buf : Buffer) (nbit : ℕ)
    → IsGap buf
    → nbit < gap_max_bits
    → IsIntervalEnd buf nbit (gap_find_interval_end buf nbit)
unfolding gap_find_interval_end
gap_find_interval_end_lem buf nbit g hp =
    let ((j, at, inside, here), v) = gap_bfind-Finds buf nbit g hp in
    rw (at, v)
      (elim (gap_bit-cases buf nbit) [
        | inl clear ↦ rw clear clear
        | inr set ↦ rw set (interval_end buf nbit g hp j inside here set)
      ])

-- At a position inside a well-formed block, the search for the start of an interval answers
-- nothing at a clear bit, and else the first bit of the run of set bits.
pub gap_find_interval_start_lem :
    (buf : Buffer) (nbit : ℕ)
    → IsGap buf
    → nbit < gap_max_bits
    → IsIntervalStart buf nbit (gap_find_interval_start buf nbit)
unfolding gap_find_interval_start
gap_find_interval_start_lem buf nbit g hp =
    let ((j, at, inside, here), v) = gap_bfind-Finds buf nbit g hp in
    let before : suc j - 1 ≡ j = omega arith in
    rw (at, v, before)
      (elim (gap_bit-cases buf nbit) [
        | inl clear ↦ rw clear clear
        | inr set ↦ rw set (interval_start buf nbit g hp j inside here set)
      ])

-- At a position inside a well-formed block, the backward search answers the nearest set bit at or
-- before it, and nothing when there is none.
pub gap_find_prev_lem :
    (buf : Buffer) (nbit : ℕ)
    → IsGap buf
    → nbit < gap_max_bits
    → IsPrev buf nbit (gap_find_prev buf nbit)
unfolding gap_find_prev
gap_find_prev_lem buf nbit g hp =
    let ((j, at, inside, here), v) = gap_bfind-Finds buf nbit g hp in
    let before : suc j - 1 ≡ j = omega arith in
    rw (at, v, before)
      (elim (gap_bit-cases buf nbit) [
        | inl clear ↦ rw clear (IsPrev-clear buf nbit g hp j inside here clear)
        | inr set ↦ rw set (omega arith, set, λ pos p q. absurd (omega arith))
      ])

-- At a position inside a well-formed block, the forward search answers the nearest set bit at or
-- after it, and the position past the block when there is none.
pub gap_block_find_lem :
    (buf : Buffer) (nbit : ℕ)
    → IsGap buf
    → nbit < gap_max_bits
    → IsNext buf nbit (gap_block_find buf nbit)
unfolding gap_block_find
gap_block_find_lem buf nbit g hp =
    let ((j, at, inside, here), v) = gap_bfind-Finds buf nbit g hp in
    rw (at, v)
      (elim (gap_bit-cases buf nbit) [
        | inl clear ↦ rw clear (IsNext-clear buf nbit g hp j inside here clear)
        | inr set ↦ rw set (omega arith, hp, set, λ pos p q. absurd (omega arith))
      ])
