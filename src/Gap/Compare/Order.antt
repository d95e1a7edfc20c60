-- ===== src/Gap/Compare/Order.antt =====
-- src/bmfunc.h: the comparison of two GAP blocks orders them by the first bit in which they differ.
use bit_magic.Base.{
  ℕ, zero, suc, ◌+◌, ◌%◌, ◌≤◌, ◌<◌, ◌≡◌, ◌≢◌, refl, sym, true, false, inl, inr, Buffer, ltb, leb,
  ◌==◌, if◌then◌else◌, arith, Bool-cases, ==→eq, ==→ne, ltb→lt, ltb→le, xor1,
}
use bit_magic.Gap.Layout.{first_bit, gap_max_bits, last_word, gap_bit, IsGap}
use bit_magic.Gap.Order.{gap_bit-InGap}
use bit_magic.Gap.Compare.{Compared, less, equal, greater, gapcmp_loop, gapcmp}
use bit_magic.Gap.Compare.Laws.{SameTo, EqualBelow, shorter_gap, same_end, equal_all}

-- `buf1` has 0 and `buf2` has 1 in the first bit in which they differ.
abbrev pub IsLess : Buffer → Buffer → Type 0
IsLess buf1 buf2 =
    (p : ℕ) × (p < gap_max_bits)
    × (gap_bit buf1 p ≡ 0)
    × (gap_bit buf2 p ≡ 1)
    × EqualBelow buf1 buf2 p

abbrev pub IsComparison : Buffer → Buffer → Compared → Type 0
IsComparison buf1 buf2 less = IsLess buf1 buf2
IsComparison buf1 buf2 equal = EqualBelow buf1 buf2 gap_max_bits
IsComparison buf1 buf2 greater = IsLess buf2 buf1

module _ {buf1 buf2 : Buffer} (g1 : IsGap buf1) (g2 : IsGap buf2) where
  -- The first bits differ.
  by_first :
      first_bit buf1 ≢ first_bit buf2
      → IsComparison buf1 buf2 (if first_bit buf1 == 0 then less else greater)
  by_first ne = elim (Bool-cases (first_bit buf1 == 0)) [
    | inl z ↦
        let e = ==→eq (first_bit buf1) 0 z in
        rw z (
          0,
          omega arith,
          omega (arith, e, bit1),
          omega (arith, e, bit2),
          λ q p. absurd (omega arith),
        )
    | inr nz ↦
        let e = ==→ne (first_bit buf1) 0 nz in
        rw nz (
          0,
          omega arith,
          omega (arith, e, bit2),
          omega (arith, e, bit1),
          λ q p. absurd (omega arith),
        )
  ]
    where
      bit1 : gap_bit buf1 0 ≡ (first_bit buf1 + 0) % 2
      bit1 = gap_bit-InGap g1 0 0 g1.nonempty (omega arith, omega arith)

      bit2 : gap_bit buf2 0 ≡ (first_bit buf2 + 0) % 2
      bit2 = gap_bit-InGap g2 0 0 g2.nonempty (omega arith, omega arith)

-- The first block's gap is shorter: the value of the gap says which is greater.
by_shorter :
    {buf1 buf2 : Buffer}
    → IsGap buf1
    → IsGap buf2
    → first_bit buf2 ≡ first_bit buf1
    → (j : ℕ) → SameTo buf1 buf2 j
    → j < last_word buf1
    → j < last_word buf2
    → buf1 (suc j) < buf2 (suc j)
    → IsComparison buf1 buf2 (if (first_bit buf1 + j) % 2 == 0 then greater else less)
by_shorter {buf1} {buf2} g1 g2 first j same h1 h2 shorter =
    let s = shorter_gap g1 g2 first j same h1 h2 shorter in
    elim (Bool-cases ((first_bit buf1 + j) % 2 == 0)) [
      | inl z ↦
          let e = ==→eq ((first_bit buf1 + j) % 2) 0 z in
          rw z (
            suc (buf1 (suc j)),
            s.0,
            omega (arith, e, s.2),
            omega (arith, e, s.1),
            λ q p. sym (s.3 q p),
          )
      | inr nz ↦
          let e = ==→ne ((first_bit buf1 + j) % 2) 0 nz in
          rw nz (suc (buf1 (suc j)), s.0, omega (arith, e, s.1), omega (arith, e, s.2), s.3)
    ]

swap :
    (buf1 buf2 : Buffer) (v : ℕ)
    → IsComparison buf2 buf1 (if v == 0 then greater else less)
    → IsComparison buf1 buf2 (if v == 0 then less else greater)
swap buf1 buf2 v c = elim (Bool-cases (v == 0)) [
  | inl z ↦ rw z (rw z at c)
  | inr nz ↦ rw nz (rw nz at c)
]

module _ {buf1 buf2 : Buffer} (g1 : IsGap buf1) (g2 : IsGap buf2)
    (first : first_bit buf2 ≡ first_bit buf1) where
  -- The value of the gap number j.
  abbrev value : ℕ → ℕ
  value j = (first_bit buf1 + j) % 2

  gapcmp_loop_end :
      (fuel j : ℕ)
      → last_word buf1 ≤ j
      → gapcmp_loop fuel buf1 buf2 (last_word buf1) (suc j) (value j) (value j) ≡ equal
  unfolding gapcmp_loop
  gapcmp_loop_end zero j h = refl
  gapcmp_loop_end (suc fuel) j h =
      let outside : leb (suc j) (last_word buf1) ≡ false = ground arith in rw outside refl

  gapcmp_loop-IsComparison :
      (fuel j : ℕ)
      → SameTo buf1 buf2 j
      → j < last_word buf1
      → j < last_word buf2
      → last_word buf1 ≤ fuel + j
      → IsComparison buf1 buf2
          (gapcmp_loop fuel buf1 buf2 (last_word buf1) (suc j) (value j) (value j))
  unfolding gapcmp_loop
  gapcmp_loop-IsComparison zero j same h1 h2 f = absurd (omega arith)
  gapcmp_loop-IsComparison (suc fuel) j same h1 h2 f =
      let inside : leb (suc j) (last_word buf1) ≡ true = ground arith in
      let alike : (value j == value j) ≡ true = ground arith in
      rw inside (
        rw alike (elim (Bool-cases (buf1 (suc j) == buf2 (suc j))) [
          | inl agree ↦
              let e = ==→eq (buf1 (suc j)) (buf2 (suc j)) agree in
              let same' : SameTo buf1 buf2 (suc j) = λ i h. elim (Bool-cases (ltb i j)) [
                | inl early ↦ same i (ltb→lt i j early)
                | inr last ↦ let at : i ≡ j = omega (arith, ltb→le i j last) in rw at (sym e)
              ] in
              let next : suc j + 1 ≡ suc (suc j) = omega arith in
              let turned : xor1 (value j) 1 ≡ value (suc j) = omega arith in
              rw agree (
                rw next (
                  rw turned (elim (Bool-cases (ltb (suc j) (last_word buf1))) [
                    | inl more ↦
                        let m = ltb→lt (suc j) (last_word buf1) more in
                        gapcmp_loop-IsComparison fuel (suc j) same' m
                          (same_end g1 g2 j same' h1 h2 m) (omega arith)
                    | inr done ↦
                        let d = ltb→le (suc j) (last_word buf1) done in
                        rw (gapcmp_loop_end fuel (suc j) d)
                          (equal_all g1 g2 first j same' (omega arith) h2)
                  ])))
          | inr differ ↦
              let ne = ==→ne (buf1 (suc j)) (buf2 (suc j)) differ in
              rw differ (elim (Bool-cases (ltb (buf1 (suc j)) (buf2 (suc j)))) [
                | inl shorter ↦
                    rw shorter (by_shorter g1 g2 first j same h1 h2 (ltb→lt _ _ shorter))
                | inr longer ↦
                    let le = ltb→le (buf1 (suc j)) (buf2 (suc j)) longer in
                    let s =
                      by_shorter g2 g1 (sym first) j (λ i p. sym (same i p)) h2 h1 (omega arith) in
                    rw longer (swap buf1 buf2 (value j) (rw first at s))
              ])
        ]))

-- Blocks with different first bits are decided in the first round.
first_round :
    (buf1 buf2 : Buffer) (fuel : ℕ)
    → 1 ≤ fuel
    → (first_bit buf1 == first_bit buf2) ≡ false
    → gapcmp_loop fuel buf1 buf2 fuel 1 (first_bit buf1) (first_bit buf2)
      ≡ (if first_bit buf1 == 0 then less else greater)
unfolding gapcmp_loop
first_round buf1 buf2 zero h ne = absurd (omega arith)
first_round buf1 buf2 (suc fuel) h ne =
    let inside : leb 1 (suc fuel) ≡ true = ground arith in
    rw inside
      (rw ne (elim (Bool-cases (buf1 1 == buf2 1)) [ inl e ↦ rw e refl | inr e ↦ rw e refl ]))

-- Two well-formed blocks compare as equal when they have the same bits, and else as less or
-- greater by which of them has 0 in the first position in which they differ.
pub gapcmp-IsComparison :
    (buf1 buf2 : Buffer) → IsGap buf1 → IsGap buf2 → IsComparison buf1 buf2 (gapcmp buf1 buf2)
unfolding gapcmp
gapcmp-IsComparison buf1 buf2 g1 g2 = elim (Bool-cases (first_bit buf1 == first_bit buf2)) [
  | inl alike ↦
      let e : first_bit buf2 ≡ first_bit buf1 =
        sym (==→eq (first_bit buf1) (first_bit buf2) alike) in
      let v : (first_bit buf1 + 0) % 2 ≡ first_bit buf1 = omega arith in
      rw e (
        rw v at (
          gapcmp_loop-IsComparison g1 g2 e (last_word buf1) 0 (λ i h. absurd (omega arith))
            g1.nonempty g2.nonempty (omega arith)))
  | inr other ↦
      let ne = ==→ne (first_bit buf1) (first_bit buf2) other in
      rw (first_round buf1 buf2 (last_word buf1) g1.nonempty other) (by_first g1 g2 ne)
]
