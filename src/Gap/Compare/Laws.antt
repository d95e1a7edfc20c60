-- ===== src/Gap/Compare/Laws.antt =====
-- src/bmfunc.h: the first bit in which two GAP blocks differ.
use bit_magic.Base.{
  ℕ, zero, suc, ◌+◌, ◌%◌, ◌≤◌, ◌<◌, ◌≡◌, ◌≢◌, refl, sym, true, false, inl, inr, Option, none, some,
  Buffer, ltb, leb, ◌==◌, arith, Bool-cases, ==→eq, ==→ne, ltb→lt, ltb→le, leb→le, leb→lt,
}
use bit_magic.Gap.Layout.{
  first_bit, gap_max_bits, last_word, borders_below, gap_bit, IsGap, IsRising, gap_start,
}
use bit_magic.Gap.Order.{
  border_le, border_top, border_last, gap_bit-InGap, gap_bit-after, gap_bit-cases,
}
use bit_magic.Gap.Set.Insert.{borders_below_ext}
use bit_magic.Gap.Op.{gap_invert}
use bit_magic.Gap.Op.Named.{gap_invert_lem}
use bit_magic.Gap.Compare.{diff_loop, gap_find_first_diff}

-- The first j borders of the blocks are the same.
abbrev pub SameTo : Buffer → Buffer → ℕ → Type 0
SameTo buf1 buf2 j = (i : ℕ) → i < j → buf2 (suc i) ≡ buf1 (suc i)

-- The bits below p are the same.
abbrev pub EqualBelow : Buffer → Buffer → ℕ → Type 0
EqualBelow buf1 buf2 p = (q : ℕ) → q < p → gap_bit buf1 q ≡ gap_bit buf2 q

-- The first difference, or none.
abbrev pub IsFirstDiff : Buffer → Buffer → Option ℕ → Type 0
IsFirstDiff buf1 buf2 (some p) =
    (p < gap_max_bits) × (gap_bit buf1 p ≢ gap_bit buf2 p) × EqualBelow buf1 buf2 p
IsFirstDiff buf1 buf2 none = EqualBelow buf1 buf2 gap_max_bits

-- No border behind the first j counts for a position up to the next one.
borders_below_prefix :
    (buf : Buffer) (n : ℕ)
    → IsRising buf n
    → (j q m : ℕ) → j < n
    → q ≤ buf (suc j)
    → j ≤ m
    → m ≤ n
    → borders_below buf m q ≡ borders_below buf j q
unfolding borders_below
borders_below_prefix buf n rise j q zero h p a b = let e : j ≡ 0 = omega arith in rw e refl
borders_below_prefix buf n rise j q (suc m) h p a b = elim (Bool-cases (leb j m)) [
  | inl early ↦
      let le = leb→le j m early in
      ground (
        arith,
        borders_below_prefix buf n rise j q m h p le (omega arith),
        border_le buf n rise j m le (omega arith),
      )
  | inr last ↦ let e : j ≡ suc m = omega (arith, leb→lt j m last) in rw e refl
]

-- The gaps start alike, so the second one starts before the first one ends.
starts_before :
    {buf1 : Buffer} (buf2 : Buffer)
    → IsGap buf1
    → (j : ℕ) → SameTo buf1 buf2 j
    → j < last_word buf1
    → gap_start buf2 j ≤ suc (buf1 (suc j))
starts_before buf2 g1 zero same h = omega arith
starts_before buf2 g1 (suc j) same h = omega (arith, same j (omega arith), g1.rising j h)

module _ {buf1 buf2 : Buffer} (g1 : IsGap buf1) (g2 : IsGap buf2)
    (first : first_bit buf2 ≡ first_bit buf1) (j : ℕ) (same : SameTo buf1 buf2 j)
    (in1 : j < last_word buf1) (in2 : j < last_word buf2) where
  -- Up to the nearer of the next borders the bits are the same.
  equal_to : (q : ℕ) → q ≤ buf1 (suc j) → q ≤ buf2 (suc j) → gap_bit buf1 q ≡ gap_bit buf2 q
  unfolding gap_bit
  equal_to q p1 p2 = omega (
    arith,
    first,
    borders_below_prefix buf1 (last_word buf1) g1.rising j q (last_word buf1) in1 p1 (omega arith)
        (omega arith),
    borders_below_prefix buf2 (last_word buf2) g2.rising j q (last_word buf2) in2 p2 (omega arith)
        (omega arith),
    borders_below_ext buf1 buf2 q j same,
  )

  -- Where the first block's gap is shorter, the bit behind it is different.
  pub shorter_gap :
      buf1 (suc j) < buf2 (suc j)
      → let p = suc (buf1 (suc j)) in
        (p < gap_max_bits)
        × (gap_bit buf1 p ≡ (first_bit buf1 + suc j) % 2)
        × (gap_bit buf2 p ≡ (first_bit buf1 + j) % 2)
        × EqualBelow buf1 buf2 p
  shorter_gap h = (
    omega (arith, border_top g2 j in2),
    gap_bit-after g1 j (more (omega (arith, border_top g2 j in2))),
    rw (sym first)
        (gap_bit-InGap g2 j (suc (buf1 (suc j))) in2 (starts_before buf2 g1 j same in1, h)),
    λ q p. equal_to q (omega arith) (omega arith),
  )
    where
      more : buf1 (suc j) < 65535 → suc j < last_word buf1
      more low = ground (arith, border_last g1 j)

module _ {buf1 buf2 : Buffer} (g1 : IsGap buf1) (g2 : IsGap buf2) where
  -- While the borders agree, neither block ends before the other.
  pub same_end :
      (j : ℕ)
      → SameTo buf1 buf2 (suc j)
      → j < last_word buf1
      → j < last_word buf2
      → suc j < last_word buf1
      → suc j < last_word buf2
  same_end j same h1 h2 more =
      ground (
        arith,
        same j (omega arith),
        border_last g2 j,
        g1.rising j more,
        border_top g1 (suc j) more,
      )

  -- Blocks that agree in all borders agree in all bits.
  pub equal_all :
      first_bit buf2 ≡ first_bit buf1
      → (j : ℕ) → SameTo buf1 buf2 (suc j)
      → suc j ≡ last_word buf1
      → j < last_word buf2
      → EqualBelow buf1 buf2 gap_max_bits
  equal_all first j same e h2 q p =
      equal_to g1 g2 first j (λ i h. same i (omega arith)) (omega arith) h2 q
        (omega (arith, border_last g1 j e))
        (omega (arith, border_last g1 j e, same j (omega arith)))

  diff_loop_end :
      (fuel j : ℕ) → last_word buf1 ≤ j → diff_loop fuel buf1 buf2 (last_word buf1) (suc j) ≡ none
  unfolding diff_loop
  diff_loop_end zero j h = refl
  diff_loop_end (suc fuel) j h =
      let outside : leb (suc j) (last_word buf1) ≡ false = ground arith in rw outside refl

  diff_loop-IsFirstDiff :
      first_bit buf2 ≡ first_bit buf1
      → (fuel j : ℕ) → SameTo buf1 buf2 j
      → j < last_word buf1
      → j < last_word buf2
      → last_word buf1 ≤ fuel + j
      → IsFirstDiff buf1 buf2 (diff_loop fuel buf1 buf2 (last_word buf1) (suc j))
  unfolding diff_loop
  diff_loop-IsFirstDiff first zero j same h1 h2 f = absurd (omega arith)
  diff_loop-IsFirstDiff first (suc fuel) j same h1 h2 f =
      let inside : leb (suc j) (last_word buf1) ≡ true = ground arith in
      rw inside (elim (Bool-cases (buf1 (suc j) == buf2 (suc j))) [
        | inl agree ↦
            let e = ==→eq (buf1 (suc j)) (buf2 (suc j)) agree in
            let same' : SameTo buf1 buf2 (suc j) = λ i h. elim (Bool-cases (ltb i j)) [
              | inl early ↦ same i (ltb→lt i j early)
              | inr last ↦ let at : i ≡ j = omega (arith, ltb→le i j last) in rw at (sym e)
            ] in
            let next : suc j + 1 ≡ suc (suc j) = omega arith in
            rw agree (
              rw next (elim (Bool-cases (ltb (suc j) (last_word buf1))) [
                | inl more ↦
                    let m = ltb→lt (suc j) (last_word buf1) more in
                    diff_loop-IsFirstDiff first fuel (suc j) same' m (same_end j same' h1 h2 m)
                      (omega arith)
                | inr done ↦
                    let d = ltb→le (suc j) (last_word buf1) done in
                    rw (diff_loop_end fuel (suc j) d) (equal_all first j same' (omega arith) h2)
              ]))
        | inr differ ↦
            let ne = ==→ne (buf1 (suc j)) (buf2 (suc j)) differ in
            rw differ (elim (Bool-cases (ltb (buf1 (suc j)) (buf2 (suc j)))) [
              | inl shorter ↦
                  let s = shorter_gap g1 g2 first j same h1 h2 (ltb→lt _ _ shorter) in
                  let e : 1 + buf1 (suc j) ≡ suc (buf1 (suc j)) = omega arith in
                  rw shorter (rw e (s.0, (λ e. absurd (omega (arith, s.1, s.2, e))), s.3))
              | inr longer ↦
                  let h = ltb→le (buf1 (suc j)) (buf2 (suc j)) longer in
                  let s =
                    shorter_gap g2 g1 (sym first) j (λ i p. sym (same i p)) h2 h1 (omega arith) in
                  let e : 1 + buf2 (suc j) ≡ suc (buf2 (suc j)) = omega arith in
                  rw longer
                    (rw e (s.0, (λ e. absurd (omega (arith, s.1, s.2, e))), λ q p. sym (s.3 q p)))
            ])
      ])

-- For two well-formed blocks with the same first bit, the search answers the first position in
-- which they differ, and nothing when all their bits are the same.
pub gap_find_first_diff-IsFirstDiff :
    (buf1 buf2 : Buffer)
    → IsGap buf1
    → IsGap buf2
    → first_bit buf2 ≡ first_bit buf1
    → IsFirstDiff buf1 buf2 (gap_find_first_diff buf1 buf2)
unfolding gap_find_first_diff
gap_find_first_diff-IsFirstDiff buf1 buf2 g1 g2 first =
    diff_loop-IsFirstDiff g1 g2 first (last_word buf1) 0 (λ i h. absurd (omega arith)) g1.nonempty
      g2.nonempty (omega arith)

diff_loop_invert :
    (buf : Buffer) (fuel k : ℕ)
    → 0 < k
    → diff_loop fuel buf (gap_invert buf) (last_word buf) k ≡ none
unfolding diff_loop gap_invert
diff_loop_invert buf zero k pos = refl
diff_loop_invert buf (suc fuel) k pos =
    ground (arith, diff_loop_invert buf fuel (k + 1) (omega arith))

-- For every well-formed block and its inversion, which differ in every position, the search
-- answers that there is no difference.
pub gap_find_first_diff-gap_invert :
    (buf : Buffer)
    → IsGap buf
    → (gap_find_first_diff buf (gap_invert buf) ≡ none)
      × ((pos : ℕ) → pos < gap_max_bits → gap_bit buf pos ≢ gap_bit (gap_invert buf) pos)
gap_find_first_diff-gap_invert buf g = (
  (unfold gap_find_first_diff in diff_loop_invert buf (last_word buf) 1 (omega arith)),
  λ pos h e. elim (gap_bit-cases buf pos) [
    | inl z ↦ absurd (omega (arith, (gap_invert_lem buf g).2 pos h, e))
    | inr o ↦ absurd (omega (arith, (gap_invert_lem buf g).2 pos h, e))
  ],
)
