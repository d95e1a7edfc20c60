-- ===== src/Bits/Any/Gaps.antt =====
-- src/bmfunc.h: whether a bit block has a set bit inside, or outside, of the ones of a GAP block.
use bit_magic.Base.{
  ℕ, zero, suc, ◌+◌, ◌-◌, ◌%◌, ◌≤◌, ◌<◌, ◌≡◌, ◌≢◌, ◌↔◌, refl, sym, ◌∙◌, false, inl, inr, Bool-cases,
  ltb→lt, ltb→le, leb→le, leb→lt, ==→eq, ==→ne, ltb, leb, ◌==◌, arith, Buffer,
}
use bit_magic.Gap.Layout.{first_bit, gap_max_bits, last_word, gap_bit, IsGap, gap_start}
use bit_magic.Gap.Order.{gap_bits, border_last, border_top, gap_start-le}
use bit_magic.Bits.Layout.{IsWords, block_bit}
use bit_magic.Bits.Any.{
  bit_block_any_range, any_gaps, gap_bitset_and_any, gap_bitset_sub_any, gap_bitset_or_any,
}
use bit_magic.Bits.Any.Laws.{bit_block_any_range_iff}
use bit_magic.Bits.Any.Zero.{gap_bitset_or_any_iff}

-- No bit below n is set where the GAP block has the value.
abbrev pub IsClearAt : ℕ → Buffer → Buffer → ℕ → Type 0
IsClearAt value block buf n =
    (pos : ℕ) → pos < n → gap_bit buf pos ≡ value → block_bit block pos ≡ 0

module _ (value : ℕ) (bit : value < 2) (block buf : Buffer) (w : IsWords block)
    (g : IsGap buf) where
  -- A number answers for the first n positions.
  record Tells (n v : ℕ) : Type 0 where
    none : v ≡ 0 → IsClearAt value block buf n
    all : IsClearAt value block buf n → v ≡ 0

  found_Tells : (n m v : ℕ) → n ≤ m → v ≢ 0 → Tells n v → Tells m v
  found_Tells n m v h some t = record {
    none = λ e. absurd (omega (arith, some, e));
    all = λ clear. t.all (λ pos p. clear pos (omega arith));
  }

  -- A gap with the value, after an answer of 0; and a gap without it.
  next_gap :
      (j from v : ℕ)
      → j < last_word buf
      → from ≡ gap_start buf j
      → (first_bit buf + j) % 2 ≡ value
      → v ≡ 0
      → Tells from v
      → Tells (suc (buf (suc j))) (bit_block_any_range block from (buf (suc j)))
  next_gap j from v h start e zero_so_far t =
      let lo = gap_start-le buf (last_word buf) g.rising j h in
      let answer =
        bit_block_any_range_iff block from (buf (suc j)) w (omega arith)
          (omega (arith, border_top g j h)) in
      record {
        none = λ z pos p set. elim (Bool-cases (ltb pos from)) [
          | inl old ↦ t.none zero_so_far pos (ltb→lt pos from old) set
          | inr new ↦ answer.0 z pos (ltb→le pos from new) (omega arith)
        ];
        all = λ clear. answer.1 (λ pos a b.
            clear pos (omega arith) (gap_bits g j h pos (omega arith) (omega arith) ∙ e));
      }

  pass_gap :
      (j from v : ℕ)
      → j < last_word buf
      → from ≡ gap_start buf j
      → (first_bit buf + j) % 2 ≢ value
      → Tells from v
      → Tells (suc (buf (suc j))) v
  pass_gap j from v h start other t =
      let lo = gap_start-le buf (last_word buf) g.rising j h in
      record {
        none = λ z pos p set. elim (Bool-cases (ltb pos from)) [
          | inl old ↦ t.none z pos (ltb→lt pos from old) set
          | inr new ↦
              let q = ltb→le pos from new in
              absurd (other (sym (gap_bits g j h pos (omega arith) (omega arith)) ∙ set))
        ];
        all = λ clear. t.all (λ pos p. clear pos (omega arith));
      }

  whole : {n v : ℕ} → Tells n v → n ≡ gap_max_bits → Tells gap_max_bits v
  whole t e = rw e at t

  up_to_next :
      (j v : ℕ)
      → j < last_word buf
      → (first_bit buf + j) % 2 ≡ value
      → Tells (suc (buf (suc j))) v
      → (suc (suc j) < last_word buf → Tells (suc (buf (suc (suc j)))) v)
        × (last_word buf ≤ suc (suc j) → Tells gap_max_bits v)
  up_to_next j v h e t = (
    λ p. passed (omega arith),
    λ p. elim (Bool-cases (suc j == last_word buf)) [
      | inl last ↦
          let l = ==→eq (suc j) (last_word buf) last in whole t (omega (arith, border_last g j l))
      | inr later ↦
          let l = ==→ne (suc j) (last_word buf) later in
          whole (passed (omega arith)) (omega (arith, border_last g (suc j) (omega arith)))
    ],
  )
    where
      passed : suc j < last_word buf → Tells (suc (buf (suc (suc j)))) v
      passed p = pass_gap (suc j) (suc (buf (suc j))) v p refl (λ q. absurd (omega (arith, e, q))) t

  any_gaps-Tells :
      (fuel j v : ℕ)
      → (suc j < last_word buf → Tells (suc (buf (suc j))) v)
        × (last_word buf ≤ suc j → Tells gap_max_bits v)
      → (first_bit buf + suc j) % 2 ≡ value
      → last_word buf ≤ fuel + suc j
      → Tells gap_max_bits (any_gaps fuel block buf (suc (suc j)) (last_word buf) v)
  unfolding any_gaps
  any_gaps-Tells zero j v (inside, over) e enough = over (omega arith)
  any_gaps-Tells (suc fuel) j v (inside, over) e enough =
      elim (Bool-cases (leb (suc (suc j)) (last_word buf))) [
        | inr done ↦
            let d = leb→lt (suc (suc j)) (last_word buf) done in
            elim (Bool-cases (v == 0)) [
              | inl empty ↦ rw (empty, done) (over (omega arith))
              | inr busy ↦ rw busy (over (omega arith))
            ]
        | inl more ↦
            let h = leb→le (suc (suc j)) (last_word buf) more in
            elim (Bool-cases (v == 0)) [
              | inr busy ↦ rw busy (
                  found_Tells (suc (buf (suc j))) gap_max_bits v
                    (omega (arith, border_top g j (omega arith))) (==→ne v 0 busy) (inside h))
              | inl empty ↦
                  let z = ==→eq v 0 empty in
                  let prev : suc (suc j) - 1 ≡ suc j = omega arith in
                  let start : buf (suc j) + 1 ≡ suc (buf (suc j)) = omega arith in
                  let next : suc (suc j) + 2 ≡ suc (suc (suc (suc j))) = omega arith in
                  let one = next_gap (suc j) (suc (buf (suc j))) v h refl e z (inside h) in
                  rw (empty, more)
                    (rw prev (
                      rw start (
                        rw next (
                          any_gaps-Tells fuel (suc (suc j)) _ (up_to_next (suc j) _ h e one)
                            (omega arith) (omega arith)))))
            ]
      ]

  -- Before the first gap.
  nothing_yet : Tells 0 0
  nothing_yet = record { none = λ z pos p. absurd (omega arith); all = λ clear. refl }

  first-Tells :
      first_bit buf ≡ value
      → Tells gap_max_bits (
          any_gaps
            (last_word buf)
            block
            buf
            3
            (last_word buf)
            (bit_block_any_range block 0 (buf 1)))
  first-Tells e =
      any_gaps-Tells (last_word buf) 1 _
        (up_to_next 0 _ g.nonempty (omega arith)
          (next_gap 0 0 0 g.nonempty refl (omega arith) refl nothing_yet))
        (omega arith) (omega arith)

  second-Tells :
      first_bit buf ≢ value
      → Tells gap_max_bits (any_gaps (last_word buf) block buf 2 (last_word buf) 0)
  second-Tells ne =
      let passed = pass_gap 0 0 0 g.nonempty refl (λ q. ne (omega arith)) nothing_yet in
      any_gaps-Tells (last_word buf) 0 0
        (
          (λ p. passed),
          λ p. whole passed (omega (arith, border_last g 0 (omega (arith, g.nonempty)))),
        )
        (omega arith) (omega arith)

-- A return before the loop is what the loop does, too.
any_gaps-stop :
    (fuel : ℕ) (block buf : Buffer) (pcurr pend v : ℕ)
    → (v == 0) ≡ false
    → any_gaps fuel block buf pcurr pend v ≡ v
unfolding any_gaps
any_gaps-stop zero block buf pcurr pend v busy = refl
any_gaps-stop (suc fuel) block buf pcurr pend v busy = rw busy refl

and_any-Tells :
    (block buf : Buffer) (w : IsWords block) (g : IsGap buf)
    → Tells 1 (omega arith) block buf w g gap_max_bits (gap_bitset_and_any block buf)
unfolding gap_bitset_and_any
and_any-Tells block buf w g = elim (Bool-cases (first_bit buf == 1)) [
  | inl first ↦ rw first (first-Tells 1 (omega arith) block buf w g (==→eq (first_bit buf) 1 first))
  | inr second ↦
      rw second (second-Tells 1 (omega arith) block buf w g (==→ne (first_bit buf) 1 second))
]

sub_any-Tells :
    (block buf : Buffer) (w : IsWords block) (g : IsGap buf)
    → Tells 0 (omega arith) block buf w g gap_max_bits (gap_bitset_sub_any block buf)
unfolding gap_bitset_sub_any
sub_any-Tells block buf w g = elim (Bool-cases (first_bit buf == 0)) [
  | inl first ↦
      let t = first-Tells 0 (omega arith) block buf w g (==→eq (first_bit buf) 0 first) in
      let v = bit_block_any_range block 0 (buf 1) in
      elim (Bool-cases (v == 0)) [
        | inl empty ↦ rw (first, empty) t
        | inr busy ↦
            rw (first, busy)
              (rw (any_gaps-stop (last_word buf) block buf 3 (last_word buf) v busy) at t)
      ]
  | inr second ↦
      rw second (second-Tells 0 (omega arith) block buf w g (==→ne (first_bit buf) 0 second))
]

-- For a block of 32-bit words and a well-formed GAP block, the answer about AND is 0 exactly
-- where the bit block has no set bit at a position below 65536 whose bit in the GAP block is 1,
-- the answer about SUB is 0 exactly where it has none at such a position whose bit there is 0,
-- and the answer about OR is 0 exactly where both have the bit 0 at every position below 65536.
pub gap_bitset_any_iff :
    (block buf : Buffer)
    → IsWords block
    → IsGap buf
    → ((gap_bitset_and_any block buf ≡ 0) ↔ IsClearAt 1 block buf gap_max_bits)
      × ((gap_bitset_sub_any block buf ≡ 0) ↔ IsClearAt 0 block buf gap_max_bits)
      × ((gap_bitset_or_any block buf ≡ 0)
          ↔ ((pos : ℕ) → pos < gap_max_bits → (gap_bit buf pos ≡ 0) × (block_bit block pos ≡ 0)))
gap_bitset_any_iff block buf w g =
    let a = and_any-Tells block buf w g in
    let s = sub_any-Tells block buf w g in
    ((a.none, a.all), (s.none, s.all), gap_bitset_or_any_iff block buf w g)
