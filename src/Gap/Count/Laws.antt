-- ===== src/Gap/Count/Laws.antt =====
-- src/bmfunc.h: the population count of a block, in its plain and its unrolled form.
use bit_magic.Base.{
  ℕ, zero, suc, ◌+◌, ◌-◌, ◌/◌, ◌%◌, ◌≤◌, ◌<◌, ◌≡◌, ◌∙◌, inl, inr, refl, Buffer, ◌==◌, leb, ltb,
  Bool-cases, leb→le, leb→lt, ltb→lt, ==→eq, ==→ne, arith, if◌then◌else◌, add32, sub32,
}
use bit_magic.Gap.Layout.{gap_max_bits, last_word, first_bit, IsGap, gap_ones}
use bit_magic.Gap.Order.{border_top}
use bit_magic.Gap.Count.{count_loop, gap_bit_count, wave_loop, gap_bit_count_unr}
use bit_magic.Gap.Count.Before.{
  ones_zero, ones_before, ones_before_past, ones_before_in, ones_before_one, ones_before_zero,
  ones_before-le,
}

-- One round of the loops that take every second gap.
count_step :
    {buf : Buffer}
    → IsGap buf
    → (j acc : ℕ) → suc j < last_word buf
    → (first_bit buf + suc j) % 2 ≡ 1
    → acc ≡ ones_before buf (suc j)
    → add32 acc (sub32 (buf (suc (suc j))) (buf (suc j))) ≡ ones_before buf (suc (suc (suc j)))
count_step {buf} g j acc inside v e = omega (
  arith,
  ones_before_one g (suc j) inside v,
  ones_before_zero g (suc (suc j)) (omega arith),
  g.rising j inside,
  border_top g (suc j) inside,
  ones_before-le g (suc (suc j)),
)

count_loop_lem :
    (fuel : ℕ) (buf : Buffer) (j acc : ℕ)
    → IsGap buf
    → (first_bit buf + suc j) % 2 ≡ 1
    → last_word buf ≤ suc j + fuel
    → acc ≡ ones_before buf (suc j)
    → count_loop fuel buf (last_word buf) (suc (suc j)) acc ≡ gap_ones buf gap_max_bits
unfolding count_loop
count_loop_lem zero buf j acc g v enough e = e ∙ ones_before_past buf (suc j) (omega arith)
count_loop_lem (suc fuel) buf j acc g v enough e =
    let before : suc (suc j) - 1 ≡ suc j = omega arith in
    let after : suc (suc j) + 2 ≡ suc (suc (suc (suc j))) = omega arith in
    rw (before, after)
      (elim (Bool-cases (leb (suc (suc j)) (last_word buf))) [
        | inl more ↦
            let h = leb→le (suc (suc j)) (last_word buf) more in
            rw (more) (
              count_loop_lem fuel buf (suc (suc j)) _ g (omega arith) (omega arith)
                (count_step g j acc h v e))
        | inr over ↦ rw over (
            e
            ∙ ones_before_past buf (suc j)
                (omega (arith, leb→lt (suc (suc j)) (last_word buf) over)))
      ])

-- Where the two-step loops start: at the second gap of 1s, with the first of them counted if the
-- block begins with it.
start_one : {buf : Buffer} → IsGap buf → first_bit buf ≡ 1 → add32 0 (buf 1 + 1) ≡ ones_before buf 2
start_one {buf} g v = omega (
  arith,
  ones_before_one g 0 g.nonempty (omega arith),
  ones_before_zero g 1 (omega arith),
  ones_before_in buf 0 g.nonempty,
  ones_zero buf,
  border_top g 0 g.nonempty,
)

start_zero : {buf : Buffer} → IsGap buf → first_bit buf ≡ 0 → 0 ≡ ones_before buf 1
start_zero {buf} g v =
    omega
      (arith, ones_before_zero g 0 (omega arith), ones_before_in buf 0 g.nonempty, ones_zero buf)

-- The count of a well-formed block whose size is the header's is the number of its set bits.
pub gap_bit_count-eq-gap_ones :
    (buf : Buffer) → IsGap buf → gap_bit_count buf 0 ≡ gap_ones buf gap_max_bits
unfolding gap_bit_count
gap_bit_count-eq-gap_ones buf g = elim (Bool-cases (buf 0 % 2 == 1)) [
  | inl one ↦
      let v = ==→eq (buf 0 % 2) 1 one in
      rw one (count_loop_lem (last_word buf) buf 1 _ g (omega arith) (omega arith) (start_one g v))
  | inr clear ↦
      let v = ==→ne (buf 0 % 2) 1 clear in
      rw clear (
        count_loop_lem (last_word buf) buf 0 _ g (omega arith) (omega arith)
          (start_zero g (omega arith)))
]

-- One step of a wave, at a pointer that is known by an equation.
wave_step :
    {buf : Buffer}
    → IsGap buf
    → (p j acc : ℕ) → p ≡ suc (suc j)
    → p ≤ last_word buf
    → (first_bit buf + suc j) % 2 ≡ 1
    → acc ≡ ones_before buf (suc j)
    → add32 acc (sub32 (buf p) (buf (p - 1))) ≡ ones_before buf (suc (suc (suc j)))
wave_step {buf} g p j acc at inside v e =
    let before : p - 1 ≡ suc j = omega arith in
    rw (before, at) (count_step g j acc (omega arith) v e)

-- A state from which the plain loop finishes the count.
abbrev IsOnCourse : Buffer → ℕ × ℕ → Type 0
IsOnCourse buf (pcurr, cnt) =
    (j : ℕ) × (pcurr ≡ suc (suc j))
    × ((first_bit buf + suc j) % 2 ≡ 1)
    × (cnt ≡ ones_before buf (suc j))

wave_loop-IsOnCourse :
    (fuel : ℕ) (buf : Buffer) (waves i pcurr cnt : ℕ)
    → IsGap buf
    → waves ≤ (last_word buf - 2) / 8
    → pcurr ≤ i + 3
    → IsOnCourse buf (pcurr, cnt)
    → IsOnCourse buf (wave_loop fuel buf waves i pcurr cnt)
unfolding wave_loop
wave_loop-IsOnCourse zero buf waves i pcurr cnt g hw hi h = h
wave_loop-IsOnCourse (suc fuel) buf waves i pcurr cnt g hw hi (j, at, v, e) =
    elim (Bool-cases (ltb i waves)) [
      | inl more ↦
          let h = ltb→lt i waves more in
          let e1 = wave_step g pcurr j cnt at (omega arith) v e in
          let e2 =
            wave_step g (pcurr + 2) (suc (suc j)) _ (omega arith) (omega arith) (omega arith) e1 in
          let e3 =
            wave_step g (pcurr + 4) (suc (suc (suc (suc j)))) _ (omega arith) (omega arith)
              (omega arith) e2 in
          let e4 =
            wave_step g (pcurr + 6) (suc (suc (suc (suc (suc (suc j)))))) _ (omega arith)
              (omega arith) (omega arith) e3 in
          rw more (
            wave_loop-IsOnCourse fuel buf waves (i + 8) (pcurr + 8) _ g hw (omega arith)
              (suc (suc (suc (suc (suc (suc (suc (suc j))))))), omega arith, omega arith, e4))
      | inr over ↦ rw over (j, at, v, e)
    ]

finish :
    (buf : Buffer) (s : ℕ × ℕ)
    → IsGap buf
    → IsOnCourse buf s
    → count_loop (last_word buf) buf (last_word buf) s.0 s.1 ≡ gap_ones buf gap_max_bits
finish buf (p, c) g (j, at, v, e) =
    rw at (count_loop_lem (last_word buf) buf j c g v (omega arith) e)

abbrev start : Buffer → ℕ × ℕ
start buf = if buf 0 % 2 == 1 then (3, add32 0 (buf 1 + 1)) else (2, 0)

start_near : (buf : Buffer) → (start buf).0 ≤ 3
start_near buf = ground arith

start-IsOnCourse : (buf : Buffer) → IsGap buf → IsOnCourse buf (start buf)
start-IsOnCourse buf g = elim (Bool-cases (buf 0 % 2 == 1)) [
  | inl one ↦ let v = ==→eq (buf 0 % 2) 1 one in rw one (1, refl, omega arith, start_one g v)
  | inr clear ↦
      let v = ==→ne (buf 0 % 2) 1 clear in
      rw clear (0, refl, omega arith, start_zero g (omega arith))
]

-- The unrolled count of a well-formed block is the number of its set bits too.
pub gap_bit_count_unr-eq-gap_ones :
    (buf : Buffer) → IsGap buf → gap_bit_count_unr buf ≡ gap_ones buf gap_max_bits
unfolding gap_bit_count_unr
gap_bit_count_unr-eq-gap_ones buf g = elim (Bool-cases (ltb 10 (buf 0 / 8))) [
  | inl long ↦ rw long (
      finish buf _ g (
        wave_loop-IsOnCourse ((buf 0 / 8 - 2) / 8) buf ((buf 0 / 8 - 2) / 8) 0 (start buf).0
          (start buf).1 g (omega arith) (start_near buf) (start-IsOnCourse buf g)))
  | inr short ↦ rw short (finish buf _ g (start-IsOnCourse buf g))
]
