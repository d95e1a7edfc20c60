-- ===== src/Gap/Find/Laws.antt =====
-- src/bmfunc.h: the binary search ends at the gap that holds the position, so the two forms of
-- the test read the block's bit.
use bit_magic.Base.{
  ℕ, zero, suc, ◌+◌, ◌-◌, ◌/◌, ◌%◌, ◌≤◌, ◌<◌, ◌≡◌, refl, ◌⊎◌, inl, inr, Buffer, ltb, leb, ◌==◌,
  if◌then◌else◌, arith, xor1, true, Bool-cases, ltb→lt, ltb→le, ==→eq, ==→ne,
}
use bit_magic.Gap.Layout.{gap_max_bits, last_word, gap_bit, IsGap, gap_start, InGap}
use bit_magic.Gap.Order.{border_last, gap_bit-InGap}
use bit_magic.Gap.Find.{bfind_loop, gap_bfind, gap_test}

-- A border index that points at the gap of `pos`.
abbrev pub Finds : Buffer → ℕ → ℕ → Type 0
Finds buf pos r = (j : ℕ) × (r ≡ suc j) × (j < last_word buf) × InGap buf j pos

bfind_loop_step :
    (fuel : ℕ) (buf : Buffer) (pos s e : ℕ)
    → bfind_loop (suc fuel) buf pos (suc s) (suc e) ≡ (
        if s == e
        then suc s
        else if ltb (buf (suc ((s + e) / 2))) pos
        then bfind_loop fuel buf pos (suc (suc ((s + e) / 2))) (suc e)
        else bfind_loop fuel buf pos (suc s) (suc ((s + e) / 2)))
unfolding bfind_loop
bfind_loop_step fuel buf pos s e =
    let middle : (suc s + suc e) / 2 ≡ suc ((s + e) / 2) = omega arith in
    let next : suc ((s + e) / 2) + 1 ≡ suc (suc ((s + e) / 2)) = omega arith in
    rw (middle, next) (ground arith)

-- Past the last border there is no position left.
start_inside :
    (buf : Buffer) (pos s : ℕ)
    → IsGap buf
    → pos < gap_max_bits
    → gap_start buf s ≤ pos
    → s ≡ last_word buf
    → ⊥
start_inside buf pos zero g hp lower e = omega (arith, g.nonempty)
start_inside buf pos (suc s) g hp lower e = omega (arith, border_last g s e)

search_over :
    (buf : Buffer) (pos s : ℕ)
    → IsGap buf
    → pos < gap_max_bits
    → s ≤ last_word buf
    → gap_start buf s ≤ pos
    → (s ≡ last_word buf) ⊎ (pos ≤ buf (suc s))
    → Finds buf pos (suc s)
search_over buf pos s g hp top lower (inl e) = absurd (start_inside buf pos s g hp lower e)
search_over buf pos s g hp top lower (inr upper) = elim (Bool-cases (ltb s (last_word buf))) [
  | inl inside ↦ (s, refl, ltb→lt s (last_word buf) inside, (lower, upper))
  | inr beyond ↦
      absurd (start_inside buf pos s g hp lower (omega (arith, ltb→le s (last_word buf) beyond)))
]

bfind_loop-Finds :
    (fuel : ℕ) (buf : Buffer) (pos s e : ℕ)
    → IsGap buf
    → pos < gap_max_bits
    → s ≤ e
    → e ≤ s + fuel
    → e ≤ last_word buf
    → gap_start buf s ≤ pos
    → (e ≡ last_word buf) ⊎ (pos ≤ buf (suc e))
    → Finds buf pos (bfind_loop fuel buf pos (suc s) (suc e))
bfind_loop-Finds zero buf pos s e g hp le enough top lower upper =
    let same : e ≡ s = omega arith in
    unfold bfind_loop in search_over buf pos s g hp (omega arith) lower (rw same at upper)
bfind_loop-Finds (suc fuel) buf pos s e g hp le enough top lower upper =
    rw (bfind_loop_step fuel buf pos s e) (elim (Bool-cases (s == e)) [
      | inl over ↦
          let same : e ≡ s = omega (arith, ==→eq s e over) in
          rw over (search_over buf pos s g hp (omega arith) lower (rw same at upper))
      | inr more ↦
          let ne = ==→ne s e more in
          rw more (elim (Bool-cases (ltb (buf (suc ((s + e) / 2))) pos)) [
            | inl below ↦
                let q = ltb→lt (buf (suc ((s + e) / 2))) pos below in
                rw below (
                  bfind_loop-Finds fuel buf pos (suc ((s + e) / 2)) e g hp (omega arith)
                    (omega arith) top q upper)
            | inr above ↦
                let q = ltb→le (buf (suc ((s + e) / 2))) pos above in
                rw above (
                  bfind_loop-Finds fuel buf pos s ((s + e) / 2) g hp (omega arith) (omega arith)
                    (omega arith) lower (inr q))
          ])
    ])

-- At every position inside a well-formed block the search answers with the border of the gap that
-- holds the position, and with the value of the bit there.
pub gap_bfind-Finds :
    (buf : Buffer) (pos : ℕ)
    → IsGap buf
    → pos < gap_max_bits
    → Finds buf pos (gap_bfind buf pos).0 × ((gap_bfind buf pos).1 ≡ gap_bit buf pos)
unfolding gap_bfind
gap_bfind-Finds buf pos g hp = (found, value found)
  where
    found : Finds buf pos (bfind_loop (buf 0 / 8) buf pos 1 (1 + buf 0 / 8))
    found =
        let whole : 1 + buf 0 / 8 ≡ suc (buf 0 / 8) = omega arith in
        rw whole (
          bfind_loop-Finds (buf 0 / 8) buf pos 0 (buf 0 / 8) g hp (omega arith) (omega arith)
            (omega arith) (omega arith) (inl refl))

    value :
        Finds buf pos (bfind_loop (buf 0 / 8) buf pos 1 (1 + buf 0 / 8))
        → xor1 (buf 0 % 2) ((bfind_loop (buf 0 / 8) buf pos 1 (1 + buf 0 / 8) - 1) % 2)
          ≡ gap_bit buf pos
    value (j, at, inside, here) = rw at (omega (arith, gap_bit-InGap g j pos inside here))

-- The short branch, as a recursion over its tests: v is the value of the gap j, w of the next.
ladder : ℕ → Buffer → ℕ → ℕ → ℕ → ℕ → ℕ → ℕ
ladder zero buf pos j v w otherwise = otherwise
ladder (suc n) buf pos j v w otherwise =
    if leb pos (buf (suc j)) then v else ladder n buf pos (suc j) w v otherwise

ladder-eq-gap_bit :
    (n : ℕ) (buf : Buffer) (pos j v w otherwise : ℕ)
    → IsGap buf
    → pos < gap_max_bits
    → j < last_word buf
    → last_word buf ≤ j + n
    → gap_start buf j ≤ pos
    → v ≡ (buf 0 + j) % 2
    → w ≡ (buf 0 + suc j) % 2
    → ladder n buf pos j v w otherwise ≡ gap_bit buf pos
unfolding ladder
ladder-eq-gap_bit zero buf pos j v w otherwise g hp inside enough lower ev ew = absurd (omega arith)
ladder-eq-gap_bit (suc n) buf pos j v w otherwise g hp inside enough lower ev ew = ground (
  arith,
  gap_bit-InGap g j pos,
  border_last g j,
  ladder-eq-gap_bit n buf pos (suc j) w v otherwise g hp,
)

gap_test_short :
    (buf : Buffer) (pos : ℕ)
    → IsGap buf
    → pos < gap_max_bits
    → ltb (1 + buf 0 / 8 - 1) 10 ≡ true
    → gap_test buf pos ≡ gap_bit buf pos
unfolding gap_test ladder
gap_test_short buf pos g hp short =
    let bound = ltb→lt (1 + buf 0 / 8 - 1) 10 short in
    rw short (
      ladder-eq-gap_bit 9 buf pos 0 (buf 0 % 2) (xor1 (buf 0 % 2) 1)
        (xor1 (buf 0 % 2) ((1 - 1) % 2)) g hp (omega arith) (omega arith) (omega arith)
        (omega arith) (omega arith))

-- At every position inside a well-formed block the test reads the bit of the block, by the ladder
-- of comparisons on a short block and by the binary search on a longer one.
pub gap_test-eq-gap_bit :
    (buf : Buffer) (pos : ℕ) → IsGap buf → pos < gap_max_bits → gap_test buf pos ≡ gap_bit buf pos
gap_test-eq-gap_bit buf pos g hp = elim (Bool-cases (ltb (1 + buf 0 / 8 - 1) 10)) [
  | inl short ↦ gap_test_short buf pos g hp short
  | inr long ↦ unfold gap_test gap_bfind in rw long (gap_bfind-Finds buf pos g hp).1
]
