-- ===== src/Gap/Op/Count.antt =====
-- src/bmfunc.h: the number of set bits in the result of an operation, without building it.
use bit_magic.Base.{
  ℕ, zero, suc, ◌+◌, ◌-◌, ◌*◌, ◌%◌, ◌≤◌, ◌<◌, ◌≡◌, inl, inr, Buffer, ltb, ◌==◌, if◌then◌else◌,
  arith, Bool-cases, ltb→lt, ltb→le, ==→eq, ==→ne, xor1, add32, sub32, ap₂, refl, min, max, ◌∙◌,
}
use bit_magic.Gap.Layout.{gap_max_bits, last_word, gap_bit, IsGap}
use bit_magic.Gap.Order.{border_top}
use bit_magic.Gap.Op.{
  count_op_loop, gap_buff_count_op, and_func, xor_func, or_func, sub_func, gap_count_and,
  gap_count_xor, gap_count_or, gap_count_sub,
}
use bit_magic.Gap.Op.Named.{
  and_func-eq-min, or_func-eq-max, xor_func-eq-xor1, sub_func-eq-sub, and_func_bit, or_func_bit,
  xor_func_bit, sub_func_bit,
}
use bit_magic.Gap.Op.Laws.{IsAt, IsAt-value, IsAt-bit, IsAt-next, IsAt-stay, start-IsAt}
use bit_magic.Gap.Op.Sums.{sum_below, sum_below_run, sum_below-le, sum_below_ext}

module _ (op : ℕ → ℕ → ℕ) (op_bit : (a b : ℕ) → a < 2 → b < 2 → op a b < 2)
    (vect1 vect2 : Buffer) where
  abbrev want : ℕ → ℕ
  want pos = op (xor1 (gap_bit vect1 pos) 0) (xor1 (gap_bit vect2 pos) 0)

  -- The counter holds the set bits of [0, done), where `res` is the last border passed; before the
  -- first border a leading bit is counted ahead. A run of 1s going on has `res` for its base.
  record IsCounted (done prev res res_prev count : ℕ) : Type 0 where
    start : done ≡ 0 → (res ≡ 0) × (res_prev ≡ 0) × (count ≡ prev)
    later : 0 < done → (suc res ≡ done) × (count ≡ sum_below want done)
    base : prev ≡ 1 → res_prev ≡ res
    small : count ≤ 65536
    fits : res ≤ 65535

  abbrev next_count : ℕ → ℕ → ℕ → ℕ → ℕ → ℕ → ℕ
  next_count v prev res res_prev count c =
      if v == 0 then count else add32 count (sub32 c (if v == prev then res_prev else res))

  abbrev next_prev : ℕ → ℕ → ℕ → ℕ → ℕ → ℕ
  next_prev v prev res res_prev c = if v == 0 then (if v == prev then res_prev else res) else c

  count_round :
      (j1 j2 done bitval1 bitval2 prev res res_prev count c : ℕ)
      → IsAt vect1 0 j1 done bitval1
      → IsAt vect2 0 j2 done bitval2
      → IsCounted done prev res res_prev count
      → (done ≡ 0 → op bitval1 bitval2 ≡ prev)
      → done ≤ c
      → c ≤ vect1 (suc j1)
      → c ≤ vect2 (suc j2)
      → IsCounted
          (suc c)
          (op bitval1 bitval2)
          c
          (next_prev (op bitval1 bitval2) prev res res_prev c)
          (next_count (op bitval1 bitval2) prev res res_prev count c)
  count_round j1 j2 done bitval1 bitval2 prev res res_prev count c a1 a2 i same p q1 q2 = record {
    start = λ e. absurd (omega arith);
    later = λ h. (refl, counted);
    base = λ e. ground arith;
    small = omega (arith, counted, bounded, top);
    fits = omega (arith, top);
  }
    where
      v : ℕ
      v = op bitval1 bitval2

      top : vect1 (suc j1) ≤ 65535
      top = border_top a1.gap j1 a1.inside

      want_bit : (pos : ℕ) → want pos < 2
      want_bit pos =
          op_bit (xor1 (gap_bit vect1 pos) 0) (xor1 (gap_bit vect2 pos) 0) (omega arith)
            (omega arith)

      bounded : sum_below want (suc c) ≤ suc c
      bounded = sum_below-le want (suc c) (λ pos h. want_bit pos)

      run : (w : ℕ) → v ≡ w → sum_below want (suc c) ≡ sum_below want done + (suc c - done) * w
      run w e = sum_below_run want (suc c - done) done w (suc c) (omega arith) (λ pos lo hi.
          ap₂ op (IsAt-value a1 pos lo (omega arith)) (IsAt-value a2 pos lo (omega arith)) ∙ e)

      none_yet : sum_below want 0 ≡ 0
      none_yet = unfold sum_below in refl

      counted : next_count v prev res res_prev count c ≡ sum_below want (suc c)
      counted = elim (Bool-cases (v == 0)) [
        | inl clear ↦
            let e = ==→eq v 0 clear in
            rw clear (ground (arith, run 0 e, i.start, i.later, same, none_yet))
        | inr set ↦
            let e : v ≡ 1 =
              omega (arith, ==→ne v 0 set, op_bit bitval1 bitval2 (IsAt-bit a1) (IsAt-bit a2)) in
            rw set (
              ground
                (arith, run 1 e, e, i.start, i.later, i.base, i.small, i.fits, same, none_yet, top))
      ]

  count_op_loop_lem :
      (fuel j1 j2 done bitval1 bitval2 prev res res_prev count : ℕ)
      → IsAt vect1 0 j1 done bitval1
      → IsAt vect2 0 j2 done bitval2
      → IsCounted done prev res res_prev count
      → (done ≡ 0 → op bitval1 bitval2 ≡ prev)
      → last_word vect1 + last_word vect2 ≤ j1 + j2 + fuel
      → count_op_loop fuel op vect1 vect2 (suc j1) (suc j2) bitval1 bitval2 prev res res_prev count
        ≡ sum_below want gap_max_bits
  unfolding count_op_loop
  count_op_loop_lem zero j1 j2 done bitval1 bitval2 prev res res_prev count a1 a2 i same enough =
      absurd (omega (arith, a1.inside, a2.inside))
  count_op_loop_lem (suc fuel) j1 j2 done bitval1 bitval2 prev res res_prev count a1 a2 i same
        enough =
      let next1 : suc j1 + 1 ≡ suc (suc j1) = omega arith in
      let next2 : suc j2 + 1 ≡ suc (suc j2) = omega arith in
      let top1 = border_top a1.gap j1 a1.inside in
      let top2 = border_top a2.gap j2 a2.inside in
      let round = λ (c : ℕ) (p : done ≤ c) (q1 : c ≤ vect1 (suc j1)) (q2 : c ≤ vect2 (suc j2)).
        count_round j1 j2 done bitval1 bitval2 prev res res_prev count c a1 a2 i same p q1 q2 in
      rw (next1, next2)
        (elim (Bool-cases (ltb (vect1 (suc j1)) (vect2 (suc j2)))) [
          | inl less ↦
              let h = ltb→lt (vect1 (suc j1)) (vect2 (suc j2)) less in
              rw less (
                count_op_loop_lem fuel (suc j1) j2 _ _ _ _ _ _ _ (IsAt-next a1 (omega arith))
                  (IsAt-stay (vect1 (suc j1)) a2 a1.here.1 h)
                  (round (vect1 (suc j1)) a1.here.1 (omega arith) (omega arith))
                  (λ e. absurd (omega arith)) (omega arith))
          | inr not_less ↦
              let h = ltb→le (vect1 (suc j1)) (vect2 (suc j2)) not_less in
              let counted = round (vect2 (suc j2)) a2.here.1 h (omega arith) in
              rw not_less (elim (Bool-cases (ltb (vect2 (suc j2)) (vect1 (suc j1)))) [
                | inl more ↦
                    let m = ltb→lt (vect2 (suc j2)) (vect1 (suc j1)) more in
                    rw more (
                      count_op_loop_lem fuel j1 (suc j2) _ _ _ _ _ _ _
                        (IsAt-stay (vect2 (suc j2)) a1 a2.here.1 m) (IsAt-next a2 (omega arith))
                        counted (λ e. absurd (omega arith)) (omega arith))
                | inr not_more ↦
                    let equal : vect1 (suc j1) ≡ vect2 (suc j2) =
                      omega (arith, ltb→le (vect2 (suc j2)) (vect1 (suc j1)) not_more) in
                    rw not_more (elim (Bool-cases (vect2 (suc j2) == gap_max_bits - 1)) [
                      | inl last ↦
                          let e : suc (vect2 (suc j2)) ≡ gap_max_bits =
                            omega (arith, ==→eq (vect2 (suc j2)) (gap_max_bits - 1) last) in
                          rw last (rw e at ((counted.later (omega arith)).1))
                      | inr inner ↦
                          let ne = ==→ne (vect2 (suc j2)) (gap_max_bits - 1) inner in
                          rw inner (
                            count_op_loop_lem fuel (suc j1) (suc j2) _ _ _ _ _ _ _
                              (rw equal at (IsAt-next a1 (omega arith)))
                              (IsAt-next a2 (omega arith)) counted (λ e. absurd (omega arith))
                              (omega arith))
                    ])
              ])
        ])

  -- The count is the number of positions at which the functor's result is 1.
  pub gap_buff_count_op_lem :
      IsGap vect1
      → IsGap vect2
      → gap_buff_count_op op vect1 vect2
        ≡ sum_below
            (λ pos. op (xor1 (gap_bit vect1 pos) 0) (xor1 (gap_bit vect2 pos) 0))
            gap_max_bits
  unfolding gap_buff_count_op
  gap_buff_count_op_lem g1 g2 =
      let plain1 : xor1 (vect1 0 % 2) 0 ≡ vect1 0 % 2 = omega arith in
      let plain2 : xor1 (vect2 0 % 2) 0 ≡ vect2 0 % 2 = omega arith in
      let a1 : IsAt vect1 0 0 0 (vect1 0 % 2) = rw plain1 at (start-IsAt vect1 0 g1) in
      let a2 : IsAt vect2 0 0 0 (vect2 0 % 2) = rw plain2 at (start-IsAt vect2 0 g2) in
      let bit = op_bit (vect1 0 % 2) (vect2 0 % 2) (omega arith) (omega arith) in
      count_op_loop_lem (last_word vect1 + last_word vect2) 0 0 0 _ _ _ 0 0 _ a1 a2
        (record {
          start = λ e. (refl, refl, refl);
          later = λ h. absurd (omega arith);
          base = λ e. refl;
          small = omega arith;
          fits = omega arith;
        })
        (λ e. refl) (omega arith)

module _ (vect1 vect2 : Buffer) (g1 : IsGap vect1) (g2 : IsGap vect2) where
  -- The four named counts, each against the operation on one bit.
  pub gap_count_and_lem :
      gap_count_and vect1 vect2
      ≡ sum_below (λ pos. min (gap_bit vect1 pos) (gap_bit vect2 pos)) gap_max_bits
  unfolding gap_count_and gap_bit
  gap_count_and_lem =
      gap_buff_count_op_lem and_func and_func_bit vect1 vect2 g1 g2
      ∙ sum_below_ext _ _ gap_max_bits (λ pos h.
        omega (arith, and_func-eq-min (xor1 (gap_bit vect1 pos) 0) (xor1 (gap_bit vect2 pos) 0)))

  pub gap_count_or_lem :
      gap_count_or vect1 vect2
      ≡ sum_below (λ pos. max (gap_bit vect1 pos) (gap_bit vect2 pos)) gap_max_bits
  unfolding gap_count_or gap_bit
  gap_count_or_lem =
      gap_buff_count_op_lem or_func or_func_bit vect1 vect2 g1 g2
      ∙ sum_below_ext _ _ gap_max_bits (λ pos h.
        omega (arith, or_func-eq-max (xor1 (gap_bit vect1 pos) 0) (xor1 (gap_bit vect2 pos) 0)))

  pub gap_count_xor_lem :
      gap_count_xor vect1 vect2
      ≡ sum_below (λ pos. xor1 (gap_bit vect1 pos) (gap_bit vect2 pos)) gap_max_bits
  unfolding gap_count_xor gap_bit
  gap_count_xor_lem =
      gap_buff_count_op_lem xor_func xor_func_bit vect1 vect2 g1 g2
      ∙ sum_below_ext _ _ gap_max_bits (λ pos h.
        omega (arith, xor_func-eq-xor1 (xor1 (gap_bit vect1 pos) 0) (xor1 (gap_bit vect2 pos) 0)))

  pub gap_count_sub_lem :
      gap_count_sub vect1 vect2
      ≡ sum_below (λ pos. gap_bit vect1 pos - gap_bit vect2 pos) gap_max_bits
  unfolding gap_count_sub gap_bit
  gap_count_sub_lem =
      gap_buff_count_op_lem sub_func sub_func_bit vect1 vect2 g1 g2
      ∙ sum_below_ext _ _ gap_max_bits (λ pos h.
        omega (arith, sub_func-eq-sub (xor1 (gap_bit vect1 pos) 0) (xor1 (gap_bit vect2 pos) 0)))

-- For two well-formed blocks the named counts are the numbers of positions at which AND, OR, XOR
-- and SUB of the two bits are 1.
pub gap_counts_lem :
    (vect1 vect2 : Buffer)
    → IsGap vect1
    → IsGap vect2
    → (gap_count_and vect1 vect2
        ≡ sum_below (λ pos. min (gap_bit vect1 pos) (gap_bit vect2 pos)) gap_max_bits)
      × (gap_count_or vect1 vect2
          ≡ sum_below (λ pos. max (gap_bit vect1 pos) (gap_bit vect2 pos)) gap_max_bits)
      × (gap_count_xor vect1 vect2
          ≡ sum_below (λ pos. xor1 (gap_bit vect1 pos) (gap_bit vect2 pos)) gap_max_bits)
      × (gap_count_sub vect1 vect2
          ≡ sum_below (λ pos. gap_bit vect1 pos - gap_bit vect2 pos) gap_max_bits)
gap_counts_lem vect1 vect2 g1 g2 = (
  gap_count_and_lem vect1 vect2 g1 g2,
  gap_count_or_lem vect1 vect2 g1 g2,
  gap_count_xor_lem vect1 vect2 g1 g2,
  gap_count_sub_lem vect1 vect2 g1 g2,
)
