-- ===== src/Gap/Op/Any.antt =====
-- src/bmfunc.h: the test for a set bit in the result of an operation, without building it.
use bit_magic.Base.{
  ℕ, zero, suc, ◌+◌, ◌-◌, ◌%◌, ◌≤◌, ◌<◌, ◌≡◌, ◌≢◌, ◌↔◌, inl, inr, Buffer, ltb, ◌==◌, arith,
  Bool-cases, ltb→lt, ltb→le, ==→eq, ==→ne, xor1, ap₂, refl, min, ◌∙◌, sym,
}
use bit_magic.Gap.Layout.{gap_max_bits, last_word, gap_bit, IsGap}
use bit_magic.Gap.Order.{border_top}
use bit_magic.Gap.Op.{
  any_loop, gap_buff_any_op, and_func, xor_func, gap_operation_any_and, gap_operation_any_xor,
  gap_operation_any_sub,
}
use bit_magic.Gap.Op.Named.{and_func-eq-min, xor_func-eq-xor1}
use bit_magic.Gap.Op.Laws.{IsAt, IsAt-value, IsAt-next, IsAt-stay, start-IsAt}

module _ (op : ℕ → ℕ → ℕ) (vect1 : Buffer) (mask1 : ℕ) (vect2 : Buffer) (mask2 : ℕ) where
  -- No bit of the result is set from a position on.
  abbrev pub NoneFrom : ℕ → Type 0
  NoneFrom done =
      (pos : ℕ)
      → done ≤ pos
      → pos < gap_max_bits
      → op (xor1 (gap_bit vect1 pos) mask1) (xor1 (gap_bit vect2 pos) mask2) ≡ 0

  -- A run of clear bits leaves the question to the bits behind it.
  skip :
      (j1 j2 done bitval1 bitval2 c r : ℕ)
      → IsAt vect1 mask1 j1 done bitval1
      → IsAt vect2 mask2 j2 done bitval2
      → op bitval1 bitval2 ≡ 0
      → done ≤ c
      → c ≤ vect1 (suc j1)
      → c ≤ vect2 (suc j2)
      → (r ≡ 0) ↔ NoneFrom (suc c)
      → (r ≡ 0) ↔ NoneFrom done
  skip j1 j2 done bitval1 bitval2 c r a1 a2 clear p q1 q2 rest = (
    (λ e pos lo hi. elim (Bool-cases (ltb c pos)) [
      | inl later ↦ rest.0 e pos (ltb→lt c pos later) hi
      | inr early ↦
          let h = ltb→le c pos early in
          ap₂ op (IsAt-value a1 pos lo (omega arith)) (IsAt-value a2 pos lo (omega arith)) ∙ clear
    ]),
    (λ all. rest.1 (λ pos lo hi. all pos (omega arith) hi)),
  )

  found :
      (j1 j2 done bitval1 bitval2 : ℕ)
      → IsAt vect1 mask1 j1 done bitval1
      → IsAt vect2 mask2 j2 done bitval2
      → op bitval1 bitval2 ≢ 0
      → NoneFrom done
      → ⊥
  found j1 j2 done bitval1 bitval2 a1 a2 ne all =
      let here =
        ap₂ op (IsAt-value a1 done (omega arith) a1.here.1)
          (IsAt-value a2 done (omega arith) a2.here.1) in
      ne
        (sym here ∙ all done (omega arith) (omega (arith, a1.here, border_top a1.gap j1 a1.inside)))

  any_loop_iff :
      (fuel j1 j2 done bitval1 bitval2 : ℕ)
      → IsAt vect1 mask1 j1 done bitval1
      → IsAt vect2 mask2 j2 done bitval2
      → last_word vect1 + last_word vect2 ≤ j1 + j2 + fuel
      → (any_loop fuel op vect1 vect2 (suc j1) (suc j2) bitval1 bitval2 ≡ 0) ↔ NoneFrom done
  unfolding any_loop
  any_loop_iff zero j1 j2 done bitval1 bitval2 a1 a2 enough =
      absurd (omega (arith, a1.inside, a2.inside))
  any_loop_iff (suc fuel) j1 j2 done bitval1 bitval2 a1 a2 enough =
      let next1 : suc j1 + 1 ≡ suc (suc j1) = omega arith in
      let next2 : suc j2 + 1 ≡ suc (suc j2) = omega arith in
      let top1 = border_top a1.gap j1 a1.inside in
      let top2 = border_top a2.gap j2 a2.inside in
      rw (next1, next2)
        (elim (Bool-cases (op bitval1 bitval2 == 0)) [
          | inr set ↦
              let ne = ==→ne (op bitval1 bitval2) 0 set in
              rw set (
                (λ e. absurd (ne e)),
                (λ all. absurd (found j1 j2 done bitval1 bitval2 a1 a2 ne all)),
              )
          | inl clear ↦
              let v = ==→eq (op bitval1 bitval2) 0 clear in
              rw clear (elim (Bool-cases (ltb (vect1 (suc j1)) (vect2 (suc j2)))) [
                | inl less ↦
                    let h = ltb→lt (vect1 (suc j1)) (vect2 (suc j2)) less in
                    rw less (
                      skip j1 j2 done bitval1 bitval2 (vect1 (suc j1)) _ a1 a2 v a1.here.1
                        (omega arith) (omega arith)
                        (any_loop_iff fuel (suc j1) j2 _ _ _ (IsAt-next a1 (omega arith))
                          (IsAt-stay (vect1 (suc j1)) a2 a1.here.1 h) (omega arith)))
                | inr not_less ↦
                    let h = ltb→le (vect1 (suc j1)) (vect2 (suc j2)) not_less in
                    rw not_less (elim (Bool-cases (ltb (vect2 (suc j2)) (vect1 (suc j1)))) [
                      | inl more ↦
                          let m = ltb→lt (vect2 (suc j2)) (vect1 (suc j1)) more in
                          rw more (
                            skip j1 j2 done bitval1 bitval2 (vect2 (suc j2)) _ a1 a2 v a2.here.1 h
                              (omega arith)
                              (any_loop_iff fuel j1 (suc j2) _ _ _
                                (IsAt-stay (vect2 (suc j2)) a1 a2.here.1 m)
                                (IsAt-next a2 (omega arith)) (omega arith)))
                      | inr not_more ↦
                          let same : vect1 (suc j1) ≡ vect2 (suc j2) =
                            omega (arith, ltb→le (vect2 (suc j2)) (vect1 (suc j1)) not_more) in
                          rw not_more (elim (Bool-cases (vect2 (suc j2) == gap_max_bits - 1)) [
                            | inl last ↦
                                let e = ==→eq (vect2 (suc j2)) (gap_max_bits - 1) last in
                                rw last (
                                  skip j1 j2 done bitval1 bitval2 (vect2 (suc j2)) 0 a1 a2 v
                                    a2.here.1 h (omega arith)
                                    ((λ z pos lo hi. absurd (omega arith)), (λ all. refl)))
                            | inr inner ↦
                                let ne = ==→ne (vect2 (suc j2)) (gap_max_bits - 1) inner in
                                rw inner (
                                  skip j1 j2 done bitval1 bitval2 (vect2 (suc j2)) _ a1 a2 v
                                    a2.here.1 h (omega arith)
                                    (any_loop_iff fuel (suc j1) (suc j2) _ _ _
                                      (rw same at (IsAt-next a1 (omega arith)))
                                      (IsAt-next a2 (omega arith)) (omega arith)))
                          ])
                    ])
              ])
        ])

  -- For two well-formed blocks, any masks and any functor, the early-exit test answers 0 exactly
  -- when the functor's result on the masked bits is 0 at every position.
  pub gap_buff_any_op_iff :
      IsGap vect1 → IsGap vect2 → (gap_buff_any_op op vect1 mask1 vect2 mask2 ≡ 0) ↔ NoneFrom 0
  unfolding gap_buff_any_op
  gap_buff_any_op_iff g1 g2 =
      let a1 = start-IsAt vect1 mask1 g1 in
      let a2 = start-IsAt vect2 mask2 g2 in
      let v = op (xor1 (vect1 0 % 2) mask1) (xor1 (vect2 0 % 2) mask2) in
      elim (Bool-cases (v == 0)) [
        | inl clear ↦
            rw clear
              (any_loop_iff (last_word vect1 + last_word vect2) 0 0 0 _ _ a1 a2 (omega arith))
        | inr set ↦
            let ne = ==→ne v 0 set in
            rw set ((λ e. absurd (ne e)), (λ all. absurd (found 0 0 0 _ _ a1 a2 ne all)))
      ]

module _ (vect1 vect2 : Buffer) (g1 : IsGap vect1) (g2 : IsGap vect2) where
  -- The three named tests.
  pub gap_operation_any_and_iff :
      (gap_operation_any_and vect1 vect2 ≡ 0)
      ↔ ((pos : ℕ) → 0 ≤ pos → pos < gap_max_bits → min (gap_bit vect1 pos) (gap_bit vect2 pos) ≡ 0)
  unfolding gap_operation_any_and gap_bit
  gap_operation_any_and_iff =
      let iff = gap_buff_any_op_iff and_func vect1 0 vect2 0 g1 g2 in
      (
        (λ e pos p q. omega (
          arith,
          iff.0 e pos p q,
          and_func-eq-min (xor1 (gap_bit vect1 pos) 0) (xor1 (gap_bit vect2 pos) 0),
        )),
        (λ all. iff.1 (λ pos p q. omega (
          arith,
          all pos p q,
          and_func-eq-min (xor1 (gap_bit vect1 pos) 0) (xor1 (gap_bit vect2 pos) 0),
        ))),
      )

  pub gap_operation_any_xor_iff : (gap_operation_any_xor vect1 vect2 ≡ 0) ↔ (
      (pos : ℕ) → 0 ≤ pos → pos < gap_max_bits → xor1 (gap_bit vect1 pos) (gap_bit vect2 pos) ≡ 0)
  unfolding gap_operation_any_xor gap_bit
  gap_operation_any_xor_iff =
      let iff = gap_buff_any_op_iff xor_func vect1 0 vect2 0 g1 g2 in
      (
        (λ e pos p q. omega (
          arith,
          iff.0 e pos p q,
          xor_func-eq-xor1 (xor1 (gap_bit vect1 pos) 0) (xor1 (gap_bit vect2 pos) 0),
        )),
        (λ all. iff.1 (λ pos p q. omega (
          arith,
          all pos p q,
          xor_func-eq-xor1 (xor1 (gap_bit vect1 pos) 0) (xor1 (gap_bit vect2 pos) 0),
        ))),
      )

  pub gap_operation_any_sub_iff :
      (gap_operation_any_sub vect1 vect2 ≡ 0)
      ↔ ((pos : ℕ) → 0 ≤ pos → pos < gap_max_bits → gap_bit vect1 pos - gap_bit vect2 pos ≡ 0)
  unfolding gap_operation_any_sub gap_bit
  gap_operation_any_sub_iff =
      let iff = gap_buff_any_op_iff and_func vect1 0 vect2 1 g1 g2 in
      (
        (λ e pos p q. omega (
          arith,
          iff.0 e pos p q,
          and_func-eq-min (xor1 (gap_bit vect1 pos) 0) (xor1 (gap_bit vect2 pos) 1),
        )),
        (λ all. iff.1 (λ pos p q. omega (
          arith,
          all pos p q,
          and_func-eq-min (xor1 (gap_bit vect1 pos) 0) (xor1 (gap_bit vect2 pos) 1),
        ))),
      )

-- No position of [0, 65536) satisfies f on the two blocks' bits.
abbrev pub Never : (ℕ → ℕ → ℕ) → Buffer → Buffer → Type 0
Never f vect1 vect2 =
    (pos : ℕ) → 0 ≤ pos → pos < gap_max_bits → f (gap_bit vect1 pos) (gap_bit vect2 pos) ≡ 0

-- For two well-formed blocks the named tests answer 0 exactly when no position has a set bit in
-- the AND, the XOR and the SUB.
pub gap_operations_any_iff :
    (vect1 vect2 : Buffer)
    → IsGap vect1
    → IsGap vect2
    → ((gap_operation_any_and vect1 vect2 ≡ 0) ↔ Never min vect1 vect2)
      × ((gap_operation_any_xor vect1 vect2 ≡ 0) ↔ Never xor1 vect1 vect2)
      × ((gap_operation_any_sub vect1 vect2 ≡ 0) ↔ Never (λ a b. a - b) vect1 vect2)
gap_operations_any_iff vect1 vect2 g1 g2 = (
  gap_operation_any_and_iff vect1 vect2 g1 g2,
  gap_operation_any_xor_iff vect1 vect2 g1 g2,
  gap_operation_any_sub_iff vect1 vect2 g1 g2,
)
