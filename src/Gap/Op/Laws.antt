-- ===== src/Gap/Op/Laws.antt =====
-- src/bmfunc.h: the destination of `gap_buff_op` holds the functor's result at every position.
use bit_magic.Base.{
  ℕ, zero, suc, ◌+◌, ◌-◌, ◌%◌, ◌≤◌, ◌<◌, ◌≡◌, inl, inr, Buffer, store, ltb, ◌==◌, if◌then◌else◌,
  arith, Bool-cases, ltb→lt, ltb→le, ==→eq, ==→ne, xor1, ap₂, refl,
}
use bit_magic.Gap.Layout.{gap_max_bits, last_word, gap_bit, IsGap, InGap}
use bit_magic.Gap.Order.{gap_bit-InGap, border_next, border_top}
use bit_magic.Gap.Op.{op_loop, gap_buff_op}
use bit_magic.Gap.Op.Runs.{IsBuilt, append_run, built_block}

-- One operand of a loop: it stands in the gap j, which holds the position `done`, and `bitval` is
-- the value of that gap under the mask.
pub record IsAt (vect : Buffer) (mask j done bitval : ℕ) : Type 0 where
  pub gap : IsGap vect
  pub inside : j < last_word vect
  pub here : InGap vect j done
  pub value : bitval ≡ (vect 0 + j + mask) % 2

pub IsAt-value :
    {vect : Buffer} {mask j done bitval : ℕ}
    → IsAt vect mask j done bitval
    → (pos : ℕ) → done ≤ pos
    → pos ≤ vect (suc j)
    → xor1 (gap_bit vect pos) mask ≡ bitval
IsAt-value {vect} {mask} {j} a pos p q =
    omega (arith, a.value, gap_bit-InGap a.gap j pos a.inside (omega (arith, a.here), q))

pub IsAt-bit : {vect : Buffer} {mask j done bitval : ℕ} → IsAt vect mask j done bitval → bitval < 2
IsAt-bit a = omega (arith, a.value)

-- The pointer moves on behind its border, or stays when the other border comes first.
pub IsAt-next :
    {vect : Buffer} {mask j done bitval : ℕ}
    → IsAt vect mask j done bitval
    → vect (suc j) < 65535
    → IsAt vect mask (suc j) (suc (vect (suc j))) (xor1 bitval 1)
IsAt-next {vect} {mask} {j} a more =
    let inside = border_next a.gap j 65535 a.inside more (omega arith) in
    record {
      gap = a.gap;
      inside = inside;
      here = (omega arith, a.gap.rising j inside);
      value = omega (arith, a.value);
    }

pub IsAt-stay :
    {vect : Buffer} {mask j done bitval : ℕ} (c : ℕ)
    → IsAt vect mask j done bitval
    → done ≤ c
    → c < vect (suc j)
    → IsAt vect mask j (suc c) bitval
IsAt-stay c a p q = record {
  gap = a.gap;
  inside = a.inside;
  here = (omega (arith, a.here), q);
  value = a.value;
}

-- Where the loops begin.
pub start-IsAt :
    (vect : Buffer) (mask : ℕ) → IsGap vect → IsAt vect mask 0 0 (xor1 (vect 0 % 2) mask)
start-IsAt vect mask g = record {
  gap = g;
  inside = g.nonempty;
  here = (omega arith, omega arith);
  value = omega arith;
}

start-IsBuilt : (want : ℕ → ℕ) (dest : Buffer) (v : ℕ) → v < 2 → IsBuilt want (store dest 0 v) 0 0 v
start-IsBuilt want dest v bit = record {
  first = bit;
  run = omega arith;
  empty = λ e. refl;
  filled = λ h. absurd (omega arith);
  rising = λ i h. absurd (omega arith);
  bits = λ pos h. absurd (omega arith);
}

module _ (op : ℕ → ℕ → ℕ) (op_bit : (a b : ℕ) → a < 2 → b < 2 → op a b < 2) where
  -- What the destination is to hold.
  abbrev pub combined : Buffer → ℕ → Buffer → ℕ → ℕ → ℕ
  combined vect1 mask1 vect2 mask2 pos =
      op (xor1 (gap_bit vect1 pos) mask1) (xor1 (gap_bit vect2 pos) mask2)

  module _ (vect1 : Buffer) (mask1 : ℕ) (vect2 : Buffer) (mask2 : ℕ) where
    abbrev want : ℕ → ℕ
    want = combined vect1 mask1 vect2 mask2

    abbrev total : ℕ
    total = last_word vect1 + last_word vect2

    -- A finished destination of at most one border less than both operands have.
    abbrev IsDone : ℕ × Buffer → Type 0
    IsDone (res, dest) =
        (r : ℕ) × (prev : ℕ) × (res ≡ suc r)
        × IsBuilt want dest r gap_max_bits prev
        × (suc r < total)

    -- What a round writes.
    grow :
        (dest : Buffer) (r j1 j2 done bitval1 bitval2 prev : ℕ)
        → IsAt vect1 mask1 j1 done bitval1
        → IsAt vect2 mask2 j2 done bitval2
        → IsBuilt want dest r done prev
        → (done ≡ 0 → op bitval1 bitval2 ≡ prev)
        → (c : ℕ) → done ≤ c
        → c ≤ vect1 (suc j1)
        → c ≤ vect2 (suc j2)
        → let r' = if op bitval1 bitval2 == prev then r else suc r in
          IsBuilt want (store dest (suc r') c) r' (suc c) (op bitval1 bitval2)
    grow dest r j1 j2 done bitval1 bitval2 prev a1 a2 b start c p q1 q2 =
        append_run b (op bitval1 bitval2) c (op_bit bitval1 bitval2 (IsAt-bit a1) (IsAt-bit a2)) p
          (λ pos lo hi.
            ap₂ op (IsAt-value a1 pos lo (omega arith)) (IsAt-value a2 pos lo (omega arith)))
          start

    grow_size :
        (r j1 j2 done v prev : ℕ)
        → (done ≡ 0 → r ≡ 0)
        → (done ≡ 0 → v ≡ prev)
        → (0 < done → suc r ≤ j1 + j2)
        → suc (if v == prev then r else suc r) ≤ suc (j1 + j2)
    grow_size r j1 j2 done v prev empty start size = ground (arith, empty, start, size)

    op_loop-IsDone :
        (fuel : ℕ) (dest : Buffer) (r j1 j2 done bitval1 bitval2 prev : ℕ)
        → IsAt vect1 mask1 j1 done bitval1
        → IsAt vect2 mask2 j2 done bitval2
        → IsBuilt want dest r done prev
        → (done ≡ 0 → op bitval1 bitval2 ≡ prev)
        → (0 < done → suc r ≤ j1 + j2)
        → total ≤ j1 + j2 + fuel
        → IsDone (op_loop fuel op vect1 vect2 dest (suc r) (suc j1) (suc j2) bitval1 bitval2 prev)
    unfolding op_loop
    op_loop-IsDone zero dest r j1 j2 done bitval1 bitval2 prev a1 a2 b start size enough =
        absurd (omega (arith, a1.inside, a2.inside))
    op_loop-IsDone (suc fuel) dest r j1 j2 done bitval1 bitval2 prev a1 a2 b start size enough =
        let v = op bitval1 bitval2 in
        let r' = if v == prev then r else suc r in
        let slot : (if v == prev then suc r else suc r + 1) ≡ suc r' = ground arith in
        let next1 : suc j1 + 1 ≡ suc (suc j1) = omega arith in
        let next2 : suc j2 + 1 ≡ suc (suc j2) = omega arith in
        let grown = λ (c : ℕ) (p : done ≤ c) (q1 : c ≤ vect1 (suc j1)) (q2 : c ≤ vect2 (suc j2)).
          grow dest r j1 j2 done bitval1 bitval2 prev a1 a2 b start c p q1 q2 in
        let size' = grow_size r j1 j2 done v prev b.empty start size in
        let top1 = border_top a1.gap j1 a1.inside in
        let top2 = border_top a2.gap j2 a2.inside in
        rw (slot, next1, next2)
          (elim (Bool-cases (ltb (vect1 (suc j1)) (vect2 (suc j2)))) [
            | inl less ↦
                let h = ltb→lt (vect1 (suc j1)) (vect2 (suc j2)) less in
                rw less (
                  op_loop-IsDone fuel _ r' (suc j1) j2 _ _ _ _ (IsAt-next a1 (omega arith))
                    (IsAt-stay (vect1 (suc j1)) a2 a1.here.1 h)
                    (grown (vect1 (suc j1)) a1.here.1 (omega arith) (omega arith))
                    (λ e. absurd (omega arith)) (λ z. omega arith) (omega arith))
            | inr not_less ↦
                let h = ltb→le (vect1 (suc j1)) (vect2 (suc j2)) not_less in
                let built = grown (vect2 (suc j2)) a2.here.1 h (omega arith) in
                rw not_less (elim (Bool-cases (ltb (vect2 (suc j2)) (vect1 (suc j1)))) [
                  | inl more ↦
                      let m = ltb→lt (vect2 (suc j2)) (vect1 (suc j1)) more in
                      rw more (
                        op_loop-IsDone fuel _ r' j1 (suc j2) _ _ _ _
                          (IsAt-stay (vect2 (suc j2)) a1 a2.here.1 m) (IsAt-next a2 (omega arith))
                          built (λ e. absurd (omega arith)) (λ z. omega arith) (omega arith))
                  | inr not_more ↦
                      let same : vect1 (suc j1) ≡ vect2 (suc j2) =
                        omega (arith, ltb→le (vect2 (suc j2)) (vect1 (suc j1)) not_more) in
                      rw not_more (elim (Bool-cases (vect2 (suc j2) == gap_max_bits - 1)) [
                        | inl last ↦
                            let e : suc (vect2 (suc j2)) ≡ gap_max_bits =
                              omega (arith, ==→eq (vect2 (suc j2)) (gap_max_bits - 1) last) in
                            rw last
                              (r', v, refl, rw e at built, omega (arith, a1.inside, a2.inside))
                        | inr inner ↦
                            let ne = ==→ne (vect2 (suc j2)) (gap_max_bits - 1) inner in
                            rw inner (
                              op_loop-IsDone fuel _ r' (suc j1) (suc j2) _ _ _ _
                                (rw same at (IsAt-next a1 (omega arith)))
                                (IsAt-next a2 (omega arith)) built (λ e. absurd (omega arith))
                                (λ z. omega arith) (omega arith))
                      ])
                ])
          ])

  -- For every functor that maps bits to bits, two well-formed blocks whose last words sum to at
  -- most 8192 merge into a well-formed block: its length is the one returned, less than the sum
  -- of the two, and at every position it holds the functor's result on the two bits, each turned
  -- over by its mask.
  pub gap_buff_op_lem :
      (dest vect1 : Buffer) (mask1 : ℕ) (vect2 : Buffer) (mask2 : ℕ)
      → IsGap vect1
      → IsGap vect2
      → last_word vect1 + last_word vect2 ≤ 8192
      → let (dlen, out) = gap_buff_op op dest vect1 mask1 vect2 mask2 in
        IsGap out
        × (last_word out ≡ dlen)
        × (dlen < last_word vect1 + last_word vect2)
        × ((pos : ℕ) → pos < gap_max_bits → gap_bit out pos ≡ combined vect1 mask1 vect2 mask2 pos)
  unfolding gap_buff_op
  gap_buff_op_lem dest vect1 mask1 vect2 mask2 g1 g2 room =
      let a1 = start-IsAt vect1 mask1 g1 in
      let a2 = start-IsAt vect2 mask2 g2 in
      let bit = op_bit _ _ (IsAt-bit a1) (IsAt-bit a2) in
      let (r, prev, at, built, short) =
        op_loop-IsDone vect1 mask1 vect2 mask2 (last_word vect1 + last_word vect2) _ 0 0 0 0 _ _ _
          a1 a2 (start-IsBuilt (combined vect1 mask1 vect2 mask2) dest _ bit) (λ e. refl)
          (λ h. absurd (omega arith)) (omega arith) in
      let (gap, last, bits) = built_block built (omega arith) in rw at (gap, last, short, bits)
