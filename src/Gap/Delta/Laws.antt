-- ===== src/Gap/Delta/Laws.antt =====
-- src/bmfunc.h: the delta form of a GAP block gives the block back.
use bit_magic.Base.{
  ℕ, zero, suc, ◌+◌, ◌-◌, ◌≤◌, ◌<◌, ◌≡◌, refl, sym, inl, inr, Bool, true, false, Buffer, store, ltb,
  leb, ◌==◌, if◌then◌else◌, arith, Bool-cases, ltb→lt, ltb→le, leb→le, leb→lt, u16, add16, sub16,
}
use bit_magic.Gap.Layout.{last_word, IsGap}
use bit_magic.Gap.Order.{border_top}
use bit_magic.Gap.Delta.{
  dgap_loop, for_each_dgap, d_copy_func, gap_2_dgap, restore_loop, dgap_2_gap,
}

-- From the index b on, `dgap_buf` holds the first n differences of `buf`, and before it the header.
pub record IsDelta (buf dgap_buf : Buffer) (b n : ℕ) : Type 0 where
  pub head : b ≡ 1 → dgap_buf 0 ≡ buf 0
  pub first : dgap_buf b ≡ u16 (buf 1 + 1)
  pub others : (k : ℕ) → 0 < k → k < n → dgap_buf (b + k) ≡ sub16 (buf (suc k)) (buf k)

module _ (buf : Buffer) (b : ℕ) where
  -- One more difference.
  next-IsDelta :
      (dgap_buf : Buffer) (c v : ℕ)
      → 0 < c
      → v ≡ sub16 (buf (suc c)) (buf c)
      → IsDelta buf dgap_buf b c
      → IsDelta buf (store dgap_buf (b + c) v) b (suc c)
  next-IsDelta dgap_buf c v some e d = record {
    head = λ h. ground (arith, d.head h);
    first = ground (arith, d.first);
    others = λ k p q. elim (Bool-cases (ltb k c)) [
      | inl early ↦ let h = ltb→lt k c early in ground (arith, d.others k p h)
      | inr last ↦ let same : k ≡ c = omega (arith, ltb→le k c last) in rw same (ground (arith, e))
    ];
  }

  dgap_loop-IsDelta :
      (fuel c : ℕ) (dgap_buf : Buffer)
      → 0 < c
      → last_word buf ≤ fuel + c
      → 0 < fuel
      → IsDelta buf dgap_buf b c
      → let r = dgap_loop fuel buf d_copy_func (last_word buf) (suc c) (buf c) (dgap_buf, b + c) in
        IsDelta buf r.0 b (last_word buf - 1)
  unfolding dgap_loop
  dgap_loop-IsDelta zero c dgap_buf some enough fuelled d = absurd (omega arith)
  dgap_loop-IsDelta (suc fuel) c dgap_buf some enough fuelled d =
      let next = next-IsDelta dgap_buf c (sub16 (buf (suc c)) (buf c)) some refl d in
      let e : suc c + 1 ≡ suc (suc c) = omega arith in
      let e' : b + c + 1 ≡ b + suc c = omega arith in
      rw e (
        rw e' (elim (Bool-cases (ltb (suc (suc c)) (last_word buf))) [
          | inl more ↦
              let h = ltb→lt (suc (suc c)) (last_word buf) more in
              rw more
                (dgap_loop-IsDelta fuel (suc c) _ (omega arith) (omega arith) (omega arith) next)
          | inr done ↦
              let h = ltb→le (suc (suc c)) (last_word buf) done in
              rw done (record {
                head = next.head;
                first = next.first;
                others = λ k p q. next.others k p (omega arith);
              })
        ]))

-- The delta form of a block, with its header and without.
gap_2_dgap-IsDelta :
    (buf dest : Buffer) (copy_head : Bool)
    → IsGap buf
    → IsDelta buf (gap_2_dgap buf dest copy_head).0 (if copy_head then 1 else 0) (last_word buf - 1)
unfolding gap_2_dgap for_each_dgap
gap_2_dgap-IsDelta buf dest false g =
    dgap_loop-IsDelta buf 0 (last_word buf) 1 _ (omega arith) (omega arith) g.nonempty (record {
      head = λ e. absurd (omega arith);
      first = ground arith;
      others = λ k p q. absurd (omega arith);
    })
gap_2_dgap-IsDelta buf dest true g =
    dgap_loop-IsDelta buf 1 (last_word buf) 1 _ (omega arith) (omega arith) g.nonempty (record {
      head = λ e. ground arith;
      first = ground arith;
      others = λ k p q. absurd (omega arith);
    })

module _ (buf dgap_buf : Buffer) (b : ℕ) (g : IsGap buf)
    (d : IsDelta buf dgap_buf b (last_word buf - 1)) where
  -- The first c words are those of the block.
  abbrev AgreesTo : Buffer → ℕ → Type 0
  AgreesTo out c = (k : ℕ) → k ≤ c → k ≤ last_word buf → out k ≡ buf k

  agree_next :
      (out : Buffer) (c v : ℕ)
      → (suc c ≤ last_word buf → v ≡ buf (suc c))
      → AgreesTo out c
      → AgreesTo (store out (suc c) v) (suc c)
  agree_next out c v e a k p q = elim (Bool-cases (leb k c)) [
    | inl early ↦ let h = leb→le k c early in ground (arith, a k h q)
    | inr last ↦
        let same : k ≡ suc c = omega (arith, leb→lt k c last) in
        rw same (ground (arith, e (omega arith)))
  ]

  at_end : (c : ℕ) → last_word buf ≤ suc c → suc c ≤ last_word buf → 65535 ≡ buf (suc c)
  at_end c p q = let e : suc c ≡ last_word buf = omega arith in rw e (sym g.closed)

  restored :
      (c prev : ℕ)
      → 0 < c
      → suc c < last_word buf
      → prev ≡ buf c
      → add16 (dgap_buf (b + c)) prev ≡ buf (suc c)
  restored zero prev some h e = absurd (omega arith)
  restored (suc c) prev some h e = omega (
    arith,
    e,
    d.others (suc c) (omega arith) (omega arith),
    border_top g (suc c) (omega arith),
    border_top g c (omega arith),
  )

  restore_loop-AgreesTo :
      (fuel c : ℕ) (out : Buffer)
      → 0 < c
      → c < last_word buf + (2 - last_word buf)
      → last_word buf ≤ suc (fuel + c)
      → AgreesTo out c
      → AgreesTo
          (restore_loop fuel dgap_buf out (suc c) (b + c) (b + (last_word buf - 1)))
          (last_word buf)
  unfolding restore_loop
  restore_loop-AgreesTo zero c out some low enough a =
      λ k p q. agree_next out c 65535 (at_end c (omega arith)) a k (omega arith) q
  restore_loop-AgreesTo (suc fuel) c out some low enough a =
      elim (Bool-cases (ltb (b + c) (b + (last_word buf - 1)))) [
        | inl more ↦
            let h = ltb→lt (b + c) (b + (last_word buf - 1)) more in
            let e : suc c + 1 ≡ suc (suc c) = omega arith in
            let e' : b + c + 1 ≡ b + suc c = omega arith in
            rw more (
              rw e (
                rw e' (
                  restore_loop-AgreesTo fuel (suc c) _ (omega arith) (omega arith) (omega arith) (
                    agree_next out c _
                      (λ low'. restored c (out (suc c - 1)) some (omega arith) (
                        let q : suc c - 1 ≡ c = omega arith in
                        rw q (a c (omega arith) (omega arith))))
                      a))))
        | inr done ↦
            let h = ltb→le (b + c) (b + (last_word buf - 1)) done in
            rw done (λ k p q. agree_next out c 65535 (at_end c (omega arith)) a k (omega arith) q)
      ]

  -- The header, and the first border, whose difference wraps to 0 where it is the last bit.
  first_words :
      (dest : Buffer)
      → AgreesTo
          (store (store dest 0 (buf 0)) 1 (if dgap_buf b == 0 then 65535 else sub16 (dgap_buf b) 1))
          1
  first_words dest zero p q = ground arith
  first_words dest (suc k) p q =
      let z : k ≡ 0 = omega arith in rw z (ground (arith, d.first, border_top g 0 g.nonempty))

-- A well-formed block that is converted to the delta form, with its header or without, and back
-- gives every word of the block again, up to its last, whatever the two destinations held.
pub dgap_2_gap-gap_2_dgap :
    (buf dest1 dest2 : Buffer) (copy_head : Bool)
    → IsGap buf
    → let dgap_buf = (gap_2_dgap buf dest1 copy_head).0 in
      let header = if copy_head then 0 else buf 0 in
      (k : ℕ) → k ≤ last_word buf → dgap_2_gap dgap_buf dest2 header k ≡ buf k
unfolding dgap_2_gap
dgap_2_gap-gap_2_dgap buf dest1 dest2 false g =
    let d = gap_2_dgap-IsDelta buf dest1 false g in
    let ne : (buf 0 == 0) ≡ false = ground (arith, g.nonempty) in
    λ k p. rw ne (
      restore_loop-AgreesTo buf (gap_2_dgap buf dest1 false).0 0 g d (last_word buf - 1) 1 _
        (omega arith) (omega (arith, g.nonempty)) (omega arith)
        (first_words buf (gap_2_dgap buf dest1 false).0 0 g d dest2) k p p)
dgap_2_gap-gap_2_dgap buf dest1 dest2 true g =
    let d = gap_2_dgap-IsDelta buf dest1 true g in
    λ k p. rw (d.head refl) (
      restore_loop-AgreesTo buf (gap_2_dgap buf dest1 true).0 1 g d (last_word buf - 1) 1 _
        (omega arith) (omega (arith, g.nonempty)) (omega arith)
        (first_words buf (gap_2_dgap buf dest1 true).0 1 g d dest2) k p p)
