-- ===== src/Gap/Op/Runs.antt =====
-- A GAP block that is built run by run, from position 0 on: the shape in which the loops of
-- src/bmfunc.h write their destination.
use bit_magic.Base.{
  ℕ, zero, suc, ◌+◌, ◌%◌, ◌≤◌, ◌<◌, ◌≡◌, ◌≢◌, inl, inr, Buffer, store, ltb, ◌==◌, if◌then◌else◌,
  arith, Bool-cases, ltb→lt, ltb→le, ==→eq, ==→ne,
}
use bit_magic.Gap.Layout.{
  gap_max_bits, last_word, borders_below, gap_bit, IsGap, IsRising, set_last_word,
}
use bit_magic.Gap.Order.{border_lt}
use bit_magic.Gap.Set.Insert.{borders_below_ext}
use bit_magic.Gap.Set.Borders.{borders_below-suc}

-- The bits of [0, done) are written as `want` says, in r + 1 borders (none of them at done = 0),
-- and the run at the end has the bit `prev`.
pub record IsBuilt (want : ℕ → ℕ) (dest : Buffer) (r done prev : ℕ) : Type 0 where
  pub first : dest 0 < 2
  pub run : prev ≡ (dest 0 + r) % 2
  pub empty : done ≡ 0 → r ≡ 0
  pub filled : 0 < done → suc (dest (suc r)) ≡ done
  pub rising : IsRising dest (suc r)
  pub bits : (pos : ℕ) → pos < done → (dest 0 + borders_below dest r pos) % 2 ≡ want pos

all_below :
    (b : Buffer) (pos r : ℕ) → ((i : ℕ) → i < r → b (suc i) < pos) → borders_below b r pos ≡ r
unfolding borders_below
all_below b pos zero h = ground arith
all_below b pos (suc r) h = ground (arith, h r, all_below b pos r (λ i p. h i (omega arith)))

module _ {want : ℕ → ℕ} {dest : Buffer} {r done prev : ℕ} (b : IsBuilt want dest r done prev)
    (v c : ℕ) (bit : v < 2) (ahead : done ≤ c)
    (run : (pos : ℕ) → done ≤ pos → pos ≤ c → want pos ≡ v) where
  -- All borders so far lie before the position of a new run.
  behind : (pos : ℕ) → done ≤ pos → (i : ℕ) → i < r → dest (suc i) < pos
  behind pos p i h =
      ground (arith, b.empty, b.filled, border_lt dest (suc r) b.rising i r h (omega arith))

  behind_end : (pos : ℕ) → done ≤ pos → 0 < done → (i : ℕ) → i < suc r → dest (suc i) < pos
  behind_end pos p some i h = elim (Bool-cases (ltb i r)) [
    | inl early ↦ behind pos p i (ltb→lt i r early)
    | inr last ↦
        let at : i ≡ r = omega (arith, ltb→le i r last) in rw at (omega (arith, b.filled some))
  ]

  -- The run goes on.
  extend_run : v ≡ prev → IsBuilt want (store dest (suc r) c) r (suc c) v
  extend_run same = record {
    first = ground (arith, b.first);
    run = ground (arith, b.run);
    empty = λ e. absurd (omega arith);
    filled = λ h. ground arith;
    rising = λ i h. ground (arith, b.rising i, b.filled, b.empty);
    bits = λ pos h. elim (Bool-cases (ltb pos done)) [
      | inl old ↦ ground (arith, kept pos, b.bits pos (ltb→lt pos done old))
      | inr new ↦
          let p = ltb→le pos done new in
          ground
            (arith, kept pos, all_below dest pos r (behind pos p), b.run, run pos p (omega arith))
    ];
  }
    where
      kept : (pos : ℕ) → borders_below (store dest (suc r) c) r pos ≡ borders_below dest r pos
      kept pos = borders_below_ext dest (store dest (suc r) c) pos r (λ i h. ground arith)

  -- A new run begins.
  new_run : v ≢ prev → 0 < done → IsBuilt want (store dest (suc (suc r)) c) (suc r) (suc c) v
  new_run other some = record {
    first = ground (arith, b.first);
    run = ground (arith, b.run);
    empty = λ e. absurd (omega arith);
    filled = λ h. ground arith;
    rising = λ i h. ground (arith, b.rising i, b.filled some);
    bits = λ pos h. elim (Bool-cases (ltb pos done)) [
      | inl old ↦
          let q = ltb→lt pos done old in
          ground (arith, kept pos, borders_below-suc dest r pos, b.filled some, b.bits pos q)
      | inr new ↦
          let p = ltb→le pos done new in
          ground (
            arith,
            kept pos,
            all_below dest pos (suc r) (behind_end pos p some),
            b.run,
            run pos p (omega arith),
          )
    ];
  }
    where
      kept :
          (pos : ℕ)
          → borders_below (store dest (suc (suc r)) c) (suc r) pos ≡ borders_below dest (suc r) pos
      kept pos =
          borders_below_ext dest (store dest (suc (suc r)) c) pos (suc r) (λ i h. ground arith)

  some_done : ¬ (done ≡ 0) → 0 < done
  some_done h = omega arith

  -- One round of the loops: `res += (bitval != bitval_prev); *res = c;`.
  pub append_run :
      (done ≡ 0 → v ≡ prev)
      → let r' = if v == prev then r else suc r in IsBuilt want (store dest (suc r') c) r' (suc c) v
  append_run start = elim (Bool-cases (v == prev)) [
    | inl same ↦ rw same (extend_run (==→eq v prev same))
    | inr other ↦
        let ne = ==→ne v prev other in rw other (new_run ne (some_done (λ e. ne (start e))))
  ]

-- Once all 65536 bits are written and the length is in the header, the block is well formed and
-- has the bits that were wanted.
pub built_block :
    {want : ℕ → ℕ} {dest : Buffer} {r prev : ℕ}
    → IsBuilt want dest r gap_max_bits prev
    → suc r < 8192
    → let out = store dest 0 (set_last_word (dest 0) (suc r)) in
      IsGap out
      × (last_word out ≡ suc r)
      × ((pos : ℕ) → pos < gap_max_bits → gap_bit out pos ≡ want pos)
unfolding gap_bit
built_block {want} {dest} {r} b room = (
  record {
    header = omega arith;
    nonempty = omega (arith, last);
    rising = rw last (λ i h. ground (arith, b.rising i));
    closed = rw last (ground (arith, b.filled (omega arith)));
  },
  last,
  λ pos h. rw last (
      ground (
        arith,
        kept pos,
        borders_below-suc dest r pos,
        b.filled (omega arith),
        b.bits pos h,
        b.first,
      )),
)
  where
    last : last_word (store dest 0 (set_last_word (dest 0) (suc r))) ≡ suc r
    last = omega (arith, b.first)

    kept :
        (pos : ℕ)
        → borders_below (store dest 0 (set_last_word (dest 0) (suc r))) (suc r) pos
          ≡ borders_below dest (suc r) pos
    kept pos =
        borders_below_ext dest (store dest 0 (set_last_word (dest 0) (suc r))) pos (suc r)
          (λ i h. ground arith)
