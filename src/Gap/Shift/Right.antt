-- ===== src/Gap/Shift/Right.antt =====
-- src/bmfunc.h: the shift of a GAP block to higher positions.
use bit_magic.Base.{
  ℕ, suc, ◌+◌, ◌-◌, ◌%◌, ◌≤◌, ◌<◌, ◌≡◌, ◌≢◌, ◌∙◌, sym, ◌&&◌, inl, inr, Buffer, store, ltb, leb,
  ◌==◌, if◌then◌else◌, arith, Bool-cases, ==→eq, ==→ne, ltb→lt, ltb→le, add16,
}
use bit_magic.Gap.Layout.{
  gap_max_bits, first_bit, last_word, set_last_word, borders_below, gap_bit, IsGap,
}
use bit_magic.Gap.Order.{border_inner, border_last, gap_start-le, gap_bit-InGap}
use bit_magic.Gap.Set.Insert.{borders_below_ext}
use bit_magic.Gap.Set.Borders.{borders_below-suc}
use bit_magic.Gap.Set.{gap_set_value}
use bit_magic.Gap.Set.Laws.{gap_set_value_lem}
use bit_magic.Gap.Shift.{shift_loop, Shifted, gap_shift_r1}
use bit_magic.Gap.Shift.Loop.{shift_loop_word, shift_loop_bit, borders_below_moved}

-- The block, one position up, with anything in position 0.
pub record IsUp (buf out : Buffer) : Type 0 where
  pub gap : IsGap out
  pub short : last_word out ≤ last_word buf
  pub bits : (pos : ℕ) → suc pos < gap_max_bits → gap_bit out (suc pos) ≡ gap_bit buf pos

module _ (buf : Buffer) (g : IsGap buf) (m : ℕ) (size : last_word buf ≡ suc m) (many : 0 < m)
    (moved : Buffer) (same_header : moved 0 ≡ buf 0)
    (up : (i : ℕ) → i < m → moved (suc i) ≡ suc (buf (suc i))) (top : moved (suc m) ≡ 65535) where
  -- The moved borders rise, and a border that is not the last moves to 65535 at most.
  rise : (i : ℕ) → suc i < m → moved (suc i) < moved (suc (suc i))
  rise i h = omega (arith, up i (omega arith), up (suc i) h, g.rising i (omega arith))

  rise_last : moved m ≢ 65535 → (i : ℕ) → suc i ≡ m → moved (suc i) < moved (suc (suc i))
  rise_last inner i e =
      let at : moved (suc i) ≢ 65535 = rw e inner in
      let last : moved (suc (suc i)) ≡ 65535 = rw e top in
      omega (arith, up i (omega arith), border_inner g i (omega arith))

  -- Above the first m borders there is the last bit alone.
  moved_bits :
      (pos : ℕ)
      → suc pos < gap_max_bits
      → (first_bit moved + borders_below moved m (suc pos)) % 2 ≡ gap_bit buf pos
  unfolding gap_bit
  moved_bits pos h = rw size (
      ground (
        arith,
        same_header,
        borders_below-suc buf m pos,
        borders_below_moved buf moved m pos up,
        border_last g m,
      ))

  -- The last gap is still there.
  kept-IsUp : moved m ≢ 65535 → IsUp buf moved
  unfolding gap_bit
  kept-IsUp inner = record {
    gap = record {
      header = rw same_header g.header;
      nonempty = rw same_header g.nonempty;
      rising = λ i h. elim (Bool-cases (ltb (suc i) m)) [
        | inl early ↦ rise i (ltb→lt (suc i) m early)
        | inr late ↦ rise_last inner i (omega (arith, ltb→le (suc i) m late))
      ];
      closed = rw last top;
    };
    short = omega arith;
    bits = λ pos h. kept_bits pos h;
  }
    where
      last : last_word moved ≡ suc m
      last = omega (arith, same_header, size)

      kept_bits : (pos : ℕ) → suc pos < gap_max_bits → gap_bit moved (suc pos) ≡ gap_bit buf pos
      kept_bits pos h =
          rw last (ground (arith, moved_bits pos h, borders_below-suc moved m (suc pos), top))

  -- It is gone, and the one before it is the last.
  shortened-IsUp : moved m ≡ 65535 → IsUp buf (store moved 0 (set_last_word (moved 0) m))
  unfolding gap_bit
  shortened-IsUp gone = record {
    gap = record {
      header = omega arith;
      nonempty = omega (arith, last);
      rising = λ i h. ground (arith, rise i);
      closed = rw last (ground (arith, gone));
    };
    short = omega arith;
    bits = λ pos h. short_bits pos h;
  }
    where
      last : last_word (store moved 0 (set_last_word (moved 0) m)) ≡ m
      last = omega (arith, same_header, size, g.header)

      short_bits :
          (pos : ℕ)
          → suc pos < gap_max_bits
          → gap_bit (store moved 0 (set_last_word (moved 0) m)) (suc pos) ≡ gap_bit buf pos
      short_bits pos h = rw last (
          omega (
            arith,
            moved_bits pos h,
            borders_below_ext moved (store moved 0 (set_last_word (moved 0) m)) (suc pos) m
                (λ i h. ground arith),
          ))

-- The result of a shift to higher positions.
pub record IsShiftedUp (buf : Buffer) (co_flag : ℕ) (r : Shifted) : Type 0 where
  pub gap : IsGap r.buf
  pub length : r.new_len ≡ last_word r.buf
  pub carry : r.co ≡ gap_bit buf 65535
  pub first : gap_bit r.buf 0 ≡ co_flag
  pub bits : (pos : ℕ) → suc pos < gap_max_bits → gap_bit r.buf (suc pos) ≡ gap_bit buf pos

module _ (buf : Buffer) (g : IsGap buf) where
  full_bit : buf 1 ≡ 65535 → (pos : ℕ) → pos < gap_max_bits → gap_bit buf pos ≡ first_bit buf
  full_bit e pos h = omega (arith, gap_bit-InGap g 0 pos g.nonempty (omega arith, omega arith))

  full-IsUp : buf 1 ≡ 65535 → IsUp buf buf
  full-IsUp e = record {
    gap = g;
    short = omega arith;
    bits = λ pos h. full_bit e (suc pos) h ∙ sym (full_bit e pos (omega arith));
  }

  many_gaps : buf 1 ≢ 65535 → 1 < last_word buf
  many_gaps ne = ground (arith, border_last g 0, g.nonempty)

  last_bit : gap_bit buf 65535 ≡ (first_bit buf + (last_word buf - 1)) % 2
  last_bit =
      let size : suc (last_word buf - 1) ≡ last_word buf = omega (arith, g.nonempty) in
      let e = border_last g (last_word buf - 1) size in
      let start = gap_start-le buf (last_word buf) g.rising (last_word buf - 1) (omega arith) in
      gap_bit-InGap g (last_word buf - 1) 65535 (omega arith) (omega (arith, start, e), omega arith)

  -- What the function has ready for the carry.
  abbrev stepped : Buffer × ℕ
  stepped = shift_loop (last_word buf) (λ x. add16 x 1) buf 1 (last_word buf) (buf 0 % 2)

  stepped_word :
      (k : ℕ) → stepped.0 k ≡ (if leb 1 k && ltb k (last_word buf) then add16 (buf k) 1 else buf k)
  stepped_word k =
      shift_loop_word (last_word buf) (λ x. add16 x 1) buf 1 (last_word buf) (buf 0 % 2) k
        (omega arith)

  stepped-IsUp :
      buf 1 ≢ 65535
      → IsUp buf (
          if stepped.0 (last_word buf - 1) == gap_max_bits - 1
          then store stepped.0 0 (set_last_word (stepped.0 0) (last_word buf - 1))
          else stepped.0)
  stepped-IsUp ne =
      let m = last_word buf - 1 in
      let many = many_gaps ne in
      let size : last_word buf ≡ suc m = omega arith in
      let header : stepped.0 0 ≡ buf 0 = ground (arith, stepped_word 0) in
      let up : (i : ℕ) → i < m → stepped.0 (suc i) ≡ suc (buf (suc i)) =
        λ i h. ground (arith, stepped_word (suc i), border_inner g i) in
      let top : stepped.0 (suc m) ≡ 65535 = ground (arith, stepped_word (suc m), border_last g m) in
      elim (Bool-cases (stepped.0 m == gap_max_bits - 1)) [
        | inl gone ↦ rw gone (
            shortened-IsUp buf g m size (omega arith) stepped.0 header up top
              (==→eq (stepped.0 m) (gap_max_bits - 1) gone))
        | inr kept ↦ rw kept (
            kept-IsUp buf g m size (omega arith) stepped.0 header up top
              (==→ne (stepped.0 m) (gap_max_bits - 1) kept))
      ]

-- The carry is written last.
carry_in :
    (buf ready : Buffer) (co_flag co : ℕ)
    → IsUp buf ready
    → co_flag < 2
    → last_word buf < 8190
    → co ≡ gap_bit buf 65535
    → let w = gap_set_value co_flag ready 0 in
      IsShiftedUp buf co_flag (record { buf = w.buf; co = co; new_len = w.end })
carry_in buf ready co_flag co up flag room e =
    let s =
      (gap_set_value_lem co_flag ready 0 up.gap flag (omega (arith, up.short)) (omega arith)).0 in
    record {
      gap = s.gap;
      length = s.length;
      carry = e;
      first = s.bits 0 (omega arith);
      bits = λ pos h. ground (arith, s.bits (suc pos) h, up.bits pos h);
    }

-- For a well-formed block of fewer than 8190 borders and a carry of 0 or 1, the shift gives a
-- well-formed block of the length returned, with the carry in position 0 and every other bit one
-- position up, and carries out the last bit.
pub gap_shift_r1-IsShiftedUp :
    (buf : Buffer) (co_flag : ℕ)
    → IsGap buf
    → last_word buf < 8190
    → co_flag < 2
    → IsShiftedUp buf co_flag (gap_shift_r1 buf co_flag)
unfolding gap_shift_r1
gap_shift_r1-IsShiftedUp buf co_flag g room flag = elim (Bool-cases (buf 1 == gap_max_bits - 1)) [
  | inl full ↦
      let e = ==→eq (buf 1) (gap_max_bits - 1) full in
      rw full (
        carry_in buf buf co_flag (buf 0 % 2) (full-IsUp buf g e) flag room
          (sym (full_bit buf g e 65535 (omega arith))))
  | inr inner ↦
      let ne = ==→ne (buf 1) (gap_max_bits - 1) inner in
      rw inner (
        carry_in buf _ co_flag (stepped buf g).1 (stepped-IsUp buf g ne) flag room (
          shift_loop_bit (last_word buf) (λ x. add16 x 1) buf 1 (last_word buf) (buf 0 % 2)
            (omega arith) g.nonempty (omega arith)
          ∙ sym (last_bit buf g)))
]
