-- ===== src/Gap/Shift/Left.antt =====
-- src/bmfunc.h: the shift of a GAP block to lower positions.
use bit_magic.Base.{
  ℕ, zero, suc, ◌+◌, ◌-◌, ◌/◌, ◌%◌, ◌≤◌, ◌<◌, ◌≡◌, ◌≢◌, ◌∙◌, sym, ◌&&◌, false, inl, inr, refl,
  Buffer, ltb, leb, ◌==◌, if◌then◌else◌, arith, Bool-cases, ==→eq, ==→ne, xor1, sub16, u16,
}
use bit_magic.Gap.Layout.{gap_max_bits, first_bit, last_word, gap_bit, IsGap}
use bit_magic.Gap.Order.{border_inner, border_last, border_lt, gap_bit-after, gap_bit-InGap}
use bit_magic.Gap.Set.Borders.{borders_below-suc}
use bit_magic.Gap.Find.{gap_bfind}
use bit_magic.Gap.Find.Laws.{gap_bfind-Finds}
use bit_magic.Gap.Set.{gap_set_value, move_borders}
use bit_magic.Gap.Set.Laws.{gap_set_value_lem}
use bit_magic.Gap.Shift.{shift_loop, Shifted, shift_l1_rest, gap_shift_l1}
use bit_magic.Gap.Shift.Loop.{shift_loop_word, borders_below_moved}

-- The block, one position down, with anything in the last position.
pub record IsDown (buf out : Buffer) : Type 0 where
  pub gap : IsGap out
  pub short : last_word out ≤ last_word buf
  pub bits : (pos : ℕ) → suc pos < gap_max_bits → gap_bit out pos ≡ gap_bit buf (suc pos)

module _ (buf : Buffer) (g : IsGap buf) where
  first_gap : (pos : ℕ) → pos ≤ buf 1 → gap_bit buf pos ≡ first_bit buf
  first_gap pos h = omega (arith, gap_bit-InGap g 0 pos g.nonempty (omega arith, h))

  full-IsDown : buf 1 ≡ 65535 → IsDown buf buf
  full-IsDown e = record {
    gap = g;
    short = omega arith;
    bits = λ pos h. first_gap pos (omega arith) ∙ sym (first_gap (suc pos) (omega arith));
  }

  many_gaps : buf 1 ≢ 65535 → 1 < last_word buf
  many_gaps ne = ground (arith, border_last g 0, g.nonempty)

  -- What the loop leaves.
  abbrev stepped : Buffer
  stepped = (shift_loop (last_word buf) (λ x. sub16 x 1) buf 1 (last_word buf) (buf 0 % 2)).0

  stepped_word :
      (k : ℕ) → stepped k ≡ (if leb 1 k && ltb k (last_word buf) then sub16 (buf k) 1 else buf k)
  stepped_word k =
      shift_loop_word (last_word buf) (λ x. sub16 x 1) buf 1 (last_word buf) (buf 0 % 2) k
        (omega arith)

  positive : 0 < buf 1 → (i : ℕ) → i < last_word buf → 0 < buf (suc i)
  positive h zero p = h
  positive h (suc i) p =
      omega (arith, border_lt buf (last_word buf) g.rising 0 (suc i) (omega arith) p)

  stepped_down : 0 < buf 1 → (i : ℕ) → suc i < last_word buf → buf (suc i) ≡ suc (stepped (suc i))
  stepped_down h i p =
      ground (arith, stepped_word (suc i), border_inner g i p, positive h i (omega arith))

  stepped-IsDown : 0 < buf 1 → buf 1 ≢ 65535 → IsDown buf stepped
  unfolding gap_bit
  stepped-IsDown h ne = record {
    gap = record {
      header = rw header g.header;
      nonempty = rw header g.nonempty;
      rising = rw header (λ i p. ground (
        arith,
        stepped_down h i p,
        stepped_down h (suc i),
        g.rising i p,
        top,
        border_inner g i p,
        border_top_at i,
      ));
      closed = rw header at_top;
    };
    short = omega (arith, header);
    bits = λ pos p. rw header (
        rw (sym size) (
          ground (
            arith,
            header,
            borders_below-suc stepped m pos,
            borders_below-suc buf m (suc pos),
            borders_below_moved stepped buf m pos (λ i q. stepped_down h i (omega arith)),
            top,
            border_last g m,
          )));
  }
    where
      m : ℕ
      m = last_word buf - 1

      size : suc m ≡ last_word buf
      size = omega (arith, g.nonempty)

      header : stepped 0 ≡ buf 0
      header = ground (arith, stepped_word 0)

      top : stepped (suc m) ≡ 65535
      top = ground (arith, stepped_word (suc m), border_last g m)

      at_top : stepped (last_word buf) ≡ 65535
      at_top = rw (sym size) top

      border_top_at : (i : ℕ) → suc (suc i) ≡ last_word buf → stepped (suc (suc i)) ≡ 65535
      border_top_at i e = rw e at_top

-- The result of a shift to lower positions.
pub record IsShiftedDown (buf : Buffer) (co_flag : ℕ) (r : Shifted) : Type 0 where
  pub gap : IsGap r.buf
  pub length : r.new_len ≡ last_word r.buf
  pub carry : r.co ≡ gap_bit buf 0
  pub last : gap_bit r.buf 65535 ≡ co_flag
  pub bits : (pos : ℕ) → suc pos < gap_max_bits → gap_bit r.buf pos ≡ gap_bit buf (suc pos)

-- The carry is written last.
carry_in :
    (buf ready : Buffer) (co_flag co : ℕ)
    → IsDown buf ready
    → co_flag < 2
    → last_word buf < 8190
    → co ≡ gap_bit buf 0
    → let w = gap_set_value co_flag ready 65535 in
      IsShiftedDown buf co_flag (record { buf = w.buf; co = co; new_len = w.end })
carry_in buf ready co_flag co down flag room e =
    let s =
      (gap_set_value_lem co_flag ready 65535 down.gap flag (omega (arith, down.short))
        (omega arith)).0 in
    record {
      gap = s.gap;
      length = s.length;
      carry = e;
      last = s.bits 65535 (omega arith);
      bits = λ pos h. ground (arith, s.bits pos (omega arith), down.bits pos h);
    }

-- A block with the bits of `buf` from 1 on, one position down, is `buf` one position down.
onto :
    (buf cur : Buffer) {out : Buffer}
    → last_word cur ≤ last_word buf
    → ((pos : ℕ) → suc pos < gap_max_bits → gap_bit cur (suc pos) ≡ gap_bit buf (suc pos))
    → IsDown cur out
    → IsDown buf out
onto buf cur short same down = record {
  gap = down.gap;
  short = omega (arith, down.short, short);
  bits = λ p h. down.bits p h ∙ same p h;
}

-- The second half of the function, on a block that does not start with a gap of one bit, where it
-- holds the bits of `buf` from 1 on.
rest-IsShiftedDown :
    (buf cur : Buffer) (co_flag co : ℕ)
    → IsGap cur
    → 0 < cur 1
    → last_word cur ≤ last_word buf
    → ((pos : ℕ) → suc pos < gap_max_bits → gap_bit cur (suc pos) ≡ gap_bit buf (suc pos))
    → co_flag < 2
    → last_word buf < 8190
    → co ≡ gap_bit buf 0
    → IsShiftedDown buf co_flag (shift_l1_rest cur co co_flag)
unfolding shift_l1_rest
rest-IsShiftedDown buf cur co_flag co g pos short same flag room e =
    elim (Bool-cases (cur 1 == gap_max_bits - 1)) [
      | inl full ↦
          let down = full-IsDown cur g (==→eq (cur 1) (gap_max_bits - 1) full) in
          rw full (carry_in buf cur co_flag co (onto buf cur short same down) flag room e)
      | inr inner ↦
          let down = stepped-IsDown cur g pos (==→ne (cur 1) (gap_max_bits - 1) inner) in
          rw inner
            (carry_in buf (stepped cur g) co_flag co (onto buf cur short same down) flag room e)
    ]

module _ (buf : Buffer) (g : IsGap buf) (single : buf 1 ≡ 0) where
  -- A first gap of one bit is taken away by turning the bit over.
  abbrev opposite : ℕ
  opposite = xor1 (buf 0 % 2) 1

  merged_end : (gap_set_value opposite buf 0).end ≡ sub16 (u16 (buf 0 / 8)) 1
  unfolding gap_set_value move_borders
  merged_end =
      let found : (gap_bfind buf 0).1 ≡ buf 0 % 2 =
        (gap_bfind-Finds buf 0 g (omega arith)).1 ∙ first_gap buf g 0 (omega arith) in
      let other : ((gap_bfind buf 0).1 == opposite) ≡ false = ground (arith, found) in
      rw other (rw single refl)

  -- Then the first two bits are alike, so the first gap is longer.
  longer_first :
      (c : Buffer) → IsGap c → gap_bit c 0 ≡ opposite → gap_bit c 1 ≡ gap_bit buf 1 → 0 < c 1
  longer_first c gc e0 e1 = elim (Bool-cases (c 1 == 0)) [
    | inl z ↦
        let cz = ==→eq (c 1) 0 z in
        absurd (
          omega
            (arith, e0, e1, second buf g single, second c gc cz, first_gap c gc 0 (omega arith)))
    | inr nz ↦ let ne = ==→ne (c 1) 0 nz in omega arith
  ]
    where
      second : (b : Buffer) → IsGap b → b 1 ≡ 0 → gap_bit b 1 ≡ (first_bit b + 1) % 2
      second b gb z =
          let more = many_gaps b gb (omega arith) in let at = gap_bit-after gb 0 more in rw z at at

-- For a well-formed block of fewer than 8190 borders and a carry of 0 or 1, the shift gives a
-- well-formed block of the length returned, with the carry in the last position and every other
-- bit one position down, and carries out the first bit.
pub gap_shift_l1-IsShiftedDown :
    (buf : Buffer) (co_flag : ℕ)
    → IsGap buf
    → last_word buf < 8190
    → co_flag < 2
    → IsShiftedDown buf co_flag (gap_shift_l1 buf co_flag)
unfolding gap_shift_l1
gap_shift_l1-IsShiftedDown buf co_flag g room flag =
    let carry = sym (first_gap buf g 0 (omega arith)) in
    elim (Bool-cases (buf 1 == 0)) [
      | inl single ↦
          let z = ==→eq (buf 1) 0 single in
          let s =
            (gap_set_value_lem (xor1 (buf 0 % 2) 1) buf 0 g (omega arith) room (omega arith)).0 in
          let c = (gap_set_value (xor1 (buf 0 % 2) 1) buf 0).buf in
          let short : last_word c ≤ last_word buf =
            omega (arith, s.length, merged_end buf g z, g.header, g.nonempty) in
          let same : (pos : ℕ)
              → suc pos < gap_max_bits
              → gap_bit c (suc pos) ≡ gap_bit buf (suc pos) =
            λ pos h. ground (arith, s.bits (suc pos) h) in
          let pos = longer_first buf g z c s.gap (s.bits 0 (omega arith)) (same 0 (omega arith)) in
          rw single (elim (Bool-cases ((gap_set_value (xor1 (buf 0 % 2) 1) buf 0).end == 1)) [
            | inl whole ↦
                let e = s.length in
                let w = ==→eq (gap_set_value (xor1 (buf 0 % 2) 1) buf 0).end 1 whole in
                let all = full-IsDown c s.gap (border_last s.gap 0 (omega arith)) in
                rw whole (carry_in buf c co_flag _ (onto buf c short same all) flag room carry)
            | inr more ↦
                rw more (rest-IsShiftedDown buf c co_flag _ s.gap pos short same flag room carry)
          ])
      | inr longer ↦
          let ne = ==→ne (buf 1) 0 longer in
          rw longer (
            rest-IsShiftedDown buf buf co_flag _ g (omega arith) (omega arith) (λ p h. refl) flag
              room carry)
    ]
