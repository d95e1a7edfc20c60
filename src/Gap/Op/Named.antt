-- ===== src/Gap/Op/Named.antt =====
-- src/bmfunc.h, src/bmutil.h: AND, OR, XOR and SUB of two GAP blocks; OR is done as the inverse of
-- the AND of the inverses, and SUB as an AND under a mask.
use bit_magic.Base.{
  ℕ, zero, suc, ◌+◌, ◌-◌, ◌≤◌, ◌<◌, ◌≡◌, refl, Buffer, store, arith, xor1, flip_low, min, max, ◌∙◌,
}
use bit_magic.Gap.Layout.{gap_max_bits, last_word, gap_bit, IsGap}
use bit_magic.Gap.Op.{
  and_func, xor_func, or_func, sub_func, gap_invert, gap_operation_and, gap_operation_xor,
  gap_operation_or, gap_operation_sub,
}
use bit_magic.Gap.Op.Laws.{gap_buff_op_lem}
use bit_magic.Gap.Set.Insert.{borders_below_ext}

-- The four functors on one bit of each operand.
pub and_func-eq-min : (a b : ℕ) → a < 2 → b < 2 → and_func a b ≡ min a b
unfolding and_func
and_func-eq-min zero zero p q = refl
and_func-eq-min zero (suc zero) p q = refl
and_func-eq-min (suc zero) zero p q = refl
and_func-eq-min (suc zero) (suc zero) p q = refl
and_func-eq-min (suc (suc a)) b p q = absurd (omega arith)
and_func-eq-min zero (suc (suc b)) p q = absurd (omega arith)
and_func-eq-min (suc zero) (suc (suc b)) p q = absurd (omega arith)

pub or_func-eq-max : (a b : ℕ) → a < 2 → b < 2 → or_func a b ≡ max a b
unfolding or_func
or_func-eq-max zero zero p q = refl
or_func-eq-max zero (suc zero) p q = refl
or_func-eq-max (suc zero) zero p q = refl
or_func-eq-max (suc zero) (suc zero) p q = refl
or_func-eq-max (suc (suc a)) b p q = absurd (omega arith)
or_func-eq-max zero (suc (suc b)) p q = absurd (omega arith)
or_func-eq-max (suc zero) (suc (suc b)) p q = absurd (omega arith)

pub xor_func-eq-xor1 : (a b : ℕ) → a < 2 → b < 2 → xor_func a b ≡ xor1 a b
unfolding xor_func
xor_func-eq-xor1 zero zero p q = refl
xor_func-eq-xor1 zero (suc zero) p q = refl
xor_func-eq-xor1 (suc zero) zero p q = refl
xor_func-eq-xor1 (suc zero) (suc zero) p q = refl
xor_func-eq-xor1 (suc (suc a)) b p q = absurd (omega arith)
xor_func-eq-xor1 zero (suc (suc b)) p q = absurd (omega arith)
xor_func-eq-xor1 (suc zero) (suc (suc b)) p q = absurd (omega arith)

pub sub_func-eq-sub : (a b : ℕ) → a < 2 → b < 2 → sub_func a b ≡ a - b
unfolding sub_func
sub_func-eq-sub zero zero p q = refl
sub_func-eq-sub zero (suc zero) p q = refl
sub_func-eq-sub (suc zero) zero p q = refl
sub_func-eq-sub (suc zero) (suc zero) p q = refl
sub_func-eq-sub (suc (suc a)) b p q = absurd (omega arith)
sub_func-eq-sub zero (suc (suc b)) p q = absurd (omega arith)
sub_func-eq-sub (suc zero) (suc (suc b)) p q = absurd (omega arith)

pub and_func_bit : (a b : ℕ) → a < 2 → b < 2 → and_func a b < 2
and_func_bit a b p q = omega (arith, and_func-eq-min a b p q)

pub or_func_bit : (a b : ℕ) → a < 2 → b < 2 → or_func a b < 2
or_func_bit a b p q = omega (arith, or_func-eq-max a b p q)

pub xor_func_bit : (a b : ℕ) → a < 2 → b < 2 → xor_func a b < 2
xor_func_bit a b p q = omega (arith, xor_func-eq-xor1 a b p q)

pub sub_func_bit : (a b : ℕ) → a < 2 → b < 2 → sub_func a b < 2
sub_func_bit a b p q = omega (arith, sub_func-eq-sub a b p q)

-- Inverting a well-formed block gives a well-formed block of the same length, with every bit
-- turned over.
pub gap_invert_lem :
    (buf : Buffer)
    → IsGap buf
    → IsGap (gap_invert buf)
      × (last_word (gap_invert buf) ≡ last_word buf)
      × ((pos : ℕ) → pos < gap_max_bits → gap_bit (gap_invert buf) pos ≡ 1 - gap_bit buf pos)
unfolding gap_invert gap_bit
gap_invert_lem buf g = (
  record {
    header = omega (arith, g.header);
    nonempty = omega (arith, last, g.nonempty);
    rising = rw last (λ i h. ground (arith, g.rising i));
    closed = rw last (ground (arith, g.closed, g.nonempty));
  },
  last,
  λ pos h. rw last (
      omega (
        arith,
        borders_below_ext buf (store buf 0 (flip_low (buf 0))) pos (last_word buf)
            (λ i h. ground arith),
      )),
)
  where
    last : last_word (store buf 0 (flip_low (buf 0))) ≡ last_word buf
    last = omega arith

-- `out` is a well-formed block with the length returned, and holds f of the operands' bits.
abbrev pub Combines : (ℕ → ℕ → ℕ) → Buffer → Buffer → ℕ × Buffer → Type 0
Combines f vect1 vect2 (dsize, out) =
    IsGap out
    × (last_word out ≡ dsize)
    × (dsize < last_word vect1 + last_word vect2)
    × ((pos : ℕ) → pos < gap_max_bits → gap_bit out pos ≡ f (gap_bit vect1 pos) (gap_bit vect2 pos))

module _ (vect1 vect2 tmp_buf : Buffer) (g1 : IsGap vect1) (g2 : IsGap vect2)
    (room : last_word vect1 + last_word vect2 ≤ 8192) where
  bit1 : (pos : ℕ) → gap_bit vect1 pos < 2
  unfolding gap_bit
  bit1 pos = omega arith

  bit2 : (pos : ℕ) → gap_bit vect2 pos < 2
  unfolding gap_bit
  bit2 pos = omega arith

  -- The AND holds the smaller of the two bits at every position.
  pub gap_operation_and_lem : Combines min vect1 vect2 (gap_operation_and vect1 vect2 tmp_buf)
  unfolding gap_operation_and
  gap_operation_and_lem =
      let (gap, last, short, bits) =
        gap_buff_op_lem and_func and_func_bit tmp_buf vect1 0 vect2 0 g1 g2 room in
      (
        gap,
        last,
        short,
        λ pos h. omega (
          arith,
          bits pos h,
          bit1 pos,
          bit2 pos,
          and_func-eq-min (xor1 (gap_bit vect1 pos) 0) (xor1 (gap_bit vect2 pos) 0) (omega arith)
              (omega arith),
        ),
      )

  -- The XOR holds the sum modulo 2.
  pub gap_operation_xor_lem : Combines xor1 vect1 vect2 (gap_operation_xor vect1 vect2 tmp_buf)
  unfolding gap_operation_xor
  gap_operation_xor_lem =
      let (gap, last, short, bits) =
        gap_buff_op_lem xor_func xor_func_bit tmp_buf vect1 0 vect2 0 g1 g2 room in
      (
        gap,
        last,
        short,
        λ pos h. omega (
          arith,
          bits pos h,
          bit1 pos,
          bit2 pos,
          xor_func-eq-xor1 (xor1 (gap_bit vect1 pos) 0) (xor1 (gap_bit vect2 pos) 0) (omega arith)
              (omega arith),
        ),
      )

  -- The SUB holds the bits of the first operand that the second has not.
  pub gap_operation_sub_lem :
      Combines (λ a b. a - b) vect1 vect2 (gap_operation_sub vect1 vect2 tmp_buf)
  unfolding gap_operation_sub
  gap_operation_sub_lem =
      let (gap, last, short, bits) =
        gap_buff_op_lem and_func and_func_bit tmp_buf vect1 0 vect2 1 g1 g2 room in
      (
        gap,
        last,
        short,
        λ pos h. omega (
          arith,
          bits pos h,
          bit1 pos,
          bit2 pos,
          and_func-eq-min (xor1 (gap_bit vect1 pos) 0) (xor1 (gap_bit vect2 pos) 1) (omega arith)
              (omega arith),
        ),
      )

  -- The OR holds the larger of the two bits.
  pub gap_operation_or_lem : Combines max vect1 vect2 (gap_operation_or vect1 vect2 tmp_buf)
  unfolding gap_operation_or
  gap_operation_or_lem =
      let (gap, last, short, bits) =
        gap_buff_op_lem and_func and_func_bit tmp_buf vect1 1 vect2 1 g1 g2 room in
      let (inv, same, turned) = gap_invert_lem _ gap in
      (
        inv,
        same ∙ last,
        short,
        λ pos h. omega (
          arith,
          turned pos h,
          bits pos h,
          bit1 pos,
          bit2 pos,
          and_func-eq-min (xor1 (gap_bit vect1 pos) 1) (xor1 (gap_bit vect2 pos) 1) (omega arith)
              (omega arith),
        ),
      )

-- For two well-formed blocks whose last words sum to at most 8192, the four named operations give
-- well-formed blocks of the lengths they return, and at every position AND holds the smaller of
-- the two bits, OR the larger, XOR their sum modulo 2, and SUB the first unless the second is
-- set.
pub gap_operations_lem :
    (vect1 vect2 tmp_buf : Buffer)
    → IsGap vect1
    → IsGap vect2
    → last_word vect1 + last_word vect2 ≤ 8192
    → Combines min vect1 vect2 (gap_operation_and vect1 vect2 tmp_buf)
      × Combines max vect1 vect2 (gap_operation_or vect1 vect2 tmp_buf)
      × Combines xor1 vect1 vect2 (gap_operation_xor vect1 vect2 tmp_buf)
      × Combines (λ a b. a - b) vect1 vect2 (gap_operation_sub vect1 vect2 tmp_buf)
gap_operations_lem vect1 vect2 tmp_buf g1 g2 room = (
  gap_operation_and_lem vect1 vect2 tmp_buf g1 g2 room,
  gap_operation_or_lem vect1 vect2 tmp_buf g1 g2 room,
  gap_operation_xor_lem vect1 vect2 tmp_buf g1 g2 room,
  gap_operation_sub_lem vect1 vect2 tmp_buf g1 g2 room,
)
