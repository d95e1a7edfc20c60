-- ===== src/Gap/Init/Laws.antt =====
-- src/bmfunc.h: what a GAP block holds after it is set whole, or to one interval.
use bit_magic.Base.{
  ℕ, ◌+◌, ◌-◌, ◌*◌, ◌/◌, ◌%◌, ◌≤◌, ◌<◌, ◌≡◌, inl, inr, ◌&&◌, Buffer, leb, ◌==◌, if◌then◌else◌,
  arith, Bool-cases, ==→eq, ==→ne,
}
use bit_magic.Gap.Layout.{gap_max_bits, last_word, borders_below, gap_bit, gap_level, IsGap}
use bit_magic.Gap.Init.{gap_set_all, gap_init_range_block}

-- `out` is well formed, keeps the level of `buf`, and has the value exactly in [from, to].
pub record IsRangeBlock (buf : Buffer) (from to value : ℕ) (out : Buffer) : Type 0 where
  pub formed : IsGap out
  pub level : gap_level out ≡ gap_level buf
  pub bits :
      (pos : ℕ)
      → pos < gap_max_bits
      → gap_bit out pos ≡ (if leb from pos && leb pos to then value else 1 - value)

module _ (buf : Buffer) (from to value : ℕ) (bit : value < 2) (order : from ≤ to)
    (inside : to < gap_max_bits) where
  one_border :
      (out : Buffer)
      → from ≡ 0
      → to ≡ 65535
      → out 0 ≡ buf 0 / 2 % 4 * 2 + 8 + value
      → out 1 ≡ 65535
      → IsRangeBlock buf from to value out
  unfolding gap_bit borders_below gap_level
  one_border out e f h b1 = record {
    formed = record {
      header = omega arith;
      nonempty = omega arith;
      rising = rw last (λ i p. absurd (omega arith));
      closed = rw last b1;
    };
    level = omega arith;
    bits = λ pos p. rw last (ground arith);
  }
    where
      last : last_word out ≡ 1
      last = omega arith

  two_borders :
      (out : Buffer) (x first : ℕ)
      → x < 65535
      → first < 2
      → out 0 ≡ buf 0 / 2 % 4 * 2 + 16 + first
      → out 1 ≡ x
      → out 2 ≡ 65535
      → ((pos : ℕ)
          → pos < gap_max_bits
          → (if leb pos x then first else 1 - first)
            ≡ (if leb from pos && leb pos to then value else 1 - value))
      → IsRangeBlock buf from to value out
  unfolding gap_bit borders_below gap_level
  two_borders out x first small one h b1 b2 same = record {
    formed = record {
      header = omega arith;
      nonempty = omega arith;
      rising = rw last (λ i p. (let z : i ≡ 0 = omega arith in rw z (omega arith)));
      closed = rw last b2;
    };
    level = omega arith;
    bits = λ pos p. rw last (ground (arith, same pos p));
  }
    where
      last : last_word out ≡ 2
      last = omega arith

  three_borders :
      (out : Buffer)
      → 0 < from
      → to < 65535
      → out 0 ≡ buf 0 / 2 % 4 * 2 + 24 + (1 - value)
      → out 1 ≡ from - 1
      → out 2 ≡ to
      → out 3 ≡ 65535
      → IsRangeBlock buf from to value out
  unfolding gap_bit borders_below gap_level
  three_borders out some inner h b1 b2 b3 = record {
    formed = record {
      header = omega arith;
      nonempty = omega arith;
      rising = rw last (λ i p. elim (Bool-cases (i == 0)) [
        | inl z ↦ rw (==→eq i 0 z) (omega arith)
        | inr nz ↦ let one : i ≡ 1 = omega (arith, ==→ne i 0 nz) in rw one (omega arith)
      ]);
      closed = rw last b3;
    };
    level = omega arith;
    bits = λ pos p. rw last (ground arith);
  }
    where
      last : last_word out ≡ 3
      last = omega arith

  -- For from ≤ to < 65536 and a value of 0 or 1, the block is well formed, keeps the level of the
  -- old header, and has the value exactly at the positions of [from, to].
  pub gap_init_range_block_lem :
      IsRangeBlock buf from to value (gap_init_range_block buf from to value)
  unfolding gap_init_range_block gap_set_all
  gap_init_range_block_lem = elim (Bool-cases (from == 0)) [
    | inl z ↦
        let f0 = ==→eq from 0 z in
        rw z (elim (Bool-cases (to == gap_max_bits - 1)) [
          | inl all ↦
              let t = ==→eq to (gap_max_bits - 1) all in
              rw all (one_border _ f0 t (ground arith) (ground arith))
          | inr head ↦
              let t = ==→ne to (gap_max_bits - 1) head in
              rw head (
                two_borders _ to value (omega arith) bit (ground arith) (ground arith)
                  (ground arith) (λ pos p. ground arith))
        ])
    | inr nz ↦
        let f0 = ==→ne from 0 nz in
        rw nz (elim (Bool-cases (to == gap_max_bits - 1)) [
          | inl tail ↦
              let t = ==→eq to (gap_max_bits - 1) tail in
              rw tail (
                two_borders _ (from - 1) (1 - value) (omega arith) (omega arith) (ground arith)
                  (ground arith) (ground arith) (λ pos p. ground arith))
          | inr inner ↦
              let t = ==→ne to (gap_max_bits - 1) inner in
              rw inner (
                three_borders _ (omega arith) (omega arith) (ground arith) (ground arith)
                  (ground arith) (ground arith))
        ])
  ]
