-- ===== src/Encoding/BitOut.antt =====
-- src/encoding.h: `bit_out`, which writes bits into words and the words into a byte stream. The
-- template's parameter `TEncoder` is `encoder`. A shift of an `unsigned` by 32 is undefined; the
-- model writes 0 for it.
pub mod Laws
pub mod Zeros
use bit_magic.Base.{
  ℕ, zero, suc, ◌+◌, ◌-◌, ◌*◌, ◌/◌, ◌%◌, ◌^◌, ltb, leb, ◌==◌, if◌then◌else◌, bit_and, bit_or,
  ones32, shl32,
}
use bit_magic.Scan.{bit_scan_reverse32}
use bit_magic.Encoding.Encoder.{Encoder, put_32}

pub record BitOut : Type 0 where
  pub dest_ : Encoder
  pub used_bits_ : ℕ
  pub accum_ : ℕ

unfoldable pub bit_out : Encoder → BitOut
bit_out dest = record { dest_ = dest; used_bits_ = 0; accum_ = 0 }

unfoldable pub flush_accum : BitOut → BitOut
flush_accum o = record { dest_ = put_32 (o.dest_) (o.accum_); used_bits_ = 0; accum_ = 0 }

-- Also what the destructor does.
unfoldable pub flush : BitOut → BitOut
flush o = if o.used_bits_ == 0 then o else flush_accum o

-- `if (used_bits_ == 32) flush_accum();`
unfoldable pub flush_full : BitOut → BitOut
flush_full o = if o.used_bits_ == 32 then flush_accum o else o

-- `accum_ |= value << used_bits_; used_bits_ += count;`
unfoldable pub append : BitOut → ℕ → ℕ → BitOut
append o value count = record {
  dest_ = o.dest_;
  used_bits_ = o.used_bits_ + count;
  accum_ = bit_or (o.accum_) (shl32 value (o.used_bits_));
}

unfoldable pub put_bit : BitOut → ℕ → BitOut
put_bit o value = flush_full (append o value 1)

unfoldable pub put_zero_bit : BitOut → BitOut
put_zero_bit o =
    flush_full (record { dest_ = o.dest_; used_bits_ = o.used_bits_ + 1; accum_ = o.accum_ })

-- `for (;count;)`: a part of the value fills the word, and the rest goes into the next.
unfoldable pub put_loop : ℕ → BitOut → ℕ → ℕ → BitOut
put_loop zero o value count = o
put_loop (suc fuel) o value count =
    let free_bits = 32 - o.used_bits_ in
    let part = append o value free_bits in
    let rest = put_loop fuel (flush_accum part) (value / 2 ^ free_bits) (count - free_bits) in
    if count == 0 then o else if leb count free_bits then append o value count else rest

unfoldable pub put_bits : BitOut → ℕ → ℕ → BitOut
put_bits o value count =
    let value1 = bit_and value (ones32 / 2 ^ (32 - count)) in
    flush_full (put_loop count o value1 count)

-- `for (; count >= 32; count -= 32) dest_.put_32(0);` on an empty accumulator.
unfoldable pub zero_words : ℕ → BitOut → ℕ → BitOut × ℕ
zero_words zero o count = (o, count)
zero_words (suc fuel) o count =
    let rest = zero_words fuel (flush_accum o) (count - 32) in
    if leb 32 count then rest else (o, count)

-- Only the count of used bits moves.
unfoldable pub skip_bits : BitOut → ℕ → BitOut
skip_bits o count = record { dest_ = o.dest_; used_bits_ = o.used_bits_ + count; accum_ = o.accum_ }

-- A number of zeros.
unfoldable pub zeros : BitOut → ℕ → BitOut
zeros o count =
    let free_bits = 32 - o.used_bits_ in
    let (o1, count1) = zero_words count (flush_accum o) (count - free_bits) in
    if leb free_bits count then skip_bits o1 count1 else skip_bits o count

-- The zeros, and the one that ends them.
unfoldable pub put_zero_bits : BitOut → ℕ → BitOut
put_zero_bits o count = flush_full (append (zeros o count) 1 1)

-- The zeros and the one, then the digits below the highest one.
unfoldable pub put_gamma : BitOut → ℕ → BitOut
put_gamma o value =
    let logv = bit_scan_reverse32 value in
    let value1 = bit_and value (ones32 / 2 ^ (32 - logv)) in
    put_loop logv (put_zero_bits o logv) value1 logv
