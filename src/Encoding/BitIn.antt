-- ===== src/Encoding/BitIn.antt =====
-- src/encoding.h: `bit_in`, which reads bits out of the words of a byte stream. The template's
-- parameter `TDecoder` is `decoder`.
pub mod Gamma
pub mod Laws
use bit_magic.Base.{
  ℕ, zero, suc, ◌+◌, ◌-◌, ◌*◌, ◌/◌, ◌%◌, ◌^◌, Option, some, none, ltb, leb, ◌==◌, if◌then◌else◌,
  bit_and, bit_or, ones32, shl32,
}
use bit_magic.Scan.{bit_scan_fwd}
use bit_magic.Encoding.Decoder.{Decoder, get_32}

pub record BitIn : Type 0 where
  pub src_ : Decoder
  pub used_bits_ : ℕ
  pub accum_ : ℕ

unfoldable pub bit_in : Decoder → BitIn
bit_in src = record { src_ = src; used_bits_ = 32; accum_ = 0 }

-- `acc = src_.get_32(); used = 0;`
unfoldable pub load : BitIn → BitIn
load d = record { src_ = (get_32 (d.src_)).1; used_bits_ = 0; accum_ = (get_32 (d.src_)).0 }

-- `acc >>= count; used += count;`
unfoldable pub drop_bits : BitIn → ℕ → BitIn
drop_bits d count = record {
  src_ = d.src_;
  used_bits_ = d.used_bits_ + count;
  accum_ = d.accum_ / 2 ^ count;
}

-- The label `take_accum`.
unfoldable pub take_accum : BitIn → ℕ → ℕ × BitIn
take_accum d count = (bit_and (d.accum_) (ones32 / 2 ^ (32 - count)), drop_bits d count)

unfoldable pub get_bits : BitIn → ℕ → ℕ × BitIn
get_bits d count =
    let free_bits = 32 - d.used_bits_ in
    let next = load d in
    let used = count - free_bits in
    if leb count free_bits
    then take_accum d count
    else if d.used_bits_ == 32
    then take_accum next count
    else (
      bit_or (d.accum_) (shl32 (bit_and (next.accum_) (ones32 / 2 ^ (32 - used))) free_bits),
      drop_bits next used,
    )

unfoldable pub get_bit : BitIn → ℕ × BitIn
get_bit d =
    let free_bits = 32 - d.used_bits_ in
    let next = load d in
    let used = 1 - free_bits in
    if leb 1 free_bits then take_accum d 1 else if d.used_bits_ == 32 then take_accum next 1 else (
      bit_or (d.accum_) (shl32 (bit_and (next.accum_) (ones32 / 2 ^ (32 - used))) free_bits),
      drop_bits next used,
    )

-- `while (true)`: over the words that have no one left, to the first one; with the count of zeros.
unfoldable pub zeros_loop : ℕ → BitIn → ℕ → Option (ℕ × BitIn)
zeros_loop zero d zero_bits = none
zeros_loop (suc fuel) d zero_bits =
    let rest = zeros_loop fuel (load d) (zero_bits + 32 - d.used_bits_) in
    let first = bit_scan_fwd (d.accum_) in
    if d.accum_ == 0 then rest else some (zero_bits + first, drop_bits d first)

-- Eat the border bit.
unfoldable pub eat_border : BitIn → BitIn
eat_border d =
    let next = load d in
    if d.used_bits_ == 32
    then record { src_ = next.src_; used_bits_ = 1; accum_ = next.accum_ / 2 }
    else drop_bits d 1

-- `block_set_table::_left`: n + 1 ones.
unfoldable pub left : ℕ → ℕ
left n = ones32 / 2 ^ (31 - n)

-- The label `take_accum` of `gamma`.
unfoldable pub take_value : BitIn → ℕ → ℕ × BitIn
take_value d zero_bits =
    (bit_or (bit_and (d.accum_) (left zero_bits)) (2 ^ zero_bits), drop_bits d zero_bits)

-- The digits below the highest one, which is put above them.
unfoldable pub get_value : BitIn → ℕ → ℕ × BitIn
get_value d zero_bits =
    let free_bits = 32 - d.used_bits_ in
    let next = load d in
    let used = zero_bits - free_bits in
    let high = bit_or (shl32 (bit_and (next.accum_) (left used)) free_bits) (2 ^ zero_bits) in
    if leb zero_bits free_bits
    then take_value d zero_bits
    else if d.used_bits_ == 32
    then take_value next zero_bits
    else (bit_or (d.accum_) high, drop_bits next used)

-- The fuel bounds the words that are read for the zeros.
unfoldable pub get_gamma : ℕ → BitIn → Option (ℕ × BitIn)
get_gamma fuel d =
    let start = if d.used_bits_ == 32 then load d else d in
    elim (zeros_loop fuel start 0) [
      | none ↦ none
      | some (zero_bits, d1) ↦ some (get_value (eat_border d1) zero_bits)
    ]
