-- ===== src/Encoding/Encoder.antt =====
-- src/encoding.h: `encoder`, which writes bytes, the lowest of a word first. This is the code for a
-- machine without unaligned access; elsewhere the same bytes are copied.
use bit_magic.Base.{
  ℕ, zero, suc, ◌+◌, ◌-◌, ◌/◌, ◌%◌, ◌^◌, Bool, Option, some, none, Buffer, store, ltb, leb, ◌&&◌,
  if◌then◌else◌,
}

-- `memory` is what the pointers point into.
pub record Encoder : Type 0 where
  pub memory : Buffer
  pub buf_ : ℕ
  pub start_ : ℕ
  pub size_ : ℕ

unfoldable pub encoder : Buffer → ℕ → ℕ → Encoder
encoder memory buf a_size = record { memory = memory; buf_ = buf; start_ = buf; size_ = a_size }

-- `*buf_++ = c`
unfoldable pub put_8 : Encoder → ℕ → Encoder
put_8 e c = record {
  memory = store (e.memory) (e.buf_) c;
  buf_ = e.buf_ + 1;
  start_ = e.start_;
  size_ = e.size_;
}

unfoldable pub put_16 : Encoder → ℕ → Encoder
put_16 e s = let e1 = put_8 e (s % 2 ^ 8) in let s1 = s / 2 ^ 8 in put_8 e1 (s1 % 2 ^ 8)

unfoldable pub put_24 : Encoder → ℕ → Encoder
put_24 e w = record {
  memory =
      store (store (store (e.memory) (e.buf_) (w % 2 ^ 8)) (e.buf_ + 1) (w / 2 ^ 8 % 2 ^ 8))
        (e.buf_ + 2) (w / 2 ^ 16 % 2 ^ 8);
  buf_ = e.buf_ + 3;
  start_ = e.start_;
  size_ = e.size_;
}

unfoldable pub put_32 : Encoder → ℕ → Encoder
put_32 e w =
    let e1 = put_8 e (w % 2 ^ 8) in
    let e2 = put_8 e1 (w / 2 ^ 8 % 2 ^ 8) in
    let e3 = put_8 e2 (w / 2 ^ 16 % 2 ^ 8) in put_8 e3 (w / 2 ^ 24 % 2 ^ 8)

unfoldable pub put_48 : Encoder → ℕ → Encoder
put_48 e w =
    let e4 = put_32 e w in let e5 = put_8 e4 (w / 2 ^ 32 % 2 ^ 8) in put_8 e5 (w / 2 ^ 40 % 2 ^ 8)

unfoldable pub put_64 : Encoder → ℕ → Encoder
put_64 e w =
    let e6 = put_48 e w in let e7 = put_8 e6 (w / 2 ^ 48 % 2 ^ 8) in put_8 e7 (w / 2 ^ 56 % 2 ^ 8)

-- The words `s[i]`, `s[i + 1]`, ... of an array.
unfoldable pub put_16_loop : ℕ → Encoder → Buffer → ℕ → Encoder
put_16_loop zero e s i = e
put_16_loop (suc n) e s i = put_16_loop n (put_16 e (s i)) s (i + 1)

unfoldable pub put_32_loop : ℕ → Encoder → Buffer → ℕ → Encoder
put_32_loop zero e w i = e
put_32_loop (suc n) e w i = put_32_loop n (put_32 e (w i)) w (i + 1)

-- `do ... while (s < s_end)`: the first word is written even of an empty array.
unfoldable pub put_16_array : Encoder → Buffer → ℕ → Encoder
put_16_array e s count = put_16_loop (count - 1) (put_16 e (s 0)) s 1

unfoldable pub put_32_array : Encoder → Buffer → ℕ → Encoder
put_32_array e w count = put_32_loop (count - 1) (put_32 e (w 0)) w 1

unfoldable pub put_prefixed_array_32 : Encoder → ℕ → Buffer → ℕ → Encoder
put_prefixed_array_32 e c w count = put_32_array (put_8 e c) w count

unfoldable pub put_prefixed_array_16 : Encoder → ℕ → Buffer → ℕ → Bool → Encoder
put_prefixed_array_16 e c s count encode_count =
    let e1 = put_8 e c in
    let e2 = if encode_count then put_16 e1 (count % 2 ^ 16) else e1 in put_16_array e2 s count

unfoldable pub put_8_16_32 : Encoder → ℕ → ℕ → ℕ → ℕ → Encoder
put_8_16_32 e w c8 c16 c32 =
    if ltb w 256
    then put_8 (put_8 e c8) (w % 2 ^ 8)
    else if ltb w 65536
    then put_16 (put_8 e c16) (w % 2 ^ 16)
    else put_32 (put_8 e c32) w

-- `encoder::memcpy`: the bytes of `src`, or only the room for them.
unfoldable pub put_memory : Encoder → Option Buffer → ℕ → Encoder
put_memory e (some src) count = record {
  memory = λ k. if leb (e.buf_) k && ltb k (e.buf_ + count) then src (k - e.buf_) else e.memory k;
  buf_ = e.buf_ + count;
  start_ = e.start_;
  size_ = e.size_;
}
put_memory e none count = record {
  memory = e.memory;
  buf_ = e.buf_ + count;
  start_ = e.start_;
  size_ = e.size_;
}

-- `encoder::size` and `encoder::set_pos`; `get_pos` is the field `buf_`.
unfoldable pub encoded_size : Encoder → ℕ
encoded_size e = e.buf_ - e.start_

unfoldable pub set_encoder_pos : Encoder → ℕ → Encoder
set_encoder_pos e buf_pos = record {
  memory = e.memory;
  buf_ = buf_pos;
  start_ = e.start_;
  size_ = e.size_;
}
