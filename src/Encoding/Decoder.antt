-- ===== src/Encoding/Decoder.antt =====
-- src/encoding.h: `decoder_base`, `decoder` and `decoder_little_endian`. A reading returns the
-- value and the decoder after it.
use bit_magic.Base.{
  ℕ, zero, suc, ◌+◌, ◌-◌, ◌*◌, ◌%◌, ◌^◌, Bool, false, Option, some, none, Buffer, store, ltb, ◌==◌,
  if◌then◌else◌, bit_and, bit_or, ones32,
}

pub record Decoder : Type 0 where
  pub memory : Buffer
  pub buf_ : ℕ
  pub start_ : ℕ

unfoldable pub decoder : Buffer → ℕ → Decoder
decoder memory buf = record { memory = memory; buf_ = buf; start_ = buf }

-- `buf_ = pos` and `buf_ += delta`; the delta of the callers is not negative.
unfoldable pub set_decoder_pos : Decoder → ℕ → Decoder
set_decoder_pos d pos = record { memory = d.memory; buf_ = pos; start_ = d.start_ }

unfoldable pub seek : Decoder → ℕ → Decoder
seek d delta = set_decoder_pos d (d.buf_ + delta)

unfoldable pub decoded_size : Decoder → ℕ
decoded_size d = d.buf_ - d.start_

-- `buf_[i]`
unfoldable pub byte_at : Decoder → ℕ → ℕ
byte_at d i = d.memory (d.buf_ + i)

unfoldable pub get_8 : Decoder → ℕ × Decoder
get_8 d = (d.memory (d.buf_), seek d 1)

unfoldable pub get_16 : Decoder → ℕ × Decoder
get_16 d = ((byte_at d 0 + byte_at d 1 * 2 ^ 8) % 2 ^ 16, seek d 2)

unfoldable pub get_24 : Decoder → ℕ × Decoder
get_24 d = ((byte_at d 0 + byte_at d 1 * 2 ^ 8 + byte_at d 2 * 2 ^ 16) % 2 ^ 32, seek d 3)

unfoldable pub get_32 : Decoder → ℕ × Decoder
get_32 d = (
  (byte_at d 0 + byte_at d 1 * 2 ^ 8 + byte_at d 2 * 2 ^ 16 + byte_at d 3 * 2 ^ 24) % 2 ^ 32,
  seek d 4,
)

unfoldable pub get_48 : Decoder → ℕ × Decoder
get_48 d = (
  (byte_at d 0
        + byte_at d 1 * 2 ^ 8
        + byte_at d 2 * 2 ^ 16
        + byte_at d 3 * 2 ^ 24
        + byte_at d 4 * 2 ^ 32
        + byte_at d 5 * 2 ^ 40)
      % 2 ^ 64,
  seek d 6,
)

unfoldable pub get_64 : Decoder → ℕ × Decoder
get_64 d = (
  (byte_at d 0
        + byte_at d 1 * 2 ^ 8
        + byte_at d 2 * 2 ^ 16
        + byte_at d 3 * 2 ^ 24
        + byte_at d 4 * 2 ^ 32
        + byte_at d 5 * 2 ^ 40
        + byte_at d 6 * 2 ^ 48
        + byte_at d 7 * 2 ^ 56)
      % 2 ^ 64,
  seek d 8,
)

-- `decoder_base::memcpy`
unfoldable pub get_memory : Decoder → Option Buffer → ℕ → Option Buffer × Decoder
get_memory d (some dst) count =
    (some (λ k. if ltb k count then d.memory (d.buf_ + k) else dst k), seek d count)
get_memory d none count = (none, seek d count)

-- n words into `w[i]`, `w[i + 1]`, ...
unfoldable pub get_words : (Decoder → ℕ × Decoder) → ℕ → Decoder → Buffer → ℕ → Buffer × Decoder
get_words get zero d w i = (w, d)
get_words get (suc n) d w i = let (a, d1) = get d in get_words get n d1 (store w i a) (i + 1)

-- `do ... while (w < w_end)`, or a step over the words when there is no target.
unfoldable pub get_32_array : Decoder → Option Buffer → ℕ → Option Buffer × Decoder
get_32_array d none count = (none, seek d (count * 4))
get_32_array d (some w) count =
    let (a, d1) = get_32 d in
    let (w1, d2) = get_words get_32 (count - 1) d1 (store w 0 a) 1 in (some w1, d2)

unfoldable pub get_16_array : Decoder → Option Buffer → ℕ → Option Buffer × Decoder
get_16_array d none count = (none, seek d (count * 2))
get_16_array d (some s) count =
    let (a, d1) = get_16 d in
    let (s1, d2) = get_words get_16 (count - 1) d1 (store s 0 a) 1 in (some s1, d2)

-- `acc &= (w[i] |= get_32())`
unfoldable pub or_word : (Decoder → ℕ × Decoder) → Decoder × Buffer × ℕ → ℕ → Decoder × Buffer × ℕ
or_word get (d, w, acc) i =
    let (a, d1) = get d in let v = bit_or (w i) a in (d1, store w i v, bit_and acc v)

-- `for (; i < count; i += 4)`
unfoldable pub or_loop :
    (Decoder → ℕ × Decoder) → ℕ → ℕ → ℕ → Decoder × Buffer × ℕ → Decoder × Buffer × ℕ
or_loop get zero i count state = state
or_loop get (suc fuel) i count state =
    let state1 =
      or_word get (or_word get (or_word get (or_word get state i) (i + 1)) (i + 2)) (i + 3) in
    let rest = or_loop get fuel (i + 4) count state1 in if ltb i count then rest else state

-- The target, whether all its bits are set now, and the decoder.
unfoldable pub get_32_or : Decoder → Option Buffer → ℕ → Option Buffer × Bool × Decoder
get_32_or d none count = (none, false, seek d (count * 4))
get_32_or d (some w) count =
    let (d1, w1, acc) = or_loop get_32 count 0 count (d, w, ones32) in (some w1, acc == ones32, d1)

-- `w[i] &= get_32()`
unfoldable pub and_word : (Decoder → ℕ × Decoder) → Decoder × Buffer → ℕ → Decoder × Buffer
and_word get (d, w) i = let (a, d1) = get d in (d1, store w i (bit_and (w i) a))

unfoldable pub and_loop : (Decoder → ℕ × Decoder) → ℕ → ℕ → ℕ → Decoder × Buffer → Decoder × Buffer
and_loop get zero i count state = state
and_loop get (suc fuel) i count state =
    let state1 =
      and_word get (and_word get (and_word get (and_word get state i) (i + 1)) (i + 2)) (i + 3) in
    let rest = and_loop get fuel (i + 4) count state1 in if ltb i count then rest else state

unfoldable pub get_32_and : Decoder → Option Buffer → ℕ → Option Buffer × Decoder
get_32_and d none count = (none, seek d (count * 4))
get_32_and d (some w) count = let (d1, w1) = and_loop get_32 count 0 count (d, w) in (some w1, d1)
