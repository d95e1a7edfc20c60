-- ===== src/Encoding/LittleEndian.antt =====
-- src/encoding.h: `decoder_little_endian`, for a stream whose words have their highest byte first.
-- Its position and its steps are those of `decoder`.
pub mod Laws
use bit_magic.Base.{
  ℕ, zero, suc, ◌+◌, ◌-◌, ◌*◌, ◌%◌, ◌^◌, Bool, false, Option, some, none, Buffer, store, ◌==◌,
  ones32,
}
use bit_magic.Encoding.Decoder.{Decoder, seek, byte_at, get_words, or_loop, and_loop}

unfoldable pub le_get_16 : Decoder → ℕ × Decoder
le_get_16 d = ((byte_at d 0 * 2 ^ 8 + byte_at d 1) % 2 ^ 16, seek d 2)

-- This width is read like `decoder` does.
unfoldable pub le_get_24 : Decoder → ℕ × Decoder
le_get_24 d = ((byte_at d 0 + byte_at d 1 * 2 ^ 8 + byte_at d 2 * 2 ^ 16) % 2 ^ 32, seek d 3)

unfoldable pub le_get_32 : Decoder → ℕ × Decoder
le_get_32 d = (
  (byte_at d 0 * 2 ^ 24 + byte_at d 1 * 2 ^ 16 + byte_at d 2 * 2 ^ 8 + byte_at d 3) % 2 ^ 32,
  seek d 4,
)

-- And so is this one.
unfoldable pub le_get_48 : Decoder → ℕ × Decoder
le_get_48 d = (
  (byte_at d 0
        + byte_at d 1 * 2 ^ 8
        + byte_at d 2 * 2 ^ 16
        + byte_at d 3 * 2 ^ 24
        + byte_at d 4 * 2 ^ 32
        + byte_at d 5 * 2 ^ 40)
      % 2 ^ 64,
  seek d 6,
)

unfoldable pub le_get_64 : Decoder → ℕ × Decoder
le_get_64 d = (
  (byte_at d 0
        + byte_at d 1 * 2 ^ 56
        + byte_at d 2 * 2 ^ 48
        + byte_at d 3 * 2 ^ 40
        + byte_at d 4 * 2 ^ 32
        + byte_at d 5 * 2 ^ 24
        + byte_at d 6 * 2 ^ 16
        + byte_at d 7 * 2 ^ 8)
      % 2 ^ 64,
  seek d 8,
)

unfoldable pub le_get_32_array : Decoder → Option Buffer → ℕ → Option Buffer × Decoder
le_get_32_array d none count = (none, seek d (count * 4))
le_get_32_array d (some w) count =
    let (a, d1) = le_get_32 d in
    let (w1, d2) = get_words le_get_32 (count - 1) d1 (store w 0 a) 1 in (some w1, d2)

unfoldable pub le_get_32_or : Decoder → Option Buffer → ℕ → Option Buffer × Bool × Decoder
le_get_32_or d none count = (none, false, seek d (count * 4))
le_get_32_or d (some w) count =
    let (d1, w1, acc) = or_loop le_get_32 count 0 count (d, w, ones32) in
    (some w1, acc == ones32, d1)

-- Without a test of the target.
unfoldable pub le_get_32_and : Decoder → Buffer → ℕ → Buffer × Decoder
le_get_32_and d w count = let (d1, w1) = and_loop le_get_32 count 0 count (d, w) in (w1, d1)

-- The loop moves `buf`, and reads at `buf_`.
unfoldable pub le_get_16_loop : ℕ → Decoder → Buffer → ℕ → Buffer
le_get_16_loop zero d s i = s
le_get_16_loop (suc n) d s i =
    let a = (byte_at d 0 * 2 ^ 8 + byte_at d 1) % 2 ^ 16 in le_get_16_loop n d (store s i a) (i + 1)

unfoldable pub le_get_16_array : Decoder → Option Buffer → ℕ → Option Buffer × Decoder
le_get_16_array d none count = (none, seek d (count * 2))
le_get_16_array d (some s) count =
    let a = (byte_at d 0 * 2 ^ 8 + byte_at d 1) % 2 ^ 16 in
    (some (le_get_16_loop (count - 1) d (store s 0 a) 1), seek d (2 + (count - 1) * 2))
