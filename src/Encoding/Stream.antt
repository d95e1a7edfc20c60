-- ===== src/Encoding/Stream.antt =====
-- src/encoding.h: the bits that a byte stream holds, in words of 32.
use bit_magic.Base.{
  ℕ, ◌+◌, ◌*◌, ◌/◌, ◌%◌, ◌^◌, ◌≤◌, ◌<◌, ◌≡◌, refl, ap, sym, arith, Buffer, bit_at, bit_at-lt,
}
use bit_magic.Encoding.Encoder.{Encoder, put_32}
use bit_magic.Encoding.Decoder.{decoder, byte_at, get_32}
use bit_magic.Encoding.Bytes.{width_32, put, get, width, Extends, put-Extends, put-IsAt, get-IsAt}

-- The word number w, and the bit number i, of a stream that starts at an address.
unfoldable pub word_at : Buffer → ℕ → ℕ → ℕ
word_at m base w = (get_32 (decoder m (base + w * 4))).0

unfoldable pub stream : Buffer → ℕ → ℕ → ℕ
stream m base i = bit_at (word_at m base (i / 32)) (i % 32)

pub word_at-lt : (m : Buffer) (base w : ℕ) → word_at m base w < 2 ^ 32
unfolding word_at get_32
word_at-lt m base w = omega arith

-- The words below a write are kept, and the written one is there.
pub put_32-Extends : (e : Encoder) (v : ℕ) → v < 2 ^ 32 → Extends 4 e (put_32 e v)
unfolding put width
put_32-Extends e v h = put-Extends width_32 e v h

pub word_at-before :
    (e : Encoder) (v base w : ℕ)
    → v < 2 ^ 32
    → base + w * 4 + 4 ≤ e.buf_
    → word_at ((put_32 e v).memory) base w ≡ word_at (e.memory) base w
unfolding word_at get_32 byte_at decoder
word_at-before e v base w h below =
    let x = put_32-Extends e v h in
    let a = base + w * 4 in
    rw
      (
        x.before (a + 0) (omega arith),
        x.before (a + 1) (omega arith),
        x.before (a + 2) (omega arith),
        x.before (a + 3) (omega arith),
      )
      refl

pub word_at-put_32 :
    (e : Encoder) (v base w : ℕ)
    → v < 2 ^ 32
    → e.buf_ ≡ base + w * 4
    → word_at ((put_32 e v).memory) base w ≡ v
unfolding word_at put get width decoder get_32
word_at-put_32 e v base w h here = rw (sym here) (
    ap (λ x. x.0)
      (get-IsAt width_32 (decoder ((put_32 e v).memory) (e.buf_)) v h (put-IsAt width_32 e v h)))

pub stream-lt : (m : Buffer) (base i : ℕ) → stream m base i < 2
unfolding stream
stream-lt m base i = bit_at-lt (word_at m base (i / 32)) (i % 32)
