-- ===== src/Encoding/Arrays.antt =====
-- src/encoding.h: an array that was written is read back.
use bit_magic.Base.{
  ℕ, zero, suc, ◌+◌, ◌-◌, ◌*◌, ◌^◌, ◌≤◌, ◌<◌, ◌≡◌, refl, ap, ◌∙◌, arith, ap₂, some, ◌&&◌, Buffer,
  store, ltb, leb, if◌then◌else◌,
}
use bit_magic.Encoding.Encoder.{
  Encoder, put_16, put_32, put_16_loop, put_32_loop, put_16_array, put_32_array,
}
use bit_magic.Encoding.Decoder.{
  Decoder, seek, set_decoder_pos, get_words, get_16_array, get_32_array,
}
use bit_magic.Encoding.Bytes.{
  Width, width_16, width_32, put, get, width, bytes, Extends, Extends-same, Extends-both, IsAt,
  same-IsAt, put-Extends, put-IsAt, get-IsAt,
}
use bit_magic.Encoding.RoundTrip.{seek-seek}
use mathlib.Core.Path.{fun_ext}

-- The words of an array, of one width.
put_words : Width → ℕ → Encoder → Buffer → ℕ → Encoder
put_words t zero e w i = e
put_words t (suc n) e w i = put_words t n (put t e (w i)) w (i + 1)

put_16_loop-put_words :
    (n : ℕ) (e : Encoder) (w : Buffer) (i : ℕ) → put_16_loop n e w i ≡ put_words width_16 n e w i
unfolding put_16_loop put_words put
put_16_loop-put_words zero e w i = refl
put_16_loop-put_words (suc n) e w i = put_16_loop-put_words n (put_16 e (w i)) w (i + 1)

put_32_loop-put_words :
    (n : ℕ) (e : Encoder) (w : Buffer) (i : ℕ) → put_32_loop n e w i ≡ put_words width_32 n e w i
unfolding put_32_loop put_words put
put_32_loop-put_words zero e w i = refl
put_32_loop-put_words (suc n) e w i = put_32_loop-put_words n (put_32 e (w i)) w (i + 1)

abbrev pub IsArray : Width → Buffer → Type 0
IsArray t w = (k : ℕ) → w k < 2 ^ (8 * width t)

-- The words i, ..., i + n - 1 of an array, one after the other from an address on.
unfoldable pub IsStored : Width → Buffer → ℕ → Buffer → ℕ → ℕ → Type 0
IsStored t m b w i zero = b ≤ b
IsStored t m b w i (suc n) =
    IsAt m b 0 (bytes (width t) 0 (w i)) × IsStored t m (b + width t) w (i + 1) n

unfoldable pub span : Width → ℕ → ℕ
span t zero = 0
span t (suc n) = width t + span t n

put_words-Extends :
    (t : Width) (n : ℕ) (e : Encoder) (w : Buffer) (i : ℕ)
    → IsArray t w
    → Extends (span t n) e (put_words t n e w i)
unfolding put_words span
put_words-Extends t zero e w i h = Extends-same e
put_words-Extends t (suc n) e w i h =
    Extends-both (width t) (span t n) _ refl (put-Extends t e (w i) (h i))
      (put_words-Extends t n (put t e (w i)) w (i + 1) h)

put_words-IsStored :
    (t : Width) (n b : ℕ) (e : Encoder) (w : Buffer) (i : ℕ)
    → IsArray t w
    → b ≡ e.buf_
    → IsStored t ((put_words t n e w i).memory) b w i n
unfolding put_words IsStored
put_words-IsStored t zero b e w i h start = omega arith
put_words-IsStored t (suc n) b e w i h start =
    let next = put t e (w i) in
    let more = put_words-Extends t n next w (i + 1) h in
    let one = put-Extends t e (w i) (h i) in
    (
      rw start (
          same-IsAt (width t) 0 (w i) (e.buf_) (next.buf_) (next.memory) _ (more.before)
            (omega (arith, one.buf)) (put-IsAt t e (w i) (h i))),
      put_words-IsStored t n (b + width t) next w (i + 1) h (omega (arith, start, one.buf)),
    )

-- The words are read into the places i, ..., i + n - 1 of the target.
get_words-IsStored :
    (t : Width) (n : ℕ) (d : Decoder) (out w : Buffer) (i : ℕ)
    → IsArray t w
    → IsStored t (d.memory) (d.buf_) w i n
    → let (r, d1) = get_words (get t) n d out i in
      ((k : ℕ) → r k ≡ (if leb i k && ltb k (i + n) then w k else out k)) × (d1 ≡ seek d (span t n))
unfolding get_words IsStored span seek set_decoder_pos
get_words-IsStored t zero d out w i h at =
    let z : d.buf_ ≡ d.buf_ + 0 = omega arith in (λ k. ground arith, ap (set_decoder_pos d) z)
get_words-IsStored t (suc n) d out w i h (at, more) =
    let rest = get_words-IsStored t n (seek d (width t)) (store out i (w i)) w (i + 1) h more in
    rw (get_words, get-IsAt t d (w i) (h i) at)
      (λ k. rest.0 k ∙ ground arith, rest.1 ∙ seek-seek d (width t) (span t n))

-- `count` words into the front of the target, which starts at 0.
abbrev pub copied : Buffer → ℕ → Buffer → Buffer
copied w count out k = if ltb k count then w k else out k

get_words-copied :
    (t : Width) (n : ℕ) (d : Decoder) (out w : Buffer)
    → IsArray t w
    → IsStored t (d.memory) (d.buf_) w 0 n
    → get_words (get t) n d out 0 ≡ (copied w n out, seek d (span t n))
get_words-copied t n d out w h at =
    let (r, after) = get_words-IsStored t n d out w 0 h at in
    ap₂ (λ x y. (x, y)) (fun_ext (λ k. r k ∙ ground arith)) after

pub span-mul : (t : Width) (n : ℕ) → span t n ≡ n * width t
unfolding span
span-mul t zero = omega arith
span-mul t (suc n) = omega (arith, span-mul t n)

put_16_array-put_words :
    (n : ℕ) (e : Encoder) (w : Buffer) → put_16_array e w (suc n) ≡ put_words width_16 (suc n) e w 0
unfolding put_16_array put_words put
put_16_array-put_words n e w =
    let m : suc n - 1 ≡ n = omega arith in rw m (put_16_loop-put_words n (put_16 e (w 0)) w 1)

put_32_array-put_words :
    (n : ℕ) (e : Encoder) (w : Buffer) → put_32_array e w (suc n) ≡ put_words width_32 (suc n) e w 0
unfolding put_32_array put_words put
put_32_array-put_words n e w =
    let m : suc n - 1 ≡ n = omega arith in rw m (put_32_loop-put_words n (put_32 e (w 0)) w 1)

-- An array that stands at the decoder is read.
read_16_array :
    (n : ℕ) (d : Decoder) (w out : Buffer)
    → IsArray width_16 w
    → IsStored width_16 (d.memory) (d.buf_) w 0 (suc n)
    → get_16_array d (some out) (suc n) ≡ (some (copied w (suc n) out), seek d (suc n * 2))
unfolding get_16_array get_words get width
read_16_array n d w out h at =
    let m : suc n - 1 ≡ n = omega arith in
    rw m (
      ap (λ (x : Buffer × Decoder). (some (x.0), x.1))
        (rw (span-mul width_16 (suc n)) at (get_words-copied width_16 (suc n) d out w h at)))

read_32_array :
    (n : ℕ) (d : Decoder) (w out : Buffer)
    → IsArray width_32 w
    → IsStored width_32 (d.memory) (d.buf_) w 0 (suc n)
    → get_32_array d (some out) (suc n) ≡ (some (copied w (suc n) out), seek d (suc n * 4))
unfolding get_32_array get_words get width
read_32_array n d w out h at =
    let m : suc n - 1 ≡ n = omega arith in
    rw m (
      ap (λ (x : Buffer × Decoder). (some (x.0), x.1))
        (rw (span-mul width_32 (suc n)) at (get_words-copied width_32 (suc n) d out w h at)))

pub get_16_array-put_16_array :
    (n : ℕ) (e : Encoder) (d : Decoder) (w out : Buffer)
    → IsArray width_16 w
    → d.memory ≡ (put_16_array e w (suc n)).memory
    → d.buf_ ≡ e.buf_
    → get_16_array d (some out) (suc n) ≡ (some (copied w (suc n) out), seek d (suc n * 2))
get_16_array-put_16_array n e d w out h same start = read_16_array n d w out h (
    rw (same, put_16_array-put_words n e w)
      (put_words-IsStored width_16 (suc n) (d.buf_) e w 0 h start))

-- For an array of 32-bit words, a decoder at the place where the encoder began that has the
-- memory the encoder left after n + 1 of them reads these n + 1 words into the target, leaves its
-- other words, and has moved on by four bytes for each.
pub get_32_array-put_32_array :
    (n : ℕ) (e : Encoder) (d : Decoder) (w out : Buffer)
    → IsArray width_32 w
    → d.memory ≡ (put_32_array e w (suc n)).memory
    → d.buf_ ≡ e.buf_
    → get_32_array d (some out) (suc n) ≡ (some (copied w (suc n) out), seek d (suc n * 4))
get_32_array-put_32_array n e d w out h same start = read_32_array n d w out h (
    rw (same, put_32_array-put_words n e w)
      (put_words-IsStored width_32 (suc n) (d.buf_) e w 0 h start))
