-- ===== src/Encoding/Bytes.antt =====
-- src/encoding.h: the bytes that stand for a word, where they are written and how they are read.
use bit_magic.Base.{
  ℕ, zero, suc, ◌+◌, ◌*◌, ◌/◌, ◌%◌, ◌^◌, ◌≤◌, ◌<◌, ◌≡◌, refl, ap, ◌∙◌, arith, List, [], ◌∷◌, Buffer,
}
use bit_magic.Encoding.Encoder.{Encoder, put_8, put_16, put_24, put_32, put_48, put_64}
use bit_magic.Encoding.Decoder.{
  Decoder, seek, byte_at, get_8, get_16, get_24, get_32, get_48, get_64,
}

-- The widths of the words in a stream.
pub data Width : Type 0 where
  width_8 width_16 width_24 width_32 width_48 width_64 : Width

unfoldable pub put : Width → Encoder → ℕ → Encoder
put width_8 e w = put_8 e w
put width_16 e w = put_16 e w
put width_24 e w = put_24 e w
put width_32 e w = put_32 e w
put width_48 e w = put_48 e w
put width_64 e w = put_64 e w

unfoldable pub get : Width → Decoder → ℕ × Decoder
get width_8 d = get_8 d
get width_16 d = get_16 d
get width_24 d = get_24 d
get width_32 d = get_32 d
get width_48 d = get_48 d
get width_64 d = get_64 d

unfoldable pub width : Width → ℕ
width width_8 = 1
width width_16 = 2
width width_24 = 3
width width_32 = 4
width width_48 = 6
width width_64 = 8

-- The bytes i, i + 1, ... of a word, n of them.
unfoldable pub bytes : ℕ → ℕ → ℕ → List ℕ
bytes zero i w = []
bytes (suc n) i w = (w / 2 ^ (8 * i) % 2 ^ 8) ∷ bytes n (i + 1) w

unfoldable pub put_bytes : Encoder → List ℕ → Encoder
put_bytes e [] = e
put_bytes e (c ∷ cs) = put_bytes (put_8 e c) cs

put_24_lem : (e : Encoder) (w : ℕ) → put_24 e w ≡ put_bytes e (bytes 3 0 w)
unfolding put_bytes bytes put_24 put_8
put_24_lem e w =
    let two : e.buf_ + 1 + 1 ≡ e.buf_ + 2 = omega arith in
    let three : e.buf_ + 2 + 1 ≡ e.buf_ + 3 = omega arith in
    let one : w / 1 ≡ w = omega arith in rw two (rw (three, one) refl)

-- Writing a word is writing its bytes, the lowest first.
put-put_bytes :
    (t : Width) (e : Encoder) (w : ℕ)
    → w < 2 ^ (8 * width t)
    → put t e w ≡ put_bytes e (bytes (width t) 0 w)
unfolding put put_bytes bytes width put_16 put_32 put_48 put_64
put-put_bytes width_8 e w h = let byte : w / 1 % 256 ≡ w = omega arith in rw byte refl
put-put_bytes width_16 e w h = let one : w / 1 ≡ w = omega arith in rw one refl
put-put_bytes width_24 e w h = put_24_lem e w
put-put_bytes width_32 e w h = let one : w / 1 ≡ w = omega arith in rw one refl
put-put_bytes width_48 e w h = let one : w / 1 ≡ w = omega arith in rw one refl
put-put_bytes width_64 e w h = let one : w / 1 ≡ w = omega arith in rw one refl

-- What a write leaves: the bytes before it, and where it began.
pub record Extends (n : ℕ) (e f : Encoder) : Type 0 where
  pub before : (k : ℕ) → k < e.buf_ → f.memory k ≡ e.memory k
  pub buf : f.buf_ ≡ e.buf_ + n
  pub start : f.start_ ≡ e.start_

pub Extends-same : (e : Encoder) → Extends 0 e e
Extends-same e = record { before = λ k h. refl; buf = omega arith; start = refl }

pub Extends-both :
    (n m p : ℕ) {e f g : Encoder} → p ≡ n + m → Extends n e f → Extends m f g → Extends p e g
Extends-both n m p sum a b = record {
  before = λ k h. b.before k (omega (arith, a.buf)) ∙ a.before k h;
  buf = omega (arith, a.buf, b.buf);
  start = b.start ∙ a.start;
}

-- The bytes at b + i, b + i + 1, ...
unfoldable pub IsAt : Buffer → ℕ → ℕ → List ℕ → Type 0
IsAt m b i [] = i ≤ i
IsAt m b i (c ∷ cs) = (m (b + i) ≡ c) × IsAt m b (i + 1) cs

put_8-Extends : (e : Encoder) (c : ℕ) → Extends 1 e (put_8 e c)
unfolding put_8
put_8-Extends e c = record { before = λ k h. ground arith; buf = refl; start = refl }

put_bytes-Extends : (n i w : ℕ) (e : Encoder) → Extends n e (put_bytes e (bytes n i w))
unfolding put_bytes bytes
put_bytes-Extends zero i w e = Extends-same e
put_bytes-Extends (suc n) i w e =
    Extends-both 1 n (suc n) (omega arith) (put_8-Extends e _)
      (put_bytes-Extends n (i + 1) w (put_8 e (w / 2 ^ (8 * i) % 2 ^ 8)))

put_bytes-IsAt :
    (n i w b : ℕ) (e : Encoder)
    → e.buf_ ≡ b + i
    → IsAt ((put_bytes e (bytes n i w)).memory) b i (bytes n i w)
unfolding put_bytes IsAt bytes put_8
put_bytes-IsAt zero i w b e h = omega arith
put_bytes-IsAt (suc n) i w b e h =
    let next = put_8 e (w / 2 ^ (8 * i) % 2 ^ 8) in
    (
      (put_bytes-Extends n (i + 1) w next).before (b + i) (omega arith) ∙ ground arith,
      put_bytes-IsAt n (i + 1) w b next (omega arith),
    )

-- Bytes that another memory has as well.
pub same-IsAt :
    (n i w b top : ℕ) (m m' : Buffer)
    → ((k : ℕ) → k < top → m' k ≡ m k)
    → b + i + n ≤ top
    → IsAt m b i (bytes n i w)
    → IsAt m' b i (bytes n i w)
unfolding IsAt bytes
same-IsAt zero i w b top m m' same h at = omega arith
same-IsAt (suc n) i w b top m m' same h at =
    (same (b + i) (omega arith) ∙ at.0, same-IsAt n (i + 1) w b top m m' same (omega arith) at.1)

pub put-Extends :
    (t : Width) (e : Encoder) (w : ℕ) → w < 2 ^ (8 * width t) → Extends (width t) e (put t e w)
put-Extends t e w h = rw (put-put_bytes t e w h) (put_bytes-Extends (width t) 0 w e)

pub put-IsAt :
    (t : Width) (e : Encoder) (w : ℕ)
    → w < 2 ^ (8 * width t)
    → IsAt ((put t e w).memory) (e.buf_) 0 (bytes (width t) 0 w)
put-IsAt t e w h =
    rw (put-put_bytes t e w h) (put_bytes-IsAt (width t) 0 w (e.buf_) e (omega arith))

-- Reading is the inverse: it finds the word in its bytes, and steps over them.
pub get-IsAt :
    (t : Width) (d : Decoder) (w : ℕ)
    → w < 2 ^ (8 * width t)
    → IsAt (d.memory) (d.buf_) 0 (bytes (width t) 0 w)
    → get t d ≡ (w, seek d (width t))
unfolding get IsAt bytes width get_8 get_16 get_24 get_32 get_48 get_64 byte_at
get-IsAt width_8 d w h at =
    let z : d.buf_ ≡ d.buf_ + 0 = omega arith in
    ap (λ v. (v, seek d 1)) (omega (arith, at.0, ap (d.memory) z))
get-IsAt width_16 d w h at = ap (λ v. (v, seek d 2)) (omega (arith, at))
get-IsAt width_24 d w h at = ap (λ v. (v, seek d 3)) (omega (arith, at))
get-IsAt width_32 d w h at = ap (λ v. (v, seek d 4)) (omega (arith, at))
get-IsAt width_48 d w h at = ap (λ v. (v, seek d 6)) (omega (arith, at))
get-IsAt width_64 d w h at = ap (λ v. (v, seek d 8)) (omega (arith, at))
