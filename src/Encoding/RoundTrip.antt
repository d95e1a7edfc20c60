-- ===== src/Encoding/RoundTrip.antt =====
-- src/encoding.h: what was written is read back, word by word.
use bit_magic.Base.{ℕ, ◌+◌, ◌*◌, ◌^◌, ◌≤◌, ◌<◌, ◌≡◌, refl, ap, arith, List, [], ◌∷◌}
use bit_magic.Encoding.Encoder.{Encoder}
use bit_magic.Encoding.Decoder.{Decoder, seek, set_decoder_pos}
use bit_magic.Encoding.Bytes.{
  Width, put, get, width, bytes, Extends, Extends-same, Extends-both, IsAt, same-IsAt, put-Extends,
  put-IsAt, get-IsAt,
}

pub record Item : Type 0 where
  pub kind : Width
  pub word : ℕ

unfoldable pub put_all : Encoder → List Item → Encoder
put_all e [] = e
put_all e (x ∷ xs) = put_all (put (x.kind) e (x.word)) xs

-- One word of each width, in order.
unfoldable pub get_all : Decoder → List Width → List ℕ × Decoder
get_all d [] = ([], d)
get_all d (t ∷ ts) = let (w, d1) = get t d in let (ws, d2) = get_all d1 ts in ((w ∷ ws), d2)

unfoldable pub kinds : List Item → List Width
kinds [] = []
kinds (x ∷ xs) = (x.kind) ∷ kinds xs

unfoldable pub words : List Item → List ℕ
words [] = []
words (x ∷ xs) = (x.word) ∷ words xs

unfoldable pub total : List Item → ℕ
total [] = 0
total (x ∷ xs) = width (x.kind) + total xs

-- Every word has the digits of its width only.
unfoldable pub FitsAll : List Item → Type 0
FitsAll [] = 0 ≤ 0
FitsAll (x ∷ xs) = (x.word < 2 ^ (8 * width (x.kind))) × FitsAll xs

pub seek-seek : (d : Decoder) (a b : ℕ) → seek (seek d a) b ≡ seek d (a + b)
unfolding seek set_decoder_pos
seek-seek d a b = let e : d.buf_ + a + b ≡ d.buf_ + (a + b) = omega arith in rw e refl

pub seek_zero : (d : Decoder) → d ≡ seek d 0
unfolding seek set_decoder_pos
seek_zero d = let z : d.buf_ ≡ d.buf_ + 0 = omega arith in ap (set_decoder_pos d) z

put_all-Extends : (xs : List Item) (e : Encoder) → FitsAll xs → Extends (total xs) e (put_all e xs)
unfolding put_all FitsAll total
put_all-Extends [] e h = Extends-same e
put_all-Extends (x ∷ xs) e (h, hs) =
    Extends-both (width (x.kind)) (total xs) _ refl (put-Extends (x.kind) e (x.word) h)
      (put_all-Extends xs (put (x.kind) e (x.word)) hs)

-- For a list of words of 8, 16, 24, 32, 48 and 64 bits, each within its width, a decoder at the
-- place where the encoder began that has the memory the encoder left reads the same words back,
-- and both have moved on by the sum of the widths.
pub get_all-put_all :
    (xs : List Item) (e : Encoder) (d : Decoder)
    → FitsAll xs
    → d.memory ≡ (put_all e xs).memory
    → d.buf_ ≡ e.buf_
    → (get_all d (kinds xs) ≡ (words xs, seek d (total xs)))
      × ((put_all e xs).buf_ ≡ e.buf_ + total xs)
unfolding put_all get_all kinds words total FitsAll seek set_decoder_pos
get_all-put_all [] e d h same start =
    let z : d.buf_ ≡ d.buf_ + 0 = omega arith in
    (ap (λ b. ([], set_decoder_pos d b)) z, omega arith)
get_all-put_all (x ∷ xs) e d (h, hs) same start =
    let next = put (x.kind) e (x.word) in
    let more = put_all-Extends xs next hs in
    let one = put-Extends (x.kind) e (x.word) h in
    let at : IsAt (d.memory) (d.buf_) 0 (bytes (width (x.kind)) 0 (x.word)) =
      rw (same, start)
        (same-IsAt (width (x.kind)) 0 (x.word) (e.buf_) (next.buf_) (next.memory) _ (more.before)
          (omega (arith, one.buf)) (put-IsAt (x.kind) e (x.word) h)) in
    let rest =
      get_all-put_all xs next (seek d (width (x.kind))) hs same (omega (arith, start, one.buf)) in
    rw (get-IsAt (x.kind) d (x.word) h at) (
      rw (rest.0) (ap (λ s. ((x.word ∷ words xs), s)) (seek-seek d _ _)),
      omega (arith, rest.1, one.buf),
    )
