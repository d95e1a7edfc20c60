-- ===== src/Encoding/LittleEndian/Laws.antt =====
-- src/encoding.h: what `decoder_little_endian` reads of words whose highest byte comes first.
use bit_magic.Base.{
  ℕ, zero, suc, ◌+◌, ◌-◌, ◌*◌, ◌/◌, ◌%◌, ◌^◌, ◌≤◌, ◌<◌, ◌≡◌, ap, ap₂, ◌∙◌, arith, some, ◌&&◌,
  Buffer, store, ltb, leb, if◌then◌else◌,
}
use mathlib.Core.Path.{fun_ext}
use bit_magic.Encoding.Decoder.{Decoder, seek, byte_at, get_words}
use bit_magic.Encoding.LittleEndian.{
  le_get_16, le_get_32, le_get_64, le_get_32_array, le_get_16_loop, le_get_16_array,
}
use bit_magic.Encoding.RoundTrip.{seek-seek, seek_zero}

-- The n bytes of a word stand at the decoder, the highest first.
abbrev pub IsSwapped : ℕ → Decoder → ℕ → Type 0
IsSwapped n d w =
    (w < 2 ^ (8 * n)) × ((i : ℕ) → i < n → byte_at d i ≡ w / 2 ^ (8 * (n - 1 - i)) % 2 ^ 8)

pub le_get_16_lem : (d : Decoder) (w : ℕ) → IsSwapped 2 d w → le_get_16 d ≡ (w, seek d 2)
unfolding le_get_16
le_get_16_lem d w (small, at) =
    ap (λ v. (v, seek d 2)) (omega (arith, small, at 0 (omega arith), at 1 (omega arith)))

pub le_get_32_lem : (d : Decoder) (w : ℕ) → IsSwapped 4 d w → le_get_32 d ≡ (w, seek d 4)
unfolding le_get_32
le_get_32_lem d w (small, at) =
    ap (λ v. (v, seek d 4))
      (omega (
        arith,
        small,
        at 0 (omega arith),
        at 1 (omega arith),
        at 2 (omega arith),
        at 3 (omega arith),
      ))

-- If the eight bytes of a 64-bit word stand at the decoder with the highest first, then the
-- swapping decoder does not answer the word but the word turned to the left by one byte.
pub le_get_64_lem :
    (d : Decoder) (w : ℕ)
    → IsSwapped 8 d w
    → le_get_64 d ≡ (w * 2 ^ 8 % 2 ^ 64 + w / 2 ^ 56, seek d 8)
unfolding le_get_64
le_get_64_lem d w (small, at) =
    ap (λ v. (v, seek d 8))
      (omega (
        arith,
        small,
        at 0 (omega arith),
        at 1 (omega arith),
        at 2 (omega arith),
        at 3 (omega arith),
        at 4 (omega arith),
        at 5 (omega arith),
        at 6 (omega arith),
        at 7 (omega arith),
      ))

loop_lem :
    (n : ℕ) (d : Decoder) (s : Buffer) (i k : ℕ)
    → le_get_16_loop n d s i k ≡ (if leb i k && ltb k (i + n) then (le_get_16 d).0 else s k)
unfolding le_get_16_loop le_get_16
loop_lem zero d s i k = ground arith
loop_lem (suc n) d s i k =
    loop_lem n d (store s i ((byte_at d 0 * 2 ^ 8 + byte_at d 1) % 2 ^ 16)) (i + 1) k ∙ ground arith

-- Into an array of n + 1 words of 16 bits, the swapping decoder reads the first word of the
-- stream at every place, and moves on by two bytes for each.
pub le_get_16_array_lem :
    (n : ℕ) (d : Decoder) (s : Buffer)
    → le_get_16_array d (some s) (suc n)
      ≡ (some (λ k. if ltb k (suc n) then (le_get_16 d).0 else s k), seek d (suc n * 2))
unfolding le_get_16_array le_get_16
le_get_16_array_lem n d s =
    let m : suc n - 1 ≡ n = omega arith in
    rw m (
      ap₂ (λ x y. (some x, y)) (fun_ext (λ k. loop_lem n d _ 1 k ∙ ground arith))
        (ap (seek d) (omega arith)))

-- The words i, ..., i + n - 1 of an array, each with its highest byte first.
unfoldable pub IsSwappedArray : Decoder → Buffer → ℕ → ℕ → Type 0
IsSwappedArray d w i zero = i ≤ i
IsSwappedArray d w i (suc n) = IsSwapped 4 d (w i) × IsSwappedArray (seek d 4) w (i + 1) n

words_lem :
    (n : ℕ) (d : Decoder) (out w : Buffer) (i : ℕ)
    → IsSwappedArray d w i n
    → let (r, d1) = get_words le_get_32 n d out i in
      ((k : ℕ) → r k ≡ (if leb i k && ltb k (i + n) then w k else out k)) × (d1 ≡ seek d (n * 4))
unfolding get_words IsSwappedArray
words_lem zero d out w i h = (λ k. ground arith, seek_zero d)
words_lem (suc n) d out w i (h, more) =
    let rest = words_lem n (seek d 4) (store out i (w i)) w (i + 1) more in
    rw (get_words, le_get_32_lem d (w i) h)
      (λ k. rest.0 k ∙ ground arith, rest.1 ∙ seek-seek d 4 (n * 4) ∙ ap (seek d) (omega arith))

pub le_get_32_array_lem :
    (n : ℕ) (d : Decoder) (out w : Buffer)
    → IsSwappedArray d w 0 (suc n)
    → le_get_32_array d (some out) (suc n)
      ≡ (some (λ k. if ltb k (suc n) then w k else out k), seek d (suc n * 4))
unfolding le_get_32_array get_words
le_get_32_array_lem n d out w h =
    let m : suc n - 1 ≡ n = omega arith in
    let run = words_lem (suc n) d out w 0 h in
    rw m (ap₂ (λ x y. (some x, y)) (fun_ext (λ k. run.0 k ∙ ground arith)) run.1)
