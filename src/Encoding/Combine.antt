-- ===== src/Encoding/Combine.antt =====
-- src/encoding.h: words that are read into a block by OR and by AND.
use bit_magic.Base.{
  ℕ, zero, suc, ◌+◌, ◌*◌, ◌/◌, ◌^◌, ◌≤◌, ◌<◌, ◌≡◌, ◌↔◌, refl, ap, ap₂, sym, ◌∙◌, arith, some, ◌&&◌,
  true, false, inl, inr, Bool-cases, Buffer, store, ltb, leb, ◌==◌, ==→eq, ==→ne, if◌then◌else◌,
  bit_and, bit_or, bit_and_step, bit_and-lt, bit_or-lt, bit_and_ones, ones32,
}
use native.Mathlib.Nat.{pow-suc}
use mathlib.Core.Path.{fun_ext}
use bit_magic.Encoding.Decoder.{
  Decoder, seek, set_decoder_pos, get_32, or_word, or_loop, get_32_or, and_word, and_loop,
  get_32_and,
}
use bit_magic.Encoding.Bytes.{width_32, get, width, bytes, IsAt, get-IsAt}
use bit_magic.Encoding.RoundTrip.{seek-seek}
use bit_magic.Encoding.Arrays.{IsArray, IsStored, span, span-mul}

-- n steps, at i, i + 1, ...
steps {ℓ} : {S : Type ℓ} → (S → ℕ → S) → ℕ → S → ℕ → S
steps f zero s i = s
steps f (suc n) s i = steps f n (f s i) (i + 1)

four_steps {ℓ} :
    {S : Type ℓ} (f : S → ℕ → S) (n : ℕ) (s : S) (i : ℕ)
    → steps f (suc (suc (suc (suc n)))) s i
      ≡ steps f n (f (f (f (f s i) (i + 1)) (i + 2)) (i + 3)) (i + 4)
unfolding steps
four_steps f n s i =
    let two : i + 1 + 1 ≡ i + 2 = omega arith in
    let three : i + 2 + 1 ≡ i + 3 = omega arith in
    let four : i + 3 + 1 ≡ i + 4 = omega arith in
    rw (steps, two) (rw (steps, three) (rw (steps, four) refl))

-- A loop by four is one by one, when the bound is a multiple of four.
or_loop-steps :
    (read : Decoder → ℕ × Decoder) (fuel g i count : ℕ) (s : Decoder × Buffer × ℕ)
    → count ≡ i + g * 4
    → g ≤ fuel
    → or_loop read fuel i count s ≡ steps (or_word read) (g * 4) s i
unfolding or_loop steps
or_loop-steps read zero g i count s end enough = let e : g * 4 ≡ 0 = omega arith in rw e refl
or_loop-steps read (suc fuel) zero i count s end enough =
    let stop : ltb i count ≡ false = ground arith in rw stop refl
or_loop-steps read (suc fuel) (suc g) i count s end enough =
    let e : suc g * 4 ≡ suc (suc (suc (suc (g * 4)))) = omega arith in
    let more : ltb i count ≡ true = ground arith in
    rw (e, more, four_steps (or_word read) (g * 4) s i)
      (or_loop-steps read fuel g (i + 4) count _ (omega arith) (omega arith))

and_loop-steps :
    (read : Decoder → ℕ × Decoder) (fuel g i count : ℕ) (s : Decoder × Buffer)
    → count ≡ i + g * 4
    → g ≤ fuel
    → and_loop read fuel i count s ≡ steps (and_word read) (g * 4) s i
unfolding and_loop steps
and_loop-steps read zero g i count s end enough = let e : g * 4 ≡ 0 = omega arith in rw e refl
and_loop-steps read (suc fuel) zero i count s end enough =
    let stop : ltb i count ≡ false = ground arith in rw stop refl
and_loop-steps read (suc fuel) (suc g) i count s end enough =
    let e : suc g * 4 ≡ suc (suc (suc (suc (g * 4)))) = omega arith in
    let more : ltb i count ≡ true = ground arith in
    rw (e, more, four_steps (and_word read) (g * 4) s i)
      (and_loop-steps read fuel g (i + 4) count _ (omega arith) (omega arith))

-- A conjunction is full when both sides are.
bit_and-le : (k a b : ℕ) → a < 2 ^ k → bit_and a b ≤ a
bit_and-le zero a b h = omega (arith, bit_and-lt 0 a b h)
bit_and-le (suc k) a b h = omega (
  arith,
  bit_and_step a b,
  pow-suc 2 k,
  bit_and-le k (a / 2) (b / 2) (omega (arith, pow-suc 2 k)),
)

bit_and-le_right : (k a b : ℕ) → a < 2 ^ k → bit_and a b ≤ b
bit_and-le_right zero a b h = omega (arith, bit_and-lt 0 a b h)
bit_and-le_right (suc k) a b h = omega (
  arith,
  bit_and_step a b,
  pow-suc 2 k,
  bit_and-le_right k (a / 2) (b / 2) (omega (arith, pow-suc 2 k)),
)

full_both :
    (a b : ℕ) → a < 2 ^ 32 → b < 2 ^ 32 → (bit_and a b ≡ ones32) → (a ≡ ones32) × (b ≡ ones32)
full_both a b p q h = (omega (arith, bit_and-le 32 a b p), omega (arith, bit_and-le_right 32 a b p))

-- `f` of the words of an interval, and the same words else.
abbrev pub combined : (ℕ → ℕ → ℕ) → Buffer → Buffer → ℕ → ℕ → Buffer
combined f w v i n k = if leb i k && ltb k (i + n) then f (w k) (v k) else w k

read_word :
    (d : Decoder) (v : ℕ)
    → v < 2 ^ 32
    → IsAt (d.memory) (d.buf_) 0 (bytes 4 0 v)
    → get_32 d ≡ (v, seek d 4)
unfolding get width
read_word d v h at = get-IsAt width_32 d v h at

or_steps :
    (n : ℕ) (d : Decoder) (w v : Buffer) (acc i : ℕ)
    → IsArray width_32 v
    → ((k : ℕ) → w k < 2 ^ 32)
    → acc < 2 ^ 32
    → IsStored width_32 (d.memory) (d.buf_) v i n
    → let (d1, w1, acc1) = steps (or_word get_32) n (d, w, acc) i in
      ((k : ℕ) → w1 k ≡ combined bit_or w v i n k)
      × (d1 ≡ seek d (span width_32 n))
      × (acc1 < 2 ^ 32)
      × (acc1 ≡ ones32 → acc ≡ ones32)
      × (acc1 ≡ ones32 → (k : ℕ) → i ≤ k → k < i + n → bit_or (w k) (v k) ≡ ones32)
      × (acc ≡ ones32 → ((k : ℕ) → i ≤ k → k < i + n → bit_or (w k) (v k) ≡ ones32) → acc1 ≡ ones32)
unfolding steps or_word IsStored span width seek set_decoder_pos
or_steps zero d w v acc i fits words small at =
    let z : d.buf_ ≡ d.buf_ + 0 = omega arith in
    (
      λ k. ground arith,
      ap (set_decoder_pos d) z,
      small,
      λ h. h,
      λ h k p q. absurd (omega arith),
      λ h all. h,
    )
or_steps (suc n) d w v acc i fits words small (at, more) =
    let x = bit_or (w i) (v i) in
    let word : x < 2 ^ 32 = bit_or-lt 32 (w i) (v i) (words i) (fits i) in
    let both : bit_and acc x < 2 ^ 32 = bit_and-lt 32 acc x small in
    let rest =
      or_steps n (seek d 4) (store w i x) v (bit_and acc x) (i + 1) fits
        (λ k. ground (arith, words k)) both more in
    let last : (k : ℕ) → i + 1 ≤ k → bit_or (store w i x k) (v k) ≡ bit_or (w k) (v k) =
      λ k p. ground arith in
    rw (steps, or_word, read_word d (v i) (fits i) at)
      (
        λ k. rest.0 k ∙ ground arith,
        rest.1 ∙ seek-seek d 4 (span width_32 n),
        rest.2,
        λ h. (full_both acc x small word (rest.3 h)).0,
        λ h k p q. elim (Bool-cases (k == i)) [
          | inl here ↦ let e = ==→eq k i here in rw e (full_both acc x small word (rest.3 h)).1
          | inr there ↦
              let ne = ==→ne k i there in
              sym (last k (omega arith)) ∙ rest.4 h k (omega arith) (omega arith)
        ],
        λ h all.
            rest.5 (rw (h, all i (omega arith) (omega arith)) (bit_and_ones ones32 (omega arith)))
              (λ k p q. last k p ∙ all k (omega arith) (omega arith)),
      )

and_steps :
    (n : ℕ) (d : Decoder) (w v : Buffer) (i : ℕ)
    → IsArray width_32 v
    → IsStored width_32 (d.memory) (d.buf_) v i n
    → let (d1, w1) = steps (and_word get_32) n (d, w) i in
      ((k : ℕ) → w1 k ≡ combined bit_and w v i n k) × (d1 ≡ seek d (span width_32 n))
unfolding steps and_word IsStored span width seek set_decoder_pos
and_steps zero d w v i fits at =
    let z : d.buf_ ≡ d.buf_ + 0 = omega arith in (λ k. ground arith, ap (set_decoder_pos d) z)
and_steps (suc n) d w v i fits (at, more) =
    let x = bit_and (w i) (v i) in
    let rest = and_steps n (seek d 4) (store w i x) v (i + 1) fits more in
    rw (steps, and_word, read_word d (v i) (fits i) at)
      (λ k. rest.0 k ∙ ground arith, rest.1 ∙ seek-seek d 4 (span width_32 n))

-- The first `count` words of a block, combined with as many others.
abbrev pub front : (ℕ → ℕ → ℕ) → Buffer → Buffer → ℕ → Buffer
front f w v count k = if ltb k count then f (w k) (v k) else w k

-- For a count that is a multiple of four and as many words in the stream, reading them by OR
-- gives the disjunction of the first words of the block with them and leaves the rest, answers
-- true exactly where all these results have all bits set, and moves on by four bytes for each
-- word.
pub get_32_or_lem :
    (g count : ℕ) (d : Decoder) (w v : Buffer)
    → count ≡ g * 4
    → IsArray width_32 v
    → ((k : ℕ) → w k < 2 ^ 32)
    → IsStored width_32 (d.memory) (d.buf_) v 0 count
    → let r = get_32_or d (some w) count in
      (r.0 ≡ some (front bit_or w v count))
      × ((r.1 ≡ true) ↔ ((k : ℕ) → k < count → bit_or (w k) (v k) ≡ ones32))
      × (r.2 ≡ seek d (count * 4))
unfolding get_32_or width
get_32_or_lem g count d w v whole fits words at =
    let run = or_steps count d w v ones32 0 fits words (omega arith) at in
    let acc = (steps (or_word get_32) count (d, w, ones32) 0).2 in
    rw
      (
        get_32_or,
        or_loop-steps get_32 count g 0 count (d, w, ones32) (omega arith) (omega arith),
        sym whole,
      )
      (
        ap some (fun_ext (λ k. run.0 k ∙ ground arith)),
        (
          λ full k p. run.4 (==→eq acc ones32 full) k (omega arith) (omega arith),
          λ all. (let e = run.5 refl (λ k p q. all k (omega arith)) in ground arith),
        ),
        run.1 ∙ ap (seek d) (span-mul width_32 count),
      )

-- For a count that is a multiple of four and as many words in the stream, reading them by AND
-- gives the conjunction of the first words of the block with them, leaves the rest, and moves on
-- by four bytes for each word.
pub get_32_and_lem :
    (g count : ℕ) (d : Decoder) (w v : Buffer)
    → count ≡ g * 4
    → IsArray width_32 v
    → IsStored width_32 (d.memory) (d.buf_) v 0 count
    → get_32_and d (some w) count ≡ (some (front bit_and w v count), seek d (count * 4))
unfolding get_32_and width
get_32_and_lem g count d w v whole fits at =
    let run = and_steps count d w v 0 fits at in
    rw
      (
        get_32_and,
        and_loop-steps get_32 count g 0 count (d, w) (omega arith) (omega arith),
        sym whole,
      )
      (ap₂ (λ x y. (x, y)) (ap some (fun_ext (λ k. run.0 k ∙ ground arith)))
        (run.1 ∙ ap (seek d) (span-mul width_32 count)))
