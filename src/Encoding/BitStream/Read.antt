-- ===== src/Encoding/BitStream/Read.antt =====
-- src/encoding.h: reading the items back gives their values.
use bit_magic.Base.{
  ℕ, zero, suc, ◌+◌, ◌-◌, ◌*◌, ◌/◌, ◌%◌, ◌^◌, ◌≤◌, ◌<◌, ◌≡◌, refl, ap, sym, ◌∙◌, arith, inl, inr,
  Bool-cases, ltb→lt, lt_or_eq_or_gt, List, [], ◌∷◌, ltb, if◌then◌else◌, some, Buffer, bit_at,
  bit_at_mod, shifted_digit, above, same_digits,
}
use native.Mathlib.Nat.{
  pow-suc, pow-le-pow_right, mod-lt, one-le-pow, le-div_iff_mul-le, div-lt_iff_lt-mul,
}
use bit_magic.Scan.{bit_scan_reverse32}
use bit_magic.Scan.Laws.{IsTop}
use bit_magic.Encoding.Encoder.{Encoder}
use bit_magic.Encoding.Decoder.{decoder}
use bit_magic.Encoding.Stream.{stream}
use bit_magic.Encoding.BitOut.{BitOut, bit_out, flush}
use bit_magic.Encoding.BitIn.{BitIn, bit_in, get_bit, get_bits}
use bit_magic.Encoding.BitIn.Laws.{AtBit, IsRead, get_bits-AtBit}
use bit_magic.Encoding.BitIn.Gamma.{IsValue, get_gamma-AtBit}
use bit_magic.Encoding.BitStream.{
  BitItem, one_bit, some_bits, gamma_code, put_item, put_items, get_item, get_items, value, values,
  size, digit, total_size, sequence, IsAllowed, AreAllowed,
}
use bit_magic.Encoding.BitStream.Write.{written, scan-IsTop}

-- The digit at the highest one.
top_digit : (v k : ℕ) → IsTop v k → bit_at v k ≡ 1
top_digit v k (low, high) =
    let pos : 0 < 2 ^ k = omega (arith, one-le-pow k 2 (omega arith)) in
    let at_least = (le-div_iff_mul-le {x = 1} {y = v} pos).1 (omega arith) in
    let below = (div-lt_iff_lt-mul {x = v} {y = 2} pos).1 (omega (arith, pow-suc 2 k)) in
    sym (shifted_digit v k) ∙ omega arith

get_bit_lem : (d : BitIn) → get_bit d ≡ get_bits d 1
unfolding get_bit get_bits
get_bit_lem d = refl

bit_digit : (v i : ℕ) → v < 2 → bit_at v i ≡ (if ltb i 1 then v else 0)
unfolding bit_at
bit_digit v zero h = omega arith
bit_digit v (suc i) h = above 1 v (suc i) h (omega arith) ∙ ground arith

mod_small : (v c : ℕ) → c ≤ 32 → v % 2 ^ c < 2 ^ 32
mod_small v c h = omega (
  arith,
  mod-lt v (one-le-pow c 2 (omega arith)),
  pow-le-pow_right {n = 2} (omega arith) {i = c} {j = 32} h,
)

module _ (m : Buffer) (base : ℕ) where
  -- The three kinds of items.
  read_bit : (n v w : ℕ) → v < 2 → IsRead m base n 1 w → stream m base n ≡ v → w ≡ v
  read_bit n v w bit (small, digits) here =
      let e : n + 0 ≡ n = omega arith in
      same_digits 32 w v small (omega arith) (λ i p.
        digits i
        ∙ rw (bit_digit v i bit) (elim (Bool-cases (ltb i 1)) [
          | inl first ↦
              let z : i ≡ 0 = ground (arith, ltb→lt i 1 first) in rw (first, z) (rw (e, here) refl)
          | inr other ↦ rw other refl
        ]))

  read_bits :
      (n v c w : ℕ)
      → c ≤ 32
      → IsRead m base n c w
      → ((i : ℕ) → i < c → stream m base (n + i) ≡ bit_at v i)
      → w ≡ v % 2 ^ c
  read_bits n v c w fits (small, digits) bits =
      same_digits 32 w (v % 2 ^ c) small (mod_small v c fits)
        (λ i p. digits i ∙ rw (bit_at_mod v c i) (ground (arith, bits i)))

  read_gamma :
      (n k v w : ℕ)
      → v < 2 ^ 32
      → IsTop v k
      → IsValue m base n k w
      → ((i : ℕ) → i < k → stream m base (n + i) ≡ bit_at v i)
      → w ≡ v
  read_gamma n k v w fits top (small, digits) bits = same_digits 32 w v small fits (λ i p.
      digits i ∙ elim (lt_or_eq_or_gt i k) [
        | inl low ↦ ground (arith, bits i low)
        | inr (inl same) ↦ rw same (ground (arith, top_digit v k top))
        | inr (inr high) ↦ ground (arith, above (suc k) v i (top.1) high)
      ])

  get_item-AtBit :
      (fuel n : ℕ) (d : BitIn) (o : BitOut) (x : BitItem)
      → 64 ≤ fuel * 32
      → AtBit m base n d
      → IsAllowed o x
      → ((i : ℕ) → i < size x → stream m base (n + i) ≡ digit x i)
      → (e : BitIn) × (get_item fuel d x ≡ some (value x, e)) × AtBit m base (n + size x) e
  unfolding get_item value size digit IsAllowed
  get_item-AtBit fuel n d o (one_bit v) enough h (bit, room) bits =
      let (read, next) = get_bits-AtBit m base n 1 d h (omega arith) (omega arith) in
      let e : n + 0 ≡ n = omega arith in
      let same = read_bit n v (get_bits d 1).0 bit read (rw e at (bits 0 (omega arith))) in
      ((get_bits d 1).1, ap some (get_bit_lem d ∙ ap (λ (w : ℕ). (w, (get_bits d 1).1)) same), next)
  get_item-AtBit fuel n d o (some_bits v c) enough h (pos, fits, room) bits =
      let (read, next) = get_bits-AtBit m base n c d h pos fits in
      let same = read_bits n v c (get_bits d c).0 fits read bits in
      ((get_bits d c).1, ap (λ (w : ℕ). some (w, (get_bits d c).1)) same, next)
  get_item-AtBit fuel n d o (gamma_code v) enough h (pos, small) bits =
      let k = bit_scan_reverse32 v in
      let (top, fits) = scan-IsTop v pos small in
      let (w, e, run, read, next) =
        get_gamma-AtBit m base fuel n k d h
          (λ i p. bits i (omega arith) ∙ ground arith, bits k (omega arith) ∙ ground arith) fits
          enough in
      let same = read_gamma (n + k + 1) k v w small top read (λ i p.
        let a : n + (k + 1 + i) ≡ n + k + 1 + i = omega arith in
        let b : k + 1 + i - (k + 1) ≡ i = omega arith in
        rw (a, b) at (bits (k + 1 + i) (omega arith)) ∙ ground arith) in
      let end : n + k + 1 + k ≡ n + (k + 1 + k) = omega arith in
      (e, run ∙ ap (λ (u : ℕ). some (u, e)) same, rw end at next)

  get_items-AtBit :
      (fuel n : ℕ) (d : BitIn) (o : BitOut) (xs : List BitItem)
      → 64 ≤ fuel * 32
      → AtBit m base n d
      → AreAllowed o xs
      → ((i : ℕ) → i < total_size xs → stream m base (n + i) ≡ sequence xs i)
      → get_items fuel d xs ≡ some (values xs)
  unfolding get_items values total_size sequence AreAllowed
  get_items-AtBit fuel n d o [] enough h allowed bits = refl
  get_items-AtBit fuel n d o (x ∷ xs) enough h (one, others) bits =
      let (e, run, next) =
        get_item-AtBit fuel n d o x enough h one (λ i p. bits i (omega arith) ∙ ground arith) in
      let rest = get_items-AtBit fuel (n + size x) e (put_item o x) xs enough next others (λ i p.
        let a : n + (size x + i) ≡ n + size x + i = omega arith in
        let b : size x + i - size x ≡ i = omega arith in
        rw (a, b) at (bits (size x + i) (omega arith)) ∙ ground arith) in
      rw (get_items, run) (rw rest refl)

pub bit_in-AtBit : (m : Buffer) (base : ℕ) → AtBit m base 0 (bit_in (decoder m base))
unfolding bit_in decoder
bit_in-AtBit m base = record {
  full = 0;
  source = refl;
  place = omega arith;
  count = refl;
  used = omega arith;
  word = omega arith;
  held = λ i p. absurd (omega arith);
}

-- For a list of single bits, of values and of numbers in Elias gamma code, with 0 or 1 for each
-- bit, 1 to 32 bits of each value and a 32-bit number above 0 in each code, where the accumulator
-- has a free bit (used_bits_ < 32) before each bit and each value of the run, writing all of them
-- from a fresh state and flushing, and then reading them with at least two words of fuel for the
-- zeros of a code, gives the values back: the reader comes to an end, and of a value of c bits
-- the c lowest.
pub get_items-put_items :
    (xs : List BitItem) (e : Encoder) (fuel : ℕ)
    → AreAllowed (bit_out e) xs
    → 2 ≤ fuel
    → let o = flush (put_items (bit_out e) xs) in
      get_items fuel (bit_in (decoder (o.dest_.memory) (e.buf_))) xs ≡ some (values xs)
get_items-put_items xs e fuel allowed enough =
    let o = flush (put_items (bit_out e) xs) in
    let (done, clean) = written xs e allowed in
    get_items-AtBit (o.dest_.memory) (e.buf_) fuel 0 (bit_in (decoder (o.dest_.memory) (e.buf_)))
      (bit_out e) xs (omega arith) (bit_in-AtBit (o.dest_.memory) (e.buf_)) allowed
      (λ i p. let z : 0 + i ≡ i = omega arith in rw z (done.past i (omega (arith, done.count))))

-- For a list of items with 0 or 1 for each bit, 1 to 32 bits of each value and a 32-bit number
-- above 0 in each code, where the accumulator has a free bit (used_bits_ < 32) before each bit
-- and each value of the run, the flushed stream takes as many 32-bit words as its bits need, and
-- no more: a bit for a bit, c for a value of c bits, and 2k + 1 for a code whose number has its
-- highest one at place k.
pub put_items-size :
    (xs : List BitItem) (e : Encoder)
    → AreAllowed (bit_out e) xs
    → (flush (put_items (bit_out e) xs)).dest_.buf_ ≡ e.buf_ + (total_size xs + 31) / 32 * 4
put_items-size xs e allowed =
    let (done, clean) = written xs e allowed in omega (arith, done.count, done.place, clean)
