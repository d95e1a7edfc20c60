-- ===== src/Scan/Leading.antt =====
-- src/bmutil.h: the counts of leading and trailing zeros, and the scans of 64-bit words.
use bit_magic.Base.{
  ℕ, ◌+◌, ◌-◌, ◌*◌, ◌/◌, ◌%◌, ◌^◌, ◌≤◌, ◌<◌, ◌≡◌, refl, ◌&&◌, ◌||◌, Bool, true, inl, inr, leb, ltb,
  ◌==◌, arith, Bool-cases, ==→eq, ==→ne, leb→le, leb→lt,
}
use native.Mathlib.Nat.{pow-suc}
use bit_magic.Scan.{
  entry, lzcnt_table, tzcnt_table, count_leading_zeros, count_trailing_zeros, bit_scan_reverse32,
  ilog2_lut, count_leading_zeros_u64, bit_scan_reverse,
}
use bit_magic.Scan.Laws.{all_below, below, IsTop, IsTop-shr, top_unique, ilog2_lut-IsTop}
use bit_magic.Scan.Forward.{IsLowest, isolated}

-- The entry for four digits, and the places above them.
nibble : ℕ → ℕ → Bool
nibble x z = (x == 0) || (leb 28 z && leb z 31 && leb (2 ^ (31 - z)) x && ltb x (2 ^ (31 - z) * 2))

nibble-IsTop : (x z : ℕ) → 1 ≤ x → nibble x z ≡ true → IsTop x (31 - z) × (28 ≤ z) × (z ≤ 31)
unfolding nibble
nibble-IsTop x z some h = ground (arith, pow-suc 2 (31 - z))

lzcnt_lem : (x : ℕ) → x < 16 → nibble x (entry lzcnt_table x) ≡ true
unfolding nibble all_below lzcnt_table
lzcnt_lem x h = below 16 (λ y. nibble y (entry lzcnt_table y)) x refl h

-- After a shift by n, at most 28, that leaves one of the last four digits.
leading :
    (x n : ℕ)
    → n ≤ 28
    → 1 ≤ x / 2 ^ n
    → x / 2 ^ n < 16
    → IsTop x (31 - (entry lzcnt_table (x / 2 ^ n) - n)) × (entry lzcnt_table (x / 2 ^ n) - n < 32)
leading x n h some small =
    let z = entry lzcnt_table (x / 2 ^ n) in
    let (top, low, high) = nibble-IsTop (x / 2 ^ n) z some (lzcnt_lem (x / 2 ^ n) small) in
    let e : 31 - (z - n) ≡ 31 - z + n = omega arith in
    rw e (IsTop-shr n x (31 - z) top, omega arith)

pub count_leading_zeros-IsTop :
    (x : ℕ)
    → 1 ≤ x
    → x < 2 ^ 32
    → IsTop x (31 - count_leading_zeros x) × (count_leading_zeros x < 32)
unfolding count_leading_zeros
count_leading_zeros-IsTop x some small = elim (Bool-cases (leb (2 ^ 16) x)) [
  | inl a ↦
      let ha = leb→le (2 ^ 16) x a in
      rw a (elim (Bool-cases (leb (2 ^ 24) x)) [
        | inl b ↦
            let hb = leb→le (2 ^ 24) x b in
            rw b (elim (Bool-cases (leb (2 ^ 28) x)) [
              | inl c ↦
                  let hc = leb→le (2 ^ 28) x c in
                  rw c (leading x 28 (omega arith) (omega arith) (omega arith))
              | inr c ↦
                  let hc = leb→lt (2 ^ 28) x c in
                  rw c (leading x 24 (omega arith) (omega arith) (omega arith))
            ])
        | inr b ↦
            let hb = leb→lt (2 ^ 24) x b in
            rw b (elim (Bool-cases (leb (2 ^ 20) x)) [
              | inl c ↦
                  let hc = leb→le (2 ^ 20) x c in
                  rw c (leading x 20 (omega arith) (omega arith) (omega arith))
              | inr c ↦
                  let hc = leb→lt (2 ^ 20) x c in
                  rw c (leading x 16 (omega arith) (omega arith) (omega arith))
            ])
      ])
  | inr a ↦
      let ha = leb→lt (2 ^ 16) x a in
      rw a (elim (Bool-cases (leb (2 ^ 8) x)) [
        | inl b ↦
            let hb = leb→le (2 ^ 8) x b in
            rw b (elim (Bool-cases (leb (2 ^ 12) x)) [
              | inl c ↦
                  let hc = leb→le (2 ^ 12) x c in
                  rw c (leading x 12 (omega arith) (omega arith) (omega arith))
              | inr c ↦
                  let hc = leb→lt (2 ^ 12) x c in
                  rw c (leading x 8 (omega arith) (omega arith) (omega arith))
            ])
        | inr b ↦
            let hb = leb→lt (2 ^ 8) x b in
            rw b (elim (Bool-cases (leb (2 ^ 4) x)) [
              | inl c ↦
                  let hc = leb→le (2 ^ 4) x c in
                  rw c (leading x 4 (omega arith) (omega arith) (omega arith))
              | inr c ↦
                  let hc = leb→lt (2 ^ 4) x c in
                  rw c (leading x 0 (omega arith) (omega arith) (omega arith))
            ])
      ])
]

tzcnt_lem : (k : ℕ) → k < 32 → entry tzcnt_table (2 ^ k % 37) ≡ k
unfolding all_below tzcnt_table
tzcnt_lem k h = ==→eq _ k (below 32 (λ j. entry tzcnt_table (2 ^ j % 37) == j) k refl h)

pub count_trailing_zeros_lem :
    (v k : ℕ) → k < 32 → v < 2 ^ 32 → IsLowest v k → count_trailing_zeros v ≡ k
unfolding count_trailing_zeros
count_trailing_zeros_lem v k fits small h = rw (isolated v k fits small h) (tzcnt_lem k fits)

-- For a 64-bit word that is not zero, the place k that the scan answers is below 64, and the word
-- is at least the power k of 2 and below the power k + 1.
pub bit_scan_reverse-IsTop :
    (w : ℕ) → 1 ≤ w → w < 2 ^ 64 → IsTop w (bit_scan_reverse w) × (bit_scan_reverse w < 64)
unfolding bit_scan_reverse bit_scan_reverse32
bit_scan_reverse-IsTop w some small = elim (Bool-cases (w / 2 ^ 32 == 0)) [
  | inl low ↦
      let e = ==→eq (w / 2 ^ 32) 0 low in
      let same : w % 2 ^ 32 ≡ w = omega arith in
      let (top, fits) = ilog2_lut-IsTop w some (omega arith) in rw (low, same) (top, omega arith)
  | inr high ↦
      let ne = ==→ne (w / 2 ^ 32) 0 high in
      let (top, fits) = ilog2_lut-IsTop (w / 2 ^ 32) (omega arith) (omega arith) in
      rw high (IsTop-shr 32 w _ top, omega arith)
]

-- The count of leading zeros and the scan say the same.
pub count_leading_zeros_u64-bit_scan_reverse :
    (w : ℕ) → 1 ≤ w → w < 2 ^ 64 → count_leading_zeros_u64 w + bit_scan_reverse w ≡ 63
unfolding bit_scan_reverse bit_scan_reverse32 count_leading_zeros_u64
count_leading_zeros_u64-bit_scan_reverse w some small = elim (Bool-cases (w / 2 ^ 32 == 0)) [
  | inl low ↦
      let e = ==→eq (w / 2 ^ 32) 0 low in
      let (top, fits) = ilog2_lut-IsTop (w % 2 ^ 32) (omega arith) (omega arith) in
      rw low (omega arith)
  | inr high ↦
      let ne = ==→ne (w / 2 ^ 32) 0 high in
      let (top, fits) = ilog2_lut-IsTop (w / 2 ^ 32) (omega arith) (omega arith) in
      rw high (omega arith)
]

pub count_leading_zeros-bit_scan_reverse32 :
    (x : ℕ) → 1 ≤ x → x < 2 ^ 32 → count_leading_zeros x + bit_scan_reverse32 x ≡ 31
unfolding bit_scan_reverse32
count_leading_zeros-bit_scan_reverse32 x some small =
    let (top, fits) = count_leading_zeros-IsTop x some small in
    omega (arith, top_unique x _ (ilog2_lut x) top (ilog2_lut-IsTop x some small).0)
