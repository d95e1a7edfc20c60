-- ===== src/Scan/Forward.antt =====
-- src/bmutil.h: `bit_scan_fwd` finds the lowest one of a word.
use bit_magic.Base.{
  ℕ, zero, suc, ◌-◌, ◌*◌, ◌/◌, ◌%◌, ◌^◌, ◌≤◌, ◌<◌, ◌≡◌, refl, ltb, ◌==◌, if◌then◌else◌, arith,
  ==→eq, bit_and, bit_at, bit_at-lt, bit_at-zero, bit_at-bit_and, bit_at_not, bit_at_power,
  bit_and-lt, same_digits,
}
use bit_magic.Scan.{entry, de_bruijn_table, bit_scan_fwd}
use bit_magic.Scan.Laws.{all_below, below}
use bit_magic.Bits.Range.Laws.{power32}

-- k is the place of the lowest one of v.
abbrev pub IsLowest : ℕ → ℕ → Type 0
IsLowest v k = ((i : ℕ) → i < k → bit_at v i ≡ 0) × (bit_at v k ≡ 1)

pub one-IsPos : (v k : ℕ) → bit_at v k ≡ 1 → 1 ≤ v
one-IsPos zero k h = absurd (omega (arith, bit_at-zero k))
one-IsPos (suc v) k h = omega arith

-- The digits of `v - 1`: those up to the lowest one turn over.
digits_pred :
    (k v i : ℕ)
    → IsLowest v k
    → bit_at (v - 1) i ≡ (if ltb i k then 1 else if i == k then 0 else bit_at v i)
unfolding bit_at
digits_pred zero v zero (low, one) = omega arith
digits_pred zero v (suc i) (low, one) =
    let e : (v - 1) / 2 ≡ v / 2 = omega arith in rw e (ground arith)
digits_pred (suc k) v zero (low, one) = ground (arith, low 0 (omega arith), one-IsPos (v / 2) k one)
digits_pred (suc k) v (suc i) (low, one) =
    let even = low 0 (omega arith) in
    let pos = one-IsPos (v / 2) k one in
    let e : (v - 1) / 2 ≡ v / 2 - 1 = omega arith in
    rw e (ground (arith, digits_pred k (v / 2) i ((λ j p. low (suc j) (omega arith)), one)))

-- `v & -v` leaves the lowest one.
pub isolated :
    (v k : ℕ) → k < 32 → v < 2 ^ 32 → IsLowest v k → bit_and v ((2 ^ 32 - v) % 2 ^ 32) ≡ 2 ^ k
isolated v k fits small (low, one) =
    let pos = one-IsPos v k one in
    let e : (2 ^ 32 - v) % 2 ^ 32 ≡ 2 ^ 32 - 1 - (v - 1) = omega arith in
    rw e (
      same_digits 32 _ (2 ^ k) (bit_and-lt 32 v _ small) (power32 k fits) (λ i p.
        rw
          (
            bit_at-bit_and v (2 ^ 32 - 1 - (v - 1)) i,
            bit_at_power k i,
            bit_at_not 32 (v - 1) i (omega arith) p,
          )
          (ground (arith, digits_pred k v i (low, one), low i, bit_at-lt v i))))

de_bruijn_lem : (k : ℕ) → k < 32 → entry de_bruijn_table (2 ^ k * 0x077c_b531 % 2 ^ 32 / 2 ^ 27) ≡ k
unfolding all_below de_bruijn_table
de_bruijn_lem k h =
    ==→eq _ k
      (below 32 (λ j. entry de_bruijn_table (2 ^ j * 0x077c_b531 % 2 ^ 32 / 2 ^ 27) == j) k refl h)

-- For a 32-bit word whose digit k is one and whose digits below k are zeros, the scan through the
-- de Bruijn product answers k.
pub bit_scan_fwd_lem : (v k : ℕ) → k < 32 → v < 2 ^ 32 → IsLowest v k → bit_scan_fwd v ≡ k
unfolding bit_scan_fwd
bit_scan_fwd_lem v k fits small h = rw (isolated v k fits small h) (de_bruijn_lem k fits)
