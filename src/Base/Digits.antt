-- ===== src/Base/Digits.antt =====
-- The binary digits of a number, and what the shifts and the bit operations of C++ do to them.
use Prim.Native.Nat.{
  ℕ, zero, suc, ◌+◌, ◌-◌, ◌*◌, ◌/◌, ◌%◌, ◌^◌, ◌≤◌, ◌<◌, min, max, digits, bitwise, bit_and, bit_or,
  bit_xor, differ, bit_and-bitwise, bit_or-bitwise, bit_xor-bitwise,
}
use mathlib.Core.Path.{◌≡◌, refl, ap, ◌∙◌, sym}
use mathlib.Core.Bool.{false}
use native.Mathlib.Nat.{pow-suc, one-le-pow, mod-add-div', mod-lt}
use native.Mathlib.Omega.{arith}
use mathlib.Core.Logic.{inl, inr}
use bit_magic.Base.Tests.{ltb, ◌==◌, if◌then◌else◌, Bool-cases, ltb→le}
use bit_magic.Base.Words.{xor1}

-- The digit number i, as 0 or 1: `(w >> i) & 1`.
unfoldable pub bit_at : ℕ → ℕ → ℕ
bit_at w zero = w % 2
bit_at w (suc i) = bit_at (w / 2) i

pub bit_at-lt : (w i : ℕ) → bit_at w i < 2
unfolding bit_at
bit_at-lt w zero = omega arith
bit_at-lt w (suc i) = bit_at-lt (w / 2) i

pub bit_at-zero : (i : ℕ) → bit_at 0 i ≡ 0
unfolding bit_at
bit_at-zero zero = refl
bit_at-zero (suc i) = bit_at-zero i

-- The native operations run for as many rounds as their first operand is large. Rounds beyond its
-- last digit change nothing, and the first round splits off the lowest digits.
module _ (alone : ℕ → ℕ) (both : ℕ → ℕ → ℕ) where
  last_round : (rounds y : ℕ) → digits alone both rounds 0 y ≡ alone y
  last_round zero y = refl
  last_round (suc rounds) y = refl

  rounds_agree :
      (many few x y : ℕ)
      → few ≤ many
      → x ≤ few
      → digits alone both many x y ≡ digits alone both few x y
  rounds_agree many few zero y le fits = last_round many y ∙ sym (last_round few y)
  rounds_agree many zero (suc x) y le fits = absurd (omega arith)
  rounds_agree zero (suc few) (suc x) y le fits = absurd (omega arith)
  rounds_agree (suc many) (suc few) (suc x) y le fits =
      ap (λ (t : ℕ). t * 2 + both (suc x % 2) (y % 2))
        (rounds_agree many few (suc x / 2) (y / 2) (omega arith) (omega arith))

  first_round :
      (x y : ℕ)
      → bitwise alone both (suc x) y
        ≡ both (suc x % 2) (y % 2) + 2 * bitwise alone both (suc x / 2) (y / 2)
  first_round x y =
      let halves = suc x / 2 in
      omega (arith, rounds_agree x halves halves (y / 2) (omega arith) (omega arith))

pub bit_and_step : (x y : ℕ) → bit_and x y ≡ min (x % 2) (y % 2) + 2 * bit_and (x / 2) (y / 2)
bit_and_step zero y = simp bit_and-bitwise (omega arith)
bit_and_step (suc x) y = simp bit_and-bitwise (first_round (λ t. 0) min x y)

pub bit_or_step : (x y : ℕ) → bit_or x y ≡ max (x % 2) (y % 2) + 2 * bit_or (x / 2) (y / 2)
bit_or_step zero y = simp bit_or-bitwise (omega arith)
bit_or_step (suc x) y = simp bit_or-bitwise (first_round (λ t. t) max x y)

differ-xor1 : (a b : ℕ) → a < 2 → b < 2 → differ a b ≡ xor1 a b
differ-xor1 zero b p q = omega arith
differ-xor1 (suc zero) zero p q = refl
differ-xor1 (suc zero) (suc zero) p q = refl
differ-xor1 (suc zero) (suc (suc b)) p q = absurd (omega arith)
differ-xor1 (suc (suc a)) b p q = absurd (omega arith)

pub bit_xor_step : (x y : ℕ) → bit_xor x y ≡ xor1 (x % 2) (y % 2) + 2 * bit_xor (x / 2) (y / 2)
bit_xor_step zero y = simp bit_xor-bitwise (omega arith)
bit_xor_step (suc x) y = simp bit_xor-bitwise (
    rw (sym (differ-xor1 (suc x % 2) (y % 2) (omega arith) (omega arith)))
      (first_round (λ t. t) differ x y))

pub bit_at-bit_and : (a b i : ℕ) → bit_at (bit_and a b) i ≡ min (bit_at a i) (bit_at b i)
unfolding bit_at
bit_at-bit_and a b zero = omega (arith, bit_and_step a b)
bit_at-bit_and a b (suc i) =
    let half : bit_and a b / 2 ≡ bit_and (a / 2) (b / 2) = omega (arith, bit_and_step a b) in
    rw half (bit_at-bit_and (a / 2) (b / 2) i)

pub bit_at-bit_or : (a b i : ℕ) → bit_at (bit_or a b) i ≡ max (bit_at a i) (bit_at b i)
unfolding bit_at
bit_at-bit_or a b zero = omega (arith, bit_or_step a b)
bit_at-bit_or a b (suc i) =
    let half : bit_or a b / 2 ≡ bit_or (a / 2) (b / 2) = omega (arith, bit_or_step a b) in
    rw half (bit_at-bit_or (a / 2) (b / 2) i)

pub bit_at-bit_xor : (a b i : ℕ) → bit_at (bit_xor a b) i ≡ xor1 (bit_at a i) (bit_at b i)
unfolding bit_at
bit_at-bit_xor a b zero = omega (arith, bit_xor_step a b)
bit_at-bit_xor a b (suc i) =
    let half : bit_xor a b / 2 ≡ bit_xor (a / 2) (b / 2) = omega (arith, bit_xor_step a b) in
    rw half (bit_at-bit_xor (a / 2) (b / 2) i)

double : (q k : ℕ) → q * 2 ^ suc k ≡ 2 * (q * 2 ^ k)
double q k = omega (arith, ap (λ (t : ℕ). q * t) (pow-suc 2 k))

-- `(q << k) | r` for an r of k digits.
pub bit_at_fields :
    (k q r i : ℕ)
    → r < 2 ^ k
    → bit_at (q * 2 ^ k + r) i ≡ (if ltb i k then bit_at r i else bit_at q (i - k))
unfolding bit_at
bit_at_fields zero q r i h = let e : q * 2 ^ 0 + r ≡ q = omega arith in rw e (ground arith)
bit_at_fields (suc k) q r zero h = ground (arith, double q k)
bit_at_fields (suc k) q r (suc i) h =
    let half : (q * 2 ^ suc k + r) / 2 ≡ q * 2 ^ k + r / 2 = omega (arith, double q k) in
    rw half (ground (arith, bit_at_fields k q (r / 2) i (omega (arith, pow-suc 2 k))))

-- `w << k`
pub bit_at_shl : (w k i : ℕ) → bit_at (w * 2 ^ k) i ≡ (if ltb i k then 0 else bit_at w (i - k))
bit_at_shl w k i =
    let e : w * 2 ^ k ≡ w * 2 ^ k + 0 = omega arith in
    rw e (ground (arith, bit_at_fields k w 0 i (one-le-pow k 2 (omega arith)), bit_at-zero i))

split : (w k : ℕ) → w ≡ w / 2 ^ k * 2 ^ k + w % 2 ^ k
split w k = omega (arith, mod-add-div' w (2 ^ k))

low : (w k : ℕ) → w % 2 ^ k < 2 ^ k
low w k = mod-lt w (one-le-pow k 2 (omega arith))

-- `w >> k`
pub bit_at_shr : (w k i : ℕ) → bit_at (w / 2 ^ k) i ≡ bit_at w (k + i)
bit_at_shr w k i =
    let e : k + i - k ≡ i = omega arith in
    let past : ltb (k + i) k ≡ false = ground arith in
    rw past at (
      rw e at (
        sym (
          ap (λ (t : ℕ). bit_at t (k + i)) (split w k)
          ∙ bit_at_fields k (w / 2 ^ k) (w % 2 ^ k) (k + i) (low w k))))

-- A number of k digits has no others.
pub above : (k w i : ℕ) → w < 2 ^ k → k ≤ i → bit_at w i ≡ 0
unfolding bit_at
above zero w i h p = let e : w ≡ 0 = omega arith in rw e (bit_at-zero i)
above (suc k) w zero h p = absurd (omega arith)
above (suc k) w (suc i) h p = above k (w / 2) i (omega (arith, pow-suc 2 k)) (omega arith)

-- `w & mask`, where the mask has k ones, and the truncation to k digits.
pub bit_at_mod : (w k i : ℕ) → bit_at (w % 2 ^ k) i ≡ (if ltb i k then bit_at w i else 0)
bit_at_mod w k i = elim (Bool-cases (ltb i k)) [
  | inl inside ↦ rw inside (
      rw inside at (
        sym (
          ap (λ (t : ℕ). bit_at t i) (split w k)
          ∙ bit_at_fields k (w / 2 ^ k) (w % 2 ^ k) i (low w k))))
  | inr outside ↦ rw outside (above k (w % 2 ^ k) i (low w k) (ltb→le i k outside))
]

-- `~0u >> (n - k)`, a mask of k ones.
pub bit_at_ones : (k i : ℕ) → bit_at (2 ^ k - 1) i ≡ (if ltb i k then 1 else 0)
unfolding bit_at
bit_at_ones zero i = ground (arith, bit_at-zero i)
bit_at_ones (suc k) zero = ground (arith, pow-suc 2 k, one-le-pow k 2)
bit_at_ones (suc k) (suc i) =
    let half : (2 ^ suc k - 1) / 2 ≡ 2 ^ k - 1 = omega (arith, pow-suc 2 k, one-le-pow k 2) in
    rw half (ground (arith, bit_at_ones k i))

-- A single one at the place k.
pub bit_at_power : (k i : ℕ) → bit_at (2 ^ k) i ≡ (if i == k then 1 else 0)
unfolding bit_at
bit_at_power zero zero = refl
bit_at_power zero (suc i) = ground (arith, bit_at-zero i)
bit_at_power (suc k) zero = ground (arith, pow-suc 2 k)
bit_at_power (suc k) (suc i) =
    let half : 2 ^ suc k / 2 ≡ 2 ^ k = omega (arith, pow-suc 2 k) in
    rw half (ground (arith, bit_at_power k i))

-- Numbers of k digits are the same when their digits are.
pub same_digits :
    (k a b : ℕ) → a < 2 ^ k → b < 2 ^ k → ((i : ℕ) → i < k → bit_at a i ≡ bit_at b i) → a ≡ b
unfolding bit_at
same_digits zero a b p q h = omega arith
same_digits (suc k) a b p q h = omega (
  arith,
  h 0 (omega arith),
  same_digits k (a / 2) (b / 2) (omega (arith, pow-suc 2 k)) (omega (arith, pow-suc 2 k))
      (λ i r. h (suc i) (omega arith)),
)

-- The operations stay within the digits of their operands.
pub bit_or-lt : (k a b : ℕ) → a < 2 ^ k → b < 2 ^ k → bit_or a b < 2 ^ k
bit_or-lt zero a b p q =
    let ea : a ≡ 0 = omega arith in let eb : b ≡ 0 = omega arith in rw ea (rw eb (omega arith))
bit_or-lt (suc k) a b p q = omega (
  arith,
  pow-suc 2 k,
  bit_or_step a b,
  bit_or-lt k (a / 2) (b / 2) (omega (arith, pow-suc 2 k)) (omega (arith, pow-suc 2 k)),
)

pub bit_xor-lt : (k a b : ℕ) → a < 2 ^ k → b < 2 ^ k → bit_xor a b < 2 ^ k
bit_xor-lt zero a b p q =
    let ea : a ≡ 0 = omega arith in let eb : b ≡ 0 = omega arith in rw ea (rw eb (omega arith))
bit_xor-lt (suc k) a b p q = omega (
  arith,
  pow-suc 2 k,
  bit_xor_step a b,
  bit_xor-lt k (a / 2) (b / 2) (omega (arith, pow-suc 2 k)) (omega (arith, pow-suc 2 k)),
)

pub bit_and-lt : (k a b : ℕ) → a < 2 ^ k → bit_and a b < 2 ^ k
bit_and-lt zero a b p = let ea : a ≡ 0 = omega arith in rw ea (omega (arith, bit_and-bitwise 0 b))
bit_and-lt (suc k) a b p = omega (
  arith,
  pow-suc 2 k,
  bit_and_step a b,
  bit_and-lt k (a / 2) (b / 2) (omega (arith, pow-suc 2 k)),
)

-- The complement of a word of k digits.
pub bit_at_not : (k w i : ℕ) → w < 2 ^ k → i < k → bit_at (2 ^ k - 1 - w) i ≡ 1 - bit_at w i
unfolding bit_at
bit_at_not zero w i p q = absurd (omega arith)
bit_at_not (suc k) w zero p q = omega (arith, pow-suc 2 k)
bit_at_not (suc k) w (suc i) p q =
    let half : (2 ^ suc k - 1 - w) / 2 ≡ 2 ^ k - 1 - w / 2 = omega (arith, pow-suc 2 k) in
    rw half (bit_at_not k (w / 2) i (omega (arith, pow-suc 2 k)) (omega arith))

pub shifted_digit : (w k : ℕ) → w / 2 ^ k % 2 ≡ bit_at w k
unfolding bit_at
shifted_digit w k = let z : k + 0 ≡ k = omega arith in rw z at (bit_at_shr w k 0)
