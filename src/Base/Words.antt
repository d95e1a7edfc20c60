-- ===== src/Base/Words.antt =====
-- Arithmetic of `unsigned` (32 bits) and `gap_word_t` (16 bits), with the wrap-around written out,
-- and the masks by which the counting loops select.
use Prim.Native.Nat.{
  ℕ, zero, suc, ◌+◌, ◌-◌, ◌*◌, ◌/◌, ◌%◌, ◌^◌, ◌≤◌, ◌<◌, min, bit_and, digits, bit_and-bitwise,
}
use mathlib.Core.Path.{◌≡◌, refl, ◌∙◌}
use native.Mathlib.Nat.{pow-suc, one-le-pow}
use native.Mathlib.Omega.{arith}

abbrev pub u16 : ℕ → ℕ
u16 n = n % 2 ^ 16

abbrev pub add32 : ℕ → ℕ → ℕ
add32 a b = (a + b) % 2 ^ 32

abbrev pub sub32 : ℕ → ℕ → ℕ
sub32 a b = (a + 2 ^ 32 - b) % 2 ^ 32

-- `~0u`
abbrev pub ones32 : ℕ
ones32 = 2 ^ 32 - 1

-- `x << k` of an `unsigned`, for k < 32
abbrev pub shl32 : ℕ → ℕ → ℕ
shl32 x k = x * 2 ^ k % 2 ^ 32

-- `~x` of an `unsigned`, which is also `x ^ ~0u`
abbrev pub not32 : ℕ → ℕ
not32 x = 2 ^ 32 - 1 - x

-- `a ^ b` of two one-bit values
abbrev pub xor1 : ℕ → ℕ → ℕ
xor1 a b = (a + b) % 2

-- `x ^ 1`
abbrev pub flip_low : ℕ → ℕ
flip_low x = x / 2 * 2 + (1 - x % 2)

-- The native `bit_and` stands for a digit recursion with fuel, and each of the two masks that the
-- code uses is followed through that recursion.
abbrev masked : ℕ → ℕ → ℕ → ℕ
masked = digits (λ _. zero) min

masked-zero : (fuel x : ℕ) → masked fuel x 0 ≡ 0
masked-zero zero zero = refl
masked-zero zero (suc x) = refl
masked-zero (suc fuel) zero = refl
masked-zero (suc fuel) (suc x) = omega (arith, masked-zero fuel (suc x / 2))

half_of_ones : (k : ℕ) → (2 ^ suc k - 1) / 2 ≡ 2 ^ k - 1
half_of_ones k = omega (arith, pow-suc 2 k, one-le-pow k 2)

low_of_ones : (k : ℕ) → (2 ^ suc k - 1) % 2 ≡ 1
low_of_ones k = omega (arith, pow-suc 2 k, one-le-pow k 2)

masked_ones : (fuel k x : ℕ) → x ≤ fuel → x < 2 ^ k → masked fuel x (2 ^ k - 1) ≡ x
masked_ones zero k zero fits small = refl
masked_ones zero k (suc x) fits small = absurd (omega arith)
masked_ones (suc fuel) k zero fits small = refl
masked_ones (suc fuel) zero (suc x) fits small = absurd (omega arith)
masked_ones (suc fuel) (suc k) (suc x) fits small =
    rw (half_of_ones k, low_of_ones k)
      (omega (arith, masked_ones fuel k (suc x / 2) (omega arith) (omega (arith, pow-suc 2 k))))

-- An empty mask selects nothing.
pub bit_and-zero : (x : ℕ) → bit_and x 0 ≡ 0
bit_and-zero x = bit_and-bitwise x 0 ∙ masked-zero x x

-- The full mask of an `unsigned` selects all of it.
pub bit_and_ones : (x : ℕ) → x < 2 ^ 32 → bit_and x (2 ^ 32 - 1) ≡ x
bit_and_ones x small = bit_and-bitwise x (2 ^ 32 - 1) ∙ masked_ones x 32 x (omega arith) small

-- `~(v - 1u)` for a one-bit v: all ones for 1, no bit for 0.
abbrev pub mask32 : ℕ → ℕ
mask32 v = not32 (sub32 v 1)

pub bit_and-mask32_zero : (x v : ℕ) → v ≡ 0 → bit_and x (mask32 v) ≡ 0
bit_and-mask32_zero x v e = rw e (bit_and-zero x)

pub bit_and-mask32_one : (x v : ℕ) → v ≡ 1 → x < 2 ^ 32 → bit_and x (mask32 v) ≡ x
bit_and-mask32_one x v e small = rw e (bit_and_ones x small)

-- Turning a mask over gives the mask of the other bit.
pub not32-mask32 : (x y : ℕ) → y ≡ suc x → not32 (mask32 (x % 2)) ≡ mask32 (y % 2)
not32-mask32 x y e = omega arith

pub power_add : (k d : ℕ) → 2 ^ (k + d) ≡ 2 ^ k * 2 ^ d
power_add k zero = let e : k + 0 ≡ k = omega arith in rw e (omega arith)
power_add k (suc d) =
    let e : k + suc d ≡ suc (k + d) = omega arith in
    rw (e, pow-suc 2 (k + d), pow-suc 2 d, power_add k d) (grind arith)

-- `x + y` and `x - y`, cast to a `gap_word_t`
abbrev pub add16 : ℕ → ℕ → ℕ
add16 x y = (x + y) % 2 ^ 16

abbrev pub sub16 : ℕ → ℕ → ℕ
sub16 x y = (x + 2 ^ 16 - y) % 2 ^ 16
