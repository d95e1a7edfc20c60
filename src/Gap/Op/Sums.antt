-- ===== src/Gap/Op/Sums.antt =====
-- How many of the values of a function are 1.
use bit_magic.Base.{ℕ, zero, suc, ◌+◌, ◌*◌, ◌≤◌, ◌<◌, ◌≡◌, arith, refl}

-- How many of the first n values of f are 1.
unfoldable pub sum_below : (ℕ → ℕ) → ℕ → ℕ
sum_below f zero = 0
sum_below f (suc n) = sum_below f n + f n

-- A run of n equal values v.
pub sum_below_run :
    (f : ℕ → ℕ) (n from v to : ℕ)
    → from + n ≡ to
    → ((pos : ℕ) → from ≤ pos → pos < to → f pos ≡ v)
    → sum_below f to ≡ sum_below f from + n * v
unfolding sum_below
sum_below_run f zero from v to e h = let same : to ≡ from = omega arith in rw same (omega arith)
sum_below_run f (suc n) from v zero e h = absurd (omega arith)
sum_below_run f (suc n) from v (suc to) e h =
    let shorter = sum_below_run f n from v to (omega arith) (λ pos p q. h pos p (omega arith)) in
    omega (arith, shorter, h to (omega arith) (omega arith))

pub sum_below-le : (f : ℕ → ℕ) (n : ℕ) → ((pos : ℕ) → pos < n → f pos < 2) → sum_below f n ≤ n
unfolding sum_below
sum_below-le f zero h = omega arith
sum_below-le f (suc n) h =
    omega (arith, h n (omega arith), sum_below-le f n (λ pos p. h pos (omega arith)))

pub sum_below_ext :
    (f g : ℕ → ℕ) (n : ℕ) → ((pos : ℕ) → pos < n → f pos ≡ g pos) → sum_below f n ≡ sum_below g n
unfolding sum_below
sum_below_ext f g zero h = refl
sum_below_ext f g (suc n) h =
    omega (arith, h n (omega arith), sum_below_ext f g n (λ pos p. h pos (omega arith)))
