-- ===== src/Search/Laws.antt =====
-- src/bmfunc.h: what the lower-bound searches find.
use bit_magic.Base.{
  ℕ, zero, suc, ◌+◌, ◌-◌, ◌/◌, true, add32, sub32, ◌%◌, ◌^◌, ◌≤◌, ◌<◌, ◌≡◌, inl, inr, Buffer, ltb,
  leb, if◌then◌else◌, arith, Bool-cases, ltb→lt, ltb→le, leb→le, leb→lt,
}
use bit_magic.Search.{
  linear_loop, lower_bound_linear_u32, lower_bound_linear_u64, halving_loop, lower_bound_u32,
  lower_bound_u64,
}

-- The array rises (equal neighbours allowed) from an index to another.
abbrev pub IsSortedOn : Buffer → ℕ → ℕ → Type 0
IsSortedOn arr from to = (i j : ℕ) → from ≤ i → i ≤ j → j ≤ to → arr i ≤ arr j

-- The first index of [from, to] whose number is not below the target, and to + 1 if there is none.
abbrev pub IsLowerBound : Buffer → ℕ → ℕ → ℕ → ℕ → Type 0
IsLowerBound arr target from to r =
    (from ≤ r)
    × (r ≤ suc to)
    × ((i : ℕ) → from ≤ i → i < r → arr i < target)
    × ((i : ℕ) → r ≤ i → i ≤ to → target ≤ arr i)

module _ (arr : Buffer) (target : ℕ) where
  linear_loop_lem :
      (fuel from to : ℕ)
      → IsSortedOn arr from to
      → from ≤ suc to
      → suc to < 2 ^ 32
      → suc to < fuel + from
      → IsLowerBound arr target from to (linear_loop fuel arr target from to)
  unfolding linear_loop
  linear_loop_lem zero from to s h w f = absurd (omega arith)
  linear_loop_lem (suc fuel) from to s h w f = elim (Bool-cases (leb from to)) [
    | inl inside ↦
        let p = leb→le from to inside in
        rw inside (elim (Bool-cases (leb target (arr from))) [
          | inl here ↦
              let q = leb→le target (arr from) here in
              rw here (
                omega arith,
                omega arith,
                (λ i a b. absurd (omega arith)),
                λ i a b. omega (arith, q, s from i (omega arith) a b),
              )
          | inr further ↦
              let q = leb→lt target (arr from) further in
              let e : (from + 1) % 2 ^ 32 ≡ suc from = omega arith in
              rw further (
                rw e (
                  let rest =
                    linear_loop_lem fuel (suc from) to (λ i j a. s i j (omega arith)) (omega arith)
                      w (omega arith) in
                  (
                    omega (arith, rest.0),
                    rest.1,
                    (λ i a b. elim (Bool-cases (ltb from i)) [
                      | inl later ↦ rest.2 i (ltb→lt from i later) b
                      | inr same ↦ let e : i ≡ from = omega (arith, ltb→le from i same) in rw e q
                    ]),
                    rest.3,
                  )))
        ])
    | inr outside ↦
        let q = leb→lt from to outside in
        rw outside
          (omega arith, omega arith, (λ i a b. absurd (omega arith)), λ i a b. absurd (omega arith))
  ]

  linear_u32 :
      (from to : ℕ)
      → IsSortedOn arr from to
      → from ≤ suc to
      → suc to < 2 ^ 32
      → IsLowerBound arr target from to (lower_bound_linear_u32 arr target from to)
  unfolding lower_bound_linear_u32
  linear_u32 from to s h w = linear_loop_lem (to + 2 - from) from to s h w (omega arith)

  linear_u64 :
      (from to : ℕ)
      → IsSortedOn arr from to
      → from ≤ suc to
      → suc to < 2 ^ 32
      → IsLowerBound arr target from to (lower_bound_linear_u64 arr target from to)
  unfolding lower_bound_linear_u64
  linear_u64 from to s h w = linear_loop_lem (to + 2 - from) from to s h w (omega arith)

  -- The bound of either half is the bound of the whole.
  upper_half :
      (l r mid res : ℕ)
      → IsSortedOn arr l r
      → l ≤ mid
      → mid ≤ r
      → arr mid < target
      → IsLowerBound arr target (suc mid) r res
      → IsLowerBound arr target l r res
  upper_half l r mid res s a b c (lo, hi, below, above) = (
    omega arith,
    hi,
    λ i p q. elim (Bool-cases (ltb mid i)) [
      | inl later ↦ below i (ltb→lt mid i later) q
      | inr early ↦ omega (arith, c, s i mid p (ltb→le mid i early) b)
    ],
    above,
  )

  lower_half :
      (l r mid res : ℕ)
      → IsSortedOn arr l r
      → l ≤ mid
      → suc mid ≤ r
      → target ≤ arr (suc mid)
      → IsLowerBound arr target l mid res
      → IsLowerBound arr target l r res
  lower_half l r mid res s a b c (lo, hi, below, above) = (
    lo,
    omega arith,
    below,
    λ i p q. elim (Bool-cases (ltb mid i)) [
      | inl later ↦ omega (arith, c, s (suc mid) i (omega arith) (ltb→lt mid i later) q)
      | inr early ↦ above i p (ltb→le mid i early)
    ],
  )

  module _ (scan : Buffer → ℕ → ℕ → ℕ → ℕ)
      (scan_lem : (from to : ℕ)
        → IsSortedOn arr from to
        → from ≤ suc to
        → suc to < 2 ^ 32
        → IsLowerBound arr target from to (scan arr target from to)) where
    -- The scan where the range is short, and the next round where it is not.
    scan_or_next :
        (fuel l r : ℕ)
        → IsSortedOn arr l r
        → l ≤ r
        → suc r < 2 ^ 32
        → (l + 32 ≤ r → IsLowerBound arr target l r (halving_loop fuel scan arr target l r))
        → IsLowerBound arr target l r (
            if ltb (sub32 r l) 32
            then scan arr target l r
            else halving_loop fuel scan arr target l r)
    scan_or_next fuel l r s h w next = elim (Bool-cases (ltb (sub32 r l) 32)) [
      | inl short ↦ rw short (scan_lem l r s (omega arith) w)
      | inr long ↦ rw long (next (omega (arith, ltb→le (sub32 r l) 32 long)))
    ]

    halving_loop_lem :
        (fuel l r : ℕ)
        → IsSortedOn arr l r
        → l + 32 ≤ r
        → suc r < 2 ^ 32
        → r ≤ fuel + l
        → IsLowerBound arr target l r (halving_loop fuel scan arr target l r)
    unfolding halving_loop
    halving_loop_lem zero l r s far w f = absurd (omega arith)
    halving_loop_lem (suc fuel) l r s far w f =
        let m = (r - l) / 2 + l - 1 in
        let entered : leb l r ≡ true = ground arith in
        let middle : add32 (sub32 r l / 2) l ≡ suc m = omega arith in
        let after : add32 (suc m) 1 ≡ suc (suc m) = omega arith in
        let before : sub32 (suc m) 1 ≡ m = omega arith in
        rw entered (
          rw middle (elim (Bool-cases (ltb (arr (suc m)) target)) [
            | inl low ↦
                let q = ltb→lt (arr (suc m)) target low in
                rw low (
                  rw after (
                    upper_half l r (suc m) _ s (omega arith) (omega arith) q (
                      let s' : IsSortedOn arr (suc (suc m)) r = λ i j a. s i j (omega arith) in
                      scan_or_next fuel (suc (suc m)) r s' (omega arith) w
                        (λ far'. halving_loop_lem fuel (suc (suc m)) r s' far' w (omega arith)))))
            | inr high ↦
                let q = ltb→le (arr (suc m)) target high in
                rw high (
                  rw before (
                    lower_half l r m _ s (omega arith) (omega arith) q (
                      let s' : IsSortedOn arr l m = λ i j a b c. s i j a b (omega arith) in
                      scan_or_next fuel l m s' (omega arith) (omega arith)
                        (λ far'. halving_loop_lem fuel l m s' far' (omega arith) (omega arith)))))
          ]))

-- For from ≤ to < 2^32 - 1 and an array that does not fall on [from, to], the searches of 32-bit
-- and of 64-bit numbers answer the first index of [from, to] whose number is not below the
-- target, and to + 1 where there is none.
pub lower_bounds_lem :
    (arr : Buffer) (target from to : ℕ)
    → IsSortedOn arr from to
    → from ≤ to
    → suc to < 2 ^ 32
    → IsLowerBound arr target from to (lower_bound_u32 arr target from to)
      × IsLowerBound arr target from to (lower_bound_u64 arr target from to)
unfolding lower_bound_u32 lower_bound_u64
lower_bounds_lem arr target from to s h w = (
  scan_or_next arr target lower_bound_linear_u32 (linear_u32 arr target) (to - from) from to s h w
      (λ far.
        halving_loop_lem arr target lower_bound_linear_u32 (linear_u32 arr target) (to - from) from
          to s far w (omega arith)),
  scan_or_next arr target lower_bound_linear_u64 (linear_u64 arr target) (to - from) from to s h w
      (λ far.
        halving_loop_lem arr target lower_bound_linear_u64 (linear_u64 arr target) (to - from) from
          to s far w (omega arith)),
)
