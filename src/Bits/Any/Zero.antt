-- ===== src/Bits/Any/Zero.antt =====
-- src/bmfunc.h: a bit block without a set bit, and one that is empty together with a GAP block.
use bit_magic.Base.{
  ℕ, zero, suc, ◌+◌, ◌*◌, ◌/◌, ◌%◌, ◌^◌, ◌≤◌, ◌<◌, ◌≡◌, ◌↔◌, refl, true, inl, inr, Bool-cases, ◌==◌,
  ==→eq, ==→ne, ltb, ltb→lt, ltb→le, arith, Buffer, bit_at, bit_at-zero, bit_or, bit_or_step,
  bit_or-lt, same_digits,
}
use native.Mathlib.Nat.{pow-suc}
use bit_magic.Gap.Layout.{gap_max_bits, gap_bit, IsGap}
use bit_magic.Gap.Find.{gap_is_all_zero}
use bit_magic.Gap.Find.Ends.{gap_is_all_iff}
use bit_magic.Bits.Layout.{IsWords, block_bit}
use bit_magic.Bits.Any.{wordop, zero_words, bit_is_all_zero, gap_bitset_or_any}

-- Nothing is set in an OR of nothing.
pub bit_or-none : (k a b : ℕ) → a < 2 ^ k → b < 2 ^ k → bit_or a b ≡ 0 → (a ≡ 0) × (b ≡ 0)
bit_or-none zero a b p q e = (omega arith, omega arith)
bit_or-none (suc k) a b p q e =
    let halves =
      bit_or-none k (a / 2) (b / 2) (omega (arith, pow-suc 2 k)) (omega (arith, pow-suc 2 k))
        (omega (arith, bit_or_step a b, e)) in
    (omega (arith, bit_or_step a b, e, halves.0), omega (arith, bit_or_step a b, e, halves.1))

-- The four places from n on.
four_places :
    (f : ℕ → ℕ) (n : ℕ)
    → f n ≡ 0
    → f (n + 1) ≡ 0
    → f (n + 2) ≡ 0
    → f (n + 3) ≡ 0
    → (k : ℕ) → n ≤ k
    → k < n + 4
    → f k ≡ 0
four_places f n p q r s k lo hi = elim (Bool-cases (k == n)) [
  | inl e ↦ rw (==→eq k n e) p
  | inr e ↦ elim (Bool-cases (k == n + 1)) [
    | inl e1 ↦ rw (==→eq k (n + 1) e1) q
    | inr e1 ↦ elim (Bool-cases (k == n + 2)) [
      | inl e2 ↦ rw (==→eq k (n + 2) e2) r
      | inr e2 ↦
          let last : k ≡ n + 3 =
            omega (arith, ==→ne k n e, ==→ne k (n + 1) e1, ==→ne k (n + 2) e2) in
          rw last s
    ]
  ]
]

-- No bit is set in a block, of the words from `blk` on.
abbrev IsZeroFrom : Buffer → ℕ → Type 0
IsZeroFrom block blk = (k : ℕ) → blk ≤ k → k < 1024 → wordop block k ≡ 0

module _ (block : Buffer) (w : IsWords block) where
  wordop-lt : (k : ℕ) → wordop block k < 2 ^ 64
  unfolding wordop
  wordop-lt k = omega (arith, w (2 * k), w (2 * k + 1))

  -- Four words at once.
  four_or :
      (x y z t : ℕ)
      → x < 2 ^ 64
      → y < 2 ^ 64
      → z < 2 ^ 64
      → t < 2 ^ 64
      → bit_or (bit_or (bit_or x y) z) t ≡ 0
      → (x ≡ 0) × (y ≡ 0) × (z ≡ 0) × (t ≡ 0)
  four_or x y z t p q r s e =
      let xy = bit_or-lt 64 x y p q in
      let outer = bit_or-none 64 (bit_or (bit_or x y) z) t (bit_or-lt 64 (bit_or x y) z xy r) s e in
      let middle = bit_or-none 64 (bit_or x y) z xy r (outer.0) in
      let inner = bit_or-none 64 x y p q (middle.0) in (inner.0, inner.1, middle.1, outer.1)

  zero_words_iff :
      (fuel blk : ℕ)
      → blk + 4 * fuel ≡ 1024
      → (zero_words fuel block blk ≡ true) ↔ IsZeroFrom block blk
  unfolding zero_words
  zero_words_iff zero blk e = ((λ yes k lo hi. absurd (omega arith)), λ none. refl)
  zero_words_iff (suc fuel) blk e =
      let a = wordop block blk in
      let b = wordop block (blk + 1) in
      let c = wordop block (blk + 2) in
      let d = wordop block (blk + 3) in
      let more = zero_words_iff fuel (blk + 4) (omega arith) in
      let acc = bit_or (bit_or (bit_or a b) c) d in
      elim (Bool-cases (acc == 0)) [
        | inl empty ↦
            let parts =
              four_or a b c d (wordop-lt blk) (wordop-lt (blk + 1)) (wordop-lt (blk + 2))
                (wordop-lt (blk + 3)) (==→eq acc 0 empty) in
            let here : (k : ℕ) → blk ≤ k → k < blk + 4 → wordop block k ≡ 0 =
              four_places (λ k. wordop block k) blk (parts.0) (parts.1) (parts.2) (parts.3) in
            elim (Bool-cases (ltb (blk + 4) 1024)) [
              | inl going ↦
                  rw (empty, going)
                    (
                      (λ yes k lo hi. elim (Bool-cases (ltb k (blk + 4))) [
                        | inl low ↦ here k lo (ltb→lt k (blk + 4) low)
                        | inr high ↦ more.0 yes k (ltb→le k (blk + 4) high) hi
                      ]),
                      λ none. more.1 (λ k lo hi. none k (omega arith) hi),
                    )
              | inr done ↦
                  rw (empty, done)
                    (
                      (λ yes k lo hi. here k lo (omega (arith, ltb→le (blk + 4) 1024 done))),
                      λ none. refl,
                    )
            ]
        | inr busy ↦ rw busy (
          (λ yes. absurd (ground (arith, yes))),
          λ none. absurd (
              ==→ne acc 0 busy (
                rw
                  (
                    none blk (omega arith) (omega arith),
                    none (blk + 1) (omega arith) (omega arith),
                    none (blk + 2) (omega arith) (omega arith),
                    none (blk + 3) (omega arith) (omega arith),
                  )
                  refl)),
        )
      ]

  -- The bits of the words, and the other way round.
  bit_is_all_zero_iff :
      (bit_is_all_zero block ≡ true) ↔ ((pos : ℕ) → pos < gap_max_bits → block_bit block pos ≡ 0)
  unfolding bit_is_all_zero block_bit wordop
  bit_is_all_zero_iff =
      let loop = zero_words_iff 256 0 (omega arith) in
      (
        (λ yes pos p.
            let half : wordop block (pos / 64) ≡ 0 =
              loop.0 yes (pos / 64) (omega arith) (omega arith) in
            let none : block (pos / 32) ≡ 0 = elim (Bool-cases (pos / 32 % 2 == 0)) [
              | inl even ↦
                  let e : pos / 32 ≡ 2 * (pos / 64) = omega (arith, ==→eq (pos / 32 % 2) 0 even) in
                  rw e (omega (arith, half))
              | inr odd ↦
                  let e : pos / 32 ≡ 2 * (pos / 64) + 1 =
                    omega (arith, ==→ne (pos / 32 % 2) 0 odd) in
                  rw e (omega (arith, half))
            ] in
            rw none (bit_at-zero (pos % 32))),
        λ clear. loop.1 (λ k lo hi.
            let empty : (d : ℕ) → d < 2048 → block d ≡ 0 = λ d p.
              same_digits 32 (block d) 0 (w d) (omega arith) (λ i q.
                let dd : (d * 32 + i) / 32 ≡ d = omega arith in
                let ii : (d * 32 + i) % 32 ≡ i = omega arith in
                let z : bit_at (block d) i ≡ 0 =
                  rw (dd, ii) at (clear (d * 32 + i) (omega arith)) in
                omega (arith, z, bit_at-zero i)) in
            omega (arith, empty (2 * k) (omega arith), empty (2 * k + 1) (omega arith))),
      )

-- The answer about OR.
pub gap_bitset_or_any_iff :
    (block buf : Buffer)
    → IsWords block
    → IsGap buf
    → (gap_bitset_or_any block buf ≡ 0)
      ↔ ((pos : ℕ) → pos < gap_max_bits → (gap_bit buf pos ≡ 0) × (block_bit block pos ≡ 0))
unfolding gap_bitset_or_any
gap_bitset_or_any_iff block buf w g =
    let gaps = (gap_is_all_iff buf g).0 in
    let bits = bit_is_all_zero_iff block w in
    elim (Bool-cases (gap_is_all_zero buf)) [
      | inl a ↦ elim (Bool-cases (bit_is_all_zero block)) [
        | inl b ↦
            rw (a, b) ((λ e pos p. (gaps.0 a pos (omega arith) p, bits.0 b pos p)), λ none. refl)
        | inr b ↦
            rw (a, b)
              (
                (λ e. absurd (omega (arith, e))),
                λ none. absurd (ground (arith, b, bits.1 (λ pos p. (none pos p).1))),
              )
      ]
      | inr a ↦ rw a (
        (λ e. absurd (omega (arith, e))),
        λ none. absurd (ground (arith, a, gaps.1 (λ pos lo p. (none pos p).0))),
      )
    ]
