-- ===== src/Scan/Laws.antt =====
-- src/bmutil.h: what the scans of a word find.
use bit_magic.Base.{
  ℕ, zero, suc, ◌+◌, ◌-◌, ◌*◌, ◌/◌, ◌%◌, ◌^◌, ◌≤◌, ◌<◌, ◌≡◌, refl, ap, ◌∙◌, ◌&&◌, ◌||◌, Bool, true,
  inl, inr, leb, ltb, ◌==◌, if◌then◌else◌, arith, Bool-cases, lt_or_eq_or_gt, ==→eq, ltb→lt, ltb→le,
  leb→le, leb→lt, ==→ne, bit_and, bit_and_step, bit_and-lt, bit_at-bit_and, bit_at_ones, bit_at-lt,
  same_digits, power_add,
}
use bit_magic.Scan.{entry, first_bit_table, ilog2_lut, ilog2_lut16, ilog2_step, ilog2}
use native.Mathlib.Nat.{
  pow-suc, pow-le-pow_right, one-le-pow, div-div-eq-div-mul, le-div_iff_mul-le, div-lt_iff_lt-mul,
}

-- A test that holds of all numbers below n.
unfoldable pub all_below : ℕ → (ℕ → Bool) → Bool
all_below zero test = true
all_below (suc n) test = test n && all_below n test

pub below : (n : ℕ) (test : ℕ → Bool) (i : ℕ) → all_below n test ≡ true → i < n → test i ≡ true
unfolding all_below
below zero test i h p = absurd (omega arith)
below (suc n) test i h p = elim (Bool-cases (i == n)) [
  | inl same ↦ let e = ==→eq i n same in rw e (ground arith)
  | inr other ↦ let ne = ==→ne i n other in below n test i (ground arith) (omega arith)
]

-- k is the place of the highest one of x.
abbrev pub IsTop : ℕ → ℕ → Type 0
IsTop x k = (2 ^ k ≤ x) × (x < 2 ^ suc k)

top_test : ℕ → ℕ → Bool
top_test x k = (x == 0) || (leb (2 ^ k) x && ltb x (2 ^ k * 2) && ltb k 8)

top_test-IsTop : (x k : ℕ) → 1 ≤ x → top_test x k ≡ true → IsTop x k × (k < 8)
unfolding top_test
top_test-IsTop x k some h = ground (arith, pow-suc 2 k)

first_bit_lem : (x : ℕ) → x < 256 → top_test x (entry first_bit_table x) ≡ true
unfolding top_test all_below first_bit_table
first_bit_lem x small = below 256 (λ y. top_test y (entry first_bit_table y)) x refl small

entry-IsTop :
    (x : ℕ) → 1 ≤ x → x < 256 → IsTop x (entry first_bit_table x) × (entry first_bit_table x < 8)
entry-IsTop x some small = top_test-IsTop x _ some (first_bit_lem x small)

-- `x & (mask << k)` reads x from its digit k on.
bit_and_shl : (k a m : ℕ) → bit_and a (m * 2 ^ k) ≡ bit_and (a / 2 ^ k) m * 2 ^ k
bit_and_shl zero a m =
    let e : m * 2 ^ 0 ≡ m = omega arith in
    let f : a / 2 ^ 0 ≡ a = omega arith in rw e (rw f (omega arith))
bit_and_shl (suc k) a m =
    let e : m * 2 ^ suc k ≡ m * 2 ^ k * 2 = omega (arith, ap (λ (t : ℕ). m * t) (pow-suc 2 k)) in
    let p : 2 ^ suc k ≡ 2 * 2 ^ k = omega (arith, pow-suc 2 k) in
    let half : a / 2 / 2 ^ k ≡ a / 2 ^ suc k = rw p (div-div-eq-div-mul a 2 (2 ^ k)) in
    let ih = rw half at (bit_and_shl k (a / 2) m) in
    let both : bit_and (a / 2 ^ suc k) m * 2 ^ suc k ≡ bit_and (a / 2 ^ suc k) m * 2 ^ k * 2 =
      omega (arith, ap (λ (t : ℕ). bit_and (a / 2 ^ suc k) m * t) p) in
    let halved : m * 2 ^ k * 2 / 2 ≡ m * 2 ^ k = omega arith in
    let even : m * 2 ^ k * 2 % 2 ≡ 0 = omega arith in
    rw (e, both) (omega (arith, rw (halved, even) at (bit_and_step a (m * 2 ^ k * 2)), ih))

-- A mask of ones keeps a word that has no other digits.
bit_and_low : (k a : ℕ) → a < 2 ^ k → bit_and a (2 ^ k - 1) ≡ a
bit_and_low k a h =
    same_digits k (bit_and a (2 ^ k - 1)) a (bit_and-lt k a _ h) h
      (λ i p. rw (bit_at-bit_and a (2 ^ k - 1) i) (ground (arith, bit_at_ones k i, bit_at-lt a i)))

high_half : (x : ℕ) → x < 2 ^ 32 → bit_and x 0xffff_0000 ≡ x / 2 ^ 16 * 2 ^ 16
high_half x h =
    bit_and_shl 16 x 0xffff ∙ ap (λ (t : ℕ). t * 2 ^ 16) (bit_and_low 16 (x / 2 ^ 16) (omega arith))

high_byte : (x : ℕ) → x < 2 ^ 16 → bit_and x 0xff00 ≡ x / 2 ^ 8 * 2 ^ 8
high_byte x h =
    bit_and_shl 8 x 0xff ∙ ap (λ (t : ℕ). t * 2 ^ 8) (bit_and_low 8 (x / 2 ^ 8) (omega arith))

-- A word that is shifted right by d is scanned d places further on.
pub IsTop-shr : (d x k : ℕ) → IsTop (x / 2 ^ d) k → IsTop x (k + d)
IsTop-shr d x k (low, high) =
    let some : 0 < 2 ^ d = omega (arith, one-le-pow d 2 (omega arith)) in
    (
      rw (power_add k d) ((le-div_iff_mul-le some).0 low),
      let s : suc (k + d) ≡ suc k + d = omega arith in
          rw (s, power_add (suc k) d) ((div-lt_iff_lt-mul some).0 high),
    )

byte_zero : (x : ℕ) → x < 2 ^ 16 → (bit_and x 0xff00 == 0) ≡ ltb x (2 ^ 8)
byte_zero x h = rw (high_byte x h) (ground arith)

half_zero : (x : ℕ) → x < 2 ^ 32 → (bit_and x 0xffff_0000 == 0) ≡ ltb x (2 ^ 16)
half_zero x h = rw (high_half x h) (ground arith)

pub ilog2_lut16-IsTop :
    (x : ℕ) → 1 ≤ x → x < 2 ^ 16 → IsTop x (ilog2_lut16 x) × (ilog2_lut16 x < 16)
unfolding ilog2_lut16
ilog2_lut16-IsTop x some small = elim (Bool-cases (ltb x (2 ^ 8))) [
  | inl one ↦
      let (top, fits) = entry-IsTop x some (ltb→lt x (2 ^ 8) one) in
      let e : entry first_bit_table x % 2 ^ 16 ≡ entry first_bit_table x = omega arith in
      rw (byte_zero x small, one, e) (top, omega arith)
  | inr two ↦
      let m = ltb→le x (2 ^ 8) two in
      let (top, fits) = entry-IsTop (x / 2 ^ 8) (omega arith) (omega arith) in
      let k = entry first_bit_table (x / 2 ^ 8) in
      let e : (8 + k) % 2 ^ 16 ≡ k + 8 = omega arith in
      rw (byte_zero x small, two, e) (IsTop-shr 8 x k top, omega arith)
]

-- The 32-bit search is the 16-bit one, of the half that holds the highest one.
ilog2_lut-ilog2_lut16 :
    (x : ℕ)
    → 1 ≤ x
    → x < 2 ^ 32
    → ilog2_lut x ≡ (if ltb x (2 ^ 16) then ilog2_lut16 x else ilog2_lut16 (x / 2 ^ 16) + 16)
unfolding ilog2_lut ilog2_lut16
ilog2_lut-ilog2_lut16 x some small = elim (Bool-cases (ltb x (2 ^ 16))) [
  | inl low ↦
      let h = ltb→lt x (2 ^ 16) low in
      rw (half_zero x small, low)
        (elim (Bool-cases (ltb x (2 ^ 8))) [
          | inl one ↦
              let (top, fits) = entry-IsTop x some (ltb→lt x (2 ^ 8) one) in
              rw (byte_zero x h, one) (omega arith)
          | inr two ↦
              let m = ltb→le x (2 ^ 8) two in
              let (top, fits) = entry-IsTop (x / 2 ^ 8) (omega arith) (omega arith) in
              rw (byte_zero x h, two) (omega arith)
        ])
  | inr high ↦
      let m = ltb→le x (2 ^ 16) high in
      let y = x / 2 ^ 16 in
      let h : y < 2 ^ 16 = omega arith in
      rw (half_zero x small, high)
        (elim (Bool-cases (ltb y (2 ^ 8))) [
          | inl one ↦
              let (top, fits) = entry-IsTop y (omega arith) (ltb→lt y (2 ^ 8) one) in
              rw (byte_zero y h, one) (omega arith)
          | inr two ↦
              let n = ltb→le y (2 ^ 8) two in
              let (top, fits) = entry-IsTop (y / 2 ^ 8) (omega arith) (omega arith) in
              rw (byte_zero y h, two) (omega arith)
        ])
]

pub ilog2_lut-IsTop : (x : ℕ) → 1 ≤ x → x < 2 ^ 32 → IsTop x (ilog2_lut x) × (ilog2_lut x < 32)
ilog2_lut-IsTop x some small = elim (Bool-cases (ltb x (2 ^ 16))) [
  | inl low ↦
      let (top, fits) = ilog2_lut16-IsTop x some (ltb→lt x (2 ^ 16) low) in
      rw (ilog2_lut-ilog2_lut16 x some small, low) (top, omega arith)
  | inr high ↦
      let m = ltb→le x (2 ^ 16) high in
      let (top, fits) = ilog2_lut16-IsTop (x / 2 ^ 16) (omega arith) (omega arith) in
      rw (ilog2_lut-ilog2_lut16 x some small, high) (IsTop-shr 16 x _ top, omega arith)
]

-- The highest one is at one place only.
pub top_unique : (x j k : ℕ) → IsTop x j → IsTop x k → j ≡ k
top_unique x j k p q = elim (lt_or_eq_or_gt j k) [
  | inl less ↦ absurd (
      omega (arith, p, q, pow-le-pow_right {n = 2} (omega arith) {i = suc j} {j = k} (omega arith)))
  | inr (inl same) ↦ same
  | inr (inr more) ↦ absurd (
      omega (arith, p, q, pow-le-pow_right {n = 2} (omega arith) {i = suc k} {j = j} (omega arith)))
]

-- What is left of w after l places were found: its highest one is l places further down.
record Found (w n : ℕ) (state : ℕ × ℕ) : Type 0 where
  some : 1 ≤ state.0
  small : state.0 < 2 ^ n
  place : (k : ℕ) → IsTop state.0 k → IsTop w (k + state.1)

ilog2_step-Found : (w d x l : ℕ) → Found w (d + d) (x, l) → Found w d (ilog2_step d (x, l))
unfolding ilog2_step
ilog2_step-Found w d x l h = elim (Bool-cases (leb (2 ^ d) x)) [
  | inl big ↦
      let m = leb→le (2 ^ d) x big in
      let fits : x < 2 ^ d * 2 ^ d = rw (power_add d d) at (h.small) in
      rw big record {
        some = (le-div_iff_mul-le (power_pos d)).1 (omega arith);
        small = (div-lt_iff_lt-mul (power_pos d)).1 fits;
        place = λ k top.
            let e : k + (l + d) ≡ k + d + l = omega arith in
            rw e (h.place (k + d) (IsTop-shr d x k top));
      }
  | inr small ↦ rw small record { some = h.some; small = leb→lt (2 ^ d) x small; place = h.place }
]
  where
    power_pos : (d : ℕ) → 0 < 2 ^ d
    power_pos d = omega (arith, one-le-pow d 2 (omega arith))

pub ilog2-IsTop : (x : ℕ) → 1 ≤ x → x < 2 ^ 32 → IsTop x (ilog2 x)
unfolding ilog2
ilog2-IsTop x some small =
    let start : Found x 32 (x, 0) = record {
      some = some;
      small = small;
      place = λ k top. let e : k + 0 ≡ k = omega arith in rw e top;
    } in
    let h16 = ilog2_step-Found x 16 x 0 start in
    let s16 = ilog2_step 16 (x, 0) in
    let h8 = ilog2_step-Found x 8 s16.0 s16.1 h16 in
    let s8 = ilog2_step 8 s16 in
    let h4 = ilog2_step-Found x 4 s8.0 s8.1 h8 in
    let s4 = ilog2_step 4 s8 in
    let h2 = ilog2_step-Found x 2 s4.0 s4.1 h4 in let s2 = ilog2_step 2 s4 in last s2.0 s2.1 h2
  where
    last : {w : ℕ} (y l : ℕ) → Found w 2 (y, l) → IsTop w (if leb 2 y then l + 1 else l)
    last y l h = elim (Bool-cases (leb 2 y)) [
      | inl more ↦
          let m = leb→le 2 y more in
          let e : 1 + l ≡ l + 1 = omega arith in
          rw more (rw e at (h.place 1 (omega arith, omega (arith, h.small))))
      | inr one ↦
          let m = leb→lt 2 y one in
          let z : 0 + l ≡ l = omega arith in
          rw one (rw z at (h.place 0 (omega (arith, h.some), omega arith)))
    ]

-- For a 32-bit word that is not zero, the search for the highest one by halving and the search
-- through the table of bytes give the same place.
pub ilog2-eq-ilog2_lut : (x : ℕ) → 1 ≤ x → x < 2 ^ 32 → ilog2 x ≡ ilog2_lut x
ilog2-eq-ilog2_lut x some small =
    top_unique x (ilog2 x) (ilog2_lut x) (ilog2-IsTop x some small) (ilog2_lut-IsTop x some small).0
