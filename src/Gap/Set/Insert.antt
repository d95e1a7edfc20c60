-- ===== src/Gap/Set/Insert.antt =====
-- Border lists that differ by one or two borders, or by the value of one: how many borders lie below
-- a position, and when the order is kept. These are the four ways in which a bit is written.
use bit_magic.Base.{
  ℕ, zero, suc, ◌+◌, ◌-◌, ◌≤◌, ◌<◌, ◌≡◌, ◌⊎◌, Buffer, ltb, if◌then◌else◌, arith, Bool-cases, inl,
  inr, ltb→lt, ltb→le, lt_or_eq_or_gt,
}
use bit_magic.Gap.Layout.{borders_below, IsRising}

-- 1 if the border x lies below q.
abbrev pub below : ℕ → ℕ → ℕ
below x q = if ltb x q then 1 else 0

-- `wide` has x and y where `narrow` has its border j + 1, and n borders of `narrow` follow on.
pub record Inserts2 (narrow wide : Buffer) (j n x y : ℕ) : Type 0 where
  pub low : (i : ℕ) → i < j → wide (suc i) ≡ narrow (suc i)
  pub at1 : wide (suc j) ≡ x
  pub at2 : wide (suc (suc j)) ≡ y
  pub high : (i : ℕ) → j ≤ i → i < n → wide (suc (suc (suc i))) ≡ narrow (suc i)

-- `wide` has x in front, and the n borders of `narrow` behind it.
pub record Inserts1 (narrow wide : Buffer) (n x : ℕ) : Type 0 where
  pub at : wide 1 ≡ x
  pub high : (i : ℕ) → i < n → wide (suc (suc i)) ≡ narrow (suc i)

-- `new` has x for the border j + 1 of `old`, and the same n borders else.
pub record Replaces (old new : Buffer) (j n x : ℕ) : Type 0 where
  pub at : new (suc j) ≡ x
  pub others : (i : ℕ) → i < n → (i < j) ⊎ (j < i) → new (suc i) ≡ old (suc i)

pub borders_below_ext :
    (b c : Buffer) (q n : ℕ)
    → ((i : ℕ) → i < n → c (suc i) ≡ b (suc i))
    → borders_below c n q ≡ borders_below b n q
unfolding borders_below
borders_below_ext b c q zero h = ground arith
borders_below_ext b c q (suc n) h =
    ground (arith, h n, borders_below_ext b c q n (λ i p. h i (omega arith)))

pub borders_below-Inserts2 :
    {narrow wide : Buffer} {j n x y : ℕ}
    → Inserts2 narrow wide j n x y
    → (q m : ℕ) → j ≤ m
    → m ≤ n
    → borders_below wide (suc (suc m)) q ≡ borders_below narrow m q + below x q + below y q
unfolding borders_below
borders_below-Inserts2 {narrow} {wide} {j} r q zero p le = ground (arith, r.at1, r.at2)
borders_below-Inserts2 {narrow} {wide} {j} {n} r q (suc m) p le = elim (Bool-cases (ltb m j)) [
  | inl first ↦
      let start : suc m ≡ j = omega (arith, ltb→lt m j first) in
      ground (
        arith,
        r.at1,
        r.at2,
        r.low m,
        borders_below_ext narrow wide q m (λ i h. r.low i (omega arith)),
      )
  | inr later ↦ let h = ltb→le m j later in ground (arith, r.high m, borders_below-Inserts2 r q m)
]

pub borders_below-Inserts1 :
    {narrow wide : Buffer} {n x : ℕ}
    → Inserts1 narrow wide n x
    → (q m : ℕ) → m ≤ n
    → borders_below wide (suc m) q ≡ below x q + borders_below narrow m q
unfolding borders_below
borders_below-Inserts1 r q zero le = ground (arith, r.at)
borders_below-Inserts1 r q (suc m) le = ground (arith, r.high m, borders_below-Inserts1 r q m)

pub borders_below-Replaces :
    {old new : Buffer} {j n x : ℕ}
    → Replaces old new j n x
    → (q m : ℕ) → j < m
    → m ≤ n
    → borders_below new m q + below (old (suc j)) q ≡ borders_below old m q + below x q
unfolding borders_below
borders_below-Replaces r q zero p le = absurd (omega arith)
borders_below-Replaces {old} {new} {j} r q (suc m) p le = elim (Bool-cases (ltb j m)) [
  | inl later ↦
      let h = ltb→lt j m later in
      ground (arith, r.others m (omega arith) (inr h), borders_below-Replaces r q m)
  | inr here ↦
      let same : m ≡ j = omega (arith, ltb→le j m here) in
      ground (
        arith,
        r.at,
        borders_below_ext old new q m (λ i h. r.others i (omega arith) (inl (omega arith))),
      )
]

-- In the split gap the two new borders stay between its ends.
pub Inserts2-IsRising :
    {narrow wide : Buffer} {j n x y : ℕ}
    → Inserts2 narrow wide j n x y
    → IsRising narrow n
    → j ≤ n
    → ((i : ℕ) → suc i ≡ j → narrow (suc i) < x)
    → x < y
    → (j < n → y < narrow (suc j))
    → IsRising wide (suc (suc n))
Inserts2-IsRising {narrow} {wide} {j} {n} r rise le before inner after i h =
    elim (lt_or_eq_or_gt i j) [
      | inl early ↦ elim (lt_or_eq_or_gt (suc i) j) [
        | inl earlier ↦ ground (arith, r.low i, r.low (suc i), rise i)
        | inr (inl last) ↦ ground (arith, r.low i, r.at1, before i last)
        | inr (inr past) ↦ absurd (omega arith)
      ]
      | inr (inl here) ↦ ground (arith, r.at1, r.at2)
      | inr (inr late) ↦ elim (lt_or_eq_or_gt i (suc j)) [
        | inl early ↦ absurd (omega arith)
        | inr (inl second) ↦ ground (arith, r.at2, r.high j, after)
        | inr (inr later) ↦
            let at : i ≡ suc (suc (i - 2)) = omega arith in
            rw at (ground (arith, r.high (i - 2), r.high (suc (i - 2)), rise (i - 2)))
      ]
    ]

-- Without the two borders the order is still there.
pub Inserts2-IsRising_narrow :
    {narrow wide : Buffer} {j n x y : ℕ}
    → Inserts2 narrow wide j n x y
    → IsRising wide (suc (suc n))
    → IsRising narrow n
Inserts2-IsRising_narrow {narrow} {wide} {j} {n} r rise i h = elim (lt_or_eq_or_gt (suc i) j) [
  | inl early ↦ ground (arith, r.low i, r.low (suc i), rise i)
  | inr (inl last) ↦
      ground (arith, r.low i, r.high (suc i), rise i, rise (suc i), rise (suc (suc i)))
  | inr (inr late) ↦ ground (arith, r.high i, r.high (suc i), rise (suc (suc i)))
]

pub Inserts1-IsRising :
    {narrow wide : Buffer} {n x : ℕ}
    → Inserts1 narrow wide n x
    → IsRising narrow n
    → (0 < n → x < narrow 1)
    → IsRising wide (suc n)
Inserts1-IsRising r rise first zero h = ground (arith, r.at, r.high 0, first)
Inserts1-IsRising r rise first (suc i) h = ground (arith, r.high i, r.high (suc i), rise i)

pub Inserts1-IsRising_narrow :
    {narrow wide : Buffer} {n x : ℕ}
    → Inserts1 narrow wide n x
    → IsRising wide (suc n)
    → IsRising narrow n
Inserts1-IsRising_narrow r rise i h = ground (arith, r.high i, r.high (suc i), rise (suc i))

pub Replaces-IsRising :
    {old new : Buffer} {j n x : ℕ}
    → Replaces old new j n x
    → IsRising old n
    → j < n
    → ((i : ℕ) → suc i ≡ j → old (suc i) < x)
    → (suc j < n → x < old (suc (suc j)))
    → IsRising new n
Replaces-IsRising {old} {new} {j} {n} r rise inside before after i h = elim (lt_or_eq_or_gt i j) [
  | inl early ↦ elim (lt_or_eq_or_gt (suc i) j) [
    | inl earlier ↦
        ground
          (arith, r.others i (omega arith) (inl early), r.others (suc i) h (inl earlier), rise i)
    | inr (inl last) ↦ ground (arith, r.others i (omega arith) (inl early), r.at, before i last)
    | inr (inr past) ↦ absurd (omega arith)
  ]
  | inr (inl here) ↦ ground (arith, r.at, r.others (suc i) h (inr (omega arith)), after)
  | inr (inr late) ↦
      ground
        (arith, r.others i (omega arith) (inr late), r.others (suc i) h (inr (omega arith)), rise i)
]
