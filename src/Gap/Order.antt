-- ===== src/Gap/Order.antt =====
-- What the order of the borders gives: every bit lies in one gap, and the number of that gap
-- tells its value.
use bit_magic.Base.{
  ℕ, zero, suc, ◌+◌, ◌-◌, ◌*◌, ◌%◌, ◌≤◌, ◌<◌, ◌≡◌, ◌⊎◌, Buffer, ltb, if◌then◌else◌, arith,
}
use bit_magic.Gap.Layout.{
  first_bit, last_word, borders_below, gap_bit, gap_ones, IsGap, IsRising, gap_start, InGap,
}

pub border_lt :
    (buf : Buffer) (n : ℕ) → IsRising buf n → (i j : ℕ) → i < j → j < n → buf (suc i) < buf (suc j)
border_lt buf n rise i zero p q = absurd (omega arith)
border_lt buf n rise i (suc j) p q = ground (arith, rise j (omega arith), border_lt buf n rise i j)

pub border_le :
    (buf : Buffer) (n : ℕ) → IsRising buf n → (i j : ℕ) → i ≤ j → j < n → buf (suc i) ≤ buf (suc j)
border_le buf n rise i j p q = ground (arith, border_lt buf n rise i j)

pub border_top : {buf : Buffer} (g : IsGap buf) (j : ℕ) → j < last_word buf → buf (suc j) ≤ 65535
border_top {buf} g j h =
    ground (arith, border_le buf (last_word buf) g.rising j (last_word buf - 1))

pub border_last :
    {buf : Buffer} (g : IsGap buf) (j : ℕ) → suc j ≡ last_word buf → buf (suc j) ≡ 65535
border_last {buf} g j h = cc

-- A border that is not the last lies below the last bit.
pub border_inner :
    {buf : Buffer} (g : IsGap buf) (j : ℕ) → suc j < last_word buf → buf (suc j) < 65535
border_inner {buf} g j h = omega (arith, g.rising j, border_top g (suc j))

pub gap_start-le :
    (buf : Buffer) (n : ℕ) → IsRising buf n → (j : ℕ) → j < n → gap_start buf j ≤ buf (suc j)
gap_start-le buf n rise zero h = omega arith
gap_start-le buf n rise (suc j) h = rise j h

-- All borders before the gap that holds `pos` are counted, and no other.
pub borders_below-InGap :
    (buf : Buffer) (n : ℕ)
    → IsRising buf n
    → (j pos : ℕ) → j < n
    → InGap buf j pos
    → (m : ℕ) → m ≤ n
    → borders_below buf m pos ≡ (if ltb m j then m else j)
unfolding borders_below
borders_below-InGap buf n rise j pos h p zero le = ground arith
borders_below-InGap buf n rise zero pos h p (suc m) le =
    ground (arith, borders_below-InGap buf n rise zero pos h p m, border_le buf n rise zero m)
borders_below-InGap buf n rise (suc j) pos h p (suc m) le = ground (
  arith,
  borders_below-InGap buf n rise (suc j) pos h p m,
  border_le buf n rise m j,
  border_le buf n rise (suc j) m,
)

-- The bits of the gap number j all have the first gap's value, toggled j times.
pub gap_bit-InGap :
    {buf : Buffer}
    → IsGap buf
    → (j pos : ℕ) → j < last_word buf
    → InGap buf j pos
    → gap_bit buf pos ≡ (first_bit buf + j) % 2
unfolding gap_bit
gap_bit-InGap {buf} g j pos h p =
    ground (arith, borders_below-InGap buf (last_word buf) g.rising j pos h p (last_word buf))

-- A run of n equal bits v adds n times v to the count of set bits.
pub gap_ones_run :
    (buf : Buffer) (n from v to : ℕ)
    → from + n ≡ to
    → ((pos : ℕ) → from ≤ pos → pos < to → gap_bit buf pos ≡ v)
    → gap_ones buf to ≡ gap_ones buf from + n * v
unfolding gap_ones
gap_ones_run buf zero from v to e h = let same : to ≡ from = omega arith in rw same (omega arith)
gap_ones_run buf (suc n) from v zero e h = absurd (omega arith)
gap_ones_run buf (suc n) from v (suc to) e h =
    let shorter = gap_ones_run buf n from v to (omega arith) (λ pos p q. h pos p (omega arith)) in
    omega (arith, shorter, h to (omega arith) (omega arith))

pub gap_ones-le : (buf : Buffer) (n : ℕ) → gap_ones buf n ≤ n
unfolding gap_ones gap_bit
gap_ones-le buf zero = omega arith
gap_ones-le buf (suc n) = omega (arith, gap_ones-le buf n)

-- All bits from one position up to, and without, another are v.
abbrev pub BitsAre : Buffer → ℕ → ℕ → ℕ → Type 0
BitsAre buf from to v = (pos : ℕ) → from ≤ pos → pos < to → gap_bit buf pos ≡ v

pub gap_bits :
    {buf : Buffer}
    → IsGap buf
    → (j : ℕ) → j < last_word buf
    → BitsAre buf (gap_start buf j) (suc (buf (suc j))) ((first_bit buf + j) % 2)
gap_bits g j h pos p q = gap_bit-InGap g j pos h (p, omega arith)

-- The bit at a border, and the one after it.
pub gap_bit-border :
    {buf : Buffer}
    → IsGap buf
    → (j : ℕ) → j < last_word buf
    → gap_bit buf (buf (suc j)) ≡ (first_bit buf + j) % 2
gap_bit-border {buf} g j h =
    gap_bit-InGap g j (buf (suc j)) h (gap_start-le buf (last_word buf) g.rising j h, omega arith)

pub gap_bit-after :
    {buf : Buffer}
    → IsGap buf
    → (j : ℕ) → suc j < last_word buf
    → gap_bit buf (suc (buf (suc j))) ≡ (first_bit buf + suc j) % 2
gap_bit-after {buf} g j h =
    gap_bit-InGap g (suc j) (suc (buf (suc j))) h (omega arith, g.rising j h)

-- A position past a border that is not the last lies in a later gap.
pub border_next :
    {buf : Buffer}
    → IsGap buf
    → (j pos : ℕ) → j < last_word buf
    → buf (suc j) < pos
    → pos < 65536
    → suc j < last_word buf
border_next {buf} g j pos h p q = ground (arith, border_last g j)

pub gap_bit-cases : (buf : Buffer) (pos : ℕ) → (gap_bit buf pos ≡ 0) ⊎ (gap_bit buf pos ≡ 1)
unfolding gap_bit
gap_bit-cases buf pos = omega arith
