-- ===== src/Gap/Range/Laws.antt =====
-- src/bmfunc.h: the questions about a range are answered as the bits of the block say.
use bit_magic.Base.{
  ℕ, zero, suc, ◌-◌, ◌≤◌, ◌<◌, ◌≡◌, ◌↔◌, true, false, Bool, ◌||◌, not, sub32, if◌then◌else◌, Buffer,
  ◌==◌, leb, arith,
}
use bit_magic.Gap.Layout.{gap_max_bits, last_word, gap_bit, IsGap, InGap}
use bit_magic.Gap.Order.{
  BitsAre, gap_bit-InGap, gap_bit-after, gap_bit-border, border_next, border_last, gap_bit-cases,
}
use bit_magic.Gap.Find.Laws.{gap_bfind-Finds}
use bit_magic.Gap.Range.{gap_is_all_one_range, gap_any_range, gap_is_interval}

-- For left ≤ right inside a well-formed block, the code answers that all bits of [left, right]
-- are set exactly when they are.
pub gap_is_all_one_range_iff :
    (buf : Buffer) (left right : ℕ)
    → IsGap buf
    → left ≤ right
    → right < gap_max_bits
    → (gap_is_all_one_range buf left right ≡ true) ↔ BitsAre buf left (suc right) 1
unfolding gap_is_all_one_range
gap_is_all_one_range_iff buf left right g le top =
    let ((j, at, inside, here), v) = gap_bfind-Finds buf left g (omega arith) in
    rw at (
      (λ h pos p q. ground (arith, gap_bit-InGap g j left, gap_bit-InGap g j pos)),
      (λ h. ground (
        arith,
        gap_bit-InGap g j left,
        gap_bit-after g j,
        border_next g j right,
        h left,
        h (suc (buf (suc j))),
      )),
    )

-- For left ≤ right inside a well-formed block, the code answers that no bit of [left, right] is
-- set exactly when none is.
pub gap_any_range_iff :
    (buf : Buffer) (left right : ℕ)
    → IsGap buf
    → left ≤ right
    → right < gap_max_bits
    → (gap_any_range buf left right ≡ false) ↔ BitsAre buf left (suc right) 0
unfolding gap_any_range
gap_any_range_iff buf left right g le top =
    let ((j, at, inside, here), v) = gap_bfind-Finds buf left g (omega arith) in
    rw at (
      (λ h pos p q. ground (arith, gap_bit-InGap g j left, gap_bit-InGap g j pos)),
      (λ h. ground (
        arith,
        gap_bit-InGap g j left,
        gap_bit-after g j,
        border_next g j right,
        h left,
        h (suc (buf (suc j))),
      )),
    )

-- What the code compares, once the gap j of `left` is found.
interval_test : Buffer → ℕ → ℕ → ℕ → Bool
interval_test buf left right j =
    if gap_bit buf left == 0 || not (right == buf (suc j)) || leb (suc j) 1
    then false
    else if not (buf (suc j - 1) == sub32 left 1)
    then false
    else true

abbrev pub IsInterval : Buffer → ℕ → ℕ → Type 0
IsInterval buf left right =
    BitsAre buf left (suc right) 1 × (gap_bit buf (left - 1) ≡ 0) × (gap_bit buf (suc right) ≡ 0)

module _ (buf : Buffer) (left right : ℕ) (g : IsGap buf) (pos_left : 0 < left) (le : left ≤ right)
    (top : right < gap_max_bits - 1) where
  interval_test-IsInterval :
      (j : ℕ)
      → j < last_word buf
      → InGap buf j left
      → interval_test buf left right j ≡ true
      → IsInterval buf left right
  unfolding interval_test
  interval_test-IsInterval zero inside here h = ground arith
  interval_test-IsInterval (suc j) inside here h = (
    (λ pos p q.
        ground (
          arith,
          gap_bit-cases buf left,
          gap_bit-InGap g (suc j) left,
          gap_bit-InGap g (suc j) pos,
        )),
    ground (arith, gap_bit-cases buf left, gap_bit-InGap g (suc j) left, gap_bit-border g j),
    ground (
      arith,
      gap_bit-cases buf left,
      gap_bit-InGap g (suc j) left,
      gap_bit-after g (suc j),
      border_next g (suc j) (suc right),
      border_last g (suc j),
    ),
  )

  IsInterval→interval_test :
      (j : ℕ)
      → j < last_word buf
      → InGap buf j left
      → IsInterval buf left right
      → interval_test buf left right j ≡ true
  unfolding interval_test
  IsInterval→interval_test zero inside here h =
      ground (arith, gap_bit-InGap g zero left, gap_bit-InGap g zero (left - 1), h.0 left)
  IsInterval→interval_test (suc j) inside here h = ground (
    arith,
    gap_bit-InGap g (suc j) left,
    gap_bit-InGap g (suc j) (left - 1),
    gap_bit-InGap g (suc j) (suc right),
    gap_bit-after g (suc j),
    border_next g (suc j) right,
    h.0 left,
    h.0 (suc (buf (suc (suc j)))),
  )

-- For 0 < left ≤ right < 65535 and a well-formed block, the code answers that [left, right] is an
-- interval exactly when all its bits are set and the two bits that flank it are not.
pub gap_is_interval_iff :
    (buf : Buffer) (left right : ℕ)
    → IsGap buf
    → 0 < left
    → left ≤ right
    → right < gap_max_bits - 1
    → (gap_is_interval buf left right ≡ true) ↔ IsInterval buf left right
unfolding gap_is_interval interval_test
gap_is_interval_iff buf left right g pos_left le top =
    let ((j, at, inside, here), v) = gap_bfind-Finds buf left g (omega arith) in
    rw (at, v)
      (
        interval_test-IsInterval buf left right g pos_left le top j inside here,
        IsInterval→interval_test buf left right g pos_left le top j inside here,
      )
