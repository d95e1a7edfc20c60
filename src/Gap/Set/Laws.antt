-- ===== src/Gap/Set/Laws.antt =====
-- src/bmfunc.h: writing a bit of a GAP block changes that bit and no other, and keeps the block
-- well formed.
use bit_magic.Base.{
  ℕ, zero, suc, ◌+◌, ◌-◌, ◌/◌, ◌%◌, ◌≤◌, ◌<◌, ◌≡◌, ◌≢◌, inl, inr, refl, Buffer, ltb, ◌==◌,
  if◌then◌else◌, arith, add16, sub16, u16, Bool-cases, true, false, ==→eq, ==→ne, ◌&&◌, Bool,
}
use bit_magic.Gap.Layout.{gap_max_bits, last_word, gap_bit, IsGap, InGap, gap_start}
use bit_magic.Gap.Order.{border_last, gap_bit-cases}
use bit_magic.Gap.Find.{gap_bfind}
use bit_magic.Gap.Find.Laws.{gap_bfind-Finds}
use bit_magic.Gap.Set.{
  set_end, move_borders, gap_set_value, gap_set_value_quiet, add_borders, gap_add_value,
}
use bit_magic.Gap.Set.Borders.{IsFlipped}
use bit_magic.Gap.Set.Branches.{
  insert_front, delete_front, grow_prev, merge_gaps, merge_last, shrink_curr, open_last, split_gap,
}

abbrev Flips : Buffer → ℕ → ℕ × Buffer → Type 0
Flips buf pos r = IsFlipped buf pos r.0 (set_end r)

module _ (buf : Buffer) (pos : ℕ) (g : IsGap buf) (room : last_word buf < 8190)
    (hp : pos < gap_max_bits) where
  Flips-first : (curr : ℕ) → pos ≡ 0 → Flips buf pos (move_borders buf pos curr)
  unfolding move_borders
  Flips-first curr first =
      let end : u16 (buf 0 / 8) ≡ buf 0 / 8 = omega (arith, g.header) in
      let less : sub16 (buf 0 / 8) 1 ≡ buf 0 / 8 - 1 = omega (arith, g.header, g.nonempty) in
      let more : add16 (buf 0 / 8) 1 ≡ suc (buf 0 / 8) = omega arith in
      let test : (pos == 0) ≡ true = ground arith in
      rw (end, less, more, test)
        (elim (Bool-cases (buf 1 == 0)) [
          | inl none ↦ rw none (delete_front buf pos g room hp first (==→eq (buf 1) 0 none))
          | inr some ↦ rw some (insert_front buf pos g room hp first (==→ne (buf 1) 0 some))
        ])

  -- The left border bit of the gap k + 1.
  Flips-left :
      (k : ℕ)
      → 0 < pos
      → suc k < last_word buf
      → pos ≤ buf (suc (suc k))
      → suc (buf (suc k)) ≡ pos
      → Flips buf pos (move_borders buf pos (suc (suc k)))
  unfolding move_borders
  Flips-left k some inside upper left =
      let end : u16 (buf 0 / 8) ≡ buf 0 / 8 = omega (arith, g.header) in
      let before : suc (suc k) - 1 ≡ suc k = omega arith in
      let after : suc (suc k) + 1 ≡ suc (suc (suc k)) = omega arith in
      let grown : add16 (buf (suc k)) 1 ≡ pos = omega arith in
      let less : sub16 (buf 0 / 8) 1 ≡ buf 0 / 8 - 1 = omega (arith, g.header, g.nonempty) in
      let less2 : sub16 (buf 0 / 8 - 1) 1 ≡ buf 0 / 8 - 2 = omega arith in
      let test0 : (pos == 0) ≡ false = ground arith in
      let test1 : (ltb 1 (suc (suc k)) && buf (suc k) + 1 == pos) ≡ true = ground arith in
      let here : (suc k == suc k) ≡ true = ground arith in
      let next : (suc (suc k) == suc k) ≡ false = ground arith in
      rw (end, before, after, grown, less, less2, test0, test1, here, next)
        (elim (Bool-cases (pos == buf (suc (suc k)))) [
          | inl gone ↦
              let same = ==→eq pos (buf (suc (suc k))) gone in
              rw gone (elim (Bool-cases (suc (suc k) == buf 0 / 8)) [
                | inl last ↦ rw last (
                    merge_last buf pos g room hp k (==→eq (suc (suc k)) (buf 0 / 8) last) left same)
                | inr inner ↦
                    let ne = ==→ne (suc (suc k)) (buf 0 / 8) inner in
                    rw inner (merge_gaps buf pos g room hp k (omega arith) left same)
              ])
          | inr rest ↦
              let ne = ==→ne pos (buf (suc (suc k))) rest in
              rw rest (grow_prev buf pos g room hp k inside left (omega arith))
        ])

  -- Any other bit of the gap j.
  Flips-other :
      (j : ℕ)
      → 0 < pos
      → j < last_word buf
      → gap_start buf j ≤ pos
      → pos ≤ buf (suc j)
      → ((i : ℕ) → suc i ≡ j → buf (suc i) + 1 ≢ pos)
      → (ltb 1 (suc j) && buf j + 1 == pos) ≡ false
      → Flips buf pos (move_borders buf pos (suc j))
  unfolding move_borders
  Flips-other j some inside start upper other test =
      let end : u16 (buf 0 / 8) ≡ buf 0 / 8 = omega (arith, g.header) in
      let before : suc j - 1 ≡ j = omega arith in
      let down : sub16 pos 1 ≡ pos - 1 = omega arith in
      let whole : u16 pos ≡ pos = omega arith in
      let more : add16 (buf 0 / 8) 2 ≡ suc (suc (buf 0 / 8)) = omega arith in
      let test0 : (pos == 0) ≡ false = ground arith in
      rw (end, before, down, whole, more, test0, test)
        (elim (Bool-cases (buf (suc j) == pos)) [
          | inl right ↦
              let same = ==→eq (buf (suc j)) pos right in
              rw (right, same, down)
                (elim (Bool-cases (suc j == buf 0 / 8)) [
                  | inl last ↦
                      let one_more : add16 (buf 0 / 8) 1 ≡ suc (buf 0 / 8) = omega arith in
                      rw (last, one_more)
                        (open_last buf pos g room hp j (==→eq (suc j) (buf 0 / 8) last) same other)
                  | inr inner ↦
                      let ne = ==→ne (suc j) (buf 0 / 8) inner in
                      let no_more : add16 (buf 0 / 8) 0 ≡ buf 0 / 8 = omega arith in
                      rw (inner, no_more)
                        (shrink_curr buf pos g room hp j (omega arith) start some same other)
                ])
          | inr inner ↦
              let ne = ==→ne (buf (suc j)) pos inner in
              rw inner (split_gap buf pos g room hp j inside start some (omega arith) other)
        ])

  -- Every branch turns the bit over, once the gap of the position is known.
  move_borders-Flips :
      (j : ℕ) → j < last_word buf → InGap buf j pos → Flips buf pos (move_borders buf pos (suc j))
  move_borders-Flips zero inside here = elim (Bool-cases (pos == 0)) [
    | inl first ↦ Flips-first 1 (==→eq pos 0 first)
    | inr later ↦
        let ne = ==→ne pos 0 later in
        Flips-other 0 (omega arith) inside here.0 here.1 (λ i e. absurd (omega arith))
          (ground arith)
  ]
  move_borders-Flips (suc k) inside here = elim (Bool-cases (buf (suc k) + 1 == pos)) [
    | inl left ↦
        let e = ==→eq (buf (suc k) + 1) pos left in
        Flips-left k (omega arith) inside here.1 (omega arith)
    | inr other ↦
        let ne = ==→ne (buf (suc k) + 1) pos other in
        Flips-other (suc k) (omega arith) inside here.0 here.1 (λ i e. ground arith) (ground arith)
  ]

-- A well-formed block with `end` for its last word and the level of `buf`, in which `pos` holds
-- `val` and every other bit is that of `buf`.
pub record IsStored (val : ℕ) (buf : Buffer) (pos end : ℕ) (out : Buffer) : Type 0 where
  pub gap : IsGap out
  pub length : end ≡ last_word out
  pub level : out 0 / 2 % 4 ≡ buf 0 / 2 % 4
  pub bits : (q : ℕ) → q < gap_max_bits → gap_bit out q ≡ (if q == pos then val else gap_bit buf q)

module _ (val : ℕ) (buf : Buffer) (pos : ℕ) (g : IsGap buf) (one_bit : val < 2) where
  IsStored-same : gap_bit buf pos ≡ val → IsStored val buf pos (u16 (buf 0 / 8)) buf
  IsStored-same e = record {
    gap = g;
    length = omega (arith, g.header);
    level = refl;
    bits = λ q h. ground arith;
  }

  IsStored-flipped :
      (r : ℕ × Buffer)
      → gap_bit buf pos ≢ val
      → Flips buf pos r
      → IsStored val buf pos r.0 (set_end r)
  IsStored-flipped r ne f = record {
    gap = f.gap;
    length = f.length;
    level = f.level;
    bits = λ q h. ground (arith, f.bits q h, gap_bit-cases buf pos);
  }

-- Writing a bit (0 or 1) at a position inside a well-formed block of fewer than 8190 borders
-- gives a well-formed block whose length is the one returned, which holds the written value there
-- and the old bit at every other position; the report says whether the bit changed.
pub gap_set_value_lem :
    (val : ℕ) (buf : Buffer) (pos : ℕ)
    → IsGap buf
    → val < 2
    → last_word buf < 8190
    → pos < gap_max_bits
    → let r = gap_set_value val buf pos in
      IsStored val buf pos r.end r.buf × (r.is_set ≡ (if gap_bit buf pos == val then 0 else 1))
unfolding gap_set_value
gap_set_value_lem val buf pos g one_bit room hp =
    let ((j, at, inside, here), v) = gap_bfind-Finds buf pos g hp in
    rw (at, v)
      (elim (Bool-cases (gap_bit buf pos == val)) [
        | inl same ↦
            let e = ==→eq (gap_bit buf pos) val same in
            rw same (IsStored-same val buf pos g one_bit e, refl)
        | inr other ↦
            let ne = ==→ne (gap_bit buf pos) val other in
            rw other (
              IsStored-flipped val buf pos g one_bit (move_borders buf pos (suc j)) ne
                  (move_borders-Flips buf pos g room hp j inside here),
              refl,
            )
      ])

-- For every value, block and position, the overload without the report stores the same block and
-- returns the same length as the one with it.
pub gap_set_value_quiet_lem :
    (val : ℕ) (buf : Buffer) (pos : ℕ)
    → gap_set_value_quiet val buf pos
      ≡ ((gap_set_value val buf pos).end, (gap_set_value val buf pos).buf)
unfolding gap_set_value_quiet gap_set_value
gap_set_value_quiet_lem val buf pos = elim (Bool-cases ((gap_bfind buf pos).1 == val)) [
  | inl same ↦ rw same
  | inr other ↦ rw other
]

-- In the last gap `gap_add_value` moves the borders as `gap_set_value` does.
and_comm : (a b : Bool) → (a && b) ≡ (b && a)
and_comm a b = ground arith

add_borders-eq-move_borders :
    (buf : Buffer) (pos k : ℕ)
    → IsGap buf
    → suc k ≡ last_word buf
    → add_borders buf pos ≡ move_borders buf pos (suc k)
unfolding add_borders move_borders
add_borders-eq-move_borders buf pos k g last =
    let end : u16 (buf 0 / 8) ≡ suc k = omega (arith, g.header) in
    let at_end : (suc k == suc k) ≡ true = ground arith in
    let closed : (buf (suc k) == gap_max_bits - 1) ≡ true = ground (arith, border_last g k last) in
    rw (end, at_end, closed, and_comm (buf (suc k - 1) + 1 == pos) (ltb 1 (suc k)))

-- A set bit added at a clear position of the last gap of a well-formed block of fewer than 8190
-- borders is stored as gap_set_value stores it.
pub gap_add_value_lem :
    (buf : Buffer) (pos k : ℕ)
    → IsGap buf
    → last_word buf < 8190
    → pos < gap_max_bits
    → suc k ≡ last_word buf
    → InGap buf k pos
    → gap_bit buf pos ≡ 0
    → IsStored 1 buf pos (gap_add_value buf pos).0 (gap_add_value buf pos).1
unfolding gap_add_value
gap_add_value_lem buf pos k g room hp last here clear =
    rw (add_borders-eq-move_borders buf pos k g last) (
      IsStored-flipped 1 buf pos g (omega arith) (move_borders buf pos (suc k)) (omega arith)
        (move_borders-Flips buf pos g room hp k (omega arith) here))
