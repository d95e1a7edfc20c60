-- ===== src/Gap/Init/Levels.antt =====
-- src/bmfunc.h: the capacity level that a block needs, and a block that is given it.
use bit_magic.Base.{
  ℕ, suc, ◌+◌, ◌-◌, ◌*◌, ◌/◌, ◌%◌, ◌^◌, ◌≤◌, ◌<◌, ◌≡◌, inl, inr, Option, none, some, Buffer, store,
  ltb, leb, arith, Bool-cases, leb→le, leb→lt, sub32, u16,
}
use bit_magic.Gap.Layout.{last_word, gap_bit, gap_level, gap_length, gap_capacity, IsGap}
use bit_magic.Gap.Set.Insert.{borders_below_ext}
use bit_magic.Gap.Init.{set_gap_level, gap_calc_level, gap_free_elements}

-- A table of four capacities, each of which fits a word and has room for the four spare words.
abbrev pub IsLevelTable : Buffer → Type 0
IsLevelTable glevel_len = (k : ℕ) → k < 4 → (4 ≤ glevel_len k) × (glevel_len k < 2 ^ 16)

-- The smallest level with four words to spare, or none of the four has them.
abbrev pub IsLeastLevel : ℕ → Buffer → Option ℕ → Type 0
IsLeastLevel len glevel_len (some level) =
    (level < 4) × (len + 4 ≤ glevel_len level) × ((k : ℕ) → k < level → glevel_len k < len + 4)
IsLeastLevel len glevel_len none = (k : ℕ) → k < 4 → glevel_len k < len + 4

module _ (len : ℕ) (glevel_len : Buffer) (table : IsLevelTable glevel_len) where
  spare : (k : ℕ) → k < 4 → sub32 (glevel_len k) 4 ≡ glevel_len k - 4
  spare k h = omega (arith, table k h)

  -- The levels below k are too small.
  abbrev Small : ℕ → Type 0
  Small n = (k : ℕ) → k < n → glevel_len k < len + 4

  Small-next : (n : ℕ) → n < 4 → Small n → sub32 (glevel_len n) 4 < len → Small (suc n)
  Small-next n h s low k p = elim (Bool-cases (ltb k n)) [
    | inl early ↦ s k (ground (arith, early))
    | inr last ↦ let e : k ≡ n = ground (arith, last) in rw e (omega (arith, low, table n h))
  ]

  -- For a table of four capacities between 4 and 65535, the level calculated for a length is the
  -- least one with four words to spare, and there is none where no level has them.
  pub gap_calc_level-IsLeastLevel : IsLeastLevel len glevel_len (gap_calc_level len glevel_len)
  unfolding gap_calc_level
  gap_calc_level-IsLeastLevel =
      let s0 : Small 0 = λ k p. absurd (omega arith) in
      elim (Bool-cases (leb len (sub32 (glevel_len 0) 4))) [
        | inl fit ↦ rw fit (omega arith, omega (arith, table 0, leb→le len _ fit), s0)
        | inr low0 ↦
            let s1 = Small-next 0 (omega arith) s0 (leb→lt len _ low0) in
            rw low0 (elim (Bool-cases (leb len (sub32 (glevel_len 1) 4))) [
              | inl fit ↦ rw fit (omega arith, omega (arith, table 1, leb→le len _ fit), s1)
              | inr low1 ↦
                  let s2 = Small-next 1 (omega arith) s1 (leb→lt len _ low1) in
                  rw low1 (elim (Bool-cases (leb len (sub32 (glevel_len 2) 4))) [
                    | inl fit ↦ rw fit (omega arith, omega (arith, table 2, leb→le len _ fit), s2)
                    | inr low2 ↦
                        let s3 = Small-next 2 (omega arith) s2 (leb→lt len _ low2) in
                        rw low2 (elim (Bool-cases (leb len (sub32 (glevel_len 3) 4))) [
                          | inl fit ↦
                              rw fit (omega arith, omega (arith, table 3, leb→le len _ fit), s3)
                          | inr low3 ↦ rw low3 (Small-next 3 (omega arith) s3 (leb→lt len _ low3))
                        ])
                  ])
            ])
      ]

-- A well-formed block that is given the level calculated for its length, from a table of four
-- capacities between 4 and 65535, is well formed with that level and the same bits, and has at
-- least four free words, its length and its free words making up the capacity of the level.
pub set_gap_level_lem :
    (buf glevel_len : Buffer) (level : ℕ)
    → IsGap buf
    → IsLevelTable glevel_len
    → gap_calc_level (gap_length buf) glevel_len ≡ some level
    → let out = set_gap_level buf level in
      IsGap out
      × (gap_level out ≡ level)
      × (4 ≤ gap_free_elements out glevel_len)
      × (gap_length out + gap_free_elements out glevel_len ≡ gap_capacity out glevel_len)
      × ((pos : ℕ) → gap_bit out pos ≡ gap_bit buf pos)
unfolding set_gap_level gap_level gap_free_elements gap_length gap_capacity gap_bit
set_gap_level_lem buf glevel_len level g table found =
    let least : IsLeastLevel (gap_length buf) glevel_len (some level) =
      rw found at (gap_calc_level-IsLeastLevel (gap_length buf) glevel_len table) in
    let fit = least.1 in
    let full = table level least.0 in
    let head : u16 (level % 4 * 2 + buf 0 % 2 + buf 0 / 8 * 8)
        ≡ level * 2 + buf 0 % 2 + buf 0 / 8 * 8 =
      omega (arith, least.0, g.header) in
    rw head (
      let last : (level * 2 + buf 0 % 2 + buf 0 / 8 * 8) / 8 ≡ buf 0 / 8 = omega (arith, least.0) in
      let lev : (level * 2 + buf 0 % 2 + buf 0 / 8 * 8) / 2 % 4 ≡ level = omega (arith, least.0) in
      rw last (
        rw lev (
          record {
            header = omega (arith, least.0, g.header);
            nonempty = rw last g.nonempty;
            rising = rw last (λ i h. ground (arith, g.rising i));
            closed = rw last (ground (arith, g.closed, g.nonempty));
          },
          omega (arith, least.0),
          omega (arith, fit, full, g.header),
          omega (arith, fit, full, g.header),
          λ pos. omega (
            arith,
            borders_below_ext buf (store buf 0 (level * 2 + buf 0 % 2 + buf 0 / 8 * 8)) pos
                (last_word buf) (λ i h. ground arith),
          ),
        )))
