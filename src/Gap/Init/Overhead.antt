-- ===== src/Gap/Init/Overhead.antt =====
-- src/bmfunc.h: the memory that blocks of given lengths leave unused.
use bit_magic.Base.{
  ℕ, ◌+◌, ◌-◌, ◌%◌, ◌^◌, ◌<◌, ◌≡◌, ◌∙◌, refl, Option, none, some, List, [], ◌∷◌, Buffer, arith,
  add32, sub32,
}
use bit_magic.Gap.Init.{gap_calc_level, overhead_loop, gap_overhead}
use bit_magic.Gap.Init.Levels.{IsLeastLevel, IsLevelTable, gap_calc_level-IsLeastLevel}

-- The unused words of a block that has a level, with those of others, as unbounded numbers.
abbrev unused : Buffer → ℕ → Option ℕ → Option ℕ → Option ℕ
unused glevel_len len none others = none
unused glevel_len len (some level) none = none
unused glevel_len len (some level) (some words) = some (glevel_len level - len + words)

unfoldable pub total_unused : List ℕ → Buffer → Option ℕ
total_unused [] glevel_len = some 0
total_unused (len ∷ rest) glevel_len =
    unused glevel_len len (gap_calc_level len glevel_len) (total_unused rest glevel_len)

-- A sum as the 32-bit counter holds it.
abbrev counted_from : ℕ → Option ℕ → Option ℕ
counted_from overhead none = none
counted_from overhead (some words) = some ((overhead + words) % 2 ^ 32)

one_more :
    (glevel_len : Buffer) (len level overhead : ℕ) (others : Option ℕ)
    → IsLevelTable glevel_len
    → IsLeastLevel len glevel_len (some level)
    → counted_from (add32 overhead (sub32 (glevel_len level) len)) others
      ≡ counted_from overhead (unused glevel_len len (some level) others)
one_more glevel_len len level overhead none table least = refl
one_more glevel_len len level overhead (some words) table least =
    let e : (add32 overhead (sub32 (glevel_len level) len) + words) % 2 ^ 32
        ≡ (overhead + (glevel_len level - len + words)) % 2 ^ 32 =
      omega (arith, least.1, table level least.0) in
    rw e refl

overhead_step :
    (lengths : List ℕ) (glevel_len : Buffer) (len overhead : ℕ) (others found : Option ℕ)
    → IsLevelTable glevel_len
    → ((o : ℕ) → o < 2 ^ 32 → overhead_loop lengths glevel_len o ≡ counted_from o others)
    → IsLeastLevel len glevel_len found
    → elim found as (λ o. Option ℕ) [
      | none ↦ none
      | some level ↦
          overhead_loop lengths glevel_len (add32 overhead (sub32 (glevel_len level) len))
    ]
      ≡ counted_from overhead (unused glevel_len len found others)
overhead_step lengths glevel_len len overhead others none table ih least = refl
overhead_step lengths glevel_len len overhead others (some level) table ih least =
    ih (add32 overhead (sub32 (glevel_len level) len)) (omega arith)
    ∙ one_more glevel_len len level overhead others table least

overhead_loop_lem :
    (lengths : List ℕ) (glevel_len : Buffer) (overhead : ℕ)
    → IsLevelTable glevel_len
    → overhead < 2 ^ 32
    → overhead_loop lengths glevel_len overhead
      ≡ counted_from overhead (total_unused lengths glevel_len)
unfolding overhead_loop total_unused
overhead_loop_lem [] glevel_len overhead table h =
    let e : (overhead + 0) % 2 ^ 32 ≡ overhead = omega arith in rw e refl
overhead_loop_lem (len ∷ rest) glevel_len overhead table h =
    overhead_step rest glevel_len len overhead (total_unused rest glevel_len)
      (gap_calc_level len glevel_len) table (λ o p. overhead_loop_lem rest glevel_len o table p)
      (gap_calc_level-IsLeastLevel len glevel_len table)

-- The overhead of an array of lengths is the sum of the unused words, modulo 2^32, and there is none
-- where a length fits no level.
pub gap_overhead_lem :
    (lengths : List ℕ) (glevel_len : Buffer)
    → IsLevelTable glevel_len
    → gap_overhead lengths glevel_len ≡ counted_from 0 (total_unused lengths glevel_len)
unfolding gap_overhead
gap_overhead_lem lengths glevel_len table =
    overhead_loop_lem lengths glevel_len 0 table (omega arith)
