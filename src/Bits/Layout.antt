-- ===== src/Bits/Layout.antt =====
-- src/bmfunc.h: the words and the bits of a bit block, and what a write changes in it.
use bit_magic.Base.{
  ℕ, ◌+◌, ◌*◌, ◌/◌, ◌%◌, ◌^◌, ◌≤◌, ◌<◌, ◌≡◌, ◌&&◌, inl, inr, Buffer, store, ltb, leb, ◌==◌,
  if◌then◌else◌, arith, Bool-cases, ==→eq, ==→ne, bit_at, not32, bit_and, bit_or,
}

abbrev pub set_block_size : ℕ
set_block_size = 2048

abbrev pub IsWords : Buffer → Type 0
IsWords block = (k : ℕ) → block k < 2 ^ 32

-- The bit that a block holds at a position.
unfoldable pub block_bit : Buffer → ℕ → ℕ
block_bit block pos = bit_at (block (pos / 32)) (pos % 32)

-- `& set_block_mask`, `>> set_word_shift` and `& set_word_mask`
abbrev pub word_of : ℕ → ℕ
word_of bitpos = bitpos % 2 ^ 16 / 32

abbrev pub place_of : ℕ → ℕ
place_of bitpos = bitpos % 2 ^ 16 % 32

unfoldable pub set_bit : Buffer → ℕ → Buffer
set_bit dest bitpos =
    store dest (word_of bitpos) (bit_or (dest (word_of bitpos)) (2 ^ place_of bitpos))

unfoldable pub clear_bit : Buffer → ℕ → Buffer
clear_bit dest bitpos =
    store dest (word_of bitpos) (bit_and (dest (word_of bitpos)) (not32 (2 ^ place_of bitpos)))

unfoldable pub test_bit : Buffer → ℕ → ℕ
test_bit block bitpos = block (word_of bitpos) / 2 ^ place_of bitpos % 2

-- `out` has f of the bits of `dest` in [from, to), and the same bits else.
pub record Changes (f : ℕ → ℕ) (dest out : Buffer) (from to : ℕ) : Type 0 where
  pub words : IsWords out
  pub bits :
      (pos : ℕ)
      → block_bit out pos
        ≡ (if leb from pos && ltb pos to then f (block_bit dest pos) else block_bit dest pos)

-- One word is written, and between two places of it the digits change.
pub word_change :
    (f : ℕ → ℕ) (dest : Buffer) (d v lo hi from to : ℕ)
    → from ≡ d * 32 + lo
    → to ≡ d * 32 + hi
    → IsWords dest
    → hi ≤ 32
    → v < 2 ^ 32
    → ((i : ℕ)
        → i < 32
        → bit_at v i ≡ (if leb lo i && ltb i hi then f (bit_at (dest d) i) else bit_at (dest d) i))
    → Changes f dest (store dest d v) from to
unfolding block_bit
word_change f dest d v lo hi from to start end w fits small h = record {
  words = λ k. ground (arith, w k, small);
  bits = λ pos. elim (Bool-cases (pos / 32 == d)) [
    | inl here ↦ let e = ==→eq (pos / 32) d here in rw e (ground (arith, h (pos % 32)))
    | inr there ↦ let ne = ==→ne (pos / 32) d there in rw there (ground arith)
  ];
}

pub no_change :
    (f : ℕ → ℕ) (dest : Buffer) (a b : ℕ) → b ≤ a → IsWords dest → Changes f dest dest a b
no_change f dest a b none w = record { words = w; bits = λ pos. ground arith }

-- Two changes that follow on.
pub change_both :
    (f : ℕ → ℕ) {x y z : Buffer} (a b c : ℕ)
    → a ≤ b
    → b ≤ c
    → Changes f x y a b
    → Changes f y z b c
    → Changes f x z a c
change_both f a b c p q first second = record {
  words = second.words;
  bits = λ pos. ground (arith, first.bits pos, second.bits pos);
}
