-- ===== src/Gap/Array/Same.antt =====
-- Blocks with the same borders hold the same bits, whatever the level in the header.
use bit_magic.Base.{ℕ, suc, ◌-◌, ◌^◌, ◌<◌, ◌≡◌, Buffer, arith}
use bit_magic.Gap.Layout.{first_bit, last_word, gap_bit, IsGap}
use bit_magic.Gap.Set.Insert.{borders_below_ext}

module _ (a b : Buffer) (g : IsGap a) (header : b 0 < 2 ^ 16) (size : last_word b ≡ last_word a)
    (first : first_bit b ≡ first_bit a) (words : (k : ℕ) → b (suc k) ≡ a (suc k)) where
  pub same-IsGap : IsGap b
  same-IsGap = record {
    header = header;
    nonempty = rw size g.nonempty;
    rising = rw size (λ i h. rw (words i) (rw (words (suc i)) (g.rising i h)));
    closed = rw size last;
  }
    where
      last : b (last_word a) ≡ 65535
      last = ground (arith, words (last_word a - 1), g.closed, g.nonempty)

  pub same_bits : (pos : ℕ) → gap_bit b pos ≡ gap_bit a pos
  unfolding gap_bit
  same_bits pos =
      rw size (omega (arith, first, borders_below_ext a b pos (last_word a) (λ i h. words i)))
