-- ===== src/Gap/Set/Borders.antt =====
-- src/bmfunc.h: what each branch of `gap_set_value` does to the borders: the block stays well formed,
-- and exactly the bit at the position changes.
use bit_magic.Base.{
  ℕ, suc, ◌+◌, ◌-◌, ◌*◌, ◌/◌, ◌%◌, ◌≤◌, ◌<◌, ◌≡◌, ◌⊎◌, inl, inr, Buffer, ltb, ◌==◌, if◌then◌else◌,
  arith, flip_low, Bool-cases, ltb→lt, ltb→le,
}
use bit_magic.Gap.Layout.{gap_max_bits, borders_below, gap_bit, last_word, IsGap, IsRising}
use bit_magic.Gap.Order.{border_last, border_inner}
use bit_magic.Gap.Set.{set_end}
use bit_magic.Gap.Set.Insert.{
  below, Inserts2, Inserts1, Replaces, borders_below-Inserts2, borders_below-Inserts1,
  borders_below-Replaces, Inserts2-IsRising, Inserts2-IsRising_narrow, Inserts1-IsRising,
  Inserts1-IsRising_narrow, Replaces-IsRising,
}

-- `out` is a block of `end` borders and of the level of `buf`, with the bit at `pos` turned over.
pub record IsFlipped (buf : Buffer) (pos end : ℕ) (out : Buffer) : Type 0 where
  pub gap : IsGap out
  pub length : end ≡ last_word out
  pub level : out 0 / 2 % 4 ≡ buf 0 / 2 % 4
  pub bits :
      (q : ℕ)
      → q < gap_max_bits
      → gap_bit out q ≡ (if q == pos then 1 - gap_bit buf q else gap_bit buf q)

-- The parity that the new borders have to show.
abbrev Toggles : Buffer → ℕ → ℕ → Buffer → Type 0
Toggles buf pos end out =
    (q : ℕ)
    → q < gap_max_bits
    → (out 0 + borders_below out end q) % 2
      ≡ (buf 0 + borders_below buf (last_word buf) q + (if q == pos then 1 else 0)) % 2

set_end-header : (b : Buffer) (e : ℕ) → 0 < e → e < 8192 → set_end (e, b) 0 ≡ b 0 % 8 + e * 8
set_end-header b e some small = ground arith

set_end-last : (b : Buffer) (e : ℕ) → 0 < e → e < 8192 → last_word (set_end (e, b)) ≡ e
set_end-last b e some small = rw (set_end-header b e some small) (omega arith)

set_end-closed : (b : Buffer) (e : ℕ) → set_end (e, b) e ≡ 65535
set_end-closed b e = ground arith

-- Borders that rise and toggle as asked for make a block of them.
pub close_block :
    (buf b : Buffer) (pos e : ℕ)
    → 0 < e
    → e < 8192
    → b 0 / 2 % 4 ≡ buf 0 / 2 % 4
    → IsRising (set_end (e, b)) e
    → Toggles buf pos e (set_end (e, b))
    → IsFlipped buf pos e (set_end (e, b))
unfolding gap_bit
close_block buf b pos e some small same rise toggles =
    let head = set_end-header b e some small in
    let last = set_end-last b e some small in
    record {
      gap = record {
        header = omega (arith, head);
        nonempty = omega (arith, last);
        rising = rw last rise;
        closed = rw last (set_end-closed b e);
      };
      length = omega (arith, last);
      level = omega (arith, head);
      bits = λ q h. rw last (ground (arith, toggles q h));
    }

pub borders_below-suc :
    (b : Buffer) (n q : ℕ) → borders_below b (suc n) q ≡ borders_below b n q + below (b (suc n)) q
unfolding borders_below
borders_below-suc b n q = ground arith

-- One lemma for each way in which the borders change; b is the buffer before its end is closed.
module _ (buf b : Buffer) (pos : ℕ) (g : IsGap buf) (hp : pos < gap_max_bits) where
  -- Two borders more: a gap is split around the position.
  pub split_IsFlipped :
      (j : ℕ)
      → last_word buf < 8190
      → j < last_word buf
      → 0 < pos
      → b 0 ≡ buf 0
      → Inserts2 buf (set_end (suc (suc (last_word buf)), b)) j (last_word buf) (pos - 1) pos
      → ((i : ℕ) → suc i ≡ j → buf (suc i) < pos - 1)
      → pos < buf (suc j)
      → IsFlipped buf pos (suc (suc (last_word buf))) (set_end (suc (suc (last_word buf)), b))
  split_IsFlipped j room inside pos_pos head shape before after =
      close_block buf b pos (suc (suc (last_word buf))) (omega arith) (omega arith) (omega arith)
        (Inserts2-IsRising shape g.rising (omega arith) before (omega arith) (λ h. after))
        (λ q h. ground (
          arith,
          set_end-header b (suc (suc (last_word buf))),
          borders_below-Inserts2 shape q (last_word buf),
        ))

  -- Two borders less: a gap of one bit is merged with its neighbours.
  pub merge_IsFlipped :
      (j e : ℕ)
      → suc (suc e) ≡ last_word buf
      → 0 < e
      → j ≤ e
      → 0 < pos
      → b 0 ≡ buf 0
      → Inserts2 (set_end (e, b)) buf j e (pos - 1) pos
      → IsFlipped buf pos e (set_end (e, b))
  merge_IsFlipped j e length some le pos_pos head shape =
      close_block buf b pos e some (omega (arith, g.header)) (omega arith)
        (Inserts2-IsRising_narrow shape (rw length g.rising))
        (λ q h. ground (arith, set_end-header b e some, g.header, borders_below-Inserts2 shape q e))

  -- The first bit leaves its gap, or joins the next.
  pub front_IsFlipped :
      last_word buf < 8190
      → pos ≡ 0
      → b 0 ≡ flip_low (buf 0)
      → Inserts1 buf (set_end (suc (last_word buf), b)) (last_word buf) 0
      → 0 < buf 1
      → IsFlipped buf pos (suc (last_word buf)) (set_end (suc (last_word buf), b))
  front_IsFlipped room zero_pos head shape first =
      close_block buf b pos (suc (last_word buf)) (omega arith) (omega arith) (omega arith)
        (Inserts1-IsRising shape g.rising (λ h. first))
        (λ q h. ground (
          arith,
          set_end-header b (suc (last_word buf)),
          borders_below-Inserts1 shape q (last_word buf),
        ))

  pub unfront_IsFlipped :
      (e : ℕ)
      → suc e ≡ last_word buf
      → 0 < e
      → pos ≡ 0
      → b 0 ≡ flip_low (buf 0)
      → Inserts1 (set_end (e, b)) buf e 0
      → IsFlipped buf pos e (set_end (e, b))
  unfront_IsFlipped e length some zero_pos head shape =
      close_block buf b pos e some (omega (arith, g.header)) (omega arith)
        (Inserts1-IsRising_narrow shape (rw length g.rising))
        (λ q h. ground (arith, set_end-header b e some, g.header, borders_below-Inserts1 shape q e))

  -- A border moves by one, over the position.
  pub move_IsFlipped :
      (j x : ℕ)
      → j < last_word buf
      → ((x ≡ pos) × (suc (buf (suc j)) ≡ pos)) ⊎ ((suc x ≡ pos) × (buf (suc j) ≡ pos))
      → b 0 ≡ buf 0
      → Replaces buf (set_end (last_word buf, b)) j (last_word buf) x
      → ((i : ℕ) → suc i ≡ j → buf (suc i) < x)
      → (suc j < last_word buf → x < buf (suc (suc j)))
      → IsFlipped buf pos (last_word buf) (set_end (last_word buf, b))
  move_IsFlipped j x inside by_one head shape before after =
      close_block buf b pos (last_word buf) g.nonempty (omega (arith, g.header)) (omega arith)
        (Replaces-IsRising shape g.rising inside before after)
        (λ q h. ground (
          arith,
          set_end-header b (last_word buf) g.nonempty,
          g.header,
          borders_below-Replaces shape q (last_word buf) inside,
        ))

  -- The last bit leaves its gap: the old last border moves, and a new one closes the block.
  pub open_IsFlipped :
      (j : ℕ)
      → last_word buf < 8190
      → suc j ≡ last_word buf
      → pos ≡ 65535
      → b 0 ≡ buf 0
      → Replaces buf (set_end (suc (last_word buf), b)) j (last_word buf) 65534
      → ((i : ℕ) → suc i ≡ j → buf (suc i) < 65534)
      → IsFlipped buf pos (suc (last_word buf)) (set_end (suc (last_word buf), b))
  open_IsFlipped j room length top head shape before =
      close_block buf b pos (suc (last_word buf)) (omega arith) (omega arith) (omega arith) rise
        (λ q h. ground (
          arith,
          set_end-header b (suc (last_word buf)),
          set_end-closed b (suc (last_word buf)),
          border_last g j length,
          borders_below-suc (set_end (suc (last_word buf), b)) (last_word buf) q,
          borders_below-Replaces shape q (last_word buf),
        ))
    where
      rise : IsRising (set_end (suc (last_word buf), b)) (suc (last_word buf))
      rise i h = elim (Bool-cases (ltb (suc i) (last_word buf))) [
        | inl early ↦
            Replaces-IsRising shape g.rising (omega arith) before (λ h. absurd (omega arith)) i
              (ltb→lt (suc i) (last_word buf) early)
        | inr last ↦
            let at : i ≡ j = omega (arith, ltb→le (suc i) (last_word buf) last) in
            let end : suc (suc j) ≡ suc (last_word buf) = omega arith in
            rw at (ground (arith, shape.at, end, set_end-closed b (suc (last_word buf))))
      ]

  -- The last bit joins the gap before it: one border less, and the one before closes the block.
  pub shut_IsFlipped :
      (j : ℕ)
      → suc (suc j) ≡ last_word buf
      → pos ≡ 65535
      → b 0 ≡ buf 0
      → Replaces buf (set_end (suc j, b)) j (suc j) 65535
      → buf (suc j) ≡ 65534
      → IsFlipped buf pos (suc j) (set_end (suc j, b))
  shut_IsFlipped j length top head shape before =
      close_block buf b pos (suc j) (omega arith) (omega (arith, g.header)) (omega arith)
        (Replaces-IsRising shape (λ i h. g.rising i (omega arith)) (omega arith)
          (λ i e. omega (arith, border_inner g i (omega arith))) (λ h. absurd (omega arith)))
        (λ q h. ground (
          arith,
          set_end-header b (suc j),
          g.header,
          length,
          border_last g (suc j) length,
          borders_below-suc buf (suc j) q,
          borders_below-Replaces shape q (suc j),
        ))
