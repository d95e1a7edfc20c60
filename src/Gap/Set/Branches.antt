-- ===== src/Gap/Set/Branches.antt =====
-- src/bmfunc.h: the buffers that the branches of `gap_set_value` build have the borders that
-- Borders.antt asks for.
use bit_magic.Base.{
  ℕ, suc, ◌+◌, ◌-◌, ◌≤◌, ◌<◌, ◌≡◌, ◌≢◌, inl, inr, refl, Buffer, store, memmove, ◌==◌, if◌then◌else◌,
  arith, flip_low,
}
use bit_magic.Gap.Layout.{gap_max_bits, last_word, IsGap, gap_start}
use bit_magic.Gap.Order.{border_last, border_top, border_inner}
use bit_magic.Gap.Set.{set_end, copy_loop}
use bit_magic.Gap.Set.Copy.{copy_loop_lem}
use bit_magic.Gap.Set.Borders.{
  IsFlipped, split_IsFlipped, merge_IsFlipped, front_IsFlipped, unfront_IsFlipped, move_IsFlipped,
  open_IsFlipped, shut_IsFlipped,
}

module _ (buf : Buffer) (pos : ℕ) (g : IsGap buf) (room : last_word buf < 8190)
    (hp : pos < gap_max_bits) where
  abbrev end : ℕ
  end = last_word buf

  abbrev flipped : Buffer
  flipped = store buf 0 (flip_low (buf 0))

  -- `if (buf[1])`: a gap of one bit is put in front.
  pub insert_front :
      pos ≡ 0
      → buf 1 ≢ 0
      → IsFlipped buf pos (suc end) (set_end (suc end, store (memmove flipped 2 1 (end - 1)) 1 0))
  insert_front first some =
      front_IsFlipped buf (store (memmove flipped 2 1 (end - 1)) 1 0) pos g hp room first
        (ground arith)
        (record { at = ground (arith, g.nonempty); high = λ i h. ground (arith, border_last g i) })
        (omega arith)

  -- `goto copy_gaps` from the first bit: the gap of one bit in front is taken away.
  pub delete_front :
      pos ≡ 0
      → buf 1 ≡ 0
      → IsFlipped buf pos (end - 1) (set_end (end - 1, copy_loop end flipped 1 2 end))
  delete_front first none =
      unfront_IsFlipped buf (copy_loop end flipped 1 2 end) pos g hp (end - 1)
        (omega (arith, g.nonempty)) (omega (arith, more)) first
        (ground (arith, more, copy_loop_lem end flipped 1 2 end 0))
        (record {
          at = none;
          high = λ i h.
              ground
                (arith, more, border_last g (suc i), copy_loop_lem end flipped 1 2 end (suc i));
        })
    where
      more : 1 < end
      more = ground (arith, border_last g 0, g.nonempty)

  -- Left border bit, with a gap left over: the border before moves up.
  pub grow_prev :
      (k : ℕ)
      → suc k < end
      → suc (buf (suc k)) ≡ pos
      → pos < buf (suc (suc k))
      → IsFlipped buf pos end (set_end (end, store buf (suc k) pos))
  grow_prev k inside left more =
      move_IsFlipped buf (store buf (suc k) pos) pos g hp k pos (omega arith) (inl (refl, left))
        (ground arith)
        (record { at = ground arith; others = λ i h ne. ground (arith, border_last g i) })
        (λ i e. ground (arith, g.rising i)) (λ h. more)

  -- Left border bit, and the gap is gone: its two borders are taken away.
  pub merge_gaps :
      (k : ℕ)
      → suc (suc k) < end
      → suc (buf (suc k)) ≡ pos
      → pos ≡ buf (suc (suc k))
      → IsFlipped buf pos
          (end - 2)
          (set_end (end - 2, copy_loop end (store buf (suc k) pos) (suc k) (suc (suc (suc k))) end))
  merge_gaps k inside left same =
      merge_IsFlipped buf b pos g hp k (end - 2) (omega arith) (omega arith) (omega arith)
        (omega arith)
        (ground
          (arith, copy_loop_lem end (store buf (suc k) pos) (suc k) (suc (suc (suc k))) end 0))
        (record {
          low = λ i h. ground (
            arith,
            copy_loop_lem end (store buf (suc k) pos) (suc k) (suc (suc (suc k))) end (suc i),
          );
          at1 = omega arith;
          at2 = omega arith;
          high = λ i p q. ground (
            arith,
            border_last g (suc (suc i)),
            copy_loop_lem end (store buf (suc k) pos) (suc k) (suc (suc (suc k))) end (suc i),
          );
        })
    where
      b : Buffer
      b = copy_loop end (store buf (suc k) pos) (suc k) (suc (suc (suc k))) end

  -- The same where the gap is the last one.
  pub merge_last :
      (k : ℕ)
      → suc (suc k) ≡ end
      → suc (buf (suc k)) ≡ pos
      → pos ≡ buf (suc (suc k))
      → IsFlipped buf pos (end - 1) (set_end (end - 1, store buf (suc k) pos))
  merge_last k last left same =
      let top = border_last g (suc k) last in
      let fewer : end - 1 ≡ suc k = omega arith in
      rw fewer (
        shut_IsFlipped buf (store buf (suc k) pos) pos g hp k last (omega arith) (ground arith)
          (record { at = ground arith; others = λ i h ne. ground arith }) (omega arith))

  -- Rightmost bit of a gap: its border moves down.
  pub shrink_curr :
      (j : ℕ)
      → suc j < end
      → gap_start buf j ≤ pos
      → 0 < pos
      → buf (suc j) ≡ pos
      → ((i : ℕ) → suc i ≡ j → buf (suc i) + 1 ≢ pos)
      → IsFlipped buf pos end (set_end (end, store buf (suc j) (pos - 1)))
  shrink_curr j inside start some right other =
      move_IsFlipped buf (store buf (suc j) (pos - 1)) pos g hp j (pos - 1) (omega arith)
        (inr (omega arith, right)) (ground arith)
        (record { at = ground arith; others = λ i h ne. ground (arith, border_last g i) })
        (λ i e. ground (arith, g.rising i, other i e)) (λ h. omega (arith, g.rising j inside))

  pub open_last :
      (j : ℕ)
      → suc j ≡ end
      → buf (suc j) ≡ pos
      → ((i : ℕ) → suc i ≡ j → buf (suc i) + 1 ≢ pos)
      → IsFlipped buf pos (suc end) (set_end (suc end, store buf (suc j) (pos - 1)))
  open_last j last right other =
      let top = border_last g j last in
      let down : pos - 1 ≡ 65534 = omega arith in
      rw down (
        open_IsFlipped buf (store buf (suc j) 65534) pos g hp j room last (omega arith)
          (ground arith) (record { at = ground arith; others = λ i h ne. ground arith })
          (λ i e. ground (arith, g.rising i, other i e)))

  -- The worst case: the gap is split, and the borders behind it make room.
  pub split_gap :
      (j : ℕ)
      → j < end
      → gap_start buf j ≤ pos
      → 0 < pos
      → pos < buf (suc j)
      → ((i : ℕ) → suc i ≡ j → buf (suc i) + 1 ≢ pos)
      → IsFlipped buf pos (suc (suc end)) (
          set_end (
            suc (suc end),
            store
                (store
                  (if buf (suc j) == gap_max_bits - 1
                    then buf
                    else memmove buf (suc j + 2) (suc j) (end - suc j + 1))
                  (suc j)
                  (pos - 1))
                (suc j + 1)
                pos,
          ))
  split_gap j inside start some right other =
      split_IsFlipped buf (store (store m (suc j) (pos - 1)) (suc j + 1) pos) pos g hp j room inside
        some (ground arith)
        (record {
          low = λ i h. ground arith;
          at1 = ground arith;
          at2 = ground arith;
          high = λ i p q. ground (arith, border_last g i, border_inner g j, border_top g i);
        })
        (λ i e. ground (arith, other i e)) right
    where
      m : Buffer
      m =
          if buf (suc j) == gap_max_bits - 1
          then buf
          else memmove buf (suc j + 2) (suc j) (end - suc j + 1)
