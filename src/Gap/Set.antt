-- ===== src/Gap/Set.antt =====
-- src/bmfunc.h: writing one bit of a GAP block in place. A function returns its result beside the
-- new contents of the buffer.
pub mod Insert
pub mod Copy
pub mod Borders
pub mod Branches
pub mod Laws
use bit_magic.Base.{
  ℕ, zero, suc, ◌+◌, ◌-◌, ◌/◌, ◌%◌, Bool, ◌&&◌, Buffer, store, memmove, ltb, leb, ◌==◌,
  if◌then◌else◌, flip_low, add16, sub16, u16,
}
use bit_magic.Gap.Layout.{gap_max_bits, set_last_word}
use bit_magic.Gap.Find.{gap_bfind}

-- `do { *pprev++ = *pcurr++; } while (pcurr < pend);`
unfoldable pub copy_loop : ℕ → Buffer → ℕ → ℕ → ℕ → Buffer
copy_loop zero buf pprev pcurr pend = buf
copy_loop (suc fuel) buf pprev pcurr pend =
    let copied = store buf pprev (buf pcurr) in
    let rest = copy_loop fuel copied (pprev + 1) (pcurr + 1) pend in
    if ltb (pcurr + 1) pend then rest else copied

-- The two lines that end the functions: the length word, and the border that closes the block.
abbrev pub set_end : ℕ × Buffer → Buffer
set_end (end, buf) = store (store buf 0 (set_last_word (buf 0) end)) end (gap_max_bits - 1)

-- The new `end` and the buffer after the branches of `gap_set_value`, from `if (!pos)` on.
-- `curr` is at most `end`, so the size of the second `memmove` does not wrap.
unfoldable pub move_borders : Buffer → ℕ → ℕ → ℕ × Buffer
move_borders buf pos curr =
    let end = u16 (buf 0 / 8) in
    let flipped = store buf 0 (flip_low (buf 0)) in
    let inserted = store (memmove flipped 2 1 (end - 1)) 1 0 in
    let shorter = copy_loop end flipped 1 2 end in
    let longer_prev = store buf (curr - 1) (add16 (buf (curr - 1)) 1) in
    let merged = copy_loop end longer_prev (curr - 1) (curr + 1) end in
    let shorter_curr = store buf curr (sub16 (buf curr) 1) in
    let moved =
      if buf curr == gap_max_bits - 1 then buf else memmove buf (curr + 2) curr (end - curr + 1) in
    let split = store (store moved curr (sub16 pos 1)) (curr + 1) (u16 pos) in
    if pos == 0
    then if buf 1 == 0 then (sub16 end 1, shorter) else (add16 end 1, inserted)
    else if ltb 1 curr && buf (curr - 1) + 1 == pos
    then if longer_prev (curr - 1) == longer_prev curr
      then if curr == end then (sub16 end 1, longer_prev) else (sub16 (sub16 end 1) 1, merged)
      else (end, longer_prev)
    else if buf curr == pos
    then (add16 end (if curr == end then 1 else 0), shorter_curr)
    else (add16 end 2, split)

-- What `gap_set_value` with `is_set` leaves behind.
pub record Written : Type 0 where
  pub end : ℕ
  pub is_set : ℕ
  pub buf : Buffer

unfoldable pub gap_set_value : ℕ → Buffer → ℕ → Written
gap_set_value val buf pos =
    let (curr, found) = gap_bfind buf pos in
    let moved = move_borders buf pos curr in
    if found == val
    then record { end = u16 (buf 0 / 8); is_set = 0; buf = buf }
    else record { end = moved.0; is_set = 1; buf = set_end moved }

-- The overload that does not report whether the bit changed.
unfoldable pub gap_set_value_quiet : ℕ → Buffer → ℕ → ℕ × Buffer
gap_set_value_quiet val buf pos =
    let (curr, is_set) = gap_bfind buf pos in
    let moved = move_borders buf pos curr in
    if is_set == val then (u16 (buf 0 / 8), buf) else (moved.0, set_end moved)

-- For a position above the block's last border but one, as when a sorted list is stored.
unfoldable pub add_borders : Buffer → ℕ → ℕ × Buffer
add_borders buf pos =
    let end = u16 (buf 0 / 8) in
    let curr = end in
    let flipped = store buf 0 (flip_low (buf 0)) in
    let inserted = store (memmove flipped 2 1 (end - 1)) 1 0 in
    let shorter = copy_loop end flipped 1 2 end in
    let longer_prev = store buf (curr - 1) (add16 (buf (curr - 1)) 1) in
    let shorter_curr = store buf curr (sub16 (buf curr) 1) in
    let split = store (store buf curr (sub16 pos 1)) (curr + 1) (u16 pos) in
    if pos == 0
    then if buf 1 == 0 then (sub16 end 1, shorter) else (add16 end 1, inserted)
    else if buf (curr - 1) + 1 == pos && ltb 1 curr
    then if longer_prev (curr - 1) == longer_prev curr
      then (sub16 end 1, longer_prev)
      else (end, longer_prev)
    else if buf curr == pos
    then (add16 end 1, shorter_curr)
    else (add16 end 2, split)

unfoldable pub gap_add_value : Buffer → ℕ → ℕ × Buffer
gap_add_value buf pos = let moved = add_borders buf pos in (moved.0, set_end moved)
