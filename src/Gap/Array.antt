-- ===== src/Gap/Array.antt =====
-- src/bmfunc.h: a GAP block from a sorted array of positions, and the number of its gaps.
pub mod Same
pub mod Pending
pub mod Laws
pub mod Gaps
use bit_magic.Base.{
  ℕ, zero, suc, ◌+◌, ◌-◌, ◌*◌, ◌/◌, ◌%◌, Buffer, store, ltb, ◌==◌, if◌then◌else◌, true, u16, add16,
  add32, sub16,
}
use bit_magic.Gap.Layout.{gap_max_bits, set_last_word}

-- `for (i = 1; i < len; ++i)`. What is returned is the buffer, `pcurr` and `acc`.
unfoldable pub array_loop : ℕ → Buffer → Buffer → ℕ → ℕ → ℕ → ℕ → ℕ → Buffer × ℕ × ℕ
array_loop zero buf arr len i pcurr prev acc = (buf, pcurr, acc)
array_loop (suc fuel) buf arr len i pcurr prev acc =
    let curr = arr i in
    let written = store (store buf pcurr acc) (pcurr + 1) (sub16 curr 1) in
    let longer = array_loop fuel buf arr len (i + 1) pcurr curr (add16 acc 1) in
    let next = array_loop fuel written arr len (i + 1) (pcurr + 2) curr curr in
    if ltb i len then if curr == prev + 1 then longer else next else (buf, pcurr, acc)

-- The first lines: the header, and the first gap where the array does not start with 0.
unfoldable pub array_start : Buffer → Buffer → Buffer × ℕ
array_start buf arr =
    let header = u16 (buf 0 / 2 % 4 * 2 + 8) in
    if arr 0 == 0
    then (store buf 0 (add16 header 1), 1)
    else (store (store buf 0 header) 1 (sub16 (arr 0) 1), 2)

-- The last lines, with what is returned.
unfoldable pub array_end : Buffer → ℕ → ℕ → ℕ × Buffer
array_end buf pcurr acc =
    let ended = store buf pcurr acc in
    let full = acc == gap_max_bits - 1 in
    let gap_len = if full then pcurr else pcurr + 1 in
    let closed = if full then ended else store ended (pcurr + 1) (gap_max_bits - 1) in
    (gap_len + 1, store closed 0 (set_last_word (closed 0) gap_len))

-- The array has `len` elements, so as many rounds are enough.
unfoldable pub gap_set_array : Buffer → Buffer → ℕ → ℕ × Buffer
gap_set_array buf arr len =
    let start = array_start buf arr in
    let done = array_loop len start.0 arr len 1 start.1 (arr 0) (arr 0) in
    array_end done.0 done.1 done.2

-- The loop that counts the gaps: `if (curr != prev + 1) gap_count += 2;`.
unfoldable pub gaps_loop : ℕ → Buffer → ℕ → ℕ → ℕ → ℕ → ℕ
gaps_loop zero arr len i prev gap_count = gap_count
gaps_loop (suc fuel) arr len i prev gap_count =
    let joined = gaps_loop fuel arr len (i + 1) (arr i) gap_count in
    let apart = gaps_loop fuel arr len (i + 1) (arr i) (add32 gap_count 2) in
    if ltb i len then if arr i == prev + 1 then joined else apart else gap_count

unfoldable pub bit_array_compute_gaps : Buffer → ℕ → ℕ
bit_array_compute_gaps arr len =
    gaps_loop len arr len 1 (arr 0) (if ltb 0 (arr 0) then add32 1 1 else 1)
