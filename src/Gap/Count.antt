-- ===== src/Gap/Count.antt =====
-- src/bmfunc.h: the population counts of a GAP block and the search for the n-th set bit. The
-- counters are `unsigned`, and the masks are those of the branchless code.
pub mod Before
pub mod Laws
pub mod Range
pub mod To
pub mod Rank
use bit_magic.Base.{
  ℕ, zero, suc, ◌+◌, ◌-◌, ◌/◌, ◌%◌, Option, none, some, Bool, true, false, Buffer, ltb, leb, ◌==◌,
  if◌then◌else◌, add32, sub32, not32, mask32, bit_and,
}
use bit_magic.Gap.Find.{gap_bfind}

-- `for (; pcurr <= pend; pcurr += 2) bits_counter += *pcurr - *(pcurr - 1);`
unfoldable pub count_loop : ℕ → Buffer → ℕ → ℕ → ℕ → ℕ
count_loop zero buf pend pcurr bits_counter = bits_counter
count_loop (suc fuel) buf pend pcurr bits_counter =
    let rest =
      count_loop fuel buf pend (pcurr + 2)
        (add32 bits_counter (sub32 (buf pcurr) (buf (pcurr - 1)))) in
    if leb pcurr pend then rest else bits_counter

-- A `dsize` of 0 means the size that the header holds. Every round moves on, so `dsize` rounds are
-- enough.
unfoldable pub gap_bit_count : Buffer → ℕ → ℕ
gap_bit_count buf dsize =
    let pend = if dsize == 0 then buf 0 / 8 else dsize in
    if buf 0 % 2 == 1
    then count_loop pend buf pend 3 (add32 0 (buf 1 + 1))
    else count_loop pend buf pend 2 0

-- The waves of four gaps that the unrolled count takes while `i < waves`.
unfoldable pub wave_loop : ℕ → Buffer → ℕ → ℕ → ℕ → ℕ → ℕ × ℕ
wave_loop zero buf waves i pcurr cnt = (pcurr, cnt)
wave_loop (suc fuel) buf waves i pcurr cnt =
    let cnt1 = add32 cnt (sub32 (buf pcurr) (buf (pcurr - 1))) in
    let cnt2 = add32 cnt1 (sub32 (buf (pcurr + 2)) (buf (pcurr + 2 - 1))) in
    let cnt3 = add32 cnt2 (sub32 (buf (pcurr + 4)) (buf (pcurr + 4 - 1))) in
    let cnt4 = add32 cnt3 (sub32 (buf (pcurr + 6)) (buf (pcurr + 6 - 1))) in
    let rest = wave_loop fuel buf waves (i + 8) (pcurr + 8) cnt4 in
    if ltb i waves then rest else (pcurr, cnt)

-- The portable branch of the build.
unfoldable pub gap_bit_count_unr : Buffer → ℕ
gap_bit_count_unr buf =
    let dsize = buf 0 / 8 in
    let waves = (dsize - 2) / 8 in
    let start : ℕ × ℕ = if buf 0 % 2 == 1 then (3, add32 0 (buf 1 + 1)) else (2, 0) in
    let unrolled : ℕ × ℕ =
      if ltb 10 dsize then wave_loop waves buf waves 0 start.0 start.1 else start in
    count_loop dsize buf dsize unrolled.0 unrolled.1

-- The loop of the count of a range, whose last line follows it.
unfoldable pub range_loop : ℕ → Buffer → ℕ → ℕ → ℕ → ℕ → ℕ → ℕ → ℕ
range_loop zero buf right pend pcurr prev_gap is_set bits_counter = bits_counter
range_loop (suc fuel) buf right pend pcurr prev_gap is_set bits_counter =
    let counted = add32 bits_counter (bit_and (sub32 (buf pcurr) prev_gap) is_set) in
    let rest = range_loop fuel buf right pend (pcurr + 1) (buf pcurr) (not32 is_set) counted in
    if ltb (buf pcurr) right
    then if pcurr == pend then counted else rest
    else add32 bits_counter (bit_and (sub32 right prev_gap) is_set)

unfoldable pub gap_bit_count_range : Buffer → ℕ → ℕ → ℕ
gap_bit_count_range buf left right =
    let pend = buf 0 / 8 in
    let (start_pos, found) = gap_bfind buf left in
    let is_set = mask32 found in
    if leb right (buf start_pos)
    then bit_and (add32 (sub32 right left) 1) is_set
    else range_loop pend buf right pend (start_pos + 1) (buf start_pos) (not32 is_set)
        (add32 0 (bit_and (add32 (sub32 (buf start_pos) left) 1) is_set))

-- `is_corrected` is the Boolean cast to `unsigned`.
unfoldable pub count_to_loop : ℕ → Buffer → ℕ → ℕ → ℕ → ℕ → ℕ → ℕ → ℕ → ℕ
count_to_loop zero buf right pend is_corrected pcurr prev_gap is_set bits_counter = bits_counter
count_to_loop (suc fuel) buf right pend is_corrected pcurr prev_gap is_set bits_counter =
    let counted = add32 bits_counter (bit_and (sub32 (buf pcurr) prev_gap) is_set) in
    let rest =
      count_to_loop fuel buf right pend is_corrected (pcurr + 1) (buf pcurr) (not32 is_set)
        counted in
    if ltb (buf pcurr) right
    then if pcurr == pend then sub32 counted (bit_and is_corrected is_set) else rest
    else sub32 (add32 bits_counter (bit_and (sub32 right prev_gap) is_set))
        (bit_and is_corrected is_set)

unfoldable pub gap_bit_count_to : Buffer → ℕ → Bool → ℕ
gap_bit_count_to buf right is_corrected =
    let pend = buf 0 / 8 in
    let corrected = if is_corrected then 1 else 0 in
    let is_set = mask32 (buf 0 % 2) in
    if leb right (buf 1)
    then sub32 (bit_and (add32 right 1) is_set) (bit_and corrected is_set)
    else count_to_loop pend buf right pend corrected 2 (buf 1) (not32 is_set)
        (add32 0 (bit_and (add32 (buf 1) 1) is_set))

-- What is returned, and `nbit_pos` where it is set.
unfoldable pub rank_loop : ℕ → Buffer → ℕ → ℕ → ℕ → ℕ → ℕ → ℕ × Option ℕ
rank_loop zero buf pend rank pcurr prev_gap is_set = (rank, none)
rank_loop (suc fuel) buf pend rank pcurr prev_gap is_set =
    let bits_counter = bit_and (sub32 (buf pcurr) prev_gap) is_set in
    let rest =
      rank_loop fuel buf pend (sub32 rank bits_counter) (pcurr + 1) (buf pcurr) (not32 is_set) in
    if leb pcurr pend
    then if leb rank bits_counter then (0, some (add32 prev_gap rank)) else rest
    else (rank, none)

unfoldable pub gap_find_rank : Buffer → ℕ → ℕ → ℕ × Option ℕ
gap_find_rank block rank nbit_from =
    let pend = block 0 / 8 in
    let (start_pos, found) = gap_bfind block nbit_from in
    let is_set = mask32 found in
    let bits_counter = add32 0 (bit_and (add32 (sub32 (block start_pos) nbit_from) 1) is_set) in
    if leb rank bits_counter
    then (0, some (sub32 (add32 nbit_from rank) 1))
    else rank_loop pend block pend (sub32 rank bits_counter) (start_pos + 1) (block start_pos)
        (not32 is_set)
