-- ===== src/Search.antt =====
-- src/bmfunc.h: the lower-bound searches in a sorted array of 32-bit or 64-bit numbers, which switch
-- from halving to a scan once the range is short. Indices are `unsigned`.
pub mod Laws
use bit_magic.Base.{ℕ, zero, suc, ◌+◌, ◌-◌, ◌/◌, Buffer, ltb, leb, if◌then◌else◌, add32, sub32}

-- `for (; from <= to; ++from) if (arr[from] >= target) break;`
unfoldable pub linear_loop : ℕ → Buffer → ℕ → ℕ → ℕ → ℕ
linear_loop zero arr target from to = from
linear_loop (suc fuel) arr target from to =
    let rest = linear_loop fuel arr target (add32 from 1) to in
    if leb from to then if leb target (arr from) then from else rest else from

-- Every round moves `from` on, so a round for each index of the range is enough, and one more to
-- leave it.
unfoldable pub lower_bound_linear_u32 : Buffer → ℕ → ℕ → ℕ → ℕ
lower_bound_linear_u32 arr target from to = linear_loop (to + 2 - from) arr target from to

unfoldable pub lower_bound_linear_u64 : Buffer → ℕ → ℕ → ℕ → ℕ
lower_bound_linear_u64 arr target from to = linear_loop (to + 2 - from) arr target from to

-- `while (l <= r)`, with the scan that takes over; `scan` is the scan of the element type.
unfoldable pub halving_loop : ℕ → (Buffer → ℕ → ℕ → ℕ → ℕ) → Buffer → ℕ → ℕ → ℕ → ℕ
halving_loop zero scan arr target l r = l
halving_loop (suc fuel) scan arr target l r =
    let mid = add32 (sub32 r l / 2) l in
    let l' = if ltb (arr mid) target then add32 mid 1 else l in
    let r' = if ltb (arr mid) target then r else sub32 mid 1 in
    let rest = halving_loop fuel scan arr target l' r' in
    if leb l r then if ltb (sub32 r' l') 32 then scan arr target l' r' else rest else l

-- The range shrinks in every round, so its length is fuel enough.
unfoldable pub lower_bound_u32 : Buffer → ℕ → ℕ → ℕ → ℕ
lower_bound_u32 arr target from to =
    if ltb (sub32 to from) 32
    then lower_bound_linear_u32 arr target from to
    else halving_loop (to - from) lower_bound_linear_u32 arr target from to

unfoldable pub lower_bound_u64 : Buffer → ℕ → ℕ → ℕ → ℕ
lower_bound_u64 arr target from to =
    if ltb (sub32 to from) 32
    then lower_bound_linear_u64 arr target from to
    else halving_loop (to - from) lower_bound_linear_u64 arr target from to
