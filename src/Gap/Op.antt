-- ===== src/Gap/Op.antt =====
-- src/bmfunc.h, src/bmutil.h: the logical operations on two GAP blocks, over a functor that works
-- on one bit of each.
pub mod Runs
pub mod Laws
pub mod Named
pub mod Any
pub mod Sums
pub mod Count
use Prim.Native.Nat.{bit_or, bit_xor}
use bit_magic.Base.{
  ℕ, zero, suc, ◌+◌, ◌-◌, ◌/◌, ◌%◌, Buffer, store, ltb, ◌==◌, if◌then◌else◌, xor1, flip_low, not32,
  bit_and, add32, sub32,
}
use bit_magic.Gap.Layout.{gap_max_bits, set_last_word}

unfoldable pub and_func : ℕ → ℕ → ℕ
and_func v1 v2 = bit_and v1 v2

unfoldable pub xor_func : ℕ → ℕ → ℕ
xor_func v1 v2 = bit_xor v1 v2

unfoldable pub or_func : ℕ → ℕ → ℕ
or_func v1 v2 = bit_or v1 v2

unfoldable pub sub_func : ℕ → ℕ → ℕ
sub_func v1 v2 = bit_and v1 (not32 v2)

-- The loop, over `res` (an index of `dest`), the two pointers, and the three bits. A round moves at
-- least one pointer on.
unfoldable pub op_loop :
    ℕ → (ℕ → ℕ → ℕ) → Buffer → Buffer → Buffer → ℕ → ℕ → ℕ → ℕ → ℕ → ℕ → ℕ × Buffer
op_loop zero op vect1 vect2 dest res cur1 cur2 bitval1 bitval2 bitval_prev = (res, dest)
op_loop (suc fuel) op vect1 vect2 dest res cur1 cur2 bitval1 bitval2 bitval_prev =
    let bitval = op bitval1 bitval2 in
    let res' = if bitval == bitval_prev then res else res + 1 in
    let c1 = vect1 cur1 in
    let c2 = vect2 cur2 in
    let first =
      op_loop fuel op vect1 vect2 (store dest res' c1) res' (cur1 + 1) cur2 (xor1 bitval1 1) bitval2
        bitval in
    let second =
      op_loop fuel op vect1 vect2 (store dest res' c2) res' cur1 (cur2 + 1) bitval1 (xor1 bitval2 1)
        bitval in
    let both =
      op_loop fuel op vect1 vect2 (store dest res' c2) res' (cur1 + 1) (cur2 + 1) (xor1 bitval1 1)
        (xor1 bitval2 1) bitval in
    if ltb c1 c2
    then first
    else if ltb c2 c1
    then second
    else if c2 == gap_max_bits - 1
    then (res', store dest res' c2)
    else both

-- `dlen` and the destination. The blocks have `vect1[0] >> 3` and `vect2[0] >> 3` borders.
unfoldable pub gap_buff_op : (ℕ → ℕ → ℕ) → Buffer → Buffer → ℕ → Buffer → ℕ → ℕ × Buffer
gap_buff_op op dest vect1 vect1_mask vect2 vect2_mask =
    let bitval1 = xor1 (vect1 0 % 2) vect1_mask in
    let bitval2 = xor1 (vect2 0 % 2) vect2_mask in
    let bitval = op bitval1 bitval2 in
    let (res, out) =
      op_loop (vect1 0 / 8 + vect2 0 / 8) op vect1 vect2 (store dest 0 bitval) 1 1 1 bitval1 bitval2
        bitval in
    (res, store out 0 (set_last_word (out 0) res))

unfoldable pub gap_invert : Buffer → Buffer
gap_invert buf = store buf 0 (flip_low (buf 0))

unfoldable pub gap_operation_and : Buffer → Buffer → Buffer → ℕ × Buffer
gap_operation_and vect1 vect2 tmp_buf = gap_buff_op and_func tmp_buf vect1 0 vect2 0

unfoldable pub gap_operation_xor : Buffer → Buffer → Buffer → ℕ × Buffer
gap_operation_xor vect1 vect2 tmp_buf = gap_buff_op xor_func tmp_buf vect1 0 vect2 0

unfoldable pub gap_operation_or : Buffer → Buffer → Buffer → ℕ × Buffer
gap_operation_or vect1 vect2 tmp_buf =
    let (dsize, out) = gap_buff_op and_func tmp_buf vect1 1 vect2 1 in (dsize, gap_invert out)

unfoldable pub gap_operation_sub : Buffer → Buffer → Buffer → ℕ × Buffer
gap_operation_sub vect1 vect2 tmp_buf = gap_buff_op and_func tmp_buf vect1 0 vect2 1

-- `bitval_prev` of this loop is never read.
unfoldable pub any_loop : ℕ → (ℕ → ℕ → ℕ) → Buffer → Buffer → ℕ → ℕ → ℕ → ℕ → ℕ
any_loop zero op vect1 vect2 cur1 cur2 bitval1 bitval2 = 0
any_loop (suc fuel) op vect1 vect2 cur1 cur2 bitval1 bitval2 =
    let bitval = op bitval1 bitval2 in
    let c1 = vect1 cur1 in
    let c2 = vect2 cur2 in
    let first = any_loop fuel op vect1 vect2 (cur1 + 1) cur2 (xor1 bitval1 1) bitval2 in
    let second = any_loop fuel op vect1 vect2 cur1 (cur2 + 1) bitval1 (xor1 bitval2 1) in
    let both =
      any_loop fuel op vect1 vect2 (cur1 + 1) (cur2 + 1) (xor1 bitval1 1) (xor1 bitval2 1) in
    if bitval == 0
    then if ltb c1 c2
      then first
      else if ltb c2 c1
      then second
      else if c2 == gap_max_bits - 1
      then 0
      else both
    else bitval

unfoldable pub gap_buff_any_op : (ℕ → ℕ → ℕ) → Buffer → ℕ → Buffer → ℕ → ℕ
gap_buff_any_op op vect1 vect1_mask vect2 vect2_mask =
    let bitval1 = xor1 (vect1 0 % 2) vect1_mask in
    let bitval2 = xor1 (vect2 0 % 2) vect2_mask in
    let searched = any_loop (vect1 0 / 8 + vect2 0 / 8) op vect1 vect2 1 1 bitval1 bitval2 in
    if op bitval1 bitval2 == 0 then searched else op bitval1 bitval2

unfoldable pub gap_operation_any_and : Buffer → Buffer → ℕ
gap_operation_any_and vect1 vect2 = gap_buff_any_op and_func vect1 0 vect2 0

unfoldable pub gap_operation_any_xor : Buffer → Buffer → ℕ
gap_operation_any_xor vect1 vect2 = gap_buff_any_op xor_func vect1 0 vect2 0

unfoldable pub gap_operation_any_sub : Buffer → Buffer → ℕ
gap_operation_any_sub vect1 vect2 = gap_buff_any_op and_func vect1 0 vect2 1

-- The loop over the pointers, the bits, and `res`, `res_prev` and `count`.
unfoldable pub count_op_loop : ℕ → (ℕ → ℕ → ℕ) → Buffer → Buffer → ℕ → ℕ → ℕ → ℕ → ℕ → ℕ → ℕ → ℕ → ℕ
count_op_loop zero op vect1 vect2 cur1 cur2 bitval1 bitval2 bitval_prev res res_prev count = count
count_op_loop (suc fuel) op vect1 vect2 cur1 cur2 bitval1 bitval2 bitval_prev res res_prev count =
    let bitval = op bitval1 bitval2 in
    let base = if bitval == bitval_prev then res_prev else res in
    let counted = λ (c : ℕ). if bitval == 0 then count else add32 count (sub32 c base) in
    let prev = λ (c : ℕ). if bitval == 0 then base else c in
    let c1 = vect1 cur1 in
    let c2 = vect2 cur2 in
    let first =
      count_op_loop fuel op vect1 vect2 (cur1 + 1) cur2 (xor1 bitval1 1) bitval2 bitval c1 (prev c1)
        (counted c1) in
    let second =
      count_op_loop fuel op vect1 vect2 cur1 (cur2 + 1) bitval1 (xor1 bitval2 1) bitval c2 (prev c2)
        (counted c2) in
    let both =
      count_op_loop fuel op vect1 vect2 (cur1 + 1) (cur2 + 1) (xor1 bitval1 1) (xor1 bitval2 1)
        bitval c2 (prev c2) (counted c2) in
    if ltb c1 c2
    then first
    else if ltb c2 c1
    then second
    else if c2 == gap_max_bits - 1
    then counted c2
    else both

unfoldable pub gap_buff_count_op : (ℕ → ℕ → ℕ) → Buffer → Buffer → ℕ
gap_buff_count_op op vect1 vect2 =
    let bitval1 = vect1 0 % 2 in
    let bitval2 = vect2 0 % 2 in
    let bitval = op bitval1 bitval2 in
    count_op_loop (vect1 0 / 8 + vect2 0 / 8) op vect1 vect2 1 1 bitval1 bitval2 bitval 0 0 bitval

unfoldable pub gap_count_and : Buffer → Buffer → ℕ
gap_count_and vect1 vect2 = gap_buff_count_op and_func vect1 vect2

unfoldable pub gap_count_xor : Buffer → Buffer → ℕ
gap_count_xor vect1 vect2 = gap_buff_count_op xor_func vect1 vect2

unfoldable pub gap_count_or : Buffer → Buffer → ℕ
gap_count_or vect1 vect2 = gap_buff_count_op or_func vect1 vect2

unfoldable pub gap_count_sub : Buffer → Buffer → ℕ
gap_count_sub vect1 vect2 = gap_buff_count_op sub_func vect1 vect2
