-- ===== src/Index.antt =====
-- src/bmfunc.h: scans of an array of bit indices for the end of a block, and of an array of block
-- pointers for its used range.
pub mod Laws
use bit_magic.Base.{
  ℕ, zero, suc, ◌+◌, ◌-◌, ◌/◌, ◌^◌, Bool, true, false, ◌&&◌, Buffer, ltb, ◌==◌, if◌then◌else◌,
}

-- `for (; (start < size) && (nb == (idx[start] >> set_block_shift)); ++start) {}`
unfoldable pub lookup_loop : ℕ → Buffer → ℕ → ℕ → ℕ → ℕ
lookup_loop zero idx size nb start = start
lookup_loop (suc fuel) idx size nb start =
    let rest = lookup_loop fuel idx size nb (start + 1) in
    if ltb start size && nb == idx start / 2 ^ 16 then rest else start

-- A round for each element of the array is enough.
unfoldable pub idx_arr_block_lookup_u64 : Buffer → ℕ → ℕ → ℕ → ℕ
idx_arr_block_lookup_u64 idx size nb start = lookup_loop (size - start) idx size nb start

-- The portable branch of the build.
unfoldable pub idx_arr_block_lookup_u32 : Buffer → ℕ → ℕ → ℕ → ℕ
idx_arr_block_lookup_u32 idx size nb start = lookup_loop (size - start) idx size nb start

abbrev pub set_sub_array_size : ℕ
set_sub_array_size = 256

-- `for (i = 0; i < set_sub_array_size; ++i) if (arr[i]) break;`; a null pointer is 0.
unfoldable pub first_used : ℕ → Buffer → ℕ → ℕ
first_used zero arr i = i
first_used (suc fuel) arr i =
    let rest = first_used fuel arr (i + 1) in
    if ltb i set_sub_array_size then if arr i == 0 then rest else i else i

-- `for (j = set_sub_array_size - 1; j != i; --j) if (arr[j]) break;`
unfoldable pub last_used : ℕ → Buffer → ℕ → ℕ → ℕ
last_used zero arr i j = j
last_used (suc fuel) arr i j =
    let rest = last_used fuel arr i (j - 1) in if j == i then j else if arr j == 0 then rest else j

-- What is returned, `left` and `right`.
pub record PtrRange : Type 0 where
  pub found : Bool
  pub left : ℕ
  pub right : ℕ

unfoldable pub block_ptr_array_range : Buffer → PtrRange
block_ptr_array_range arr =
    let i = first_used set_sub_array_size arr 0 in
    let j = last_used set_sub_array_size arr i (set_sub_array_size - 1) in
    if i == set_sub_array_size
    then record { found = false; left = 0; right = 0 }
    else record { found = true; left = i; right = j }
