-- ===== src/Base/Memory.antt =====
-- C++ memory as a pointer sees it: `buf i` is the word at `buf + i`. The functions of the library
-- take bare pointers and no capacity, so an index is never refused.
use Prim.Native.Nat.{ℕ, ◌+◌, ◌-◌}
use mathlib.Core.Bool.{◌&&◌}
use bit_magic.Base.Tests.{ltb, leb, ◌==◌, if◌then◌else◌}

abbrev pub Buffer : Type 0
Buffer = ℕ → ℕ

-- `buf[i] = v`
abbrev pub store : Buffer → ℕ → ℕ → Buffer
store buf i v k = if k == i then v else buf k

-- `memmove(&buf[dst], &buf[src], n * sizeof(word))`
abbrev pub memmove : Buffer → ℕ → ℕ → ℕ → Buffer
memmove buf dst src n k = if leb dst k && ltb k (dst + n) then buf (k - dst + src) else buf k
