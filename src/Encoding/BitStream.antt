-- ===== src/Encoding/BitStream.antt =====
-- src/encoding.h: a sequence of items that `bit_out` writes, and the sequence of bits that stands
-- for it.
pub mod Write
pub mod Read
use bit_magic.Base.{
  ℕ, zero, suc, ◌+◌, ◌-◌, ◌*◌, ◌%◌, ◌^◌, ◌≤◌, ◌<◌, List, [], ◌∷◌, Option, some, none, ltb, ◌==◌,
  if◌then◌else◌, bit_at,
}
use bit_magic.Scan.{bit_scan_reverse32}
use bit_magic.Encoding.BitOut.{BitOut, put_bit, put_bits, put_gamma}
use bit_magic.Encoding.BitIn.{BitIn, get_bit, get_bits, get_gamma}

-- A bit, a number of bits of a value, or a number in Elias gamma code.
pub data BitItem : Type 0 where
  one_bit : ℕ → BitItem
  some_bits : ℕ → ℕ → BitItem
  gamma_code : ℕ → BitItem

unfoldable pub put_item : BitOut → BitItem → BitOut
put_item o (one_bit v) = put_bit o v
put_item o (some_bits v c) = put_bits o v c
put_item o (gamma_code v) = put_gamma o v

unfoldable pub put_items : BitOut → List BitItem → BitOut
put_items o [] = o
put_items o (x ∷ xs) = put_items (put_item o x) xs

-- The reader knows which items come, and how many bits each has, but no value.
unfoldable pub get_item : ℕ → BitIn → BitItem → Option (ℕ × BitIn)
get_item fuel d (one_bit v) = some (get_bit d)
get_item fuel d (some_bits v c) = some (get_bits d c)
get_item fuel d (gamma_code v) = get_gamma fuel d

unfoldable pub get_items : ℕ → BitIn → List BitItem → Option (List ℕ)
get_items fuel d [] = some []
get_items fuel d (x ∷ xs) = elim (get_item fuel d x) [
  | none ↦ none
  | some (v, d1) ↦ elim (get_items fuel d1 xs) [ none ↦ none | some vs ↦ some (v ∷ vs) ]
]

-- Only the bits that are written come back.
unfoldable pub value : BitItem → ℕ
value (one_bit v) = v
value (some_bits v c) = v % 2 ^ c
value (gamma_code v) = v

unfoldable pub values : List BitItem → List ℕ
values [] = []
values (x ∷ xs) = value x ∷ values xs

unfoldable pub size : BitItem → ℕ
size (one_bit v) = 1
size (some_bits v c) = c
size (gamma_code v) = bit_scan_reverse32 v + 1 + bit_scan_reverse32 v

unfoldable pub digit : BitItem → ℕ → ℕ
digit (one_bit v) i = v
digit (some_bits v c) i = bit_at v i
digit (gamma_code v) i =
    let k = bit_scan_reverse32 v in
    if ltb i k then 0 else if i == k then 1 else bit_at v (i - (k + 1))

unfoldable pub total_size : List BitItem → ℕ
total_size [] = 0
total_size (x ∷ xs) = size x + total_size xs

-- The bits of all the items, and zeros after them.
unfoldable pub sequence : List BitItem → ℕ → ℕ
sequence [] i = 0
sequence (x ∷ xs) i = if ltb i (size x) then digit x i else sequence xs (i - size x)

-- What the source asserts of a call, or relies on. It asserts that a word has a free bit where
-- `put_bits` begins, and relies on that in `put_bit`, where `gamma` may have left none.
unfoldable pub IsAllowed : BitOut → BitItem → Type 0
IsAllowed o (one_bit v) = (v < 2) × (o.used_bits_ < 32)
IsAllowed o (some_bits v c) = (1 ≤ c) × (c ≤ 32) × (o.used_bits_ < 32)
IsAllowed o (gamma_code v) = (1 ≤ v) × (v < 2 ^ 32)

-- And that along a run.
unfoldable pub AreAllowed : BitOut → List BitItem → Type 0
AreAllowed o [] = 0 ≤ 0
AreAllowed o (x ∷ xs) = IsAllowed o x × AreAllowed (put_item o x) xs
