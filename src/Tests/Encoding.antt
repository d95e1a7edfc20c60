-- ===== src/Tests/Encoding.antt =====
-- src/encoding.h and src/bmutil.h: the byte streams, the bit streams and the scans of a word, at
-- concrete inputs.
use bit_magic.Base.{
  ℕ, zero, suc, ◌+◌, ◌-◌, ◌*◌, ◌/◌, ◌%◌, ◌^◌, ◌<◌, ◌≡◌, ◌↔◌, refl, arith, List, [], ◌∷◌, some,
  Buffer, ltb, ◌==◌, if◌then◌else◌, bit_or, bit_at, ones32, true,
}
use bit_magic.Tests.Blocks.{block}
use bit_magic.Scan.{
  first_bit_table, bit_scan_fwd, ilog2, ilog2_lut, bit_scan_reverse32, bit_scan_reverse,
}
use bit_magic.Scan.Laws.{IsTop, ilog2-eq-ilog2_lut}
use bit_magic.Scan.Forward.{IsLowest, bit_scan_fwd_lem}
use bit_magic.Scan.Leading.{bit_scan_reverse-IsTop}
use bit_magic.Encoding.Encoder.{Encoder, encoder, put_32_array}
use bit_magic.Encoding.Decoder.{Decoder, decoder, seek, byte_at, get_32, get_32_array, get_32_or}
use bit_magic.Encoding.Bytes.{
  width_8, width_16, width_24, width_32, width_48, width_64, width, IsAt, bytes,
}
use bit_magic.Encoding.RoundTrip.{
  Item, put_all, get_all, kinds, words, total, FitsAll, get_all-put_all,
}
use bit_magic.Encoding.Arrays.{IsArray, IsStored, copied, get_32_array-put_32_array}
use bit_magic.Encoding.Combine.{front, get_32_or_lem}
use bit_magic.Encoding.LittleEndian.{le_get_16, le_get_64, le_get_16_array}
use bit_magic.Encoding.LittleEndian.Laws.{IsSwapped, le_get_64_lem, le_get_16_array_lem}
use bit_magic.Encoding.BitOut.{
  bit_out, flush_accum, flush_full, append, flush, put_bit, put_bits, put_gamma, put_loop,
  put_zero_bits, zeros, zero_words, skip_bits,
}
use bit_magic.Encoding.BitIn.{BitIn, bit_in, get_gamma}
use bit_magic.Encoding.BitStream.{
  BitItem, one_bit, some_bits, gamma_code, put_item, put_items, get_items, values, total_size,
  sequence, IsAllowed, AreAllowed,
}
use bit_magic.Encoding.Stream.{stream, word_at}
use bit_magic.Encoding.BitOut.Laws.{Wrote}
use bit_magic.Encoding.BitIn.Laws.{AtBit}
use bit_magic.Encoding.BitIn.Gamma.{IsZeros, IsValue, get_gamma-AtBit}
use bit_magic.Encoding.BitStream.Write.{bit_out-Wrote, put_items-Wrote}
use bit_magic.Encoding.BitStream.Read.{bit_in-AtBit, get_items-put_items, put_items-size}

abbrev empty : Encoder
empty = encoder (λ k. 0) 100 4096

-- A bit, three bits, a number in gamma code and a whole word, which crosses the border of a word.
abbrev four_items : List BitItem
four_items = one_bit 1 ∷ some_bits 13 3 ∷ gamma_code 9 ∷ some_bits 3735928559 32 ∷ []

four_items-AreAllowed : AreAllowed (bit_out empty) four_items
unfolding AreAllowed IsAllowed put_item bit_out put_bit put_bits put_gamma flush_full flush_accum
    append put_loop bit_scan_reverse32 ilog2_lut first_bit_table put_zero_bits zeros skip_bits
    zero_words
four_items-AreAllowed = (
  (omega arith, omega arith),
  (
    (omega arith, omega arith, omega arith),
    ((omega arith, omega arith), ((omega arith, omega arith, omega arith), omega arith)),
  ),
)

get_items-put_items_example :
    let o = flush (put_items (bit_out empty) four_items) in
    get_items 2 (bit_in (decoder (o.dest_.memory) (empty.buf_))) four_items
    ≡ some (values four_items)
get_items-put_items_example =
    get_items-put_items four_items empty 2 four_items-AreAllowed (omega arith)

put_items-size_example :
    (flush (put_items (bit_out empty) four_items)).dest_.buf_
    ≡ empty.buf_ + (total_size four_items + 31) / 32 * 4
put_items-size_example = put_items-size four_items empty four_items-AreAllowed

ilog2-eq-ilog2_lut_example : ilog2 1000 ≡ ilog2_lut 1000
ilog2-eq-ilog2_lut_example = ilog2-eq-ilog2_lut 1000 (omega arith) (omega arith)

bit_scan_reverse-IsTop_example :
    IsTop (2 ^ 40 + 5) (bit_scan_reverse (2 ^ 40 + 5)) × (bit_scan_reverse (2 ^ 40 + 5) < 64)
bit_scan_reverse-IsTop_example = bit_scan_reverse-IsTop (2 ^ 40 + 5) (omega arith) (omega arith)

twelve-IsLowest : IsLowest 12 2
unfolding bit_at
twelve-IsLowest = (twelve_low, refl)
  where
    twelve_low : (i : ℕ) → i < 2 → bit_at 12 i ≡ 0
    twelve_low zero h = refl
    twelve_low (suc zero) h = refl
    twelve_low (suc (suc i)) h = absurd (omega arith)

bit_scan_fwd_lem_example : bit_scan_fwd 12 ≡ 2
bit_scan_fwd_lem_example = bit_scan_fwd_lem 12 2 (omega arith) (omega arith) twelve-IsLowest

-- A word of each width.
abbrev six_words : List Item
six_words =
    record { kind = width_8; word = 200 }
    ∷ record { kind = width_16; word = 51966 }
    ∷ record { kind = width_24; word = 70000 }
    ∷ record { kind = width_32; word = 3735928559 }
    ∷ record { kind = width_48; word = 2 ^ 40 + 7 }
    ∷ record { kind = width_64; word = 2 ^ 63 + 9 }
    ∷ []

six_words-FitsAll : FitsAll six_words
unfolding FitsAll width
six_words-FitsAll = (
  omega arith,
  (omega arith, (omega arith, (omega arith, (omega arith, (omega arith, omega arith))))),
)

get_all-put_all_example :
    (get_all (decoder ((put_all empty six_words).memory) (empty.buf_)) (kinds six_words) ≡ (
      words six_words,
      seek (decoder ((put_all empty six_words).memory) (empty.buf_)) (total six_words),
    ))
    × ((put_all empty six_words).buf_ ≡ empty.buf_ + total six_words)
unfolding decoder
get_all-put_all_example =
    get_all-put_all six_words empty (decoder ((put_all empty six_words).memory) (empty.buf_))
      six_words-FitsAll refl refl

-- The words 0, 1, 2, ... up to 999.
abbrev small_words : Buffer
small_words k = if ltb k 1000 then k else 0

small_words-IsArray : IsArray width_32 small_words
unfolding width
small_words-IsArray k = ground arith

get_32_array-put_32_array_example :
    let d = decoder ((put_32_array empty small_words 6).memory) (empty.buf_) in
    get_32_array d (some (λ k. 1)) 6 ≡ (some (copied small_words 6 (λ k. 1)), seek d (6 * 4))
unfolding decoder
get_32_array-put_32_array_example =
    get_32_array-put_32_array 5 empty
      (decoder ((put_32_array empty small_words 6).memory) (empty.buf_)) small_words (λ k. 1)
      small_words-IsArray refl refl

-- The words 0, 1, 2, ... as bytes.
abbrev counting : Decoder
counting = decoder (λ k. if k % 4 == 0 then k / 4 else 0) 0

abbrev numbers : Buffer
numbers k = if ltb k 64 then k else 0

numbers-IsArray : IsArray width_32 numbers
unfolding width
numbers-IsArray k = ground arith

numbers-IsStored : IsStored width_32 (counting.memory) (counting.buf_) numbers 0 4
unfolding IsStored IsAt bytes width decoder
numbers-IsStored = (
  (refl, (refl, (refl, (refl, omega arith)))),
  (
    (refl, (refl, (refl, (refl, omega arith)))),
    (
      (refl, (refl, (refl, (refl, omega arith)))),
      ((refl, (refl, (refl, (refl, omega arith)))), omega arith),
    ),
  ),
)

get_32_or_lem_example :
    let r = get_32_or counting (some (λ k. 5)) 4 in
    (r.0 ≡ some (front bit_or (λ k. 5) numbers 4))
    × ((r.1 ≡ true) ↔ ((k : ℕ) → k < 4 → bit_or 5 (numbers k) ≡ ones32))
    × (r.2 ≡ seek counting (4 * 4))
get_32_or_lem_example =
    get_32_or_lem 1 4 counting (λ k. 5) numbers refl numbers-IsArray (λ k. omega arith)
      numbers-IsStored

-- The bytes 0 to 7, and the word that they are from the highest one down.
abbrev rising_bytes : Decoder
rising_bytes = decoder (λ k. k) 0

rising_bytes-IsSwapped : IsSwapped 8 rising_bytes 283686952306183
unfolding byte_at decoder
rising_bytes-IsSwapped = (omega arith, each)
  where
    each :
        (i : ℕ) → i < 8 → byte_at rising_bytes i ≡ 283686952306183 / 2 ^ (8 * (8 - 1 - i)) % 2 ^ 8
    each zero h = refl
    each (suc zero) h = refl
    each (suc (suc zero)) h = refl
    each (suc (suc (suc zero))) h = refl
    each (suc (suc (suc (suc zero)))) h = refl
    each (suc (suc (suc (suc (suc zero))))) h = refl
    each (suc (suc (suc (suc (suc (suc zero)))))) h = refl
    each (suc (suc (suc (suc (suc (suc (suc zero))))))) h = refl
    each (suc (suc (suc (suc (suc (suc (suc (suc i)))))))) h = absurd (omega arith)

le_get_64_lem_example :
    le_get_64 rising_bytes
    ≡ (283686952306183 * 2 ^ 8 % 2 ^ 64 + 283686952306183 / 2 ^ 56, seek rising_bytes 8)
le_get_64_lem_example = le_get_64_lem rising_bytes 283686952306183 rising_bytes-IsSwapped

le_get_16_array_lem_example :
    le_get_16_array rising_bytes (some (λ k. 9)) 3
    ≡ (some (λ k. if ltb k 3 then (le_get_16 rising_bytes).0 else 9), seek rising_bytes (3 * 2))
le_get_16_array_lem_example = le_get_16_array_lem 2 rising_bytes (λ k. 9)

-- A number in gamma code that ends with the word leaves all 32 bits used.
full_word : (put_gamma (put_bit (bit_out empty) 1) 40000).used_bits_ ≡ 32
unfolding bit_out put_bit put_gamma flush_full flush_accum append put_loop bit_scan_reverse32
    ilog2_lut first_bit_table put_zero_bits zeros skip_bits zero_words
full_word = refl

put_items-Wrote_example :
    Wrote
      (sequence four_items)
      (empty.buf_)
      (0 + total_size four_items)
      (put_items (bit_out empty) four_items)
put_items-Wrote_example =
    put_items-Wrote (sequence four_items) (empty.buf_) 0 (bit_out empty) four_items
      (bit_out-Wrote (sequence four_items) empty) four_items-AreAllowed
      (λ i p. let z : 0 + i ≡ i = omega arith in rw z refl)

-- The code of 5: two zeros, a one, and the digits 1 and 0.
abbrev five_code : Buffer
five_code = block (12 ∷ [])

five_code-IsZeros : IsZeros five_code 0 0 2
unfolding stream word_at get_32 byte_at decoder bit_at
five_code-IsZeros = (two_zeros, refl)
  where
    two_zeros : (i : ℕ) → i < 2 → stream five_code 0 (0 + i) ≡ 0
    two_zeros zero h = refl
    two_zeros (suc zero) h = refl
    two_zeros (suc (suc i)) h = absurd (omega arith)

get_gamma-AtBit_example :
    (v : ℕ) × (e : BitIn) × (get_gamma 2 (bit_in (decoder five_code 0)) ≡ some (v, e))
    × IsValue five_code 0 (0 + 2 + 1) 2 v
    × AtBit five_code 0 (0 + 2 + 1 + 2) e
get_gamma-AtBit_example =
    get_gamma-AtBit five_code 0 2 0 2 (bit_in (decoder five_code 0)) (bit_in-AtBit five_code 0)
      five_code-IsZeros (omega arith) (omega arith)
