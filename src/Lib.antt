-- ===== src/Lib.antt =====
-- BitMagic: a compressed bit-vector library in C++. A vector is a tree of blocks of 65536 bits, and
-- a block is either an array of bits or a GAP block, a run-length encoding.
--
-- The development is about the blocks and about the streams that they are stored in. The GAP blocks
-- are free functions of src/bmfunc.h on a pointer to 16-bit words:
--   * Gap/Layout: the header word, the borders, the capacity levels; `IsGap`, the invariant of a
--     well-formed block; `gap_bit`, the bit that a block holds at a position, and `gap_ones`, the
--     number of bits set below one. These two are the abstract view: every operation is compared
--     with them. Gap/Order holds what follows from rising borders.
--   * Gap/Find: gap_bfind, gap_test, gap_test_unr, gap_find_first, gap_find_last, gap_is_all_zero,
--     gap_is_all_one.
--   * Gap/Range: gap_is_all_one_range, gap_any_range, gap_is_interval, gap_find_interval_end,
--     gap_find_interval_start, gap_find_prev, gap_block_find.
--   * Gap/Count: gap_bit_count, gap_bit_count_unr, gap_bit_count_range, gap_bit_count_to,
--     gap_find_rank.
--   * Gap/Set: both overloads of gap_set_value, and gap_add_value.
--   * Gap/Op: gap_buff_op, gap_buff_any_op, gap_buff_count_op over the functors of src/bmutil.h,
--     gap_invert, and the named operations.
--   * Gap/Init: gap_set_all, gap_init_range_block, set_gap_level, gap_calc_level,
--     gap_free_elements, gap_overhead.
--   * Gap/Delta: gap_2_dgap and dgap_2_gap, the delta form that is serialized.
--   * Gap/Compare: gapcmp and gap_find_first_diff.
--   * Gap/Array: gap_set_array and bit_array_compute_gaps.
--   * Gap/Shift: gap_shift_r1 and gap_shift_l1, which end in a call of gap_set_value.
--
-- Bits is about the bit blocks of the same file, arrays of 2048 words: `block_bit` is the bit at a
-- position, and the counterpart of `gap_bit`.
--   * Bits/Layout and Bits/Single: set_bit, clear_bit, test_bit.
--   * Bits/Range: or_bit_block, sub_bit_block, xor_bit_block, which change an interval, and the masks
--     of src/bmutil.h.
--   * Bits/Gaps: gap_add_to_bitset, gap_and_to_bitset, gap_sub_to_bitset, gap_xor_to_bitset and
--     gap_convert_to_bitset, which walk over the gaps of a GAP block and change the interval of
--     each. They join the two representations.
--   * Bits/Count: bit_block_calc_count_range, and gap_bitset_and_count, gap_bitset_sub_count,
--     gap_bitset_xor_count, gap_bitset_or_count, which count the bits of a combination.
--   * Bits/Any: bit_block_any_range, bit_is_all_zero, which reads 64 bits at a time, and
--     gap_bitset_and_any, gap_bitset_sub_any, gap_bitset_or_any and gap_bitset_xor_any, which ask
--     whether a combination is empty.
--
-- Scan is about the scans of a word in src/bmutil.h with their tables in src/bmconst.h: ilog2,
-- ilog2_LUT, bit_scan_fwd, bit_scan_reverse32, bit_scan_reverse, the counts of leading and trailing
-- zeros.
--
-- Encoding is about the streams of src/encoding.h:
--   * Encoding/Encoder and Encoding/Decoder: `encoder`, and `decoder_base` and `decoder`, over bytes.
--     Encoding/Bytes says which bytes stand for a word; Encoding/RoundTrip, Encoding/Arrays and
--     Encoding/Combine are about words, arrays, and arrays that are read by OR and by AND.
--   * Encoding/LittleEndian: `decoder_little_endian`.
--   * Encoding/BitOut and Encoding/BitIn: `bit_out` and `bit_in`, with the Elias gamma code, over an
--     `encoder` and a `decoder`. Encoding/Stream is the abstract view, the bit number i of the words
--     in memory. `Wrote` is the invariant of the writer and `AtBit` that of the reader.
--     Encoding/BitStream puts the two together for a list of items.
--
-- Search is about the lower-bound searches of src/bmfunc.h, lower_bound_u32 and lower_bound_u64
-- and the scans that they switch to. Index is about idx_arr_block_lookup_u64,
-- idx_arr_block_lookup_u32 and block_ptr_array_range.
--
-- Base holds what the parts share: the tests on numbers, memory as a function from an index to a
-- word (Base/Memory), the arithmetic of unsigned words (Base/Words), and the binary digits of a number
-- with what the shifts and the bit operations do to them (Base/Digits). A function that writes
-- returns the new contents of the buffer beside its result. A function with an output parameter
-- that it may leave alone returns an Option for it.
--
-- Words: a `T` of the source is `unsigned short` and an `unsigned` has 32 bits. Every operation
-- that can leave the range has its wrap-around written out (u16, add16, sub16, add32, sub32). Where
-- the source computes on indices that its own bounds keep small, the index is a plain number. Only
-- the portable branches of the build are modelled, and BM_ASSERT is the no-operation of a release
-- build.
--
-- Loops run on fuel. The searches get as many rounds as there are words between their ends, the
-- loops over the borders as many as the last word's index, the merges the sum of the two. The
-- theorems below speak of what the functions return with this fuel, for every well-formed block, so
-- that a loop cut short would falsify them. The loops over a value or over words get its count of
-- bits or words; get_gamma takes the number of words it may read as an argument, and two are enough.
--
-- Not modelled: the searches and block-wide operations of bit blocks and the conversion of a bit
-- block to a GAP block; the binary interpolative codes; the block tree and bvector<>, the
-- serializers, the sparse vectors and the thread pool, which rest on these parts; the vector
-- instructions; allocation, and with it the capacity of a buffer.
pub mod Base
pub mod Gap
pub mod Search
pub mod Index
pub mod Scan
pub mod Bits
pub mod Encoding
pub mod Tests
