-- ===== src/Index/Laws.antt =====
-- src/bmfunc.h: where the scans of indices and of block pointers stop.
use bit_magic.Base.{
  ℕ, zero, suc, ◌+◌, ◌-◌, ◌/◌, ◌^◌, ◌≤◌, ◌<◌, ◌≡◌, ◌≢◌, ◌⊎◌, sym, inl, inr, true, false, Buffer,
  ltb, ◌==◌, arith, Bool-cases, ltb→lt, ltb→le, ==→eq, ==→ne,
}
use bit_magic.Index.{
  lookup_loop, idx_arr_block_lookup_u64, idx_arr_block_lookup_u32, set_sub_array_size, first_used,
  last_used, PtrRange, block_ptr_array_range,
}

-- From `start` on all indices lie in the block, and the one at r, if it is there, does not.
abbrev pub IsBlockEnd : Buffer → ℕ → ℕ → ℕ → ℕ → Type 0
IsBlockEnd idx size nb start r =
    (start ≤ r)
    × (r ≤ size)
    × ((i : ℕ) → start ≤ i → i < r → idx i / 2 ^ 16 ≡ nb)
    × (r < size → idx r / 2 ^ 16 ≢ nb)

lookup_loop-IsBlockEnd :
    (fuel : ℕ) (idx : Buffer) (size nb start : ℕ)
    → start ≤ size
    → size ≤ fuel + start
    → IsBlockEnd idx size nb start (lookup_loop fuel idx size nb start)
unfolding lookup_loop
lookup_loop-IsBlockEnd zero idx size nb start h f =
    (omega arith, h, (λ i a b. absurd (omega arith)), λ p. absurd (omega arith))
lookup_loop-IsBlockEnd (suc fuel) idx size nb start h f = elim (Bool-cases (ltb start size)) [
  | inr over ↦
      let o = ltb→le start size over in
      rw over (omega arith, h, (λ i a b. absurd (omega arith)), λ p. absurd (omega arith))
  | inl inside ↦
      let m = ltb→lt start size inside in
      let next : start + 1 ≡ suc start = omega arith in
      rw inside (elim (Bool-cases (nb == idx start / 2 ^ 16)) [
        | inl same ↦
            let e = ==→eq nb (idx start / 2 ^ 16) same in
            let rest = lookup_loop-IsBlockEnd fuel idx size nb (suc start) m (omega arith) in
            rw same (
              rw next (
                omega (arith, rest.0),
                rest.1,
                (λ i a b. elim (Bool-cases (ltb start i)) [
                  | inl later ↦ rest.2 i (ltb→lt start i later) b
                  | inr here ↦
                      let at : i ≡ start = omega (arith, ltb→le start i here) in rw at (sym e)
                ]),
                rest.3,
              ))
        | inr other ↦
            let ne = ==→ne nb (idx start / 2 ^ 16) other in
            rw other (omega arith, h, (λ i a b. absurd (omega arith)), λ p e. ne (sym e))
      ])
]

-- For a start not behind the end of the array, both lookups answer an index up to which all bit
-- indices from the start on lie in the block asked for, and which is the array's end or holds an
-- index of another block.
pub block_lookups_lem :
    (idx : Buffer) (size nb start : ℕ)
    → start ≤ size
    → IsBlockEnd idx size nb start (idx_arr_block_lookup_u64 idx size nb start)
      × IsBlockEnd idx size nb start (idx_arr_block_lookup_u32 idx size nb start)
unfolding idx_arr_block_lookup_u64 idx_arr_block_lookup_u32
block_lookups_lem idx size nb start h = (
  lookup_loop-IsBlockEnd (size - start) idx size nb start h (omega arith),
  lookup_loop-IsBlockEnd (size - start) idx size nb start h (omega arith),
)

first_used_lem :
    (fuel : ℕ) (arr : Buffer) (i : ℕ)
    → i ≤ 256
    → 256 ≤ fuel + i
    → ((k : ℕ) → k < i → arr k ≡ 0)
    → let r = first_used fuel arr i in
      (r ≤ 256) × (r < 256 → arr r ≢ 0) × ((k : ℕ) → k < r → arr k ≡ 0)
unfolding first_used
first_used_lem zero arr i h f clear = (h, (λ p. absurd (omega arith)), clear)
first_used_lem (suc fuel) arr i h f clear = elim (Bool-cases (ltb i 256)) [
  | inr over ↦ let o = ltb→le i 256 over in rw over (h, (λ p. absurd (omega arith)), clear)
  | inl inside ↦
      let m = ltb→lt i 256 inside in
      let next : i + 1 ≡ suc i = omega arith in
      rw inside (elim (Bool-cases (arr i == 0)) [
        | inl null ↦
            let e = ==→eq (arr i) 0 null in
            rw null (
              rw next (
                first_used_lem fuel arr (suc i) m (omega arith) (λ k p.
                  elim (Bool-cases (ltb k i)) [
                    | inl early ↦ clear k (ltb→lt k i early)
                    | inr last ↦ let at : k ≡ i = omega (arith, ltb→le k i last) in rw at e
                  ])))
        | inr used ↦ rw used (h, (λ p. ==→ne (arr i) 0 used), clear)
      ])
]

last_used_lem :
    (fuel : ℕ) (arr : Buffer) (i j : ℕ)
    → i ≤ j
    → j ≤ fuel + i
    → arr i ≢ 0
    → ((k : ℕ) → j < k → k < 256 → arr k ≡ 0)
    → let r = last_used fuel arr i j in
      (i ≤ r) × (r ≤ j) × (arr r ≢ 0) × ((k : ℕ) → r < k → k < 256 → arr k ≡ 0)
unfolding last_used
last_used_lem zero arr i j h f used clear =
    let e : j ≡ i = omega arith in rw e (omega arith, omega arith, used, rw e at clear)
last_used_lem (suc fuel) arr i j h f used clear = elim (Bool-cases (j == i)) [
  | inl met ↦ let e = ==→eq j i met in rw met (h, omega arith, rw e used, clear)
  | inr apart ↦
      let ne = ==→ne j i apart in
      rw apart (elim (Bool-cases (arr j == 0)) [
        | inl null ↦
            let e = ==→eq (arr j) 0 null in
            let rest = last_used_lem fuel arr i (j - 1) (omega arith) (omega arith) used (λ k p q.
              elim (Bool-cases (k == j)) [
                | inl same ↦ rw (==→eq k j same) e
                | inr other ↦ let other' = ==→ne k j other in clear k (omega arith) q
              ]) in
            rw null (rest.0, omega (arith, rest.1), rest.2, rest.3)
        | inr found ↦ rw found (h, omega arith, ==→ne (arr j) 0 found, clear)
      ])
]

-- The used pointers lie between `left` and `right`, which are used themselves; or none is used.
pub record IsUsedRange (arr : Buffer) (r : PtrRange) : Type 0 where
  pub none_used : r.found ≡ false → (k : ℕ) → k < set_sub_array_size → arr k ≡ 0
  pub ends_used : r.found ≡ true → (arr r.left ≢ 0) × (arr r.right ≢ 0)
  pub order : (r.left ≤ r.right) × (r.right < set_sub_array_size)
  pub outside :
      (k : ℕ) → k < set_sub_array_size → (k < r.left) ⊎ (r.right < k) → r.found ≡ true → arr k ≡ 0

-- For every array of block pointers, either the answer is false and no pointer is used, or the
-- two ends of the range are used and no pointer outside it is; the ends are in order and inside
-- the array.
pub block_ptr_array_range-IsUsedRange : (arr : Buffer) → IsUsedRange arr (block_ptr_array_range arr)
unfolding block_ptr_array_range
block_ptr_array_range-IsUsedRange arr =
    let i = first_used 256 arr 0 in
    let first =
      first_used_lem 256 arr 0 (omega arith) (omega arith) (λ k p. absurd (omega arith)) in
    elim (Bool-cases (i == 256)) [
      | inl none ↦
          let e = ==→eq i 256 none in
          rw none (record {
            none_used = λ f k p. first.2 k (omega arith);
            ends_used = λ f. absurd (ground (arith, f));
            order = (omega arith, omega arith);
            outside = λ k p side f. absurd (ground (arith, f));
          })
      | inr some ↦
          let ne = ==→ne i 256 some in
          let used = first.1 (omega (arith, first.0)) in
          let last =
            last_used_lem 256 arr i 255 (omega (arith, first.0)) (omega arith) used
              (λ k p q. absurd (omega arith)) in
          rw some (record {
            none_used = λ f. absurd (ground (arith, f));
            ends_used = λ f. (used, last.2);
            order = (last.0, omega (arith, last.1));
            outside = λ k p side f. elim side [
              | inl before ↦ first.2 k before
              | inr behind ↦ last.3 k behind p
            ];
          })
    ]
