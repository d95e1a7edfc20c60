-- ===== src/Gap/Array/Gaps.antt =====
-- src/bmfunc.h: the number of gaps that a sorted array needs is the number of borders that its block
-- gets, but for the one that closes the block.
use bit_magic.Base.{
  ℕ, zero, suc, ◌+◌, ◌-◌, ◌*◌, ◌^◌, ◌≤◌, ◌<◌, ◌≡◌, refl, true, false, inl, inr, Buffer, ltb, ◌==◌,
  if◌then◌else◌, arith, Bool-cases, ==→eq, ==→ne, ltb→lt, ltb→le, add16, add32,
}
use bit_magic.Gap.Layout.{gap_max_bits}
use bit_magic.Gap.Array.{
  array_loop, array_start, array_end, gap_set_array, gaps_loop, bit_array_compute_gaps,
}

-- The loop over the array moves `pcurr` as the count goes.
place_counted :
    (fuel : ℕ) (buf arr : Buffer) (len i pcurr prev acc : ℕ)
    → pcurr + fuel * 2 < 2 ^ 32
    → (array_loop fuel buf arr len i pcurr prev acc).1 ≡ gaps_loop fuel arr len i prev pcurr
unfolding array_loop gaps_loop
place_counted zero buf arr len i pcurr prev acc h = refl
place_counted (suc fuel) buf arr len i pcurr prev acc h = elim (Bool-cases (ltb i len)) [
  | inr over ↦ rw over refl
  | inl more ↦ rw more (elim (Bool-cases (arr i == prev + 1)) [
    | inl joined ↦
        rw joined (place_counted fuel buf arr len (i + 1) pcurr (arr i) (add16 acc 1) (omega arith))
    | inr apart ↦
        let e : add32 pcurr 2 ≡ pcurr + 2 = omega arith in
        rw apart
          (rw e (place_counted fuel _ arr len (i + 1) (pcurr + 2) (arr i) (arr i) (omega arith)))
  ])
]

-- It ends with the last element in hand.
last_element :
    (fuel : ℕ) (buf arr : Buffer) (len i pcurr : ℕ)
    → i < len
    → len ≤ fuel + suc i
    → ((k : ℕ) → k < len → arr k < gap_max_bits)
    → (array_loop fuel buf arr len (suc i) pcurr (arr i) (arr i)).2 ≡ arr (len - 1)
unfolding array_loop
last_element zero buf arr len i pcurr h f bound = let e : len - 1 ≡ i = omega arith in rw e refl
last_element (suc fuel) buf arr len i pcurr h f bound = elim (Bool-cases (ltb (suc i) len)) [
  | inr over ↦ let e : len - 1 ≡ i = omega (arith, ltb→le (suc i) len over) in rw over (rw e refl)
  | inl more ↦
      let m = ltb→lt (suc i) len more in
      let next : suc i + 1 ≡ suc (suc i) = omega arith in
      rw more (
        rw next (elim (Bool-cases (arr (suc i) == arr i + 1)) [
          | inl joined ↦
              let e = ==→eq (arr (suc i)) (arr i + 1) joined in
              let acc : add16 (arr i) 1 ≡ arr (suc i) = omega (arith, bound (suc i) m) in
              rw joined (rw acc (last_element fuel buf arr len (suc i) pcurr m (omega arith) bound))
          | inr apart ↦
              rw apart (last_element fuel _ arr len (suc i) (pcurr + 2) m (omega arith) bound)
        ]))
]

-- For a non-empty array of fewer than 65536 positions below 65536, the number of gaps computed
-- and the header, with one more gap where the last position is not 65535, make up the length that
-- gap_set_array returns.
pub bit_array_compute_gaps-eq-gap_set_array :
    (buf arr : Buffer) (len : ℕ)
    → 0 < len
    → len < 2 ^ 16
    → ((k : ℕ) → k < len → arr k < gap_max_bits)
    → (gap_set_array buf arr len).0
      ≡ suc (bit_array_compute_gaps arr len) + (if arr (len - 1) == 65535 then 0 else 1)
unfolding gap_set_array bit_array_compute_gaps array_start array_end
bit_array_compute_gaps-eq-gap_set_array buf arr len some short bound =
    elim (Bool-cases (arr 0 == 0)) [
      | inl z ↦
          let e = ==→eq (arr 0) 0 z in
          let z' : ltb 0 (arr 0) ≡ false = ground arith in rw z (rw z' (count _ 1 (omega arith)))
      | inr nz ↦
          let ne = ==→ne (arr 0) 0 nz in
          let nz' : ltb 0 (arr 0) ≡ true = ground arith in rw nz (rw nz' (count _ 2 (omega arith)))
    ]
  where
    count :
        (b : Buffer) (p : ℕ)
        → p ≤ 2
        → let s = array_loop len b arr len 1 p (arr 0) (arr 0) in
          (if s.2 == 65535 then s.1 else s.1 + 1) + 1
          ≡ suc (gaps_loop len arr len 1 (arr 0) p) + (if arr (len - 1) == 65535 then 0 else 1)
    count b p h =
        rw (last_element len b arr len 0 p some (omega arith) bound)
          (rw (place_counted len b arr len 1 p (arr 0) (arr 0) (omega arith)) (ground arith))
