-- ===== src/Gap/Array/Laws.antt =====
-- src/bmfunc.h: the block made from a sorted array holds the positions of the array.
use bit_magic.Base.{
  ℕ, zero, suc, ◌+◌, ◌-◌, ◌*◌, ◌/◌, ◌%◌, ◌^◌, ◌≤◌, ◌<◌, ◌≡◌, ◌≢◌, ◌∙◌, refl, sym, inl, inr, Buffer,
  store, ltb, ◌==◌, arith, Bool-cases, ==→eq, ==→ne, ltb→lt, ltb→le, add16, sub16, u16,
}
use bit_magic.Gap.Layout.{first_bit, gap_max_bits, last_word, set_last_word, gap_bit, IsGap}
use bit_magic.Gap.Op.Runs.{IsBuilt, append_run, built_block}
use bit_magic.Gap.Array.{array_loop, array_start, array_end, gap_set_array}
use bit_magic.Gap.Array.Same.{same-IsGap, same_bits}
use bit_magic.Gap.Array.Pending.{
  holds, IsAscending, holds_element, holds_other, ascending, IsPending, close_run, closed_words,
  skip_run,
}

-- The result of the function: the length, and a block that holds the wanted bits.
abbrev pub IsMade : (ℕ → ℕ) → Buffer → ℕ × Buffer → Type 0
IsMade want buf (len, out) =
    IsGap out
    × (len ≡ suc (last_word out))
    × (out 0 / 2 % 4 ≡ buf 0 / 2 % 4)
    × ((pos : ℕ) → pos < gap_max_bits → gap_bit out pos ≡ want pos)

-- A finished list of borders, under the header that the function writes.
finish :
    (want : ℕ → ℕ) (src buf dest : Buffer) (q done prev : ℕ)
    → IsBuilt want dest q done prev
    → done ≡ gap_max_bits
    → ((k : ℕ) → buf (suc k) ≡ dest (suc k))
    → buf 0 ≡ src 0 / 2 % 4 * 2 + 8 + dest 0
    → suc q < 8192
    → IsMade want src (suc (suc q), store buf 0 (set_last_word (buf 0) (suc q)))
finish want src buf dest q done prev b all words header room =
    let (g, size, bits) = built_block (rw all at b) room in
    let d = store dest 0 (set_last_word (dest 0) (suc q)) in
    let out = store buf 0 (set_last_word (buf 0) (suc q)) in
    let last : last_word out ≡ suc q = omega (arith, header, b.first) in
    let same : last_word out ≡ last_word d = rw last (sym size) in
    let first : first_bit out ≡ first_bit d = omega (arith, header, b.first) in
    let header' : out 0 < 2 ^ 16 = omega arith in
    let others : (k : ℕ) → out (suc k) ≡ d (suc k) = λ k. ground (arith, words k) in
    (
      same-IsGap d out g header' same first others,
      rw last refl,
      omega (arith, header, b.first),
      λ pos h. same_bits d out g header' same first others pos ∙ bits pos h,
    )

-- The last lines finish the list, with one more run of clear bits or without.
array_end-IsMade :
    {want : ℕ → ℕ} {buf dest : Buffer} {r done prev q acc : ℕ} (src : Buffer)
    → IsPending want buf dest r done prev q acc
    → acc < gap_max_bits
    → buf 0 ≡ src 0 / 2 % 4 * 2 + 8 + dest 0
    → suc (suc q) < 8192
    → ((pos : ℕ) → acc < pos → pos < gap_max_bits → want pos ≡ 0)
    → IsMade want src (array_end buf (suc q) acc)
unfolding array_end
array_end-IsMade {want} {buf} {dest} {r} {done} {prev} {q} {acc} src p small header room clear =
    let e : suc q + 1 ≡ suc (suc q) = omega arith in
    let e' : suc (suc q) + 1 ≡ suc (suc (suc q)) = omega arith in
    elim (Bool-cases (acc == gap_max_bits - 1)) [
      | inl full ↦
          let f = ==→eq acc (gap_max_bits - 1) full in
          rw full (
            rw e (
              finish want src (store buf (suc q) acc) (store dest (suc q) acc) q (suc acc) 1
                (close_run p) (omega arith) (closed_words p) (ground (arith, header))
                (omega arith)))
      | inr more ↦
          let f = ==→ne acc (gap_max_bits - 1) more in
          rw more (
            rw e (
              rw e' (
                finish want src (store (store buf (suc q) acc) (suc (suc q)) 65535)
                  (store (store dest (suc q) acc) (suc (suc q)) 65535) (suc q) 65536 0
                  (skip_run p 65535 (omega arith) (λ pos a b. clear pos a (omega arith))) refl
                  (λ k. ground (arith, closed_words p k)) (ground (arith, header)) room)))
    ]

module _ (src arr : Buffer) (len : ℕ) (rise : IsAscending arr len)
    (bound : (i : ℕ) → i < len → arr i < gap_max_bits) (room : len * 2 + 1 < 8192) where
  between : (i pos : ℕ) → suc i < len → arr i < pos → pos < arr (suc i) → holds arr len pos ≡ 0
  between i pos h a b = holds_other arr len pos (λ k p e. elim (Bool-cases (ltb i k)) [
    | inl later ↦
        let q = ltb→lt i k later in absurd (ground (arith, ascending arr len rise (suc i) k, e))
    | inr early ↦ let q = ltb→le i k early in absurd (ground (arith, ascending arr len rise k i, e))
  ])

  after : (i pos : ℕ) → suc i ≡ len → arr i < pos → holds arr len pos ≡ 0
  after i pos h a =
      holds_other arr len pos (λ k p e. absurd (ground (arith, ascending arr len rise k i, e)))

  -- The next element prolongs the run.
  longer :
      (i q : ℕ) {buf dest : Buffer} {r done prev : ℕ}
      → IsPending (holds arr len) buf dest r done prev q (arr i)
      → suc i < len
      → arr (suc i) ≡ arr i + 1
      → IsPending (holds arr len) buf dest r done prev q (arr (suc i))
  longer i q p h e = record {
    built = p.built;
    words = p.words;
    start = p.start;
    ahead = omega (arith, p.ahead);
    run = λ pos a b. elim (Bool-cases (pos == arr (suc i))) [
      | inl same ↦ rw (==→eq pos (arr (suc i)) same) (holds_element arr len (suc i) h)
      | inr other ↦ let ne = ==→ne pos (arr (suc i)) other in p.run pos a (omega arith)
    ];
    place = p.place;
  }

  -- The next element begins a new run.
  further :
      (i q : ℕ) {buf dest : Buffer} {r done prev : ℕ}
      → IsPending (holds arr len) buf dest r done prev q (arr i)
      → suc i < len
      → arr (suc i) ≢ arr i + 1
      → IsPending
          (holds arr len)
          (store (store buf (suc q) (arr i)) (suc (suc q)) (arr (suc i) - 1))
          (store (store dest (suc q) (arr i)) (suc (suc q)) (arr (suc i) - 1))
          (suc q)
          (suc (arr (suc i) - 1))
          0
          (suc (suc q))
          (arr (suc i))
  further i q p h ne = record {
    built =
        skip_run p (arr (suc i) - 1) (omega (arith, rise i h))
          (λ pos a b. between i pos h a (omega (arith, rise i h)));
    words = λ k. ground (arith, closed_words p k);
    start = λ e. absurd (omega arith);
    ahead = omega (arith, rise i h);
    run = λ pos a b.
        let e : pos ≡ arr (suc i) = omega (arith, rise i h) in
        rw e (holds_element arr len (suc i) h);
    place = refl;
  }

  array_loop-IsMade :
      (fuel i : ℕ) (buf dest : Buffer) (r done prev q : ℕ)
      → IsPending (holds arr len) buf dest r done prev q (arr i)
      → i < len
      → len ≤ fuel + suc i
      → q ≤ i * 2 + 1
      → buf 0 ≡ src 0 / 2 % 4 * 2 + 8 + dest 0
      → let s = array_loop fuel buf arr len (suc i) (suc q) (arr i) (arr i) in
        IsMade (holds arr len) src (array_end s.0 s.1 s.2)
  unfolding array_loop
  array_loop-IsMade zero i buf dest r done prev q p h f small header =
      array_end-IsMade src p (bound i h) header (omega arith)
        (λ pos a b. after i pos (omega arith) a)
  array_loop-IsMade (suc fuel) i buf dest r done prev q p h f small header =
      elim (Bool-cases (ltb (suc i) len)) [
        | inr over ↦
            let o = ltb→le (suc i) len over in
            rw over (
              array_end-IsMade src p (bound i h) header (omega arith)
                (λ pos a b. after i pos (omega arith) a))
        | inl more ↦
            let m = ltb→lt (suc i) len more in
            let next : suc i + 1 ≡ suc (suc i) = omega arith in
            let low = bound (suc i) m in
            rw more (
              rw next (elim (Bool-cases (arr (suc i) == arr i + 1)) [
                | inl joined ↦
                    let e = ==→eq (arr (suc i)) (arr i + 1) joined in
                    let acc : add16 (arr i) 1 ≡ arr (suc i) = omega arith in
                    rw joined (
                      rw acc (
                        array_loop-IsMade fuel (suc i) buf dest r done prev q (longer i q p m e) m
                          (omega arith) (omega arith) header))
                | inr apart ↦
                    let ne = ==→ne (arr (suc i)) (arr i + 1) apart in
                    let c : sub16 (arr (suc i)) 1 ≡ arr (suc i) - 1 =
                      omega (arith, rise i m, low) in
                    let e1 : suc q + 1 ≡ suc (suc q) = omega arith in
                    let e2 : suc q + 2 ≡ suc (suc (suc q)) = omega arith in
                    rw apart (
                      rw c (
                        rw e1 (
                          rw e2 (
                            array_loop-IsMade fuel (suc i) _ _ (suc q) _ 0 (suc (suc q))
                              (further i q p m ne) m (omega arith) (omega arith)
                              (ground (arith, header))))))
              ]))
      ]

-- Nothing is written yet, and the first run has the bit of the header.
empty-IsBuilt : (want : ℕ → ℕ) (dest : Buffer) → dest 0 < 2 → IsBuilt want dest 0 0 (dest 0)
empty-IsBuilt want dest h = record {
  first = h;
  run = omega arith;
  empty = λ e. refl;
  filled = λ p. absurd (omega arith);
  rising = λ i p. absurd (omega arith);
  bits = λ pos p. absurd (omega arith);
}

module _ (buf arr : Buffer) (len : ℕ) (rise : IsAscending arr len) (some : 0 < len) where
  -- The array starts with position 0.
  start_at_zero :
      arr 0 ≡ 0
      → IsPending
          (holds arr len)
          (store buf 0 (add16 (u16 (buf 0 / 2 % 4 * 2 + 8)) 1))
          (store buf 0 1)
          0
          0
          1
          0
          (arr 0)
  start_at_zero z = record {
    built = empty-IsBuilt (holds arr len) (store buf 0 1) (omega arith);
    words = λ k. ground arith;
    start = λ e. refl;
    ahead = omega arith;
    run = λ pos a b. let e : pos ≡ arr 0 = omega arith in rw e (holds_element arr len 0 some);
    place = refl;
  }

  -- It starts with a run of clear bits.
  start_later :
      0 < arr 0
      → arr 0 < gap_max_bits
      → IsPending
          (holds arr len)
          (store (store buf 0 (u16 (buf 0 / 2 % 4 * 2 + 8))) 1 (sub16 (arr 0) 1))
          (store (store buf 0 0) 1 (sub16 (arr 0) 1))
          0
          (suc (sub16 (arr 0) 1))
          0
          1
          (arr 0)
  start_later pos small = record {
    built =
        append_run (empty-IsBuilt (holds arr len) (store buf 0 0) (omega arith)) 0 (sub16 (arr 0) 1)
          (omega arith) (omega arith)
          (λ p a b. holds_other arr len p (λ k q e. absurd (elim (Bool-cases (ltb 0 k)) [
            | inl later ↦ ground (arith, ascending arr len rise 0 k, e)
            | inr first ↦
                let z : k ≡ 0 = omega (arith, ltb→le 0 k first) in
                let e0 : arr 0 ≡ p = rw (sym z) e in omega arith
          ])))
          (λ e. refl);
    words = λ k. ground arith;
    start = λ e. absurd (omega arith);
    ahead = omega arith;
    run = λ p a b. let e : p ≡ arr 0 = omega arith in rw e (holds_element arr len 0 some);
    place = refl;
  }

-- For a non-empty array of rising positions below 65536, of a length whose double is less than
-- 8191, the function makes a well-formed block that keeps the level of the old header, holds
-- exactly the positions of the array, and has the length returned.
pub gap_set_array-IsMade :
    (buf arr : Buffer) (len : ℕ)
    → IsAscending arr len
    → ((i : ℕ) → i < len → arr i < gap_max_bits)
    → 0 < len
    → len * 2 + 1 < 8192
    → IsMade (holds arr len) buf (gap_set_array buf arr len)
unfolding gap_set_array array_start
gap_set_array-IsMade buf arr len rise bound some room = elim (Bool-cases (arr 0 == 0)) [
  | inl z ↦
      let e = ==→eq (arr 0) 0 z in
      rw z (
        array_loop-IsMade buf arr len rise bound room len 0 _ (store buf 0 1) 0 0 1 0
          (start_at_zero buf arr len rise some e) some (omega arith) (omega arith) (omega arith))
  | inr nz ↦
      let ne = ==→ne (arr 0) 0 nz in
      rw nz (
        array_loop-IsMade buf arr len rise bound room len 0 _ _ 0 _ 0 1
          (start_later buf arr len rise some (omega arith) (bound 0 some)) some (omega arith)
          (omega arith) (omega arith))
]
