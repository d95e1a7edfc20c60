-- ===== src/Gap/Array/Pending.antt =====
-- The state of the loop over a sorted array: the gaps written so far, and a run of set bits that
-- waits for its border.
use bit_magic.Base.{
  ℕ, zero, suc, ◌≤◌, ◌<◌, ◌≡◌, ◌≢◌, refl, Buffer, store, ◌==◌, if◌then◌else◌, arith,
}
use bit_magic.Gap.Op.Runs.{IsBuilt, append_run}

-- 1 where the array holds the position among its first n elements.
unfoldable pub holds : Buffer → ℕ → ℕ → ℕ
holds arr zero pos = 0
holds arr (suc n) pos = if arr n == pos then 1 else holds arr n pos

abbrev pub IsAscending : Buffer → ℕ → Type 0
IsAscending arr n = (i : ℕ) → suc i < n → arr i < arr (suc i)

pub holds_element : (arr : Buffer) (n i : ℕ) → i < n → holds arr n (arr i) ≡ 1
unfolding holds
holds_element arr zero i h = absurd (omega arith)
holds_element arr (suc n) i h = ground (arith, holds_element arr n i)

pub holds_other : (arr : Buffer) (n pos : ℕ) → ((i : ℕ) → i < n → arr i ≢ pos) → holds arr n pos ≡ 0
unfolding holds
holds_other arr zero pos h = refl
holds_other arr (suc n) pos h =
    ground (arith, h n (omega arith), holds_other arr n pos (λ i p. h i (omega arith)))

pub ascending :
    (arr : Buffer) (n : ℕ) → IsAscending arr n → (i j : ℕ) → i < j → j < n → arr i < arr j
ascending arr n rise i zero p q = absurd (omega arith)
ascending arr n rise i (suc j) p q = ground (arith, rise j (omega arith), ascending arr n rise i j)

-- The bits of [0, done) stand in `dest` as `want` says, [done, acc] is to be set, and its border goes
-- to the word q + 1. `buf` is `dest` with another header.
pub record IsPending (want : ℕ → ℕ) (buf dest : Buffer) (r done prev q acc : ℕ) : Type 0 where
  pub built : IsBuilt want dest r done prev
  pub words : (k : ℕ) → buf (suc k) ≡ dest (suc k)
  pub start : done ≡ 0 → 1 ≡ prev
  pub ahead : done ≤ acc
  pub run : (pos : ℕ) → done ≤ pos → pos ≤ acc → want pos ≡ 1
  pub place : q ≡ (if 1 == prev then r else suc r)

module _ {want : ℕ → ℕ} {buf dest : Buffer} {r done prev q acc : ℕ}
    (p : IsPending want buf dest r done prev q acc) where
  -- The run gets its border.
  pub close_run : IsBuilt want (store dest (suc q) acc) q (suc acc) 1
  close_run = rw p.place (append_run p.built 1 acc (omega arith) p.ahead p.run p.start)

  pub closed_words : (k : ℕ) → store buf (suc q) acc (suc k) ≡ store dest (suc q) acc (suc k)
  closed_words k = ground (arith, p.words k)

  -- A run of clear bits follows it.
  pub skip_run :
      (c : ℕ)
      → acc < c
      → ((pos : ℕ) → acc < pos → pos ≤ c → want pos ≡ 0)
      → IsBuilt want (store (store dest (suc q) acc) (suc (suc q)) c) (suc q) (suc c) 0
  skip_run c h run = append_run close_run 0 c (omega arith) h run (λ e. absurd (omega arith))
