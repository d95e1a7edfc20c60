-- ===== src/Tests/Blocks.antt =====
-- Concrete GAP blocks.
use bit_magic.Base.{ℕ, zero, suc, refl, List, [], ◌∷◌, Buffer, arith}
use bit_magic.Gap.Layout.{IsGap, IsRising}

-- The words of a block; behind them stand zeros.
abbrev pub block : List ℕ → Buffer
block [] i = 0
block (x ∷ xs) zero = x
block (x ∷ xs) (suc i) = block xs i

-- Bits 5 to 9 and 20 to 65535 are set: the header says 4 borders, level 0, and a first gap of 0s.
abbrev pub two_runs : Buffer
two_runs = block (32 ∷ 4 ∷ 9 ∷ 19 ∷ 65535 ∷ [])

two_runs-IsRising : IsRising two_runs 4
two_runs-IsRising zero h = omega arith
two_runs-IsRising (suc zero) h = omega arith
two_runs-IsRising (suc (suc zero)) h = omega arith
two_runs-IsRising (suc (suc (suc i))) h = absurd (omega arith)

pub two_runs-IsGap : IsGap two_runs
two_runs-IsGap = record {
  header = omega arith;
  nonempty = omega arith;
  rising = two_runs-IsRising;
  closed = refl;
}

-- Bits 0 to 7 are set: 2 borders, a first gap of 1s.
abbrev pub low_byte : Buffer
low_byte = block (17 ∷ 7 ∷ 65535 ∷ [])

low_byte-IsRising : IsRising low_byte 2
low_byte-IsRising zero h = omega arith
low_byte-IsRising (suc i) h = absurd (omega arith)

pub low_byte-IsGap : IsGap low_byte
low_byte-IsGap = record {
  header = omega arith;
  nonempty = omega arith;
  rising = low_byte-IsRising;
  closed = refl;
}
