-- ===== src/Encoding/BitIn/Gamma.antt =====
-- src/encoding.h: what `gamma` of `bit_in` reads.
use bit_magic.Base.{
  ℕ, zero, suc, ◌+◌, ◌-◌, ◌*◌, ◌^◌, ◌≤◌, ◌<◌, ◌≡◌, refl, ◌∙◌, true, false, arith, max, min, inl,
  inr, Bool-cases, ltb, leb, ◌==◌, ==→eq, ==→ne, leb→le, leb→lt, ltb→lt, ltb→le, if◌then◌else◌,
  some, Buffer, bit_at, bit_and, bit_or, ones32, shl32, bit_at-bit_or, bit_at-bit_and, bit_at_shr,
  bit_at_ones, bit_at_power, bit_at-lt, bit_or-lt, bit_and-lt, bit_at-zero, same_digits,
}
use bit_magic.Scan.Forward.{bit_scan_fwd_lem, one-IsPos}
use bit_magic.Encoding.BitIn.Laws.{bit_at-shl32, AtBit, load-AtBit, next-AtBit, drop_bits-AtBit}
use bit_magic.Bits.Range.Laws.{power32}
use bit_magic.Encoding.Stream.{stream, stream-lt}
use bit_magic.Encoding.BitIn.{
  BitIn, load, drop_bits, zeros_loop, eat_border, left, take_value, get_value, get_gamma,
}

module _ (m : Buffer) (base : ℕ) where
  -- k zeros, and then a one.
  abbrev pub IsZeros : ℕ → ℕ → Type 0
  IsZeros n k = ((i : ℕ) → i < k → stream m base (n + i) ≡ 0) × (stream m base (n + k) ≡ 1)

  -- The loop comes to the one, when the fuel covers the words up to it.
  zeros_loop-AtBit :
      (fuel n k found : ℕ) (d : BitIn)
      → AtBit m base n d
      → d.used_bits_ < 32
      → IsZeros n k
      → d.used_bits_ + k < fuel * 32
      → (e : BitIn) × (zeros_loop fuel d found ≡ some (found + k, e))
        × AtBit m base (n + k) e
        × (e.used_bits_ < 32)
  unfolding zeros_loop drop_bits load
  zeros_loop-AtBit zero n k found d h room (zero_bits, one) enough = absurd (omega arith)
  zeros_loop-AtBit (suc fuel) n k found d h room (zero_bits, one) enough =
      let free = 32 - d.used_bits_ in
      elim (Bool-cases (ltb k free)) [
        | inl here ↦
            let q = ltb→lt k free here in
            let lowest : bit_at (d.accum_) k ≡ 1 = h.held k room ∙ ground (arith, one) in
            let some_bit = one-IsPos (d.accum_) k lowest in
            let first =
              bit_scan_fwd_lem (d.accum_) k (omega arith) (h.word)
                (λ i p. h.held i room ∙ ground (arith, zero_bits i p), lowest) in
            let busy : (d.accum_ == 0) ≡ false = ground arith in
            (
              drop_bits d k,
              rw (busy, first) refl,
              drop_bits-AtBit m base n k d h (omega arith),
              omega arith,
            )
        | inr later ↦
            let q = ltb→le k free later in
            let empty : d.accum_ ≡ 0 =
              same_digits 32 (d.accum_) 0 (h.word) (omega arith)
                (λ i p. h.held i room ∙ ground (arith, zero_bits i, bit_at-zero i)) in
            let rest =
              zeros_loop-AtBit fuel (n + free) (k - free) (found + 32 - d.used_bits_) (load d)
                (load-AtBit m base n d h) (omega arith)
                (
                  λ i p.
                      let e : n + free + i ≡ n + (free + i) = omega arith in
                      rw e (zero_bits (free + i) (omega arith)),
                  (let e : n + free + (k - free) ≡ n + k = omega arith in rw e one),
                )
                (omega arith) in
            let all : found + 32 - d.used_bits_ + (k - free) ≡ found + k = omega (arith, h.used) in
            let end : n + free + (k - free) ≡ n + k = omega arith in
            let none_left : (d.accum_ == 0) ≡ true = ground arith in
            (rest.0, rw none_left (rw all at (rest.1)), rw end at (rest.2), rest.3)
      ]

  eat_border-AtBit :
      (n : ℕ) (d : BitIn)
      → AtBit m base n d
      → d.used_bits_ < 32
      → AtBit m base (n + 1) (eat_border d)
  unfolding eat_border
  eat_border-AtBit n d h room =
      let more : (d.used_bits_ == 32) ≡ false = ground arith in
      rw more (drop_bits-AtBit m base n 1 d h (omega arith))

  -- The k bits from n on, and a one above them.
  abbrev pub IsValue : ℕ → ℕ → ℕ → Type 0
  IsValue n k v =
      (v < 2 ^ 32)
      × ((i : ℕ)
          → bit_at v i ≡ (if ltb i k then stream m base (n + i) else if i == k then 1 else 0))

  left_digit : (k i : ℕ) → k < 32 → bit_at (left k) i ≡ (if ltb i (suc k) then 1 else 0)
  unfolding left
  left_digit k i h = ground (arith, bit_at_shr ones32 (31 - k) i, bit_at_ones 32 (31 - k + i))

  take_value-AtBit :
      (n k : ℕ) (d : BitIn)
      → AtBit m base n d
      → k < 32
      → d.used_bits_ + k ≤ 32
      → IsValue n k (take_value d k).0 × AtBit m base (n + k) (take_value d k).1
  unfolding take_value
  take_value-AtBit n k d h small fits = (
    (
      bit_or-lt 32 _ (2 ^ k) (bit_and-lt 32 (d.accum_) (left k) (h.word)) (power32 k small),
      λ i.
          bit_at-bit_or (bit_and (d.accum_) (left k)) (2 ^ k) i
          ∙ rw (bit_at-bit_and (d.accum_) (left k) i, left_digit k i small, bit_at_power k i)
              (ground (arith, h.held i, bit_at-lt (d.accum_) i)),
    ),
    drop_bits-AtBit m base n k d h fits,
  )

  -- The last bits of a word, the first ones of the next, and the one above them.
  joined :
      (n k free i : ℕ)
      → free < k
      → k < 32
      → max (if ltb i free then stream m base (n + i) else 0) (
          max
            (if ltb i 32
              then (if ltb i free
                  then 0
                  else min
                      (if ltb (i - free) 32 then stream m base (n + free + (i - free)) else 0)
                      (if ltb (i - free) (suc (k - free)) then 1 else 0))
              else 0)
            (if i == k then 1 else 0))
        ≡ (if ltb i k then stream m base (n + i) else if i == k then 1 else 0)
  joined n k free i p q = elim (Bool-cases (ltb i free)) [
    | inl low ↦ let r = ltb→lt i free low in ground arith
    | inr high ↦
        let r = ltb→le i free high in
        let e : n + free + (i - free) ≡ n + i = omega arith in
        rw e (ground (arith, stream-lt m base (n + i)))
  ]

  get_value-AtBit :
      (n k : ℕ) (d : BitIn)
      → AtBit m base n d
      → k < 32
      → IsValue n k (get_value d k).0 × AtBit m base (n + k) (get_value d k).1
  unfolding get_value load
  get_value-AtBit n k d h small =
      let free = 32 - d.used_bits_ in
      let used = k - free in
      elim (Bool-cases (leb k free)) [
        | inl inside ↦
            let q = leb→le k free inside in
            rw inside (take_value-AtBit n k d h small (omega (arith, h.used)))
        | inr over ↦ elim (Bool-cases (d.used_bits_ == 32)) [
          | inl all ↦
              let e = ==→eq (d.used_bits_) 32 all in
              rw (over, all)
                (take_value-AtBit n k (load d) (next-AtBit m base n d h e) small (omega arith))
          | inr part ↦
              let q = leb→lt k free over in
              let ne = ==→ne (d.used_bits_) 32 part in
              let next = load-AtBit m base n d h in
              let end : n + free + used ≡ n + k = omega arith in
              let low = bit_and ((load d).accum_) (left used) in
              rw (over, part)
                (
                  (
                    bit_or-lt 32 (d.accum_) _ (h.word)
                        (bit_or-lt 32 (shl32 low free) (2 ^ k) (omega arith) (power32 k small)),
                    λ i.
                        bit_at-bit_or (d.accum_) (bit_or (shl32 low free) (2 ^ k)) i
                        ∙ rw
                            (
                              h.held i (omega (arith, h.used)),
                              bit_at-bit_or (shl32 low free) (2 ^ k) i,
                              bit_at-shl32 low free i,
                              bit_at-bit_and ((load d).accum_) (left used) (i - free),
                              left_digit used (i - free) (omega arith),
                              next.held (i - free) (omega arith),
                              bit_at_power k i,
                            )
                            (joined n k free i q small),
                  ),
                  rw end at (drop_bits-AtBit m base (n + free) used (load d) next (omega arith)),
                )
        ]
      ]

  IsValue-after :
      (n k : ℕ) (e : BitIn)
      → k < 32
      → AtBit m base (n + k) e
      → e.used_bits_ < 32
      → IsValue (n + k + 1) k (get_value (eat_border e) k).0
        × AtBit m base (n + k + 1 + k) (get_value (eat_border e) k).1
  IsValue-after n k e small h room =
      get_value-AtBit (n + k + 1) k (eat_border e) (eat_border-AtBit (n + k) e h room) small

  start-AtBit :
      (n : ℕ) (d : BitIn)
      → AtBit m base n d
      → let e = if d.used_bits_ == 32 then load d else d in AtBit m base n e × (e.used_bits_ < 32)
  unfolding load
  start-AtBit n d h = elim (Bool-cases (d.used_bits_ == 32)) [
    | inl all ↦
        let e = ==→eq (d.used_bits_) 32 all in rw all (next-AtBit m base n d h e, omega arith)
    | inr part ↦ let ne = ==→ne (d.used_bits_) 32 part in rw part (h, omega (arith, h.used))
  ]

  -- If the stream has k zeros from the reader's position on, k below 32, and then a one, then
  -- reading a number in gamma code returns with two words of fuel or more; its digits are the k
  -- bits behind the one with a one above them, and the reader stands behind them.
  pub get_gamma-AtBit :
      (fuel n k : ℕ) (d : BitIn)
      → AtBit m base n d
      → IsZeros n k
      → k < 32
      → 64 ≤ fuel * 32
      → (v : ℕ) × (e : BitIn) × (get_gamma fuel d ≡ some (v, e))
        × IsValue (n + k + 1) k v
        × AtBit m base (n + k + 1 + k) e
  unfolding get_gamma
  get_gamma-AtBit fuel n k d h zero_bits small enough =
      let start = start-AtBit n d h in
      let run =
        zeros_loop-AtBit fuel n k 0 _ (start.0) (start.1) zero_bits (omega (arith, start.1)) in
      let z : 0 + k ≡ k = omega arith in
      let r = IsValue-after n k (run.0) small (run.2) (run.3) in
      (
        (get_value (eat_border (run.0)) k).0,
        (get_value (eat_border (run.0)) k).1,
        rw (get_gamma, rw z at (run.1)) refl,
        r.0,
        r.1,
      )
