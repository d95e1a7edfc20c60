-- ===== src/Encoding/BitOut/Zeros.antt =====
-- src/encoding.h: the zeros and the gamma codes that `bit_out` writes.
use bit_magic.Base.{
  ℕ, zero, suc, ◌+◌, ◌-◌, ◌*◌, ◌/◌, ◌^◌, ◌≤◌, ◌<◌, ◌≡◌, refl, ◌∙◌, arith, inl, inr, Bool-cases, ltb,
  leb, leb→le, leb→lt, ltb→le, bit_at, bit_and, ones32, above,
}
use bit_magic.Scan.{bit_scan_reverse32}
use bit_magic.Encoding.BitOut.Laws.{
  Wrote, masked_digit, flush_accum-Wrote, append-Wrote, flush_full-Wrote, put_loop-Wrote,
}
use bit_magic.Encoding.BitOut.{
  BitOut, flush_accum, append, put_zero_bit, zero_words, skip_bits, zeros, put_zero_bits, put_gamma,
}

module _ (s : ℕ → ℕ) (base : ℕ) where
  skip_bits-Wrote :
      (n m c : ℕ) (o : BitOut)
      → m ≡ n + c
      → Wrote s base n o
      → o.used_bits_ + c ≤ 32
      → ((i : ℕ) → i < c → s (n + i) ≡ 0)
      → Wrote s base m (skip_bits o c)
  unfolding skip_bits
  skip_bits-Wrote n m c o end h fits none = record {
    full = h.full;
    place = h.place;
    count = omega (arith, h.count);
    used = fits;
    past = h.past;
    held = λ i p.
        let r : o.used_bits_ ≤ i → n + (i - o.used_bits_) ≡ h.full * 32 + i =
          λ q. omega (arith, h.count) in
        rw (h.held i p) (elim (Bool-cases (ltb i (o.used_bits_))) [
          | inl old ↦ ground arith
          | inr new ↦
              let q = ltb→le i (o.used_bits_) new in
              ground (arith, rw (r q) at (none (i - o.used_bits_)))
        ]);
    word = h.word;
  }

  zero_words-Wrote :
      (fuel n c : ℕ) (o : BitOut)
      → c ≤ fuel
      → Wrote s base n o
      → o.used_bits_ ≡ 0
      → ((i : ℕ) → n ≤ i → i < n + c → s i ≡ 0)
      → let (o1, c1) = zero_words fuel o c in
        Wrote s base (n + (c - c1)) o1 × (o1.used_bits_ ≡ 0) × (c1 < 32) × (c1 ≤ c)
  unfolding zero_words flush_accum
  zero_words-Wrote zero n c o enough h clean none =
      let e : n + (c - c) ≡ n = omega arith in rw e (h, clean, omega arith, omega arith)
  zero_words-Wrote (suc fuel) n c o enough h clean none = elim (Bool-cases (leb 32 c)) [
    | inr over ↦
        let q = leb→lt 32 c over in
        let e : n + (c - c) ≡ n = omega arith in rw (over, e) (h, clean, q, omega arith)
    | inl more ↦
        let q = leb→le 32 c more in
        let one =
          flush_accum-Wrote s base n (n + 32) o (omega arith) h (λ i a b. none i a (omega arith)) in
        let rest =
          zero_words-Wrote fuel (n + 32) (c - 32) (flush_accum o) (omega arith) one refl
            (λ i a b. none i (omega arith) (omega arith)) in
        let c1 = (zero_words fuel (flush_accum o) (c - 32)).1 in
        let e : n + 32 + (c - 32 - c1) ≡ n + (c - c1) = omega (arith, rest.3) in
        rw more (rw e at (rest.0), rest.1, rest.2, omega (arith, rest.3))
  ]

  zeros-Wrote :
      (n m c : ℕ) (o : BitOut)
      → m ≡ n + c
      → Wrote s base n o
      → ((i : ℕ) → i < c → s (n + i) ≡ 0)
      → Wrote s base m (zeros o c) × ((zeros o c).used_bits_ < 32)
  unfolding zeros skip_bits flush_accum
  zeros-Wrote n m c o end h none =
      let free = 32 - o.used_bits_ in
      let gap : (i : ℕ) → n ≤ i → i < n + c → s i ≡ 0 =
        λ i a b. let e : n + (i - n) ≡ i = omega arith in rw e at (none (i - n) (omega arith)) in
      elim (Bool-cases (leb free c)) [
        | inr inside ↦
            let q = leb→lt free c inside in
            rw inside (skip_bits-Wrote n m c o end h (omega arith) none, omega arith)
        | inl past ↦
            let q = leb→le free c past in
            let one =
              flush_accum-Wrote s base n (n + free) o refl h (λ i a b. gap i a (omega arith)) in
            let run =
              zero_words-Wrote c (n + free) (c - free) (flush_accum o) (omega arith) one refl
                (λ i a b. gap i (omega arith) (omega arith)) in
            let r = zero_words c (flush_accum o) (c - free) in
            rw past (
              skip_bits-Wrote (n + free + (c - free - r.1)) m (r.1) (r.0) (omega (arith, run.3))
                  (run.0) (omega (arith, run.1, run.2))
                  (λ i a. gap _ (omega (arith, run.3)) (omega (arith, run.3))),
              omega (arith, run.1, run.2),
            )
      ]

  pub put_zero_bit-Wrote :
      (n m : ℕ) (o : BitOut)
      → m ≡ n + 1
      → Wrote s base n o
      → o.used_bits_ < 32
      → s n ≡ 0
      → Wrote s base m (put_zero_bit o) × ((put_zero_bit o).used_bits_ < 32)
  unfolding put_zero_bit skip_bits
  put_zero_bit-Wrote n m o end h room next = flush_full-Wrote s base m (skip_bits o 1) (
      skip_bits-Wrote n m 1 o end h (omega arith)
        (λ i p. let e : n + i ≡ n = omega arith in rw e next))

  pub put_zero_bits-Wrote :
      (n m c : ℕ) (o : BitOut)
      → m ≡ n + c + 1
      → Wrote s base n o
      → ((i : ℕ) → i < c → s (n + i) ≡ 0)
      → s (n + c) ≡ 1
      → Wrote s base m (put_zero_bits o c) × ((put_zero_bits o c).used_bits_ < 32)
  unfolding put_zero_bits bit_at
  put_zero_bits-Wrote n m c o end h none one =
      let (run, room) = zeros-Wrote n (n + c) c o refl h none in
      flush_full-Wrote s base m (append (zeros o c) 1 1) (
        append-Wrote s base (n + c) m 1 1 (zeros o c) end run room (omega arith)
          (λ i p.
            let z : i ≡ 0 = omega arith in
            let y : n + c + 0 ≡ n + c = omega arith in rw z (rw y (omega arith)))
          (λ i p q. above 1 1 i (omega arith) p))

  pub put_gamma-Wrote :
      (n m k value : ℕ) (o : BitOut)
      → m ≡ n + k + 1 + k
      → bit_scan_reverse32 value ≡ k
      → k < 32
      → Wrote s base n o
      → ((i : ℕ) → i < k → s (n + i) ≡ 0)
      → s (n + k) ≡ 1
      → ((i : ℕ) → i < k → s (n + k + 1 + i) ≡ bit_at value i)
      → Wrote s base m (put_gamma o value)
  unfolding put_gamma
  put_gamma-Wrote n m k value o end top small h none one bits =
      let (run, room) = put_zero_bits-Wrote n (n + k + 1) k o refl h none one in
      rw (put_gamma, top)
        (put_loop-Wrote s base k (n + k + 1) m (bit_and value (ones32 / 2 ^ (32 - k))) k
          (put_zero_bits o k) end (omega arith) run room
          (λ i p. masked_digit value k i (omega arith) ∙ ground (arith, bits i p))
          (λ i p. masked_digit value k i (omega arith) ∙ ground arith))
