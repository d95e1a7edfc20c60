-- ===== src/Gap/Set/Copy.antt =====
-- src/bmfunc.h: what the copying loop of `gap_set_value` leaves in each word.
use bit_magic.Base.{
  ℕ, zero, suc, ◌+◌, ◌-◌, ◌≤◌, ◌<◌, ◌≡◌, ◌&&◌, ◌||◌, Buffer, ltb, leb, ◌==◌, if◌then◌else◌, arith,
  store,
}
use bit_magic.Gap.Set.{copy_loop}

-- One word is copied whatever the end, the others up to it.
pub copy_loop_lem :
    (fuel : ℕ) (buf : Buffer) (p c pend k : ℕ)
    → p < c
    → 0 < fuel
    → pend ≤ c + fuel
    → copy_loop fuel buf p c pend k
      ≡ (if leb p k && (k == p || ltb (k - p + c) pend) then buf (k - p + c) else buf k)
unfolding copy_loop
copy_loop_lem zero buf p c pend k le some enough = absurd (omega arith)
copy_loop_lem (suc fuel) buf p c pend k le some enough =
    ground (arith, copy_loop_lem fuel (store buf p (buf c)) (p + 1) (c + 1) pend k)
