-- ===== src/Gap/Delta.antt =====
-- src/bmfunc.h: the delta form of a GAP block, which the serializer stores: the differences of
-- neighbouring borders, the last one left out.
pub mod Laws
use bit_magic.Base.{
  ℕ, zero, suc, ◌+◌, ◌-◌, ◌/◌, Bool, Buffer, store, ltb, ◌==◌, if◌then◌else◌, u16, add16, sub16,
}

-- `do { func(*pcurr - prev); … } while (++pcurr < pend);` over the state of the functor.
unfoldable pub dgap_loop : {S : Type 0} → ℕ → Buffer → (S → ℕ → S) → ℕ → ℕ → ℕ → S → S
dgap_loop zero gap_buf func pend pcurr prev state = state
dgap_loop (suc fuel) gap_buf func pend pcurr prev state =
    let called = func state (sub16 (gap_buf pcurr) prev) in
    let rest = dgap_loop fuel gap_buf func pend (pcurr + 1) (gap_buf pcurr) called in
    if ltb (pcurr + 1) pend then rest else called

-- The pointer passes the end after at most as many rounds as there are borders.
unfoldable pub for_each_dgap : {S : Type 0} → Buffer → (S → ℕ → S) → S → S
for_each_dgap gap_buf func state =
    let pend = gap_buf 0 / 8 in
    dgap_loop pend gap_buf func pend 2 (gap_buf 1) (func state (u16 (gap_buf 1 + 1)))

-- `*dgap_buf_++ = dgap`
abbrev pub d_copy_func : Buffer × ℕ → ℕ → Buffer × ℕ
d_copy_func (dgap_buf, p) dgap = (store dgap_buf p dgap, p + 1)

-- The destination, and the index that the returned pointer has in it.
unfoldable pub gap_2_dgap : Buffer → Buffer → Bool → Buffer × ℕ
gap_2_dgap gap_buf dgap_buf copy_head =
    let start : Buffer × ℕ =
      if copy_head then (store dgap_buf 0 (gap_buf 0), 1) else (dgap_buf, 0) in
    for_each_dgap gap_buf d_copy_func start

-- `for (++gap_buf; pcurr < pend; ++pcurr)`, and the last element behind it.
unfoldable pub restore_loop : ℕ → Buffer → Buffer → ℕ → ℕ → ℕ → Buffer
restore_loop zero dgap_buf gap_buf p pcurr pend = store gap_buf p 65535
restore_loop (suc fuel) dgap_buf gap_buf p pcurr pend =
    let next = store gap_buf p (add16 (dgap_buf pcurr) (gap_buf (p - 1))) in
    let rest = restore_loop fuel dgap_buf next (p + 1) (pcurr + 1) pend in
    if ltb pcurr pend then rest else store gap_buf p 65535

-- A header of 0 means that the header is part of the stream. The header holds the index of the last
-- word, so its length is at least 1 and `--len` does not wrap.
unfoldable pub dgap_2_gap : Buffer → Buffer → ℕ → Buffer
dgap_2_gap dgap_buf gap_buf gap_header =
    let header = if gap_header == 0 then dgap_buf 0 else gap_header in
    let pcurr = if gap_header == 0 then 1 else 0 in
    let len = header / 8 - 1 in
    let first = if dgap_buf pcurr == 0 then 65535 else sub16 (dgap_buf pcurr) 1 in
    restore_loop len dgap_buf (store (store gap_buf 0 header) 1 first) 2 (pcurr + 1) (pcurr + len)
