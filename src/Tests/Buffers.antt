-- ===== src/Tests/Buffers.antt =====
-- Three buffers: one referenced, one dirty, one free.
use swe3004_operating_system.Prelude.{
  ℕ, ◌≤◌, ◌≡◌, refl, arith, Bool, true, false, List, [], ◌∷◌, returns,
}
use swe3004_operating_system.Cache.{Buf, find_cached, recycle, bget}
use swe3004_operating_system.Cache.Twins.{copies, taken, is_buf_of, bget_twins}
use swe3004_operating_system.Cache.Pinned.{Kept, bget-Kept}

abbrev buf_of : (index blockno : ℕ) (dirty : Bool) (refcnt : ℕ) → Buf
buf_of index blockno dirty refcnt = record {
  index = index;
  dev = 1;
  blockno = blockno;
  valid = true;
  dirty = dirty;
  refcnt = refcnt;
  data_ = blockno ∷ [];
}

abbrev bufs : List Buf
bufs = buf_of 2 32 false 1 ∷ buf_of 1 40 true 0 ∷ buf_of 0 45 false 0 ∷ []

abbrev after_miss : List Buf
after_miss = buf_of 2 32 false 1 ∷ buf_of 1 40 true 0 ∷ taken 1 50 (buf_of 0 45 false 0) ∷ []

missed : bget 1 50 bufs ≡ returns (0, after_miss)
unfolding bget find_cached recycle
missed = refl

bget_twins_example :
    (i : ℕ) × (bs' : List Buf) × (bget 1 50 bufs ≡ returns (i, bs'))
    × (is_buf_of 1 50 i bs' ≡ true)
    × (copies 1 45 bs' ≤ 1)
bget_twins_example = bget_twins 1 50 1 45 bufs refl (omega arith)

bget-Kept_example : Kept bufs after_miss
bget-Kept_example = bget-Kept 1 50 0 bufs after_miss missed
