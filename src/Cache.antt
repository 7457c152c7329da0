-- ===== src/Cache.antt =====
-- bio.c: the buffers of disk blocks, in the order of `bcache.head.next`, most recently used first. A
-- `struct buf *` is the buffer's index in `bcache.buf`. The list's lock is held around each function;
-- the sleep lock of a buffer is its holder's. What `iderw` reads from the disk is an argument.
pub mod Twins
pub mod Pinned
use swe3004_operating_system.Prelude.{
  ℕ, zero, suc, ◌+◌, ◌-◌, Bool, true, false, not, ◌&&◌, List, [], ◌∷◌, Option, none, some, ◌==◌,
  if◌then◌else◌, u32, sub32, Outcome, returns, panics, ◌>>=◌,
}
use swe3004_operating_system.Disk.{Block}

-- `struct buf`, with the two bits of `flags`, less the links and the sleep lock
pub record Buf : Type 0 where
  pub index : ℕ
  pub dev : ℕ
  pub blockno : ℕ
  pub valid : Bool
  pub dirty : Bool
  pub refcnt : ℕ
  pub data_ : Block

abbrev pub is_block : (dev blockno : ℕ) → Buf → Bool
is_block dev blockno b = (b.dev == dev) && (b.blockno == blockno)

-- The first loop of `bget`: the block's buffer with one more reference.
unfoldable pub find_cached : (dev blockno : ℕ) → List Buf → Option (ℕ × List Buf)
find_cached dev blockno [] = none
find_cached dev blockno (b ∷ bs) =
    let rest = find_cached dev blockno bs in
    if is_block dev blockno b
    then some (b.index, record b { refcnt = u32 (b.refcnt + 1) } ∷ bs)
    else elim rest [ none ↦ none | some (i, bs') ↦ some (i, b ∷ bs') ]

abbrev pub is_free : Buf → Bool
is_free b = (b.refcnt == 0) && not b.dirty

-- The second loop, which goes backwards.
unfoldable pub recycle : (dev blockno : ℕ) → List Buf → Option (ℕ × List Buf)
recycle dev blockno [] = none
recycle dev blockno (b ∷ bs) = elim (recycle dev blockno bs) [
  | some (i, bs') ↦ some (i, b ∷ bs')
  | none ↦
      if is_free b
      then some (
        b.index,
        record b { dev = dev; blockno = blockno; valid = false; dirty = false; refcnt = 1 } ∷ bs,
      )
      else none
]

unfoldable pub bget : (dev blockno : ℕ) → List Buf → Outcome (ℕ × List Buf)
bget dev blockno bs = elim (find_cached dev blockno bs) [
  | some found ↦ returns found
  | none ↦ elim (recycle dev blockno bs) [ none ↦ panics | some found ↦ returns found ]
]

-- `iderw` on the buffer `i` that is not dirty.
pub fill : Block → ℕ → List Buf → List Buf
fill block i [] = []
fill block i (b ∷ bs) =
    if b.index == i
    then (if b.valid then b ∷ bs else record b { valid = true; data_ = block } ∷ bs)
    else b ∷ fill block i bs

-- `block` is what the disk has.
pub read_block : (dev blockno : ℕ) → Block → List Buf → Outcome (ℕ × List Buf)
unfolding bget fill
read_block dev blockno block bs = do (i, bs') ← bget dev blockno bs; returns (i, fill block i bs')

-- The buffer `i`, and the others in order.
unfoldable pub take_out : ℕ → List Buf → Option (Buf × List Buf)
take_out i [] = none
take_out i (b ∷ bs) =
    let rest = take_out i bs in
    if b.index == i
    then some (b, bs)
    else elim rest [ none ↦ none | some (found, bs') ↦ some (found, b ∷ bs') ]

pub drop_ref : ℕ → List Buf → List Buf
drop_ref i [] = []
drop_ref i (b ∷ bs) =
    if b.index == i then record b { refcnt = sub32 b.refcnt 1 } ∷ bs else b ∷ drop_ref i bs

-- The second half of `brelse`, with the list's lock. There is no other buffer than those of the list.
pub brelse : ℕ → List Buf → Outcome (List Buf)
unfolding take_out drop_ref
brelse i bs = elim (take_out i bs) [
  | none ↦ panics
  | some (b, others) ↦
      if sub32 b.refcnt 1 == 0
      then returns (record b { refcnt = 0 } ∷ others)
      else returns (drop_ref i bs)
]
