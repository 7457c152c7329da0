-- ===== src/Log.antt =====
-- log.c: the write-ahead log. The loops over `tail` and `i` recur on the rounds left.
-- Each function here is what runs without a change of the log from elsewhere: a critical section, or
-- the commit, which `committing` keeps alone.
pub mod Area
mod Copy
mod Install
mod Header
pub mod Finish
pub mod Recovery
pub mod Commit
pub mod Durable
pub mod Slots
mod Budget
mod Ending
pub mod Transactions
use swe3004_operating_system.Prelude.{
  ℕ, zero, suc, ◌+◌, ◌*◌, Bool, true, false, not, ◌||◌, List, Option, none, some, ltb, ◌==◌,
  if◌then◌else◌, get_or, set, replicate, u32, sub32, int_lt, Outcome, returns, panics, ◌>>=◌,
}
use swe3004_operating_system.Disk.{Block, Disk, bread, bwrite}

-- param.h
abbrev pub max_op_blocks : ℕ
max_op_blocks = 10

abbrev pub log_size : ℕ
log_size = 30

-- `struct log`, with the fields of its `lh` in line. `block` has `log_size` entries.
pub record Log : Type 0 where
  pub start : ℕ
  pub size : ℕ
  pub outstanding : ℕ
  pub committing : Bool
  pub n : ℕ
  pub block : List ℕ

-- Copy blocks `tail`, `tail + 1`, … from the log to their home location.
pub install_from : ℕ → ℕ → Log → Disk → Disk
install_from zero tail lg d = d
install_from (suc left) tail lg d =
    install_from left (tail + 1) lg
      (bwrite (get_or lg.block tail 0) (bread (lg.start + tail + 1) d) d)

pub install_trans : Log → Disk → Disk
install_trans lg d = install_from lg.n 0 lg d

-- `log.lh.block[i] = lh->block[i]`
pub get_blocks : ℕ → ℕ → Block → List ℕ → List ℕ
get_blocks zero i lh block = block
get_blocks (suc left) i lh block = get_blocks left (i + 1) lh (set block i (get_or lh (i + 1) 0))

pub read_head : Log → Disk → Log
read_head lg d =
    let lh = bread lg.start d in
    let n = get_or lh 0 0 in record lg { n = n; block = get_blocks n 0 lh lg.block }

-- `hb->block[i] = log.lh.block[i]`
pub put_blocks : ℕ → ℕ → List ℕ → Block → Block
put_blocks zero i block hb = hb
put_blocks (suc left) i block hb = put_blocks left (i + 1) block (set hb (i + 1) (get_or block i 0))

pub write_head : Log → Disk → Disk
write_head lg d = bwrite lg.start (put_blocks lg.n 0 lg.block (set (bread lg.start d) 0 lg.n)) d

pub recover_from_log : Log → Disk → Log × Disk
recover_from_log lg d =
    let lg' = read_head lg d in
    let d' = install_trans lg' d in
    let cleared = record lg' { n = 0 } in (cleared, write_head cleared d')

-- The log of a machine that starts: all zero but what `readsb` takes from the superblock, whose
-- words 3 and 4 are `nlog` and `logstart`.
unfoldable pub boot_log : Block → Log
boot_log sb = record {
  start = get_or sb 4 0;
  size = get_or sb 3 0;
  outstanding = 0;
  committing = false;
  n = 0;
  block = replicate log_size 0;
}

-- The superblock is block 1.
pub initlog : Disk → Log × Disk
initlog d = recover_from_log (boot_log (bread 1 d)) d

pub write_log_from : ℕ → ℕ → Log → Disk → Disk
write_log_from zero tail lg d = d
write_log_from (suc left) tail lg d =
    write_log_from left (tail + 1) lg
      (bwrite (lg.start + tail + 1) (bread (get_or lg.block tail 0) d) d)

pub write_log : Log → Disk → Disk
write_log lg d = write_log_from lg.n 0 lg d

pub commit : Log → Disk → Log × Disk
commit lg d =
    if ltb 0 lg.n
    then (let d' = install_trans lg (write_head lg (write_log lg d)) in
        let cleared = record lg { n = 0 } in (cleared, write_head cleared d'))
    else (lg, d)

-- One round of the loop of `begin_op`: `none` is a sleep on the log, which starts the loop again.
unfoldable pub begin_op : Log → Option Log
begin_op lg =
    if lg.committing
    then none
    else if int_lt log_size (u32 (lg.n + (lg.outstanding + 1) * max_op_blocks))
    then none
    else some (record lg { outstanding = u32 (lg.outstanding + 1) })

-- The first critical section of `end_op`, with `do_commit`.
pub end_op_leave : Log → Outcome (Bool × Log)
end_op_leave lg =
    let outstanding = sub32 lg.outstanding 1 in
    if lg.committing
    then panics
    else if outstanding == 0
    then returns (true, record lg { outstanding = outstanding; committing = true })
    else returns (false, record lg { outstanding = outstanding })

-- The second one, after `commit`, which runs without the lock while `committing` is set.
pub end_op_committed : Log → Log
end_op_committed lg = record lg { committing = false }

-- The first `i` with `log.lh.block[i] == blockno`, or the end.
pub find_slot : ℕ → ℕ → ℕ → List ℕ → ℕ
find_slot zero i blockno block = i
find_slot (suc left) i blockno block =
    let rest = find_slot left (i + 1) blockno block in
    if get_or block i 0 == blockno then i else rest

-- The loop of `log_write` and the two assignments below it.
pub record_block : ℕ → Log → Log
unfolding find_slot
record_block blockno lg =
    let i = find_slot lg.n 0 blockno lg.block in
    record lg { block = set lg.block i blockno; n = if i == lg.n then lg.n + 1 else lg.n }

-- The tests of `log_write`, which it makes before it takes the lock.
pub log_write_check : Log → Outcome Log
log_write_check lg =
    if not (int_lt lg.n log_size) || not (int_lt lg.n (sub32 lg.size 1))
    then panics
    else if int_lt lg.outstanding 1
    then panics
    else returns lg

-- `log_write` when no other call comes between its tests and its critical section. The pin of the
-- buffer by B_DIRTY is what keeps its data in `cached` (Disk).
pub log_write : ℕ → Log → Outcome Log
unfolding log_write_check
log_write blockno lg = do lg ← log_write_check lg; returns (record_block blockno lg)
