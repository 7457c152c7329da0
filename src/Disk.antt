-- ===== src/Disk.antt =====
-- What log.c sees of the buffer cache (bio.c) over one disk: `bread` and `bwrite` by block number.
-- A block is its 32-bit words, BSIZE / 4 of them. Power may fail: `power` counts the block writes
-- that still reach the platter, and a write after that is lost with the memory.
use swe3004_operating_system.Prelude.{ℕ, ◌-◌, List, ◌==◌, if◌then◌else◌, update}

abbrev pub Block : Type 0
Block = List ℕ

-- `platter` outlives a crash; `cached` is what `bread` finds in the buffer of a block.
pub record Disk : Type 0 where
  pub platter : ℕ → Block
  pub cached : ℕ → Block
  pub power : ℕ

unfoldable pub bread : ℕ → Disk → Block
bread b d = d.cached b

-- The caller changes the data of the buffer that it holds.
unfoldable pub modify : ℕ → Block → Disk → Disk
modify b data_ d = record d { cached = update d.cached b data_ }

unfoldable pub bwrite : ℕ → Block → Disk → Disk
bwrite b data_ d = record d {
  cached = update d.cached b data_;
  platter = if d.power == 0 then d.platter else update d.platter b data_;
  power = d.power - 1;
}

-- The machine stops and starts again: the buffers are lost. `power` is what the next run has.
unfoldable pub crash : ℕ → Disk → Disk
crash power d = record { platter = d.platter; cached = d.platter; power = power }
