-- ===== src/Log/Area.antt =====
-- The places that log.c writes to: the log area, and the home blocks that it protects.
use swe3004_operating_system.Prelude.{ℕ, ◌+◌, ◌≤◌, ◌<◌, ◌≡◌, ◌≢◌, ◌⊎◌, get_or, arith}
use swe3004_operating_system.Disk.{Block}
use swe3004_operating_system.Log.{Log}

-- The block number in slot `i` of the in-memory header.
abbrev pub slot : Log → ℕ → ℕ
slot lg i = get_or lg.block i 0

-- Neither the superblock nor a block of the log area.
abbrev pub IsHome : Log → ℕ → Type 0
IsHome lg a = (a ≢ 1) × ((a < lg.start) ⊎ (lg.start + lg.size ≤ a))

abbrev pub IsLogged : Log → ℕ → Type 0
IsLogged lg a = (i : ℕ) × (i < lg.n) × (slot lg i ≡ a)

-- The slots in use name home blocks, and their copies fit into the log area.
pub record HasHomes (lg : Log) : Type 0 where
  pub room : lg.n < lg.size
  pub past_super : 1 < lg.start
  pub homes : (i : ℕ) → i < lg.n → IsHome lg (slot lg i)

-- The log area holds the new contents `m` of the blocks in use, as `cached` or `platter` shows them.
abbrev pub Holds : Log → (ℕ → Block) → (ℕ → Block) → Type 0
Holds lg m view = (i : ℕ) → i < lg.n → view (lg.start + i + 1) ≡ m (slot lg i)

-- The superblock and the log area itself.
abbrev pub IsArea : Log → ℕ → Type 0
IsArea lg a = (a ≡ 1) ⊎ ((lg.start ≤ a) × (a < lg.start + lg.size))

pub slot-ne-area :
    {lg : Log} (v : HasHomes lg) (a : ℕ) → IsArea lg a → (i : ℕ) → i < lg.n → slot lg i ≢ a
slot-ne-area v a h i k e = ground (arith, v.homes i k)
