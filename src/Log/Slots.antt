-- ===== src/Log/Slots.antt =====
-- `log_write`: one slot for each block, and no more slots than the reservation allows.
use swe3004_operating_system.Prelude.{
  ℕ, zero, suc, ◌+◌, ◌^◌, ◌≤◌, ◌<◌, ◌≡◌, refl, sym, ◌≢◌, ◌⊎◌, inl, inr, List, ◌==◌, if◌then◌else◌,
  arith, update, length, get_or, length-set, get_or-set_self, get_or-set_ne, Bool-cases, returns,
}
use swe3004_operating_system.Disk.{Block, Disk, modify}
use swe3004_operating_system.Log.{
  Log, log_size, find_slot, record_block, log_write_check, log_write,
}
use swe3004_operating_system.Log.Area.{slot, IsHome, IsLogged}
use swe3004_operating_system.Log.Commit.{IsReady}

-- The loop ends at a slot that holds the block, or at the end.
find_slot_lem :
    (left i blockno : ℕ) (block : List ℕ)
    → let j = find_slot left i blockno block in
      (i ≤ j) × (j ≤ i + left) × (j < i + left → get_or block j 0 ≡ blockno)
unfolding find_slot
find_slot_lem zero i blockno block = (omega arith, omega arith, λ h. absurd (omega arith))
find_slot_lem (suc left) i blockno block = ground (arith, find_slot_lem left (i + 1) blockno block)

pub record_block_fixed :
    (b : ℕ) (lg : Log)
    → let lg' = record_block b lg in
      (lg'.start ≡ lg.start)
      × (lg'.size ≡ lg.size)
      × (lg'.outstanding ≡ lg.outstanding)
      × (lg'.committing ≡ lg.committing)
unfolding record_block
record_block_fixed b lg = (refl, refl, refl, refl)

module _ (b : ℕ) (lg : Log) (room : lg.n < length lg.block) where
  -- The slot that `log_write` fills.
  target : ℕ
  target = find_slot lg.n 0 b lg.block

  target_bounds : (target ≤ lg.n) × (target < lg.n → slot lg target ≡ b)
  unfolding target
  target_bounds = ground (arith, find_slot_lem lg.n 0 b lg.block)

  pub record_block_n :
      (lg.n ≤ (record_block b lg).n)
      × ((record_block b lg).n ≤ lg.n + 1)
      × (length (record_block b lg).block ≡ length lg.block)
  unfolding record_block
  record_block_n = ground (arith, length-set lg.block (find_slot lg.n 0 b lg.block) b)

  n-record_block : (record_block b lg).n ≡ (if target == lg.n then lg.n + 1 else lg.n)
  unfolding record_block target
  n-record_block = refl

  slot-target : (slot (record_block b lg) target ≡ b) × (target < (record_block b lg).n)
  unfolding record_block target
  slot-target =
      ground
        (arith, target_bounds, get_or-set_self lg.block target b 0 (omega (arith, target_bounds)))

  slot_other : (j : ℕ) → j ≢ target → slot (record_block b lg) j ≡ slot lg j
  unfolding record_block target
  slot_other j h = get_or-set_ne lg.block target j b 0 (λ e. h (sym e))

  -- Each slot in use holds the block, or what it held before.
  pub record_block_slots :
      (j : ℕ)
      → j < (record_block b lg).n
      → (slot (record_block b lg) j ≡ b) ⊎ ((j < lg.n) × (slot (record_block b lg) j ≡ slot lg j))
  record_block_slots j h = elim (Bool-cases (j == target)) [
    | inl e ↦ inl (ground (arith, slot-target))
    | inr e ↦ inr (ground (arith, n-record_block, target_bounds), slot_other j (ground arith))
  ]

  pub record_block-IsLogged : IsLogged (record_block b lg) b
  record_block-IsLogged = (target, slot-target.1, slot-target.0)

  -- No block loses its slot.
  pub IsLogged-record_block : (a : ℕ) → IsLogged lg a → IsLogged (record_block b lg) a
  IsLogged-record_block a (j, h, e) = elim (Bool-cases (j == target)) [
    | inl same ↦ (target, slot-target.1, ground (arith, slot-target, target_bounds))
    | inr other ↦ (j, omega (arith, record_block_n), ground (arith, slot_other j))
  ]

-- The tests of `log_write`, for a log area below 2 ^ 31 blocks.
pub log_write-fits :
    (b : ℕ) (lg : Log)
    → lg.size < 2 ^ 31
    → lg.n < log_size
    → lg.n + 1 < lg.size
    → 0 < lg.outstanding
    → lg.outstanding < 2 ^ 31
    → log_write b lg ≡ returns (record_block b lg)
unfolding log_write log_write_check
log_write-fits b lg small few room some_op ops = ground arith

-- A modified home block with a slot keeps the log ready.
pub record_block-IsReady :
    (b : ℕ) (data_ : Block) {lg : Log} {d : Disk}
    → IsReady lg d
    → length lg.block ≡ log_size
    → lg.n < log_size
    → lg.n + 1 < lg.size
    → IsHome lg b
    → IsReady (record_block b lg) (modify b data_ d)
unfolding modify update
record_block-IsReady b data_ {lg} {d} r len few room home =
    let short : lg.n < length lg.block = omega arith in
    record {
      homes = record {
        room = omega (arith, record_block_n b lg short, record_block_fixed b lg);
        past_super = omega (arith, record_block_fixed b lg, r.homes.past_super);
        homes = λ i h.
            ground
              (arith, record_block_fixed b lg, record_block_slots b lg short i h, r.homes.homes i);
      };
      small = omega (arith, record_block_n b lg short);
      layout = record {
        start = ground (arith, record_block_fixed b lg, r.layout.start);
        size = ground (arith, record_block_fixed b lg, r.layout.size);
        header = ground (arith, record_block_fixed b lg, r.layout.header);
      };
      empty = ground (arith, record_block_fixed b lg, r.empty);
      header = ground (arith, record_block_fixed b lg, r.header, r.homes.room);
      rest = λ a h. elim (Bool-cases (a == b)) [
        | inl same ↦ inr (ground (arith, record_block-IsLogged b lg short))
        | inr other ↦ elim (r.rest a (ground (arith, record_block_fixed b lg))) [
          | inl e ↦ inl (ground (arith))
          | inr l ↦ inr (IsLogged-record_block b lg short a l)
        ]
      ];
    }
