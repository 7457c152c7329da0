-- ===== src/FileSystem/Room.antt =====
-- A transaction with room in the log for some more blocks.
use swe3004_operating_system.Prelude.{
  ℕ, suc, ◌+◌, ◌^◌, ◌<◌, ◌≤◌, ◌≡◌, refl, ◌∙◌, arith, length, returns,
}
use swe3004_operating_system.Disk.{Block, modify}
use swe3004_operating_system.Log.{log_size, record_block, log_write}
use swe3004_operating_system.Log.Slots.{log_write-fits, record_block_n, record_block_fixed}
use swe3004_operating_system.FileSystem.{Fs, write_block}

-- `begin_op` has been called, and `k` more blocks fit.
pub record HasRoom (k : ℕ) (fs : Fs) : Type 0 where
  pub small : fs.lg.size < 2 ^ 31
  pub slots : length fs.lg.block ≡ log_size
  pub entered : 0 < fs.lg.outstanding
  pub few : fs.lg.outstanding ≤ 3
  pub area : fs.lg.n + k < fs.lg.size
  pub fits : fs.lg.n + k ≤ log_size

-- What `write_block` leaves.
unfoldable pub written : ℕ → Block → Fs → Fs
written b data_ fs = record fs { lg = record_block b fs.lg; d = modify b data_ fs.d }

pub write_block_lem :
    (k b : ℕ) (data_ : Block) (fs : Fs)
    → HasRoom (suc k) fs
    → (write_block b data_ fs ≡ returns (written b data_ fs)) × HasRoom k (written b data_ fs)
unfolding write_block written
write_block_lem k b data_ fs r =
    let e : log_write b fs.lg ≡ returns (record_block b fs.lg) =
      log_write-fits b fs.lg r.small (omega arith) (omega arith) r.entered (omega arith) in
    let same = record_block_fixed b fs.lg in
    let used = record_block_n b fs.lg (omega arith) in
    (
      rw e refl,
      record {
        small = omega (arith, same);
        slots = used.2 ∙ r.slots;
        entered = omega (arith, same);
        few = omega (arith, same);
        area = omega (arith, same, used);
        fits = omega (arith, same, used);
      },
    )

pub HasRoom-less : (k : ℕ) (fs : Fs) → HasRoom (suc k) fs → HasRoom k fs
HasRoom-less k fs r = record {
  small = r.small;
  slots = r.slots;
  entered = r.entered;
  few = r.few;
  area = omega arith;
  fits = omega arith;
}
