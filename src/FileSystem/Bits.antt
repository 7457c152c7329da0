-- ===== src/FileSystem/Bits.antt =====
-- Bits of a bitmap block. Bit `bi % 8` of byte `bi / 8` is bit `bi % 32` of word `bi / 32`, since
-- the machine stores the low byte of a word first.
pub mod Laws
use swe3004_operating_system.Prelude.{
  ℕ, zero, suc, ◌+◌, ◌*◌, ◌/◌, ◌%◌, Bool, true, false, ◌==◌, get_or, set,
}
use swe3004_operating_system.Disk.{Block}

-- `w & 1 << k` as a test, `w | 1 << k` and `w & ~(1 << k)`
unfoldable pub bit : (k w : ℕ) → Bool
bit zero w = w % 2 == 1
bit (suc k) w = bit k (w / 2)

pub set_bit : (k w : ℕ) → ℕ
set_bit zero w = w / 2 * 2 + 1
set_bit (suc k) w = set_bit k (w / 2) * 2 + w % 2

pub clear_bit : (k w : ℕ) → ℕ
clear_bit zero w = w / 2 * 2
clear_bit (suc k) w = clear_bit k (w / 2) * 2 + w % 2

unfoldable pub test_block : (bi : ℕ) → Block → Bool
unfolding bit
test_block bi block = bit (bi % 32) (get_or block (bi / 32) 0)

pub use_block : (bi : ℕ) → Block → Block
unfolding set_bit
use_block bi block = set block (bi / 32) (set_bit (bi % 32) (get_or block (bi / 32) 0))

pub release_block : (bi : ℕ) → Block → Block
unfolding clear_bit
release_block bi block = set block (bi / 32) (clear_bit (bi % 32) (get_or block (bi / 32) 0))
