-- ===== src/FileSystem.antt =====
-- fs.c: the file system over the log. Each function runs inside a transaction, with the inode that
-- it changes locked by the caller. There is one device, so the argument `dev` is left out.
pub mod Bits
pub mod Blocks
pub mod Room
pub mod Inodes
pub mod InodeCache
pub mod Paths
use swe3004_operating_system.Prelude.{
  ℕ, zero, suc, ◌+◌, ◌*◌, ◌/◌, List, get_or, replicate, Outcome, returns, ◌>>=◌,
}
use swe3004_operating_system.Disk.{Block, Disk, bread, modify}
use swe3004_operating_system.Log.{Log, log_write}

-- `struct superblock`, the first words of block 1
pub record Super : Type 0 where
  pub size : ℕ
  pub nblocks : ℕ
  pub ninodes : ℕ
  pub nlog : ℕ
  pub logstart : ℕ
  pub inodestart : ℕ
  pub bmapstart : ℕ

unfoldable pub readsb : Disk → Super
readsb d = record {
  size = get_or (bread 1 d) 0 0;
  nblocks = get_or (bread 1 d) 1 0;
  ninodes = get_or (bread 1 d) 2 0;
  nlog = get_or (bread 1 d) 3 0;
  logstart = get_or (bread 1 d) 4 0;
  inodestart = get_or (bread 1 d) 5 0;
  bmapstart = get_or (bread 1 d) 6 0;
}

-- The state that fs.c changes on the disk: the log, the buffers, and `sb`.
pub record Fs : Type 0 where
  pub lg : Log
  pub d : Disk
  pub sb : Super

abbrev pub block_at : ℕ → Fs → Block
block_at b fs = bread b fs.d

-- The data of a buffer changes, `log_write` records it, `brelse` lets it go.
unfoldable pub write_block : ℕ → Block → Fs → Outcome Fs
write_block b data_ fs = do
  lg ← log_write b fs.lg
  returns (record fs { lg = lg; d = modify b data_ fs.d })

-- fs.h
abbrev pub bits_per_block : ℕ
bits_per_block = 512 * 8

abbrev pub words_per_block : ℕ
words_per_block = 128

pub zero_block : Block
zero_block = replicate words_per_block 0
