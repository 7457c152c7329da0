-- ===== src/FileSystem/Blocks.antt =====
-- fs.c: the free map, with `bzero`, `balloc` and `bfree`.
pub mod Scan
pub mod Map
pub mod Alloc
use swe3004_operating_system.Prelude.{
  ℕ, zero, suc, ◌+◌, ◌-◌, ◌/◌, ◌%◌, Bool, true, false, not, ◌&&◌, Option, none, some, ltb, ◌==◌,
  if◌then◌else◌, Outcome, returns, panics, ◌>>=◌,
}
use swe3004_operating_system.Disk.{Block}
use swe3004_operating_system.FileSystem.{
  Super, Fs, block_at, write_block, bits_per_block, zero_block,
}
use swe3004_operating_system.FileSystem.Bits.{test_block, use_block, release_block}

-- `BBLOCK`
abbrev pub map_block : ℕ → Fs → ℕ
map_block b fs = b / bits_per_block + fs.sb.bmapstart

unfoldable pub bzero : ℕ → Fs → Outcome Fs
bzero bno fs = write_block bno zero_block fs

-- The inner loop of `balloc`, with `left` rounds to go: the first free bit from `bi` on.
pub free_bit : (left bi b size : ℕ) → Block → Option ℕ
free_bit zero bi b size block = none
free_bit (suc left) bi b size block =
    let rest = free_bit left (bi + 1) b size block in
    if not (ltb (b + bi) size) then none else if test_block bi block then rest else some bi

-- The outer loop, with at most `fuel` rounds.
pub free_block : (fuel b : ℕ) → Fs → Option ℕ
free_block zero b fs = none
free_block (suc fuel) b fs =
    let rest = free_block fuel (b + bits_per_block) fs in
    let found = free_bit bits_per_block 0 b fs.sb.size (block_at (map_block b fs) fs) in
    if not (ltb b fs.sb.size) then none else elim found [ none ↦ rest | some bi ↦ some (b + bi) ]

-- What `balloc` does with the block that the loops find.
pub take_block : ℕ → Fs → Outcome (ℕ × Fs)
take_block n fs = do
  fs ←
      write_block (map_block n fs) (use_block (n % bits_per_block) (block_at (map_block n fs) fs))
        fs
  fs ← bzero n fs
  returns (n, fs)

-- There is a round for each block of the map, and more.
pub balloc : Fs → Outcome (ℕ × Fs)
unfolding free_block take_block
balloc fs = elim (free_block (fs.sb.size + 1) 0 fs) [ none ↦ panics | some n ↦ take_block n fs ]

pub bfree : ℕ → Fs → Outcome Fs
bfree b fs =
    let block = block_at (map_block b fs) fs in
    if test_block (b % bits_per_block) block
    then write_block (map_block b fs) (release_block (b % bits_per_block) block) fs
    else panics
