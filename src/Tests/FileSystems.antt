-- ===== src/Tests/FileSystems.antt =====
-- A disk of 1000 blocks with the first 60 in use, and a file with an indirect block.
use swe3004_operating_system.Prelude.{
  ℕ, ◌-◌, ◌^◌, ◌<◌, ◌==◌, ◌≡◌, ◌≢◌, refl, arith, true, false, [], ◌∷◌, ◌==◌, if◌then◌else◌, length,
  replicate, returns,
}
use swe3004_operating_system.Disk.{Block, bread}
use swe3004_operating_system.FileSystem.{Fs, block_at, words_per_block}
use swe3004_operating_system.FileSystem.Bits.{bit, test_block}
use swe3004_operating_system.FileSystem.Room.{HasRoom}
use swe3004_operating_system.FileSystem.Blocks.{map_block, balloc, bfree}
use swe3004_operating_system.FileSystem.Blocks.Scan.{is_used}
use swe3004_operating_system.FileSystem.Blocks.Map.{HasMap, IsOutside, Marked}
use swe3004_operating_system.FileSystem.Blocks.Alloc.{Allocated, balloc_lem, bfree_lem}
use swe3004_operating_system.FileSystem.Inodes.{Inode, inode_block, iupdate, ilock, bmap}
use swe3004_operating_system.FileSystem.Inodes.Slots.{HasSpace, IsIndirect}
use swe3004_operating_system.FileSystem.Inodes.Bmap.{Mapped, bmap_lem}
use swe3004_operating_system.FileSystem.Inodes.OnDisk.{Fits, loaded, ilock-iupdate}

-- The bits of blocks 0 to 59 are set.
abbrev bitmap : Block
bitmap = (2 ^ 32 - 1) ∷ (2 ^ 28 - 1) ∷ replicate 126 0

abbrev blocks : ℕ → Block
blocks b = if b == 45 then bitmap else replicate 128 0

abbrev pub fs : Fs
fs = record {
  lg = record {
    start = 2;
    size = 31;
    outstanding = 1;
    committing = false;
    n = 0;
    block = replicate 30 0;
  };
  d = record { platter = blocks; cached = blocks; power = 100 };
  sb = record {
    size = 1000;
    nblocks = 941;
    ninodes = 90;
    nlog = 31;
    logstart = 2;
    inodestart = 33;
    bmapstart = 45;
  };
}

only_map : (b : ℕ) → b < 1000 → map_block b fs ≡ 45
only_map b h = omega arith

map_full : is_used 45 fs ≡ true
unfolding is_used test_block bit bread
map_full = refl

fs-HasMap : HasMap fs
unfolding bread
fs-HasMap = record {
  width = λ b h. rw (only_map b h) refl;
  inside = λ b h. omega (arith, only_map b h);
  own = λ b h. rw (only_map b h) map_full;
}

pub fs-HasRoom : HasRoom 6 fs
fs-HasRoom = record {
  small = omega arith;
  slots = refl;
  entered = omega arith;
  few = omega arith;
  area = omega arith;
  fits = omega arith;
}

free_60 : is_used 60 fs ≡ false
unfolding is_used test_block bit bread
free_60 = refl

free_61 : is_used 61 fs ≡ false
unfolding is_used test_block bit bread
free_61 = refl

boot_used : is_used 0 fs ≡ true
unfolding is_used test_block bit bread
boot_used = refl

used_59 : is_used 59 fs ≡ true
unfolding is_used test_block bit bread
used_59 = refl

balloc_lem_example :
    (n : ℕ) × (fs' : Fs) × (balloc fs ≡ returns (n, fs')) × Allocated n fs fs' × HasRoom 4 fs'
balloc_lem_example = balloc_lem 4 60 fs fs-HasMap fs-HasRoom (omega arith) free_60

IsOutside-59 : IsOutside 59 fs
IsOutside-59 = λ b h. omega (arith, only_map b h)

bfree_lem_example :
    (fs' : Fs) × (bfree 59 fs ≡ returns fs') × Marked 59 false fs fs' × HasMap fs' × HasRoom 5 fs'
bfree_lem_example = bfree_lem 59 5 fs fs-HasMap fs-HasRoom (omega arith) used_59 IsOutside-59

-- Block 59 is the indirect block of the file.
abbrev file : Inode
file = record {
  dev = 1;
  inum = 5;
  ref = 1;
  valid = true;
  kind = 2;
  major = 0;
  minor = 0;
  nlink = 1;
  size = 9000;
  addrs = 50 ∷ 51 ∷ 52 ∷ 53 ∷ 54 ∷ 55 ∷ 56 ∷ 57 ∷ 58 ∷ 49 ∷ 48 ∷ 47 ∷ 59 ∷ [];
}

space : HasSpace fs 60 61
space = record {
  map = fs-HasMap;
  boot = boot_used;
  in1 = omega arith;
  in2 = omega arith;
  free1 = free_60;
  free2 = free_61;
  differ = λ e. omega arith;
}

IsIndirect-59 : IsIndirect 59 fs
unfolding bread
IsIndirect-59 = record { inside = omega arith; used = used_59; away = IsOutside-59; width = refl }

bmap_lem_example :
    (a : ℕ) × (ip' : Inode) × (fs' : Fs) × (bmap file 40 fs ≡ returns (a, ip', fs'))
    × (a ≢ 0)
    × (bmap ip' 40 fs' ≡ returns (a, ip', fs'))
    × HasMap fs'
    × Mapped 40 a file ip' fs fs'
bmap_lem_example =
    bmap_lem 1 40 60 61 file fs space fs-HasRoom refl (λ h. IsIndirect-59) (omega arith)

-- A second inode of the same block, not read yet.
abbrev unread : Inode
unread = record file { inum = 5; ref = 1; valid = false; kind = 0 }

inode_width : length (block_at (inode_block 5 fs) fs) ≡ words_per_block
unfolding bread
inode_width = refl

file-Fits : Fits file
file-Fits = record { kind = omega arith; minor = omega arith; slots = refl }

ilock-iupdate_example :
    (fs' : Fs) × (iupdate file fs ≡ returns fs')
    × (ilock unread fs'
        ≡ (if unread.inum == file.inum then returns (loaded unread file) else ilock unread fs))
    × HasRoom 5 fs'
ilock-iupdate_example =
    ilock-iupdate 5 file unread fs fs-HasRoom file-Fits (λ e. omega arith) inode_width (omega arith)
      (omega arith) refl
