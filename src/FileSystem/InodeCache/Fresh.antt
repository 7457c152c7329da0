-- ===== src/FileSystem/InodeCache/Fresh.antt =====
-- `ialloc` takes the first free inode of the disk.
use swe3004_operating_system.Prelude.{
  ℕ, ◌%◌, ◌^◌, ◌<◌, ◌≤◌, ◌≡◌, Bool, true, false, ◌==◌, if◌then◌else◌, get_or,
}
use swe3004_operating_system.FileSystem.{Fs, block_at}
use swe3004_operating_system.FileSystem.Inodes.{Inode, inode_block, inode_word, load}
use swe3004_operating_system.FileSystem.Inodes.OnDisk.{loaded}
use swe3004_operating_system.FileSystem.InodeCache.{blank}

-- The type of the inode on the disk is 0.
abbrev pub is_free_inode : ℕ → Fs → Bool
is_free_inode i fs = get_or (block_at (inode_block i fs) fs) (inode_word i) 0 % 2 ^ 16 == 0

-- What `ialloc` has found, and what is read from the disk afterwards.
pub record Taken (start n kind : ℕ) (fs fs' : Fs) : Type 0 where
  pub free : is_free_inode n fs ≡ true
  pub first : (i : ℕ) → start ≤ i → i < n → is_free_inode i fs ≡ false
  pub reads :
      (q : Inode)
      → load q (block_at (inode_block q.inum fs') fs') ≡ (
          if q.inum == n
          then loaded q (blank n kind)
          else load q (block_at (inode_block q.inum fs) fs))
