-- ===== src/Tests/Inodes.antt =====
-- A cache of two inodes.
use swe3004_operating_system.Prelude.{
  ℕ, ◌+◌, ◌≤◌, ◌≡◌, arith, false, true, get_elem?, set, some, replicate, List, [], ◌∷◌, returns,
}
use swe3004_operating_system.Tests.FileSystems.{fs, fs-HasRoom}
use swe3004_operating_system.FileSystem.{Fs}
use swe3004_operating_system.FileSystem.Inodes.{Inode}
use swe3004_operating_system.FileSystem.InodeCache.{iput}
use swe3004_operating_system.FileSystem.InodeCache.Counts.{copies, references}
use swe3004_operating_system.FileSystem.InodeCache.Drop.{Dropped, iput_lem, iput_frees}

abbrev inode_of : (inum ref : ℕ) → Inode
inode_of inum ref = record {
  dev = 1;
  inum = inum;
  ref = ref;
  valid = false;
  kind = 2;
  major = 0;
  minor = 0;
  nlink = 1;
  size = 0;
  addrs = [];
}

abbrev cache : List Inode
cache = inode_of 1 2 ∷ inode_of 7 0 ∷ []

abbrev both : List Inode
both = inode_of 1 2 ∷ inode_of 9 1 ∷ []

-- The last reference to an inode without links.
abbrev unlinked : List Inode
unlinked =
    record (inode_of 1 1) { valid = true; nlink = 0; size = 512; addrs = replicate 13 0 }
    ∷ inode_of 7 0
    ∷ []

freed : (ips' : List Inode) × (fs' : Fs) × (iput 0 unlinked fs ≡ returns (ips', fs'))
freed = iput_frees 4 (record (inode_of 1 1) { size = 512 }) (inode_of 7 0 ∷ []) fs fs-HasRoom

iput_lem_example :
    ((ip ip' : Inode) × (get_elem? unlinked 0 ≡ some ip)
      × (freed.0 ≡ set unlinked 0 ip')
      × Dropped ip ip' fs freed.1)
    × (references freed.0 + 1 ≡ references unlinked)
    × (copies 1 1 freed.0 ≤ copies 1 1 unlinked)
iput_lem_example = iput_lem 1 1 0 unlinked freed.0 fs freed.1 (omega arith, omega arith) freed.2
