-- ===== src/FileSystem/InodeCache.antt =====
-- fs.c: the cache of inodes. A `struct inode *` is its index in `icache.inode`; `icache.lock` is held
-- around each access to the cache, and the sleep lock of an inode is its holder's.
pub mod Counts
pub mod Drop
pub mod Fresh
use swe3004_operating_system.Prelude.{
  ℕ, zero, suc, ◌+◌, ◌-◌, ◌%◌, ◌^◌, replicate, Bool, true, false, ◌&&◌, List, [], ◌∷◌, Option, none,
  some, ◌==◌, if◌then◌else◌, get_or, set, u32, sub32, int_lt, Outcome, returns, panics, ◌>>=◌,
}
use swe3004_operating_system.Disk.{Block}
use swe3004_operating_system.FileSystem.{Fs, block_at}
use swe3004_operating_system.FileSystem.Blocks.{bfree}
use swe3004_operating_system.FileSystem.Inodes.{
  Inode, ndirect, nindirect, inode_block, inode_word, iupdate,
}

abbrev pub is_active : (dev inum : ℕ) → Inode → Bool
is_active dev inum ip = int_lt 0 ip.ref && (ip.dev == dev) && (ip.inum == inum)

-- The loop of `iget` where it finds the inode: one reference more.
unfoldable pub find_active : (dev inum : ℕ) → List Inode → Option (ℕ × List Inode)
find_active dev inum [] = none
find_active dev inum (ip ∷ ips) =
    let rest = find_active dev inum ips in
    if is_active dev inum ip
    then some (0, record ip { ref = u32 (ip.ref + 1) } ∷ ips)
    else elim rest [ none ↦ none | some (i, ips') ↦ some (suc i, ip ∷ ips') ]

-- An entry without references becomes that of the inode.
abbrev pub recycled : (dev inum : ℕ) → Inode → Inode
recycled dev inum ip = record ip { dev = dev; inum = inum; ref = 1; valid = false }

-- The first entry without references, which the loop remembers, and what `iget` does with it.
unfoldable pub take_empty : (dev inum : ℕ) → List Inode → Option (ℕ × List Inode)
take_empty dev inum [] = none
take_empty dev inum (ip ∷ ips) =
    let rest = take_empty dev inum ips in
    if ip.ref == 0
    then some (0, recycled dev inum ip ∷ ips)
    else elim rest [ none ↦ none | some (i, ips') ↦ some (suc i, ip ∷ ips') ]

unfoldable pub iget : (dev inum : ℕ) → List Inode → Outcome (ℕ × List Inode)
iget dev inum ips = elim (find_active dev inum ips) [
  | some found ↦ returns found
  | none ↦ elim (take_empty dev inum ips) [ none ↦ panics | some found ↦ returns found ]
]

-- A free inode on the disk, taken with all other fields 0.
abbrev pub blank : (inum kind : ℕ) → Inode
blank inum kind = record {
  dev = 0;
  inum = inum;
  ref = 0;
  valid = false;
  kind = kind;
  major = 0;
  minor = 0;
  nlink = 0;
  size = 0;
  addrs = replicate (ndirect + 1) 0;
}

-- The loop of `ialloc`, with `left` rounds to go. What is cleared and typed is a `struct dinode`.
pub ialloc_from : (left inum kind : ℕ) → Fs → Outcome (ℕ × Fs)
ialloc_from zero inum kind fs = panics
ialloc_from (suc left) inum kind fs =
    let rest = ialloc_from left (inum + 1) kind fs in
    let block = block_at (inode_block inum fs) fs in
    if get_or block (inode_word inum) 0 % 2 ^ 16 == 0
    then (do fs ← iupdate (blank inum kind) fs; returns (inum, fs))
    else rest

pub ialloc : (dev kind : ℕ) → List Inode → Fs → Outcome (ℕ × List Inode × Fs)
unfolding ialloc_from
ialloc dev kind ips fs = do
  (inum, fs) ← ialloc_from (fs.sb.ninodes - 1) 1 kind fs
  (i, ips) ← iget dev inum ips
  returns (i, ips, fs)

unfoldable pub idup : ℕ → List Inode → List Inode
idup i [] = []
idup zero (ip ∷ ips) = record ip { ref = u32 (ip.ref + 1) } ∷ ips
idup (suc i) (ip ∷ ips) = ip ∷ idup i ips

-- In both halves of `itrunc`: a slot in use is freed and cleared.
pub clear_slot : ℕ → Inode → Fs → Outcome (Inode × Fs)
clear_slot i ip fs = do
  fs ← bfree (get_or ip.addrs i 0) fs
  returns (record ip { addrs = set ip.addrs i 0 }, fs)

-- The first loop, with `left` rounds to go from slot `i` on.
pub clear_slots : (left i : ℕ) → Inode → Fs → Outcome (Inode × Fs)
unfolding clear_slot
clear_slots zero i ip fs = returns (ip, fs)
clear_slots (suc left) i ip fs = do
  (ip, fs) ← if get_or ip.addrs i 0 == 0 then returns (ip, fs) else clear_slot i ip fs
  clear_slots left (i + 1) ip fs

-- The loop over the entries of the indirect block `a`.
pub free_entries : (left j : ℕ) → Block → Fs → Outcome Fs
free_entries zero j a fs = returns fs
free_entries (suc left) j a fs = do
  fs ← if get_or a j 0 == 0 then returns fs else bfree (get_or a j 0) fs
  free_entries left (j + 1) a fs

pub clear_indirect : Inode → Fs → Outcome (Inode × Fs)
unfolding free_entries clear_slot
clear_indirect ip fs =
    let ind = get_or ip.addrs ndirect 0 in
    if ind == 0
    then returns (ip, fs)
    else (do fs ← free_entries nindirect 0 (block_at ind fs) fs; clear_slot ndirect ip fs)

pub itrunc : Inode → Fs → Outcome (Inode × Fs)
itrunc ip fs = do
  (ip, fs) ← clear_slots ndirect 0 ip fs
  (ip, fs) ← clear_indirect ip fs
  fs ← iupdate (record ip { size = 0 }) fs
  returns (record ip { size = 0 }, fs)

-- The first half of `iput`: the inode has no link, and no other reference.
unfoldable pub free_unlinked : Inode → Fs → Outcome (Inode × Fs)
free_unlinked ip fs =
    if ip.valid && (ip.nlink == 0) && (ip.ref == 1)
    then (do
      (ip, fs) ← itrunc ip fs
      fs ← iupdate (record ip { kind = 0 }) fs
      returns (record ip { kind = 0; valid = false }, fs))
    else returns (ip, fs)

unfoldable pub iput : ℕ → List Inode → Fs → Outcome (List Inode × Fs)
iput i [] fs = panics
iput zero (ip ∷ ips) fs = do
  (ip, fs) ← free_unlinked ip fs
  returns (record ip { ref = sub32 ip.ref 1 } ∷ ips, fs)
iput (suc i) (ip ∷ ips) fs = do (ips, fs) ← iput i ips fs; returns (ip ∷ ips, fs)

-- `struct stat`
pub record Stat : Type 0 where
  pub dev : ℕ
  pub ino : ℕ
  pub kind : ℕ
  pub nlink : ℕ
  pub size : ℕ

unfoldable pub stati : Inode → Stat
stati ip = record { dev = ip.dev; ino = ip.inum; kind = ip.kind; nlink = ip.nlink; size = ip.size }
