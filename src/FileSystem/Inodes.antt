-- ===== src/FileSystem/Inodes.antt =====
-- fs.c: inodes on the disk and in memory, and the blocks of a file.
pub mod Slots
pub mod Bmap
pub mod Words
pub mod OnDisk
use swe3004_operating_system.Prelude.{
  ℕ, zero, suc, ◌+◌, ◌-◌, ◌*◌, ◌/◌, ◌%◌, ◌^◌, Bool, true, false, List, [], ◌∷◌, ltb, ◌==◌,
  if◌then◌else◌, get_or, set, int_lt, Outcome, returns, panics, ◌>>=◌,
}
use swe3004_operating_system.Disk.{Block}
use swe3004_operating_system.FileSystem.{Fs, block_at, write_block, words_per_block}
use swe3004_operating_system.FileSystem.Blocks.{balloc, bfree}

-- `struct inode` less its sleep lock. The four `short` fields are 16-bit patterns; `kind` is `type`.
pub record Inode : Type 0 where
  pub dev : ℕ
  pub inum : ℕ
  pub ref : ℕ
  pub valid : Bool
  pub kind : ℕ
  pub major : ℕ
  pub minor : ℕ
  pub nlink : ℕ
  pub size : ℕ
  pub addrs : List ℕ

-- fs.h
abbrev pub ndirect : ℕ
ndirect = 12

abbrev pub nindirect : ℕ
nindirect = words_per_block

-- `sizeof(struct dinode)` is 16 words
abbrev pub inodes_per_block : ℕ
inodes_per_block = 8

-- `IBLOCK`, and the word of the block where the inode starts
abbrev pub inode_block : ℕ → Fs → ℕ
inode_block i fs = i / inodes_per_block + fs.sb.inodestart

abbrev pub inode_word : ℕ → ℕ
inode_word i = i % inodes_per_block * 16

-- `struct dinode`, as the words that it fills
pub dinode : Inode → List ℕ
dinode ip = (ip.kind + ip.major * 2 ^ 16) ∷ (ip.minor + ip.nlink * 2 ^ 16) ∷ ip.size ∷ ip.addrs

pub put_words : ℕ → List ℕ → Block → Block
put_words i [] block = block
put_words i (w ∷ ws) block = put_words (i + 1) ws (set block i w)

pub get_words : (left i : ℕ) → Block → List ℕ
get_words zero i block = []
get_words (suc left) i block = get_or block i 0 ∷ get_words left (i + 1) block

pub iupdate : Inode → Fs → Outcome Fs
unfolding put_words dinode
iupdate ip fs =
    write_block (inode_block ip.inum fs)
      (put_words (inode_word ip.inum) (dinode ip) (block_at (inode_block ip.inum fs) fs)) fs

-- What `ilock` reads from the disk.
pub load : Inode → Block → Inode
load ip block =
    let i = inode_word ip.inum in
    record ip {
      kind = get_or block i 0 % 2 ^ 16;
      major = get_or block i 0 / 2 ^ 16;
      minor = get_or block (i + 1) 0 % 2 ^ 16;
      nlink = get_or block (i + 1) 0 / 2 ^ 16;
      size = get_or block (i + 2) 0;
      addrs = get_words (ndirect + 1) (i + 3) block;
      valid = true;
    }

-- `ilock` with the sleep lock of the inode in hand; a null pointer is no inode.
pub ilock : Inode → Fs → Outcome Inode
unfolding load
ilock ip fs =
    let ip' = load ip (block_at (inode_block ip.inum fs) fs) in
    if int_lt ip.ref 1
    then panics
    else if ip.valid
    then returns ip
    else if ip'.kind == 0
    then panics
    else returns ip'

-- The block in slot `i` of `addrs`, allocated if there is none.
pub slot_block : ℕ → Inode → Fs → Outcome (ℕ × Inode × Fs)
slot_block i ip fs =
    if get_or ip.addrs i 0 == 0
    then (do (addr, fs) ← balloc fs; returns (addr, record ip { addrs = set ip.addrs i addr }, fs))
    else returns (get_or ip.addrs i 0, ip, fs)

-- Entry `i` of the indirect block `ind`, allocated if there is none.
pub indirect_block : (ind i : ℕ) → Inode → Fs → Outcome (ℕ × Inode × Fs)
indirect_block ind i ip fs =
    if get_or (block_at ind fs) i 0 == 0
    then (do
      (addr, fs) ← balloc fs
      fs ← write_block ind (set (block_at ind fs) i addr) fs
      returns (addr, ip, fs))
    else returns (get_or (block_at ind fs) i 0, ip, fs)

pub bmap : Inode → (bn : ℕ) → Fs → Outcome (ℕ × Inode × Fs)
unfolding slot_block indirect_block
bmap ip bn fs =
    if ltb bn ndirect
    then slot_block bn ip fs
    else if ltb (bn - ndirect) nindirect
    then (do (ind, ip, fs) ← slot_block ndirect ip fs; indirect_block ind (bn - ndirect) ip fs)
    else panics
