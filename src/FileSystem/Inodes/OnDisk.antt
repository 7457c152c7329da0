-- ===== src/FileSystem/Inodes/OnDisk.antt =====
-- What `iupdate` writes is what `ilock` reads.
use swe3004_operating_system.Prelude.{
  ℕ, suc, ◌+◌, ◌-◌, ◌*◌, ◌/◌, ◌%◌, ◌^◌, ◌<◌, ◌≤◌, ◌≡◌, refl, ◌≢◌, ap, sym, ◌∙◌, inl, inr, true,
  false, ltb, leb, ◌&&◌, ◌==◌, if◌then◌else◌, arith, length, get_or, int_lt, Bool-cases, returns,
  panics,
}
use swe3004_operating_system.Disk.{Block}
use swe3004_operating_system.FileSystem.{Super, Fs, block_at, words_per_block}
use swe3004_operating_system.FileSystem.Room.{HasRoom, written, write_block_lem}
use swe3004_operating_system.FileSystem.Blocks.Map.{block_at-written, sb-written}
use swe3004_operating_system.FileSystem.Inodes.{
  Inode, ndirect, inodes_per_block, inode_block, inode_word, dinode, put_words, get_words, iupdate,
  load, ilock,
}
use swe3004_operating_system.FileSystem.Inodes.Words.{
  get_or-put_words, get_words_lem, get_words_same,
}

-- The fields fit into their places on the disk.
pub record Fits (ip : Inode) : Type 0 where
  pub kind : ip.kind < 2 ^ 16
  pub minor : ip.minor < 2 ^ 16
  pub slots : length ip.addrs ≡ ndirect + 1

-- `q` with the fields of `ip` that lie on the disk.
abbrev pub loaded : Inode → Inode → Inode
loaded q ip = record q {
  kind = ip.kind;
  major = ip.major;
  minor = ip.minor;
  nlink = ip.nlink;
  size = ip.size;
  addrs = ip.addrs;
  valid = true;
}

length-dinode : (ip : Inode) → Fits ip → length (dinode ip) ≡ 16
unfolding dinode
length-dinode ip f = omega (arith, f.slots)

pub inode_room : (ip : Inode) → Fits ip → inode_word ip.inum + length (dinode ip) ≤ words_per_block
inode_room ip f = omega (arith, length-dinode ip f)

-- Word `j` of the inode in the block that `iupdate` writes.
word-put :
    (ip : Inode) (block : Block) (j : ℕ)
    → Fits ip
    → length block ≡ words_per_block
    → j < 16
    → get_or (put_words (inode_word ip.inum) (dinode ip) block) (inode_word ip.inum + j) 0
      ≡ get_or (dinode ip) j 0
word-put ip block j f width small =
    let i = inode_word ip.inum in
    let inside : (leb i (i + j) && ltb (i + j) (i + length (dinode ip))) ≡ true =
      ground (arith, length-dinode ip f) in
    let index : i + j - i ≡ j = omega arith in
    get_or-put_words i (dinode ip) block (i + j) (omega (arith, inode_room ip f))
    ∙ rw (inside, index) refl

load_words :
    (q ip : Inode) (block : Block)
    → Fits ip
    → get_or block (inode_word q.inum) 0 ≡ ip.kind + ip.major * 2 ^ 16
    → get_or block (inode_word q.inum + 1) 0 ≡ ip.minor + ip.nlink * 2 ^ 16
    → get_or block (inode_word q.inum + 2) 0 ≡ ip.size
    → get_words (ndirect + 1) (inode_word q.inum + 3) block ≡ ip.addrs
    → load q block ≡ loaded q ip
unfolding load
load_words q ip block f w0 w1 w2 rest =
    let kind : (ip.kind + ip.major * 2 ^ 16) % 2 ^ 16 ≡ ip.kind = omega (arith, f.kind) in
    let major : (ip.kind + ip.major * 2 ^ 16) / 2 ^ 16 ≡ ip.major = omega (arith, f.kind) in
    let minor : (ip.minor + ip.nlink * 2 ^ 16) % 2 ^ 16 ≡ ip.minor = omega (arith, f.minor) in
    let nlink : (ip.minor + ip.nlink * 2 ^ 16) / 2 ^ 16 ≡ ip.nlink = omega (arith, f.minor) in
    rw (w0, w1, w2, rest, kind, major, minor, nlink) refl

load-put :
    (ip q : Inode) (block : Block)
    → Fits ip
    → length block ≡ words_per_block
    → q.inum ≡ ip.inum
    → load q (put_words (inode_word ip.inum) (dinode ip) block) ≡ loaded q ip
unfolding dinode
load-put ip q block f width same =
    let i = inode_word ip.inum in
    let block' = put_words i (dinode ip) block in
    let at : inode_word q.inum ≡ i = ap inode_word same in
    let word = λ (j : ℕ) (h : j < 16). word-put ip block j f width h in
    load_words q ip block' f (ap (λ w. get_or block' w 0) (at ∙ omega arith) ∙ word 0 (omega arith))
      (ap (λ w. get_or block' (w + 1) 0) at ∙ word 1 (omega arith))
      (ap (λ w. get_or block' (w + 2) 0) at ∙ word 2 (omega arith))
      (ap (λ w. get_words (ndirect + 1) (w + 3) block') at
        ∙ get_words_lem (ndirect + 1) (i + 3) block' ip.addrs f.slots (λ j h.
          let next : i + 3 + j ≡ i + suc (suc (suc j)) = omega arith in
          rw next (word (suc (suc (suc j))) (omega arith))))

-- The words of another inode of the block.
load-other :
    (ip q : Inode) (block : Block)
    → Fits ip
    → length block ≡ words_per_block
    → inode_word q.inum ≢ inode_word ip.inum
    → load q (put_words (inode_word ip.inum) (dinode ip) block) ≡ load q block
unfolding load
load-other ip q block f width differ =
    let i = inode_word ip.inum in
    let block' = put_words i (dinode ip) block in
    let word : (j : ℕ)
        → j < 16
        → get_or block' (inode_word q.inum + j) 0 ≡ get_or block (inode_word q.inum + j) 0 =
      λ j h.
        get_or-put_words i (dinode ip) block (inode_word q.inum + j)
          (omega (arith, inode_room ip f))
        ∙ (let outside : (leb i (inode_word q.inum + j)
                  && ltb (inode_word q.inum + j) (i + length (dinode ip)))
                ≡ false =
              ground (arith, length-dinode ip f) in
            rw outside refl) in
    let start : inode_word q.inum + 0 ≡ inode_word q.inum = omega arith in
    let w0 : get_or block' (inode_word q.inum) 0 ≡ get_or block (inode_word q.inum) 0 =
      rw start at (word 0 (omega arith)) in
    let rest = get_words_same (ndirect + 1) (inode_word q.inum + 3) block block' (λ j low high.
      let at : inode_word q.inum + (j - inode_word q.inum) ≡ j = omega arith in
      rw at at (word (j - inode_word q.inum) (omega arith))) in
    rw (w0, word 1 (omega arith), word 2 (omega arith), rest) refl

-- What is found of any inode after one has been written.
pub load-written :
    (ip q : Inode) (fs : Fs)
    → Fits ip
    → length (block_at (inode_block ip.inum fs) fs) ≡ words_per_block
    → let fs' =
        written
          (inode_block ip.inum fs)
          (put_words (inode_word ip.inum) (dinode ip) (block_at (inode_block ip.inum fs) fs))
          fs in
      load q (block_at (inode_block q.inum fs') fs')
      ≡ (if q.inum == ip.inum then loaded q ip else load q (block_at (inode_block q.inum fs) fs))
load-written ip q fs f width =
    let b = inode_block ip.inum fs in
    let block = put_words (inode_word ip.inum) (dinode ip) (block_at b fs) in
    let fs' = written b block fs in
    let here : block_at b fs' ≡ block = block_at-written b b block fs ∙ ground arith in
    let sb : (i : ℕ) → inode_block i fs' ≡ inode_block i fs =
      λ i. ap (λ (s : Super). i / inodes_per_block + s.inodestart) (sb-written b block fs) in
    elim (Bool-cases (q.inum == ip.inum)) [
      | inl same ↦
          let at : q.inum ≡ ip.inum = ground arith in
          ap (λ c. load q (block_at c fs')) (sb q.inum ∙ ap (λ i. inode_block i fs) at)
          ∙ ap (load q) here
          ∙ load-put ip q (block_at b fs) f width at
          ∙ rw same refl
      | inr other ↦
          ap (λ c. load q (block_at c fs')) (sb q.inum)
          ∙ elim (Bool-cases (inode_block q.inum fs == b)) [
            | inl same_block ↦
                let at : inode_block q.inum fs ≡ b = ground arith in
                let differ : inode_word q.inum ≢ inode_word ip.inum = λ h. ground arith in
                ap (λ c. load q (block_at c fs')) at
                ∙ ap (load q) here
                ∙ load-other ip q (block_at b fs) f width differ
                ∙ ap (λ c. load q (block_at c fs)) (sym at)
            | inr apart ↦
                ap (load q) (block_at-written b (inode_block q.inum fs) block fs ∙ ground arith)
          ]
          ∙ rw other refl
    ]

pub iupdate_lem :
    (k : ℕ) (ip : Inode) (fs : Fs)
    → HasRoom (suc k) fs
    → Fits ip
    → length (block_at (inode_block ip.inum fs) fs) ≡ words_per_block
    → (fs' : Fs) × (iupdate ip fs ≡ returns fs')
      × ((q : Inode)
          → load q (block_at (inode_block q.inum fs') fs') ≡ (
              if q.inum == ip.inum
              then loaded q ip
              else load q (block_at (inode_block q.inum fs) fs)))
      × HasRoom k fs'
unfolding iupdate
iupdate_lem k ip fs r f width =
    let b = inode_block ip.inum fs in
    let block = put_words (inode_word ip.inum) (dinode ip) (block_at b fs) in
    let (e, r') = write_block_lem k b block fs r in
    (written b block fs, e, λ q. load-written ip q fs f width, r')

-- `iupdate` returns while the transaction has room.
pub iupdate_returns :
    (k : ℕ) (ip : Inode) (fs : Fs)
    → HasRoom (suc k) fs
    → (fs' : Fs) × (iupdate ip fs ≡ returns fs') × HasRoom k fs'
unfolding iupdate
iupdate_returns k ip fs r =
    let b = inode_block ip.inum fs in
    let block = put_words (inode_word ip.inum) (dinode ip) (block_at b fs) in
    let (e, r') = write_block_lem k b block fs r in (written b block fs, e, r')

ilock_found :
    (q p : Inode) (fs : Fs)
    → load q (block_at (inode_block q.inum fs) fs) ≡ p
    → ilock q fs ≡ (
        if int_lt q.ref 1
        then panics
        else if q.valid
        then returns q
        else if p.kind == 0
        then panics
        else returns p)
unfolding ilock
ilock_found q p fs loads =
    ap
      (λ (p : Inode).
        if int_lt q.ref 1
        then panics
        else if q.valid
        then returns q
        else if p.kind == 0
        then panics
        else returns p)
      loads

-- An `iupdate` of an inode whose type is not 0, in a transaction with room for a block, returns.
-- Afterwards `ilock` of an inode in
-- memory that has not been read yet finds, for the inode number that was written, all that was
-- written, and for any other number in the same block or in another, what it would have found before.
pub ilock-iupdate :
    (k : ℕ) (ip q : Inode) (fs : Fs)
    → HasRoom (suc k) fs
    → Fits ip
    → ip.kind ≢ 0
    → length (block_at (inode_block ip.inum fs) fs) ≡ words_per_block
    → 0 < q.ref
    → q.ref < 2 ^ 31
    → q.valid ≡ false
    → (fs' : Fs) × (iupdate ip fs ≡ returns fs')
      × (ilock q fs' ≡ (if q.inum == ip.inum then returns (loaded q ip) else ilock q fs))
      × HasRoom k fs'
ilock-iupdate k ip q fs r f used width some_ref few fresh =
    let (fs', e, reads, r') = iupdate_lem k ip fs r f width in
    let held : int_lt q.ref 1 ≡ false = ground arith in
    let typed : (ip.kind == 0) ≡ false = ground arith in
    let found : ilock q fs' ≡ (if q.inum == ip.inum then returns (loaded q ip) else ilock q fs) =
      elim (Bool-cases (q.inum == ip.inum)) [
        | inl same ↦
            ilock_found q (loaded q ip) fs' (reads q ∙ rw same refl)
            ∙ rw (same, held, fresh, typed) refl
        | inr other ↦
            ilock_found q (load q (block_at (inode_block q.inum fs) fs)) fs'
              (reads q ∙ rw other refl)
            ∙ sym (ilock_found q (load q (block_at (inode_block q.inum fs) fs)) fs refl)
            ∙ rw other refl
      ] in
    (fs', e, found, r')
