-- ===== src/FileSystem/Inodes/Slots.antt =====
-- One slot of an inode, and one entry of an indirect block.
use swe3004_operating_system.Prelude.{
  ℕ, suc, ◌<◌, ◌≡◌, refl, ◌≢◌, ap, sym, ◌∙◌, ◌⊎◌, inl, inr, true, false, ◌==◌, arith, length,
  get_or, set, set-get_or, get_or-set_self, Bool-cases, returns,
}
use swe3004_operating_system.FileSystem.{Fs, block_at, words_per_block}
use swe3004_operating_system.FileSystem.Room.{HasRoom, HasRoom-less, written, write_block_lem}
use swe3004_operating_system.FileSystem.Blocks.Scan.{is_used}
use swe3004_operating_system.FileSystem.Blocks.Map.{
  HasMap, IsOutside, size_super, block_at-written, map_block-super,
}
use swe3004_operating_system.FileSystem.Blocks.Alloc.{
  Allocated, balloc_lem, SameMap-HasMap, written-SameMap,
}
use swe3004_operating_system.FileSystem.Inodes.{Inode, nindirect, slot_block, indirect_block}

-- A call that found the block, and changed nothing, or had none and allocated it.
abbrev pub Found : (old a : ℕ) → Fs → Fs → Type 0
Found old a fs fs' = ((fs' ≡ fs) × (old ≡ a)) ⊎ ((old ≡ 0) × Allocated a fs fs')

-- Entry `i` of the indirect block `ind` was there, and nothing is changed, or it was 0 and now is the
-- newly allocated block `a`.
abbrev pub FoundEntry : (ind i a : ℕ) → Fs → Fs → Type 0
FoundEntry ind i a fs fs' =
    ((fs' ≡ fs) × (get_or (block_at ind fs) i 0 ≡ a))
    ⊎ ((get_or (block_at ind fs) i 0 ≡ 0)
        × (fs2 : Fs) × Allocated a fs fs2
        × (fs' ≡ written ind (set (block_at ind fs) i a) fs2))

-- Two blocks are free, and block 0 is not.
pub record HasSpace (fs : Fs) (j1 j2 : ℕ) : Type 0 where
  pub map : HasMap fs
  pub boot : is_used 0 fs ≡ true
  pub in1 : j1 < fs.sb.size
  pub in2 : j2 < fs.sb.size
  pub free1 : is_used j1 fs ≡ false
  pub free2 : is_used j2 fs ≡ false
  pub differ : j1 ≢ j2

pub slot_found :
    (i : ℕ) (ip : Inode) (fs : Fs)
    → get_or ip.addrs i 0 ≢ 0
    → slot_block i ip fs ≡ returns (get_or ip.addrs i 0, ip, fs)
unfolding slot_block
slot_found i ip fs ne = let test : (get_or ip.addrs i 0 == 0) ≡ false = ground arith in rw test refl

pub slot_lem :
    (k i j : ℕ) (ip : Inode) (fs : Fs)
    → HasMap fs
    → is_used 0 fs ≡ true
    → HasRoom (suc (suc k)) fs
    → j < fs.sb.size
    → is_used j fs ≡ false
    → i < length ip.addrs
    → (a : ℕ) × (ip' : Inode) × (fs' : Fs) × (slot_block i ip fs ≡ returns (a, ip', fs'))
      × (a ≢ 0)
      × (ip' ≡ record ip { addrs = set ip.addrs i a })
      × Found (get_or ip.addrs i 0) a fs fs'
      × HasRoom k fs'
unfolding slot_block
slot_lem k i j ip fs v boot r inside free slot = elim (Bool-cases (get_or ip.addrs i 0 == 0)) [
  | inl absent ↦
      let (n, fs', e, al, r') = balloc_lem k j fs v r inside free in
      (
        n,
        record ip { addrs = set ip.addrs i n },
        fs',
        rw absent (rw e refl),
        λ zero_block'.
            let used : is_used n fs ≡ true = rw zero_block' boot in ground (arith, al.free, used),
        refl,
        inr (ground arith, al),
        r',
      )
  | inr present ↦ (
    get_or ip.addrs i 0,
    ip,
    fs,
    rw present refl,
    λ e. ground arith,
    ap (λ slots. record ip { addrs = slots }) (sym (set-get_or ip.addrs i 0)),
    inl (refl, refl),
    HasRoom-less k fs (HasRoom-less (suc k) fs r),
  )
]

-- What is known of an indirect block: it is a block of the disk and in use, no block of the free map, and has its words.
pub record IsIndirect (ind : ℕ) (fs : Fs) : Type 0 where
  pub inside : ind < fs.sb.size
  pub used : is_used ind fs ≡ true
  pub away : IsOutside ind fs
  pub width : length (block_at ind fs) ≡ words_per_block

pub indirect_found :
    (ind i : ℕ) (ip : Inode) (fs : Fs)
    → get_or (block_at ind fs) i 0 ≢ 0
    → indirect_block ind i ip fs ≡ returns (get_or (block_at ind fs) i 0, ip, fs)
unfolding indirect_block
indirect_found ind i ip fs ne =
    let test : (get_or (block_at ind fs) i 0 == 0) ≡ false = ground arith in rw test refl

-- Asked again, it finds the same block.
pub indirect_lem :
    (k ind i j : ℕ) (ip : Inode) (fs : Fs)
    → HasMap fs
    → is_used 0 fs ≡ true
    → HasRoom (suc (suc (suc k))) fs
    → j < fs.sb.size
    → is_used j fs ≡ false
    → IsIndirect ind fs
    → i < nindirect
    → (a : ℕ) × (fs' : Fs) × (indirect_block ind i ip fs ≡ returns (a, ip, fs'))
      × (a ≢ 0)
      × (indirect_block ind i ip fs' ≡ returns (a, ip, fs'))
      × HasMap fs'
      × FoundEntry ind i a fs fs'
      × HasRoom k fs'
unfolding indirect_block
indirect_lem k ind i j ip fs v boot r inside free x small =
    elim (Bool-cases (get_or (block_at ind fs) i 0 == 0)) [
      | inl absent ↦
          let (n, fs2, e2, al, r2) = balloc_lem (suc k) j fs v r inside free in
          let ne : ind ≢ n = λ h.
            let busy : is_used n fs ≡ true = rw (sym h) x.used in ground (arith, al.free, busy) in
          let kept : block_at ind fs2 ≡ block_at ind fs = al.others ind ne (x.away n al.inside) in
          let data_ = set (block_at ind fs2) i n in
          let fs3 = written ind data_ fs2 in
          let (e3, r3) = write_block_lem k ind data_ fs2 r2 in
          let entry : get_or (block_at ind fs3) i 0 ≡ n =
            ap (λ b. get_or b i 0) (block_at-written ind ind data_ fs2 ∙ ground arith)
            ∙ get_or-set_self (block_at ind fs2) i n 0 (omega (arith, ap length kept, x.width)) in
          let some_block : n ≢ 0 =
            λ h. let busy : is_used n fs ≡ true = rw h boot in ground (arith, al.free, busy) in
          (
            n,
            fs3,
            rw absent (rw e2 (rw e3 refl)),
            some_block,
            indirect_found ind i ip fs3 (λ h. some_block (sym entry ∙ h))
                ∙ ap (λ a. returns (a, ip, fs3)) entry,
            SameMap-HasMap fs2 fs3
                (written-SameMap ind data_ fs2 (λ b h e.
                  x.away b (size_super b fs fs2 al.super h)
                    (e ∙ map_block-super b fs fs2 al.super)))
                al.map,
            inr (ground arith, fs2, al, ap (λ b. written ind (set b i n) fs2) kept),
            r3,
          )
      | inr present ↦
          let ne : get_or (block_at ind fs) i 0 ≢ 0 = λ e. ground arith in
          (
            get_or (block_at ind fs) i 0,
            fs,
            indirect_found ind i ip fs ne,
            ne,
            indirect_found ind i ip fs ne,
            v,
            inl (refl, refl),
            HasRoom-less k fs (HasRoom-less (suc k) fs (HasRoom-less (suc (suc k)) fs r)),
          )
    ]
