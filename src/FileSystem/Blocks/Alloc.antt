-- ===== src/FileSystem/Blocks/Alloc.antt =====
-- `balloc` and `bfree` change one bit of the free map.
use swe3004_operating_system.Prelude.{
  ℕ, suc, ◌+◌, ◌%◌, ◌<◌, ◌≡◌, refl, ◌≢◌, ap, ◌∙◌, inl, inr, true, false, ◌==◌, if◌then◌else◌, arith,
  length, Option-cases, returns, panics,
}
use swe3004_operating_system.Disk.{Block}
use swe3004_operating_system.FileSystem.{Fs, block_at, bits_per_block, zero_block}
use swe3004_operating_system.FileSystem.Room.{HasRoom, written, write_block_lem}
use swe3004_operating_system.FileSystem.Bits.{use_block, release_block}
use swe3004_operating_system.FileSystem.Blocks.{
  map_block, bzero, free_block, take_block, balloc, bfree,
}
use swe3004_operating_system.FileSystem.Blocks.Scan.{is_used, free_block-some, free_block-none}
use swe3004_operating_system.FileSystem.Blocks.Map.{
  HasMap, IsOutside, Marked, block_at-written, sb-written, used-Marked, released-Marked,
  map_block-super, size_super, super_size, Marked-HasMap,
}

-- What `balloc` has done when it returns `n`: the first block that was free is in use and zero, and
-- every other bit, and every block outside the free map, is as it was.
pub record Allocated (n : ℕ) (fs fs' : Fs) : Type 0 where
  pub inside : n < fs.sb.size
  pub free : is_used n fs ≡ false
  pub first : (j : ℕ) → j < n → is_used j fs ≡ true
  pub super : fs'.sb ≡ fs.sb
  pub used : (j : ℕ) → j < fs.sb.size → is_used j fs' ≡ (if n == j then true else is_used j fs)
  pub zeroed : block_at n fs' ≡ zero_block
  pub others : (a : ℕ) → a ≢ n → a ≢ map_block n fs → block_at a fs' ≡ block_at a fs
  pub map : HasMap fs'

-- A block that is free is not one of the map.
pub free_away : (n : ℕ) (fs : Fs) → HasMap fs → is_used n fs ≡ false → IsOutside n fs
free_away n fs v free b h e =
    let own : is_used n fs ≡ true = rw e (v.own b h) in ground (arith, own, free)

-- The free map is as it was.
pub record SameMap (fs fs' : Fs) : Type 0 where
  pub super : fs'.sb ≡ fs.sb
  pub kept : (b : ℕ) → b < fs.sb.size → block_at (map_block b fs) fs' ≡ block_at (map_block b fs) fs

pub written-SameMap :
    (n : ℕ) (data_ : Block) (fs : Fs) → IsOutside n fs → SameMap fs (written n data_ fs)
written-SameMap n data_ fs away = record {
  super = sb-written n data_ fs;
  kept = λ b h. block_at-written n (map_block b fs) data_ fs ∙ ground (arith, away b h);
}

pub SameMap-is_used :
    (fs fs' : Fs) → SameMap fs fs' → (j : ℕ) → j < fs.sb.size → is_used j fs' ≡ is_used j fs
unfolding is_used
SameMap-is_used fs fs' m j h = rw (map_block-super j fs fs' m.super, m.kept j h) refl

pub SameMap-HasMap : (fs fs' : Fs) → SameMap fs fs' → HasMap fs → HasMap fs'
SameMap-HasMap fs fs' m v = record {
  width = λ b h.
      let h' = size_super b fs fs' m.super h in
      rw (map_block-super b fs fs' m.super) (ap length (m.kept b h') ∙ v.width b h');
  inside = λ b h.
      let h' = size_super b fs fs' m.super h in
      rw (map_block-super b fs fs' m.super)
        (super_size (map_block b fs) fs fs' m.super (v.inside b h'));
  own = λ b h.
      let h' = size_super b fs fs' m.super h in
      rw (map_block-super b fs fs' m.super)
        (SameMap-is_used fs fs' m (map_block b fs) (v.inside b h') ∙ v.own b h');
}

zeroed-Allocated :
    (n : ℕ) (fs fs1 : Fs)
    → HasMap fs
    → n < fs.sb.size
    → is_used n fs ≡ false
    → ((j : ℕ) → j < n → is_used j fs ≡ true)
    → Marked n true fs fs1
    → Allocated n fs (written n zero_block fs1)
zeroed-Allocated n fs fs1 v inside free first m =
    let away = free_away n fs v free in
    let same =
      written-SameMap n zero_block fs1
        (λ b h e. away b (size_super b fs fs1 m.super h) (e ∙ map_block-super b fs fs1 m.super)) in
    let map1 = Marked-HasMap n true fs fs1 m away v in
    record {
      inside = inside;
      free = free;
      first = first;
      super = same.super ∙ m.super;
      used = λ j h.
          SameMap-is_used fs1 (written n zero_block fs1) same j (super_size j fs fs1 m.super h)
          ∙ m.used j;
      zeroed = block_at-written n n zero_block fs1 ∙ ground arith;
      others = λ a ne ne'. block_at-written n a zero_block fs1 ∙ ground (arith, m.others a ne');
      map = SameMap-HasMap fs1 (written n zero_block fs1) same map1;
    }

take_block_lem :
    (n k : ℕ) (fs : Fs)
    → HasMap fs
    → HasRoom (suc (suc k)) fs
    → n < fs.sb.size
    → is_used n fs ≡ false
    → ((j : ℕ) → j < n → is_used j fs ≡ true)
    → (fs' : Fs) × (take_block n fs ≡ returns (n, fs')) × Allocated n fs fs' × HasRoom k fs'
unfolding take_block bzero
take_block_lem n k fs v r inside free first =
    let block = use_block (n % bits_per_block) (block_at (map_block n fs) fs) in
    let fs1 = written (map_block n fs) block fs in
    let (e1, r1) = write_block_lem (suc k) (map_block n fs) block fs r in
    let (e2, r2) = write_block_lem k n zero_block fs1 r1 in
    (
      written n zero_block fs1,
      rw e1 (rw e2 refl),
      zeroed-Allocated n fs fs1 v inside free first (used-Marked n fs v inside),
      r2,
    )

-- If a block is free and the transaction has room for two, `balloc` returns the first such block,
-- in use and zeroed, and has changed no other bit and no other block outside the free map.
pub balloc_lem :
    (k j : ℕ) (fs : Fs)
    → HasMap fs
    → HasRoom (suc (suc k)) fs
    → j < fs.sb.size
    → is_used j fs ≡ false
    → (n : ℕ) × (fs' : Fs) × (balloc fs ≡ returns (n, fs')) × Allocated n fs fs' × HasRoom k fs'
unfolding balloc
balloc_lem k j fs v r inside free = elim (Option-cases (free_block (fs.sb.size + 1) 0 fs)) [
  | inl full ↦
      let used =
        free_block-none (fs.sb.size + 1) 0 fs j (omega arith) (omega arith) full (omega arith)
          inside in
      absurd (ground arith)
  | inr (n, found) ↦
      let (_, below, unused, before) =
        free_block-some (fs.sb.size + 1) 0 fs n (omega arith) found in
      let (fs', e, a, r') =
        take_block_lem n k fs v r below unused (λ i h. before i (omega arith) h) in
      (n, fs', rw (found, balloc) e, a, r')
]

-- `balloc` panics if no block is free.
pub balloc_full : (fs : Fs) → ((j : ℕ) → j < fs.sb.size → is_used j fs ≡ true) → balloc fs ≡ panics
unfolding balloc
balloc_full fs full = elim (Option-cases (free_block (fs.sb.size + 1) 0 fs)) [
  | inl none_left ↦ rw (none_left, balloc) refl
  | inr (n, found) ↦
      let (_, below, unused, _) = free_block-some (fs.sb.size + 1) 0 fs n (omega arith) found in
      let used = full n below in absurd (ground arith)
]

-- `bfree` of a block of the disk in use that is not one of the free map clears its bit, and changes no other
-- bit and no block outside the map.
pub bfree_lem :
    (b k : ℕ) (fs : Fs)
    → HasMap fs
    → HasRoom (suc k) fs
    → b < fs.sb.size
    → is_used b fs ≡ true
    → IsOutside b fs
    → (fs' : Fs) × (bfree b fs ≡ returns fs') × Marked b false fs fs' × HasMap fs' × HasRoom k fs'
unfolding bfree is_used
bfree_lem b k fs v r inside used away =
    let block = release_block (b % bits_per_block) (block_at (map_block b fs) fs) in
    let fs' = written (map_block b fs) block fs in
    let (e, r') = write_block_lem k (map_block b fs) block fs r in
    let m = released-Marked b fs v inside in
    (fs', rw used e, m, Marked-HasMap b false fs fs' m away v, r')

-- `bfree` of a block that is free panics.
pub bfree_free : (b : ℕ) (fs : Fs) → is_used b fs ≡ false → bfree b fs ≡ panics
unfolding bfree is_used
bfree_free b fs free = rw free refl
