-- ===== src/FileSystem/Blocks/Map.antt =====
-- The free map: its own blocks, and a change of one bit.
use swe3004_operating_system.Prelude.{
  ℕ, ◌+◌, ◌/◌, ◌%◌, ◌<◌, ◌≡◌, refl, ◌≢◌, ap, ◌∙◌, inl, inr, Bool, true, false, ◌==◌, if◌then◌else◌,
  arith, update, length, Bool-cases,
}
use swe3004_operating_system.Disk.{Block, bread, modify}
use swe3004_operating_system.FileSystem.{Super, Fs, block_at, bits_per_block, words_per_block}
use swe3004_operating_system.FileSystem.Room.{written}
use swe3004_operating_system.FileSystem.Bits.{test_block, use_block, release_block}
use swe3004_operating_system.FileSystem.Bits.Laws.{
  test_block-use_block, test_block-release_block, length-use_block, length-release_block,
}
use swe3004_operating_system.FileSystem.Blocks.{map_block}
use swe3004_operating_system.FileSystem.Blocks.Scan.{is_used}

-- The blocks of the free map have their words, and are themselves blocks of the disk and in use.
pub record HasMap (fs : Fs) : Type 0 where
  pub width : (b : ℕ) → b < fs.sb.size → length (block_at (map_block b fs) fs) ≡ words_per_block
  pub inside : (b : ℕ) → b < fs.sb.size → map_block b fs < fs.sb.size
  pub own : (b : ℕ) → b < fs.sb.size → is_used (map_block b fs) fs ≡ true

-- Block `n` is none of the free map.
abbrev pub IsOutside : ℕ → Fs → Type 0
IsOutside n fs = (b : ℕ) → b < fs.sb.size → n ≢ map_block b fs

-- Blocks other than the free map are as they were, and so is the map but for `n`, which now is in
-- use or not, as `value` says.
pub record Marked (n : ℕ) (value : Bool) (fs fs' : Fs) : Type 0 where
  pub super : fs'.sb ≡ fs.sb
  pub used : (j : ℕ) → is_used j fs' ≡ (if n == j then value else is_used j fs)
  pub width :
      (b : ℕ) → length (block_at (map_block b fs) fs') ≡ length (block_at (map_block b fs) fs)
  pub others : (a : ℕ) → a ≢ map_block n fs → block_at a fs' ≡ block_at a fs

pub block_at-written :
    (b a : ℕ) (data_ : Block) (fs : Fs)
    → block_at a (written b data_ fs) ≡ (if a == b then data_ else block_at a fs)
unfolding written bread modify update
block_at-written b a data_ fs = refl

pub sb-written : (b : ℕ) (data_ : Block) (fs : Fs) → (written b data_ fs).sb ≡ fs.sb
unfolding written
sb-written b data_ fs = refl

-- A new block of the map in which bit `n` alone has changed.
pub written-Marked :
    (n : ℕ) (value : Bool) (block : Block) (fs : Fs)
    → ((bj : ℕ)
        → test_block bj block ≡ (
            if n % bits_per_block == bj
            then value
            else test_block bj (block_at (map_block n fs) fs)))
    → length block ≡ length (block_at (map_block n fs) fs)
    → Marked n value fs (written (map_block n fs) block fs)
unfolding is_used
written-Marked n value block fs bits size =
    let fs' = written (map_block n fs) block fs in
    let super : fs'.sb ≡ fs.sb = sb-written (map_block n fs) block fs in
    record {
      super = super;
      used = λ j. elim (Bool-cases (j / bits_per_block == n / bits_per_block)) [
        | inl same ↦
            let at : map_block j fs ≡ map_block n fs = ground arith in
            let data_ : block_at (map_block j fs) fs' ≡ block =
              block_at-written (map_block n fs) (map_block j fs) block fs ∙ ground arith in
            let old : block_at (map_block j fs) fs ≡ block_at (map_block n fs) fs =
              ap (λ b. block_at b fs) at in
            let bit : (n % bits_per_block == j % bits_per_block) ≡ (n == j) = ground arith in
            rw (super, data_, old) (rw bit at (bits (j % bits_per_block)))
        | inr differ ↦
            let away : map_block j fs ≢ map_block n fs = λ e. ground arith in
            let data_ : block_at (map_block j fs) fs' ≡ block_at (map_block j fs) fs =
              block_at-written (map_block n fs) (map_block j fs) block fs ∙ ground arith in
            let ne : (n == j) ≡ false = ground arith in rw (super, data_, ne) refl
      ];
      width = λ b. elim (Bool-cases (map_block b fs == map_block n fs)) [
        | inl same ↦
            let at : map_block b fs ≡ map_block n fs = ground arith in
            rw at (
              ap length (block_at-written (map_block n fs) (map_block n fs) block fs ∙ ground arith)
              ∙ size)
        | inr differ ↦
            ap length (block_at-written (map_block n fs) (map_block b fs) block fs ∙ ground arith)
      ];
      others = λ a h. block_at-written (map_block n fs) a block fs ∙ ground arith;
    }

pub used-Marked :
    (n : ℕ) (fs : Fs)
    → HasMap fs
    → n < fs.sb.size
    → Marked n true fs (
        written (map_block n fs) (use_block (n % bits_per_block) (block_at (map_block n fs) fs)) fs)
used-Marked n fs v h =
    let block = block_at (map_block n fs) fs in
    written-Marked n true (use_block (n % bits_per_block) block) fs
      (λ bj. test_block-use_block (n % bits_per_block) bj block (omega (arith, v.width n h)))
      (length-use_block (n % bits_per_block) block)

pub released-Marked :
    (n : ℕ) (fs : Fs)
    → HasMap fs
    → n < fs.sb.size
    → Marked n false fs (
        written
          (map_block n fs)
          (release_block (n % bits_per_block) (block_at (map_block n fs) fs))
          fs)
released-Marked n fs v h =
    let block = block_at (map_block n fs) fs in
    written-Marked n false (release_block (n % bits_per_block) block) fs
      (λ bj. test_block-release_block (n % bits_per_block) bj block (omega (arith, v.width n h)))
      (length-release_block (n % bits_per_block) block)

pub map_block-super : (b : ℕ) (fs fs' : Fs) → fs'.sb ≡ fs.sb → map_block b fs' ≡ map_block b fs
map_block-super b fs fs' e = ap (λ (sb : Super). b / bits_per_block + sb.bmapstart) e

-- The size of the disk, as well.
pub size_super : (b : ℕ) (fs fs' : Fs) → fs'.sb ≡ fs.sb → b < fs'.sb.size → b < fs.sb.size
size_super b fs fs' e h =
    let same : fs'.sb.size ≡ fs.sb.size = ap (λ (sb : Super). sb.size) e in omega arith

pub super_size : (b : ℕ) (fs fs' : Fs) → fs'.sb ≡ fs.sb → b < fs.sb.size → b < fs'.sb.size
super_size b fs fs' e h =
    let same : fs'.sb.size ≡ fs.sb.size = ap (λ (sb : Super). sb.size) e in omega arith

-- A change of a bit that is not one of the map's own.
pub Marked-HasMap :
    (n : ℕ) (value : Bool) (fs fs' : Fs)
    → Marked n value fs fs'
    → IsOutside n fs
    → HasMap fs
    → HasMap fs'
Marked-HasMap n value fs fs' m away v = record {
  width = λ b h.
      let h' = size_super b fs fs' m.super h in
      rw (map_block-super b fs fs' m.super) (m.width b ∙ v.width b h');
  inside = λ b h.
      let h' = size_super b fs fs' m.super h in
      rw (map_block-super b fs fs' m.super)
        (super_size (map_block b fs) fs fs' m.super (v.inside b h'));
  own = λ b h.
      let h' = size_super b fs fs' m.super h in
      let ne : (n == map_block b fs) ≡ false = ground (arith, away b h') in
      rw (map_block-super b fs fs' m.super) (m.used (map_block b fs) ∙ rw ne (v.own b h'));
}
