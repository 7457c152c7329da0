-- ===== src/FileSystem/Bits/Laws.antt =====
-- A bit that is set or cleared, and the others.
use swe3004_operating_system.Prelude.{
  ℕ, zero, suc, ◌+◌, ◌*◌, ◌/◌, ◌%◌, ◌<◌, ◌≡◌, sym, ◌∙◌, inl, inr, true, false, ◌==◌, if◌then◌else◌,
  arith, length, get_or, get_or-set_self, get_or-set_ne, length-set, Bool-cases,
}
use swe3004_operating_system.Disk.{Block}
use swe3004_operating_system.FileSystem.Bits.{
  bit, set_bit, clear_bit, test_block, use_block, release_block,
}

bit-set_bit : (k j w : ℕ) → bit j (set_bit k w) ≡ (if k == j then true else bit j w)
unfolding bit set_bit
bit-set_bit zero zero w = ground arith
bit-set_bit zero (suc j) w =
    let half : (w / 2 * 2 + 1) / 2 ≡ w / 2 = omega arith in rw half (ground arith)
bit-set_bit (suc k) zero w = ground arith
bit-set_bit (suc k) (suc j) w =
    let half : (set_bit k (w / 2) * 2 + w % 2) / 2 ≡ set_bit k (w / 2) = omega arith in
    rw half (bit-set_bit k j (w / 2) ∙ ground arith)

bit-clear_bit : (k j w : ℕ) → bit j (clear_bit k w) ≡ (if k == j then false else bit j w)
unfolding bit clear_bit
bit-clear_bit zero zero w = ground arith
bit-clear_bit zero (suc j) w =
    let half : w / 2 * 2 / 2 ≡ w / 2 = omega arith in rw half (ground arith)
bit-clear_bit (suc k) zero w = ground arith
bit-clear_bit (suc k) (suc j) w =
    let half : (clear_bit k (w / 2) * 2 + w % 2) / 2 ≡ clear_bit k (w / 2) = omega arith in
    rw half (bit-clear_bit k j (w / 2) ∙ ground arith)

pub test_block-use_block :
    (bi bj : ℕ) (block : Block)
    → bi / 32 < length block
    → test_block bj (use_block bi block) ≡ (if bi == bj then true else test_block bj block)
unfolding test_block use_block
test_block-use_block bi bj block room = elim (Bool-cases (bi / 32 == bj / 32)) [
  | inl same ↦
      let word : bi / 32 ≡ bj / 32 = ground arith in
      rw (sym word) (
        rw (get_or-set_self block (bi / 32) (set_bit (bi % 32) (get_or block (bi / 32) 0)) 0 room)
          (bit-set_bit (bi % 32) (bj % 32) (get_or block (bi / 32) 0) ∙ ground arith))
  | inr other ↦
      rw
        (get_or-set_ne block (bi / 32) (bj / 32) (set_bit (bi % 32) (get_or block (bi / 32) 0)) 0
          (ground arith))
        (ground arith)
]

pub test_block-release_block :
    (bi bj : ℕ) (block : Block)
    → bi / 32 < length block
    → test_block bj (release_block bi block) ≡ (if bi == bj then false else test_block bj block)
unfolding test_block release_block
test_block-release_block bi bj block room = elim (Bool-cases (bi / 32 == bj / 32)) [
  | inl same ↦
      let word : bi / 32 ≡ bj / 32 = ground arith in
      rw (sym word) (
        rw (get_or-set_self block (bi / 32) (clear_bit (bi % 32) (get_or block (bi / 32) 0)) 0 room)
          (bit-clear_bit (bi % 32) (bj % 32) (get_or block (bi / 32) 0) ∙ ground arith))
  | inr other ↦
      rw
        (get_or-set_ne block (bi / 32) (bj / 32) (clear_bit (bi % 32) (get_or block (bi / 32) 0)) 0
          (ground arith))
        (ground arith)
]

pub length-use_block : (bi : ℕ) (block : Block) → length (use_block bi block) ≡ length block
unfolding use_block
length-use_block bi block =
    length-set block (bi / 32) (set_bit (bi % 32) (get_or block (bi / 32) 0))

pub length-release_block : (bi : ℕ) (block : Block) → length (release_block bi block) ≡ length block
unfolding release_block
length-release_block bi block =
    length-set block (bi / 32) (clear_bit (bi % 32) (get_or block (bi / 32) 0))
