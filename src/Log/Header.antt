-- ===== src/Log/Header.antt =====
-- The header block: `write_head` and `read_head` are inverse on the slots in use.
use swe3004_operating_system.Prelude.{
  ℕ, zero, suc, ◌+◌, ◌≤◌, ◌<◌, ◌≡◌, refl, inl, inr, ◌==◌, List, arith, Bool-cases, length, get_or,
  set, length-set, get_or-set_self, get_or-set_ne, ◌∙◌,
}
use swe3004_operating_system.Disk.{Block}
use swe3004_operating_system.Log.{put_blocks, get_blocks}

pub length-put_blocks :
    (left i : ℕ) (block : List ℕ) (hb : Block) → length (put_blocks left i block hb) ≡ length hb
unfolding put_blocks
length-put_blocks zero i block hb = refl
length-put_blocks (suc left) i block hb =
    length-put_blocks left (i + 1) block (set hb (i + 1) (get_or block i 0))
    ∙ length-set hb (i + 1) (get_or block i 0)

pub put_blocks_other :
    (left i : ℕ) (block : List ℕ) (hb : Block) (j : ℕ)
    → j ≤ i
    → get_or (put_blocks left i block hb) j 0 ≡ get_or hb j 0
unfolding put_blocks
put_blocks_other zero i block hb j h = refl
put_blocks_other (suc left) i block hb j h =
    put_blocks_other left (i + 1) block (set hb (i + 1) (get_or block i 0)) j (omega arith)
    ∙ get_or-set_ne hb (i + 1) j (get_or block i 0) 0 (omega arith)

pub put_blocks_at :
    (left i : ℕ) (block : List ℕ) (hb : Block) (k : ℕ)
    → i + left < length hb
    → i ≤ k
    → k < i + left
    → get_or (put_blocks left i block hb) (k + 1) 0 ≡ get_or block k 0
unfolding put_blocks
put_blocks_at zero i block hb k le lo hi = absurd (omega arith)
put_blocks_at (suc left) i block hb k le lo hi =
    let hb' = set hb (i + 1) (get_or block i 0) in
    elim (Bool-cases (k == i)) [
      | inl e ↦ ground (
        arith,
        put_blocks_other left (i + 1) block hb' (k + 1),
        get_or-set_self hb (i + 1) (get_or block i 0) 0 (omega arith),
      )
      | inr e ↦
          put_blocks_at left (i + 1) block hb' k
            (omega (arith, length-set hb (i + 1) (get_or block i 0))) (ground arith) (omega arith)
    ]

pub length-get_blocks :
    (left i : ℕ) (lh : Block) (block : List ℕ) → length (get_blocks left i lh block) ≡ length block
unfolding get_blocks
length-get_blocks zero i lh block = refl
length-get_blocks (suc left) i lh block =
    length-get_blocks left (i + 1) lh (set block i (get_or lh (i + 1) 0))
    ∙ length-set block i (get_or lh (i + 1) 0)

get_blocks_other :
    (left i : ℕ) (lh : Block) (block : List ℕ) (j : ℕ)
    → j < i
    → get_or (get_blocks left i lh block) j 0 ≡ get_or block j 0
unfolding get_blocks
get_blocks_other zero i lh block j h = refl
get_blocks_other (suc left) i lh block j h =
    get_blocks_other left (i + 1) lh (set block i (get_or lh (i + 1) 0)) j (omega arith)
    ∙ get_or-set_ne block i j (get_or lh (i + 1) 0) 0 (omega arith)

pub get_blocks_at :
    (left i : ℕ) (lh : Block) (block : List ℕ) (k : ℕ)
    → i + left ≤ length block
    → i ≤ k
    → k < i + left
    → get_or (get_blocks left i lh block) k 0 ≡ get_or lh (k + 1) 0
unfolding get_blocks
get_blocks_at zero i lh block k le lo hi = absurd (omega arith)
get_blocks_at (suc left) i lh block k le lo hi =
    let block' = set block i (get_or lh (i + 1) 0) in
    elim (Bool-cases (k == i)) [
      | inl e ↦ ground (
        arith,
        get_blocks_other left (i + 1) lh block' k,
        get_or-set_self block i (get_or lh (i + 1) 0) 0 (omega arith),
      )
      | inr e ↦
          get_blocks_at left (i + 1) lh block' k
            (omega (arith, length-set block i (get_or lh (i + 1) 0))) (ground arith) (omega arith)
    ]
