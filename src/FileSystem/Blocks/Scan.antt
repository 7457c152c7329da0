-- ===== src/FileSystem/Blocks/Scan.antt =====
-- The loops of `balloc` find the first free block.
use swe3004_operating_system.Prelude.{
  ℕ, zero, suc, ◌+◌, ◌-◌, ◌*◌, ◌/◌, ◌%◌, ◌<◌, ◌≤◌, ◌≡◌, refl, ap, sym, ◌∙◌, inl, inr, Bool, true,
  false, none, some, ltb, ◌==◌, arith, Bool-cases, Option-cases,
}
use swe3004_operating_system.Disk.{Block}
use swe3004_operating_system.FileSystem.{Fs, block_at, bits_per_block}
use swe3004_operating_system.FileSystem.Bits.{test_block}
use swe3004_operating_system.FileSystem.Blocks.{map_block, free_bit, free_block}

-- The free map says that the block is in use.
unfoldable pub is_used : ℕ → Fs → Bool
is_used b fs = test_block (b % bits_per_block) (block_at (map_block b fs) fs)

free_bit-some :
    (left bi b size : ℕ) (block : Block) (k : ℕ)
    → free_bit left bi b size block ≡ some k
    → (bi ≤ k)
      × (k < bi + left)
      × (b + k < size)
      × (test_block k block ≡ false)
      × ((j : ℕ) → bi ≤ j → j < k → test_block j block ≡ true)
unfolding free_bit
free_bit-some zero bi b size block k e = absurd cc
free_bit-some (suc left) bi b size block k e = elim (Bool-cases (ltb (b + bi) size)) [
  | inr past ↦ absurd (ground arith)
  | inl within ↦ elim (Bool-cases (test_block bi block)) [
    | inr free ↦
        let here : bi ≡ k = ground arith in
        (
          omega arith,
          omega arith,
          ground arith,
          rw (sym here) free,
          λ j low high. absurd (omega arith),
        )
    | inl used ↦
        let later : free_bit left (bi + 1) b size block ≡ some k = ground arith in
        let (low, high, inside, free, before) = free_bit-some left (bi + 1) b size block k later in
        (
          omega arith,
          omega arith,
          inside,
          free,
          λ j low' high'. elim (Bool-cases (bi == j)) [
            | inl at ↦ let same : j ≡ bi = ground arith in rw same used
            | inr behind ↦ before j (ground arith) high'
          ],
        )
  ]
]

free_bit-none :
    (left bi b size : ℕ) (block : Block) (j : ℕ)
    → free_bit left bi b size block ≡ none
    → bi ≤ j
    → j < bi + left
    → b + j < size
    → test_block j block ≡ true
unfolding free_bit
free_bit-none zero bi b size block j e low high inside = absurd (omega arith)
free_bit-none (suc left) bi b size block j e low high inside =
    let within : ltb (b + bi) size ≡ true = ground arith in
    elim (Bool-cases (test_block bi block)) [
      | inr free ↦ absurd (ground arith)
      | inl used ↦
          let later : free_bit left (bi + 1) b size block ≡ none = ground arith in
          elim (Bool-cases (bi == j)) [
            | inl at ↦ let same : j ≡ bi = ground arith in rw same used
            | inr behind ↦
                free_bit-none left (bi + 1) b size block j later (ground arith) (omega arith) inside
          ]
    ]

-- Block `j` has bit `j - b` of the map block of `b`.
is_used_at :
    (b j : ℕ) (fs : Fs)
    → b % bits_per_block ≡ 0
    → b ≤ j
    → j < b + bits_per_block
    → is_used j fs ≡ test_block (j - b) (block_at (map_block b fs) fs)
unfolding is_used
is_used_at b j fs start low high =
    let bi : j % bits_per_block ≡ j - b = omega arith in
    let same : j / bits_per_block ≡ b / bits_per_block = omega arith in rw (bi, same) refl

pub free_block-some :
    (fuel b : ℕ) (fs : Fs) (n : ℕ)
    → b % bits_per_block ≡ 0
    → free_block fuel b fs ≡ some n
    → (b ≤ n)
      × (n < fs.sb.size)
      × (is_used n fs ≡ false)
      × ((j : ℕ) → b ≤ j → j < n → is_used j fs ≡ true)
unfolding free_block
free_block-some zero b fs n start e = absurd cc
free_block-some (suc fuel) b fs n start e =
    let block = block_at (map_block b fs) fs in
    elim (Bool-cases (ltb b fs.sb.size)) [
      | inr past ↦ absurd (ground arith)
      | inl within ↦ elim (Option-cases (free_bit bits_per_block 0 b fs.sb.size block)) [
        | inr (k, found) ↦
            let here : n ≡ b + k = ground arith in
            let (low, high, inside, free, before) =
              free_bit-some bits_per_block 0 b fs.sb.size block k found in
            (
              omega arith,
              omega arith,
              is_used_at b n fs start (omega arith) (omega arith)
                  ∙ ap (λ j. test_block j block) (omega arith)
                  ∙ free,
              λ j low' high'.
                  is_used_at b j fs start low' (omega arith)
                  ∙ before (j - b) (omega arith) (omega arith),
            )
        | inl full ↦
            let next : (b + bits_per_block) % bits_per_block ≡ 0 = omega arith in
            let later : free_block fuel (b + bits_per_block) fs ≡ some n = ground arith in
            let (low, inside, free, before) =
              free_block-some fuel (b + bits_per_block) fs n next later in
            (
              omega arith,
              inside,
              free,
              λ j low' high'. elim (Bool-cases (ltb j (b + bits_per_block))) [
                | inl here ↦
                    is_used_at b j fs start low' (ground arith)
                    ∙ free_bit-none bits_per_block 0 b fs.sb.size block (j - b) full (omega arith)
                        (ground arith) (omega arith)
                | inr behind ↦ before j (ground arith) high'
              ],
            )
      ]
    ]

pub free_block-none :
    (fuel b : ℕ) (fs : Fs) (j : ℕ)
    → b % bits_per_block ≡ 0
    → fs.sb.size < b + fuel * bits_per_block
    → free_block fuel b fs ≡ none
    → b ≤ j
    → j < fs.sb.size
    → is_used j fs ≡ true
unfolding free_block
free_block-none zero b fs j start enough e low high = absurd (omega arith)
free_block-none (suc fuel) b fs j start enough e low high =
    let block = block_at (map_block b fs) fs in
    let within : ltb b fs.sb.size ≡ true = ground arith in
    elim (Option-cases (free_bit bits_per_block 0 b fs.sb.size block)) [
      | inr (k, found) ↦ absurd (ground arith)
      | inl full ↦
          let later : free_block fuel (b + bits_per_block) fs ≡ none = ground arith in
          elim (Bool-cases (ltb j (b + bits_per_block))) [
            | inl here ↦
                is_used_at b j fs start low (ground arith)
                ∙ free_bit-none bits_per_block 0 b fs.sb.size block (j - b) full (omega arith)
                    (ground arith) (omega arith)
            | inr behind ↦
                free_block-none fuel (b + bits_per_block) fs j (omega arith) (omega arith) later
                  (ground arith) high
          ]
    ]
