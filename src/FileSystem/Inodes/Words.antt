-- ===== src/FileSystem/Inodes/Words.antt =====
-- Words that are put into a block and read back.
use swe3004_operating_system.Prelude.{
  ℕ, zero, suc, ◌+◌, ◌-◌, ◌<◌, ◌≤◌, ◌≡◌, refl, ap₂, ◌∙◌, inl, inr, true, false, List, [], ◌∷◌, ltb,
  leb, ◌&&◌, ◌==◌, if◌then◌else◌, arith, length, length-set, get_or, set, get_or-set_self,
  get_or-set_ne, Bool-cases,
}
use swe3004_operating_system.Disk.{Block}
use swe3004_operating_system.FileSystem.Inodes.{put_words, get_words}

pub get_or-put_words :
    (i : ℕ) (ws : List ℕ) (block : Block) (j : ℕ)
    → i + length ws ≤ length block
    → get_or (put_words i ws block) j 0
      ≡ (if leb i j && ltb j (i + length ws) then get_or ws (j - i) 0 else get_or block j 0)
unfolding put_words
get_or-put_words i [] block j room = ground arith
get_or-put_words i (w ∷ ws) block j room =
    let size = length-set block i w in
    let rest = get_or-put_words (i + 1) ws (set block i w) j (omega arith) in
    elim (Bool-cases (i == j)) [
      | inl here ↦
          let at : j ≡ i = ground arith in
          let start : j - i ≡ 0 = omega arith in
          let inside : (leb i j && ltb j (i + length (w ∷ ws))) ≡ true = ground arith in
          let past : (leb (i + 1) j && ltb j (i + 1 + length ws)) ≡ false = ground arith in
          rest ∙ rw (inside, past, start) (rw at (get_or-set_self block i w 0 (omega arith)))
      | inr other ↦
          let same : get_or (set block i w) j 0 ≡ get_or block j 0 =
            get_or-set_ne block i j w 0 (ground arith) in
          let tests : (leb (i + 1) j && ltb j (i + 1 + length ws))
              ≡ (leb i j && ltb j (i + suc (length ws))) =
            ground arith in
          elim (Bool-cases (leb i j && ltb j (i + suc (length ws)))) [
            | inl inside ↦
                let next : j - i ≡ suc (j - (i + 1)) = ground arith in
                rest ∙ rw (tests, inside) (rw next refl)
            | inr outside ↦ rest ∙ rw (tests, outside) same
          ]
    ]

pub length-put_words :
    (i : ℕ) (ws : List ℕ) (block : Block) → length (put_words i ws block) ≡ length block
unfolding put_words
length-put_words i [] block = refl
length-put_words i (w ∷ ws) block =
    length-put_words (i + 1) ws (set block i w) ∙ length-set block i w

pub get_words_lem :
    (left i : ℕ) (block : Block) (ws : List ℕ)
    → length ws ≡ left
    → ((j : ℕ) → j < left → get_or block (i + j) 0 ≡ get_or ws j 0)
    → get_words left i block ≡ ws
unfolding get_words
get_words_lem zero i block [] size same = refl
get_words_lem zero i block (w ∷ ws) size same = absurd (omega arith)
get_words_lem (suc left) i block [] size same = absurd (omega arith)
get_words_lem (suc left) i block (w ∷ ws) size same =
    let start : i + 0 ≡ i = omega arith in
    let first : get_or block i 0 ≡ w = rw start at (same 0 (omega arith)) in
    let rest = get_words_lem left (i + 1) block ws (omega arith) (λ j h.
      let next : i + 1 + j ≡ i + suc j = omega arith in rw next (same (suc j) (omega arith))) in
    ap₂ (λ v vs. v ∷ vs) first rest

pub get_words_same :
    (left i : ℕ) (block block' : Block)
    → ((j : ℕ) → i ≤ j → j < i + left → get_or block' j 0 ≡ get_or block j 0)
    → get_words left i block' ≡ get_words left i block
unfolding get_words
get_words_same zero i block block' same = refl
get_words_same (suc left) i block block' same =
    ap₂ (λ v vs. v ∷ vs) (same i (omega arith) (omega arith))
      (get_words_same left (i + 1) block block' (λ j low high. same j (omega arith) (omega arith)))
