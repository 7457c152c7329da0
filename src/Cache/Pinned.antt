-- ===== src/Cache/Pinned.antt =====
-- Buffers in use keep their block and its data, whatever blocks are asked for.
use swe3004_operating_system.Prelude.{
  ℕ, ◌+◌, not, ◌||◌, ◌≡◌, refl, ap, sym, ◌∙◌, inl, inr, true, false, List, [], ◌∷◌, ◌++◌, none,
  some, ◌==◌, if◌then◌else◌, arith, u32, sub32, Bool-cases, Option-cases, returns,
}
use swe3004_operating_system.Cache.{
  Buf, is_block, is_free, find_cached, recycle, bget, take_out, drop_ref, brelse,
}
use swe3004_operating_system.Cache.Twins.{
  copies, any_free, taken, given, bget_miss, find_cached_absent, recycle_full,
}

-- A buffer that is referenced or dirty stays where it is and changes in its reference count alone.
abbrev pub Kept : List Buf → List Buf → Type 0
Kept [] [] = Unit {0}
Kept [] (b' ∷ bs') = ⊥
Kept (b ∷ bs) [] = ⊥
Kept (b ∷ bs) (b' ∷ bs') =
    ((not (b.refcnt == 0) || b.dirty) ≡ true → b' ≡ record b { refcnt = b'.refcnt }) × Kept bs bs'

Kept-refl : (bs : List Buf) → Kept bs bs
Kept-refl [] = tt
Kept-refl (b ∷ bs) = (λ h. refl, Kept-refl bs)

find_cached-Kept :
    (dev blockno i : ℕ) (bs bs' : List Buf)
    → find_cached dev blockno bs ≡ some (i, bs')
    → Kept bs bs'
unfolding find_cached
find_cached-Kept dev blockno i [] bs' e = absurd cc
find_cached-Kept dev blockno i (b ∷ bs) bs' e = elim (Bool-cases (is_block dev blockno b)) [
  | inl here ↦
      let same : bs' ≡ record b { refcnt = u32 (b.refcnt + 1) } ∷ bs = ground arith in
      rw same (λ h. refl, Kept-refl bs)
  | inr other ↦ elim (Option-cases (find_cached dev blockno bs)) [
    | inl nowhere ↦ absurd (ground arith)
    | inr ((k, ks), found) ↦
        let same : bs' ≡ b ∷ ks = ground arith in
        rw same (λ h. refl, find_cached-Kept dev blockno k bs ks found)
  ]
]

recycle-Kept :
    (dev blockno i : ℕ) (bs bs' : List Buf) → recycle dev blockno bs ≡ some (i, bs') → Kept bs bs'
unfolding recycle
recycle-Kept dev blockno i [] bs' e = absurd cc
recycle-Kept dev blockno i (b ∷ bs) bs' e = elim (Option-cases (recycle dev blockno bs)) [
  | inl last ↦ elim (Bool-cases (is_free b)) [
    | inl free ↦
        let same : bs' ≡ taken dev blockno b ∷ bs = ground arith in
        rw same (λ h. absurd (ground arith), Kept-refl bs)
    | inr busy ↦ absurd (ground arith)
  ]
  | inr ((k, ks), found) ↦
      let same : bs' ≡ b ∷ ks = ground arith in
      rw same (λ h. refl, recycle-Kept dev blockno k bs ks found)
]

-- Whatever block `bget` is asked for, when it returns, a buffer that is referenced or dirty keeps
-- its place, its block, its flags and its data.
pub bget-Kept :
    (dev blockno i : ℕ) (bs bs' : List Buf) → bget dev blockno bs ≡ returns (i, bs') → Kept bs bs'
unfolding bget
bget-Kept dev blockno i bs bs' e = elim (Option-cases (find_cached dev blockno bs)) [
  | inl nowhere ↦ elim (Option-cases (recycle dev blockno bs)) [
    | inl full ↦ absurd (ground arith)
    | inr ((k, ks), found) ↦
        let same : bs' ≡ ks = ground arith in rw same (recycle-Kept dev blockno k bs ks found)
  ]
  | inr ((k, ks), found) ↦
      let same : bs' ≡ ks = ground arith in rw same (find_cached-Kept dev blockno k bs ks found)
]

recycle_last :
    (dev blockno : ℕ) (before : List Buf) (b : Buf) (after : List Buf)
    → recycle dev blockno after ≡ none
    → is_free b ≡ true
    → recycle dev blockno (before ++ (b ∷ after))
      ≡ some (b.index, before ++ (taken dev blockno b ∷ after))
unfolding recycle
recycle_last dev blockno [] b after none_later free = rw (none_later, free) refl
recycle_last dev blockno (c ∷ before) b after none_later free =
    rw (recycle_last dev blockno before b after none_later free) refl

-- A block that has no buffer gets the free buffer that was used least recently, and the order of
-- the list stays.
pub bget_least_recent :
    (dev blockno : ℕ) (before : List Buf) (b : Buf) (after : List Buf)
    → copies dev blockno (before ++ (b ∷ after)) ≡ 0
    → is_free b ≡ true
    → any_free after ≡ false
    → bget dev blockno (before ++ (b ∷ after))
      ≡ returns (b.index, before ++ (taken dev blockno b ∷ after))
bget_least_recent dev blockno before b after absent free busy =
    let bs = before ++ (b ∷ after) in
    bget_miss dev blockno bs (find_cached_absent dev blockno bs absent)
    ∙ ap given (recycle_last dev blockno before b after (recycle_full dev blockno after busy) free)

take_out_copies :
    (i d n : ℕ) (bs : List Buf) (b : Buf) (others : List Buf)
    → take_out i bs ≡ some (b, others)
    → copies d n bs ≡ (if is_block d n b then 1 else 0) + copies d n others
unfolding take_out
take_out_copies i d n [] b others e = absurd cc
take_out_copies i d n (c ∷ bs) b others e = elim (Bool-cases (c.index == i)) [
  | inl here ↦
      let same : c ≡ b = ground arith in
      let rest : bs ≡ others = ground arith in rw (same, rest) refl
  | inr other ↦ elim (Option-cases (take_out i bs)) [
    | inl nowhere ↦ absurd (ground arith)
    | inr ((f, fs), found) ↦
        let same : f ≡ b = ground arith in
        let rest : others ≡ c ∷ fs = ground arith in
        let sub = take_out_copies i d n bs f fs found in rw (rest, sym same) (omega (arith, sub))
  ]
]

drop_ref_copies : (i d n : ℕ) (bs : List Buf) → copies d n (drop_ref i bs) ≡ copies d n bs
unfolding drop_ref
drop_ref_copies i d n [] = refl
drop_ref_copies i d n (b ∷ bs) = elim (Bool-cases (b.index == i)) [
  | inl here ↦ rw here refl
  | inr other ↦
      rw other (ap (λ c. (if is_block d n b then 1 else 0) + c) (drop_ref_copies i d n bs))
]

-- `brelse` of a buffer of the list does not panic and changes no block's number of buffers.
pub brelse_copies :
    (i d n : ℕ) (bs : List Buf) (b : Buf) (others : List Buf)
    → take_out i bs ≡ some (b, others)
    → (bs' : List Buf) × (brelse i bs ≡ returns bs') × (copies d n bs' ≡ copies d n bs)
unfolding brelse
brelse_copies i d n bs b others found = elim (Bool-cases (sub32 b.refcnt 1 == 0)) [
  | inl last ↦ (
    record b { refcnt = 0 } ∷ others,
    ground (arith, found),
    sym (take_out_copies i d n bs b others found),
  )
  | inr more ↦ (drop_ref i bs, ground (arith, found), drop_ref_copies i d n bs)
]
