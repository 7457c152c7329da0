-- ===== src/Cache/Twins.antt =====
-- No block has two buffers.
use swe3004_operating_system.Prelude.{
  ℕ, ◌+◌, ◌<◌, ◌≤◌, not, ltb, ◌==◌, ◌≡◌, refl, ap, ◌∙◌, inl, inr, Bool, true, false, ◌&&◌, ◌||◌,
  List, [], ◌∷◌, Option, none, some, ◌==◌, if◌then◌else◌, arith, u32, Bool-cases, Option-cases,
  Outcome, returns, panics,
}
use swe3004_operating_system.Cache.{Buf, is_block, is_free, find_cached, recycle, bget}

-- The number of buffers of a block.
abbrev pub copies : (dev blockno : ℕ) → List Buf → ℕ
copies dev blockno [] = 0
copies dev blockno (b ∷ bs) = (if is_block dev blockno b then 1 else 0) + copies dev blockno bs

find_cached-none :
    (dev blockno : ℕ) (bs : List Buf)
    → find_cached dev blockno bs ≡ none
    → copies dev blockno bs ≡ 0
unfolding find_cached
find_cached-none dev blockno [] e = refl
find_cached-none dev blockno (b ∷ bs) e = elim (Bool-cases (is_block dev blockno b)) [
  | inl here ↦ absurd (ground arith)
  | inr other ↦ elim (Option-cases (find_cached dev blockno bs)) [
    | inl nowhere ↦ ground (arith, find_cached-none dev blockno bs nowhere)
    | inr (_, found) ↦ absurd (ground arith)
  ]
]

find_cached-some :
    (dev blockno d n i : ℕ) (bs bs' : List Buf)
    → find_cached dev blockno bs ≡ some (i, bs')
    → (copies d n bs' ≡ copies d n bs) × (0 < copies dev blockno bs)
unfolding find_cached
find_cached-some dev blockno d n i [] bs' e = cc
find_cached-some dev blockno d n i (b ∷ bs) bs' e = elim (Bool-cases (is_block dev blockno b)) [
  | inl here ↦
      let same : bs' ≡ record b { refcnt = u32 (b.refcnt + 1) } ∷ bs = ground arith in
      (rw same refl, ground arith)
  | inr other ↦ elim (Option-cases (find_cached dev blockno bs)) [
    | inl nowhere ↦ absurd (ground arith)
    | inr ((k, ks), found) ↦
        let same : bs' ≡ b ∷ ks = ground arith in
        let (kept, cached) = find_cached-some dev blockno d n k bs ks found in
        (rw same (ap (λ c. (if is_block d n b then 1 else 0) + c) kept), ground arith)
  ]
]

-- The buffer that `bget` takes for another block.
abbrev pub taken : (dev blockno : ℕ) → Buf → Buf
taken dev blockno b = record b {
  dev = dev;
  blockno = blockno;
  valid = false;
  dirty = false;
  refcnt = 1;
}

-- Recycling gives the block one buffer more, and takes at most one from any other.
recycle-some :
    (dev blockno d n i : ℕ) (bs bs' : List Buf)
    → recycle dev blockno bs ≡ some (i, bs')
    → copies d n bs' ≤ (if (dev == d) && (blockno == n) then 1 else 0) + copies d n bs
unfolding recycle
recycle-some dev blockno d n i [] bs' e = cc
recycle-some dev blockno d n i (b ∷ bs) bs' e = elim (Option-cases (recycle dev blockno bs)) [
  | inl last ↦ elim (Bool-cases (is_free b)) [
    | inl free ↦ let same : bs' ≡ taken dev blockno b ∷ bs = ground arith in rw same (omega arith)
    | inr busy ↦ absurd (ground arith)
  ]
  | inr ((k, ks), found) ↦
      let same : bs' ≡ b ∷ ks = ground arith in
      let less = recycle-some dev blockno d n k bs ks found in rw same (omega (arith, less))
]

recycle_own :
    (dev blockno i : ℕ) (bs bs' : List Buf)
    → recycle dev blockno bs ≡ some (i, bs')
    → 0 < copies dev blockno bs'
unfolding recycle
recycle_own dev blockno i [] bs' e = cc
recycle_own dev blockno i (b ∷ bs) bs' e = elim (Option-cases (recycle dev blockno bs)) [
  | inl last ↦ elim (Bool-cases (is_free b)) [
    | inl free ↦ let same : bs' ≡ taken dev blockno b ∷ bs = ground arith in rw same (ground arith)
    | inr busy ↦ absurd (ground arith)
  ]
  | inr ((k, ks), found) ↦
      let same : bs' ≡ b ∷ ks = ground arith in
      let own = recycle_own dev blockno k bs ks found in rw same (omega (arith, own))
]

bget_once :
    (dev blockno d n i : ℕ) (bs bs' : List Buf)
    → bget dev blockno bs ≡ returns (i, bs')
    → copies d n bs ≤ 1
    → (0 < copies dev blockno bs') × (copies d n bs' ≤ 1)
unfolding bget
bget_once dev blockno d n i bs bs' e single = elim (Option-cases (find_cached dev blockno bs)) [
  | inl nowhere ↦ elim (Option-cases (recycle dev blockno bs)) [
    | inl full ↦ absurd (ground arith)
    | inr ((k, ks), found) ↦
        let same : bs' ≡ ks = ground arith in
        let own = recycle_own dev blockno k bs ks found in
        let added = recycle-some dev blockno d n k bs ks found in
        let absent = find_cached-none dev blockno bs nowhere in
        rw same (
          own,
          elim (Bool-cases ((dev == d) && (blockno == n))) [
            | inl asked ↦
                let same_dev : d ≡ dev = ground arith in
                let same_block : n ≡ blockno = ground arith in
                let none_before : copies d n bs ≡ 0 = rw (same_dev, same_block) absent in
                ground (arith, added, none_before)
            | inr other ↦ ground (arith, added, single)
          ],
        )
  ]
  | inr ((k, ks), found) ↦
      let same : bs' ≡ ks = ground arith in
      let own = find_cached-some dev blockno dev blockno k bs ks found in
      let kept = find_cached-some dev blockno d n k bs ks found in
      rw same (omega (arith, own), omega (arith, kept, single))
]

-- Buffer `i` of the list is of the block.
abbrev pub is_buf_of : (dev blockno i : ℕ) → List Buf → Bool
is_buf_of dev blockno i [] = false
is_buf_of dev blockno i (b ∷ bs) =
    (b.index == i && (b.dev == dev && b.blockno == blockno)) || is_buf_of dev blockno i bs

find_cached_own :
    (dev blockno i : ℕ) (bs bs' : List Buf)
    → find_cached dev blockno bs ≡ some (i, bs')
    → is_buf_of dev blockno i bs' ≡ true
unfolding find_cached
find_cached_own dev blockno i [] bs' e = cc
find_cached_own dev blockno i (b ∷ bs) bs' e = elim (Bool-cases (is_block dev blockno b)) [
  | inl here ↦
      let same : bs' ≡ record b { refcnt = u32 (b.refcnt + 1) } ∷ bs = ground arith in
      let index : b.index ≡ i = ground arith in rw same (ground arith)
  | inr other ↦ elim (Option-cases (find_cached dev blockno bs)) [
    | inl nowhere ↦ absurd (ground arith)
    | inr ((k, ks), found) ↦
        let same : bs' ≡ b ∷ ks = ground arith in
        let index : k ≡ i = ground arith in
        let own = find_cached_own dev blockno k bs ks found in rw same (ground arith)
  ]
]

recycle_index :
    (dev blockno i : ℕ) (bs bs' : List Buf)
    → recycle dev blockno bs ≡ some (i, bs')
    → is_buf_of dev blockno i bs' ≡ true
unfolding recycle
recycle_index dev blockno i [] bs' e = cc
recycle_index dev blockno i (b ∷ bs) bs' e = elim (Option-cases (recycle dev blockno bs)) [
  | inl last ↦ elim (Bool-cases (is_free b)) [
    | inl free ↦
        let same : bs' ≡ taken dev blockno b ∷ bs = ground arith in
        let index : b.index ≡ i = ground arith in rw same (ground arith)
    | inr busy ↦ absurd (ground arith)
  ]
  | inr ((k, ks), found) ↦
      let same : bs' ≡ b ∷ ks = ground arith in
      let index : k ≡ i = ground arith in
      let own = recycle_index dev blockno k bs ks found in rw same (ground arith)
]

-- Some buffer may be recycled: it is neither referenced nor dirty.
abbrev pub any_free : List Buf → Bool
any_free [] = false
any_free (b ∷ bs) = ((b.refcnt == 0) && not b.dirty) || any_free bs

recycle_free :
    (dev blockno : ℕ) (bs : List Buf)
    → any_free bs ≡ true
    → (found : ℕ × List Buf) × (recycle dev blockno bs ≡ some found)
unfolding recycle
recycle_free dev blockno [] h = cc
recycle_free dev blockno (b ∷ bs) h = elim (Option-cases (recycle dev blockno bs)) [
  | inl last ↦ elim (Bool-cases (is_free b)) [
    | inl free ↦ ((b.index, taken dev blockno b ∷ bs), rw (last, free) refl)
    | inr busy ↦
        let (_, found) = recycle_free dev blockno bs (ground arith) in absurd (ground arith)
  ]
  | inr ((k, ks), found) ↦ ((k, b ∷ ks), rw found refl)
]

pub recycle_full :
    (dev blockno : ℕ) (bs : List Buf) → any_free bs ≡ false → recycle dev blockno bs ≡ none
unfolding recycle
recycle_full dev blockno [] h = refl
recycle_full dev blockno (b ∷ bs) h =
    let busy : is_free b ≡ false = ground arith in
    let rest = recycle_full dev blockno bs (ground arith) in rw (rest, busy) refl

pub find_cached_absent :
    (dev blockno : ℕ) (bs : List Buf)
    → copies dev blockno bs ≡ 0
    → find_cached dev blockno bs ≡ none
find_cached_absent dev blockno bs absent = elim (Option-cases (find_cached dev blockno bs)) [
  | inl nowhere ↦ nowhere
  | inr ((k, ks), found) ↦
      absurd (omega (arith, (find_cached-some dev blockno dev blockno k bs ks found).1))
]

-- What `bget` makes of the second loop.
abbrev pub given : Option (ℕ × List Buf) → Outcome (ℕ × List Buf)
given none = panics
given (some found) = returns found

pub bget_miss :
    (dev blockno : ℕ) (bs : List Buf)
    → find_cached dev blockno bs ≡ none
    → bget dev blockno bs ≡ given (recycle dev blockno bs)
unfolding bget
bget_miss dev blockno bs nowhere = ground (arith, nowhere)

-- For a block that has no buffer, `bget` returns if some buffer is neither referenced nor dirty.
pub bget_returns :
    (dev blockno : ℕ) (bs : List Buf)
    → copies dev blockno bs ≡ 0
    → any_free bs ≡ true
    → (found : ℕ × List Buf) × (bget dev blockno bs ≡ returns found)
bget_returns dev blockno bs absent h =
    let nowhere = find_cached_absent dev blockno bs absent in
    let (found, e) = recycle_free dev blockno bs h in
    (found, bget_miss dev blockno bs nowhere ∙ ap given e)

-- For a block that has no buffer, `bget` panics if every buffer is referenced or dirty.
pub bget_panics :
    (dev blockno : ℕ) (bs : List Buf)
    → copies dev blockno bs ≡ 0
    → any_free bs ≡ false
    → bget dev blockno bs ≡ panics
bget_panics dev blockno bs absent h =
    let nowhere = find_cached_absent dev blockno bs absent in
    bget_miss dev blockno bs nowhere ∙ ap given (recycle_full dev blockno bs h)

bget_found :
    (dev blockno : ℕ) (bs : List Buf)
    → (ltb 0 (copies dev blockno bs) || any_free bs) ≡ true
    → (i : ℕ) × (bs' : List Buf) × (bget dev blockno bs ≡ returns (i, bs'))
      × (is_buf_of dev blockno i bs' ≡ true)
unfolding bget
bget_found dev blockno bs h = elim (Option-cases (find_cached dev blockno bs)) [
  | inl nowhere ↦
      let absent = find_cached-none dev blockno bs nowhere in
      let ((i, bs'), found) = recycle_free dev blockno bs (ground arith) in
      (
        i,
        bs',
        bget_miss dev blockno bs nowhere ∙ ap given found,
        recycle_index dev blockno i bs bs' found,
      )
  | inr ((i, bs'), found) ↦
      (i, bs', ground (arith, found), find_cached_own dev blockno i bs bs' found)
]

-- For a block that has a buffer, or else while some buffer is neither referenced nor dirty, `bget`
-- returns, and the buffer that it returns is of the block asked for. A block that had no two
-- buffers has no two afterwards, be it the one asked for, the one that gave way, or any other.
pub bget_twins :
    (dev blockno d n : ℕ) (bs : List Buf)
    → (ltb 0 (copies dev blockno bs) || any_free bs) ≡ true
    → copies d n bs ≤ 1
    → (i : ℕ) × (bs' : List Buf) × (bget dev blockno bs ≡ returns (i, bs'))
      × (is_buf_of dev blockno i bs' ≡ true)
      × (copies d n bs' ≤ 1)
bget_twins dev blockno d n bs can single =
    let (i, bs', e, own) = bget_found dev blockno bs can in
    (i, bs', e, own, (bget_once dev blockno d n i bs bs' e single).1)
