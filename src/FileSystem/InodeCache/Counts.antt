-- ===== src/FileSystem/InodeCache/Counts.antt =====
-- No inode has two entries, and each call of `iget` is one reference.
use swe3004_operating_system.Prelude.{
  ℕ, zero, suc, ◌+◌, ◌||◌, ◌<◌, ◌≡◌, refl, ap, ◌∙◌, inl, inr, Bool, true, false, List, [], ◌∷◌,
  Option, none, some, ◌==◌, if◌then◌else◌, arith, Bool-cases, Option-cases, Outcome, returns,
  panics,
}
use swe3004_operating_system.FileSystem.Inodes.{Inode}
use swe3004_operating_system.FileSystem.InodeCache.{
  is_active, find_active, recycled, take_empty, iget,
}

-- The number of active entries of an inode.
abbrev pub copies : (dev inum : ℕ) → List Inode → ℕ
copies dev inum [] = 0
copies dev inum (ip ∷ ips) = (if is_active dev inum ip then 1 else 0) + copies dev inum ips

-- The references of all entries.
abbrev pub references : List Inode → ℕ
references [] = 0
references (ip ∷ ips) = ip.ref + references ips

-- Inode `inum` has an entry, at index `i`.
abbrev pub IsAt : (dev inum i : ℕ) → List Inode → Type 0
IsAt dev inum i [] = 0 < 0
IsAt dev inum zero (ip ∷ ips) = is_active dev inum ip ≡ true
IsAt dev inum (suc i) (ip ∷ ips) = IsAt dev inum i ips

-- Some entry is the inode's, or has no references.
abbrev pub has_entry : (dev inum : ℕ) → List Inode → Bool
has_entry dev inum [] = false
has_entry dev inum (ip ∷ ips) = is_active dev inum ip || (ip.ref == 0) || has_entry dev inum ips

take_empty_free :
    (dev inum : ℕ) (ips : List Inode)
    → has_entry dev inum ips ≡ true
    → find_active dev inum ips ≡ none
    → (found : ℕ × List Inode) × (take_empty dev inum ips ≡ some found)
unfolding take_empty find_active
take_empty_free dev inum [] h e = cc
take_empty_free dev inum (ip ∷ ips) h e = elim (Bool-cases (ip.ref == 0)) [
  | inl unused ↦ ((0, recycled dev inum ip ∷ ips), rw unused refl)
  | inr used ↦ elim (Bool-cases (is_active dev inum ip)) [
    | inl here ↦ absurd (ground arith)
    | inr other ↦ elim (Option-cases (find_active dev inum ips)) [
      | inr (_, found) ↦ absurd (ground arith)
      | inl nowhere ↦
          let ((k, ks), found) = take_empty_free dev inum ips (ground arith) nowhere in
          ((suc k, ip ∷ ks), rw (used, found) refl)
    ]
  ]
]

-- What `iget` makes of its loop.
abbrev pub given : Option (ℕ × List Inode) → Outcome (ℕ × List Inode)
given none = panics
given (some found) = returns found

iget_miss :
    (dev inum : ℕ) (ips : List Inode)
    → find_active dev inum ips ≡ none
    → iget dev inum ips ≡ given (take_empty dev inum ips)
unfolding iget
iget_miss dev inum ips nowhere = ground (arith, nowhere)

-- `iget` returns whenever the inode has an entry or some entry has no references.
pub iget_returns :
    (dev inum : ℕ) (ips : List Inode)
    → has_entry dev inum ips ≡ true
    → (found : ℕ × List Inode) × (iget dev inum ips ≡ returns found)
unfolding iget
iget_returns dev inum ips h = elim (Option-cases (find_active dev inum ips)) [
  | inr (found, e) ↦ (found, rw (e, iget) refl)
  | inl nowhere ↦
      let (found, e) = take_empty_free dev inum ips h nowhere in
      (found, iget_miss dev inum ips nowhere ∙ ap given e)
]
