-- ===== src/FileSystem/InodeCache/Drop.antt =====
-- `iput` drops one reference of its entry, or frees the inode, and touches no other.
use swe3004_operating_system.Prelude.{
  ℕ, zero, suc, replicate, ◌+◌, ◌-◌, ◌<◌, ◌≤◌, ◌≡◌, ◌^◌, refl, subst, sym, ap, ◌⊎◌, Bool, ◌||◌, leb,
  ltb, some, get_elem?, ◌∙◌, inl, inr, true, false, ◌&&◌, List, [], ◌∷◌, ◌==◌, if◌then◌else◌, arith,
  get_or, set, sub32, Bool-cases, returns, behind,
}
use swe3004_operating_system.FileSystem.{Fs, block_at}
use swe3004_operating_system.FileSystem.Room.{HasRoom}
use swe3004_operating_system.FileSystem.Inodes.OnDisk.{iupdate_returns}
use swe3004_operating_system.FileSystem.Blocks.{bfree}
use swe3004_operating_system.FileSystem.Inodes.{Inode, ndirect, nindirect, iupdate}
use swe3004_operating_system.FileSystem.InodeCache.{
  is_active, clear_slot, clear_slots, free_entries, clear_indirect, itrunc, free_unlinked, iput,
}
use swe3004_operating_system.FileSystem.InodeCache.Counts.{copies, references}

-- The same entry, but for its slots, which are 0 where `p` holds and else as they were.
abbrev Cleared : (p : ℕ → Bool) → Inode → Inode → Type 0
Cleared p ip ip' =
    (ip' ≡ record ip { addrs = ip'.addrs })
    × ((j : ℕ) → get_or ip'.addrs j 0 ≡ (if p j then 0 else get_or ip.addrs j 0))

get_or-set_zero :
    (l : List ℕ) (i j : ℕ) → get_or (set l i 0) j 0 ≡ (if j == i then 0 else get_or l j 0)
get_or-set_zero [] i j = ground arith
get_or-set_zero (x ∷ l) zero zero = ground arith
get_or-set_zero (x ∷ l) zero (suc j) = ground arith
get_or-set_zero (x ∷ l) (suc i) zero = ground arith
get_or-set_zero (x ∷ l) (suc i) (suc j) = get_or-set_zero l i j ∙ ground arith

zero_already :
    (l : List ℕ) (i j : ℕ) → get_or l i 0 ≡ 0 → get_or l j 0 ≡ (if j == i then 0 else get_or l j 0)
zero_already l i j e = elim (Bool-cases (j == i)) [
  | inl same ↦ rw same (ap (λ k. get_or l k 0) (ground arith) ∙ e)
  | inr other ↦ rw other refl
]

clear_slot-Cleared :
    (i : ℕ) (ip : Inode) (fs : Fs) (ip' : Inode) (fs' : Fs)
    → (if get_or ip.addrs i 0 == 0 then returns (ip, fs) else clear_slot i ip fs)
      ≡ returns (ip', fs')
    → Cleared (λ j. j == i) ip ip'
unfolding clear_slot
clear_slot-Cleared i ip fs ip' fs' e = elim (Bool-cases (get_or ip.addrs i 0 == 0)) [
  | inl empty ↦
      let same : ip' ≡ ip = ground arith in
      rw same (refl, λ j. zero_already ip.addrs i j (ground arith))
  | inr used ↦
      let (fs1, _, last) = behind (bfree (get_or ip.addrs i 0) fs) _ (ip', fs') (rw used at e) in
      let same : ip' ≡ record ip { addrs = set ip.addrs i 0 } = ground arith in
      rw same (refl, get_or-set_zero ip.addrs i)
]

Cleared-trans :
    (p q r : ℕ → Bool) (ip ip1 ip2 : Inode)
    → ((j : ℕ) → r j ≡ (p j || q j))
    → Cleared p ip ip1
    → Cleared q ip1 ip2
    → Cleared r ip ip2
Cleared-trans p q r ip ip1 ip2 both (same, zeros) (same', zeros') = (
  same' ∙ ap (λ (x : Inode). record x { addrs = ip2.addrs }) same,
  λ j. zeros' j ∙ rw (zeros j, both j) (ground arith),
)

clear_slots-Cleared :
    (left i : ℕ) (ip : Inode) (fs : Fs) (ip' : Inode) (fs' : Fs)
    → clear_slots left i ip fs ≡ returns (ip', fs')
    → Cleared (λ j. leb i j && ltb j (i + left)) ip ip'
unfolding clear_slots
clear_slots-Cleared zero i ip fs ip' fs' e =
    let same : ip' ≡ ip = ground arith in
    let nowhere : (j : ℕ) → (leb i j && ltb j (i + 0)) ≡ false = λ j. ground arith in
    rw same (refl, λ j. rw (nowhere j) refl)
clear_slots-Cleared (suc left) i ip fs ip' fs' e =
    let ((ip1, fs1), first, rest) = behind _ _ (ip', fs') e in
    Cleared-trans (λ j. j == i) (λ j. leb (i + 1) j && ltb j (i + 1 + left)) _ ip ip1 ip'
      (λ j. ground arith) (clear_slot-Cleared i ip fs ip1 fs1 first)
      (clear_slots-Cleared left (i + 1) ip1 fs1 ip' fs' rest)

clear_indirect-Cleared :
    (ip : Inode) (fs : Fs) (ip' : Inode) (fs' : Fs)
    → clear_indirect ip fs ≡ returns (ip', fs')
    → Cleared (λ j. j == ndirect) ip ip'
unfolding clear_indirect
clear_indirect-Cleared ip fs ip' fs' e = elim (Bool-cases (get_or ip.addrs ndirect 0 == 0)) [
  | inl empty ↦
      let same : ip' ≡ ip = ground arith in
      rw same (refl, λ j. zero_already ip.addrs ndirect j (ground arith))
  | inr used ↦
      let (fs1, _, last) =
        behind (free_entries nindirect 0 (block_at (get_or ip.addrs ndirect 0) fs) fs) _ (ip', fs')
          (rw used at e) in
      clear_slot-Cleared ndirect ip fs1 ip' fs' (rw used last)
]

abbrev NoSlots : Inode → Inode → Type 0
NoSlots ip ip' = (j : ℕ) → get_or ip'.addrs j 0 ≡ (if leb j ndirect then 0 else get_or ip.addrs j 0)

itrunc_lem :
    (ip : Inode) (fs : Fs) (ip' : Inode) (fs' : Fs)
    → itrunc ip fs ≡ returns (ip', fs')
    → (ip' ≡ record ip { size = 0; addrs = ip'.addrs }) × NoSlots ip ip'
unfolding itrunc
itrunc_lem ip fs ip' fs' e =
    let ((ip1, fs1), first, rest) = behind _ _ (ip', fs') e in
    let ((ip2, fs2), second, last) = behind _ _ (ip', fs') rest in
    let (fs3, _, end) = behind (iupdate (record ip2 { size = 0 }) fs2) _ (ip', fs') last in
    let same : ip' ≡ record ip2 { size = 0 } = ground arith in
    let (kept, zeros) =
      Cleared-trans (λ j. leb 0 j && ltb j (0 + ndirect)) (λ j. j == ndirect) (λ j. leb j ndirect)
        ip ip1 ip2 (λ j. ground arith) (clear_slots-Cleared ndirect 0 ip fs ip1 fs1 first)
        (clear_indirect-Cleared ip1 fs1 ip2 fs2 second) in
    rw same (ap (λ (x : Inode). record x { size = 0 }) kept, zeros)

-- What `iput` makes of its entry `ip`: of the last reference to an inode in memory without links, an
-- entry without type, length, slots and data, after an `iupdate` has written it like this to the
-- disk; and of any other the same with one reference fewer.
abbrev pub Dropped : (ip ip' : Inode) → (fs fs' : Fs) → Type 0
Dropped ip ip' fs fs' =
    (((ip.valid && (ip.nlink == 0) && (ip.ref == 1)) ≡ false)
      × (ip' ≡ record ip { ref = ip.ref - 1 })
      × (fs' ≡ fs))
    ⊎ (((ip.valid && (ip.nlink == 0) && (ip.ref == 1)) ≡ true)
        × (ip' ≡ record ip { ref = 0; kind = 0; valid = false; size = 0; addrs = ip'.addrs })
        × ((j : ℕ) → get_or ip'.addrs j 0 ≡ (if leb j ndirect then 0 else get_or ip.addrs j 0))
        × (fs1 : Fs) × (iupdate (record ip' { valid = true; ref = 1 }) fs1 ≡ returns fs'))

free_unlinked-Dropped :
    (ip : Inode) (fs : Fs) (ip' : Inode) (fs' : Fs)
    → 0 < ip.ref
    → ip.ref < 2 ^ 31
    → free_unlinked ip fs ≡ returns (ip', fs')
    → Dropped ip (record ip' { ref = sub32 ip'.ref 1 }) fs fs'
unfolding free_unlinked
free_unlinked-Dropped ip fs ip' fs' held few e =
    elim (Bool-cases (ip.valid && (ip.nlink == 0) && (ip.ref == 1))) [
      | inr kept ↦
          let same : ip' ≡ ip = ground arith in
          let same_fs : fs' ≡ fs = ground arith in
          let less : sub32 ip.ref 1 ≡ ip.ref - 1 = omega arith in
          inl (kept, rw (same, less) refl, same_fs)
      | inl unlinked ↦
          let ((ip1, fs1), first, rest) = behind (itrunc ip fs) _ (ip', fs') (rw unlinked at e) in
          let (fs2, wrote, end) =
            behind (iupdate (record ip1 { kind = 0 }) fs1) _ (ip', fs') rest in
          let same : ip' ≡ record ip1 { kind = 0; valid = false } = ground arith in
          let (entry, zeros) = itrunc_lem ip fs ip1 fs1 first in
          let one : ip.ref ≡ 1 = ground arith in
          let ref : ip1.ref ≡ 1 = ap (λ (x : Inode). x.ref) entry ∙ one in
          let valid : ip1.valid ≡ true = ap (λ (x : Inode). x.valid) entry ∙ ground arith in
          let same_fs : fs' ≡ fs2 = ground arith in
          let last : iupdate (record ip1 { kind = 0; valid = true; ref = 1 }) fs1 ≡ returns fs' =
            ap (λ v. iupdate (record ip1 { kind = 0; valid = v; ref = 1 }) fs1) (sym valid)
            ∙ ap (λ r. iupdate (record ip1 { kind = 0; ref = r }) fs1) (sym ref)
            ∙ wrote
            ∙ ap (λ f. returns f) (sym same_fs) in
          let none_left : sub32 ip1.ref 1 ≡ 0 = omega (arith, ref) in
          inr (
            unlinked,
            rw (same, none_left)
                (ap (λ (x : Inode). record x { kind = 0; valid = false; ref = 0 }) entry),
            rw same zeros,
            fs1,
            rw same last,
          )
    ]

-- Entry `i` of the cache has references.
abbrev pub IsHeld : ℕ → List Inode → Type 0
IsHeld i [] = 0 < 0
IsHeld zero (ip ∷ ips) = (0 < ip.ref) × (ip.ref < 2 ^ 31)
IsHeld (suc i) (ip ∷ ips) = IsHeld i ips

Dropped-fields :
    (ip ip' : Inode) (fs fs' : Fs)
    → Dropped ip ip' fs fs'
    → (ip'.dev ≡ ip.dev) × (ip'.inum ≡ ip.inum) × (ip'.ref ≡ ip.ref - 1)
Dropped-fields ip ip' fs fs' (inl (kept, same, _)) = (
  ap (λ (x : Inode). x.dev) same,
  ap (λ (x : Inode). x.inum) same,
  ap (λ (x : Inode). x.ref) same,
)
Dropped-fields ip ip' fs fs' (inr (unlinked, same, _, _, _)) = (
  ap (λ (x : Inode). x.dev) same,
  ap (λ (x : Inode). x.inum) same,
  ap (λ (x : Inode). x.ref) same ∙ ground arith,
)

-- An `iput` that returns, of an entry with references: if the inode is in memory without links and
-- this is its last reference, its entry has no type, length, slots or data any more, and an `iupdate`
-- of it, without type, length and slots, was the last change of the disk and the log; else the
-- entry has one reference fewer, and nothing else of it and nothing of the disk and the log has
-- changed. No other entry changes. The cache has one reference fewer and no inode more entries.
pub iput_lem :
    (d n i : ℕ) (ips ips' : List Inode) (fs fs' : Fs)
    → IsHeld i ips
    → iput i ips fs ≡ returns (ips', fs')
    → ((ip ip' : Inode) × (get_elem? ips i ≡ some ip)
        × (ips' ≡ set ips i ip')
        × Dropped ip ip' fs fs')
      × (references ips' + 1 ≡ references ips)
      × (copies d n ips' ≤ copies d n ips)
unfolding iput
iput_lem d n i [] ips' fs fs' held e = cc
iput_lem d n zero (ip ∷ ips) ips' fs fs' held e =
    let ((ip1, fs1), first, last) = behind (free_unlinked ip fs) _ (ips', fs') e in
    let same : ips' ≡ record ip1 { ref = sub32 ip1.ref 1 } ∷ ips = ground arith in
    let same_fs : fs' ≡ fs1 = ground arith in
    let ip' : Inode = record ip1 { ref = sub32 ip1.ref 1 } in
    let drop = free_unlinked-Dropped ip fs ip1 fs1 held.0 held.1 first in
    let (dev, inum, ref) = Dropped-fields ip ip' fs fs1 drop in
    let fewer : is_active d n (record ip { ref = ip.ref - 1 }) ≡ true → is_active d n ip ≡ true =
      λ h. ground arith in
    (
      (ip, ip', refl, same, subst (λ f. Dropped ip ip' fs f) (sym same_fs) drop),
      rw (same, ref) (omega arith),
      rw (same, dev, inum, ref) (ground arith),
    )
iput_lem d n (suc i) (ip ∷ ips) ips' fs fs' held e =
    let ((ips1, fs1), first, last) = behind (iput i ips fs) _ (ips', fs') e in
    let same : ips' ≡ ip ∷ ips1 = ground arith in
    let same_fs : fs' ≡ fs1 = ground arith in
    let ((p, p', here, at, drop), counted, kept) = iput_lem d n i ips ips1 fs fs1 held first in
    (
      (p, p', here, same ∙ ap (λ l. ip ∷ l) at, subst (λ f. Dropped p p' fs f) (sym same_fs) drop),
      rw same (omega (arith, counted)),
      rw same (omega (arith, kept)),
    )

-- The last reference to an inode without links and without blocks: `iput` returns in a transaction
-- with room for two blocks.
pub iput_frees :
    (k : ℕ) (ip : Inode) (ips : List Inode) (fs : Fs)
    → HasRoom (suc (suc k)) fs
    → let ip0 : Inode = record ip { valid = true; nlink = 0; ref = 1; addrs = replicate 13 0 } in
      (ips' : List Inode) × (fs' : Fs) × (iput zero (ip0 ∷ ips) fs ≡ returns (ips', fs'))
unfolding iput free_unlinked itrunc clear_slots clear_indirect
iput_frees k ip ips fs r =
    let ip0 : Inode = record ip {
      valid = true;
      nlink = 0;
      ref = 1;
      addrs = replicate 13 0;
      size = 0;
    } in
    let (fs1, e1, r1) = iupdate_returns (suc k) ip0 fs r in
    let (fs2, e2, r2) = iupdate_returns k (record ip0 { kind = 0 }) fs1 r1 in
    (record ip0 { kind = 0; valid = false; ref = 0 } ∷ ips, fs2, rw e1 (rw e2 refl))
