-- ===== src/FileSystem/Inodes/Bmap.antt =====
-- `bmap` finds a block for every place in a file, and finds it again.
use swe3004_operating_system.Prelude.{
  ℕ, suc, ◌+◌, ◌-◌, ◌<◌, ◌≤◌, ◌⊎◌, set, ◌≡◌, ◌≢◌, ap, sym, ◌∙◌, inl, inr, true, false, ltb, ◌==◌,
  if◌then◌else◌, arith, length, length-replicate, get_or, get_or-set_self, Bool-cases, returns,
}
use swe3004_operating_system.FileSystem.{Fs, words_per_block, zero_block}
use swe3004_operating_system.FileSystem.Room.{HasRoom}
use swe3004_operating_system.FileSystem.Blocks.Scan.{is_used}
use swe3004_operating_system.FileSystem.Blocks.Map.{HasMap, size_super, map_block-super}
use swe3004_operating_system.FileSystem.Blocks.Alloc.{free_away}
use swe3004_operating_system.FileSystem.Inodes.{Inode, ndirect, nindirect, bmap}
use swe3004_operating_system.FileSystem.Inodes.Slots.{
  Found, FoundEntry, HasSpace, slot_found, slot_lem, IsIndirect, indirect_lem,
}

length-zero_block : length zero_block ≡ words_per_block
unfolding zero_block
length-zero_block = length-replicate {A = ℕ} words_per_block 0

-- After the first slot there is still a free block, and the indirect block is sound.
record Ready (ind : ℕ) (fs : Fs) : Type 0 where
  map : HasMap fs
  boot : is_used 0 fs ≡ true
  spare : ℕ
  inside : spare < fs.sb.size
  free : is_used spare fs ≡ false
  indirect : IsIndirect ind fs

Found-Ready :
    (old ind j1 j2 : ℕ) (fs fs1 : Fs)
    → HasSpace fs j1 j2
    → Found old ind fs fs1
    → ind ≢ 0
    → (old ≢ 0 → IsIndirect old fs)
    → Ready ind fs1
Found-Ready old ind j1 j2 fs fs1 p (inl (same, at)) ne sound =
    rw (same, sym at)
      (record {
        map = p.map;
        boot = p.boot;
        spare = j1;
        inside = p.in1;
        free = p.free1;
        indirect = sound (λ e. ne (sym at ∙ e));
      })
Found-Ready old ind j1 j2 fs fs1 p (inr (_, al)) ne sound = record {
  map = al.map;
  boot = al.used 0 (omega (arith, p.in1)) ∙ ground (arith, p.boot);
  spare = if ind == j1 then j2 else j1;
  inside = rw al.super (ground (arith, p.in1, p.in2));
  free = elim (Bool-cases (ind == j1)) [
    | inl same ↦ rw same (al.used j2 p.in2 ∙ ground (arith, p.free2, p.differ))
    | inr other ↦ rw other (al.used j1 p.in1 ∙ ground (arith, p.free1))
  ];
  indirect = record {
    inside = rw al.super al.inside;
    used = al.used ind al.inside ∙ ground arith;
    away = λ b h e.
        free_away ind fs p.map al.free b (size_super b fs fs1 al.super h)
          (e ∙ map_block-super b fs fs1 al.super);
    width = ap length al.zeroed ∙ length-zero_block;
  };
}

-- The block `a` of place `bn`: in slot `bn` of the inode, or in entry `bn - ndirect` of the block
-- in slot `ndirect`. What was there is kept, and no other slot of the inode changes.
abbrev pub Mapped : (bn a : ℕ) → (ip ip' : Inode) → (fs fs' : Fs) → Type 0
Mapped bn a ip ip' fs fs' =
    ((bn < ndirect)
      × (ip' ≡ record ip { addrs = set ip.addrs bn a })
      × Found (get_or ip.addrs bn 0) a fs fs')
    ⊎ ((ndirect ≤ bn)
        × (ind : ℕ) × (fs1 : Fs) × (ip' ≡ record ip { addrs = set ip.addrs ndirect ind })
        × Found (get_or ip.addrs ndirect 0) ind fs fs1
        × FoundEntry ind (bn - ndirect) a fs1 fs')

-- For any place in a file of the largest size, in a transaction with room for five blocks, with two
-- free blocks left and a sound indirect block, if there is one, `bmap` returns a block other than 0,
-- and returns the same one when it is asked again, without a change of the inode or the disk. Below
-- place 12 it is the block in the inode's slot of that number, and from there on the one in the
-- entry of that number, less 12, of the indirect block, which slot 12 has. A slot or an entry that
-- is not 0 is returned as it is and nothing is allocated for it; one that is 0 gets a new block, and
-- no other slot or entry changes. The blocks of the free map stay in use.
pub bmap_lem :
    (k bn j1 j2 : ℕ) (ip : Inode) (fs : Fs)
    → HasSpace fs j1 j2
    → HasRoom (suc (suc (suc (suc (suc k))))) fs
    → length ip.addrs ≡ ndirect + 1
    → (get_or ip.addrs ndirect 0 ≢ 0 → IsIndirect (get_or ip.addrs ndirect 0) fs)
    → bn < ndirect + nindirect
    → (a : ℕ) × (ip' : Inode) × (fs' : Fs) × (bmap ip bn fs ≡ returns (a, ip', fs'))
      × (a ≢ 0)
      × (bmap ip' bn fs' ≡ returns (a, ip', fs'))
      × HasMap fs'
      × Mapped bn a ip ip' fs fs'
unfolding bmap
bmap_lem k bn j1 j2 ip fs p r slots sound small = elim (Bool-cases (ltb bn ndirect)) [
  | inl direct ↦
      let (a, ip', fs', e, ne, same, found, _) =
        slot_lem (suc (suc (suc k))) bn j1 ip fs p.map p.boot r p.in1 p.free1 (ground arith) in
      let entry : get_or ip'.addrs bn 0 ≡ a =
        ap (λ (q : Inode). get_or q.addrs bn 0) same
        ∙ get_or-set_self ip.addrs bn a 0 (ground arith) in
      (
        a,
        ip',
        fs',
        rw direct e,
        ne,
        rw direct (
            slot_found bn ip' fs' (λ h. ne (sym entry ∙ h))
            ∙ ap (λ a. returns (a, ip', fs')) entry),
        elim found [ inl (same', at) ↦ rw same' p.map | inr (_, al) ↦ al.map ],
        inl (ground arith, same, found),
      )
  | inr beyond ↦
      let (ind, ip1, fs1, e, ne, same, found, r1) =
        slot_lem (suc (suc (suc k))) ndirect j1 ip fs p.map p.boot r p.in1 p.free1 (omega arith) in
      let entry : get_or ip1.addrs ndirect 0 ≡ ind =
        ap (λ (q : Inode). get_or q.addrs ndirect 0) same
        ∙ get_or-set_self ip.addrs ndirect ind 0 (omega arith) in
      let ready = Found-Ready (get_or ip.addrs ndirect 0) ind j1 j2 fs fs1 p found ne sound in
      let within : ltb (bn - ndirect) nindirect ≡ true = ground arith in
      let (a, fs', e', ne', again, map', at_entry, _) =
        indirect_lem k ind (bn - ndirect) ready.spare ip1 fs1 ready.map ready.boot r1 ready.inside
          ready.free ready.indirect (ground arith) in
      (
        a,
        ip1,
        fs',
        rw (beyond, within) (rw e e'),
        ne',
        rw (beyond, within)
            (rw
              (slot_found ndirect ip1 fs' (λ h. ne (sym entry ∙ h))
                ∙ ap (λ a. returns (a, ip1, fs')) entry)
              again),
        map',
        inr (ground arith, ind, fs1, same, found, at_entry),
      )
]
