-- ===== src/Files/Sharing.antt =====
-- The table with the handles on it: descriptors of processes, and pointers in use by the kernel.
use swe3004_operating_system.Prelude.{
  ℕ, zero, suc, ◌+◌, ◌-◌, ◌^◌, ◌<◌, ◌≡◌, refl, ap, sym, ◌∙◌, List, [], ◌∷◌, ◌++◌, none, some, ◌==◌,
  if◌then◌else◌, arith, length, length-middle, get_elem?, returns, returns-inj,
}
use swe3004_operating_system.Files.{File, filealloc, filedup, fileclose, Closing, keeps, closing}
use swe3004_operating_system.Files.Handles.{
  ref_of, count, count-middle, count-le, filealloc-some, filealloc-none, filedup_ref, fileclose_ref,
}

-- `held` names the slot of each handle.
pub record Sys : Type 0 where
  pub files : List File
  pub held : List ℕ

pub record IsCounted (s : Sys) : Type 0 where
  pub few : length s.held < 2 ^ 31 - 1
  pub counted : (j : ℕ) → ref_of s.files j ≡ count j s.held

-- A new handle from `filealloc` or `filedup` while there are not too many for an `int`, or a handle
-- given up by `fileclose`.
pub data Step (s t : Sys) : Type 0 where
  allocs :
      (i : ℕ)
      → length s.held + 2 < 2 ^ 31
      → filealloc s.files ≡ (some i, t.files)
      → t.held ≡ i ∷ s.held
      → Step s t
  dups :
      (i : ℕ) (before after : List ℕ)
      → length s.held + 2 < 2 ^ 31
      → s.held ≡ before ++ (i ∷ after)
      → filedup i s.files ≡ returns t.files
      → t.held ≡ i ∷ s.held
      → Step s t
  closes :
      (i : ℕ) (before after : List ℕ) (c : Closing)
      → s.held ≡ before ++ (i ∷ after)
      → fileclose i s.files ≡ returns (c, t.files)
      → t.held ≡ before ++ after
      → Step s t

held_ref :
    {s : Sys} (i : ℕ) (before after : List ℕ)
    → IsCounted s
    → s.held ≡ before ++ (i ∷ after)
    → (ref_of s.files i ≡ suc (count i (before ++ after))) × (ref_of s.files i < 2 ^ 31 - 1)
held_ref {s} i before after v held =
    let all : count i s.held ≡ suc (count i (before ++ after)) =
      rw held (ground (arith, count-middle i i before after)) in
    (omega (arith, v.counted i), omega (arith, v.counted i, count-le i s.held, v.few))

-- A slot with a reference has a file.
pub file_of :
    (fs : List File) (i : ℕ)
    → 0 < ref_of fs i
    → (f : File) × (get_elem? fs i ≡ some f) × (f.ref ≡ ref_of fs i)
file_of [] i h = absurd (omega arith)
file_of (f ∷ fs) zero h = (f, refl, refl)
file_of (f ∷ fs) (suc i) h = file_of fs i h

-- A handle can be duplicated without a panic.
pub filedup_held :
    (s : Sys) (i : ℕ) (before after : List ℕ)
    → IsCounted s
    → s.held ≡ before ++ (i ∷ after)
    → (fs : List File) × (filedup i s.files ≡ returns fs)
filedup_held s i before after v held =
    let (some_ref, few) = held_ref i before after v held in
    let (fs, e, _) = filedup_ref i i s.files (omega arith) (omega arith) in (fs, e)

-- A handle can be closed without a panic, and exactly the last one on its slot closes the pipe or
-- gives the inode back.
pub fileclose_held :
    (s : Sys) (i : ℕ) (before after : List ℕ)
    → IsCounted s
    → s.held ≡ before ++ (i ∷ after)
    → (f : File) × (fs : List File) × (get_elem? s.files i ≡ some f)
      × (fileclose i s.files
          ≡ returns (if count i (before ++ after) == 0 then closing f f.kind else keeps, fs))
fileclose_held s i before after v held =
    let (some_ref, few) = held_ref i before after v held in
    let (f, here, ref) = file_of s.files i (omega arith) in
    let (fs, e, _) = fileclose_ref i i f s.files here (omega arith) (omega arith) in
    let last : (f.ref == 1) ≡ (count i (before ++ after) == 0) = ground arith in
    (f, fs, here, rw (sym last) e)

-- A slot that `filealloc` hands out has no handle, and has the new one afterwards.
pub filealloc_fresh :
    (s : Sys) (i : ℕ)
    → IsCounted s
    → (filealloc s.files).0 ≡ some i
    → (count i s.held ≡ 0) × (ref_of (filealloc s.files).1 i ≡ 1)
filealloc_fresh s i v e =
    let (free, added) = filealloc-some s.files i i e in
    (omega (arith, free, v.counted i), ground (arith, free, added))

-- `filealloc` fails only when every slot of the table has a handle.
pub filealloc_full :
    (s : Sys) (i : ℕ)
    → IsCounted s
    → (filealloc s.files).0 ≡ none
    → i < length s.files
    → 0 < count i s.held
filealloc_full s i v e h = omega (arith, filealloc-none s.files i e h, v.counted i)

-- However processes share, open and close files, each reference count stays the number of handles
-- on its slot.
pub Step-IsCounted : {s t : Sys} → Step s t → IsCounted s → IsCounted t
Step-IsCounted {s} {t} (allocs i few e held) v = record {
  few = rw held (omega arith);
  counted = λ j.
      let added = (filealloc-some s.files i j (ap (λ x. x.0) e)).1 in
      let same : t.files ≡ (filealloc s.files).1 = sym (ap (λ x. x.1) e) in
      rw (held, same) (omega (arith, added, v.counted j));
}
Step-IsCounted {s} {t} (dups i before after few held e held') v = record {
  few = rw held' (omega arith);
  counted = λ j.
      let (some_ref, small) = held_ref i before after v held in
      let (fs, e', added) = filedup_ref i j s.files (omega arith) (omega arith) in
      let same : t.files ≡ fs = returns-inj (sym e ∙ e') in
      rw (held', same) (omega (arith, added, v.counted j));
}
Step-IsCounted {s} {t} (closes i before after c held e held') v =
    let (some_ref, small) = held_ref i before after v held in
    let (f, here, ref) = file_of s.files i (omega arith) in
    record {
      few = rw held' (omega (arith, v.few, ap length held, length-middle before i after));
      counted = λ j.
          let (fs, e', less) = fileclose_ref i j f s.files here (omega arith) (omega arith) in
          let same : t.files ≡ fs = ap (λ x. x.1) (returns-inj (sym e ∙ e')) in
          let all : count j s.held ≡ (if i == j then 1 else 0) + count j (before ++ after) =
            rw held (count-middle j i before after) in
          rw (held', same) (omega (arith, less, v.counted j, all));
    }
