-- ===== src/Files/Handles.antt =====
-- Each reference count is the number of handles on its file.
use swe3004_operating_system.Prelude.{
  ℕ, zero, suc, ◌+◌, ◌-◌, ◌^◌, ◌<◌, ◌≤◌, ◌≡◌, refl, inl, inr, true, false, List, [], ◌∷◌, ◌++◌,
  Option, none, some, ◌==◌, if◌then◌else◌, arith, length, get_elem?, u32, sub32, int_lt, Bool-cases,
  Option-cases, returns,
}
use swe3004_operating_system.Files.{fd_none, File, filealloc, filedup, fileclose, keeps, closing}

abbrev pub ref_of : List File → ℕ → ℕ
ref_of [] i = 0
ref_of (f ∷ fs) zero = f.ref
ref_of (f ∷ fs) (suc i) = ref_of fs i

abbrev pub count : ℕ → List ℕ → ℕ
count i [] = 0
count i (h ∷ hs) = (if h == i then 1 else 0) + count i hs

pub count-middle :
    (i h : ℕ) (before after : List ℕ)
    → count i (before ++ (h ∷ after)) ≡ (if h == i then 1 else 0) + count i (before ++ after)
count-middle i h [] after = refl
count-middle i h (b ∷ before) after = omega (arith, count-middle i h before after)

pub count-le : (i : ℕ) (hs : List ℕ) → count i hs ≤ length hs
count-le i [] = omega arith
count-le i (h ∷ hs) = ground (arith, count-le i hs)

-- `filealloc` takes a slot that has no reference, or there is none.
pub filealloc-some :
    (fs : List File) (i j : ℕ)
    → (filealloc fs).0 ≡ some i
    → (ref_of fs i ≡ 0) × (ref_of (filealloc fs).1 j ≡ (if i == j then 1 else 0) + ref_of fs j)
unfolding filealloc
filealloc-some [] i j e = cc
filealloc-some (f ∷ fs) i zero e = elim (Bool-cases (f.ref == 0)) [
  | inl free ↦ let at : i ≡ 0 = ground arith in ground arith
  | inr taken ↦ elim (Option-cases (filealloc fs).0) [
    | inl none_left ↦ absurd (ground arith)
    | inr (k, later) ↦
        let at : i ≡ suc k = ground arith in
        rw (at, taken) ((filealloc-some fs k 0 later).0, ground arith)
  ]
]
filealloc-some (f ∷ fs) i (suc j) e = elim (Bool-cases (f.ref == 0)) [
  | inl free ↦ let at : i ≡ 0 = ground arith in ground arith
  | inr taken ↦ elim (Option-cases (filealloc fs).0) [
    | inl none_left ↦ absurd (ground arith)
    | inr (k, later) ↦
        let at : i ≡ suc k = ground arith in
        rw (at, taken)
          ((filealloc-some fs k j later).0, ground (arith, (filealloc-some fs k j later).1))
  ]
]

pub filealloc-none :
    (fs : List File) (i : ℕ) → (filealloc fs).0 ≡ none → i < length fs → 0 < ref_of fs i
unfolding filealloc
filealloc-none [] i e h = absurd (omega arith)
filealloc-none (f ∷ fs) zero e h = ground arith
filealloc-none (f ∷ fs) (suc i) e h = elim (Option-cases (filealloc fs).0) [
  | inl none_left ↦ filealloc-none fs i none_left (omega arith)
  | inr (k, later) ↦ absurd (ground arith)
]

pub filedup_ref :
    (i j : ℕ) (fs : List File)
    → 0 < ref_of fs i
    → ref_of fs i + 1 < 2 ^ 31
    → (fs' : List File) × (filedup i fs ≡ returns fs')
      × (ref_of fs' j ≡ (if i == j then 1 else 0) + ref_of fs j)
unfolding filedup
filedup_ref i j [] some_ref few = absurd (omega arith)
filedup_ref zero zero (f ∷ fs) some_ref few =
    let held : int_lt f.ref 1 ≡ false = ground arith in
    (record f { ref = u32 (f.ref + 1) } ∷ fs, rw held refl, ground arith)
filedup_ref zero (suc j) (f ∷ fs) some_ref few =
    let held : int_lt f.ref 1 ≡ false = ground arith in
    (record f { ref = u32 (f.ref + 1) } ∷ fs, rw held refl, ground arith)
filedup_ref (suc i) zero (f ∷ fs) some_ref few =
    let (fs', e, same) = filedup_ref i 0 fs some_ref few in (f ∷ fs', rw e refl, ground arith)
filedup_ref (suc i) (suc j) (f ∷ fs) some_ref few =
    let (fs', e, same) = filedup_ref i j fs some_ref few in
    (f ∷ fs', rw e refl, ground (arith, same))

-- The file that a pointer to slot `i` finds.
abbrev pub at_slot : ℕ → List File → Option File
at_slot i fs = get_elem? fs i

-- The slot that `fileclose` leaves.
abbrev released : File → File
released f =
    if f.ref == 1 then record f { ref = 0; kind = fd_none } else record f { ref = f.ref - 1 }

fileclose_here :
    (f : File) (fs : List File)
    → 0 < f.ref
    → f.ref < 2 ^ 31
    → fileclose 0 (f ∷ fs)
      ≡ returns (if f.ref == 1 then closing f f.kind else keeps, released f ∷ fs)
unfolding fileclose
fileclose_here f fs some_ref few =
    let held : int_lt f.ref 1 ≡ false = ground arith in
    let less : sub32 f.ref 1 ≡ f.ref - 1 = omega arith in
    elim (Bool-cases (f.ref == 1)) [
      | inl last ↦
          let gone : int_lt 0 (f.ref - 1) ≡ false = ground arith in rw (held, less, gone, last) refl
      | inr more ↦
          let kept : int_lt 0 (f.ref - 1) ≡ true = ground arith in rw (held, less, kept, more) refl
    ]

pub fileclose_ref :
    (i j : ℕ) (f : File) (fs : List File)
    → get_elem? fs i ≡ some f
    → 0 < f.ref
    → f.ref < 2 ^ 31
    → (fs' : List File) × (fileclose i fs
        ≡ returns (if f.ref == 1 then closing f f.kind else keeps, fs'))
      × ((if i == j then 1 else 0) + ref_of fs' j ≡ ref_of fs j)
unfolding fileclose
fileclose_ref i j f [] here some_ref few = cc
fileclose_ref zero zero f (g ∷ fs) here some_ref few =
    let same : g ≡ f = ground arith in
    (released f ∷ fs, rw same (fileclose_here f fs some_ref few), ground (arith, same))
fileclose_ref zero (suc j) f (g ∷ fs) here some_ref few =
    let same : g ≡ f = ground arith in
    (released f ∷ fs, rw same (fileclose_here f fs some_ref few), ground arith)
fileclose_ref (suc i) zero f (g ∷ fs) here some_ref few =
    let (fs', e, same) = fileclose_ref i 0 f fs here some_ref few in
    (g ∷ fs', rw e refl, ground arith)
fileclose_ref (suc i) (suc j) f (g ∷ fs) here some_ref few =
    let (fs', e, same) = fileclose_ref i j f fs here some_ref few in
    (g ∷ fs', rw e refl, ground (arith, same))
