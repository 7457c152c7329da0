-- ===== src/Syscall/Descriptors/Counts.antt =====
-- The calls on descriptors keep the reference counts.
use swe3004_operating_system.Prelude.{
  ℕ, zero, suc, ◌+◌, ◌^◌, ◌<◌, ◌≤◌, ◌≡◌, ◌≢◌, refl, u32, ltb, take, Bool, true, false, ap, sym, ◌∙◌,
  inl, inr, not, ◌||◌, List, [], ◌∷◌, Option, none, some, ◌==◌, if◌then◌else◌, arith, length, set,
  get_or, int_lt, minus_one, Bool-cases, Option-cases, returns, ◌⊎◌, length-set, returns-inj,
}
use swe3004_operating_system.Files.{Closing, keeps, closing}
use swe3004_operating_system.Files.Handles.{ref_of, filedup_ref, fileclose_ref}
use swe3004_operating_system.Files.Sharing.{file_of}
use swe3004_operating_system.Syscall.{Caller, int_at, fetchint, argint}
use swe3004_operating_system.Syscall.Descriptors.{
  nofile, argfd, fdalloc, Opened, sys_dup, sys_close,
}

-- The descriptors of the file in slot `j`.
abbrev pub uses : ℕ → List (Option ℕ) → ℕ
uses j [] = 0
uses j (none ∷ ofile) = uses j ofile
uses j (some f ∷ ofile) = (if f == j then 1 else 0) + uses j ofile

-- The references of a file are the descriptors of the process and those from elsewhere: of other
-- processes, and in use by the kernel.
pub record IsCounted (elsewhere : ℕ → ℕ) (o : Opened) : Type 0 where
  pub counted : (j : ℕ) → ref_of o.files j ≡ uses j o.ofile + elsewhere j
  pub few : (j : ℕ) → elsewhere j < 2 ^ 30
  pub slots : length o.ofile ≡ nofile

uses-le : (j : ℕ) (ofile : List (Option ℕ)) → uses j ofile ≤ length ofile
uses-le j [] = omega arith
uses-le j (none ∷ ofile) = omega (arith, uses-le j ofile)
uses-le j (some f ∷ ofile) = ground (arith, uses-le j ofile)

uses-get_or :
    (fd f : ℕ) (ofile : List (Option ℕ)) → get_or ofile fd none ≡ some f → 0 < uses f ofile
uses-get_or fd f [] e = cc
uses-get_or zero f (none ∷ ofile) e = cc
uses-get_or zero f (some g ∷ ofile) e = ground arith
uses-get_or (suc fd) f (none ∷ ofile) e = uses-get_or fd f ofile e
uses-get_or (suc fd) f (some g ∷ ofile) e = omega (arith, uses-get_or fd f ofile e)

uses-set :
    (j fd f : ℕ) (ofile : List (Option ℕ))
    → get_or ofile fd none ≡ some f
    → uses j ofile ≡ (if f == j then 1 else 0) + uses j (set ofile fd none)
uses-set j fd f [] e = cc
uses-set j zero f (none ∷ ofile) e = cc
uses-set j zero f (some g ∷ ofile) e = let same : g ≡ f = ground arith in rw same refl
uses-set j (suc fd) f (none ∷ ofile) e = uses-set j fd f ofile e
uses-set j (suc fd) f (some g ∷ ofile) e = omega (arith, uses-set j fd f ofile e)

fdalloc-some :
    (j f fd : ℕ) (ofile : List (Option ℕ))
    → (fdalloc f ofile).0 ≡ some fd
    → (uses j (fdalloc f ofile).1 ≡ (if f == j then 1 else 0) + uses j ofile)
      × (get_or ofile fd none ≡ none)
      × (fd < length ofile)
      × ((fdalloc f ofile).1 ≡ set ofile fd (some f))
unfolding fdalloc
fdalloc-some j f fd [] e = cc
fdalloc-some j f fd (none ∷ ofile) e =
    let first : fd ≡ 0 = ground arith in rw first (refl, refl, omega arith, refl)
fdalloc-some j f fd (some g ∷ ofile) e = elim (Option-cases (fdalloc f ofile).0) [
  | inl full ↦ absurd (ground arith)
  | inr (k, found) ↦
      let next : fd ≡ suc k = ground arith in
      let (more, free, small, same) = fdalloc-some j f k ofile found in
      rw next (omega (arith, more), free, omega arith, ap (λ o. some g ∷ o) same)
]

fdalloc-none :
    (f fd : ℕ) (ofile : List (Option ℕ))
    → (fdalloc f ofile).0 ≡ none
    → fd < length ofile
    → get_or ofile fd none ≢ none
unfolding fdalloc
fdalloc-none f fd [] e h = absurd (omega arith)
fdalloc-none f fd (none ∷ ofile) e h = cc
fdalloc-none f zero (some g ∷ ofile) e h = λ e'. cc
fdalloc-none f (suc fd) (some g ∷ ofile) e h = elim (Option-cases (fdalloc f ofile).0) [
  | inl full ↦ fdalloc-none f fd ofile full (omega arith)
  | inr (k, found) ↦ absurd (ground arith)
]

-- The argument of the call is the open descriptor `fd` of the file `f`.
pub record IsOpen (c : Caller) (ofile : List (Option ℕ)) (fd f : ℕ) : Type 0 where
  pub given : argint 0 c ≡ some fd
  pub inside : fd < nofile
  pub opened : get_or ofile fd none ≡ some f

-- The argument cannot be read, or is no number of a descriptor, or of one that is not open.
abbrev pub IsBad : Caller → List (Option ℕ) → Type 0
IsBad c ofile =
    (argint 0 c ≡ none)
    ⊎ ((fd : ℕ) × (argint 0 c ≡ some fd) × ((nofile ≤ fd) ⊎ (get_or ofile fd none ≡ none)))

argint-word :
    (fd : ℕ) (c : Caller) → ((a : ℕ) → c.bytes a < 2 ^ 8) → argint 0 c ≡ some fd → fd < 2 ^ 32
unfolding argint fetchint
argint-word fd c small e =
    let a = u32 (c.esp + 4) in
    let value : fd ≡ int_at a c = ground arith in
    omega (arith, value, small a, small (a + 1), small (a + 2), small (a + 3))

inside_lem : (k : ℕ) → k < 2 ^ 32 → (int_lt k 0 || not (int_lt k nofile)) ≡ not (ltb k nofile)
inside_lem k word = ground arith

-- What `argfd` makes of its argument.
argfd_lem :
    (c : Caller) (ofile : List (Option ℕ))
    → ((a : ℕ) → c.bytes a < 2 ^ 8)
    → ((argfd 0 c ofile ≡ none) × IsBad c ofile)
      ⊎ ((fd f : ℕ) × (argfd 0 c ofile ≡ some (fd, f)) × IsOpen c ofile fd f)
unfolding argfd
argfd_lem c ofile small = elim (Option-cases (argint 0 c)) [
  | inl absent ↦ inl (rw (absent, argfd) refl, inl absent)
  | inr (k, given) ↦
      let test = inside_lem k (argint-word k c small given) in
      elim (Bool-cases (ltb k nofile)) [
        | inr outside ↦
            inl (rw (given, argfd) (rw (test, outside) refl), inr (k, given, inl (ground arith)))
        | inl inside ↦ elim (Option-cases (get_or ofile k none)) [
          | inl closed ↦
              inl
                (rw (given, argfd) (rw (test, inside) (rw closed refl)), inr (k, given, inr closed))
          | inr (f, opened) ↦ inr (
            k,
            f,
            rw (given, argfd) (rw (test, inside) (rw opened refl)),
            record { given = given; inside = ground arith; opened = opened },
          )
        ]
      ]
]

length-fdalloc : (f : ℕ) (ofile : List (Option ℕ)) → length (fdalloc f ofile).1 ≡ length ofile
unfolding fdalloc
length-fdalloc f [] = refl
length-fdalloc f (none ∷ ofile) = refl
length-fdalloc f (some g ∷ ofile) = ap suc (length-fdalloc f ofile)

-- An open descriptor is one of its file's references, which are few.
held_ref :
    (elsewhere : ℕ → ℕ) (o : Opened) (fd f : ℕ)
    → IsCounted elsewhere o
    → get_or o.ofile fd none ≡ some f
    → (0 < ref_of o.files f) × (ref_of o.files f + 1 < 2 ^ 31)
held_ref elsewhere o fd f v opened =
    let used = uses-get_or fd f o.ofile opened in
    let most = uses-le f o.ofile in
    (omega (arith, v.counted f), omega (arith, v.counted f, v.few f, v.slots))

-- All slots are in use.
abbrev pub all_open : List (Option ℕ) → Bool
all_open [] = true
all_open (none ∷ ofile) = false
all_open (some f ∷ ofile) = all_open ofile

fdalloc-full :
    (f : ℕ) (ofile : List (Option ℕ)) → (fdalloc f ofile).0 ≡ none → all_open ofile ≡ true
unfolding fdalloc
fdalloc-full f [] e = refl
fdalloc-full f (none ∷ ofile) e = absurd cc
fdalloc-full f (some g ∷ ofile) e = elim (Option-cases (fdalloc f ofile).0) [
  | inl full ↦ fdalloc-full f ofile full
  | inr (k, found) ↦ absurd (ground arith)
]

fdalloc_first :
    (f fd : ℕ) (ofile : List (Option ℕ))
    → (fdalloc f ofile).0 ≡ some fd
    → all_open (take fd ofile) ≡ true
unfolding fdalloc
fdalloc_first f fd [] e = cc
fdalloc_first f fd (none ∷ ofile) e = let first : fd ≡ 0 = ground arith in rw first refl
fdalloc_first f fd (some g ∷ ofile) e = elim (Option-cases (fdalloc f ofile).0) [
  | inl full ↦ absurd (ground arith)
  | inr (k, found) ↦ let next : fd ≡ suc k = ground arith in rw next (fdalloc_first f k ofile found)
]

-- `dup` fails and changes nothing, for a bad argument or with all slots in use, or `r` was the first
-- free slot and now has the file of the argument.
abbrev pub Dupped : Caller → (o o' : Opened) → (r : ℕ) → Type 0
Dupped c o o' r =
    ((r ≡ minus_one) × (o' ≡ o) × (IsBad c o.ofile ⊎ (all_open o.ofile ≡ true)))
    ⊎ ((fd f : ℕ) × IsOpen c o.ofile fd f
        × (get_or o.ofile r none ≡ none)
        × (r < nofile)
        × (all_open (take r o.ofile) ≡ true)
        × (o'.ofile ≡ set o.ofile r (some f)))

-- With reference counts that are the numbers of references, and a memory of bytes, `sys_dup`
-- returns, whatever its argument. It fails and changes nothing exactly when the argument cannot be
-- read, is no open descriptor, or all descriptors are in use. Otherwise the first free descriptor
-- has the file of the argument. The counts are again the numbers of references.
pub sys_dup_lem :
    (elsewhere : ℕ → ℕ) (c : Caller) (o : Opened)
    → IsCounted elsewhere o
    → ((a : ℕ) → c.bytes a < 2 ^ 8)
    → (r : ℕ) × (o' : Opened) × (sys_dup c o ≡ returns (r, o'))
      × IsCounted elsewhere o'
      × Dupped c o o' r
unfolding sys_dup
sys_dup_lem elsewhere c o v small = elim (argfd_lem c o.ofile small) [
  | inl (bad, why) ↦ (minus_one, o, rw (bad, sys_dup) refl, v, inl (refl, refl, inl why))
  | inr (fd, f, arg, opened) ↦ elim (Option-cases (fdalloc f o.ofile).0) [
    | inl full ↦ (
      minus_one,
      o,
      rw (arg, sys_dup) (rw full refl),
      v,
      inl (refl, refl, inr (fdalloc-full f o.ofile full)),
    )
    | inr (r, found) ↦
        let (some_ref, few) = held_ref elsewhere o fd f v opened.opened in
        let (files, e, _) = filedup_ref f 0 o.files some_ref few in
        let o' : Opened = record { ofile = (fdalloc f o.ofile).1; files = files } in
        let (_, free, inside, same) = fdalloc-some 0 f r o.ofile found in
        (
          r,
          o',
          rw (arg, sys_dup) (rw found (rw e refl)),
          record {
            counted = λ j.
                let (files', e', added) = filedup_ref f j o.files some_ref few in
                let same_files : files ≡ files' = returns-inj (sym e ∙ e') in
                let more = (fdalloc-some j f r o.ofile found).0 in
                rw same_files (omega (arith, added, more, v.counted j));
            few = v.few;
            slots = omega (arith, length-fdalloc f o.ofile, v.slots);
          },
          inr (
            fd,
            f,
            opened,
            free,
            omega (arith, inside, v.slots),
            fdalloc_first f r o.ofile found,
            same,
          ),
        )
  ]
]

-- `close` fails and changes nothing, for a bad argument, or the descriptor is free.
abbrev pub Closed : Caller → (o o' : Opened) → (r : ℕ) → Type 0
Closed c o o' r =
    ((r ≡ minus_one) × (o' ≡ o) × IsBad c o.ofile)
    ⊎ ((fd f : ℕ) × (r ≡ 0) × IsOpen c o.ofile fd f × (o'.ofile ≡ set o.ofile fd none))

-- With reference counts that are the numbers of references, and a memory of bytes, `sys_close`
-- returns, whatever its argument. It fails and changes nothing exactly when the argument cannot be
-- read or is no open descriptor. Otherwise it frees that descriptor and no other. The counts are
-- again the numbers of references.
pub sys_close_lem :
    (elsewhere : ℕ → ℕ) (c : Caller) (o : Opened)
    → IsCounted elsewhere o
    → ((a : ℕ) → c.bytes a < 2 ^ 8)
    → (r : ℕ) × (left : Closing) × (o' : Opened) × (sys_close c o ≡ returns (r, left, o'))
      × IsCounted elsewhere o'
      × Closed c o o' r
unfolding sys_close
sys_close_lem elsewhere c o v small = elim (argfd_lem c o.ofile small) [
  | inl (bad, why) ↦ (minus_one, keeps, o, rw (bad, sys_close) refl, v, inl (refl, refl, why))
  | inr (fd, f, arg, is_open) ↦
      let opened = is_open.opened in
      let (some_ref, few) = held_ref elsewhere o fd f v opened in
      let (file, here, ref) = file_of o.files f some_ref in
      let (files, e, _) = fileclose_ref f 0 file o.files here (omega arith) (omega arith) in
      let o' : Opened = record { ofile = set o.ofile fd none; files = files } in
      (
        0,
        if file.ref == 1 then closing file file.kind else keeps,
        o',
        rw (arg, sys_close) (rw e refl),
        record {
          counted = λ j.
              let (files', e', less) =
                fileclose_ref f j file o.files here (omega arith) (omega arith) in
              let same_files : files ≡ files' = ap (λ x. x.1) (returns-inj (sym e ∙ e')) in
              let fewer = uses-set j fd f o.ofile opened in
              rw same_files (omega (arith, less, fewer, v.counted j));
          few = v.few;
          slots = omega (arith, length-set o.ofile fd none, v.slots);
        },
        inr (fd, f, refl, is_open, refl),
      )
]
