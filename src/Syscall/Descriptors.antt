-- ===== src/Syscall/Descriptors.antt =====
-- sysfile.c: file descriptors. `ofile` of a process has the slots of its open files in `ftable`.
pub mod Counts
use swe3004_operating_system.Prelude.{
  ℕ, zero, suc, ◌+◌, Bool, true, false, not, ◌||◌, ltb, List, [], ◌∷◌, Option, none, some,
  if◌then◌else◌, set, get_or, int_lt, minus_one, Outcome, returns, panics, ◌>>=◌,
}
use swe3004_operating_system.Files.{File, filedup, fileclose, Closing, keeps}
use swe3004_operating_system.Syscall.{Caller, argint}

abbrev pub nofile : ℕ
nofile = 16

-- `f = ofile[fd]`
abbrev pub open_file : ℕ → Caller → List (Option ℕ) → Option ℕ
open_file fd c ofile = if ltb fd nofile then get_or ofile fd none else c.behind_ofile fd

-- The descriptor and the file.
pub argfd : ℕ → Caller → List (Option ℕ) → Option (ℕ × ℕ)
argfd n c ofile = elim (argint n c) [
  | none ↦ none
  | some fd ↦
      if int_lt fd 0 || not (int_lt fd nofile)
      then none
      else elim (open_file fd c ofile) [ none ↦ none | some f ↦ some (fd, f) ]
]

-- The loop of `fdalloc`, over the array, which has `nofile` slots.
pub fdalloc : ℕ → List (Option ℕ) → Option ℕ × List (Option ℕ)
fdalloc f [] = (none, [])
fdalloc f (none ∷ ofile) = (some 0, some f ∷ ofile)
fdalloc f (some g ∷ ofile) =
    let (found, ofile') = fdalloc f ofile in
    (elim found [ none ↦ none | some fd ↦ some (suc fd) ], some g ∷ ofile')

-- What the calls on descriptors change: `ofile` of the process, and the table of open files.
pub record Opened : Type 0 where
  pub ofile : List (Option ℕ)
  pub files : List File

pub sys_dup : Caller → Opened → Outcome (ℕ × Opened)
unfolding argfd fdalloc
sys_dup c o = elim (argfd 0 c o.ofile) [
  | none ↦ returns (minus_one, o)
  | some (_, f) ↦ elim (fdalloc f o.ofile).0 [
    | none ↦ returns (minus_one, o)
    | some fd ↦ (do
      files ← filedup f o.files
      returns (fd, record { ofile = (fdalloc f o.ofile).1; files = files }))
  ]
]

-- With what `fileclose` leaves to do.
pub sys_close : Caller → Opened → Outcome (ℕ × Closing × Opened)
unfolding argfd
sys_close c o = elim (argfd 0 c o.ofile) [
  | none ↦ returns (minus_one, keeps, o)
  | some (fd, f) ↦ (do
    (closing, files) ← fileclose f o.files
    returns (0, closing, record { ofile = set o.ofile fd none; files = files }))
]
