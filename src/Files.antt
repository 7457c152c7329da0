-- ===== src/Files.antt =====
-- file.c: the table of open files, shared by the descriptors of all processes. `ftable.lock` is held
-- around each function on the table, less the end of `fileclose`, which gets what it closes returned.
pub mod Handles
pub mod Sharing
use swe3004_operating_system.Prelude.{
  ℕ, zero, suc, ◌+◌, ◌-◌, ◌*◌, ◌/◌, Bool, true, false, not, List, [], ◌∷◌, Option, none, some, ltb,
  ◌==◌, if◌then◌else◌, u32, sub32, int_lt, minus_one, Outcome, returns, panics, ◌>>=◌,
}

-- The `enum` of `struct file`
pub data Kind : Type 0 where
  fd_none fd_pipe fd_inode : Kind

-- `struct file`
pub record File : Type 0 where
  pub kind : Kind
  pub ref : ℕ
  pub readable : Bool
  pub writable : Bool
  pub pipe : ℕ
  pub ip : ℕ
  pub off : ℕ

-- The loop of `filealloc`.
unfoldable pub filealloc : List File → Option ℕ × List File
filealloc [] = (none, [])
filealloc (f ∷ fs) =
    let (found, fs') = filealloc fs in
    if f.ref == 0
    then (some 0, record f { ref = 1 } ∷ fs)
    else (elim found [ none ↦ none | some i ↦ some (suc i) ], f ∷ fs')

-- The file in slot `i`; there is no pointer past the table.
pub filedup : ℕ → List File → Outcome (List File)
filedup i [] = panics
filedup zero (f ∷ fs) =
    if int_lt f.ref 1 then panics else returns (record f { ref = u32 (f.ref + 1) } ∷ fs)
filedup (suc i) (f ∷ fs) = do fs' ← filedup i fs; returns (f ∷ fs')

-- What is left to do when the table's lock is free again.
pub data Closing : Type 0 where
  keeps : Closing
  closes_pipe : (pipe : ℕ) (writable : Bool) → Closing
  -- `iput`, in a transaction
  puts : (ip : ℕ) → Closing
  nothing : Closing

abbrev pub closing : File → Kind → Closing
closing f fd_pipe = closes_pipe f.pipe f.writable
closing f fd_inode = puts f.ip
closing f fd_none = nothing

pub fileclose : ℕ → List File → Outcome (Closing × List File)
fileclose i [] = panics
fileclose zero (f ∷ fs) =
    if int_lt f.ref 1
    then panics
    else if int_lt 0 (sub32 f.ref 1)
    then returns (keeps, record f { ref = sub32 f.ref 1 } ∷ fs)
    else returns (closing f f.kind, record f { ref = 0; kind = fd_none } ∷ fs)
fileclose (suc i) (f ∷ fs) = do (c, fs') ← fileclose i fs; returns (c, f ∷ fs')
