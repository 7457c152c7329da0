-- ===== src/Tests/Calls.antt =====
-- A caller with 64 bytes of memory, and its descriptors.
use swe3004_operating_system.Prelude.{
  ℕ, zero, suc, ◌+◌, ◌*◌, ◌<◌, ◌≡◌, ◌↔◌, ◌^◌, refl, arith, not, ◌&&◌, [], ◌∷◌, none, some,
  replicate, leb, ◌==◌, if◌then◌else◌, u32, int_lt, returns,
}
use swe3004_operating_system.Files.{fd_pipe, fd_none, Closing}
use swe3004_operating_system.Files.Handles.{ref_of}
use swe3004_operating_system.Syscall.{Caller, int_at, fetchstr, argptr}
use swe3004_operating_system.Syscall.Bounds.{is_inside, IsString, argptr_lem, fetchstr_lem}
use swe3004_operating_system.Syscall.Descriptors.{Opened, sys_dup, sys_close}
use swe3004_operating_system.Syscall.Descriptors.Counts.{
  uses, IsCounted, Dupped, Closed, sys_dup_lem, sys_close_lem,
}
use swe3004_operating_system.Tests.OpenFiles.{file_of}

-- The stack is at 40, with the arguments 1 and 16 at 44 and 48; "hi" is at 16.
abbrev caller : Caller
caller = record {
  sz = 64;
  esp = 40;
  bytes = λ a.
      if a == 16
      then 104
      else if a == 17
      then 105
      else if a == 44
      then 1
      else if a == 48
      then 16
      else 0;
  behind_ofile = λ i. some 0;
}

caller_bytes : (a : ℕ) → caller.bytes a < 2 ^ 8
caller_bytes a = ground arith

argptr_lem_example : argptr 1 20 caller ≡ (
    if leb (u32 (caller.esp + 4 + 4 * 1) + 4) caller.sz
    then (if not (int_lt 20 0) && is_inside (int_at (u32 (caller.esp + 4 + 4 * 1)) caller) 20 caller
        then some (int_at (u32 (caller.esp + 4 + 4 * 1)) caller)
        else none)
    else none)
argptr_lem_example = argptr_lem 1 20 caller (omega arith) (omega arith)

fetchstr_lem_example : (fetchstr 16 caller ≡ some (16, 2)) ↔ IsString 16 2 caller
fetchstr_lem_example = fetchstr_lem 16 2 caller

-- Descriptors 1 and 2 share a pipe end with another process.
abbrev descriptors : Opened
descriptors = record {
  ofile = none ∷ some 0 ∷ some 0 ∷ replicate 13 none;
  files = file_of fd_pipe 3 ∷ file_of fd_none 0 ∷ [];
}

abbrev elsewhere : ℕ → ℕ
elsewhere zero = 1
elsewhere (suc j) = 0

descriptors_counted : (j : ℕ) → ref_of descriptors.files j ≡ uses j descriptors.ofile + elsewhere j
descriptors_counted zero = refl
descriptors_counted (suc zero) = refl
descriptors_counted (suc (suc j)) = ground arith

elsewhere_few : (j : ℕ) → elsewhere j < 2 ^ 30
elsewhere_few zero = omega arith
elsewhere_few (suc j) = omega arith

descriptors-IsCounted : IsCounted elsewhere descriptors
descriptors-IsCounted = record { counted = descriptors_counted; few = elsewhere_few; slots = refl }

sys_dup_lem_example :
    (r : ℕ) × (o' : Opened) × (sys_dup caller descriptors ≡ returns (r, o'))
    × IsCounted elsewhere o'
    × Dupped caller descriptors o' r
sys_dup_lem_example = sys_dup_lem elsewhere caller descriptors descriptors-IsCounted caller_bytes

sys_close_lem_example :
    (r : ℕ) × (left : Closing) × (o' : Opened) × (sys_close caller descriptors
      ≡ returns (r, left, o'))
    × IsCounted elsewhere o'
    × Closed caller descriptors o' r
sys_close_lem_example =
    sys_close_lem elsewhere caller descriptors descriptors-IsCounted caller_bytes
