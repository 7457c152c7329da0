-- ===== src/Tests/OpenFiles.antt =====
-- A pipe end that two processes share, and a free slot.
use swe3004_operating_system.Prelude.{ℕ, zero, suc, ◌≡◌, refl, arith, true, false, [], ◌∷◌}
use swe3004_operating_system.Files.{Kind, fd_none, fd_pipe, File, filealloc}
use swe3004_operating_system.Files.Handles.{ref_of, count}
use swe3004_operating_system.Files.Sharing.{Sys, IsCounted, Step, allocs, Step-IsCounted}

abbrev pub file_of : Kind → (ref : ℕ) → File
file_of kind ref = record {
  kind = kind;
  ref = ref;
  readable = true;
  writable = false;
  pipe = 7;
  ip = 0;
  off = 0;
}

abbrev shared : Sys
shared = record { files = file_of fd_pipe 2 ∷ file_of fd_none 0 ∷ []; held = 0 ∷ 0 ∷ [] }

count_none : (j : ℕ) → ref_of shared.files j ≡ count j shared.held
count_none zero = refl
count_none (suc zero) = refl
count_none (suc (suc j)) = ground arith

shared-IsCounted : IsCounted shared
shared-IsCounted = record { few = omega arith; counted = count_none }

abbrev opened : Sys
opened = record { files = file_of fd_pipe 2 ∷ file_of fd_none 1 ∷ []; held = 1 ∷ 0 ∷ 0 ∷ [] }

second_file : Step shared opened
unfolding filealloc
second_file = allocs 1 (omega arith) refl refl

Step-IsCounted_example : IsCounted opened
Step-IsCounted_example = Step-IsCounted second_file shared-IsCounted
