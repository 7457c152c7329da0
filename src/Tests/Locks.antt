-- ===== src/Tests/Locks.antt =====
-- Two CPUs that contend for a lock, and nested `pushcli`.
use swe3004_operating_system.Prelude.{ℕ, ◌≡◌, List, [], ◌∷◌, returns}
use swe3004_operating_system.Spinlock.{Sys, run}
use swe3004_operating_system.Spinlock.Exclusion.{Inv, run-Inv, start, start-Inv}

abbrev contention : List ℕ
contention = 0 ∷ 1 ∷ 0 ∷ 1 ∷ 0 ∷ 1 ∷ 0 ∷ 0 ∷ 1 ∷ 1 ∷ 1 ∷ []

run-Inv_example : (s' : Sys) × (run contention start ≡ returns s') × Inv s'
run-Inv_example = run-Inv contention start start-Inv
