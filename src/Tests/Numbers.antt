-- ===== src/Tests/Numbers.antt =====
-- A pid.
use swe3004_operating_system.Prelude.{◌≡◌, arith, true, [], ◌∷◌, ◌++◌}
use swe3004_operating_system.User.{printint, atoi}
use swe3004_operating_system.User.Numbers.{atoi-printint}

atoi-printint_example : atoi (printint 2025 10 true ++ (0 ∷ [])) ≡ 2025
atoi-printint_example = atoi-printint 2025 (omega arith)
