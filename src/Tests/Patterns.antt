-- ===== src/Tests/Patterns.antt =====
-- An expression that looks for `ab*c` at the beginning.
use swe3004_operating_system.Prelude.{ℕ, ◌≡◌, ◌↔◌, true, List, [], ◌∷◌}
use swe3004_operating_system.Grep.{match}
use swe3004_operating_system.Grep.Meaning.{Found, match-Found}

abbrev expression : List ℕ
expression = 94 ∷ 97 ∷ 98 ∷ 42 ∷ 99 ∷ []

abbrev line : List ℕ
line = 97 ∷ 98 ∷ 98 ∷ 99 ∷ 100 ∷ []

match-Found_example : (match expression line ≡ true) ↔ Found expression line
match-Found_example = match-Found expression line
