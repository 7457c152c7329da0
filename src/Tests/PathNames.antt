-- ===== src/Tests/PathNames.antt =====
-- The path "//usr/a".
use swe3004_operating_system.Prelude.{ℕ, ◌≡◌, arith, List, [], ◌∷◌, map, take, replicate}
use swe3004_operating_system.Str.Text.{text}
use swe3004_operating_system.FileSystem.Paths.{dir_size}
use swe3004_operating_system.FileSystem.Paths.Elements.{elements, NoNul, walk, walk-elements}

abbrev path : List ℕ
path = 47 ∷ 47 ∷ 117 ∷ 115 ∷ 114 ∷ 47 ∷ 97 ∷ []

path-NoNul : NoNul path
path-NoNul = (
  λ e. omega arith,
  (
    λ e. omega arith,
    (
      λ e. omega arith,
      (λ e. omega arith, (λ e. omega arith, (λ e. omega arith, (λ e. omega arith, tt)))),
    ),
  ),
)

walk-elements_example :
    map text (walk 8 path (replicate 14 0)) ≡ map (take dir_size) (elements path)
walk-elements_example = walk-elements 8 path (replicate 14 0) path-NoNul (omega arith)
