-- ===== src/Log/Budget.antt =====
-- The budgets of the system calls in progress: how many more blocks each may write.
use swe3004_operating_system.Prelude.{ℕ, ◌+◌, ◌*◌, ◌≤◌, ◌≡◌, List, [], ◌∷◌, ◌++◌, arith, length}
use swe3004_operating_system.Log.{max_op_blocks}

abbrev pub sum : List ℕ → ℕ
sum [] = 0
sum (k ∷ ops) = k + sum ops

abbrev pub Bounded : List ℕ → Type 0
Bounded [] = Unit {0}
Bounded (k ∷ ops) = (k ≤ max_op_blocks) × Bounded ops

pub sum-le : (ops : List ℕ) → Bounded ops → sum ops ≤ length ops * max_op_blocks
sum-le [] b = omega arith
sum-le (k ∷ ops) b = omega (arith, sum-le ops b.1)

pub sum-middle :
    (before : List ℕ) (k : ℕ) (after : List ℕ)
    → sum (before ++ (k ∷ after)) ≡ k + sum (before ++ after)
sum-middle [] k after = omega arith
sum-middle (j ∷ before) k after = omega (arith, sum-middle before k after)

pub Bounded-remove :
    (before : List ℕ) (k : ℕ) (after : List ℕ)
    → Bounded (before ++ (k ∷ after))
    → (k ≤ max_op_blocks) × Bounded (before ++ after)
Bounded-remove [] k after b = b
Bounded-remove (j ∷ before) k after b =
    let (le, rest) = Bounded-remove before k after b.1 in (le, (b.0, rest))
