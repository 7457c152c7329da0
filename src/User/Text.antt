-- ===== src/User/Text.antt =====
-- ulib.c: functions on strings in buffers, as in Str. Reading or writing past a buffer stops them.
pub mod Compare
use swe3004_operating_system.Prelude.{
  ℕ, List, [], ◌∷◌, Option, none, some, ◌==◌, if◌then◌else◌, sub32, not, ◌&&◌,
}

-- `while((*s++ = *t++) != 0)`
pub strcpy : List ℕ → List ℕ → List ℕ
strcpy [] t = []
strcpy (x ∷ s) [] = x ∷ s
strcpy (x ∷ s) (c ∷ t) = let rest = strcpy s t in c ∷ (if c == 0 then s else rest)

-- The difference is the `int` pattern of two bytes.
pub strcmp : List ℕ → List ℕ → ℕ
strcmp [] q = 0
strcmp (a ∷ p) [] = 0
strcmp (a ∷ p) (b ∷ q) =
    let rest = strcmp p q in if not (a == 0) && (a == b) then rest else sub32 a b

-- The string from the character on, or none for the null pointer.
pub strchr : List ℕ → ℕ → Option (List ℕ)
strchr [] c = none
strchr (x ∷ s) c =
    let rest = strchr s c in if x == 0 then none else if x == c then some (x ∷ s) else rest
