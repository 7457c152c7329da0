-- ===== src/Grep.antt =====
-- grep.c: the matcher of regular expressions. A string is the list of its bytes before the NUL, so
-- that `*text == '\0'` is the end of the list.
pub mod Meaning
use swe3004_operating_system.Prelude.{
  ℕ, Bool, true, false, ◌||◌, List, [], ◌∷◌, ◌==◌, if◌then◌else◌,
}

abbrev pub caret : ℕ
caret = 94

abbrev pub dot : ℕ
dot = 46

abbrev pub star : ℕ
star = 42

abbrev pub dollar : ℕ
dollar = 36

-- `matchhere` for the expression behind the star is `here`.
pub matchstar : (List ℕ → Bool) → ℕ → List ℕ → Bool
matchstar here c [] = here []
matchstar here c (t ∷ text) =
    let rest = matchstar here c text in
    if here (t ∷ text) then true else if (t == c) || (c == dot) then rest else false

pub matchhere : List ℕ → List ℕ → Bool
unfolding matchstar
matchhere [] text = true
matchhere (r ∷ []) [] = if r == dollar then true else false
matchhere (r ∷ []) (t ∷ text) =
    if r == dollar then false else if (r == dot) || (r == t) then true else false
matchhere (r ∷ s ∷ re) [] = if s == star then matchstar (matchhere re) r [] else false
matchhere (r ∷ s ∷ re) (t ∷ text) =
    let rest = matchhere (s ∷ re) text in
    if s == star
    then matchstar (matchhere re) r (t ∷ text)
    else if (r == dot) || (r == t)
    then rest
    else false

-- The loop of `match`, over the suffixes of the text.
pub match_loop : List ℕ → List ℕ → Bool
match_loop re [] = matchhere re []
match_loop re (t ∷ text) =
    let rest = match_loop re text in if matchhere re (t ∷ text) then true else rest

pub match : List ℕ → List ℕ → Bool
unfolding matchhere match_loop
match [] text = match_loop [] text
match (r ∷ re) text = if r == caret then matchhere re text else match_loop (r ∷ re) text
