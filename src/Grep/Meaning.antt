-- ===== src/Grep/Meaning.antt =====
-- What an expression means, and that the matcher decides it.
use swe3004_operating_system.Prelude.{
  ℕ, ◌≡◌, ◌↔◌, refl, ap, sym, ◌∙◌, inl, inr, Bool, true, false, ◌||◌, List, [], ◌∷◌, ◌++◌, ◌==◌,
  if◌then◌else◌, arith, Bool-cases,
}
use swe3004_operating_system.Grep.{
  caret, dot, star, dollar, matchstar, matchhere, match_loop, match,
}

-- The parts of an expression: one character, any number of one, or the end of the text.
pub data Part : Type 0 where
  one : ℕ → Part
  many : ℕ → Part
  ends : Part

pub parts : List ℕ → List Part
parts [] = []
parts (r ∷ []) = if r == dollar then ends ∷ [] else one r ∷ []
parts (r ∷ s ∷ re) =
    let rest = parts re in
    let rest' = parts (s ∷ re) in if s == star then many r ∷ rest else one r ∷ rest'

-- The character `t` is one that `c` stands for.
abbrev pub accepts : (c t : ℕ) → Bool
accepts c t = (c == dot) || (c == t)

abbrev pub AllAccepted : ℕ → List ℕ → Type 0
AllAccepted c [] = Unit {0}
AllAccepted c (t ∷ text) = (accepts c t ≡ true) × AllAccepted c text

-- The parts read a prefix of the text, one after another.
abbrev pub Reads : List Part → List ℕ → Type 0
Reads [] text = Unit {0}
Reads (ends ∷ ps) text = (text ≡ []) × Reads ps text
Reads (one c ∷ ps) text =
    (t : ℕ) × (rest : List ℕ) × (text ≡ t ∷ rest) × (accepts c t ≡ true) × Reads ps rest
Reads (many c ∷ ps) text =
    (run rest : List ℕ) × (text ≡ run ++ rest) × AllAccepted c run × Reads ps rest

-- `^` in front, and what is behind it.
abbrev pub is_anchored : List ℕ → Bool
is_anchored [] = false
is_anchored (r ∷ re) = r == caret

abbrev pub body : List ℕ → List ℕ
body [] = []
body (r ∷ re) = if r == caret then re else r ∷ re

-- Some suffix of the text, or the whole of it for an anchored expression, is read.
abbrev pub Found : List ℕ → List ℕ → Type 0
Found re text =
    (before rest : List ℕ) × (text ≡ before ++ rest)
    × (is_anchored re ≡ true → before ≡ [])
    × Reads (parts (body re)) rest

module _ (here : List ℕ → Bool) (P : List ℕ → Type 0)
    (right : (text : List ℕ) → (here text ≡ true) ↔ P text) where
  matchstar_sound :
      (c : ℕ) (text : List ℕ)
      → matchstar here c text ≡ true
      → (run rest : List ℕ) × (text ≡ run ++ rest) × AllAccepted c run × P rest
  unfolding matchstar
  matchstar_sound c [] h = ([], [], refl, tt, (right []).0 h)
  matchstar_sound c (t ∷ text) h = elim (Bool-cases (here (t ∷ text))) [
    | inl now ↦ ([], t ∷ text, refl, tt, (right (t ∷ text)).0 now)
    | inr later ↦ elim (Bool-cases ((t == c) || (c == dot))) [
      | inl fits ↦
          let (run, rest, split, all, p) = matchstar_sound c text (ground arith) in
          (t ∷ run, rest, ap (λ ts. t ∷ ts) split, (ground arith, all), p)
      | inr stop ↦ absurd (ground arith)
    ]
  ]

  matchstar_complete :
      (c : ℕ) (text run rest : List ℕ)
      → text ≡ run ++ rest
      → AllAccepted c run
      → P rest
      → matchstar here c text ≡ true
  unfolding matchstar
  matchstar_complete c [] [] rest split all p = (right []).1 (rw (sym split) at p)
  matchstar_complete c [] (t ∷ run) rest split all p = cc
  matchstar_complete c (u ∷ text) [] rest split all p =
      let now : here (u ∷ text) ≡ true = rw split ((right rest).1 p) in rw now refl
  matchstar_complete c (u ∷ text) (t ∷ run) rest split all p =
      let same : u ≡ t = cc in
      let fits : ((u == c) || (c == dot)) ≡ true = ground (arith, all.0) in
      let later = matchstar_complete c text run rest (cc) all.1 p in
      elim (Bool-cases (here (u ∷ text))) [
        | inl now ↦ rw now refl
        | inr next ↦ rw (next, fits) later
      ]

matchstar_iff :
    (here : List ℕ → Bool) (P : List ℕ → Type 0) (c : ℕ) (text : List ℕ)
    → ((text : List ℕ) → (here text ≡ true) ↔ P text)
    → (matchstar here c text ≡ true)
      ↔ ((run rest : List ℕ) × (text ≡ run ++ rest) × AllAccepted c run × P rest)
matchstar_iff here P c text right = (
  matchstar_sound here P right c text,
  λ (run, rest, split, all, p). matchstar_complete here P right c text run rest split all p,
)

-- `matchhere` decides whether the parts of the expression read a prefix of the text.
pub matchhere-Reads : (re text : List ℕ) → (matchhere re text ≡ true) ↔ Reads (parts re) text
unfolding matchhere parts
matchhere-Reads [] text = (λ h. tt, λ h. refl)
matchhere-Reads (r ∷ []) [] = elim (Bool-cases (r == dollar)) [
  | inl last ↦ rw last (λ h. (refl, tt), λ h. refl)
  | inr other ↦ rw other (λ h. cc, λ (t, rest, e, _, _). cc)
]
matchhere-Reads (r ∷ []) (t ∷ text) = elim (Bool-cases (r == dollar)) [
  | inl last ↦ rw last (λ h. cc, λ (e, _). cc)
  | inr other ↦ rw other (
    λ h. (t, text, refl, ground arith, tt),
    λ (u, rest, e, fits, _). let same : u ≡ t = cc in ground (arith, fits),
  )
]
matchhere-Reads (r ∷ s ∷ re) [] = elim (Bool-cases (s == star)) [
  | inl starred ↦
      rw starred (matchstar_iff (matchhere re) (Reads (parts re)) r [] (matchhere-Reads re))
  | inr plain ↦ rw plain (λ h. cc, λ (t, rest, e, _, _). cc)
]
matchhere-Reads (r ∷ s ∷ re) (t ∷ text) = elim (Bool-cases (s == star)) [
  | inl starred ↦
      rw starred (matchstar_iff (matchhere re) (Reads (parts re)) r (t ∷ text) (matchhere-Reads re))
  | inr plain ↦
      let (sound, complete) = matchhere-Reads (s ∷ re) text in
      rw plain (
        λ h. (t, text, refl, ground arith, sound (ground arith)),
        λ (u, rest, e, fits, reads).
            let same : u ≡ t = cc in
            let tail : rest ≡ text = cc in
            let fits' : ((r == dot) || (r == t)) ≡ true = ground (arith, fits) in
            rw fits' (complete (rw tail at reads)),
      )
]

match_loop_sound :
    (re text : List ℕ)
    → match_loop re text ≡ true
    → (before rest : List ℕ) × (text ≡ before ++ rest) × Reads (parts re) rest
unfolding match_loop
match_loop_sound re [] h = ([], [], refl, (matchhere-Reads re []).0 h)
match_loop_sound re (t ∷ text) h = elim (Bool-cases (matchhere re (t ∷ text))) [
  | inl now ↦ ([], t ∷ text, refl, (matchhere-Reads re (t ∷ text)).0 now)
  | inr later ↦
      let (before, rest, split, reads) = match_loop_sound re text (rw later at h) in
      (t ∷ before, rest, ap (λ ts. t ∷ ts) split, reads)
]

match_loop_complete :
    (re text before rest : List ℕ)
    → text ≡ before ++ rest
    → Reads (parts re) rest
    → match_loop re text ≡ true
unfolding match_loop
match_loop_complete re [] [] rest split reads = rw split ((matchhere-Reads re rest).1 reads)
match_loop_complete re [] (b ∷ before) rest split reads = cc
match_loop_complete re (t ∷ text) [] rest split reads =
    let now : matchhere re (t ∷ text) ≡ true = rw split ((matchhere-Reads re rest).1 reads) in
    rw now refl
match_loop_complete re (t ∷ text) (b ∷ before) rest split reads =
    let later = match_loop_complete re text before rest (cc) reads in
    elim (Bool-cases (matchhere re (t ∷ text))) [ inl now ↦ rw now refl | inr next ↦ rw next later ]

-- `match` answers true exactly if the parts of the expression, read one after another, are found at
-- some place of the text, or at its beginning if the expression has `^` in front.
pub match-Found : (re text : List ℕ) → (match re text ≡ true) ↔ Found re text
unfolding match parts
match-Found [] text =
    (λ h. ([], text, refl, λ e. refl, tt), λ h. match_loop_complete [] text [] text refl tt)
match-Found (r ∷ re) text = elim (Bool-cases (r == caret)) [
  | inl first ↦
      let (sound, complete) = matchhere-Reads re text in
      rw first (
        λ h. ([], text, refl, λ e. refl, sound h),
        λ (before, rest, split, start, reads).
            let whole : rest ≡ text = ap (λ b. b ++ rest) (sym (start refl)) ∙ sym split in
            complete (rw whole at reads),
      )
  | inr free ↦ rw free (
    λ h.
        let (before, rest, split, reads) = match_loop_sound (r ∷ re) text h in
        (before, rest, split, λ e. cc, reads),
    λ (before, rest, split, _, reads). match_loop_complete (r ∷ re) text before rest split reads,
  )
]
