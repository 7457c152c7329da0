-- ===== src/User/Text/Compare.antt =====
-- Copying, comparing and searching the text before the NUL.
use swe3004_operating_system.Prelude.{
  ℕ, ◌<◌, ◌≡◌, refl, ap, inl, inr, Bool, true, false, List, [], ◌∷◌, ◌++◌, Option, none, some, ◌==◌,
  if◌then◌else◌, arith, length, sub32, suc, Bool-cases,
}
use swe3004_operating_system.Str.Text.{text, IsTerminated, AllBytes, same_text}
use swe3004_operating_system.User.Text.{strcpy, strcmp, strchr}

-- A terminated string that fits is copied as a whole, and the buffer keeps its size.
pub strcpy-text :
    (s t : List ℕ)
    → IsTerminated t
    → length (text t) < length s
    → (text (strcpy s t) ≡ text t) × (length (strcpy s t) ≡ length s)
unfolding strcpy
strcpy-text [] t end room = absurd (omega arith)
strcpy-text (x ∷ s) [] end room = absurd (omega arith)
strcpy-text (x ∷ s) (c ∷ t) end room = elim (Bool-cases (c == 0)) [
  | inl nul ↦ rw nul (refl, refl)
  | inr byte ↦
      let (copied, size) = strcpy-text s t (ground arith) (ground arith) in
      rw byte (ap (λ u. c ∷ u) copied, ap suc size)
]

-- On terminated strings of bytes, `strcmp` gives 0 exactly if their texts are equal.
pub strcmp-text :
    (p q : List ℕ)
    → IsTerminated p
    → IsTerminated q
    → AllBytes p
    → AllBytes q
    → (strcmp p q == 0) ≡ same_text (text p) (text q)
unfolding strcmp
strcmp-text [] q end end' bytes bytes' = absurd (omega arith)
strcmp-text (a ∷ p) [] end end' bytes bytes' = absurd (omega arith)
strcmp-text (a ∷ p) (b ∷ q) end end' bytes bytes' =
    let a_bound = bytes.0 in
    let b_bound = bytes'.0 in
    let diff : (sub32 a b == 0) ≡ (a == b) = ground arith in
    elim (Bool-cases (a == 0)) [
      | inl a_nul ↦ elim (Bool-cases (b == 0)) [
        | inl b_nul ↦ let d : (sub32 a b == 0) ≡ true = ground arith in rw (a_nul, b_nul, d) refl
        | inr b_byte ↦ let d : (sub32 a b == 0) ≡ false = ground arith in rw (a_nul, b_byte, d) refl
      ]
      | inr a_byte ↦ elim (Bool-cases (a == b)) [
        | inl same ↦
            let b_byte : (b == 0) ≡ false = ground arith in
            rw (a_byte, b_byte, same)
              (strcmp-text p q (ground arith) (ground arith) bytes.1 bytes'.1)
        | inr differ ↦ elim (Bool-cases (b == 0)) [
          | inl b_nul ↦
              let d : (sub32 a b == 0) ≡ false = ground arith in rw (a_byte, b_nul, differ, d) refl
          | inr b_byte ↦
              let d : (sub32 a b == 0) ≡ false = ground arith in rw (a_byte, b_byte, differ, d) refl
        ]
      ]
    ]

abbrev pub is_among : ℕ → List ℕ → Bool
is_among c [] = false
is_among c (x ∷ s) = if x == c then true else is_among c s

-- Where `strchr` finds a character, it is the first one of the text, and where it does not, there is
-- none.
abbrev pub FirstAt : List ℕ → ℕ → Option (List ℕ) → Type 0
FirstAt s c none = is_among c (text s) ≡ false
FirstAt s c (some r) =
    (before rest : List ℕ) × (r ≡ c ∷ rest)
    × (s ≡ before ++ (c ∷ rest))
    × (is_among c before ≡ false)

behind_byte :
    (x : ℕ) (s : List ℕ) (c : ℕ) (found : Option (List ℕ))
    → (x == 0) ≡ false
    → (x == c) ≡ false
    → FirstAt s c found
    → FirstAt (x ∷ s) c found
behind_byte x s c none byte other h = rw byte (rw other h)
behind_byte x s c (some r) byte other (before, rest, at, split, first) =
    (x ∷ before, rest, at, ap (λ u. x ∷ u) split, rw other first)

pub strchr-FirstAt : (s : List ℕ) (c : ℕ) → FirstAt s c (strchr s c)
unfolding strchr
strchr-FirstAt [] c = refl
strchr-FirstAt (x ∷ s) c = elim (Bool-cases (x == 0)) [
  | inl nul ↦ rw nul (rw nul refl)
  | inr byte ↦ elim (Bool-cases (x == c)) [
    | inl here ↦
        let same : x ≡ c = ground arith in
        rw (byte, here) ([], s, ap (λ y. y ∷ s) same, ap (λ y. y ∷ s) same, refl)
    | inr other ↦ rw (byte, other) (behind_byte x s c (strchr s c) byte other (strchr-FirstAt s c))
  ]
]
