-- ===== src/FileSystem/Paths/Elements.antt =====
-- `skipelem` goes through the elements of a path.
use swe3004_operating_system.Prelude.{
  ℕ, zero, suc, ◌+◌, ◌<◌, ◌≤◌, ◌≡◌, ◌≢◌, refl, map, Option-cases, ap, ap₂, sym, ◌∙◌, inl, inr, Bool,
  false, List, [], ◌∷◌, ◌++◌, Option, none, some, ltb, ◌==◌, if◌then◌else◌, arith, length, take,
  drop, Bool-cases,
}
use swe3004_operating_system.Str.Text.{text}
use swe3004_operating_system.FileSystem.Paths.{
  dir_size, slash, skip_slashes, span_elem, put_name, first_elem, skipelem,
}

-- The pieces between the slashes.
abbrev add_byte : ℕ → List (List ℕ) → List (List ℕ)
add_byte c [] = (c ∷ []) ∷ []
add_byte c (p ∷ ps) = (c ∷ p) ∷ ps

pub split : List ℕ → List (List ℕ)
split [] = [] ∷ []
split (c ∷ path) = let rest = split path in if c == slash then [] ∷ rest else add_byte c rest

abbrev pub non_empty : List (List ℕ) → List (List ℕ)
non_empty [] = []
non_empty ([] ∷ ps) = non_empty ps
non_empty ((c ∷ p) ∷ ps) = (c ∷ p) ∷ non_empty ps

pub elements : List ℕ → List (List ℕ)
unfolding split
elements path = non_empty (split path)

skip_byte : (c : ℕ) (path : List ℕ) → (c == slash) ≡ false → skip_slashes (c ∷ path) ≡ c ∷ path
unfolding skip_slashes
skip_byte c path other = rw other refl

elements-skip_slashes : (path : List ℕ) → elements (skip_slashes path) ≡ elements path
unfolding elements split skip_slashes
elements-skip_slashes [] = refl
elements-skip_slashes (c ∷ path) = elim (Bool-cases (c == slash)) [
  | inl here ↦ rw here (elements-skip_slashes path)
  | inr other ↦ ap elements (skip_byte c path other)
]

-- The first piece ends where the span ends.
span_split :
    (path : List ℕ)
    → (ps : List (List ℕ)) × (split path ≡ (span_elem path).0 ∷ ps)
      × (non_empty ps ≡ elements (span_elem path).1)
unfolding split span_elem elements
span_split [] = ([], refl, refl)
span_split (c ∷ path) = elim (Bool-cases (c == slash)) [
  | inl here ↦ (split path, rw here refl, rw here (rw here refl))
  | inr other ↦ let (ps, e, same) = span_split path in (ps, rw other (rw e refl), rw other same)
]

span_byte :
    (c : ℕ) (path : List ℕ)
    → (c == slash) ≡ false
    → span_elem (c ∷ path) ≡ (c ∷ (span_elem path).0, (span_elem path).1)
unfolding span_elem
span_byte c path other = rw other refl

split_byte :
    (c : ℕ) (path : List ℕ) → (c == slash) ≡ false → split (c ∷ path) ≡ add_byte c (split path)
unfolding split
split_byte c path other = rw other refl

no_elements : elements [] ≡ []
unfolding elements split
no_elements = refl

-- An element in front: the path does not begin with a slash.
elements-span_elem :
    (c : ℕ) (path : List ℕ)
    → (c == slash) ≡ false
    → elements (c ∷ path) ≡ (c ∷ (span_elem path).0) ∷ elements (span_elem path).1
unfolding elements
elements-span_elem c path other =
    let (ps, e, same) = span_split path in
    ap non_empty (split_byte c path other ∙ ap (add_byte c) e)
    ∙ ap (λ es. (c ∷ (span_elem path).0) ∷ es) same

-- A C string.
abbrev pub NoNul : List ℕ → Type 0
NoNul [] = Unit {0}
NoNul (c ∷ s) = (c ≢ 0) × NoNul s

skip_slashes_lem :
    (path : List ℕ)
    → NoNul path
    → NoNul (skip_slashes path) × (length (skip_slashes path) ≤ length path)
unfolding skip_slashes
skip_slashes_lem [] s = (tt, omega arith)
skip_slashes_lem (c ∷ path) s = elim (Bool-cases (c == slash)) [
  | inl here ↦ let (s', le) = skip_slashes_lem path s.1 in rw here (s', omega (arith, le))
  | inr other ↦ rw other (s, omega arith)
]

span_elem_lem :
    (path : List ℕ)
    → NoNul path
    → NoNul (span_elem path).0
      × NoNul (span_elem path).1
      × (length (span_elem path).1 ≤ length path)
unfolding span_elem
span_elem_lem [] s = (tt, tt, omega arith)
span_elem_lem (c ∷ path) s = elim (Bool-cases (c == slash)) [
  | inl here ↦ rw here (tt, s, omega arith)
  | inr other ↦
      let (s0, s1, le) = span_elem_lem path s.1 in rw other ((s.0, s0), s1, omega (arith, le))
]

text-append : (elem rest : List ℕ) → NoNul elem → text (elem ++ (0 ∷ rest)) ≡ elem
text-append [] rest s = refl
text-append (c ∷ elem) rest s =
    let byte : (c == 0) ≡ false = ground (arith, s.0) in
    rw byte (ap (λ t. c ∷ t) (text-append elem rest s.1))

text-take : (n : ℕ) (elem : List ℕ) → NoNul elem → text (take n elem) ≡ take n elem
text-take zero elem s = refl
text-take (suc n) [] s = refl
text-take (suc n) (c ∷ elem) s =
    let byte : (c == 0) ≡ false = ground (arith, s.0) in
    rw byte (ap (λ t. c ∷ t) (text-take n elem s.1))

take_short : (n : ℕ) (elem : List ℕ) → length elem ≤ n → take n elem ≡ elem
take_short zero [] h = refl
take_short zero (c ∷ elem) h = absurd (omega arith)
take_short (suc n) [] h = refl
take_short (suc n) (c ∷ elem) h = ap (λ t. c ∷ t) (take_short n elem (omega arith))

text-put_name : (elem name : List ℕ) → NoNul elem → text (put_name elem name) ≡ take dir_size elem
unfolding put_name
text-put_name elem name s = elim (Bool-cases (ltb (length elem) dir_size)) [
  | inl short ↦
      rw short (text-append elem (drop (length elem + 1) name) s)
      ∙ sym (take_short dir_size elem (ground arith))
  | inr long ↦ rw long (text-take dir_size elem s)
]

-- One round on a path with the elements `es`: none is left, or the first one is taken, and what is
-- left is shorter than `bound`.
abbrev Step : (es : List (List ℕ)) (bound : ℕ) → Option (List ℕ × List ℕ) → Type 0
Step es bound none = es ≡ []
Step es bound (some (path', name')) =
    (elem : List ℕ) × (es ≡ elem ∷ elements path')
    × (text name' ≡ take dir_size elem)
    × NoNul path'
    × (length path' < bound)

abbrev starts_with_slash : List ℕ → Bool
starts_with_slash [] = false
starts_with_slash (c ∷ path) = c == slash

starts-skip_slashes : (path : List ℕ) → starts_with_slash (skip_slashes path) ≡ false
unfolding skip_slashes
starts-skip_slashes [] = refl
starts-skip_slashes (c ∷ path) = elim (Bool-cases (c == slash)) [
  | inl here ↦ rw here (starts-skip_slashes path)
  | inr other ↦ ap starts_with_slash (skip_byte c path other) ∙ other
]

first_elem_lem :
    (path name : List ℕ) (es : List (List ℕ)) (bound : ℕ)
    → NoNul path
    → starts_with_slash path ≡ false
    → elements path ≡ es
    → length path ≤ bound
    → Step es bound (first_elem path name)
unfolding first_elem
first_elem_lem [] name es bound s other e le = sym e ∙ no_elements
first_elem_lem (c ∷ path) name es bound s other e le =
    let (s0, s1, le0) = span_elem_lem path s.1 in
    let (s2, le1) = skip_slashes_lem (span_elem path).1 s1 in
    let span = span_byte c path other in
    rw span (
      c ∷ (span_elem path).0,
      sym e
          ∙ elements-span_elem c path other
          ∙ ap (λ es. (c ∷ (span_elem path).0) ∷ es)
              (sym (elements-skip_slashes (span_elem path).1)),
      text-put_name (c ∷ (span_elem path).0) name (s.0, s0),
      s2,
      omega (arith, le0, le1),
    )

skipelem_lem :
    (path name : List ℕ) → NoNul path → Step (elements path) (length path) (skipelem path name)
unfolding skipelem
skipelem_lem path name s =
    let (s', le) = skip_slashes_lem path s in
    first_elem_lem (skip_slashes path) name (elements path) (length path) s'
      (starts-skip_slashes path) (elements-skip_slashes path) le

-- The names that calls of `skipelem` leave in the name buffer, each call on what the last one left of
-- the path, until one returns the null pointer or `fuel` calls are done.
pub walk : (fuel : ℕ) (path name : List ℕ) → List (List ℕ)
unfolding skipelem
walk zero path name = []
walk (suc fuel) path name = elim (skipelem path name) [
  | none ↦ []
  | some (path', name') ↦ name' ∷ walk fuel path' name'
]

-- For any C string as the path, and any old contents of the name buffer: when `skipelem` is called
-- again and again on what it left of the path, the names that it puts out are the pieces of the
-- path between its slashes, without the empty ones, each cut to 14 bytes. One call more than the
-- path has bytes is enough for all of them.
pub walk-elements :
    (fuel : ℕ) (path name : List ℕ)
    → NoNul path
    → length path < fuel
    → map text (walk fuel path name) ≡ map (take dir_size) (elements path)
unfolding walk
walk-elements zero path name s enough = absurd (omega arith)
walk-elements (suc fuel) path name s enough =
    let round = skipelem_lem path name s in
    elim (Option-cases (skipelem path name)) [
      | inl e ↦
          let none_left : elements path ≡ [] = rw e at round in rw (e, walk) (rw none_left refl)
      | inr ((path', name'), e) ↦
          let (elem, first, named, s', less) = rw e at round in
          rw (e, walk)
            (rw first (
              ap₂ (λ n ns. n ∷ ns) named
                (walk-elements fuel path' name' s' (omega (arith, less, enough)))))
    ]
