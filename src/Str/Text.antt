-- ===== src/Str/Text.antt =====
-- What the functions of string.c do to the text before the first NUL.
use swe3004_operating_system.Prelude.{
  ℕ, zero, suc, ◌^◌, ◌<◌, ◌≡◌, refl, ap, inl, inr, Bool, true, false, ◌&&◌, List, [], ◌∷◌, ◌==◌,
  if◌then◌else◌, arith, length, take, length-take, sub32, Bool-cases,
}
use swe3004_operating_system.Str.{terminate, safestrcpy_loop, safestrcpy, strlen, strncmp}

abbrev pub text : List ℕ → List ℕ
text [] = []
text (c ∷ s) = if c == 0 then [] else c ∷ text s

-- Some byte of the buffer is NUL.
abbrev pub IsTerminated : List ℕ → Type 0
IsTerminated s = length (text s) < length s

abbrev pub AllBytes : List ℕ → Type 0
AllBytes [] = Unit {0}
AllBytes (c ∷ s) = (c < 2 ^ 8) × AllBytes s

-- `strlen` counts the bytes before the first NUL.
pub strlen-text : (s : List ℕ) → strlen s ≡ length (text s)
unfolding strlen
strlen-text [] = refl
strlen-text (c ∷ s) = ground (arith, strlen-text s)

length-terminate : (s : List ℕ) → length (terminate s) ≡ length s
length-terminate [] = refl
length-terminate (x ∷ s) = refl

length-safestrcpy_loop : (left : ℕ) (s t : List ℕ) → length (safestrcpy_loop left s t) ≡ length s
unfolding safestrcpy_loop
length-safestrcpy_loop zero s t = length-terminate s
length-safestrcpy_loop (suc left) [] t = refl
length-safestrcpy_loop (suc left) (x ∷ s) [] = refl
length-safestrcpy_loop (suc left) (x ∷ s) (c ∷ t) = elim (Bool-cases (c == 0)) [
  | inl nul ↦ rw nul (ap suc (length-terminate s))
  | inr byte ↦ rw byte (ap suc (length-safestrcpy_loop left s t))
]

text-safestrcpy_loop :
    (left : ℕ) (s t : List ℕ)
    → left < length s
    → IsTerminated t
    → text (safestrcpy_loop left s t) ≡ take left (text t)
unfolding safestrcpy_loop
text-safestrcpy_loop zero [] t room end = absurd (omega arith)
text-safestrcpy_loop zero (x ∷ s) t room end = refl
text-safestrcpy_loop (suc left) [] t room end = absurd (omega arith)
text-safestrcpy_loop (suc left) (x ∷ s) [] room end = absurd (omega arith)
text-safestrcpy_loop (suc left) (x ∷ s) (c ∷ t) room end = elim (Bool-cases (c == 0)) [
  | inl nul ↦ rw nul refl
  | inr byte ↦
      rw byte
        (rw byte (ap (λ u. c ∷ u) (text-safestrcpy_loop left s t (omega arith) (ground arith))))
]

-- For a positive `n` that the buffer has room for and a source that is terminated, `safestrcpy`
-- leaves a terminated buffer of the same size, whose text is that of the source, cut to `n - 1`
-- bytes.
pub safestrcpy-text :
    (n : ℕ) (s t : List ℕ)
    → n < length s
    → IsTerminated t
    → (text (safestrcpy s t (suc n)) ≡ take n (text t))
      × (length (safestrcpy s t (suc n)) ≡ length s)
      × IsTerminated (safestrcpy s t (suc n))
unfolding safestrcpy
safestrcpy-text n s t room end =
    let copied = text-safestrcpy_loop n s t room end in
    let size = length-safestrcpy_loop n s t in
    (copied, size, omega (arith, ap length copied, length-take n (text t), size))

-- Equal texts, as a test.
abbrev pub same_text : List ℕ → List ℕ → Bool
same_text [] [] = true
same_text [] (b ∷ q) = false
same_text (a ∷ p) [] = false
same_text (a ∷ p) (b ∷ q) = (a == b) && same_text p q

-- On terminated strings of bytes, `strncmp` gives 0 exactly if their texts agree up to `n` bytes.
pub strncmp-text :
    (n : ℕ) (p q : List ℕ)
    → IsTerminated p
    → IsTerminated q
    → AllBytes p
    → AllBytes q
    → (strncmp p q n == 0) ≡ same_text (take n (text p)) (take n (text q))
unfolding strncmp
strncmp-text zero p q end end' bytes bytes' = refl
strncmp-text (suc n) [] q end end' bytes bytes' = absurd (omega arith)
strncmp-text (suc n) (a ∷ p) [] end end' bytes bytes' = absurd (omega arith)
strncmp-text (suc n) (a ∷ p) (b ∷ q) end end' bytes bytes' =
    let a_bound = bytes.0 in
    let b_bound = bytes'.0 in
    let diff : (sub32 a b == 0) ≡ (a == b) = ground arith in
    elim (Bool-cases (a == 0)) [
      | inl a_nul ↦ elim (Bool-cases (b == 0)) [
        | inl b_nul ↦ let d : (sub32 a b == 0) ≡ true = ground arith in rw (a_nul, b_nul, d) refl
        | inr b_byte ↦ let d : (sub32 a b == 0) ≡ false = ground arith in rw (a_nul, b_byte, d) refl
      ]
      | inr a_byte ↦ elim (Bool-cases (b == 0)) [
        | inl b_nul ↦
            let d : (sub32 a b == 0) ≡ false = ground arith in
            let ne : (a == b) ≡ false = ground arith in rw (a_byte, b_nul, ne, d) refl
        | inr b_byte ↦ elim (Bool-cases (a == b)) [
          | inl same ↦
              rw (a_byte, b_byte, same)
                (strncmp-text n p q (ground arith) (ground arith) bytes.1 bytes'.1)
          | inr differ ↦
              let d : (sub32 a b == 0) ≡ false = ground arith in rw (a_byte, b_byte, differ, d) refl
        ]
      ]
    ]
