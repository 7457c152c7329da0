-- ===== src/User/Numbers.antt =====
-- Printing a number and reading it back.
use swe3004_operating_system.Prelude.{
  ℕ, zero, suc, ◌+◌, ◌-◌, ◌*◌, ◌/◌, ◌%◌, ◌^◌, ◌<◌, ◌≤◌, ◌≡◌, refl, ap, ◌∙◌, inl, inr, Bool, true,
  false, ◌&&◌, List, [], ◌∷◌, ◌++◌, ltb, leb, ◌==◌, arith, length, u32, sub32, int_lt, Bool-cases,
}
use swe3004_operating_system.User.{digit_char, put_digits, printint, atoi_from, atoi}

abbrev power : ℕ → ℕ
power zero = 1
power (suc n) = 10 * power n

put_digits-append :
    (fuel base x : ℕ) (acc tail : List ℕ)
    → put_digits fuel base x acc ++ tail ≡ put_digits fuel base x (acc ++ tail)
unfolding put_digits
put_digits-append zero base x acc tail = refl
put_digits-append (suc fuel) base x acc tail = elim (Bool-cases (x / base == 0)) [
  | inl last ↦ rw last refl
  | inr more ↦ rw more (put_digits-append fuel base (x / base) (digit_char (x % base) ∷ acc) tail)
]

atoi_from-digit :
    (n d : ℕ) (s : List ℕ)
    → d < 10
    → n * 10 + d < 2 ^ 32
    → atoi_from n (digit_char d ∷ s) ≡ atoi_from (n * 10 + d) s
unfolding atoi_from
atoi_from-digit n d s digit word =
    let small : ltb d 10 ≡ true = ground arith in
    let low : leb 48 (48 + d) ≡ true = ground arith in
    let high : leb (48 + d) 57 ≡ true = ground arith in
    let value : u32 (n * 10 + (48 + d) - 48) ≡ n * 10 + d = omega arith in
    rw small (rw (low, high, value) refl)

atoi_from-put_digits :
    (fuel x : ℕ) (acc : List ℕ)
    → x < power fuel
    → x < 2 ^ 32
    → atoi_from 0 (put_digits fuel 10 x acc) ≡ atoi_from x acc
unfolding put_digits
atoi_from-put_digits zero x acc enough word = ap (λ n. atoi_from n acc) (omega arith)
atoi_from-put_digits (suc fuel) x acc enough word = elim (Bool-cases (x / 10 == 0)) [
  | inl last ↦ rw last (
      atoi_from-digit 0 (x % 10) acc (omega arith) (omega arith)
      ∙ ap (λ n. atoi_from n acc) (ground arith))
  | inr more ↦ rw more (
      atoi_from-put_digits fuel (x / 10) (digit_char (x % 10) ∷ acc) (omega arith) (omega arith)
      ∙ atoi_from-digit (x / 10) (x % 10) acc (omega arith) (omega arith)
      ∙ ap (λ n. atoi_from n acc) (omega arith))
]

-- A non-negative `int` that `printint` prints in decimal is what `atoi` reads, if what follows it
-- is the end of the string.
pub atoi-printint : (x : ℕ) → x < 2 ^ 31 → atoi (printint x 10 true ++ (0 ∷ [])) ≡ x
unfolding atoi printint
atoi-printint x word =
    let positive : int_lt x 0 ≡ false = ground arith in
    rw positive (
      ap (atoi_from 0) (put_digits-append 32 10 x [] (0 ∷ []))
      ∙ atoi_from-put_digits 32 x (0 ∷ []) (omega arith) (omega arith))

length-put_digits :
    (k fuel x : ℕ) (acc : List ℕ)
    → x < power k
    → 0 < k
    → length (put_digits fuel 10 x acc) ≤ k + length acc
unfolding put_digits
length-put_digits k zero x acc few some_digits = omega arith
length-put_digits zero (suc fuel) x acc few some_digits = absurd (omega arith)
length-put_digits (suc zero) (suc fuel) x acc few some_digits =
    let last : (x / 10 == 0) ≡ true = ground arith in rw last (omega arith)
length-put_digits (suc (suc k)) (suc fuel) x acc few some_digits = elim (Bool-cases (x / 10 == 0)) [
  | inl last ↦ rw last (omega arith)
  | inr more ↦
      let tail : length (put_digits fuel 10 (x / 10) (digit_char (x % 10) ∷ acc))
          ≤ suc k + suc (length acc) =
        length-put_digits (suc k) fuel (x / 10) (digit_char (x % 10) ∷ acc) (omega arith)
          (omega arith) in
      rw more (omega (arith, tail))
]

-- In decimal, `printint` of any word, signed or not, fits into its buffer of 16 characters.
pub length-printint : (xx : ℕ) (sgn : Bool) → xx < 2 ^ 32 → length (printint xx 10 sgn) ≤ 16
unfolding printint
length-printint xx sgn word = elim (Bool-cases (sgn && int_lt xx 0)) [
  | inl negative ↦
      let digits = length-put_digits 10 32 (sub32 0 xx) [] (omega arith) (omega arith) in
      rw negative (omega (arith, digits))
  | inr positive ↦
      let digits = length-put_digits 10 32 xx [] (omega arith) (omega arith) in
      rw positive (omega (arith, digits))
]
