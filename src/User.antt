-- ===== src/User.antt =====
-- User space: numbers as printf.c prints them and ulib.c reads them. A character is its code.
pub mod Numbers
pub mod Text
use swe3004_operating_system.Prelude.{
  ℕ, zero, suc, ◌+◌, ◌-◌, ◌*◌, ◌/◌, ◌%◌, Bool, true, false, ◌&&◌, List, [], ◌∷◌, ◌++◌, ltb, leb,
  ◌==◌, if◌then◌else◌, u32, sub32, int_lt,
}

abbrev pub digit_char : ℕ → ℕ
digit_char d = if ltb d 10 then 48 + d else 55 + d

-- The loop of `printint` on `x`, with at most `fuel` rounds. What it has put into `buf` is in front
-- of `acc`, in the order in which the second loop writes it: the last one first.
pub put_digits : (fuel base x : ℕ) → List ℕ → List ℕ
put_digits zero base x acc = acc
put_digits (suc fuel) base x acc =
    let rest = put_digits fuel base (x / base) (digit_char (x % base) ∷ acc) in
    if x / base == 0 then digit_char (x % base) ∷ acc else rest

-- An `unsigned` has no more than 32 digits in any base.
pub printint : (xx base : ℕ) (sgn : Bool) → List ℕ
unfolding put_digits
printint xx base sgn =
    if sgn && int_lt xx 0 then 45 ∷ put_digits 32 base (sub32 0 xx) [] else put_digits 32 base xx []

-- The loop of `atoi`.
pub atoi_from : ℕ → List ℕ → ℕ
atoi_from n [] = n
atoi_from n (c ∷ s) =
    let rest = atoi_from (u32 (n * 10 + c - 48)) s in if leb 48 c && leb c 57 then rest else n

pub atoi : List ℕ → ℕ
unfolding atoi_from
atoi s = atoi_from 0 s
