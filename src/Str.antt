-- ===== src/Str.antt =====
-- string.c on buffers: a `char *` is the bytes from where it points to the end of its buffer.
-- A read or write past the end of a buffer stops the function; the callers' buffers rule it out.
pub mod Text
pub mod Bytes
use swe3004_operating_system.Prelude.{
  ℕ, zero, suc, List, [], ◌∷◌, ◌==◌, if◌then◌else◌, sub32, not, ◌&&◌,
}

-- `*s = 0`
abbrev pub terminate : List ℕ → List ℕ
terminate [] = []
terminate (x ∷ s) = 0 ∷ s

-- The loop of `safestrcpy`, which copies at most `left` bytes, and the write behind it. Where a NUL
-- was copied, `s` stands behind it already.
pub safestrcpy_loop : ℕ → List ℕ → List ℕ → List ℕ
safestrcpy_loop zero s t = terminate s
safestrcpy_loop (suc left) [] t = []
safestrcpy_loop (suc left) (x ∷ s) [] = x ∷ s
safestrcpy_loop (suc left) (x ∷ s) (c ∷ t) =
    let rest = safestrcpy_loop left s t in if c == 0 then 0 ∷ terminate s else c ∷ rest

-- `n` is at least 0 here; the source returns at once for a negative one as for 0.
pub safestrcpy : List ℕ → List ℕ → ℕ → List ℕ
unfolding safestrcpy_loop
safestrcpy s t zero = s
safestrcpy s t (suc left) = safestrcpy_loop left s t

-- The padding loop of `strncpy`.
pub strncpy_pad : ℕ → List ℕ → List ℕ
strncpy_pad zero s = s
strncpy_pad (suc left) [] = []
strncpy_pad (suc left) (x ∷ s) = 0 ∷ strncpy_pad left s

pub strncpy : List ℕ → List ℕ → ℕ → List ℕ
unfolding strncpy_pad
strncpy s t zero = s
strncpy [] t (suc n) = []
strncpy (x ∷ s) [] (suc n) = x ∷ s
strncpy (x ∷ s) (c ∷ t) (suc n) =
    let rest = strncpy s t n in if c == 0 then 0 ∷ strncpy_pad n s else c ∷ rest

-- `for(n = 0; s[n]; n++)`
unfoldable pub strlen : List ℕ → ℕ
strlen [] = 0
strlen (c ∷ s) = let rest = suc (strlen s) in if c == 0 then 0 else rest

-- The differences are `int` patterns of two bytes.
pub strncmp : List ℕ → List ℕ → ℕ → ℕ
strncmp p q zero = 0
strncmp [] q (suc n) = 0
strncmp (a ∷ p) [] (suc n) = 0
strncmp (a ∷ p) (b ∷ q) (suc n) =
    let rest = strncmp p q n in if not (a == 0) && (a == b) then rest else sub32 a b

pub memcmp : List ℕ → List ℕ → ℕ → ℕ
memcmp s1 s2 zero = 0
memcmp [] s2 (suc n) = 0
memcmp (a ∷ s1) [] (suc n) = 0
memcmp (a ∷ s1) (b ∷ s2) (suc n) =
    let rest = memcmp s1 s2 n in if not (a == b) then sub32 a b else rest
