-- ===== src/FileSystem/Paths.antt =====
-- fs.c: path names. A path is the list of its bytes before the NUL, and a name a buffer of DIRSIZ
-- bytes, in which a short name ends with a NUL.
pub mod Elements
use swe3004_operating_system.Prelude.{
  ℕ, zero, suc, ◌+◌, List, [], ◌∷◌, ◌++◌, Option, none, some, ltb, ◌==◌, if◌then◌else◌, length,
  take, drop,
}
use swe3004_operating_system.Str.{strncmp}

abbrev pub dir_size : ℕ
dir_size = 14

abbrev pub slash : ℕ
slash = 47

-- `while(*path == '/') path++`
pub skip_slashes : List ℕ → List ℕ
skip_slashes [] = []
skip_slashes (c ∷ path) = let rest = skip_slashes path in if c == slash then rest else c ∷ path

-- `while(*path != '/' && *path != 0) path++`: the bytes passed, and where it stops.
pub span_elem : List ℕ → List ℕ × List ℕ
span_elem [] = ([], [])
span_elem (c ∷ path) =
    let (elem, rest) = span_elem path in if c == slash then ([], c ∷ path) else (c ∷ elem, rest)

-- What is copied into `name`.
pub put_name : (elem name : List ℕ) → List ℕ
put_name elem name =
    if ltb (length elem) dir_size
    then elem ++ (0 ∷ drop (length elem + 1) name)
    else take dir_size elem

-- The rest of the path and the new name; none for the null pointer.
pub first_elem : (path name : List ℕ) → Option (List ℕ × List ℕ)
unfolding skip_slashes span_elem put_name
first_elem [] name = none
first_elem (c ∷ path) name =
    let (elem, rest) = span_elem (c ∷ path) in some (skip_slashes rest, put_name elem name)

pub skipelem : (path name : List ℕ) → Option (List ℕ × List ℕ)
unfolding skip_slashes first_elem
skipelem path name = first_elem (skip_slashes path) name

pub namecmp : List ℕ → List ℕ → ℕ
namecmp s t = strncmp s t dir_size
