-- ===== src/Proc/Listing.antt =====
-- `ps` of proc.c, as the characters that it prints on the console.
pub mod Lines
use swe3004_operating_system.Prelude.{
  ℕ, zero, suc, ◌+◌, ◌-◌, Bool, true, false, ◌&&◌, List, [], ◌∷◌, ◌++◌, ◌==◌, if◌then◌else◌,
  replicate, sub32, int_lt,
}
use swe3004_operating_system.Str.{strlen}
use swe3004_operating_system.Str.Text.{text}
use swe3004_operating_system.User.{put_digits}
use swe3004_operating_system.Proc.{
  ProcState, unused, embryo, sleeping, runnable, running, zombie, Proc, Table,
}

abbrev pub field_size : ℕ
field_size = 15

-- `%d` of cprintf: `printint` of console.c in base 10
pub decimal : ℕ → List ℕ
decimal xx = if int_lt xx 0 then 45 ∷ put_digits 32 10 (sub32 0 xx) [] else put_digits 32 10 xx []

-- `%s` prints the text; the loop adds spaces.
pub cprintfpad : List ℕ → (width : ℕ) → List ℕ
cprintfpad str width = text str ++ replicate (width - strlen str) 32

-- What `strprocstate` leaves in its buffer of 10 characters, as text
pub strprocstate : ProcState → List ℕ
strprocstate unused = 85 ∷ 78 ∷ 85 ∷ 83 ∷ 69 ∷ 68 ∷ []
strprocstate embryo = 69 ∷ 77 ∷ 66 ∷ 82 ∷ 89 ∷ 79 ∷ []
strprocstate sleeping = 83 ∷ 76 ∷ 69 ∷ 69 ∷ 80 ∷ 73 ∷ 78 ∷ 71 ∷ []
strprocstate runnable = 82 ∷ 85 ∷ 78 ∷ 78 ∷ 65 ∷ 66 ∷ 76 ∷ 69 ∷ []
strprocstate running = 82 ∷ 85 ∷ 78 ∷ 78 ∷ 73 ∷ 78 ∷ 71 ∷ []
strprocstate zombie = 90 ∷ 79 ∷ 77 ∷ 66 ∷ 73 ∷ 69 ∷ []

abbrev pub tabs : List ℕ
tabs = 9 ∷ 9 ∷ []

pub printheader : List ℕ
printheader =
    cprintfpad (78 ∷ 65 ∷ 77 ∷ 69 ∷ []) field_size
    ++ ((80 ∷ 73 ∷ 68 ∷ tabs)
        ++ (cprintfpad (83 ∷ 84 ∷ 65 ∷ 84 ∷ 69 ∷ []) field_size
            ++ ((78 ∷ 73 ∷ 67 ∷ 69 ∷ tabs) ++ (10 ∷ []))))

pub printcontent : Proc → List ℕ
printcontent p =
    cprintfpad p.name field_size
    ++ ((decimal p.pid ++ tabs)
        ++ (cprintfpad (strprocstate p.state) field_size
            ++ ((decimal p.schedstate.nice ++ tabs) ++ (10 ∷ []))))

-- The first loop of `ps`.
pub ps_all : (has_header : Bool) → List Proc → List ℕ
ps_all has_header [] = []
ps_all has_header (p ∷ ps) =
    (if has_header then [] else printheader) ++ (printcontent p ++ ps_all true ps)

-- The second one.
pub ps_one : (pid : ℕ) → List Proc → List ℕ
ps_one pid [] = []
ps_one pid (p ∷ ps) =
    let rest = ps_one pid ps in if pid == p.pid then printheader ++ printcontent p else rest

pub ps : (pid : ℕ) → Table → List ℕ
unfolding ps_all ps_one
ps pid t =
    if pid == 0 then ps_all false t.procs else if int_lt 0 pid then ps_one pid t.procs else []
