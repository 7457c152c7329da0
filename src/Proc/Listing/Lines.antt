-- ===== src/Proc/Listing/Lines.antt =====
-- The columns and lines of `ps`.
use swe3004_operating_system.Prelude.{
  ℕ, ◌<◌, ◌^◌, ◌≡◌, refl, ap, ap₂, sym, replicate, ◌-◌, ◌∙◌, inl, inr, true, false, List, [], ◌∷◌,
  ◌++◌, ◌==◌, if◌then◌else◌, arith, int_lt, Bool-cases, ◌≢◌,
}
use swe3004_operating_system.Str.{strlen}
use swe3004_operating_system.Str.Text.{text}
use mathlib.Core.List.{append-nil}
use swe3004_operating_system.Proc.{
  ProcState, unused, embryo, sleeping, runnable, running, zombie, Proc, Table,
}
use swe3004_operating_system.Proc.Listing.{
  decimal, cprintfpad, strprocstate, printheader, printcontent, ps_all, ps_one, ps,
}

-- The slots that `ps` has a line for: all of the table, in use or not, for 0, and else the first slot with the pid.
abbrev pub listed : (pid : ℕ) → List Proc → List Proc
listed pid [] = []
listed pid (p ∷ procs) =
    if pid == 0 then p ∷ listed pid procs else if pid == p.pid then p ∷ [] else listed pid procs

-- A text in a column of 15 characters.
abbrev pub column : List ℕ → List ℕ
column s = text s ++ replicate (15 - strlen s) 32

-- "UNUSED", "EMBRYO", "SLEEPING", "RUNNABLE", "RUNNING" and "ZOMBIE".
abbrev pub state_name : ProcState → List ℕ
state_name unused = 85 ∷ 78 ∷ 85 ∷ 83 ∷ 69 ∷ 68 ∷ []
state_name embryo = 69 ∷ 77 ∷ 66 ∷ 82 ∷ 89 ∷ 79 ∷ []
state_name sleeping = 83 ∷ 76 ∷ 69 ∷ 69 ∷ 80 ∷ 73 ∷ 78 ∷ 71 ∷ []
state_name runnable = 82 ∷ 85 ∷ 78 ∷ 78 ∷ 65 ∷ 66 ∷ 76 ∷ 69 ∷ []
state_name running = 82 ∷ 85 ∷ 78 ∷ 78 ∷ 73 ∷ 78 ∷ 71 ∷ []
state_name zombie = 90 ∷ 79 ∷ 77 ∷ 66 ∷ 73 ∷ 69 ∷ []

state_name-strprocstate : (s : ProcState) → strprocstate s ≡ state_name s
unfolding strprocstate
state_name-strprocstate unused = refl
state_name-strprocstate embryo = refl
state_name-strprocstate sleeping = refl
state_name-strprocstate runnable = refl
state_name-strprocstate running = refl
state_name-strprocstate zombie = refl

-- The line of a slot: name, pid, state and nice value, the numbers with two tabs behind them.
abbrev pub row : Proc → List ℕ
row p =
    column p.name
    ++ ((decimal p.pid ++ (9 ∷ 9 ∷ []))
        ++ (column (state_name p.state)
            ++ ((decimal p.schedstate.nice ++ (9 ∷ 9 ∷ [])) ++ (10 ∷ []))))

-- "NAME", "PID", "STATE" and "NICE" above their columns.
abbrev pub titles : List ℕ
titles =
    (78 ∷ 65 ∷ 77 ∷ 69 ∷ [])
    ++ (replicate 11 32
        ++ ((80 ∷ 73 ∷ 68 ∷ 9 ∷ 9 ∷ [])
            ++ ((83 ∷ 84 ∷ 65 ∷ 84 ∷ 69 ∷ [])
                ++ (replicate 10 32 ++ (78 ∷ 73 ∷ 67 ∷ 69 ∷ 9 ∷ 9 ∷ 10 ∷ [])))))

row-printcontent : (p : Proc) → printcontent p ≡ row p
unfolding printcontent cprintfpad
row-printcontent p = rw (state_name-strprocstate p.state) refl

titles-printheader : printheader ≡ titles
unfolding printheader cprintfpad strlen
titles-printheader = refl

abbrev pub lines : List Proc → List ℕ
lines [] = []
lines (p ∷ procs) = row p ++ lines procs

abbrev pub with_header : List Proc → List ℕ
with_header [] = []
with_header (p ∷ procs) = titles ++ lines (p ∷ procs)

ps_all-true : (procs : List Proc) → ps_all true procs ≡ lines procs
unfolding ps_all
ps_all-true [] = refl
ps_all-true (p ∷ procs) = ap₂ ◌++◌ (row-printcontent p) (ps_all-true procs)

listed_zero : (procs : List Proc) → listed 0 procs ≡ procs
listed_zero [] = refl
listed_zero (p ∷ procs) = ap (λ rest. p ∷ rest) (listed_zero procs)

ps_all-false : (procs : List Proc) → ps_all false procs ≡ with_header procs
unfolding ps_all
ps_all-false [] = refl
ps_all-false (p ∷ procs) =
    ap₂ ◌++◌ titles-printheader (ap₂ ◌++◌ (row-printcontent p) (ps_all-true procs))

ps_one-listed :
    (pid : ℕ) (procs : List Proc) → pid ≢ 0 → ps_one pid procs ≡ with_header (listed pid procs)
unfolding ps_one
ps_one-listed pid [] ne = refl
ps_one-listed pid (p ∷ procs) ne =
    let other : (pid == 0) ≡ false = ground arith in
    elim (Bool-cases (pid == p.pid)) [
      | inl here ↦
          rw (here, other)
            (ap₂ ◌++◌ titles-printheader (row-printcontent p ∙ sym (append-nil (row p))))
      | inr later ↦ rw (later, other) (ps_one-listed pid procs ne)
    ]

-- `ps` of a pid that is not negative prints the titles and below them the name, the pid, the state
-- and the nice value of each slot to be listed: for 0 all slots of the table, in use or not, and else
-- the first slot with the pid. It prints nothing at all if there is none.
pub ps-listed : (pid : ℕ) (t : Table) → pid < 2 ^ 31 → ps pid t ≡ with_header (listed pid t.procs)
unfolding ps
ps-listed pid t positive = elim (Bool-cases (pid == 0)) [
  | inl all ↦
      let zero_pid : pid ≡ 0 = ground arith in
      rw zero_pid (ps_all-false t.procs ∙ ap with_header (sym (listed_zero t.procs)))
  | inr one ↦
      let above : int_lt 0 pid ≡ true = ground arith in
      rw (one, above) (ps_one-listed pid t.procs (λ e. ground arith))
]
