-- ===== src/Tests/Processes.antt =====
-- Four slots: init asleep, a shell that runs, its zombie child, and a slot never used.
use swe3004_operating_system.Prelude.{
  ℕ, ◌≡◌, refl, false, ◌||◌, [], ◌∷◌, Option, none, some, arith, get_elem?, replicate, returns,
}
use swe3004_operating_system.Proc.{
  ProcState, unused, sleeping, running, zombie, Chan, null, slot, Proc, Table, kill, setnice,
  getnice,
}
use swe3004_operating_system.Proc.Listing.{ps}
use swe3004_operating_system.Proc.Listing.Lines.{with_header, ps-listed}
use swe3004_operating_system.Proc.Nice.{getnice-setnice}
use swe3004_operating_system.Proc.Lifecycle.{
  update_proc, first_unused, claim_slot, allocproc, exit_from, reaped, wait_round,
}
use swe3004_operating_system.Proc.Lifecycle.Unique.{HasUniquePids}
use swe3004_operating_system.Proc.Lifecycle.Exit.{abandoned}
use swe3004_operating_system.Proc.Lifecycle.Kernel.{claims, Step-HasUniquePids}
use swe3004_operating_system.Proc.Lifecycle.Orphans.{is_child, exit_orphans}
use swe3004_operating_system.Proc.Lifecycle.Waiting.{IsZombieChild, Freed, wait_reaps}
use swe3004_operating_system.Proc.Lifecycle.Stale.{kill_zero_marks_next}

abbrev proc_of : ProcState → (pid : ℕ) → (parent : Option ℕ) → Chan → Proc
proc_of state pid parent chan = record {
  sz = 4096;
  pgdir = 8192;
  kstack = 12288;
  state = state;
  pid = pid;
  schedstate = record { nice = 0; timeslice = 0; runtime = 0; vruntime = 0 };
  parent = parent;
  tf = record { eax = 0; others = [] };
  ret = 0;
  context = record { edi = 0; esi = 0; ebx = 0; ebp = 0; eip = 0 };
  chan = chan;
  killed = 0;
  ofile = replicate 16 0;
  cwd = 1;
  name = replicate 16 0;
}

abbrev init_proc : Proc
init_proc = proc_of sleeping 1 none (slot 0)

abbrev shell : Proc
shell = proc_of running 2 (some 0) null

abbrev child : Proc
child = proc_of zombie 3 (some 1) null

abbrev fresh : Proc
fresh = proc_of unused 0 none null

abbrev table : Table
table = record { procs = init_proc ∷ shell ∷ child ∷ fresh ∷ []; nextpid = 4; initproc = 0 }

table-HasUniquePids : HasUniquePids table
table-HasUniquePids = record {
  positive = omega arith;
  below = (
    λ l. (omega arith, omega arith),
    (λ l. (omega arith, omega arith), (λ l. (omega arith, omega arith), (λ l. absurd cc, tt))),
  );
  distinct = (
    λ l. (λ l. omega arith, (λ l. omega arith, (λ l. absurd cc, tt))),
    (λ l. (λ l. omega arith, (λ l. absurd cc, tt)), (λ l. (λ l. absurd cc, tt), (λ l. tt, tt))),
  );
}

Step-HasUniquePids_example : HasUniquePids (claim_slot table).1
Step-HasUniquePids_example = Step-HasUniquePids (claims (omega arith) refl) table-HasUniquePids

abbrev gone : Table
gone = update_proc 1 (λ p. record p { state = zombie }) (abandoned 1 shell table)

shell_exits : exit_from 1 shell table ≡ returns ([], gone)
unfolding exit_from abandoned
shell_exits = refl

exit_orphans_example :
    (is_child 1 gone.procs 2 ≡ false)
    × (is_child table.initproc gone.procs 2
        ≡ (is_child 1 table.procs 2 || is_child table.initproc table.procs 2))
exit_orphans_example = exit_orphans 1 shell table [] gone 2 shell_exits

wait_reaps_example :
    (i : ℕ) × (p : Proc) × (u : Table) × IsZombieChild 1 table.procs i p
    × (wait_round 1 shell table ≡ (reaped p.pid p.kstack p.pgdir, u))
    × Freed i p table u
wait_reaps_example = wait_reaps 1 shell table refl

-- Init has the shell for a child, which is no zombie.

getnice-setnice_example : let (r, t') = setnice 2 39 table in (r ≡ 0) × (getnice 2 t' ≡ 39)
getnice-setnice_example = getnice-setnice 2 39 2 table (omega arith)

fresh_next : first_unused table.procs ≡ some 3
unfolding first_unused
fresh_next = refl

kill_zero_marks_next_example :
    let (r, t') = kill 0 table in
    let (np, u) = allocproc 4096 1 2 t' in
    (r ≡ 0)
    × (np ≡ some 3)
    × ((q : Proc) × (get_elem? u.procs 3 ≡ some q) × (q.pid ≡ 4) × (q.killed ≡ 1))
kill_zero_marks_next_example =
    kill_zero_marks_next table 3 4096 1 2 fresh table-HasUniquePids fresh_next refl refl
      (λ e. omega arith)

-- The shell alone.
ps-listed_example : ps 2 table ≡ with_header (shell ∷ [])
ps-listed_example = ps-listed 2 table (omega arith)
