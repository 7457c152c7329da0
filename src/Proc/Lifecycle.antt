-- ===== src/Proc/Lifecycle.antt =====
-- proc.c: how a slot of the table is allocated, forked into, exited, reaped and scheduled. What a
-- function takes from another file is an argument: the page that `kalloc` returns, the page table
-- that `copyuvm` returns. Pages that it frees are returned.
pub mod Unique
mod Alloc
pub mod Exit
pub mod Kernel
pub mod Orphans
pub mod Waiting
pub mod Stale
use swe3004_operating_system.Prelude.{
  ℕ, zero, suc, ◌+◌, Bool, true, false, ◌&&◌, ◌||◌, not, List, [], ◌∷◌, Option, none, some, ltb,
  ◌==◌, if◌then◌else◌, get_elem?, update_at, length, replicate, map, u32, minus_one, Outcome,
  returns, panics,
}
use swe3004_operating_system.Str.{safestrcpy}
use swe3004_operating_system.Proc.{
  ProcState, unused, embryo, sleeping, runnable, running, zombie, is_state, Chan, null, slot,
  Context, TrapFrame, Proc, Table, is_parent, parent_chan, wakeup1,
}

abbrev pub update_proc : ℕ → (Proc → Proc) → Table → Table
update_proc i f t = record t { procs = update_at t.procs i f }

-- The first loop of `allocproc`.
unfoldable pub first_unused : List Proc → Option ℕ
first_unused [] = none
first_unused (p ∷ ps) =
    if is_state p.state unused
    then some 0
    else elim (first_unused ps) [ none ↦ none | some i ↦ some (suc i) ]

-- Below `found`, under the lock.
pub claim : ℕ → Proc → Proc
claim pid p = record p { state = embryo; pid = pid }

-- The critical section of `allocproc`, with the slot that it takes.
pub claim_slot : Table → Option ℕ × Table
unfolding claim
claim_slot t = elim (first_unused t.procs) [
  | none ↦ (none, t)
  | some i ↦ (
    some i,
    record t { procs = update_at t.procs i (claim t.nextpid); nextpid = u32 (t.nextpid + 1) },
  )
]

-- Without the lock: the slot is given back when no page is left for the kernel stack, or, in `fork`,
-- for the page table.
pub give_back : Proc → Proc
give_back p = record p { kstack = 0; state = unused }

-- Without the lock: the kernel stack as `allocproc` leaves it.
pub build_stack : (stack forkret trapret : ℕ) → Proc → Proc
build_stack stack forkret trapret p = record p {
  kstack = stack;
  ret = trapret;
  context = record { edi = 0; esi = 0; ebx = 0; ebp = 0; eip = forkret };
}

-- `allocproc` when no other code touches the table between its critical section and its end. `stack`
-- is the page of `kalloc`, 0 if there is none.
pub allocproc : (stack forkret trapret : ℕ) → Table → Option ℕ × Table
unfolding claim_slot give_back build_stack
allocproc stack forkret trapret t =
    let (np, t') = claim_slot t in
    elim np [
      | none ↦ (none, t')
      | some i ↦
          if stack == 0
          then (none, update_proc i give_back t')
          else (some i, update_proc i (build_stack stack forkret trapret) t')
    ]

-- The loop over `ofile`; `filedup` returns its argument.
pub dup_files : List ℕ → List ℕ → List ℕ
dup_files [] fs = fs
dup_files (c ∷ cs) [] = []
dup_files (c ∷ cs) (f ∷ fs) = (if c == 0 then f else c) ∷ dup_files cs fs

abbrev pub name_size : ℕ
name_size = 16

-- Without the lock: from `np->pgdir` to `np->name`, for the caller `c` in slot `cur`.
pub inherit : (cur pgdir : ℕ) → Proc → Proc → Proc
unfolding dup_files
inherit cur pgdir c p = record p {
  pgdir = pgdir;
  sz = c.sz;
  parent = some cur;
  tf = record c.tf { eax = 0 };
  ofile = dup_files c.ofile p.ofile;
  cwd = c.cwd;
  name = safestrcpy p.name c.name name_size;
}

-- The critical section at the end of `fork`.
pub make_ready : Proc → Proc
make_ready p = record p { state = runnable }

-- One round of the loop of `exit` over the table: the child `p` of slot `i` goes to init.
pub adopt_child : ℕ → Proc → Table → Table
adopt_child i p t =
    let t' = update_proc i (λ q. record q { parent = some t.initproc }) t in
    if is_state p.state zombie then wakeup1 (slot t.initproc) t' else t'

pub adopt_one : (i cur : ℕ) → Table → Table
unfolding adopt_child
adopt_one i cur t = elim (get_elem? t.procs i) [
  | none ↦ t
  | some p ↦ if is_parent p.parent cur then adopt_child i p t else t
]

-- The loop, from slot `i` on.
pub adopt : (left i cur : ℕ) → Table → Table
unfolding adopt_one
adopt zero i cur t = t
adopt (suc left) i cur t = adopt left (i + 1) cur (adopt_one i cur t)

-- The loop over `ofile` and `iput`: what is closed is returned, in order.
pub open_files : List ℕ → List ℕ
open_files [] = []
open_files (f ∷ fs) = if f == 0 then open_files fs else f ∷ open_files fs

pub close_files : Proc → Proc
close_files p = record p { ofile = map (λ f. 0) p.ofile; cwd = 0 }

-- `exit` up to its call of `sched`, which does not come back.
unfoldable pub exit_from : (cur : ℕ) → Proc → Table → Outcome (List ℕ × Table)
unfolding open_files close_files adopt
exit_from cur c t =
    if cur == t.initproc
    then panics
    else (let t1 = update_proc cur close_files t in
        let t2 = wakeup1 (parent_chan c.parent) t1 in
        let t3 = adopt (length t2.procs) 0 cur t2 in
        returns (open_files c.ofile, update_proc cur (λ p. record p { state = zombie }) t3))

abbrev pub next_slot : Option (ℕ × Proc) → Option (ℕ × Proc)
next_slot none = none
next_slot (some (i, p)) = some (suc i, p)

-- The scan of `wait`: `havekids`, and the first child that is a zombie with its slot.
pub scan_children : ℕ → List Proc → Bool × Option (ℕ × Proc)
scan_children cur [] = (false, none)
scan_children cur (p ∷ ps) =
    let (kids, found) = scan_children cur ps in
    if is_parent p.parent cur
    then (true, if is_state p.state zombie then some (0, p) else next_slot found)
    else (kids, next_slot found)

-- `p->name[0] = 0`
abbrev pub clear_name : List ℕ → List ℕ
clear_name [] = []
clear_name (x ∷ name) = 0 ∷ name

pub reap : Proc → Proc
reap p = record p {
  kstack = 0;
  pid = 0;
  parent = none;
  name = clear_name p.name;
  killed = 0;
  state = unused;
}

-- `p->chan = chan; p->state = SLEEPING;` of `sleep`, before its call of `sched`.
pub go_to_sleep : ℕ → Chan → Table → Table
go_to_sleep i chan t = update_proc i (λ p. record p { chan = chan; state = sleeping }) t

-- Behind the call of `sched`.
pub wake_up : ℕ → Table → Table
wake_up i t = update_proc i (λ p. record p { chan = null }) t

-- How one round of the loop of `wait` ends: with a pid and the pages that it frees, with -1, or
-- asleep.
pub data Waited : Type 0 where
  reaped : (pid kstack pgdir : ℕ) → Waited
  childless : Waited
  asleep : Waited

pub no_zombie : Bool → (cur : ℕ) → Proc → Table → Waited × Table
unfolding go_to_sleep
no_zombie kids cur c t =
    if not kids || not (c.killed == 0)
    then (childless, t)
    else (asleep, go_to_sleep cur (slot cur) t)

pub wait_round : (cur : ℕ) → Proc → Table → Waited × Table
unfolding reap no_zombie
wait_round cur c t =
    let (kids, found) = scan_children cur t.procs in
    elim found [
      | none ↦ no_zombie kids cur c t
      | some (i, p) ↦ (reaped p.pid p.kstack p.pgdir, update_proc i reap t)
    ]

-- The scheduler's loop over the table: the next slot at `i` or behind it that may run.
unfoldable pub next_runnable : ℕ → List Proc → Option ℕ
next_runnable i [] = none
next_runnable zero (p ∷ ps) =
    if is_state p.state runnable
    then some 0
    else elim (next_runnable zero ps) [ none ↦ none | some j ↦ some (suc j) ]
next_runnable (suc i) (p ∷ ps) = elim (next_runnable i ps) [ none ↦ none | some j ↦ some (suc j) ]

-- `p->state = RUNNING` before `swtch`.
pub dispatch : ℕ → Table → Table
dispatch i t = update_proc i (λ p. record p { state = running }) t

-- `yield` before its call of `sched`.
pub give_way : ℕ → Table → Table
give_way i t = update_proc i (λ p. record p { state = runnable }) t
