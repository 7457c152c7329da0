-- ===== src/Proc.antt =====
-- proc.c and proc.h: the process table. A `struct proc *` is an index into `ptable.proc`, and an
-- `int` is its 32-bit pattern. Each function here is what runs under
-- `ptable.lock`, unless its comment says that it runs without.
pub mod Lifecycle
pub mod Listing
mod Pids
pub mod Nice
pub mod Wake
use swe3004_operating_system.Prelude.{
  ℕ, zero, suc, ◌+◌, ◌-◌, ◌^◌, Bool, true, false, not, ◌&&◌, ◌||◌, List, [], ◌∷◌, Option, none,
  some, ltb, ◌==◌, if◌then◌else◌, get_elem?, set, u32, int_lt, minus_one,
}

-- `enum procstate`
pub data ProcState : Type 0 where
  unused embryo sleeping runnable running zombie : ProcState

abbrev pub is_state : ProcState → ProcState → Bool
is_state unused unused = true
is_state embryo embryo = true
is_state sleeping sleeping = true
is_state runnable runnable = true
is_state running running = true
is_state zombie zombie = true
is_state _ _ = false

-- `void *chan`: null, the address of a slot of the table, or of something else.
pub data Chan : Type 0 where
  null : Chan
  slot : ℕ → Chan
  object : ℕ → Chan

abbrev pub same_chan : Chan → Chan → Bool
same_chan null null = true
same_chan (slot i) (slot j) = i == j
same_chan (object a) (object b) = a == b
same_chan _ _ = false

-- `struct cfsstate`
pub record CfsState : Type 0 where
  pub nice : ℕ
  pub timeslice : ℕ
  pub runtime : ℕ
  pub vruntime : ℕ

-- `struct context`, as it lies on the kernel stack
pub record Context : Type 0 where
  pub edi : ℕ
  pub esi : ℕ
  pub ebx : ℕ
  pub ebp : ℕ
  pub eip : ℕ

-- the saved user registers: `eax`, and the others in order
pub record TrapFrame : Type 0 where
  pub eax : ℕ
  pub others : List ℕ

-- `struct proc`. `ret` is the word between the context and the trap frame on the kernel stack.
pub record Proc : Type 0 where
  pub sz : ℕ
  pub pgdir : ℕ
  pub kstack : ℕ
  pub state : ProcState
  pub pid : ℕ
  pub schedstate : CfsState
  pub parent : Option ℕ
  pub tf : TrapFrame
  pub ret : ℕ
  pub context : Context
  pub chan : Chan
  pub killed : ℕ
  pub ofile : List ℕ
  pub cwd : ℕ
  pub name : List ℕ

-- `ptable`, `nextpid` and `initproc`
pub record Table : Type 0 where
  pub procs : List Proc
  pub nextpid : ℕ
  pub initproc : ℕ

-- `p->parent == curproc`, and the pointer as a channel
abbrev pub is_parent : Option ℕ → ℕ → Bool
is_parent none i = false
is_parent (some j) i = j == i

abbrev pub parent_chan : Option ℕ → Chan
parent_chan none = null
parent_chan (some j) = slot j

-- `wakeup1`, over the slots of the table
pub wakeup_procs : Chan → List Proc → List Proc
wakeup_procs chan [] = []
wakeup_procs chan (p ∷ ps) =
    (if is_state p.state sleeping && same_chan p.chan chan
      then record p { state = runnable }
      else p)
    ∷ wakeup_procs chan ps

pub wakeup1 : Chan → Table → Table
wakeup1 chan t = record t { procs = wakeup_procs chan t.procs }

-- The loop of `kill`.
pub kill_procs : ℕ → List Proc → ℕ × List Proc
kill_procs pid [] = (minus_one, [])
kill_procs pid (p ∷ ps) =
    let (r, ps') = kill_procs pid ps in
    if p.pid == pid
    then (
      0,
      record p { killed = 1; state = if is_state p.state sleeping then runnable else p.state } ∷ ps,
    )
    else (r, p ∷ ps')

pub kill : ℕ → Table → ℕ × Table
kill pid t = let (r, ps) = kill_procs pid t.procs in (r, record t { procs = ps })

-- The loop of `setnice`.
pub setnice_procs : ℕ → ℕ → List Proc → ℕ × List Proc
setnice_procs pid nice [] = (minus_one, [])
setnice_procs pid nice (p ∷ ps) =
    let (r, ps') = setnice_procs pid nice ps in
    if pid == p.pid && not (pid == 0)
    then (0, record p { schedstate = record p.schedstate { nice = nice } } ∷ ps)
    else (r, p ∷ ps')

pub setnice : ℕ → ℕ → Table → ℕ × Table
setnice pid nice t =
    if int_lt nice 0 || int_lt 39 nice
    then (minus_one, t)
    else (let (r, ps) = setnice_procs pid nice t.procs in (r, record t { procs = ps }))

-- The loop of `getnice`.
pub getnice_procs : ℕ → List Proc → ℕ
getnice_procs pid [] = minus_one
getnice_procs pid (p ∷ ps) =
    if pid == p.pid && not (pid == 0) then p.schedstate.nice else getnice_procs pid ps

pub getnice : ℕ → Table → ℕ
getnice pid t = getnice_procs pid t.procs
