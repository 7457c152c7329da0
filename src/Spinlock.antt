-- ===== src/Spinlock.antt =====
-- spinlock.c: one lock and the CPUs that take it. A CPU is its index; `eflags` keeps FL_IF only.
pub mod Nesting
pub mod Exclusion
use swe3004_operating_system.Prelude.{
  ℕ, zero, suc, ◌+◌, ◌-◌, Bool, true, false, not, ◌&&◌, ◌||◌, List, [], ◌∷◌, Option, none, some,
  ◌==◌, if◌then◌else◌, update, Outcome, returns, panics, ◌>>=◌, ◌>>◌,
}

-- The fields of `struct cpu` that locks use, and whether interrupts are enabled.
pub record Cpu : Type 0 where
  pub ncli : ℕ
  pub intena : Bool
  pub interrupts : Bool

-- `struct spinlock` less the fields for debugging
pub record Lock : Type 0 where
  pub locked : Bool
  pub cpu : Option ℕ

pub initlock : Lock
initlock = record { locked = false; cpu = none }

pub pushcli : Cpu → Cpu
pushcli c = record {
  ncli = c.ncli + 1;
  intena = if c.ncli == 0 then c.interrupts else c.intena;
  interrupts = false;
}

-- `--ncli < 0` holds exactly at 0.
pub popcli : Cpu → Outcome Cpu
popcli c =
    if c.interrupts
    then panics
    else if c.ncli == 0
    then panics
    else returns (record c { ncli = c.ncli - 1; interrupts = (c.ncli - 1 == 0) && c.intena })

abbrev pub is_cpu : Option ℕ → ℕ → Bool
is_cpu none me = false
is_cpu (some i) me = i == me

pub holding : ℕ → Lock → Cpu → Outcome (Bool × Cpu)
unfolding pushcli popcli
holding me lk c = do c ← popcli (pushcli c); returns (lk.locked && is_cpu lk.cpu me, c)

-- Where a CPU is in `acquire` and `release`.
pub data Pc : Type 0 where
  -- outside both, without the lock
  idle : Pc
  -- in the loop on `xchg`
  spinning : Pc
  -- behind the loop, before `lk->cpu = mycpu()`
  entering : Pc
  -- between the two functions, with the lock
  critical : Pc
  -- in `release`, between `lk->cpu = 0` and the store to `lk->locked`
  leaving : Pc

pub record Core : Type 0 where
  pub pc : Pc
  pub state : Cpu

pub record Sys : Type 0 where
  pub lock : Lock
  pub cores : ℕ → Core

abbrev put : ℕ → Core → Lock → Sys → Sys
put i core lk s = record { lock = lk; cores = update s.cores i core }

-- The next atomic step of CPU `i`, whose last component is at `pc`. The reads in `holding` and the
-- stores between two accesses to `locked` are one step with the access before them.
pub step_at : Pc → ℕ → Cpu → Sys → Outcome Sys
unfolding holding
step_at idle i c s = do
  (held, c) ← holding i s.lock (pushcli c)
  if held then panics else returns (put i (record { pc = spinning; state = c }) s.lock s)
step_at spinning i c s = returns (
    put i (record { pc = if s.lock.locked then spinning else entering; state = c })
      (record s.lock { locked = true }) s)
step_at entering i c s =
    returns (put i (record { pc = critical; state = c }) (record s.lock { cpu = some i }) s)
step_at critical i c s = do
  (held, c) ← holding i s.lock c
  if held
      then returns (put i (record { pc = leaving; state = c }) (record s.lock { cpu = none }) s)
      else panics
step_at leaving i c s = do
  c ← popcli c
  returns (put i (record { pc = idle; state = c }) (record s.lock { locked = false }) s)

pub step : ℕ → Sys → Outcome Sys
unfolding step_at
step i s = step_at (s.cores i).pc i (s.cores i).state s

-- A schedule: which CPU makes each step.
pub run : List ℕ → Sys → Outcome Sys
run [] s = returns s
run (i ∷ is) s = step i s >>= run is
