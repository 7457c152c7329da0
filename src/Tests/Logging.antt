-- ===== src/Tests/Logging.antt =====
-- The log at work: one logged block, a power failure in the middle of its commit, and system calls.
use swe3004_operating_system.Prelude.{
  ℕ, zero, suc, ◌+◌, ◌≤◌, ◌<◌, ◌≡◌, refl, inl, inr, false, List, [], ◌∷◌, ◌==◌, if◌then◌else◌,
  arith, length, get_or, replicate, returns, length-replicate, Bool-cases,
}
use swe3004_operating_system.Disk.{Block, Disk, crash}
use swe3004_operating_system.Log.{Log, begin_op, commit, initlog, record_block, log_write}
use swe3004_operating_system.Log.Area.{HasHomes, IsHome}
use swe3004_operating_system.Log.Commit.{IsReady, commit_atomic}
use swe3004_operating_system.Log.Recovery.{reboots}
use swe3004_operating_system.Log.Durable.{commit_durable}
use swe3004_operating_system.Log.Transactions.{
  Sys, open_log, Step, enter, Inv, Step-Inv, log_write_reserved,
}

-- The block numbers 50, 51, …
abbrev numbers : (k count : ℕ) → List ℕ
numbers k zero = []
numbers k (suc count) = k ∷ numbers (k + 1) count

get_or-numbers : (k count i : ℕ) → i < count → get_or (numbers k count) i 0 ≡ k + i
get_or-numbers k zero i h = absurd (omega arith)
get_or-numbers k (suc count) zero h = omega arith
get_or-numbers k (suc count) (suc i) h = omega (arith, get_or-numbers (k + 1) count i (omega arith))

length-numbers : (k count : ℕ) → length (numbers k count) ≡ count
length-numbers k zero = refl
length-numbers k (suc count) = omega (arith, length-numbers (k + 1) count)

abbrev log_of : (size n : ℕ) → Log
log_of size n = record {
  start = 2;
  size = size;
  outstanding = 1;
  committing = false;
  n = n;
  block = numbers 50 30;
}

abbrev zeros : Block
zeros = replicate 128 0

abbrev new_data : Block
new_data = replicate 128 7

abbrev super_of : ℕ → Block
super_of size = 1000 ∷ 900 ∷ 200 ∷ size ∷ 2 ∷ []

abbrev platter_of : ℕ → ℕ → Block
platter_of size a = if a == 1 then super_of size else zeros

-- Block 50 has been changed.
abbrev cached_of : ℕ → ℕ → Block
cached_of size a = if a == 1 then super_of size else if a == 50 then new_data else zeros

abbrev disk_of : (size power : ℕ) → Disk
disk_of size power = record { platter = platter_of size; cached = cached_of size; power = power }

log_of-HasHomes : (size n : ℕ) → n < size → size ≤ 40 → n ≤ 30 → HasHomes (log_of size n)
log_of-HasHomes size n room most few = record {
  room = room;
  past_super = omega arith;
  homes = λ i h.
      let at : get_or (numbers 50 30) i 0 ≡ 50 + i = get_or-numbers 50 30 i (omega arith) in
      (λ e. omega arith, inr (omega arith));
}

log_of-IsReady :
    (size n power : ℕ)
    → 0 < n
    → n < size
    → size ≤ 40
    → n ≤ 30
    → IsReady (log_of size n) (disk_of size power)
log_of-IsReady size n power some_block room most few = record {
  homes = log_of-HasHomes size n room most few;
  small = few;
  layout = record {
    start = refl;
    size = refl;
    header = omega (arith, length-replicate {A = ℕ} 128 0);
  };
  empty = refl;
  header = refl;
  rest = λ a h. elim (Bool-cases (a == 50)) [
    | inl e ↦ inr (0, some_block, ground arith)
    | inr e ↦ inl (ground arith)
  ];
}

IsReady-log : IsReady (log_of 40 1) (disk_of 40 2)
IsReady-log = log_of-IsReady 40 1 2 (omega arith) (omega arith) (omega arith) (omega arith)

IsReady-powered_log : IsReady (log_of 40 1) (disk_of 40 9)
IsReady-powered_log = log_of-IsReady 40 1 9 (omega arith) (omega arith) (omega arith) (omega arith)

IsHome-50 : IsHome (log_of 40 1) 50
IsHome-50 = (λ e. omega arith, inr (omega arith))

-- Power fails behind the header, and twice in recovery: the commit has happened all the same.
commit_atomic_example :
    (initlog (crash 100 (reboots (1 ∷ 0 ∷ []) (commit (log_of 40 1) (disk_of 40 2)).1))).1.platter
      50
    ≡ new_data
commit_atomic_example =
    commit_atomic (log_of 40 1) (disk_of 40 2) (1 ∷ 0 ∷ []) 100 50 IsReady-log (omega arith)
      IsHome-50

commit_durable_example :
    let (lg', d') = commit (log_of 40 1) (disk_of 40 9) in
    IsReady lg' d' × (lg'.n ≡ 0) × (d'.cached 50 ≡ new_data) × (d'.platter 50 ≡ new_data)
commit_durable_example =
    commit_durable (log_of 40 1) (disk_of 40 9) 50 IsReady-powered_log (omega arith) IsHome-50

abbrev sys_of : (size n budget : ℕ) → Sys
sys_of size n budget = record {
  lg = log_of size n;
  d = disk_of size 99;
  ops = budget ∷ [];
  writers = [];
  phase = open_log;
}

sys_of-Inv :
    (size n budget : ℕ)
    → 0 < n
    → n < size
    → size ≤ 40
    → budget ≤ 10
    → n + budget ≤ 30
    → Inv (sys_of size n budget)
sys_of-Inv size n budget some_block room most small reserved = record {
  ready = log_of-IsReady size n 99 some_block room most (omega arith);
  slots = length-numbers 50 30;
  small = omega arith;
  phase = refl;
  alone = refl;
  counted = refl;
  few = omega arith;
  bounded = (small, tt);
  bounded_writers = tt;
  reserved = omega arith;
}

one_call : Inv (sys_of 40 1 9)
one_call = sys_of-Inv 40 1 9 (omega arith) (omega arith) (omega arith) (omega arith) (omega arith)

abbrev two_calls : Sys
two_calls = record {
  lg = record (log_of 40 1) { outstanding = 2 };
  d = disk_of 40 99;
  ops = 10 ∷ 9 ∷ [];
  writers = [];
  phase = open_log;
}

second_call : Step (sys_of 40 1 9) two_calls
unfolding begin_op
second_call = enter two_calls.lg refl refl

Step-Inv_example : Inv two_calls × (two_calls.lg.size ≡ (sys_of 40 1 9).lg.size)
Step-Inv_example = Step-Inv second_call (omega arith) one_call

log_write_reserved_example : log_write 77 (log_of 40 1) ≡ returns (record_block 77 (log_of 40 1))
log_write_reserved_example =
    log_write_reserved (sys_of 40 1 9) 77 8 [] [] one_call (omega arith) refl
