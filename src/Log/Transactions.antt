-- ===== src/Log/Transactions.antt =====
-- System calls that share the log: `begin_op`, writes of home blocks, and `end_op`, in any order.
use swe3004_operating_system.Prelude.{
  ℕ, suc, ◌+◌, ◌*◌, ◌-◌, ◌^◌, ◌≤◌, ◌<◌, ◌≡◌, refl, ◌∙◌, subst, Bool, true, false, List, ◌∷◌, ◌++◌,
  some, if◌then◌else◌, arith, length, returns, length-middle,
}
use swe3004_operating_system.Disk.{Block, Disk, modify}
use swe3004_operating_system.Log.{
  Log, log_size, max_op_blocks, begin_op, end_op_leave, end_op_committed, commit, record_block,
  log_write_check, log_write,
}
use swe3004_operating_system.Log.Area.{IsHome}
use swe3004_operating_system.Log.Commit.{IsReady}
use swe3004_operating_system.Log.Slots.{
  record_block_n, record_block_fixed, log_write-fits, record_block-IsReady,
}
use swe3004_operating_system.Log.Budget.{sum, Bounded, sum-le, sum-middle, Bounded-remove}
use swe3004_operating_system.Log.Ending.{
  IsReady-record, commit_log, end_op_leave_lem, commit-IsReady,
}

-- The log is open, or some call is to commit it, or has committed it and is to open it again.
pub data Phase : Type 0 where
  open_log to_commit to_finish : Phase

abbrev pub is_busy : Phase → Bool
is_busy open_log = false
is_busy to_commit = true
is_busy to_finish = true

-- `ops` has the budget of each call between its `begin_op` and its `end_op`, less those inside of
-- `log_write`, between its tests and its critical section, which are in `writers`.
pub record Sys : Type 0 where
  pub lg : Log
  pub d : Disk
  pub ops : List ℕ
  pub writers : List ℕ
  pub phase : Phase

-- A call changes the data of a home block and records it: `test` is `log_write` without the lock,
-- `write` is its critical section. `leave`, `commits` and `finish` are the three pieces of `end_op`.
-- Power lasts through each commit; what happens where it does not is `commit_atomic`.
pub data Step (s t : Sys) : Type 0 where
  enter :
      (lg : Log)
      → begin_op s.lg ≡ some lg
      → t ≡ record s { lg = lg; ops = max_op_blocks ∷ s.ops }
      → Step s t
  test :
      (before : List ℕ) (k : ℕ) (after : List ℕ)
      → s.ops ≡ before ++ (suc k ∷ after)
      → log_write_check s.lg ≡ returns s.lg
      → t ≡ record s { ops = before ++ after; writers = suc k ∷ s.writers }
      → Step s t
  write :
      (b : ℕ) (data_ : Block) (before : List ℕ) (k : ℕ) (after : List ℕ)
      → s.writers ≡ before ++ (suc k ∷ after)
      → IsHome s.lg b
      → t ≡ record s {
        lg = record_block b s.lg;
        d = modify b data_ s.d;
        ops = k ∷ s.ops;
        writers = before ++ after;
      }
      → Step s t
  leave :
      (before : List ℕ) (k : ℕ) (after : List ℕ) (last : Bool) (lg : Log)
      → s.ops ≡ before ++ (k ∷ after)
      → end_op_leave s.lg ≡ returns (last, lg)
      → t ≡ record s { lg = lg; ops = before ++ after; phase = if last then to_commit else s.phase }
      → Step s t
  commits :
      s.phase ≡ to_commit
      → s.lg.n + s.lg.n + 2 ≤ s.d.power
      → t ≡ record s { lg = (commit s.lg s.d).0; d = (commit s.lg s.d).1; phase = to_finish }
      → Step s t
  finish :
      s.phase ≡ to_finish → t ≡ record s { lg = end_op_committed s.lg; phase = open_log } → Step s t

-- The number of calls in progress, and what they may still record.
abbrev pub calls : Sys → ℕ
calls s = length s.ops + length s.writers

abbrev pub budget : Sys → ℕ
budget s = sum s.ops + sum s.writers

pub record Inv (s : Sys) : Type 0 where
  pub ready : IsReady s.lg s.d
  pub slots : length s.lg.block ≡ log_size
  pub small : s.lg.size < 2 ^ 31
  pub phase : s.lg.committing ≡ is_busy s.phase
  pub alone : (if is_busy s.phase then calls s else 0) ≡ 0
  pub counted : s.lg.outstanding ≡ calls s
  pub few : calls s ≤ 3
  pub bounded : Bounded s.ops
  pub bounded_writers : Bounded s.writers
  pub reserved : s.lg.n + budget s ≤ log_size

-- While a call is in progress, nobody commits.
idle_lem : (s : Sys) → Inv s → 0 < calls s → is_busy s.phase ≡ false
idle_lem s v some_call = ground (arith, v.alone)

enter-fields :
    (lg lg' : Log)
    → begin_op lg ≡ some lg'
    → lg.n ≤ log_size
    → lg.outstanding ≤ 3
    → (lg' ≡ record lg { outstanding = lg.outstanding + 1 })
      × (lg.n + (lg.outstanding + 1) * max_op_blocks ≤ log_size)
      × (lg.committing ≡ false)
unfolding begin_op
enter-fields lg lg' e small few = ground arith

enter-Inv :
    (s : Sys) (lg : Log)
    → Inv s
    → begin_op s.lg ≡ some lg
    → Inv (record s { lg = lg; ops = max_op_blocks ∷ s.ops }) × (lg.size ≡ s.lg.size)
enter-Inv s lg v e =
    let (same, fits, idle) =
      enter-fields s.lg lg e v.ready.small (omega (arith, v.counted, v.few)) in
    let not_busy : is_busy s.phase ≡ false = ground (arith, v.phase) in
    (
      record {
        ready = rw same (IsReady-record (s.lg.outstanding + 1) s.lg.committing v.ready);
        slots = rw same v.slots;
        small = rw same v.small;
        phase = rw same v.phase;
        alone = rw not_busy refl;
        counted = rw same (omega (arith, v.counted));
        few = omega (arith, v.counted);
        bounded = (omega arith, v.bounded);
        bounded_writers = v.bounded_writers;
        reserved =
            rw same (
              omega (arith, sum-le s.ops v.bounded, sum-le s.writers v.bounded_writers, v.counted));
      },
      rw same refl,
    )

test-Inv :
    (s : Sys) (before : List ℕ) (k : ℕ) (after : List ℕ)
    → Inv s
    → s.ops ≡ before ++ (suc k ∷ after)
    → Inv (record s { ops = before ++ after; writers = suc k ∷ s.writers })
test-Inv s before k after v ops =
    let budgets = Bounded-remove before (suc k) after (subst Bounded ops v.bounded) in
    let counts : length s.ops ≡ suc (length (before ++ after)) =
      rw ops (length-middle before (suc k) after) in
    let sums : sum s.ops ≡ suc k + sum (before ++ after) =
      rw ops (sum-middle before (suc k) after) in
    record {
      ready = v.ready;
      slots = v.slots;
      small = v.small;
      phase = v.phase;
      alone = rw (idle_lem s v (omega (arith, counts))) refl;
      counted = omega (arith, v.counted, counts);
      few = omega (arith, counts, v.few);
      bounded = budgets.1;
      bounded_writers = (budgets.0, v.bounded_writers);
      reserved = omega (arith, sums, v.reserved);
    }

write-Inv :
    (s : Sys) (b : ℕ) (data_ : Block) (before : List ℕ) (k : ℕ) (after : List ℕ)
    → Inv s
    → log_size < s.lg.size
    → s.writers ≡ before ++ (suc k ∷ after)
    → IsHome s.lg b
    → Inv (record s {
      lg = record_block b s.lg;
      d = modify b data_ s.d;
      ops = k ∷ s.ops;
      writers = before ++ after;
    })
write-Inv s b data_ before k after v large writers home =
    let budgets = Bounded-remove before (suc k) after (subst Bounded writers v.bounded_writers) in
    let counts : length s.writers ≡ suc (length (before ++ after)) =
      rw writers (length-middle before (suc k) after) in
    let sums : sum s.writers ≡ suc k + sum (before ++ after) =
      rw writers (sum-middle before (suc k) after) in
    let few : s.lg.n < log_size = omega (arith, sums, v.reserved) in
    let short : s.lg.n < length s.lg.block = omega (arith, v.slots) in
    let same = record_block_fixed b s.lg in
    let more = record_block_n b s.lg short in
    record {
      ready = record_block-IsReady b data_ v.ready v.slots few (omega arith) home;
      slots = omega (arith, more, v.slots);
      small = omega (arith, same, v.small);
      phase = ground (arith, same, v.phase);
      alone = rw (idle_lem s v (omega (arith, counts))) refl;
      counted = omega (arith, same, v.counted, counts);
      few = omega (arith, counts, v.few);
      bounded = (omega (arith, budgets.0), v.bounded);
      bounded_writers = budgets.1;
      reserved = omega (arith, more, sums, v.reserved);
    }

leave-Inv :
    (s : Sys) (before : List ℕ) (k : ℕ) (after : List ℕ) (last : Bool) (lg : Log)
    → Inv s
    → s.ops ≡ before ++ (k ∷ after)
    → end_op_leave s.lg ≡ returns (last, lg)
    → Inv (record s { lg = lg; ops = before ++ after; phase = if last then to_commit else s.phase })
      × (lg.size ≡ s.lg.size)
leave-Inv s before k after last lg v ops e =
    let counts : length s.ops ≡ suc (length (before ++ after)) =
      rw ops (length-middle before k after) in
    let sums : sum s.ops ≡ k + sum (before ++ after) = rw ops (sum-middle before k after) in
    let idle = idle_lem s v (omega (arith, counts)) in
    let (same, is_last) =
      end_op_leave_lem s.lg lg last (v.phase ∙ idle) (omega (arith, v.counted, counts))
        (omega (arith, v.counted, v.few)) e in
    (
      record {
        ready = rw same (IsReady-record (s.lg.outstanding - 1) last v.ready);
        slots = rw same v.slots;
        small = rw same v.small;
        phase = rw same (ground (arith, idle));
        alone = ground (arith, idle, is_last, v.counted, counts);
        counted = rw same (omega (arith, v.counted, counts));
        few = omega (arith, counts, v.few);
        bounded = (Bounded-remove before k after (subst Bounded ops v.bounded)).1;
        bounded_writers = v.bounded_writers;
        reserved = rw same (omega (arith, sums, v.reserved));
      },
      rw same refl,
    )

commits-Inv :
    (s : Sys)
    → Inv s
    → s.phase ≡ to_commit
    → s.lg.n + s.lg.n + 2 ≤ s.d.power
    → Inv (record s { lg = record s.lg { n = 0 }; d = (commit s.lg s.d).1; phase = to_finish })
commits-Inv s v at power =
    let busy : is_busy s.phase ≡ true = rw at refl in
    record {
      ready = commit-IsReady s.lg s.d v.ready power;
      slots = v.slots;
      small = v.small;
      phase = v.phase ∙ busy;
      alone = ground (arith, v.alone);
      counted = v.counted;
      few = v.few;
      bounded = v.bounded;
      bounded_writers = v.bounded_writers;
      reserved = omega (arith, v.reserved);
    }

finish-Inv : (s : Sys) → Inv s → Inv (record s { lg = end_op_committed s.lg; phase = open_log })
unfolding end_op_committed
finish-Inv s v = record {
  ready = IsReady-record s.lg.outstanding false v.ready;
  slots = v.slots;
  small = v.small;
  phase = refl;
  alone = refl;
  counted = v.counted;
  few = v.few;
  bounded = v.bounded;
  bounded_writers = v.bounded_writers;
  reserved = v.reserved;
}

-- On a log area of more than `log_size` blocks, every step of the calls keeps the log ready for a
-- commit, whatever their order, though `log_write` makes its tests before it takes the lock. The
-- slots in use and the budgets of the calls in progress stay together within `log_size`, and from
-- the `end_op` of the last call to the end of its commit no call is in progress.
pub Step-Inv :
    {s t : Sys} → Step s t → log_size < s.lg.size → Inv s → Inv t × (t.lg.size ≡ s.lg.size)
unfolding end_op_committed
Step-Inv {s} {t} (enter lg e same) large v =
    let (v', size) = enter-Inv s lg v e in rw same (v', size)
Step-Inv {s} {t} (test before k after ops e same) large v =
    rw same (test-Inv s before k after v ops, refl)
Step-Inv {s} {t} (write b data_ before k after writers home same) large v =
    rw same (write-Inv s b data_ before k after v large writers home, (record_block_fixed b s.lg).1)
Step-Inv {s} {t} (leave before k after last lg ops e same) large v =
    let (v', size) = leave-Inv s before k after last lg v ops e in rw same (v', size)
Step-Inv {s} {t} (commits at power same) large v =
    rw (same, commit_log s.lg s.d) (commits-Inv s v at power, refl)
Step-Inv {s} {t} (finish at same) large v = rw same (finish-Inv s v, refl)

-- On a log area of more than `log_size` blocks the reservation of `begin_op` suffices: a `log_write`
-- by a call with budget left does not panic, whichever calls are in progress.
pub log_write_reserved :
    (s : Sys) (b k : ℕ) (before after : List ℕ)
    → Inv s
    → log_size < s.lg.size
    → s.ops ≡ before ++ (suc k ∷ after)
    → log_write b s.lg ≡ returns (record_block b s.lg)
log_write_reserved s b k before after v large ops =
    let counts : length s.ops ≡ suc (length (before ++ after)) =
      rw ops (length-middle before (suc k) after) in
    let sums : sum s.ops ≡ suc k + sum (before ++ after) =
      rw ops (sum-middle before (suc k) after) in
    log_write-fits b s.lg v.small (omega (arith, sums, v.reserved))
      (omega (arith, sums, v.reserved)) (omega (arith, v.counted, counts))
      (omega (arith, v.counted, v.few))
