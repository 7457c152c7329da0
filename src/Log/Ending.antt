-- ===== src/Log/Ending.antt =====
-- What `end_op` does, by the last system call in progress or by one of several.
use swe3004_operating_system.Prelude.{
  ◌-◌, ℕ, ◌+◌, ◌≤◌, ◌<◌, ◌≡◌, inl, inr, Bool, false, ◌==◌, arith, returns, Bool-cases,
}
use swe3004_operating_system.Disk.{Disk}
use swe3004_operating_system.Log.{Log, commit, end_op_leave}
use swe3004_operating_system.Log.Commit.{IsReady}
use swe3004_operating_system.Log.Durable.{commit_completes}

-- `outstanding` and `committing` have no part in being ready.
pub IsReady-record :
    {lg : Log} {d : Disk} (outstanding : ℕ) (committing : Bool)
    → IsReady lg d
    → IsReady (record lg { outstanding = outstanding; committing = committing }) d
IsReady-record outstanding committing r = record {
  homes = record { room = r.homes.room; past_super = r.homes.past_super; homes = r.homes.homes };
  small = r.small;
  layout = record { start = r.layout.start; size = r.layout.size; header = r.layout.header };
  empty = r.empty;
  header = r.header;
  rest = r.rest;
}

pub commit_log : (lg : Log) (d : Disk) → (commit lg d).0 ≡ record lg { n = 0 }
unfolding commit
commit_log lg d = ground arith

-- The first critical section of `end_op` keeps `committing` and `do_commit` alike: both are set by
-- the last call in progress.
pub end_op_leave_lem :
    (lg lg' : Log) (last : Bool)
    → lg.committing ≡ false
    → 0 < lg.outstanding
    → lg.outstanding ≤ 3
    → end_op_leave lg ≡ returns (last, lg')
    → (lg' ≡ record lg { outstanding = lg.outstanding - 1; committing = last })
      × (last ≡ (lg.outstanding == 1))
unfolding end_op_leave
end_op_leave_lem lg lg' last idle some_op few e = elim (Bool-cases (lg.outstanding == 1)) [
  | inl one ↦ (ground arith, ground arith)
  | inr several ↦ (ground arith, ground arith)
]

-- `commit` with power enough empties the log and keeps it ready.
pub commit-IsReady :
    (lg : Log) (d : Disk)
    → IsReady lg d
    → lg.n + lg.n + 2 ≤ d.power
    → IsReady (record lg { n = 0 }) (commit lg d).1
commit-IsReady lg d r power = rw (commit_log lg d) at ((commit_completes lg d r power).0)
