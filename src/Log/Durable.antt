-- ===== src/Log/Durable.antt =====
-- A commit that power lasts for: the transaction is on the platter, the log is empty again, and
-- the buffers show what they showed before.
use swe3004_operating_system.Prelude.{ℕ, ◌+◌, ◌≤◌, ◌≡◌, refl, inl, inr, ltb, arith, Bool-cases}
use swe3004_operating_system.Disk.{Disk}
use swe3004_operating_system.Log.{Log, commit}
use swe3004_operating_system.Log.Area.{IsHome}
use swe3004_operating_system.Log.Finish.{Clean, finish, finish_cached, finish_header, finish-Clean}
use swe3004_operating_system.Log.Recovery.{emptied, emptied-HasHomes}
use swe3004_operating_system.Log.Commit.{
  IsReady, logged, headed, power-headed, headed_cached, headed_home, headed_platter,
  headed-Committed, headed-Holds,
}

module _ {lg : Log} {d : Disk} (r : IsReady lg d) (power : lg.n + lg.n + 2 ≤ d.power) where
  done-Clean : Clean lg d.cached (finish lg (headed r)).platter
  done-Clean =
      finish-Clean lg r.homes d.cached (headed r) (headed-Committed r (omega arith))
        (headed-Holds r) (ground (arith, headed_cached r lg.start, headed_platter r lg.start))
        (omega (arith, power-headed r))

  done_cached : (a : ℕ) → IsHome lg a → (finish lg (headed r)).cached a ≡ d.cached a
  done_cached a h =
      finish_cached lg r.homes d.cached (headed r) a (headed-Holds r) h (headed_home r a h)

  done-IsReady : IsReady (emptied lg) (finish lg (headed r))
  done-IsReady = record {
    homes = emptied-HasHomes r.homes;
    small = omega arith;
    layout = record {
      start = done-Clean.layout.start;
      size = done-Clean.layout.size;
      header = done-Clean.layout.header;
    };
    empty = done-Clean.n;
    header = finish_header lg r.homes (headed r) (omega (arith, power-headed r));
    rest = λ a h. inl (ground (arith, done-Clean.homes a h, done_cached a h));
  }

pub commit_completes :
    (lg : Log) (d : Disk)
    → IsReady lg d
    → lg.n + lg.n + 2 ≤ d.power
    → let (lg', d') = commit lg d in
      IsReady lg' d'
      × (lg'.n ≡ 0)
      × ((a : ℕ) → IsHome lg a → (d'.cached a ≡ d.cached a) × (d'.platter a ≡ d.cached a))
unfolding commit headed logged
commit_completes lg d r power = elim (Bool-cases (ltb 0 lg.n)) [
  | inl some_blocks ↦
      rw some_blocks (
        done-IsReady r power,
        refl,
        λ a h. (done_cached r power a h, (done-Clean r power).homes a h),
      )
  | inr nothing ↦ rw nothing (
    r,
    ground arith,
    λ a h. (refl, elim (r.rest a h) [ inl e ↦ e | inr (i, k, _) ↦ absurd (ground arith) ]),
  )
]

-- With power for all its writes, `commit` puts the buffer of every home block on the platter,
-- leaves the log ready and empty, and changes no home block that the file system sees.
pub commit_durable :
    (lg : Log) (d : Disk) (a : ℕ)
    → IsReady lg d
    → lg.n + lg.n + 2 ≤ d.power
    → IsHome lg a
    → let (lg', d') = commit lg d in
      IsReady lg' d' × (lg'.n ≡ 0) × (d'.cached a ≡ d.cached a) × (d'.platter a ≡ d.cached a)
commit_durable lg d a r power h =
    let (ready, empty, kept) = commit_completes lg d r power in
    (ready, empty, (kept a h).0, (kept a h).1)
