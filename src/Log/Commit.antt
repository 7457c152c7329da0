-- ===== src/Log/Commit.antt =====
-- `commit` is atomic: power may fail after any number of its block writes.
use swe3004_operating_system.Prelude.{
  ℕ, ◌+◌, ◌-◌, ◌≤◌, ◌<◌, ◌≡◌, ◌∙◌, refl, ◌⊎◌, inl, inr, List, ◌==◌, leb, ltb, if◌then◌else◌, arith,
  update, length, get_or, set, length-set, get_or-set_self, Bool-cases,
}
use swe3004_operating_system.Disk.{Block, Disk, bread, bwrite, crash}
use swe3004_operating_system.Log.{Log, log_size, put_blocks, write_head, write_log, commit, initlog}
use swe3004_operating_system.Log.Area.{slot, IsHome, IsLogged, HasHomes, Holds}
use swe3004_operating_system.Log.Copy.{power-write_log, write_log_other, write_log_copies}
use swe3004_operating_system.Log.Header.{length-put_blocks, put_blocks_other, put_blocks_at}
use swe3004_operating_system.Log.Finish.{
  HasLayout, Committed, Clean, finish, finish_unpowered, finish-Committed, finish-Clean,
}
use swe3004_operating_system.Log.Recovery.{Settled, reboots, reboots_recover}

-- What holds before `commit`: the log on the platter is empty, and the buffers differ from the
-- platter at home blocks only, all of them with a slot.
pub record IsReady (lg : Log) (d : Disk) : Type 0 where
  pub homes : HasHomes lg
  pub small : lg.n ≤ log_size
  pub layout : HasLayout lg d.platter
  pub empty : get_or (d.platter lg.start) 0 0 ≡ 0
  pub header : d.cached lg.start ≡ d.platter lg.start
  pub rest : (a : ℕ) → IsHome lg a → (d.platter a ≡ d.cached a) ⊎ IsLogged lg a

module _ {lg : Log} {d : Disk} (r : IsReady lg d) where
  unfoldable pub logged : Disk
  logged = write_log lg d

  unfoldable pub headed : Disk
  headed = write_head lg logged

  -- The header block that `write_head` writes.
  pub header : Block
  header = put_blocks lg.n 0 lg.block (set (d.platter lg.start) 0 lg.n)

  length-header : length header ≡ length (d.platter lg.start)
  unfolding header
  length-header =
      length-put_blocks lg.n 0 lg.block (set (d.platter lg.start) 0 lg.n)
      ∙ length-set (d.platter lg.start) 0 lg.n

  header_n : get_or header 0 0 ≡ lg.n
  unfolding header
  header_n =
      put_blocks_other lg.n 0 lg.block (set (d.platter lg.start) 0 lg.n) 0 (omega arith)
      ∙ get_or-set_self (d.platter lg.start) 0 lg.n 0 (omega (arith, r.layout.header))

  header_slots : (i : ℕ) → i < lg.n → get_or header (i + 1) 0 ≡ slot lg i
  unfolding header
  header_slots i h =
      put_blocks_at lg.n 0 lg.block (set (d.platter lg.start) 0 lg.n) i
        (omega (arith, length-set (d.platter lg.start) 0 lg.n, r.layout.header, r.small))
        (omega arith) (omega arith)

  pub power-headed : headed.power ≡ d.power - lg.n - 1
  unfolding headed logged write_head bwrite
  power-headed = omega (arith, power-write_log lg d)

  pub headed_cached :
      (a : ℕ) → headed.cached a ≡ (if a == lg.start then header else logged.cached a)
  unfolding headed logged header write_head bwrite update bread
  headed_cached a = ground (arith, write_log_other lg d lg.start, r.header)

  pub headed_platter :
      (a : ℕ)
      → headed.platter a ≡ (
          if leb d.power lg.n
          then logged.platter a
          else if a == lg.start
          then header
          else logged.platter a)
  unfolding headed logged header write_head bwrite update bread
  headed_platter a = ground (arith, write_log_other lg d lg.start, r.header, power-write_log lg d)

  logged_home : (a : ℕ) → IsHome lg a → logged.platter a ≡ d.platter a
  unfolding logged
  logged_home a h = (write_log_other lg d a (ground (arith, r.homes.room))).1

  pub headed_home : (a : ℕ) → IsHome lg a → headed.cached a ≡ d.cached a
  unfolding logged
  headed_home a h = ground (arith, headed_cached a, write_log_other lg d a, r.homes.room)

  -- From here on power lasts until the header is written.
  pub headed-Committed : lg.n < d.power → Committed lg d.cached headed.platter
  unfolding logged
  headed-Committed long = record {
    layout = record {
      start =
          ground
            (arith, headed_platter 1, write_log_other lg d 1, r.homes.past_super, r.layout.start);
      size =
          ground
            (arith, headed_platter 1, write_log_other lg d 1, r.homes.past_super, r.layout.size);
      header = ground (arith, headed_platter lg.start, length-header, r.layout.header);
    };
    n = ground (arith, headed_platter lg.start, header_n);
    slots = λ i h. ground (arith, headed_platter lg.start, header_slots i h);
    copies =
        λ i h. ground (arith, headed_platter (lg.start + i + 1), write_log_copies lg d i r.homes h);
    rest = λ a h. elim (r.rest a h) [
      | inl e ↦ inl (ground (arith, headed_platter a, logged_home a h, r.homes.room))
      | inr l ↦ inr l
    ];
  }

  pub headed-Holds : Holds lg d.cached headed.cached
  unfolding logged
  headed-Holds i h =
      ground (arith, headed_cached (lg.start + i + 1), write_log_copies lg d i r.homes h)

  finish-Settled : lg.n < d.power → Settled lg d.cached (finish lg headed).platter
  finish-Settled long =
      let same : headed.cached lg.start ≡ headed.platter lg.start =
        ground (arith, headed_cached lg.start, headed_platter lg.start) in
      elim (Bool-cases (leb headed.power lg.n)) [
        | inl short ↦ inl (
            finish-Committed lg r.homes d.cached headed (headed-Committed long) headed-Holds same
              (ground arith))
        | inr enough ↦ inr (
            finish-Clean lg r.homes d.cached headed (headed-Committed long) headed-Holds same
              (ground arith))
      ]

  logged-Clean : Clean lg d.platter logged.platter
  unfolding logged
  logged-Clean = record {
    layout = record {
      start = ground (arith, write_log_other lg d 1, r.homes.past_super, r.layout.start);
      size = ground (arith, write_log_other lg d 1, r.homes.past_super, r.layout.size);
      header = ground (arith, write_log_other lg d lg.start, r.layout.header);
    };
    n = ground (arith, write_log_other lg d lg.start, r.empty);
    homes = λ a h. logged_home a h;
  }

  headed_unpowered : d.power ≤ lg.n → headed.platter ≡ logged.platter
  unfolding headed logged write_head bwrite
  headed_unpowered short = ground (arith, power-write_log lg d)

  finish-Clean_old : d.power ≤ lg.n → Clean lg d.platter (finish lg headed).platter
  finish-Clean_old short =
      rw (finish_unpowered lg r.homes headed (omega (arith, power-headed)), headed_unpowered short)
        logged-Clean

  -- What `commit` leaves on the platter: the old contents if power fails before the header is
  -- written, else the new ones or a header that commits them.
  commit-Settled :
      let p = (commit lg d).1.platter in
      (d.power ≤ lg.n → Clean lg d.platter p) × (lg.n < d.power → Settled lg d.cached p)
  unfolding commit headed logged
  commit-Settled = elim (Bool-cases (ltb 0 lg.n)) [
    | inl some_blocks ↦ rw some_blocks (finish-Clean_old, finish-Settled)
    | inr nothing ↦ rw nothing (
      λ _. record { layout = r.layout; n = r.empty; homes = λ a h. refl },
      λ _. inr (record {
        layout = r.layout;
        n = r.empty;
        homes = λ a h. elim (r.rest a h) [ inl e ↦ e | inr (i, k, _) ↦ absurd (ground arith) ];
      }),
    )
  ]

-- `commit` is atomic under power failure. Let the in-memory log and the buffers be ready for a
-- commit, and let power fail after `d.power` of its block writes, or not at all; let it then fail
-- again in any number of recoveries. Once a recovery has power for `log_size + 1` writes, every
-- block outside the log area and the superblock has its old contents if power failed before the
-- header was written (at most `n` writes), and else the contents of its buffer at the commit.
pub commit_atomic :
    (lg : Log) (d : Disk) (powers : List ℕ) (power a : ℕ)
    → IsReady lg d
    → log_size < power
    → IsHome lg a
    → (initlog (crash power (reboots powers (commit lg d).1))).1.platter a
      ≡ (if leb d.power lg.n then d.platter a else d.cached a)
commit_atomic lg d powers power a r enough h = elim (Bool-cases (leb d.power lg.n)) [
  | inl short ↦ rw short (
      (reboots_recover r.homes r.small powers (commit lg d).1 power
          (inr ((commit-Settled r).0 (ground arith))) enough).homes
        a h)
  | inr long ↦ rw long (
      (reboots_recover r.homes r.small powers (commit lg d).1 power
          ((commit-Settled r).1 (ground arith)) enough).homes
        a h)
]
