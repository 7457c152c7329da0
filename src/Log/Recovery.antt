-- ===== src/Log/Recovery.antt =====
-- Starting the machine, with power failing at any time, as often as it likes: recovery ends with
-- the new contents of a committed transaction, and leaves a clean platter as it is.
use swe3004_operating_system.Prelude.{
  ℕ, ◌≤◌, ◌<◌, refl, ◌∙◌, ◌⊎◌, inl, inr, List, [], ◌∷◌, arith, replicate, ltb, leb, Bool-cases,
}
use swe3004_operating_system.Disk.{Block, Disk, bread, crash}
use swe3004_operating_system.Log.{Log, log_size, read_head, recover_from_log, boot_log, initlog}
use swe3004_operating_system.Log.Area.{HasHomes}
use swe3004_operating_system.Log.Header.{get_blocks_at}
use swe3004_operating_system.Log.Finish.{
  Committed, Clean, SameSlots, SameSlots-symm, Committed-same, Clean-same, HasHomes-same,
  finish-Committed, finish-Clean,
}

-- What `recover_from_log` works with.
abbrev found : Disk → ℕ → Log
found d power = read_head (boot_log (d.platter 1)) (crash power d)

found-SameSlots :
    {lg : Log} {m : ℕ → Block} (d : Disk) (power : ℕ)
    → lg.n ≤ log_size
    → Committed lg m d.platter
    → SameSlots (found d power) lg
unfolding read_head boot_log bread crash
found-SameSlots {lg} d power small c = record {
  start = c.layout.start;
  size = c.layout.size;
  n = rw c.layout.start c.n;
  slots = λ i h.
      rw (c.layout.start, c.n)
        (get_blocks_at lg.n 0 (d.platter lg.start) (replicate log_size 0) i (omega arith)
            (omega arith) (omega arith)
          ∙ c.slots i h);
}

-- One start, from a platter that commits the slots of `lg`.
module _ {lg : Log} {m : ℕ → Block} (v : HasHomes lg) (small : lg.n ≤ log_size) (d : Disk)
    (power : ℕ) (c : Committed lg m d.platter) where
  alike : SameSlots (found d power) lg
  alike = found-SameSlots d power small c

  initlog-Committed : power ≤ lg.n → Committed lg m (initlog (crash power d)).1.platter
  unfolding initlog recover_from_log bread crash
  initlog-Committed short = Committed-same (SameSlots-symm alike) (
      finish-Committed (found d power) (HasHomes-same alike v) m (crash power d)
        (Committed-same alike c) (Committed-same alike c).copies refl (omega (arith, alike.n)))

  initlog-Clean : lg.n < power → Clean lg m (initlog (crash power d)).1.platter
  unfolding initlog recover_from_log bread crash
  initlog-Clean long = Clean-same (SameSlots-symm alike) (
      finish-Clean (found d power) (HasHomes-same alike v) m (crash power d)
        (Committed-same alike c) (Committed-same alike c).copies refl (omega (arith, alike.n)))

-- A platter with no transaction commits no slots.
abbrev pub emptied : Log → Log
emptied lg = record lg { n = 0 }

pub emptied-HasHomes : {lg : Log} → HasHomes lg → HasHomes (emptied lg)
emptied-HasHomes v = record {
  room = omega (arith, v.room);
  past_super = v.past_super;
  homes = λ i h. absurd (omega arith);
}

Clean-Committed : {lg : Log} {m p : ℕ → Block} → Clean lg m p → Committed (emptied lg) m p
Clean-Committed c = record {
  layout = record { start = c.layout.start; size = c.layout.size; header = c.layout.header };
  n = c.n;
  slots = λ i h. absurd (omega arith);
  copies = λ i h. absurd (omega arith);
  rest = λ a h. inl (c.homes a h);
}

Committed-Clean : {lg : Log} {m p : ℕ → Block} → Committed (emptied lg) m p → Clean lg m p
Committed-Clean c = record {
  layout = record { start = c.layout.start; size = c.layout.size; header = c.layout.header };
  n = c.n;
  homes = λ a h. elim (c.rest a h) [ inl e ↦ e | inr (i, k, _) ↦ absurd (omega arith) ];
}

-- A start with any power leaves a clean platter clean.
pub initlog-keeps-Clean :
    {lg : Log} {m : ℕ → Block} (v : HasHomes lg) (d : Disk) (power : ℕ)
    → Clean lg m d.platter
    → Clean lg m (initlog (crash power d)).1.platter
initlog-keeps-Clean v d power c = elim (Bool-cases (ltb 0 power)) [
  | inl long ↦
      let after =
        initlog-Clean (emptied-HasHomes v) (omega arith) d power (Clean-Committed c)
          (ground arith) in
      record {
        layout = record {
          start = after.layout.start;
          size = after.layout.size;
          header = after.layout.header;
        };
        n = after.n;
        homes = after.homes;
      }
  | inr short ↦ Committed-Clean (
      initlog-Committed (emptied-HasHomes v) (omega arith) d power (Clean-Committed c)
        (ground arith))
]

-- The machine starts once for each number of the list, which is the power that start has.
pub reboots : List ℕ → Disk → Disk
reboots [] d = d
reboots (power ∷ more) d = reboots more (initlog (crash power d)).1

abbrev pub Settled : Log → (ℕ → Block) → (ℕ → Block) → Type 0
Settled lg m p = Committed lg m p ⊎ Clean lg m p

module _ {lg : Log} {m : ℕ → Block} (v : HasHomes lg) (small : lg.n ≤ log_size) where
  initlog-Settled :
      (d : Disk) (power : ℕ)
      → Settled lg m d.platter
      → Settled lg m (initlog (crash power d)).1.platter
  initlog-Settled d power (inl c) = elim (Bool-cases (leb power lg.n)) [
    | inl short ↦ inl (initlog-Committed v small d power c (ground arith))
    | inr long ↦ inr (initlog-Clean v small d power c (ground arith))
  ]
  initlog-Settled d power (inr c) = inr (initlog-keeps-Clean v d power c)

  reboots-Settled :
      (powers : List ℕ) (d : Disk)
      → Settled lg m d.platter
      → Settled lg m (reboots powers d).platter
  unfolding reboots
  reboots-Settled [] d c = c
  reboots-Settled (power ∷ more) d c =
      reboots-Settled more (initlog (crash power d)).1 (initlog-Settled d power c)

  recover-Clean :
      (d : Disk) (power : ℕ)
      → log_size < power
      → Settled lg m d.platter
      → Clean lg m (initlog (crash power d)).1.platter
  recover-Clean d power enough (inl c) = initlog-Clean v small d power c (omega arith)
  recover-Clean d power enough (inr c) = initlog-keeps-Clean v d power c

  -- However often power fails during recovery, a last start with power for the whole recovery
  -- leaves every home block with the contents of `m`.
  pub reboots_recover :
      (powers : List ℕ) (d : Disk) (power : ℕ)
      → Settled lg m d.platter
      → log_size < power
      → Clean lg m (initlog (crash power (reboots powers d))).1.platter
  reboots_recover powers d power c enough =
      recover-Clean (reboots powers d) power enough (reboots-Settled powers d c)
