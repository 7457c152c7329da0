-- ===== src/Log/Copy.antt =====
-- The loop of `write_log`: which blocks it writes, and what to.
use swe3004_operating_system.Prelude.{
  inl, inr, Bool-cases, ℕ, zero, suc, ◌+◌, ◌-◌, ◌≤◌, ◌<◌, ◌≡◌, refl, ◌⊎◌, ◌==◌, arith, update,
}
use swe3004_operating_system.Disk.{Disk, bread, bwrite}
use swe3004_operating_system.Log.{Log, write_log_from, write_log}
use swe3004_operating_system.Log.Area.{slot, HasHomes}

module _ (lg : Log) where
  power-write_log_from :
      (left tail : ℕ) (d : Disk) → (write_log_from left tail lg d).power ≡ d.power - left
  unfolding write_log_from bwrite
  power-write_log_from zero tail d = omega arith
  power-write_log_from (suc left) tail d = ground (
    arith,
    power-write_log_from left (tail + 1) (bwrite (lg.start + tail + 1) (bread (slot lg tail) d) d),
  )

  -- Nothing but the log blocks of the rounds left changes.
  write_log_from_other :
      (left tail : ℕ) (d : Disk) (a : ℕ)
      → (a ≤ lg.start + tail) ⊎ (lg.start + tail + left < a)
      → let d' = write_log_from left tail lg d in
        (d'.cached a ≡ d.cached a) × (d'.platter a ≡ d.platter a)
  unfolding write_log_from bwrite update
  write_log_from_other zero tail d a h = (refl, refl)
  write_log_from_other (suc left) tail d a h = ground (
    arith,
    write_log_from_other left (tail + 1) (bwrite (lg.start + tail + 1) (bread (slot lg tail) d) d)
        a,
  )

  -- Each log block of the rounds left receives the cached data of its slot.
  module _ (v : HasHomes lg) where
    write_log_from_copies :
        (left tail : ℕ) (d : Disk) (i : ℕ)
        → tail + left ≤ lg.n
        → tail ≤ i
        → i < tail + left
        → let d' = write_log_from left tail lg d in
          (d'.cached (lg.start + i + 1) ≡ d.cached (slot lg i))
          × (left ≤ d.power → d'.platter (lg.start + i + 1) ≡ d.cached (slot lg i))
    unfolding write_log_from bwrite update bread
    write_log_from_copies zero tail d i le h k = absurd (omega arith)
    write_log_from_copies (suc left) tail d i le h k =
        let d' : Disk = bwrite (lg.start + tail + 1) (bread (slot lg tail) d) d in
        elim (Bool-cases (i == tail)) [
          | inl e ↦ ground (arith, write_log_from_other left (tail + 1) d' (lg.start + i + 1))
          | inr e ↦
              ground (arith, v.homes i (omega arith), write_log_from_copies left (tail + 1) d' i)
        ]

-- The whole loop: the copies are made, and the superblock, the header and the home blocks stay.
module _ (lg : Log) (d : Disk) where
  pub power-write_log : (write_log lg d).power ≡ d.power - lg.n
  unfolding write_log
  power-write_log = power-write_log_from lg lg.n 0 d

  pub write_log_other :
      (a : ℕ)
      → (a ≤ lg.start) ⊎ (lg.start + lg.n < a)
      → let d' = write_log lg d in (d'.cached a ≡ d.cached a) × (d'.platter a ≡ d.platter a)
  unfolding write_log
  write_log_other a h = write_log_from_other lg lg.n 0 d a (ground arith)

  pub write_log_copies :
      (i : ℕ) (v : HasHomes lg)
      → i < lg.n
      → let d' = write_log lg d in
        (d'.cached (lg.start + i + 1) ≡ d.cached (slot lg i))
        × (lg.n ≤ d.power → d'.platter (lg.start + i + 1) ≡ d.cached (slot lg i))
  unfolding write_log
  write_log_copies i v h =
      write_log_from_copies lg v lg.n 0 d i (omega arith) (omega arith) (omega arith)
