-- ===== src/Log/Install.antt =====
-- The loop of `install_trans`, from a log area that holds the new contents `m`.
use swe3004_operating_system.Prelude.{
  ℕ, zero, suc, ◌+◌, ◌-◌, ◌≤◌, ◌<◌, ◌≡◌, refl, ◌≢◌, inl, inr, ◌==◌, arith, update, Bool-cases,
}
use swe3004_operating_system.Disk.{Block, Disk, bread, bwrite}
use swe3004_operating_system.Log.{Log, install_from, install_trans}
use swe3004_operating_system.Log.Area.{slot, IsArea, HasHomes, Holds, slot-ne-area}

-- One round: the home block of slot `tail` is written with its copy in the log.
abbrev pub install_one : Log → ℕ → Disk → Disk
install_one lg tail d = bwrite (slot lg tail) (bread (lg.start + tail + 1) d) d

module _ (lg : Log) where
  power-install_from :
      (left tail : ℕ) (d : Disk) → (install_from left tail lg d).power ≡ d.power - left
  unfolding install_from bwrite
  power-install_from zero tail d = omega arith
  power-install_from (suc left) tail d =
      ground (arith, power-install_from left (tail + 1) (install_one lg tail d))

  -- Without power nothing reaches the platter.
  pub install_from_unpowered :
      (left tail : ℕ) (d : Disk) → d.power ≡ 0 → (install_from left tail lg d).platter ≡ d.platter
  unfolding install_from bwrite
  install_from_unpowered zero tail d e = refl
  install_from_unpowered (suc left) tail d e =
      ground (arith, install_from_unpowered left (tail + 1) (install_one lg tail d))

  -- Only blocks with a slot in use change.
  install_from_unlogged :
      (left tail : ℕ) (d : Disk) (a : ℕ)
      → tail + left ≤ lg.n
      → ((i : ℕ) → i < lg.n → slot lg i ≢ a)
      → let d' = install_from left tail lg d in
        (d'.cached a ≡ d.cached a) × (d'.platter a ≡ d.platter a)
  unfolding install_from bwrite update
  install_from_unlogged zero tail d a le h = (refl, refl)
  install_from_unlogged (suc left) tail d a le h = ground (
    arith,
    h tail (omega arith),
    install_from_unlogged left (tail + 1) (install_one lg tail d) a (omega arith) h,
  )

module _ (lg : Log) (v : HasHomes lg) (m : ℕ → Block) where
  Holds-install_one :
      (tail : ℕ) (d : Disk)
      → tail < lg.n
      → Holds lg m d.cached
      → Holds lg m (install_one lg tail d).cached
  unfolding bwrite update
  Holds-install_one tail d lt h i k = ground (arith, v.homes tail lt, v.room, h i k)

  -- A block that has its new contents keeps them.
  install_from_keeps :
      (left tail : ℕ) (d : Disk) (a : ℕ)
      → tail + left ≤ lg.n
      → Holds lg m d.cached
      → let d' = install_from left tail lg d in
        (d.cached a ≡ m a → d'.cached a ≡ m a) × (d.platter a ≡ m a → d'.platter a ≡ m a)
  unfolding install_from bwrite update bread
  install_from_keeps zero tail d a le h = (λ e. e, λ e. e)
  install_from_keeps (suc left) tail d a le h = ground (
    arith,
    h tail (omega arith),
    install_from_keeps left (tail + 1) (install_one lg tail d) a (omega arith)
        (Holds-install_one tail d (omega arith) h),
  )

  -- A block with a slot among the rounds left gets its new contents.
  install_from_installs :
      (left tail : ℕ) (d : Disk) (i : ℕ)
      → tail + left ≤ lg.n
      → tail ≤ i
      → i < tail + left
      → Holds lg m d.cached
      → let d' = install_from left tail lg d in
        (d'.cached (slot lg i) ≡ m (slot lg i))
        × (left ≤ d.power → d'.platter (slot lg i) ≡ m (slot lg i))
  unfolding install_from bwrite update bread
  install_from_installs zero tail d i le lo hi h = absurd (omega arith)
  install_from_installs (suc left) tail d i le lo hi h =
      let h' = Holds-install_one tail d (omega arith) h in
      elim (Bool-cases (i == tail)) [
        | inl e ↦ ground (
          arith,
          h tail (omega arith),
          install_from_keeps left (tail + 1) (install_one lg tail d) (slot lg i) (omega arith) h',
        )
        | inr e ↦ ground (
          arith,
          install_from_installs left (tail + 1) (install_one lg tail d) i (omega arith)
              (ground arith) (omega arith) h',
        )
      ]

-- The whole loop.
module _ (lg : Log) (v : HasHomes lg) (d : Disk) where
  pub power-install_trans : (install_trans lg d).power ≡ d.power - lg.n
  unfolding install_trans
  power-install_trans = power-install_from lg lg.n 0 d

  -- The superblock and the log area stay.
  pub install_trans_area :
      (a : ℕ)
      → IsArea lg a
      → let d' = install_trans lg d in (d'.cached a ≡ d.cached a) × (d'.platter a ≡ d.platter a)
  unfolding install_trans
  install_trans_area a h = install_from_unlogged lg lg.n 0 d a (omega arith) (slot-ne-area v a h)

  pub install_trans_unpowered : d.power ≡ 0 → (install_trans lg d).platter ≡ d.platter
  unfolding install_trans
  install_trans_unpowered e = install_from_unpowered lg lg.n 0 d e

  pub install_trans_keeps :
      (m : ℕ → Block) (a : ℕ)
      → Holds lg m d.cached
      → let d' = install_trans lg d in
        (d.cached a ≡ m a → d'.cached a ≡ m a) × (d.platter a ≡ m a → d'.platter a ≡ m a)
  unfolding install_trans
  install_trans_keeps m a h = install_from_keeps lg v m lg.n 0 d a (omega arith) h

  pub install_trans-slot :
      (m : ℕ → Block) (i : ℕ)
      → i < lg.n
      → Holds lg m d.cached
      → let d' = install_trans lg d in
        (d'.cached (slot lg i) ≡ m (slot lg i))
        × (lg.n ≤ d.power → d'.platter (slot lg i) ≡ m (slot lg i))
  unfolding install_trans
  install_trans-slot m i k h =
      install_from_installs lg v m lg.n 0 d i (omega arith) (omega arith) (omega arith) h
