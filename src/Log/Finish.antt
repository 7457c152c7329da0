-- ===== src/Log/Finish.antt =====
-- What a platter holds between a commit and the end of recovery, and the last steps of both:
-- install the transaction, then clear the header. Power may fail in between.
use swe3004_operating_system.Prelude.{
  ℕ, ◌+◌, ◌≤◌, ◌<◌, ◌≡◌, sym, ap, ◌⊎◌, inl, inr, ◌==◌, leb, if◌then◌else◌, arith, update, length,
  get_or, set, length-set, get_or-set_self,
}
use swe3004_operating_system.Disk.{Block, Disk, bread, bwrite}
use swe3004_operating_system.Log.{Log, log_size, install_trans, put_blocks, write_head}
use swe3004_operating_system.Log.Area.{slot, IsHome, IsLogged, HasHomes, Holds}
use swe3004_operating_system.Log.Install.{
  power-install_trans, install_trans_area, install_trans_unpowered, install_trans_keeps,
  install_trans-slot,
}

-- The superblock names the log area, and the header block has room for `log_size` slots.
pub record HasLayout (lg : Log) (p : ℕ → Block) : Type 0 where
  pub start : get_or (p 1) 4 0 ≡ lg.start
  pub size : get_or (p 1) 3 0 ≡ lg.size
  pub header : log_size < length (p lg.start)

-- The header on the platter commits the slots of `lg`, whose copies are in the log area; a home
-- block without a slot has its contents of `m` already.
pub record Committed (lg : Log) (m p : ℕ → Block) : Type 0 where
  pub layout : HasLayout lg p
  pub n : get_or (p lg.start) 0 0 ≡ lg.n
  pub slots : (i : ℕ) → i < lg.n → get_or (p lg.start) (i + 1) 0 ≡ slot lg i
  pub copies : Holds lg m p
  pub rest : (a : ℕ) → IsHome lg a → (p a ≡ m a) ⊎ IsLogged lg a

-- The header on the platter is empty, and every home block has its contents of `m`.
pub record Clean (lg : Log) (m p : ℕ → Block) : Type 0 where
  pub layout : HasLayout lg p
  pub n : get_or (p lg.start) 0 0 ≡ 0
  pub homes : (a : ℕ) → IsHome lg a → p a ≡ m a

-- Two logs with the same area and the same slots in use.
pub record SameSlots (lg lg' : Log) : Type 0 where
  pub start : lg.start ≡ lg'.start
  pub size : lg.size ≡ lg'.size
  pub n : lg.n ≡ lg'.n
  pub slots : (i : ℕ) → i < lg'.n → slot lg i ≡ slot lg' i

module _ {lg lg' : Log} (s : SameSlots lg lg') where
  HasLayout-same : {p : ℕ → Block} → HasLayout lg' p → HasLayout lg p
  HasLayout-same l = record {
    start = ground (arith, l.start, s.start);
    size = ground (arith, l.size, s.size);
    header = rw s.start l.header;
  }

  pub HasHomes-same : HasHomes lg' → HasHomes lg
  HasHomes-same v = record {
    room = omega (arith, v.room, s.n, s.size);
    past_super = omega (arith, v.past_super, s.start);
    homes = λ i h. ground (arith, s.start, s.size, s.n, s.slots i, v.homes i);
  }

  pub Clean-same : {m p : ℕ → Block} → Clean lg' m p → Clean lg m p
  Clean-same c = record {
    layout = HasLayout-same c.layout;
    n = rw s.start c.n;
    homes = λ a h. c.homes a (ground (arith, s.start, s.size));
  }

  pub Committed-same : {m p : ℕ → Block} → Committed lg' m p → Committed lg m p
  Committed-same c = record {
    layout = HasLayout-same c.layout;
    n = ground (arith, s.start, s.n, c.n);
    slots = λ i h. ground (arith, s.start, s.n, s.slots i, c.slots i);
    copies = λ i h. ground (arith, s.start, s.n, s.slots i, c.copies i);
    rest = λ a h. elim (c.rest a (ground (arith, s.start, s.size))) [
      | inl e ↦ inl e
      | inr (i, k, e) ↦ inr (i, omega (arith, s.n), ground (arith, s.slots i))
    ];
  }

pub SameSlots-symm : {lg lg' : Log} → SameSlots lg lg' → SameSlots lg' lg
SameSlots-symm s = record {
  start = sym s.start;
  size = sym s.size;
  n = sym s.n;
  slots = λ i h. sym (s.slots i (omega (arith, s.n)));
}

-- `install_trans`, `log.lh.n = 0` and `write_head`, as both callers run them.
abbrev pub finish : Log → Disk → Disk
finish lg d = write_head (record lg { n = 0 }) (install_trans lg d)

pub finish_unpowered :
    (lg : Log) (v : HasHomes lg) (d : Disk) → d.power ≡ 0 → (finish lg d).platter ≡ d.platter
unfolding write_head bwrite
finish_unpowered lg v d e =
    ground (arith, power-install_trans lg v d, install_trans_unpowered lg v d)

-- What the buffers hold afterwards.
pub finish_cached :
    (lg : Log) (v : HasHomes lg) (m : ℕ → Block) (d : Disk) (a : ℕ)
    → Holds lg m d.cached
    → IsHome lg a
    → d.cached a ≡ m a
    → (finish lg d).cached a ≡ m a
unfolding write_head bwrite update
finish_cached lg v m d a h k e = ground (arith, (install_trans_keeps lg v d m a h).0 e, v.room)

pub finish_header :
    (lg : Log) (v : HasHomes lg) (d : Disk)
    → lg.n < d.power
    → (finish lg d).cached lg.start ≡ (finish lg d).platter lg.start
unfolding write_head bwrite update
finish_header lg v d long = ground (arith, power-install_trans lg v d)

-- The buffers agree with the platter on the header, and with the new contents on the log area.
module _ (lg : Log) (v : HasHomes lg) (m : ℕ → Block) (d : Disk)
    (c : Committed lg m d.platter) where
  module _ (h : Holds lg m d.cached) (same : d.cached lg.start ≡ d.platter lg.start) where
    -- The last write clears the header, if there is power left for it.
    finish_platter :
        (a : ℕ)
        → (finish lg d).platter a ≡ (
            if leb d.power lg.n
            then (install_trans lg d).platter a
            else if a == lg.start
            then set (d.platter lg.start) 0 0
            else (install_trans lg d).platter a)
    unfolding bread write_head bwrite update put_blocks
    finish_platter a = ground (
      arith,
      power-install_trans lg v d,
      install_trans_area lg v d lg.start (omega (arith, v.room)),
    )

    finish_layout : HasLayout lg (finish lg d).platter
    finish_layout = record {
      start =
          ground
            (arith, finish_platter 1, install_trans_area lg v d 1, v.past_super, c.layout.start);
      size =
          ground
            (arith, finish_platter 1, install_trans_area lg v d 1, v.past_super, c.layout.size);
      header = ground (
        arith,
        finish_platter lg.start,
        install_trans_area lg v d lg.start,
        v.room,
        c.layout.header,
        length-set (d.platter lg.start) 0 0,
      );
    }

    -- Too little power for the last write: the header still commits.
    pub finish-Committed : d.power ≤ lg.n → Committed lg m (finish lg d).platter
    finish-Committed short = record {
      layout = finish_layout;
      n = ground (arith, finish_platter lg.start, install_trans_area lg v d lg.start, v.room, c.n);
      slots = λ i k.
          ground (
            arith,
            finish_platter lg.start,
            install_trans_area lg v d lg.start,
            v.room,
            c.slots i k,
          );
      copies = λ i k. ground (
        arith,
        finish_platter (lg.start + i + 1),
        install_trans_area lg v d (lg.start + i + 1),
        v.room,
        c.copies i k,
      );
      rest = λ a k. elim (c.rest a k) [
        | inl e ↦ inl (ground (arith, finish_platter a, (install_trans_keeps lg v d m a h).1 e))
        | inr l ↦ inr l
      ];
    }

    pub finish-Clean : lg.n < d.power → Clean lg m (finish lg d).platter
    finish-Clean long = record {
      layout = finish_layout;
      n = ground (
        arith,
        finish_platter lg.start,
        get_or-set_self (d.platter lg.start) 0 0 0,
        c.layout.header,
      );
      homes = λ a k. elim (c.rest a k) [
        | inl e ↦ ground (arith, finish_platter a, (install_trans_keeps lg v d m a h).1 e, v.room)
        | inr (i, lt, e) ↦ ground (
          arith,
          finish_platter a,
          ap m e,
          ap (install_trans lg d).platter e,
          (install_trans-slot lg v d m i lt h).1,
          v.room,
        )
      ];
    }
