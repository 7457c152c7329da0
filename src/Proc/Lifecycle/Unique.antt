-- ===== src/Proc/Lifecycle/Unique.antt =====
-- Unique process ids, and the changes of the table that cannot break them.
use swe3004_operating_system.Prelude.{ℕ, ◌<◌, ◌≡◌, refl, ◌∙◌, some, arith, get_elem?}
use swe3004_operating_system.Proc.{unused, running, Chan, Proc, Table, wakeup1}
use swe3004_operating_system.Proc.Pids.{
  IsLive, Below, Distinct, Tame, AllTame, AllTame-refl, Below-tame, Distinct-tame,
  AllTame-update_at, Alike, AllAlike, AllAlike-refl, AllAlike-trans, AllAlike-Tame,
  AllAlike-update_at, wakeup_procs-AllAlike,
}
use swe3004_operating_system.Proc.Lifecycle.{update_proc}

-- `cur` is the slot of a running process.
pub record IsRunning (t : Table) (cur : ℕ) (c : Proc) : Type 0 where
  pub here : get_elem? t.procs cur ≡ some c
  pub state : c.state ≡ running

pub record HasUniquePids (t : Table) : Type 0 where
  pub positive : 0 < t.nextpid
  pub below : Below t.nextpid t.procs
  pub distinct : Distinct t.procs

-- A step that gives no pid out.
pub record IsTame (t u : Table) : Type 0 where
  pub nextpid : u.nextpid ≡ t.nextpid
  pub slots : AllTame t.procs u.procs

pub IsTame-unique : {t u : Table} → IsTame t u → HasUniquePids t → HasUniquePids u
IsTame-unique {t} {u} s v = record {
  positive = omega (arith, s.nextpid, v.positive);
  below = rw s.nextpid (Below-tame t.nextpid t.procs u.procs s.slots v.below);
  distinct = Distinct-tame t.procs u.procs s.slots v.distinct;
}

pub update-IsTame :
    (t : Table) (i : ℕ) (f : Proc → Proc)
    → ((p : Proc) → get_elem? t.procs i ≡ some p → Tame p (f p))
    → IsTame t (update_proc i f t)
update-IsTame t i f h = record { nextpid = refl; slots = AllTame-update_at t.procs i f h }

-- A slot that holds a running process is live.
pub running-IsLive :
    {t : Table} {cur : ℕ} {c : Proc}
    → IsRunning t cur c
    → (p : Proc) → get_elem? t.procs cur ≡ some p
    → IsLive p
running-IsLive {c} r p e = ground (arith, r.here, r.state)

-- Giving a slot back makes it unused, whatever else changes.
pub freed_Tame : (f : Proc → Proc) → ((p : Proc) → (f p).state ≡ unused) → (p : Proc) → Tame p (f p)
freed_Tame f h p l = ground (arith, h p)

-- The part of a step that neither frees nor kills a slot.
pub record IsAlike (t u : Table) : Type 0 where
  pub nextpid : u.nextpid ≡ t.nextpid
  pub slots : AllAlike t.procs u.procs

pub IsAlike-IsTame : {t u : Table} → IsAlike t u → IsTame t u
IsAlike-IsTame {t} {u} s = record {
  nextpid = s.nextpid;
  slots = AllAlike-Tame t.procs u.procs s.slots;
}

pub IsAlike-trans : {t u w : Table} → IsAlike t u → IsAlike u w → IsAlike t w
IsAlike-trans {t} {u} {w} s s' = record {
  nextpid = s'.nextpid ∙ s.nextpid;
  slots = AllAlike-trans t.procs u.procs w.procs s.slots s'.slots;
}

pub update-IsAlike :
    (t : Table) (i : ℕ) (f : Proc → Proc)
    → ((p : Proc) → Alike p (f p))
    → IsAlike t (update_proc i f t)
update-IsAlike t i f h = record { nextpid = refl; slots = AllAlike-update_at t.procs i f h }

pub wakeup1-IsAlike : (chan : Chan) (t : Table) → IsAlike t (wakeup1 chan t)
unfolding wakeup1
wakeup1-IsAlike chan t = record { nextpid = refl; slots = wakeup_procs-AllAlike chan t.procs }

pub IsAlike-refl : (t : Table) → IsAlike t t
IsAlike-refl t = record { nextpid = refl; slots = AllAlike-refl t.procs }

pub same-IsTame : (t : Table) → IsTame t t
same-IsTame t = record { nextpid = refl; slots = AllTame-refl t.procs }
