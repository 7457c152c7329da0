-- ===== src/Proc/Lifecycle/Exit.antt =====
-- `exit`, taken apart: all that it does before it makes its own slot a zombie.
use swe3004_operating_system.Prelude.{
  ◌≢◌, ℕ, zero, suc, ◌+◌, ◌≡◌, refl, inl, inr, List, some, arith, get_elem?, length, Bool-cases,
  Option-cases, returns,
}
use swe3004_operating_system.Proc.{zombie, is_state, Proc, Table, is_parent, parent_chan, wakeup1}
use swe3004_operating_system.Proc.Pids.{AllAlike-IsLive}
use swe3004_operating_system.Proc.Lifecycle.{
  update_proc, adopt_child, adopt_one, adopt, close_files, exit_from,
}
use swe3004_operating_system.Proc.Lifecycle.Unique.{
  IsRunning, HasUniquePids, IsTame-unique, update-IsTame, running-IsLive, IsAlike, IsAlike-IsTame,
  IsAlike-trans, update-IsAlike, wakeup1-IsAlike, IsAlike-refl,
}

-- `exit` up to its last assignment.
unfoldable pub abandoned : (cur : ℕ) → Proc → Table → Table
abandoned cur c t =
    let t1 = wakeup1 (parent_chan c.parent) (update_proc cur close_files t) in
    adopt (length t1.procs) 0 cur t1

pub exit_from-returns :
    (cur : ℕ) (c : Proc) (t : Table) {closed : List ℕ} {u : Table}
    → exit_from cur c t ≡ returns (closed, u)
    → (cur ≢ t.initproc)
      × (u ≡ update_proc cur (λ p. record p { state = zombie }) (abandoned cur c t))
unfolding exit_from abandoned
exit_from-returns cur c t e = ground arith

pub adopt_child-IsAlike : (i : ℕ) (p : Proc) (t : Table) → IsAlike t (adopt_child i p t)
unfolding adopt_child
adopt_child-IsAlike i p t =
    let first =
      update-IsAlike t i (λ q. record q { parent = some t.initproc }) (λ q. (refl, refl)) in
    elim (Bool-cases (is_state p.state zombie)) [
      | inl dead ↦ rw dead (IsAlike-trans first (wakeup1-IsAlike _ _))
      | inr alive ↦ rw alive first
    ]

pub adopt_one-IsAlike : (i cur : ℕ) (t : Table) → IsAlike t (adopt_one i cur t)
unfolding adopt_one
adopt_one-IsAlike i cur t = elim (Option-cases (get_elem? t.procs i)) [
  | inl missing ↦ rw (missing, adopt_one) (IsAlike-refl t)
  | inr (p, there) ↦ elim (Bool-cases (is_parent p.parent cur)) [
    | inl child ↦ rw (there, adopt_one) (rw child (adopt_child-IsAlike i p t))
    | inr other ↦ rw (there, adopt_one) (rw other (IsAlike-refl t))
  ]
]

pub adopt-IsAlike : (left i cur : ℕ) (t : Table) → IsAlike t (adopt left i cur t)
unfolding adopt
adopt-IsAlike zero i cur t = IsAlike-refl t
adopt-IsAlike (suc left) i cur t =
    IsAlike-trans (adopt_one-IsAlike i cur t) (adopt-IsAlike left (i + 1) cur (adopt_one i cur t))

pub abandoned-IsAlike : (cur : ℕ) (c : Proc) (t : Table) → IsAlike t (abandoned cur c t)
unfolding abandoned close_files
abandoned-IsAlike cur c t =
    IsAlike-trans (update-IsAlike t cur close_files (λ p. (refl, refl)))
      (IsAlike-trans (wakeup1-IsAlike _ _) (adopt-IsAlike _ 0 cur _))

pub exit_unique :
    (cur : ℕ) {c : Proc} (t : Table)
    → IsRunning t cur c
    → HasUniquePids t
    → HasUniquePids (update_proc cur (λ p. record p { state = zombie }) (abandoned cur c t))
exit_unique cur {c} t r v =
    let before = abandoned-IsAlike cur c t in
    IsTame-unique
      (update-IsTame (abandoned cur c t) cur (λ p. record p { state = zombie })
        (λ p there l. (
          AllAlike-IsLive t.procs (abandoned cur c t).procs cur before.slots r.here
              (running-IsLive r c r.here) there,
          refl,
        )))
      (IsTame-unique (IsAlike-IsTame before) v)
