-- ===== src/Proc/Lifecycle/Waiting.antt =====
-- `wait`, `sleep` and `wakeup`: who is reaped, who sleeps, who is woken.
use swe3004_operating_system.Prelude.{
  ℕ, zero, suc, ◌≡◌, refl, inl, inr, Bool, true, false, not, ◌&&◌, ◌||◌, List, [], ◌∷◌, none, some,
  ◌==◌, if◌then◌else◌, arith, get_elem?, update_at, get_elem?-update_at_self,
  get_elem?-update_at_ne, Bool-cases,
}
use swe3004_operating_system.Proc.{
  unused, sleeping, runnable, zombie, is_state, Chan, same_chan, slot, Proc, Table, is_parent,
  wakeup1,
}
use swe3004_operating_system.Proc.Wake.{get_elem?-wakeup_procs}
use swe3004_operating_system.Proc.Lifecycle.{
  update_proc, scan_children, reap, go_to_sleep, reaped, childless, asleep, clear_name, no_zombie,
  wait_round,
}

abbrev pub any_child : ℕ → List Proc → Bool
any_child cur [] = false
any_child cur (p ∷ ps) = is_parent p.parent cur || any_child cur ps

abbrev pub any_zombie : ℕ → List Proc → Bool
any_zombie cur [] = false
any_zombie cur (p ∷ ps) = (is_parent p.parent cur && is_state p.state zombie) || any_zombie cur ps

scan_children_kids : (cur : ℕ) (ps : List Proc) → (scan_children cur ps).0 ≡ any_child cur ps
unfolding scan_children
scan_children_kids cur [] = refl
scan_children_kids cur (p ∷ ps) = ground (arith, scan_children_kids cur ps)

scan_children-none :
    (cur : ℕ) (ps : List Proc) → any_zombie cur ps ≡ false → (scan_children cur ps).1 ≡ none
unfolding scan_children
scan_children-none cur [] h = refl
scan_children-none cur (p ∷ ps) h = ground (arith, scan_children-none cur ps)

-- A zombie child in slot `i`.
pub record IsZombieChild (cur : ℕ) (ps : List Proc) (i : ℕ) (p : Proc) : Type 0 where
  pub here : get_elem? ps i ≡ some p
  pub child : is_parent p.parent cur ≡ true
  pub dead : is_state p.state zombie ≡ true

scan_children-some :
    (cur : ℕ) (ps : List Proc)
    → any_zombie cur ps ≡ true
    → (i : ℕ) × (p : Proc) × ((scan_children cur ps).1 ≡ some (i, p)) × IsZombieChild cur ps i p
unfolding scan_children
scan_children-some cur [] h = cc
scan_children-some cur (p ∷ ps) h =
    elim (Bool-cases (is_parent p.parent cur && is_state p.state zombie)) [
      | inl found ↦
          (zero, p, ground arith, record { here = refl; child = ground arith; dead = ground arith })
      | inr other ↦
          let (i, q, e, z) = scan_children-some cur ps (ground arith) in
          (suc i, q, ground (arith, e), record { here = z.here; child = z.child; dead = z.dead })
    ]

reaped_slots :
    (i : ℕ) (p : Proc) (t : Table)
    → get_elem? t.procs i ≡ some p
    → (j : ℕ)
    → get_elem? (update_proc i reap t).procs j ≡ (
        if j == i
        then some (record p {
          state = unused;
          pid = 0;
          kstack = 0;
          parent = none;
          killed = 0;
          name = clear_name p.name;
        })
        else get_elem? t.procs j)
unfolding reap
reaped_slots i p t here j = elim (Bool-cases (j == i)) [
  | inl same ↦
      let at : j ≡ i = ground arith in
      rw same (rw at (get_elem?-update_at_self t.procs i reap here))
  | inr other ↦ rw other (get_elem?-update_at_ne t.procs i j reap (ground arith))
]

-- Slot `i`, which held `p`, is free, and nothing else has changed.
abbrev pub Freed : (i : ℕ) (p : Proc) (t u : Table) → Type 0
Freed i p t u =
    ((j : ℕ)
      → get_elem? u.procs j ≡ (
          if j == i
          then some (record p {
            state = unused;
            pid = 0;
            kstack = 0;
            parent = none;
            killed = 0;
            name = clear_name p.name;
          })
          else get_elem? t.procs j))
    × (u.nextpid ≡ t.nextpid)
    × (u.initproc ≡ t.initproc)

-- With a zombie child, `wait` returns the pid of one and hands out its pages. It leaves the slot of
-- that child unused, with no pid, kernel stack, parent or name and not killed, and everything else of
-- the table as it was.
pub wait_reaps :
    (cur : ℕ) (c : Proc) (t : Table)
    → any_zombie cur t.procs ≡ true
    → (i : ℕ) × (p : Proc) × (u : Table) × IsZombieChild cur t.procs i p
      × (wait_round cur c t ≡ (reaped p.pid p.kstack p.pgdir, u))
      × Freed i p t u
unfolding wait_round
wait_reaps cur c t h =
    let (i, p, e, z) = scan_children-some cur t.procs h in
    (i, p, update_proc i reap t, z, rw (e, wait_round), (reaped_slots i p t z.here, refl, refl))

-- Without one, `wait` returns -1 if there is no child at all or the caller was killed, and else
-- sleeps on the caller's own slot.
pub wait_waits :
    (cur : ℕ) (c : Proc) (t : Table)
    → any_zombie cur t.procs ≡ false
    → wait_round cur c t ≡ (
        if not (any_child cur t.procs) || not (c.killed == 0)
        then (childless, t)
        else (asleep, go_to_sleep cur (slot cur) t))
unfolding wait_round no_zombie
wait_waits cur c t h =
    rw (scan_children-none cur t.procs h, wait_round) (rw (scan_children_kids cur t.procs))

-- A process that sleeps on a channel is made runnable by a wakeup on that channel, and stays
-- asleep through a wakeup on any other; nothing else of it changes.
pub wakeup1-go_to_sleep :
    (cur : ℕ) (c : Proc) (t : Table) (chan chan' : Chan)
    → get_elem? t.procs cur ≡ some c
    → get_elem? (wakeup1 chan' (go_to_sleep cur chan t)).procs cur
      ≡ some (record c { chan = chan; state = if same_chan chan chan' then runnable else sleeping })
unfolding wakeup1 go_to_sleep
wakeup1-go_to_sleep cur c t chan chan' there =
    rw
      (get_elem?-wakeup_procs chan'
        (update_at t.procs cur (λ p. record p { chan = chan; state = sleeping })) cur)
      (rw
        (get_elem?-update_at_self t.procs cur (λ p. record p { chan = chan; state = sleeping })
          there)
        (ground arith))
