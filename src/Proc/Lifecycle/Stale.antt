-- ===== src/Proc/Lifecycle/Stale.antt =====
-- `kill` finds slots by pid alone, also those of no process, whose pid is 0.
use swe3004_operating_system.Prelude.{
  ℕ, zero, suc, ◌≡◌, refl, true, false, List, [], ◌∷◌, some, ◌==◌, if◌then◌else◌, ◌≢◌, arith,
  get_elem?, get_elem?-update_at_self,
}
use swe3004_operating_system.Proc.{
  unused, sleeping, runnable, is_state, Proc, Table, kill_procs, kill,
}
use swe3004_operating_system.Proc.Pids.{IsLive, Below}
use swe3004_operating_system.Proc.Lifecycle.{first_unused, claim, build_stack, allocproc}
use swe3004_operating_system.Proc.Lifecycle.Unique.{HasUniquePids}
use swe3004_operating_system.Proc.Lifecycle.Alloc.{allocproc-built, claimed}

first_unused_head :
    (q : Proc) (ps : List Proc) → first_unused (q ∷ ps) ≡ some 0 → is_state q.state unused ≡ true
unfolding first_unused
first_unused_head q ps found = ground arith

first_unused_later :
    (q : Proc) (ps : List Proc) (i : ℕ)
    → first_unused (q ∷ ps) ≡ some (suc i)
    → IsLive q × (first_unused ps ≡ some i)
unfolding first_unused
first_unused_later q ps i found = ground arith

first_unused_here :
    (q : Proc) (ps : List Proc) → is_state q.state unused ≡ true → first_unused (q ∷ ps) ≡ some 0
unfolding first_unused
first_unused_here q ps free = ground arith

first_unused_cons :
    (q : Proc) (ps : List Proc) (i : ℕ)
    → IsLive q
    → first_unused ps ≡ some i
    → first_unused (q ∷ ps) ≡ some (suc i)
unfolding first_unused
first_unused_cons q ps i live later = ground arith

unused_state : (q : Proc) → is_state q.state unused ≡ true → q.state ≡ unused
unused_state q e = ground arith

-- What `kill` leaves of the first unused slot, if its pid is 0.
kill_procs_zero :
    (n : ℕ) (ps : List Proc) (i : ℕ) (p : Proc)
    → Below n ps
    → first_unused ps ≡ some i
    → get_elem? ps i ≡ some p
    → p.pid ≡ 0
    → let (r, ps') = kill_procs 0 ps in
      (r ≡ 0) × (first_unused ps' ≡ some i) × (get_elem? ps' i ≡ some (record p { killed = 1 }))
unfolding kill_procs
kill_procs_zero n [] i p b found there pid = cc
kill_procs_zero n (q ∷ ps) zero p b found there pid =
    let free = first_unused_head q ps found in
    let idle = unused_state q free in
    let zero_pid : q.pid ≡ 0 = ground arith in
    let hit : (q.pid == 0) ≡ true = ground arith in
    rw hit (
      refl,
      first_unused_here
          (record q { killed = 1; state = if is_state q.state sleeping then runnable else q.state })
          ps (ground arith),
      ground arith,
    )
kill_procs_zero n (q ∷ ps) (suc i) p b found there pid =
    let (live, later) = first_unused_later q ps i found in
    let (r, found', there') = kill_procs_zero n ps i p b.1 later there pid in
    let miss : (q.pid == 0) ≡ false = ground (arith, b.0 live) in
    rw miss (r, first_unused_cons q (kill_procs 0 ps).1 i live found', there')

-- `kill` of pid 0, a pid that no process has, succeeds if the first unused slot has never been
-- used or has been reaped, and the next process in that slot starts killed.
pub kill_zero_marks_next :
    (t : Table) (i stack forkret trapret : ℕ) (p : Proc)
    → HasUniquePids t
    → first_unused t.procs ≡ some i
    → get_elem? t.procs i ≡ some p
    → p.pid ≡ 0
    → stack ≢ 0
    → let (r, t') = kill 0 t in
      let (np, u) = allocproc stack forkret trapret t' in
      (r ≡ 0)
      × (np ≡ some i)
      × ((q : Proc) × (get_elem? u.procs i ≡ some q) × (q.pid ≡ t.nextpid) × (q.killed ≡ 1))
unfolding kill claimed claim build_stack
kill_zero_marks_next t i stack forkret trapret p v found there pid got =
    let (r, found', there') = kill_procs_zero t.nextpid t.procs i p v.below found there pid in
    let t' : Table = (kill 0 t).1 in
    let e = allocproc-built stack forkret trapret t' i found' (ground arith) in
    (
      r,
      rw e refl,
      (
        build_stack stack forkret trapret (claim t.nextpid (record p { killed = 1 })),
        rw e (
            get_elem?-update_at_self (claimed i t').procs i (build_stack stack forkret trapret)
              (get_elem?-update_at_self t'.procs i (claim t.nextpid) there')),
        refl,
        refl,
      ),
    )
