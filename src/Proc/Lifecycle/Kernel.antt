-- ===== src/Proc/Lifecycle/Kernel.antt =====
-- The table under any sequence of the kernel's calls: process ids stay unique.
use swe3004_operating_system.Prelude.{
  ℕ, zero, suc, ◌-◌, ◌^◌, ◌<◌, ◌≡◌, refl, inl, inr, Bool, List, [], ◌∷◌, some, ◌==◌, arith,
  get_elem?, ◌≤◌, Bool-cases, Option-cases, not, ◌||◌, int_lt, returns,
}
use swe3004_operating_system.Proc.{
  embryo, sleeping, runnable, running, is_state, Chan, null, slot, Proc, Table, wakeup1, kill,
  setnice,
}
use swe3004_operating_system.Proc.Pids.{
  IsLive, AllAlike-Tame, kill_procs-AllAlike, setnice_procs-AllAlike,
}
use swe3004_operating_system.Proc.Lifecycle.{
  update_proc, claim_slot, give_back, build_stack, inherit, make_ready, exit_from, scan_children,
  no_zombie, reap, go_to_sleep, wake_up, wait_round, next_runnable, dispatch, give_way,
}
use swe3004_operating_system.Proc.Lifecycle.Unique.{
  IsRunning, HasUniquePids, IsTame, IsTame-unique, update-IsTame, running-IsLive, freed_Tame,
  IsAlike-IsTame, wakeup1-IsAlike, same-IsTame,
}
use swe3004_operating_system.Proc.Lifecycle.Alloc.{claim_slot_unique}
use swe3004_operating_system.Proc.Lifecycle.Exit.{exit_from-returns, exit_unique}

-- Slot `i` is being set up by `fork` or `userinit`.
pub record IsEmbryo (t : Table) (i : ℕ) (p : Proc) : Type 0 where
  pub here : get_elem? t.procs i ≡ some p
  pub state : p.state ≡ embryo

-- A critical section of proc.c, or what `fork` does to its EMBRYO slot without the lock, between the
-- first one (`claims`) and the last one (`readies`). Pids are given out only while they do not wrap.
pub data Step (t u : Table) : Type 0 where
  claims : t.nextpid < 2 ^ 32 - 1 → u ≡ (claim_slot t).1 → Step t u
  gives_back : (i : ℕ) {p : Proc} → IsEmbryo t i p → u ≡ update_proc i give_back t → Step t u
  builds :
      (i stack forkret trapret : ℕ) {p : Proc}
      → IsEmbryo t i p
      → u ≡ update_proc i (build_stack stack forkret trapret) t
      → Step t u
  inherits :
      (i cur pgdir : ℕ) {p c : Proc}
      → IsEmbryo t i p
      → IsRunning t cur c
      → u ≡ update_proc i (inherit cur pgdir c) t
      → Step t u
  readies : (i : ℕ) {p : Proc} → IsEmbryo t i p → u ≡ update_proc i make_ready t → Step t u
  exits :
      (cur : ℕ) {c : Proc} {closed : List ℕ}
      → IsRunning t cur c
      → exit_from cur c t ≡ returns (closed, u)
      → Step t u
  waits : (cur : ℕ) {c : Proc} → IsRunning t cur c → u ≡ (wait_round cur c t).1 → Step t u
  sleeps :
      (cur : ℕ) (chan : Chan) {c : Proc} → IsRunning t cur c → u ≡ go_to_sleep cur chan t → Step t u
  wakes : (cur : ℕ) → u ≡ wake_up cur t → Step t u
  yields : (cur : ℕ) {c : Proc} → IsRunning t cur c → u ≡ give_way cur t → Step t u
  dispatches : (from i : ℕ) → next_runnable from t.procs ≡ some i → u ≡ dispatch i t → Step t u
  wakeups : (chan : Chan) → u ≡ wakeup1 chan t → Step t u
  kills : (pid : ℕ) → u ≡ (kill pid t).1 → Step t u
  nices : (pid nice : ℕ) → u ≡ (setnice pid nice t).1 → Step t u

-- The scheduler chooses a slot at or behind the one where its scan starts, and the process there is
-- runnable.
pub next_runnable_lem :
    (from : ℕ) (ps : List Proc) (i : ℕ)
    → next_runnable from ps ≡ some i
    → (p : Proc) × (get_elem? ps i ≡ some p) × (p.state ≡ runnable) × (from ≤ i)
unfolding next_runnable
next_runnable_lem from [] i e = cc
next_runnable_lem zero (p ∷ ps) i e = elim (Bool-cases (is_state p.state runnable)) [
  | inl found ↦ (p, ground arith, ground arith, omega arith)
  | inr other ↦ elim (Option-cases (next_runnable zero ps)) [
    | inl nothing ↦ absurd (ground arith)
    | inr (j, later) ↦
        let (q, here, state, le) = next_runnable_lem zero ps j later in
        (q, ground arith, state, omega arith)
  ]
]
next_runnable_lem (suc from) (p ∷ ps) i e = elim (Option-cases (next_runnable from ps)) [
  | inl nothing ↦ absurd (ground arith)
  | inr (j, later) ↦
      let (q, here, state, le) = next_runnable_lem from ps j later in
      (q, ground arith, state, ground arith)
]

asleep-IsTame :
    (cur : ℕ) (chan : Chan) (t : Table) {c : Proc}
    → IsRunning t cur c
    → IsTame t (go_to_sleep cur chan t)
unfolding go_to_sleep
asleep-IsTame cur chan t r =
    update-IsTame t cur (λ p. record p { chan = chan; state = sleeping })
      (λ p there l. (running-IsLive r p there, refl))

no_zombie-IsTame :
    (kids : Bool) (cur : ℕ) {c : Proc} (t : Table)
    → IsRunning t cur c
    → IsTame t (no_zombie kids cur c t).1
unfolding no_zombie
no_zombie-IsTame kids cur {c} t r = elim (Bool-cases (not kids || not (c.killed == 0))) [
  | inl leave ↦ rw leave (same-IsTame t)
  | inr sleep ↦ rw sleep (asleep-IsTame cur (slot cur) t r)
]

wait-IsTame : (cur : ℕ) {c : Proc} (t : Table) → IsRunning t cur c → IsTame t (wait_round cur c t).1
unfolding wait_round reap
wait-IsTame cur {c} t r = elim (Option-cases (scan_children cur t.procs).1) [
  | inl nothing ↦ rw (nothing, wait_round) (no_zombie-IsTame _ cur t r)
  | inr ((i, p), found) ↦
      rw (found, wait_round) (update-IsTame t i reap (λ q at. freed_Tame reap (λ x. refl) q))
]

kill-IsTame : (pid : ℕ) (t : Table) → IsTame t (kill pid t).1
unfolding kill
kill-IsTame pid t = record {
  nextpid = refl;
  slots = AllAlike-Tame _ _ (kill_procs-AllAlike pid t.procs);
}

setnice-IsTame : (pid nice : ℕ) (t : Table) → IsTame t (setnice pid nice t).1
unfolding setnice
setnice-IsTame pid nice t = elim (Bool-cases (int_lt nice 0 || int_lt 39 nice)) [
  | inl bad ↦ rw bad (same-IsTame t)
  | inr good ↦ rw good (record {
    nextpid = refl;
    slots = AllAlike-Tame _ _ (setnice_procs-AllAlike pid nice t.procs);
  })
]

dispatch-IsTame :
    (from i : ℕ) (t : Table) → next_runnable from t.procs ≡ some i → IsTame t (dispatch i t)
unfolding dispatch
dispatch-IsTame from i t found =
    let (p, there, state, le) = next_runnable_lem from t.procs i found in
    update-IsTame t i (λ q. record q { state = running }) (λ q at l. (ground arith, refl))

give_way-IsTame : (cur : ℕ) (t : Table) {c : Proc} → IsRunning t cur c → IsTame t (give_way cur t)
unfolding give_way
give_way-IsTame cur t r =
    update-IsTame t cur (λ p. record p { state = runnable })
      (λ p there l. (running-IsLive r p there, refl))

wake_up-IsTame : (cur : ℕ) (t : Table) → IsTame t (wake_up cur t)
unfolding wake_up
wake_up-IsTame cur t = update-IsTame t cur (λ p. record p { chan = null }) (λ p there l. (l, refl))

embryo-IsLive :
    {t : Table} {i : ℕ} {p : Proc}
    → IsEmbryo t i p
    → (q : Proc) → get_elem? t.procs i ≡ some q
    → IsLive q
embryo-IsLive {p} m q e = ground (arith, m.here, m.state)

gives_back-IsTame : (i : ℕ) (t : Table) → IsTame t (update_proc i give_back t)
unfolding give_back
gives_back-IsTame i t = update-IsTame t i give_back (λ q at. freed_Tame give_back (λ x. refl) q)

builds-IsTame :
    (i stack forkret trapret : ℕ) (t : Table)
    → IsTame t (update_proc i (build_stack stack forkret trapret) t)
unfolding build_stack
builds-IsTame i stack forkret trapret t =
    update-IsTame t i (build_stack stack forkret trapret) (λ q at l. (l, refl))

inherits-IsTame :
    (i cur pgdir : ℕ) (c : Proc) (t : Table) → IsTame t (update_proc i (inherit cur pgdir c) t)
unfolding inherit
inherits-IsTame i cur pgdir c t = update-IsTame t i (inherit cur pgdir c) (λ q at l. (l, refl))

readies-IsTame :
    (i : ℕ) {p : Proc} (t : Table) → IsEmbryo t i p → IsTame t (update_proc i make_ready t)
unfolding make_ready
readies-IsTame i t m = update-IsTame t i make_ready (λ q at l. (embryo-IsLive m q at, refl))

-- No two live slots ever have the same process id, every live slot has a positive one, and all are
-- below `nextpid`: each critical section of proc.c keeps this, and so does what `fork` does to its
-- slot between its two critical sections, as long as `nextpid` does not wrap.
pub Step-HasUniquePids : {t u : Table} → Step t u → HasUniquePids t → HasUniquePids u
Step-HasUniquePids {t} (claims small e) v = rw e (claim_slot_unique t small v)
Step-HasUniquePids {t} (gives_back i m e) v = rw e (IsTame-unique (gives_back-IsTame i t) v)
Step-HasUniquePids {t} (builds i stack forkret trapret m e) v =
    rw e (IsTame-unique (builds-IsTame i stack forkret trapret t) v)
Step-HasUniquePids {t} (inherits i cur pgdir m r e) v =
    rw e (IsTame-unique (inherits-IsTame i cur pgdir _ t) v)
Step-HasUniquePids {t} (readies i m e) v = rw e (IsTame-unique (readies-IsTame i t m) v)
Step-HasUniquePids {t} (exits cur r e) v =
    rw ((exit_from-returns cur _ t e).1) (exit_unique cur t r v)
Step-HasUniquePids {t} (waits cur r e) v = rw e (IsTame-unique (wait-IsTame cur t r) v)
Step-HasUniquePids {t} (sleeps cur chan r e) v = rw e (IsTame-unique (asleep-IsTame cur chan t r) v)
Step-HasUniquePids {t} (wakes cur e) v = rw e (IsTame-unique (wake_up-IsTame cur t) v)
Step-HasUniquePids {t} (yields cur r e) v = rw e (IsTame-unique (give_way-IsTame cur t r) v)
Step-HasUniquePids {t} (dispatches from i found e) v =
    rw e (IsTame-unique (dispatch-IsTame from i t found) v)
Step-HasUniquePids {t} (wakeups chan e) v =
    rw e (IsTame-unique (IsAlike-IsTame (wakeup1-IsAlike chan t)) v)
Step-HasUniquePids {t} (kills pid e) v = rw e (IsTame-unique (kill-IsTame pid t) v)
Step-HasUniquePids {t} (nices pid nice e) v = rw e (IsTame-unique (setnice-IsTame pid nice t) v)
