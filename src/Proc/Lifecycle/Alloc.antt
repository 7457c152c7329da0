-- ===== src/Proc/Lifecycle/Alloc.antt =====
-- How `allocproc` ends, and that it gives out a pid that no live slot has.
use swe3004_operating_system.Prelude.{
  ℕ, ◌+◌, ◌-◌, ◌^◌, ◌<◌, ◌≡◌, refl, inl, inr, false, some, ◌==◌, arith, update_at, u32,
  Option-cases,
}
use swe3004_operating_system.Proc.{Table}
use swe3004_operating_system.Proc.Pids.{Distinct-fresh, Below-fresh}
use swe3004_operating_system.Proc.Lifecycle.{
  update_proc, claim, claim_slot, build_stack, first_unused, allocproc,
}
use swe3004_operating_system.Proc.Lifecycle.Unique.{HasUniquePids}

unfoldable pub claimed : ℕ → Table → Table
claimed i t = record t {
  procs = update_at t.procs i (claim t.nextpid);
  nextpid = u32 (t.nextpid + 1);
}

pub claimed_unique :
    (i : ℕ) (t : Table) → t.nextpid < 2 ^ 32 - 1 → HasUniquePids t → HasUniquePids (claimed i t)
unfolding claimed claim
claimed_unique i t small v =
    let next : u32 (t.nextpid + 1) ≡ t.nextpid + 1 = omega arith in
    record {
      positive = omega arith;
      below =
          rw next
            (Below-fresh t.nextpid t.procs i (claim t.nextpid) (λ p. refl) v.positive v.below);
      distinct =
          Distinct-fresh t.nextpid t.procs i (claim t.nextpid) (λ p. refl) v.below v.distinct;
    }

claim_slot-claimed :
    (t : Table) (i : ℕ) → first_unused t.procs ≡ some i → claim_slot t ≡ (some i, claimed i t)
unfolding claim_slot claimed
claim_slot-claimed t i found = rw (found, claim_slot)

-- How `allocproc` ends with a slot and a stack.
pub allocproc-built :
    (stack forkret trapret : ℕ) (t : Table) (i : ℕ)
    → first_unused t.procs ≡ some i
    → (stack == 0) ≡ false
    → allocproc stack forkret trapret t
      ≡ (some i, update_proc i (build_stack stack forkret trapret) (claimed i t))
unfolding allocproc
allocproc-built stack forkret trapret t i found got =
    rw (claim_slot-claimed t i found, allocproc) (rw got (rw (claim_slot-claimed t i found) refl))

pub claim_slot_unique :
    (t : Table) → t.nextpid < 2 ^ 32 - 1 → HasUniquePids t → HasUniquePids (claim_slot t).1
unfolding claim_slot claimed
claim_slot_unique t small v = elim (Option-cases (first_unused t.procs)) [
  | inl full ↦ rw (full, claim_slot) v
  | inr (i, found) ↦ rw (found, claim_slot) (claimed_unique i t small v)
]
