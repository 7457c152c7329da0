-- ===== src/Spinlock/Exclusion.antt =====
-- Mutual exclusion of the CPUs, in every interleaving of their steps.
use swe3004_operating_system.Prelude.{
  ℕ, ◌≡◌, refl, inl, inr, Bool, true, false, List, [], ◌∷◌, Option, none, some, arith, update,
  Bool-cases, returns,
}
use swe3004_operating_system.Spinlock.{
  Pc, idle, spinning, entering, critical, leaving, Sys, pushcli, popcli, is_cpu, holding, step_at,
  step, run,
}

-- From the `xchg` that finds the lock free to the store that frees it.
abbrev pub is_inside : Pc → Bool
is_inside idle = false
is_inside spinning = false
is_inside entering = true
is_inside critical = true
is_inside leaving = true

abbrev pub is_critical : Pc → Bool
is_critical critical = true
is_critical _ = false

abbrev pub is_idle : Pc → Bool
is_idle idle = true
is_idle _ = false

abbrev pub pc_of : Sys → ℕ → Pc
pc_of s i = (s.cores i).pc

pub record Inv (s : Sys) : Type 0 where
  pub locked : (i : ℕ) → is_inside (pc_of s i) ≡ true → s.lock.locked ≡ true
  pub alone : (i j : ℕ) → is_inside (pc_of s i) ≡ true → is_inside (pc_of s j) ≡ true → i ≡ j
  pub owned : (i : ℕ) → is_critical (pc_of s i) ≡ true → s.lock.cpu ≡ some i
  pub owner : (i : ℕ) → s.lock.cpu ≡ some i → is_critical (pc_of s i) ≡ true
  pub busy :
      (i : ℕ)
      → is_idle (pc_of s i) ≡ false
      → ((s.cores i).state.ncli ≡ 1) × ((s.cores i).state.interrupts ≡ false)
  pub free : (i : ℕ) → is_idle (pc_of s i) ≡ true → (s.cores i).state.ncli ≡ 0

abbrev Goes : ℕ → Sys → Pc → Type 0
Goes i s pc = (s' : Sys) × (step_at pc i (s.cores i).state s ≡ returns s') × Inv s'

spinning-Goes : (i : ℕ) (s : Sys) → Inv s → pc_of s i ≡ spinning → Goes i s spinning
unfolding step_at update
spinning-Goes i s v here = (
  _,
  refl,
  record {
    locked = λ j h. ground arith;
    alone = λ j k h h'. ground (arith, here, v.locked j, v.locked k, v.alone j k);
    owned = λ j h. ground (arith, here, v.owned j);
    owner = λ j h. ground (arith, here, v.owner j);
    busy = λ j h. ground (arith, here, v.busy j, v.busy i);
    free = λ j h. ground (arith, here, v.free j);
  },
)

entering-Goes : (i : ℕ) (s : Sys) → Inv s → pc_of s i ≡ entering → Goes i s entering
unfolding step_at update
entering-Goes i s v here = (
  _,
  refl,
  record {
    locked = λ j h. ground (arith, here, v.locked i, v.locked j);
    alone = λ j k h h'. ground (arith, here, v.alone j k, v.alone i k, v.alone j i);
    owned = λ j h. ground (arith, here, v.alone j i);
    owner = λ j h. ground (arith, here);
    busy = λ j h. ground (arith, here, v.busy j, v.busy i);
    free = λ j h. ground (arith, here, v.free j);
  },
)

-- A CPU outside `acquire` and `release` is not the owner.
not_holding : (i : ℕ) (s : Sys) → Inv s → pc_of s i ≡ idle → is_cpu s.lock.cpu i ≡ false
not_holding i s v here = elim (Bool-cases (is_cpu s.lock.cpu i)) [
  | inl mine ↦ absurd (no_owner s.lock.cpu mine refl)
  | inr other ↦ other
]
  where
    no_owner : (o : Option ℕ) → is_cpu o i ≡ true → s.lock.cpu ≡ o → ⊥
    no_owner none mine e = cc
    no_owner (some j) mine e = ground (arith, here, v.owner i)

idle-Goes : (i : ℕ) (s : Sys) → Inv s → pc_of s i ≡ idle → Goes i s idle
unfolding step_at update holding pushcli popcli
idle-Goes i s v here = (
  put_spinning,
  ground (arith, not_holding i s v here, v.free i, here),
  record {
    locked = λ j h. ground (arith, here, v.locked j);
    alone = λ j k h h'. ground (arith, here, v.alone j k);
    owned = λ j h. ground (arith, here, v.owned j);
    owner = λ j h. ground (arith, here, v.owner j);
    busy = λ j h. ground (arith, here, v.busy j, v.free i);
    free = λ j h. ground (arith, here, v.free j);
  },
)
  where
    put_spinning : Sys
    put_spinning = record {
      lock = s.lock;
      cores = update s.cores i (record { pc = spinning; state = pushcli (s.cores i).state });
    }

critical-Goes : (i : ℕ) (s : Sys) → Inv s → pc_of s i ≡ critical → Goes i s critical
unfolding step_at update holding pushcli popcli
critical-Goes i s v here = (
  put_leaving,
  ground (arith, v.busy i, v.owned i, v.locked i, here),
  record {
    locked = λ j h. ground (arith, here, v.locked j, v.locked i);
    alone = λ j k h h'. ground (arith, here, v.alone j k, v.alone i k, v.alone j i);
    owned = λ j h. ground (arith, here, v.owned j, v.alone i j);
    owner = λ j h. ground (arith, here, v.owner j);
    busy = λ j h. ground (arith, here, v.busy j, v.busy i);
    free = λ j h. ground (arith, here, v.free j);
  },
)
  where
    put_leaving : Sys
    put_leaving = record {
      lock = record s.lock { cpu = none };
      cores = update s.cores i (record { pc = leaving; state = (s.cores i).state });
    }

leaving-Goes : (i : ℕ) (s : Sys) → Inv s → pc_of s i ≡ leaving → Goes i s leaving
unfolding step_at update popcli
leaving-Goes i s v here = (
  put_idle,
  ground (arith, v.busy i, here),
  record {
    locked = λ j h. ground (arith, here, v.locked j, v.alone i j);
    alone = λ j k h h'. ground (arith, here, v.alone j k);
    owned = λ j h. ground (arith, here, v.owned j, v.alone i j);
    owner = λ j h. ground (arith, here, v.owner j);
    busy = λ j h. ground (arith, here, v.busy j);
    free = λ j h. ground (arith, here, v.free j, v.busy i);
  },
)
  where
    put_idle : Sys
    put_idle = record {
      lock = record s.lock { locked = false };
      cores = update s.cores i (record {
        pc = idle;
        state = record (s.cores i).state { ncli = 0; interrupts = (s.cores i).state.intena };
      });
    }

goes : (i : ℕ) (s : Sys) (pc : Pc) → Inv s → pc_of s i ≡ pc → Goes i s pc
goes i s idle v here = idle-Goes i s v here
goes i s spinning v here = spinning-Goes i s v here
goes i s entering v here = entering-Goes i s v here
goes i s critical v here = critical-Goes i s v here
goes i s leaving v here = leaving-Goes i s v here

-- Whatever CPUs step, and in whatever order, neither `acquire` nor `release` panics, and the
-- invariant holds afterwards: at most one CPU is between the `xchg` that takes the lock and the
-- store that frees it, `locked` is set while one is, `cpu` names it exactly while it is between
-- the two functions, and interrupts are off on every CPU that holds or waits for the lock.
pub run-Inv : (is : List ℕ) (s : Sys) → Inv s → (s' : Sys) × (run is s ≡ returns s') × Inv s'
unfolding run step
run-Inv [] s v = (s, refl, v)
run-Inv (i ∷ is) s v =
    let (s1, e, v1) = goes i s (pc_of s i) v refl in
    let (s2, e', v2) = run-Inv is s1 v1 in (s2, rw e e', v2)

abbrev pub start : Sys
start = record {
  lock = record { locked = false; cpu = none };
  cores = λ i. record { pc = idle; state = record { ncli = 0; intena = false; interrupts = true } };
}

pub start-Inv : Inv start
start-Inv = record {
  locked = λ i h. cc;
  alone = λ i j h h'. cc;
  owned = λ i h. cc;
  owner = λ i h. cc;
  busy = λ i h. cc;
  free = λ i h. refl;
}
