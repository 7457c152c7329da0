-- ===== src/Spinlock/Nesting.antt =====
-- `pushcli` and `popcli` are matched.
use swe3004_operating_system.Prelude.{
  ℕ, zero, suc, ◌<◌, ◌≡◌, refl, false, ◌==◌, if◌then◌else◌, arith, Outcome, returns, ◌>>=◌,
}
use swe3004_operating_system.Spinlock.{Cpu, pushcli, popcli}

-- Interrupts are off while a `pushcli` is outstanding.
abbrev pub IsBalanced : Cpu → Type 0
IsBalanced c = 0 < c.ncli → c.interrupts ≡ false

abbrev pub push_all : ℕ → Cpu → Cpu
push_all zero c = c
push_all (suc n) c = push_all n (pushcli c)

abbrev pub pop_all : ℕ → Cpu → Outcome Cpu
pop_all zero c = returns c
pop_all (suc n) c = pop_all n c >>= popcli

popcli-pushcli :
    (c : Cpu)
    → IsBalanced c
    → popcli (pushcli c)
      ≡ returns (record c { intena = if c.ncli == 0 then c.interrupts else c.intena })
unfolding popcli pushcli
popcli-pushcli c b = ground arith

pushcli-IsBalanced : (c : Cpu) → IsBalanced (pushcli c)
unfolding pushcli
pushcli-IsBalanced c h = refl

-- A matched pair inside another leaves `intena` alone.
popcli_after :
    (c : Cpu)
    → IsBalanced c
    → let c' = pushcli c in
      popcli (record c' { intena = if c'.ncli == 0 then c'.interrupts else c'.intena })
      ≡ returns (record c { intena = if c.ncli == 0 then c.interrupts else c.intena })
unfolding popcli pushcli
popcli_after c b = ground arith

-- Any number of `pushcli`, followed by as many `popcli`, ends without a panic and leaves the depth
-- and the interrupt flag as they were, whether interrupts were on or off before.
pub pop_all-push_all :
    (n : ℕ) (c : Cpu)
    → IsBalanced c
    → pop_all (suc n) (push_all (suc n) c)
      ≡ returns (record c { intena = if c.ncli == 0 then c.interrupts else c.intena })
pop_all-push_all zero c b = popcli-pushcli c b
pop_all-push_all (suc n) c b =
    rw (pop_all-push_all n (pushcli c) (pushcli-IsBalanced c)) (popcli_after c b)
