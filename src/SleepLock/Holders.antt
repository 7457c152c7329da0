-- ===== src/SleepLock/Holders.antt =====
-- One process at a time holds a sleep lock.
use swe3004_operating_system.Prelude.{
  ℕ, ◌≡◌, refl, Bool, true, false, ◌||◌, List, [], ◌∷◌, some, ◌==◌, arith, length, ◌≤◌,
}
use swe3004_operating_system.SleepLock.{
  SleepLock, initsleeplock, acquiresleep, releasesleep, holdingsleep,
}

-- A lock, and the pids of the processes between their `acquiresleep` and their `releasesleep`.
pub record Sys : Type 0 where
  pub lock : SleepLock
  pub holders : List ℕ

-- A process that gets the lock, or one that has found itself the holder, as `bwrite` and `brelse`
-- do, and gives it up.
pub data Step (s t : Sys) : Type 0 where
  acquires :
      (pid : ℕ) → acquiresleep pid s.lock ≡ some t.lock → t.holders ≡ pid ∷ s.holders → Step s t
  releases :
      (pid : ℕ) (rest : List ℕ)
      → s.holders ≡ pid ∷ rest
      → t.lock ≡ releasesleep s.lock
      → t.holders ≡ rest
      → Step s t

pub data Run (s : Sys) : Sys → Type 0 where
  here : Run s s
  then_step : {t u : Sys} → Run s t → Step t u → Run s u

abbrev pub start : Sys
start = record { lock = initsleeplock; holders = [] }

abbrev Agrees : SleepLock → List ℕ → Type 0
Agrees lk [] = lk.locked ≡ false
Agrees lk (pid ∷ []) = (lk.locked ≡ true) × (lk.pid ≡ pid)
Agrees lk (pid ∷ other ∷ rest) = ⊥

acquires-Agrees :
    (pid : ℕ) (lk lk' : SleepLock) (holders : List ℕ)
    → Agrees lk holders
    → acquiresleep pid lk ≡ some lk'
    → Agrees lk' (pid ∷ holders)
unfolding acquiresleep
acquires-Agrees pid lk lk' [] v e = ground arith
acquires-Agrees pid lk lk' (p ∷ []) v e = absurd (ground arith)
acquires-Agrees pid lk lk' (p ∷ q ∷ rest) v e = absurd v

releases-Agrees :
    (pid : ℕ) (lk : SleepLock) (rest : List ℕ)
    → Agrees lk (pid ∷ rest)
    → Agrees (releasesleep lk) rest
unfolding releasesleep
releases-Agrees pid lk [] v = refl
releases-Agrees pid lk (q ∷ rest) v = absurd v

Run-Agrees : {t : Sys} → Run start t → Agrees t.lock t.holders
unfolding initsleeplock
Run-Agrees here = refl
Run-Agrees (then_step {t} {u} r (acquires pid e h)) =
    rw h (acquires-Agrees pid t.lock u.lock t.holders (Run-Agrees r) e)
Run-Agrees (then_step {t} {u} r (releases pid rest held e h)) =
    rw (e, h) (releases-Agrees pid t.lock rest (rw held at (Run-Agrees r)))

abbrev pub is_holder : ℕ → List ℕ → Bool
is_holder pid [] = false
is_holder pid (p ∷ holders) = (p == pid) || is_holder pid holders

holding_one :
    (pid : ℕ) (lk : SleepLock) (holders : List ℕ)
    → Agrees lk holders
    → (length holders ≤ 1) × (holdingsleep pid lk ≡ is_holder pid holders)
unfolding holdingsleep
holding_one pid lk [] v = (omega arith, ground arith)
holding_one pid lk (p ∷ []) v = (omega arith, ground arith)
holding_one pid lk (p ∷ q ∷ rest) v = absurd v

-- From a fresh lock on, in any order of processes that acquire and release it, at most one has the
-- lock, and `holdingsleep` says exactly of that one that it has.
pub holdingsleep-Run :
    (pid : ℕ) (t : Sys)
    → Run start t
    → (length t.holders ≤ 1) × (holdingsleep pid t.lock ≡ is_holder pid t.holders)
holdingsleep-Run pid t r = holding_one pid t.lock t.holders (Run-Agrees r)
