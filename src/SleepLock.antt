-- ===== src/SleepLock.antt =====
-- sleeplock.c: a lock that a process holds while it sleeps. Its spin lock is held around each
-- function here; `pid` is `myproc()->pid`.
pub mod Holders
use swe3004_operating_system.Prelude.{
  ℕ, Bool, true, false, ◌&&◌, Option, none, some, ◌==◌, if◌then◌else◌,
}

-- `struct sleeplock` less its spin lock and its name
pub record SleepLock : Type 0 where
  pub locked : Bool
  pub pid : ℕ

unfoldable pub initsleeplock : SleepLock
initsleeplock = record { locked = false; pid = 0 }

-- One round of the loop of `acquiresleep`, and what is behind it: `none` is a sleep on the lock.
unfoldable pub acquiresleep : (pid : ℕ) → SleepLock → Option SleepLock
acquiresleep pid lk = if lk.locked then none else some (record { locked = true; pid = pid })

-- It wakes up all processes that sleep on the lock.
unfoldable pub releasesleep : SleepLock → SleepLock
releasesleep lk = record { locked = false; pid = 0 }

pub holdingsleep : (pid : ℕ) → SleepLock → Bool
holdingsleep pid lk = lk.locked && (lk.pid == pid)
