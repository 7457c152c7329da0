-- ===== src/Proc/Nice.antt =====
-- `setnice` and `getnice`, as a client sees them.
use swe3004_operating_system.Prelude.{
  ℕ, ◌<◌, ◌^◌, ◌≡◌, Bool, false, not, ◌&&◌, ◌||◌, List, [], ◌∷◌, ◌==◌, leb, if◌then◌else◌, arith,
  minus_one,
}
use swe3004_operating_system.Proc.{Proc, Table, setnice_procs, setnice, getnice_procs, getnice}

-- Some slot has this pid; pid 0 stands for no process.
abbrev pub has_pid : ℕ → List Proc → Bool
has_pid pid [] = false
has_pid pid (p ∷ ps) = (pid == p.pid && not (pid == 0)) || has_pid pid ps

setnice_procs_lem :
    (pid nice q : ℕ) (ps : List Proc)
    → let (r, ps') = setnice_procs pid nice ps in
      (r ≡ (if has_pid pid ps then 0 else minus_one))
      × (getnice_procs q ps' ≡ (if has_pid pid ps && (q == pid) then nice else getnice_procs q ps))
unfolding setnice_procs getnice_procs
setnice_procs_lem pid nice q [] = ground arith
setnice_procs_lem pid nice q (p ∷ ps) = ground (arith, setnice_procs_lem pid nice q ps)

abbrev pub is_valid_nice : ℕ → Bool
is_valid_nice nice = leb nice 39

-- For any two pids, valid or not, and any `int` pattern as the nice value: `setnice` succeeds exactly
-- for a value from 0 to 39 and a pid other than 0 that some slot has, whether the slot is in use or
-- not; then `getnice` of that pid
-- gives the new value, and of any other pid what it gave before. A call that fails returns -1 and
-- changes nothing that `getnice` shows.
pub getnice-setnice :
    (pid nice q : ℕ) (t : Table)
    → nice < 2 ^ 32
    → let done = is_valid_nice nice && has_pid pid t.procs in
      let (r, t') = setnice pid nice t in
      (r ≡ (if done then 0 else minus_one))
      × (getnice q t' ≡ (if done && (q == pid) then nice else getnice q t))
unfolding setnice getnice
getnice-setnice pid nice q t small = ground (arith, setnice_procs_lem pid nice q t.procs)
