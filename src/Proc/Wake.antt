-- ===== src/Proc/Wake.antt =====
-- `wakeup1`, `wakeup` and `kill`: whom they wake.
use swe3004_operating_system.Prelude.{
  ℕ, zero, suc, ◌≡◌, refl, ◌&&◌, List, [], ◌∷◌, if◌then◌else◌, get_elem?,
}
use mathlib.Core.Option
use swe3004_operating_system.Proc.{
  sleeping, runnable, is_state, Chan, same_chan, Proc, wakeup_procs,
}

-- What `wakeup1` does to one slot.
abbrev pub woken : Chan → Proc → Proc
woken chan p =
    if is_state p.state sleeping && same_chan p.chan chan then record p { state = runnable } else p

pub get_elem?-wakeup_procs :
    (chan : Chan) (ps : List Proc) (i : ℕ)
    → get_elem? (wakeup_procs chan ps) i ≡ Option.map (woken chan) (get_elem? ps i)
unfolding wakeup_procs
get_elem?-wakeup_procs chan [] i = refl
get_elem?-wakeup_procs chan (p ∷ ps) zero = refl
get_elem?-wakeup_procs chan (p ∷ ps) (suc i) = get_elem?-wakeup_procs chan ps i
