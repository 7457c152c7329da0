-- ===== src/Proc/Pids.antt =====
-- Process ids: two live slots of the table never have the same one.
use swe3004_operating_system.Prelude.{
  ℕ, zero, suc, ◌+◌, ◌<◌, ◌≡◌, refl, ◌≢◌, ◌∙◌, sym, inl, inr, not, ◌&&◌, Bool-cases, false, List,
  [], ◌∷◌, some, ◌==◌, arith, get_elem?, update_at,
}
use swe3004_operating_system.Proc.{
  unused, is_state, Chan, Proc, wakeup_procs, kill_procs, setnice_procs,
}

abbrev pub IsLive : Proc → Type 0
IsLive p = is_state p.state unused ≡ false

-- Every live slot has a positive pid below `n`.
abbrev pub Below : ℕ → List Proc → Type 0
Below n [] = Unit {0}
Below n (p ∷ ps) = (IsLive p → (0 < p.pid) × (p.pid < n)) × Below n ps

-- No live slot has this pid.
abbrev pub Apart : ℕ → List Proc → Type 0
Apart pid [] = Unit {0}
Apart pid (p ∷ ps) = (IsLive p → p.pid ≢ pid) × Apart pid ps

abbrev pub Distinct : List Proc → Type 0
Distinct [] = Unit {0}
Distinct (p ∷ ps) = (IsLive p → Apart p.pid ps) × Distinct ps

-- A live slot was live before, with the same pid.
abbrev pub Tame : Proc → Proc → Type 0
Tame p p' = IsLive p' → IsLive p × (p'.pid ≡ p.pid)

abbrev pub AllTame : List Proc → List Proc → Type 0
AllTame [] [] = Unit {0}
AllTame [] (p' ∷ ps') = ⊥
AllTame (p ∷ ps) [] = ⊥
AllTame (p ∷ ps) (p' ∷ ps') = Tame p p' × AllTame ps ps'

pub AllTame-refl : (ps : List Proc) → AllTame ps ps
AllTame-refl [] = tt
AllTame-refl (p ∷ ps) = (λ l. (l, refl), AllTame-refl ps)

pub AllTame-trans : (ps qs rs : List Proc) → AllTame ps qs → AllTame qs rs → AllTame ps rs
AllTame-trans [] [] [] h k = tt
AllTame-trans [] [] (r ∷ rs) h k = absurd k
AllTame-trans [] (q ∷ qs) rs h k = absurd h
AllTame-trans (p ∷ ps) [] rs h k = absurd h
AllTame-trans (p ∷ ps) (q ∷ qs) [] h k = absurd k
AllTame-trans (p ∷ ps) (q ∷ qs) (r ∷ rs) h k =
    (λ l. ground (arith, k.0 l, h.0), AllTame-trans ps qs rs h.1 k.1)

pub Below-tame : (n : ℕ) (ps qs : List Proc) → AllTame ps qs → Below n ps → Below n qs
Below-tame n [] [] h b = tt
Below-tame n [] (q ∷ qs) h b = absurd h
Below-tame n (p ∷ ps) [] h b = absurd h
Below-tame n (p ∷ ps) (q ∷ qs) h b = (λ l. ground (arith, h.0 l, b.0), Below-tame n ps qs h.1 b.1)

pub Apart-tame : (pid : ℕ) (ps qs : List Proc) → AllTame ps qs → Apart pid ps → Apart pid qs
Apart-tame pid [] [] h b = tt
Apart-tame pid [] (q ∷ qs) h b = absurd h
Apart-tame pid (p ∷ ps) [] h b = absurd h
Apart-tame pid (p ∷ ps) (q ∷ qs) h b =
    (λ l. ground (arith, h.0 l, b.0), Apart-tame pid ps qs h.1 b.1)

pub Distinct-tame : (ps qs : List Proc) → AllTame ps qs → Distinct ps → Distinct qs
Distinct-tame [] [] h d = tt
Distinct-tame [] (q ∷ qs) h d = absurd h
Distinct-tame (p ∷ ps) [] h d = absurd h
Distinct-tame (p ∷ ps) (q ∷ qs) h d = (
  λ l. let (live, same) = h.0 l in rw same (Apart-tame p.pid ps qs h.1 (d.0 live)),
  Distinct-tame ps qs h.1 d.1,
)

pub AllTame-update_at :
    (ps : List Proc) (i : ℕ) (f : Proc → Proc)
    → ((p : Proc) → get_elem? ps i ≡ some p → Tame p (f p))
    → AllTame ps (update_at ps i f)
AllTame-update_at [] i f h = tt
AllTame-update_at (p ∷ ps) zero f h = (h p refl, AllTame-refl ps)
AllTame-update_at (p ∷ ps) (suc i) f h = (λ l. (l, refl), AllTame-update_at ps i f h)

-- A slot that gets a pid above all others.
Below-Apart : (n : ℕ) (ps : List Proc) → Below n ps → Apart n ps
Below-Apart n [] b = tt
Below-Apart n (p ∷ ps) b = (λ l. omega (arith, b.0 l), Below-Apart n ps b.1)

Apart-update_at :
    (pid n : ℕ) (ps : List Proc) (i : ℕ) (f : Proc → Proc)
    → pid ≢ n
    → ((p : Proc) → (f p).pid ≡ n)
    → Apart pid ps
    → Apart pid (update_at ps i f)
Apart-update_at pid n [] i f ne h a = tt
Apart-update_at pid n (p ∷ ps) zero f ne h a = (λ l. omega (arith, h p), a.1)
Apart-update_at pid n (p ∷ ps) (suc i) f ne h a = (a.0, Apart-update_at pid n ps i f ne h a.1)

pub Distinct-fresh :
    (n : ℕ) (ps : List Proc) (i : ℕ) (f : Proc → Proc)
    → ((p : Proc) → (f p).pid ≡ n)
    → Below n ps
    → Distinct ps
    → Distinct (update_at ps i f)
Distinct-fresh n [] i f h b d = tt
Distinct-fresh n (p ∷ ps) zero f h b d = (λ l. rw (h p) (Below-Apart n ps b.1), d.1)
Distinct-fresh n (p ∷ ps) (suc i) f h b d = (
  λ l. Apart-update_at p.pid n ps i f (omega (arith, b.0 l)) h (d.0 l),
  Distinct-fresh n ps i f h b.1 d.1,
)

Below-suc : (n : ℕ) (ps : List Proc) → Below n ps → Below (n + 1) ps
Below-suc n [] b = tt
Below-suc n (p ∷ ps) b = (λ l. omega (arith, b.0 l), Below-suc n ps b.1)

pub Below-fresh :
    (n : ℕ) (ps : List Proc) (i : ℕ) (f : Proc → Proc)
    → ((p : Proc) → (f p).pid ≡ n)
    → 0 < n
    → Below n ps
    → Below (n + 1) (update_at ps i f)
Below-fresh n [] i f h pos b = tt
Below-fresh n (p ∷ ps) zero f h pos b = (λ l. omega (arith, h p), Below-suc n ps b.1)
Below-fresh n (p ∷ ps) (suc i) f h pos b =
    (λ l. omega (arith, b.0 l), Below-fresh n ps i f h pos b.1)

-- The same liveness and pid: what waking and adopting leave of a slot.
abbrev pub Alike : Proc → Proc → Type 0
Alike p p' = (is_state p'.state unused ≡ is_state p.state unused) × (p'.pid ≡ p.pid)

abbrev pub AllAlike : List Proc → List Proc → Type 0
AllAlike [] [] = Unit {0}
AllAlike [] (p' ∷ ps') = ⊥
AllAlike (p ∷ ps) [] = ⊥
AllAlike (p ∷ ps) (p' ∷ ps') = Alike p p' × AllAlike ps ps'

pub AllAlike-refl : (ps : List Proc) → AllAlike ps ps
AllAlike-refl [] = tt
AllAlike-refl (p ∷ ps) = ((refl, refl), AllAlike-refl ps)

pub AllAlike-trans : (ps qs rs : List Proc) → AllAlike ps qs → AllAlike qs rs → AllAlike ps rs
AllAlike-trans [] [] [] h k = tt
AllAlike-trans [] [] (r ∷ rs) h k = absurd k
AllAlike-trans [] (q ∷ qs) rs h k = absurd h
AllAlike-trans (p ∷ ps) [] rs h k = absurd h
AllAlike-trans (p ∷ ps) (q ∷ qs) [] h k = absurd k
AllAlike-trans (p ∷ ps) (q ∷ qs) (r ∷ rs) h k =
    ((k.0.0 ∙ h.0.0, k.0.1 ∙ h.0.1), AllAlike-trans ps qs rs h.1 k.1)

pub AllAlike-Tame : (ps qs : List Proc) → AllAlike ps qs → AllTame ps qs
AllAlike-Tame [] [] h = tt
AllAlike-Tame [] (q ∷ qs) h = absurd h
AllAlike-Tame (p ∷ ps) [] h = absurd h
AllAlike-Tame (p ∷ ps) (q ∷ qs) h = (λ l. (sym h.0.0 ∙ l, h.0.1), AllAlike-Tame ps qs h.1)

pub AllAlike-update_at :
    (ps : List Proc) (i : ℕ) (f : Proc → Proc)
    → ((p : Proc) → Alike p (f p))
    → AllAlike ps (update_at ps i f)
AllAlike-update_at [] i f h = tt
AllAlike-update_at (p ∷ ps) zero f h = (h p, AllAlike-refl ps)
AllAlike-update_at (p ∷ ps) (suc i) f h = ((refl, refl), AllAlike-update_at ps i f h)

-- A slot that was live is live.
pub AllAlike-IsLive :
    (ps qs : List Proc) (i : ℕ) {p q : Proc}
    → AllAlike ps qs
    → get_elem? ps i ≡ some p
    → IsLive p
    → get_elem? qs i ≡ some q
    → IsLive q
AllAlike-IsLive [] [] i h e l e' = cc
AllAlike-IsLive [] (q ∷ qs) i h e l e' = absurd h
AllAlike-IsLive (p ∷ ps) [] i h e l e' = absurd h
AllAlike-IsLive (p ∷ ps) (q ∷ qs) zero h e l e' = ground (arith, h.0)
AllAlike-IsLive (p ∷ ps) (q ∷ qs) (suc i) h e l e' = AllAlike-IsLive ps qs i h.1 e l e'

pub wakeup_procs-AllAlike : (chan : Chan) (ps : List Proc) → AllAlike ps (wakeup_procs chan ps)
unfolding wakeup_procs
wakeup_procs-AllAlike chan [] = tt
wakeup_procs-AllAlike chan (p ∷ ps) = (ground arith, wakeup_procs-AllAlike chan ps)

pub kill_procs-AllAlike : (pid : ℕ) (ps : List Proc) → AllAlike ps (kill_procs pid ps).1
unfolding kill_procs
kill_procs-AllAlike pid [] = tt
kill_procs-AllAlike pid (p ∷ ps) = elim (Bool-cases (p.pid == pid)) [
  | inl hit ↦ rw hit ((ground arith, refl), AllAlike-refl ps)
  | inr miss ↦ rw miss ((refl, refl), kill_procs-AllAlike pid ps)
]

pub setnice_procs-AllAlike :
    (pid nice : ℕ) (ps : List Proc) → AllAlike ps (setnice_procs pid nice ps).1
unfolding setnice_procs
setnice_procs-AllAlike pid nice [] = tt
setnice_procs-AllAlike pid nice (p ∷ ps) = elim (Bool-cases (pid == p.pid && not (pid == 0))) [
  | inl hit ↦ rw hit ((refl, refl), AllAlike-refl ps)
  | inr miss ↦ rw miss ((refl, refl), setnice_procs-AllAlike pid nice ps)
]
