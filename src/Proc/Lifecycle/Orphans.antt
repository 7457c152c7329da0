-- ===== src/Proc/Lifecycle/Orphans.antt =====
-- `exit`: nobody is left with the exited process for a parent.
use swe3004_operating_system.Prelude.{
  ℕ, zero, suc, ◌+◌, ◌≤◌, ◌<◌, ◌≡◌, refl, ◌≢◌, ◌∙◌, subst, ap, ap₂, ◌&&◌, ◌||◌, leb, true, inl, inr,
  Bool, false, List, [], ◌∷◌, none, some, ◌==◌, if◌then◌else◌, arith, get_elem?, update_at, length,
  length-update_at, ltb, Bool-cases, Option-cases, returns,
}
use swe3004_operating_system.Proc.{
  zombie, is_state, Chan, slot, Proc, Table, is_parent, parent_chan, wakeup_procs, wakeup1,
}
use swe3004_operating_system.Proc.Lifecycle.Exit.{abandoned, exit_from-returns}
use swe3004_operating_system.Proc.Lifecycle.{
  update_proc, adopt_child, adopt_one, adopt, close_files, exit_from,
}

-- Slot `j` holds a child of slot `cur`.
abbrev pub is_child : ℕ → List Proc → ℕ → Bool
is_child cur ps j = elim (get_elem? ps j) [ none ↦ false | some p ↦ is_parent p.parent cur ]

is_child-wakeup_procs :
    (cur : ℕ) (chan : Chan) (ps : List Proc) (j : ℕ)
    → is_child cur (wakeup_procs chan ps) j ≡ is_child cur ps j
unfolding wakeup_procs
is_child-wakeup_procs cur chan [] j = refl
is_child-wakeup_procs cur chan (p ∷ ps) zero = ground arith
is_child-wakeup_procs cur chan (p ∷ ps) (suc j) = is_child-wakeup_procs cur chan ps j

is_child-update_at :
    (cur : ℕ) (ps : List Proc) (i j : ℕ) (f : Proc → Proc)
    → ((p : Proc) → is_parent (f p).parent cur ≡ is_parent p.parent cur)
    → is_child cur (update_at ps i f) j ≡ is_child cur ps j
is_child-update_at cur [] i j f h = refl
is_child-update_at cur (p ∷ ps) zero zero f h = h p
is_child-update_at cur (p ∷ ps) zero (suc j) f h = refl
is_child-update_at cur (p ∷ ps) (suc i) zero f h = refl
is_child-update_at cur (p ∷ ps) (suc i) (suc j) f h = is_child-update_at cur ps i j f h

is_child-given :
    (cur init : ℕ) (ps : List Proc) (i j : ℕ)
    → cur ≢ init
    → is_child cur (update_at ps i (λ q. record q { parent = some init })) j
      ≡ (if j == i then false else is_child cur ps j)
is_child-given cur init [] i j ne = ground arith
is_child-given cur init (p ∷ ps) zero zero ne = ground arith
is_child-given cur init (p ∷ ps) zero (suc j) ne = ground arith
is_child-given cur init (p ∷ ps) (suc i) zero ne = ground arith
is_child-given cur init (p ∷ ps) (suc i) (suc j) ne =
    is_child-given cur init ps i j ne ∙ ground arith

no_child_here :
    (cur : ℕ) (ps : List Proc) (i j : ℕ)
    → is_child cur ps i ≡ false
    → is_child cur ps j ≡ (if j == i then false else is_child cur ps j)
no_child_here cur ps i j h = elim (Bool-cases (j == i)) [
  | inl same ↦ rw same (ap (is_child cur ps) (ground arith) ∙ h)
  | inr other ↦ rw other
]

initproc-adopt_one : (i cur : ℕ) (t : Table) → (adopt_one i cur t).initproc ≡ t.initproc
unfolding adopt_one wakeup1
initproc-adopt_one i cur t = ground arith

adopt_child_lem :
    (i cur : ℕ) (p : Proc) (t : Table) (j : ℕ)
    → cur ≢ t.initproc
    → is_child cur (adopt_child i p t).procs j ≡ (if j == i then false else is_child cur t.procs j)
unfolding adopt_child wakeup1
adopt_child_lem i cur p t j ne = elim (Bool-cases (is_state p.state zombie)) [
  | inl dead ↦
      rw dead (is_child-wakeup_procs cur _ _ j ∙ is_child-given cur t.initproc t.procs i j ne)
  | inr alive ↦ rw alive (is_child-given cur t.initproc t.procs i j ne)
]

adopt_one_lem :
    (i cur : ℕ) (t : Table) (j : ℕ)
    → cur ≢ t.initproc
    → is_child cur (adopt_one i cur t).procs j ≡ (if j == i then false else is_child cur t.procs j)
unfolding adopt_one
adopt_one_lem i cur t j ne = elim (Option-cases (get_elem? t.procs i)) [
  | inl missing ↦ rw (missing, adopt_one) (no_child_here cur t.procs i j (rw (missing, is_child)))
  | inr (p, there) ↦ elim (Bool-cases (is_parent p.parent cur)) [
    | inl child ↦ rw (there, adopt_one) (rw child (adopt_child_lem i cur p t j ne))
    | inr other ↦
        rw (there, adopt_one)
          (rw other (no_child_here cur t.procs i j (rw (there, is_child) other)))
  ]
]

adopt_lem :
    (left i cur : ℕ) (t : Table) (j : ℕ)
    → cur ≢ t.initproc
    → (j < i → is_child cur t.procs j ≡ false)
    → j < i + left
    → is_child cur (adopt left i cur t).procs j ≡ false
unfolding adopt
adopt_lem zero i cur t j ne done h = done (omega arith)
adopt_lem (suc left) i cur t j ne done h =
    adopt_lem left (i + 1) cur (adopt_one i cur t) j (omega (arith, initproc-adopt_one i cur t))
      (λ k. ground (arith, adopt_one_lem i cur t j ne, done)) (omega arith)

-- What init gets.
is_child-heir :
    (init : ℕ) (ps : List Proc) (i j : ℕ) {p : Proc}
    → get_elem? ps i ≡ some p
    → is_child init (update_at ps i (λ q. record q { parent = some init })) j
      ≡ ((j == i) || is_child init ps j)
is_child-heir init [] i j there = cc
is_child-heir init (p ∷ ps) zero zero there = ground arith
is_child-heir init (p ∷ ps) zero (suc j) there = ground arith
is_child-heir init (p ∷ ps) (suc i) zero there = ground arith
is_child-heir init (p ∷ ps) (suc i) (suc j) there = is_child-heir init ps i j there ∙ ground arith

adopt_child_heir :
    (i : ℕ) (p : Proc) (t : Table) (j : ℕ)
    → get_elem? t.procs i ≡ some p
    → is_child t.initproc (adopt_child i p t).procs j ≡ ((j == i) || is_child t.initproc t.procs j)
unfolding adopt_child wakeup1
adopt_child_heir i p t j there = elim (Bool-cases (is_state p.state zombie)) [
  | inl dead ↦ rw dead (is_child-wakeup_procs _ _ _ j ∙ is_child-heir t.initproc t.procs i j there)
  | inr alive ↦ rw alive (is_child-heir t.initproc t.procs i j there)
]

child_here :
    (cur init : ℕ) (ps : List Proc) (i j : ℕ) (b : Bool)
    → is_child cur ps i ≡ b
    → ((j == i && b) || is_child init ps j) ≡ ((j == i && is_child cur ps j) || is_child init ps j)
child_here cur init ps i j b h = elim (Bool-cases (j == i)) [
  | inl same ↦
      let at : is_child cur ps j ≡ b = ap (is_child cur ps) (ground arith) ∙ h in rw (same, at)
  | inr other ↦ rw other
]

adopt_one_own :
    (i cur : ℕ) (t : Table) (j : ℕ)
    → is_child t.initproc (adopt_one i cur t).procs j
      ≡ ((j == i && is_child cur t.procs j) || is_child t.initproc t.procs j)
unfolding adopt_one
adopt_one_own i cur t j = elim (Option-cases (get_elem? t.procs i)) [
  | inl missing ↦
      rw (missing, adopt_one)
        (ground arith ∙ child_here cur t.initproc t.procs i j false (rw (missing, is_child)))
  | inr (p, there) ↦ elim (Bool-cases (is_parent p.parent cur)) [
    | inl child ↦
        rw (there, adopt_one)
          (rw child (
            adopt_child_heir i p t j there
            ∙ ground arith
            ∙ child_here cur t.initproc t.procs i j true (rw (there, is_child) child)))
    | inr other ↦
        rw (there, adopt_one)
          (rw other (
            ground arith
            ∙ child_here cur t.initproc t.procs i j false (rw (there, is_child) other)))
  ]
]

adopt_one_heir :
    (i cur init : ℕ) (t : Table) (j : ℕ)
    → t.initproc ≡ init
    → is_child init (adopt_one i cur t).procs j
      ≡ ((j == i && is_child cur t.procs j) || is_child init t.procs j)
adopt_one_heir i cur init t j at =
    subst
      (λ who.
        is_child who (adopt_one i cur t).procs j
        ≡ ((j == i && is_child cur t.procs j) || is_child who t.procs j))
      at (adopt_one_own i cur t j)

adopt_heir :
    (left i cur init : ℕ) (t : Table) (j : ℕ)
    → t.initproc ≡ init
    → cur ≢ init
    → is_child init (adopt left i cur t).procs j
      ≡ ((leb i j && (ltb j (i + left) && is_child cur t.procs j)) || is_child init t.procs j)
unfolding adopt
adopt_heir zero i cur init t j at ne = ground arith
adopt_heir (suc left) i cur init t j at ne =
    let mine : is_child cur (adopt_one i cur t).procs j
        ≡ (if j == i then false else is_child cur t.procs j) =
      adopt_one_lem i cur t j (λ e. ne (e ∙ at)) in
    let its : is_child init (adopt_one i cur t).procs j
        ≡ ((j == i && is_child cur t.procs j) || is_child init t.procs j) =
      adopt_one_heir i cur init t j at in
    adopt_heir left (i + 1) cur init (adopt_one i cur t) j (initproc-adopt_one i cur t ∙ at) ne
    ∙ rw (mine, its) (ground arith)

length-wakeup_procs : (chan : Chan) (ps : List Proc) → length (wakeup_procs chan ps) ≡ length ps
unfolding wakeup_procs
length-wakeup_procs chan [] = refl
length-wakeup_procs chan (p ∷ ps) = ap suc (length-wakeup_procs chan ps)

past_end : (cur : ℕ) (ps : List Proc) (j : ℕ) → length ps ≤ j → is_child cur ps j ≡ false
past_end cur [] j h = refl
past_end cur (p ∷ ps) zero h = absurd (omega arith)
past_end cur (p ∷ ps) (suc j) h = past_end cur ps j (omega arith)

length-adopt_one : (i cur : ℕ) (t : Table) → length (adopt_one i cur t).procs ≡ length t.procs
unfolding adopt_one adopt_child wakeup1
length-adopt_one i cur t = ground (
  arith,
  length-update_at t.procs i (λ q. record q { parent = some t.initproc }),
  length-wakeup_procs (slot t.initproc)
      (update_at t.procs i (λ q. record q { parent = some t.initproc })),
)

length-adopt : (left i cur : ℕ) (t : Table) → length (adopt left i cur t).procs ≡ length t.procs
unfolding adopt
length-adopt zero i cur t = refl
length-adopt (suc left) i cur t =
    length-adopt left (i + 1) cur (adopt_one i cur t) ∙ length-adopt_one i cur t

adopt_all :
    (cur : ℕ) (t : Table) (j : ℕ)
    → cur ≢ t.initproc
    → is_child cur (adopt (length t.procs) 0 cur t).procs j ≡ false
adopt_all cur t j ne = elim (Bool-cases (ltb j (length t.procs))) [
  | inl inside ↦ adopt_lem (length t.procs) 0 cur t j ne (λ h. absurd (omega arith)) (ground arith)
  | inr outside ↦
      past_end cur (adopt (length t.procs) 0 cur t).procs j
        (ground (arith, length-adopt (length t.procs) 0 cur t))
]

initproc-abandoned :
    (cur : ℕ) (c : Proc) (t : Table)
    → cur ≢ t.initproc
    → (j : ℕ) → is_child cur (abandoned cur c t).procs j ≡ false
unfolding abandoned wakeup1
initproc-abandoned cur c t ne j =
    adopt_all cur (wakeup1 (parent_chan c.parent) (update_proc cur close_files t)) j ne

adopt_all_heir :
    (cur : ℕ) (t : Table) (j : ℕ)
    → cur ≢ t.initproc
    → is_child t.initproc (adopt (length t.procs) 0 cur t).procs j
      ≡ (is_child cur t.procs j || is_child t.initproc t.procs j)
adopt_all_heir cur t j ne =
    adopt_heir (length t.procs) 0 cur t.initproc t j refl ne
    ∙ elim (Bool-cases (ltb j (length t.procs))) [
      | inl inside ↦ ground arith
      | inr outside ↦ ground (arith, past_end cur t.procs j (ground arith))
    ]

is_child-before :
    (who cur : ℕ) (c : Proc) (t : Table) (j : ℕ)
    → is_child who (wakeup1 (parent_chan c.parent) (update_proc cur close_files t)).procs j
      ≡ is_child who t.procs j
unfolding wakeup1 close_files
is_child-before who cur c t j =
    is_child-wakeup_procs who _ _ j ∙ is_child-update_at who t.procs cur j close_files (λ p. refl)

abandoned_heir :
    (cur : ℕ) (c : Proc) (t : Table)
    → cur ≢ t.initproc
    → (j : ℕ)
    → is_child t.initproc (abandoned cur c t).procs j
      ≡ (is_child cur t.procs j || is_child t.initproc t.procs j)
unfolding abandoned wakeup1
abandoned_heir cur c t ne j =
    adopt_all_heir cur (wakeup1 (parent_chan c.parent) (update_proc cur close_files t)) j ne
    ∙ ap₂ ◌||◌ (is_child-before cur cur c t j) (is_child-before t.initproc cur c t j)

-- When `exit` of any process leaves the processor, no slot has it for a parent any more, and the
-- slots that have init for a parent are those that had it and those that had the exiting process:
-- its children, zombies or not, have been handed on.
pub exit_orphans :
    (cur : ℕ) (c : Proc) (t : Table) (closed : List ℕ) (u : Table) (j : ℕ)
    → exit_from cur c t ≡ returns (closed, u)
    → (is_child cur u.procs j ≡ false)
      × (is_child t.initproc u.procs j ≡ (is_child cur t.procs j || is_child t.initproc t.procs j))
exit_orphans cur c t closed u j e =
    let (ne, same) = exit_from-returns cur c t e in
    rw same (
      is_child-update_at cur (abandoned cur c t).procs cur j (λ p. record p { state = zombie })
            (λ p. refl)
          ∙ initproc-abandoned cur c t ne j,
      is_child-update_at t.initproc (abandoned cur c t).procs cur j
            (λ p. record p { state = zombie }) (λ p. refl)
          ∙ abandoned_heir cur c t ne j,
    )
