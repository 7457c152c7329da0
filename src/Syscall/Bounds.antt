-- ===== src/Syscall/Bounds.antt =====
-- Pointers and strings that are accepted lie inside the memory of the caller.
use swe3004_operating_system.Prelude.{
  ℕ, zero, suc, ◌+◌, ◌-◌, ◌*◌, ◌<◌, ◌≤◌, ◌^◌, ◌≡◌, ◌≢◌, ◌↔◌, refl, ap, ◌∙◌, inl, inr, Bool, true,
  false, ◌&&◌, ◌||◌, not, Option, none, some, leb, ltb, ◌==◌, if◌then◌else◌, arith, u32, int_lt,
  Bool-cases, Option-cases,
}
use swe3004_operating_system.Syscall.{
  Caller, int_at, fetchint, fetchstr_loop, fetchstr, argint, argptr,
}

-- For a process of at most 2 GB, `fetchint` succeeds exactly for an address whose four bytes all lie
-- in the process, and then with the integer there.
pub fetchint_lem :
    (addr : ℕ) (c : Caller)
    → addr < 2 ^ 32
    → c.sz ≤ 2 ^ 31
    → fetchint addr c ≡ (if leb (addr + 4) c.sz then some (int_at addr c) else none)
unfolding fetchint
fetchint_lem addr c word small = elim (Bool-cases (leb (addr + 4) c.sz)) [
  | inl inside ↦
      let test : (leb c.sz addr || ltb c.sz (u32 (addr + 4))) ≡ false = ground arith in
      rw (inside, test) refl
  | inr outside ↦
      let test : (leb c.sz addr || ltb c.sz (u32 (addr + 4))) ≡ true = ground arith in
      rw (outside, test) refl
]

-- A block of `size` bytes at `p` lies in the process.
abbrev pub is_inside : (p size : ℕ) → Caller → Bool
is_inside p size c = ltb p c.sz && leb (p + size) c.sz

-- What `argptr` makes of the argument.
abbrev checked : (size : ℕ) → Caller → Option ℕ → Option ℕ
checked size c none = none
checked size c (some i) =
    if int_lt size 0 || leb c.sz i || ltb c.sz (u32 (i + size)) then none else some i

argptr-checked : (n size : ℕ) (c : Caller) → argptr n size c ≡ checked size c (argint n c)
unfolding argptr
argptr-checked n size c = elim (Option-cases (argint n c)) [
  | inl e ↦ rw (e, argptr) refl
  | inr (i, e) ↦ rw (e, argptr) refl
]

checked_lem :
    (i size : ℕ) (c : Caller)
    → size < 2 ^ 32
    → c.sz ≤ 2 ^ 31
    → checked size c (some i) ≡ (if not (int_lt size 0) && is_inside i size c then some i else none)
checked_lem i size c word small =
    elim (Bool-cases (int_lt size 0 || leb c.sz i || ltb c.sz (u32 (i + size)))) [
      | inl bad ↦
          let test : (not (int_lt size 0) && is_inside i size c) ≡ false = ground arith in
          rw (bad, test) refl
      | inr good ↦
          let test : (not (int_lt size 0) && is_inside i size c) ≡ true = ground arith in
          rw (good, test) refl
    ]

-- For a process of at most 2 GB, and any argument and size, `argptr` succeeds exactly if the argument
-- itself lies in the process, the size is not negative, and the whole block that the argument points to
-- lies in the process; then the pointer is the argument.
pub argptr_lem :
    (n size : ℕ) (c : Caller)
    → size < 2 ^ 32
    → c.sz ≤ 2 ^ 31
    → let at = u32 (c.esp + 4 + 4 * n) in
      argptr n size c ≡ (
        if leb (at + 4) c.sz
        then (if not (int_lt size 0) && is_inside (int_at at c) size c
            then some (int_at at c)
            else none)
        else none)
unfolding argint
argptr_lem n size c word small =
    let at = u32 (c.esp + 4 + 4 * n) in
    let given =
      argptr-checked n size c ∙ ap (checked size c) (fetchint_lem at c (omega arith) small) in
    elim (Bool-cases (leb (at + 4) c.sz)) [
      | inr outside ↦ given ∙ rw outside refl
      | inl inside ↦ given ∙ rw inside (checked_lem (int_at at c) size c word small)
    ]

-- A string of `n` bytes other than NUL, and its NUL, lie in the process.
abbrev pub IsString : (addr n : ℕ) → Caller → Type 0
IsString addr n c =
    (addr + n < c.sz) × (c.bytes (addr + n) ≡ 0) × ((j : ℕ) → j < n → c.bytes (addr + j) ≢ 0)

-- All bytes before the NUL, from those behind the first.
all_bytes :
    (s m : ℕ) (c : Caller)
    → (c.bytes s == 0) ≡ false
    → ((j : ℕ) → j < m → c.bytes (s + suc j) ≢ 0)
    → (j : ℕ) → j < suc m
    → c.bytes (s + j) ≢ 0
all_bytes s m c byte rest zero h = λ e.
    let start : s + 0 ≡ s = omega arith in let nul : c.bytes s ≡ 0 = rw start at e in ground arith
all_bytes s m c byte rest (suc j) h = rest j (omega arith)

fetchstr_loop_sound :
    (left s k n : ℕ) (c : Caller)
    → fetchstr_loop left s k c ≡ some n
    → (m : ℕ) × (n ≡ k + m)
      × (m < left)
      × (c.bytes (s + m) ≡ 0)
      × ((j : ℕ) → j < m → c.bytes (s + j) ≢ 0)
unfolding fetchstr_loop
fetchstr_loop_sound zero s k n c e = cc
fetchstr_loop_sound (suc left) s k n c e = elim (Bool-cases (c.bytes s == 0)) [
  | inl nul ↦
      let start : s + 0 ≡ s = omega arith in
      (0, ground arith, omega arith, rw start (ground arith), λ j h. absurd (omega arith))
  | inr byte ↦
      let (m, index, small, end, before) =
        fetchstr_loop_sound left (s + 1) (k + 1) n c (rw byte at e) in
      let next : (j : ℕ) → s + 1 + j ≡ s + suc j = λ j. omega arith in
      (
        suc m,
        omega arith,
        omega arith,
        rw (next m) at end,
        λ j h. all_bytes s m c byte (λ j h. rw (next j) at (before j h)) j (omega arith),
      )
]

fetchstr_loop_complete :
    (left s k m : ℕ) (c : Caller)
    → m < left
    → c.bytes (s + m) ≡ 0
    → ((j : ℕ) → j < m → c.bytes (s + j) ≢ 0)
    → fetchstr_loop left s k c ≡ some (k + m)
unfolding fetchstr_loop
fetchstr_loop_complete zero s k m c small end before = absurd (omega arith)
fetchstr_loop_complete (suc left) s k zero c small end before =
    let start : s + 0 ≡ s = omega arith in
    let nul : (c.bytes s == 0) ≡ true = ground (arith, rw start at end) in
    rw nul (ap some (omega arith))
fetchstr_loop_complete (suc left) s k (suc m) c small end before =
    let start : s + 0 ≡ s = omega arith in
    let first : c.bytes s ≢ 0 = rw start at (before 0 (omega arith)) in
    let byte : (c.bytes s == 0) ≡ false = ground arith in
    let next : (j : ℕ) → s + 1 + j ≡ s + suc j = λ j. omega arith in
    let last : k + suc m ≡ k + 1 + m = omega arith in
    rw (byte, last)
      (fetchstr_loop_complete left (s + 1) (k + 1) m c (omega arith) (rw (next m) end)
        (λ j h. rw (next j) (before (suc j) (omega arith))))

-- `fetchstr` gives the address and a length exactly if so many bytes other than NUL and then a NUL lie
-- in the process from that address on.
pub fetchstr_lem :
    (addr n : ℕ) (c : Caller) → (fetchstr addr c ≡ some (addr, n)) ↔ IsString addr n c
unfolding fetchstr
fetchstr_lem addr n c = elim (Bool-cases (leb c.sz addr)) [
  | inl outside ↦ rw outside (λ h. cc, λ (small, _, _). absurd (ground arith))
  | inr inside ↦ rw inside (
    λ h. elim (Option-cases (fetchstr_loop (c.sz - addr) addr 0 c)) [
      | inl nowhere ↦ absurd (ground arith)
      | inr (k, found) ↦
          let same : k ≡ n = ground arith in
          let (m, index, small, end, before) = fetchstr_loop_sound (c.sz - addr) addr 0 k c found in
          let length_ : m ≡ n = omega arith in
          (omega arith, rw length_ at end, λ j h. before j (omega arith))
    ],
    λ (small, end, before).
        rw (fetchstr_loop_complete (c.sz - addr) addr 0 n c (omega arith) end before)
          (ap (λ k. if false then none else some (addr, k)) (omega arith)),
  )
]
