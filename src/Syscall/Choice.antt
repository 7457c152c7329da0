-- ===== src/Syscall/Choice.antt =====
-- The numbers of the calls and the table agree.
use swe3004_operating_system.Prelude.{
  ℕ, zero, suc, ◌+◌, ◌≡◌, ◌≢◌, ◌↔◌, refl, ap, sym, ◌∙◌, inl, inr, ◌&&◌, List, [], ◌∷◌, Option, none,
  some, ltb, arith, get_or, int_lt, minus_one, Bool-cases, Option-cases,
}
use swe3004_operating_system.Syscall.{
  Call, syscalls, number, entry, syscall, sys_fork, sys_exit, sys_wait, sys_pipe, sys_read,
  sys_kill, sys_exec, sys_fstat, sys_chdir, sys_dup, sys_getpid, sys_sbrk, sys_sleep, sys_uptime,
  sys_open, sys_write, sys_mknod, sys_unlink, sys_link, sys_mkdir, sys_close, sys_setnice,
  sys_getnice, sys_ps,
}

entry-number : (call : Call) → entry (number call) ≡ some call
unfolding entry number
entry-number sys_fork = refl
entry-number sys_exit = refl
entry-number sys_wait = refl
entry-number sys_pipe = refl
entry-number sys_read = refl
entry-number sys_kill = refl
entry-number sys_exec = refl
entry-number sys_fstat = refl
entry-number sys_chdir = refl
entry-number sys_dup = refl
entry-number sys_getpid = refl
entry-number sys_sbrk = refl
entry-number sys_sleep = refl
entry-number sys_uptime = refl
entry-number sys_open = refl
entry-number sys_write = refl
entry-number sys_mknod = refl
entry-number sys_unlink = refl
entry-number sys_link = refl
entry-number sys_mkdir = refl
entry-number sys_close = refl
entry-number sys_setnice = refl
entry-number sys_getnice = refl
entry-number sys_ps = refl

-- Each entry of the list is that of its number, from `i` on.
abbrev Numbered : ℕ → List (Option Call) → Type 0
Numbered i [] = Unit {0}
Numbered i (none ∷ es) = Numbered (i + 1) es
Numbered i (some call ∷ es) = (number call ≡ i) × Numbered (i + 1) es

number-get_or :
    (i k : ℕ) (es : List (Option Call)) (call : Call)
    → Numbered i es
    → get_or es k none ≡ some call
    → number call ≡ i + k
number-get_or i k [] call h e = cc
number-get_or i zero (none ∷ es) call h e = cc
number-get_or i (suc k) (none ∷ es) call h e = number-get_or (i + 1) k es call h e ∙ omega arith
number-get_or i zero (some c ∷ es) call h e =
    let same : call ≡ c = ground arith in ap number same ∙ h.0 ∙ omega arith
number-get_or i (suc k) (some c ∷ es) call h e = number-get_or (i + 1) k es call h.1 e ∙ omega arith

syscalls-Numbered : Numbered 0 syscalls
unfolding number
syscalls-Numbered = (
  refl,
  (
    refl,
    (
      refl,
      (
        refl,
        (
          refl,
          (
            refl,
            (
              refl,
              (
                refl,
                (
                  refl,
                  (
                    refl,
                    (
                      refl,
                      (
                        refl,
                        (
                          refl,
                          (
                            refl,
                            (
                              refl,
                              (
                                refl,
                                (refl, (refl, (refl, (refl, (refl, (refl, (refl, (refl, tt)))))))),
                              ),
                            ),
                          ),
                        ),
                      ),
                    ),
                  ),
                ),
              ),
            ),
          ),
        ),
      ),
    ),
  ),
)

-- The table and syscall.h agree: a number selects a call exactly if it is that call's number.
pub entry_iff : (num : ℕ) (call : Call) → (entry num ≡ some call) ↔ (num ≡ number call)
unfolding entry
entry_iff num call = (
  λ h. elim (Bool-cases (int_lt 0 num && ltb num 25)) [
    | inl listed ↦
        let found : get_or syscalls num none ≡ some call = ground arith in
        sym (number-get_or 0 num syscalls call syscalls-Numbered found ∙ omega arith)
    | inr unlisted ↦ absurd (ground arith)
  ],
  λ h. ap entry h ∙ entry-number call,
)

module _ {S : Type 0} (perform : Call → S → ℕ × S) (report : ℕ → S → S) where
  -- For the number of a call, `syscall` performs that call and no other. For any other number it performs
  -- none: the result is -1 and the number is reported.
  pub syscall_lem :
      (num : ℕ) (s : S)
      → ((call : Call) → num ≡ number call → syscall perform report num s ≡ perform call s)
        × (((call : Call) → num ≢ number call)
            → syscall perform report num s ≡ (minus_one, report num s))
  unfolding syscall
  syscall_lem num s = (
    λ call h. rw ((entry_iff num call).1 h, syscall) refl,
    λ h. elim (Option-cases (entry num)) [
      | inl unknown ↦ rw (unknown, syscall) refl
      | inr (call, e) ↦ absurd (h call ((entry_iff num call).0 e))
    ],
  )
