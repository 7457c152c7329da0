-- ===== src/Syscall.antt =====
-- syscall.c: the arguments of a system call, from the caller's memory, and the choice of the call.
-- `*ip`, `*pp` and the result are one result: none for -1, else what is fetched.
pub mod Bounds
pub mod Choice
pub mod Descriptors
use swe3004_operating_system.Prelude.{
  ℕ, zero, suc, ◌+◌, ◌-◌, ◌*◌, ◌^◌, Bool, true, false, not, ◌&&◌, ◌||◌, List, [], ◌∷◌, Option, none,
  some, leb, ltb, ◌==◌, if◌then◌else◌, get_or, u32, int_lt, minus_one,
}

-- What the system calls read of the current process: `sz`, `tf->esp`, the bytes of its memory, and what a
-- read of `ofile` with an index outside the array would give.
pub record Caller : Type 0 where
  pub sz : ℕ
  pub esp : ℕ
  pub bytes : ℕ → ℕ
  pub behind_ofile : ℕ → Option ℕ

-- `*(int*)addr`
abbrev pub int_at : ℕ → Caller → ℕ
int_at addr c =
    c.bytes addr
    + c.bytes (addr + 1) * 2 ^ 8
    + c.bytes (addr + 2) * 2 ^ 16
    + c.bytes (addr + 3) * 2 ^ 24

pub fetchint : ℕ → Caller → Option ℕ
fetchint addr c = if leb c.sz addr || ltb c.sz (u32 (addr + 4)) then none else some (int_at addr c)

-- The loop of `fetchstr`, from `s` on, `left` bytes before the end, with `n` bytes behind it.
pub fetchstr_loop : (left s n : ℕ) → Caller → Option ℕ
fetchstr_loop zero s n c = none
fetchstr_loop (suc left) s n c =
    let rest = fetchstr_loop left (s + 1) (n + 1) c in if c.bytes s == 0 then some n else rest

-- The pointer and the length.
pub fetchstr : ℕ → Caller → Option (ℕ × ℕ)
unfolding fetchstr_loop
fetchstr addr c =
    if leb c.sz addr
    then none
    else elim (fetchstr_loop (c.sz - addr) addr 0 c) [ none ↦ none | some n ↦ some (addr, n) ]

pub argint : ℕ → Caller → Option ℕ
unfolding fetchint
argint n c = fetchint (u32 (c.esp + 4 + 4 * n)) c

pub argptr : (n size : ℕ) → Caller → Option ℕ
unfolding argint
argptr n size c = elim (argint n c) [
  | none ↦ none
  | some i ↦ if int_lt size 0 || leb c.sz i || ltb c.sz (u32 (i + size)) then none else some i
]

pub argstr : ℕ → Caller → Option (ℕ × ℕ)
unfolding argint fetchstr
argstr n c = elim (argint n c) [ none ↦ none | some addr ↦ fetchstr addr c ]

-- The functions that the table names.
pub data Call : Type 0 where
  sys_fork sys_exit sys_wait sys_pipe sys_read sys_kill sys_exec sys_fstat : Call
  sys_chdir sys_dup sys_getpid sys_sbrk sys_sleep sys_uptime sys_open sys_write : Call
  sys_mknod sys_unlink sys_link sys_mkdir sys_close sys_setnice sys_getnice sys_ps : Call

abbrev pub syscalls : List (Option Call)
syscalls =
    none
    ∷ some sys_fork
    ∷ some sys_exit
    ∷ some sys_wait
    ∷ some sys_pipe
    ∷ some sys_read
    ∷ some sys_kill
    ∷ some sys_exec
    ∷ some sys_fstat
    ∷ some sys_chdir
    ∷ some sys_dup
    ∷ some sys_getpid
    ∷ some sys_sbrk
    ∷ some sys_sleep
    ∷ some sys_uptime
    ∷ some sys_open
    ∷ some sys_write
    ∷ some sys_mknod
    ∷ some sys_unlink
    ∷ some sys_link
    ∷ some sys_mkdir
    ∷ some sys_close
    ∷ some sys_setnice
    ∷ some sys_getnice
    ∷ some sys_ps
    ∷ []

-- The numbers of syscall.h.
pub number : Call → ℕ
number sys_fork = 1
number sys_exit = 2
number sys_wait = 3
number sys_pipe = 4
number sys_read = 5
number sys_kill = 6
number sys_exec = 7
number sys_fstat = 8
number sys_chdir = 9
number sys_dup = 10
number sys_getpid = 11
number sys_sbrk = 12
number sys_sleep = 13
number sys_uptime = 14
number sys_open = 15
number sys_write = 16
number sys_mknod = 17
number sys_unlink = 18
number sys_link = 19
number sys_mkdir = 20
number sys_close = 21
number sys_setnice = 22
number sys_getnice = 23
number sys_ps = 24

-- The entry that `syscall` calls, if it calls one.
pub entry : ℕ → Option Call
entry num = if int_lt 0 num && ltb num 25 then get_or syscalls num none else none

-- What the functions of the table do to a state `S` of the kernel, with their result in `eax`; and
-- `cprintf`, which reports the number of an unknown call.
module _ {S : Type 0} (perform : Call → S → ℕ × S) (report : ℕ → S → S) where
  -- The new `eax`, from the old one.
  pub syscall : ℕ → S → ℕ × S
  unfolding entry
  syscall num s = elim (entry num) [ some call ↦ perform call s | none ↦ (minus_one, report num s) ]
