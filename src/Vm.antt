-- ===== src/Vm.antt =====
-- vm.c: page tables in the kernel's memory, which is read and written by words, as in kalloc.c.
pub mod Flags
pub mod Entries
pub mod Growth
pub mod Spare
pub mod Mapping
pub mod Lookup
pub mod Ranges
use swe3004_operating_system.Prelude.{
  ℕ, zero, suc, ◌+◌, ◌-◌, ◌*◌, ◌/◌, ◌%◌, ◌^◌, Bool, true, false, not, ◌&&◌, ◌||◌, ltb, leb, ◌==◌,
  if◌then◌else◌, update, u32, sub32, Outcome, returns, panics,
}
use swe3004_operating_system.Kalloc.{Kmem, page_size, kern_base, kalloc}

-- mmu.h and memlayout.h
abbrev pub pdx : ℕ → ℕ
pdx va = va / 2 ^ 22 % 1024

abbrev pub ptx : ℕ → ℕ
ptx va = va / 2 ^ 12 % 1024

abbrev pub page_down : ℕ → ℕ
page_down a = a / page_size * page_size

-- `PTE_P`, `PTE_U`, and `PTE_W | PTE_P | PTE_U`
abbrev pub is_present : ℕ → Bool
is_present e = e % 2 == 1

abbrev pub is_user : ℕ → Bool
is_user e = e / 4 % 2 == 1

abbrev pub pte_all : ℕ
pte_all = 7

abbrev pub pte_addr : ℕ → ℕ
pte_addr e = e / page_size * page_size

abbrev pub v2p : ℕ → ℕ
v2p a = sub32 a kern_base

abbrev pub p2v : ℕ → ℕ
p2v a = u32 (a + kern_base)

-- `memset(pgtab, 0, PGSIZE)`
unfoldable pub zero_page : ℕ → (ℕ → ℕ) → ℕ → ℕ
zero_page v memory a = if leb v a && ltb a (v + page_size) then 0 else memory a

-- `a | b`, bit by bit. 32 rounds use up two words of 32 bits, and then nothing is left to add.
pub or_bits : (rounds a b : ℕ) → ℕ
or_bits zero a b = a + b
or_bits (suc rounds) a b =
    let rest = or_bits rounds (a / 2) (b / 2) in
    (if (a % 2 == 0) && (b % 2 == 0) then 0 else 1) + 2 * rest

-- The address of the entry, or 0 for the null pointer.
unfoldable pub walkpgdir : (pgdir va : ℕ) (alloc : Bool) → Kmem → ℕ × Kmem
walkpgdir pgdir va alloc k =
    let pde = pgdir + 4 * pdx va in
    let (pgtab, k') = kalloc k in
    if is_present (k.memory pde)
    then (p2v (pte_addr (k.memory pde)) + 4 * ptx va, k)
    else if not alloc
    then (0, k)
    else if pgtab == 0
    then (0, k')
    else (
      pgtab + 4 * ptx va,
      record k' {
        memory = update (zero_page pgtab k'.memory) pde (or_bits 32 (v2p pgtab) pte_all);
      },
    )

-- `pa | perm | PTE_P`
unfoldable pub pte : (pa perm : ℕ) → ℕ
unfolding or_bits
pte pa perm = or_bits 32 (or_bits 32 pa perm) 1

-- The loop of `mappages`, with at most `fuel` rounds; true for the result 0.
pub map_from : (fuel pgdir a last pa perm : ℕ) → Kmem → Outcome (Bool × Kmem)
map_from zero pgdir a last pa perm k = panics
map_from (suc fuel) pgdir a last pa perm k =
    let (at, k') = walkpgdir pgdir a true k in
    let k'' = record k' { memory = update k'.memory at (pte pa perm) } in
    let rest = map_from fuel pgdir (u32 (a + page_size)) last (u32 (pa + page_size)) perm k'' in
    if at == 0
    then returns (false, k')
    else if is_present (k'.memory at)
    then panics
    else if a == last
    then returns (true, k'')
    else rest

-- There are 2 ^ 20 pages.
pub mappages : (pgdir va size pa perm : ℕ) → Kmem → Outcome (Bool × Kmem)
unfolding map_from
mappages pgdir va size pa perm k =
    map_from (2 ^ 20) pgdir (page_down va) (page_down (sub32 (u32 (va + size)) 1)) pa perm k

-- The kernel address of a user page, or 0. The code reads through `pte` also where it is null.
unfoldable pub uva2ka : (pgdir uva : ℕ) → Kmem → ℕ
uva2ka pgdir uva k =
    let (at, _) = walkpgdir pgdir uva false k in
    if not (is_present (k.memory at)) || not (is_user (k.memory at))
    then 0
    else p2v (pte_addr (k.memory at))
