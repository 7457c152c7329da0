-- ===== src/Kalloc.antt =====
-- kalloc.c: free pages, linked through their own first words. `kmem.lock` is the callers' (it is
-- taken around the three assignments, once `use_lock` is set). Memory is read and written by words.
pub mod FreeList
use swe3004_operating_system.Prelude.{
  ℕ, zero, suc, ◌+◌, ◌-◌, ◌*◌, ◌/◌, ◌%◌, ◌^◌, Bool, true, false, not, ◌&&◌, ◌||◌, ltb, leb, ◌==◌,
  if◌then◌else◌, update, u32, sub32, Outcome, returns, panics, ◌>>=◌,
}

-- mmu.h and memlayout.h
abbrev pub page_size : ℕ
page_size = 4096

abbrev pub kern_base : ℕ
kern_base = 0x80000000

abbrev pub phys_stop : ℕ
phys_stop = 0xE000000

-- `kmem`, and the memory whose pages it links.
pub record Kmem : Type 0 where
  pub memory : ℕ → ℕ
  pub use_lock : Bool
  pub freelist : ℕ

-- The words that `memset(v, 1, PGSIZE)` leaves.
abbrev pub junk : ℕ
junk = 0x01010101

pub fill_page : ℕ → (ℕ → ℕ) → ℕ → ℕ
fill_page v memory a = if leb v a && ltb a (v + page_size) then junk else memory a

-- `kernel_end` is the address of the linker's symbol `end`.
module _ (kernel_end : ℕ) where
  unfoldable pub is_bad_page : ℕ → Bool
  is_bad_page v = not (v % page_size == 0) || ltb v kernel_end || leb phys_stop (sub32 v kern_base)

  pub kfree : ℕ → Kmem → Outcome Kmem
  unfolding fill_page is_bad_page
  kfree v k =
      if is_bad_page v
      then panics
      else returns (record k { memory = update (fill_page v k.memory) v k.freelist; freelist = v })

  -- The loop of `freerange`, with at most `fuel` rounds.
  pub freerange_from : (fuel p vend : ℕ) → Kmem → Outcome Kmem
  unfolding kfree
  freerange_from zero p vend k = returns k
  freerange_from (suc fuel) p vend k =
      let rest = kfree p k >>= freerange_from fuel (u32 (p + page_size)) vend in
      if leb (u32 (p + page_size)) vend then rest else returns k

  -- `PGROUNDUP(vstart)`; there are fewer than 2 ^ 20 pages.
  pub freerange : (vstart vend : ℕ) → Kmem → Outcome Kmem
  unfolding freerange_from
  freerange vstart vend k =
      freerange_from (2 ^ 20) (u32 (vstart + page_size - 1) / page_size * page_size) vend k

  pub kinit1 : (vstart vend : ℕ) → Kmem → Outcome Kmem
  unfolding freerange
  kinit1 vstart vend k = freerange vstart vend (record k { use_lock = false })

  pub kinit2 : (vstart vend : ℕ) → Kmem → Outcome Kmem
  unfolding freerange
  kinit2 vstart vend k = do k ← freerange vstart vend k; returns (record k { use_lock = true })

unfoldable pub kalloc : Kmem → ℕ × Kmem
kalloc k =
    if k.freelist == 0 then (0, k) else (k.freelist, record k { freelist = k.memory k.freelist })
