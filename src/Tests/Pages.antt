-- ===== src/Tests/Pages.antt =====
-- Three free pages above a kernel that ends at 0x80115000.
use swe3004_operating_system.Prelude.{ℕ, ◌+◌, ◌*◌, ◌≡◌, refl, arith, false, [], ◌∷◌, returns}
use swe3004_operating_system.Kalloc.{Kmem, is_bad_page, freerange_from}
use swe3004_operating_system.Kalloc.FreeList.{Chain, pages, push_pages, freerange_from-Chain}

abbrev kernel_end : ℕ
kernel_end = 0x80115000

abbrev page : ℕ
page = 0x80200000

-- One free page.
abbrev kmem : Kmem
kmem = record { memory = λ a. 0; use_lock = false; freelist = page }

kmem-Chain : Chain kmem.memory kmem.freelist (page ∷ [])
kmem-Chain = (refl, λ e. omega arith, refl, refl)

second_page : is_bad_page kernel_end (page + 4096) ≡ false
unfolding is_bad_page
second_page = refl

third_page : is_bad_page kernel_end (page + 4096 + 4096) ≡ false
unfolding is_bad_page
third_page = refl

freerange_from-Chain_example :
    (k' : Kmem) × (freerange_from kernel_end 9 (page + 4096) (page + 3 * 4096) kmem ≡ returns k')
    × Chain k'.memory k'.freelist (push_pages (pages 2 (page + 4096)) (page ∷ []))
freerange_from-Chain_example =
    freerange_from-Chain kernel_end 2 9 (page + 4096) (page + 3 * 4096) kmem (page ∷ [])
      (omega arith) (omega arith) (omega arith) (omega arith)
      (second_page, λ e. omega arith, (third_page, λ e. omega arith, tt)) (omega arith, tt)
      kmem-Chain
