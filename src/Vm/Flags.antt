-- ===== src/Vm/Flags.antt =====
-- The flags of a page table entry.
use swe3004_operating_system.Prelude.{
  ℕ, zero, suc, ◌+◌, ◌*◌, ◌/◌, ◌%◌, ◌<◌, ◌≤◌, ◌≡◌, ◌∙◌, ap, arith,
}
use swe3004_operating_system.Kalloc.{page_size}
use swe3004_operating_system.Vm.{or_bits, pte}

or_bits-zero : (n a : ℕ) → or_bits n a 0 ≡ a
unfolding or_bits
or_bits-zero zero a = omega arith
or_bits-zero (suc n) a = ground (arith, or_bits-zero n (a / 2))

or_bits-one : (n c : ℕ) → or_bits (suc n) c 1 ≡ c / 2 * 2 + 1
unfolding or_bits
or_bits-one n c = ground (arith, or_bits-zero n (c / 2))

-- The lowest `m` bits of `a` are 0, and `b` has no others.
abbrev Apart : (m a b : ℕ) → Type 0
Apart zero a b = b ≡ 0
Apart (suc m) a b = (a % 2 ≡ 0) × Apart m (a / 2) (b / 2)

or_bits-Apart : (m r a b : ℕ) → m ≤ r → Apart m a b → or_bits r a b ≡ a + b
unfolding or_bits
or_bits-Apart zero r a b le apart = ap (or_bits r a) apart ∙ or_bits-zero r a ∙ omega (arith, apart)
or_bits-Apart (suc m) zero a b le apart = absurd (omega arith)
or_bits-Apart (suc m) (suc r) a b le (even, apart) =
    let rest = or_bits-Apart m r (a / 2) (b / 2) (omega arith) apart in ground (arith, rest, even)

page-Apart : (pa perm : ℕ) → pa % page_size ≡ 0 → perm < page_size → Apart 12 pa perm
page-Apart pa perm frame small = (
  omega arith,
  (
    omega arith,
    (
      omega arith,
      (
        omega arith,
        (
          omega arith,
          (
            omega arith,
            (
              omega arith,
              (
                omega arith,
                (omega arith, (omega arith, (omega arith, (omega arith, omega arith)))),
              ),
            ),
          ),
        ),
      ),
    ),
  ),
)

-- For the address of a page and flags below the page size, `|` is a sum.
pub or_bits-page :
    (pa perm : ℕ) → pa % page_size ≡ 0 → perm < page_size → or_bits 32 pa perm ≡ pa + perm
or_bits-page pa perm frame small =
    or_bits-Apart 12 32 pa perm (omega arith) (page-Apart pa perm frame small)

-- Every entry that `mappages` writes is present.
pub pte_odd : (pa perm : ℕ) → pte pa perm % 2 ≡ 1
unfolding pte
pte_odd pa perm = omega (arith, or_bits-one 31 (or_bits 32 pa perm))

-- For the address of a page and flags below the page size the entry is a sum.
pub pte_page :
    (pa perm : ℕ) → pa % page_size ≡ 0 → perm < page_size → pte pa perm ≡ (pa + perm) / 2 * 2 + 1
unfolding pte
pte_page pa perm frame small =
    or_bits-one 31 (or_bits 32 pa perm) ∙ ap (λ c. c / 2 * 2 + 1) (or_bits-page pa perm frame small)
