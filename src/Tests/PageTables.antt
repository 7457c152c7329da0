-- ===== src/Tests/PageTables.antt =====
-- An empty directory, and one or two free pages.
use swe3004_operating_system.Prelude.{
  ℕ, ◌≡◌, refl, arith, true, ◌==◌, if◌then◌else◌, [], ◌∷◌, returns,
}
use swe3004_operating_system.Kalloc.{Kmem, page_size}
use swe3004_operating_system.Vm.{p2v, mappages, uva2ka}
use swe3004_operating_system.Vm.Spare.{Tidy}
use swe3004_operating_system.Vm.Lookup.{uva2ka-mappages}

abbrev pgdir : ℕ
pgdir = 0x80100000

abbrev page : ℕ
page = 0x80200000

abbrev kmem : Kmem
kmem = record { memory = λ a. 0; use_lock = true; freelist = page }

kmem-Tidy : Tidy kmem pgdir (page ∷ [])
kmem-Tidy = record {
  dir = record {
    aligned = refl;
    apart = λ i j hi hj ne there. cc;
    own = λ i hi there. cc;
    real = λ i hi there. cc;
  };
  chain = (refl, λ e. omega arith, refl, refl);
  spare = (
    record {
      aligned = refl;
      word = omega arith;
      real = λ e. omega arith;
      not_dir = λ e. omega arith;
      not_table = λ j hj there. cc;
    },
    tt,
    tt,
  );
}

-- Two free pages.
abbrev two_free : Kmem
two_free = record {
  memory = λ a. if a == page then 0x80201000 else 0;
  use_lock = true;
  freelist = page;
}

uva2ka-mappages_example :
    (k' : Kmem) × (mappages pgdir 0x5000 page_size 0x300000 6 kmem ≡ returns (true, k'))
    × (uva2ka pgdir 0x5000 k' ≡ p2v 0x300000)
uva2ka-mappages_example =
    uva2ka-mappages kmem pgdir 0x5000 0x300000 6 (page ∷ []) kmem-Tidy tt refl (omega arith) refl
      refl (omega arith) refl
