-- ===== src/Vm/Spare.antt =====
-- A directory with spare pages in the free list.
use swe3004_operating_system.Prelude.{
  ℕ, ◌+◌, ◌*◌, ◌<◌, ◌≡◌, ◌≢◌, refl, true, false, ◌==◌, arith, update, List, [], ◌∷◌,
}
use swe3004_operating_system.Kalloc.{Kmem}
use swe3004_operating_system.Kalloc.FreeList.{Chain, NotIn}
use swe3004_operating_system.Vm.Entries.{
  table, has_table, IsDir, table_aligned, IsDir-set, same_dir,
}
use swe3004_operating_system.Vm.Growth.{IsSpare}

-- Different spare pages.
abbrev pub AllSpare : (ℕ → ℕ) → ℕ → List ℕ → Type 0
AllSpare m pgdir [] = Unit {0}
AllSpare m pgdir (p ∷ ps) = IsSpare m pgdir p × NotIn p ps × AllSpare m pgdir ps

-- The directory, and the pages of the free list.
pub record Tidy (k : Kmem) (pgdir : ℕ) (ps : List ℕ) : Type 0 where
  pub dir : IsDir k.memory pgdir
  pub chain : Chain k.memory k.freelist ps
  pub spare : AllSpare k.memory pgdir ps

-- Memory in which all spare pages but `x` are as they were.
pub Chain-kept :
    (m m' : ℕ → ℕ) (pgdir x head : ℕ) (ps : List ℕ)
    → ((q : ℕ) → IsSpare m pgdir q → x ≢ q → IsSpare m' pgdir q × (m' q ≡ m q))
    → NotIn x ps
    → AllSpare m pgdir ps
    → Chain m head ps
    → Chain m' head ps × AllSpare m' pgdir ps
Chain-kept m m' pgdir x head [] kept out spare c = (c, tt)
Chain-kept m m' pgdir x head (p ∷ ps) kept out spare (e, ne, al, rest) =
    let (spare', word) = kept p spare.0 out.0 in
    let (c', all') = Chain-kept m m' pgdir x (m p) ps kept out.1 spare.2 rest in
    ((e, ne, al, rw word c'), (spare', spare.1, all'))

pub NotIn-table :
    (m : ℕ → ℕ) (pgdir i : ℕ) (ps : List ℕ)
    → i < 1024
    → has_table m pgdir i ≡ true
    → AllSpare m pgdir ps
    → NotIn (table m pgdir i) ps
NotIn-table m pgdir i [] hi there spare = tt
NotIn-table m pgdir i (p ∷ ps) hi there spare =
    (spare.0.not_table i hi there, NotIn-table m pgdir i ps hi there spare.2)

pub IsSpare-set :
    (m : ℕ → ℕ) (pgdir i t e : ℕ)
    → IsDir m pgdir
    → i < 1024
    → t < 1024
    → has_table m pgdir i ≡ true
    → (q : ℕ) → IsSpare m pgdir q
    → table m pgdir i ≢ q
    → IsSpare (update m (table m pgdir i + 4 * t) e) pgdir q
      × (update m (table m pgdir i + 4 * t) e q ≡ m q)
unfolding update
IsSpare-set m pgdir i t e v hi ht there q spare ne =
    let dir = same_dir m pgdir i t e v hi ht there in
    (
      record {
        aligned = spare.aligned;
        word = spare.word;
        real = spare.real;
        not_dir = spare.not_dir;
        not_table = λ j hj other. rw (dir j hj) (spare.not_table j hj (rw (dir j hj) at other));
      },
      (let base = table_aligned m pgdir i in
          let test : (q == table m pgdir i + 4 * t) ≡ false =
            ground (arith, spare.aligned, base, ne) in
          rw test refl),
    )

pub Tidy-set :
    (k : Kmem) (pgdir i t e : ℕ) (ps : List ℕ)
    → Tidy k pgdir ps
    → i < 1024
    → t < 1024
    → has_table k.memory pgdir i ≡ true
    → Tidy (record k { memory = update k.memory (table k.memory pgdir i + 4 * t) e }) pgdir ps
Tidy-set k pgdir i t e ps v hi ht there =
    let m' = update k.memory (table k.memory pgdir i + 4 * t) e in
    let (c, s) =
      Chain-kept k.memory m' pgdir (table k.memory pgdir i) k.freelist ps
        (IsSpare-set k.memory pgdir i t e v.dir hi ht there)
        (NotIn-table k.memory pgdir i ps hi there v.spare) v.spare v.chain in
    record { dir = IsDir-set k.memory pgdir i t e v.dir hi ht there; chain = c; spare = s }
