-- ===== src/Vm/Mapping.antt =====
-- `walkpgdir` and `mappages` on a directory with spare pages in the free list.
use swe3004_operating_system.Prelude.{
  length, ◌≤◌, ℕ, suc, ◌+◌, ◌-◌, ◌*◌, ◌%◌, ◌^◌, ◌<◌, ◌≡◌, ◌≢◌, refl, ◌∙◌, ap, ap₂, true, false,
  ◌&&◌, ◌==◌, if◌then◌else◌, arith, update, u32, sub32, inl, inr, Bool-cases, returns, List, [],
  ◌∷◌, some, none,
}
use swe3004_operating_system.Kalloc.{Kmem, page_size, kalloc}
use swe3004_operating_system.Vm.{
  pdx, ptx, is_present, page_down, pte_all, v2p, zero_page, walkpgdir, pte, map_from, mappages,
}
use swe3004_operating_system.Vm.Flags.{or_bits-page, pte_odd}
use swe3004_operating_system.Vm.Entries.{table, has_table, entry_at, entry_at-set}
use swe3004_operating_system.Vm.Growth.{entry_at-grow, IsDir-grow, IsSpare-grow, has_new, at_new}
use swe3004_operating_system.Vm.Spare.{Tidy, Chain-kept, Tidy-set}

-- Where `walkpgdir` finds the entry of `va`.
pub record Walked (k k' : Kmem) (pgdir va : ℕ) (ps : List ℕ) : Type 0 where
  pub there : has_table k'.memory pgdir (pdx va) ≡ true
  pub same :
      (j s : ℕ) → j < 1024 → s < 1024 → entry_at k'.memory pgdir j s ≡ entry_at k.memory pgdir j s
  pub tidy : Tidy k' pgdir ps

walkpgdir_found :
    (k : Kmem) (pgdir va : ℕ)
    → has_table k.memory pgdir (pdx va) ≡ true
    → walkpgdir pgdir va true k ≡ (table k.memory pgdir (pdx va) + 4 * ptx va, k)
unfolding walkpgdir
walkpgdir_found k pgdir va there = rw there refl

grown : Kmem → (pgdir i p : ℕ) → Kmem
grown k pgdir i p = record k {
  memory = update (zero_page p k.memory) (pgdir + 4 * i) (v2p p + pte_all);
  freelist = k.memory p;
}

walkpgdir-grown :
    (k : Kmem) (pgdir va p : ℕ)
    → has_table k.memory pgdir (pdx va) ≡ false
    → k.freelist ≡ p
    → p ≢ 0
    → p % page_size ≡ 0
    → p < 2 ^ 32
    → walkpgdir pgdir va true k ≡ (p + 4 * ptx va, grown k pgdir (pdx va) p)
unfolding walkpgdir kalloc grown
walkpgdir-grown k pgdir va p absent head ne aligned word =
    let flags = or_bits-page (v2p p) pte_all (omega arith) (omega arith) in
    let some_page : (p == 0) ≡ false = ground arith in
    rw (absent, head) (rw some_page (rw (some_page, flags) refl))

module _ (k : Kmem) (pgdir i p : ℕ) (ps : List ℕ) (v : Tidy k pgdir (p ∷ ps)) (hi : i < 1024)
    (absent : has_table k.memory pgdir i ≡ false) where
  grown_entry :
      (j s : ℕ)
      → j < 1024
      → s < 1024
      → entry_at (grown k pgdir i p).memory pgdir j s ≡ entry_at k.memory pgdir j s
  unfolding grown
  grown_entry = entry_at-grow k.memory pgdir i p v.dir hi absent v.spare.0

  grown-table :
      (has_table (grown k pgdir i p).memory pgdir i ≡ true)
      × (table (grown k pgdir i p).memory pgdir i ≡ p)
  unfolding grown
  grown-table = (
    has_new k.memory pgdir i p v.dir hi absent v.spare.0,
    at_new k.memory pgdir i p v.dir hi absent v.spare.0,
  )

  grown-Tidy : Tidy (grown k pgdir i p) pgdir ps
  unfolding grown
  grown-Tidy =
      let m' = (grown k pgdir i p).memory in
      let (c, s) =
        Chain-kept k.memory m' pgdir p (k.memory p) ps
          (IsSpare-grow k.memory pgdir i p v.dir hi absent v.spare.0) v.spare.1 v.spare.2
          v.chain.3 in
      record { dir = IsDir-grow k.memory pgdir i p v.dir hi absent v.spare.0; chain = c; spare = s }

-- The page table is there, or a page for it is free.
abbrev pub HasPage : Kmem → (pgdir va : ℕ) → List ℕ → Type 0
HasPage k pgdir va [] = has_table k.memory pgdir (pdx va) ≡ true
HasPage k pgdir va (p ∷ ps) = Unit {0}

grow_table :
    (k : Kmem) (pgdir va : ℕ) (ps : List ℕ)
    → Tidy k pgdir ps
    → HasPage k pgdir va ps
    → has_table k.memory pgdir (pdx va) ≡ false
    → (k' : Kmem) × (ps' : List ℕ) × (walkpgdir pgdir va true k
        ≡ (table k'.memory pgdir (pdx va) + 4 * ptx va, k'))
      × (length ps ≤ length ps' + 1)
      × Walked k k' pgdir va ps'
grow_table k pgdir va [] v page absent = absurd (ground arith)
grow_table k pgdir va (p ∷ ps) v page absent =
    let hi : pdx va < 1024 = omega arith in
    let (there, at) = grown-table k pgdir (pdx va) p ps v hi absent in
    (
      grown k pgdir (pdx va) p,
      ps,
      rw at (
          walkpgdir-grown k pgdir va p absent v.chain.0 v.chain.1 v.spare.0.aligned v.spare.0.word),
      omega arith,
      record {
        there = there;
        same = grown_entry k pgdir (pdx va) p ps v hi absent;
        tidy = grown-Tidy k pgdir (pdx va) p ps v hi absent;
      },
    )

walkpgdir_lem :
    (k : Kmem) (pgdir va : ℕ) (ps : List ℕ)
    → Tidy k pgdir ps
    → HasPage k pgdir va ps
    → (k' : Kmem) × (ps' : List ℕ) × (walkpgdir pgdir va true k
        ≡ (table k'.memory pgdir (pdx va) + 4 * ptx va, k'))
      × (length ps ≤ length ps' + 1)
      × Walked k k' pgdir va ps'
walkpgdir_lem k pgdir va ps v page = elim (Bool-cases (has_table k.memory pgdir (pdx va))) [
  | inl there ↦ (
    k,
    ps,
    walkpgdir_found k pgdir va there,
    omega arith,
    record { there = there; same = λ j s hj hs. refl; tidy = v },
  )
  | inr absent ↦ grow_table k pgdir va ps v page absent
]

-- The last round of the loop, on the entry that is found.
pub map_from_last :
    (fuel : ℕ) (k k1 : Kmem) (pgdir va pa perm at : ℕ)
    → walkpgdir pgdir va true k ≡ (at, k1)
    → at ≢ 0
    → is_present (k1.memory at) ≡ false
    → map_from (suc fuel) pgdir va va pa perm k
      ≡ returns (true, record k1 { memory = update k1.memory at (pte pa perm) })
unfolding map_from
map_from_last fuel k k1 pgdir va pa perm at e ne free =
    let some_entry : (at == 0) ≡ false = ground arith in
    let last : (va == va) ≡ true = ground arith in rw e (rw (some_entry, free, last) refl)

mappages_last :
    (k k1 : Kmem) (pgdir va pa perm at : ℕ)
    → va % page_size ≡ 0
    → va < 2 ^ 32
    → walkpgdir pgdir va true k ≡ (at, k1)
    → at ≢ 0
    → is_present (k1.memory at) ≡ false
    → mappages pgdir va page_size pa perm k
      ≡ returns (true, record k1 { memory = update k1.memory at (pte pa perm) })
unfolding mappages
mappages_last k k1 pgdir va pa perm at aligned word e ne free =
    let first : page_down va ≡ va = omega arith in
    let last : page_down (sub32 (u32 (va + page_size)) 1) ≡ va = omega arith in
    ap₂ (λ a b. map_from (2 ^ 20) pgdir a b pa perm k) first last
    ∙ map_from_last (2 ^ 20 - 1) k k1 pgdir va pa perm at e ne free

-- An entry of a table that maps nothing is not present.
free_word :
    (m : ℕ → ℕ) (pgdir i t : ℕ)
    → has_table m pgdir i ≡ true
    → entry_at m pgdir i t ≡ none
    → is_present (m (table m pgdir i + 4 * t)) ≡ false
free_word m pgdir i t there free = elim (Bool-cases (is_present (m (table m pgdir i + 4 * t)))) [
  | inr absent ↦ absent
  | inl present ↦
      let e : some (m (table m pgdir i + 4 * t)) ≡ none = rw (there, present) at free in cc
]

-- One round on an entry that maps nothing, before the loop goes on or ends.
pub record Mapped (k k1 : Kmem) (pgdir va pa perm at : ℕ) (ps' : List ℕ) : Type 0 where
  pub walked : walkpgdir pgdir va true k ≡ (at, k1)
  pub real : at ≢ 0
  pub free : is_present (k1.memory at) ≡ false
  pub maps :
      (j s : ℕ)
      → j < 1024
      → s < 1024
      → entry_at (update k1.memory at (pte pa perm)) pgdir j s ≡ (
          if (pdx va == j) && (ptx va == s)
          then some (pte pa perm)
          else entry_at k.memory pgdir j s)
  pub tidy : Tidy (record k1 { memory = update k1.memory at (pte pa perm) }) pgdir ps'

pub round_lem :
    (k : Kmem) (pgdir va pa perm : ℕ) (ps : List ℕ)
    → Tidy k pgdir ps
    → HasPage k pgdir va ps
    → entry_at k.memory pgdir (pdx va) (ptx va) ≡ none
    → (k1 : Kmem) × (ps' : List ℕ) × (at : ℕ) × (length ps ≤ length ps' + 1)
      × Mapped k k1 pgdir va pa perm at ps'
round_lem k pgdir va pa perm ps v page free =
    let hi : pdx va < 1024 = omega arith in
    let ht : ptx va < 1024 = omega arith in
    let (k1, ps1, e, fewer, w) = walkpgdir_lem k pgdir va ps v page in
    let m = k1.memory in
    let at = table m pgdir (pdx va) + 4 * ptx va in
    let real = w.tidy.dir.real (pdx va) hi w.there in
    let odd : is_present (pte pa perm) ≡ true = let one = pte_odd pa perm in ground (arith, one) in
    (
      k1,
      ps1,
      at,
      fewer,
      record {
        walked = e;
        real = λ h. real (omega arith);
        free = free_word m pgdir (pdx va) (ptx va) w.there (w.same (pdx va) (ptx va) hi ht ∙ free);
        maps = λ j s hj hs.
            entry_at-set m pgdir (pdx va) (ptx va) (pte pa perm) w.tidy.dir hi ht w.there j s hj hs
            ∙ rw odd (
                ap (λ o. if (pdx va == j) && (ptx va == s) then some (pte pa perm) else o)
                  (w.same j s hj hs));
        tidy = Tidy-set k1 pgdir (pdx va) (ptx va) (pte pa perm) ps1 w.tidy hi ht w.there;
      },
    )

-- `mappages` of one page at a page boundary that is not mapped, in a tidy directory, with a page for
-- its page table if that is missing, returns 0. Then the tables map that page to the physical page
-- with the permissions, and every other page as before, and the directory is tidy again.
pub mappages_lem :
    (k : Kmem) (pgdir va pa perm : ℕ) (ps : List ℕ)
    → Tidy k pgdir ps
    → HasPage k pgdir va ps
    → va % page_size ≡ 0
    → va < 2 ^ 32
    → entry_at k.memory pgdir (pdx va) (ptx va) ≡ none
    → (k' : Kmem) × (ps' : List ℕ) × (mappages pgdir va page_size pa perm k ≡ returns (true, k'))
      × ((j s : ℕ)
          → j < 1024
          → s < 1024
          → entry_at k'.memory pgdir j s ≡ (
              if (pdx va == j) && (ptx va == s)
              then some (pte pa perm)
              else entry_at k.memory pgdir j s))
      × Tidy k' pgdir ps'
mappages_lem k pgdir va pa perm ps v page aligned word free =
    let (k1, ps1, at, _, r) = round_lem k pgdir va pa perm ps v page free in
    (
      record k1 { memory = update k1.memory at (pte pa perm) },
      ps1,
      mappages_last k k1 pgdir va pa perm at aligned word r.walked r.real r.free,
      r.maps,
      r.tidy,
    )
