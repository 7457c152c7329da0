-- ===== src/Vm/Lookup.antt =====
-- `uva2ka` finds what `mappages` maps.
use swe3004_operating_system.Prelude.{
  ℕ, ◌+◌, ◌*◌, ◌/◌, ◌%◌, ◌^◌, ◌<◌, ◌≡◌, refl, ◌∙◌, ap, true, false, ◌&&◌, ◌==◌, arith, inl, inr,
  Bool-cases, returns, List, some, none,
}
use swe3004_operating_system.Kalloc.{Kmem, page_size}
use swe3004_operating_system.Vm.{
  pdx, ptx, is_present, is_user, pte_addr, p2v, walkpgdir, pte, mappages, uva2ka,
}
use swe3004_operating_system.Vm.Flags.{pte_page}
use swe3004_operating_system.Vm.Entries.{table, has_table, entry_at}
use swe3004_operating_system.Vm.Spare.{Tidy}
use swe3004_operating_system.Vm.Mapping.{HasPage, mappages_lem}

-- The address of the entry of a mapped page.
walkpgdir_there :
    (k : Kmem) (pgdir va : ℕ)
    → has_table k.memory pgdir (pdx va) ≡ true
    → walkpgdir pgdir va false k ≡ (table k.memory pgdir (pdx va) + 4 * ptx va, k)
unfolding walkpgdir
walkpgdir_there k pgdir va there = rw there refl

uva2ka-walkpgdir :
    (k : Kmem) (pgdir va at : ℕ)
    → walkpgdir pgdir va false k ≡ (at, k)
    → is_present (k.memory at) ≡ true
    → is_user (k.memory at) ≡ true
    → uva2ka pgdir va k ≡ p2v (pte_addr (k.memory at))
unfolding uva2ka
uva2ka-walkpgdir k pgdir va at e present user = rw e (rw (present, user) refl)

uva2ka-entry_at :
    (k : Kmem) (pgdir va e : ℕ)
    → entry_at k.memory pgdir (pdx va) (ptx va) ≡ some e
    → is_user e ≡ true
    → uva2ka pgdir va k ≡ p2v (pte_addr e)
uva2ka-entry_at k pgdir va e mapped user =
    let at = table k.memory pgdir (pdx va) + 4 * ptx va in
    elim (Bool-cases (has_table k.memory pgdir (pdx va))) [
      | inr absent ↦ absurd (ground arith)
      | inl there ↦ elim (Bool-cases (is_present (k.memory at))) [
        | inr empty ↦ absurd (ground arith)
        | inl present ↦
            let same : k.memory at ≡ e = ground arith in
            uva2ka-walkpgdir k pgdir va at (walkpgdir_there k pgdir va there) present (rw same user)
            ∙ ap (λ w. p2v (pte_addr w)) same
      ]
    ]

-- A page is mapped by `mappages` for the user, as in `mappages_lem`, to a physical page. Then `uva2ka`
-- of that page is the kernel's address of the physical page.
pub uva2ka-mappages :
    (k : Kmem) (pgdir va pa perm : ℕ) (ps : List ℕ)
    → Tidy k pgdir ps
    → HasPage k pgdir va ps
    → va % page_size ≡ 0
    → va < 2 ^ 32
    → entry_at k.memory pgdir (pdx va) (ptx va) ≡ none
    → pa % page_size ≡ 0
    → perm < page_size
    → is_user perm ≡ true
    → (k' : Kmem) × (mappages pgdir va page_size pa perm k ≡ returns (true, k'))
      × (uva2ka pgdir va k' ≡ p2v pa)
uva2ka-mappages k pgdir va pa perm ps v page aligned word free frame small user =
    let (k', _, e, maps, _) = mappages_lem k pgdir va pa perm ps v page aligned word free in
    let mapped : entry_at k'.memory pgdir (pdx va) (ptx va) ≡ some (pte pa perm) =
      maps (pdx va) (ptx va) (omega arith) (omega arith)
      ∙ (let here : ((pdx va == pdx va) && (ptx va == ptx va)) ≡ true = ground arith in
          rw here refl) in
    let addr : pte_addr (pte pa perm) ≡ pa = omega (arith, pte_page pa perm frame small) in
    let bit : pte pa perm / 4 % 2 ≡ perm / 4 % 2 = omega (arith, pte_page pa perm frame small) in
    let open_ : is_user (pte pa perm) ≡ true = rw bit user in
    (k', e, uva2ka-entry_at k' pgdir va (pte pa perm) mapped open_ ∙ ap p2v addr)
