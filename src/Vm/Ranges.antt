-- ===== src/Vm/Ranges.antt =====
-- `mappages` over several pages.
use swe3004_operating_system.Prelude.{
  ℕ, zero, suc, ◌+◌, ◌-◌, ◌*◌, ◌/◌, ◌%◌, ◌^◌, ◌<◌, ◌≡◌, ◌≢◌, refl, ◌∙◌, ap, ap₂, sym, Bool, true,
  false, ◌&&◌, ltb, leb, ◌==◌, if◌then◌else◌, arith, update, u32, inl, inr, Bool-cases, returns,
  List, [], ◌∷◌, Option, some, none, length,
}
use swe3004_operating_system.Kalloc.{Kmem, page_size}
use swe3004_operating_system.Vm.{pdx, ptx, is_present, walkpgdir, pte, map_from}
use swe3004_operating_system.Vm.Entries.{entry_at}
use swe3004_operating_system.Vm.Spare.{Tidy}
use swe3004_operating_system.Vm.Mapping.{HasPage, round_lem, map_from_last}

map_from_next :
    (fuel : ℕ) (k k1 : Kmem) (pgdir a last pa perm at : ℕ)
    → walkpgdir pgdir a true k ≡ (at, k1)
    → at ≢ 0
    → is_present (k1.memory at) ≡ false
    → a ≢ last
    → map_from (suc fuel) pgdir a last pa perm k
      ≡ map_from fuel pgdir
          (u32 (a + page_size))
          last
          (u32 (pa + page_size))
          perm
          (record k1 { memory = update k1.memory at (pte pa perm) })
unfolding map_from
map_from_next fuel k k1 pgdir a last pa perm at e ne free more =
    let some_entry : (at == 0) ≡ false = ground arith in
    let goes_on : (a == last) ≡ false = ground arith in rw e (rw (some_entry, free, goes_on) refl)

spare-HasPage : (k : Kmem) (pgdir va : ℕ) (ps : List ℕ) → 0 < length ps → HasPage k pgdir va ps
spare-HasPage k pgdir va [] h = absurd (omega arith)
spare-HasPage k pgdir va (p ∷ ps) h = tt

-- The page of slot `s` of table `j` is one of the `n` pages from `a` on.
abbrev pub is_among : (a n j s : ℕ) → Bool
is_among a n j s = leb (a / page_size) (j * 1024 + s) && ltb (j * 1024 + s) (a / page_size + n)

-- The physical page that it gets, for those from `pa` on.
abbrev pub frame : (a pa j s : ℕ) → ℕ
frame a pa j s = pa + (j * 1024 + s - a / page_size) * page_size

-- The tables map the `n` pages from `a` on, and every other page as before.
pub record MapsRange (k k' : Kmem) (pgdir a n pa perm : ℕ) : Type 0 where
  pub maps :
      (j s : ℕ)
      → j < 1024
      → s < 1024
      → entry_at k'.memory pgdir j s ≡ (
          if is_among a n j s
          then some (pte (frame a pa j s) perm)
          else entry_at k.memory pgdir j s)

one_page :
    (a j s : ℕ)
    → a < 2 ^ 32
    → j < 1024
    → s < 1024
    → ((pdx a == j) && (ptx a == s)) ≡ (a / page_size == j * 1024 + s)
one_page a j s word hj hs = elim (Bool-cases (a / page_size == j * 1024 + s)) [
  | inl same ↦
      let at_j : pdx a ≡ j = ground arith in let at_s : ptx a ≡ s = ground arith in ground arith
  | inr differ ↦ elim (Bool-cases (pdx a == j)) [
    | inr away ↦ rw (away, differ) refl
    | inl at_j ↦ let away : (ptx a == s) ≡ false = ground arith in rw (at_j, away, differ) refl
  ]
]

-- One page is the range of one page.
range_one :
    (a pa perm j s : ℕ) (old : Option ℕ)
    → (if a / page_size == j * 1024 + s then some (pte pa perm) else old)
      ≡ (if is_among a 1 j s then some (pte (frame a pa j s) perm) else old)
range_one a pa perm j s old = elim (Bool-cases (a / page_size == j * 1024 + s)) [
  | inl same ↦
      let inside : is_among a 1 j s ≡ true = ground arith in
      let first : frame a pa j s ≡ pa = ground arith in rw (same, inside, first) refl
  | inr differ ↦ let outside : is_among a 1 j s ≡ false = ground arith in rw (differ, outside) refl
]

-- A page, and the range behind it.
range_more :
    (n a pa perm j s : ℕ) (old : Option ℕ)
    → (if is_among (a + page_size) (suc n) j s
        then some (pte (frame (a + page_size) (pa + page_size) j s) perm)
        else if a / page_size == j * 1024 + s
        then some (pte pa perm)
        else old)
      ≡ (if is_among a (suc (suc n)) j s then some (pte (frame a pa j s) perm) else old)
range_more n a pa perm j s old =
    let next : (a + page_size) / page_size ≡ a / page_size + 1 = omega arith in
    elim (Bool-cases (a / page_size == j * 1024 + s)) [
      | inl same ↦
          let behind_ : is_among (a + page_size) (suc n) j s ≡ false = ground (arith, next) in
          let inside : is_among a (suc (suc n)) j s ≡ true = ground arith in
          let first : frame a pa j s ≡ pa = ground arith in rw (behind_, same, inside, first) refl
      | inr differ ↦
          let tests : is_among (a + page_size) (suc n) j s ≡ is_among a (suc (suc n)) j s =
            ground (arith, next) in
          elim (Bool-cases (is_among a (suc (suc n)) j s)) [
            | inl inside ↦
                let same : frame (a + page_size) (pa + page_size) j s ≡ frame a pa j s =
                  ground (arith, next) in
                rw (tests, inside) (rw same refl)
            | inr outside ↦ rw (tests, outside, differ) refl
          ]
    ]

-- For `n + 1` pages from a page boundary on that are not mapped and end before the address space, and
-- more free pages than that, the loop of `mappages` returns 0 within a round for each page. Then each
-- of them is mapped to the physical page at its place, with the permissions, and every other page is
-- mapped as before.
pub map_from_lem :
    (n fuel : ℕ) (k : Kmem) (pgdir a pa perm : ℕ) (ps : List ℕ)
    → Tidy k pgdir ps
    → n < length ps
    → n < fuel
    → a % page_size ≡ 0
    → a + n * page_size < 2 ^ 32
    → pa + n * page_size < 2 ^ 32
    → ((j s : ℕ)
        → j < 1024
        → s < 1024
        → is_among a (suc n) j s ≡ true
        → entry_at k.memory pgdir j s ≡ none)
    → (k' : Kmem) × (ps' : List ℕ) × (map_from fuel pgdir a (a + n * page_size) pa perm k
        ≡ returns (true, k'))
      × MapsRange k k' pgdir a (suc n) pa perm
      × Tidy k' pgdir ps'
map_from_lem n zero k pgdir a pa perm ps v pages enough aligned word frames free =
    absurd (omega arith)
map_from_lem zero (suc fuel) k pgdir a pa perm ps v pages enough aligned word frames free =
    let hi : pdx a < 1024 = omega arith in
    let ht : ptx a < 1024 = omega arith in
    let here : is_among a 1 (pdx a) (ptx a) ≡ true = ground arith in
    let (k1, ps1, at, _, r) =
      round_lem k pgdir a pa perm ps v (spare-HasPage k pgdir a ps pages)
        (free (pdx a) (ptx a) hi ht here) in
    let only : a + 0 * page_size ≡ a = omega arith in
    (
      record k1 { memory = update k1.memory at (pte pa perm) },
      ps1,
      ap (λ l. map_from (suc fuel) pgdir a l pa perm k) only
          ∙ map_from_last fuel k k1 pgdir a pa perm at r.walked r.real r.free,
      record {
        maps = λ j s hj hs.
            r.maps j s hj hs
            ∙ ap (λ t. if t then some (pte pa perm) else entry_at k.memory pgdir j s)
                (one_page a j s (omega arith) hj hs)
            ∙ range_one a pa perm j s (entry_at k.memory pgdir j s);
      },
      r.tidy,
    )
map_from_lem (suc n) (suc fuel) k pgdir a pa perm ps v pages enough aligned word frames free =
    let hi : pdx a < 1024 = omega arith in
    let ht : ptx a < 1024 = omega arith in
    let here : is_among a (suc (suc n)) (pdx a) (ptx a) ≡ true = ground arith in
    let (k1, ps1, at, fewer, r) =
      round_lem k pgdir a pa perm ps v (spare-HasPage k pgdir a ps (omega arith))
        (free (pdx a) (ptx a) hi ht here) in
    let k2 : Kmem = record k1 { memory = update k1.memory at (pte pa perm) } in
    let one = λ (j s : ℕ) (hj : j < 1024) (hs : s < 1024).
      r.maps j s hj hs
      ∙ ap (λ t. if t then some (pte pa perm) else entry_at k.memory pgdir j s)
          (one_page a j s (omega arith) hj hs) in
    let a' : u32 (a + page_size) ≡ a + page_size = omega arith in
    let pa' : u32 (pa + page_size) ≡ pa + page_size = omega arith in
    let last : a + page_size + n * page_size ≡ a + suc n * page_size = omega arith in
    let (k', ps', e, m, v') =
      map_from_lem n fuel k2 pgdir (a + page_size) (pa + page_size) perm ps1 r.tidy
        (omega (arith, fewer)) (omega arith) (omega arith) (omega arith) (omega arith)
        (λ j s hj hs among.
          let differ : (a / page_size == j * 1024 + s) ≡ false = ground arith in
          let inside : is_among a (suc (suc n)) j s ≡ true = ground arith in
          one j s hj hs ∙ rw differ (free j s hj hs inside)) in
    (
      k',
      ps',
      map_from_next fuel k k1 pgdir a (a + suc n * page_size) pa perm at r.walked r.real r.free
            (omega arith)
          ∙ ap₂ (λ x y. map_from fuel pgdir x (a + suc n * page_size) y perm k2) a' pa'
          ∙ ap (λ l. map_from fuel pgdir (a + page_size) l (pa + page_size) perm k2) (sym last)
          ∙ e,
      record {
        maps = λ j s hj hs.
            m.maps j s hj hs
            ∙ ap
                (λ o.
                  if is_among (a + page_size) (suc n) j s
                  then some (pte (frame (a + page_size) (pa + page_size) j s) perm)
                  else o)
                (one j s hj hs)
            ∙ range_more n a pa perm j s (entry_at k.memory pgdir j s);
      },
      v',
    )

-- How many page boundaries lie behind the first page of the `size` bytes at `va`.
abbrev pub more_pages : (va size : ℕ) → ℕ
more_pages va size = (va + size - 1) / page_size - va / page_size
