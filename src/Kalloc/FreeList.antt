-- ===== src/Kalloc/FreeList.antt =====
-- The free list as a list of pages.
use swe3004_operating_system.Prelude.{
  ℕ, zero, suc, ◌+◌, ◌*◌, ◌%◌, ◌^◌, ◌≤◌, ◌<◌, ◌≡◌, ◌∙◌, refl, ◌≢◌, true, false, List, [], ◌∷◌, leb,
  ◌==◌, arith, update, update_self, u32, returns,
}
use swe3004_operating_system.Kalloc.{
  Kmem, page_size, fill_page, is_bad_page, kfree, freerange_from, kalloc,
}

-- From `head` the links lead through exactly these pages, each on a page boundary and none null.
abbrev pub Chain : (ℕ → ℕ) → ℕ → List ℕ → Type 0
Chain memory head [] = head ≡ 0
Chain memory head (p ∷ ps) = (head ≡ p) × (p ≢ 0) × (p % page_size ≡ 0) × Chain memory (memory p) ps

abbrev pub NotIn : ℕ → List ℕ → Type 0
NotIn v [] = Unit {0}
NotIn v (p ∷ ps) = (v ≢ p) × NotIn v ps

-- Freeing a page that is not in the list writes to no link of the list.
Chain-kfree :
    (v head next : ℕ) (memory : ℕ → ℕ) (ps : List ℕ)
    → v % page_size ≡ 0
    → NotIn v ps
    → Chain memory head ps
    → Chain (update (fill_page v memory) v next) head ps
unfolding update fill_page
Chain-kfree v head next memory [] aligned out c = c
Chain-kfree v head next memory (p ∷ ps) aligned out (e, ne, al, rest) =
    let same : update (fill_page v memory) v next p ≡ memory p = ground (arith, out.0) in
    (e, ne, al, rw same (Chain-kfree v (memory p) next memory ps aligned out.1 rest))

good_page_aligned : (kernel_end v : ℕ) → is_bad_page kernel_end v ≡ false → v % page_size ≡ 0
unfolding is_bad_page
good_page_aligned kernel_end v good = ground arith

-- `kfree` of a page that it accepts and that is not free puts the page in front of the list.
pub kfree-Chain :
    (kernel_end v : ℕ) (k : Kmem) (ps : List ℕ)
    → is_bad_page kernel_end v ≡ false
    → v ≢ 0
    → NotIn v ps
    → Chain k.memory k.freelist ps
    → (k' : Kmem) × (kfree kernel_end v k ≡ returns k') × Chain k'.memory k'.freelist (v ∷ ps)
unfolding kfree
kfree-Chain kernel_end v k ps good ne out c =
    let aligned = good_page_aligned kernel_end v good in
    (
      record k { memory = update (fill_page v k.memory) v k.freelist; freelist = v },
      rw good,
      (
        refl,
        ne,
        aligned,
        rw update_self (Chain-kfree v k.freelist k.freelist k.memory ps aligned out c),
      ),
    )

-- What `kalloc` does to a list of free pages.
abbrev pub Allocates : List ℕ → Kmem → ℕ × Kmem → Type 0
Allocates [] k (v, k') = (v ≡ 0) × (k' ≡ k)
Allocates (p ∷ ps) k (v, k') = (v ≡ p) × Chain k'.memory k'.freelist ps

-- `kalloc` takes the first page of the list, or returns 0 and changes nothing if there is none.
pub kalloc-Chain :
    (k : Kmem) (ps : List ℕ) → Chain k.memory k.freelist ps → Allocates ps k (kalloc k)
unfolding kalloc
kalloc-Chain k [] c = ground arith
kalloc-Chain k (p ∷ ps) (e, ne, al, rest) =
    let some_page : (k.freelist == 0) ≡ false = ground arith in rw some_page (e, rw e rest)

-- The pages that `freerange` frees, in order.
abbrev pub pages : (n p : ℕ) → List ℕ
pages zero p = []
pages (suc n) p = p ∷ pages n (p + page_size)

abbrev pub push_pages : List ℕ → List ℕ → List ℕ
push_pages [] ps = ps
push_pages (v ∷ vs) ps = push_pages vs (v ∷ ps)

-- `p` and the `n - 1` pages behind it are pages that `kfree` accepts.
abbrev pub AllGood : (kernel_end n p : ℕ) → Type 0
AllGood kernel_end zero p = Unit {0}
AllGood kernel_end (suc n) p =
    (is_bad_page kernel_end p ≡ false) × (p ≢ 0) × AllGood kernel_end n (p + page_size)

-- All pages of the list are below `p`.
abbrev pub AllBelow : ℕ → List ℕ → Type 0
AllBelow p [] = Unit {0}
AllBelow p (q ∷ qs) = (q < p) × AllBelow p qs

AllBelow-NotIn : (p : ℕ) (qs : List ℕ) → AllBelow p qs → NotIn p qs
AllBelow-NotIn p [] b = tt
AllBelow-NotIn p (q ∷ qs) b = (omega (arith, b.0), AllBelow-NotIn p qs b.1)

AllBelow-mono : (p p' : ℕ) (qs : List ℕ) → p ≤ p' → AllBelow p qs → AllBelow p' qs
AllBelow-mono p p' [] le b = tt
AllBelow-mono p p' (q ∷ qs) le b = (omega (arith, b.0), AllBelow-mono p p' qs le b.1)

freerange_step :
    (kernel_end fuel p vend : ℕ) (k k1 : Kmem)
    → kfree kernel_end p k ≡ returns k1
    → leb (u32 (p + page_size)) vend ≡ true
    → u32 (p + page_size) ≡ p + page_size
    → freerange_from kernel_end (suc fuel) p vend k
      ≡ freerange_from kernel_end fuel (p + page_size) vend k1
unfolding freerange_from
freerange_step kernel_end fuel p vend k k1 freed more next = rw more (rw (freed, next) refl)

-- From a page `p` with room for `n` pages up to `vend`, and the pages freed so far below it,
-- `freerange` frees exactly these `n` pages, each once, and needs no more rounds than pages.
pub freerange_from-Chain :
    (kernel_end n fuel p vend : ℕ) (k : Kmem) (ps : List ℕ)
    → n < fuel
    → p + n * page_size ≤ vend
    → vend < p + suc n * page_size
    → vend + page_size < 2 ^ 32
    → AllGood kernel_end n p
    → AllBelow p ps
    → Chain k.memory k.freelist ps
    → (k' : Kmem) × (freerange_from kernel_end fuel p vend k ≡ returns k')
      × Chain k'.memory k'.freelist (push_pages (pages n p) ps)
unfolding freerange_from
freerange_from-Chain kernel_end n zero p vend k ps enough lo hi word good below c =
    absurd (omega arith)
freerange_from-Chain kernel_end zero (suc fuel) p vend k ps enough lo hi word good below c =
    let done : leb (u32 (p + page_size)) vend ≡ false = ground arith in (k, rw done, c)
freerange_from-Chain kernel_end (suc n) (suc fuel) p vend k ps enough lo hi word good below c =
    let more : leb (u32 (p + page_size)) vend ≡ true = ground arith in
    let next : u32 (p + page_size) ≡ p + page_size = omega arith in
    let (k1, e1, c1) = kfree-Chain kernel_end p k ps good.0 good.1 (AllBelow-NotIn p ps below) c in
    let (k2, e2, c2) =
      freerange_from-Chain kernel_end n fuel (p + page_size) vend k1 (p ∷ ps) (omega arith)
        (omega arith) (omega arith) word good.2
        (omega arith, AllBelow-mono p (p + page_size) ps (omega arith) below) c1 in
    (k2, freerange_step kernel_end fuel p vend k k1 e1 more next ∙ e2, c2)
