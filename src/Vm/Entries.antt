-- ===== src/Vm/Entries.antt =====
-- What the page tables map.
use swe3004_operating_system.Prelude.{
  ℕ, ◌+◌, ◌*◌, ◌%◌, ◌<◌, ◌≡◌, ◌≢◌, refl, ap, sym, Bool, true, false, ◌&&◌, ◌==◌, if◌then◌else◌,
  arith, update, inl, inr, Bool-cases, Option, some, none,
}
use swe3004_operating_system.Kalloc.{page_size}
use swe3004_operating_system.Vm.{is_present, pte_addr, p2v}

-- The page table of slot `i` of the directory.
abbrev pub table : (ℕ → ℕ) → (pgdir i : ℕ) → ℕ
table m pgdir i = p2v (pte_addr (m (pgdir + 4 * i)))

abbrev pub has_table : (ℕ → ℕ) → (pgdir i : ℕ) → Bool
has_table m pgdir i = is_present (m (pgdir + 4 * i))

-- The entry of slot `t` of table `i`, if it is present.
abbrev pub entry_at : (ℕ → ℕ) → (pgdir i t : ℕ) → Option ℕ
entry_at m pgdir i t =
    if has_table m pgdir i
    then (if is_present (m (table m pgdir i + 4 * t))
        then some (m (table m pgdir i + 4 * t))
        else none)
    else none

-- The directory and its page tables are different pages, and no table is at address 0.
pub record IsDir (m : ℕ → ℕ) (pgdir : ℕ) : Type 0 where
  pub aligned : pgdir % page_size ≡ 0
  pub apart :
      (i j : ℕ)
      → i < 1024
      → j < 1024
      → i ≢ j
      → has_table m pgdir i ≡ true
      → has_table m pgdir j ≡ true
      → table m pgdir i ≢ table m pgdir j
  pub own : (i : ℕ) → i < 1024 → has_table m pgdir i ≡ true → table m pgdir i ≢ pgdir
  pub real : (i : ℕ) → i < 1024 → has_table m pgdir i ≡ true → table m pgdir i ≢ 0

pub table_aligned : (m : ℕ → ℕ) (pgdir i : ℕ) → table m pgdir i % page_size ≡ 0
table_aligned m pgdir i = omega arith

-- Words of different pages.
pub words_apart :
    (p q s t : ℕ)
    → p % page_size ≡ 0
    → q % page_size ≡ 0
    → s < 1024
    → t < 1024
    → p ≢ q
    → p + 4 * s ≢ q + 4 * t
words_apart p q s t hp hq hs ht ne = λ e. omega arith

module _ (m : ℕ → ℕ) (pgdir i t e : ℕ) (v : IsDir m pgdir) (hi : i < 1024) (ht : t < 1024)
    (present : has_table m pgdir i ≡ true) where
  abbrev pub at : ℕ
  at = table m pgdir i + 4 * t

  -- An entry of a page table is written.
  abbrev pub m' : ℕ → ℕ
  m' = update m at e

  pub same_dir : (j : ℕ) → j < 1024 → m' (pgdir + 4 * j) ≡ m (pgdir + 4 * j)
  unfolding update
  same_dir j hj =
      let ne =
        words_apart pgdir (table m pgdir i) j t v.aligned (table_aligned m pgdir i) hj ht
          (λ h. v.own i hi present (sym h)) in
      let test : (pgdir + 4 * j == at) ≡ false = ground (arith, ne) in rw test refl

  pub same_word :
      (j s : ℕ)
      → j < 1024
      → s < 1024
      → has_table m pgdir j ≡ true
      → m' (table m pgdir j + 4 * s)
        ≡ (if (i == j) && (t == s) then e else m (table m pgdir j + 4 * s))
  unfolding update
  same_word j s hj hs other = elim (Bool-cases (i == j)) [
    | inl same ↦
        let index : i ≡ j = ground arith in
        let base : table m pgdir i ≡ table m pgdir j = ap (table m pgdir) index in
        let test : (table m pgdir j + 4 * s == at) ≡ (t == s) = ground (arith, base) in
        rw (test, same) refl
    | inr differ ↦
        let ne =
          words_apart (table m pgdir j) (table m pgdir i) s t (table_aligned m pgdir j)
            (table_aligned m pgdir i) hs ht (v.apart j i hj hi (λ h. ground arith) other present) in
        let test : (table m pgdir j + 4 * s == at) ≡ false = ground (arith, ne) in
        rw (test, differ) refl
  ]

  abbrev pub written_entry : Option ℕ
  written_entry = if is_present e then some e else none

  -- The tables map what they did, but for the one page.
  pub entry_at-set :
      (j s : ℕ)
      → j < 1024
      → s < 1024
      → entry_at m' pgdir j s
        ≡ (if (i == j) && (t == s) then written_entry else entry_at m pgdir j s)
  entry_at-set j s hj hs =
      let dir = same_dir j hj in
      rw dir (elim (Bool-cases (has_table m pgdir j)) [
        | inl there ↦
            let word = same_word j s hj hs there in
            rw there (
              rw word (elim (Bool-cases ((i == j) && (t == s))) [
                | inl here ↦ rw here refl
                | inr away ↦ rw away refl
              ]))
        | inr absent ↦
            let away : ((i == j) && (t == s)) ≡ false = elim (Bool-cases (i == j)) [
              | inl same ↦
                  let index : i ≡ j = ground arith in
                  let there : has_table m pgdir j ≡ true = rw index at present in
                  absurd (ground arith)
              | inr differ ↦ rw differ refl
            ] in
            rw (absent, away) refl
      ])

  pub IsDir-set : IsDir m' pgdir
  IsDir-set = record {
    aligned = v.aligned;
    apart = λ j l hj hl ne there there'.
        rw (same_dir j hj, same_dir l hl)
          (v.apart j l hj hl ne (rw (same_dir j hj) at there) (rw (same_dir l hl) at there'));
    own = λ j hj there. rw (same_dir j hj) (v.own j hj (rw (same_dir j hj) at there));
    real = λ j hj there. rw (same_dir j hj) (v.real j hj (rw (same_dir j hj) at there));
  }
