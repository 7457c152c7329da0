-- ===== src/Vm/Growth.antt =====
-- A new page table maps nothing, and a new entry maps its page.
use swe3004_operating_system.Prelude.{
  ℕ, ◌+◌, ◌*◌, ◌%◌, ◌^◌, ◌<◌, ◌≡◌, ◌≢◌, ◌⊎◌, refl, ◌∙◌, ap, sym, true, false, ◌&&◌, ltb, leb, ◌==◌,
  if◌then◌else◌, arith, update, inl, inr, Bool-cases,
}
use swe3004_operating_system.Kalloc.{page_size}
use swe3004_operating_system.Vm.{is_present, pte_addr, pte_all, v2p, p2v, zero_page}
use swe3004_operating_system.Vm.Entries.{
  table, has_table, entry_at, IsDir, table_aligned, words_apart,
}

-- A page that is neither the directory nor one of its tables.
pub record IsSpare (m : ℕ → ℕ) (pgdir p : ℕ) : Type 0 where
  pub aligned : p % page_size ≡ 0
  pub word : p < 2 ^ 32
  pub real : p ≢ 0
  pub not_dir : p ≢ pgdir
  pub not_table : (j : ℕ) → j < 1024 → has_table m pgdir j ≡ true → table m pgdir j ≢ p

module _ (m : ℕ → ℕ) (pgdir i p : ℕ) (v : IsDir m pgdir) (hi : i < 1024)
    (absent : has_table m pgdir i ≡ false) (spare : IsSpare m pgdir p) where
  abbrev pub m' : ℕ → ℕ
  m' = update (zero_page p m) (pgdir + 4 * i) (v2p p + pte_all)

  pub dir_word :
      (j : ℕ)
      → j < 1024
      → m' (pgdir + 4 * j) ≡ (if i == j then v2p p + pte_all else m (pgdir + 4 * j))
  unfolding update zero_page
  dir_word j hj =
      let test : (pgdir + 4 * j == pgdir + 4 * i) ≡ (i == j) = ground arith in
      let outside : (leb p (pgdir + 4 * j) && ltb (pgdir + 4 * j) (p + page_size)) ≡ false =
        ground (arith, spare.aligned, v.aligned, spare.not_dir) in
      rw (test, outside) refl

  pub new_table : p2v (pte_addr (v2p p + pte_all)) ≡ p
  new_table = omega (arith, spare.aligned, spare.word)

  pub new_present : is_present (v2p p + pte_all) ≡ true
  new_present =
      let odd : (v2p p + pte_all) % 2 ≡ 1 = omega (arith, spare.aligned, spare.word) in rw odd refl

  pub old_word :
      (j s : ℕ)
      → j < 1024
      → s < 1024
      → has_table m pgdir j ≡ true
      → m' (table m pgdir j + 4 * s) ≡ m (table m pgdir j + 4 * s)
  unfolding update zero_page
  old_word j s hj hs there =
      let ne =
        words_apart (table m pgdir j) pgdir s i (table_aligned m pgdir j) v.aligned hs hi
          (v.own j hj there) in
      let test : (table m pgdir j + 4 * s == pgdir + 4 * i) ≡ false = ground (arith, ne) in
      let base = table_aligned m pgdir j in
      let away = spare.not_table j hj there in
      let outside : (leb p (table m pgdir j + 4 * s)
            && ltb (table m pgdir j + 4 * s) (p + page_size))
          ≡ false =
        ground (arith, spare.aligned, base, away) in
      rw (test, outside) refl

  pub new_word : (s : ℕ) → s < 1024 → m' (p + 4 * s) ≡ 0
  unfolding update zero_page
  new_word s hs =
      let ne = words_apart p pgdir s i spare.aligned v.aligned hs hi spare.not_dir in
      let test : (p + 4 * s == pgdir + 4 * i) ≡ false = ground (arith, ne) in
      let inside : (leb p (p + 4 * s) && ltb (p + 4 * s) (p + page_size)) ≡ true = ground arith in
      rw (test, inside) refl

  pub has_new : has_table m' pgdir i ≡ true
  has_new = let here : (i == i) ≡ true = ground arith in rw (dir_word i hi, here) new_present

  pub at_new : table m' pgdir i ≡ p
  at_new = let here : (i == i) ≡ true = ground arith in rw (dir_word i hi, here) new_table

  -- The other tables are where they were.
  pub old_dir : (j : ℕ) → j < 1024 → (i == j) ≡ false → m' (pgdir + 4 * j) ≡ m (pgdir + 4 * j)
  old_dir j hj differ = dir_word j hj ∙ rw differ refl

  pub entry_at-grow : (j s : ℕ) → j < 1024 → s < 1024 → entry_at m' pgdir j s ≡ entry_at m pgdir j s
  entry_at-grow j s hj hs = elim (Bool-cases (i == j)) [
    | inl same ↦
        let index : j ≡ i = ground arith in
        let word : m' (table m' pgdir i + 4 * s) ≡ 0 =
          ap (λ q. m' (q + 4 * s)) at_new ∙ new_word s hs in
        let odd : is_present 0 ≡ false = refl in rw index (rw (has_new, absent) (rw word refl))
    | inr differ ↦ rw (old_dir j hj differ) (elim (Bool-cases (has_table m pgdir j)) [
      | inl there ↦ rw there (rw (old_word j s hj hs there) refl)
      | inr missing ↦ rw missing refl
    ])
  ]

  -- Which table a slot has now.
  slot_cases :
      (j : ℕ)
      → j < 1024
      → has_table m' pgdir j ≡ true
      → ((j ≡ i) × (table m' pgdir j ≡ p))
        ⊎ ((j ≢ i) × (has_table m pgdir j ≡ true) × (table m' pgdir j ≡ table m pgdir j))
  slot_cases j hj there = elim (Bool-cases (i == j)) [
    | inl same ↦ let index : j ≡ i = ground arith in inl (index, rw index at_new)
    | inr differ ↦
        let word = old_dir j hj differ in
        inr (λ h. ground arith, rw word at there, ap (λ w. p2v (pte_addr w)) word)
  ]

  pub IsDir-grow : IsDir m' pgdir
  IsDir-grow = record {
    aligned = v.aligned;
    apart = λ j l hj hl ne there there'. elim (slot_cases j hj there) [
      | inl (here, new) ↦ elim (slot_cases l hl there') [
        | inl (here', _) ↦ absurd (ne (here ∙ sym here'))
        | inr (_, old, same) ↦ λ e. spare.not_table l hl old (sym same ∙ sym e ∙ new)
      ]
      | inr (away, old, same) ↦ elim (slot_cases l hl there') [
        | inl (_, new) ↦ λ e. spare.not_table j hj old (sym same ∙ e ∙ new)
        | inr (_, old', same') ↦ λ e. v.apart j l hj hl ne old old' (sym same ∙ e ∙ same')
      ]
    ];
    own = λ j hj there. elim (slot_cases j hj there) [
      | inl (_, new) ↦ λ e. spare.not_dir (sym new ∙ e)
      | inr (_, old, same) ↦ λ e. v.own j hj old (sym same ∙ e)
    ];
    real = λ j hj there. elim (slot_cases j hj there) [
      | inl (_, new) ↦ λ e. spare.real (sym new ∙ e)
      | inr (_, old, same) ↦ λ e. v.real j hj old (sym same ∙ e)
    ];
  }

  -- Another spare page stays one, and its first word stays.
  pub IsSpare-grow : (q : ℕ) → IsSpare m pgdir q → p ≢ q → IsSpare m' pgdir q × (m' q ≡ m q)
  unfolding update zero_page
  IsSpare-grow q other ne = (
    record {
      aligned = other.aligned;
      word = other.word;
      real = other.real;
      not_dir = other.not_dir;
      not_table = λ j hj there. elim (slot_cases j hj there) [
        | inl (_, new) ↦ λ e. ne (sym new ∙ e)
        | inr (_, old, same) ↦ λ e. other.not_table j hj old (sym same ∙ e)
      ];
    },
    (let test : (q == pgdir + 4 * i) ≡ false =
          ground (arith, other.aligned, v.aligned, other.not_dir) in
        let outside : (leb p q && ltb q (p + page_size)) ≡ false =
          ground (arith, spare.aligned, other.aligned, ne) in
        rw (test, outside) refl),
  )
