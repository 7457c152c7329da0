-- ===== src/Console/Erasing.antt =====
-- Backspaces on the edited line.
use swe3004_operating_system.Prelude.{
  ℕ, zero, suc, ◌+◌, ◌-◌, ◌%◌, ◌^◌, ◌≤◌, ◌<◌, ◌≡◌, ◌≢◌, refl, subst, ◌∙◌, ap, sym, false, List, [],
  ◌∷◌, ◌++◌, ◌==◌, arith, length, get_or, take, length-take, u32, sub32, inl, inr, Bool-cases,
}
use swe3004_operating_system.Console.{input_buf, Input, newline, backspace, kill_line}
use swe3004_operating_system.Console.Lines.{window, View, NoNewline, Shows, erase, take-window}

pub NoNewline-take : (n : ℕ) (s : List ℕ) → NoNewline s → NoNewline (take n s)
NoNewline-take zero s h = tt
NoNewline-take (suc n) [] h = tt
NoNewline-take (suc n) (c ∷ s) h = (h.0, NoNewline-take n s h.1)

pub NoNewline-append : (s : List ℕ) (c : ℕ) → NoNewline s → c ≢ newline → NoNewline (s ++ (c ∷ []))
NoNewline-append [] c h ne = (ne, tt)
NoNewline-append (d ∷ s) c h ne = (h.0, NoNewline-append s c h.1 ne)

pub NoNewline-window :
    (buf : List ℕ) (r n j : ℕ)
    → r < 2 ^ 32
    → j < n
    → NoNewline (window buf r n)
    → get_or buf (u32 (r + j) % input_buf) 0 ≢ newline
NoNewline-window buf r zero j h small s = absurd (omega arith)
NoNewline-window buf r (suc n) zero h small s =
    let start : u32 (r + 0) ≡ r = omega arith in rw start s.0
NoNewline-window buf r (suc n) (suc j) h small s =
    let next : u32 (u32 (r + 1) + j) ≡ u32 (r + suc j) = omega arith in
    rw next at (NoNewline-window buf (u32 (r + 1)) n j (omega arith) (omega arith) s.1)

-- The edit index stands at the write index exactly if the line is empty.
pub empty_line : (i : Input) (v : View) → Shows i v → (i.e == i.w) ≡ (length v.line == 0)
empty_line i v s =
    let w_at = s.w_at in
    let e_at = s.e_at in
    let bounded = s.bounded in
    let word = s.word in
    rw (w_at, e_at)
      (elim (Bool-cases (length v.line == 0)) [
        | inl empty ↦ ground (arith, word)
        | inr more ↦
            let apart : u32 (i.r + length v.ready + length v.line) ≢ u32 (i.r + length v.ready) =
              λ h. ground arith in
            ground arith
      ])

-- One character of the line goes.
pub erased :
    (i : Input) (v : View)
    → Shows i v
    → (i.e == i.w) ≡ false
    → Shows (record i { e = sub32 i.e 1 }) (record v { line = erase v.line })
erased i v s more =
    let some_char : 0 < length v.line = ground (arith, empty_line i v s) in
    let size : length (erase v.line) ≡ length v.line - 1 =
      omega (arith, length-take (length v.line - 1) v.line) in
    record {
      storage = s.storage;
      word = s.word;
      bounded = omega (arith, s.bounded, size);
      w_at = s.w_at;
      e_at = omega (arith, s.e_at, size, s.word);
      ready_at = s.ready_at;
      line_at =
          ap (window i.buf i.w) size
          ∙ sym (take-window i.buf i.w (length v.line - 1) (length v.line) (omega arith))
          ∙ ap (take (length v.line - 1)) s.line_at;
      edited = NoNewline-take (length v.line - 1) v.line s.edited;
    }

-- The character before the edit index is no newline.
pub last_char :
    (i : Input) (v : View)
    → Shows i v
    → (i.e == i.w) ≡ false
    → (get_or i.buf (sub32 i.e 1 % input_buf) 0 == newline) ≡ false
last_char i v s more =
    let some_char : 0 < length v.line = ground (arith, empty_line i v s) in
    let w_word : i.w < 2 ^ 32 = omega (arith, s.w_at) in
    let at : sub32 i.e 1 ≡ u32 (i.w + (length v.line - 1)) =
      omega (arith, s.w_at, s.e_at, s.word) in
    let ne =
      NoNewline-window i.buf i.w (length v.line) (length v.line - 1) w_word (omega arith)
        (rw s.line_at s.edited) in
    let ne' : get_or i.buf (sub32 i.e 1 % input_buf) 0 ≢ newline = rw at ne in ground arith

pub no_bytes : (s : List ℕ) → length s ≡ 0 → s ≡ []
no_bytes [] h = refl
no_bytes (c ∷ s) h = absurd (omega arith)

pub emptied :
    (i : Input) (v : View) → Shows i v → length v.line ≡ 0 → Shows i (record v { line = [] })
emptied i v s h = subst (λ u. Shows i u) (ap (λ l. record v { line = l }) (no_bytes v.line h)) s

pub unerased :
    (i : Input) (v : View)
    → Shows i v
    → length v.line ≡ 0
    → Shows i (record v { line = erase v.line })
unerased i v s h =
    let e = no_bytes v.line h in
    subst (λ u. Shows i u) (ap (λ l. record v { line = l }) (e ∙ sym (ap erase e))) s

pub kill_line-Shows :
    (left : ℕ) (i : Input) (v : View) (shown : List ℕ)
    → Shows i v
    → length v.line ≤ left
    → Shows (kill_line left i shown).input (record v { line = [] })
unfolding kill_line
kill_line-Shows zero i v shown s le = emptied i v s (omega arith)
kill_line-Shows (suc left) i v shown s le = elim (Bool-cases (i.e == i.w)) [
  | inl empty ↦ rw empty (emptied i v s (ground (arith, empty_line i v s)))
  | inr more ↦
      let size : length (erase v.line) ≡ length v.line - 1 =
        omega (arith, length-take (length v.line - 1) v.line) in
      rw (more, last_char i v s more)
        (kill_line-Shows left (record i { e = sub32 i.e 1 }) (record v { line = erase v.line })
          (backspace ∷ shown) (erased i v s more) (omega (arith, size)))
]
