-- ===== src/Console/Lines.antt =====
-- The console as a queue of finished lines and a line that is being edited.
use swe3004_operating_system.Prelude.{
  ℕ, zero, suc, ◌+◌, ◌-◌, ◌%◌, ◌^◌, ◌≤◌, ◌<◌, ◌≡◌, ◌≢◌, refl, ◌∙◌, ap, ap₂, Bool, not, ◌||◌, List,
  [], ◌∷◌, ◌++◌, ltb, ◌==◌, if◌then◌else◌, arith, length, get_or, set, take, get_or-set_self,
  get_or-set_ne, u32,
}
use swe3004_operating_system.Console.{
  input_buf, Input, end_of_file, control_h, control_p, control_u, newline,
}

-- The `n` bytes from index `r` on.
abbrev pub window : List ℕ → ℕ → ℕ → List ℕ
window buf r zero = []
window buf r (suc n) = get_or buf (r % input_buf) 0 ∷ window buf (u32 (r + 1)) n

-- What can be read, and the line that is being edited.
pub record View : Type 0 where
  pub ready : List ℕ
  pub line : List ℕ

abbrev pub NoNewline : List ℕ → Type 0
NoNewline [] = Unit {0}
NoNewline (c ∷ s) = (c ≢ newline) × NoNewline s

pub record Shows (i : Input) (v : View) : Type 0 where
  pub storage : length i.buf ≡ input_buf
  pub word : i.r < 2 ^ 32
  pub bounded : length v.ready + length v.line ≤ input_buf
  pub w_at : i.w ≡ u32 (i.r + length v.ready)
  pub e_at : i.e ≡ u32 (i.r + length v.ready + length v.line)
  pub ready_at : window i.buf i.r (length v.ready) ≡ v.ready
  pub line_at : window i.buf i.w (length v.line) ≡ v.line
  pub edited : NoNewline v.line

-- The line discipline.
abbrev pub erase : List ℕ → List ℕ
erase s = take (length s - 1) s

abbrev pub is_full : View → Bool
is_full v = not (ltb (length v.ready + length v.line) input_buf)

unfoldable pub add_char : ℕ → View → View
add_char c v =
    if (c == newline) || (c == end_of_file) || (length v.ready + length v.line + 1 == input_buf)
    then record { ready = v.ready ++ (v.line ++ (c ∷ [])); line = [] }
    else record v { line = v.line ++ (c ∷ []) }

unfoldable pub typed : ℕ → View → View
unfolding add_char
typed c v =
    if c == control_p
    then v
    else if c == control_u
    then record v { line = [] }
    else if (c == control_h) || (c == 127)
    then record v { line = erase v.line }
    else if (c == 0) || is_full v
    then v
    else add_char (if c == 13 then newline else c) v

pub window-append :
    (buf : List ℕ) (r m n : ℕ)
    → r < 2 ^ 32
    → window buf r (m + n) ≡ window buf r m ++ window buf (u32 (r + m)) n
window-append buf r zero n h =
    let none_yet : 0 + n ≡ n = omega arith in
    let start : u32 (r + 0) ≡ r = omega arith in rw (none_yet, start) refl
window-append buf r (suc m) n h =
    let more : suc m + n ≡ suc (m + n) = omega arith in
    let next : u32 (u32 (r + 1) + m) ≡ u32 (r + suc m) = omega arith in
    ap (window buf r) more
    ∙ ap (λ s. get_or buf (r % input_buf) 0 ∷ s)
        (window-append buf (u32 (r + 1)) m n (omega arith) ∙ rw next refl)

-- A byte that is put behind the window does not show in it.
pub window-set :
    (buf : List ℕ) (r n k c : ℕ)
    → r < 2 ^ 32
    → n ≤ k
    → k < input_buf
    → window (set buf (u32 (r + k) % input_buf) c) r n ≡ window buf r n
window-set buf r zero k c h le small = refl
window-set buf r (suc n) zero c h le small = absurd (omega arith)
window-set buf r (suc n) (suc k) c h le small =
    let next : u32 (u32 (r + 1) + k) ≡ u32 (r + suc k) = omega arith in
    ap₂ ◌∷◌ (get_or-set_ne buf (u32 (r + suc k) % input_buf) (r % input_buf) c 0 (omega arith))
      (rw next at (window-set buf (u32 (r + 1)) n k c (omega arith) (omega arith) (omega arith)))

-- One behind its end does.
pub window-set_end :
    (buf : List ℕ) (r n c : ℕ)
    → r < 2 ^ 32
    → length buf ≡ input_buf
    → n < input_buf
    → window (set buf (u32 (r + n) % input_buf) c) r (suc n) ≡ window buf r n ++ (c ∷ [])
window-set_end buf r n c h len small =
    let i = u32 (r + n) % input_buf in
    let more : suc n ≡ n + 1 = omega arith in
    ap (window (set buf i c) r) more
    ∙ window-append (set buf i c) r n 1 h
    ∙ ap₂ (λ s t. s ++ t) (window-set buf r n n c h (omega arith) small)
        (ap (λ x. x ∷ []) (get_or-set_self buf i c 0 (omega arith)))

pub take-window : (buf : List ℕ) (r m n : ℕ) → m ≤ n → take m (window buf r n) ≡ window buf r m
take-window buf r zero n h = refl
take-window buf r (suc m) zero h = absurd (omega arith)
take-window buf r (suc m) (suc n) h =
    ap (λ s. get_or buf (r % input_buf) 0 ∷ s) (take-window buf (u32 (r + 1)) m n (omega arith))

pub length-window : (buf : List ℕ) (r n : ℕ) → length (window buf r n) ≡ n
length-window buf r zero = refl
length-window buf r (suc n) = ap suc (length-window buf (u32 (r + 1)) n)
