-- ===== src/Console/Typing.antt =====
-- Typing follows the line discipline.
use swe3004_operating_system.Prelude.{
  ℕ, suc, ◌+◌, ◌%◌, ◌^◌, ◌<◌, ◌≡◌, ◌≢◌, refl, ◌∙◌, ap, ap₂, sym, false, ◌||◌, List, [], ◌∷◌, ◌++◌,
  ltb, ◌==◌, if◌then◌else◌, arith, length, length-append, set, length-set, u32, sub32, inl, inr,
  Bool-cases,
}
use swe3004_operating_system.Console.{
  input_buf, Input, end_of_file, control_h, control_p, control_u, newline, put_char, type_char,
}
use swe3004_operating_system.Console.Lines.{
  window, View, Shows, is_full, add_char, typed, window-append, window-set, window-set_end,
}
use swe3004_operating_system.Console.Erasing.{
  NoNewline-append, empty_line, erased, unerased, kill_line-Shows,
}

-- A character behind the line, which is still edited or is finished with it.
module _ (i : Input) (v : View) (c : ℕ) (s : Shows i v) (byte : c < 256)
    (room : is_full v ≡ false) where
  abbrev buf' : List ℕ
  buf' = set i.buf (i.e % input_buf) c

  below : length v.ready + length v.line < input_buf
  below = ground arith

  w_word : i.w < 2 ^ 32
  w_word = omega (arith, s.w_at)

  ready_kept : window buf' i.r (length v.ready) ≡ v.ready
  ready_kept =
      let at : i.e ≡ u32 (i.r + (length v.ready + length v.line)) = omega (arith, s.e_at) in
      rw at (
        window-set i.buf i.r (length v.ready) (length v.ready + length v.line) c s.word
          (omega arith) below)
      ∙ s.ready_at

  line_more : window buf' i.w (suc (length v.line)) ≡ v.line ++ (c ∷ [])
  line_more =
      let at : i.e ≡ u32 (i.w + length v.line) = omega (arith, s.e_at, s.w_at) in
      ap (λ e. window (set i.buf (e % input_buf) c) i.w (suc (length v.line))) at
      ∙ window-set_end i.buf i.w (length v.line) c w_word s.storage (omega (arith, below))
      ∙ ap (λ l. l ++ (c ∷ [])) s.line_at

  line_size : length (v.line ++ (c ∷ [])) ≡ suc (length v.line)
  line_size = length-append v.line (c ∷ []) ∙ omega arith

  still_edited :
      c ≢ newline
      → Shows (record i { buf = buf'; e = u32 (i.e + 1) }) (record v { line = v.line ++ (c ∷ []) })
  still_edited ne = record {
    storage = length-set i.buf (i.e % input_buf) c ∙ s.storage;
    word = s.word;
    bounded = omega (arith, line_size, below);
    w_at = s.w_at;
    e_at = omega (arith, line_size, s.e_at);
    ready_at = ready_kept;
    line_at = ap (window buf' i.w) line_size ∙ line_more;
    edited = NoNewline-append v.line c s.edited ne;
  }

  finished :
      Shows
        (record i { buf = buf'; e = u32 (i.e + 1); w = u32 (i.e + 1) })
        (record { ready = v.ready ++ (v.line ++ (c ∷ [])); line = [] })
  finished =
      let size : length (v.ready ++ (v.line ++ (c ∷ []))) ≡ length v.ready + suc (length v.line) =
        length-append v.ready (v.line ++ (c ∷ [])) ∙ omega (arith, line_size) in
      let w_at : i.w ≡ u32 (i.r + length v.ready) = s.w_at in
      record {
        storage = length-set i.buf (i.e % input_buf) c ∙ s.storage;
        word = s.word;
        bounded = omega (arith, size, below);
        w_at = omega (arith, size, s.e_at);
        e_at = omega (arith, size, s.e_at);
        ready_at =
            ap (window buf' i.r) size
            ∙ window-append buf' i.r (length v.ready) (suc (length v.line)) s.word
            ∙ ap₂ (λ a b. a ++ b) ready_kept
                (ap (λ w. window buf' w (suc (length v.line))) (sym w_at) ∙ line_more);
        line_at = refl;
        edited = tt;
      }

  put_char-Shows : Shows (put_char c i).input (add_char c v)
  unfolding put_char add_char
  put_char-Shows =
      let stored : c % 256 ≡ c = omega arith in
      let last : (u32 (i.e + 1) == u32 (i.r + input_buf))
          ≡ (length v.ready + length v.line + 1 == input_buf) =
        ground (arith, below, s.e_at, s.word) in
      rw stored (
        rw last
          (elim (Bool-cases (
            (c == newline)
            || (c == end_of_file)
            || (length v.ready + length v.line + 1 == input_buf))) [
              | inl ends ↦ rw ends finished
              | inr goes_on ↦ rw goes_on (still_edited (λ e. ground arith))
            ]))

-- The console shows some lines and an edited line, and a character below 256 is typed. Then it shows
-- what the line discipline makes of them: a character is added and a newline, an end of file or a full
-- ring finishes the line; a backspace takes the last character of the edited line, and a control-U all
-- of it, but neither what is finished; and a full ring takes nothing.
pub type_char_refines :
    (c : ℕ) (i : Input) (v : View) → Shows i v → c < 256 → Shows (type_char c i).input (typed c v)
unfolding type_char typed
type_char_refines c i v s byte = elim (Bool-cases (c == control_p)) [
  | inl listing ↦ rw listing s
  | inr other_p ↦ elim (Bool-cases (c == control_u)) [
    | inl kill ↦ rw (other_p, kill) (kill_line-Shows input_buf i v [] s (omega (arith, s.bounded)))
    | inr other_u ↦ elim (Bool-cases ((c == control_h) || (c == 127))) [
      | inl rub ↦ elim (Bool-cases (i.e == i.w)) [
        | inl empty ↦
            rw (other_p, other_u, rub, empty) (unerased i v s (ground (arith, empty_line i v s)))
        | inr more ↦ rw (other_p, other_u, rub, more) (erased i v s more)
      ]
      | inr other_h ↦
          let size : ltb (sub32 i.e i.r) input_buf
              ≡ ltb (length v.ready + length v.line) input_buf =
            ground (arith, s.e_at, s.bounded, s.word) in
          rw (other_p, other_u, other_h, size)
            (elim (Bool-cases ((c == 0) || is_full v)) [
              | inl dropped ↦ rw dropped s
              | inr taken ↦
                  let room : is_full v ≡ false = ground arith in
                  rw taken
                    (put_char-Shows i v (if c == 13 then newline else c) s (ground arith) room)
            ])
    ]
  ]
]
