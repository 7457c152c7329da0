-- ===== src/Console.antt =====
-- console.c: the ring of typed characters and its line editing. `cons.lock` is held around each
-- function; what `consputc` shows is a list of its arguments.
pub mod Lines
pub mod Erasing
pub mod Typing
pub mod Reading
use swe3004_operating_system.Prelude.{
  ℕ, zero, suc, ◌+◌, ◌%◌, Bool, true, false, ◌&&◌, ◌||◌, not, List, [], ◌∷◌, ltb, ◌==◌,
  if◌then◌else◌, get_or, set, u32, sub32,
}

abbrev pub input_buf : ℕ
input_buf = 128

-- `input`. The three indices are unsigned and wrap.
pub record Input : Type 0 where
  pub buf : List ℕ
  pub r : ℕ
  pub w : ℕ
  pub e : ℕ

-- `C('D')`, `C('H')`, `C('P')`, `C('U')`, and BACKSPACE
abbrev pub end_of_file : ℕ
end_of_file = 4

abbrev pub control_h : ℕ
control_h = 8

abbrev pub control_p : ℕ
control_p = 16

abbrev pub control_u : ℕ
control_u = 21

abbrev pub newline : ℕ
newline = 10

abbrev pub backspace : ℕ
backspace = 0x100

-- What a character does: the ring, what is shown, and whether readers are woken.
pub record Typed : Type 0 where
  pub input : Input
  pub shown : List ℕ
  pub wakes : Bool

-- The loop of `C('U')`, with at most `left` rounds.
pub kill_line : (left : ℕ) → Input → List ℕ → Typed
kill_line zero i shown = record { input = i; shown = shown; wakes = false }
kill_line (suc left) i shown =
    let rest = kill_line left (record i { e = sub32 i.e 1 }) (backspace ∷ shown) in
    if (i.e == i.w) || (get_or i.buf (sub32 i.e 1 % input_buf) 0 == newline)
    then record { input = i; shown = shown; wakes = false }
    else rest

-- The default case with room in the ring, for `c` after the translation of '\r'.
pub put_char : ℕ → Input → Typed
put_char c i =
    let i' = record i { buf = set i.buf (i.e % input_buf) (c % 256); e = u32 (i.e + 1) } in
    if (c == newline) || (c == end_of_file) || (i'.e == u32 (i.r + input_buf))
    then record { input = record i' { w = i'.e }; shown = c ∷ []; wakes = true }
    else record { input = i'; shown = c ∷ []; wakes = false }

-- One round of the loop of `consoleintr`. `C('P')` only asks for a listing after the loop.
pub type_char : ℕ → Input → Typed
unfolding kill_line put_char
type_char c i =
    if c == control_p
    then record { input = i; shown = []; wakes = false }
    else if c == control_u
    then kill_line input_buf i []
    else if (c == control_h) || (c == 127)
    then (if i.e == i.w
        then record { input = i; shown = []; wakes = false }
        else record { input = record i { e = sub32 i.e 1 }; shown = backspace ∷ []; wakes = false })
    else if (c == 0) || not (ltb (sub32 i.e i.r) input_buf)
    then record { input = i; shown = []; wakes = false }
    else put_char (if c == 13 then newline else c) i

-- `consoleintr`, over the characters that `getc` returns; the flag asks for a listing.
pub consoleintr : List ℕ → Input → Input × Bool
unfolding type_char
consoleintr [] i = (i, false)
consoleintr (c ∷ cs) i =
    let (i', dump) = consoleintr cs (type_char c i).input in (i', (c == control_p) || dump)

-- How the loop of `consoleread` ends: with these bytes, or asleep with bytes still to read; a killed
-- process gets -1 where it would sleep.
pub data ReadEnd : Type 0 where
  got : List ℕ → ReadEnd
  waits : List ℕ → ReadEnd

abbrev pub in_front : ℕ → ReadEnd → ReadEnd
in_front c (got bytes) = got (c ∷ bytes)
in_front c (waits bytes) = waits (c ∷ bytes)

-- The loop with `n` bytes to go; `started` says that `n < target`.
pub consoleread : (n : ℕ) (started : Bool) → Input → ReadEnd × Input
consoleread zero started i = (got [], i)
consoleread (suc n) started i =
    let i' = record i { r = u32 (i.r + 1) } in
    let c = get_or i.buf (i.r % input_buf) 0 in
    let (ended, i'') = consoleread n true i' in
    if i.r == i.w
    then (waits [], i)
    else if c == end_of_file
    then (got [], if started then i else i')
    else if c == newline
    then (got (c ∷ []), i')
    else (in_front c ended, i'')
