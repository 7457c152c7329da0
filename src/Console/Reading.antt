-- ===== src/Console/Reading.antt =====
-- Reading takes finished lines in the order in which they were typed.
use swe3004_operating_system.Prelude.{
  ℕ, zero, suc, ◌+◌, ◌%◌, ◌≡◌, ◌≢◌, refl, ap, Bool, true, false, List, [], ◌∷◌, ◌==◌, if◌then◌else◌,
  arith, get_or, u32, inl, inr, Bool-cases,
}
use swe3004_operating_system.Console.{
  input_buf, Input, end_of_file, newline, ReadEnd, got, waits, in_front, consoleread,
}
use swe3004_operating_system.Console.Lines.{View, Shows}

-- What a reader gets of the finished bytes, and what it leaves.
unfoldable pub read_line : (n : ℕ) (started : Bool) → List ℕ → ReadEnd × List ℕ
read_line zero started s = (got [], s)
read_line (suc n) started [] = (waits [], [])
read_line (suc n) started (c ∷ s) =
    let (ended, s') = read_line n true s in
    if c == end_of_file
    then (got [], if started then c ∷ s else s)
    else if c == newline
    then (got (c ∷ []), s)
    else (in_front c ended, s')

abbrev view_of : (ready line : List ℕ) → View
view_of ready line = record { ready = ready; line = line }

none_ready : (i : Input) (line : List ℕ) → Shows i (view_of [] line) → (i.r == i.w) ≡ true
none_ready i line s = let w_at = s.w_at in let word = s.word in ground arith

some_ready :
    (i : Input) (c : ℕ) (ready line : List ℕ)
    → Shows i (view_of (c ∷ ready) line)
    → (i.r == i.w) ≡ false
some_ready i c ready line s =
    let apart : i.r ≢ i.w = λ h. omega (arith, s.w_at, s.word, s.bounded) in ground arith

first_ready :
    (i : Input) (c : ℕ) (ready line : List ℕ)
    → Shows i (view_of (c ∷ ready) line)
    → get_or i.buf (i.r % input_buf) 0 ≡ c
first_ready i c ready line s = let same = s.ready_at in ap (λ l. get_or l 0 0) same

abbrev tail_ : List ℕ → List ℕ
tail_ [] = []
tail_ (c ∷ l) = l

passed :
    (i : Input) (c : ℕ) (ready line : List ℕ)
    → Shows i (view_of (c ∷ ready) line)
    → Shows (record i { r = u32 (i.r + 1) }) (view_of ready line)
passed i c ready line s = record {
  storage = s.storage;
  word = omega arith;
  bounded = omega (arith, s.bounded);
  w_at = omega (arith, s.w_at);
  e_at = omega (arith, s.e_at);
  ready_at = ap tail_ s.ready_at;
  line_at = s.line_at;
  edited = s.edited;
}

-- The end of file stays for the next reader, or goes.
kept :
    (started : Bool) (i i' : Input) (all rest line : List ℕ)
    → Shows i (view_of all line)
    → Shows i' (view_of rest line)
    → Shows (if started then i else i') (view_of (if started then all else rest) line)
kept true i i' all rest line s s' = s
kept false i i' all rest line s s' = s'

consoleread-Shows :
    (n : ℕ) (started : Bool) (i : Input) (ready line : List ℕ)
    → Shows i (view_of ready line)
    → ((consoleread n started i).0 ≡ (read_line n started ready).0)
      × Shows (consoleread n started i).1 (view_of (read_line n started ready).1 line)
unfolding consoleread read_line
consoleread-Shows zero started i ready line s = (refl, s)
consoleread-Shows (suc n) started i [] line s = rw (none_ready i line s) (refl, s)
consoleread-Shows (suc n) started i (c ∷ ready) line s =
    let some_byte = some_ready i c ready line s in
    let first = first_ready i c ready line s in
    let next = passed i c ready line s in
    let (same, shows) = consoleread-Shows n true (record i { r = u32 (i.r + 1) }) ready line next in
    rw (some_byte, first)
      (elim (Bool-cases (c == end_of_file)) [
        | inl eof ↦
            rw eof
              (refl, kept started i (record i { r = u32 (i.r + 1) }) (c ∷ ready) ready line s next)
        | inr more ↦ elim (Bool-cases (c == newline)) [
          | inl ends ↦ rw (more, ends) (refl, next)
          | inr goes_on ↦ rw (more, goes_on) (ap (in_front c) same, shows)
        ]
      ])

-- The console shows some finished bytes. A reader gets the first line of them with its newline, or as
-- much of it as it asked for, or the bytes before an end of file, in the order of typing. An end of
-- file behind other bytes stays for the next reader. The reader sleeps only if it has got all that was
-- finished and that was no whole line. What it leaves, and the edited line, is what the console shows.
pub consoleread_refines :
    (n : ℕ) (started : Bool) (i : Input) (v : View)
    → Shows i v
    → let (ended, left) = read_line n started v.ready in
      ((consoleread n started i).0 ≡ ended)
      × Shows (consoleread n started i).1 (record v { ready = left })
consoleread_refines n started i v s = consoleread-Shows n started i v.ready v.line s
