-- ===== src/Tests/Consoles.antt =====
-- A ring whose indices are about to wrap, with one finished line, "a", and "b" edited.
use swe3004_operating_system.Prelude.{◌-◌, ◌^◌, ◌≡◌, refl, arith, false, [], ◌∷◌, ◌++◌, replicate}
use swe3004_operating_system.Console.{Input, type_char, consoleread}
use swe3004_operating_system.Console.Lines.{View, Shows, typed}
use swe3004_operating_system.Console.Typing.{type_char_refines}
use swe3004_operating_system.Console.Reading.{read_line, consoleread_refines}

abbrev ring : Input
ring = record { buf = 98 ∷ (replicate 125 0 ++ (97 ∷ 10 ∷ [])); r = 2 ^ 32 - 2; w = 0; e = 1 }

abbrev view : View
view = record { ready = 97 ∷ 10 ∷ []; line = 98 ∷ [] }

ring-Shows : Shows ring view
ring-Shows = record {
  storage = refl;
  word = omega arith;
  bounded = omega arith;
  w_at = refl;
  e_at = refl;
  ready_at = refl;
  line_at = refl;
  edited = (λ e. omega arith, tt);
}

type_char_refines_example : Shows (type_char 21 ring).input (typed 21 view)
type_char_refines_example = type_char_refines 21 ring view ring-Shows (omega arith)

consoleread_refines_example :
    ((consoleread 5 false ring).0 ≡ (read_line 5 false (97 ∷ 10 ∷ [])).0)
    × Shows
        (consoleread 5 false ring).1
        (record { ready = (read_line 5 false (97 ∷ 10 ∷ [])).1; line = 98 ∷ [] })
consoleread_refines_example = consoleread_refines 5 false ring view ring-Shows
