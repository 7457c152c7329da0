-- ===== src/Tests/Pipes.antt =====
-- A pipe whose counters are about to wrap.
use swe3004_operating_system.Prelude.{
  ℕ, ◌-◌, ◌≡◌, arith, true, false, List, [], ◌∷◌, ◌++◌, replicate, length-replicate,
}
use swe3004_operating_system.Pipe.{Pipe, pipe_size, write, read, got}
use swe3004_operating_system.Pipe.Contents.{
  IsValid, count, contents, Written, write_refines, read_refines,
}
use swe3004_operating_system.Pipe.Stream.{
  Event, writes, reads, closes, run, all_accepted, all_delivered, run_stream,
}

abbrev worn : Pipe
worn = record {
  buf = replicate 512 65;
  nread = 4294967294;
  nwrite = 4294967295;
  readopen = true;
  writeopen = true;
}

worn-IsValid : IsValid worn
worn-IsValid = record {
  storage = length-replicate {A = ℕ} 512 65;
  nread_word = omega arith;
  nwrite_word = omega arith;
  bounded = omega arith;
}

write_refines_example :
    Written false (1 ∷ 2 ∷ 3 ∷ []) (pipe_size - count worn) worn (write false (1 ∷ 2 ∷ 3 ∷ []) worn)
write_refines_example = write_refines false (1 ∷ 2 ∷ 3 ∷ []) worn worn-IsValid

read_refines_example :
    let (e, p') = read false 10 worn in
    (e ≡ got (65 ∷ [])) × (contents p' ≡ []) × IsValid p' × (p' ≡ record worn { nread = p'.nread })
read_refines_example = read_refines false 10 worn worn-IsValid

abbrev history : List Event
history = writes false (1 ∷ 2 ∷ 3 ∷ []) ∷ reads false 2 ∷ closes true ∷ reads false 9 ∷ []

run_stream_example :
    IsValid (run history worn)
    × (contents worn ++ all_accepted history worn
        ≡ all_delivered history worn ++ contents (run history worn))
run_stream_example = run_stream history worn worn-IsValid
