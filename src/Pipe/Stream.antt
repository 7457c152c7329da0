-- ===== src/Pipe/Stream.antt =====
-- A pipe over a whole history of calls, by any writers and readers in any order.
use swe3004_operating_system.Prelude.{
  ℕ, ◌-◌, ◌≡◌, refl, sym, ◌∙◌, ap, ap₂, inl, inr, Bool, true, false, ◌&&◌, List, [], ◌∷◌, ◌++◌,
  ◌==◌, if◌then◌else◌, take, take-append-drop, Bool-cases,
}
use mathlib.Core.List.{append-nil, append_assoc}
use swe3004_operating_system.Pipe.{
  Pipe, pipe_size, close, write, ReadEnd, got, stopped, waits_for_bytes, read,
}
use swe3004_operating_system.Pipe.Contents.{IsValid, count, contents, write_refines, read_refines}

-- What one caller does between taking the lock and giving it up.
pub data Event : Type 0 where
  writes : (killed : Bool) → List ℕ → Event
  reads : (killed : Bool) → ℕ → Event
  closes : (writable : Bool) → Event

pub after : Event → Pipe → Pipe
after (writes killed bytes) p = (write killed bytes p).1
after (reads killed n) p = (read killed n p).1
after (closes writable) p = (close writable p).0

-- The bytes that an event puts into the pipe: those for which there is room when it starts.
pub accepted : Event → Pipe → List ℕ
accepted (writes killed bytes) p = take (pipe_size - count p) bytes
accepted (reads killed n) p = []
accepted (closes writable) p = []

abbrev pub bytes_of : ReadEnd → List ℕ
bytes_of (got bytes) = bytes
bytes_of stopped = []
bytes_of waits_for_bytes = []

-- The bytes that it copies out to a reader.
pub delivered : Event → Pipe → List ℕ
delivered (writes killed bytes) p = []
delivered (reads killed n) p = bytes_of (read killed n p).0
delivered (closes writable) p = []

idle_bytes : (killed : Bool) → bytes_of (if killed then stopped else waits_for_bytes) ≡ []
idle_bytes true = refl
idle_bytes false = refl

step_stream :
    (e : Event) (p : Pipe)
    → IsValid p
    → IsValid (after e p) × (contents p ++ accepted e p ≡ delivered e p ++ contents (after e p))
unfolding after accepted delivered close
step_stream (writes killed bytes) p v =
    let w = write_refines killed bytes p v in (w.valid, sym w.added)
step_stream (reads killed n) p v =
    let (out, rest, valid, _) = read_refines killed n p v in
    (
      valid,
      elim (Bool-cases ((count p == 0) && p.writeopen)) [
        | inl idle ↦
            append-nil (contents p)
            ∙ sym (ap₂ ◌++◌ (ap bytes_of (rw idle at out) ∙ idle_bytes killed) (rw idle at rest))
        | inr busy ↦
            append-nil (contents p)
            ∙ sym (take-append-drop n (contents p))
            ∙ sym (ap₂ ◌++◌ (ap bytes_of (rw busy at out)) (rw busy at rest))
      ],
    )
step_stream (closes true) p v = (
  record {
    storage = v.storage;
    nread_word = v.nread_word;
    nwrite_word = v.nwrite_word;
    bounded = v.bounded;
  },
  append-nil (contents p),
)
step_stream (closes false) p v = (
  record {
    storage = v.storage;
    nread_word = v.nread_word;
    nwrite_word = v.nwrite_word;
    bounded = v.bounded;
  },
  append-nil (contents p),
)

pub run : List Event → Pipe → Pipe
run [] p = p
run (e ∷ es) p = run es (after e p)

pub all_accepted : List Event → Pipe → List ℕ
all_accepted [] p = []
all_accepted (e ∷ es) p = accepted e p ++ all_accepted es (after e p)

pub all_delivered : List Event → Pipe → List ℕ
all_delivered [] p = []
all_delivered (e ∷ es) p = delivered e p ++ all_delivered es (after e p)

-- Over any history of reads, writes and closes, in any order, by live or killed callers, the bytes
-- that readers got, followed by those still in the pipe, are the bytes that it held at first,
-- followed by those that it accepted: nothing is lost, repeated or reordered, whatever the counters
-- wrap to. The pipe stays valid.
pub run_stream :
    (es : List Event) (p : Pipe)
    → IsValid p
    → IsValid (run es p)
      × (contents p ++ all_accepted es p ≡ all_delivered es p ++ contents (run es p))
unfolding run all_accepted all_delivered
run_stream [] p v = (v, append-nil (contents p))
run_stream (e ∷ es) p v =
    let (v', here) = step_stream e p v in
    let (v'', later) = run_stream es (after e p) v' in
    (
      v'',
      sym (append_assoc (contents p) (accepted e p) (all_accepted es (after e p)))
          ∙ ap (λ x. x ++ all_accepted es (after e p)) here
          ∙ append_assoc (delivered e p) (contents (after e p)) (all_accepted es (after e p))
          ∙ ap (◌++◌ (delivered e p)) later
          ∙ sym (
              append_assoc (delivered e p) (all_delivered es (after e p))
                (contents (run es (after e p)))),
    )
