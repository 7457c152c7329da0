-- ===== src/Pipe/Contents.antt =====
-- A pipe holds a queue of at most `pipe_size` bytes, whatever its counters have wrapped to.
use swe3004_operating_system.Prelude.{
  ℕ, zero, suc, ◌+◌, ◌-◌, ◌%◌, ◌^◌, ◌≤◌, ◌<◌, ◌≡◌, refl, ◌∙◌, ap, ap₂, sym, Bool, true, false, not,
  ◌&&◌, ◌||◌, List, [], ◌∷◌, ◌++◌, leb, ◌==◌, if◌then◌else◌, arith, length, get_or, set, take, drop,
  length-set, get_or-set_self, get_or-set_ne, u32, sub32, inl, inr, Bool-cases,
}
use mathlib.Core.List.{append-nil, append_assoc}
use swe3004_operating_system.Pipe.{
  Pipe, pipe_size, WriteEnd, wrote, broken, waits_for_room, is_full, put_byte, write, is_empty,
  take_bytes, got, stopped, waits_for_bytes, read,
}

-- The number of bytes in the pipe.
abbrev pub count : Pipe → ℕ
count p = sub32 p.nwrite p.nread

pub record IsValid (p : Pipe) : Type 0 where
  pub storage : length p.buf ≡ pipe_size
  pub nread_word : p.nread < 2 ^ 32
  pub nwrite_word : p.nwrite < 2 ^ 32
  pub bounded : count p ≤ pipe_size

-- The `n` bytes from counter `r` on.
abbrev pub window : List ℕ → ℕ → ℕ → List ℕ
window buf r zero = []
window buf r (suc n) = get_or buf (r % pipe_size) 0 ∷ window buf (u32 (r + 1)) n

abbrev pub contents : Pipe → List ℕ
contents p = window p.buf p.nread (count p)

pub length-window : (buf : List ℕ) (r n : ℕ) → length (window buf r n) ≡ n
length-window buf r zero = refl
length-window buf r (suc n) = ap suc (length-window buf (u32 (r + 1)) n)

take-nil : (n : ℕ) → take {A = ℕ} n [] ≡ []
take-nil zero = refl
take-nil (suc n) = refl

window-set :
    (buf : List ℕ) (r n i c : ℕ)
    → length buf ≡ pipe_size
    → r < 2 ^ 32
    → n < pipe_size
    → i ≡ u32 (r + n) % pipe_size
    → window (set buf i c) r (suc n) ≡ window buf r n ++ (c ∷ [])
window-set buf r zero i c len small h e =
    let same : i ≡ r % pipe_size = omega arith in
    ap (λ x. x ∷ []) (rw same (get_or-set_self buf (r % pipe_size) c 0 (omega arith)))
window-set buf r (suc n) i c len small h e =
    ap₂ ◌∷◌ (get_or-set_ne buf i (r % pipe_size) c 0 (omega arith))
      (window-set buf (u32 (r + 1)) n i c len (omega arith) (omega arith) (omega arith))

put_byte-IsValid :
    (c : ℕ) {p : Pipe}
    → IsValid p
    → is_full p ≡ false
    → IsValid (put_byte c p) × (count (put_byte c p) ≡ count p + 1)
unfolding put_byte
put_byte-IsValid c {p} v room =
    let below : count p < pipe_size = ground (arith, v.nread_word, v.nwrite_word, v.bounded) in
    let grown : count (put_byte c p) ≡ count p + 1 = omega (arith, v.nread_word, v.nwrite_word) in
    (
      record {
        storage = length-set p.buf (p.nwrite % pipe_size) c ∙ v.storage;
        nread_word = v.nread_word;
        nwrite_word = omega arith;
        bounded = omega (arith, grown, below);
      },
      grown,
    )

contents-put_byte :
    (c : ℕ) {p : Pipe}
    → IsValid p
    → is_full p ≡ false
    → contents (put_byte c p) ≡ contents p ++ (c ∷ [])
unfolding put_byte
contents-put_byte c {p} v room =
    let below : count p < pipe_size = ground (arith, v.nread_word, v.nwrite_word, v.bounded) in
    let grown : count (put_byte c p) ≡ suc (count p) =
      omega (arith, (put_byte-IsValid c v room).1) in
    ap (window (set p.buf (p.nwrite % pipe_size) c) p.nread) grown
    ∙ window-set p.buf p.nread (count p) (p.nwrite % pipe_size) c v.storage v.nread_word below
        (omega (arith, v.nread_word, v.nwrite_word))

-- How a call of `write` with room for `room` bytes ends.
pub record Written (killed : Bool) (bytes : List ℕ) (room : ℕ) (p : Pipe) (out : WriteEnd × Pipe)
    : Type 0 where
  pub valid : IsValid out.1
  pub added : contents out.1 ≡ contents p ++ take room bytes
  pub ended : out.0 ≡ (
      if leb (length bytes) room
      then wrote
      else if not p.readopen || killed
      then broken
      else waits_for_room (drop room bytes))
  pub readopen : out.1.readopen ≡ p.readopen

pub write-Written :
    (killed : Bool) (bytes : List ℕ) (room : ℕ) (p : Pipe)
    → IsValid p
    → count p + room ≡ pipe_size
    → Written killed bytes room p (write killed bytes p)
unfolding write
write-Written killed [] room p v h = record {
  valid = v;
  added = rw (take-nil room) (sym (append-nil (contents p)));
  ended = ground arith;
  readopen = refl;
}
write-Written killed (c ∷ bytes) zero p v h =
    let full : is_full p ≡ true = ground (arith, v.nread_word, v.nwrite_word) in
    rw full (record {
      valid = ground (arith, v);
      added = ground (arith, append-nil (contents p));
      ended = ground arith;
      readopen = ground arith;
    })
write-Written killed (c ∷ bytes) (suc room) p v h =
    let open_room : is_full p ≡ false = ground (arith, v.nread_word, v.nwrite_word) in
    let (v', grown) = put_byte-IsValid c v open_room in
    let rest = write-Written killed bytes room (put_byte c p) v' (omega (arith, grown)) in
    rw open_room (record {
      valid = rest.valid;
      added =
          rest.added
          ∙ ap (λ x. x ++ take room bytes) (contents-put_byte c v open_room)
          ∙ append_assoc (contents p) (c ∷ []) (take room bytes);
      ended = rest.ended ∙ ground arith;
      readopen = rest.readopen;
    })

drop-nil : (n : ℕ) → drop {A = ℕ} n [] ≡ []
drop-nil zero = refl
drop-nil (suc n) = refl

-- What the copying loop of `piperead` takes, from a pipe that holds `n` bytes.
pub record Taken (left n : ℕ) (p : Pipe) (out : List ℕ × Pipe) : Type 0 where
  pub valid : IsValid out.1
  pub bytes : out.0 ≡ take left (window p.buf p.nread n)
  pub rest : contents out.1 ≡ drop left (window p.buf p.nread n)
  pub kept : out.1 ≡ record p { nread = out.1.nread }

pub take_bytes-Taken :
    (left n : ℕ) (p : Pipe) → IsValid p → count p ≡ n → Taken left n p (take_bytes left p)
unfolding take_bytes
take_bytes-Taken zero n p v h = record {
  valid = v;
  bytes = refl;
  rest = ap (window p.buf p.nread) h;
  kept = refl;
}
take_bytes-Taken (suc left) zero p v h =
    let nothing : is_empty p ≡ true = ground (arith, v.nread_word, v.nwrite_word) in
    rw nothing (record { valid = v; bytes = refl; rest = ap (window p.buf p.nread) h; kept = refl })
take_bytes-Taken (suc left) (suc n) p v h =
    let some_byte : is_empty p ≡ false = ground (arith, v.nread_word, v.nwrite_word) in
    let p' : Pipe = record p { nread = u32 (p.nread + 1) } in
    let fewer : count p' ≡ n = omega (arith, v.nread_word, v.nwrite_word) in
    let v' : IsValid p' = record {
      storage = v.storage;
      nread_word = omega arith;
      nwrite_word = v.nwrite_word;
      bounded = omega (arith, fewer, v.bounded);
    } in
    let t = take_bytes-Taken left n p' v' fewer in
    rw some_byte (record {
      valid = t.valid;
      bytes = ap (λ x. get_or p.buf (p.nread % pipe_size) 0 ∷ x) t.bytes;
      rest = t.rest;
      kept = t.kept;
    })

-- `pipewrite` appends to the queue as many bytes as fit, in order. It returns if that was all, and
-- else it either fails, when the read end is closed or the writer was killed, or sleeps with the
-- bytes that are left. The pipe stays valid, though its counters may have wrapped.
pub write_refines :
    (killed : Bool) (bytes : List ℕ) (p : Pipe)
    → IsValid p
    → Written killed bytes (pipe_size - count p) p (write killed bytes p)
write_refines killed bytes p v =
    write-Written killed bytes (pipe_size - count p) p v (omega (arith, v.bounded))

-- `piperead` on an empty pipe with an open write end fails if the reader was killed and else
-- sleeps, and leaves the pipe as it was in every field. Otherwise it takes the first `n` bytes of the
-- queue, or all, and changes no field but `nread`.
pub read_refines :
    (killed : Bool) (n : ℕ) (p : Pipe)
    → IsValid p
    → let (e, p') = read killed n p in
      (e ≡ (
        if (count p == 0) && p.writeopen
        then (if killed then stopped else waits_for_bytes)
        else got (take n (contents p))))
      × (contents p' ≡ (if (count p == 0) && p.writeopen then contents p else drop n (contents p)))
      × IsValid p'
      × (p' ≡ (if (count p == 0) && p.writeopen then p else record p { nread = p'.nread }))
unfolding read
read_refines killed n p v =
    let t = take_bytes-Taken n (count p) p v refl in
    let same : is_empty p ≡ (count p == 0) = ground (arith, v.nread_word, v.nwrite_word) in
    rw same (elim (Bool-cases ((count p == 0) && p.writeopen)) [
      | inl idle ↦ rw idle (elim (Bool-cases killed) [
        | inl k ↦ rw k (refl, refl, v, refl)
        | inr k ↦ rw k (refl, refl, v, refl)
      ])
      | inr busy ↦ rw busy (ap got t.bytes, t.rest, t.valid, t.kept)
    ])
