-- ===== src/Pipe.antt =====
-- pipe.c: a ring of bytes between two files. Each function here is what a caller does from taking
-- `p->lock` to giving it up, by returning or by going to sleep; `killed` is `myproc()->killed`.
pub mod Contents
pub mod Stream
use swe3004_operating_system.Prelude.{
  ℕ, zero, suc, ◌+◌, ◌%◌, Bool, true, false, not, ◌&&◌, ◌||◌, List, [], ◌∷◌, ◌==◌, if◌then◌else◌,
  get_or, set, u32, minus_one,
}

abbrev pub pipe_size : ℕ
pipe_size = 512

-- `struct pipe`. `nread` and `nwrite` are unsigned and wrap.
pub record Pipe : Type 0 where
  pub buf : List ℕ
  pub nread : ℕ
  pub nwrite : ℕ
  pub readopen : Bool
  pub writeopen : Bool

-- What `pipealloc` sets up in a fresh page.
pub init : List ℕ → Pipe
init page = record { buf = page; nread = 0; nwrite = 0; readopen = true; writeopen = true }

-- The second component says that the page is freed.
pub close : (writable : Bool) → Pipe → Pipe × Bool
close writable p =
    let p' = if writable then record p { writeopen = false } else record p { readopen = false } in
    (p', not p'.readopen && not p'.writeopen)

pub data WriteEnd : Type 0 where
  wrote : WriteEnd
  broken : WriteEnd
  -- asleep on `nwrite`, with these bytes still to write; readers have been woken
  waits_for_room : List ℕ → WriteEnd

abbrev pub is_full : Pipe → Bool
is_full p = p.nwrite == u32 (p.nread + pipe_size)

-- `p->data[p->nwrite++ % PIPESIZE] = c`
pub put_byte : ℕ → Pipe → Pipe
put_byte c p = record p { buf = set p.buf (p.nwrite % pipe_size) c; nwrite = u32 (p.nwrite + 1) }

-- The loop of `pipewrite`, with the bytes from `addr[i]` on.
pub write : (killed : Bool) → List ℕ → Pipe → WriteEnd × Pipe
unfolding put_byte
write killed [] p = (wrote, p)
write killed (c ∷ bytes) p =
    let rest = write killed bytes (put_byte c p) in
    if is_full p
    then (if not p.readopen || killed then (broken, p) else (waits_for_room (c ∷ bytes), p))
    else rest

abbrev pub is_empty : Pipe → Bool
is_empty p = p.nread == p.nwrite

-- The copying loop of `piperead`, with `left` rounds to go.
pub take_bytes : ℕ → Pipe → List ℕ × Pipe
take_bytes zero p = ([], p)
take_bytes (suc left) p =
    let (bytes, p') = take_bytes left (record p { nread = u32 (p.nread + 1) }) in
    if is_empty p then ([], p) else (get_or p.buf (p.nread % pipe_size) 0 ∷ bytes, p')

pub data ReadEnd : Type 0 where
  -- the bytes copied out, whose number is returned; writers have been woken
  got : List ℕ → ReadEnd
  stopped : ReadEnd
  -- asleep on `nread`
  waits_for_bytes : ReadEnd

pub read : (killed : Bool) → ℕ → Pipe → ReadEnd × Pipe
unfolding take_bytes
read killed n p =
    if is_empty p && p.writeopen
    then (if killed then (stopped, p) else (waits_for_bytes, p))
    else (let (bytes, p') = take_bytes n p in (got bytes, p'))
