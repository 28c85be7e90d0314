-- ===== src/Pipe.antt =====
-- pipe.c: a pipe, a ring of PIPESIZE bytes with two counters that wrap at 2 ^ 32.
--
-- A function here is what runs under `p->lock` without a break: it ends by returning to its caller or
-- by going to sleep, and after a wakeup the writer goes on with the bytes that are left, the reader
-- from the start. Beside the new pipe it gives the channels that it wakes up.
mod Tests
pub mod Fifo
pub mod Stream
use os_assignment.Prelude.{
  ℕ, zero, suc, ◌+◌, ◌%◌, ◌^◌, Bool, true, false, not, ◌&&◌, ◌||◌, ◌==◌, if◌then◌else◌, List, [],
  ◌∷◌, get_or, set,
}

abbrev pub pipe_size : ℕ
pipe_size = 512

pub record Pipe : Type 0 where
  pub bytes : List ℕ
  pub nread : ℕ
  pub nwrite : ℕ
  pub readopen : Bool
  pub writeopen : Bool

-- The channels `&p->nread` and `&p->nwrite`.
pub data Channel : Type 0 where
  on_nread on_nwrite : Channel

pub data WriteEnd : Type 0 where
  wrote : WriteEnd  -- returns n
  write_failed : WriteEnd  -- returns -1
  write_sleeps : List ℕ → WriteEnd  -- sleeps on nwrite with these bytes left

pub record Write : Type 0 where
  pub pipe : Pipe
  pub end : WriteEnd
  pub wakes : List Channel

-- The body of the loop of `pipewrite` where the pipe is not full.
pub put : Pipe → ℕ → Pipe
put p x = record p {
  bytes = set p.bytes (p.nwrite % pipe_size) x;
  nwrite = (p.nwrite + 1) % 2 ^ 32;
}

abbrev pub full : Pipe → Bool
full p = p.nwrite == (p.nread + pipe_size) % 2 ^ 32

-- `pipewrite`; the flag is `myproc()->killed`.
pub write : Pipe → Bool → List ℕ → Write
write p killed [] = record { pipe = p; end = wrote; wakes = on_nread ∷ [] }
write p killed (x ∷ xs) =
    let rest = write (put p x) killed xs in
    if full p
    then (if not p.readopen || killed
        then record { pipe = p; end = write_failed; wakes = [] }
        else record { pipe = p; end = write_sleeps (x ∷ xs); wakes = on_nread ∷ [] })
    else rest

pub data ReadEnd : Type 0 where
  got : List ℕ → ReadEnd  -- returns the count, with the bytes in `addr`
  read_failed : ReadEnd  -- returns -1
  read_sleeps : ReadEnd  -- sleeps on nread

pub record Read : Type 0 where
  pub pipe : Pipe
  pub end : ReadEnd
  pub wakes : List Channel

-- The copying loop of `piperead`, for at most `n` bytes.
pub copy : Pipe → ℕ → List ℕ × Pipe
copy p zero = ([], p)
copy p (suc n) =
    let rest = copy (record p { nread = (p.nread + 1) % 2 ^ 32 }) n in
    if p.nread == p.nwrite
    then ([], p)
    else (get_or p.bytes (p.nread % pipe_size) 0 ∷ rest.0, rest.1)

pub read : Pipe → Bool → ℕ → Read
read p killed n =
    if p.nread == p.nwrite && p.writeopen
    then (if killed
        then record { pipe = p; end = read_failed; wakes = [] }
        else record { pipe = p; end = read_sleeps; wakes = [] })
    else (let (xs, p') = copy p n in record { pipe = p'; end = got xs; wakes = on_nwrite ∷ [] })

pub record Close : Type 0 where
  pub pipe : Pipe
  pub freed : Bool  -- `kfree((char*)p)`
  pub wakes : List Channel

pub close : Pipe → Bool → Close
close p writable =
    let p' = if writable then record p { writeopen = false } else record p { readopen = false } in
    record {
      pipe = p';
      freed = not p'.readopen && not p'.writeopen;
      wakes = (if writable then on_nread else on_nwrite) ∷ [];
    }

-- What `pipealloc` puts into the page that it got; the bytes are what the page held.
pub fresh : List ℕ → Pipe
fresh page = record { bytes = page; nread = 0; nwrite = 0; readopen = true; writeopen = true }
