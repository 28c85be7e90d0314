-- ===== src/Pipe/Tests.antt =====
-- pipe.c on small inputs: a pipe that is full but for one byte, with counters that are about to wrap.
use os_assignment.Prelude.{
  ℕ, ◌+◌, ◌-◌, ◌^◌, ◌≤◌, ◌≡◌, refl, List, [], ◌∷◌, ◌++◌, true, false, arith, replicate, length,
}
use os_assignment.Pipe.{
  Pipe, pipe_size, write, write_sleeps, read, got, read_sleeps, copy, put, fresh,
}
use os_assignment.Pipe.Fifo.{IsValid, Wrote, write-Wrote, contents}
use os_assignment.Pipe.Stream.{Event, writes, reads, closes, run, stream_fifo}

abbrev page : List ℕ
page = replicate 512 0

abbrev nearly_full : Pipe
nearly_full = record {
  bytes = page;
  nread = 2 ^ 32 - 511;
  nwrite = 0;
  readopen = true;
  writeopen = true;
}

nearly_full-IsValid : IsValid nearly_full
nearly_full-IsValid = record {
  sized = refl;
  nread_fits = omega arith;
  nwrite_fits = omega arith;
  bounded = omega arith;
}

write-Wrote_example : Wrote nearly_full false (7 ∷ 8 ∷ []) (write nearly_full false (7 ∷ 8 ∷ []))
write-Wrote_example = write-Wrote (7 ∷ 8 ∷ []) nearly_full false nearly_full-IsValid

abbrev talk : List Event
talk = writes false (1 ∷ 2 ∷ 3 ∷ []) ∷ reads false 2 ∷ closes true ∷ reads false 2 ∷ []

stream_fifo_example :
    let s = run talk (fresh page) in
    (s.sent ≡ s.received ++ contents s.pipe) × (length s.sent ≤ length s.received + pipe_size)
stream_fifo_example = stream_fifo page talk refl

-- One byte fits and the writer sleeps with the other; a read of a new pipe sleeps.
pipe_runs :
    ((write nearly_full false (7 ∷ 8 ∷ [])).end ≡ write_sleeps (8 ∷ []))
    × ((read (fresh page) false 3).end ≡ read_sleeps)
    × ((read (write (fresh page) false (7 ∷ 8 ∷ [])).pipe false 3).end ≡ got (7 ∷ 8 ∷ []))
unfolding write put read copy fresh
pipe_runs = (refl, refl, refl)
