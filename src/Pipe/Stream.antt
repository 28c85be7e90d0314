-- ===== src/Pipe/Stream.antt =====
-- pipe.c: any sequence of calls by writers, readers and closers, in the order in which they hold the
-- lock. A writer that slept and goes on is one more `writes` with the bytes that it had left.
use os_assignment.Prelude.{
  ℕ, ◌+◌, ◌-◌, ◌≤◌, ◌≡◌, refl, ap, ◌∙◌, sym, arith, Bool, List, [], ◌∷◌, ◌++◌, length, take,
  length-append, take-append_length, append-nil, append_assoc, inl, inr, true, false,
}
use os_assignment.Pipe.{
  Pipe, pipe_size, write, Write, read, Read, ReadEnd, got, read_failed, read_sleeps, close, fresh,
}
use os_assignment.Pipe.Fifo.{
  used, contents, IsValid, Wrote, write-Wrote, DidRead, read-DidRead, length-window,
}

pub data Event : Type 0 where
  writes : Bool → List ℕ → Event
  reads : Bool → ℕ → Event
  closes : Bool → Event

-- The bytes that came in and those that went out, and the pipe in the end.
pub record Stream : Type 0 where
  pub sent : List ℕ
  pub received : List ℕ
  pub pipe : Pipe

abbrev received_by : ReadEnd → List ℕ
received_by (got xs) = xs
received_by read_failed = []
received_by read_sleeps = []

-- The bytes that a writer put into the pipe are as many as the pipe holds more.
abbrev accepted : Pipe → List ℕ → Write → List ℕ
accepted p xs w = take (used w.pipe - used p) xs

pub run : List Event → Pipe → Stream
run [] p = record { sent = []; received = []; pipe = p }
run (writes killed xs ∷ es) p =
    let w = write p killed xs in
    let s = run es w.pipe in
    record { sent = accepted p xs w ++ s.sent; received = s.received; pipe = s.pipe }
run (reads killed n ∷ es) p =
    let r = read p killed n in
    let s = run es r.pipe in
    record { sent = s.sent; received = received_by r.end ++ s.received; pipe = s.pipe }
run (closes writable ∷ es) p = run es (close p writable).pipe

accepted-eq-taken :
    (p : Pipe) (killed : Bool) (xs : List ℕ) (w : Write)
    → (d : Wrote p killed xs w) → accepted p xs w ≡ d.taken
accepted-eq-taken p killed xs w d =
    let n : used w.pipe - used p ≡ length d.taken = omega (arith, d.filled) in
    rw (n, d.split) (take-append_length d.taken d.left)

received_lem :
    (p : Pipe) (killed : Bool) (n : ℕ) (r : Read)
    → DidRead p killed n r
    → contents p ≡ received_by r.end ++ contents r.pipe
received_lem p killed n r d = elim d.ended [
  | inl (taken, e, c, q, w, z) ↦ rw e q
  | inr (inl (z, o, k, e, same)) ↦ rw (e, same)
  | inr (inr (z, o, k, e, same)) ↦ rw (e, same)
]

close-IsValid :
    (p : Pipe) (writable : Bool)
    → IsValid p
    → IsValid (close p writable).pipe × (contents (close p writable).pipe ≡ contents p)
unfolding close
close-IsValid p true v = (
  record {
    sized = v.sized;
    nread_fits = v.nread_fits;
    nwrite_fits = v.nwrite_fits;
    bounded = v.bounded;
  },
  refl,
)
close-IsValid p false v = (
  record {
    sized = v.sized;
    nread_fits = v.nread_fits;
    nwrite_fits = v.nwrite_fits;
    bounded = v.bounded;
  },
  refl,
)

run-IsValid : (es : List Event) (p : Pipe) → IsValid p → IsValid (run es p).pipe
unfolding run
run-IsValid [] p v = v
run-IsValid (writes killed xs ∷ es) p v = run-IsValid es _ (write-Wrote xs p killed v).valid
run-IsValid (reads killed n ∷ es) p v = run-IsValid es _ (read-DidRead p killed n v).valid
run-IsValid (closes writable ∷ es) p v = run-IsValid es _ (close-IsValid p writable v).0

run-queue :
    (es : List Event) (p : Pipe)
    → IsValid p
    → let s = run es p in contents p ++ s.sent ≡ s.received ++ contents s.pipe
unfolding run
run-queue [] p v = append-nil (contents p)
run-queue (writes killed xs ∷ es) p v =
    let w = write p killed xs in
    let d = write-Wrote xs p killed v in
    rw (accepted-eq-taken p killed xs w d) (
      sym (append_assoc (contents p) d.taken (run es w.pipe).sent)
      ∙ ap (λ k. k ++ (run es w.pipe).sent) (sym d.queued)
      ∙ run-queue es w.pipe d.valid)
run-queue (reads killed n ∷ es) p v =
    let r = read p killed n in
    let d = read-DidRead p killed n v in
    let s = run es r.pipe in
    ap (λ k. k ++ s.sent) (received_lem p killed n r d)
    ∙ append_assoc (received_by r.end) (contents r.pipe) s.sent
    ∙ ap (λ k. received_by r.end ++ k) (run-queue es r.pipe d.valid)
    ∙ sym (append_assoc (received_by r.end) s.received (contents s.pipe))
run-queue (closes writable ∷ es) p v =
    let c = close-IsValid p writable v in
    ap (λ k. k ++ (run es (close p writable).pipe).sent) (sym c.1)
    ∙ run-queue es (close p writable).pipe c.0

fresh-IsValid : (page : List ℕ) → length page ≡ pipe_size → IsValid (fresh page)
unfolding fresh
fresh-IsValid page h = omega arith

-- Whatever is called on a new pipe, by however many processes and for however long, the bytes received
-- and then those in the pipe are the bytes sent: none is lost, doubled or overtaken, also when the
-- counters have wrapped. At most PIPESIZE bytes are on their way.
pub stream_fifo :
    (page : List ℕ) (es : List Event)
    → length page ≡ pipe_size
    → let s = run es (fresh page) in
      (s.sent ≡ s.received ++ contents s.pipe) × (length s.sent ≤ length s.received + pipe_size)
unfolding fresh
stream_fifo page es h =
    let v = fresh-IsValid page h in
    let p = (run es (fresh page)).pipe in
    let e = run-queue es (fresh page) v in
    (
      e,
      omega (
        arith,
        ap length e,
        length-append (run es (fresh page)).received (contents p),
        length-window p.bytes p.nread (used p),
        (run-IsValid es (fresh page) v).bounded,
      ),
    )
