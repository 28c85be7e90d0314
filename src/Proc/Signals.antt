-- ===== src/Proc/Signals.antt =====
-- proc.c: `wakeup` and `kill`, and the pids that `kill` goes by.
use mathlib.Core.Option
use mathlib.Core.Bool.{false≢true}
use native.Mathlib.Decide.{ℕ_discrete, dec_lt}
use os_assignment.Prelude.{
  ℕ, zero, suc, ◌+◌, ◌^◌, ◌<◌, ◌≡◌, ◌≢◌, refl, ap, ◌∙◌, sym, arith, List, [], ◌∷◌, true, false,
  Option, some, ◌&&◌, ◌==◌, if◌then◌else◌, get_elem?, ◌⊎◌, inl, inr, Bool-cases,
}
use os_assignment.Kalloc.{kalloc}
use os_assignment.Proc.{
  Proc, Kernel, Chan, sleeping, runnable, is, same_chan, modify, claim, allocproc, wake_one,
  wakeup1, kill_in, kill,
}
use os_assignment.Proc.Table.{get_elem?-modify, IsFirstUnused, Claimed, allocproc_lem}

-- A wakeup makes exactly the processes that sleep on the channel runnable, and changes nothing else.
pub get_elem?-wakeup1 :
    (c : Option Chan) (ps : List Proc) (i : ℕ)
    → get_elem? (wakeup1 c ps) i
      ≡ Option.map
          (λ p.
            if is p.state sleeping && same_chan p.chan c then record p { state = runnable } else p)
          (get_elem? ps i)
unfolding wakeup1 wake_one
get_elem?-wakeup1 c [] i = refl
get_elem?-wakeup1 c (p ∷ ps) zero = refl
get_elem?-wakeup1 c (p ∷ ps) (suc i) = get_elem?-wakeup1 c ps i

-- Entry `k` is the first with that pid.
pub record IsFirstPid (pid : ℕ) (ps : List Proc) (k : ℕ) : Type 0 where
  pub entry : Proc
  pub here : get_elem? ps k ≡ some entry
  pub same : entry.pid ≡ pid
  pub first : (j : ℕ) (q : Proc) → j < k → get_elem? ps j ≡ some q → q.pid ≢ pid

abbrev pub kill_entry : Proc → Proc
kill_entry p = record p { killed = true; state = if is p.state sleeping then runnable else p.state }

no_pid_cons :
    (pid : ℕ) (p : Proc) (ps : List Proc)
    → p.pid ≢ pid
    → ((j : ℕ) (q : Proc) → get_elem? ps j ≡ some q → q.pid ≢ pid)
    → (j : ℕ) (q : Proc) → get_elem? (p ∷ ps) j ≡ some q
    → q.pid ≢ pid
no_pid_cons pid p ps ne all zero q e = ground arith
no_pid_cons pid p ps ne all (suc j) q e = all j q e

-- `kill` fails, and changes nothing, exactly if no entry has the pid. Otherwise it marks the first
-- such entry as killed, makes it runnable if it sleeps, and leaves the other entries alone.
pub kill_lem :
    (pid : ℕ) (ps : List Proc)
    → ((kill_in pid ps ≡ (ps, false))
        × ((j : ℕ) (q : Proc) → get_elem? ps j ≡ some q → q.pid ≢ pid))
      ⊎ ((k : ℕ) × (o : IsFirstPid pid ps k) × (kill_in pid ps ≡ (modify ps k kill_entry, true)))
unfolding kill_in modify
kill_lem pid [] = inl (refl, λ j q e. cc)
kill_lem pid (p ∷ ps) = elim (Bool-cases (p.pid == pid)) [
  | inl e ↦ inr (
    0,
    record { entry = p; here = refl; same = ground arith; first = λ j q h g. absurd (omega arith) },
    rw e refl,
  )
  | inr e ↦
      let ne : p.pid ≢ pid = ground arith in
      rw e (elim (kill_lem pid ps) [
        | inl (r, all) ↦ inl (rw r refl, no_pid_cons pid p ps ne all)
        | inr (k, o, r) ↦ inr (
          suc k,
          record { entry = o.entry; here = o.here; same = o.same; first = before k o ne },
          rw r refl,
        )
      ])
]
  where
    before :
        (k : ℕ) (o : IsFirstPid pid ps k)
        → p.pid ≢ pid
        → (j : ℕ) (q : Proc) → j < suc k
        → get_elem? (p ∷ ps) j ≡ some q
        → q.pid ≢ pid
    before k o ne zero q h g = ground arith
    before k o ne (suc j) q h g = o.first j q (omega arith) g

-- The pids in use are below `nextpid`, and no two entries share one.
pub record PidsOk (k : Kernel) : Type 0 where
  pub below : (i : ℕ) (p : Proc) → get_elem? k.procs i ≡ some p → p.pid < k.nextpid
  pub distinct :
      (i j : ℕ) (p q : Proc)
      → get_elem? k.procs i ≡ some p
      → get_elem? k.procs j ≡ some q
      → p.pid ≡ q.pid
      → p.pid ≢ 0
      → i ≡ j

-- An entry after `allocproc` is as before, or it is the claimed one.
entry_after :
    (k : Kernel) (i : ℕ) (p : Proc) (r : Kernel × Option ℕ)
    → Claimed k i p r
    → (j : ℕ) (q : Proc) → get_elem? r.0.procs j ≡ some q
    → ((i ≢ j) × (get_elem? k.procs j ≡ some q)) ⊎ ((i ≡ j) × (q.pid ≡ k.nextpid))
unfolding claim
entry_after k i p r c j q e = elim (ℕ_discrete i j) [
  | no ne ↦ inl (ne, sym (c.others j ne) ∙ e)
  | yes same ↦
      let at : get_elem? r.0.procs i ≡ some q = rw same e in
      inr (same, elim c.ended [ inl (z, n, f) ↦ cc | inr (z, n, f) ↦ cc ])
]

-- `allocproc` keeps the pids distinct, as long as the counter has not wrapped.
pub allocproc-PidsOk : (k : Kernel) → k.nextpid + 1 < 2 ^ 32 → PidsOk k → PidsOk (allocproc k).0
allocproc-PidsOk k h v = elim (allocproc_lem k) [
  | inl (e, all) ↦ rw e v
  | inr (i, o, c) ↦ record {
    below = λ j q e. elim (entry_after k i o.entry (allocproc k) c j q e) [
      | inl (ne, old) ↦ omega (arith, c.next, v.below j q old)
      | inr (same, new) ↦ omega (arith, c.next)
    ];
    distinct = λ a b p q ea eb same nz. elim (entry_after k i o.entry (allocproc k) c a p ea) [
      | inl (na, olda) ↦ elim (entry_after k i o.entry (allocproc k) c b q eb) [
        | inl (nb, oldb) ↦ v.distinct a b p q olda oldb same nz
        | inr (sb, newb) ↦ absurd (omega (arith, v.below a p olda))
      ]
      | inr (sa, newa) ↦ elim (entry_after k i o.entry (allocproc k) c b q eb) [
        | inl (nb, oldb) ↦ absurd (omega (arith, v.below b q oldb))
        | inr (sb, newb) ↦ sym sa ∙ sb
      ]
    ];
  }
]

first_unused_unique :
    (ps : List Proc) (i j : ℕ) (a : IsFirstUnused ps i) (b : IsFirstUnused ps j) → i ≡ j
first_unused_unique ps i j a b = elim (dec_lt i j) [
  | yes h ↦ absurd (false≢true (sym (b.first i a.entry h a.here) ∙ a.free))
  | no h ↦ elim (dec_lt j i) [
    | yes g ↦ absurd (false≢true (sym (a.first j b.entry g b.here) ∙ b.free))
    | no g ↦ omega arith
  ]
]

kill_at :
    (pid : ℕ) (k : Kernel) (i : ℕ) (p : Proc)
    → get_elem? k.procs i ≡ some p
    → p.pid ≡ pid
    → ((j : ℕ) (q : Proc) → j < i → get_elem? k.procs j ≡ some q → q.pid ≢ pid)
    → kill pid k ≡ (record k { procs = modify k.procs i kill_entry }, true)
unfolding kill
kill_at pid k i p e z before = elim (kill_lem pid k.procs) [
  | inl (r, all) ↦ absurd (all i p e z)
  | inr (j, o, r) ↦ elim (dec_lt i j) [
    | yes h ↦ absurd (o.first i p h e z)
    | no h ↦ elim (dec_lt j i) [
      | yes g ↦ absurd (before j o.entry g o.here o.same)
      | no g ↦ let same : j ≡ i = omega arith in rw (r, kill) (rw same refl)
    ]
  ]
]

kill-IsFirstUnused :
    (ps : List Proc) (i : ℕ) (o : IsFirstUnused ps i) → IsFirstUnused (modify ps i kill_entry) i
kill-IsFirstUnused ps i o = record {
  entry = kill_entry o.entry;
  here = ground (arith, o.here, get_elem?-modify ps i i kill_entry);
  free = ground (arith, o.free);
  first = λ j q h e. o.first j q h (ground (arith, get_elem?-modify ps i j kill_entry));
}

alloc_first :
    (k : Kernel) (i : ℕ) (o : IsFirstUnused k.procs i)
    → (kalloc k.kmem).0 ≢ 0
    → ((allocproc k).1 ≡ some i)
      × ((p : Proc) × (get_elem? (allocproc k).0.procs i ≡ some p) × (p.killed ≡ o.entry.killed))
unfolding claim
alloc_first k i o page = elim (allocproc_lem k) [
  | inl (e, all) ↦ absurd (false≢true (sym (all i o.entry o.here) ∙ o.free))
  | inr (j, b, c) ↦ found j b c (first_unused_unique k.procs j i b o)
]
  where
    found :
        (j : ℕ) (b : IsFirstUnused k.procs j)
        → Claimed k j b.entry (allocproc k)
        → j ≡ i
        → ((allocproc k).1 ≡ some i)
          × ((p : Proc) × (get_elem? (allocproc k).0.procs i ≡ some p)
              × (p.killed ≡ o.entry.killed))
    found j b c same = elim c.ended [
      | inl (z, n, f) ↦ absurd (page z)
      | inr (z, n, f) ↦
          let entry : b.entry ≡ o.entry = cc (sym b.here ∙ ap (get_elem? k.procs) same ∙ o.here) in
          (
            n ∙ ap some same,
            (
              _,
              sym (ap (get_elem? (allocproc k).0.procs) same) ∙ f,
              ap (λ (p : Proc). p.killed) entry,
            ),
          )
    ]

-- `kill(0)` finds a free entry, whose pid is 0, and marks it; `allocproc` does not clear the mark. So
-- the process that gets this entry is born killed.
pub kill_zero :
    (k : Kernel) (i : ℕ) (o : IsFirstUnused k.procs i)
    → o.entry.pid ≡ 0
    → ((j : ℕ) (q : Proc) → j < i → get_elem? k.procs j ≡ some q → q.pid ≢ 0)
    → (kalloc k.kmem).0 ≢ 0
    → let k1 = (kill 0 k).0 in
      ((kill 0 k).1 ≡ true)
      × ((allocproc k1).1 ≡ some i)
      × ((p : Proc) × (get_elem? (allocproc k1).0.procs i ≡ some p) × (p.killed ≡ true))
unfolding kill-IsFirstUnused
kill_zero k i o z none_before page =
    let e = kill_at 0 k i o.entry o.here z none_before in
    let k1 = record k { procs = modify k.procs i kill_entry } in
    let (got, born) = alloc_first k1 i (kill-IsFirstUnused k.procs i o) page in
    rw e (refl, got, born)
