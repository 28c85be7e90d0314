-- ===== src/Proc/Sched.antt =====
-- proc.c: the loop of `scheduler`, on one processor.
--
-- `runs i` is what happens from `swtch` to the process at entry `i` until that switches back: it may
-- change the table and the time in any way. `dispatched` is the order in which processes were chosen.
mod Tests
pub mod Choice
pub mod Rounds
use os_assignment.Prelude.{
  ℕ, zero, suc, ◌+◌, ◌-◌, ◌%◌, ◌^◌, List, [], ◌∷◌, ◌++◌, Option, none, some, ◌&&◌, ◌||◌, ltb, ◌==◌,
  if◌then◌else◌, get_elem?,
}
use os_assignment.Proc.{Proc, ProcState, running, runnable, is, modify, nproc}

pub record Table : Type 0 where
  pub procs : List Proc
  pub ticks : ℕ

pub record Sched : Type 0 where
  pub table : Table
  pub cpu_proc : Option ℕ
  pub dispatched : List ℕ

abbrev pub set_state : ProcState → Proc → Proc
set_state s p = record p { state = s }

-- The first loop of a round: the running time of whatever runs, on any processor.
pub account_one : ℕ → Proc → Proc
account_one now p =
    let ran =
      if is p.state running
      then record p { rtime = (p.rtime + (now + 2 ^ 32 - p.last_check)) % 2 ^ 32 }
      else p in
    record ran { last_check = now }

pub account : ℕ → List Proc → List Proc
account now [] = []
account now (p ∷ ps) = account_one now p ∷ account now ps

-- The choice of case 1: `min_ctime` and `to_run`, from entry `i` on. The comparison is unsigned.
pub fcfs_pick : List Proc → ℕ → ℕ → Option ℕ → Option ℕ
fcfs_pick [] i min_ctime to_run = to_run
fcfs_pick (p ∷ ps) i min_ctime to_run =
    let better = is p.state runnable && ltb p.ctime min_ctime in
    fcfs_pick ps (i + 1) (if better then p.ctime else min_ctime) (if better then some i else to_run)

-- The first loop of case 2; 101 stands for none.
pub priority_chosen : List Proc → ℕ → ℕ
priority_chosen [] chosen = chosen
priority_chosen (p ∷ ps) chosen =
    priority_chosen ps (if is p.state runnable && ltb p.priority chosen then p.priority else chosen)

module _ (runs : ℕ → Table → Table) where
  -- `c->proc = p; switchuvm(p); p->state = RUNNING; swtch(...); switchkvm(); c->proc = 0;`
  pub dispatch : ℕ → Sched → Sched
  dispatch i s =
      let t = record (s.table) { procs = modify s.table.procs i (set_state running) } in
      record { table = runs i t; cpu_proc = none; dispatched = s.dispatched ++ (i ∷ []) }

  pub fcfs_case : Sched → Sched
  fcfs_case s = elim (fcfs_pick s.table.procs 0 ((s.table.ticks + 1000) % 2 ^ 32) none) [
    | none ↦ s
    | some i ↦ dispatch i s
  ]

  -- The second loop of case 2, for `n` entries from `i` on. It looks at each entry when it gets there.
  pub priority_loop : ℕ → ℕ → ℕ → Sched → Sched
  priority_loop chosen zero i s = s
  priority_loop chosen (suc n) i s =
      priority_loop chosen n (i + 1) (elim (get_elem? s.table.procs i) [
        | none ↦ s
        | some p ↦ if is p.state runnable && p.priority == chosen then dispatch i s else s
      ])

  pub priority_case : Sched → Sched
  priority_case s =
      let chosen = priority_chosen s.table.procs 101 in
      if chosen == 101 then s else priority_loop chosen nproc 0 s

  -- The loop of case 4: its body at entry `i`, and `n` rounds from `i` on.
  pub rr_visit : ℕ → Sched → Sched
  rr_visit i s = elim (get_elem? s.table.procs i) [
    | none ↦ s
    | some p ↦ if is p.state runnable then dispatch i s else s
  ]

  pub rr_loop : ℕ → ℕ → Sched → Sched
  rr_loop zero i s = s
  rr_loop (suc n) i s = rr_loop n (i + 1) (rr_visit i s)

  -- No case ends in a `break`, so each runs on into those below it. 1 is F, 2 is P, 3 is M, 4 is R;
  -- case 3 is empty.
  pub cases : ℕ → Sched → Sched
  cases strategy s =
      if strategy == 1
      then rr_loop nproc 0 (priority_case (fcfs_case s))
      else if strategy == 2
      then rr_loop nproc 0 (priority_case s)
      else if strategy == 3 || strategy == 4
      then rr_loop nproc 0 s
      else s

  -- One round of `for(;;)`, under `ptable.lock`.
  pub round : ℕ → Sched → Sched
  round strategy s =
      cases strategy
        (record s { table = record (s.table) { procs = account s.table.ticks s.table.procs } })

-- `scheduler_strat`, from the first character of SCHEDFLAG; 0 stands for -1.
pub strategy_of : ℕ → ℕ
strategy_of c =
    if c == b'F'
    then 1
    else if c == b'P'
    then 2
    else if c == b'M'
    then 3
    else if c == b'R'
    then 4
    else 0
