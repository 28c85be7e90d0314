-- ===== src/Proc/Sched/Tests.antt =====
-- proc.c: the scheduler on a table of two runnable processes.
use os_assignment.Prelude.{
  ℕ, ◌≤◌, ◌≡◌, refl, [], ◌∷◌, true, false, none, some, arith, ◌⊎◌, All, Among,
}
use os_assignment.Proc.{modify, Proc, unused, runnable, is}
use os_assignment.Proc.Sched.{
  Sched, priority_chosen, fcfs_pick, round, cases, account, account_one, rr_loop, rr_visit,
  priority_case, priority_loop, fcfs_case, dispatch,
}
use os_assignment.Proc.Sched.Choice.{IsOldest, fcfs_choice}
use os_assignment.Proc.Sched.Rounds.{yields, fcfs_runs_everyone}

abbrev free_entry : Proc
free_entry = record {
  sz = 0;
  pgdir = 0;
  kstack = 0;
  state = unused;
  pid = 0;
  parent = none;
  chan = none;
  killed = false;
  name = [];
  ctime = 0;
  etime = 0;
  rtime = 0;
  last_check = 0;
  priority = 0;
}

abbrev child_entry : Proc
child_entry = record free_entry { state = runnable; pid = 2; ctime = 5; priority = 60 }

abbrev ready_table : Sched
ready_table = record {
  table = record { procs = child_entry ∷ record child_entry { ctime = 7 } ∷ []; ticks = 9 };
  cpu_proc = none;
  dispatched = [];
}

fcfs_runs_everyone_example : Among 1 (round yields 1 ready_table).dispatched
fcfs_runs_everyone_example =
    fcfs_runs_everyone ready_table 1 (record child_entry { ctime = 7 }, refl, refl) (omega arith)

-- The later of the two is runnable too; entry 0 is the older one.
fcfs_choice_example :
    ((fcfs_pick ready_table.table.procs 0 1009 none ≡ none)
      × All (λ q. is q.state runnable ≡ true → 1009 ≤ q.ctime) ready_table.table.procs)
    ⊎ ((k : ℕ) × IsOldest ready_table.table.procs k
        × (fcfs_pick ready_table.table.procs 0 1009 none ≡ some k))
fcfs_choice_example = fcfs_choice ready_table.table.procs 1009

-- Strategy 1 dispatches the oldest process, then, since it yields, both of the best priority, and then
-- both again.
dispatch_order : (round yields 1 ready_table).dispatched ≡ 0 ∷ 0 ∷ 1 ∷ 0 ∷ 1 ∷ []
unfolding round cases account account_one rr_loop rr_visit priority_case priority_loop
    priority_chosen fcfs_case fcfs_pick dispatch modify
dispatch_order = refl
