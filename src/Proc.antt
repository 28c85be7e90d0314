-- ===== src/Proc.antt =====
-- proc.c and proc.h: the process table and the calls on it, but for the scheduler (Proc/Sched).
-- Each function is what runs under `ptable.lock`; a pointer to an entry is its index.
mod Tests
pub mod Sched
pub mod Table
pub mod Signals
pub mod Wait
pub mod Waitx
pub mod Exit
use os_assignment.Prelude.{
  ℕ, zero, suc, ◌+◌, ◌-◌, ◌%◌, ◌^◌, List, [], ◌∷◌, Bool, true, false, not, Option, none, some, ◌&&◌,
  ◌||◌, ltb, leb, ◌==◌, if◌then◌else◌, get_elem?, set, Result, ok, ◌>>=◌,
}
use os_assignment.Kalloc.{Kmem, kalloc, kfree}

pub data ProcState : Type 0 where
  unused embryo sleeping runnable running zombie : ProcState

abbrev pub state_code : ProcState → ℕ
state_code unused = 0
state_code embryo = 1
state_code sleeping = 2
state_code runnable = 3
state_code running = 4
state_code zombie = 5

abbrev pub is : ProcState → ProcState → Bool
is s t = state_code s == state_code t

-- What a process sleeps on: the address of a table entry, or any other address. Null is `none`.
pub data Chan : Type 0 where
  entry_chan : ℕ → Chan
  other_chan : ℕ → Chan

abbrev pub same_chan : Option Chan → Option Chan → Bool
same_chan none none = true
same_chan (some (entry_chan a)) (some (entry_chan b)) = a == b
same_chan (some (other_chan a)) (some (other_chan b)) = a == b
same_chan _ _ = false

-- `struct proc`, without the trap frame, the saved context, the open files and the directory.
pub record Proc : Type 0 where
  pub sz : ℕ
  pub pgdir : ℕ
  pub kstack : ℕ
  pub state : ProcState
  pub pid : ℕ
  pub parent : Option ℕ
  pub chan : Option Chan
  pub killed : Bool
  pub name : List ℕ
  pub ctime : ℕ
  pub etime : ℕ
  pub rtime : ℕ
  pub last_check : ℕ
  pub priority : ℕ

abbrev pub nproc : ℕ
nproc = 64

-- The table and what else its functions read and write. `nextpid` and `ticks` are bit patterns.
pub record Kernel : Type 0 where
  pub procs : List Proc
  pub nextpid : ℕ
  pub ticks : ℕ
  pub initproc : ℕ
  pub kmem : Kmem

-- A change of one entry.
pub modify : List Proc → ℕ → (Proc → Proc) → List Proc
modify [] i f = []
modify (p ∷ ps) zero f = f p ∷ ps
modify (p ∷ ps) (suc i) f = p ∷ modify ps i f

abbrev pub modify_entry : Kernel → ℕ → (Proc → Proc) → Kernel
modify_entry k i f = record k { procs = modify k.procs i f }

-- The first loop of `allocproc`.
pub find_unused : List Proc → ℕ → Option ℕ
find_unused [] i = none
find_unused (p ∷ ps) i = if is p.state unused then some i else find_unused ps (i + 1)

pub claim : Kernel → Proc → Proc
claim k p = record p {
  state = embryo;
  pid = k.nextpid;
  ctime = k.ticks;
  rtime = 0;
  last_check = k.ticks;
  priority = 60;
}

-- `allocproc` from the label `found` on, and the whole: the entry, or `none` for the null pointer. The
-- kernel stack's contents are left out.
pub alloc_found : Kernel → ℕ → Kernel × Option ℕ
alloc_found k i =
    let k1 = record k { procs = modify k.procs i (claim k); nextpid = (k.nextpid + 1) % 2 ^ 32 } in
    let (page, m) = kalloc k1.kmem in
    let k2 = record k1 { kmem = m } in
    if page == 0
    then (modify_entry k2 i (λ p. record p { kstack = page; state = unused }), none)
    else (modify_entry k2 i (λ p. record p { kstack = page }), some i)

pub allocproc : Kernel → Kernel × Option ℕ
allocproc k = elim (find_unused k.procs 0) [ none ↦ (k, none) | some i ↦ alloc_found k i ]

-- `wakeup1` on one entry, and on all.
pub wake_one : Option Chan → Proc → Proc
wake_one c p =
    if is p.state sleeping && same_chan p.chan c then record p { state = runnable } else p

pub wakeup1 : Option Chan → List Proc → List Proc
wakeup1 c [] = []
wakeup1 c (p ∷ ps) = wake_one c p ∷ wakeup1 c ps

pub wakeup : Option Chan → Kernel → Kernel
wakeup c k = record k { procs = wakeup1 c k.procs }

-- The loop of `kill`, and its result: 0 is true and -1 is false.
pub kill_in : ℕ → List Proc → List Proc × Bool
kill_in pid [] = ([], false)
kill_in pid (p ∷ ps) =
    let rest = kill_in pid ps in
    if p.pid == pid
    then (
      record p { killed = true; state = if is p.state sleeping then runnable else p.state } ∷ ps,
      true,
    )
    else (p ∷ rest.0, rest.1)

pub kill : ℕ → Kernel → Kernel × Bool
kill pid k = let (ps, found) = kill_in pid k.procs in (record k { procs = ps }, found)

-- `sleep` up to the call of `sched`, and what it tidies up behind it.
pub sleep_enter : ℕ → Option Chan → Kernel → Kernel
sleep_enter self c k = modify_entry k self (λ p. record p { chan = c; state = sleeping })

pub sleep_leave : ℕ → Kernel → Kernel
sleep_leave self k = modify_entry k self (λ p. record p { chan = none })

-- `yield` up to the call of `sched`.
pub yield_enter : ℕ → Kernel → Kernel
yield_enter self k = modify_entry k self (λ p. record p { state = runnable })

abbrev pub is_child : Proc → ℕ → Bool
is_child p self = elim p.parent [ none ↦ false | some j ↦ j == self ]

-- The loop over the table in `exit`: abandoned children go to init. A wakeup reaches the whole table,
-- so the loop goes by index; its body, and `n` rounds from entry `i` on.
pub adopt : ℕ → ℕ → ℕ → List Proc → List Proc
adopt i self init ps = elim (get_elem? ps i) [
  | none ↦ ps
  | some p ↦
      if is_child p self
      then (let ps' = modify ps i (λ q. record q { parent = some init }) in
          if is p.state zombie then wakeup1 (some (entry_chan init)) ps' else ps')
      else ps
]

pub reparent : ℕ → ℕ → ℕ → ℕ → List Proc → List Proc
reparent zero i self init ps = ps
reparent (suc n) i self init ps = reparent n (i + 1) self init (adopt i self init ps)

-- `exit` from the acquisition of `ptable.lock` to the call of `sched`.
pub exit_enter : ℕ → Option ℕ → Kernel → Kernel
exit_enter self parent k =
    let woken = wakeup1 (elim parent [ none ↦ none | some j ↦ some (entry_chan j) ]) k.procs in
    let moved = reparent nproc 0 self k.initproc woken in
    record k { procs = modify moved self (λ p. record p { state = zombie; etime = k.ticks }) }

-- The loop of `wait`: the first exited child, and `havekids`.
pub scan_children : ℕ → List Proc → ℕ → Bool → Option ℕ × Bool
scan_children self [] i kids = (none, kids)
scan_children self (p ∷ ps) i kids =
    let rest = scan_children self ps (i + 1) (if is_child p self then true else kids) in
    if is_child p self && is p.state zombie then (some i, true) else rest

-- What `wait` does to the entry of an exited child, after its memory is freed.
pub recycle : Kernel → Proc → Proc
recycle k p = record p {
  kstack = 0;
  pid = 0;
  parent = none;
  name = set p.name 0 0;
  killed = false;
  state = unused;
  etime = k.ticks;
}

pub data WaitEnd : Type 0 where
  reaped : ℕ → WaitEnd  -- returns the pid
  no_children : WaitEnd  -- returns -1
  wait_sleeps : WaitEnd  -- sleeps on its own entry, and then scans again

abbrev pub killed_at : List Proc → ℕ → Bool
killed_at ps i = elim (get_elem? ps i) [ none ↦ false | some p ↦ p.killed ]

-- What `waitx` computes for a child that it has reaped: waiting time and running time, as 32-bit
-- numbers.
pub waitx_times : ℕ → Proc → ℕ × ℕ
waitx_times now p = ((now + 2 ^ 32 - p.ctime + 2 ^ 32 - p.rtime) % 2 ^ 32, p.rtime)

-- The parameters are the address of `end` and `freevm` of vm.c.
module _ (end_addr : ℕ) (freevm : ℕ → Kmem → Result Kmem) where
  pub reap : Kernel → ℕ → Proc → Result (Kernel × WaitEnd)
  reap k i p = kfree end_addr k.kmem p.kstack >>= λ m. freevm p.pgdir m >>= λ m'.
      ok (modify_entry (record k { kmem = m' }) i (recycle k), reaped p.pid)

  -- One scan of `wait` by the process `self`. A scan only gives indices of entries, so the branch for a
  -- missing entry is never taken, here and in `waitx`.
  pub wait : ℕ → Kernel → Result (Kernel × WaitEnd)
  wait self k =
      let (child, kids) = scan_children self k.procs 0 false in
      elim child [
        | some i ↦ elim (get_elem? k.procs i) [ none ↦ ok (k, no_children) | some p ↦ reap k i p ]
        | none ↦
            if not kids || killed_at k.procs self
            then ok (k, no_children)
            else ok (sleep_enter self (some (entry_chan self)) k, wait_sleeps)
      ]

  -- One scan of `waitx`. What it stores through `wtime` and `rtime` comes last, if it returns; `now` is
  -- `ticks` when it computes that, after it has released the lock.
  pub waitx : ℕ → ℕ → Kernel → Result (Kernel × WaitEnd × Option (ℕ × ℕ))
  waitx now self k =
      let (child, kids) = scan_children self k.procs 0 false in
      let failed : Option (ℕ × ℕ) = some (2 ^ 32 - 1, 2 ^ 32 - 1) in
      elim child [
        | some i ↦ elim (get_elem? k.procs i) [
          | none ↦ ok (k, no_children, failed)
          | some p ↦ reap k i p >>= λ r. ok (r.0, r.1, some (waitx_times now p))
        ]
        | none ↦
            if not kids || killed_at k.procs self
            then ok (k, no_children, failed)
            else ok (sleep_enter self (some (entry_chan self)) k, wait_sleeps, none)
      ]

-- `setpriority` by `self`; the argument is the bit pattern of an int. The flag is the call of `yield`,
-- and `none` is -1.
pub setpriority : ℕ → ℕ → Kernel → Kernel × Option ℕ × Bool
setpriority self priority k =
    if leb (2 ^ 31) priority || ltb 100 priority
    then (k, none, false)
    else elim (get_elem? k.procs self) [
      | none ↦ (k, none, false)
      | some p ↦
          let k1 = modify_entry k self (λ q. record q { priority = priority }) in
          if ltb priority p.priority
          then (yield_enter self k1, some p.priority, true)
          else (k1, some p.priority, false)
    ]
