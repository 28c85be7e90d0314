-- ===== src/Proc/Tests.antt =====
-- proc.c on small tables: init at entry 0, a child of it, and a free entry.
use os_assignment.Prelude.{
  ℕ, ◌+◌, ◌<◌, ◌≡◌, ◌≢◌, refl, [], ◌∷◌, true, false, none, some, arith, Result, ◌⊎◌, get_elem?,
  zero, suc,
}
use os_assignment.Kalloc.{Kmem, kalloc, kfree}
use os_assignment.Proc.{
  Proc, Kernel, unused, sleeping, runnable, zombie, is, entry_chan, kill, allocproc, exit_enter,
  nproc,
}
use os_assignment.Proc.Table.{IsFirstUnused}
use os_assignment.Proc.Signals.{PidsOk, allocproc-PidsOk, kill_zero}
use os_assignment.Proc.Exit.{Orphan, Awake, ZombieChild, exit_lem}

abbrev free_entry : Proc
free_entry = record {
  sz = 0;
  pgdir = 0;
  kstack = 0;
  state = unused;
  pid = 0;
  parent = none;
  chan = none;
  killed = false;
  name = [];
  ctime = 0;
  etime = 0;
  rtime = 0;
  last_check = 0;
  priority = 0;
}

abbrev init_entry : Proc
init_entry = record free_entry {
  state = sleeping;
  pid = 1;
  chan = some (entry_chan 0);
  pgdir = 4096;
}

abbrev child_entry : Proc
child_entry = record free_entry {
  state = runnable;
  pid = 2;
  parent = some 0;
  ctime = 5;
  priority = 60;
}

abbrev orphan_entry : Proc
orphan_entry = record free_entry {
  state = zombie;
  pid = 3;
  parent = some 1;
  ctime = 6;
  priority = 60;
}

-- One page is free.
abbrev small : Kernel
small = record {
  procs = init_entry ∷ child_entry ∷ orphan_entry ∷ free_entry ∷ [];
  nextpid = 4;
  ticks = 9;
  initproc = 0;
  kmem = record { use_lock = true; free_list = 0x80100000; next = λ p. 0 };
}

small-PidsOk : PidsOk small
small-PidsOk = record { below = low; distinct = apart }
  where
    low : (i : ℕ) (p : Proc) → get_elem? small.procs i ≡ some p → p.pid < 4
    low zero p e = ground arith
    low (suc zero) p e = ground arith
    low (suc (suc zero)) p e = ground arith
    low (suc (suc (suc zero))) p e = ground arith
    low (suc (suc (suc (suc i)))) p e = cc

    at : (i : ℕ) (p : Proc) → get_elem? small.procs i ≡ some p → (p.pid ≡ 0) ⊎ (p.pid ≡ i + 1)
    at zero p e = ground arith
    at (suc zero) p e = ground arith
    at (suc (suc zero)) p e = ground arith
    at (suc (suc (suc zero))) p e = ground arith
    at (suc (suc (suc (suc i)))) p e = cc

    apart :
        (i j : ℕ) (p q : Proc)
        → get_elem? small.procs i ≡ some p
        → get_elem? small.procs j ≡ some q
        → p.pid ≡ q.pid
        → p.pid ≢ 0
        → i ≡ j
    apart i j p q e f s z = ground (arith, at i p e, at j q f)

allocproc-PidsOk_example : PidsOk (allocproc small).0
allocproc-PidsOk_example = allocproc-PidsOk small (omega arith) small-PidsOk

small-IsFirstUnused : IsFirstUnused small.procs 3
small-IsFirstUnused = record { entry = free_entry; here = refl; free = refl; first = before }
  where
    before :
        (j : ℕ) (q : Proc) → j < 3 → get_elem? small.procs j ≡ some q → is q.state unused ≡ false
    before zero q h e = ground arith
    before (suc zero) q h e = ground arith
    before (suc (suc zero)) q h e = ground arith
    before (suc (suc (suc j))) q h e = absurd (omega arith)

kill_zero_example :
    let k1 = (kill 0 small).0 in
    ((kill 0 small).1 ≡ true)
    × ((allocproc k1).1 ≡ some 3)
    × ((p : Proc) × (get_elem? (allocproc k1).0.procs 3 ≡ some p) × (p.killed ≡ true))
unfolding kalloc small-IsFirstUnused
kill_zero_example = kill_zero small 3 small-IsFirstUnused refl before (omega arith)
  where
    before : (j : ℕ) (q : Proc) → j < 3 → get_elem? small.procs j ≡ some q → q.pid ≢ 0
    before zero q h e = ground arith
    before (suc zero) q h e = ground arith
    before (suc (suc zero)) q h e = ground arith
    before (suc (suc (suc j))) q h e = absurd (omega arith)

-- `freevm` that frees the page directory.
abbrev free_dir : ℕ → Kmem → Result Kmem
free_dir d m = kfree 0x80100000 m d

exit_lem_example :
    let ps = (exit_enter 1 (some 0) small).procs in
    ((j : ℕ) → j < nproc → Orphan 1 ps j)
    × ((q : Proc) → get_elem? ps 1 ≡ some q → (q.state ≡ zombie) × (q.etime ≡ 9))
    × ((j : ℕ) → some 0 ≡ some j → Awake (some (entry_chan j)) ps)
    × ((j : ℕ)
        → j < nproc
        → ZombieChild 1 0 (λ e. omega arith) small.procs j
        → Awake (some (entry_chan 0)) ps)
exit_lem_example = exit_lem small 1 (some 0) (λ e. omega arith)
