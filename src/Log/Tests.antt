-- ===== src/Log/Tests.antt =====
-- log.c on small inputs: the log of mkfs.c, at block 2, or one of 31 blocks, and the blocks 40 and 41.
use os_assignment.Prelude.{
  ℕ, ◌≡◌, ◌≢◌, refl, [], ◌∷◌, Bool, true, false, some, arith, replicate, ok, panic, ◌⊎◌, inr,
}
use os_assignment.Disk.{Machine, Block, boot}
use os_assignment.Log.{
  log_size, Log, get_head, get_words, put_head, put_words, commit, write_log, write_log_from,
  write_head, install_trans, install_from, log_write, begin_op, end_op_enter, initlog,
  recover_from_log, read_head,
}
use os_assignment.Log.Header.{get_head-put_head}
use os_assignment.Log.Install.{Outside}
use os_assignment.Log.Commit.{Ready, commit_atomic, recovered, recoveries}
use os_assignment.Log.Txn.{Writes, Idle, Atomic, fs_op, replay, fs_op-Atomic}
use os_assignment.Log.Full.{last_log_write_panics}
use os_assignment.Log.Reserve.{
  Sys, begins, Reach, here, next, started, Reserved, log_write-Reserved, end_op_and_begin_op,
}

abbrev zeros : Block
zeros = replicate 40 0

abbrev blank : ℕ → Block
blank b = zeros

abbrev quiet_log : Log
quiet_log = record { start = 2; size = log_size; outstanding = 0; committing = false; blocks = [] }

-- The power fails after three writes.
abbrev failing : Machine
failing = boot blank 3

abbrev two_writes : Writes
two_writes = (40, 7 ∷ []) ∷ (41, 8 ∷ []) ∷ []

blank-Idle : Idle blank quiet_log failing
unfolding get_head get_words
blank-Idle = record {
  none_running = refl;
  not_committing = refl;
  nothing_logged = refl;
  room = omega arith;
  head_room = omega arith;
  empty = refl;
  on_disk = λ c o. refl;
  in_cache = λ c o. refl;
}

fs_op-Atomic_example :
    (r : Log × Machine) × (fs_op two_writes quiet_log failing ≡ some (ok r))
    × Atomic 2 log_size blank (replay two_writes blank) r.1.disk
fs_op-Atomic_example =
    fs_op-Atomic two_writes blank quiet_log failing blank-Idle
      (inr (omega arith), (inr (omega arith), tt)) (omega arith)

-- A log that names block 40, whose new contents are in the cache.
abbrev full_log : Log
full_log = record { start = 2; size = 31; outstanding = 0; committing = true; blocks = 40 ∷ [] }

abbrev changed : ℕ → Block
changed = replay ((40, 7 ∷ []) ∷ []) blank

abbrev holding : ℕ → Machine
holding k = record { disk = blank; cache = changed; dirty = λ b. false; power = k }

holding-Ready : (k : ℕ) → Ready full_log blank changed (holding k)
unfolding get_head get_words
holding-Ready k = record {
  outside = (inr (omega arith), tt);
  fits = omega arith;
  small = omega arith;
  roomy = omega arith;
  empty = refl;
  homes = λ c o. refl;
  seen = λ c o. refl;
  rest = λ c o. ground arith;
}

commit_atomic_example :
    let d = recovered 2 31 (recoveries 2 31 (1 ∷ 0 ∷ []) (commit full_log (holding 2)).1.disk) 31 in
    ((c : ℕ) → Outside 2 31 c → d c ≡ blank c) ⊎ ((c : ℕ) → Outside 2 31 c → d c ≡ changed c)
commit_atomic_example =
    commit_atomic full_log blank changed (holding 2) (1 ∷ 0 ∷ []) 31 (holding-Ready 2) (omega arith)

-- With four writes the block is home and the header clear; with two it is in the log.
commit_runs :
    ((commit full_log (holding 4)).1.disk 40 ≡ 7 ∷ [])
    × ((commit full_log (holding 2)).1.disk 40 ≡ zeros)
    × ((recovered 2 31 (commit full_log (holding 2)).1.disk 31) 40 ≡ 7 ∷ [])
    × ((recovered 2 31 (commit full_log (holding 1)).1.disk 31) 40 ≡ zeros)
unfolding commit write_log write_log_from write_head install_trans install_from put_head put_words
    get_head get_words recovered initlog recover_from_log read_head
commit_runs = (refl, refl, refl, refl)

get_head-put_head_example : get_head (put_head (9 ∷ 9 ∷ 9 ∷ 9 ∷ []) (40 ∷ 41 ∷ [])) ≡ 40 ∷ 41 ∷ []
get_head-put_head_example = get_head-put_head (9 ∷ 9 ∷ 9 ∷ 9 ∷ []) (40 ∷ 41 ∷ []) (omega arith)

-- Two operations run, and the first one logs a block.
abbrev two_running : Sys
two_running = record {
  log = record { start = 2; size = 31; outstanding = 2; committing = false; blocks = [] };
  used = 0 ∷ 0 ∷ [];
}

two_running-Reach : Reach (started 2 31 failing) two_running
unfolding initlog recover_from_log read_head begin_op
two_running-Reach =
    next
      (next here (
        begins (record { start = 2; size = 31; outstanding = 1; committing = false; blocks = [] })
          refl refl))
      (begins (two_running.log) refl refl)

log_write-Reserved_example : Reserved 31 two_running 40 failing
log_write-Reserved_example =
    log_write-Reserved 2 31 failing [] (0 ∷ []) 0 40 failing two_running-Reach refl (omega arith)

last_log_write_panics_example :
    (s : Sys) × Reach (started 2 log_size failing) s
    × (s.used ≡ 10 ∷ 10 ∷ 9 ∷ [])
    × (log_write s.log failing 40 ≡ panic "too big a transaction")
last_log_write_panics_example = last_log_write_panics 2 failing failing 40

end_op_and_begin_op_example :
    (two_running.used ≢ [] → (r : Log × Bool) × (end_op_enter two_running.log ≡ ok r))
    × (two_running.used ≡ []
        → two_running.log.committing ≡ false
        → (two_running.log.blocks ≡ [])
          × (begin_op two_running.log ≡ some (record (two_running.log) { outstanding = 1 })))
end_op_and_begin_op_example = end_op_and_begin_op 2 31 failing two_running-Reach
