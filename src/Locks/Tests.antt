-- ===== src/Locks/Tests.antt =====
-- spinlock.c on one processor and on two.
use os_assignment.Prelude.{ℕ, ◌≡◌, refl, [], ◌∷◌, true, false, none, some, arith, ok, update}
use os_assignment.Locks.{
  Cpu, Lock, owned_by, pushcli, popcli, holding, acquire, acquire_enter, try_lock, own, release,
  release_enter, unlock,
}
use os_assignment.Locks.Nesting.{push, pop, empty, wrap, Restored, Nested-Restored}
use os_assignment.Locks.Exclusion.{
  Sys, enters, takes, owns, Reach, here, next, start, spins, got, inside, out, mutual_exclusion,
}

abbrev awake : Cpu
awake = record { interrupts = true; ncli = 0; intena = false }

abbrev open_lock : Lock
open_lock = record { locked = false; cpu = none }

Nested-Restored_example : Restored (push ∷ push ∷ pop ∷ pop ∷ []) awake
Nested-Restored_example =
    Nested-Restored (wrap (wrap empty empty) empty) awake (omega arith) (λ p. absurd (omega arith))

-- Processor 0 has the lock, and processor 1 waits for it.
abbrev contended : Sys
contended = record {
  lock = record { locked = true; cpu = some 0 };
  phase = update (update (update (update (λ i. out) 0 spins) 1 spins) 0 got) 0 inside;
}

contended-Reach : Reach start contended
unfolding try_lock own
contended-Reach =
    next
      (next (next (next here (enters 0 refl refl refl)) (enters 1 refl refl refl))
        (takes 0 (record { locked = true; cpu = none }) refl refl refl))
      (owns 0 refl refl)

mutual_exclusion_example :
    ((i j : ℕ) → contended.phase i ≡ inside → contended.phase j ≡ inside → i ≡ j)
    × ((i : ℕ) → contended.phase i ≡ out → owned_by i contended.lock ≡ false)
    × ((i : ℕ) → contended.phase i ≡ inside → owned_by i contended.lock ≡ true)
mutual_exclusion_example = mutual_exclusion contended-Reach

-- Acquiring and releasing a lock switches interrupts off and on again.
acquire_runs :
    (acquire 3 open_lock awake
      ≡ ok (
          some (
            record { locked = true; cpu = some 3 },
            record { interrupts = false; ncli = 1; intena = true },
          )))
    × (release 3
          (record { locked = true; cpu = some 3 })
          (record { interrupts = false; ncli = 1; intena = true })
        ≡ ok (open_lock, record { interrupts = true; ncli = 0; intena = true }))
unfolding acquire acquire_enter holding pushcli popcli try_lock own release release_enter unlock
acquire_runs = (refl, refl)
