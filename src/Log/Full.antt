-- ===== src/Log/Full.antt =====
-- log.c: three operations fill a log area of LOGSIZE blocks, as mkfs.c makes it.
use os_assignment.Prelude.{
  ℕ, zero, suc, ◌+◌, ◌≤◌, ◌<◌, ◌≡◌, refl, ap, ◌∙◌, List, [], ◌∷◌, ◌++◌, arith, length, false, ◌==◌,
  ok, panic,
}
use mathlib.Core.Path.{subst}
use os_assignment.Disk.{Machine, mark_dirty}
use os_assignment.Log.{
  log_size, max_op_blocks, log_write, begin_op, initlog, recover_from_log, read_head, absorb,
}
use os_assignment.Log.Reserve.{Sys, begins, writes, Reach, here, next, started}

-- The numbers from `a` on.
abbrev numbers : ℕ → ℕ → List ℕ
numbers a zero = []
numbers a (suc n) = a ∷ numbers (a + 1) n

length-numbers : (a n : ℕ) → length (numbers a n) ≡ n
length-numbers a zero = refl
length-numbers a (suc n) = ap suc (length-numbers (a + 1) n)

absorb-numbers : (a n : ℕ) → absorb (numbers a n) (a + n) ≡ numbers a (suc n)
unfolding absorb
absorb-numbers a zero = ap (λ k. k ∷ []) (omega arith)
absorb-numbers a (suc n) =
    let other : (a == a + suc n) ≡ false = ground arith in
    let there : a + suc n ≡ a + 1 + n = omega arith in
    rw other (
      ap (λ k. a ∷ absorb (numbers (a + 1) n) k) there ∙ ap (λ l. a ∷ l) (absorb-numbers (a + 1) n))

-- Three operations run and have logged the blocks from 0 to below `n`.
abbrev filled : ℕ → ℕ → List ℕ → Sys
filled start n used = record {
  log = record {
    start = start;
    size = log_size;
    outstanding = 3;
    committing = false;
    blocks = numbers 0 n;
  };
  used = used;
}

write_next :
    (start n : ℕ) (used : List ℕ) (m : Machine)
    → n < 29
    → log_write (filled start n used).log m n ≡ ok ((filled start (suc n) used).log, mark_dirty m n)
unfolding log_write
write_next start n used m l =
    let count = length-numbers 0 n in
    let more : absorb (numbers 0 n) n ≡ numbers 0 (suc n) =
      ap (absorb (numbers 0 n)) (omega arith) ∙ absorb-numbers 0 n in
    rw count (rw more (ground (arith, l)))

-- One operation makes `j` calls.
phase :
    (start n : ℕ) (us vs : List ℕ) (m : Machine) (s : Sys) (j : ℕ)
    → j ≤ max_op_blocks
    → n + j ≤ 29
    → Reach s (filled start n (us ++ (0 ∷ vs)))
    → Reach s (filled start (n + j) (us ++ (j ∷ vs)))
phase start n us vs m s zero l h r =
    subst (λ k. Reach s (filled start k (us ++ (0 ∷ vs)))) (omega arith) r
phase start n us vs m s (suc j) l h r =
    let before = phase start n us vs m s j (omega arith) (omega arith) r in
    let after = filled start (suc (n + j)) (us ++ ((j + 1) ∷ vs)) in
    let count : suc (n + j) ≡ n + suc j = omega arith in
    let calls : j + 1 ≡ suc j = omega arith in
    subst (λ k. Reach s (filled start k (us ++ (suc j ∷ vs)))) count
      (subst (λ k. Reach s (filled start (suc (n + j)) (us ++ (k ∷ vs)))) calls
        (next before (
          writes us vs j (n + j) m (mark_dirty m (n + j)) after.log refl (omega arith)
            (write_next start (n + j) (us ++ (j ∷ vs)) m (omega arith)) refl)))

-- Three operations begin on the log as it is after `initlog`.
three_begin :
    (start : ℕ) (m0 : Machine) → Reach (started start log_size m0) (filled start 0 (0 ∷ 0 ∷ 0 ∷ []))
unfolding initlog recover_from_log read_head begin_op
three_begin start m0 =
    let running = λ (k : ℕ). record (filled start 0 []).log { outstanding = k } in
    next (next (next here (begins (running 1) refl refl)) (begins (running 2) refl refl))
      (begins (running 3) refl refl)

-- On the log area of LOGSIZE blocks that mkfs.c makes, three operations that `begin_op` lets in at once,
-- each of which makes no more than MAXOPBLOCKS calls, reach a state in which the last of these calls of
-- `log_write` panics with "too big a transaction", whichever block it is made with.
pub last_log_write_panics :
    (start : ℕ) (m0 m : Machine) (b : ℕ)
    → (s : Sys) × Reach (started start log_size m0) s
      × (s.used ≡ 10 ∷ 10 ∷ 9 ∷ [])
      × (log_write s.log m b ≡ panic "too big a transaction")
unfolding log_write
last_log_write_panics start m0 m b =
    let s0 = started start log_size m0 in
    let one =
      phase start 0 [] (0 ∷ 0 ∷ []) m s0 10 (omega arith) (omega arith) (three_begin start m0) in
    let two = phase start 10 (10 ∷ []) (0 ∷ []) m s0 10 (omega arith) (omega arith) one in
    let three = phase start 20 (10 ∷ 10 ∷ []) [] m s0 9 (omega arith) (omega arith) two in
    (filled start 29 (10 ∷ 10 ∷ 9 ∷ []), three, refl, refl)
