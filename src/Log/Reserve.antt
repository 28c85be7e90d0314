-- ===== src/Log/Reserve.antt =====
-- log.c: the reservation of log space by `begin_op`, with any number of operations interleaved.
use mathlib.Core.Path.{subst}
use os_assignment.Prelude.{
  ℕ, ◌+◌, ◌-◌, ◌*◌, ◌%◌, ◌^◌, ◌≤◌, ◌<◌, ◌≡◌, ◌≢◌, ap, ◌∙◌, sym, List, [], ◌∷◌, ◌++◌, arith, length,
  length-append, ◌==◌, Bool-cases, true, false, Bool, inl, inr, some, ok, panic,
}
use os_assignment.Disk.{Machine, mark_dirty}
use os_assignment.Log.{
  Log, log_size, max_op_blocks, log_write, begin_op, end_op_enter, end_op_finish, commit, initlog,
  recover_from_log, read_head, absorb,
}
use os_assignment.Log.Txn.{length-absorb}

-- The log and, for each operation between `begin_op` and `end_op`, the `log_write`s that it has made.
pub record Sys : Type 0 where
  pub log : Log
  pub used : List ℕ

-- One critical section of log.c. An operation makes at most `max_op_blocks` calls of `log_write`; the
-- machine on which it is made does not matter. `commits` is the end of an `end_op` that found nobody
-- else running.
pub data Step (s : Sys) (t : Sys) : Type 0 where
  begins :
      (l : Log) → begin_op s.log ≡ some l → t ≡ record { log = l; used = 0 ∷ s.used } → Step s t
  writes :
      (us vs : List ℕ) (u b : ℕ) (m m' : Machine) (l : Log)
      → s.used ≡ us ++ (u ∷ vs)
      → u < max_op_blocks
      → log_write s.log m b ≡ ok (l, m')
      → t ≡ record { log = l; used = us ++ ((u + 1) ∷ vs) }
      → Step s t
  ends :
      (us vs : List ℕ) (u : ℕ) (l : Log) (c : Bool)
      → s.used ≡ us ++ (u ∷ vs)
      → end_op_enter s.log ≡ ok (l, c)
      → t ≡ record { log = l; used = us ++ vs }
      → Step s t
  commits :
      (m : Machine)
      → s.log.committing ≡ true
      → t ≡ record { log = (end_op_finish (s.log, true) m).0; used = s.used }
      → Step s t

pub data Reach (s : Sys) : Sys → Type 0 where
  here : Reach s s
  next : {t u : Sys} → Reach s t → Step t u → Reach s u

-- What the running operations may still log.
abbrev pub spare : List ℕ → ℕ
spare [] = 0
spare (u ∷ us) = (max_op_blocks - u) + spare us

spare-middle :
    (us vs : List ℕ) (u : ℕ) → spare (us ++ (u ∷ vs)) ≡ spare us + (max_op_blocks - u) + spare vs
spare-middle [] vs u = omega arith
spare-middle (x ∷ us) vs u = omega (arith, spare-middle us vs u)

spare-append : (us vs : List ℕ) → spare (us ++ vs) ≡ spare us + spare vs
spare-append [] vs = omega arith
spare-append (x ∷ us) vs = omega (arith, spare-append us vs)

spare-le : (us : List ℕ) → spare us ≤ max_op_blocks * length us
spare-le [] = omega arith
spare-le (u ∷ us) = omega (arith, spare-le us)

length-middle : (us vs : List ℕ) (u : ℕ) → length (us ++ (u ∷ vs)) ≡ length us + length vs + 1
length-middle us vs u = omega (arith, length-append us (u ∷ vs))

not-nil-middle : (us vs : List ℕ) (u : ℕ) → us ++ (u ∷ vs) ≢ []
not-nil-middle us vs u e = omega (arith, ap length e, length-middle us vs u)

pub record Inv (size : ℕ) (s : Sys) : Type 0 where
  pub same_size : s.log.size ≡ size
  pub counted : s.log.outstanding ≡ length s.used
  pub few : length s.used ≤ 3
  pub reserved : length s.log.blocks + spare s.used ≤ log_size
  pub alone : s.log.committing ≡ true → s.used ≡ []
  pub quiet : s.log.outstanding ≡ 0 → s.log.committing ≡ false → s.log.blocks ≡ []

module _ {size : ℕ} {s : Sys} (i : Inv size s) where
  begins-Inv :
      (l : Log) → begin_op s.log ≡ some l → Inv size (record { log = l; used = 0 ∷ s.used })
  unfolding begin_op
  begins-Inv l e = ground (arith, i.alone, spare-le s.used)

  writes-Inv :
      (us vs : List ℕ) (u b : ℕ) (m m' : Machine) (l : Log)
      → s.used ≡ us ++ (u ∷ vs)
      → u < max_op_blocks
      → log_write s.log m b ≡ ok (l, m')
      → Inv size (record { log = l; used = us ++ ((u + 1) ∷ vs) })
  unfolding log_write
  writes-Inv us vs u b m m' l e h w =
      let used : length s.used ≡ length us + length vs + 1 = ap length e ∙ length-middle us vs u in
      let left = ap spare e ∙ spare-middle us vs u in
      ground (
        arith,
        used,
        left,
        length-middle us vs (u + 1),
        spare-middle us vs (u + 1),
        length-absorb s.log.blocks b,
        λ (t : s.log.committing ≡ true). not-nil-middle us vs u (sym e ∙ i.alone t),
      )

  ends-Inv :
      (us vs : List ℕ) (u : ℕ) (l : Log) (c : Bool)
      → s.used ≡ us ++ (u ∷ vs)
      → end_op_enter s.log ≡ ok (l, c)
      → Inv size (record { log = l; used = us ++ vs })
  unfolding end_op_enter
  ends-Inv us vs u l c e w =
      let used : length s.used ≡ length us + length vs + 1 = ap length e ∙ length-middle us vs u in
      let left = ap spare e ∙ spare-middle us vs u in
      ground (arith, used, left, length-append us vs, spare-append us vs)

  commits-Inv :
      (m : Machine)
      → s.log.committing ≡ true
      → Inv size (record { log = (end_op_finish (s.log, true) m).0; used = s.used })
  unfolding end_op_finish commit
  commits-Inv m e = ground arith

Step-Inv : {size : ℕ} {s t : Sys} → Inv size s → Step s t → Inv size t
Step-Inv {size} i (begins l e q) = subst (Inv size) (sym q) (begins-Inv i l e)
Step-Inv {size} i (writes us vs u b m m' l e h w q) =
    subst (Inv size) (sym q) (writes-Inv i us vs u b m m' l e h w)
Step-Inv {size} i (ends us vs u l c e w q) = subst (Inv size) (sym q) (ends-Inv i us vs u l c e w)
Step-Inv {size} i (commits m e q) = subst (Inv size) (sym q) (commits-Inv i m e)

pub Reach-Inv : {size : ℕ} {s t : Sys} → Inv size s → Reach s t → Inv size t
Reach-Inv i here = i
Reach-Inv i (next r st) = Step-Inv (Reach-Inv i r) st

-- The log as `initlog` leaves it.
abbrev pub started : ℕ → ℕ → Machine → Sys
started start size m = record { log = (initlog start size m).0; used = [] }

started-Inv : (start size : ℕ) (m : Machine) → Inv size (started start size m)
unfolding initlog recover_from_log read_head
started-Inv start size m = ground arith

-- What a `log_write` of a running operation comes to, on a log area of `size` blocks.
abbrev pub Reserved : ℕ → Sys → ℕ → Machine → Type 0
Reserved size s b m =
    let n = length s.log.blocks in
    (n < log_size)
    × (n + 1 < size → (r : Log × Machine) × (log_write s.log m b ≡ ok r))
    × (size ≤ n + 1 → log_write s.log m b ≡ panic "too big a transaction")
    × (log_size ≤ size → size ≤ n + 1 → (size ≡ log_size) × (n + 1 ≡ log_size) × (spare s.used ≡ 1))

Inv-Reserved :
    {size : ℕ} {s : Sys} (us vs : List ℕ) (u b : ℕ) (m : Machine)
    → Inv size s
    → s.used ≡ us ++ (u ∷ vs)
    → u < max_op_blocks
    → Reserved size s b m
unfolding log_write
Inv-Reserved {s = s} us vs u b m i e h =
    let used : length s.used ≡ length us + length vs + 1 = ap length e ∙ length-middle us vs u in
    let left = ap spare e ∙ spare-middle us vs u in
    (
      omega (arith, left, i.reserved),
      λ z. (
        (record s.log { blocks = absorb s.log.blocks b }, mark_dirty m b),
        ground (arith, used, left),
      ),
      λ z. ground (arith, i.same_size, z),
      λ z z'. (
        omega (arith, left, i.reserved),
        omega (arith, left, i.reserved),
        omega (arith, left, i.reserved),
      ),
    )

-- However operations interleave, as long as each makes at most MAXOPBLOCKS calls, a `log_write` of
-- a running operation finds fewer than LOGSIZE blocks logged. It returns if the log area has a block
-- for the header, for each of these and for one more, and else it panics with "too big a
-- transaction". On an area of at least LOGSIZE blocks it panics only if the area has just LOGSIZE blocks,
-- as mkfs.c makes it, all but one of LOGSIZE blocks are logged, and the call is the last one of all that the
-- running operations may still make.
pub log_write-Reserved :
    (start size : ℕ) (m0 : Machine) {s : Sys} (us vs : List ℕ) (u b : ℕ) (m : Machine)
    → Reach (started start size m0) s
    → s.used ≡ us ++ (u ∷ vs)
    → u < max_op_blocks
    → Reserved size s b m
log_write-Reserved start size m0 us vs u b m r e h =
    Inv-Reserved us vs u b m (Reach-Inv (started-Inv start size m0) r) e h

module _ {size : ℕ} (s : Sys) (i : Inv size s) where
  ending : s.used ≢ [] → (r : Log × Bool) × (end_op_enter s.log ≡ ok r)
  unfolding end_op_enter
  ending ne =
      let left = (s.log.outstanding + 2 ^ 32 - 1) % 2 ^ 32 in
      elim (Bool-cases s.log.committing) [
        | inl t ↦ absurd (ne (i.alone t))
        | inr f ↦ elim (Bool-cases (left == 0)) [
          | inl g ↦ ((record s.log { outstanding = left; committing = true }, true), ground arith)
          | inr g ↦ ((record s.log { outstanding = left }, false), ground arith)
        ]
      ]

  admitting :
      s.used ≡ []
      → s.log.committing ≡ false
      → (s.log.blocks ≡ []) × (begin_op s.log ≡ some (record s.log { outstanding = 1 }))
  unfolding begin_op
  admitting e f =
      let none_runs : s.log.outstanding ≡ 0 = i.counted ∙ ap length e in
      (i.quiet none_runs f, rw (f, i.quiet none_runs f, none_runs))

-- However operations interleave, the `end_op` of a running operation does not panic; and when none
-- runs and no commit is on its way, the log is empty and `begin_op` lets the next one in.
pub end_op_and_begin_op :
    (start size : ℕ) (m0 : Machine) {s : Sys}
    → Reach (started start size m0) s
    → (s.used ≢ [] → (r : Log × Bool) × (end_op_enter s.log ≡ ok r))
      × (s.used ≡ []
          → s.log.committing ≡ false
          → (s.log.blocks ≡ []) × (begin_op s.log ≡ some (record s.log { outstanding = 1 })))
end_op_and_begin_op start size m0 {s} r = (ending s i, admitting s i)
  where
    i : Inv size s
    i = Reach-Inv (started-Inv start size m0) r
