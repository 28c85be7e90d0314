-- ===== src/Log/Txn.antt =====
-- log.c: a file system operation between `begin_op` and `end_op`, which changes blocks through
-- `log_write` as the comment above that function says.
use native.Mathlib.Decide.{ℕ_discrete}
use os_assignment.Prelude.{
  ℕ, ◌+◌, ◌^◌, ◌≤◌, ◌<◌, ◌≡◌, refl, ap, ◌∙◌, sym, List, [], ◌∷◌, arith, length, All, Among, ◌⊎◌,
  inl, inr, update, update_ne, ◌==◌, Bool-cases, true, false, Option, none, some, Result, ok, ◌>>=◌,
}
use mathlib.Core.Path.{subst₂}
use os_assignment.Disk.{Machine, Block, store, mark_dirty}
use os_assignment.Log.{
  Log, log_size, max_op_blocks, get_head, absorb, log_write, begin_op, end_op, end_op_enter,
  end_op_finish, commit,
}
use os_assignment.Log.Install.{Outside}
use os_assignment.Log.Commit.{Ready, recovered, recoveries, commit_atomic}

-- New contents for some blocks, in order.
abbrev pub Writes : Type 0
Writes = List (ℕ × Block)

pub txn : Writes → Log → Machine → Result (Log × Machine)
txn [] l m = ok (l, m)
txn ((b, v) ∷ ws) l m = log_write l (store m b v) b >>= λ r. txn ws r.0 r.1

-- `none` is an operation that has to wait in `begin_op`.
pub fs_op : Writes → Log → Machine → Option (Result (Log × Machine))
fs_op ws l m = elim (begin_op l) [
  | none ↦ none
  | some l1 ↦ some (txn ws l1 m >>= λ r. end_op r.0 r.1)
]

-- What the writes make of the blocks.
abbrev pub replay : Writes → (ℕ → Block) → ℕ → Block
replay [] d = d
replay ((b, v) ∷ ws) d = replay ws (update d b v)

Among-absorb : (xs : List ℕ) (b c : ℕ) → (c ≡ b) ⊎ Among c xs → Among c (absorb xs b)
unfolding absorb
Among-absorb [] b c (inl e) = inl (sym e)
Among-absorb [] b c (inr a) = absurd a
Among-absorb (x ∷ xs) b c h = ground (arith, Among-absorb xs b c)

All-absorb {κ} : (P : ℕ → Type κ) (xs : List ℕ) (b : ℕ) → P b → All P xs → All P (absorb xs b)
unfolding absorb
All-absorb P [] b h o = (h, tt)
All-absorb P (x ∷ xs) b h o = elim (Bool-cases (x == b)) [
  | inl e ↦ rw e o
  | inr e ↦ rw e (o.0, All-absorb P xs b h o.1)
]

pub length-absorb :
    (xs : List ℕ) (b : ℕ)
    → (length xs ≤ length (absorb xs b)) × (length (absorb xs b) ≤ length xs + 1)
unfolding absorb
length-absorb [] b = omega arith
length-absorb (x ∷ xs) b = ground (arith, length-absorb xs b)

-- One modification of a block: its new contents are in the cache and its number in the log.
pub record Logs (l : Log) (old new : ℕ → Block) (r : Log × Machine) : Type 0 where
  pub ready : Ready r.0 old new r.1
  pub same_log : (r.0.start ≡ l.start) × (r.0.size ≡ l.size)
  pub same_ops : (r.0.outstanding ≡ l.outstanding) × (r.0.committing ≡ l.committing)

module _ (l : Log) (old new : ℕ → Block) (m : Machine) (b : ℕ) (v : Block) where
  abbrev pub after : Log × Machine
  after = (record l { blocks = absorb l.blocks b }, mark_dirty (store m b v) b)

  pub log_write_lem :
      length l.blocks < log_size
      → length l.blocks + 1 < l.size
      → 0 < l.outstanding
      → l.outstanding < 2 ^ 31
      → log_write l (store m b v) b ≡ ok after
  unfolding log_write
  log_write_lem h s p q = ground arith

  after-Logs :
      Ready l old new m
      → Outside l.start l.size b
      → length l.blocks < log_size
      → length l.blocks + 1 < l.size
      → Logs l old (update new b v) after
  after-Logs r o h s = record {
    ready = record {
      outside = All-absorb (Outside l.start l.size) l.blocks b o r.outside;
      fits = omega (arith, length-absorb l.blocks b);
      small = omega (arith, length-absorb l.blocks b);
      roomy = omega (arith, r.roomy, ap length kept);
      empty = r.empty;
      homes = r.homes;
      seen = λ c oc. ground (arith, r.seen c oc);
      rest = λ c oc. elim (ℕ_discrete b c) [
        | yes e ↦ inl (Among-absorb l.blocks b c (inl (sym e)))
        | no ne ↦ elim (r.rest c oc) [
          | inl a ↦ inl (Among-absorb l.blocks b c (inr a))
          | inr q ↦ inr (q ∙ sym (update_ne new v ne))
        ]
      ];
    };
    same_log = (refl, refl);
    same_ops = (refl, refl);
  }
    where
      kept : update m.cache b v l.start ≡ m.cache l.start
      kept = update_ne m.cache {i = b} {j = l.start} v (omega (arith, r.fits))

-- The total form over a transaction: `room` writes are still allowed.
pub txn-Logs :
    (ws : Writes) (l : Log) (old new : ℕ → Block) (m : Machine)
    → Ready l old new m
    → All (λ w. Outside l.start l.size w.0) ws
    → length l.blocks + length ws ≤ log_size
    → length l.blocks + length ws < l.size
    → 0 < l.outstanding
    → l.outstanding < 2 ^ 31
    → (r : Log × Machine) × (txn ws l m ≡ ok r) × Logs l old (replay ws new) r
unfolding txn
txn-Logs [] l old new m r o h s p q =
    ((l, m), refl, record { ready = r; same_log = (refl, refl); same_ops = (refl, refl) })
txn-Logs ((b, v) ∷ ws) l old new m r o h s p q =
    let step = after-Logs l old new m b v r o.0 (omega arith) (omega arith) in
    let l1 = (after l old new m b v).0 in
    let m1 = (after l old new m b v).1 in
    let (res, e, logs) =
      txn-Logs ws l1 old (update new b v) m1 step.ready o.1
        (omega (arith, length-absorb l.blocks b)) (omega (arith, length-absorb l.blocks b)) p q in
    (
      res,
      rw (log_write_lem l old new m b v (omega arith) (omega arith) p q) e,
      record { ready = logs.ready; same_log = logs.same_log; same_ops = logs.same_ops },
    )

-- No operation is running, the log is empty, and disk and cache agree on `d`. The area of the log has a
-- block for the header and one for each block that an operation may write, and the header has
-- room for LOGSIZE block numbers.
pub record Idle (d : ℕ → Block) (l : Log) (m : Machine) : Type 0 where
  pub none_running : l.outstanding ≡ 0
  pub not_committing : l.committing ≡ false
  pub nothing_logged : l.blocks ≡ []
  pub room : max_op_blocks < l.size
  pub head_room : log_size < length (m.cache l.start)
  pub empty : get_head (m.disk l.start) ≡ []
  pub on_disk : (c : ℕ) → Outside l.start l.size c → m.disk c ≡ d c
  pub in_cache : (c : ℕ) → Outside l.start l.size c → m.cache c ≡ d c

module _ (d : ℕ → Block) (l : Log) (m : Machine) (i : Idle d l m) where
  begin_op-Idle : begin_op l ≡ some (record l { outstanding = 1 })
  unfolding begin_op
  begin_op-Idle = rw (i.not_committing, i.nothing_logged, i.none_running)

  Idle-Ready : Ready (record l { outstanding = 1 }) d d m
  Idle-Ready = record {
    outside = rw i.nothing_logged tt;
    fits = rw i.nothing_logged (omega (arith, i.room));
    small = rw i.nothing_logged (omega arith);
    roomy = i.head_room;
    empty = i.empty;
    homes = i.on_disk;
    seen = i.in_cache;
    rest = λ c o. inr refl;
  }

-- The last operation commits.
end_op_last :
    (l : Log) (m : Machine)
    → l.outstanding ≡ 1
    → l.committing ≡ false
    → let r = commit (record l { outstanding = 0; committing = true }) m in
      end_op l m ≡ ok (record r.0 { committing = false }, r.1)
unfolding end_op end_op_enter end_op_finish
end_op_last l m e f = rw (f, e)

-- Nothing but the count and the flag changes before the commit.
Ready-commit :
    (old new : ℕ → Block) (l : Log) (m : Machine)
    → Ready l old new m
    → Ready (record l { outstanding = 0; committing = true }) old new m
Ready-commit old new l m r = record {
  outside = r.outside;
  fits = r.fits;
  small = r.small;
  roomy = r.roomy;
  empty = r.empty;
  homes = r.homes;
  seen = r.seen;
  rest = r.rest;
}

-- What an operation leaves on a log of `size` blocks at `start`, if the disk fails after `m.power`
-- writes: later boots find all of it or nothing.
pub record Atomic (start size : ℕ) (old new d : ℕ → Block) : Type 0 where
  pub survives :
      (boots : List ℕ) (k : ℕ)
      → log_size < k
      → let d' = recovered start size (recoveries start size boots d) k in
        ((c : ℕ) → Outside start size c → d' c ≡ old c)
        ⊎ ((c : ℕ) → Outside start size c → d' c ≡ new c)

Atomic-commit :
    (l : Log) (m : Machine) (old new : ℕ → Block) (start size : ℕ)
    → Ready l old new m
    → l.start ≡ start
    → l.size ≡ size
    → Atomic start size old new (commit l m).1.disk
Atomic-commit l m old new start size r e f =
    subst₂ (λ a b. Atomic a b old new (commit l m).1.disk) e f
      (record { survives = λ boots k w. commit_atomic l old new m boots k r w })

fs_op_steps :
    (ws : Writes) (l l1 : Log) (m : Machine) (r s : Log × Machine)
    → begin_op l ≡ some l1
    → txn ws l1 m ≡ ok r
    → end_op r.0 r.1 ≡ ok s
    → fs_op ws l m ≡ some (ok s)
unfolding fs_op
fs_op_steps ws l l1 m r s e f g = rw (e, fs_op) (rw f (rw g))

fs_op_run :
    (ws : Writes) (d : ℕ → Block) (l : Log) (m : Machine)
    → Idle d l m
    → All (λ w. Outside l.start l.size w.0) ws
    → length ws ≤ max_op_blocks
    → (r : Log × Machine) × Ready
        (record r.0 { outstanding = 0; committing = true })
        d
        (replay ws d)
        r.1
      × (let c = commit (record r.0 { outstanding = 0; committing = true }) r.1 in
          fs_op ws l m ≡ some (ok (record c.0 { committing = false }, c.1)))
      × ((r.0.start ≡ l.start) × (r.0.size ≡ l.size))
fs_op_run ws d l m i o h =
    let (r, e, logs) =
      txn-Logs ws (record l { outstanding = 1 }) d d m (Idle-Ready d l m i) o
        (rw i.nothing_logged (omega arith)) (rw i.nothing_logged (omega (arith, i.room)))
        (omega arith) (omega arith) in
    (
      r,
      Ready-commit d (replay ws d) r.0 r.1 logs.ready,
      fs_op_steps ws l _ m r _ (begin_op-Idle d l m i) e
          (end_op_last r.0 r.1 logs.same_ops.0 (logs.same_ops.1 ∙ i.not_committing)),
      logs.same_log,
    )

-- An operation of at most `max_op_blocks` writes of blocks outside the log neither sleeps nor panics, and
-- it is atomic: with the power failing after any number of disk writes, and any number of boots cut
-- short behind it, a boot with power for a full recovery leaves the blocks outside the log all as they
-- were, or all as the writes made them. Before it no operation runs, nothing is logged in memory or in
-- the header on disk, and disk and cache agree outside the log; the area of the log has more than
-- `max_op_blocks` blocks, as that of mkfs.c has, and its header has room for LOGSIZE block numbers.
pub fs_op-Atomic :
    (ws : Writes) (d : ℕ → Block) (l : Log) (m : Machine)
    → Idle d l m
    → All (λ w. Outside l.start l.size w.0) ws
    → length ws ≤ max_op_blocks
    → (r : Log × Machine) × (fs_op ws l m ≡ some (ok r))
      × Atomic l.start l.size d (replay ws d) r.1.disk
fs_op-Atomic ws d l m i o h =
    let (r, ready, e, same) = fs_op_run ws d l m i o h in
    let l2 = record r.0 { outstanding = 0; committing = true } in
    (
      (record (commit l2 r.1).0 { committing = false }, (commit l2 r.1).1),
      e,
      Atomic-commit l2 r.1 d (replay ws d) l.start l.size ready same.0 same.1,
    )
