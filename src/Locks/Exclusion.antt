-- ===== src/Locks/Exclusion.antt =====
-- spinlock.c: any number of processors that acquire and release one lock.
use mathlib.Core.Path.{subst}
use os_assignment.Prelude.{
  ℕ, ◌≡◌, refl, ap, sym, arith, Bool, true, false, none, some, update, Bool-cases, inl, inr,
}
use os_assignment.Locks.{Lock, owned_by, try_lock, own, unlock}

-- Where a processor stands: outside; in the loop of `acquire`; behind it, before it has set `cpu`; with
-- the lock; in `release`, when it has cleared `cpu` and not yet opened the lock.
pub data Phase : Type 0 where
  out spins got inside leaving : Phase

abbrev pub busy : Phase → Bool
busy out = false
busy spins = false
busy got = true
busy inside = true
busy leaving = true

pub record Sys : Type 0 where
  pub lock : Lock
  pub phase : ℕ → Phase

-- One access of processor `i` to the lock. The tests of `acquire` and `release` are those that `holding`
-- makes, and must come out well.
pub data Step (s t : Sys) : Type 0 where
  enters :
      (i : ℕ)
      → s.phase i ≡ out
      → owned_by i s.lock ≡ false
      → t ≡ record s { phase = update s.phase i spins }
      → Step s t
  takes :
      (i : ℕ) (lk : Lock)
      → s.phase i ≡ spins
      → try_lock s.lock ≡ some lk
      → t ≡ record { lock = lk; phase = update s.phase i got }
      → Step s t
  owns :
      (i : ℕ)
      → s.phase i ≡ got
      → t ≡ record { lock = own i s.lock; phase = update s.phase i inside }
      → Step s t
  leaves :
      (i : ℕ)
      → s.phase i ≡ inside
      → owned_by i s.lock ≡ true
      → t ≡ record { lock = record (s.lock) { cpu = none }; phase = update s.phase i leaving }
      → Step s t
  opens :
      (i : ℕ)
      → s.phase i ≡ leaving
      → t ≡ record { lock = unlock s.lock; phase = update s.phase i out }
      → Step s t

pub data Reach (s : Sys) : Sys → Type 0 where
  here : Reach s s
  next : {t u : Sys} → Reach s t → Step t u → Reach s u

pub record Inv (s : Sys) : Type 0 where
  pub alone : (i j : ℕ) → busy (s.phase i) ≡ true → busy (s.phase j) ≡ true → i ≡ j
  pub closed : (i : ℕ) → busy (s.phase i) ≡ true → s.lock.locked ≡ true
  pub owner : (i : ℕ) → s.phase i ≡ inside → s.lock.cpu ≡ some i
  pub stale : (i : ℕ) → s.lock.cpu ≡ some i → s.phase i ≡ inside

abbrev pub start : Sys
start = record { lock = record { locked = false; cpu = none }; phase = λ i. out }

start-Inv : Inv start
start-Inv = record {
  alone = λ i j a b. cc;
  closed = λ i a. cc;
  owner = λ i a. cc;
  stale = λ i a. cc;
}

module _ {s : Sys} (v : Inv s) where
  enters-Inv : (i : ℕ) → s.phase i ≡ out → Inv (record s { phase = update s.phase i spins })
  enters-Inv i e = record {
    alone = λ a b x y. ground (arith, v.alone a b, e);
    closed = λ a x. ground (arith, v.closed a, e);
    owner = λ a x. ground (arith, v.owner a, e);
    stale = λ a x. ground (arith, v.stale a, e);
  }

  takes-Inv :
      (i : ℕ) (lk : Lock)
      → s.phase i ≡ spins
      → try_lock s.lock ≡ some lk
      → Inv (record { lock = lk; phase = update s.phase i got })
  unfolding try_lock
  takes-Inv i lk e w = elim (Bool-cases s.lock.locked) [
    | inl l ↦ absurd (ground (arith, w, l))
    | inr l ↦
        let nobody : (j : ℕ) → busy (s.phase j) ≡ false = λ j. ground (arith, v.closed j, l) in
        let took : lk ≡ record (s.lock) { locked = true } = ground (arith, w, l) in
        rw took (record {
          alone = λ a b x y. ground (arith, nobody a, nobody b);
          closed = λ a x. refl;
          owner = λ a x. ground (arith, v.owner a, e);
          stale = λ a x. ground (arith, v.stale a, e);
        })
  ]

  owns-Inv :
      (i : ℕ)
      → s.phase i ≡ got
      → Inv (record { lock = own i s.lock; phase = update s.phase i inside })
  unfolding own
  owns-Inv i e = record {
    alone = λ a b x y. ground (arith, v.alone a b, e);
    closed = λ a x. ground (arith, v.closed a, v.closed i, e);
    owner = λ a x. ground (arith, v.alone a i, e);
    stale = λ a x. ground arith;
  }

  leaves-Inv :
      (i : ℕ)
      → s.phase i ≡ inside
      → Inv (record { lock = record (s.lock) { cpu = none }; phase = update s.phase i leaving })
  leaves-Inv i e = record {
    alone = λ a b x y. ground (arith, v.alone a b, e);
    closed = λ a x. ground (arith, v.closed a, e);
    owner = λ a x. ground (arith, v.alone a i, e);
    stale = λ a x. cc;
  }

  opens-Inv :
      (i : ℕ)
      → s.phase i ≡ leaving
      → Inv (record { lock = unlock s.lock; phase = update s.phase i out })
  unfolding unlock
  opens-Inv i e = record {
    alone = λ a b x y. ground (arith, v.alone a b, e);
    closed = λ a x. ground (arith, v.alone a i, e);
    owner = λ a x. ground (arith, v.owner a, e);
    stale = λ a x. ground (arith, v.stale a, e);
  }

Step-Inv : {s t : Sys} → Inv s → Step s t → Inv t
Step-Inv v (enters i e h q) = subst Inv (sym q) (enters-Inv v i e)
Step-Inv v (takes i lk e w q) = subst Inv (sym q) (takes-Inv v i lk e w)
Step-Inv v (owns i e q) = subst Inv (sym q) (owns-Inv v i e)
Step-Inv v (leaves i e h q) = subst Inv (sym q) (leaves-Inv v i e)
Step-Inv v (opens i e q) = subst Inv (sym q) (opens-Inv v i e)

Reach-Inv : {s t : Sys} → Inv s → Reach s t → Inv t
Reach-Inv v here = v
Reach-Inv v (next r st) = Step-Inv (Reach-Inv v r) st

-- Two processors never have the lock at once, however their accesses interleave; a processor that does
-- not have it passes the check of `acquire`, and one that has it passes that of `release`.
pub mutual_exclusion :
    {s : Sys}
    → Reach start s
    → ((i j : ℕ) → s.phase i ≡ inside → s.phase j ≡ inside → i ≡ j)
      × ((i : ℕ) → s.phase i ≡ out → owned_by i s.lock ≡ false)
      × ((i : ℕ) → s.phase i ≡ inside → owned_by i s.lock ≡ true)
mutual_exclusion {s} r = (
  λ i j a b. v.alone i j (ap busy a) (ap busy b),
  λ i e. not_owner i e (owned_by i s.lock) refl,
  λ i e. let c = v.owner i e in let l = v.closed i (ap busy e) in rw (c, l) (ground arith),
)
  where
    v : Inv s
    v = Reach-Inv start-Inv r

    not_owner : (i : ℕ) → s.phase i ≡ out → (b : Bool) → owned_by i s.lock ≡ b → b ≡ false
    not_owner i e false h = refl
    not_owner i e true h = ground (arith, v.stale i, e, h)
