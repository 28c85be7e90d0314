-- ===== src/Proc/Exit.antt =====
-- proc.c: what `exit` does to the process table.
use mathlib.Core.Bool.{false≢true}
use native.Mathlib.Decide.{ℕ_discrete}
use os_assignment.Prelude.{
  ℕ, zero, suc, ◌+◌, ◌≤◌, ◌<◌, ◌≡◌, ◌≢◌, refl, ◌∙◌, sym, arith, List, true, false, Option, none,
  some, ◌&&◌, get_elem?, ◌⊎◌, inl, inr, Bool-cases, Option-cases,
}
use os_assignment.Proc.{
  Proc, Kernel, Chan, sleeping, zombie, is, is_child, same_chan, modify, wakeup1, adopt, reparent,
  exit_enter, entry_chan, nproc,
}
use os_assignment.Proc.Table.{get_elem?-modify}
use os_assignment.Proc.Signals.{get_elem?-wakeup1}

-- Entry `j` is no child of `self`.
abbrev pub Orphan : ℕ → List Proc → ℕ → Type 0
Orphan self ps j = (p : Proc) → get_elem? ps j ≡ some p → is_child p self ≡ false

-- Nobody sleeps on the channel.
abbrev pub Awake : Option Chan → List Proc → Type 0
Awake c ps =
    (j : ℕ) (p : Proc)
    → get_elem? ps j ≡ some p
    → (is p.state sleeping && same_chan p.chan c) ≡ false

Awake-wakeup1_self : (c : Option Chan) (ps : List Proc) → Awake c (wakeup1 c ps)
Awake-wakeup1_self c ps j p e = ground (arith, get_elem?-wakeup1 c ps j)

Awake-wakeup1 : (c d : Option Chan) (ps : List Proc) → Awake c ps → Awake c (wakeup1 d ps)
Awake-wakeup1 c d ps a j p e = elim (Option-cases (get_elem? ps j)) [
  | inl n ↦ ground (arith, get_elem?-wakeup1 d ps j)
  | inr (q, at) ↦ ground (arith, get_elem?-wakeup1 d ps j, a j q at)
]

Orphan-wakeup1 :
    (self : ℕ) (d : Option Chan) (ps : List Proc) (j : ℕ)
    → Orphan self ps j
    → Orphan self (wakeup1 d ps) j
Orphan-wakeup1 self d ps j o p e = elim (Option-cases (get_elem? ps j)) [
  | inl n ↦ ground (arith, get_elem?-wakeup1 d ps j)
  | inr (q, at) ↦ ground (arith, get_elem?-wakeup1 d ps j, o q at)
]

module _ (self init : ℕ) (ne : init ≢ self) where
  abbrev moved : List Proc → ℕ → List Proc
  moved ps i = modify ps i (λ q. record q { parent = some init })

  Awake-moved : (c : Option Chan) (ps : List Proc) (i : ℕ) → Awake c ps → Awake c (moved ps i)
  Awake-moved c ps i a j p e = elim (Option-cases (get_elem? ps j)) [
    | inl n ↦ ground (arith, get_elem?-modify ps i j (λ q. record q { parent = some init }))
    | inr (q, at) ↦
        ground (arith, get_elem?-modify ps i j (λ q. record q { parent = some init }), a j q at)
  ]

  Orphan-moved :
      (ps : List Proc) (i j : ℕ) → (i ≡ j) ⊎ Orphan self ps j → Orphan self (moved ps i) j
  Orphan-moved ps i j (inl same) p e = elim (Option-cases (get_elem? ps j)) [
    | inl n ↦ ground (arith, get_elem?-modify ps i j (λ q. record q { parent = some init }))
    | inr (q, at) ↦ ground (arith, get_elem?-modify ps i j (λ q. record q { parent = some init }))
  ]
  Orphan-moved ps i j (inr o) p e = elim (Option-cases (get_elem? ps j)) [
    | inl n ↦ ground (arith, get_elem?-modify ps i j (λ q. record q { parent = some init }))
    | inr (q, at) ↦
        ground (arith, get_elem?-modify ps i j (λ q. record q { parent = some init }), o q at)
  ]

  abbrev pub ZombieChild : List Proc → ℕ → Type 0
  ZombieChild ps i =
      (p : Proc) × (get_elem? ps i ≡ some p) × (is_child p self ≡ true) × (is p.state zombie ≡ true)

  -- One visit of the loop.
  adopt_lem :
      (ps : List Proc) (i : ℕ)
      → ((adopt i self init ps ≡ ps) × Orphan self ps i)
        ⊎ ((adopt i self init ps ≡ moved ps i) × ¬ ZombieChild ps i)
        ⊎ (adopt i self init ps ≡ wakeup1 (some (entry_chan init)) (moved ps i))
  unfolding adopt
  adopt_lem ps i = visit (get_elem? ps i) refl
    where
      visit :
          (r : Option Proc)
          → get_elem? ps i ≡ r
          → ((adopt i self init ps ≡ ps) × Orphan self ps i)
            ⊎ ((adopt i self init ps ≡ moved ps i) × ¬ ZombieChild ps i)
            ⊎ (adopt i self init ps ≡ wakeup1 (some (entry_chan init)) (moved ps i))
      visit none at = inl (rw (at, adopt) refl, λ p e. cc)
      visit (some p) at = elim (Bool-cases (is_child p self)) [
        | inr f ↦ inl (rw (at, adopt) (rw f refl), λ q e. ground (arith, at, f))
        | inl f ↦ elim (Bool-cases (is p.state zombie)) [
          | inl z ↦ inr (inr (rw (at, adopt) (rw (f, z) refl)))
          | inr z ↦
              inr (inl (rw (at, adopt) (rw (f, z) refl), λ c. ground (arith, at, z, c.1, c.3)))
        ]
      ]

  adopt-Orphan :
      (ps : List Proc) (i j : ℕ) → (i ≡ j) ⊎ Orphan self ps j → Orphan self (adopt i self init ps) j
  adopt-Orphan ps i j h = elim (adopt_lem ps i) [
    | inl (e, o) ↦ rw e (elim h [ inl same ↦ rw (← same) o | inr o' ↦ o' ])
    | inr (inl (e, z)) ↦ rw e (Orphan-moved ps i j h)
    | inr (inr e) ↦
        rw e (Orphan-wakeup1 self (some (entry_chan init)) (moved ps i) j (Orphan-moved ps i j h))
  ]

  adopt-Awake :
      (c : Option Chan) (ps : List Proc) (i : ℕ) → Awake c ps → Awake c (adopt i self init ps)
  adopt-Awake c ps i a = elim (adopt_lem ps i) [
    | inl (e, o) ↦ rw e a
    | inr (inl (e, z)) ↦ rw e (Awake-moved c ps i a)
    | inr (inr e) ↦
        rw e (Awake-wakeup1 c (some (entry_chan init)) (moved ps i) (Awake-moved c ps i a))
  ]

  adopt_wakes :
      (ps : List Proc) (i : ℕ)
      → ZombieChild ps i
      → Awake (some (entry_chan init)) (adopt i self init ps)
  adopt_wakes ps i z = elim (adopt_lem ps i) [
    | inl (e, o) ↦ absurd (false≢true (sym (o z.0 z.1) ∙ z.2))
    | inr (inl (e, nz)) ↦ absurd (nz z)
    | inr (inr e) ↦ rw e (Awake-wakeup1_self (some (entry_chan init)) (moved ps i))
  ]

  -- A child that has exited is one until it is visited.
  adopt-ZombieChild :
      (ps : List Proc) (i j : ℕ) → i ≢ j → ZombieChild ps j → ZombieChild (adopt i self init ps) j
  adopt-ZombieChild ps i j n (p, at, c, x) = elim (adopt_lem ps i) [
    | inl (e, o) ↦ rw e (p, at, c, x)
    | inr (inl (e, nz)) ↦ rw e (p, elsewhere, c, x)
    | inr (inr e) ↦ rw e (
      p,
      ground (arith, get_elem?-wakeup1 (some (entry_chan init)) (moved ps i) j, elsewhere),
      c,
      x,
    )
  ]
    where
      elsewhere : get_elem? (moved ps i) j ≡ some p
      elsewhere = ground (arith, get_elem?-modify ps i j (λ q. record q { parent = some init }))

  reparent-Awake :
      (c : Option Chan) (n i : ℕ) (ps : List Proc)
      → Awake c ps
      → Awake c (reparent n i self init ps)
  unfolding reparent
  reparent-Awake c zero i ps a = a
  reparent-Awake c (suc n) i ps a =
      reparent-Awake c n (i + 1) (adopt i self init ps) (adopt-Awake c ps i a)

  reparent-Orphan :
      (n i j : ℕ) (ps : List Proc)
      → j < i + n
      → (i ≤ j) ⊎ Orphan self ps j
      → Orphan self (reparent n i self init ps) j
  unfolding reparent
  reparent-Orphan zero i j ps h (inl le) = absurd (omega arith)
  reparent-Orphan zero i j ps h (inr o) = o
  reparent-Orphan (suc n) i j ps h (inr o) =
      reparent-Orphan n (i + 1) j (adopt i self init ps) (omega arith)
        (inr (adopt-Orphan ps i j (inr o)))
  reparent-Orphan (suc n) i j ps h (inl le) = elim (ℕ_discrete i j) [
    | yes same ↦
        reparent-Orphan n (i + 1) j (adopt i self init ps) (omega arith)
          (inr (adopt-Orphan ps i j (inl same)))
    | no ne' ↦ reparent-Orphan n (i + 1) j (adopt i self init ps) (omega arith) (inl (omega arith))
  ]

  reparent_wakes :
      (n i j : ℕ) (ps : List Proc)
      → i ≤ j
      → j < i + n
      → ZombieChild ps j
      → Awake (some (entry_chan init)) (reparent n i self init ps)
  unfolding reparent
  reparent_wakes zero i j ps lo hi z = absurd (omega arith)
  reparent_wakes (suc n) i j ps lo hi z = elim (ℕ_discrete i j) [
    | yes same ↦
        reparent-Awake (some (entry_chan init)) n (i + 1) (adopt i self init ps)
          (adopt_wakes ps i (rw same z))
    | no ne' ↦
        reparent_wakes n (i + 1) j (adopt i self init ps) (omega arith) (omega arith)
          (adopt-ZombieChild ps i j ne' z)
  ]

module _ (k : Kernel) (self : ℕ) (parent : Option ℕ) (ne : k.initproc ≢ self) where
  abbrev parent_chan : Option Chan
  parent_chan = elim parent [ none ↦ none | some j ↦ some (entry_chan j) ]

  abbrev woken : List Proc
  woken = wakeup1 parent_chan k.procs

  abbrev adopted : List Proc
  adopted = reparent nproc 0 self k.initproc woken

  abbrev last_change : Proc → Proc
  last_change p = record p { state = zombie; etime = k.ticks }

  Awake-last : (c : Option Chan) → Awake c adopted → Awake c (modify adopted self last_change)
  Awake-last c a j p e = elim (Option-cases (get_elem? adopted j)) [
    | inl n ↦ ground (arith, get_elem?-modify adopted self j last_change)
    | inr (q, at) ↦ ground (arith, get_elem?-modify adopted self j last_change, a j q at)
  ]

  Orphan-last : (j : ℕ) → Orphan self adopted j → Orphan self (modify adopted self last_change) j
  Orphan-last j o p e = elim (Option-cases (get_elem? adopted j)) [
    | inl n ↦ ground (arith, get_elem?-modify adopted self j last_change)
    | inr (q, at) ↦ ground (arith, get_elem?-modify adopted self j last_change, o q at)
  ]

  own_entry :
      (q : Proc)
      → get_elem? (modify adopted self last_change) self ≡ some q
      → (q.state ≡ zombie) × (q.etime ≡ k.ticks)
  own_entry q e = elim (Option-cases (get_elem? adopted self)) [
    | inl n ↦ ground (arith, get_elem?-modify adopted self self last_change)
    | inr (r, at) ↦ ground (arith, get_elem?-modify adopted self self last_change)
  ]

  woken-ZombieChild :
      (j : ℕ) → ZombieChild self k.initproc ne k.procs j → ZombieChild self k.initproc ne woken j
  woken-ZombieChild j (p, at, c, x) =
      (p, ground (arith, get_elem?-wakeup1 parent_chan k.procs j), c, x)

  -- After `exit` has changed the table no process has the caller as its parent, the caller is a zombie
  -- with the time of its end, nobody sleeps on the parent's channel, so `wait` there scans again, and
  -- if a child had exited, nobody sleeps on init's.
  pub exit_lem :
      let ps = (exit_enter self parent k).procs in
      ((j : ℕ) → j < nproc → Orphan self ps j)
      × ((q : Proc) → get_elem? ps self ≡ some q → (q.state ≡ zombie) × (q.etime ≡ k.ticks))
      × ((j : ℕ) → parent ≡ some j → Awake (some (entry_chan j)) ps)
      × ((j : ℕ)
          → j < nproc
          → ZombieChild self k.initproc ne k.procs j
          → Awake (some (entry_chan k.initproc)) ps)
  unfolding exit_enter
  exit_lem = (
    λ j h.
        Orphan-last j
          (reparent-Orphan self k.initproc ne nproc 0 j woken (omega arith) (inl (omega arith))),
    own_entry,
    λ j e.
        Awake-last (some (entry_chan j)) (
          reparent-Awake self k.initproc ne (some (entry_chan j)) nproc 0 woken (parent_woken j e)),
    λ j h z. Awake-last (some (entry_chan k.initproc)) (
        reparent_wakes self k.initproc ne nproc 0 j woken (omega arith) (omega arith)
          (woken-ZombieChild j z)),
  )
    where
      parent_woken : (j : ℕ) → parent ≡ some j → Awake (some (entry_chan j)) woken
      parent_woken j e = rw e (Awake-wakeup1_self (some (entry_chan j)) k.procs)
