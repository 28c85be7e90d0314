-- ===== src/Proc/Sched/Rounds.antt =====
-- proc.c: whole rounds of `scheduler`.
use native.Mathlib.Decide.{ℕ_discrete}
use mathlib.Core.Path.{subst}
use os_assignment.Prelude.{
  ℕ, zero, suc, ◌+◌, ◌%◌, ◌^◌, ◌≤◌, ◌<◌, ◌≡◌, refl, ap, sym, arith, List, [], ◌∷◌, ◌++◌, true,
  Option, none, some, ◌&&◌, ◌==◌, if◌then◌else◌, get_elem?, Among, ◌⊎◌, inl, inr, Bool-cases,
}
use os_assignment.Proc.{Proc, runnable, running, is, modify, nproc}
use os_assignment.Proc.Sched.{
  Table, Sched, set_state, account_one, account, priority_chosen, dispatch, fcfs_case,
  priority_loop, priority_case, rr_visit, rr_loop, cases, round,
}
use os_assignment.Proc.Sched.Choice.{fcfs_choice}

abbrev pub Runnable : List Proc → ℕ → Type 0
Runnable ps i = (p : Proc) × (get_elem? ps i ≡ some p) × (is p.state runnable ≡ true)

-- What every dispatch of a runnable process keeps, every case keeps.
module _ {ℓ} (runs : ℕ → Table → Table) (P : Sched → Type ℓ)
    (keep : (i : ℕ) (s : Sched) → Runnable s.table.procs i → P s → P (dispatch runs i s)) where
  rr_visit_keeps : (i : ℕ) (s : Sched) → P s → P (rr_visit runs i s)
  unfolding rr_visit
  rr_visit_keeps i s h = one (get_elem? s.table.procs i) refl
    where
      one :
          (o : Option Proc)
          → get_elem? s.table.procs i ≡ o
          → P (elim o [ none ↦ s | some p ↦ if is p.state runnable then dispatch runs i s else s ])
      one none e = h
      one (some p) e = elim (Bool-cases (is p.state runnable)) [
        | inl r ↦ rw r (keep i s (p, e, r) h)
        | inr r ↦ rw r h
      ]

  rr_loop_keeps : (n i : ℕ) (s : Sched) → P s → P (rr_loop runs n i s)
  unfolding rr_loop
  rr_loop_keeps zero i s h = h
  rr_loop_keeps (suc n) i s h = rr_loop_keeps n (i + 1) (rr_visit runs i s) (rr_visit_keeps i s h)

  priority_loop_keeps : (c n i : ℕ) (s : Sched) → P s → P (priority_loop runs c n i s)
  unfolding priority_loop
  priority_loop_keeps c zero i s h = h
  priority_loop_keeps c (suc n) i s h =
      priority_loop_keeps c n (i + 1) _ (one (get_elem? s.table.procs i) refl)
    where
      one :
          (o : Option Proc)
          → get_elem? s.table.procs i ≡ o
          → P (elim o [
            | none ↦ s
            | some p ↦ if is p.state runnable && p.priority == c then dispatch runs i s else s
          ])
      one none e = h
      one (some p) e = elim (Bool-cases (is p.state runnable && p.priority == c)) [
        | inl r ↦ rw r (keep i s (p, e, ground arith) h)
        | inr r ↦ rw r h
      ]

  fcfs_case_keeps : (s : Sched) → P s → P (fcfs_case runs s)
  unfolding fcfs_case
  fcfs_case_keeps s h = elim (fcfs_choice s.table.procs ((s.table.ticks + 1000) % 2 ^ 32)) [
    | inl (e, all) ↦ rw (e, fcfs_case) h
    | inr (k, o, e) ↦ rw (e, fcfs_case) (keep k s (o.entry, o.here, o.ready) h)
  ]

  priority_case_keeps : (s : Sched) → P s → P (priority_case runs s)
  unfolding priority_case
  priority_case_keeps s h = elim (Bool-cases (priority_chosen s.table.procs 101 == 101)) [
    | inl e ↦ rw e h
    | inr e ↦ rw e (priority_loop_keeps (priority_chosen s.table.procs 101) nproc 0 s h)
  ]

-- A process that gives the processor back at once, as `yield` does.
abbrev pub yields : ℕ → Table → Table
yields i t = record t { procs = modify t.procs i (set_state runnable) }

modify_back :
    (ps : List Proc) (i : ℕ)
    → Runnable ps i
    → modify (modify ps i (set_state running)) i (set_state runnable) ≡ ps
unfolding modify
modify_back [] i r = refl
modify_back (p ∷ ps) zero (q, e, h) = ground arith
modify_back (p ∷ ps) (suc i) r = ap (λ k. p ∷ k) (modify_back ps i r)

Among-snoc : (c d : ℕ) (xs : List ℕ) → (c ≡ d) ⊎ Among c xs → Among c (xs ++ (d ∷ []))
Among-snoc c d [] (inl e) = inl (sym e)
Among-snoc c d [] (inr a) = absurd a
Among-snoc c d (x ∷ xs) h = ground (arith, Among-snoc c d xs)

rr_visit-dispatch :
    (runs : ℕ → Table → Table) (i : ℕ) (s : Sched)
    → Runnable s.table.procs i
    → rr_visit runs i s ≡ dispatch runs i s
unfolding rr_visit
rr_visit-dispatch runs i s (p, e, r) = rw (e, rr_visit) (rw r)

-- Where every process yields, the table stays.
table-dispatch :
    (t : Table) (i : ℕ) (s : Sched)
    → Runnable s.table.procs i
    → s.table ≡ t
    → (dispatch yields i s).table ≡ t
unfolding dispatch
table-dispatch t i s r e = rw (modify_back s.table.procs i r) e

dispatched-grows :
    (c i : ℕ) (s : Sched)
    → (c ≡ i) ⊎ Among c s.dispatched
    → Among c (dispatch yields i s).dispatched
unfolding dispatch
dispatched-grows c i s h = Among-snoc c i s.dispatched h

abbrev Visited : Table → ℕ → Sched → Type 0
Visited t c s = (s.table ≡ t) × Among c s.dispatched

visit :
    (t : Table) (c i : ℕ) (s : Sched)
    → Runnable t.procs c
    → c ≡ i
    → s.table ≡ t
    → Visited t c (rr_visit yields i s)
visit t c i s r q e =
    subst (Visited t c) (sym (rr_visit-dispatch yields i s here))
      (table-dispatch t i s here e, dispatched-grows c i s (inl q))
  where
    here : Runnable s.table.procs i
    here = rw (e, ← q) r

rr_loop_visits :
    (t : Table) (c n i : ℕ) (s : Sched)
    → Runnable t.procs c
    → i ≤ c
    → c < i + n
    → s.table ≡ t
    → Among c (rr_loop yields n i s).dispatched
unfolding rr_loop
rr_loop_visits t c zero i s r lo hi e = absurd (omega arith)
rr_loop_visits t c (suc n) i s r lo hi e = elim (ℕ_discrete c i) [
  | yes q ↦
      (rr_loop_keeps yields (Visited t c)
        (λ j u ru v. (table-dispatch t j u ru v.0, dispatched-grows c j u (inr v.1))) n (i + 1)
        (rr_visit yields i s) (visit t c i s r q e)).1
  | no ne ↦
      rr_loop_visits t c n (i + 1) (rr_visit yields i s) r (omega arith) (omega arith)
        (rr_visit_keeps yields (λ u. u.table ≡ t) (λ j u ru v. table-dispatch t j u ru v) i s e)
]

account-Runnable : (now : ℕ) (ps : List Proc) (c : ℕ) → Runnable ps c → Runnable (account now ps) c
unfolding account account_one
account-Runnable now [] c (p, e, r) = cc
account-Runnable now (q ∷ ps) zero (p, e, r) = (account_one now q, refl, ground arith)
account-Runnable now (q ∷ ps) (suc c) r = account-Runnable now ps c r

-- First come, first served is not what strategy 1 does: for want of a `break` its case runs on into
-- the others. Where processes yield, a round dispatches every runnable process of the table, however
-- late it was created.
pub fcfs_runs_everyone :
    (s : Sched) (c : ℕ)
    → Runnable s.table.procs c
    → c < nproc
    → Among c (round yields 1 s).dispatched
unfolding round cases
fcfs_runs_everyone s c r h =
    let t = record (s.table) { procs = account s.table.ticks s.table.procs } in
    let s0 = record s { table = t } in
    let step = λ (j : ℕ) (u : Sched) (ru : Runnable u.table.procs j) (v : u.table ≡ t).
      table-dispatch t j u ru v in
    rr_loop_visits t c nproc 0 (priority_case yields (fcfs_case yields s0))
      (account-Runnable s.table.ticks s.table.procs c r) (omega arith) (omega arith)
      (priority_case_keeps yields (λ u. u.table ≡ t) step (fcfs_case yields s0)
        (fcfs_case_keeps yields (λ u. u.table ≡ t) step s0 refl))
