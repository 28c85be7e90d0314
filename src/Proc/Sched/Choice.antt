-- ===== src/Proc/Sched/Choice.antt =====
-- proc.c: which process each case of `scheduler` chooses.
use os_assignment.Prelude.{
  ℕ, suc, ◌+◌, ◌≤◌, ◌<◌, ◌≡◌, refl, ap, ◌∙◌, sym, arith, List, [], ◌∷◌, true, Option, none, some,
  ◌&&◌, ltb, get_elem?, take, All, ◌⊎◌, inl, inr, Bool-cases,
}
use os_assignment.Proc.{Proc, runnable, is}
use os_assignment.Proc.Sched.{fcfs_pick, priority_chosen}

-- Entry `k` is the first of the runnable entries with the least creation time.
pub record IsOldest (ps : List Proc) (k : ℕ) : Type 0 where
  pub entry : Proc
  pub here : get_elem? ps k ≡ some entry
  pub ready : is entry.state runnable ≡ true
  pub oldest : All (λ q. is q.state runnable ≡ true → entry.ctime ≤ q.ctime) ps
  pub first : All (λ q. is q.state runnable ≡ true → entry.ctime < q.ctime) (take k ps)

abbrev Fcfs : List Proc → ℕ → ℕ → Option ℕ → Option ℕ → Type 0
Fcfs ps i m best r =
    ((r ≡ best) × All (λ q. is q.state runnable ≡ true → m ≤ q.ctime) ps)
    ⊎ ((k : ℕ) × (o : IsOldest ps k) × (r ≡ some (i + k)) × (o.entry.ctime < m))

fcfs_pick-Fcfs :
    (ps : List Proc) (i m : ℕ) (best : Option ℕ) → Fcfs ps i m best (fcfs_pick ps i m best)
unfolding fcfs_pick
fcfs_pick-Fcfs [] i m best = inl (refl, tt)
fcfs_pick-Fcfs (p ∷ ps) i m best = elim (Bool-cases (is p.state runnable && ltb p.ctime m)) [
  | inl e ↦
      let ready : is p.state runnable ≡ true = ground arith in
      let older : p.ctime < m = ground arith in
      rw e (elim (fcfs_pick-Fcfs ps (i + 1) p.ctime (some i)) [
        | inl (r, all) ↦ inr (
          0,
          record {
            entry = p;
            here = refl;
            ready = ready;
            oldest = (λ h. omega arith, all);
            first = tt;
          },
          r ∙ ap some (omega arith),
          older,
        )
        | inr (k, o, r, lt) ↦ inr (
          suc k,
          record {
            entry = o.entry;
            here = o.here;
            ready = o.ready;
            oldest = (λ h. omega arith, o.oldest);
            first = (λ h. lt, o.first);
          },
          r ∙ ap some (omega arith),
          omega arith,
        )
      ])
  | inr e ↦
      let newer : is p.state runnable ≡ true → m ≤ p.ctime = λ h. ground arith in
      rw e (elim (fcfs_pick-Fcfs ps (i + 1) m best) [
        | inl (r, all) ↦ inl (r, (newer, all))
        | inr (k, o, r, lt) ↦ inr (
          suc k,
          record {
            entry = o.entry;
            here = o.here;
            ready = o.ready;
            oldest = (λ h. omega (arith, newer h), o.oldest);
            first = (λ h. omega (arith, newer h), o.first);
          },
          r ∙ ap some (omega arith),
          lt,
        )
      ])
]

-- The choice of the first case: the first of the oldest runnable processes; or nothing, and then no
-- runnable process was created before `bound`.
pub fcfs_choice :
    (ps : List Proc) (bound : ℕ)
    → ((fcfs_pick ps 0 bound none ≡ none)
        × All (λ q. is q.state runnable ≡ true → bound ≤ q.ctime) ps)
      ⊎ ((k : ℕ) × IsOldest ps k × (fcfs_pick ps 0 bound none ≡ some k))
fcfs_choice ps bound = elim (fcfs_pick-Fcfs ps 0 bound none) [
  | inl (r, all) ↦ inl (r, all)
  | inr (k, o, r, lt) ↦ inr (k, o, r ∙ ap some (omega arith))
]

-- `r` is the least of `c` and the priorities of the runnable entries.
pub record IsLeast (ps : List Proc) (c r : ℕ) : Type 0 where
  pub below : r ≤ c
  pub least : All (λ q. is q.state runnable ≡ true → r ≤ q.priority) ps
  pub attained :
      (r ≡ c)
      ⊎ ((k : ℕ) × (p : Proc) × (get_elem? ps k ≡ some p)
          × (is p.state runnable ≡ true)
          × (p.priority ≡ r))

-- The choice of the second case: the least number among the priorities of the runnable processes, or
-- the number that it starts from.
priority_choice : (ps : List Proc) (c : ℕ) → IsLeast ps c (priority_chosen ps c)
unfolding priority_chosen
priority_choice [] c = record { below = omega arith; least = tt; attained = inl refl }
priority_choice (p ∷ ps) c = elim (Bool-cases (is p.state runnable && ltb p.priority c)) [
  | inl e ↦
      let ready : is p.state runnable ≡ true = ground arith in
      let less : p.priority < c = ground arith in
      let i = priority_choice ps p.priority in
      rw e (record {
        below = omega (arith, i.below);
        least = (λ h. i.below, i.least);
        attained = elim i.attained [
          | inl q ↦ inr (0, p, refl, ready, sym q)
          | inr (k, x, at, r, q) ↦ inr (suc k, x, at, r, q)
        ];
      })
  | inr e ↦
      let more : is p.state runnable ≡ true → c ≤ p.priority = λ h. ground arith in
      let i = priority_choice ps c in
      rw e (record {
        below = i.below;
        least = (λ h. omega (arith, i.below, more h), i.least);
        attained = elim i.attained [
          | inl q ↦ inl q
          | inr (k, x, at, r, q) ↦ inr (suc k, x, at, r, q)
        ];
      })
]
