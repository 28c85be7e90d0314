-- ===== src/Proc/Table.antt =====
-- proc.c: allocation of entries, wakeups and `kill`, entry by entry.
use mathlib.Core.Option
use mathlib.Core.Path.{subst}
use os_assignment.Prelude.{
  ℕ, zero, suc, ◌+◌, ◌%◌, ◌^◌, ◌<◌, ◌≡◌, ◌≢◌, refl, ap, ◌∙◌, sym, arith, List, [], ◌∷◌, true, false,
  Option, none, some, ◌==◌, if◌then◌else◌, get_elem?, ◌⊎◌, inl, inr, Bool-cases,
}
use os_assignment.Kalloc.{kalloc}
use os_assignment.Proc.{
  Proc, Kernel, unused, is, modify, find_unused, claim, alloc_found, allocproc,
}

pub get_elem?-modify :
    (ps : List Proc) (i j : ℕ) (f : Proc → Proc)
    → get_elem? (modify ps i f) j
      ≡ (if i == j then Option.map f (get_elem? ps j) else get_elem? ps j)
unfolding modify
get_elem?-modify [] i j f = ground arith
get_elem?-modify (p ∷ ps) zero zero f = refl
get_elem?-modify (p ∷ ps) zero (suc j) f = ground arith
get_elem?-modify (p ∷ ps) (suc i) zero f = ground arith
get_elem?-modify (p ∷ ps) (suc i) (suc j) f = ground (arith, get_elem?-modify ps i j f)

-- The first free entry.
pub record IsFirstUnused (ps : List Proc) (k : ℕ) : Type 0 where
  pub entry : Proc
  pub here : get_elem? ps k ≡ some entry
  pub free : is entry.state unused ≡ true
  pub first : (j : ℕ) (q : Proc) → j < k → get_elem? ps j ≡ some q → is q.state unused ≡ false

find_unused_lem :
    (ps : List Proc) (i : ℕ)
    → ((find_unused ps i ≡ none)
        × ((j : ℕ) (q : Proc) → get_elem? ps j ≡ some q → is q.state unused ≡ false))
      ⊎ ((k : ℕ) × IsFirstUnused ps k × (find_unused ps i ≡ some (i + k)))
unfolding find_unused
find_unused_lem [] i = inl (refl, λ j q e. cc)
find_unused_lem (p ∷ ps) i = elim (Bool-cases (is p.state unused)) [
  | inl e ↦ inr (
    0,
    record { entry = p; here = refl; free = e; first = λ j q h g. absurd (omega arith) },
    rw e (ap some (omega arith)),
  )
  | inr e ↦ rw e (elim (find_unused_lem ps (i + 1)) [
    | inl (r, all) ↦ inl (r, none_free e all)
    | inr (k, o, r) ↦ inr (
      suc k,
      record { entry = o.entry; here = o.here; free = o.free; first = before e o },
      r ∙ ap some (omega arith),
    )
  ])
]
  where
    none_free :
        is p.state unused ≡ false
        → ((j : ℕ) (q : Proc) → get_elem? ps j ≡ some q → is q.state unused ≡ false)
        → (j : ℕ) (q : Proc) → get_elem? (p ∷ ps) j ≡ some q
        → is q.state unused ≡ false
    none_free e all zero q g = ground arith
    none_free e all (suc j) q g = all j q g

    before :
        {k : ℕ}
        → is p.state unused ≡ false
        → (o : IsFirstUnused ps k) → (j : ℕ) (q : Proc) → j < suc k
        → get_elem? (p ∷ ps) j ≡ some q
        → is q.state unused ≡ false
    before e o zero q h g = ground arith
    before e o (suc j) q h g = o.first j q (omega arith) g

twice_ne :
    (ps : List Proc) (i j : ℕ) (f g : Proc → Proc)
    → i ≢ j
    → get_elem? (modify (modify ps i f) i g) j ≡ get_elem? ps j
twice_ne ps i j f g ne =
    ground (arith, get_elem?-modify (modify ps i f) i j g, get_elem?-modify ps i j f)

twice_self :
    (ps : List Proc) (i : ℕ) (f g : Proc → Proc) (p : Proc)
    → get_elem? ps i ≡ some p
    → get_elem? (modify (modify ps i f) i g) i ≡ some (g (f p))
twice_self ps i f g p e =
    ground (arith, get_elem?-modify (modify ps i f) i i g, get_elem?-modify ps i i f)

-- What `allocproc` does with the entry that it has found.
pub record Claimed (k : Kernel) (i : ℕ) (p : Proc) (r : Kernel × Option ℕ) : Type 0 where
  pub next : r.0.nextpid ≡ (k.nextpid + 1) % 2 ^ 32
  pub pages : r.0.kmem ≡ (kalloc k.kmem).1
  pub others : (j : ℕ) → i ≢ j → get_elem? r.0.procs j ≡ get_elem? k.procs j
  pub ended :
      (((kalloc k.kmem).0 ≡ 0)
        × (r.1 ≡ none)
        × (get_elem? r.0.procs i ≡ some (record (claim k p) { kstack = 0; state = unused })))
      ⊎ (((kalloc k.kmem).0 ≢ 0)
          × (r.1 ≡ some i)
          × (get_elem? r.0.procs i ≡ some (record (claim k p) { kstack = (kalloc k.kmem).0 })))

allocproc_found :
    (k : Kernel) (i : ℕ) → find_unused k.procs 0 ≡ some i → allocproc k ≡ alloc_found k i
unfolding allocproc
allocproc_found k i e = rw (e, allocproc)

alloc_found-Claimed :
    (k : Kernel) (i : ℕ) (p : Proc) → get_elem? k.procs i ≡ some p → Claimed k i p (alloc_found k i)
unfolding alloc_found
alloc_found-Claimed k i p e = elim (Bool-cases ((kalloc k.kmem).0 == 0)) [
  | inl z ↦ rw z (record {
    next = refl;
    pages = refl;
    others = λ j ne. twice_ne k.procs i j (claim k) _ ne;
    ended = inl (
      ground arith,
      refl,
      twice_self k.procs i (claim k) (λ p. record p { kstack = (kalloc k.kmem).0; state = unused })
            p e
          ∙ ground arith,
    );
  })
  | inr z ↦ rw z (record {
    next = refl;
    pages = refl;
    others = λ j ne. twice_ne k.procs i j (claim k) _ ne;
    ended = inr (
      ground arith,
      refl,
      twice_self k.procs i (claim k) (λ p. record p { kstack = (kalloc k.kmem).0 }) p e,
    );
  })
]

-- `allocproc` returns null and changes nothing if no entry is free. Otherwise it takes the first free
-- entry, a fresh pid and a page; with no page left it gives the entry up again and returns null. The
-- other entries stay as they are.
pub allocproc_lem :
    (k : Kernel)
    → ((allocproc k ≡ (k, none))
        × ((j : ℕ) (q : Proc) → get_elem? k.procs j ≡ some q → is q.state unused ≡ false))
      ⊎ ((i : ℕ) × (o : IsFirstUnused k.procs i) × Claimed k i o.entry (allocproc k))
unfolding allocproc
allocproc_lem k = elim (find_unused_lem k.procs 0) [
  | inl (e, all) ↦ inl (rw (e, allocproc), all)
  | inr (i, o, e) ↦
      let at : find_unused k.procs 0 ≡ some i = e ∙ ap some (omega arith) in
      inr (
        i,
        o,
        subst (Claimed k i o.entry) (sym (allocproc_found k i at))
            (alloc_found-Claimed k i o.entry o.here),
      )
]
