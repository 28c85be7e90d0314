-- ===== src/Kalloc/Clients.antt =====
-- kalloc.c: any sequence of `kalloc` and `kfree` by clients that free only pages which they hold.
use mathlib.Core.Path.{subst}
use os_assignment.Prelude.{
  ℕ, ◌+◌, ◌≤◌, ◌≡◌, ◌≢◌, ap, ◌∙◌, sym, arith, List, [], ◌∷◌, ◌++◌, ok, All, Among, times,
  times-middle, All-middle, ok-injective, Among-times, times-Distinct,
}
use os_assignment.Kalloc.{Kmem, kfree, kalloc}
use os_assignment.Kalloc.Chain.{Holds, IsPage, kfree_lem, kalloc_some, kalloc_none}

-- The allocator and the pages that its clients hold.
pub record Heap : Type 0 where
  pub mem : Kmem
  pub held : List ℕ

pub data Step (end_addr : ℕ) (s t : Heap) : Type 0 where
  allocs :
      (p : ℕ) (m : Kmem)
      → kalloc s.mem ≡ (p, m)
      → p ≢ 0
      → t ≡ record { mem = m; held = p ∷ s.held }
      → Step end_addr s t
  frees :
      (us vs : List ℕ) (p : ℕ) (m : Kmem)
      → s.held ≡ us ++ (p ∷ vs)
      → kfree end_addr s.mem p ≡ ok m
      → t ≡ record { mem = m; held = us ++ vs }
      → Step end_addr s t

pub data Reach (end_addr : ℕ) (s : Heap) : Heap → Type 0 where
  here : Reach end_addr s s
  next : {t u : Heap} → Reach end_addr s t → Step end_addr t u → Reach end_addr s u

abbrev pub Usable : ℕ → ℕ → Type 0
Usable end_addr p = IsPage end_addr p × (p ≢ 0)

-- Each page of `all` is free or held, and never both.
pub record Shared (end_addr : ℕ) (all : List ℕ) (s : Heap) : Type 0 where
  pub free : List ℕ
  pub holds : Holds end_addr s.mem free
  pub once : (c : ℕ) → times c free + times c s.held ≡ times c all
  pub usable : All (Usable end_addr) s.held

module _ (end_addr : ℕ) (all : List ℕ) (distinct : (c : ℕ) → times c all ≤ 1) where
  module _ (s : Heap) (i : Shared end_addr all s) where
    allocs-Shared :
        (p : ℕ) (m : Kmem)
        → kalloc s.mem ≡ (p, m)
        → p ≢ 0
        → Shared end_addr all (record { mem = m; held = p ∷ s.held }) × ¬ Among p s.held
    allocs-Shared p m e z = taken i.free i.holds i.once
      where
        taken :
            (xs : List ℕ)
            → Holds end_addr s.mem xs
            → ((c : ℕ) → times c xs + times c s.held ≡ times c all)
            → Shared end_addr all (record { mem = m; held = p ∷ s.held }) × ¬ Among p s.held
        taken [] h o =
            absurd (z (ap (λ (r : ℕ × Kmem). r.0) (sym e ∙ kalloc_none end_addr s.mem h)))
        taken (x ∷ xs) h o =
            let (got, nz, rest) = kalloc_some end_addr s.mem x xs h in
            let px : x ≡ p = sym got ∙ ap (λ (r : ℕ × Kmem). r.0) e in
            (
              record {
                free = xs;
                holds = subst (λ k. Holds end_addr k xs) (ap (λ (r : ℕ × Kmem). r.1) e) rest;
                once = λ c. rw (← px) (omega (arith, o c));
                usable = ((rw px at h.pages.0, z), i.usable);
              },
              λ a. ground (arith, px, o p, distinct p, Among-times p s.held a),
            )

    frees-Shared :
        (us vs : List ℕ) (p : ℕ)
        → s.held ≡ us ++ (p ∷ vs)
        → (m : Kmem) × (kfree end_addr s.mem p ≡ ok m)
          × Shared end_addr all (record { mem = m; held = us ++ vs })
    frees-Shared us vs p e =
        let (ok_p, left) =
          All-middle (Usable end_addr) us vs p (subst (All (Usable end_addr)) e i.usable) in
        let (m, freed, h) = kfree_lem end_addr s.mem p i.free i.holds ok_p.0 ok_p.1 unfree in
        (m, freed, record { free = p ∷ i.free; holds = h; once = counted; usable = left })
      where
        unfree : ¬ Among p i.free
        unfree a = ground (
          arith,
          i.once p,
          ap (times p) e,
          times-middle p us vs p,
          distinct p,
          Among-times p i.free a,
        )

        counted : (c : ℕ) → times c (p ∷ i.free) + times c (us ++ vs) ≡ times c all
        counted c = omega (arith, i.once c, ap (times c) e, times-middle c us vs p)

  Step-Shared : {s t : Heap} → Shared end_addr all s → Step end_addr s t → Shared end_addr all t
  Step-Shared {s = s} i (allocs p m e z q) =
      subst (Shared end_addr all) (sym q) (allocs-Shared s i p m e z).0
  Step-Shared {s = s} i (frees us vs p m e f q) = subst (Shared end_addr all) (sym q) (
      let (m', f', kept) = frees-Shared s i us vs p e in
      subst (λ k. Shared end_addr all (record { mem = k; held = us ++ vs }))
        (ok-injective (sym f' ∙ f)) kept)

  Reach-Shared : {s t : Heap} → Shared end_addr all s → Reach end_addr s t → Shared end_addr all t
  Reach-Shared i here = i
  Reach-Shared i (next r st) = Step-Shared (Reach-Shared i r) st

-- From an allocator that holds the pages `all` and clients that hold nothing, after any allocations and
-- releases: every page is either free or held by a client, once; what `kalloc` hands out is held by
-- nobody else; and a client's `kfree` of a page that it holds does not panic.
pub pages_never-Shared :
    (end_addr : ℕ) (all : List ℕ) (m0 : Kmem) {s : Heap}
    → Holds end_addr m0 all
    → Reach end_addr (record { mem = m0; held = [] }) s
    → Shared end_addr all s
      × ((p : ℕ) (m : Kmem) → kalloc s.mem ≡ (p, m) → p ≢ 0 → ¬ Among p s.held)
      × ((us vs : List ℕ) (p : ℕ)
          → s.held ≡ us ++ (p ∷ vs)
          → (m : Kmem) × (kfree end_addr s.mem p ≡ ok m))
pages_never-Shared end_addr all m0 {s} h r = (
  i,
  λ p m e z. (allocs-Shared end_addr all one s i p m e z).1,
  λ us vs p e. let (m, f, k) = frees-Shared end_addr all one s i us vs p e in (m, f),
)
  where
    one : (c : ℕ) → times c all ≤ 1
    one c = times-Distinct c all h.distinct

    i : Shared end_addr all s
    i =
        Reach-Shared end_addr all one
          (record { free = all; holds = h; once = λ c. omega arith; usable = tt }) r
