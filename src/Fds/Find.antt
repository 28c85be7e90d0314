-- ===== src/Fds/Find.antt =====
-- sysfile.c: the descriptor that `fdalloc` finds, and how often a table names a file.
use os_assignment.Prelude.{
  ℕ, zero, suc, ◌+◌, ◌<◌, ◌≡◌, ◌≢◌, ◌⊎◌, inl, inr, refl, ap, ◌∙◌, arith, [], ◌∷◌, Option, none,
  some, ◌==◌, if◌then◌else◌, get_elem?, set,
}
use os_assignment.Fds.{Ofile, fdalloc, fdalloc_from}

-- 1 for the same number, else 0.
abbrev pub one : ℕ → ℕ → ℕ
one i j = if i == j then 1 else 0

-- How many descriptors name file `j`.
abbrev pub named : ℕ → Ofile → ℕ
named j [] = 0
named j (none ∷ os) = named j os
named j (some f ∷ os) = one f j + named j os

pub named-set-some :
    (j : ℕ) (os : Ofile) (fd f : ℕ)
    → get_elem? os fd ≡ some none
    → named j (set os fd (some f)) ≡ named j os + one f j
named-set-some j [] fd f e = cc
named-set-some j (none ∷ os) zero f e = omega arith
named-set-some j (some g ∷ os) zero f e = cc
named-set-some j (none ∷ os) (suc fd) f e = named-set-some j os fd f e
named-set-some j (some g ∷ os) (suc fd) f e = omega (arith, named-set-some j os fd f e)

pub named-set-none :
    (j : ℕ) (os : Ofile) (fd f : ℕ)
    → get_elem? os fd ≡ some (some f)
    → named j os ≡ named j (set os fd none) + one f j
named-set-none j [] fd f e = cc
named-set-none j (none ∷ os) zero f e = cc
named-set-none j (some g ∷ os) zero f e = let same : g ≡ f = cc (e) in rw same (omega arith)
named-set-none j (none ∷ os) (suc fd) f e = named-set-none j os fd f e
named-set-none j (some g ∷ os) (suc fd) f e = omega (arith, named-set-none j os fd f e)

-- The outcome of a search of `os`, whose first entry is descriptor `fd`.
abbrev FdFound : ℕ → Ofile → ℕ → Ofile × Option ℕ → Type 0
FdFound fd os f r =
    ((r ≡ (os, none)) × ((i : ℕ) → get_elem? os i ≢ some none))
    ⊎ ((k : ℕ) × (r ≡ (set os k (some f), some (fd + k)))
        × (get_elem? os k ≡ some none)
        × ((i : ℕ) → i < k → get_elem? os i ≢ some none))

fdalloc_from-FdFound : (fd : ℕ) (os : Ofile) (f : ℕ) → FdFound fd os f (fdalloc_from fd os f)
unfolding fdalloc_from
fdalloc_from-FdFound fd [] f = inl (refl, λ i e. cc (e))
fdalloc_from-FdFound fd (none ∷ os) f =
    inr (0, ap (λ k. (some f ∷ os, some k)) (omega arith), refl, λ i h. absurd (omega arith))
fdalloc_from-FdFound fd (some g ∷ os) f = elim (fdalloc_from-FdFound (fd + 1) os f) [
  | inl (r, all) ↦ inl (rw r refl, skips all)
  | inr (k, r, at, below) ↦ inr (
    suc k,
    rw r (ap (λ n. (some g ∷ set os k (some f), some n)) (omega arith)),
    at,
    skips_below k below,
  )
]
  where
    skips : ((i : ℕ) → get_elem? os i ≢ some none) → (i : ℕ) → get_elem? (some g ∷ os) i ≢ some none
    skips h zero e = cc (e)
    skips h (suc i) e = h i e

    skips_below :
        (k : ℕ)
        → ((i : ℕ) → i < k → get_elem? os i ≢ some none)
        → (i : ℕ) → i < suc k
        → get_elem? (some g ∷ os) i ≢ some none
    skips_below k h zero l e = cc (e)
    skips_below k h (suc i) l e = h i (omega arith) e

-- What `fdalloc` does: nothing, or it puts the file at the lowest free descriptor.
abbrev pub Placed : Ofile → ℕ → Ofile × Option ℕ → Type 0
Placed os f r =
    ((r ≡ (os, none)) × ((i : ℕ) → get_elem? os i ≢ some none))
    ⊎ ((k : ℕ) × (r ≡ (set os k (some f), some k))
        × (get_elem? os k ≡ some none)
        × ((i : ℕ) → i < k → get_elem? os i ≢ some none))

-- `fdalloc` puts the file at the lowest descriptor that is free, changes no other and returns it; with
-- none free, and only then, it returns -1 and leaves the table.
pub fdalloc-Placed : (os : Ofile) (f : ℕ) → Placed os f (fdalloc os f)
unfolding fdalloc
fdalloc-Placed os f = elim (fdalloc_from-FdFound 0 os f) [
  | inl a ↦ inl a
  | inr (k, r, at, below) ↦
      inr (k, r ∙ ap (λ n. (set os k (some f), some n)) (omega arith), at, below)
]
