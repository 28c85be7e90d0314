-- ===== src/Files/Calls.antt =====
-- file.c: one call on the table of files.
use os_assignment.Prelude.{
  ℕ, zero, suc, ◌+◌, ◌-◌, ◌%◌, ◌^◌, ◌<◌, ◌≡◌, ◌≢◌, refl, ap, arith, List, [], ◌∷◌, true, false,
  Option, none, some, ◌&&◌, ltb, ◌==◌, get_elem?, set, ok, ◌⊎◌, inl, inr, Bool-cases,
}
use os_assignment.Files.{
  File, Target, filealloc, filealloc_from, filedup, fileclose, unreferenced, nothing, after_close,
}

-- What `filealloc` finds.
abbrev pub Found : ℕ → List File → List File × Option ℕ → Type 0
Found i fs r =
    ((r ≡ (fs, none)) × ((j : ℕ) (g : File) → get_elem? fs j ≡ some g → g.ref ≢ 0))
    ⊎ ((k : ℕ) × (f : File) × (get_elem? fs k ≡ some f)
        × (f.ref ≡ 0)
        × (r ≡ (set fs k (record f { ref = 1 }), some (i + k))))

pub filealloc_from-Found : (i : ℕ) (fs : List File) → Found i fs (filealloc_from i fs)
unfolding filealloc_from
filealloc_from-Found i [] = inl (refl, λ j g e. cc)
filealloc_from-Found i (f ∷ fs) = elim (Bool-cases (f.ref == 0)) [
  | inl e ↦
      let z : f.ref ≡ 0 = ground arith in
      rw e (inr (0, f, refl, z, ap (λ k. (record f { ref = 1 } ∷ fs, some k)) (omega arith)))
  | inr e ↦ rw e (elim (filealloc_from-Found (i + 1) fs) [
    | inl (r, all) ↦ inl (rw r refl, used e all)
    | inr (k, g, at, z, r) ↦ inr (
      suc k,
      g,
      at,
      z,
      rw r (ap (λ n. (f ∷ set fs k (record g { ref = 1 }), some n)) (omega arith)),
    )
  ])
]
  where
    used :
        (f.ref == 0) ≡ false
        → ((j : ℕ) (g : File) → get_elem? fs j ≡ some g → g.ref ≢ 0)
        → (j : ℕ) (g : File) → get_elem? (f ∷ fs) j ≡ some g
        → g.ref ≢ 0
    used e all zero g at = ground arith
    used e all (suc j) g at = all j g at

pub filealloc-Found : (fs : List File) → Found 0 fs (filealloc fs)
unfolding filealloc
filealloc-Found fs = filealloc_from-Found 0 fs

-- A call on a file that has a handle.
pub filedup_held :
    (fs : List File) (i : ℕ) (f : File)
    → get_elem? fs i ≡ some f
    → 0 < f.ref
    → f.ref + 1 < 2 ^ 31
    → filedup fs i ≡ ok (set fs i (record f { ref = f.ref + 1 }))
unfolding filedup
filedup_held fs i f at p q =
    let live : unreferenced f ≡ false = ground arith in
    let up : (f.ref + 1) % 2 ^ 32 ≡ f.ref + 1 = omega arith in rw (at, filedup) (rw (live, up) refl)

pub fileclose_shared :
    (fs : List File) (i : ℕ) (f : File)
    → get_elem? fs i ≡ some f
    → 1 < f.ref
    → f.ref < 2 ^ 31
    → fileclose fs i ≡ ok (set fs i (record f { ref = f.ref - 1 }), nothing)
unfolding fileclose
fileclose_shared fs i f at p q =
    let live : unreferenced f ≡ false = ground arith in
    let down : (f.ref + 2 ^ 32 - 1) % 2 ^ 32 ≡ f.ref - 1 = omega arith in
    let some_left : (ltb 0 (f.ref - 1) && ltb (f.ref - 1) (2 ^ 31)) ≡ true = ground arith in
    rw (at, fileclose) (rw (live, down, some_left) refl)

pub fileclose_last :
    (fs : List File) (i : ℕ) (f : File)
    → get_elem? fs i ≡ some f
    → f.ref ≡ 1
    → fileclose fs i ≡ ok (set fs i (record f { ref = 0; target = Target.fd_none }), after_close f)
unfolding fileclose
fileclose_last fs i f at p =
    let live : unreferenced f ≡ false = ground arith in
    let down : (f.ref + 2 ^ 32 - 1) % 2 ^ 32 ≡ 0 = omega arith in
    rw (at, fileclose) (rw (live, down) refl)
