-- ===== src/Icache/Scan.antt =====
-- fs.c: what the loop of iget finds.
use os_assignment.Prelude.{
  ℕ, zero, suc, ◌+◌, ◌≡◌, ◌≢◌, ◌⊎◌, inl, inr, refl, ap, ◌∙◌, sym, arith, List, [], ◌∷◌, true, false,
  Option, none, some, ◌==◌, get_elem?, Bool-cases,
}
use os_assignment.Icache.{Entry, Found, hit, missing, first_empty, matches, scan}

-- An entry of the table has the inode.
abbrev pub HitAt : ℕ → ℕ → List Entry → ℕ → Type 0
HitAt dev inum es k = (e : Entry) × (get_elem? es k ≡ some e) × (matches dev inum e ≡ true)

abbrev pub NoneHas : ℕ → ℕ → List Entry → Type 0
NoneHas dev inum es = (j : ℕ) (e : Entry) → get_elem? es j ≡ some e → matches dev inum e ≡ false

-- The slot that is remembered: the one from before, or the first with no reference.
abbrev pub EmptyAt : Option ℕ → ℕ → List Entry → Option ℕ → Type 0
EmptyAt (some k) i es o = o ≡ some k
EmptyAt none i es o =
    ((o ≡ none) × ((j : ℕ) (e : Entry) → get_elem? es j ≡ some e → e.ref ≢ 0))
    ⊎ ((k : ℕ) × (e : Entry) × (o ≡ some (i + k)) × (get_elem? es k ≡ some e) × (e.ref ≡ 0))

abbrev pub Scanned : ℕ → ℕ → ℕ → List Entry → Option ℕ → Found → Type 0
Scanned dev inum i es empty r =
    ((k : ℕ) × (r ≡ hit (i + k)) × HitAt dev inum es k)
    ⊎ ((o : Option ℕ) × (r ≡ missing o) × NoneHas dev inum es × EmptyAt empty i es o)

later_empty :
    (empty : Option ℕ) (i : ℕ) (e : Entry) (es : List Entry) (o : Option ℕ)
    → EmptyAt (first_empty empty i e) (i + 1) es o
    → EmptyAt empty i (e ∷ es) o
later_empty (some k) i e es o h = h
later_empty none i e es o h = go (Bool-cases (e.ref == 0))
  where
    go : ((e.ref == 0) ≡ true) ⊎ ((e.ref == 0) ≡ false) → EmptyAt none i (e ∷ es) o
    go (inl t) =
        let first : o ≡ some i = rw t at h in
        inr (0, e, first ∙ ap some (omega arith), refl, ground (arith, t))
    go (inr t) = elim (rw t at h) [
      | inl (none_, all) ↦ inl (none_, used all)
      | inr (k, e', at, there, z) ↦ inr (suc k, e', at ∙ ap some (omega arith), there, z)
    ]
      where
        used :
            ((j : ℕ) (e' : Entry) → get_elem? es j ≡ some e' → e'.ref ≢ 0)
            → (j : ℕ) (e' : Entry) → get_elem? (e ∷ es) j ≡ some e'
            → e'.ref ≢ 0
        used all zero e' q z = let same : e ≡ e' = cc (q) in ground (arith, t, same, z)
        used all (suc j) e' q z = all j e' q z

pub scan-Scanned :
    (dev inum i : ℕ) (es : List Entry) (empty : Option ℕ)
    → Scanned dev inum i es empty (scan dev inum i es empty)
unfolding scan
scan-Scanned dev inum i [] none = inr (none, refl, λ j e q. cc (q), inl (refl, λ j e q. cc (q)))
scan-Scanned dev inum i [] (some k) = inr (some k, refl, λ j e q. cc (q), refl)
scan-Scanned dev inum i (e ∷ es) empty = elim (Bool-cases (matches dev inum e)) [
  | inl t ↦ inl (0, rw t (ap hit (omega arith)), (e, refl, t))
  | inr t ↦ elim (scan-Scanned dev inum (i + 1) es (first_empty empty i e)) [
    | inl (k, r, found) ↦ inl (suc k, rw t (r ∙ ap hit (omega arith)), found)
    | inr (o, r, no_hit, rest) ↦ inr (o, rw t r, skips t no_hit, later_empty empty i e es o rest)
  ]
]
  where
    skips :
        matches dev inum e ≡ false
        → NoneHas dev inum es
        → (j : ℕ) (e' : Entry) → get_elem? (e ∷ es) j ≡ some e'
        → matches dev inum e' ≡ false
    skips t h zero e' q = let same : e ≡ e' = cc (q) in ap (matches dev inum) (sym same) ∙ t
    skips t h (suc j) e' q = h j e' q
