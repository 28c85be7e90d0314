-- ===== src/Bio/Pick.antt =====
-- bio.c: which buffer `bget` picks.
use os_assignment.Prelude.{
  ℕ, ◌+◌, ◌%◌, ◌^◌, ◌≡◌, refl, sym, arith, List, [], ◌∷◌, ◌++◌, false, not, none, some, ◌&&◌, ◌==◌,
  Among, ◌⊎◌, inl, inr, Bool-cases, ok, panic,
}
use os_assignment.Bio.{Buf, Cache, set_buf, find_cached, find_unused, backwards, recycled, bget}

abbrev pub Caches : Buf → ℕ → ℕ → Type 0
Caches b dev blockno = (b.dev ≡ dev) × (b.blockno ≡ blockno)

find_cached_lem :
    (buf : ℕ → Buf) (dev blockno : ℕ) (is : List ℕ)
    → ((find_cached buf dev blockno is ≡ none)
        × ((i : ℕ) → Among i is → ¬ Caches (buf i) dev blockno))
      ⊎ ((i : ℕ) × (find_cached buf dev blockno is ≡ some i)
          × Among i is
          × Caches (buf i) dev blockno)
unfolding find_cached
find_cached_lem buf dev blockno [] = inl (refl, λ i a. absurd a)
find_cached_lem buf dev blockno (j ∷ is) =
    elim (Bool-cases ((buf j).dev == dev && (buf j).blockno == blockno)) [
      | inl e ↦ rw e (inr (j, refl, inl refl, ground arith))
      | inr e ↦ rw e (elim (find_cached_lem buf dev blockno is) [
        | inl (r, none_) ↦ inl (r, λ i a. others e none_ i a)
        | inr (i, r, a, c) ↦ inr (i, r, inr a, c)
      ])
    ]
  where
    others :
        ((buf j).dev == dev && (buf j).blockno == blockno) ≡ false
        → ((i : ℕ) → Among i is → ¬ Caches (buf i) dev blockno)
        → (i : ℕ) → Among i (j ∷ is)
        → ¬ Caches (buf i) dev blockno
    others e none_ i (inl q) (d, n) = ground (arith, q)
    others e none_ i (inr a) c = none_ i a c

find_unused_lem :
    (buf : ℕ → Buf) (is : List ℕ)
    → ((find_unused buf is ≡ none)
        × ((i : ℕ) → Among i is → ((buf i).refcnt == 0 && not (buf i).dirty) ≡ false))
      ⊎ ((i : ℕ) × (find_unused buf is ≡ some i)
          × Among i is
          × ((buf i).refcnt ≡ 0)
          × ((buf i).dirty ≡ false))
unfolding find_unused
find_unused_lem buf [] = inl (refl, λ i a. absurd a)
find_unused_lem buf (j ∷ is) = elim (Bool-cases ((buf j).refcnt == 0 && not (buf j).dirty)) [
  | inl e ↦ rw e (inr (j, refl, inl refl, ground arith, ground arith))
  | inr e ↦ rw e (elim (find_unused_lem buf is) [
    | inl (r, none_) ↦ inl (r, others e none_)
    | inr (i, r, a, z, d) ↦ inr (i, r, inr a, z, d)
  ])
]
  where
    others :
        ((buf j).refcnt == 0 && not (buf j).dirty) ≡ false
        → ((i : ℕ) → Among i is → ((buf i).refcnt == 0 && not (buf i).dirty) ≡ false)
        → (i : ℕ) → Among i (j ∷ is)
        → ((buf i).refcnt == 0 && not (buf i).dirty) ≡ false
    others e none_ i (inl q) = ground (arith, q)
    others e none_ i (inr a) = none_ i a

Among-snoc : (i j : ℕ) (is : List ℕ) → Among i (is ++ (j ∷ [])) → (i ≡ j) ⊎ Among i is
Among-snoc i j [] (inl e) = inl (sym e)
Among-snoc i j [] (inr a) = absurd a
Among-snoc i j (k ∷ is) (inl e) = inr (inl e)
Among-snoc i j (k ∷ is) (inr a) = ground (arith, Among-snoc i j is a)

snoc-Among : (i j : ℕ) (is : List ℕ) → (i ≡ j) ⊎ Among i is → Among i (is ++ (j ∷ []))
snoc-Among i j [] (inl e) = inl (sym e)
snoc-Among i j [] (inr a) = absurd a
snoc-Among i j (k ∷ is) h = ground (arith, snoc-Among i j is)

Among-backwards : (i : ℕ) (is : List ℕ) → Among i (backwards is) → Among i is
Among-backwards i [] a = a
Among-backwards i (j ∷ is) a = elim (Among-snoc i j (backwards is) a) [
  | inl e ↦ inl (sym e)
  | inr b ↦ inr (Among-backwards i is b)
]

backwards-Among : (i : ℕ) (is : List ℕ) → Among i is → Among i (backwards is)
backwards-Among i [] a = a
backwards-Among i (j ∷ is) (inl e) = snoc-Among i j (backwards is) (inl (sym e))
backwards-Among i (j ∷ is) (inr a) = snoc-Among i j (backwards is) (inr (backwards-Among i is a))

abbrev pub NotCached : Cache → ℕ → ℕ → Type 0
NotCached c dev blockno = (i : ℕ) → Among i c.order → ¬ Caches (c.buf i) dev blockno

-- `bget` gives the buffer that has the block, if there is one, with one more reference. Otherwise it
-- takes a buffer without references whose contents need not be written, and only if there is none it
-- panics.
pub bget_lem :
    (c : Cache) (dev blockno : ℕ)
    → ((i : ℕ) × Among i c.order
        × Caches (c.buf i) dev blockno
        × (bget c dev blockno
            ≡ ok (set_buf c i (record (c.buf i) { refcnt = ((c.buf i).refcnt + 1) % 2 ^ 32 }), i)))
      ⊎ (NotCached c dev blockno
          × ((i : ℕ) × Among i c.order
              × ((c.buf i).refcnt ≡ 0)
              × ((c.buf i).dirty ≡ false)
              × (bget c dev blockno ≡ ok (set_buf c i (recycled dev blockno (c.buf i)), i))))
      ⊎ (NotCached c dev blockno
          × ((i : ℕ) → Among i c.order → ((c.buf i).refcnt == 0 && not (c.buf i).dirty) ≡ false)
          × (bget c dev blockno ≡ panic "bget: no buffers"))
unfolding bget
bget_lem c dev blockno = elim (find_cached_lem c.buf dev blockno c.order) [
  | inr (i, e, a, h) ↦ inl (i, a, h, rw (e, bget) refl)
  | inl (e, none_) ↦ elim (find_unused_lem c.buf (backwards c.order)) [
    | inr (i, f, a, z, d) ↦
        inr (inl (none_, (i, Among-backwards i c.order a, z, d, rw (e, bget) (rw (f, bget) refl))))
    | inl (f, busy) ↦
        inr (
          inr
            (none_, λ i a. busy i (backwards-Among i c.order a), rw (e, bget) (rw (f, bget) refl)))
  ]
]
