-- ===== src/Kalloc/Range.antt =====
-- kalloc.c: `freerange` on a range of memory.
use os_assignment.Prelude.{
  ℕ, zero, suc, ◌+◌, ◌-◌, ◌*◌, ◌/◌, ◌%◌, ◌^◌, ◌≤◌, ◌<◌, ◌≡◌, refl, arith, List, ◌∷◌, true, false,
  leb, Result, length, ok, All, All-among, All-map, Among, le→leb, ◌⊎◌, inl, inr,
}
use os_assignment.Kalloc.{
  Kmem, kfree, freerange_from, freerange, page_round_up, page_size, phys_stop, kern_base,
}
use os_assignment.Kalloc.Chain.{Holds, IsPage, kfree_lem}

-- The `n` pages from `p` on, in front of `xs`, the last one first.
abbrev pub pushed : ℕ → ℕ → List ℕ → List ℕ
pushed p zero xs = xs
pushed p (suc n) xs = pushed (p + page_size) n (p ∷ xs)

Among-pushed_old : (p n c : ℕ) (xs : List ℕ) → Among c xs → Among c (pushed p n xs)
Among-pushed_old p zero c xs a = a
Among-pushed_old p (suc n) c xs a = Among-pushed_old (p + page_size) n c (p ∷ xs) (inr a)

-- Each of the `n` pages is among them.
pub Among-pushed :
    (p n : ℕ) (xs : List ℕ) (k : ℕ) → k < n → Among (p + k * page_size) (pushed p n xs)
Among-pushed p zero xs k h = absurd (omega arith)
Among-pushed p (suc n) xs zero h =
    Among-pushed_old (p + page_size) n (p + 0) (p ∷ xs) (inl (omega arith))
Among-pushed p (suc n) xs (suc k) h =
    let e : p + suc k * page_size ≡ (p + page_size) + k * page_size = omega arith in
    rw e (Among-pushed (p + page_size) n (p ∷ xs) k (omega arith))

length-pushed : (p n : ℕ) (xs : List ℕ) → length (pushed p n xs) ≡ n + length xs
length-pushed p zero xs = omega arith
length-pushed p (suc n) xs = omega (arith, length-pushed (p + page_size) n (p ∷ xs))

freerange_round :
    (end_addr vend f p q : ℕ) (m m1 : Kmem) (r : Result Kmem)
    → kfree end_addr m p ≡ ok m1
    → (p + page_size) % 2 ^ 32 ≡ q
    → leb q vend ≡ true
    → freerange_from end_addr f q vend m1 ≡ r
    → freerange_from end_addr (suc f) p vend m ≡ r
unfolding freerange_from
freerange_round end_addr vend f p q m m1 r freed wrap fits run = rw (freed, wrap, fits) run

module _ (end_addr vend : ℕ) (top : vend ≤ kern_base + phys_stop) where
  freerange_from_lem :
      (n f p : ℕ) (m : Kmem) (xs : List ℕ)
      → n ≡ (vend - p) / page_size
      → n < f
      → p % page_size ≡ 0
      → end_addr ≤ p
      → kern_base ≤ p
      → p < 2 ^ 32 - page_size
      → Holds end_addr m xs
      → All (λ x. (x < p) ⊎ (vend ≤ x)) xs
      → (m' : Kmem) × (freerange_from end_addr f p vend m ≡ ok m')
        × Holds end_addr m' (pushed p n xs)
  unfolding freerange_from
  freerange_from_lem n zero p m xs e h a b k l hs o = absurd (omega arith)
  freerange_from_lem zero (suc f) p m xs e h a b k l hs o = (m, rw (last) refl, hs)
    where
      last : leb ((p + page_size) % 2 ^ 32) vend ≡ false
      last = ground arith
  freerange_from_lem (suc n) (suc f) p m xs e h a b k l hs o =
      let fits : p + page_size ≤ vend = omega arith in
      let wrap : (p + page_size) % 2 ^ 32 ≡ p + page_size = omega arith in
      let page : IsPage end_addr p = record { aligned = a; behind = b; present = omega arith } in
      let (m1, freed, held) =
        kfree_lem end_addr m p xs hs page (omega arith)
          (λ c. omega (arith, All-among (λ x. (x < p) ⊎ (vend ≤ x)) xs p o c)) in
      let olds : All (λ x. (x < p + page_size) ⊎ (vend ≤ x)) xs =
        All-map (λ x. (x < p) ⊎ (vend ≤ x)) (λ x. (x < p + page_size) ⊎ (vend ≤ x)) xs
          (λ x q. omega arith) o in
      let (m2, run, all) =
        freerange_from_lem n f (p + page_size) m1 (p ∷ xs) (omega arith) (omega arith) (omega arith)
          (omega arith) (omega arith) (omega arith) held (inl (omega arith), olds) in
      (
        m2,
        freerange_round end_addr vend f p (p + page_size) m m1 (ok m2) freed wrap
            (le→leb (p + page_size) vend fits) run,
        all,
      )

-- On a range of the kernel's memory, `freerange` frees every whole page between its ends, once, and
-- nothing else: the allocator then holds those pages and the ones that it had. None of these may lie
-- in the range. The loop ends, and no check of `kfree` fails.
pub freerange_lem :
    (end_addr vstart vend : ℕ) (m : Kmem) (xs : List ℕ)
    → end_addr ≤ vstart
    → kern_base ≤ vstart
    → vstart ≤ vend
    → vend ≤ kern_base + phys_stop
    → Holds end_addr m xs
    → let p = page_round_up end_addr vstart in
      All (λ x. (x < p) ⊎ (vend ≤ x)) xs
      → (m' : Kmem) × (freerange end_addr vstart vend m ≡ ok m')
        × Holds end_addr m' (pushed p ((vend - p) / page_size) xs)
unfolding freerange
freerange_lem end_addr vstart vend m xs b k le top hs o =
    freerange_from_lem end_addr vend top _ _ (page_round_up end_addr vstart) m xs refl (omega arith)
      (omega arith) (omega arith) (omega arith) (omega arith) hs o
