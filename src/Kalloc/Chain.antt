-- ===== src/Kalloc/Chain.antt =====
-- kalloc.c: the free list as a list of pages.
use os_assignment.Prelude.{
  ℕ, ◌%◌, ◌≤◌, ◌<◌, ◌≡◌, ◌≢◌, refl, sym, arith, List, [], ◌∷◌, false, not, ◌||◌, ltb, leb, ◌==◌,
  update, update_self, update_ne, ok, panic, All, Among, Distinct, inl, inr, Bool-cases,
}
use os_assignment.Kalloc.{Kmem, kfree, kalloc, page_size, phys_stop, v2p}

-- Following `next` from `p` passes through the pages `xs` and ends in a null pointer.
abbrev pub Chain : (ℕ → ℕ) → ℕ → List ℕ → Type 0
Chain next p [] = p ≡ 0
Chain next p (x ∷ xs) = (p ≡ x) × (x ≢ 0) × Chain next (next x) xs

Chain-update :
    (next : ℕ → ℕ) (p v w : ℕ) (xs : List ℕ)
    → ¬ Among v xs
    → Chain next p xs
    → Chain (update next v w) p xs
Chain-update next p v w [] h c = c
Chain-update next p v w (x ∷ xs) h c = (
  c.0,
  c.1,
  rw (update_ne next {i = v} {j = x} w (λ e. h (inl (sym e))))
      (Chain-update next (next x) v w xs (λ a. h (inr a)) c.2),
)

-- What `kfree` accepts: an aligned address of physical memory behind the kernel.
pub record IsPage (end_addr v : ℕ) : Type 0 where
  pub aligned : v % page_size ≡ 0
  pub behind : end_addr ≤ v
  pub present : v2p v < phys_stop

-- The allocator holds the pages `xs`, the next one to be handed out first.
pub record Holds (end_addr : ℕ) (m : Kmem) (xs : List ℕ) : Type 0 where
  pub chain : Chain m.next m.free_list xs
  pub distinct : Distinct xs
  pub pages : All (IsPage end_addr) xs

module _ (end_addr : ℕ) (m : Kmem) where
  -- An address that is no page panics, and any other is freed, unless it is the null page: `kfree`
  -- never changes what is free otherwise.
  pub kfree_panics : (v : ℕ) → ¬ IsPage end_addr v → kfree end_addr m v ≡ panic "kfree"
  unfolding kfree
  kfree_panics v h =
      elim (Bool-cases (not (v % page_size == 0) || ltb v end_addr || leb phys_stop (v2p v))) [
        | inl e ↦ rw e
        | inr e ↦ absurd (h (ground arith))
      ]

  pub kfree-IsPage : (v : ℕ) → IsPage end_addr v → (m' : Kmem) × (kfree end_addr m v ≡ ok m')
  unfolding kfree
  kfree-IsPage v p = (
    record m { next = update (update m.next v 0x01010101) v m.free_list; free_list = v },
    ground (arith, p.aligned, p.behind, p.present),
  )

  -- `kfree` of a page that is not null and not free already succeeds, and the allocator then holds that
  -- page in front of those that it held.
  pub kfree_lem :
      (v : ℕ) (xs : List ℕ)
      → Holds end_addr m xs
      → IsPage end_addr v
      → v ≢ 0
      → ¬ Among v xs
      → (m' : Kmem) × (kfree end_addr m v ≡ ok m') × Holds end_addr m' (v ∷ xs)
  unfolding kfree
  kfree_lem v xs h p z n = (
    record m { next = update (update m.next v 0x01010101) v m.free_list; free_list = v },
    ground (arith, p.aligned, p.behind, p.present),
    record {
      chain = (
        refl,
        z,
        rw (update_self (update m.next v 0x01010101) v m.free_list) (
            Chain-update (update m.next v 0x01010101) m.free_list v m.free_list xs n
              (Chain-update m.next m.free_list v 0x01010101 xs n h.chain)),
      );
      distinct = (n, h.distinct);
      pages = (p, h.pages);
    },
  )

  -- `kalloc` hands out the head of the free list; with nothing free it returns the null pointer.
  pub kalloc_some :
      (x : ℕ) (xs : List ℕ)
      → Holds end_addr m (x ∷ xs)
      → ((kalloc m).0 ≡ x) × (x ≢ 0) × Holds end_addr (kalloc m).1 xs
  unfolding kalloc
  kalloc_some x xs h =
      let (e, z, c) = h.chain in
      let taken : (m.free_list == 0) ≡ false = ground arith in
      (e, z, rw taken (record { chain = rw e c; distinct = h.distinct.1; pages = h.pages.1 }))

  pub kalloc_none : Holds end_addr m [] → kalloc m ≡ (0, m)
  unfolding kalloc
  kalloc_none h = rw h.chain
