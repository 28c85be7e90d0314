-- ===== src/Kalloc/Tests.antt =====
-- kalloc.c on small inputs: the kernel ends at 0x80100000, and two pages behind it are free.
use os_assignment.Prelude.{
  ℕ, ◌≡◌, ◌≢◌, refl, List, [], ◌∷◌, ◌++◌, true, false, arith, ok, panic, update, Among,
}
use os_assignment.Kalloc.{Kmem, kfree, kalloc, freerange}
use os_assignment.Kalloc.Chain.{Holds}
use os_assignment.Kalloc.Range.{pushed, freerange_lem}
use os_assignment.Kalloc.Clients.{Heap, allocs, Reach, here, next, Shared, pages_never-Shared}

abbrev kernel_end : ℕ
kernel_end = 0x80100000

abbrev page0 : ℕ
page0 = 0x80100000

abbrev page1 : ℕ
page1 = 0x80101000

abbrev two_free : Kmem
two_free = record {
  use_lock = true;
  free_list = page1;
  next = update (update (λ p. 0) page0 0) page1 page0;
}

abbrev empty_mem : Kmem
empty_mem = record { use_lock = false; free_list = 0; next = λ p. 0 }

empty_mem-Holds : Holds kernel_end empty_mem []
empty_mem-Holds = record { chain = refl; distinct = tt; pages = tt }

two_free-Holds : Holds kernel_end two_free (page1 ∷ page0 ∷ [])
two_free-Holds = record {
  chain = (refl, omega arith, (refl, omega arith, refl));
  distinct = (ground arith, (ground arith, tt));
  pages = (
    record { aligned = refl; behind = omega arith; present = omega arith },
    (record { aligned = refl; behind = omega arith; present = omega arith }, tt),
  );
}

-- The range holds two whole pages and some bytes at each end.
freerange_lem_example :
    (m : Kmem) × (freerange kernel_end 0x80100010 0x80103010 empty_mem ≡ ok m)
    × Holds kernel_end m (pushed 0x80101000 2 [])
freerange_lem_example =
    freerange_lem kernel_end 0x80100010 0x80103010 empty_mem [] (omega arith) (omega arith)
      (omega arith) (omega arith) empty_mem-Holds tt

abbrev one_taken : Heap
one_taken = record { mem = record two_free { free_list = page0 }; held = page1 ∷ [] }

one_taken-Reach : Reach kernel_end (record { mem = two_free; held = [] }) one_taken
unfolding kalloc
one_taken-Reach =
    next here (allocs page1 (record two_free { free_list = page0 }) refl (omega arith) refl)

pages_never-Shared_example :
    Shared kernel_end (page1 ∷ page0 ∷ []) one_taken
    × ((p : ℕ) (m : Kmem) → kalloc one_taken.mem ≡ (p, m) → p ≢ 0 → ¬ Among p one_taken.held)
    × ((us vs : List ℕ) (p : ℕ)
        → one_taken.held ≡ us ++ (p ∷ vs)
        → (m : Kmem) × (kfree kernel_end one_taken.mem p ≡ ok m))
pages_never-Shared_example =
    pages_never-Shared kernel_end (page1 ∷ page0 ∷ []) two_free two_free-Holds one_taken-Reach

-- An address inside a page is refused, and `kalloc` with nothing free gives null.
kalloc_runs : (kfree kernel_end two_free 0x80100004 ≡ panic "kfree") × ((kalloc empty_mem).0 ≡ 0)
unfolding kfree kalloc
kalloc_runs = (refl, refl)
