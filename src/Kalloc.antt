-- ===== src/Kalloc.antt =====
-- kalloc.c: the allocator of physical pages, a free list threaded through the free pages.
mod Tests
pub mod Chain
pub mod Range
pub mod Clients
use os_assignment.Prelude.{
  ℕ, zero, suc, ◌+◌, ◌-◌, ◌*◌, ◌/◌, ◌%◌, ◌^◌, Bool, true, false, not, ◌||◌, ltb, leb, ◌==◌,
  if◌then◌else◌, update, Result, ok, panic, ◌>>=◌,
}

abbrev pub page_size : ℕ
page_size = 4096

abbrev pub kern_base : ℕ
kern_base = 0x80000000

abbrev pub phys_stop : ℕ
phys_stop = 0xE000000

abbrev pub v2p : ℕ → ℕ
v2p a = (a + 2 ^ 32 - kern_base) % 2 ^ 32

-- `kmem`, and the first word of every page, where a free page keeps `struct run`. Pages are named by
-- their virtual addresses, and 0 is the null pointer.
pub record Kmem : Type 0 where
  pub use_lock : Bool
  pub free_list : ℕ
  pub next : ℕ → ℕ

-- `memset(v, 1, PGSIZE)`, as far as the first word shows it.
abbrev pub junk : ℕ
junk = 0x01010101

-- The parameter is the address of `end`, which the linker sets.
module _ (end_addr : ℕ) where
  pub kfree : Kmem → ℕ → Result Kmem
  kfree m v =
      if not (v % page_size == 0) || ltb v end_addr || leb phys_stop (v2p v)
      then panic "kfree"
      else (let filled = update m.next v junk in
          ok (record m { next = update filled v m.free_list; free_list = v }))

  -- The loop of `freerange`, on fuel.
  pub freerange_from : ℕ → ℕ → ℕ → Kmem → Result Kmem
  freerange_from zero p vend m = panic "out of fuel"
  freerange_from (suc f) p vend m =
      let rest = kfree m p >>= λ m'. freerange_from f ((p + page_size) % 2 ^ 32) vend m' in
      if leb ((p + page_size) % 2 ^ 32) vend then rest else ok m

  abbrev pub page_round_up : ℕ → ℕ
  page_round_up a = (a + page_size - 1) % 2 ^ 32 / page_size * page_size

  pub freerange : ℕ → ℕ → Kmem → Result Kmem
  freerange vstart vend m = freerange_from (vend / page_size + 1) (page_round_up vstart) vend m

  pub kinit1 : ℕ → ℕ → Kmem → Result Kmem
  kinit1 vstart vend m = freerange vstart vend (record m { use_lock = false })

  pub kinit2 : ℕ → ℕ → Kmem → Result Kmem
  kinit2 vstart vend m = freerange vstart vend m >>= λ m'. ok (record m' { use_lock = true })

unfoldable pub kalloc : Kmem → ℕ × Kmem
kalloc m = let r = m.free_list in (r, if r == 0 then m else record m { free_list = m.next r })
