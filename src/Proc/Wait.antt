-- ===== src/Proc/Wait.antt =====
-- proc.c: `wait`.
use os_assignment.Prelude.{
  ℕ, ◌+◌, ◌<◌, ◌≡◌, ◌≢◌, String, List, Bool, true, false, Option, none, some, ◌&&◌, get_elem?, ◌⊎◌,
  Result, ok, panic,
}
use os_assignment.Kalloc.{Kmem, kfree}
use os_assignment.Proc.{Proc, Kernel, zombie, unused, is, is_child, wait, WaitEnd, reaped}

-- Entry `k` is the first exited child of `self`.
pub record IsExited (self : ℕ) (ps : List Proc) (k : ℕ) : Type 0 where
  pub entry : Proc
  pub here : get_elem? ps k ≡ some entry
  pub child : is_child entry self ≡ true
  pub exited : is entry.state zombie ≡ true
  pub first :
      (j : ℕ) (q : Proc)
      → j < k
      → get_elem? ps j ≡ some q
      → (is_child q self && is q.state zombie) ≡ false

abbrev pub NoneExited : ℕ → List Proc → Type 0
NoneExited self ps =
    (j : ℕ) (q : Proc) → get_elem? ps j ≡ some q → (is_child q self && is q.state zombie) ≡ false

abbrev pub HasChild : ℕ → List Proc → Type 0
HasChild self ps = (j : ℕ) × (q : Proc) × (get_elem? ps j ≡ some q) × (is_child q self ≡ true)

abbrev pub NoChild : ℕ → List Proc → Type 0
NoChild self ps = (j : ℕ) (q : Proc) → get_elem? ps j ≡ some q → is_child q self ≡ false

-- What the loop over the table finds, from entry `i` on.
abbrev Scanned : ℕ → List Proc → ℕ → Bool → Option ℕ × Bool → Type 0
Scanned self ps i kids r =
    ((k : ℕ) × IsExited self ps k × (r.0 ≡ some (i + k)))
    ⊎ ((r.0 ≡ none)
        × NoneExited self ps
        × (((r.1 ≡ true) × ((kids ≡ true) ⊎ HasChild self ps))
            ⊎ ((r.1 ≡ false) × (kids ≡ false) × NoChild self ps)))

pub pair_eq : (r : Option ℕ × Bool) (a : Option ℕ) (b : Bool) → r.0 ≡ a → r.1 ≡ b → r ≡ (a, b)
pair_eq r a b e f = cc

-- What one pass of `wait` leaves that reaps the child in entry `i`, of which `p` is what was there, when `m`
-- is the memory after its stack and its page table were freed.
pub record Reaped (k : Kernel) (i : ℕ) (p : Proc) (m : Kmem) (k' : Kernel) : Type 0 where
  pub left : Proc
  pub there : get_elem? k'.procs i ≡ some left
  pub free : left.state ≡ unused
  pub no_pid : left.pid ≡ 0
  pub no_parent : left.parent ≡ none
  pub not_killed : left.killed ≡ false
  pub no_stack : left.kstack ≡ 0
  pub ended : left.etime ≡ k.ticks
  pub others : (j : ℕ) → i ≢ j → get_elem? k'.procs j ≡ get_elem? k.procs j
  pub rest : k' ≡ record k { kmem = m; procs = k'.procs }

-- What reaping the child in entry `i` comes to.
abbrev pub Reaping :
    ℕ → (ℕ → Kmem → Result Kmem) → Kernel → ℕ → Proc → Result (Kernel × WaitEnd) → Type 0
Reaping end_addr freevm k i p r =
    ((s : String) × (kfree end_addr k.kmem p.kstack ≡ panic s) × (r ≡ panic s))
    ⊎ ((m : Kmem) × (kfree end_addr k.kmem p.kstack ≡ ok m)
        × (((s : String) × (freevm p.pgdir m ≡ panic s) × (r ≡ panic s))
            ⊎ ((m' : Kmem) × (k' : Kernel) × (freevm p.pgdir m ≡ ok m')
                × (r ≡ ok (k', reaped p.pid))
                × Reaped k i p m' k')))

module _ (end_addr : ℕ) (freevm : ℕ → Kmem → Result Kmem) (self : ℕ) (k : Kernel) where
  abbrev pub waits : Result (Kernel × WaitEnd)
  waits = wait end_addr freevm self k
