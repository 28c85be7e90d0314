-- ===== src/Locks.antt =====
-- spinlock.c: spin locks, and the switching off of interrupts that goes with them.
--
-- A processor is known by its number. `ncli` is the bit pattern of an int. The call stack that `acquire`
-- records for debugging is left out.
pub mod Nesting
pub mod Exclusion
mod Tests
use os_assignment.Prelude.{
  ℕ, ◌+◌, ◌-◌, ◌%◌, ◌^◌, Bool, true, false, Option, none, some, ◌&&◌, leb, ◌==◌, if◌then◌else◌,
  Result, ok, panic, ◌>>=◌,
}

-- The interrupt flag of a processor, and what `struct cpu` says of it.
pub record Cpu : Type 0 where
  pub interrupts : Bool
  pub ncli : ℕ
  pub intena : Bool

pub record Lock : Type 0 where
  pub locked : Bool
  pub cpu : Option ℕ

pub pushcli : Cpu → Cpu
pushcli c = record c {
  interrupts = false;
  intena = if c.ncli == 0 then c.interrupts else c.intena;
  ncli = (c.ncli + 1) % 2 ^ 32;
}

pub popcli : Cpu → Result Cpu
popcli c =
    let left = (c.ncli + 2 ^ 32 - 1) % 2 ^ 32 in
    if c.interrupts
    then panic "popcli - interruptible"
    else if leb (2 ^ 31) left
    then panic "popcli"
    else ok (record c { ncli = left; interrupts = left == 0 && c.intena })

abbrev pub owned_by : ℕ → Lock → Bool
owned_by self lk = lk.locked && elim lk.cpu [ none ↦ false | some i ↦ i == self ]

pub holding : ℕ → Lock → Cpu → Result (Cpu × Bool)
holding self lk c = popcli (pushcli c) >>= λ c'. ok (c', owned_by self lk)

-- `acquire` up to the loop; one `xchg` of the loop, which takes the lock or finds it taken; and what
-- comes behind the loop.
pub acquire_enter : ℕ → Lock → Cpu → Result Cpu
acquire_enter self lk c =
    holding self lk (pushcli c) >>= λ r. if r.1 then panic "acquire" else ok r.0

pub try_lock : Lock → Option Lock
try_lock lk = if lk.locked then none else some (record lk { locked = true })

pub own : ℕ → Lock → Lock
own self lk = record lk { cpu = some self }

-- `release` up to the clearing of `cpu`; the store that opens the lock; `popcli` follows.
pub release_enter : ℕ → Lock → Cpu → Result (Lock × Cpu)
release_enter self lk c =
    holding self lk c >>= λ r. if r.1 then ok (record lk { cpu = none }, r.0) else panic "release"

pub unlock : Lock → Lock
unlock lk = record lk { locked = false }

-- The two calls where the lock is free, or held by the caller, and nobody else comes between.
pub acquire : ℕ → Lock → Cpu → Result (Option (Lock × Cpu))
acquire self lk c = acquire_enter self lk c >>= λ c'. elim (try_lock lk) [
  | none ↦ ok none
  | some lk' ↦ ok (some (own self lk', c'))
]

pub release : ℕ → Lock → Cpu → Result (Lock × Cpu)
release self lk c = release_enter self lk c >>= λ r. popcli r.1 >>= λ c'. ok (unlock r.0, c')
