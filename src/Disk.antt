-- ===== src/Disk.antt =====
-- What the users of the buffer cache (bio.c, over the driver ide.c) see of a disk.
--
-- `cache b` is what `bread` gives for block `b`, cached or read in; `disk b` is what the disk holds;
-- `dirty b` is B_DIRTY, which keeps a buffer from being recycled. `power` counts the writes that the
-- disk still carries out before the power fails: later ones change nothing on the disk.
use os_assignment.Prelude.{
  ℕ, ◌-◌, ◌≡◌, ◌≢◌, List, Bool, true, false, arith, ◌==◌, if◌then◌else◌, update,
}

-- A block is read and written as its sequence of 32-bit words.
abbrev pub Block : Type 0
Block = List ℕ

pub record Machine : Type 0 where
  pub disk : ℕ → Block
  pub cache : ℕ → Block
  pub dirty : ℕ → Bool
  pub power : ℕ

-- The machine after a start: nothing is cached, so every block is read from the disk.
abbrev pub boot : (ℕ → Block) → ℕ → Machine
boot d k = record { disk = d; cache = d; dirty = λ _. false; power = k }

-- `memmove(bp->data, ...)` into a buffer that is locked.
abbrev pub store : Machine → ℕ → Block → Machine
store m b v = record m { cache = update m.cache b v }

-- The disk write of `bwrite`: one block, whole or not at all.
abbrev pub bwrite : Machine → ℕ → Machine
bwrite m b = if m.power == 0 then record m { dirty = update m.dirty b false } else record m {
  disk = update m.disk b (m.cache b);
  dirty = update m.dirty b false;
  power = m.power - 1;
}

abbrev pub mark_dirty : Machine → ℕ → Machine
mark_dirty m b = record m { dirty = update m.dirty b true }

pub disk-bwrite_self : (m : Machine) (b : ℕ) → m.power ≢ 0 → (bwrite m b).disk b ≡ m.cache b
disk-bwrite_self m b h = ground arith

pub disk-bwrite_ne : (m : Machine) (b c : ℕ) → b ≢ c → (bwrite m b).disk c ≡ m.disk c
disk-bwrite_ne m b c h = ground arith

pub cache-bwrite : (m : Machine) (b : ℕ) → (bwrite m b).cache ≡ m.cache
cache-bwrite m b = ground arith

pub power-bwrite : (m : Machine) (b : ℕ) → (bwrite m b).power ≡ m.power - 1
power-bwrite m b = ground arith
