-- ===== src/Files.antt =====
-- file.c: the table of open files and its reference counts.
--
-- Each function is what runs under `ftable.lock`; a pointer to a file is its index. Counts are bit
-- patterns of ints.
pub mod Calls
pub mod Handles
mod Tests
use os_assignment.Prelude.{
  ℕ, ◌+◌, ◌-◌, ◌%◌, ◌^◌, List, [], ◌∷◌, Bool, Option, none, some, ◌&&◌, ◌||◌, ltb, leb, ◌==◌,
  if◌then◌else◌, get_elem?, set, Result, ok, panic,
}

-- `type`, with `pipe` or `ip` beside it where the type has one: the address of a pipe, and the index of
-- an inode in its cache.
pub data Target : Type 0 where
  fd_none : Target
  fd_pipe : ℕ → Target
  fd_inode : ℕ → Target

pub record File : Type 0 where
  pub target : Target
  pub ref : ℕ
  pub readable : Bool
  pub writable : Bool
  pub off : ℕ

pub filealloc_from : ℕ → List File → List File × Option ℕ
filealloc_from i [] = ([], none)
filealloc_from i (f ∷ fs) =
    let rest = filealloc_from (i + 1) fs in
    if f.ref == 0 then (record f { ref = 1 } ∷ fs, some i) else (f ∷ rest.0, rest.1)

pub filealloc : List File → List File × Option ℕ
filealloc fs = filealloc_from 0 fs

-- `f->ref < 1`.
abbrev pub unreferenced : File → Bool
unreferenced f = f.ref == 0 || leb (2 ^ 31) f.ref

-- A pointer that is not into the table does not occur; its result is a panic here.
pub filedup : List File → ℕ → Result (List File)
filedup fs i = elim (get_elem? fs i) [
  | none ↦ panic "no file"
  | some f ↦
      if unreferenced f
      then panic "filedup"
      else ok (set fs i (record f { ref = (f.ref + 1) % 2 ^ 32 }))
]

-- What `fileclose` does after it has released the lock.
pub data After : Type 0 where
  nothing : After
  closes_pipe : ℕ → Bool → After  -- pipeclose(ff.pipe, ff.writable)
  puts_inode : ℕ → After  -- begin_op(); iput(ff.ip); end_op()

abbrev pub after_close : File → After
after_close f = elim f.target [
  | fd_none ↦ nothing
  | fd_pipe p ↦ closes_pipe p f.writable
  | fd_inode ip ↦ puts_inode ip
]

pub fileclose : List File → ℕ → Result (List File × After)
fileclose fs i = elim (get_elem? fs i) [
  | none ↦ panic "no file"
  | some f ↦
      let left = (f.ref + 2 ^ 32 - 1) % 2 ^ 32 in
      if unreferenced f
      then panic "fileclose"
      else if ltb 0 left && ltb left (2 ^ 31)
      then ok (set fs i (record f { ref = left }), nothing)
      else ok (set fs i (record f { ref = 0; target = fd_none }), after_close f)
]
