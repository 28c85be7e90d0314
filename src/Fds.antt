-- ===== src/Fds.antt =====
-- sysfile.c: file descriptors, and the calls that make and drop them; pipe.c: pipealloc.
--
-- A descriptor table is `ofile` of the current process. A result `none` is -1, and the other functions
-- of the kernel are those of the modules Syscall, Files, Pipe and Kalloc.
pub mod Find
pub mod Counted
pub mod Closing
pub mod Pipes
pub mod Calls
pub mod Ends
mod Tests
use os_assignment.Prelude.{
  ℕ, ◌+◌, ◌^◌, List, [], ◌∷◌, Bool, true, false, Option, none, some, ◌||◌, leb, ◌==◌, if◌then◌else◌,
  get_elem?, set, update, Result, ok, ◌>>=◌,
}
use os_assignment.Files.{
  File, fd_pipe, filealloc, filedup, fileclose, After, nothing, closes_pipe, puts_inode,
}
use os_assignment.Pipe.{Pipe, close, fresh}
use os_assignment.Kalloc.{Kmem, kalloc, kfree}
use os_assignment.Blocks.{Super, Fs}
use os_assignment.Icache.{Entry, iput}
use os_assignment.Syscall.{User, argint, argptr}

abbrev pub nofile : ℕ
nofile = 16

abbrev pub Ofile : Type 0
Ofile = List (Option ℕ)

-- The descriptor and the file. An index past the table is refused before the table is read.
pub argfd : User → Ofile → ℕ → Option (ℕ × ℕ)
argfd u ofile n = elim (argint u n) [
  | none ↦ none
  | some fd ↦ if leb (2 ^ 31) fd || leb nofile fd then none else elim (get_elem? ofile fd) [
    | none ↦ none
    | some entry ↦ elim entry [ none ↦ none | some f ↦ some (fd, f) ]
  ]
]

-- The loop of `fdalloc`, from descriptor `fd` on.
pub fdalloc_from : ℕ → Ofile → ℕ → Ofile × Option ℕ
fdalloc_from fd [] f = ([], none)
fdalloc_from fd (none ∷ os) f = (some f ∷ os, some fd)
fdalloc_from fd (some g ∷ os) f = let rest = fdalloc_from (fd + 1) os f in (some g ∷ rest.0, rest.1)

pub fdalloc : Ofile → ℕ → Ofile × Option ℕ
fdalloc ofile f = fdalloc_from 0 ofile f

-- What these calls change beside the descriptors: `ftable`, `kmem`, the pipes by their pages, and for the
-- last close of a file of an inode the blocks and the cache of inodes of fs.c, with its `sb`.
pub record Kernel : Type 0 where
  pub files : List File
  pub mem : Kmem
  pub pipes : ℕ → Pipe
  pub sb : Super
  pub fs : Fs
  pub inodes : List Entry

-- `p->f = …` at an entry of the table.
abbrev pub amend : List File → ℕ → (File → File) → List File
amend fs i h = elim (get_elem? fs i) [ none ↦ fs | some f ↦ set fs i (h f) ]

abbrev pub read_end : ℕ → File → File
read_end p f = record f { target = fd_pipe p; readable = true; writable = false }

abbrev pub write_end : ℕ → File → File
write_end p f = record f { target = fd_pipe p; readable = false; writable = true }

-- The parameter is the address of `end`, which the linker sets.
module _ (end_addr : ℕ) where
  pub pipeclose : Kernel → ℕ → Bool → Result Kernel
  pipeclose k p writable =
      let c = close (k.pipes p) writable in
      let k' = record k { pipes = update k.pipes p c.pipe } in
      if c.freed then (kfree end_addr k.mem p >>= λ m. ok (record k' { mem = m })) else ok k'

  -- The call of `begin_op` before `iput` and that of `end_op` behind it change the log only, which is in
  -- Log; what `iput` logs is in `logged` of the blocks.
  pub finish_close : Kernel → After → Result Kernel
  finish_close k nothing = ok k
  finish_close k (closes_pipe p writable) = pipeclose k p writable
  finish_close k (puts_inode ip) =
      iput k.sb k.fs k.inodes ip >>= λ r. ok (record k { fs = r.0; inodes = r.1 })

  -- `fileclose` with what it does after it has released the lock.
  pub close_file : Kernel → ℕ → Result Kernel
  close_file k i = fileclose k.files i >>= λ r. finish_close (record k { files = r.0 }) r.1

  -- Gives two files back.
  pub close_both : Kernel → ℕ → ℕ → Result Kernel
  close_both k rf wf = close_file k rf >>= λ k'. close_file k' wf

  -- The part of `pipealloc` after it has two files.
  pub join_files : Kernel → ℕ → ℕ → Result (Kernel × Option (ℕ × ℕ))
  join_files k f0 f1 =
      let (p, m) = kalloc k.mem in
      if p == 0
      then (close_both (record k { mem = m }) f0 f1 >>= λ k'. ok (k', none))
      else ok (
        record k {
          files = amend (amend k.files f0 (read_end p)) f1 (write_end p);
          mem = m;
          pipes = update k.pipes p (fresh (k.pipes p).bytes);
        },
        some (f0, f1),
      )

  -- `pipealloc` after its second and its first call of `filealloc`, with what the call gave.
  abbrev pub with_second : Kernel → ℕ → List File × Option ℕ → Result (Kernel × Option (ℕ × ℕ))
  with_second k f0 (fs, none) = close_file (record k { files = fs }) f0 >>= λ k'. ok (k', none)
  with_second k f0 (fs, some f1) = join_files (record k { files = fs }) f0 f1

  abbrev pub with_first : Kernel → List File × Option ℕ → Result (Kernel × Option (ℕ × ℕ))
  with_first k (fs, none) = ok (record k { files = fs }, none)
  with_first k (fs, some f0) = with_second k f0 (filealloc fs)

  -- The two files, for reading and for writing.
  pub pipealloc : Kernel → Result (Kernel × Option (ℕ × ℕ))
  pipealloc k = with_first k (filealloc k.files)

  -- `sys_dup` after its call of `fdalloc`.
  abbrev pub with_fd : Kernel → ℕ → Ofile × Option ℕ → Result (Ofile × Kernel × Option ℕ)
  with_fd k f (ofile, none) = ok (ofile, k, none)
  with_fd k f (ofile, some fd) =
      filedup k.files f >>= λ fs. ok (ofile, record k { files = fs }, some fd)

  pub sys_dup : User → Ofile → Kernel → Result (Ofile × Kernel × Option ℕ)
  sys_dup u ofile k = elim (argfd u ofile 0) [
    | none ↦ ok (ofile, k, none)
    | some (fd, f) ↦ with_fd k f (fdalloc ofile f)
  ]

  pub sys_close : User → Ofile → Kernel → Result (Ofile × Kernel × Option ℕ)
  sys_close u ofile k = elim (argfd u ofile 0) [
    | none ↦ ok (ofile, k, none)
    | some (fd, f) ↦ close_file k f >>= λ k'. ok (set ofile fd none, k', some 0)
  ]

  -- `sys_pipe` after its second and its first call of `fdalloc`, with what the call gave.
  -- `some (fd, fd0, fd1)` stores the two descriptors at `fd` and returns 0.
  abbrev pub with_fd1 :
      ℕ → Kernel → ℕ → ℕ → ℕ → Ofile × Option ℕ → Result (Ofile × Kernel × Option (ℕ × ℕ × ℕ))
  with_fd1 fd k rf wf fd0 (ofile, none) =
      close_both k rf wf >>= λ k'. ok (set ofile fd0 none, k', none)
  with_fd1 fd k rf wf fd0 (ofile, some fd1) = ok (ofile, k, some (fd, fd0, fd1))

  abbrev pub with_fd0 :
      ℕ → Kernel → ℕ → ℕ → Ofile × Option ℕ → Result (Ofile × Kernel × Option (ℕ × ℕ × ℕ))
  with_fd0 fd k rf wf (ofile, none) = close_both k rf wf >>= λ k'. ok (ofile, k', none)
  with_fd0 fd k rf wf (ofile, some fd0) = with_fd1 fd k rf wf fd0 (fdalloc ofile wf)

  pub sys_pipe : User → Ofile → Kernel → Result (Ofile × Kernel × Option (ℕ × ℕ × ℕ))
  sys_pipe u ofile k = elim (argptr u 0 8) [
    | none ↦ ok (ofile, k, none)
    | some fd ↦ pipealloc k >>= λ r. elim r.1 [
      | none ↦ ok (ofile, r.0, none)
      | some (rf, wf) ↦ with_fd0 fd r.0 rf wf (fdalloc ofile rf)
    ]
  ]

-- The arguments with which `sys_read` and `sys_write` call `fileread` and `filewrite`: the file, the
-- buffer and the count.
pub transfer_args : User → Ofile → Option (ℕ × ℕ × ℕ)
transfer_args u ofile = elim (argfd u ofile 0) [
  | none ↦ none
  | some (fd, f) ↦ elim (argint u 2) [
    | none ↦ none
    | some n ↦ elim (argptr u 1 n) [ none ↦ none | some p ↦ some (f, p, n) ]
  ]
]
