-- ===== src/Fds/Tests.antt =====
-- sysfile.c: the descriptor calls on small tables.
use mathlib.Core.Path.{subst}
use os_assignment.Prelude.{
  ℕ, zero, suc, ◌+◌, ◌^◌, ◌<◌, ◌≡◌, ◌⊎◌, refl, arith, [], ◌∷◌, Option, none, some, false, true,
  get_elem?, set, replicate, length-replicate, ok,
}
use os_assignment.Files.{File, fd_none, fd_inode}
use os_assignment.Blocks.{Super}
use os_assignment.Icache.{Entry}
use os_assignment.Kalloc.{Kmem}
use os_assignment.Kalloc.Chain.{Holds}
use os_assignment.Pipe.{Pipe, fresh}
use os_assignment.Syscall.{User}
use os_assignment.Fds.{Ofile, Kernel, argfd, fdalloc, sys_dup, sys_close, sys_pipe}
use os_assignment.Fds.Find.{Placed, fdalloc-Placed}
use os_assignment.Fds.Counted.{nfile, FileOk, Kept, Kept-set}
use os_assignment.Fds.Calls.{refs, FdsOk, LowestFree, CloseCall, sys_dup-FdsOk, sys_close-Closes}
use os_assignment.Fds.Pipes.{PipeCall, sys_pipe-PipeCall}

abbrev end_addr : ℕ
end_addr = 0x80100000

abbrev idle : File
idle = record { target = fd_none; ref = 0; readable = false; writable = false; off = 0 }

get_elem?-replicate :
    (n : ℕ) (f : File) (j : ℕ) (g : File) → get_elem? (replicate n f) j ≡ some g → f ≡ g
get_elem?-replicate zero f j g e = cc
get_elem?-replicate (suc n) f zero g e = cc (e)
get_elem?-replicate (suc n) f (suc j) g e = get_elem?-replicate n f j g e

idle_ok : (f : File) → idle ≡ f → FileOk end_addr 0 f
idle_ok f e =
    subst (FileOk end_addr 0) e (record { counted = refl; idle = λ z. refl; piped = λ p z. cc (z) })

all_idle-Kept : (h : ℕ → ℕ) → ((j : ℕ) → h j ≡ 0) → Kept end_addr (replicate nfile idle) h
all_idle-Kept h z = record {
  size = length-replicate nfile idle;
  each = λ j f e. rw (z j) (idle_ok f (get_elem?-replicate nfile idle j f e));
}

-- One page is free, and descriptor 0 of two names file 7, which is of inode 1.
abbrev pages : Kmem
pages = record { use_lock = true; free_list = 0x80100000; next = λ p. 0 }

pages-Holds : Holds end_addr pages (0x80100000 ∷ [])
pages-Holds = record {
  chain = (refl, omega arith, refl);
  distinct = (λ a. a, tt);
  pages = (record { aligned = refl; behind = omega arith; present = omega arith }, tt);
}

abbrev table : Ofile
table = some 7 ∷ none ∷ []

abbrev no_pipe : Pipe
no_pipe = fresh []

abbrev small_disk : Super
small_disk = record {
  size = 20;
  nblocks = 14;
  ninodes = 8;
  nlog = 0;
  logstart = 2;
  inodestart = 3;
  bmapstart = 2;
}

-- Inode 1, which has a link and one reference, that of file 7.
abbrev cached : Entry
cached = record {
  inode = record {
    dev = 1;
    inum = 1;
    type = 2;
    major = 0;
    minor = 0;
    nlink = 1;
    size = 0;
    addrs = λ i. 0;
  };
  ref = 1;
  valid = true;
}

abbrev kernel : Kernel
kernel = record {
  files = set (replicate nfile idle) 7 (record idle { ref = 1; target = fd_inode 0 });
  mem = pages;
  pipes = λ p. no_pipe;
  sb = small_disk;
  fs = record { blocks = λ b o. 0; logged = [] };
  inodes = cached ∷ [];
}

kernel-FdsOk : FdsOk end_addr (λ j. 0) table kernel
kernel-FdsOk = record {
  kept =
      Kept-set end_addr (replicate nfile idle) (λ j. 0) (refs table (λ j. 0)) 7
        (record idle { ref = 1; target = fd_inode 0 }) (all_idle-Kept (λ j. 0) (λ j. refl))
        (omega arith)
        (record { counted = refl; idle = λ z. absurd (omega arith); piped = λ p z. cc (z) })
        (λ j ne. ground (arith, ne));
  ranged = in_range;
}
  where
    in_range : (fd f : ℕ) → get_elem? table fd ≡ some (some f) → f < nfile
    in_range zero f e = let same : 7 ≡ f = cc (e) in omega arith
    in_range (suc zero) f e = cc (e)
    in_range (suc (suc fd)) f e = cc (e)

table_few : (j : ℕ) → refs table (λ j'. 0) j + 2 < 2 ^ 31
table_few j = ground arith

-- Its arguments are all 0.
abbrev user : User
user = record { sz = 100; memory = λ a. 0; esp = 40 }

fdalloc-Placed_example : Placed table 9 (fdalloc table 9)
fdalloc-Placed_example = fdalloc-Placed table 9

sys_dup-FdsOk_example :
    (os : Ofile) × (k : Kernel) × (r : Option ℕ) × (sys_dup end_addr user table kernel
      ≡ ok (os, k, r))
    × FdsOk end_addr (λ j. 0) os k
    × (((r ≡ none) × (os ≡ table))
        ⊎ ((fd : ℕ) × (f : ℕ) × (new : ℕ) × (r ≡ some new)
            × (argfd user table 0 ≡ some (fd, f))
            × LowestFree table new
            × (os ≡ set table new (some f))))
sys_dup-FdsOk_example = sys_dup-FdsOk end_addr (λ j. 0) user table kernel kernel-FdsOk table_few

sys_close-Closes_example :
    ((argfd user table 0 ≡ none)
      × (sys_close end_addr user table kernel ≡ ok (table, kernel, none)))
    ⊎ ((fd : ℕ) × (i : ℕ) × (f : File) × (argfd user table 0 ≡ some (fd, i))
        × (get_elem? kernel.files i ≡ some f)
        × CloseCall end_addr
            (λ j. 0)
            (set table fd none)
            kernel
            f
            (sys_close end_addr user table kernel))
sys_close-Closes_example =
    sys_close-Closes end_addr (λ j. 0) user table kernel kernel-FdsOk table_few

-- The second end finds no descriptor here.
sys_pipe-PipeCall_example :
    PipeCall end_addr (λ j. 0) user table kernel (sys_pipe end_addr user table kernel)
sys_pipe-PipeCall_example =
    sys_pipe-PipeCall end_addr (λ j. 0) user table kernel kernel-FdsOk table_few (0x80100000 ∷ [])
      pages-Holds
