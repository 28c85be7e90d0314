-- ===== src/Syscall.antt =====
-- syscall.c: how the kernel fetches the arguments of a system call from user memory, and which call it
-- makes.
--
-- Pointers wrap at 2 ^ 32. A result `none` is -1; a pointer that the code stores through `pp` or `ip`
-- is the value of `some`.
pub mod Bounds
pub mod Dispatch
mod Tests
use os_assignment.Prelude.{
  ℕ, zero, suc, ◌+◌, ◌-◌, ◌*◌, ◌%◌, ◌^◌, Option, none, some, ◌||◌, ◌&&◌, ltb, leb, ◌==◌,
  if◌then◌else◌, List, [], ◌∷◌, get_elem?, length,
}

-- What these functions read of the current process: `sz`, its memory, and `tf->esp`.
pub record User : Type 0 where
  pub sz : ℕ
  pub memory : ℕ → ℕ
  pub esp : ℕ

-- `*(int*)addr`, the low byte first.
abbrev pub word_at : (ℕ → ℕ) → ℕ → ℕ
word_at m a =
    m a
    + 256 * m ((a + 1) % 2 ^ 32)
    + 65536 * m ((a + 2) % 2 ^ 32)
    + 16777216 * m ((a + 3) % 2 ^ 32)

pub fetchint : User → ℕ → Option ℕ
fetchint u addr =
    if leb u.sz addr || ltb u.sz ((addr + 4) % 2 ^ 32) then none else some (word_at u.memory addr)

-- The loop of `fetchstr`, with `n` bytes left before `ep` and `len` behind it.
pub fetchstr_from : User → ℕ → ℕ → ℕ → Option ℕ
fetchstr_from u addr zero len = none
fetchstr_from u addr (suc n) len =
    let rest = fetchstr_from u addr n (len + 1) in
    if u.memory (addr + len) == 0 then some len else rest

-- The length of the string.
pub fetchstr : User → ℕ → Option ℕ
fetchstr u addr = if leb u.sz addr then none else fetchstr_from u addr (u.sz - addr) 0

pub argint : User → ℕ → Option ℕ
argint u n = fetchint u ((u.esp + 4 + 4 * n) % 2 ^ 32)

pub argptr : User → ℕ → ℕ → Option ℕ
argptr u n size = elim (argint u n) [
  | none ↦ none
  | some i ↦
      if leb (2 ^ 31) size || leb u.sz i || ltb u.sz ((i + size) % 2 ^ 32) then none else some i
]

-- The address and the length.
pub argstr : User → ℕ → Option (ℕ × ℕ)
argstr u n = elim (argint u n) [
  | none ↦ none
  | some addr ↦ elim (fetchstr u addr) [ none ↦ none | some len ↦ some (addr, len) ]
]

-- The system calls that syscall.h numbers.
pub data Call : Type 0 where
  fork exit wait pipe read kill exec fstat chdir dup getpid sbrk sleep uptime open_ write mknod
        unlink link mkdir close waitx setpriority :
      Call

abbrev pub number : Call → ℕ
number fork = 1
number exit = 2
number wait = 3
number pipe = 4
number read = 5
number kill = 6
number exec = 7
number fstat = 8
number chdir = 9
number dup = 10
number getpid = 11
number sbrk = 12
number sleep = 13
number uptime = 14
number open_ = 15
number write = 16
number mknod = 17
number unlink = 18
number link = 19
number mkdir = 20
number close = 21
number waitx = 22
number setpriority = 23

-- The array `syscalls`, as the compiler lays it out from its designated initialisers; null is `none`.
abbrev pub syscalls : List (Option Call)
syscalls =
    none
    ∷ some fork
    ∷ some exit
    ∷ some wait
    ∷ some pipe
    ∷ some read
    ∷ some kill
    ∷ some exec
    ∷ some fstat
    ∷ some chdir
    ∷ some dup
    ∷ some getpid
    ∷ some sbrk
    ∷ some sleep
    ∷ some uptime
    ∷ some open_
    ∷ some write
    ∷ some mknod
    ∷ some unlink
    ∷ some link
    ∷ some mkdir
    ∷ some close
    ∷ some waitx
    ∷ []

abbrev pub entry : Option (Option Call) → Option Call
entry none = none
entry (some c) = c

-- The call that `syscall` makes for the number in `eax`; `none` is an unknown call, for which it
-- returns -1.
pub chosen : ℕ → Option Call
chosen num =
    if ltb 0 num && ltb num (2 ^ 31) && ltb num (length syscalls)
    then entry (get_elem? syscalls num)
    else none

-- `syscall`, where `run` is the table of the functions; it sets `eax`.
pub syscall {ℓ} : {S : Type ℓ} → (Call → S → S × ℕ) → ℕ → S → S × ℕ
syscall run num s = elim (chosen num) [ none ↦ (s, 2 ^ 32 - 1) | some c ↦ run c s ]
