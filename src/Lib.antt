-- ===== src/Lib.antt =====
-- The kernel of this system, an xv6 for the x86 with schedulers of its own: its file system's log and
-- buffer cache, its table of open files and its paths, its pipes, its page allocator, its process table
-- and scheduler, its spin locks, its string functions, and the descriptors and arguments of its system
-- calls, translated from their C files.
--
-- Paths are those of the repository's root. Each module says in its first line which C file it is about;
-- functions carry the names of the C functions, and stand in the file's order.
--
-- - Prelude and its children: Booleans, options, lists and numbers that the other modules share, and
--   `Result`, in which `panic` is the kernel's panic, which stops the machine.
-- - Disk: what bio.c promises to its users. The contents of the cache and of the disk are functions of
--   the block number; a disk write is done whole or not at all, and `power` says how many are still
--   done, so that a crash can fall anywhere. A boot forgets the cache.
-- - Bio (bio.c): the buffer cache, on the disk in memory of memide.c. Bio/Pick is the choice of a
--   buffer, Bio/Calls one call, and Bio/Coherent, Bio/Held and Bio/Refine any sequence of calls, against
--   the one value for each block of Disk.
-- - Log (log.c): `struct log` without its lock. `begin_op`, `log_write`, `end_op`, `commit` and the
--   recovery at boot; `end_op` is cut where it releases the lock. Log/Header is the block that names
--   the logged blocks, Log/Install the copies to and from the log, Log/Crash and Log/Commit the commit
--   with power failures, Log/Txn one whole operation, Log/Reserve the interleaving of many, and Log/Full
--   three that fill the log.
-- - Kalloc (kalloc.c): the free list as the pointer structure that it is. Kalloc/Chain reads it as a
--   list of pages, Kalloc/Range is `freerange`, Kalloc/Clients any sequence of calls.
-- - Pipe (pipe.c): `pipewrite`, `piperead` and `pipeclose`, each up to where it sleeps or returns.
--   Pipe/Fifo is one call, Pipe/Stream any sequence of calls.
-- - Proc (proc.c, proc.h): the process table and the calls on it, under `ptable.lock`. A pointer to an
--   entry is its index. Proc/Table is `allocproc`, Proc/Signals `wakeup` and `kill`, Proc/Wait `wait`,
--   Proc/Waitx `waitx`, Proc/Exit `exit`. Proc/Sched is the loop of `scheduler` on one processor.
-- - Files (file.c): the table of open files and its reference counts; Files/Calls is one call and
--   Files/Handles any sequence of calls.
-- - Locks (spinlock.c): `pushcli` and `popcli` (Locks/Nesting), and the accesses of several processors
--   to one lock (Locks/Exclusion).
-- - Paths (fs.c): `skipelem`, and the sequence of names that `namex` looks up (Paths/Elements).
-- - Syscall (syscall.c, syscall.h): the fetching of arguments from user memory (Syscall/Bounds) and the
--   table of calls (Syscall/Dispatch).
-- - Fds (sysfile.c, and pipealloc of pipe.c): descriptors over Files, Pipe, Kalloc and Icache. Fds/Find is
--   `fdalloc`, Fds/Counted the files while they are allocated, Fds/Closing while they are closed, Fds/Ends `pipealloc`, Fds/Calls
--   and Fds/Pipes the system calls.
-- - Blocks (fs.c): the free map, and `balloc` and `bfree`. A block has one value, as Bio and Log keep it.
--   Blocks/Bits is the arithmetic on a byte of the map, Blocks/Map one bit, Blocks/Alloc `balloc`.
-- - FileIo (file.c): `filestat`, and `fileread` and `filewrite` on an inode, over Inodes. FileIo/Rewritten is
--   what a write and what others leave of a file, and FileIo/Pieces the loop of `filewrite`, with one unit of fuel for each byte left and one more, enough since each
--   round writes a byte at least.
-- - Inodes (fs.c, fs.h): the blocks of an inode. Inodes/Slots says what a sound inode is, Inodes/Fill,
--   Inodes/Entry and Inodes/Map are `bmap`, Inodes/Read is `readi`, Inodes/Store, Inodes/Put,
--   Inodes/Update, Inodes/Write and Inodes/WriteCall are `writei`, Inodes/ReadBack both, Inodes/Free and
--   Inodes/Trunc are `itrunc`, and Inodes/Dinode is the inode on disk.
-- - Icache (fs.c, file.h): the inodes in memory and their counts. Icache/Scan is the loop of `iget`,
--   Icache/Handles, Icache/Calls and Icache/Shared any sequence of calls.
-- - Dirs (fs.c, fs.h): `namecmp`, `dirlookup` and `dirlink` over Inodes, Strings and Paths. Dirs/Names is
--   what the test of an entry says,
--   Dirs/Lookup the loop of `dirlookup`, Dirs/Link that of `dirlink`, each with one unit
--   of fuel for each entry and one more, Dirs/Added the new entry, and Dirs/LinkCall the whole of `dirlink`.
-- - Strings (string.c): functions on a memory of bytes, whose pointers wrap. Strings/Move is `memmove`
--   and `memset`, Strings/Copy the functions on strings.
--
-- The parts meet as in the code: `allocproc` takes its stack from the model of kalloc.c and `wait`
-- gives it back to it, the log writes blocks through Disk, the last `fileclose` says which pipe or inode
-- it lets go, `sys_close` does what it says to the pipe, and the pipe says which channels it wakes.
--
-- Numbers are natural numbers; where the code computes with 32 bits, the wrap-around is written out as
-- `% 2 ^ 32`, and a negative int is its bit pattern. Loops go by structural recursion on a list or on
-- the number of rounds. Some loops run on fuel: `freerange`, with one unit for each page below the end
-- of the range and one more, so one for each round; `strlen` and the loop over the names of a path,
-- for which one unit for each byte and one for the end are asked; `readi` and `writei`, with one unit
-- for each byte and one for the end; and `balloc`, with one for each block of the map and two more. `nproc` bounds the loops over the
-- process table.
--
-- Outside Locks a function is a critical section of the code, or the part of one up to a sleep. Parameters
-- stand for the address at which the kernel ends, for the devices that have functions in `devsw`, for `freevm`
-- of vm.c, for what a process does between two context switches, and for what others do while
-- `filewrite` does not hold the lock of the inode. The trap frame, the saved context, the open files and the current
-- directory of a process are left out of Proc; Fds has the open files of one process. The header block of the log is read as far as its count says,
-- which holds for the blocks that the kernel itself writes. The list of buffers through `next` and `prev`
-- is a list of their indices. Not modelled are the request queue and the ports of ide.c, which are
-- mostly hardware access; `ialloc` and `namex` of fs.c and the calls on paths, virtual memory and
-- the loading of programs, which are still to come; the entry from user space, the devices and the boot,
-- which are assembly and register access; and the user programs.
pub mod Prelude
pub mod Disk
pub mod Bio
pub mod Log
pub mod Kalloc
pub mod Pipe
pub mod Proc
pub mod Files
pub mod Locks
pub mod Paths
pub mod Strings
pub mod Syscall
pub mod Fds
pub mod Blocks
pub mod Inodes
pub mod Icache
pub mod FileIo
pub mod Dirs
