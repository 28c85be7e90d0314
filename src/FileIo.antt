-- ===== src/FileIo.antt =====
-- file.c: fileread, filewrite and filestat.
--
-- The inode of a file is its copy in memory, which the functions change under its sleep lock. What others do
-- while `filewrite` does not hold that lock is a parameter of its loop. Reading and writing a pipe is in
-- Pipe.
pub mod Rewritten
pub mod Pieces
mod Tests
use os_assignment.Prelude.{
  ℕ, zero, suc, ◌+◌, ◌-◌, ◌*◌, ◌/◌, ◌%◌, ◌^◌, min, Bool, true, false, not, ◌&&◌, List, ltb, leb,
  ◌==◌, if◌then◌else◌, length, take, drop, String, Option, none, some, Result, ok, panic, ◌>>=◌,
}
use os_assignment.Files.{File, fd_none, fd_pipe, fd_inode}
use os_assignment.Log.{max_op_blocks}
use os_assignment.Blocks.{Super, Fs}
use os_assignment.Inodes.{Inode, Outcome, failed, done, asks_device, readi, writei}

-- How many bytes `filewrite` writes in one transaction.
abbrev pub piece : ℕ
piece = (max_op_blocks - 1 - 1 - 2) / 2 * 512

-- `struct stat`.
pub record Stat : Type 0 where
  pub dev : ℕ
  pub ino : ℕ
  pub type : ℕ
  pub nlink : ℕ
  pub size : ℕ

pub stati : Inode → Stat
stati ip = record { dev = ip.dev; ino = ip.inum; type = ip.type; nlink = ip.nlink; size = ip.size }

pub filestat : File → Inode → Option Stat
filestat f ip = elim f.target [ fd_none ↦ none | fd_pipe p ↦ none | fd_inode i ↦ some (stati ip) ]

-- What a call does that is not on an inode: it returns -1, or it is a call on the pipe.
pub data Elsewhere : Type 0 where
  refused : Elsewhere
  on_pipe : ℕ → Elsewhere

-- The branch that `fileread` and `filewrite` take; the flag is `readable` or `writable`.
pub branch : File → Bool → String → Result (Option Elsewhere)
branch f allowed name = if not allowed then ok (some refused) else elim f.target [
  | fd_none ↦ panic name
  | fd_pipe p ↦ ok (some (on_pipe p))
  | fd_inode i ↦ ok none
]

-- The parameters are `sb`, the devices that have functions, and what their functions return for a read
-- and for a write.
module _ (sb : Super) (has : ℕ → Bool) (dev_read : ℕ → ℕ → ℕ) (dev_write : ℕ → List ℕ → ℕ) where
  -- The int that `readi` and `writei` return.
  abbrev pub read_count : Outcome (List ℕ) → ℕ → ℕ
  read_count failed n = 2 ^ 32 - 1
  read_count (done xs) n = length xs
  read_count (asks_device d) n = dev_read d n

  abbrev pub write_count : Outcome ℕ → List ℕ → ℕ
  write_count failed xs = 2 ^ 32 - 1
  write_count (done n) xs = n
  write_count (asks_device d) xs = dev_write d xs

  -- `f->off += r` where r > 0.
  abbrev pub advance : ℕ → ℕ → ℕ
  advance off r = if ltb 0 r && ltb r (2 ^ 31) then (off + r) % 2 ^ 32 else off

  -- `fileread` on an inode, with the offset behind it.
  pub read_inode : Fs → Inode → ℕ → ℕ → Result (Fs × Inode × ℕ × Outcome (List ℕ))
  read_inode fs ip off n =
      readi sb has fs ip off n >>= λ r. ok (r.0, r.1, advance off (read_count r.2 n), r.2)

  -- What others make of the disk, the inode and the offset while `filewrite` does not hold the lock of the
  -- inode, with this many bytes left: before its first `ilock`, and from each `iunlock` to the next `ilock`,
  -- with the `end_op` and `begin_op` between them. A parent or a child may share the file.
  module _ (others : ℕ → Fs × Inode × ℕ → Fs × Inode × ℕ) where
    -- The loop of `filewrite`, on fuel, with the bytes left; the flag says whether all were written.
    pub write_pieces : ℕ → Fs → Inode → ℕ → List ℕ → Result (Fs × Inode × ℕ × Bool)
    write_pieces zero fs ip off xs = panic "out of fuel"
    write_pieces (suc k) fs ip off xs =
        let n1 = min (length xs) piece in
        let s = others (length xs) (fs, ip, off) in
        let rest = writei sb has s.0 s.1 s.2 (take n1 xs) >>= λ r.
        let m = write_count r.2 (take n1 xs) in
        let more = write_pieces k r.0 r.1 (advance s.2 m) (drop n1 xs) in
        if leb (2 ^ 31) m
        then ok (r.0, r.1, s.2, false)
        else if m == n1
        then more
        else panic "short filewrite" in
        if length xs == 0 then ok (fs, ip, off, true) else rest

    -- `filewrite` on an inode: the count or -1, with the offset behind it.
    pub write_inode : Fs → Inode → ℕ → List ℕ → Result (Fs × Inode × ℕ × ℕ)
    write_inode fs ip off xs = write_pieces (length xs + 1) fs ip off xs >>= λ r.
        ok (r.0, r.1, r.2, if r.3 then length xs else 2 ^ 32 - 1)
