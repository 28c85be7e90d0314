-- ===== src/Dirs.antt =====
-- fs.c: namecmp, dirlookup and dirlink.
--
-- A name is the bytes from its address on. The entry that a function reads into its local variable is
-- its number and its name, and where `namecmp` and `strncpy` use two strings of DIRSIZ bytes, they are put into
-- one memory, behind one another.
pub mod Names
pub mod Lookup
pub mod Link
pub mod Added
pub mod LinkCall
mod Tests
use os_assignment.Prelude.{
  ℕ, zero, suc, ◌+◌, ◌-◌, ◌*◌, ◌/◌, ◌%◌, ◌^◌, Bool, not, List, ◌∷◌, ltb, ◌==◌, if◌then◌else◌,
  length, get_or, String, Option, none, some, Result, ok, panic, ◌>>=◌,
}
use os_assignment.Strings.{Mem, strncmp, strncpy}
use os_assignment.Paths.{dirsiz}
use os_assignment.Blocks.{Super, Fs}
use os_assignment.Inodes.{Inode, t_dir, slice, Outcome, failed, done, asks_device, readi, writei}

-- `struct dirent`.
pub record Dirent : Type 0 where
  pub inum : ℕ
  pub name : ℕ → ℕ

abbrev pub dirent_size : ℕ
dirent_size = 16

abbrev pub dirent_of : List ℕ → Dirent
dirent_of xs = record {
  inum = get_or xs 0 0 + 256 * get_or xs 1 0;
  name = λ k. get_or xs (k + 2) 0;
}

abbrev pub joined : (ℕ → ℕ) → (ℕ → ℕ) → Mem
joined s t a = if ltb a dirsiz then s a else t (a - dirsiz)

pub namecmp : (ℕ → ℕ) → (ℕ → ℕ) → ℕ
namecmp s t = strncmp 0 dirsiz dirsiz (joined s t)

-- The bytes of an entry after `strncpy(de.name, name, DIRSIZ)` and `de.inum = inum`.
pub linked_entry : (ℕ → ℕ) → ℕ → List ℕ
linked_entry name inum =
    inum % 256 ∷ inum / 256 % 256 ∷ slice (strncpy 0 dirsiz dirsiz (joined (λ k. 0) name)) 0 dirsiz

-- The parameters are `sb` and the devices that have functions.
module _ (sb : Super) (has : ℕ → Bool) where
  -- What a whole entry is, or the panic; a directory is no device.
  abbrev pub whole : Fs → Inode → Outcome (List ℕ) → String → Result (Fs × Inode × Dirent)
  whole f dp failed name = panic name
  whole f dp (asks_device d) name = panic name
  whole f dp (done xs) name =
      if length xs == dirent_size then ok (f, dp, dirent_of xs) else panic name

  pub read_entry : Fs → Inode → ℕ → String → Result (Fs × Inode × Dirent)
  read_entry f dp off name = readi sb has f dp off dirent_size >>= λ r. whole r.0 r.1 r.2 name

  -- The loop of `dirlookup`, on fuel: the offset and the inode number of the entry.
  pub lookup_from : ℕ → Fs → Inode → ℕ → (ℕ → ℕ) → Result (Fs × Inode × Option (ℕ × ℕ))
  lookup_from zero f dp off name = panic "out of fuel"
  lookup_from (suc k) f dp off name =
      let rest = read_entry f dp off "dirlookup read" >>= λ r.
      let more = lookup_from k r.0 r.1 ((off + dirent_size) % 2 ^ 32) name in
      if r.2.inum == 0
      then more
      else if namecmp name r.2.name == 0
      then ok (r.0, r.1, some (off, r.2.inum))
      else more in
      if ltb off dp.size then rest else ok (f, dp, none)

  -- `dirlookup` calls `iget` with the device of the directory and the number that this returns.
  pub dirlookup : Fs → Inode → (ℕ → ℕ) → Result (Fs × Inode × Option (ℕ × ℕ))
  dirlookup f dp name =
      if not (dp.type == t_dir)
      then panic "dirlookup not DIR"
      else lookup_from (dp.size / dirent_size + 1) f dp 0 name

  -- The loop of `dirlink`: the offset at which it ends.
  pub free_entry_from : ℕ → Fs → Inode → ℕ → Result (Fs × Inode × ℕ)
  free_entry_from zero f dp off = panic "out of fuel"
  free_entry_from (suc k) f dp off =
      let rest = read_entry f dp off "dirlink read" >>= λ r.
      let more = free_entry_from k r.0 r.1 (off + dirent_size) in
      if r.2.inum == 0 then ok (r.0, r.1, off) else more in
      if ltb off dp.size then rest else ok (f, dp, off)

  abbrev pub was_linked : Fs → Inode → Outcome ℕ → Result (Fs × Inode × Option ℕ)
  was_linked f dp failed = panic "dirlink"
  was_linked f dp (asks_device d) = panic "dirlink"
  was_linked f dp (done n) = if n == dirent_size then ok (f, dp, some 0) else panic "dirlink"

  -- The result is 0, or `none` for -1.
  pub dirlink : Fs → Inode → (ℕ → ℕ) → ℕ → Result (Fs × Inode × Option ℕ)
  dirlink f dp name inum = dirlookup f dp name >>= λ r. elim r.2 [
    | some e ↦ ok (r.0, r.1, none)
    | none ↦ free_entry_from (r.1.size / dirent_size + 1) r.0 r.1 0 >>= λ s.
        writei sb has s.0 s.1 s.2 (linked_entry name inum) >>= λ w. was_linked w.0 w.1 w.2
  ]
