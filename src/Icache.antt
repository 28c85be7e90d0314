-- ===== src/Icache.antt =====
-- fs.c, file.h: the cache of inodes in memory, and its reference counts.
--
-- A pointer to an inode is its index. Counts are bit patterns of ints. `iget` and `idup` run under
-- `icache.lock`; `ilock` and `iput` are what runs once the sleep lock of the inode is held.
pub mod Scan
pub mod Handles
pub mod Calls
pub mod Shared
mod Tests
use os_assignment.Prelude.{
  ℕ, ◌+◌, ◌-◌, ◌*◌, ◌%◌, ◌^◌, List, [], ◌∷◌, Bool, true, false, not, Option, none, some, ◌&&◌, ◌||◌,
  ltb, ◌==◌, if◌then◌else◌, get_elem?, set, Result, ok, panic, ◌>>=◌,
}
use os_assignment.Blocks.{Super, Fs}
use os_assignment.Inodes.{Inode, get_dinode, iblock, ipb, itrunc, iupdate}

pub record Entry : Type 0 where
  pub inode : Inode
  pub ref : ℕ
  pub valid : Bool

-- `ip->ref > 0` and `ip->ref < 1`, as ints.
abbrev pub referenced : Entry → Bool
referenced e = ltb 0 e.ref && ltb e.ref (2 ^ 31)

abbrev pub matches : ℕ → ℕ → Entry → Bool
matches dev inum e = referenced e && e.inode.dev == dev && e.inode.inum == inum

-- What the loop of `iget` comes to: the inode, or no such inode and an empty slot if there is one.
pub data Found : Type 0 where
  hit : ℕ → Found
  missing : Option ℕ → Found

abbrev pub first_empty : Option ℕ → ℕ → Entry → Option ℕ
first_empty (some k) i e = some k
first_empty none i e = if e.ref == 0 then some i else none

pub scan : ℕ → ℕ → ℕ → List Entry → Option ℕ → Found
scan dev inum i [] empty = missing empty
scan dev inum i (e ∷ es) empty =
    let rest = scan dev inum (i + 1) es (first_empty empty i e) in
    if matches dev inum e then hit i else rest

abbrev pub add_ref : Entry → Entry
add_ref e = record e { ref = (e.ref + 1) % 2 ^ 32 }

abbrev pub recycled : ℕ → ℕ → Entry → Entry
recycled dev inum e = record e {
  inode = record (e.inode) { dev = dev; inum = inum };
  ref = 1;
  valid = false;
}

abbrev pub amend : List Entry → ℕ → (Entry → Entry) → List Entry
amend es i h = elim (get_elem? es i) [ none ↦ es | some e ↦ set es i (h e) ]

-- `iget` after its loop.
abbrev pub take_found : ℕ → ℕ → List Entry → Found → Result (List Entry × ℕ)
take_found dev inum es (hit i) = ok (amend es i add_ref, i)
take_found dev inum es (missing none) = panic "iget: no inodes"
take_found dev inum es (missing (some i)) = ok (amend es i (recycled dev inum), i)

pub iget : List Entry → ℕ → ℕ → Result (List Entry × ℕ)
iget es dev inum = take_found dev inum es (scan dev inum 0 es none)

pub idup : List Entry → ℕ → List Entry
idup es i = amend es i add_ref

-- The parameter is `sb`.
module _ (sb : Super) where
  -- The inode as `ilock` loads it.
  abbrev pub loaded : Fs → Inode → Inode
  loaded f ip = get_dinode (f.blocks (iblock sb ip.inum)) (ip.inum % ipb * 64) ip

  abbrev pub load : Fs → List Entry → ℕ → Entry → Result (List Entry)
  load f es i e =
      let ip = loaded f e.inode in
      if e.valid
      then ok es
      else if ip.type == 0
      then panic "ilock: no type"
      else ok (set es i (record e { inode = ip; valid = true }))

  pub ilock : Fs → List Entry → ℕ → Result (List Entry)
  ilock f es i = elim (get_elem? es i) [
    | none ↦ panic "ilock"
    | some e ↦ if not (referenced e) then panic "ilock" else load f es i e
  ]

  -- The flag says whether the process holds the sleep lock, which the call releases.
  pub iunlock : List Entry → ℕ → Bool → Result Bool
  iunlock es i holding = elim (get_elem? es i) [
    | none ↦ panic "iunlock"
    | some e ↦ if not holding || not (referenced e) then panic "iunlock" else ok false
  ]

  -- The part of `iput` for an inode without links and without other references.
  pub discard : Fs → Entry → Result (Fs × Entry)
  discard f e =
      if e.valid && e.inode.nlink == 0 && e.ref == 1
      then (itrunc sb f e.inode >>= λ r.
          let ip = record r.1 { type = 0 } in
          ok (iupdate sb r.0 ip, record e { inode = ip; valid = false }))
      else ok (f, e)

  -- A pointer that is not into the table does not occur; its result is a panic here.
  pub iput : Fs → List Entry → ℕ → Result (Fs × List Entry)
  iput f es i = elim (get_elem? es i) [
    | none ↦ panic "no inode"
    | some e ↦ discard f e >>= λ r.
        ok (r.0, set es i (record r.1 { ref = (r.1.ref + 2 ^ 32 - 1) % 2 ^ 32 }))
  ]
