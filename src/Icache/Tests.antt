-- ===== src/Icache/Tests.antt =====
-- fs.c: the inode cache with two entries.
use os_assignment.Prelude.{
  ℕ, zero, suc, ◌≡◌, refl, arith, List, [], ◌∷◌, false, some, get_elem?, ok,
}
use os_assignment.Blocks.{Super, Fs}
use os_assignment.Inodes.{Inode}
use os_assignment.Icache.{Entry, scan, iget}
use os_assignment.Icache.Handles.{Sys, here, next, gets}
use os_assignment.Icache.Shared.{Safe, inodes-Safe}

abbrev layout : Super
layout = record {
  size = 20;
  nblocks = 14;
  ninodes = 8;
  nlog = 0;
  logstart = 2;
  inodestart = 3;
  bmapstart = 2;
}

abbrev disk : Fs
disk = record { blocks = λ b i. 0; logged = [] }

abbrev blank : Inode
blank = record {
  dev = 0;
  inum = 0;
  type = 0;
  major = 0;
  minor = 0;
  nlink = 0;
  size = 0;
  addrs = λ i. 0;
}

abbrev unused : Entry
unused = record { inode = blank; ref = 0; valid = false }

abbrev root : Entry
root = record { inode = record blank { dev = 1; inum = 1 }; ref = 1; valid = false }

abbrev cache : List Entry
cache = unused ∷ unused ∷ []

abbrev with_root : Sys
with_root = record { fs = disk; cache = root ∷ unused ∷ []; handles = 0 ∷ [] }

got_root : iget cache 1 1 ≡ ok (root ∷ unused ∷ [], 0)
unfolding iget scan
got_root = refl

cache_unused : (j : ℕ) (e : Entry) → get_elem? cache j ≡ some e → e.ref ≡ 0
cache_unused zero e q = let same : unused ≡ e = cc (q) in ground (arith, same)
cache_unused (suc zero) e q = let same : unused ≡ e = cc (q) in ground (arith, same)
cache_unused (suc (suc j)) e q = cc (q)

inodes-Safe_example : Safe with_root
inodes-Safe_example =
    inodes-Safe layout disk cache cache_unused
      (next here (gets 1 1 0 (root ∷ unused ∷ []) (omega arith) got_root refl))
