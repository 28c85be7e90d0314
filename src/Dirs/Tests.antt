-- ===== src/Dirs/Tests.antt =====
-- fs.c: a directory on a small disk. Block 2 is the free map, in which the first six blocks are in use, and
-- block 5 is the block of the directory: its first entry is free and its second names inode 3 "ab".
use os_assignment.Prelude.{
  ℕ, ◌<◌, ◌≡◌, ◌≢◌, ◌⊎◌, refl, arith, Bool, true, false, [], ◌==◌, if◌then◌else◌, Option, none,
  some, ok, panic,
}
use os_assignment.Blocks.{Super, Fs, bblock}
use os_assignment.Blocks.Map.{is_free}
use os_assignment.Inodes.{Inode}
use os_assignment.Inodes.Slots.{slot, content, Used, InodeOk, Foreign, Grown}
use os_assignment.Dirs.{dirlookup, dirlink}
use os_assignment.Dirs.Names.{Matches, entry}
use os_assignment.Dirs.Added.{Linked}
use os_assignment.Dirs.LinkCall.{dirlink-Linked}
use os_assignment.Dirs.Lookup.{Finds, dirlookup-Finds}

abbrev volume : Super
volume = record {
  size = 20;
  nblocks = 14;
  ninodes = 8;
  nlog = 0;
  logstart = 2;
  inodestart = 3;
  bmapstart = 2;
}

abbrev with_ab : Fs
with_ab = record {
  blocks = λ b i.
      if b == 2
      then (if i == 0 then 63 else 0)
      else if i == 16
      then 3
      else if i == 18
      then 97
      else if i == 19
      then 98
      else 0;
  logged = [];
}

abbrev root : Inode
root = record {
  dev = 1;
  inum = 1;
  type = 1;
  major = 0;
  minor = 0;
  nlink = 1;
  size = 32;
  addrs = λ i. if i == 0 then 5 else 0;
}

slot-root : (s : ℕ) → slot with_ab root s ≡ (if s == 0 then 5 else 0)
slot-root s = ground arith

in_use : (b : ℕ) → b < 20 → is_free volume with_ab b ≡ false → 2 ≢ b → Used volume with_ab b
in_use b l u ne = record { inside = l; taken = u; no_map = λ e l' q. ne (omega arith) }

root-InodeOk : InodeOk volume with_ab root
root-InodeOk = record {
  bytes = λ b i. ground arith;
  small = omega arith;
  apart = free_map;
  boot = refl;
  used = λ s l nz.
      let first : s ≡ 0 = ground (arith, slot-root s, nz) in
      rw first (in_use 5 (omega arith) refl (omega arith));
  distinct = λ s t l l' ne e. ground (arith, slot-root s, slot-root t, e, ne);
}
  where
    free_map : (c d : ℕ) → c < 20 → is_free volume with_ab c ≡ true → d < 20 → bblock volume d ≢ c
    free_map c d s e l same =
        let here : c ≡ 2 = omega arith in
        let bad : is_free volume with_ab 2 ≡ true = rw here at e in cc (bad)

abbrev no_device_has : ℕ → Bool
no_device_has d = false

abbrev ab : ℕ → ℕ
ab i = if i == 0 then 97 else if i == 1 then 98 else 0

dirlookup-Finds_example :
    (dirlookup volume no_device_has with_ab root ab ≡ panic "balloc: out of blocks")
    ⊎ ((f : Fs) × (dp : Inode) × (r : Option (ℕ × ℕ)) × (dirlookup volume no_device_has with_ab root
            ab
          ≡ ok (f, dp, r))
        × Grown volume with_ab root f dp
        × Finds (content with_ab root) ab 0 2 r)
dirlookup-Finds_example =
    dirlookup-Finds volume no_device_has with_ab root ab 2 root-InodeOk refl refl (omega arith)
      (λ a. ground arith)

root-Foreign : Foreign volume with_ab root 3
root-Foreign = record {
  is_used = in_use 3 (omega arith) refl (omega arith);
  elsewhere = λ s l e. ground (arith, slot-root s, e);
}

abbrev c_name : ℕ → ℕ
c_name i = if i == 0 then 99 else 0

dirlink-Linked_example :
    (dirlink volume no_device_has with_ab root c_name 4 ≡ panic "balloc: out of blocks")
    ⊎ (((i : ℕ) × (i < 2)
          × Matches c_name (entry (content with_ab root) i)
          × ((f' : Fs) × (dp' : Inode) × (dirlink volume no_device_has with_ab root c_name 4
                ≡ ok (f', dp', none))
              × Grown volume with_ab root f' dp'))
        ⊎ (((i : ℕ) → i < 2 → ¬ Matches c_name (entry (content with_ab root) i))
            × ((f' : Fs) × (dp' : Inode) × (i : ℕ) × (dirlink volume no_device_has with_ab root
                    c_name 4
                  ≡ ok (f', dp', some 0))
                × Linked volume with_ab root c_name 4 2 i f' dp')))
dirlink-Linked_example =
    dirlink-Linked volume no_device_has with_ab root c_name 4 2 root-InodeOk root-Foreign refl refl
      (omega arith) (λ a. ground arith) (omega arith) (omega arith)
