-- ===== src/FileIo/Tests.antt =====
-- file.c: a write on a small disk. Block 2 is the free map, in which the first six blocks are in use, block
-- 3 has the inodes, and block 5 is the first block of inode 1.
use os_assignment.Prelude.{
  ℕ, ◌<◌, ◌≡◌, ◌≢◌, ◌⊎◌, refl, arith, Bool, true, false, List, [], ◌∷◌, ◌==◌, if◌then◌else◌, ok,
  panic,
}
use os_assignment.Blocks.{Super, Fs, bblock}
use os_assignment.Blocks.Map.{is_free}
use os_assignment.Inodes.{Inode, writei, done}
use os_assignment.Inodes.Slots.{slot, Used, InodeOk, Foreign}
use os_assignment.FileIo.{write_inode}
use os_assignment.FileIo.Rewritten.{LeaveFile, Rewritten, SameFile}
use os_assignment.FileIo.Pieces.{write_inode-Rewritten}

abbrev tiny : Super
tiny = record {
  size = 20;
  nblocks = 14;
  ninodes = 8;
  nlog = 0;
  logstart = 2;
  inodestart = 3;
  bmapstart = 2;
}

abbrev store : Fs
store = record { blocks = λ b i. if b == 2 then (if i == 0 then 63 else 0) else 7; logged = [] }

abbrev node : Inode
node = record {
  dev = 1;
  inum = 1;
  type = 2;
  major = 0;
  minor = 0;
  nlink = 1;
  size = 10;
  addrs = λ i. if i == 0 then 5 else 0;
}

slot-node : (s : ℕ) → slot store node s ≡ (if s == 0 then 5 else 0)
slot-node s = ground arith

in_use : (b : ℕ) → b < 20 → is_free tiny store b ≡ false → 2 ≢ b → Used tiny store b
in_use b l u ne = record { inside = l; taken = u; no_map = λ e l' q. ne (omega arith) }

node-InodeOk : InodeOk tiny store node
node-InodeOk = record {
  bytes = λ b i. ground arith;
  small = omega arith;
  apart = free_map;
  boot = refl;
  used = λ s l nz.
      let first : s ≡ 0 = ground (arith, slot-node s, nz) in
      rw first (in_use 5 (omega arith) refl (omega arith));
  distinct = λ s t l l' ne e. ground (arith, slot-node s, slot-node t, e, ne);
}
  where
    free_map : (c d : ℕ) → c < 20 → is_free tiny store c ≡ true → d < 20 → bblock tiny d ≢ c
    free_map c d s e l same =
        let here : c ≡ 2 = omega arith in
        let bad : is_free tiny store 2 ≡ true = rw here at e in cc (bad)

table-Foreign : Foreign tiny store node 3
table-Foreign = record {
  is_used = in_use 3 (omega arith) refl (omega arith);
  elsewhere = λ s l e. ground (arith, slot-node s, e);
}

abbrev devices : ℕ → Bool
devices d = false

abbrev device_read : ℕ → ℕ → ℕ
device_read d n = 0

abbrev device_write : ℕ → List ℕ → ℕ
device_write d xs = 0

abbrev bytes : List ℕ
bytes = 97 ∷ 98 ∷ 99 ∷ []

-- Between the pieces the log is emptied.
abbrev committed : ℕ → Fs × Inode × ℕ → Fs × Inode × ℕ
committed n s = (record (s.0) { logged = [] }, s.1, s.2)

committed-LeaveFile : LeaveFile tiny committed
committed-LeaveFile n s o out = record {
  okay = record {
    bytes = o.bytes;
    small = o.small;
    apart = o.apart;
    boot = o.boot;
    used = λ t l nz.
        let w = o.used t l nz in record { inside = w.inside; taken = w.taken; no_map = w.no_map };
    distinct = o.distinct;
  };
  home = record {
    is_used =
        (let w = out.is_used in record { inside = w.inside; taken = w.taken; no_map = w.no_map });
    elsewhere = out.elsewhere;
  };
  same_bytes = λ q b. refl;
  same_fields = refl;
  same_off = refl;
}

write_inode-Rewritten_example :
    (write_inode tiny devices device_read device_write committed store node 8 bytes
      ≡ panic "balloc: out of blocks")
    ⊎ ((f : Fs) × (ip : Inode) × (write_inode tiny devices device_read device_write committed store
            node 8 bytes
          ≡ ok (f, ip, 11, 3))
        × Rewritten tiny store node 8 bytes f ip
        × ((g : Fs) (jp : Inode) (n : ℕ)
            → writei tiny devices store node 8 bytes ≡ ok (g, jp, done n)
            → (n ≡ 3) × SameFile f ip g jp))
write_inode-Rewritten_example =
    write_inode-Rewritten tiny devices device_read device_write committed store node 8 bytes
      node-InodeOk table-Foreign (omega arith) (omega arith) (omega arith) (omega arith)
      committed-LeaveFile
