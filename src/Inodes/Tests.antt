-- ===== src/Inodes/Tests.antt =====
-- fs.c: an inode on a small disk. Block 2 is the free map, in which the first six blocks are in use, block
-- 3 has the inodes, and block 5 is the first block of inode 1.
use os_assignment.Prelude.{
  ℕ, ◌+◌, ◌-◌, ◌*◌, ◌^◌, ◌<◌, ◌≤◌, ◌≡◌, ◌≢◌, ◌⊎◌, refl, arith, min, Bool, true, false, List, [],
  ◌∷◌, ◌==◌, if◌then◌else◌, ok, panic,
}
use os_assignment.Blocks.{Super, Fs, bsize, bblock, put_block}
use os_assignment.Blocks.Map.{is_free}
use os_assignment.Inodes.{
  Inode, max_file, slice, splice, bmap, bmap_slot, write_from, readi, writei, failed, done, itrunc,
  get_dinode, put_dinode,
}
use os_assignment.Inodes.Slots.{slot, content, Used, InodeOk, Foreign, Grown}
use os_assignment.Inodes.Map.{Mapped, bmap-Mapped}
use os_assignment.Inodes.Read.{readi_lem}
use os_assignment.Inodes.WriteCall.{Written, writei_lem}
use os_assignment.Inodes.Trunc.{itrunc_lem}
use os_assignment.Inodes.Dinode.{Fits, SameDinode, get_dinode-put_dinode}
use os_assignment.Inodes.ReadBack.{readi-writei}

abbrev small : Super
small = record {
  size = 20;
  nblocks = 14;
  ninodes = 8;
  nlog = 0;
  logstart = 2;
  inodestart = 3;
  bmapstart = 2;
}

abbrev disk : Fs
disk = record { blocks = λ b i. if b == 2 then (if i == 0 then 63 else 0) else 7; logged = [] }

abbrev file : Inode
file = record {
  dev = 1;
  inum = 1;
  type = 2;
  major = 0;
  minor = 0;
  nlink = 1;
  size = 10;
  addrs = λ i. if i == 0 then 5 else 0;
}

slot-file : (s : ℕ) → slot disk file s ≡ (if s == 0 then 5 else 0)
slot-file s = ground arith

block_used : (b : ℕ) → b < 20 → is_free small disk b ≡ false → 2 ≢ b → Used small disk b
block_used b l u ne = record { inside = l; taken = u; no_map = λ e l' q. ne (omega arith) }

slot_only : (s : ℕ) → slot disk file s ≢ 0 → s ≡ 0
slot_only s nz = ground (arith, slot-file s, nz)

file-InodeOk : InodeOk small disk file
file-InodeOk = record {
  bytes = λ b i. ground arith;
  small = omega arith;
  apart = free_map;
  boot = refl;
  used = λ s l nz.
      let first : s ≡ 0 = slot_only s nz in
      rw first (block_used 5 (omega arith) refl (omega arith));
  distinct = λ s t l l' ne e. ground (arith, slot-file s, slot-file t, e, ne);
}
  where
    free_map : (c d : ℕ) → c < 20 → is_free small disk c ≡ true → d < 20 → bblock small d ≢ c
    free_map c d s e l same =
        let here : c ≡ 2 = omega arith in
        let bad : is_free small disk 2 ≡ true = rw here at e in cc (bad)

inodes-Foreign : Foreign small disk file 3
inodes-Foreign = record {
  is_used = block_used 3 (omega arith) refl (omega arith);
  elsewhere = λ s l e. ground (arith, slot-file s, e);
}

abbrev no_devices : ℕ → Bool
no_devices d = false

abbrev abc : List ℕ
abc = 97 ∷ 98 ∷ 99 ∷ []

abbrev with_abc : Fs
with_abc = put_block disk 5 (splice (disk.blocks 5) 4 abc)

abc_written : writei small no_devices disk file 4 abc ≡ ok (with_abc, file, done 3)
unfolding writei write_from bmap bmap_slot
abc_written = refl

readi-writei_example : readi small no_devices with_abc file 4 3 ≡ ok (with_abc, file, done abc)
readi-writei_example =
    readi-writei small no_devices disk with_abc file file 4 abc file-InodeOk inodes-Foreign
      (omega arith) (omega arith) (omega arith) (omega arith) abc_written

bmap-Mapped_example : Mapped small disk file 20 (bmap small disk file 20)
bmap-Mapped_example = bmap-Mapped small disk file 20 file-InodeOk (omega arith)

readi_lem_example :
    (((10 < 8) ⊎ (2 ^ 32 ≤ 8 + 5))
      × (readi small no_devices disk file 8 5 ≡ ok (disk, file, failed)))
    ⊎ ((8 ≤ 10)
        × (8 + 5 < 2 ^ 32)
        × ((readi small no_devices disk file 8 5 ≡ panic "balloc: out of blocks")
            ⊎ ((f : Fs) × (ip : Inode) × (readi small no_devices disk file 8 5
                  ≡ ok (f, ip, done (slice (content disk file) 8 (min 5 (10 - 8)))))
                × Grown small disk file f ip)))
readi_lem_example =
    readi_lem small no_devices disk file 8 5 file-InodeOk (omega arith) (omega arith) (omega arith)
      (omega arith)

writei_lem_example :
    (((10 < 8) ⊎ (max_file * bsize < 8 + 3))
      × (writei small no_devices disk file 8 abc ≡ ok (disk, file, failed)))
    ⊎ ((8 ≤ 10)
        × (8 + 3 ≤ max_file * bsize)
        × ((writei small no_devices disk file 8 abc ≡ panic "balloc: out of blocks")
            ⊎ ((f : Fs) × (ip : Inode) × (writei small no_devices disk file 8 abc
                  ≡ ok (f, ip, done 3))
                × Written small disk file 8 abc f ip)))
writei_lem_example =
    writei_lem small disk file 8 abc no_devices file-InodeOk inodes-Foreign (omega arith)
      (omega arith) (omega arith) (omega arith)

itrunc_lem_example :
    (f : Fs) × (ip : Inode) × (itrunc small disk file ≡ ok (f, ip))
    × (ip ≡ record file { addrs = ip.addrs; size = 0 })
    × ((k : ℕ) → k ≤ 12 → ip.addrs k ≡ 0)
    × ((s : ℕ) → s ≤ max_file → slot disk file s ≢ 0 → is_free small f (slot disk file s) ≡ true)
    × ((d : ℕ)
        → d < 20
        → ((s : ℕ) → s ≤ max_file → slot disk file s ≢ 0 → slot disk file s ≢ d)
        → is_free small f d ≡ is_free small disk d)
    × ((d : ℕ)
        → Foreign small disk file d
        → (is_free small f d ≡ false) × (3 ≢ d → f.blocks d ≡ disk.blocks d))
itrunc_lem_example = itrunc_lem small disk file file-InodeOk inodes-Foreign

file-Fits : Fits file
file-Fits = record {
  type_ = omega arith;
  major_ = omega arith;
  minor_ = omega arith;
  nlink_ = omega arith;
  size_ = omega arith;
  addrs_ = λ k l. ground arith;
}

get_dinode-put_dinode_example :
    SameDinode (get_dinode (put_dinode (disk.blocks 3) (64 * 1) file) (64 * 1) file) file
    × (◌≢◌ {A = ℕ} 1 2
        → SameDinode
            (get_dinode (put_dinode (disk.blocks 3) (64 * 1) file) (64 * 2) file)
            (get_dinode (disk.blocks 3) (64 * 2) file))
get_dinode-put_dinode_example = get_dinode-put_dinode (disk.blocks 3) 1 2 file file file-Fits
