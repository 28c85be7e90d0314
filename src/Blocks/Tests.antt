-- ===== src/Blocks/Tests.antt =====
-- fs.c: the free map of a small file system. Block 2 is the map, and the first four blocks are in use.
use os_assignment.Prelude.{
  ℕ, ◌<◌, ◌≡◌, ◌≢◌, ◌⊎◌, refl, arith, true, false, [], Option, some, ◌==◌, if◌then◌else◌, ok, panic,
}
use os_assignment.Blocks.{Super, Fs, bblock, scan, balloc, bfree}
use os_assignment.Blocks.Map.{is_free, Bytes, Freed, bfree_lem}
use os_assignment.Blocks.Alloc.{Taken, balloc_lem}

abbrev small : Super
small = record {
  size = 20;
  nblocks = 17;
  ninodes = 8;
  nlog = 0;
  logstart = 2;
  inodestart = 3;
  bmapstart = 2;
}

abbrev disk : Fs
disk = record { blocks = λ b i. if b == 2 then (if i == 0 then 15 else 0) else 7; logged = [] }

disk-Bytes : Bytes disk
disk-Bytes b i = ground arith

disk_apart : (c d : ℕ) → c < 20 → is_free small disk c ≡ true → d < 20 → bblock small d ≢ c
disk_apart c d s e l same =
    let here : c ≡ 2 = omega arith in
    let bad : is_free small disk 2 ≡ true = rw here at e in cc (bad)

next_free : (b : ℕ) → Option ℕ
next_free b = scan small (disk.blocks b) 0 0 4096

next_free_runs : next_free 2 ≡ some 4
unfolding next_free scan
next_free_runs = refl

bfree_lem_example :
    ((is_free small disk 3 ≡ true) × (bfree small disk 3 ≡ panic "freeing free block"))
    ⊎ ((is_free small disk 3 ≡ false)
        × (f : Fs) × (bfree small disk 3 ≡ ok f)
        × Freed small disk 3 f)
bfree_lem_example = bfree_lem small disk 3 disk-Bytes

balloc_lem_example :
    ((balloc small disk ≡ panic "balloc: out of blocks")
      × ((d : ℕ) → d < 20 → is_free small disk d ≡ false))
    ⊎ ((c : ℕ) × (f : Fs) × (balloc small disk ≡ ok (f, c)) × Taken small disk c f)
balloc_lem_example = balloc_lem small disk disk-Bytes disk_apart
