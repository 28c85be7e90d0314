-- ===== src/Bio.antt =====
-- bio.c: the buffer cache, on the disk in memory of memide.c.
--
-- A pointer to a buffer is its index. `order` is the list through `next`, from `head.next` on; read
-- backwards it is the one through `prev`. A buffer's sleep lock is the pid of its holder.
pub mod Pick
pub mod Coherent
pub mod Held
pub mod Calls
pub mod Refine
mod Tests
use os_assignment.Prelude.{
  ℕ, ◌+◌, ◌-◌, ◌%◌, ◌^◌, List, [], ◌∷◌, ◌++◌, Bool, true, false, not, Option, none, some, ◌&&◌, leb,
  ◌==◌, if◌then◌else◌, update, Result, ok, panic,
}
use os_assignment.Disk.{Block}

pub record Buf : Type 0 where
  pub valid : Bool
  pub dirty : Bool
  pub dev : ℕ
  pub blockno : ℕ
  pub lock : Option ℕ
  pub refcnt : ℕ
  pub content : Block

pub record Cache : Type 0 where
  pub buf : ℕ → Buf
  pub order : List ℕ
  pub disk : ℕ → Block
  pub disksize : ℕ

abbrev pub set_buf : Cache → ℕ → Buf → Cache
set_buf c i b = record c { buf = update c.buf i b }

-- The first loop of `bget`, over the list; and the second, over the list read backwards.
pub find_cached : (ℕ → Buf) → ℕ → ℕ → List ℕ → Option ℕ
find_cached buf dev blockno [] = none
find_cached buf dev blockno (i ∷ is) =
    if (buf i).dev == dev && (buf i).blockno == blockno
    then some i
    else find_cached buf dev blockno is

pub find_unused : (ℕ → Buf) → List ℕ → Option ℕ
find_unused buf [] = none
find_unused buf (i ∷ is) =
    if (buf i).refcnt == 0 && not (buf i).dirty then some i else find_unused buf is

abbrev pub backwards : List ℕ → List ℕ
backwards [] = []
backwards (i ∷ is) = backwards is ++ (i ∷ [])

abbrev pub recycled : ℕ → ℕ → Buf → Buf
recycled dev blockno b = record b {
  dev = dev;
  blockno = blockno;
  valid = false;
  dirty = false;
  refcnt = 1;
}

-- `bget` up to the call of `acquiresleep`.
pub bget : Cache → ℕ → ℕ → Result (Cache × ℕ)
bget c dev blockno = elim (find_cached c.buf dev blockno c.order) [
  | some i ↦ ok (set_buf c i (record (c.buf i) { refcnt = ((c.buf i).refcnt + 1) % 2 ^ 32 }), i)
  | none ↦ elim (find_unused c.buf (backwards c.order)) [
    | some i ↦ ok (set_buf c i (recycled dev blockno (c.buf i)), i)
    | none ↦ panic "bget: no buffers"
  ]
]

abbrev pub holdingsleep : ℕ → Buf → Bool
holdingsleep self b = elim b.lock [ none ↦ false | some pid ↦ pid == self ]

-- `iderw`: a dirty buffer goes to the disk, and any other comes from it.
pub iderw : ℕ → Cache → ℕ → Result Cache
iderw self c i =
    let b = c.buf i in
    if not (holdingsleep self b)
    then panic "iderw: buf not locked"
    else if b.valid && not b.dirty
    then panic "iderw: nothing to do"
    else if not (b.dev == 1)
    then panic "iderw: request not for disk 1"
    else if leb c.disksize b.blockno
    then panic "iderw: block out of range"
    else if b.dirty
    then ok (record c {
      buf = update c.buf i (record b { dirty = false; valid = true });
      disk = update c.disk b.blockno b.content;
    })
    else ok (set_buf c i (record b { content = c.disk b.blockno; valid = true }))

-- `bread` from the call of `acquiresleep` in `bget` on; `none` is a sleep, after which it runs again.
pub bread_locked : ℕ → Cache → ℕ → Option (Result Cache)
bread_locked self c i = elim (c.buf i).lock [
  | some pid ↦ none
  | none ↦
      let c' = set_buf c i (record (c.buf i) { lock = some self }) in
      some (if not (c.buf i).valid then iderw self c' i else ok c')
]

pub bwrite : ℕ → Cache → ℕ → Result Cache
bwrite self c i =
    if not (holdingsleep self (c.buf i))
    then panic "bwrite"
    else iderw self (set_buf c i (record (c.buf i) { dirty = true })) i

pub without : ℕ → List ℕ → List ℕ
without i [] = []
without i (j ∷ js) = if i == j then js else j ∷ without i js

pub brelse : ℕ → Cache → ℕ → Result Cache
brelse self c i =
    let left = ((c.buf i).refcnt + 2 ^ 32 - 1) % 2 ^ 32 in
    let c' = set_buf c i (record (c.buf i) { lock = none; refcnt = left }) in
    if not (holdingsleep self (c.buf i))
    then panic "brelse"
    else ok (if left == 0 then record c' { order = i ∷ without i c.order } else c')

-- `binit`: the loop puts each buffer in front of those before it.
pub binit_order : List ℕ → List ℕ → List ℕ
binit_order [] order = order
binit_order (i ∷ is) order = binit_order is (i ∷ order)
