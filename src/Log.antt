-- ===== src/Log.antt =====
-- log.c: the write-ahead log of the file system, its state and its operations in the file's order.
-- Each operation takes the log and the machine, and returns what it changes.
mod Tests
pub mod Header
pub mod Install
pub mod Crash
pub mod Commit
pub mod Txn
pub mod Reserve
pub mod Full
use os_assignment.Prelude.{
  ℕ, zero, suc, ◌+◌, ◌-◌, ◌*◌, ◌%◌, ◌^◌, List, [], ◌∷◌, Bool, true, false, Option, none, some, ◌&&◌,
  ◌||◌, ltb, leb, ◌==◌, if◌then◌else◌, length, get_or, set, Result, ok, panic, ◌>>=◌,
}
use os_assignment.Disk.{Machine, Block, store, bwrite, mark_dirty}

abbrev pub max_op_blocks : ℕ
max_op_blocks = 10

abbrev pub log_size : ℕ
log_size = 30

-- `struct log`. `blocks` is `lh.block[0..lh.n)`; what stands in the array behind `lh.n` is never read.
-- `outstanding` is the bit pattern of an int.
pub record Log : Type 0 where
  pub start : ℕ
  pub size : ℕ
  pub outstanding : ℕ
  pub committing : Bool
  pub blocks : List ℕ

-- `for (i = 0; i < n; i++) hb->block[i] = log.lh.block[i]`: `block[i]` is word `i + 1`.
pub put_words : Block → ℕ → List ℕ → Block
put_words blk i [] = blk
put_words blk i (b ∷ bs) = put_words (set blk i b) (i + 1) bs

pub put_head : Block → List ℕ → Block
put_head blk bs = put_words (set blk 0 (length bs)) 1 bs

pub get_words : Block → ℕ → ℕ → List ℕ
get_words blk i zero = []
get_words blk i (suc n) = get_or blk i 0 ∷ get_words blk (i + 1) n

pub get_head : Block → List ℕ
get_head blk = get_words blk 1 (get_or blk 0 0)

-- `install_trans`, from `tail` on: log block `start + tail + 1` goes to its home.
pub install_from : ℕ → ℕ → List ℕ → Machine → Machine
install_from start tail [] m = m
install_from start tail (b ∷ bs) m =
    install_from start (tail + 1) bs (bwrite (store m b (m.cache (start + tail + 1))) b)

pub install_trans : Log → Machine → Machine
install_trans l m = install_from l.start 0 l.blocks m

-- The count is taken as the kernel writes it, at most LOGSIZE.
pub read_head : Log → Machine → Log
read_head l m = record l { blocks = get_head (m.cache l.start) }

pub write_head : Log → Machine → Machine
write_head l m = bwrite (store m l.start (put_head (m.cache l.start) l.blocks)) l.start

pub recover_from_log : Log → Machine → Log × Machine
recover_from_log l m =
    let l1 = read_head l m in
    let m1 = install_trans l1 m in let l2 = record l1 { blocks = [] } in (l2, write_head l2 m1)

-- The superblock gives `start` and `size`.
pub initlog : ℕ → ℕ → Machine → Log × Machine
initlog start size m =
    recover_from_log
      (record { start = start; size = size; outstanding = 0; committing = false; blocks = [] }) m

-- One pass of the loop of `begin_op`: `none` is `sleep(&log, &log.lock)`, after which it runs again.
-- The int comparison is made on the bit pattern.
pub begin_op : Log → Option Log
begin_op l =
    let need = (length l.blocks + (l.outstanding + 1) * max_op_blocks) % 2 ^ 32 in
    if l.committing
    then none
    else if ltb need (2 ^ 31) && ltb log_size need
    then none
    else some (record l { outstanding = (l.outstanding + 1) % 2 ^ 32 })

-- `write_log`, from `tail` on: the cached block goes to log block `start + tail + 1`.
pub write_log_from : ℕ → ℕ → List ℕ → Machine → Machine
write_log_from start tail [] m = m
write_log_from start tail (b ∷ bs) m =
    write_log_from start (tail + 1) bs
      (bwrite (store m (start + tail + 1) (m.cache b)) (start + tail + 1))

pub write_log : Log → Machine → Machine
write_log l m = write_log_from l.start 0 l.blocks m

pub commit : Log → Machine → Log × Machine
commit l m =
    if ltb 0 (length l.blocks)
    then (let m1 = write_log l m in
        let m2 = write_head l m1 in
        let m3 = install_trans l m2 in let l' = record l { blocks = [] } in (l', write_head l' m3))
    else (l, m)

-- The first critical section of `end_op`; the flag is `do_commit`. Both branches end in a wakeup of
-- those who sleep on the log, the committing one after the commit.
pub end_op_enter : Log → Result (Log × Bool)
end_op_enter l =
    let left = (l.outstanding + 2 ^ 32 - 1) % 2 ^ 32 in
    if l.committing
    then panic "log.committing"
    else if left == 0
    then ok (record l { outstanding = left; committing = true }, true)
    else ok (record l { outstanding = left }, false)

-- What `end_op` does with `do_commit`: the commit, then the second critical section.
pub end_op_finish : Log × Bool → Machine → Log × Machine
end_op_finish (l, true) m = let (l', m') = commit l m in (record l' { committing = false }, m')
end_op_finish (l, false) m = (l, m)

pub end_op : Log → Machine → Result (Log × Machine)
end_op l m = end_op_enter l >>= λ r. ok (end_op_finish r m)

-- The loop of `log_write` and the store behind it: an entry that is there already is kept.
pub absorb : List ℕ → ℕ → List ℕ
absorb [] b = b ∷ []
absorb (x ∷ xs) b = if x == b then x ∷ xs else x ∷ absorb xs b

pub log_write : Log → Machine → ℕ → Result (Log × Machine)
log_write l m b =
    if leb log_size (length l.blocks) || leb (l.size - 1) (length l.blocks)
    then panic "too big a transaction"
    else if l.outstanding == 0 || leb (2 ^ 31) l.outstanding
    then panic "log_write outside of trans"
    else ok (record l { blocks = absorb l.blocks b }, mark_dirty m b)
