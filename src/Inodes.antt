-- ===== src/Inodes.antt =====
-- fs.c, fs.h: the blocks of an inode, and its contents.
--
-- An inode here is the copy in memory; a short or an int that is negative is its bit pattern. Memory of
-- the caller is a list of bytes.
pub mod Words
pub mod Slots
pub mod Fill
pub mod Entry
pub mod Map
pub mod Read
pub mod Put
pub mod Store
pub mod Update
pub mod Write
pub mod WriteCall
pub mod ReadBack
pub mod Free
pub mod Trunc
pub mod Same
pub mod Dinode
mod Tests
use os_assignment.Prelude.{
  ℕ, zero, suc, ◌+◌, ◌-◌, ◌*◌, ◌/◌, ◌%◌, ◌^◌, min, Bool, not, ◌&&◌, ◌||◌, List, [], ◌∷◌, ◌++◌, ltb,
  leb, ◌==◌, if◌then◌else◌, length, take, drop, update, Result, ok, panic, ◌>>=◌,
}
use os_assignment.Blocks.{Super, Fs, bsize, put_block, balloc, bfree}

abbrev pub ndirect : ℕ
ndirect = 12

abbrev pub nindirect : ℕ
nindirect = 128

abbrev pub max_file : ℕ
max_file = 140

abbrev pub ndev : ℕ
ndev = 10

abbrev pub t_dir : ℕ
t_dir = 1

abbrev pub t_dev : ℕ
t_dev = 3

-- `struct inode`, but for its lock and its count; `addrs` has ndirect + 1 entries.
pub record Inode : Type 0 where
  pub dev : ℕ
  pub inum : ℕ
  pub type : ℕ
  pub major : ℕ
  pub minor : ℕ
  pub nlink : ℕ
  pub size : ℕ
  pub addrs : ℕ → ℕ

-- The bytes of a short and of a uint in a block, the low byte first.
abbrev pub byte_of : ℕ → ℕ → ℕ
byte_of x k = x / 256 ^ k % 256

abbrev pub get_short : (ℕ → ℕ) → ℕ → ℕ
get_short bytes i = bytes i + 256 * bytes (i + 1)

abbrev pub get_word : (ℕ → ℕ) → ℕ → ℕ
get_word bytes i = bytes i + 256 * bytes (i + 1) + 65536 * bytes (i + 2) + 16777216 * bytes (i + 3)

abbrev pub put_word : (ℕ → ℕ) → ℕ → ℕ → ℕ → ℕ
put_word bytes i x j = if leb i j && ltb j (i + 4) then byte_of x (j - i) else bytes j

-- Byte `k` of a `struct dinode` with the fields of an inode.
abbrev pub dinode_byte : Inode → ℕ → ℕ
dinode_byte ip k =
    if ltb k 2
    then byte_of ip.type k
    else if ltb k 4
    then byte_of ip.major (k - 2)
    else if ltb k 6
    then byte_of ip.minor (k - 4)
    else if ltb k 8
    then byte_of ip.nlink (k - 6)
    else if ltb k 12
    then byte_of ip.size (k - 8)
    else byte_of (ip.addrs ((k - 12) / 4)) ((k - 12) % 4)

-- The copies of the fields in `iupdate` and in `ilock`, at the place of the inode in its block.
abbrev pub put_dinode : (ℕ → ℕ) → ℕ → Inode → ℕ → ℕ
put_dinode bytes i ip j = if leb i j && ltb j (i + 64) then dinode_byte ip (j - i) else bytes j

abbrev pub get_dinode : (ℕ → ℕ) → ℕ → Inode → Inode
get_dinode bytes i ip = record ip {
  type = get_short bytes i;
  major = get_short bytes (i + 2);
  minor = get_short bytes (i + 4);
  nlink = get_short bytes (i + 6);
  size = get_word bytes (i + 8);
  addrs = λ k. get_word bytes (i + 12 + 4 * k);
}

-- Inodes per block.
abbrev pub ipb : ℕ
ipb = 8

-- Copies from and to the bytes of a block.
abbrev pub slice : (ℕ → ℕ) → ℕ → ℕ → List ℕ
slice bytes i zero = []
slice bytes i (suc n) = bytes i ∷ slice bytes (i + 1) n

abbrev pub splice : (ℕ → ℕ) → ℕ → List ℕ → ℕ → ℕ
splice bytes i [] = bytes
splice bytes i (x ∷ xs) = splice (update bytes i x) (i + 1) xs

-- What `readi` and `writei` return: -1, the bytes or the count, or what the device's function gives.
pub data Outcome {ℓ} (A : Type ℓ) : Type ℓ where
  failed : Outcome A
  done : A → Outcome A
  asks_device : ℕ → Outcome A

-- The first parameter is `sb`.
module _ (sb : Super) where
  abbrev pub iblock : ℕ → ℕ
  iblock inum = inum / ipb + sb.inodestart

  pub iupdate : Fs → Inode → Fs
  iupdate f ip =
      let b = iblock ip.inum in put_block f b (put_dinode (f.blocks b) (ip.inum % ipb * 64) ip)

  -- The direct case of `bmap`, and the allocation of the indirect block with the same code.
  pub bmap_slot : Fs → Inode → ℕ → Result (Fs × Inode × ℕ)
  bmap_slot f ip i =
      if ip.addrs i == 0
      then (balloc sb f >>= λ r. ok (r.0, record ip { addrs = update ip.addrs i r.1 }, r.1))
      else ok (f, ip, ip.addrs i)

  -- The entry `i` of the indirect block `addr`.
  pub bmap_entry : Fs → Inode → ℕ → ℕ → Result (Fs × Inode × ℕ)
  bmap_entry f ip addr i =
      let a = get_word (f.blocks addr) (4 * i) in
      if a == 0
      then (balloc sb f >>= λ r.
          ok (put_block r.0 addr (put_word (r.0.blocks addr) (4 * i) r.1), ip, r.1))
      else ok (f, ip, a)

  pub bmap : Fs → Inode → ℕ → Result (Fs × Inode × ℕ)
  bmap f ip bn =
      if ltb bn ndirect
      then bmap_slot f ip bn
      else if ltb (bn - ndirect) nindirect
      then (bmap_slot f ip ndirect >>= λ r. bmap_entry r.0 r.1 r.2 (bn - ndirect))
      else panic "bmap: out of range"

  -- A round of each loop of `itrunc`, over the direct blocks and over the indirect block `a`.
  pub free_direct : Fs → Inode → ℕ → Result (Fs × Inode)
  free_direct f ip i =
      if ip.addrs i == 0
      then ok (f, ip)
      else (bfree sb f (ip.addrs i) >>= λ f'. ok (f', record ip { addrs = update ip.addrs i 0 }))

  pub free_entry : Fs → (ℕ → ℕ) → ℕ → Result Fs
  free_entry f a j = if get_word a (4 * j) == 0 then ok f else bfree sb f (get_word a (4 * j))

  -- The loops, for `n` rounds.
  pub trunc_direct : ℕ → ℕ → Fs → Inode → Result (Fs × Inode)
  trunc_direct zero i f ip = ok (f, ip)
  trunc_direct (suc n) i f ip = free_direct f ip i >>= λ r. trunc_direct n (i + 1) r.0 r.1

  pub trunc_entries : ℕ → ℕ → (ℕ → ℕ) → Fs → Result Fs
  trunc_entries zero j a f = ok f
  trunc_entries (suc n) j a f = free_entry f a j >>= λ f'. trunc_entries n (j + 1) a f'

  pub trunc_indirect : Fs → Inode → Result (Fs × Inode)
  trunc_indirect f ip =
      let addr = ip.addrs ndirect in
      if addr == 0
      then ok (f, ip)
      else (trunc_entries nindirect 0 (f.blocks addr) f >>= λ f'.
          bfree sb f' addr >>= λ f''. ok (f'', record ip { addrs = update ip.addrs ndirect 0 }))

  pub itrunc : Fs → Inode → Result (Fs × Inode)
  itrunc f ip = trunc_direct ndirect 0 f ip >>= λ r. trunc_indirect r.0 r.1 >>= λ r'.
      let ip' = record r'.1 { size = 0 } in ok (iupdate r'.0 ip', ip')

  -- The loop of `readi`, on fuel, with `n` bytes left.
  pub read_from : ℕ → Fs → Inode → ℕ → ℕ → Result (Fs × Inode × List ℕ)
  read_from zero f ip off n = panic "out of fuel"
  read_from (suc k) f ip off n =
      let m = min n (bsize - off % bsize) in
      let rest = bmap f ip (off / bsize) >>= λ r. read_from k r.0 r.1 (off + m) (n - m) >>= λ r'.
      ok (r'.0, r'.1, slice (r.0.blocks r.2) (off % bsize) m ++ r'.2) in
      if n == 0 then ok (f, ip, []) else rest

  -- The loop of `writei`, on fuel, with the bytes left.
  pub write_from : ℕ → Fs → Inode → ℕ → List ℕ → Result (Fs × Inode)
  write_from zero f ip off xs = panic "out of fuel"
  write_from (suc k) f ip off xs =
      let m = min (length xs) (bsize - off % bsize) in
      let rest = bmap f ip (off / bsize) >>= λ r.
      write_from k (put_block r.0 r.2 (splice (r.0.blocks r.2) (off % bsize) (take m xs))) r.1
        (off + m) (drop m xs) in
      if length xs == 0 then ok (f, ip) else rest

  -- The second parameter says which devices have a function in `devsw`.
  module _ (has : ℕ → Bool) where
    abbrev pub no_device : Inode → Bool
    no_device ip = leb (2 ^ 15) ip.major || leb ndev ip.major || not (has ip.major)

    pub readi : Fs → Inode → ℕ → ℕ → Result (Fs × Inode × Outcome (List ℕ))
    readi f ip off n =
        let n' = if ltb ip.size ((off + n) % 2 ^ 32) then ip.size - off else n in
        if ip.type == t_dev
        then ok (f, ip, if no_device ip then failed else asks_device ip.major)
        else if ltb ip.size off || ltb ((off + n) % 2 ^ 32) off
        then ok (f, ip, failed)
        else (read_from (n' + 1) f ip off n' >>= λ r. ok (r.0, r.1, done r.2))

    pub writei : Fs → Inode → ℕ → List ℕ → Result (Fs × Inode × Outcome ℕ)
    writei f ip off xs =
        let end = (off + length xs) % 2 ^ 32 in
        if ip.type == t_dev
        then ok (f, ip, if no_device ip then failed else asks_device ip.major)
        else if ltb ip.size off || ltb end off || ltb (max_file * bsize) end
        then ok (f, ip, failed)
        else (write_from (length xs + 1) f ip off xs >>= λ r.
            let ip' = record r.1 { size = end } in
            if ltb 0 (length xs) && ltb r.1.size end
            then ok (iupdate r.0 ip', ip', done (length xs))
            else ok (r.0, r.1, done (length xs)))
