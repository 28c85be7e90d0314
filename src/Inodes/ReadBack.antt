-- ===== src/Inodes/ReadBack.antt =====
-- fs.c: what writei has written, readi reads.
use mathlib.Core.Path.{subst}
use os_assignment.Prelude.{
  ℕ, zero, suc, ◌+◌, ◌-◌, ◌*◌, ◌/◌, ◌%◌, ◌^◌, ◌<◌, ◌≤◌, ◌≡◌, ◌≢◌, inl, inr, refl, ap, ◌∙◌, sym,
  arith, min, Bool, true, false, ◌||◌, ltb, ◌==◌, if◌then◌else◌, Bool-cases, List, ◌++◌, length,
  All, ok, ◌>>=◌,
}
use os_assignment.Blocks.{Super, Fs, bsize}
use os_assignment.Inodes.{
  Inode, ndirect, nindirect, max_file, t_dev, get_word, slice, splice, iblock, bmap_slot,
  bmap_entry, bmap, read_from, readi, writei, done,
}
use os_assignment.Inodes.Words.{slice-eq, slice-append, slice-splice}
use os_assignment.Inodes.Slots.{slot, content, InodeOk, Foreign}
use os_assignment.Inodes.Fill.{slot_direct, slot_entry, slot_empty}
use os_assignment.Inodes.Map.{bmap_direct, bmap_indirect}
use os_assignment.Inodes.Read.{content-slot, accepted}
use os_assignment.Inodes.WriteCall.{Written, writei_lem}

module _ (sb : Super) (f : Fs) (ip : Inode) where
  bmap_slot-present : (i : ℕ) → ip.addrs i ≢ 0 → bmap_slot sb f ip i ≡ ok (f, ip, ip.addrs i)
  unfolding bmap_slot
  bmap_slot-present i nz = let t : (ip.addrs i == 0) ≡ false = ground (arith, nz) in rw t refl

  bmap_entry-present :
      (a i : ℕ)
      → get_word (f.blocks a) (4 * i) ≢ 0
      → bmap_entry sb f ip a i ≡ ok (f, ip, get_word (f.blocks a) (4 * i))
  unfolding bmap_entry
  bmap_entry-present a i nz =
      let t : (get_word (f.blocks a) (4 * i) == 0) ≡ false = ground (arith, nz) in rw t refl

  -- `bmap` of a block that the inode has changes nothing.
  bmap-present :
      (bn : ℕ) → bn < max_file → slot f ip bn ≢ 0 → bmap sb f ip bn ≡ ok (f, ip, slot f ip bn)
  bmap-present bn l nz = elim (Bool-cases (ltb bn ndirect)) [
    | inl t ↦
        let at = slot_direct f ip bn (ground (arith, t)) in
        bmap_direct sb f ip bn t
        ∙ bmap_slot-present bn (λ e. nz (at ∙ e))
        ∙ ap (λ a. ok (f, ip, a)) (sym at)
    | inr t ↦
        let after : ndirect ≤ bn = ground (arith, t) in
        let small : ltb (bn - ndirect) nindirect ≡ true = ground (arith, t, l) in
        let there : ip.addrs ndirect ≢ 0 = λ z. nz (slot_empty f ip bn after l z) in
        let at = slot_entry f ip bn after l there in
        bmap_indirect sb f ip bn t small
        ∙ ap (λ r. r >>= λ r'. bmap_entry sb r'.0 r'.1 r'.2 (bn - ndirect))
            (bmap_slot-present ndirect there)
        ∙ bmap_entry-present (ip.addrs ndirect) (bn - ndirect) (λ e. nz (at ∙ e))
        ∙ ap (λ a. ok (f, ip, a)) (sym at)
  ]

  read_from-present :
      (k off n : ℕ)
      → n < k
      → off + n ≤ max_file * bsize
      → ((q : ℕ) → off ≤ q → q < off + n → slot f ip (q / bsize) ≢ 0)
      → read_from sb k f ip off n ≡ ok (f, ip, slice (content f ip) off n)
  unfolding read_from
  read_from-present zero off n h l p = absurd (omega arith)
  read_from-present (suc k) off n h l p = elim (Bool-cases (n == 0)) [
    | inl t ↦
        let none_left : n ≡ 0 = ground (arith, t) in
        rw t (ap (λ i. ok (f, ip, slice (content f ip) off i)) (sym none_left))
    | inr t ↦
        let some_left : 0 < n = ground (arith, t) in
        let a = slot f ip (off / bsize) in
        let nz : a ≢ 0 = p off (omega arith) (omega arith) in
        let m = min n (bsize - off % bsize) in
        let whole : m + (n - m) ≡ n = omega arith in
        let rest =
          read_from-present k (off + m) (n - m) (omega arith) (omega arith)
            (λ q b c. p q (omega arith) (omega arith)) in
        let piece =
          slice-eq (f.blocks a) (content f ip) (off % bsize) off m
            (λ j b. sym (content-slot f ip off a j refl nz (omega arith))) in
        rw t (
          ap
            (λ r. r >>= λ r. read_from sb k r.0 r.1 (off + m) (n - m) >>= λ r'.
              ok (r'.0, r'.1, slice (r.0.blocks r.2) (off % bsize) m ++ r'.2))
            (bmap-present (off / bsize) (omega arith) nz)
          ∙ ap (λ r. r >>= λ r'. ok (r'.0, r'.1, slice (f.blocks a) (off % bsize) m ++ r'.2)) rest
          ∙ ap (λ xs. ok (f, ip, xs ++ slice (content f ip) (off + m) (n - m))) piece
          ∙ ap (λ xs. ok (f, ip, xs)) (slice-append (content f ip) off m (n - m))
          ∙ ap (λ i. ok (f, ip, slice (content f ip) off i)) whole)
  ]

Written-read :
    (sb : Super) (has : ℕ → Bool) (f f' : Fs) (ip ip' : Inode) (off : ℕ) (xs : List ℕ)
    → off + length xs ≤ max_file * bsize
    → ip.type ≢ t_dev
    → Written sb f ip off xs f' ip'
    → readi sb has f' ip' off (length xs) ≡ ok (f', ip', done xs)
Written-read sb has f f' ip ip' off xs fits file w =
    let size_ : off + length xs ≤ ip'.size = ground (arith, w.grows) in
    let same_type : ip'.type ≡ ip.type = ap (λ (i : Inode). i.type) w.fields in
    let wrap : (off + length xs) % 2 ^ 32 ≡ off + length xs = omega arith in
    let guard : (ltb ip'.size off || ltb ((off + length xs) % 2 ^ 32) off) ≡ false =
      ground (arith, size_, wrap) in
    let count : (if ltb ip'.size ((off + length xs) % 2 ^ 32) then ip'.size - off else length xs)
        ≡ length xs =
      ground (arith, size_, wrap) in
    let bytes =
      slice-eq (content f' ip') (splice (content f ip) off xs) off off (length xs)
        (λ k l. w.contents (off + k) (omega arith))
      ∙ slice-splice (content f ip) off xs in
    accepted sb has f' ip' off (length xs) (length xs) (λ e. file (sym same_type ∙ e)) guard count
    ∙ ap (λ r. r >>= λ r'. ok (r'.0, r'.1, done r'.2))
        (read_from-present sb f' ip' (length xs + 1) off (length xs) (omega arith) fits w.present)
    ∙ ap (λ ys. ok (f', ip', done ys)) bytes

-- For a file that is no device, whose blocks are in use and distinct, and whose inode stands in a block
-- that is in use and none of the file's: if `writei` returns the count of the bytes it was given, then
-- `readi` of that many bytes at the same offset gives back those bytes, and changes neither the
-- disk nor the inode: no block is missing there, so it cannot fail. Offset and count are below 2 ^ 32.
pub readi-writei :
    (sb : Super) (has : ℕ → Bool) (f f' : Fs) (ip ip' : Inode) (off : ℕ) (xs : List ℕ)
    → InodeOk sb f ip
    → Foreign sb f ip (iblock sb ip.inum)
    → off < 2 ^ 32
    → length xs < 2 ^ 32
    → All (λ x. x < 256) xs
    → ip.type ≢ t_dev
    → writei sb has f ip off xs ≡ ok (f', ip', done (length xs))
    → readi sb has f' ip' off (length xs) ≡ ok (f', ip', done xs)
readi-writei sb has f f' ip ip' off xs o out lo ln small file run =
    elim (writei_lem sb f ip off xs has o out lo ln small file) [
      | inl (why, r) ↦ cc (r, run)
      | inr (inside, fits, outcome) ↦ elim outcome [
        | inl r ↦ cc (r, run)
        | inr (g, jp, r, w) ↦
            let disk : g ≡ f' = cc (r, run) in
            let inode : jp ≡ ip' = cc (r, run) in
            Written-read sb has f f' ip ip' off xs fits file (
              subst (λ h. Written sb f ip off xs h ip') disk
                (subst (Written sb f ip off xs g) inode w))
      ]
    ]
