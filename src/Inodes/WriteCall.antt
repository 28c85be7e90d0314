-- ===== src/Inodes/WriteCall.antt =====
-- fs.c: writei.
use mathlib.Core.Path.{subst}
use os_assignment.Prelude.{
  ℕ, ◌+◌, ◌*◌, ◌/◌, ◌%◌, ◌^◌, ◌<◌, ◌≤◌, ◌≡◌, ◌≢◌, ◌⊎◌, inl, inr, refl, ap, ◌∙◌, sym, arith, Bool,
  true, false, ◌||◌, ◌&&◌, ltb, ◌==◌, if◌then◌else◌, Bool-cases, List, length, All, ok, panic,
}
use os_assignment.Blocks.{Super, Fs, bsize}
use os_assignment.Inodes.{
  Inode, max_file, t_dev, splice, iblock, iupdate, write_from, writei, failed, done,
}
use os_assignment.Inodes.Slots.{slot, content, InodeOk, Foreign}
use os_assignment.Inodes.Store.{Wrote}
use os_assignment.Inodes.Write.{write_from-DidWrite}
use os_assignment.Inodes.Update.{
  iupdate-InodeOk, iupdate-home, slot-iupdate, content-iupdate, iupdate-Foreign,
}

-- What `writei` leaves.
pub record Written (sb : Super) (f : Fs) (ip : Inode) (off : ℕ) (xs : List ℕ) (f' : Fs)
    (ip' : Inode) : Type 0 where
  pub okay : InodeOk sb f' ip'
  pub contents : (o : ℕ) → o / bsize < max_file → content f' ip' o ≡ splice (content f ip) off xs o
  pub grows : ip'.size ≡ (if ltb ip.size (off + length xs) then off + length xs else ip.size)
  pub present : (q : ℕ) → off ≤ q → q < off + length xs → slot f' ip' (q / bsize) ≢ 0
  pub kept_slots : (s : ℕ) → s ≤ max_file → slot f ip s ≢ 0 → slot f' ip' s ≡ slot f ip s
  pub home : Foreign sb f' ip' (iblock sb ip'.inum)
  pub fields : ip' ≡ record ip { addrs = ip'.addrs; size = ip'.size }
  pub foreign :
      (d : ℕ)
      → iblock sb ip.inum ≢ d
      → Foreign sb f ip d
      → Foreign sb f' ip' d × (f'.blocks d ≡ f.blocks d)

resize-InodeOk :
    (sb : Super) (f : Fs) (ip : Inode) (n : ℕ)
    → InodeOk sb f ip
    → InodeOk sb f (record ip { size = n })
resize-InodeOk sb f ip n o = record {
  bytes = o.bytes;
  small = o.small;
  apart = o.apart;
  boot = o.boot;
  used = o.used;
  distinct = o.distinct;
}

resize-Foreign :
    (sb : Super) (f : Fs) (ip : Inode) (n d : ℕ)
    → Foreign sb f ip d
    → Foreign sb f (record ip { size = n }) d
resize-Foreign sb f ip n d h = record { is_used = h.is_used; elsewhere = h.elsewhere }

module _ (sb : Super) (f : Fs) (ip : Inode) (off : ℕ) (xs : List ℕ) where
  same_size :
      (f' : Fs) (ip' : Inode)
      → Wrote sb f ip off xs f' ip'
      → Foreign sb f ip (iblock sb ip.inum)
      → off + length xs ≤ ip.size
      → Written sb f ip off xs f' ip'
  same_size f' ip' w out l = record {
    okay = w.okay;
    contents = w.contents;
    present = w.present;
    kept_slots = w.kept_slots;
    home =
        subst (λ n. Foreign sb f' ip' (iblock sb n)) (sym (ap (λ (i : Inode). i.inum) w.fields))
          (w.foreign (iblock sb ip.inum) out).0;
    grows = ap (λ (i : Inode). i.size) w.fields ∙ ground (arith, l);
    fields =
        w.fields
        ∙ ap (λ n. record ip { addrs = ip'.addrs; size = n })
            (sym (ap (λ (i : Inode). i.size) w.fields));
    foreign = λ d ne h. w.foreign d h;
  }

  new_size :
      (f' : Fs) (ip' : Inode)
      → Wrote sb f ip off xs f' ip'
      → Foreign sb f ip (iblock sb ip.inum)
      → ip.size < off + length xs
      → off + length xs ≤ max_file * bsize
      → Written sb f ip off xs
          (iupdate sb f' (record ip' { size = off + length xs }))
          (record ip' { size = off + length xs })
  new_size f' ip' w out l fits =
      let end = off + length xs in
      let ip'' = record ip' { size = end } in
      let same : ip'.inum ≡ ip.inum = ap (λ (i : Inode). i.inum) w.fields in
      let o = resize-InodeOk sb f' ip' end w.okay in
      let out' : Foreign sb f' ip'' (iblock sb ip''.inum) =
        resize-Foreign sb f' ip' end (iblock sb ip'.inum) (
          subst (λ n. Foreign sb f' ip' (iblock sb n)) (sym same)
            (w.foreign (iblock sb ip.inum) out).0) in
      record {
        okay = iupdate-InodeOk sb f' ip'' o out';
        contents = λ q b. content-iupdate sb f' ip'' o out' q b ∙ w.contents q b;
        grows = ground (arith, l);
        kept_slots = λ s b nz. slot-iupdate sb f' ip'' o out' s b ∙ w.kept_slots s b nz;
        home = iupdate-home sb f' ip'' o out';
        present = λ q b c. λ z.
            w.present q b c
              (sym (slot-iupdate sb f' ip'' o out' (q / bsize) (omega (arith, c, fits))) ∙ z);
        fields = ap (λ (i : Inode). record i { size = end }) w.fields;
        foreign = λ d ne h.
            let (h', e) = w.foreign d h in
            let (h'', e') =
              iupdate-Foreign sb f' ip'' o out' d (λ q. ne (ap (iblock sb) (sym same) ∙ q))
                (resize-Foreign sb f' ip' end d h') in
            (h'', e' ∙ e);
      }

  refused :
      (has : ℕ → Bool)
      → ip.type ≢ t_dev
      → (ltb ip.size off
          || ltb ((off + length xs) % 2 ^ 32) off
          || ltb (max_file * bsize) ((off + length xs) % 2 ^ 32))
        ≡ true
      → writei sb has f ip off xs ≡ ok (f, ip, failed)
  unfolding writei
  refused has file t = let d : (ip.type == t_dev) ≡ false = ground (arith, file) in rw d (rw t refl)

  -- `writei` once its loop has come to an end.
  ended :
      (has : ℕ → Bool) (f' : Fs) (ip' : Inode)
      → ip.type ≢ t_dev
      → off ≤ ip.size
      → off + length xs ≤ max_file * bsize
      → write_from sb (length xs + 1) f ip off xs ≡ ok (f', ip')
      → writei sb has f ip off xs ≡ (
          let ip'' = record ip' { size = off + length xs } in
          if ltb 0 (length xs) && ltb ip'.size (off + length xs)
          then ok (iupdate sb f' ip'', ip'', done (length xs))
          else ok (f', ip', done (length xs)))
  unfolding writei
  ended has f' ip' file inside fits e =
      let d : (ip.type == t_dev) ≡ false = ground (arith, file) in
      let end : (off + length xs) % 2 ^ 32 ≡ off + length xs = omega arith in
      let t : (ltb ip.size off
            || ltb (off + length xs) off
            || ltb (max_file * bsize) (off + length xs))
          ≡ false =
        ground (arith, inside, fits) in
      rw d (rw end (rw t (rw e refl)))

  out_of_blocks :
      (has : ℕ → Bool)
      → ip.type ≢ t_dev
      → off ≤ ip.size
      → off + length xs ≤ max_file * bsize
      → write_from sb (length xs + 1) f ip off xs ≡ panic "balloc: out of blocks"
      → writei sb has f ip off xs ≡ panic "balloc: out of blocks"
  unfolding writei
  out_of_blocks has file inside fits e =
      let d : (ip.type == t_dev) ≡ false = ground (arith, file) in
      let end : (off + length xs) % 2 ^ 32 ≡ off + length xs = omega arith in
      let t : (ltb ip.size off
            || ltb (off + length xs) off
            || ltb (max_file * bsize) (off + length xs))
          ≡ false =
        ground (arith, inside, fits) in
      rw d (rw end (rw t (rw e refl)))

  -- `writei` to a file whose blocks are in use and distinct, and which is no device: it fails, and
  -- changes nothing, exactly if the offset is behind the end, or the bytes would end behind the
  -- largest size of a file or overflow. Else the bytes of the file are those from before with the new ones
  -- written over them at the offset, and the size is that from before or the new end, whichever is
  -- more; the other fields and the blocks in use by others, but for that of the inode, are as
  -- before. It may panic for want of a free block.
  pub writei_lem :
      (has : ℕ → Bool)
      → InodeOk sb f ip
      → Foreign sb f ip (iblock sb ip.inum)
      → off < 2 ^ 32
      → length xs < 2 ^ 32
      → All (λ x. x < 256) xs
      → ip.type ≢ t_dev
      → (((ip.size < off) ⊎ (max_file * bsize < off + length xs))
          × (writei sb has f ip off xs ≡ ok (f, ip, failed)))
        ⊎ ((off ≤ ip.size)
            × (off + length xs ≤ max_file * bsize)
            × ((writei sb has f ip off xs ≡ panic "balloc: out of blocks")
                ⊎ ((f' : Fs) × (ip' : Inode) × (writei sb has f ip off xs
                      ≡ ok (f', ip', done (length xs)))
                    × Written sb f ip off xs f' ip')))
  writei_lem has o out lo ln small file =
      elim (Bool-cases (ltb ip.size off || ltb (max_file * bsize) (off + length xs))) [
        | inl t ↦ inl (why (ltb ip.size off) t refl, refused has file (ground (arith, t, lo, ln)))
        | inr t ↦
            let inside : off ≤ ip.size = ground (arith, t) in
            let fits : off + length xs ≤ max_file * bsize = ground (arith, t) in
            inr (
              inside,
              fits,
              elim (write_from-DidWrite sb (length xs + 1) f ip off xs o (omega arith) fits small) [
                | inl r ↦ inl (out_of_blocks has file inside fits r)
                | inr (f', ip', r, w) ↦ elim (Bool-cases (ltb ip.size (off + length xs))) [
                  | inl g ↦
                      let grew : ip.size < off + length xs = ground (arith, g) in
                      let size_ : ip'.size ≡ ip.size = ap (λ (i : Inode). i.size) w.fields in
                      let t' : (ltb 0 (length xs) && ltb ip'.size (off + length xs)) ≡ true =
                        ground (arith, size_, grew, inside) in
                      inr (
                        iupdate sb f' (record ip' { size = off + length xs }),
                        record ip' { size = off + length xs },
                        ended has f' ip' file inside fits r ∙ rw t' refl,
                        new_size f' ip' w out grew fits,
                      )
                  | inr g ↦
                      let kept : off + length xs ≤ ip.size = ground (arith, g) in
                      let size_ : ip'.size ≡ ip.size = ap (λ (i : Inode). i.size) w.fields in
                      let t' : (ltb 0 (length xs) && ltb ip'.size (off + length xs)) ≡ false =
                        ground (arith, size_, kept) in
                      inr (
                        f',
                        ip',
                        ended has f' ip' file inside fits r ∙ rw t' refl,
                        same_size f' ip' w out kept,
                      )
                ]
              ],
            )
      ]
    where
      why :
          (b : Bool)
          → (ltb ip.size off || ltb (max_file * bsize) (off + length xs)) ≡ true
          → ltb ip.size off ≡ b
          → (ip.size < off) ⊎ (max_file * bsize < off + length xs)
      why true t e = inl (ground (arith, e))
      why false t e = inr (ground (arith, e, t))
