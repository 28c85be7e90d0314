-- ===== src/Dirs/LinkCall.antt =====
-- fs.c: dirlink as a whole.
use os_assignment.Prelude.{
  ℕ, ◌+◌, ◌*◌, ◌/◌, ◌^◌, ◌<◌, ◌≤◌, ◌≡◌, ◌⊎◌, inl, inr, refl, ap, ◌∙◌, arith, Bool, none, some, ok,
  panic,
}
use os_assignment.Blocks.{Super, Fs, bsize}
use os_assignment.Inodes.{Inode, max_file, t_dir, iblock, writei, done}
use os_assignment.Inodes.Slots.{content, InodeOk, Foreign, Grown, Grown-trans}
use os_assignment.Dirs.Names.{entry, Matches}
use os_assignment.Dirs.Lookup.{dirlookup-Finds}
use os_assignment.Dirs.Link.{free_entry_from-FreeAt}
use os_assignment.Dirs.Added.{length-linked_entry, Linked, Linked-Written, wrote}
use os_assignment.Dirs.{dirent_size, linked_entry, dirlookup, free_entry_from, dirlink}

module _ (sb : Super) (has : ℕ → Bool) where
  module _ (f : Fs) (dp : Inode) (name : ℕ → ℕ) (inum : ℕ) where
    lookup_panics :
        dirlookup sb has f dp name ≡ panic "balloc: out of blocks"
        → dirlink sb has f dp name inum ≡ panic "balloc: out of blocks"
    unfolding dirlink
    lookup_panics r = rw r refl

    name_present :
        (f1 : Fs) (dp1 : Inode) (e : ℕ × ℕ)
        → dirlookup sb has f dp name ≡ ok (f1, dp1, some e)
        → dirlink sb has f dp name inum ≡ ok (f1, dp1, none)
    unfolding dirlink
    name_present f1 dp1 e r = rw r refl

    search_panics :
        (f1 : Fs) (dp1 : Inode)
        → dirlookup sb has f dp name ≡ ok (f1, dp1, none)
        → free_entry_from sb has (dp1.size / dirent_size + 1) f1 dp1 0
          ≡ panic "balloc: out of blocks"
        → dirlink sb has f dp name inum ≡ panic "balloc: out of blocks"
    unfolding dirlink
    search_panics f1 dp1 r q = rw r (rw q refl)

    write_panics :
        (f1 f2 : Fs) (dp1 dp2 : Inode) (off : ℕ)
        → dirlookup sb has f dp name ≡ ok (f1, dp1, none)
        → free_entry_from sb has (dp1.size / dirent_size + 1) f1 dp1 0 ≡ ok (f2, dp2, off)
        → writei sb has f2 dp2 off (linked_entry name inum) ≡ panic "balloc: out of blocks"
        → dirlink sb has f dp name inum ≡ panic "balloc: out of blocks"
    unfolding dirlink
    write_panics f1 f2 dp1 dp2 off r q w = rw r (rw q (rw w refl))

    entry_written :
        (f1 f2 f3 : Fs) (dp1 dp2 dp3 : Inode) (off n : ℕ)
        → dirlookup sb has f dp name ≡ ok (f1, dp1, none)
        → free_entry_from sb has (dp1.size / dirent_size + 1) f1 dp1 0 ≡ ok (f2, dp2, off)
        → writei sb has f2 dp2 off (linked_entry name inum) ≡ ok (f3, dp3, done n)
        → n ≡ dirent_size
        → dirlink sb has f dp name inum ≡ ok (f3, dp3, some 0)
    unfolding dirlink
    entry_written f1 f2 f3 dp1 dp2 dp3 off n r q w e =
        let w' = w ∙ ap (λ k. ok (f3, dp3, done k)) e in rw r (rw q (rw w' refl))

    -- `dirlink` in a directory of whole entries, whose blocks are in use and distinct, whose inode stands in
    -- a block in use that is none of them, and which has room for one more entry below the largest size of
    -- a file, for an inode number that is not 0 and fits in 16 bits. It returns -1 exactly if an entry in
    -- use has the name, and changes no byte of the directory. Else it returns 0, and the first free entry, or
    -- the one behind the last, is in use, with the name and with the number; all others are as before,
    -- and the size is that from before or one entry more. The one other outcome is the panic for want of
    -- a free block; the panics "dirlink read" and "dirlink" do not occur.
    pub dirlink-Linked :
        (n : ℕ)
        → InodeOk sb f dp
        → Foreign sb f dp (iblock sb dp.inum)
        → dp.type ≡ t_dir
        → dp.size ≡ dirent_size * n
        → dirent_size * (n + 1) ≤ max_file * bsize
        → ((a : ℕ) → name a < 256)
        → 0 < inum
        → inum < 2 ^ 16
        → (dirlink sb has f dp name inum ≡ panic "balloc: out of blocks")
          ⊎ (((i : ℕ) × (i < n)
                × Matches name (entry (content f dp) i)
                × ((f' : Fs) × (dp' : Inode) × (dirlink sb has f dp name inum ≡ ok (f', dp', none))
                    × Grown sb f dp f' dp'))
              ⊎ (((i : ℕ) → i < n → ¬ Matches name (entry (content f dp) i))
                  × ((f' : Fs) × (dp' : Inode) × (i : ℕ) × (dirlink sb has f dp name inum
                        ≡ ok (f', dp', some 0))
                      × Linked sb f dp name inum n i f' dp')))
    dirlink-Linked n o out dir size_ fits b pos_ l =
        elim (dirlookup-Finds sb has f dp name n o dir size_ (omega arith) b) [
          | inl r ↦ inl (lookup_panics r)
          | inr (f1, dp1, res, r, g, finds) ↦ elim finds [
            | inr (i, lo, hi, e, m, before) ↦
                let run = name_present f1 dp1 _ (r ∙ ap (λ x. ok (f1, dp1, x)) e) in
                inr (inl (i, hi, m, (f1, dp1, run, g)))
            | inl (e, none_) ↦
                let r' = r ∙ ap (λ x. ok (f1, dp1, x)) e in
                let s1 : dp1.size ≡ dirent_size * n = ap (λ (k : Inode). k.size) g.fields ∙ size_ in
                let t1 : dp1.type ≡ t_dir = ap (λ (k : Inode). k.type) g.fields ∙ dir in
                elim (free_entry_from-FreeAt sb has (content f dp) n (dp1.size / dirent_size + 1) f1
                  dp1 0 (omega arith) (omega arith) g.okay t1 s1 (omega arith) g.contents) [
                    | inl q ↦ inl (search_panics f1 dp1 r' q)
                    | inr (f2, dp2, i, q, g', at) ↦
                        let h = Grown-trans sb f f1 f2 dp dp1 dp2 g g' in
                        elim (wrote sb has f dp name inum f2 dp2 n i h out dir size_ fits b
                          at.upto) [
                            | inl w ↦ inl (write_panics f1 f2 dp1 dp2 (dirent_size * i) r' q w)
                            | inr (f3, dp3, w, done_) ↦
                                let run =
                                  entry_written f1 f2 f3 dp1 dp2 dp3 (dirent_size * i) _ r' q w
                                    (length-linked_entry name inum) in
                                let linked =
                                  Linked-Written sb has f f2 f3 dp dp2 dp3 name inum n i h done_ at
                                    size_ fits pos_ l in
                                inr
                                  (inr (λ j c. none_ j (omega arith) c, (f3, dp3, i, run, linked)))
                          ]
                  ]
          ]
        ]
