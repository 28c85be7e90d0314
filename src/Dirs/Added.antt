-- ===== src/Dirs/Added.antt =====
-- fs.c: the entry that dirlink writes.
use mathlib.Core.Path.{subst}
use os_assignment.Prelude.{
  ℕ, zero, suc, ◌+◌, ◌-◌, ◌*◌, ◌/◌, ◌%◌, ◌^◌, ◌<◌, ◌≤◌, ◌≡◌, ◌⊎◌, inl, inr, ap, ◌≢◌, ◌∙◌, sym,
  arith, Bool, ◌∷◌, ltb, ◌==◌, if◌then◌else◌, length, All, get_or, ok, panic,
}
use os_assignment.Strings.{Mem, strncpy}
use os_assignment.Strings.Copy.{cstr-congr, strncpy-Padded}
use os_assignment.Strings.Small.{strncpy-small}
use os_assignment.Paths.{dirsiz}
use os_assignment.Blocks.{Super, Fs, bsize}
use os_assignment.Inodes.{Inode, max_file, t_dir, slice, splice, iblock, writei, done}
use os_assignment.Inodes.Words.{length-slice, slice-eq, slice-splice, splice_out}
use os_assignment.Inodes.Slots.{content, InodeOk, Foreign, Grown}
use os_assignment.Inodes.WriteCall.{Written, writei_lem}
use os_assignment.Dirs.Names.{entry, Matches, cstr-second}
use os_assignment.Dirs.Link.{FreeAt}
use os_assignment.Dirs.{Dirent, dirent_size, dirent_of, linked_entry, joined}

pub length-linked_entry : (name : ℕ → ℕ) (inum : ℕ) → length (linked_entry name inum) ≡ dirent_size
unfolding linked_entry
length-linked_entry name inum =
    let rest = length-slice (strncpy 0 dirsiz dirsiz (joined (λ k. 0) name)) 0 dirsiz in
    omega (arith, rest)

slice-small : (g : ℕ → ℕ) (i n : ℕ) → ((o : ℕ) → g o < 256) → All (λ x. x < 256) (slice g i n)
slice-small g i zero b = tt
slice-small g i (suc n) b = (b i, slice-small g (i + 1) n b)

linked_entry-small :
    (name : ℕ → ℕ) (inum : ℕ)
    → ((a : ℕ) → name a < 256)
    → All (λ x. x < 256) (linked_entry name inum)
unfolding linked_entry
linked_entry-small name inum b =
    let small : (a : ℕ) → joined (λ k. 0) name a < 256 = λ a. ground (arith, b (a - dirsiz)) in
    let name_small =
      slice-small (strncpy 0 dirsiz dirsiz (joined (λ k. 0) name)) 0 dirsiz
        (strncpy-small 0 dirsiz dirsiz (joined (λ k. 0) name) small) in
    (omega arith, (omega arith, name_small))

get_or-slice : (g : ℕ → ℕ) (i n k : ℕ) → k < n → get_or (slice g i n) k 0 ≡ g (i + k)
get_or-slice g i zero k l = absurd (omega arith)
get_or-slice g i (suc n) zero l = ap g (omega arith)
get_or-slice g i (suc n) (suc k) l = get_or-slice g (i + 1) n k (omega arith) ∙ ap g (omega arith)

-- The new entry has the number.
linked_entry-inum :
    (name : ℕ → ℕ) (inum : ℕ) → inum < 2 ^ 16 → (dirent_of (linked_entry name inum)).inum ≡ inum
unfolding linked_entry
linked_entry-inum name inum l = omega arith

-- The new entry is in use and has the name.
linked_entry-Matches :
    (name : ℕ → ℕ) (inum : ℕ)
    → 0 < inum
    → inum < 2 ^ 16
    → Matches name (dirent_of (linked_entry name inum))
unfolding linked_entry
linked_entry-Matches name inum pos_ l =
    let m = joined (λ k. 0) name in
    let r = strncpy 0 dirsiz dirsiz m in
    let p = strncpy-Padded 0 dirsiz dirsiz m (omega arith) (omega arith) (inl (omega arith)) in
    record {
      in_use = λ z. absurd (omega arith);
      same =
          sym (cstr-second (λ k. 0) name 0 dirsiz (omega arith))
          ∙ sym p.text
          ∙ cstr-congr dirsiz 0 (λ k. get_or (linked_entry name inum) (k + 2) 0) r (omega arith)
              (λ a lo hi. sym (read_back r a (omega arith)));
    }
  where
    read_back :
        (r : Mem) (a : ℕ)
        → a < dirsiz
        → get_or (inum % 256 ∷ inum / 256 % 256 ∷ slice r 0 dirsiz) (a + 2) 0 ≡ r a
    read_back r a h =
        let at : a + 2 ≡ suc (suc a) = omega arith in
        ap (λ k. get_or (inum % 256 ∷ inum / 256 % 256 ∷ slice r 0 dirsiz) k 0) at
        ∙ get_or-slice r 0 dirsiz a h
        ∙ ap r (omega arith)

-- What a call of `dirlink` leaves that wrote its entry at the index `i` of the `n` entries.
pub record Linked (sb : Super) (f : Fs) (dp : Inode) (name : ℕ → ℕ) (inum n i : ℕ) (f' : Fs)
    (dp' : Inode) : Type 0 where
  pub okay : InodeOk sb f' dp'
  pub place : FreeAt (content f dp) 0 n i
  pub added : Matches name (entry (content f' dp') i)
  pub numbered : (entry (content f' dp') i).inum ≡ inum
  pub others : (j : ℕ) → j < n → j ≢ i → entry (content f' dp') j ≡ entry (content f dp) j
  pub size_ : dp'.size ≡ (if i == n then dirent_size * (n + 1) else dirent_size * n)

module _ (sb : Super) (has : ℕ → Bool) where
  pub Linked-Written :
      (f f1 f2 : Fs) (dp dp1 dp2 : Inode) (name : ℕ → ℕ) (inum n i : ℕ)
      → Grown sb f dp f1 dp1
      → Written sb f1 dp1 (dirent_size * i) (linked_entry name inum) f2 dp2
      → FreeAt (content f dp) 0 n i
      → dp.size ≡ dirent_size * n
      → dirent_size * (n + 1) ≤ max_file * bsize
      → 0 < inum
      → inum < 2 ^ 16
      → Linked sb f dp name inum n i f2 dp2
  Linked-Written f f1 f2 dp dp1 dp2 name inum n i g w at size_ fits pos_ l =
      let xs = linked_entry name inum in
      let len = length-linked_entry name inum in
      let up = at.upto in
      let kept = ap (λ (k : Inode). k.size) g.fields in
      record {
        okay = w.okay;
        place = at;
        added =
            subst (Matches name) (ap dirent_of (sym (written len up)))
              (linked_entry-Matches name inum pos_ l);
        numbered =
            ap (λ (d : Dirent). d.inum) (ap dirent_of (written len up))
            ∙ linked_entry-inum name inum l;
        others = λ j h ne. ap dirent_of (
            slice-eq (content f2 dp2) (content f dp) (dirent_size * j) (dirent_size * j) dirent_size
              (λ k b.
                w.contents (dirent_size * j + k) (omega arith)
                ∙ splice_out (content f1 dp1) (dirent_size * i) xs (dirent_size * j + k)
                    (omega arith)
                ∙ g.contents (dirent_size * j + k) (omega arith)));
        size_ = w.grows ∙ grown len kept up;
      }
    where
      written :
          length (linked_entry name inum) ≡ dirent_size
          → i ≤ n
          → slice (content f2 dp2) (dirent_size * i) dirent_size ≡ linked_entry name inum
      written len up =
          slice-eq (content f2 dp2)
            (splice (content f1 dp1) (dirent_size * i) (linked_entry name inum)) (dirent_size * i)
            (dirent_size * i) dirent_size (λ k b. w.contents (dirent_size * i + k) (omega arith))
          ∙ subst
              (λ m.
                slice (splice (content f1 dp1) (dirent_size * i) (linked_entry name inum))
                  (dirent_size * i) m
                ≡ linked_entry name inum)
              len (slice-splice (content f1 dp1) (dirent_size * i) (linked_entry name inum))

      grown :
          length (linked_entry name inum) ≡ dirent_size
          → dp1.size ≡ dp.size
          → i ≤ n
          → (if ltb dp1.size (dirent_size * i + length (linked_entry name inum))
              then dirent_size * i + length (linked_entry name inum)
              else dp1.size)
            ≡ (if i == n then dirent_size * (n + 1) else dirent_size * n)
      grown len kept up = ground (arith, len, kept, up, size_)

  -- The call of `writei` in `dirlink`.
  pub wrote :
      (f : Fs) (dp : Inode) (name : ℕ → ℕ) (inum : ℕ) (f2 : Fs) (dp2 : Inode) (n i : ℕ)
      → Grown sb f dp f2 dp2
      → Foreign sb f dp (iblock sb dp.inum)
      → dp.type ≡ t_dir
      → dp.size ≡ dirent_size * n
      → dirent_size * (n + 1) ≤ max_file * bsize
      → ((a : ℕ) → name a < 256)
      → i ≤ n
      → (writei sb has f2 dp2 (dirent_size * i) (linked_entry name inum)
          ≡ panic "balloc: out of blocks")
        ⊎ ((f3 : Fs) × (dp3 : Inode) × (writei sb has f2 dp2
                (dirent_size * i)
                (linked_entry name inum)
              ≡ ok (f3, dp3, done (length (linked_entry name inum))))
            × Written sb f2 dp2 (dirent_size * i) (linked_entry name inum) f3 dp3)
  wrote f dp name inum f2 dp2 n i h out dir size_ fits b up =
      let xs = linked_entry name inum in
      let len = length-linked_entry name inum in
      let s2 : dp2.size ≡ dirent_size * n = ap (λ (k : Inode). k.size) h.fields ∙ size_ in
      let t2 : dp2.type ≡ t_dir = ap (λ (k : Inode). k.type) h.fields ∙ dir in
      let home : Foreign sb f2 dp2 (iblock sb dp2.inum) =
        subst (λ k. Foreign sb f2 dp2 (iblock sb k)) (sym (ap (λ (k : Inode). k.inum) h.fields))
          (h.foreign (iblock sb dp.inum) out).0 in
      elim (writei_lem sb f2 dp2 (dirent_size * i) xs has h.okay home (omega arith)
        (omega (arith, len)) (linked_entry-small name inum b) (omega arith)) [
          | inl (why, r) ↦ elim why [
            | inl a ↦ absurd (omega arith)
            | inr a ↦ absurd (omega (arith, len))
          ]
          | inr (a, c, outcome) ↦ outcome
        ]
