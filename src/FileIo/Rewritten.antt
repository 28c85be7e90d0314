-- ===== src/FileIo/Rewritten.antt =====
-- file.c: what a write leaves of a file, and what others may leave of it.
use os_assignment.Prelude.{
  ℕ, ◌+◌, ◌/◌, ◌<◌, ◌≤◌, ◌≡◌, refl, ap, ◌∙◌, sym, arith, List, [], ltb, if◌then◌else◌, length, take,
  drop, length-take, length-drop,
}
use os_assignment.Blocks.{Super, Fs, bsize}
use os_assignment.Inodes.{Inode, max_file, splice, iblock}
use os_assignment.Inodes.Words.{splice-at, splice-take-drop}
use os_assignment.Inodes.Slots.{content, InodeOk, Foreign}
use os_assignment.Inodes.WriteCall.{Written}

-- What others leave of a file between two pieces: its bytes, its size and its other fields, and the offset. They
-- may give it blocks, and do what they like to all else.
pub record Left (sb : Super) (s t : Fs × Inode × ℕ) : Type 0 where
  pub okay : InodeOk sb t.0 t.1
  pub home : Foreign sb t.0 t.1 (iblock sb t.1.inum)
  pub same_bytes : (o : ℕ) → o / bsize < max_file → content t.0 t.1 o ≡ content s.0 s.1 o
  pub same_fields : t.1 ≡ record (s.1) { addrs = t.1.addrs }
  pub same_off : t.2 ≡ s.2

abbrev pub LeaveFile : Super → (ℕ → Fs × Inode × ℕ → Fs × Inode × ℕ) → Type 0
LeaveFile sb others =
    (n : ℕ) (s : Fs × Inode × ℕ)
    → InodeOk sb s.0 s.1
    → Foreign sb s.0 s.1 (iblock sb s.1.inum)
    → Left sb s (others n s)

-- What a write leaves of the file itself.
pub record Rewritten (sb : Super) (f : Fs) (ip : Inode) (off : ℕ) (xs : List ℕ) (f' : Fs)
    (ip' : Inode) : Type 0 where
  pub okay : InodeOk sb f' ip'
  pub home : Foreign sb f' ip' (iblock sb ip'.inum)
  pub contents : (o : ℕ) → o / bsize < max_file → content f' ip' o ≡ splice (content f ip) off xs o
  pub grows : ip'.size ≡ (if ltb ip.size (off + length xs) then off + length xs else ip.size)
  pub fields : ip' ≡ record ip { addrs = ip'.addrs; size = ip'.size }

-- Two states of a file with the same bytes, size and other fields, in whichever blocks.
pub record SameFile (f : Fs) (ip : Inode) (g : Fs) (jp : Inode) : Type 0 where
  pub same_bytes : (o : ℕ) → o / bsize < max_file → content f ip o ≡ content g jp o
  pub same_fields : ip ≡ record jp { addrs = ip.addrs }

pub Rewritten-step :
    (sb : Super) (f f0 f' f'' : Fs) (ip ip0 ip' ip'' : Inode) (off off0 m : ℕ) (xs : List ℕ)
    → m ≤ length xs
    → Left sb (f, ip, off) (f0, ip0, off0)
    → Written sb f0 ip0 off (take m xs) f' ip'
    → Rewritten sb f' ip' (off + m) (drop m xs) f'' ip''
    → Rewritten sb f ip off xs f'' ip''
Rewritten-step sb f f0 f' f'' ip ip0 ip' ip'' off off0 m xs l s g h =
    let same_size : ip0.size ≡ ip.size = ap (λ (i : Inode). i.size) s.same_fields in
    record {
      okay = h.okay;
      home = h.home;
      contents = λ o b.
          h.contents o b
          ∙ splice-at (content f' ip') (splice (content f0 ip0) off (take m xs)) (off + m)
              (drop m xs) o (g.contents o b)
          ∙ ap (λ (k : ℕ → ℕ). k o) (splice-take-drop (content f0 ip0) off m xs l)
          ∙ splice-at (content f0 ip0) (content f ip) off xs o (s.same_bytes o b);
      grows = ground (arith, h.grows, g.grows, same_size, length-take m xs, length-drop m xs, l);
      fields =
          h.fields
          ∙ ap (λ (i : Inode). record i { addrs = ip''.addrs; size = ip''.size }) g.fields
          ∙ ap (λ (i : Inode). record i { addrs = ip''.addrs; size = ip''.size }) s.same_fields;
    }

pub Rewritten-nothing :
    (sb : Super) (f : Fs) (ip : Inode) (off : ℕ)
    → InodeOk sb f ip
    → Foreign sb f ip (iblock sb ip.inum)
    → off ≤ ip.size
    → Rewritten sb f ip off [] f ip
Rewritten-nothing sb f ip off o out l = record {
  okay = o;
  home = out;
  contents = λ q b. refl;
  grows = ground (arith, l);
  fields = refl;
}

pub Rewritten-SameFile :
    (sb : Super) (f f' g : Fs) (ip ip' jp : Inode) (off : ℕ) (xs : List ℕ)
    → Rewritten sb f ip off xs f' ip'
    → Written sb f ip off xs g jp
    → SameFile f' ip' g jp
Rewritten-SameFile sb f f' g ip ip' jp off xs h w =
    let size_ : ip'.size ≡ jp.size = h.grows ∙ sym w.grows in
    record {
      same_bytes = λ o b. h.contents o b ∙ sym (w.contents o b);
      same_fields =
          h.fields
          ∙ ap (λ n. record ip { addrs = ip'.addrs; size = n }) size_
          ∙ sym (ap (λ (i : Inode). record i { addrs = ip'.addrs }) w.fields);
    }
