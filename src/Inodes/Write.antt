-- ===== src/Inodes/Write.antt =====
-- fs.c: the loop of writei.
use os_assignment.Prelude.{
  ℕ, zero, suc, ◌+◌, ◌-◌, ◌*◌, ◌/◌, ◌%◌, ◌<◌, ◌≤◌, ◌≡◌, ◌⊎◌, inl, inr, refl, ap, ◌∙◌, arith, min,
  false, ltb, ◌==◌, Bool-cases, List, [], ◌∷◌, length, take, drop, length-take, length-drop, All,
  Result, ok, panic,
}
use os_assignment.Blocks.{Super, Fs, bsize, put_block}
use os_assignment.Inodes.{Inode, max_file, splice, write_from}
use os_assignment.Inodes.Words.{splice-at, splice-take-drop}
use os_assignment.Inodes.Slots.{content, InodeOk, Grown, still_some}
use os_assignment.Inodes.Map.{bmap-Mapped}
use os_assignment.Inodes.Store.{Wrote, splice-Wrote}

pub Wrote-trans :
    (sb : Super) (f f' f'' : Fs) (ip ip' ip'' : Inode) (off m : ℕ) (xs : List ℕ)
    → m ≤ length xs
    → off + length xs ≤ max_file * bsize
    → Wrote sb f ip off (take m xs) f' ip'
    → Wrote sb f' ip' (off + m) (drop m xs) f'' ip''
    → Wrote sb f ip off xs f'' ip''
Wrote-trans sb f f' f'' ip ip' ip'' off m xs l fits_all g h = record {
  okay = h.okay;
  contents = λ o b.
      h.contents o b
      ∙ splice-at (content f' ip') (splice (content f ip) off (take m xs)) (off + m) (drop m xs) o
          (g.contents o b)
      ∙ ap (λ (k : ℕ → ℕ). k o) (splice-take-drop (content f ip) off m xs l);
  fields = h.fields ∙ ap (λ (i : Inode). record i { addrs = ip''.addrs }) g.fields;
  kept_slots = λ s b nz.
      h.kept_slots s b (still_some f f' ip ip' s (g.kept_slots s b) nz) ∙ g.kept_slots s b nz;
  present = λ q b c. elim (Bool-cases (ltb q (off + m))) [
    | inl t ↦
        still_some f' f'' ip' ip'' (q / bsize) (h.kept_slots (q / bsize) (omega arith))
          (g.present q b (ground (arith, t, length-take m xs, l)))
    | inr t ↦ h.present q (ground (arith, t)) (omega (arith, length-drop m xs))
  ];
  foreign = λ d a. let (b, e) = g.foreign d a in let (c, e') = h.foreign d b in (c, e' ∙ e);
}

pub Grown-Wrote :
    (sb : Super) (f f' f'' : Fs) (ip ip' ip'' : Inode) (off : ℕ) (xs : List ℕ)
    → Grown sb f ip f' ip'
    → Wrote sb f' ip' off xs f'' ip''
    → Wrote sb f ip off xs f'' ip''
Grown-Wrote sb f f' f'' ip ip' ip'' off xs g h = record {
  okay = h.okay;
  contents =
      λ o b. h.contents o b ∙ splice-at (content f' ip') (content f ip) off xs o (g.contents o b);
  fields = h.fields ∙ ap (λ (i : Inode). record i { addrs = ip''.addrs }) g.fields;
  kept_slots = λ s b nz.
      h.kept_slots s b (still_some f f' ip ip' s (g.kept_slots s b) nz) ∙ g.kept_slots s b nz;
  present = h.present;
  foreign = λ d a. let (b, e) = g.foreign d a in let (c, e') = h.foreign d b in (c, e' ∙ e);
}

pub All-take : (n : ℕ) (xs : List ℕ) → All (λ x. x < 256) xs → All (λ x. x < 256) (take n xs)
All-take zero xs a = tt
All-take (suc n) [] a = tt
All-take (suc n) (x ∷ xs) a = (a.0, All-take n xs a.1)

pub All-drop : (n : ℕ) (xs : List ℕ) → All (λ x. x < 256) xs → All (λ x. x < 256) (drop n xs)
All-drop zero xs a = a
All-drop (suc n) [] a = tt
All-drop (suc n) (x ∷ xs) a = All-drop n xs a.1

-- What writing `xs` at `off` may give.
abbrev pub DidWrite : Super → Fs → Inode → ℕ → List ℕ → Result (Fs × Inode) → Type 0
DidWrite sb f ip off xs r =
    (r ≡ panic "balloc: out of blocks")
    ⊎ ((f' : Fs) × (ip' : Inode) × (r ≡ ok (f', ip')) × Wrote sb f ip off xs f' ip')

nothing_written :
    (sb : Super) (f : Fs) (ip : Inode) (off : ℕ) → InodeOk sb f ip → Wrote sb f ip off [] f ip
nothing_written sb f ip off o = record {
  okay = o;
  contents = λ q b. refl;
  fields = refl;
  kept_slots = λ s b nz. refl;
  present = λ q b c. absurd (omega arith);
  foreign = λ d a. (a, refl);
}

module _ (sb : Super) where
  pub write_from-DidWrite :
      (k : ℕ) (f : Fs) (ip : Inode) (off : ℕ) (xs : List ℕ)
      → InodeOk sb f ip
      → length xs < k
      → off + length xs ≤ max_file * bsize
      → All (λ x. x < 256) xs
      → DidWrite sb f ip off xs (write_from sb k f ip off xs)
  unfolding write_from
  write_from-DidWrite zero f ip off xs o h l small = absurd (omega arith)
  write_from-DidWrite (suc k) f ip off [] o h l small =
      inr (f, ip, refl, nothing_written sb f ip off o)
  write_from-DidWrite (suc k) f ip off (x ∷ xs) o h l small =
      let t : (length (x ∷ xs) == 0) ≡ false = ground arith in
      elim (bmap-Mapped sb f ip (off / bsize) o (omega arith)) [
        | inl r ↦ inl (rw t (rw r refl))
        | inr (f1, ip1, a, r, nz, at, g) ↦
            let m = min (length (x ∷ xs)) (bsize - off % bsize) in
            let ys = take m (x ∷ xs) in
            let zs = drop m (x ∷ xs) in
            let size_y : length ys ≡ m = omega (arith, length-take m (x ∷ xs)) in
            let size_z : length zs ≡ length (x ∷ xs) - m = length-drop m (x ∷ xs) in
            let f1' = put_block f1 a (splice (f1.blocks a) (off % bsize) ys) in
            let w =
              splice-Wrote sb f1 ip1 off a ys g.okay (omega arith) at nz (omega arith)
                (All-take m (x ∷ xs) small) in
            elim (write_from-DidWrite k f1' ip1 (off + m) zs w.okay (omega arith) (omega arith)
              (All-drop m (x ∷ xs) small)) [
                | inl r' ↦ inl (rw t (rw r r'))
                | inr (f2, ip2, r', w') ↦ inr (
                  f2,
                  ip2,
                  rw t (rw r r'),
                  Grown-Wrote sb f f1 f2 ip ip1 ip2 off (x ∷ xs) g
                      (Wrote-trans sb f1 f1' f2 ip1 ip1 ip2 off m (x ∷ xs) (omega arith) l w w'),
                )
              ]
      ]
