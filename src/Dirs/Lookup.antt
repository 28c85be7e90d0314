-- ===== src/Dirs/Lookup.antt =====
-- fs.c: what dirlookup finds.
use os_assignment.Prelude.{
  ℕ, zero, suc, ◌+◌, ◌-◌, ◌*◌, ◌/◌, ◌%◌, ◌^◌, ◌<◌, ◌≤◌, ◌≡◌, ◌⊎◌, inl, inr, refl, ap, ◌∙◌, arith,
  min, Bool, true, false, not, ltb, ◌==◌, Bool-cases, Option, none, some, ok, panic, String,
}
use os_assignment.Blocks.{Super, Fs, bsize}
use os_assignment.Inodes.{Inode, max_file, t_dir, slice, done}
use os_assignment.Inodes.Words.{slice-eq}
use os_assignment.Inodes.Slots.{slot, content, InodeOk, Grown, Grown-trans, Grown-refl}
use os_assignment.Inodes.Read.{readi_lem}
use os_assignment.Dirs.Names.{
  entry, Matches, get_or-slice-small, found-Matches, other_name, unused_entry,
}
use os_assignment.Dirs.{Dirent, dirent_size, dirent_of, namecmp, read_entry, lookup_from, dirlookup}

-- What a search from the entry `lo` on gives in a directory of `n` entries.
abbrev pub Finds : (ℕ → ℕ) → (ℕ → ℕ) → ℕ → ℕ → Option (ℕ × ℕ) → Type 0
Finds g name lo n r =
    ((r ≡ none) × ((i : ℕ) → lo ≤ i → i < n → ¬ Matches name (entry g i)))
    ⊎ ((i : ℕ) × (lo ≤ i)
        × (i < n)
        × (r ≡ some (dirent_size * i, (entry g i).inum))
        × Matches name (entry g i)
        × ((j : ℕ) → lo ≤ j → j < i → ¬ Matches name (entry g j)))

pub content-small :
    (sb : Super) (f : Fs) (ip : Inode) (o : ℕ) → InodeOk sb f ip → content f ip o < 256
content-small sb f ip o h = ground (arith, h.bytes (slot f ip (o / bsize)) (o % bsize))

-- A search goes on behind an entry that does not match.
Finds-next :
    (g name : ℕ → ℕ) (lo n : ℕ) (r : Option (ℕ × ℕ))
    → ¬ Matches name (entry g lo)
    → Finds g name (lo + 1) n r
    → Finds g name lo n r
Finds-next g name lo n r other (inl (e, none_)) = inl (
  e,
  λ i a b. elim (Bool-cases (i == lo)) [
    | inl t ↦ let q : i ≡ lo = ground (arith, t) in rw q other
    | inr t ↦ none_ i (ground (arith, t, a)) b
  ],
)
Finds-next g name lo n r other (inr (i, a, b, e, m, before)) = inr (
  i,
  omega arith,
  b,
  e,
  m,
  λ j c d. elim (Bool-cases (j == lo)) [
    | inl t ↦ let q : j ≡ lo = ground (arith, t) in rw q other
    | inr t ↦ before j (ground (arith, t, c)) d
  ],
)

module _ (sb : Super) (has : ℕ → Bool) where
  pub read_entry_lem :
      (f : Fs) (dp : Inode) (i n : ℕ) (why : String)
      → InodeOk sb f dp
      → dp.type ≡ t_dir
      → dp.size ≡ dirent_size * n
      → i < n
      → dp.size ≤ max_file * bsize
      → (read_entry sb has f dp (dirent_size * i) why ≡ panic "balloc: out of blocks")
        ⊎ ((f' : Fs) × (dp' : Inode) × (read_entry sb has f dp (dirent_size * i) why
              ≡ ok (f', dp', entry (content f dp) i))
            × Grown sb f dp f' dp')
  unfolding read_entry
  read_entry_lem f dp i n why o dir size_ l big =
      elim (readi_lem sb has f dp (dirent_size * i) dirent_size o big (omega arith) (omega arith)
        (omega arith)) [
          | inl (a, r) ↦ elim a [ inl b ↦ absurd (omega arith) | inr b ↦ absurd (omega arith) ]
          | inr (a, b, outcome) ↦ elim outcome [
            | inl r ↦ inl (rw r refl)
            | inr (f', dp', r, g) ↦
                let count : min dirent_size (dp.size - dirent_size * i) ≡ dirent_size =
                  omega arith in
                let r' =
                  r
                  ∙ ap (λ k. ok (f', dp', done (slice (content f dp) (dirent_size * i) k))) count in
                inr (f', dp', rw r' refl, g)
          ]
        ]

  -- A round that ends at an entry, and one that goes on behind it.
  took :
      (k : ℕ) (f f' : Fs) (dp dp' : Inode) (off : ℕ) (name : ℕ → ℕ) (d : Dirent)
      → ltb off dp.size ≡ true
      → read_entry sb has f dp off "dirlookup read" ≡ ok (f', dp', d)
      → (d.inum == 0) ≡ false
      → (namecmp name d.name == 0) ≡ true
      → lookup_from sb has (suc k) f dp off name ≡ ok (f', dp', some (off, d.inum))
  unfolding lookup_from
  took k f f' dp dp' off name d a r t u = rw a (rw r (rw t (rw u refl)))

  went_on :
      (k : ℕ) (f f' : Fs) (dp dp' : Inode) (off off' : ℕ) (name : ℕ → ℕ) (d : Dirent)
      → ltb off dp.size ≡ true
      → read_entry sb has f dp off "dirlookup read" ≡ ok (f', dp', d)
      → ((d.inum == 0) ≡ true) ⊎ ((namecmp name d.name == 0) ≡ false)
      → (off + dirent_size) % 2 ^ 32 ≡ off'
      → lookup_from sb has (suc k) f dp off name ≡ lookup_from sb has k f' dp' off' name
  unfolding lookup_from
  went_on k f f' dp dp' off off' name d a r (inl t) e = rw a (rw r (rw t (rw e refl)))
  went_on k f f' dp dp' off off' name d a r (inr u) e = elim (Bool-cases (d.inum == 0)) [
    | inl t ↦ rw a (rw r (rw t (rw e refl)))
    | inr t ↦ rw a (rw r (rw t (rw u (rw e refl))))
  ]

  stopped :
      (k : ℕ) (f : Fs) (dp : Inode) (off : ℕ) (name : ℕ → ℕ)
      → ltb off dp.size ≡ true
      → read_entry sb has f dp off "dirlookup read" ≡ panic "balloc: out of blocks"
      → lookup_from sb has (suc k) f dp off name ≡ panic "balloc: out of blocks"
  unfolding lookup_from
  stopped k f dp off name a r = rw a (rw r refl)

  at_end :
      (k : ℕ) (f : Fs) (dp : Inode) (off : ℕ) (name : ℕ → ℕ)
      → ltb off dp.size ≡ false
      → lookup_from sb has (suc k) f dp off name ≡ ok (f, dp, none)
  unfolding lookup_from
  at_end k f dp off name a = rw a refl

  module _ (g name : ℕ → ℕ) (n : ℕ) (b : (a : ℕ) → name a < 256) (c : (o : ℕ) → g o < 256) where
    -- The outcome of the search from the entry `lo` on.
    abbrev ResultOf : ℕ → Fs → Inode → ℕ → Type 0
    ResultOf k f dp lo =
        (lookup_from sb has k f dp (dirent_size * lo) name ≡ panic "balloc: out of blocks")
        ⊎ ((f' : Fs) × (dp' : Inode) × (r : Option (ℕ × ℕ)) × (lookup_from sb has k f dp
                (dirent_size * lo) name
              ≡ ok (f', dp', r))
            × Grown sb f dp f' dp'
            × Finds g name lo n r)

    pass :
        (k : ℕ) (f f1 : Fs) (dp dp1 : Inode) (lo : ℕ)
        → Grown sb f dp f1 dp1
        → lookup_from sb has (suc k) f dp (dirent_size * lo) name
          ≡ lookup_from sb has k f1 dp1 (dirent_size * (lo + 1)) name
        → ¬ Matches name (entry g lo)
        → ResultOf k f1 dp1 (lo + 1)
        → ResultOf (suc k) f dp lo
    pass k f f1 dp dp1 lo h e other (inl r) = inl (e ∙ r)
    pass k f f1 dp dp1 lo h e other (inr (f2, dp2, r, q, h', found)) = inr (
      f2,
      dp2,
      r,
      e ∙ q,
      Grown-trans sb f f1 f2 dp dp1 dp2 h h',
      Finds-next g name lo n r other found,
    )

    -- The tests of an entry that was read, and the rounds behind it.
    one_round :
        (k : ℕ) (f f1 : Fs) (dp dp1 : Inode) (lo : ℕ)
        → Grown sb f dp f1 dp1
        → ltb (dirent_size * lo) dp.size ≡ true
        → read_entry sb has f dp (dirent_size * lo) "dirlookup read" ≡ ok (f1, dp1, entry g lo)
        → lo < n
        → (dirent_size * lo + dirent_size) % 2 ^ 32 ≡ dirent_size * (lo + 1)
        → ResultOf k f1 dp1 (lo + 1)
        → ResultOf (suc k) f dp lo
    one_round k f f1 dp dp1 lo h a r inside on rest =
        let off = dirent_size * lo in
        let e = entry g lo in
        let on_to = went_on k f f1 dp dp1 off (dirent_size * (lo + 1)) name e a r in
        let named : (j : ℕ) → e.name j < 256 =
          λ j. get_or-slice-small g off dirent_size (j + 2) c in
        elim (Bool-cases (e.inum == 0)) [
          | inl t ↦
              pass k f f1 dp dp1 lo h (on_to (inl t) on) (unused_entry name e e.inum refl t) rest
          | inr t ↦ elim (Bool-cases (namecmp name e.name == 0)) [
            | inl u ↦
                let found = found-Matches name e b named t u in
                inr (
                  f1,
                  dp1,
                  some (off, e.inum),
                  took k f f1 dp dp1 off name e a r t u,
                  h,
                  inr (lo, omega arith, inside, refl, found, λ j p q. absurd (omega arith)),
                )
            | inr u ↦ pass k f f1 dp dp1 lo h (on_to (inr u) on) (other_name name e b named u) rest
          ]
        ]

    lookup_from-Finds :
        (k : ℕ) (f : Fs) (dp : Inode) (lo : ℕ)
        → n < k + lo
        → lo ≤ n
        → InodeOk sb f dp
        → dp.type ≡ t_dir
        → dp.size ≡ dirent_size * n
        → dp.size ≤ max_file * bsize
        → ((o : ℕ) → o / bsize < max_file → content f dp o ≡ g o)
        → ResultOf k f dp lo
    lookup_from-Finds zero f dp lo fuel le o dir size_ big same = absurd (omega arith)
    lookup_from-Finds (suc k) f dp lo fuel le o dir size_ big same =
        elim (Bool-cases (ltb (dirent_size * lo) dp.size)) [
          | inr a ↦ inr (
            f,
            dp,
            none,
            at_end k f dp (dirent_size * lo) name a,
            Grown-refl sb f dp o,
            inl (refl, λ i p q. absurd (ground (arith, a, size_, p, q))),
          )
          | inl a ↦
              let inside : lo < n = ground (arith, a, size_) in
              elim (read_entry_lem f dp lo n "dirlookup read" o dir size_ inside big) [
                | inl r ↦ inl (stopped k f dp (dirent_size * lo) name a r)
                | inr (f1, dp1, r, h) ↦
                    let d : entry (content f dp) lo ≡ entry g lo = ap dirent_of (
                      slice-eq (content f dp) g (dirent_size * lo) (dirent_size * lo) dirent_size
                        (λ j l. same (dirent_size * lo + j) (omega arith))) in
                    let r' = r ∙ ap (λ e. ok (f1, dp1, e)) d in
                    one_round k f f1 dp dp1 lo h a r' inside (omega arith) (
                      lookup_from-Finds k f1 dp1 (lo + 1) (omega arith) (omega arith) h.okay
                        (ap (λ (i : Inode). i.type) h.fields ∙ dir)
                        (ap (λ (i : Inode). i.size) h.fields ∙ size_)
                        (omega (arith, ap (λ (i : Inode). i.size) h.fields, big))
                        (λ q l. h.contents q l ∙ same q l))
              ]
        ]

  -- `dirlookup` in a sound directory of whole entries: it returns the offset and the inode number of
  -- the first entry that is in use and has the name, as strings of at most DIRSIZ bytes compare, or
  -- nothing exactly if no entry does. It changes no byte of the directory and no block of others. The one
  -- other outcome is the panic for want of a free block; "dirlookup read" does not occur.
  pub dirlookup-Finds :
      (f : Fs) (dp : Inode) (name : ℕ → ℕ) (n : ℕ)
      → InodeOk sb f dp
      → dp.type ≡ t_dir
      → dp.size ≡ dirent_size * n
      → dp.size ≤ max_file * bsize
      → ((a : ℕ) → name a < 256)
      → (dirlookup sb has f dp name ≡ panic "balloc: out of blocks")
        ⊎ ((f' : Fs) × (dp' : Inode) × (r : Option (ℕ × ℕ)) × (dirlookup sb has f dp name
              ≡ ok (f', dp', r))
            × Grown sb f dp f' dp'
            × Finds (content f dp) name 0 n r)
  unfolding dirlookup
  dirlookup-Finds f dp name n o dir size_ big b =
      let t : not (dp.type == t_dir) ≡ false = ground (arith, dir) in
      elim (lookup_from-Finds (content f dp) name n b (λ q. content-small sb f dp q o)
        (dp.size / dirent_size + 1) f dp 0 (omega arith) (omega arith) o dir size_ big
        (λ q l. refl)) [
          | inl r ↦ inl (rw t r)
          | inr (f', dp', r, e, h, found) ↦ inr (f', dp', r, rw t e, h, found)
        ]
