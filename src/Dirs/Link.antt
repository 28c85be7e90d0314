-- ===== src/Dirs/Link.antt =====
-- fs.c: what dirlink leaves.
use os_assignment.Prelude.{
  ℕ, zero, suc, ◌+◌, ◌*◌, ◌/◌, ◌<◌, ◌≤◌, ◌≡◌, ◌⊎◌, inl, inr, refl, ap, ◌≢◌, ◌∙◌, arith, Bool, true,
  false, ltb, ◌==◌, Bool-cases, ok, panic,
}
use os_assignment.Blocks.{Super, Fs, bsize}
use os_assignment.Inodes.{Inode, max_file, t_dir}
use os_assignment.Inodes.Words.{slice-eq}
use os_assignment.Inodes.Slots.{content, InodeOk, Grown, Grown-trans, Grown-refl}
use os_assignment.Dirs.Names.{entry}
use os_assignment.Dirs.Lookup.{read_entry_lem}
use os_assignment.Dirs.{Dirent, dirent_size, dirent_of, read_entry, free_entry_from}

-- The entry that the loop of `dirlink` stops at.
pub record FreeAt (g : ℕ → ℕ) (lo n i : ℕ) : Type 0 where
  pub from : lo ≤ i
  pub upto : i ≤ n
  pub free : i < n → (entry g i).inum ≡ 0
  pub before : (j : ℕ) → lo ≤ j → j < i → (entry g j).inum ≢ 0

FreeAt-next :
    (g : ℕ → ℕ) (lo n i : ℕ) → (entry g lo).inum ≢ 0 → FreeAt g (lo + 1) n i → FreeAt g lo n i
FreeAt-next g lo n i nz h = record {
  from = ground (arith, h.from);
  upto = h.upto;
  free = h.free;
  before = λ j a b. elim (Bool-cases (j == lo)) [
    | inl t ↦ let q : j ≡ lo = ground (arith, t) in rw q nz
    | inr t ↦ h.before j (ground (arith, t, a)) b
  ];
}

module _ (sb : Super) (has : ℕ → Bool) where
  stop_at :
      (k : ℕ) (f f' : Fs) (dp dp' : Inode) (off : ℕ) (d : Dirent)
      → ltb off dp.size ≡ true
      → read_entry sb has f dp off "dirlink read" ≡ ok (f', dp', d)
      → (d.inum == 0) ≡ true
      → free_entry_from sb has (suc k) f dp off ≡ ok (f', dp', off)
  unfolding free_entry_from
  stop_at k f f' dp dp' off d a r t = rw a (rw r (rw t refl))

  go_on :
      (k : ℕ) (f f' : Fs) (dp dp' : Inode) (off off' : ℕ) (d : Dirent)
      → ltb off dp.size ≡ true
      → read_entry sb has f dp off "dirlink read" ≡ ok (f', dp', d)
      → (d.inum == 0) ≡ false
      → off + dirent_size ≡ off'
      → free_entry_from sb has (suc k) f dp off ≡ free_entry_from sb has k f' dp' off'
  unfolding free_entry_from
  go_on k f f' dp dp' off off' d a r t e = rw a (rw r (rw t (rw e refl)))

  no_blocks :
      (k : ℕ) (f : Fs) (dp : Inode) (off : ℕ)
      → ltb off dp.size ≡ true
      → read_entry sb has f dp off "dirlink read" ≡ panic "balloc: out of blocks"
      → free_entry_from sb has (suc k) f dp off ≡ panic "balloc: out of blocks"
  unfolding free_entry_from
  no_blocks k f dp off a r = rw a (rw r refl)

  at_end :
      (k : ℕ) (f : Fs) (dp : Inode) (off : ℕ)
      → ltb off dp.size ≡ false
      → free_entry_from sb has (suc k) f dp off ≡ ok (f, dp, off)
  unfolding free_entry_from
  at_end k f dp off a = rw a refl

  module _ (g : ℕ → ℕ) (n : ℕ) where
    abbrev Stops : ℕ → Fs → Inode → ℕ → Type 0
    Stops k f dp lo =
        (free_entry_from sb has k f dp (dirent_size * lo) ≡ panic "balloc: out of blocks")
        ⊎ ((f' : Fs) × (dp' : Inode) × (i : ℕ) × (free_entry_from sb has k f dp (dirent_size * lo)
              ≡ ok (f', dp', dirent_size * i))
            × Grown sb f dp f' dp'
            × FreeAt g lo n i)

    step :
        (k : ℕ) (f f1 : Fs) (dp dp1 : Inode) (lo : ℕ)
        → Grown sb f dp f1 dp1
        → ltb (dirent_size * lo) dp.size ≡ true
        → read_entry sb has f dp (dirent_size * lo) "dirlink read" ≡ ok (f1, dp1, entry g lo)
        → lo < n
        → dirent_size * lo + dirent_size ≡ dirent_size * (lo + 1)
        → Stops k f1 dp1 (lo + 1)
        → Stops (suc k) f dp lo
    step k f f1 dp dp1 lo h a r inside on rest =
        let off = dirent_size * lo in
        let e = entry g lo in
        elim (Bool-cases (e.inum == 0)) [
          | inl t ↦
              let z = zero_of e.inum t in
              inr (f1, dp1, lo, stop_at k f f1 dp dp1 off e a r t, h, here z)
          | inr t ↦
              let run = go_on k f f1 dp dp1 off (dirent_size * (lo + 1)) e a r t on in
              let nz = not_zero e.inum t in
              elim rest [
                | inl r' ↦ inl (run ∙ r')
                | inr (f2, dp2, i, r', h', free) ↦ inr (
                  f2,
                  dp2,
                  i,
                  run ∙ r',
                  Grown-trans sb f f1 f2 dp dp1 dp2 h h',
                  FreeAt-next g lo n i nz free,
                )
              ]
        ]
      where
        zero_of : (x : ℕ) → (x == 0) ≡ true → x ≡ 0
        zero_of x t = ground (arith, t)

        not_zero : (x : ℕ) → (x == 0) ≡ false → x ≢ 0
        not_zero x t = ground (arith, t)

        here : (entry g lo).inum ≡ 0 → FreeAt g lo n lo
        here z = record {
          from = omega arith;
          upto = omega arith;
          free = λ l. z;
          before = λ j p q. absurd (omega arith);
        }

    pub free_entry_from-FreeAt :
        (k : ℕ) (f : Fs) (dp : Inode) (lo : ℕ)
        → n < k + lo
        → lo ≤ n
        → InodeOk sb f dp
        → dp.type ≡ t_dir
        → dp.size ≡ dirent_size * n
        → dp.size ≤ max_file * bsize
        → ((o : ℕ) → o / bsize < max_file → content f dp o ≡ g o)
        → Stops k f dp lo
    free_entry_from-FreeAt zero f dp lo fuel le o dir size_ big same = absurd (omega arith)
    free_entry_from-FreeAt (suc k) f dp lo fuel le o dir size_ big same =
        elim (Bool-cases (ltb (dirent_size * lo) dp.size)) [
          | inr a ↦
              let last : lo ≡ n = ground (arith, a, size_, le) in
              inr (
                f,
                dp,
                lo,
                at_end k f dp (dirent_size * lo) a,
                Grown-refl sb f dp o,
                record {
                  from = omega arith;
                  upto = le;
                  free = λ l. absurd (omega arith);
                  before = λ j p q. absurd (omega arith);
                },
              )
          | inl a ↦
              let inside : lo < n = ground (arith, a, size_) in
              elim (read_entry_lem sb has f dp lo n "dirlink read" o dir size_ inside big) [
                | inl r ↦ inl (no_blocks k f dp (dirent_size * lo) a r)
                | inr (f1, dp1, r, h) ↦
                    let d : entry (content f dp) lo ≡ entry g lo = ap dirent_of (
                      slice-eq (content f dp) g (dirent_size * lo) (dirent_size * lo) dirent_size
                        (λ j l. same (dirent_size * lo + j) (omega arith))) in
                    step k f f1 dp dp1 lo h a (r ∙ ap (λ e. ok (f1, dp1, e)) d) inside (omega arith)
                      (free_entry_from-FreeAt k f1 dp1 (lo + 1) (omega arith) (omega arith) h.okay
                        (ap (λ (i : Inode). i.type) h.fields ∙ dir)
                        (ap (λ (i : Inode). i.size) h.fields ∙ size_)
                        (omega (arith, ap (λ (i : Inode). i.size) h.fields, big))
                        (λ q l. h.contents q l ∙ same q l))
              ]
        ]
