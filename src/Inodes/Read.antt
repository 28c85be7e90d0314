-- ===== src/Inodes/Read.antt =====
-- fs.c: readi.
use os_assignment.Prelude.{
  ℕ, zero, suc, ◌+◌, ◌-◌, ◌*◌, ◌/◌, ◌%◌, ◌^◌, ◌<◌, ◌≤◌, ◌≡◌, ◌≢◌, ◌⊎◌, inl, inr, refl, ap, ap₂, ◌∙◌,
  sym, arith, min, Bool, true, false, ◌||◌, ltb, ◌==◌, if◌then◌else◌, Bool-cases, List, ◌++◌,
  Result, ok, panic, ◌>>=◌,
}
use os_assignment.Blocks.{Super, Fs, bsize}
use os_assignment.Inodes.{Inode, max_file, t_dev, slice, read_from, readi, failed, done}
use os_assignment.Inodes.Words.{slice-eq, slice-append}
use os_assignment.Inodes.Slots.{slot, byte_at, content, InodeOk, Grown, Grown-trans, Grown-refl}
use os_assignment.Inodes.Map.{bmap-Mapped}

-- The bytes of a part of a block, as bytes of the file.
pub content-slot :
    (f : Fs) (ip : Inode) (off a k : ℕ)
    → slot f ip (off / bsize) ≡ a
    → a ≢ 0
    → off % bsize + k < bsize
    → content f ip (off + k) ≡ f.blocks a (off % bsize + k)
content-slot f ip off a k at nz l =
    let block : (off + k) / bsize ≡ off / bsize = omega arith in
    let place : (off + k) % bsize ≡ off % bsize + k = omega arith in
    ap₂ (byte_at f) (ap (slot f ip) block ∙ at) place ∙ ground (arith, nz)

-- What reading `n` bytes from `off` may give.
abbrev pub DidRead : Super → Fs → Inode → ℕ → ℕ → Result (Fs × Inode × List ℕ) → Type 0
DidRead sb f ip off n r =
    (r ≡ panic "balloc: out of blocks")
    ⊎ ((f' : Fs) × (ip' : Inode) × (r ≡ ok (f', ip', slice (content f ip) off n))
        × Grown sb f ip f' ip')

module _ (sb : Super) where
  read_from-DidRead :
      (k : ℕ) (f : Fs) (ip : Inode) (off n : ℕ)
      → InodeOk sb f ip
      → n < k
      → off + n ≤ max_file * bsize
      → DidRead sb f ip off n (read_from sb k f ip off n)
  unfolding read_from
  read_from-DidRead zero f ip off n o h l = absurd (omega arith)
  read_from-DidRead (suc k) f ip off n o h l = elim (Bool-cases (n == 0)) [
    | inl t ↦
        let none_left : n ≡ 0 = ground (arith, t) in
        inr (
          f,
          ip,
          rw t (ap (λ i. ok (f, ip, slice (content f ip) off i)) (sym none_left)),
          Grown-refl sb f ip o,
        )
    | inr t ↦
        let some_left : 0 < n = ground (arith, t) in
        elim (bmap-Mapped sb f ip (off / bsize) o (omega arith)) [
          | inl r ↦ inl (rw t (rw r refl))
          | inr (f1, ip1, a, r, nz, at, g) ↦
              let m = min n (bsize - off % bsize) in
              elim (read_from-DidRead k f1 ip1 (off + m) (n - m) g.okay (omega arith)
                (omega arith)) [
                  | inl r' ↦ inl (rw t (rw r (rw r' refl)))
                  | inr (f2, ip2, r', g') ↦ inr (
                    f2,
                    ip2,
                    rw t (
                        rw r (
                          rw r' (
                            ap (λ xs. ok (f2, ip2, xs))
                              (pieces f1 ip1 a m at nz g (omega arith) (omega arith))))),
                    Grown-trans sb f f1 f2 ip ip1 ip2 g g',
                  )
                ]
        ]
  ]
    where
      pieces :
          (f1 : Fs) (ip1 : Inode) (a m : ℕ)
          → slot f1 ip1 (off / bsize) ≡ a
          → a ≢ 0
          → Grown sb f ip f1 ip1
          → m ≤ n
          → off % bsize + m ≤ bsize
          → slice (f1.blocks a) (off % bsize) m ++ slice (content f1 ip1) (off + m) (n - m)
            ≡ slice (content f ip) off n
      pieces f1 ip1 a m at nz g b c =
          let whole : m + (n - m) ≡ n = omega arith in
          ap₂ (λ xs ys. xs ++ ys)
            (slice-eq (f1.blocks a) (content f1 ip1) (off % bsize) off m
              (λ j q. sym (content-slot f1 ip1 off a j at nz (omega arith))))
            refl
          ∙ slice-append (content f1 ip1) off m (n - m)
          ∙ ap (slice (content f1 ip1) off) whole
          ∙ slice-eq (content f1 ip1) (content f ip) off off n
              (λ j q. g.contents (off + j) (omega arith))

  refused :
      (has : ℕ → Bool) (f : Fs) (ip : Inode) (off n : ℕ)
      → ip.type ≢ t_dev
      → (ltb ip.size off || ltb ((off + n) % 2 ^ 32) off) ≡ true
      → readi sb has f ip off n ≡ ok (f, ip, failed)
  unfolding readi
  refused has f ip off n file t =
      let d : (ip.type == t_dev) ≡ false = ground (arith, file) in rw d (rw t refl)

  pub accepted :
      (has : ℕ → Bool) (f : Fs) (ip : Inode) (off n n' : ℕ)
      → ip.type ≢ t_dev
      → (ltb ip.size off || ltb ((off + n) % 2 ^ 32) off) ≡ false
      → (if ltb ip.size ((off + n) % 2 ^ 32) then ip.size - off else n) ≡ n'
      → readi sb has f ip off n
        ≡ (read_from sb (n' + 1) f ip off n' >>= λ r. ok (r.0, r.1, done r.2))
  unfolding readi
  accepted has f ip off n n' file t e =
      let d : (ip.type == t_dev) ≡ false = ground (arith, file) in rw d (rw t (rw e refl))

  -- `readi` of a file whose blocks are in use and distinct, which is no device, and whose size is at most
  -- MAXFILE blocks, with an offset and a count below 2 ^ 32: it fails, and reads
  -- nothing, exactly if the offset is behind the end or the sum of offset and count overflows. Else it
  -- returns the bytes of the file from the offset on, as many as were asked for or as there are up to
  -- the end, with zeros where no block was written; the contents of the file and the blocks of others
  -- are as before. It may panic for want of a free block, as it gives a block to each hole that it reads.
  pub readi_lem :
      (has : ℕ → Bool) (f : Fs) (ip : Inode) (off n : ℕ)
      → InodeOk sb f ip
      → ip.size ≤ max_file * bsize
      → off < 2 ^ 32
      → n < 2 ^ 32
      → ip.type ≢ t_dev
      → (((ip.size < off) ⊎ (2 ^ 32 ≤ off + n)) × (readi sb has f ip off n ≡ ok (f, ip, failed)))
        ⊎ ((off ≤ ip.size)
            × (off + n < 2 ^ 32)
            × ((readi sb has f ip off n ≡ panic "balloc: out of blocks")
                ⊎ ((f' : Fs) × (ip' : Inode) × (readi sb has f ip off n
                      ≡ ok (f', ip', done (slice (content f ip) off (min n (ip.size - off)))))
                    × Grown sb f ip f' ip')))
  readi_lem has f ip off n o big lo ln file =
      elim (Bool-cases (ltb ip.size off || ltb ((off + n) % 2 ^ 32) off)) [
        | inl t ↦ inl (refused_why (ltb ip.size off) t refl, refused has f ip off n file t)
        | inr t ↦
            let inside : off ≤ ip.size = ground (arith, t) in
            let no_wrap : off + n < 2 ^ 32 = ground (arith, t, lo, ln) in
            let count : (if ltb ip.size ((off + n) % 2 ^ 32) then ip.size - off else n)
                ≡ min n (ip.size - off) =
              ground (arith, no_wrap, inside) in
            let n' = min n (ip.size - off) in
            let run = accepted has f ip off n n' file t count in
            inr (
              inside,
              no_wrap,
              elim (read_from-DidRead (n' + 1) f ip off n' o (omega arith) (omega arith)) [
                | inl r ↦ inl (run ∙ rw r refl)
                | inr (f', ip', r, g) ↦ inr (f', ip', run ∙ rw r refl, g)
              ],
            )
      ]
    where
      refused_why :
          (b : Bool)
          → (ltb ip.size off || ltb ((off + n) % 2 ^ 32) off) ≡ true
          → ltb ip.size off ≡ b
          → (ip.size < off) ⊎ (2 ^ 32 ≤ off + n)
      refused_why true t e = inl (ground (arith, e))
      refused_why false t e = inr (ground (arith, e, t, lo, ln))
