-- ===== src/Inodes/Map.antt =====
-- fs.c: bmap.
use mathlib.Core.Path.{subst}
use native.Mathlib.Decide.{ℕ_discrete}
use os_assignment.Prelude.{
  ℕ, ◌+◌, ◌-◌, ◌*◌, ◌<◌, ◌≡◌, ◌≢◌, ◌⊎◌, inl, inr, refl, ap, ◌∙◌, sym, arith, true, false, ltb, ◌==◌,
  Bool-cases, update, Result, ok, panic, ◌>>=◌,
}
use os_assignment.Blocks.{Super, Fs, put_block}
use os_assignment.Blocks.Map.{is_free}
use os_assignment.Blocks.Alloc.{Taken, balloc_lem}
use os_assignment.Inodes.{
  Inode, ndirect, nindirect, max_file, get_word, put_word, bmap_slot, bmap_entry, bmap,
}
use os_assignment.Inodes.Slots.{slot, InodeOk, Filled, Grown, Grown-trans, Grown-refl, Filled-Grown}
use os_assignment.Inodes.Fill.{slot_direct, slot_entry, direct-Filled, indirect-Filled}
use os_assignment.Inodes.Entry.{entry-Filled}

-- What `bmap` may return for a slot: a block of the inode, after it has grown by the blocks that were
-- missing, or a panic for want of a free block.
abbrev pub Mapped : Super → Fs → Inode → ℕ → Result (Fs × Inode × ℕ) → Type 0
Mapped sb f ip s r =
    (r ≡ panic "balloc: out of blocks")
    ⊎ ((f' : Fs) × (ip' : Inode) × (a : ℕ) × (r ≡ ok (f', ip', a))
        × (a ≢ 0)
        × (slot f' ip' s ≡ a)
        × Grown sb f ip f' ip')

module _ (sb : Super) where
  -- A new block is not block 0.
  grown_some :
      (f : Fs) (ip : Inode) (s c : ℕ) (f' : Fs) (ip' : Inode)
      → InodeOk sb f ip
      → (f1 : Fs) → Filled sb f ip s c f1 f' ip'
      → c ≢ 0
  grown_some f ip s c f' ip' o f1 h e = cc (sym h.taken.was_free ∙ ap (is_free sb f) e ∙ o.boot)

  bmap_slot-Mapped :
      (f : Fs) (ip : Inode) (i s : ℕ)
      → InodeOk sb f ip
      → slot f ip s ≡ ip.addrs i
      → ((c : ℕ) (f1 : Fs)
          → Taken sb f c f1
          → ip.addrs i ≡ 0
          → Filled sb f ip s c f1 f1 (record ip { addrs = update ip.addrs i c }))
      → Mapped sb f ip s (bmap_slot sb f ip i)
  unfolding bmap_slot
  bmap_slot-Mapped f ip i s o at fill = elim (ℕ_discrete (ip.addrs i) 0) [
    | yes z ↦
        let t : (ip.addrs i == 0) ≡ true = ground (arith, z) in
        elim (balloc_lem sb f o.bytes o.apart) [
          | inl (r, all) ↦ inl (rw t (rw r refl))
          | inr (c, f1, r, taken) ↦
              let h = fill c f1 taken z in
              inr (
                f1,
                record ip { addrs = update ip.addrs i c },
                c,
                rw t (rw r refl),
                grown_some f ip s c f1 (record ip { addrs = update ip.addrs i c }) o f1 h,
                h.filled,
                Filled-Grown sb f ip s c f1 f1 (record ip { addrs = update ip.addrs i c }) o h,
              )
        ]
    | no nz ↦
        let t : (ip.addrs i == 0) ≡ false = ground (arith, nz) in
        inr (f, ip, ip.addrs i, rw t refl, nz, at, Grown-refl sb f ip o)
  ]

  bmap_entry-Mapped :
      (f : Fs) (ip : Inode) (i : ℕ)
      → InodeOk sb f ip
      → i < nindirect
      → ip.addrs ndirect ≢ 0
      → Mapped sb f ip (ndirect + i) (bmap_entry sb f ip (ip.addrs ndirect) i)
  unfolding bmap_entry
  bmap_entry-Mapped f ip i o l nz =
      let word = get_word (f.blocks (ip.addrs ndirect)) (4 * i) in
      let at : slot f ip (ndirect + i) ≡ word =
        slot_entry f ip (ndirect + i) (omega arith) (omega arith) nz
        ∙ ap (λ k. get_word (f.blocks (ip.addrs ndirect)) (4 * k)) (omega arith) in
      elim (ℕ_discrete word 0) [
        | yes z ↦
            let t : (word == 0) ≡ true = ground (arith, z) in
            elim (balloc_lem sb f o.bytes o.apart) [
              | inl (r, all) ↦ inl (rw t (rw r refl))
              | inr (c, f1, r, taken) ↦
                  let h = entry-Filled sb f ip o c f1 taken i l nz (at ∙ z) in
                  let f' =
                    put_block f1 (ip.addrs ndirect)
                      (put_word (f1.blocks (ip.addrs ndirect)) (4 * i) c) in
                  inr (
                    f',
                    ip,
                    c,
                    rw t (rw r refl),
                    grown_some f ip (ndirect + i) c f' ip o f1 h,
                    h.filled,
                    Filled-Grown sb f ip (ndirect + i) c f1 f' ip o h,
                  )
            ]
        | no nw ↦
            let t : (word == 0) ≡ false = ground (arith, nw) in
            inr (f, ip, word, rw t refl, nw, at, Grown-refl sb f ip o)
      ]

  pub bmap_direct :
      (f : Fs) (ip : Inode) (bn : ℕ)
      → ltb bn ndirect ≡ true
      → bmap sb f ip bn ≡ bmap_slot sb f ip bn
  unfolding bmap
  bmap_direct f ip bn t = rw t refl

  pub bmap_indirect :
      (f : Fs) (ip : Inode) (bn : ℕ)
      → ltb bn ndirect ≡ false
      → ltb (bn - ndirect) nindirect ≡ true
      → bmap sb f ip bn
        ≡ (bmap_slot sb f ip ndirect >>= λ r. bmap_entry sb r.0 r.1 r.2 (bn - ndirect))
  unfolding bmap
  bmap_indirect f ip bn t small = rw t (rw small refl)

  through_indirect :
      (f : Fs) (ip : Inode) (i : ℕ)
      → InodeOk sb f ip
      → i < nindirect
      → Mapped sb f ip
          (ndirect + i)
          (bmap_slot sb f ip ndirect >>= λ r. bmap_entry sb r.0 r.1 r.2 i)
  through_indirect f ip i o l =
      elim (bmap_slot-Mapped f ip ndirect max_file o refl
        (λ c f1 taken z. indirect-Filled sb f ip o c f1 taken z)) [
          | inl r ↦ inl (rw r refl)
          | inr (f1, ip1, a, r, nz, at, g) ↦
              let found : ip1.addrs ndirect ≢ 0 = λ z. nz (sym at ∙ z) in
              elim (bmap_entry-Mapped f1 ip1 i g.okay l found) [
                | inl q ↦ inl (rw r (ap (λ k. bmap_entry sb f1 ip1 k i) (sym at) ∙ q))
                | inr (f2, ip2, b, q, nb, at', g') ↦ inr (
                  f2,
                  ip2,
                  b,
                  rw r (ap (λ k. bmap_entry sb f1 ip1 k i) (sym at) ∙ q),
                  nb,
                  at',
                  Grown-trans sb f f1 f2 ip ip1 ip2 g g',
                )
              ]
        ]

  -- For every block of a file that may be, `bmap` gives a block of the disk that the inode then has at
  -- this place, or panics for want of a free block. The contents of the file, its fields but for the block
  -- numbers, and the blocks in use by others are as before; an inode whose blocks are in use and
  -- distinct remains so.
  pub bmap-Mapped :
      (f : Fs) (ip : Inode) (bn : ℕ)
      → InodeOk sb f ip
      → bn < max_file
      → Mapped sb f ip bn (bmap sb f ip bn)
  bmap-Mapped f ip bn o l = elim (Bool-cases (ltb bn ndirect)) [
    | inl t ↦
        let d : bn < ndirect = ground (arith, t) in
        subst (Mapped sb f ip bn) (sym (bmap_direct f ip bn t)) (
          bmap_slot-Mapped f ip bn bn o (slot_direct f ip bn d)
            (λ c f1 taken z. direct-Filled sb f ip o c f1 taken bn d z))
    | inr t ↦
        let small : ltb (bn - ndirect) nindirect ≡ true = ground (arith, t, l) in
        let back : ndirect + (bn - ndirect) ≡ bn = ground (arith, t) in
        subst (Mapped sb f ip bn) (sym (bmap_indirect f ip bn t small)) (
          subst
            (λ k.
              Mapped sb f ip k
                (bmap_slot sb f ip ndirect >>= λ r. bmap_entry sb r.0 r.1 r.2 (bn - ndirect)))
            back (through_indirect f ip (bn - ndirect) o (ground (arith, small))))
  ]
