-- ===== src/Inodes/Same.antt =====
-- fs.c: itrunc leaves the number of an inode and its device.
use os_assignment.Prelude.{
  ℕ, zero, suc, ◌+◌, ◌≡◌, refl, ap, ◌∙◌, sym, ◌==◌, Bool-cases, inl, inr, update, Result, ok, panic,
  ◌>>=◌, ok-injective,
}
use os_assignment.Blocks.{Super, Fs, bfree}
use os_assignment.Inodes.{
  Inode, ndirect, nindirect, free_direct, trunc_direct, trunc_entries, trunc_indirect, itrunc,
}

-- Both inodes are the same one of the disk.
abbrev pub SameInode : Inode → Inode → Type 0
SameInode ip jp = (ip.dev ≡ jp.dev) × (ip.inum ≡ jp.inum)

pub bind_ok :
    {A B : Type 0} (r : Result A) (k : A → Result B) (b : B)
    → (r >>= k) ≡ ok b
    → (a : A) × (r ≡ ok a) × (k a ≡ ok b)
bind_ok (ok a) k b e = (a, refl, e)
bind_ok (panic m) k b e = cc (e)

module _ (sb : Super) where
  free_direct-SameInode :
      (f : Fs) (ip : Inode) (i : ℕ) (r : Fs × Inode)
      → free_direct sb f ip i ≡ ok r
      → SameInode r.1 ip
  unfolding free_direct
  free_direct-SameInode f ip i r e = elim (Bool-cases (ip.addrs i == 0)) [
    | inl t ↦
        let q : ok (f, ip) ≡ ok r = rw t at e in
        let same : ip ≡ r.1 = ap (λ (p : Fs × Inode). p.1) (ok-injective q) in
        (ap (λ (j : Inode). j.dev) (sym same), ap (λ (j : Inode). j.inum) (sym same))
    | inr t ↦
        let (f', q, q') = bind_ok (bfree sb f (ip.addrs i)) _ r (rw t at e) in
        let same : record ip { addrs = update ip.addrs i 0 } ≡ r.1 =
          ap (λ (p : Fs × Inode). p.1) (ok-injective q') in
        (ap (λ (j : Inode). j.dev) (sym same), ap (λ (j : Inode). j.inum) (sym same))
  ]

  trunc_direct-SameInode :
      (n i : ℕ) (f : Fs) (ip : Inode) (r : Fs × Inode)
      → trunc_direct sb n i f ip ≡ ok r
      → SameInode r.1 ip
  unfolding trunc_direct
  trunc_direct-SameInode zero i f ip r e =
      let same : ip ≡ r.1 = ap (λ (p : Fs × Inode). p.1) (ok-injective e) in
      (ap (λ (j : Inode). j.dev) (sym same), ap (λ (j : Inode). j.inum) (sym same))
  trunc_direct-SameInode (suc n) i f ip r e =
      let (r', q, q') = bind_ok (free_direct sb f ip i) _ r e in
      let a = free_direct-SameInode f ip i r' q in
      let b = trunc_direct-SameInode n (i + 1) r'.0 r'.1 r q' in (b.0 ∙ a.0, b.1 ∙ a.1)

  trunc_indirect-SameInode :
      (f : Fs) (ip : Inode) (r : Fs × Inode) → trunc_indirect sb f ip ≡ ok r → SameInode r.1 ip
  unfolding trunc_indirect
  trunc_indirect-SameInode f ip r e = elim (Bool-cases (ip.addrs ndirect == 0)) [
    | inl t ↦
        let q : ok (f, ip) ≡ ok r = rw t at e in
        let same : ip ≡ r.1 = ap (λ (p : Fs × Inode). p.1) (ok-injective q) in
        (ap (λ (j : Inode). j.dev) (sym same), ap (λ (j : Inode). j.inum) (sym same))
    | inr t ↦
        let (f', q, q') =
          bind_ok (trunc_entries sb nindirect 0 (f.blocks (ip.addrs ndirect)) f) _ r (rw t at e) in
        let (f'', q2, q3) = bind_ok (bfree sb f' (ip.addrs ndirect)) _ r q' in
        let same : record ip { addrs = update ip.addrs ndirect 0 } ≡ r.1 =
          ap (λ (p : Fs × Inode). p.1) (ok-injective q3) in
        (ap (λ (j : Inode). j.dev) (sym same), ap (λ (j : Inode). j.inum) (sym same))
  ]

  pub itrunc-SameInode :
      (f : Fs) (ip : Inode) (r : Fs × Inode) → itrunc sb f ip ≡ ok r → SameInode r.1 ip
  unfolding itrunc
  itrunc-SameInode f ip r e =
      let (r1, q1, e1) = bind_ok (trunc_direct sb ndirect 0 f ip) _ r e in
      let (r2, q2, e2) = bind_ok (trunc_indirect sb r1.0 r1.1) _ r e1 in
      let a = trunc_direct-SameInode ndirect 0 f ip r1 q1 in
      let b = trunc_indirect-SameInode r1.0 r1.1 r2 q2 in
      let same : record r2.1 { size = 0 } ≡ r.1 = ap (λ (p : Fs × Inode). p.1) (ok-injective e2) in
      (
        ap (λ (j : Inode). j.dev) (sym same) ∙ b.0 ∙ a.0,
        ap (λ (j : Inode). j.inum) (sym same) ∙ b.1 ∙ a.1,
      )
