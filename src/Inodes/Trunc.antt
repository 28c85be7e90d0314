-- ===== src/Inodes/Trunc.antt =====
-- fs.c: itrunc gives back exactly the blocks of the inode.
use native.Mathlib.Decide.{ℕ_discrete}
use os_assignment.Prelude.{
  ℕ, ◌+◌, ◌-◌, ◌*◌, ◌%◌, ◌<◌, ◌≤◌, ◌≡◌, ◌≢◌, refl, ap, ◌∙◌, sym, arith, true, false, ◌==◌,
  if◌then◌else◌, update, update_ne, ok, ◌>>=◌,
}
use os_assignment.Blocks.{Super, Fs, bpb, bblock, bfree, clear_at}
use os_assignment.Blocks.Map.{is_free}
use os_assignment.Inodes.{
  Inode, ndirect, nindirect, max_file, get_word, iblock, ipb, put_dinode, iupdate, trunc_entries,
  trunc_indirect, itrunc,
}
use os_assignment.Inodes.Slots.{slot, Used, InodeOk, Foreign}
use os_assignment.Inodes.Fill.{slot_direct, slot_entry, slot_empty, kind, direct, indirect, entry}
use os_assignment.Inodes.Free.{
  FreedRun, InUse, bfree-FreedRun, trunc_entries-FreedRun, trunc_direct-FreedRun,
}

-- The blocks of an inode, and no others, were freed.
pub record Emptied (sb : Super) (f : Fs) (ip : Inode) (f' : Fs) : Type 0 where
  pub freed : (s : ℕ) → s ≤ max_file → slot f ip s ≢ 0 → is_free sb f' (slot f ip s) ≡ true
  pub rest :
      (d : ℕ)
      → ((s : ℕ) → s ≤ max_file → slot f ip s ≢ 0 → slot f ip s ≢ d)
      → is_free sb f' d ≡ is_free sb f d
  pub blocks : (d : ℕ) → ((e : ℕ) → e < sb.size → bblock sb e ≢ d) → f'.blocks d ≡ f.blocks d

indirect_run :
    (sb : Super) (f1 f2 f3 : Fs) (ip1 : Inode) (a : ℕ)
    → ip1.addrs ndirect ≡ a
    → (ip1.addrs ndirect == 0) ≡ false
    → trunc_entries sb nindirect 0 (f1.blocks a) f1 ≡ ok f2
    → bfree sb f2 a ≡ ok f3
    → trunc_indirect sb f1 ip1 ≡ ok (f3, record ip1 { addrs = update ip1.addrs ndirect 0 })
unfolding trunc_indirect
indirect_run sb f1 f2 f3 ip1 a e t r r' = rw t (
    ap
      (λ b. trunc_entries sb nindirect 0 (f1.blocks b) f1 >>= λ f'.
        bfree sb f' b >>= λ f''. ok (f'', record ip1 { addrs = update ip1.addrs ndirect 0 }))
      e
    ∙ rw r (rw r' refl))

-- The free map after an inode was stored in its block.
is_free-iupdate :
    (sb : Super) (f : Fs) (ip : Inode) (d : ℕ)
    → bblock sb d ≢ iblock sb ip.inum
    → is_free sb (iupdate sb f ip) d ≡ is_free sb f d
unfolding iupdate
is_free-iupdate sb f ip d ne =
    ap (λ (g : ℕ → ℕ). clear_at g (d % bpb))
      (update_ne f.blocks (put_dinode (f.blocks (iblock sb ip.inum)) (ip.inum % ipb * 64) ip)
        (λ e. ne (sym e)))

blocks-iupdate :
    (sb : Super) (f : Fs) (ip : Inode) (d : ℕ)
    → iblock sb ip.inum ≢ d
    → (iupdate sb f ip).blocks d ≡ f.blocks d
unfolding iupdate
blocks-iupdate sb f ip d ne =
    update_ne f.blocks (put_dinode (f.blocks (iblock sb ip.inum)) (ip.inum % ipb * 64) ip) ne

module _ (sb : Super) (f : Fs) (ip : Inode) (o : InodeOk sb f ip) where
  direct-InUse : InUse sb (slot f ip) 0 ndirect f
  direct-InUse = record {
    used = λ s p q nz. o.used s (omega arith) nz;
    distinct = λ s t p q p' q' ne nz e. nz (o.distinct s t (omega arith) (omega arith) ne e);
  }

  -- What is left after the direct blocks.
  module _ (f1 : Fs) (g : FreedRun sb (slot f ip) 0 ndirect f f1) where
    still_used : (s : ℕ) → ndirect ≤ s → s ≤ max_file → slot f ip s ≢ 0 → Used sb f1 (slot f ip s)
    still_used s l l' nz =
        let w = o.used s l' nz in
        record {
          inside = w.inside;
          taken =
              g.rest (slot f ip s)
                (λ r p q nz' e. nz' (o.distinct r s (omega arith) l' (omega arith) e))
              ∙ w.taken;
          no_map = w.no_map;
        }

    entries-InUse : InUse sb (λ j. slot f ip (ndirect + j)) 0 nindirect f1
    entries-InUse = record {
      used = λ s p q nz. still_used (ndirect + s) (omega arith) (omega arith) nz;
      distinct = λ s t p q p' q' ne nz e.
          nz (o.distinct (ndirect + s) (ndirect + t) (omega arith) (omega arith) (omega arith) e);
    }

    only_direct : ip.addrs ndirect ≡ 0 → Emptied sb f ip f1
    only_direct z = record {
      freed = λ s l nz. elim (kind s l) [
        | direct d ↦ g.freed s (omega arith) d nz
        | indirect e ↦ absurd (nz (ap (slot f ip) e ∙ z))
        | entry a d ↦ absurd (nz (slot_empty f ip s a d z))
      ];
      rest = λ d h. g.rest d (λ s p q. h s (omega arith));
      blocks = g.blocks;
    }

    module _ (f2 : Fs) (h : FreedRun sb (λ j. slot f ip (ndirect + j)) 0 nindirect f1 f2)
        (nz : ip.addrs ndirect ≢ 0) where
      indirect-InUse : InUse sb (λ j. ip.addrs ndirect) max_file (max_file + 1) f2
      indirect-InUse =
          let w = still_used max_file (omega arith) (omega arith) nz in
          record {
            used = λ s p q nz'. record {
              inside = w.inside;
              taken =
                  h.rest (ip.addrs ndirect) (λ r p' q' nz'' e.
                    nz'' (
                      o.distinct (ndirect + r) max_file (omega arith) (omega arith) (omega arith)
                        e))
                  ∙ w.taken;
              no_map = w.no_map;
            };
            distinct = λ s t p q p' q' ne. absurd (ne (omega arith));
          }

      all-Emptied :
          (f3 : Fs)
          → FreedRun sb (λ j. ip.addrs ndirect) max_file (max_file + 1) f2 f3
          → Emptied sb f ip f3
      all-Emptied f3 k = record {
        freed = λ s l nz'. elim (kind s l) [
          | direct d ↦
              k.rest (slot f ip s) (λ r p q z e.
                nz' (o.distinct s max_file (omega arith) (omega arith) (omega arith) (sym e)))
              ∙ h.rest (slot f ip s) (λ r p q z e.
                z (o.distinct (ndirect + r) s (omega arith) (omega arith) (omega arith) e))
              ∙ g.freed s (omega arith) d nz'
          | indirect e ↦
              ap (λ t. is_free sb f3 (slot f ip t)) e
              ∙ k.freed max_file (omega arith) (omega arith) nz
          | entry a d ↦
              let back : ndirect + (s - ndirect) ≡ s = omega arith in
              k.rest (slot f ip s) (λ r p q z e.
                nz' (o.distinct s max_file (omega arith) (omega arith) (omega arith) (sym e)))
              ∙ ap (λ t. is_free sb f2 (slot f ip t)) (sym back)
              ∙ h.freed (s - ndirect) (omega arith) (omega arith)
                  (λ z. nz' (ap (slot f ip) (sym back) ∙ z))
        ];
        rest = λ d w.
            k.rest d (λ s p q. w max_file (omega arith))
            ∙ h.rest d (λ s p q. w (ndirect + s) (omega arith))
            ∙ g.rest d (λ s p q. w s (omega arith));
        blocks = λ d w. k.blocks d w ∙ h.blocks d w ∙ g.blocks d w;
      }

  trunc_indirect-Emptied :
      (f1 : Fs) (ip1 : Inode)
      → FreedRun sb (slot f ip) 0 ndirect f f1
      → ip1.addrs ndirect ≡ ip.addrs ndirect
      → (f' : Fs) × (ip' : Inode) × (trunc_indirect sb f1 ip1 ≡ ok (f', ip'))
        × Emptied sb f ip f'
        × (ip' ≡ record ip1 { addrs = ip'.addrs })
        × ((k : ℕ) → ip'.addrs k ≡ (if k == ndirect then 0 else ip1.addrs k))
  unfolding trunc_indirect
  trunc_indirect-Emptied f1 ip1 g e = elim (ℕ_discrete (ip.addrs ndirect) 0) [
    | yes z ↦
        let t : (ip1.addrs ndirect == 0) ≡ true = ground (arith, e, z) in
        (f1, ip1, rw t refl, only_direct f1 g z, refl, cleared (e ∙ z))
    | no nz ↦
        let t : (ip1.addrs ndirect == 0) ≡ false = ground (arith, e, nz) in
        let w = still_used f1 g max_file (omega arith) (omega arith) nz in
        let words = λ (s : ℕ) (l : s < nindirect). word f1 g nz s l in
        let (f2, r, h) =
          trunc_entries-FreedRun sb (λ j. slot f ip (ndirect + j)) nindirect nindirect 0
            (f1.blocks (ip.addrs ndirect)) f1 (omega arith) g.bytes (entries-InUse f1 g) words in
        let (f3, r', k) =
          bfree-FreedRun sb (λ j. ip.addrs ndirect) max_file f2 h.bytes
            (indirect-InUse f1 g f2 h nz) nz in
        (
          f3,
          record ip1 { addrs = update ip1.addrs ndirect 0 },
          indirect_run sb f1 f2 f3 ip1 (ip.addrs ndirect) e t r r',
          all-Emptied f1 g f2 h nz f3 k,
          refl,
          λ j. ground arith,
        )
  ]
    where
      cleared :
          ip1.addrs ndirect ≡ 0 → (k : ℕ) → ip1.addrs k ≡ (if k == ndirect then 0 else ip1.addrs k)
      cleared z k = elim (ℕ_discrete k ndirect) [
        | yes q ↦ ap ip1.addrs q ∙ z ∙ ground (arith, q)
        | no nq ↦ ground (arith, nq)
      ]

      word :
          (f1 : Fs)
          → FreedRun sb (slot f ip) 0 ndirect f f1
          → ip.addrs ndirect ≢ 0
          → (s : ℕ) → s < nindirect
          → get_word (f1.blocks (ip.addrs ndirect)) (4 * s) ≡ slot f ip (ndirect + s)
      word f1 g nz s l =
          let w = o.used max_file (omega arith) nz in
          let place : ndirect + s - ndirect ≡ s = omega arith in
          ap (λ b. get_word b (4 * s)) (g.blocks (ip.addrs ndirect) w.no_map)
          ∙ ap (λ k. get_word (f.blocks (ip.addrs ndirect)) (4 * k)) (sym place)
          ∙ sym (slot_entry f ip (ndirect + s) (omega arith) (omega arith) nz)

  -- `itrunc` of an inode whose blocks are in use and distinct, and which stands in a block that is in
  -- use and none of its own, does not panic. It leaves a file of size 0 without blocks. The free map says of
  -- each block that it had, its indirect block included, that it is free, and of every other block of
  -- the disk what it said before. Every block in use by others holds what it held, but for that in which
  -- the inode stands.
  pub itrunc_lem :
      Foreign sb f ip (iblock sb ip.inum)
      → (f' : Fs) × (ip' : Inode) × (itrunc sb f ip ≡ ok (f', ip'))
        × (ip' ≡ record ip { addrs = ip'.addrs; size = 0 })
        × ((k : ℕ) → k ≤ ndirect → ip'.addrs k ≡ 0)
        × ((s : ℕ) → s ≤ max_file → slot f ip s ≢ 0 → is_free sb f' (slot f ip s) ≡ true)
        × ((d : ℕ)
            → d < sb.size
            → ((s : ℕ) → s ≤ max_file → slot f ip s ≢ 0 → slot f ip s ≢ d)
            → is_free sb f' d ≡ is_free sb f d)
        × ((d : ℕ)
            → Foreign sb f ip d
            → (is_free sb f' d ≡ false) × (iblock sb ip.inum ≢ d → f'.blocks d ≡ f.blocks d))
  unfolding itrunc
  itrunc_lem out =
      let (f1, ip1, r, g, same, c) =
        trunc_direct-FreedRun sb (slot f ip) ndirect ndirect 0 f ip (omega arith) o.bytes
          direct-InUse (λ s p l. sym (slot_direct f ip s l)) in
      let (f2, ip2, r', e, same', c') = trunc_indirect-Emptied f1 ip1 g (c ndirect) in
      let ip3 = record ip2 { size = 0 } in
      let fields : ip3 ≡ record ip { addrs = ip2.addrs; size = 0 } =
        ap (λ (i : Inode). record i { size = 0 })
          (same' ∙ ap (λ (i : Inode). record i { addrs = ip2.addrs }) same) in
      let place : iblock sb ip3.inum ≡ iblock sb ip.inum =
        ap (λ (i : Inode). iblock sb i.inum) fields in
      (
        iupdate sb f2 ip3,
        ip3,
        rw (r, itrunc) (rw r' refl),
        fields,
        λ k l. c' k ∙ ground (arith, c k, l),
        λ s l nz.
            is_free-iupdate sb f2 ip3 (slot f ip s)
              (λ q. out.is_used.no_map (slot f ip s) (o.used s l nz).inside (q ∙ place))
            ∙ e.freed s l nz,
        λ d l other.
            is_free-iupdate sb f2 ip3 d (λ q. out.is_used.no_map d l (q ∙ place)) ∙ e.rest d other,
        λ d a. (
          is_free-iupdate sb f2 ip3 d (λ q. out.is_used.no_map d a.is_used.inside (q ∙ place))
              ∙ e.rest d (λ s l nz. a.elsewhere s l)
              ∙ a.is_used.taken,
          λ ne. blocks-iupdate sb f2 ip3 d (λ q. ne (sym place ∙ q)) ∙ e.blocks d a.is_used.no_map,
        ),
      )
