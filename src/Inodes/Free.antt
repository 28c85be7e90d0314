-- ===== src/Inodes/Free.antt =====
-- fs.c: a run of blocks is freed, as in the loops of itrunc.
use native.Mathlib.Decide.{ℕ_discrete}
use os_assignment.Prelude.{
  ℕ, zero, suc, ◌+◌, ◌*◌, ◌<◌, ◌≤◌, ◌≡◌, ◌≢◌, inl, inr, refl, ap, ◌∙◌, sym, arith, true, false,
  ◌&&◌, ltb, leb, ◌==◌, if◌then◌else◌, Bool-cases, update, ok, ◌>>=◌,
}
use os_assignment.Blocks.{Super, Fs, bblock, bfree}
use os_assignment.Blocks.Map.{is_free, Bytes, bfree_lem}
use os_assignment.Inodes.{Inode, get_word, free_direct, free_entry, trunc_direct, trunc_entries}
use os_assignment.Inodes.Slots.{Used}

-- The blocks with the numbers `num s`, for `s` from `lo` to below `hi`, were freed, and nothing else.
pub record FreedRun (sb : Super) (num : ℕ → ℕ) (lo hi : ℕ) (f f' : Fs) : Type 0 where
  pub freed : (s : ℕ) → lo ≤ s → s < hi → num s ≢ 0 → is_free sb f' (num s) ≡ true
  pub rest :
      (d : ℕ)
      → ((s : ℕ) → lo ≤ s → s < hi → num s ≢ 0 → num s ≢ d)
      → is_free sb f' d ≡ is_free sb f d
  pub blocks : (d : ℕ) → ((e : ℕ) → e < sb.size → bblock sb e ≢ d) → f'.blocks d ≡ f.blocks d
  pub bytes : Bytes f'

-- The numbers are of blocks in use, and none is there twice.
pub record InUse (sb : Super) (num : ℕ → ℕ) (lo hi : ℕ) (f : Fs) : Type 0 where
  pub used : (s : ℕ) → lo ≤ s → s < hi → num s ≢ 0 → Used sb f (num s)
  pub distinct : (s t : ℕ) → lo ≤ s → s < hi → lo ≤ t → t < hi → s ≢ t → num s ≢ 0 → num s ≢ num t

module _ (sb : Super) where
  FreedRun-refl : (num : ℕ → ℕ) (lo hi : ℕ) (f : Fs) → Bytes f → hi ≤ lo → FreedRun sb num lo hi f f
  FreedRun-refl num lo hi f b l = record {
    freed = λ s p q. absurd (omega arith);
    rest = λ d h. refl;
    blocks = λ d h. refl;
    bytes = b;
  }

  FreedRun-trans :
      (num : ℕ → ℕ) (lo mid hi : ℕ) (f f' f'' : Fs)
      → lo ≤ mid
      → mid ≤ hi
      → InUse sb num lo hi f
      → FreedRun sb num lo mid f f'
      → FreedRun sb num mid hi f' f''
      → FreedRun sb num lo hi f f''
  FreedRun-trans num lo mid hi f f' f'' l l' u g h = record {
    freed = λ s p q nz. elim (Bool-cases (ltb s mid)) [
      | inl t ↦
          let before : s < mid = ground (arith, t) in
          h.rest (num s)
            (λ r p' q' nz' e. u.distinct s r p q (omega arith) q' (omega arith) nz (sym e))
          ∙ g.freed s p before nz
      | inr t ↦ h.freed s (ground (arith, t)) q nz
    ];
    rest = λ d k. h.rest d (λ s p q. k s (omega arith) q) ∙ g.rest d (λ s p q. k s p (omega arith));
    blocks = λ d k. h.blocks d k ∙ g.blocks d k;
    bytes = h.bytes;
  }

  -- The numbers behind those that were freed are still in use.
  InUse-rest :
      (num : ℕ → ℕ) (lo mid hi : ℕ) (f f' : Fs)
      → lo ≤ mid
      → InUse sb num lo hi f
      → FreedRun sb num lo mid f f'
      → InUse sb num mid hi f'
  InUse-rest num lo mid hi f f' l u g = record {
    used = λ s p q nz.
        let w = u.used s (omega arith) q nz in
        record {
          inside = w.inside;
          taken =
              g.rest (num s) (λ r p' q' nz' e.
                u.distinct r s p' (omega arith) (omega arith) q (omega arith) nz' e)
              ∙ w.taken;
          no_map = w.no_map;
        };
    distinct = λ s t p q p' q'. u.distinct s t (omega arith) q (omega arith) q';
  }

  pub bfree-FreedRun :
      (num : ℕ → ℕ) (s : ℕ) (f : Fs)
      → Bytes f
      → InUse sb num s (s + 1) f
      → num s ≢ 0
      → (f' : Fs) × (bfree sb f (num s) ≡ ok f') × FreedRun sb num s (s + 1) f f'
  bfree-FreedRun num s f b u nz =
      let w = u.used s (omega arith) (omega arith) nz in
      elim (bfree_lem sb f (num s) b) [
        | inl (free, r) ↦ cc (free, w.taken)
        | inr (taken, f', r, g) ↦ (
          f',
          r,
          record {
            freed = λ t p q z.
                let same : t ≡ s = omega arith in rw same (g.map_bits (num s) ∙ ground (arith));
            rest = λ d h.
                let ne = h s (omega arith) (omega arith) nz in g.map_bits d ∙ ground (arith, ne);
            blocks = λ d h. g.others d (h (num s) w.inside);
            bytes = g.still_bytes;
          },
        )
      ]

  nothing_freed :
      (num : ℕ → ℕ) (s : ℕ) (f : Fs) → Bytes f → num s ≡ 0 → FreedRun sb num s (s + 1) f f
  nothing_freed num s f b z = record {
    freed = λ t p q nz. let same : t ≡ s = omega arith in absurd (nz (ap num same ∙ z));
    rest = λ d h. refl;
    blocks = λ d h. refl;
    bytes = b;
  }

  first-InUse :
      (num : ℕ → ℕ) (lo hi : ℕ) (f : Fs)
      → lo < hi
      → InUse sb num lo hi f
      → InUse sb num lo (lo + 1) f
  first-InUse num lo hi f l u = record {
    used = λ s p q. u.used s p (omega arith);
    distinct = λ s t p q p' q'. u.distinct s t p (omega arith) p' (omega arith);
  }

  free_entry-FreedRun :
      (num : ℕ → ℕ) (s : ℕ) (a : ℕ → ℕ) (f : Fs)
      → Bytes f
      → InUse sb num s (s + 1) f
      → get_word a (4 * s) ≡ num s
      → (f' : Fs) × (free_entry sb f a s ≡ ok f') × FreedRun sb num s (s + 1) f f'
  unfolding free_entry
  free_entry-FreedRun num s a f b u e = elim (ℕ_discrete (num s) 0) [
    | yes z ↦
        let t : (get_word a (4 * s) == 0) ≡ true = ground (arith, e, z) in
        (f, rw t refl, nothing_freed num s f b z)
    | no nz ↦
        let t : (get_word a (4 * s) == 0) ≡ false = ground (arith, e, nz) in
        let (f', r, g) = bfree-FreedRun num s f b u nz in (f', rw t (ap (bfree sb f) e ∙ r), g)
  ]

  -- The loop over the entries of the indirect block.
  pub trunc_entries-FreedRun :
      (num : ℕ → ℕ) (hi n j : ℕ) (a : ℕ → ℕ) (f : Fs)
      → j + n ≡ hi
      → Bytes f
      → InUse sb num j hi f
      → ((s : ℕ) → s < hi → get_word a (4 * s) ≡ num s)
      → (f' : Fs) × (trunc_entries sb n j a f ≡ ok f') × FreedRun sb num j hi f f'
  unfolding trunc_entries
  trunc_entries-FreedRun num hi zero j a f q b u e =
      (f, refl, FreedRun-refl num j hi f b (omega arith))
  trunc_entries-FreedRun num hi (suc n) j a f q b u e =
      let u1 = first-InUse num j hi f (omega arith) u in
      let (f1, r, g) = free_entry-FreedRun num j a f b u1 (e j (omega arith)) in
      let (f2, r', h) =
        trunc_entries-FreedRun num hi n (j + 1) a f1 (omega arith) g.bytes
          (InUse-rest num j (j + 1) hi f f1 (omega arith) u g) e in
      (
        f2,
        rw (r, trunc_entries) r',
        FreedRun-trans num j (j + 1) hi f f1 f2 (omega arith) (omega arith) u g h,
      )

  free_direct-FreedRun :
      (num : ℕ → ℕ) (s : ℕ) (f : Fs) (ip : Inode)
      → Bytes f
      → InUse sb num s (s + 1) f
      → ip.addrs s ≡ num s
      → (f' : Fs) × (ip' : Inode) × (free_direct sb f ip s ≡ ok (f', ip'))
        × FreedRun sb num s (s + 1) f f'
        × (ip' ≡ record ip { addrs = ip'.addrs })
        × ((k : ℕ) → ip'.addrs k ≡ (if k == s then 0 else ip.addrs k))
  unfolding free_direct
  free_direct-FreedRun num s f ip b u e = elim (ℕ_discrete (num s) 0) [
    | yes z ↦
        let t : (ip.addrs s == 0) ≡ true = ground (arith, e, z) in
        (f, ip, rw t refl, nothing_freed num s f b z, refl, λ k. cleared k (e ∙ z))
    | no nz ↦
        let t : (ip.addrs s == 0) ≡ false = ground (arith, e, nz) in
        let (f', r, g) = bfree-FreedRun num s f b u nz in
        (
          f',
          record ip { addrs = update ip.addrs s 0 },
          rw t (
              ap (λ r'. r' >>= λ f''. ok (f'', record ip { addrs = update ip.addrs s 0 }))
                (ap (bfree sb f) e ∙ r)),
          g,
          refl,
          λ k. ground arith,
        )
  ]
    where
      cleared : (k : ℕ) → ip.addrs s ≡ 0 → ip.addrs k ≡ (if k == s then 0 else ip.addrs k)
      cleared k z = elim (ℕ_discrete k s) [
        | yes q ↦ ap ip.addrs q ∙ z ∙ ground (arith, q)
        | no nq ↦ ground (arith, nq)
      ]

  -- The loop over the direct blocks.
  pub trunc_direct-FreedRun :
      (num : ℕ → ℕ) (hi n j : ℕ) (f : Fs) (ip : Inode)
      → j + n ≡ hi
      → Bytes f
      → InUse sb num j hi f
      → ((s : ℕ) → j ≤ s → s < hi → ip.addrs s ≡ num s)
      → (f' : Fs) × (ip' : Inode) × (trunc_direct sb n j f ip ≡ ok (f', ip'))
        × FreedRun sb num j hi f f'
        × (ip' ≡ record ip { addrs = ip'.addrs })
        × ((k : ℕ) → ip'.addrs k ≡ (if leb j k && ltb k hi then 0 else ip.addrs k))
  unfolding trunc_direct
  trunc_direct-FreedRun num hi zero j f ip q b u e =
      (f, ip, refl, FreedRun-refl num j hi f b (omega arith), refl, λ k. ground (arith, q))
  trunc_direct-FreedRun num hi (suc n) j f ip q b u e =
      let u1 = first-InUse num j hi f (omega arith) u in
      let (f1, ip1, r, g, same, c) =
        free_direct-FreedRun num j f ip b u1 (e j (omega arith) (omega arith)) in
      let (f2, ip2, r', h, same', c') =
        trunc_direct-FreedRun num hi n (j + 1) f1 ip1 (omega arith) g.bytes
          (InUse-rest num j (j + 1) hi f f1 (omega arith) u g)
          (λ s p l. c s ∙ ground (arith, p, e s (omega arith) l)) in
      (
        f2,
        ip2,
        rw (r, trunc_direct) r',
        FreedRun-trans num j (j + 1) hi f f1 f2 (omega arith) (omega arith) u g h,
        same' ∙ ap (λ (i : Inode). record i { addrs = ip2.addrs }) same,
        λ k. c' k ∙ ground (arith, c k, q),
      )
