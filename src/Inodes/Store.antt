-- ===== src/Inodes/Store.antt =====
-- fs.c: bytes are stored into a block of an inode.
use mathlib.Core.Path.{subst}
use native.Mathlib.Decide.{ℕ_discrete}
use os_assignment.Prelude.{
  ℕ, ◌+◌, ◌-◌, ◌/◌, ◌%◌, ◌<◌, ◌≤◌, ◌≡◌, ◌≢◌, ◌⊎◌, inl, inr, refl, ap, ◌∙◌, sym, arith, false, ltb,
  leb, ◌&&◌, Bool-cases, List, length, All, update_self, update_ne,
}
use os_assignment.Blocks.{Super, Fs, bsize, put_block}
use os_assignment.Inodes.{Inode, ndirect, max_file, splice}
use os_assignment.Inodes.Words.{splice_out, splice_in, splice_byte}
use os_assignment.Inodes.Slots.{slot, byte_at, content, Used, InodeOk, Foreign}
use os_assignment.Inodes.Put.{slots_same, changed-InodeOk, still-Foreign, content-changed}

-- From (f, ip) to (f', ip') the bytes `xs` were written at `off`, and blocks in use by others are as before.
pub record Wrote (sb : Super) (f : Fs) (ip : Inode) (off : ℕ) (xs : List ℕ) (f' : Fs) (ip' : Inode)
    : Type 0 where
  pub okay : InodeOk sb f' ip'
  pub contents : (o : ℕ) → o / bsize < max_file → content f' ip' o ≡ splice (content f ip) off xs o
  pub fields : ip' ≡ record ip { addrs = ip'.addrs }
  pub kept_slots : (s : ℕ) → s ≤ max_file → slot f ip s ≢ 0 → slot f' ip' s ≡ slot f ip s
  pub present : (q : ℕ) → off ≤ q → q < off + length xs → slot f' ip' (q / bsize) ≢ 0
  pub foreign : (d : ℕ) → Foreign sb f ip d → Foreign sb f' ip' d × (f'.blocks d ≡ f.blocks d)

module _ (sb : Super) (f : Fs) (ip : Inode) (o : InodeOk sb f ip) (s a : ℕ) (below : s < max_file)
    (at : slot f ip s ≡ a) (nz : a ≢ 0) (new : ℕ → ℕ) where
  abbrev stored : Fs
  stored = put_block f a new

  used_block : Used sb f a
  used_block = subst (Used sb f) at (o.used s (omega arith) (λ z. nz (sym at ∙ z)))

  other_slot : (t : ℕ) → t ≤ max_file → t ≢ s → slot f ip t ≢ a
  other_slot t l ne e = nz (sym e ∙ o.distinct t s l (omega arith) ne (e ∙ sym at))

  plain : a ≢ ip.addrs ndirect
  plain e = other_slot max_file (omega arith) (omega arith) (sym e)

  stored-InodeOk : ((j : ℕ) → new j < 256) → InodeOk sb stored ip
  stored-InodeOk = changed-InodeOk sb f ip o a new used_block plain

  stored-Foreign :
      (d : ℕ) → Foreign sb f ip d → Foreign sb stored ip d × (stored.blocks d ≡ f.blocks d)
  stored-Foreign d h = (
    still-Foreign sb f ip o a new used_block plain d h,
    update_ne f.blocks new (λ e. h.elsewhere s (omega arith) (at ∙ e)),
  )

  content_here : (q : ℕ) → q / bsize ≡ s → content stored ip q ≡ new (q % bsize)
  content_here q e =
      let there : slot stored ip (q / bsize) ≡ a =
        ap (slot stored ip) e ∙ slots_same sb f ip o a new used_block plain s (omega arith) ∙ at in
      ap (λ b. byte_at stored b (q % bsize)) there
      ∙ ground (arith, nz, ap (λ (g : ℕ → ℕ). g (q % bsize)) (update_self f.blocks a new))

  content_there :
      (q : ℕ) → q / bsize < max_file → q / bsize ≢ s → content stored ip q ≡ content f ip q
  content_there q l ne =
      content-changed sb f ip o a new used_block plain q l
        (λ e. other_slot (q / bsize) (omega arith) ne (sym e))

  content_was : (q : ℕ) → q / bsize ≡ s → content f ip q ≡ f.blocks a (q % bsize)
  content_was q e = ap (λ b. byte_at f b (q % bsize)) (ap (slot f ip) e ∙ at) ∙ ground (arith, nz)

-- A piece that fits into a block of the inode is written into it.
pub splice-Wrote :
    (sb : Super) (f : Fs) (ip : Inode) (off a : ℕ) (ys : List ℕ)
    → InodeOk sb f ip
    → off / bsize < max_file
    → slot f ip (off / bsize) ≡ a
    → a ≢ 0
    → off % bsize + length ys ≤ bsize
    → All (λ y. y < 256) ys
    → Wrote sb f ip off ys (put_block f a (splice (f.blocks a) (off % bsize) ys)) ip
splice-Wrote sb f ip off a ys o l at nz fits small =
    let new = splice (f.blocks a) (off % bsize) ys in
    record {
      okay =
          stored-InodeOk sb f ip o (off / bsize) a l at nz new
            (splice_byte (f.blocks a) (off % bsize) ys (o.bytes a) small);
      contents = λ q b. elim (ℕ_discrete (q / bsize) (off / bsize)) [
        | yes e ↦ content_here sb f ip o (off / bsize) a l at nz new q e ∙ here q e
        | no ne ↦
            content_there sb f ip o (off / bsize) a l at nz new q b ne
            ∙ sym (splice_out (content f ip) off ys q (outside q ne))
      ];
      fields = refl;
      kept_slots = λ t b z. same_slot t b;
      present = λ q b c e.
          (let block : q / bsize ≡ off / bsize = omega arith in
            nz (
              sym at
              ∙ sym (same_slot (off / bsize) (omega arith))
              ∙ ap (slot (put_block f a new) ip) (sym block)
              ∙ e));
      foreign = stored-Foreign sb f ip o (off / bsize) a l at nz new;
    }
  where
    same_slot :
        (t : ℕ)
        → t ≤ max_file
        → slot (put_block f a (splice (f.blocks a) (off % bsize) ys)) ip t ≡ slot f ip t
    same_slot t b =
        let new = splice (f.blocks a) (off % bsize) ys in
        slots_same sb f ip o a new (used_block sb f ip o (off / bsize) a l at nz new)
          (plain sb f ip o (off / bsize) a l at nz new) t b

    outside : (q : ℕ) → q / bsize ≢ off / bsize → (q < off) ⊎ (off + length ys ≤ q)
    outside q ne = elim (Bool-cases (ltb q off)) [
      | inl t ↦ inl (ground (arith, t))
      | inr t ↦ let after : off ≤ q = ground (arith, t) in inr (omega arith)
    ]

    out_file :
        (q : ℕ) → (leb off q && ltb q (off + length ys)) ≡ false → (q < off) ⊎ (off + length ys ≤ q)
    out_file q t = elim (Bool-cases (ltb q off)) [
      | inl u ↦ inl (ground (arith, u))
      | inr u ↦ inr (ground (arith, t, u))
    ]

    out_block :
        (q : ℕ)
        → q / bsize ≡ off / bsize
        → (leb off q && ltb q (off + length ys)) ≡ false
        → (q % bsize < off % bsize) ⊎ (off % bsize + length ys ≤ q % bsize)
    out_block q e t = elim (out_file q t) [ inl u ↦ inl (omega arith) | inr u ↦ inr (omega arith) ]

    here :
        (q : ℕ)
        → q / bsize ≡ off / bsize
        → splice (f.blocks a) (off % bsize) ys (q % bsize) ≡ splice (content f ip) off ys q
    here q e = elim (Bool-cases (leb off q && ltb q (off + length ys))) [
      | inl t ↦
          let k = q - off in
          let in_block : q % bsize ≡ off % bsize + k = ground (arith, t, e) in
          let in_file : q ≡ off + k = ground (arith, t) in
          let small_ : k < length ys = ground (arith, t) in
          ap (splice (f.blocks a) (off % bsize) ys) in_block
          ∙ splice_in (f.blocks a) (off % bsize) ys k small_
          ∙ sym (splice_in (content f ip) off ys k small_)
          ∙ ap (splice (content f ip) off ys) (sym in_file)
      | inr t ↦
          splice_out (f.blocks a) (off % bsize) ys (q % bsize) (out_block q e t)
          ∙ sym (
              content_was sb f ip o (off / bsize) a l at nz (splice (f.blocks a) (off % bsize) ys) q
                e)
          ∙ sym (splice_out (content f ip) off ys q (out_file q t))
    ]
