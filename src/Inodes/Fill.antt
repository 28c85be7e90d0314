-- ===== src/Inodes/Fill.antt =====
-- fs.c: the three ways in which bmap puts a new block into a slot.
use native.Mathlib.Decide.{ℕ_discrete}
use os_assignment.Prelude.{
  ℕ, ◌+◌, ◌-◌, ◌*◌, ◌<◌, ◌≤◌, ◌≡◌, ◌≢◌, inl, inr, refl, ap, ◌∙◌, sym, arith, ltb, Bool-cases,
  update, update_self, update_ne,
}
use os_assignment.Blocks.{Super, Fs}
use os_assignment.Blocks.Map.{is_free}
use os_assignment.Blocks.Alloc.{Taken}
use os_assignment.Inodes.{Inode, ndirect, max_file, get_word}
use os_assignment.Inodes.Slots.{slot, Used, InodeOk, Filled}

module _ (f : Fs) (ip : Inode) where
  pub slot_direct : (s : ℕ) → s < ndirect → slot f ip s ≡ ip.addrs s
  slot_direct s l = ground (arith, l)

  pub slot_empty : (s : ℕ) → ndirect ≤ s → s < max_file → ip.addrs ndirect ≡ 0 → slot f ip s ≡ 0
  slot_empty s l l' z = ground (arith, l, l', z)

  pub slot_entry :
      (s : ℕ)
      → ndirect ≤ s
      → s < max_file
      → ip.addrs ndirect ≢ 0
      → slot f ip s ≡ get_word (f.blocks (ip.addrs ndirect)) (4 * (s - ndirect))
  slot_entry s l l' nz = ground (arith, l, l', nz)

-- The kinds of slots.
pub data Kind (s : ℕ) : Type 0 where
  direct : s < ndirect → Kind s
  indirect : s ≡ max_file → Kind s
  entry : ndirect ≤ s → s < max_file → Kind s

pub kind : (s : ℕ) → s ≤ max_file → Kind s
kind s l = elim (Bool-cases (ltb s ndirect)) [
  | inl t ↦ direct (ground (arith, t))
  | inr t ↦ elim (ℕ_discrete s max_file) [
    | yes e ↦ indirect e
    | no ne ↦ entry (ground (arith, t)) (omega arith)
  ]
]

module _ (sb : Super) (f : Fs) (ip : Inode) (o : InodeOk sb f ip) (c : ℕ) (f1 : Fs)
    (t : Taken sb f c f1) where
  -- A block in use keeps its bytes.
  pub kept_used : (d : ℕ) → Used sb f d → f1.blocks d ≡ f.blocks d
  kept_used d u =
      t.others d (λ e. cc (sym t.was_free ∙ ap (is_free sb f) e ∙ u.taken)) (u.no_map c t.inside)

  pub indirect_used : ip.addrs ndirect ≢ 0 → Used sb f (ip.addrs ndirect)
  indirect_used nz = o.used max_file (omega arith) nz

  pub entries_kept :
      (ip' : Inode) (s : ℕ)
      → ip'.addrs ndirect ≡ ip.addrs ndirect
      → ndirect ≤ s
      → s < max_file
      → slot f1 ip' s ≡ slot f ip s
  entries_kept ip' s e l l' = elim (ℕ_discrete (ip.addrs ndirect) 0) [
    | yes z ↦ slot_empty f1 ip' s l l' (e ∙ z) ∙ sym (slot_empty f ip s l l' z)
    | no nz ↦
        slot_entry f1 ip' s l l' (λ q. nz (sym e ∙ q))
        ∙ ap (λ a. get_word (f1.blocks a) (4 * (s - ndirect))) e
        ∙ ap (λ b. get_word b (4 * (s - ndirect))) (kept_used (ip.addrs ndirect) (indirect_used nz))
        ∙ sym (slot_entry f ip s l l' nz)
  ]

  -- A direct slot.
  module _ (i : ℕ) (l : i < ndirect) (z : ip.addrs i ≡ 0) where
    direct_others :
        (s : ℕ)
        → s ≤ max_file
        → s ≢ i
        → slot f1 (record ip { addrs = update ip.addrs i c }) s ≡ slot f ip s
    direct_others s b ne = elim (kind s b) [
      | direct d ↦
          slot_direct f1 (record ip { addrs = update ip.addrs i c }) s d
          ∙ update_ne ip.addrs c (λ e. ne (sym e))
          ∙ sym (slot_direct f ip s d)
      | indirect e ↦
          ap (slot f1 (record ip { addrs = update ip.addrs i c })) e
          ∙ update_ne ip.addrs {i = i} {j = ndirect} c (λ q. omega arith)
          ∙ ap (slot f ip) (sym e)
      | entry a d ↦
          entries_kept (record ip { addrs = update ip.addrs i c }) s
            (update_ne ip.addrs {i = i} {j = ndirect} c (λ q. omega arith)) a d
    ]

    pub direct-Filled : Filled sb f ip i c f1 f1 (record ip { addrs = update ip.addrs i c })
    direct-Filled = record {
      taken = t;
      within = omega arith;
      empty = slot_direct f ip i l ∙ z;
      filled =
          slot_direct f1 (record ip { addrs = update ip.addrs i c }) i l ∙ update_self ip.addrs i c;
      others = direct_others;
      map_kept = λ d b. refl;
      still_bytes = t.still_bytes;
      blocks_kept = λ d a b e. t.others d a b;
      zeroed = t.zeroed;
      fields = refl;
    }

  -- The indirect block.
  module _ (z : ip.addrs ndirect ≡ 0) where
    indirect_others :
        (s : ℕ)
        → s ≤ max_file
        → s ≢ max_file
        → slot f1 (record ip { addrs = update ip.addrs ndirect c }) s ≡ slot f ip s
    indirect_others s b ne = elim (kind s b) [
      | direct d ↦
          slot_direct f1 (record ip { addrs = update ip.addrs ndirect c }) s d
          ∙ update_ne ip.addrs c (λ e. omega arith)
          ∙ sym (slot_direct f ip s d)
      | indirect e ↦ absurd (ne e)
      | entry a d ↦ new_entry s a d ∙ sym (slot_empty f ip s a d z)
    ]
      where
        word_zero : (k : ℕ) → get_word (f1.blocks c) k ≡ 0
        word_zero k =
            omega (arith, t.zeroed k, t.zeroed (k + 1), t.zeroed (k + 2), t.zeroed (k + 3))

        new_entry :
            (s : ℕ)
            → ndirect ≤ s
            → s < max_file
            → slot f1 (record ip { addrs = update ip.addrs ndirect c }) s ≡ 0
        new_entry s a d = ground (arith, a, d, word_zero (4 * (s - ndirect)))

    pub indirect-Filled :
        Filled sb f ip max_file c f1 f1 (record ip { addrs = update ip.addrs ndirect c })
    indirect-Filled = record {
      taken = t;
      within = omega arith;
      empty = z;
      filled = update_self ip.addrs ndirect c;
      others = indirect_others;
      map_kept = λ d b. refl;
      still_bytes = t.still_bytes;
      blocks_kept = λ d a b e. t.others d a b;
      zeroed = t.zeroed;
      fields = refl;
    }
