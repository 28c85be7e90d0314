-- ===== src/Inodes/Entry.antt =====
-- fs.c: bmap puts a new block into the indirect block.
use os_assignment.Prelude.{
  ℕ, ◌+◌, ◌-◌, ◌*◌, ◌%◌, ◌^◌, ◌<◌, ◌≤◌, ◌≡◌, ◌≢◌, refl, ap, ◌∙◌, sym, arith, update_self, update_ne,
}
use os_assignment.Blocks.{Super, Fs, bpb, put_block, clear_at}
use os_assignment.Blocks.Map.{is_free}
use os_assignment.Blocks.Map.{update_byte}
use os_assignment.Blocks.Alloc.{Taken}
use os_assignment.Inodes.{Inode, ndirect, nindirect, max_file, get_word, put_word}
use os_assignment.Inodes.Words.{get_word-put_word, get_word-other, put_word_byte}
use os_assignment.Inodes.Slots.{slot, InodeOk, Filled}
use os_assignment.Inodes.Fill.{
  slot_direct, slot_entry, kind, direct, indirect, entry, indirect_used, entries_kept,
}

module _ (sb : Super) (f : Fs) (ip : Inode) (o : InodeOk sb f ip) (c : ℕ) (f1 : Fs)
    (t : Taken sb f c f1) (i : ℕ) (l : i < nindirect) (nz : ip.addrs ndirect ≢ 0)
    (z : slot f ip (ndirect + i) ≡ 0) where
  abbrev addr : ℕ
  addr = ip.addrs ndirect

  abbrev with_entry : Fs
  with_entry = put_block f1 addr (put_word (f1.blocks addr) (4 * i) c)

  entry_word : with_entry.blocks addr ≡ put_word (f1.blocks addr) (4 * i) c
  entry_word = update_self f1.blocks addr (put_word (f1.blocks addr) (4 * i) c)

  entry_value :
      (s : ℕ)
      → ndirect ≤ s
      → s < max_file
      → slot with_entry ip s ≡ get_word (put_word (f1.blocks addr) (4 * i) c) (4 * (s - ndirect))
  entry_value s a d =
      slot_entry with_entry ip s a d nz ∙ ap (λ b. get_word b (4 * (s - ndirect))) entry_word

  small_number : c < 2 ^ 32
  small_number = omega (arith, t.inside, o.small)

  entry_others : (s : ℕ) → s ≤ max_file → s ≢ ndirect + i → slot with_entry ip s ≡ slot f ip s
  entry_others s b ne = elim (kind s b) [
    | direct d ↦ slot_direct with_entry ip s d ∙ sym (slot_direct f ip s d)
    | indirect e ↦ ap (slot with_entry ip) e ∙ ap (slot f ip) (sym e)
    | entry a d ↦
        entry_value s a d
        ∙ get_word-other (f1.blocks addr) i (s - ndirect) c (λ e. ne (omega arith))
        ∙ sym (slot_entry f1 ip s a d nz)
        ∙ entries_kept sb f ip o c f1 t ip s refl a d
  ]

  not_new : c ≢ addr
  not_new e =
      let u = indirect_used sb f ip o c f1 t nz in
      cc (sym t.was_free ∙ ap (is_free sb f) e ∙ u.taken)

  pub entry-Filled : Filled sb f ip (ndirect + i) c f1 with_entry ip
  entry-Filled = record {
    taken = t;
    within = omega arith;
    empty = z;
    filled =
        entry_value (ndirect + i) (omega arith) (omega arith)
        ∙ ap (λ k. get_word (put_word (f1.blocks addr) (4 * i) c) (4 * k)) (omega arith)
        ∙ get_word-put_word (f1.blocks addr) (4 * i) c small_number;
    others = entry_others;
    map_kept = λ d b.
        ap (λ (g : ℕ → ℕ). clear_at g (d % bpb))
          (update_ne f1.blocks (put_word (f1.blocks addr) (4 * i) c)
            (λ e. (indirect_used sb f ip o c f1 t nz).no_map d b (sym e)));
    still_bytes =
        update_byte f1.blocks addr (put_word (f1.blocks addr) (4 * i) c) t.still_bytes
          (put_word_byte (f1.blocks addr) (4 * i) c (t.still_bytes addr));
    blocks_kept =
        λ d a b e. update_ne f1.blocks (put_word (f1.blocks addr) (4 * i) c) e ∙ t.others d a b;
    zeroed = λ k.
        ap (λ (g : ℕ → ℕ). g k)
          (update_ne f1.blocks (put_word (f1.blocks addr) (4 * i) c) (λ e. not_new (sym e)))
        ∙ t.zeroed k;
    fields = refl;
  }
