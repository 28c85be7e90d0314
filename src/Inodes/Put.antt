-- ===== src/Inodes/Put.antt =====
-- fs.c: a block that is not the indirect block of an inode is written.
use native.Mathlib.Decide.{ℕ_discrete}
use os_assignment.Prelude.{
  ℕ, ◌-◌, ◌*◌, ◌/◌, ◌%◌, ◌<◌, ◌≤◌, ◌≡◌, ◌≢◌, ap, ◌∙◌, sym, arith, ◌==◌, if◌then◌else◌, update_ne,
}
use os_assignment.Blocks.{Super, Fs, bpb, bsize, put_block, clear_at}
use os_assignment.Blocks.Map.{is_free}
use os_assignment.Blocks.Map.{update_byte}
use os_assignment.Inodes.{Inode, ndirect, max_file, get_word}
use os_assignment.Inodes.Slots.{slot, byte_at, content, Used, InodeOk, Foreign}
use os_assignment.Inodes.Fill.{slot_direct, slot_entry, slot_empty, kind, direct, indirect, entry}

-- A block in use, and not the indirect block of the inode, gets new bytes.
module _ (sb : Super) (f : Fs) (ip : Inode) (o : InodeOk sb f ip) (a : ℕ) (new : ℕ → ℕ)
    (u : Used sb f a) (plain : a ≢ ip.addrs ndirect) where
  abbrev pub changed : Fs
  changed = put_block f a new

  pub slots_same : (t : ℕ) → t ≤ max_file → slot changed ip t ≡ slot f ip t
  slots_same t l = elim (kind t l) [
    | direct d ↦ slot_direct changed ip t d ∙ sym (slot_direct f ip t d)
    | indirect e ↦ ap (slot changed ip) e ∙ ap (slot f ip) (sym e)
    | entry b d ↦ elim (ℕ_discrete (ip.addrs ndirect) 0) [
      | yes z ↦ slot_empty changed ip t b d z ∙ sym (slot_empty f ip t b d z)
      | no some_ ↦
          slot_entry changed ip t b d some_
          ∙ ap (λ g. get_word g (4 * (t - ndirect))) (update_ne f.blocks new plain)
          ∙ sym (slot_entry f ip t b d some_)
    ]
  ]

  free_same : (d : ℕ) → d < sb.size → is_free sb changed d ≡ is_free sb f d
  free_same d l =
      ap (λ (g : ℕ → ℕ). clear_at g (d % bpb)) (update_ne f.blocks new (λ e. u.no_map d l (sym e)))

  pub still_used : (d : ℕ) → Used sb f d → Used sb changed d
  still_used d v = record {
    inside = v.inside;
    taken = free_same d v.inside ∙ v.taken;
    no_map = v.no_map;
  }

  pub changed-InodeOk : ((j : ℕ) → new j < 256) → InodeOk sb changed ip
  changed-InodeOk h = record {
    bytes = update_byte f.blocks a new o.bytes h;
    small = o.small;
    apart = λ c d l v l'. o.apart c d l (sym (free_same c l) ∙ v) l';
    boot = free_same 0 (omega (arith, u.inside)) ∙ o.boot;
    used = λ t l z.
        rw (slots_same t l) (still_used (slot f ip t) (o.used t l (λ e. z (slots_same t l ∙ e))));
    distinct = λ t t' l l' ne e.
        slots_same t l ∙ o.distinct t t' l l' ne (sym (slots_same t l) ∙ e ∙ slots_same t' l');
  }

  pub still-Foreign : (d : ℕ) → Foreign sb f ip d → Foreign sb changed ip d
  still-Foreign d h = record {
    is_used = still_used d h.is_used;
    elsewhere = λ t l e. h.elsewhere t l (sym (slots_same t l) ∙ e);
  }

  -- The data in the other blocks stays.
  pub content-changed :
      (q : ℕ)
      → q / bsize < max_file
      → a ≢ slot f ip (q / bsize)
      → content changed ip q ≡ content f ip q
  content-changed q l ne =
      ap (λ b. byte_at changed b (q % bsize)) (slots_same (q / bsize) (omega arith))
      ∙ ap (λ (g : ℕ → ℕ). if slot f ip (q / bsize) == 0 then 0 else g (q % bsize))
          (update_ne f.blocks new ne)
