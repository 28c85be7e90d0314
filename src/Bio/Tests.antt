-- ===== src/Bio/Tests.antt =====
-- bio.c on a cache of two buffers.
use os_assignment.Prelude.{ℕ, refl, [], ◌∷◌, true, false, some, arith, inl, update}
use os_assignment.Disk.{Block}
use os_assignment.Bio.{
  Buf, find_cached, find_unused, recycled, bget, iderw, bread_locked, binit_order,
}
use os_assignment.Bio.Coherent.{Sys}
use os_assignment.Bio.Refine.{
  gets, locks, changes, Reach, here, next, fresh, no_block, OneValue, cache-OneValue,
}

abbrev blocks : ℕ → Block
blocks b = b ∷ []

abbrev held : Buf
held = record {
  valid = true;
  dirty = false;
  dev = 1;
  blockno = 7;
  lock = some 5;
  refcnt = 1;
  content = 7 ∷ [];
}

-- Process 5 has read block 7 and changed it.
abbrev changed : Sys
changed = record {
  cache = record (fresh (0 ∷ 1 ∷ []) blocks 100).cache {
    buf =
        update
          (update
            (update (update (λ i. no_block) 0 (recycled 1 7 no_block)) 0
              (record (recycled 1 7 no_block) { lock = some 5 }))
            0 held)
          0 (record held { content = 8 ∷ []; dirty = true });
  };
  refs = 0 ∷ [];
  view = update blocks 7 (8 ∷ []);
}

changed-Reach : Reach (fresh (0 ∷ 1 ∷ []) blocks 100) changed
unfolding bget find_cached find_unused bread_locked iderw binit_order
changed-Reach =
    next (next (next here (gets 7 0 _ (omega arith) refl refl)) (locks 5 0 _ (inl refl) refl refl))
      (changes 5 0 (8 ∷ []) true refl refl refl)

cache-OneValue_example : OneValue changed
cache-OneValue_example = cache-OneValue (0 ∷ 1 ∷ []) blocks 100 changed-Reach
