-- ===== src/Bio/Calls.antt =====
-- bio.c and memide.c: what one call does to the cache.
use os_assignment.Prelude.{
  ℕ, ◌+◌, ◌-◌, ◌%◌, ◌^◌, ◌<◌, ◌≡◌, ap, ◌∙◌, arith, List, [], ◌∷◌, true, false, none, some, ◌==◌,
  Among, ◌⊎◌, inl, inr, Bool-cases, Option-cases, ok, update, update_self, update-update,
}
use os_assignment.Bio.{
  Buf, Cache, set_buf, iderw, bread_locked, bwrite, brelse, without, holdingsleep,
}

pub holdingsleep_lem : (self : ℕ) (b : Buf) → holdingsleep self b ≡ true → b.lock ≡ some self
holdingsleep_lem self b h = elim (Option-cases b.lock) [
  | inl e ↦ absurd (ground (arith, h, e))
  | inr (p, e) ↦ ground (arith, h, e)
]

-- A read where the buffer is locked, invalid and clean, and a write where it is dirty.
iderw_reads :
    (self : ℕ) (c c' : Cache) (i : ℕ)
    → iderw self c i ≡ ok c'
    → (c.buf i).dirty ≡ false
    → c' ≡ set_buf c i (record (c.buf i) { content = c.disk (c.buf i).blockno; valid = true })
unfolding iderw
iderw_reads self c c' i e clean = ground (arith, e, clean)

iderw_writes :
    (self : ℕ) (c c' : Cache) (i : ℕ)
    → iderw self c i ≡ ok c'
    → (c.buf i).dirty ≡ true
    → c' ≡ record c {
      buf = update c.buf i (record (c.buf i) { dirty = false; valid = true });
      disk = update c.disk (c.buf i).blockno (c.buf i).content;
    }
unfolding iderw
iderw_writes self c c' i e full = ground (arith, e, full)

pub without_old : (i j : ℕ) (js : List ℕ) → Among j (without i js) → Among j js
unfolding without
without_old i j [] a = a
without_old i j (k ∷ js) a = ground (arith, without_old i j js)

without_other : (i j : ℕ) (js : List ℕ) → Among j js → (i ≡ j) ⊎ Among j (without i js)
unfolding without
without_other i j [] a = absurd a
without_other i j (k ∷ js) a = ground (arith, without_other i j js)

set_buf-set_buf : (c : Cache) (i : ℕ) (x y : Buf) → set_buf (set_buf c i x) i y ≡ set_buf c i y
set_buf-set_buf c i x y = ap (λ f. record c { buf = f }) (update-update c.buf i x y)

pub bread_locked_valid :
    (self : ℕ) (c c' : Cache) (i : ℕ)
    → bread_locked self c i ≡ some (ok c')
    → (c.buf i).valid ≡ true
    → c' ≡ set_buf c i (record (c.buf i) { lock = some self })
unfolding bread_locked
bread_locked_valid self c c' i e w = elim (Option-cases (c.buf i).lock) [
  | inr (p, l) ↦ absurd (ground (arith, e, l))
  | inl l ↦ ground (arith, e, l, w)
]

pub bread_locked_read :
    (self : ℕ) (c c' : Cache) (i : ℕ)
    → bread_locked self c i ≡ some (ok c')
    → (c.buf i).valid ≡ false
    → (c.buf i).dirty ≡ false
    → c'
      ≡ set_buf c i
          (record (c.buf i) { lock = some self; valid = true; content = c.disk (c.buf i).blockno })
unfolding bread_locked
bread_locked_read self c c' i e w clean = elim (Option-cases (c.buf i).lock) [
  | inr (p, l) ↦ absurd (ground (arith, e, l))
  | inl l ↦
      let x = record (c.buf i) { lock = some self } in
      let c1 = set_buf c i x in
      let run : iderw self c1 i ≡ ok c' = ground (arith, e, l, w) in
      let own = update_self c.buf i x in
      let r = iderw_reads self c1 c' i run (ap (λ (b : Buf). b.dirty) own ∙ clean) in
      r
      ∙ ap (λ (b : Buf). set_buf c1 i (record b { content = c.disk b.blockno; valid = true })) own
      ∙ set_buf-set_buf c i x (record x { content = c.disk (c.buf i).blockno; valid = true })
]

pub bwrite_lem :
    (self : ℕ) (c c' : Cache) (i : ℕ)
    → bwrite self c i ≡ ok c'
    → ((c.buf i).lock ≡ some self)
      × (c' ≡ record c {
        buf = update c.buf i (record (c.buf i) { dirty = false; valid = true });
        disk = update c.disk (c.buf i).blockno (c.buf i).content;
      })
unfolding bwrite
bwrite_lem self c c' i e = elim (Bool-cases (holdingsleep self (c.buf i))) [
  | inr h ↦ absurd (ground (arith, e, h))
  | inl h ↦
      let x = record (c.buf i) { dirty = true } in
      let c1 = set_buf c i x in
      let run : iderw self c1 i ≡ ok c' = ground (arith, e, h) in
      let own = update_self c.buf i x in
      let r = iderw_writes self c1 c' i run (ap (λ (b : Buf). b.dirty) own) in
      (
        holdingsleep_lem self (c.buf i) h,
        r
            ∙ ap
                (λ (b : Buf). record c {
                  buf = update c1.buf i (record b { dirty = false; valid = true });
                  disk = update c.disk b.blockno b.content;
                })
                own
            ∙ ap
                (λ f. record c {
                  buf = f;
                  disk = update c.disk (c.buf i).blockno (c.buf i).content;
                })
                (update-update c.buf i x (record x { dirty = false; valid = true })),
      )
]

pub brelse_lem :
    (self : ℕ) (c c' : Cache) (i : ℕ)
    → brelse self c i ≡ ok c'
    → (order : List ℕ) × (Among i c.order
        → (j : ℕ) → (Among j order → Among j c.order) × (Among j c.order → Among j order))
      × (c' ≡ record c {
        buf =
            update c.buf i
              (record (c.buf i) { lock = none; refcnt = ((c.buf i).refcnt + 2 ^ 32 - 1) % 2 ^ 32 });
        order = order;
      })
unfolding brelse
brelse_lem self c c' i e = elim (Bool-cases (holdingsleep self (c.buf i))) [
  | inr h ↦ absurd (ground (arith, e, h))
  | inl h ↦ elim (Bool-cases (((c.buf i).refcnt + 2 ^ 32 - 1) % 2 ^ 32 == 0)) [
    | inl z ↦ (
      i ∷ without i c.order,
      λ a j. (
        λ m. ground (arith, m, without_old i j c.order, a),
        λ m. ground (arith, without_other i j c.order m),
      ),
      ground (arith, e, h, z),
    )
    | inr z ↦ (c.order, λ a j. (λ m. m, λ m. m), ground (arith, e, h, z))
  ]
]

-- Neither call panics on a buffer of disk 1 and a block that the disk has.
pub bread_locked_returns :
    (self : ℕ) (c : Cache) (i : ℕ)
    → (c.buf i).lock ≡ none
    → (c.buf i).dev ≡ 1
    → (c.buf i).blockno < c.disksize
    → ((c.buf i).valid ≡ false → (c.buf i).dirty ≡ false)
    → (c' : Cache) × (bread_locked self c i ≡ some (ok c'))
unfolding bread_locked iderw
bread_locked_returns self c i l d h clean = elim (Bool-cases (c.buf i).valid) [
  | inl w ↦ (set_buf c i (record (c.buf i) { lock = some self }), ground (arith, l, w))
  | inr w ↦
      let c1 = set_buf c i (record (c.buf i) { lock = some self }) in
      (
        set_buf c1 i (record (c1.buf i) { content = c1.disk (c1.buf i).blockno; valid = true }),
        ground (arith, l, w, d, h, clean w),
      )
]

pub bwrite_returns :
    (self : ℕ) (c : Cache) (i : ℕ)
    → (c.buf i).lock ≡ some self
    → (c.buf i).dev ≡ 1
    → (c.buf i).blockno < c.disksize
    → (c' : Cache) × (bwrite self c i ≡ ok c')
unfolding bwrite iderw
bwrite_returns self c i l d h =
    let c1 = set_buf c i (record (c.buf i) { dirty = true }) in
    (
      record c1 {
        buf = update c1.buf i (record (c1.buf i) { dirty = false; valid = true });
        disk = update c1.disk (c1.buf i).blockno (c1.buf i).content;
      },
      ground (arith, l, d, h),
    )
