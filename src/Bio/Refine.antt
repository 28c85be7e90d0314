-- ===== src/Bio/Refine.antt =====
-- bio.c: any sequence of calls, and the one value for each block that the users see, as Disk has it.
use mathlib.Core.Path.{subst}
use os_assignment.Prelude.{
  ℕ, ◌+◌, ◌^◌, ◌<◌, ◌≡◌, refl, ◌∙◌, sym, arith, List, [], ◌∷◌, ◌++◌, Bool, true, false, none, some,
  ◌==◌, if◌then◌else◌, Among, inl, inr, Bool-cases, ok, update, length, ok-injective, Among-middle,
}
use os_assignment.Disk.{Block}
use os_assignment.Bio.{Buf, Cache, set_buf, bget, bread_locked, bwrite, brelse, binit_order}
use os_assignment.Bio.Pick.{bget_lem}
use os_assignment.Bio.Coherent.{Sys, Inv, hit-Inv, recycle-Inv}
use os_assignment.Bio.Held.{held-Inv, locked-Inv, filled-Inv, written-Inv, released-Inv}
use os_assignment.Bio.Calls.{
  bread_locked_valid, bread_locked_read, bwrite_lem, brelse_lem, bread_locked_returns,
  bwrite_returns,
}

-- What the users of the cache do, between two of whose steps others may come: the two parts of `bread`;
-- a change of the contents, or of the mark that log.c sets, by the holder of the lock; `bwrite`; and
-- `brelse` of a buffer whose changes are written or marked. Only a change of contents changes what the
-- users see.
pub data Step (s t : Sys) : Type 0 where
  gets :
      (b i : ℕ) (c : Cache)
      → length s.refs + 1 < 2 ^ 31
      → bget s.cache 1 b ≡ ok (c, i)
      → t ≡ record { cache = c; refs = i ∷ s.refs; view = s.view }
      → Step s t
  locks :
      (self i : ℕ) (c : Cache)
      → Among i s.refs
      → bread_locked self s.cache i ≡ some (ok c)
      → t ≡ record s { cache = c }
      → Step s t
  changes :
      (self i : ℕ) (content : Block) (dirty : Bool)
      → (s.cache.buf i).lock ≡ some self
      → (s.cache.buf i).valid ≡ true
      → t ≡ record {
        cache = set_buf s.cache i (record (s.cache.buf i) { content = content; dirty = dirty });
        refs = s.refs;
        view = update s.view (s.cache.buf i).blockno content;
      }
      → Step s t
  writes :
      (self i : ℕ) (c : Cache)
      → (s.cache.buf i).valid ≡ true
      → bwrite self s.cache i ≡ ok c
      → t ≡ record s { cache = c }
      → Step s t
  releases :
      (self i : ℕ) (us vs : List ℕ) (c : Cache)
      → s.refs ≡ us ++ (i ∷ vs)
      → ((s.cache.buf i).dirty ≡ false
          → (s.cache.buf i).content ≡ s.cache.disk (s.cache.buf i).blockno)
      → brelse self s.cache i ≡ ok c
      → t ≡ record { cache = c; refs = us ++ vs; view = s.view }
      → Step s t

pub data Reach (s : Sys) : Sys → Type 0 where
  here : Reach s s
  next : {t u : Sys} → Reach s t → Step t u → Reach s u

gets-Inv :
    {s : Sys} (b i : ℕ) (c : Cache)
    → Inv s
    → length s.refs + 1 < 2 ^ 31
    → bget s.cache 1 b ≡ ok (c, i)
    → Inv (record { cache = c; refs = i ∷ s.refs; view = s.view })
gets-Inv {s = s} b i c v h e = elim (bget_lem s.cache 1 b) [
  | inl (j, a, k, r) ↦
      subst (λ (x : Cache × ℕ). Inv (record { cache = x.0; refs = x.1 ∷ s.refs; view = s.view }))
        (ok-injective (sym r ∙ e)) (hit-Inv v j h a k.0)
  | inr (inl (new, (j, a, z, d, r))) ↦
      subst (λ (x : Cache × ℕ). Inv (record { cache = x.0; refs = x.1 ∷ s.refs; view = s.view }))
        (ok-injective (sym r ∙ e)) (recycle-Inv v j b h new a z d)
  | inr (inr (new, busy, r)) ↦ absurd (ground (arith, e, r))
]

locks-Inv :
    {s : Sys} (self i : ℕ) (c : Cache)
    → Inv s
    → Among i s.refs
    → bread_locked self s.cache i ≡ some (ok c)
    → Inv (record s { cache = c }) × ((c.buf i).content ≡ s.view (s.cache.buf i).blockno)
locks-Inv {s = s} self i c v a e =
    let (o, d) = v.known i a in
    elim (Bool-cases (s.cache.buf i).valid) [
      | inl w ↦
          let r = bread_locked_valid self s.cache c i e w in
          (
            subst (λ x. Inv (record s { cache = x })) (sym r) (locked-Inv v i self a w),
            rw r (ground (arith, v.cached i o d w)),
          )
      | inr w ↦
          let r = bread_locked_read self s.cache c i e w (v.fetched i o w) in
          let k = filled-Inv v i self a w in
          (
            subst (λ x. Inv (record s { cache = x })) (sym r) k,
            rw r (ground (arith, k.cached i o (ground (arith, d)) (ground arith))),
          )
    ]

writes-Inv :
    {s : Sys} (self i : ℕ) (c : Cache)
    → Inv s
    → (s.cache.buf i).valid ≡ true
    → bwrite self s.cache i ≡ ok c
    → Inv (record s { cache = c })
      × ((b : ℕ) → c.disk b ≡ (if (s.cache.buf i).blockno == b then s.view b else s.cache.disk b))
writes-Inv {s = s} self i c v w e =
    let (l, r) = bwrite_lem self s.cache c i e in
    let (o, d) = v.known i (v.referenced i self l) in
    (
      subst (λ x. Inv (record s { cache = x })) (sym r) (written-Inv v i self l w),
      λ b. rw r (ground (arith, v.cached i o d w)),
    )

Step-Inv : {s t : Sys} → Inv s → Step s t → Inv t
Step-Inv v (gets b i c h e q) = subst Inv (sym q) (gets-Inv b i c v h e)
Step-Inv v (locks self i c a e q) = subst Inv (sym q) (locks-Inv self i c v a e).0
Step-Inv v (changes self i content dirty l w q) =
    subst Inv (sym q) (held-Inv v i self content dirty l w)
Step-Inv v (writes self i c w e q) = subst Inv (sym q) (writes-Inv self i c v w e).0
Step-Inv {s = s} v (releases self i us vs c e clean run q) =
    let (order, same, r) = brelse_lem self s.cache c i run in
    let a : Among i s.refs = rw e (Among-middle us vs i) in
    subst Inv (sym q) (
      subst (λ x. Inv (record { cache = x; refs = us ++ vs; view = s.view })) (sym r)
        (released-Inv v us vs order i e (same (v.known i a).0) (λ w. clean)))

Reach-Inv : {s t : Sys} → Inv s → Reach s t → Inv t
Reach-Inv v here = v
Reach-Inv v (next r st) = Step-Inv (Reach-Inv v r) st

abbrev pub no_block : Buf
no_block = record {
  valid = false;
  dirty = false;
  dev = 0;
  blockno = 0;
  lock = none;
  refcnt = 0;
  content = [];
}

-- The cache after `binit`, with the buffers `ids`.
abbrev pub fresh : List ℕ → (ℕ → Block) → ℕ → Sys
fresh ids disk size = record {
  cache = record { buf = λ i. no_block; order = binit_order ids []; disk = disk; disksize = size };
  refs = [];
  view = disk;
}

fresh-Inv : (ids : List ℕ) (disk : ℕ → Block) (size : ℕ) → Inv (fresh ids disk size)
fresh-Inv ids disk size = record {
  unique = λ i j a b d k e. absurd (omega arith);
  counted = λ i a. refl;
  few = omega arith;
  known = λ i a. absurd a;
  referenced = λ i p e. cc;
  fetched = λ i a e. refl;
  settled = λ i a l d w e. absurd (omega arith);
  cached = λ i a d w. absurd (omega arith);
  uncached = λ b h. refl;
}

-- What the users of the cache may rely on.
pub record OneValue (s : Sys) : Type 0 where
  pub reads :
      (self i : ℕ) (c : Cache)
      → Among i s.refs
      → bread_locked self s.cache i ≡ some (ok c)
      → (c.buf i).content ≡ s.view (s.cache.buf i).blockno
  pub reads_return :
      (self i : ℕ)
      → Among i s.refs
      → (s.cache.buf i).lock ≡ none
      → (s.cache.buf i).blockno < s.cache.disksize
      → (c : Cache) × (bread_locked self s.cache i ≡ some (ok c))
  pub writes_return :
      (self i : ℕ)
      → (s.cache.buf i).lock ≡ some self
      → (s.cache.buf i).blockno < s.cache.disksize
      → (c : Cache) × (bwrite self s.cache i ≡ ok c)
  pub writes_back :
      (self i : ℕ) (c : Cache)
      → (s.cache.buf i).valid ≡ true
      → bwrite self s.cache i ≡ ok c
      → (b : ℕ) → c.disk b ≡ (if (s.cache.buf i).blockno == b then s.view b else s.cache.disk b)
  pub one_buffer :
      (i j : ℕ)
      → Among i s.refs
      → Among j s.refs
      → (s.cache.buf i).blockno ≡ (s.cache.buf j).blockno
      → i ≡ j

-- After any calls by any processes that follow the rules of `Step`, with evictions in between: `bread`
-- returns for a block what its last holder left there, or the disk's contents if nobody changed it;
-- `bwrite` puts this on the disk at that block and changes no other block of the disk; both return for
-- a block that the disk has, `bread` as soon as the buffer's lock is free; and no two buffers are in use
-- for one block.
pub cache-OneValue :
    (ids : List ℕ) (disk : ℕ → Block) (size : ℕ) {s : Sys}
    → Reach (fresh ids disk size) s
    → OneValue s
cache-OneValue ids disk size {s} r = record {
  reads = λ self i c a e. (locks-Inv self i c v a e).1;
  reads_return = λ self i a l h.
      let (o, d) = v.known i a in bread_locked_returns self s.cache i l d h (v.fetched i o);
  writes_return =
      λ self i l h. bwrite_returns self s.cache i l (v.known i (v.referenced i self l)).1 h;
  writes_back = λ self i c w e. (writes-Inv self i c v w e).1;
  one_buffer = λ i j a b e.
      let (oi, di) = v.known i a in let (oj, dj) = v.known j b in v.unique i j oi oj di dj e;
}
  where
    v : Inv s
    v = Reach-Inv (fresh-Inv ids disk size) r
