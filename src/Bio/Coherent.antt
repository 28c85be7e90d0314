-- ===== src/Bio/Coherent.antt =====
-- bio.c: what holds of the cache between any two steps, and the two ways in which `bget` takes a buffer.
use os_assignment.Prelude.{
  ℕ, ◌+◌, ◌%◌, ◌^◌, ◌<◌, ◌≡◌, ap, ◌∙◌, sym, arith, List, ◌∷◌, true, false, none, some, ◌&&◌, ◌==◌,
  Among, inl, inr, Bool-cases, Option-cases, length, times, times-length, Among-times,
}
use os_assignment.Disk.{Block}
use os_assignment.Bio.{Buf, Cache, set_buf, recycled}
use os_assignment.Bio.Pick.{Caches, NotCached}

-- The cache; a reference for each call of `bread` whose `brelse` is to come; and what the users see.
pub record Sys : Type 0 where
  pub cache : Cache
  pub refs : List ℕ
  pub view : ℕ → Block

abbrev pub buf_at : Sys → ℕ → Buf
buf_at s i = s.cache.buf i

pub record Inv (s : Sys) : Type 0 where
  pub unique :
      (i j : ℕ)
      → Among i s.cache.order
      → Among j s.cache.order
      → (buf_at s i).dev ≡ 1
      → (buf_at s j).dev ≡ 1
      → (buf_at s i).blockno ≡ (buf_at s j).blockno
      → i ≡ j
  pub counted : (i : ℕ) → Among i s.cache.order → (buf_at s i).refcnt ≡ times i s.refs
  pub few : length s.refs < 2 ^ 31
  pub known : (i : ℕ) → Among i s.refs → Among i s.cache.order × ((buf_at s i).dev ≡ 1)
  pub referenced : (i p : ℕ) → (buf_at s i).lock ≡ some p → Among i s.refs
  pub fetched :
      (i : ℕ) → Among i s.cache.order → (buf_at s i).valid ≡ false → (buf_at s i).dirty ≡ false
  pub settled :
      (i : ℕ)
      → Among i s.cache.order
      → (buf_at s i).lock ≡ none
      → (buf_at s i).dev ≡ 1
      → (buf_at s i).valid ≡ true
      → (buf_at s i).dirty ≡ false
      → (buf_at s i).content ≡ s.cache.disk (buf_at s i).blockno
  pub cached :
      (i : ℕ)
      → Among i s.cache.order
      → (buf_at s i).dev ≡ 1
      → (buf_at s i).valid ≡ true
      → (buf_at s i).content ≡ s.view (buf_at s i).blockno
  pub uncached :
      (b : ℕ)
      → ((i : ℕ)
          → Among i s.cache.order
          → (buf_at s i).dev ≡ 1
          → (buf_at s i).blockno ≡ b
          → (buf_at s i).valid ≡ false)
      → s.cache.disk b ≡ s.view b

module _ {s : Sys} (v : Inv s) where
  abbrev c : Cache
  c = s.cache

  pub unlocked_unused : (i : ℕ) → Among i c.order → (c.buf i).refcnt ≡ 0 → (c.buf i).lock ≡ none
  unlocked_unused i a z = elim (Option-cases (c.buf i).lock) [
    | inl e ↦ e
    | inr (p, e) ↦
        absurd (omega (arith, v.counted i a, Among-times i s.refs (v.referenced i p e), z))
  ]

  pub hit-Inv :
      (i : ℕ)
      → length s.refs + 1 < 2 ^ 31
      → Among i c.order
      → (c.buf i).dev ≡ 1
      → Inv (record s {
        cache = set_buf c i (record (c.buf i) { refcnt = ((c.buf i).refcnt + 1) % 2 ^ 32 });
        refs = i ∷ s.refs;
      })
  hit-Inv i h a d =
      let up : ((c.buf i).refcnt + 1) % 2 ^ 32 ≡ (c.buf i).refcnt + 1 =
        omega (arith, v.counted i a, times-length i s.refs) in
      record {
        unique =
            λ j k aj ak dj dk e. v.unique j k aj ak (ground arith) (ground arith) (ground arith);
        counted = λ j aj. ground (arith, v.counted j aj, up);
        few = omega arith;
        known = λ j aj. ground (arith, v.known j, a, d);
        referenced = λ j p e. ground (arith, v.referenced j p);
        fetched = λ j aj e. ground (arith, v.fetched j aj);
        settled = λ j aj l dj vj ej. ground (arith, v.settled j aj);
        cached = λ j aj dj vj. ground (arith, v.cached j aj);
        uncached = λ b e. v.uncached b (λ j aj dj nj. ground (arith, e j aj));
      }

  pub recycle-Inv :
      (i b : ℕ)
      → length s.refs + 1 < 2 ^ 31
      → NotCached c 1 b
      → Among i c.order
      → (c.buf i).refcnt ≡ 0
      → (c.buf i).dirty ≡ false
      → Inv (record s { cache = set_buf c i (recycled 1 b (c.buf i)); refs = i ∷ s.refs })
  recycle-Inv i b h new a z clean =
      let free : (c.buf i).lock ≡ none = unlocked_unused i a z in
      record {
        unique = λ j k aj ak dj dk e. ground (
          arith,
          v.unique j k aj ak,
          λ (x : Caches (c.buf j) 1 b). new j aj x,
          λ (x : Caches (c.buf k) 1 b). new k ak x,
        );
        counted = λ j aj. ground (arith, v.counted j aj, z, v.counted i a);
        few = omega arith;
        known = λ j aj. ground (arith, v.known j, a);
        referenced = λ j p e. ground (arith, v.referenced j p);
        fetched = λ j aj e. ground (arith, v.fetched j aj);
        settled = λ j aj l dj vj ej. ground (arith, v.settled j aj);
        cached = λ j aj dj vj. ground (arith, v.cached j aj);
        uncached = λ x e.
            elim (Bool-cases ((c.buf i).dev == 1 && (c.buf i).blockno == x && (c.buf i).valid)) [
              | inl y ↦
                  let d : (c.buf i).dev ≡ 1 = ground (arith, y) in
                  let n : (c.buf i).blockno ≡ x = ground (arith, y) in
                  let w : (c.buf i).valid ≡ true = ground (arith, y) in
                  ap c.disk (sym n)
                  ∙ sym (v.settled i a free d w clean)
                  ∙ v.cached i a d w
                  ∙ ap s.view n
              | inr y ↦ v.uncached x (λ j aj dj nj. ground (arith, e j aj, y))
            ];
      }
