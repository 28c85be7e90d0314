-- ===== src/Bio/Held.antt =====
-- bio.c: changes of a buffer that is in use, against what Bio/Coherent states of the cache.
use native.Mathlib.Decide.{ℕ_discrete}
use mathlib.Core.Path.{subst}
use os_assignment.Prelude.{
  ℕ, ◌+◌, ◌-◌, ◌%◌, ◌^◌, ◌≡◌, ◌≢◌, ap, sym, arith, List, [], ◌∷◌, ◌++◌, Bool, true, false, none,
  some, Among, inl, inr, update, length, length-append, times, times-middle, times-length,
  Among-times, times-Among, Among-middle,
}
use os_assignment.Disk.{Block}
use os_assignment.Bio.{Cache, set_buf}
use os_assignment.Bio.Coherent.{Sys, Inv}

Among-widen : (j : ℕ) (us vs : List ℕ) (i : ℕ) → Among j (us ++ vs) → Among j (us ++ (i ∷ vs))
Among-widen j [] vs i a = inr a
Among-widen j (u ∷ us) vs i (inl e) = inl e
Among-widen j (u ∷ us) vs i (inr a) = inr (Among-widen j us vs i a)

Among-narrow :
    (j : ℕ) (us vs : List ℕ) (i : ℕ) → i ≢ j → Among j (us ++ (i ∷ vs)) → Among j (us ++ vs)
Among-narrow j us vs i ne a =
    times-Among j (us ++ vs)
      (ground (arith, times-middle j us vs i, Among-times j (us ++ (i ∷ vs)) a))

module _ {s : Sys} (v : Inv s) where
  abbrev c : Cache
  c = s.cache

  -- A buffer that its holder changes in the cache only.
  pub held-Inv :
      (i p : ℕ) (content : Block) (dirty : Bool)
      → (c.buf i).lock ≡ some p
      → (c.buf i).valid ≡ true
      → Inv (record {
        cache = set_buf c i (record (c.buf i) { content = content; dirty = dirty });
        refs = s.refs;
        view = update s.view (c.buf i).blockno content;
      })
  held-Inv i p content dirty l w =
      let (a, d) = v.known i (v.referenced i p l) in
      record {
        unique =
            λ j k aj ak dj dk e. v.unique j k aj ak (ground arith) (ground arith) (ground arith);
        counted = λ j aj. ground (arith, v.counted j aj);
        few = v.few;
        known = λ j aj. ground (arith, v.known j);
        referenced = λ j q e. ground (arith, v.referenced j q);
        fetched = λ j aj e. ground (arith, v.fetched j aj);
        settled = λ j aj lj dj vj ej. ground (arith, v.settled j aj);
        cached = λ j aj dj vj. ground (arith, v.cached j aj, v.unique i j a aj d);
        uncached =
            λ b e. ground (arith, e i a, d, w, v.uncached b (λ j aj dj nj. ground (arith, e j aj)));
      }

  -- A buffer that is read in, or found there, by a process that takes its lock.
  pub locked-Inv :
      (i p : ℕ)
      → Among i s.refs
      → (c.buf i).valid ≡ true
      → Inv (record s { cache = set_buf c i (record (c.buf i) { lock = some p }) })
  locked-Inv i p r w = record {
    unique = λ j k aj ak dj dk e. v.unique j k aj ak (ground arith) (ground arith) (ground arith);
    counted = λ j aj. ground (arith, v.counted j aj);
    few = v.few;
    known = λ j aj. ground (arith, v.known j);
    referenced = λ j q e. ground (arith, v.referenced j q, r);
    fetched = λ j aj e. ground (arith, v.fetched j aj);
    settled = λ j aj lj dj vj ej. ground (arith, v.settled j aj);
    cached = λ j aj dj vj. ground (arith, v.cached j aj);
    uncached = λ b e. v.uncached b (λ j aj dj nj. ground (arith, e j aj));
  }

  pub filled-Inv :
      (i p : ℕ)
      → Among i s.refs
      → (c.buf i).valid ≡ false
      → Inv (record s {
        cache =
            set_buf c i (record (c.buf i) {
              lock = some p;
              valid = true;
              content = c.disk (c.buf i).blockno;
            });
      })
  filled-Inv i p r w =
      let (a, d) = v.known i r in
      let fresh : c.disk (c.buf i).blockno ≡ s.view (c.buf i).blockno =
        v.uncached (c.buf i).blockno (λ j aj dj nj. rw (← v.unique i j a aj d dj (sym nj)) w) in
      record {
        unique =
            λ j k aj ak dj dk e. v.unique j k aj ak (ground arith) (ground arith) (ground arith);
        counted = λ j aj. ground (arith, v.counted j aj);
        few = v.few;
        known = λ j aj. ground (arith, v.known j);
        referenced = λ j q e. ground (arith, v.referenced j q, r);
        fetched = λ j aj e. ground (arith, v.fetched j aj);
        settled = λ j aj lj dj vj ej. ground (arith, v.settled j aj);
        cached = λ j aj dj vj. ground (arith, v.cached j aj, fresh);
        uncached = λ b e. v.uncached b (λ j aj dj nj. ground (arith, e j aj, w));
      }

  pub written-Inv :
      (i p : ℕ)
      → (c.buf i).lock ≡ some p
      → (c.buf i).valid ≡ true
      → Inv (record s {
        cache = record c {
          buf = update c.buf i (record (c.buf i) { dirty = false; valid = true });
          disk = update c.disk (c.buf i).blockno (c.buf i).content;
        };
      })
  written-Inv i p l w =
      let (a, d) = v.known i (v.referenced i p l) in
      record {
        unique =
            λ j k aj ak dj dk e. v.unique j k aj ak (ground arith) (ground arith) (ground arith);
        counted = λ j aj. ground (arith, v.counted j aj);
        few = v.few;
        known = λ j aj. ground (arith, v.known j);
        referenced = λ j q e. ground (arith, v.referenced j q);
        fetched = λ j aj e. ground (arith, v.fetched j aj);
        settled = λ j aj lj dj vj ej. ground (arith, v.settled j aj, v.unique i j a aj d);
        cached = λ j aj dj vj. ground (arith, v.cached j aj);
        uncached =
            λ b e. ground (arith, e i a, d, w, v.uncached b (λ j aj dj nj. ground (arith, e j aj)));
      }

  -- A buffer that its holder gives back; the order of the list does not matter.
  pub released-Inv :
      (us vs order : List ℕ) (i : ℕ)
      → s.refs ≡ us ++ (i ∷ vs)
      → ((j : ℕ) → (Among j order → Among j c.order) × (Among j c.order → Among j order))
      → ((c.buf i).valid ≡ true
          → (c.buf i).dirty ≡ false
          → (c.buf i).content ≡ c.disk (c.buf i).blockno)
      → Inv (record {
        cache = record c {
          buf =
              update c.buf i (record (c.buf i) {
                lock = none;
                refcnt = ((c.buf i).refcnt + 2 ^ 32 - 1) % 2 ^ 32;
              });
          order = order;
        };
        refs = us ++ vs;
        view = s.view;
      })
  released-Inv us vs order i e o clean =
      let mine : Among i s.refs = rw e (Among-middle us vs i) in
      let (a, d) = v.known i mine in
      let left : (c.buf i).refcnt ≡ times i (us ++ vs) + 1 =
        ground (arith, v.counted i a, ap (times i) e, times-middle i us vs i) in
      let down : ((c.buf i).refcnt + 2 ^ 32 - 1) % 2 ^ 32 ≡ times i (us ++ vs) =
        omega (arith, left, v.counted i a, times-length i s.refs, v.few) in
      record {
        unique = λ j k aj ak dj dk q.
            v.unique j k ((o j).0 aj) ((o k).0 ak) (ground arith) (ground arith) (ground arith);
        counted = λ j aj.
            ground (arith, v.counted j ((o j).0 aj), down, ap (times j) e, times-middle j us vs i);
        few = omega (arith, v.few, ap length e, length-append us (i ∷ vs), length-append us vs);
        known = λ j aj.
            let old : Among j s.refs = rw e (Among-widen j us vs i aj) in
            let (oj, dj) = v.known j old in ((o j).1 oj, ground (arith, dj));
        referenced = λ j p q. elim (ℕ_discrete i j) [
          | yes same ↦ absurd (ground (arith, q, same))
          | no ne ↦
              Among-narrow j us vs i ne (subst (Among j) e (v.referenced j p (ground (arith, q))))
        ];
        fetched = λ j aj q. ground (arith, v.fetched j ((o j).0 aj));
        settled = λ j aj lj dj vj ej. ground (arith, v.settled j ((o j).0 aj), clean);
        cached = λ j aj dj vj. ground (arith, v.cached j ((o j).0 aj));
        uncached = λ b q. v.uncached b (λ j aj dj nj. ground (arith, q j ((o j).1 aj)));
      }
