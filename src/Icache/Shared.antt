-- ===== src/Icache/Shared.antt =====
-- fs.c: what holds of the inode cache whatever calls were made.
use mathlib.Core.Path.{subst}
use os_assignment.Prelude.{
  ℕ, ◌+◌, ◌-◌, ◌%◌, ◌^◌, ◌<◌, ◌≡◌, ◌⊎◌, inl, inr, refl, ap, ◌∙◌, sym, arith, List, [], ◌∷◌, ◌++◌,
  true, false, not, ◌&&◌, none, some, ◌==◌, if◌then◌else◌, Bool-cases, Option-cases, get_elem?, set,
  length, Among, Among-middle, Among-times, times, ok, panic, ok-injective, ◌>>=◌,
}
use os_assignment.Blocks.{Super, Fs}
use os_assignment.Inodes.{itrunc}
use os_assignment.Inodes.Same.{SameInode, bind_ok, itrunc-SameInode}
use os_assignment.Icache.{
  Entry, referenced, add_ref, iget, idup, loaded, load, ilock, discard, iput,
}
use os_assignment.Icache.Handles.{
  Sys, Step, gets, dups, loads, uses, puts, Reach, here, next, Inv, Inv-set, still_alone,
}
use os_assignment.Icache.Calls.{held_entry, one_more, amend_at, put_entry, iget-IgetDoes}

module _ (sb : Super) where
  discard-SameInode :
      (f : Fs) (e : Entry) (r : Fs × Entry)
      → discard sb f e ≡ ok r
      → (r.1.ref ≡ e.ref) × SameInode r.1.inode e.inode
  unfolding discard
  discard-SameInode f e r q = elim (Bool-cases (e.valid && e.inode.nlink == 0 && e.ref == 1)) [
    | inl t ↦
        let (r', q', q2) = bind_ok (itrunc sb f e.inode) _ r (rw t at q) in
        let same : record e { inode = record (r'.1) { type = 0 }; valid = false } ≡ r.1 =
          ap (λ (p : Fs × Entry). p.1) (ok-injective q2) in
        let a = itrunc-SameInode sb f e.inode r' q' in
        (
          ap (λ (k : Entry). k.ref) (sym same),
          (
            ap (λ (k : Entry). k.inode.dev) (sym same) ∙ a.0,
            ap (λ (k : Entry). k.inode.inum) (sym same) ∙ a.1,
          ),
        )
    | inr t ↦
        let q' : ok (f, e) ≡ ok r = rw t at q in
        let same : e ≡ r.1 = ap (λ (p : Fs × Entry). p.1) (ok-injective q') in
        (
          ap (λ (k : Entry). k.ref) (sym same),
          (ap (λ (k : Entry). k.inode.dev) (sym same), ap (λ (k : Entry). k.inode.inum) (sym same)),
        )
  ]

  load_outcome :
      (f : Fs) (es es' : List Entry) (i : ℕ) (e : Entry)
      → load sb f es i e ≡ ok es'
      → (es' ≡ es) ⊎ (es' ≡ set es i (record e { inode = loaded sb f e.inode; valid = true }))
  load_outcome f es es' i e q = elim (Bool-cases e.valid) [
    | inl t ↦ inl (sym (ok-injective (rw t at q)))
    | inr t ↦ elim (Bool-cases ((loaded sb f e.inode).type == 0)) [
      | inl z ↦ cc (rw z at (rw t at q))
      | inr z ↦ inr (sym (ok-injective (rw z at (rw t at q))))
    ]
  ]

  ilock_found :
      (f : Fs) (es : List Entry) (i : ℕ) (e : Entry)
      → get_elem? es i ≡ some e
      → ilock sb f es i ≡ (if not (referenced e) then panic "ilock" else load sb f es i e)
  unfolding ilock
  ilock_found f es i e q = rw (q, ilock) refl

  ilock_missing :
      (f : Fs) (es : List Entry) (i : ℕ) → get_elem? es i ≡ none → ilock sb f es i ≡ panic "ilock"
  unfolding ilock
  ilock_missing f es i z = rw (z, ilock) refl

  ilock_outcome :
      (f : Fs) (es es' : List Entry) (i : ℕ)
      → ilock sb f es i ≡ ok es'
      → (es' ≡ es)
        ⊎ ((e : Entry) × (get_elem? es i ≡ some e)
            × (es' ≡ set es i (record e { inode = loaded sb f e.inode; valid = true })))
  ilock_outcome f es es' i q = elim (Option-cases (get_elem? es i)) [
    | inl z ↦ cc (sym (ilock_missing f es i z) ∙ q)
    | inr (e, here_) ↦ elim (Bool-cases (referenced e)) [
      | inl t ↦ elim (load_outcome f es es' i e (rw t at (sym (ilock_found f es i e here_) ∙ q))) [
        | inl a ↦ inl a
        | inr b ↦ inr (e, here_, b)
      ]
      | inr t ↦ cc (rw t at (sym (ilock_found f es i e here_) ∙ q))
    ]
  ]

  module _ {s : Sys} (v : Inv s) where
    uses-Inv :
        (i : ℕ) (e e' : Entry) (f : Fs)
        → get_elem? s.cache i ≡ some e
        → e'.ref ≡ e.ref
        → SameInode e'.inode e.inode
        → Inv (record { fs = f; cache = set s.cache i e'; handles = s.handles })
    uses-Inv i e e' f at r same =
        Inv-set v i e e' f s.handles at (r ∙ v.counted i e at) (λ j ne. refl) v.ranged v.few
          (still_alone v i e e' f s.handles at same (λ p. omega arith))

    loads-Inv :
        (i : ℕ) (es : List Entry)
        → ilock sb s.fs s.cache i ≡ ok es
        → Inv (record { fs = s.fs; cache = es; handles = s.handles })
    loads-Inv i es q = elim (ilock_outcome s.fs s.cache es i q) [
      | inl same ↦
          subst (λ c. Inv (record { fs = s.fs; cache = c; handles = s.handles })) (sym same)
            (record { counted = v.counted; ranged = v.ranged; few = v.few; unique = v.unique })
      | inr (e, here_, same) ↦
          subst (λ c. Inv (record { fs = s.fs; cache = c; handles = s.handles })) (sym same)
            (uses-Inv i e (record e { inode = loaded sb s.fs e.inode; valid = true }) s.fs here_
              refl (refl, refl))
    ]

    iput_found :
        (i : ℕ) (e : Entry)
        → get_elem? s.cache i ≡ some e
        → iput sb s.fs s.cache i ≡ (
            discard sb s.fs e >>= λ r.
            ok (r.0, set s.cache i (record (r.1) { ref = (r.1.ref + 2 ^ 32 - 1) % 2 ^ 32 })))
    unfolding iput
    iput_found i e q = rw (q, iput) refl

    puts-Inv :
        (us vs : List ℕ) (i : ℕ) (f : Fs) (es : List Entry)
        → s.handles ≡ us ++ (i ∷ vs)
        → iput sb s.fs s.cache i ≡ ok (f, es)
        → Inv (record { fs = f; cache = es; handles = us ++ vs })
    puts-Inv us vs i f es q run =
        let a : Among i s.handles = subst (Among i) (sym q) (Among-middle us vs i) in
        let (e, here_, live, small) = held_entry v i a in
        let (r, d, k) = bind_ok (discard sb s.fs e) _ (f, es) (sym (iput_found i e here_) ∙ run) in
        let (ref_, same) = discard-SameInode s.fs e r d in
        let e' = record (r.1) { ref = (r.1.ref + 2 ^ 32 - 1) % 2 ^ 32 } in
        let cache_ : set s.cache i e' ≡ es = ap (λ (p : Fs × List Entry). p.1) (ok-injective k) in
        subst (λ c. Inv (record { fs = f; cache = c; handles = us ++ vs })) cache_
          (put_entry v us vs i e e' f q here_ (omega arith) same)

Step-Inv : (sb : Super) {s t : Sys} → Inv s → Step sb s t → Inv t
unfolding idup
Step-Inv sb {s = s} v (gets dev inum i es few run q) =
    subst Inv (sym q) (elim (iget-IgetDoes v dev inum) [
      | inl (r, all) ↦ cc (sym r ∙ run)
      | inr (k, e, es', r, here_, d, n, keeps, fine) ↦
          let both : ok (es', k) ≡ ok (es, i) = sym r ∙ run in
          let cache_ : es' ≡ es = ap (λ (p : List Entry × ℕ). p.0) (ok-injective both) in
          let place : k ≡ i = ap (λ (p : List Entry × ℕ). p.1) (ok-injective both) in
          subst (λ c. Inv (record { fs = s.fs; cache = c; handles = i ∷ s.handles })) cache_
            (subst (λ j. Inv (record { fs = s.fs; cache = es'; handles = j ∷ s.handles })) place
              (fine few))
    ])
Step-Inv sb {s = s} v (dups i few a q) = subst Inv (sym q) (
    let (e, here_, live, small) = held_entry v i a in
    rw (amend_at v i e add_ref here_) (one_more v i e few here_ live))
Step-Inv sb {s = s} v (loads i es run q) = subst Inv (sym q) (loads-Inv sb v i es run)
Step-Inv sb {s = s} v (uses i e e' f here_ r same q) =
    subst Inv (sym q) (uses-Inv sb v i e e' f here_ r same)
Step-Inv sb {s = s} v (puts us vs i f es h run q) =
    subst Inv (sym q) (puts-Inv sb v us vs i f es h run)

Reach-Inv : (sb : Super) {s t : Sys} → Inv s → Reach sb s t → Inv t
Reach-Inv sb v here = v
Reach-Inv sb v (next r st) = Step-Inv sb (Reach-Inv sb v r) st

-- What holds of the cache and of the next call of `iget`.
pub record Safe (s : Sys) : Type 0 where
  pub counted : (j : ℕ) (e : Entry) → get_elem? s.cache j ≡ some e → e.ref ≡ times j s.handles
  pub one_copy :
      (j k : ℕ) (e e' : Entry)
      → Among j s.handles
      → Among k s.handles
      → get_elem? s.cache j ≡ some e
      → get_elem? s.cache k ≡ some e'
      → SameInode e.inode e'.inode
      → j ≡ k
  pub get :
      (dev inum : ℕ)
      → ((iget s.cache dev inum ≡ panic "iget: no inodes")
          × ((j : ℕ) → j < length s.cache → Among j s.handles))
        ⊎ ((i : ℕ) × (e : Entry) × (es : List Entry) × (iget s.cache dev inum ≡ ok (es, i))
            × (get_elem? es i ≡ some e)
            × (e.inode.dev ≡ dev)
            × (e.inode.inum ≡ inum)
            × ((j : ℕ) (g : Entry)
                → Among j s.handles
                → get_elem? s.cache j ≡ some g
                → (g' : Entry) × (get_elem? es j ≡ some g')
                  × (g'.inode ≡ g.inode)
                  × (g'.valid ≡ g.valid)))

Inv-empty :
    (f : Fs) (es : List Entry)
    → ((j : ℕ) (e : Entry) → get_elem? es j ≡ some e → e.ref ≡ 0)
    → Inv (record { fs = f; cache = es; handles = [] })
Inv-empty f es z = record {
  counted = z;
  ranged = tt;
  few = omega arith;
  unique = λ j k e e' q q' p p' same. absurd (omega (arith, z j e q));
}

-- From a cache without references, after any calls: the count of an entry is the number of pointers to it
-- that clients hold; clients that hold pointers to the same inode of a device hold the same pointer; and
-- `iget` gives an entry that is the inode asked for, and takes no entry away to which a client
-- holds a pointer, or panics, which it does only if clients hold pointers to every entry.
pub inodes-Safe :
    (sb : Super) (f : Fs) (es : List Entry) {t : Sys}
    → ((j : ℕ) (e : Entry) → get_elem? es j ≡ some e → e.ref ≡ 0)
    → Reach sb (record { fs = f; cache = es; handles = [] }) t
    → Safe t
inodes-Safe sb f es {t = t} z reach =
    let v = Reach-Inv sb (Inv-empty f es z) reach in
    record {
      counted = v.counted;
      one_copy = λ j k e e' a b q q' same.
          v.unique j k e e' q q' (omega (arith, v.counted j e q, Among-times j t.handles a))
            (omega (arith, v.counted k e' q', Among-times k t.handles b)) same;
      get = λ dev inum. elim (iget-IgetDoes v dev inum) [
        | inl a ↦ inl a
        | inr (i, e, es', r, here_, d, n, keeps, fine) ↦ inr (i, e, es', r, here_, d, n, keeps)
      ];
    }
