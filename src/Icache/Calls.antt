-- ===== src/Icache/Calls.antt =====
-- fs.c: each call on the inode cache keeps its invariant.
use native.Mathlib.Decide.{ℕ_discrete}
use mathlib.Core.Path.{subst}
use os_assignment.Prelude.{
  ℕ, suc, ◌+◌, ◌^◌, ◌<◌, ◌≡◌, ◌≢◌, ◌⊎◌, inl, inr, refl, ap, ◌∙◌, sym, arith, List, ◌∷◌, ◌++◌, none,
  some, get_elem?, set, length, length-append, get_elem?_lt, get_elem?-some, get_elem?-set_self,
  get_elem?-set_ne, All, All-among, All-middle, Among, Among-times, times, times-middle,
  times-length, times-Among, Result, ok, panic,
}
use os_assignment.Blocks.{Fs}
use os_assignment.Inodes.Same.{SameInode}
use os_assignment.Icache.{Entry, hit, missing, add_ref, recycled, amend, scan, iget}
use os_assignment.Icache.Scan.{NoneHas, scan-Scanned}
use os_assignment.Icache.Handles.{Sys, Inv, Inv-set, still_alone}

times_here : (i : ℕ) (xs : List ℕ) → times i (i ∷ xs) ≡ suc (times i xs)
times_here i xs = ground arith

times_there : (j i : ℕ) (xs : List ℕ) → i ≢ j → times j (i ∷ xs) ≡ times j xs
times_there j i xs ne = ground (arith, ne)

module _ {s : Sys} (v : Inv s) where
  -- A pointer that is held is to an entry with references.
  pub held_entry :
      (i : ℕ)
      → Among i s.handles
      → (e : Entry) × (get_elem? s.cache i ≡ some e) × (0 < e.ref) × (e.ref < 2 ^ 31)
  held_entry i a =
      let (e, at) = get_elem?-some s.cache i (All-among _ s.handles i v.ranged a) in
      (
        e,
        at,
        omega (arith, v.counted i e at, Among-times i s.handles a),
        omega (arith, v.counted i e at, times-length i s.handles, v.few),
      )

  -- One more pointer to an entry that has some.
  pub one_more :
      (i : ℕ) (e : Entry)
      → length s.handles + 1 < 2 ^ 31
      → get_elem? s.cache i ≡ some e
      → 0 < e.ref
      → Inv (record { fs = s.fs; cache = set s.cache i (add_ref e); handles = i ∷ s.handles })
  one_more i e few at live =
      let bound : e.ref + 1 < 2 ^ 31 = omega (arith, v.counted i e at, times-length i s.handles) in
      Inv-set v i e (add_ref e) s.fs (i ∷ s.handles) at (ground (arith, v.counted i e at, bound))
        (λ j ne. ground (arith, ne)) (get_elem?_lt s.cache i e at, v.ranged) (omega arith)
        (still_alone v i e (add_ref e) s.fs s.handles at (refl, refl) (λ p. live))

  -- An entry without pointers becomes another inode, which no entry in use is.
  new_inode :
      (dev inum i : ℕ) (e : Entry)
      → length s.handles + 1 < 2 ^ 31
      → NoneHas dev inum s.cache
      → get_elem? s.cache i ≡ some e
      → e.ref ≡ 0
      → Inv (record {
        fs = s.fs;
        cache = set s.cache i (recycled dev inum e);
        handles = i ∷ s.handles;
      })
  new_inode dev inum i e few no_hit at z =
      Inv-set v i e (recycled dev inum e) s.fs (i ∷ s.handles) at
        (ground (arith, v.counted i e at, z)) (λ j ne. ground (arith, ne))
        (get_elem?_lt s.cache i e at, v.ranged) (omega arith)
        (λ k g ne q p p' h.
          let bound : g.ref < 2 ^ 31 =
            omega (arith, v.counted k g q, times-length k s.handles, v.few) in
          ground (arith, no_hit k g q, p', bound, h.0, h.1))

  -- The inodes of which a pointer is held are as before.
  abbrev pub Keeps : List Entry → Type 0
  Keeps es =
      (j : ℕ) (g : Entry)
      → Among j s.handles
      → get_elem? s.cache j ≡ some g
      → (g' : Entry) × (get_elem? es j ≡ some g') × (g'.inode ≡ g.inode) × (g'.valid ≡ g.valid)

  set-Keeps :
      (i : ℕ) (e e' : Entry)
      → get_elem? s.cache i ≡ some e
      → (Among i s.handles → (e'.inode ≡ e.inode) × (e'.valid ≡ e.valid))
      → Keeps (set s.cache i e')
  set-Keeps i e e' at same j g a q = elim (ℕ_discrete i j) [
    | yes w ↦
        let eq : some e ≡ some g = sym at ∙ ap (get_elem? s.cache) w ∙ q in
        let is_g : e ≡ g = cc (eq) in
        let (x, y) = same (subst (λ k. Among k s.handles) (sym w) a) in
        (
          e',
          ap (get_elem? (set s.cache i e')) (sym w)
              ∙ get_elem?-set_self s.cache i e' (get_elem?_lt s.cache i e at),
          x ∙ ap (λ (k : Entry). k.inode) is_g,
          y ∙ ap (λ (k : Entry). k.valid) is_g,
        )
    | no ne ↦ (g, get_elem?-set_ne s.cache e' ne ∙ q, refl, refl)
  ]

  -- What `iget` may do: panic where every entry has pointers, or give an entry that is the inode, with one
  -- more pointer.
  abbrev pub IgetDoes : ℕ → ℕ → Result (List Entry × ℕ) → Type 0
  IgetDoes dev inum r =
      ((r ≡ panic "iget: no inodes") × ((j : ℕ) → j < length s.cache → Among j s.handles))
      ⊎ ((i : ℕ) × (e : Entry) × (es : List Entry) × (r ≡ ok (es, i))
          × (get_elem? es i ≡ some e)
          × (e.inode.dev ≡ dev)
          × (e.inode.inum ≡ inum)
          × Keeps es
          × (length s.handles + 1 < 2 ^ 31
              → Inv (record { fs = s.fs; cache = es; handles = i ∷ s.handles })))

  pub amend_at :
      (i : ℕ) (e : Entry) (h : Entry → Entry)
      → get_elem? s.cache i ≡ some e
      → amend s.cache i h ≡ set s.cache i (h e)
  amend_at i e h at = rw (at, amend) refl

  now_at :
      (i : ℕ) (e e' : Entry)
      → get_elem? s.cache i ≡ some e
      → get_elem? (set s.cache i e') i ≡ some e'
  now_at i e e' at = get_elem?-set_self s.cache i e' (get_elem?_lt s.cache i e at)

  pub iget-IgetDoes : (dev inum : ℕ) → IgetDoes dev inum (iget s.cache dev inum)
  unfolding iget
  iget-IgetDoes dev inum = elim (scan-Scanned dev inum 0 s.cache none) [
    | inl (k, r, found) ↦
        let (e, at, m) = found in
        let place : 0 + k ≡ k = omega arith in
        let hit_ : scan dev inum 0 s.cache none ≡ hit k = r ∙ ap hit place in
        inr (
          k,
          add_ref e,
          set s.cache k (add_ref e),
          rw (hit_, iget) (ap (λ es. ok (es, k)) (amend_at k e add_ref at)),
          now_at k e (add_ref e) at,
          ground (arith, m),
          ground (arith, m),
          set-Keeps k e (add_ref e) at (λ a. (refl, refl)),
          λ few. one_more k e few at (ground (arith, m)),
        )
    | inr (o, r, no_hit, empties) ↦ elim empties [
      | inl (q, all) ↦
          let none_ : scan dev inum 0 s.cache none ≡ missing none = r ∙ ap missing q in
          inl (
            rw (none_, iget) refl,
            λ j l.
                let (e, at) = get_elem?-some s.cache j l in
                times-Among j s.handles (λ z. all j e at (v.counted j e at ∙ z)),
          )
      | inr (k, e, q, at, z) ↦
          let place : 0 + k ≡ k = omega arith in
          let free : scan dev inum 0 s.cache none ≡ missing (some k) =
            r ∙ ap missing (q ∙ ap some place) in
          inr (
            k,
            recycled dev inum e,
            set s.cache k (recycled dev inum e),
            rw (free, iget) (ap (λ es. ok (es, k)) (amend_at k e (recycled dev inum) at)),
            now_at k e (recycled dev inum e) at,
            refl,
            refl,
            set-Keeps k e (recycled dev inum e) at
                (λ a. absurd (omega (arith, v.counted k e at, Among-times k s.handles a, z))),
            λ few. new_inode dev inum k e few no_hit at z,
          )
    ]
  ]

  -- The pointer that `iput` drops.
  pub put_entry :
      (us vs : List ℕ) (i : ℕ) (e e' : Entry) (f : Fs)
      → s.handles ≡ us ++ (i ∷ vs)
      → get_elem? s.cache i ≡ some e
      → e'.ref + 1 ≡ e.ref
      → SameInode e'.inode e.inode
      → Inv (record { fs = f; cache = set s.cache i e'; handles = us ++ vs })
  put_entry us vs i e e' f q at r same =
      Inv-set v i e e' f (us ++ vs) at
        (omega (
          arith,
          v.counted i e at,
          ap (times i) q,
          times-middle i us vs i,
          times_here i (us ++ vs),
        ))
        (λ j ne.
          omega (arith, ap (times j) q, times-middle j us vs i, times_there j i (us ++ vs) ne))
        (All-middle (λ k. k < length s.cache) us vs i
          (subst (All (λ k. k < length s.cache)) q v.ranged)).1
        (omega (arith, v.few, ap length q, length-append us (i ∷ vs), length-append us vs))
        (still_alone v i e e' f (us ++ vs) at same (λ p. omega arith))
