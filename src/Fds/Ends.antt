-- ===== src/Fds/Ends.antt =====
-- pipe.c: pipealloc, and giving its files back.
use mathlib.Core.Path.{subst}
use os_assignment.Prelude.{
  ℕ, ◌+◌, ◌^◌, ◌<◌, ◌≡◌, ◌≢◌, ◌⊎◌, inl, inr, refl, ◌∙◌, sym, fun_ext, arith, List, [], ◌∷◌, true,
  false, Option, none, some, ◌==◌, get_elem?, set, length, get_elem?-set_self, get_elem?-set_ne,
  update, Result, ok,
}
use os_assignment.Files.{File, fd_pipe}
use os_assignment.Kalloc.{kalloc}
use os_assignment.Kalloc.Chain.{IsPage, Holds, kalloc_some, kalloc_none}
use os_assignment.Pipe.{fresh}
use os_assignment.Fds.{Kernel, close_both, amend, read_end, write_end, join_files, pipealloc}
use os_assignment.Fds.Counted.{nfile, Kept, Kept-set, plus, entry, filealloc-Kept, NoInode}
use os_assignment.Fds.Closing.{close_file-Kept}

-- Files `f0` and `f1` are the ends of the pipe in page `p`.
pub record Ends (fs : List File) (f0 f1 p : ℕ) : Type 0 where
  pub r : File
  pub w : File
  pub at_r : get_elem? fs f0 ≡ some r
  pub at_w : get_elem? fs f1 ≡ some w
  pub reads : (r.target ≡ fd_pipe p) × (r.readable ≡ true) × (r.writable ≡ false)
  pub writes : (w.target ≡ fd_pipe p) × (w.readable ≡ false) × (w.writable ≡ true)

Ends-set :
    (fs : List File) (f0 f1 p : ℕ) (r w : File)
    → f0 ≢ f1
    → get_elem? fs f0 ≡ some (read_end p r)
    → f1 < length fs
    → Ends (set fs f1 (write_end p w)) f0 f1 p
Ends-set fs f0 f1 p r w ne at l = record {
  r = read_end p r;
  w = write_end p w;
  at_r = get_elem?-set_ne fs (write_end p w) (λ e. ne (sym e)) ∙ at;
  at_w = get_elem?-set_self fs f1 (write_end p w) l;
  reads = (refl, refl, refl);
  writes = (refl, refl, refl);
}

module _ (end_addr : ℕ) where
  pub amend-Kept :
      (fs : List File) (h : ℕ → ℕ) (i p : ℕ) (dress : File → File)
      → Kept end_addr fs h
      → i < nfile
      → h i ≢ 0
      → IsPage end_addr p
      → ((f : File) → ((dress f).ref ≡ f.ref) × ((dress f).target ≡ fd_pipe p))
      → (f : File) × (amend fs i dress ≡ set fs i (dress f)) × Kept end_addr (set fs i (dress f)) h
  amend-Kept fs h i p dress k l used page o =
      let (f, at) = entry end_addr fs h i k l in
      let was = k.each i f at in
      (
        f,
        rw (at, amend) refl,
        Kept-set end_addr fs h h i (dress f) k l
            (record {
              counted = (o f).0 ∙ was.counted;
              idle = λ e. absurd (used e);
              piped = λ q e. (let same : p ≡ q = cc (e, (o f).1) in rw (sym same) page);
            })
            (λ j ne. refl),
      )

  pub close_both-Kept :
      (k : Kernel) (h : ℕ → ℕ) (f0 f1 : ℕ)
      → Kept end_addr k.files (plus (plus h f0) f1)
      → f0 < nfile
      → f1 < nfile
      → ((j : ℕ) → h j + 2 < 2 ^ 31)
      → NoInode k.files f0
      → NoInode k.files f1
      → (k' : Kernel) × (close_both end_addr k f0 f1 ≡ ok k') × Kept end_addr k'.files h
  unfolding close_both
  close_both-Kept k h f0 f1 kept l0 l1 few n0 n1 =
      let swap : plus (plus h f0) f1 ≡ plus (plus h f1) f0 = fun_ext (λ j. omega arith) in
      let (k', e', kept', keep) =
        close_file-Kept end_addr k (plus h f1) f0 (subst (Kept end_addr k.files) swap kept) l0
          (ground (arith, few f0)) n0 in
      let (k'', e'', kept'', keep') =
        close_file-Kept end_addr k' h f1 kept' l1 (omega (arith, few f1)) (keep f1 n1) in
      (k'', rw e' e'', kept'')

  -- What `pipealloc` returns: nothing, or two files that nobody held as the ends of a pipe.
  abbrev pub Allocated : Kernel → (ℕ → ℕ) → Result (Kernel × Option (ℕ × ℕ)) → Type 0
  Allocated k h r =
      (k' : Kernel) × (((r ≡ ok (k', none)) × Kept end_addr k'.files h)
        ⊎ ((f0 : ℕ) × (f1 : ℕ) × (p : ℕ) × (r ≡ ok (k', some (f0, f1)))
            × (f0 < nfile)
            × (f1 < nfile)
            × (f0 ≢ f1)
            × (k'.pipes p ≡ fresh (k.pipes p).bytes)
            × Ends k'.files f0 f1 p
            × Kept end_addr k'.files (plus (plus h f0) f1)))

  join_files_page :
      (k : Kernel) (f0 f1 x : ℕ) (fs fs' : List File)
      → (kalloc k.mem).0 ≡ x
      → x ≢ 0
      → amend k.files f0 (read_end x) ≡ fs
      → amend fs f1 (write_end x) ≡ fs'
      → join_files end_addr k f0 f1
        ≡ ok (
          record k {
            files = fs';
            mem = (kalloc k.mem).1;
            pipes = update k.pipes x (fresh (k.pipes x).bytes);
          },
          some (f0, f1),
        )
  unfolding join_files
  join_files_page k f0 f1 x fs fs' got nz e e' =
      let some_ : (x == 0) ≡ false = ground (arith, nz) in
      rw (got, join_files) (rw some_ (rw e (rw e' refl)))

  join_files-Allocated :
      (k : Kernel) (h : ℕ → ℕ) (f0 f1 : ℕ) (xs : List ℕ)
      → Kept end_addr k.files (plus (plus h f0) f1)
      → Holds end_addr k.mem xs
      → f0 < nfile
      → f1 < nfile
      → f0 ≢ f1
      → ((j : ℕ) → h j + 2 < 2 ^ 31)
      → NoInode k.files f0
      → NoInode k.files f1
      → Allocated k h (join_files end_addr k f0 f1)
  unfolding join_files
  join_files-Allocated k h f0 f1 [] kept holds l0 l1 ne few n0 n1 =
      let null = kalloc_none end_addr k.mem holds in
      let (k', e, kept') =
        close_both-Kept (record k { mem = k.mem }) h f0 f1 kept l0 l1 few n0 n1 in
      (k', inl (rw null (rw e refl), kept'))
  join_files-Allocated k h f0 f1 (x ∷ xs) kept holds l0 l1 ne few n0 n1 =
      let (got, nz, rest) = kalloc_some end_addr k.mem x xs holds in
      let page : IsPage end_addr x = holds.pages.0 in
      let h' = plus (plus h f0) f1 in
      let (r, er, kept') =
        amend-Kept k.files h' f0 x (read_end x) kept l0 (ground arith) page (λ f. (refl, refl)) in
      let (w, ew, kept'') =
        amend-Kept (set k.files f0 (read_end x r)) h' f1 x (write_end x) kept' l1 (ground arith)
          page (λ f. (refl, refl)) in
      let some_ : ((kalloc k.mem).0 == 0) ≡ false = ground (arith, got, nz) in
      (
        record k {
          files = set (set k.files f0 (read_end x r)) f1 (write_end x w);
          mem = (kalloc k.mem).1;
          pipes = update k.pipes x (fresh (k.pipes x).bytes);
        },
        inr (
          f0,
          f1,
          x,
          join_files_page k f0 f1 x _ _ got nz er ew,
          l0,
          l1,
          ne,
          ground arith,
          Ends-set (set k.files f0 (read_end x r)) f0 f1 x r w ne
              (get_elem?-set_self k.files f0 (read_end x r) (omega (arith, kept.size)))
              (omega (arith, kept'.size)),
          kept'',
        ),
      )

  pub pipealloc-Allocated :
      (k : Kernel) (h : ℕ → ℕ) (xs : List ℕ)
      → Kept end_addr k.files h
      → Holds end_addr k.mem xs
      → ((j : ℕ) → h j + 2 < 2 ^ 31)
      → Allocated k h (pipealloc end_addr k)
  unfolding pipealloc
  pipealloc-Allocated k h xs kept holds few = elim (filealloc-Kept end_addr k.files h kept) [
    | inl r ↦ (k, inl (rw (r, pipealloc) refl, kept))
    | inr (i, fs, r, l, z, kept', calm, keep) ↦ elim (filealloc-Kept end_addr fs (plus h i) kept') [
      | inl r' ↦
          let (k', e, back, keep') =
            close_file-Kept end_addr (record k { files = fs }) h i kept' l (omega (arith, few i))
              calm in
          (k', inl (rw (r, pipealloc) (rw (r', e) refl), back))
      | inr (j, fs', r', l', z', kept'', calm', keep') ↦
          let joined =
            join_files-Allocated (record k { files = fs' }) h i j xs kept'' holds l l'
              (ground (arith, z')) few (keep' i calm) calm' in
          subst (Allocated k h) (rw (r, pipealloc) (rw r' refl)) joined
    ]
  ]
