-- ===== src/Fds/Counted.antt =====
-- sysfile.c and pipe.c: the counts of open files while files are allocated and closed.
use native.Mathlib.Decide.{ℕ_discrete}
use os_assignment.Prelude.{
  ℕ, ◌+◌, ◌^◌, ◌<◌, ◌≡◌, ◌≢◌, ◌⊎◌, inl, inr, ap, ◌∙◌, sym, arith, List, none, some, get_elem?, set,
  length, length-set, get_elem?_lt, get_elem?-some, get_elem?-set_self, get_elem?-set_ne, ok,
}
use os_assignment.Files.{File, fd_none, fd_pipe, fd_inode, filealloc, filedup}
use os_assignment.Files.Calls.{filealloc-Found, filedup_held}
use os_assignment.Kalloc.Chain.{IsPage}
use os_assignment.Fds.Find.{one}

abbrev pub nfile : ℕ
nfile = 100

-- A file of the table when `n` references to it are held.
pub record FileOk (end_addr n : ℕ) (f : File) : Type 0 where
  pub counted : f.ref ≡ n
  pub idle : n ≡ 0 → f.target ≡ fd_none
  pub piped : (p : ℕ) → f.target ≡ fd_pipe p → IsPage end_addr p

-- `held j` references to each file `j` are held, by descriptors or otherwise. Each is a descriptor of
-- some process or a local variable of the kernel, so they are few.
pub record Kept (end_addr : ℕ) (files : List File) (held : ℕ → ℕ) : Type 0 where
  pub size : length files ≡ nfile
  pub each : (j : ℕ) (f : File) → get_elem? files j ≡ some f → FileOk end_addr (held j) f

abbrev pub plus : (ℕ → ℕ) → ℕ → ℕ → ℕ
plus held i j = held j + one i j

-- File `i` is not of an inode.
abbrev pub NoInode : List File → ℕ → Type 0
NoInode files i = (f : File) → get_elem? files i ≡ some f → (ip : ℕ) → f.target ≢ fd_inode ip

pub NoInode-set :
    (files : List File) (i : ℕ) (f : File) (j : ℕ)
    → ((ip : ℕ) → f.target ≢ fd_inode ip)
    → NoInode files j
    → NoInode (set files i f) j
NoInode-set files i f j calm n g e ip t = elim (ℕ_discrete i j) [
  | yes same ↦
      let mine : get_elem? (set files i f) i ≡ some g = ap (get_elem? (set files i f)) same ∙ e in
      let inside : i < length files =
        omega (arith, get_elem?_lt (set files i f) i g mine, length-set files i f) in
      let self = get_elem?-set_self files i f inside in
      let q : f ≡ g = cc (self, mine) in calm ip (ap (λ (x : File). x.target) q ∙ t)
  | no ne ↦ n g (sym (get_elem?-set_ne files f ne) ∙ e) ip t
]

module _ (end_addr : ℕ) where
  -- A change of one file and of its count.
  pub Kept-set :
      (fs : List File) (h h' : ℕ → ℕ) (i : ℕ) (f : File)
      → Kept end_addr fs h
      → i < nfile
      → FileOk end_addr (h' i) f
      → ((j : ℕ) → i ≢ j → h' j ≡ h j)
      → Kept end_addr (set fs i f) h'
  Kept-set fs h h' i f k l fok o = record {
    size = omega (arith, length-set fs i f, k.size);
    each = λ j g e. elim (ℕ_discrete i j) [
      | yes same ↦
          let self = get_elem?-set_self fs i f (omega (arith, k.size)) in
          let mine : get_elem? (set fs i f) i ≡ some g = ap (get_elem? (set fs i f)) same ∙ e in
          let q : f ≡ g = cc (self, mine) in rw (sym q, sym same) fok
      | no ne ↦ rw (o j ne) (k.each j g (sym (get_elem?-set_ne fs f ne) ∙ e))
    ];
  }

  pub entry :
      (fs : List File) (h : ℕ → ℕ) (i : ℕ)
      → Kept end_addr fs h
      → i < nfile
      → (f : File) × (get_elem? fs i ≡ some f)
  entry fs h i k l = get_elem?-some fs i (omega (arith, k.size))

  -- `filealloc` takes a file that nobody holds.
  pub filealloc-Kept :
      (fs : List File) (h : ℕ → ℕ)
      → Kept end_addr fs h
      → (filealloc fs ≡ (fs, none))
        ⊎ ((i : ℕ) × (fs' : List File) × (filealloc fs ≡ (fs', some i))
            × (i < nfile)
            × (h i ≡ 0)
            × Kept end_addr fs' (plus h i)
            × NoInode fs' i
            × ((j : ℕ) → NoInode fs j → NoInode fs' j))
  filealloc-Kept fs h k = elim (filealloc-Found fs) [
    | inl (r, all) ↦ inl r
    | inr (i, f, at, z, r) ↦
        let was = k.each i f at in
        let free : h i ≡ 0 = sym was.counted ∙ z in
        let l : i < nfile = omega (arith, get_elem?_lt fs i f at, k.size) in
        inr (
          i,
          set fs i (record f { ref = 1 }),
          r ∙ ap (λ n. (set fs i (record f { ref = 1 }), some n)) (omega arith),
          l,
          free,
          Kept-set fs h (plus h i) i (record f { ref = 1 }) k l
              (record {
                counted = ground (arith, free);
                idle = λ e. ground (arith, e);
                piped = was.piped;
              })
              (λ j ne. ground (arith, ne)),
          λ g e ip t.
              (let self =
                  get_elem?-set_self fs i (record f { ref = 1 }) (omega (arith, l, k.size)) in
                let same : record f { ref = 1 } ≡ g = cc (self, e) in
                cc (was.idle free, ap (λ (x : File). x.target) same, t)),
          λ j n. NoInode-set fs i (record f { ref = 1 }) j (λ ip t. cc (was.idle free, t)) n,
        )
  ]

  pub filedup-Kept :
      (fs : List File) (h : ℕ → ℕ) (i : ℕ)
      → Kept end_addr fs h
      → i < nfile
      → 0 < h i
      → h i + 1 < 2 ^ 31
      → (fs' : List File) × (filedup fs i ≡ ok fs') × Kept end_addr fs' (plus h i)
  filedup-Kept fs h i k l p few =
      let (f, at) = entry fs h i k l in
      let was = k.each i f at in
      (
        set fs i (record f { ref = f.ref + 1 }),
        filedup_held fs i f at (omega (arith, was.counted)) (omega (arith, was.counted)),
        Kept-set fs h (plus h i) i (record f { ref = f.ref + 1 }) k l
            (record {
              counted = ground (arith, was.counted);
              idle = λ e. ground (arith, e);
              piped = was.piped;
            })
            (λ j ne. ground (arith, ne)),
      )
