-- ===== src/Files/Handles.antt =====
-- file.c: any sequence of calls by processes that dup and close only files of which they have a handle.
use native.Mathlib.Decide.{ℕ_discrete}
use mathlib.Core.Path.{subst}
use os_assignment.Prelude.{
  ℕ, suc, ◌+◌, ◌-◌, ◌^◌, ◌<◌, ◌≡◌, ◌≢◌, refl, ap, ◌∙◌, sym, arith, List, [], ◌∷◌, ◌++◌, Option,
  none, some, ◌==◌, if◌then◌else◌, get_elem?, set, length, length-set, length-append,
  get_elem?-set_self, get_elem?-set_ne, ok, All, All-among, All-map, Among, get_elem?_lt,
  get_elem?-some, times-length, Among-middle, times-Among, times, times-middle, All-middle,
  ok-injective, Among-times, ◌⊎◌, inl, inr, Bool-cases,
}
use os_assignment.Files.{File, Target, filealloc, filedup, fileclose, After, nothing, after_close}
use os_assignment.Files.Calls.{
  Found, filealloc_from-Found, filedup_held, fileclose_shared, fileclose_last,
}

-- The table and the handles that processes hold, one for each pointer to a file.
pub record Sys : Type 0 where
  pub files : List File
  pub handles : List ℕ

-- `uses` is any change of a file that its holder makes, but for the count. Handles are few: there are at
-- most NOFILE for each process.
pub data Step (s t : Sys) : Type 0 where
  allocs :
      (i : ℕ) (fs : List File)
      → length s.handles + 1 < 2 ^ 31
      → filealloc s.files ≡ (fs, some i)
      → t ≡ record { files = fs; handles = i ∷ s.handles }
      → Step s t
  dups :
      (i : ℕ) (fs : List File)
      → length s.handles + 1 < 2 ^ 31
      → Among i s.handles
      → filedup s.files i ≡ ok fs
      → t ≡ record { files = fs; handles = i ∷ s.handles }
      → Step s t
  closes :
      (us vs : List ℕ) (i : ℕ) (fs : List File) (a : After)
      → s.handles ≡ us ++ (i ∷ vs)
      → fileclose s.files i ≡ ok (fs, a)
      → t ≡ record { files = fs; handles = us ++ vs }
      → Step s t
  uses :
      (i : ℕ) (f g : File)
      → get_elem? s.files i ≡ some f
      → g.ref ≡ f.ref
      → t ≡ record { files = set s.files i g; handles = s.handles }
      → Step s t

pub data Reach (s : Sys) : Sys → Type 0 where
  here : Reach s s
  next : {t u : Sys} → Reach s t → Step t u → Reach s u

abbrev pub Counted : List File → List ℕ → Type 0
Counted fs hs = (j : ℕ) (g : File) → get_elem? fs j ≡ some g → g.ref ≡ times j hs

pub record Inv (s : Sys) : Type 0 where
  pub counted : Counted s.files s.handles
  pub ranged : All (λ i. i < length s.files) s.handles
  pub few : length s.handles < 2 ^ 31

Counted-set :
    (fs : List File) (hs hs' : List ℕ) (i : ℕ) (f f' : File)
    → Counted fs hs
    → get_elem? fs i ≡ some f
    → f'.ref ≡ times i hs'
    → ((j : ℕ) → i ≢ j → times j hs' ≡ times j hs)
    → Counted (set fs i f') hs'
Counted-set fs hs hs' i f f' c at r o j g e = elim (ℕ_discrete i j) [
  | yes same ↦
      let self = get_elem?-set_self fs i f' (get_elem?_lt fs i f at) in
      let mine : get_elem? (set fs i f') i ≡ some g = ap (get_elem? (set fs i f')) same ∙ e in
      let q : f' ≡ g = cc (self, mine) in ground (arith, ap (λ (k : File). k.ref) q, r, same)
  | no ne ↦ c j g (sym (get_elem?-set_ne fs f' ne) ∙ e) ∙ sym (o j ne)
]

abbrev Ranged : List File → List ℕ → Type 0
Ranged fs hs = All (λ k. k < length fs) hs

Ranged-set :
    (fs : List File) (i : ℕ) (f : File) (hs : List ℕ) → Ranged fs hs → Ranged (set fs i f) hs
Ranged-set fs i f hs r =
    All-map (λ k. k < length fs) (λ k. k < length (set fs i f)) hs
      (λ k h. omega (arith, length-set fs i f)) r

module _ {s : Sys} (i : Inv s) where
  held_file :
      (h : ℕ)
      → Among h s.handles
      → (f : File) × (get_elem? s.files h ≡ some f) × (0 < f.ref) × (f.ref < 2 ^ 31)
  held_file h a =
      let (f, at) = get_elem?-some s.files h (All-among _ s.handles h i.ranged a) in
      (
        f,
        at,
        omega (arith, i.counted h f at, Among-times h s.handles a),
        omega (arith, i.counted h f at, times-length h s.handles, i.few),
      )

  allocs-Inv :
      length s.handles + 1 < 2 ^ 31
      → (k : ℕ) (f : File) → get_elem? s.files k ≡ some f
      → f.ref ≡ 0
      → Inv (record { files = set s.files k (record f { ref = 1 }); handles = k ∷ s.handles })
  allocs-Inv few k f at z = record {
    counted =
        Counted-set s.files s.handles (k ∷ s.handles) k f (record f { ref = 1 }) i.counted at
          (ground (arith, i.counted k f at)) (λ j ne. ground arith);
    ranged = Ranged-set s.files k _ (k ∷ s.handles) (get_elem?_lt s.files k f at, i.ranged);
    few = omega arith;
  }

  dups-Inv :
      length s.handles + 1 < 2 ^ 31
      → (h : ℕ) → Among h s.handles
      → (fs : List File) × (filedup s.files h ≡ ok fs)
        × Inv (record { files = fs; handles = h ∷ s.handles })
  dups-Inv few h a =
      let (f, at, pos_, small) = held_file h a in
      let bound : f.ref + 1 < 2 ^ 31 = omega (arith, i.counted h f at, times-length h s.handles) in
      (
        set s.files h (record f { ref = f.ref + 1 }),
        filedup_held s.files h f at pos_ bound,
        record {
          counted =
              Counted-set s.files s.handles (h ∷ s.handles) h f (record f { ref = f.ref + 1 })
                i.counted at (ground (arith, i.counted h f at)) (λ j ne. ground arith);
          ranged = Ranged-set s.files h _ (h ∷ s.handles) (get_elem?_lt s.files h f at, i.ranged);
          few = omega arith;
        },
      )

  -- Closing a handle changes the count of its file only.
  close_count :
      (us vs : List ℕ) (h : ℕ) (f g : File)
      → s.handles ≡ us ++ (h ∷ vs)
      → get_elem? s.files h ≡ some f
      → g.ref + 1 ≡ f.ref
      → Inv (record { files = set s.files h g; handles = us ++ vs })
  close_count us vs h f g e at r = record {
    counted =
        Counted-set s.files s.handles (us ++ vs) h f g i.counted at
          (ground (arith, i.counted h f at, ap (times h) e, times-middle h us vs h))
          (λ j ne. ground (arith, ap (times j) e, times-middle j us vs h));
    ranged =
        Ranged-set s.files h g (us ++ vs)
          (All-middle (λ k. k < length s.files) us vs h (subst (Ranged s.files) e i.ranged)).1;
    few = omega (arith, i.few, ap length e, length-append us (h ∷ vs), length-append us vs);
  }

  closes-Inv :
      (us vs : List ℕ) (h : ℕ)
      → s.handles ≡ us ++ (h ∷ vs)
      → (r : List File × After) × (fileclose s.files h ≡ ok r)
        × Inv (record { files = r.0; handles = us ++ vs })
        × ((f : File)
            → get_elem? s.files h ≡ some f
            → r.1 ≡ (if times h (us ++ vs) == 0 then after_close f else nothing))
  closes-Inv us vs h e =
      let a : Among h s.handles = rw e (Among-middle us vs h) in
      let (f, at, pos_, small) = held_file h a in
      let left : f.ref ≡ suc (times h (us ++ vs)) =
        ground (arith, i.counted h f at, ap (times h) e, times-middle h us vs h) in
      elim (Bool-cases (times h (us ++ vs) == 0)) [
        | inl z ↦ (
          (set s.files h (record f { ref = 0; target = Target.fd_none }), after_close f),
          fileclose_last s.files h f at (ground arith),
          close_count us vs h f _ e at (ground arith),
          λ g ag. rw z (
              ap (λ (o : Option File). elim o [ none ↦ nothing | some k ↦ after_close k ])
                (sym at ∙ ag)),
        )
        | inr z ↦ (
          (set s.files h (record f { ref = f.ref - 1 }), nothing),
          fileclose_shared s.files h f at (ground arith) small,
          close_count us vs h f _ e at (omega arith),
          λ g ag. rw z refl,
        )
      ]

Step-Inv : {s t : Sys} → Inv s → Step s t → Inv t
unfolding filealloc
Step-Inv {s = s} i (allocs k fs few e q) =
    subst Inv (sym q) (from_found (filealloc_from-Found 0 s.files))
  where
    from_found :
        Found 0 s.files (filealloc s.files) → Inv (record { files = fs; handles = k ∷ s.handles })
    from_found (inl (r, all)) =
        let none_found : some k ≡ none = ap (λ (p : List File × Option ℕ). p.1) (sym e ∙ r) in
        cc none_found
    from_found (inr (j, f, at, z, r)) =
        let found : some k ≡ some (0 + j) = ap (λ (p : List File × Option ℕ). p.1) (sym e ∙ r) in
        let sum : k ≡ 0 + j = cc found in
        let same : k ≡ j = omega (arith, sum) in
        let files_ : fs ≡ set s.files j (record f { ref = 1 }) =
          ap (λ (p : List File × Option ℕ). p.0) (sym e ∙ r) in
        rw (same, files_) (allocs-Inv i few j f at z)
Step-Inv {s = s} i (dups k fs few a e q) = subst Inv (sym q) (
    let (fs', e', kept) = dups-Inv i few k a in
    subst (λ z. Inv (record { files = z; handles = k ∷ s.handles })) (ok-injective (sym e' ∙ e))
      kept)
Step-Inv {s = s} i (closes us vs k fs a e w q) = subst Inv (sym q) (
    let (r, e', kept, after) = closes-Inv i us vs k e in
    subst (λ (z : List File × After). Inv (record { files = z.0; handles = us ++ vs }))
      (ok-injective (sym e' ∙ w)) kept)
Step-Inv {s = s} i (uses k f g at r q) = subst Inv (sym q) (record {
  counted =
      Counted-set s.files s.handles s.handles k f g i.counted at (r ∙ i.counted k f at)
        (λ j ne. refl);
  ranged = Ranged-set s.files k g s.handles i.ranged;
  few = i.few;
})

Reach-Inv : {s t : Sys} → Inv s → Reach s t → Inv t
Reach-Inv i here = i
Reach-Inv i (next r st) = Step-Inv (Reach-Inv i r) st

-- `filealloc` takes a file that nobody has a handle of, or there is none.
filealloc_lem :
    {s : Sys}
    → Inv s
    → (((filealloc s.files).1 ≡ none) × ((j : ℕ) → j < length s.files → Among j s.handles))
      ⊎ ((j : ℕ) × ((filealloc s.files).1 ≡ some j) × (j < length s.files) × ¬ Among j s.handles)
unfolding filealloc
filealloc_lem {s = s} i = elim (filealloc_from-Found 0 s.files) [
  | inl (r, all) ↦ inl (
    ap (λ (p : List File × Option ℕ). p.1) r,
    λ j h.
        let (f, at) = get_elem?-some s.files j h in
        times-Among j s.handles (omega (arith, all j f at, i.counted j f at)),
  )
  | inr (j, f, at, z, r) ↦ inr (
    j,
    ap (λ (p : List File × Option ℕ). p.1) r ∙ ap some (omega arith),
    get_elem?_lt s.files j f at,
    λ a. omega (arith, i.counted j f at, Among-times j s.handles a, z),
  )
]

-- What holds of the table whatever calls were made.
pub record Safe (s : Sys) : Type 0 where
  pub counted : Counted s.files s.handles
  pub alloc :
      (((filealloc s.files).1 ≡ none) × ((j : ℕ) → j < length s.files → Among j s.handles))
      ⊎ ((j : ℕ) × ((filealloc s.files).1 ≡ some j) × (j < length s.files) × ¬ Among j s.handles)
  pub dup :
      length s.handles + 1 < 2 ^ 31
      → (h : ℕ) → Among h s.handles
      → (fs : List File) × (filedup s.files h ≡ ok fs)
  pub close :
      (us vs : List ℕ) (h : ℕ)
      → s.handles ≡ us ++ (h ∷ vs)
      → (r : List File × After) × (fileclose s.files h ≡ ok r)
        × ((f : File)
            → get_elem? s.files h ≡ some f
            → r.1 ≡ (if times h (us ++ vs) == 0 then after_close f else nothing))

-- From a table of free entries, after any calls: the count of a file is the number of its handles;
-- `filealloc` takes a file without a handle, and fails only if every file has one; `filedup` and
-- `fileclose` do not panic on a file that has a handle; and `fileclose` closes the pipe or puts the inode
-- behind the file exactly if the handle was the last one.
pub handles-Safe :
    (fs : List File) {s : Sys}
    → ((j : ℕ) (f : File) → get_elem? fs j ≡ some f → f.ref ≡ 0)
    → Reach (record { files = fs; handles = [] }) s
    → Safe s
handles-Safe fs {s} free r = record {
  counted = i.counted;
  alloc = filealloc_lem i;
  dup = λ few h a. let (fs', e, kept) = dups-Inv i few h a in (fs', e);
  close = λ us vs h e. let (c, ok_c, kept, last) = closes-Inv i us vs h e in (c, ok_c, last);
}
  where
    i : Inv s
    i = Reach-Inv (record { counted = free; ranged = tt; few = omega arith }) r
