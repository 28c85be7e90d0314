-- ===== src/Fds/Calls.antt =====
-- sysfile.c: sys_dup, sys_close and sys_pipe keep the counts of open files right.
use mathlib.Core.Path.{subst}
use os_assignment.Prelude.{
  ℕ, zero, suc, ◌+◌, ◌^◌, ◌<◌, ◌≡◌, ◌≢◌, ◌⊎◌, inl, inr, refl, ap, sym, fun_ext, arith, [], ◌∷◌,
  Option, none, some, ◌||◌, leb, get_elem?, set, ok, panic, ◌>>=◌, Result, String, Bool-cases,
  Option-cases,
}
use os_assignment.Pipe.{fresh}
use os_assignment.Syscall.{User, argptr, argint}
use os_assignment.Fds.{Ofile, Kernel, nofile, argfd, sys_dup, sys_close, close_file}
use os_assignment.Fds.Find.{named, named-set-some, named-set-none, fdalloc-Placed}
use os_assignment.Fds.Counted.{nfile, Kept, plus, filedup-Kept}
use os_assignment.Fds.Closing.{SameInodes, Closed, panics, puts, stays, close_file-Closed}
use os_assignment.Icache.{iput}
use os_assignment.Files.{File, fd_inode}
use os_assignment.Fds.Ends.{Ends}

-- The references to each file: those of the table of descriptors, and `others` of other processes.
abbrev pub refs : Ofile → (ℕ → ℕ) → ℕ → ℕ
refs os others j = named j os + others j

-- The counts of the files are those of the references, and the descriptors name files of the table.
pub record FdsOk (end_addr : ℕ) (others : ℕ → ℕ) (os : Ofile) (k : Kernel) : Type 0 where
  pub kept : Kept end_addr k.files (refs os others)
  pub ranged : (fd f : ℕ) → get_elem? os fd ≡ some (some f) → f < nfile

-- A file that a descriptor names has a reference.
named_pos : (os : Ofile) (fd f : ℕ) → get_elem? os fd ≡ some (some f) → 0 < named f os
named_pos os fd f e = ground (arith, named-set-none f os fd f e)

pub ranged-set :
    (os : Ofile) (fd : ℕ) (o : Option ℕ)
    → ((i f : ℕ) → get_elem? os i ≡ some (some f) → f < nfile)
    → ((f : ℕ) → o ≡ some f → f < nfile)
    → (i f : ℕ) → get_elem? (set os fd o) i ≡ some (some f)
    → f < nfile
ranged-set [] fd o r h i f e = cc
ranged-set (x ∷ os) zero o r h zero f e = h f (cc (e))
ranged-set (x ∷ os) zero o r h (suc i) f e = r (suc i) f e
ranged-set (x ∷ os) (suc fd) o r h zero f e = r zero f e
ranged-set (x ∷ os) (suc fd) o r h (suc i) f e = ranged-set os fd o (λ j g. r (suc j) g) h i f e

argfd-some :
    (u : User) (os : Ofile) (n fd f : ℕ)
    → argfd u os n ≡ some (fd, f)
    → get_elem? os fd ≡ some (some f)
unfolding argfd
argfd-some u os n fd f e = elim (Option-cases (argint u n)) [
  | inl q ↦ ground (arith, q, e)
  | inr (k, q) ↦ elim (Bool-cases (leb (2 ^ 31) k || leb nofile k)) [
    | inl t ↦ ground (arith, q, t, e)
    | inr t ↦ elim (Option-cases (get_elem? os k)) [
      | inl r ↦ ground (arith, q, r, t, e)
      | inr (o, r) ↦ elim (Option-cases o) [
        | inl w ↦ ground (arith, q, r, t, w, e)
        | inr (g, w) ↦ ground (arith, q, r, t, w, e)
      ]
    ]
  ]
]

-- The first free descriptor.
pub record LowestFree (os : Ofile) (fd : ℕ) : Type 0 where
  pub free : get_elem? os fd ≡ some none
  pub lowest : (i : ℕ) → i < fd → get_elem? os i ≢ some none

-- What `sys_close` comes to for a descriptor of the file `f`, with `os'` as the descriptors behind it.
abbrev pub CloseCall :
    ℕ → (ℕ → ℕ) → Ofile → Kernel → File → Result (Ofile × Kernel × Option ℕ) → Type 0
CloseCall end_addr others os' k f r =
    ((ip : ℕ) × (s : String) × (f.ref ≡ 1)
      × (f.target ≡ fd_inode ip)
      × (iput k.sb k.fs k.inodes ip ≡ panic s)
      × (r ≡ panic s))
    ⊎ ((k' : Kernel) × (r ≡ ok (os', k', some 0))
        × FdsOk end_addr others os' k'
        × (((ip : ℕ) × (f.ref ≡ 1)
              × (f.target ≡ fd_inode ip)
              × (iput k.sb k.fs k.inodes ip ≡ ok (k'.fs, k'.inodes)))
            ⊎ (SameInodes k k' × ((ip : ℕ) → f.ref ≡ 1 → f.target ≢ fd_inode ip))))

-- A descriptor is given to a file of the table to which a reference was added.
placed :
    (end_addr : ℕ) (others : ℕ → ℕ) (os : Ofile) (k : Kernel) (fd f : ℕ)
    → ((i g : ℕ) → get_elem? os i ≡ some (some g) → g < nfile)
    → f < nfile
    → get_elem? os fd ≡ some none
    → Kept end_addr k.files (plus (refs os others) f)
    → FdsOk end_addr others (set os fd (some f)) k
placed end_addr others os k fd f r l free kept = record {
  kept =
      subst (Kept end_addr k.files) (fun_ext (λ j. omega (arith, named-set-some j os fd f free)))
        kept;
  ranged = ranged-set os fd (some f) r (λ g e. let same : f ≡ g = cc (e) in rw (sym same) l);
}

-- What `sys_pipe` does: it changes no descriptor and fails, or it makes a new pipe and gives the two lowest
-- free descriptors to its ends.
pub data Piped (u : User) (os : Ofile) (k : Kernel) (os' : Ofile) (k' : Kernel)
    (r : Option (ℕ × ℕ × ℕ)) : Type 0 where
  refused : r ≡ none → os' ≡ os → Piped u os k os' k' r
  made :
      (fd a b rf wf p : ℕ)
      → r ≡ some (fd, a, b)
      → argptr u 0 8 ≡ some fd
      → LowestFree os a
      → LowestFree (set os a (some rf)) b
      → os' ≡ set (set os a (some rf)) b (some wf)
      → Ends k'.files rf wf p
      → k'.pipes p ≡ fresh (k.pipes p).bytes
      → Piped u os k os' k' r

pub set-set_back :
    (os : Ofile) (fd f : ℕ) → get_elem? os fd ≡ some none → set (set os fd (some f)) fd none ≡ os
set-set_back [] fd f e = refl
set-set_back (o ∷ os) zero f e = let free : o ≡ none = cc (e) in rw free refl
set-set_back (o ∷ os) (suc fd) f e = ap (λ l. o ∷ l) (set-set_back os fd f e)

module _ (end_addr : ℕ) (others : ℕ → ℕ) (u : User) (os : Ofile) (k : Kernel) where
  module _ (fine : FdsOk end_addr others os k) (few : (j : ℕ) → refs os others j + 2 < 2 ^ 31) where
    named_file : (fd f : ℕ) → argfd u os 0 ≡ some (fd, f) → (f < nfile) × (0 < refs os others f)
    named_file fd f e =
        let at = argfd-some u os 0 fd f e in
        (fine.ranged fd f at, omega (arith, named_pos os fd f at))

    -- `sys_dup` does not panic and keeps the counts of the files right, whether it fails or not: it
    -- fails and changes no descriptor, or it gives the lowest free descriptor to the file that its argument
    -- names.
    pub sys_dup-FdsOk :
        (os' : Ofile) × (k' : Kernel) × (r : Option ℕ) × (sys_dup end_addr u os k ≡ ok (os', k', r))
        × FdsOk end_addr others os' k'
        × (((r ≡ none) × (os' ≡ os))
            ⊎ ((fd : ℕ) × (f : ℕ) × (new : ℕ) × (r ≡ some new)
                × (argfd u os 0 ≡ some (fd, f))
                × LowestFree os new
                × (os' ≡ set os new (some f))))
    unfolding sys_dup
    sys_dup-FdsOk = elim (Option-cases (argfd u os 0)) [
      | inl q ↦ (os, k, none, rw (q, sys_dup) refl, fine, inl (refl, refl))
      | inr ((fd, f), q) ↦ elim (fdalloc-Placed os f) [
        | inl (r, all) ↦ (os, k, none, rw (q, sys_dup) (rw r refl), fine, inl (refl, refl))
        | inr (new, r, free, lowest) ↦
            let (l, held) = named_file fd f q in
            let (fs, e, kept) =
              filedup-Kept end_addr k.files (refs os others) f fine.kept l held
                (omega (arith, few f)) in
            (
              set os new (some f),
              record k { files = fs },
              some new,
              rw (q, sys_dup) (rw r (rw e refl)),
              placed end_addr others os _ new f fine.ranged l free kept,
              inr (fd, f, new, refl, q, record { free = free; lowest = lowest }, refl),
            )
      ]
    ]

    -- Where the count of each file is that of its references, fewer than 2 ^ 31 - 2, and descriptors name
    -- files of the table:
    -- `sys_close` of a descriptor that is not open returns -1 and changes nothing. Of an open one it frees
    -- this descriptor, returns 0 and keeps the counts of the files right. If that was the last
    -- reference to a file of an inode, it puts the inode back with `iput`, and it panics exactly if that
    -- does; else it changes no block and no inode.
    pub sys_close-Closes :
        ((argfd u os 0 ≡ none) × (sys_close end_addr u os k ≡ ok (os, k, none)))
        ⊎ ((fd : ℕ) × (i : ℕ) × (f : File) × (argfd u os 0 ≡ some (fd, i))
            × (get_elem? k.files i ≡ some f)
            × CloseCall end_addr others (set os fd none) k f (sys_close end_addr u os k))
    unfolding sys_close
    sys_close-Closes = elim (Option-cases (argfd u os 0)) [
      | inl q ↦ inl (q, rw (q, sys_close) refl)
      | inr ((fd, i), q) ↦
          let (l, held) = named_file fd i q in
          let at = argfd-some u os 0 fd i q in
          let fewer : refs os others ≡ plus (refs (set os fd none) others) i =
            fun_ext (λ j. omega (arith, named-set-none j os fd i at)) in
          let (f, there, outcome) =
            close_file-Closed end_addr k (refs (set os fd none) others) i
              (subst (Kept end_addr k.files) fewer fine.kept) l
              (omega (arith, few i, named-set-none i os fd i at)) in
          inr (
            fd,
            i,
            f,
            q,
            there,
            subst (CloseCall end_addr others (set os fd none) k f) (sym (rw (q, sys_close) refl)) (
                close_call (set os fd none) f (close_file end_addr k i)
                  (ranged-set os fd none fine.ranged (λ g z. cc (z))) outcome),
          )
    ]
      where
        close_call :
            (os' : Ofile) (f : File) (r : Result Kernel)
            → ((i g : ℕ) → get_elem? os' i ≡ some (some g) → g < nfile)
            → Closed end_addr k (refs os' others) f r
            → CloseCall end_addr others os' k f (r >>= λ k'. ok (os', k', some 0))
        close_call os' f r ranged (panics ip s a b c e) = inl (ip, s, a, b, c, rw e refl)
        close_call os' f r ranged (puts ip k' a b c e kept) =
            inr (k', rw e refl, record { kept = kept; ranged = ranged }, inl (ip, a, b, c))
        close_call os' f r ranged (stays k' e kept same calm) =
            inr (k', rw e refl, record { kept = kept; ranged = ranged }, inr (same, calm))
