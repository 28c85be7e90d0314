-- ===== src/Fds/Closing.antt =====
-- sysfile.c, file.c: closing a reference to an open file.
use native.Mathlib.Decide.{ℕ_discrete}
use os_assignment.Prelude.{
  ℕ, ◌+◌, ◌-◌, ◌^◌, ◌<◌, ◌≡◌, ◌≢◌, inl, inr, refl, ◌∙◌, sym, arith, List, Bool, some, get_elem?,
  set, update, ok, panic, Bool-cases, Result, Result-cases, String,
}
use os_assignment.Files.{File, Target, fd_none, fd_pipe, fd_inode, after_close}
use os_assignment.Files.Calls.{fileclose_shared, fileclose_last}
use os_assignment.Kalloc.Chain.{IsPage, kfree-IsPage}
use os_assignment.Pipe.{close}
use os_assignment.Fds.{Kernel, pipeclose, finish_close, close_file}
use os_assignment.Icache.{iput}
use os_assignment.Fds.Counted.{nfile, FileOk, Kept, Kept-set, plus, entry, NoInode, NoInode-set}

abbrev pub SameInodes : Kernel → Kernel → Type 0
SameInodes k k' = (k'.fs ≡ k.fs) × (k'.inodes ≡ k.inodes)

-- What closing a reference to the file `f` comes to. If it was the last one and the file is of an inode, the
-- inode is put back, and the call panics exactly if `iput` does; else no block and no inode changes.
pub data Closed (end_addr : ℕ) (k : Kernel) (h : ℕ → ℕ) (f : File) (r : Result Kernel)
    : Type 0 where
  panics :
      (ip : ℕ) (s : String)
      → f.ref ≡ 1
      → f.target ≡ fd_inode ip
      → iput k.sb k.fs k.inodes ip ≡ panic s
      → r ≡ panic s
      → Closed end_addr k h f r
  puts :
      (ip : ℕ) (k' : Kernel)
      → f.ref ≡ 1
      → f.target ≡ fd_inode ip
      → iput k.sb k.fs k.inodes ip ≡ ok (k'.fs, k'.inodes)
      → r ≡ ok k'
      → Kept end_addr k'.files h
      → Closed end_addr k h f r
  stays :
      (k' : Kernel)
      → r ≡ ok k'
      → Kept end_addr k'.files h
      → SameInodes k k'
      → ((ip : ℕ) → f.ref ≡ 1 → f.target ≢ fd_inode ip)
      → Closed end_addr k h f r

module _ (end_addr : ℕ) where
  -- `pipeclose` of a pipe in a page changes no file and no inode.
  pipeclose_lem :
      (k : Kernel) (p : ℕ) (w : Bool)
      → IsPage end_addr p
      → (k' : Kernel) × (pipeclose end_addr k p w ≡ ok k') × (k'.files ≡ k.files) × SameInodes k k'
  unfolding pipeclose
  pipeclose_lem k p w page =
      let (m, freed) = kfree-IsPage end_addr k.mem p page in
      let c = close (k.pipes p) w in
      let k' = record k { pipes = update k.pipes p c.pipe } in
      elim (Bool-cases c.freed) [
        | inl e ↦ (record k' { mem = m }, rw (e, freed) refl, refl, (refl, refl))
        | inr e ↦ (k', rw e refl, refl, (refl, refl))
      ]

  finish_close-fileclose :
      (k : Kernel) (f : File) (n : ℕ)
      → FileOk end_addr n f
      → ((ip : ℕ) → f.target ≢ fd_inode ip)
      → (k' : Kernel) × (finish_close end_addr k (after_close f) ≡ ok k')
        × (k'.files ≡ k.files)
        × SameInodes k k'
  unfolding finish_close
  finish_close-fileclose k f n o no_inode = go f.target refl
    where
      go :
          (t : Target)
          → f.target ≡ t
          → (k' : Kernel) × (finish_close end_addr k (after_close f) ≡ ok k')
            × (k'.files ≡ k.files)
            × SameInodes k k'
      go fd_none e = (k, rw e refl, refl, (refl, refl))
      go (fd_pipe p) e =
          let (k', r, same, si) = pipeclose_lem k p f.writable (o.piped p e) in
          (k', rw e r, same, si)
      go (fd_inode ip) e = absurd (no_inode ip e)

  -- The last reference to a file is dropped.
  abbrev closed : File → File
  closed f = record f { ref = 0; target = fd_none }

  close_last :
      (k : Kernel) (h : ℕ → ℕ) (i : ℕ) (f : File)
      → Kept end_addr k.files (plus h i)
      → i < nfile
      → get_elem? k.files i ≡ some f
      → h i ≡ 0
      → (f.ref ≡ 1)
        × (close_file end_addr k i
            ≡ finish_close end_addr (record k { files = set k.files i (closed f) }) (after_close f))
        × Kept end_addr (set k.files i (closed f)) h
  unfolding close_file
  close_last k h i f kept l at z =
      let was = kept.each i f at in
      let one_left : f.ref ≡ 1 = ground (arith, was.counted, z) in
      (
        one_left,
        rw (fileclose_last k.files i f at one_left) refl,
        Kept-set end_addr k.files (plus h i) h i (closed f) kept l
            (record { counted = sym z; idle = λ e. refl; piped = λ p e. cc (e) })
            (λ j ne. ground (arith, ne)),
      )

  -- Another reference to a file than the last is dropped.
  close_shared :
      (k : Kernel) (h : ℕ → ℕ) (i : ℕ) (f : File)
      → Kept end_addr k.files (plus h i)
      → i < nfile
      → h i + 1 < 2 ^ 31
      → get_elem? k.files i ≡ some f
      → h i ≢ 0
      → let f' = record f { ref = f.ref - 1 } in
        (close_file end_addr k i ≡ ok (record k { files = set k.files i f' }))
        × Kept end_addr (set k.files i f') h
        × (1 < f.ref)
  unfolding close_file finish_close
  close_shared k h i f kept l few at nz =
      let was = kept.each i f at in
      let count : f.ref ≡ h i + 1 = ground (arith, was.counted) in
      let f' = record f { ref = f.ref - 1 } in
      (
        rw (fileclose_shared k.files i f at (omega (arith, count, nz)) (omega (arith, count, few)))
            refl,
        Kept-set end_addr k.files (plus h i) h i f' kept l
            (record {
              counted = omega (arith, count);
              idle = λ e. absurd (nz e);
              piped = was.piped;
            })
            (λ j ne. ground (arith, ne)),
        omega (arith, count, nz),
      )

  -- Dropping a reference that is held to a file that is no inode's does not panic.
  pub close_file-Kept :
      (k : Kernel) (h : ℕ → ℕ) (i : ℕ)
      → Kept end_addr k.files (plus h i)
      → i < nfile
      → h i + 1 < 2 ^ 31
      → NoInode k.files i
      → (k' : Kernel) × (close_file end_addr k i ≡ ok k')
        × Kept end_addr k'.files h
        × ((j : ℕ) → NoInode k.files j → NoInode k'.files j)
  close_file-Kept k h i kept l few calm =
      let (f, at) = entry end_addr k.files (plus h i) i kept l in
      elim (ℕ_discrete (h i) 0) [
        | yes z ↦
            let (ref_, e, kept') = close_last k h i f kept l at z in
            let (k', r, same, si) =
              finish_close-fileclose (record k { files = set k.files i (closed f) }) f _
                (kept.each i f at) (calm f at) in
            (
              k',
              e ∙ r,
              rw same kept',
              λ j n. rw same (NoInode-set k.files i (closed f) j (λ p q. cc (q)) n),
            )
        | no nz ↦
            let f' = record f { ref = f.ref - 1 } in
            let (e, kept', more) = close_shared k h i f kept l few at nz in
            (
              record k { files = set k.files i f' },
              e,
              kept',
              λ j n. NoInode-set k.files i f' j (calm f at) n,
            )
      ]

  -- Dropping any reference that is held.
  pub close_file-Closed :
      (k : Kernel) (h : ℕ → ℕ) (i : ℕ)
      → Kept end_addr k.files (plus h i)
      → i < nfile
      → h i + 1 < 2 ^ 31
      → (f : File) × (get_elem? k.files i ≡ some f)
        × Closed end_addr k h f (close_file end_addr k i)
  unfolding finish_close
  close_file-Closed k h i kept l few =
      let (f, at) = entry end_addr k.files (plus h i) i kept l in
      (
        f,
        at,
        elim (ℕ_discrete (h i) 0) [
          | no nz ↦
              let f' = record f { ref = f.ref - 1 } in
              let (e, kept', more) = close_shared k h i f kept l few at nz in
              stays (record k { files = set k.files i f' }) e kept' (refl, refl)
                (λ p q g. absurd (omega (arith, more, q)))
          | yes z ↦
              let (ref_, e, kept') = close_last k h i f kept l at z in
              last f (set k.files i (closed f)) (kept.each i f at) ref_ e kept' f.target refl
        ],
      )
    where
      other :
          (f : File) (fs : List File) {n : ℕ}
          → FileOk end_addr n f
          → close_file end_addr k i
            ≡ finish_close end_addr (record k { files = fs }) (after_close f)
          → Kept end_addr fs h
          → ((ip : ℕ) → f.target ≢ fd_inode ip)
          → Closed end_addr k h f (close_file end_addr k i)
      other f fs {n} o e kept' calm =
          let (k', r, same, si) = finish_close-fileclose (record k { files = fs }) f n o calm in
          stays k' (e ∙ r) (rw same kept') si (λ ip q. calm ip)

      last :
          (f : File) (fs : List File) {n : ℕ}
          → FileOk end_addr n f
          → f.ref ≡ 1
          → close_file end_addr k i
            ≡ finish_close end_addr (record k { files = fs }) (after_close f)
          → Kept end_addr fs h
          → (t : Target) → f.target ≡ t
          → Closed end_addr k h f (close_file end_addr k i)
      last f fs o ref_ e kept' (fd_inode ip) t = elim (Result-cases (iput k.sb k.fs k.inodes ip)) [
        | inl (r, q) ↦
            puts ip (record k { files = fs; fs = r.0; inodes = r.1 }) ref_ t q
              (e ∙ rw t (rw q refl)) kept'
        | inr (s, q) ↦ panics ip s ref_ t q (e ∙ rw t (rw q refl))
      ]
      last f fs o ref_ e kept' fd_none t = other f fs o e kept' (λ p q. cc (q, t))
      last f fs o ref_ e kept' (fd_pipe x) t = other f fs o e kept' (λ p q. cc (q, t))
