-- ===== src/Fds/Pipes.antt =====
-- sysfile.c: sys_pipe.
use mathlib.Core.Path.{subst}
use os_assignment.Prelude.{
  ℕ, ◌+◌, ◌^◌, ◌<◌, ◌≡◌, inl, inr, refl, sym, fun_ext, arith, List, Option, none, some, get_elem?,
  set, Result, ok, Option-cases,
}
use os_assignment.Kalloc.Chain.{Holds}
use os_assignment.Pipe.{fresh}
use os_assignment.Syscall.{User, argptr}
use os_assignment.Fds.{Ofile, Kernel, fdalloc, with_fd0, sys_pipe}
use os_assignment.Fds.Find.{named-set-some, fdalloc-Placed}
use os_assignment.Fds.Counted.{nfile, Kept, plus, NoInode}
use os_assignment.Files.{File, fd_pipe}
use os_assignment.Fds.Ends.{Ends, pipealloc-Allocated, close_both-Kept}
use os_assignment.Fds.Calls.{refs, FdsOk, Piped, refused, made, ranged-set, set-set_back}

pipe_file :
    (fs : List File) (i p : ℕ) (g : File)
    → get_elem? fs i ≡ some g
    → g.target ≡ fd_pipe p
    → NoInode fs i
pipe_file fs i p g at t f e ip q = cc (at, t, e, q)

-- What a call of `sys_pipe` leaves and returns.
abbrev pub PipeCall :
    ℕ → (ℕ → ℕ) → User → Ofile → Kernel → Result (Ofile × Kernel × Option (ℕ × ℕ × ℕ)) → Type 0
PipeCall end_addr others u os k call =
    (os' : Ofile) × (k' : Kernel) × (r : Option (ℕ × ℕ × ℕ)) × (call ≡ ok (os', k', r))
    × FdsOk end_addr others os' k'
    × Piped u os k os' k' r

module _ (end_addr : ℕ) (others : ℕ → ℕ) (u : User) (os : Ofile) (k : Kernel) where
  module _ (fine : FdsOk end_addr others os k) (few : (j : ℕ) → refs os others j + 2 < 2 ^ 31) where
    both_placed :
        (k' : Kernel) (rf wf a b : ℕ)
        → Kept end_addr k'.files (plus (plus (refs os others) rf) wf)
        → rf < nfile
        → wf < nfile
        → get_elem? os a ≡ some none
        → get_elem? (set os a (some rf)) b ≡ some none
        → FdsOk end_addr others (set (set os a (some rf)) b (some wf)) k'
    both_placed k' rf wf a b kept lr lw ea eb = record {
      kept =
          subst (Kept end_addr k'.files)
            (fun_ext (λ j.
              omega (
                arith,
                named-set-some j os a rf ea,
                named-set-some j (set os a (some rf)) b wf eb,
              )))
            kept;
      ranged =
          ranged-set (set os a (some rf)) b (some wf)
            (ranged-set os a (some rf) fine.ranged
              (λ g e. let same : rf ≡ g = cc (e) in rw (sym same) lr))
            (λ g e. let same : wf ≡ g = cc (e) in rw (sym same) lw);
    }

    with_fd0-PipeCall :
        (k' : Kernel) (fd rf wf p : ℕ)
        → argptr u 0 8 ≡ some fd
        → Kept end_addr k'.files (plus (plus (refs os others) rf) wf)
        → rf < nfile
        → wf < nfile
        → Ends k'.files rf wf p
        → k'.pipes p ≡ fresh (k.pipes p).bytes
        → PipeCall end_addr others u os k (with_fd0 end_addr fd k' rf wf (fdalloc os rf))
    with_fd0-PipeCall k' fd rf wf p q kept lr lw ends new =
        let (k0, e0, kept0) =
          close_both-Kept end_addr k' (refs os others) rf wf kept lr lw few
            (pipe_file k'.files rf p ends.r ends.at_r ends.reads.0)
            (pipe_file k'.files wf p ends.w ends.at_w ends.writes.0) in
        let fine0 : FdsOk end_addr others os k0 = record { kept = kept0; ranged = fine.ranged } in
        elim (fdalloc-Placed os rf) [
          | inl (r, all) ↦ (os, k0, none, rw r (rw e0 refl), fine0, refused refl refl)
          | inr (a, r, ea, la) ↦ elim (fdalloc-Placed (set os a (some rf)) wf) [
            | inl (r', all) ↦ (
              set (set os a (some rf)) a none,
              k0,
              none,
              rw r (rw r' (rw e0 refl)),
              rw (set-set_back os a rf ea) fine0,
              refused refl (set-set_back os a rf ea),
            )
            | inr (b, r', eb, lb) ↦ (
              set (set os a (some rf)) b (some wf),
              k',
              some (fd, a, b),
              rw r (rw r' refl),
              both_placed k' rf wf a b kept lr lw ea eb,
              made fd a b rf wf p refl q (record { free = ea; lowest = la })
                  (record { free = eb; lowest = lb }) refl ends new,
            )
          ]
        ]

    -- `sys_pipe` does not panic and keeps the counts of the files right, whether it fails or not. It fails
    -- and changes no descriptor, also where it had two files, a page or a descriptor already; or it stores
    -- the two lowest free descriptors, of the read end and of the write end of an empty pipe that is
    -- open at both ends.
    pub sys_pipe-PipeCall :
        (xs : List ℕ)
        → Holds end_addr k.mem xs
        → PipeCall end_addr others u os k (sys_pipe end_addr u os k)
    unfolding sys_pipe
    sys_pipe-PipeCall xs holds = elim (Option-cases (argptr u 0 8)) [
      | inl q ↦ (os, k, none, rw (q, sys_pipe) refl, fine, refused refl refl)
      | inr (fd, q) ↦
          let (k', outcome) =
            pipealloc-Allocated end_addr k (refs os others) xs fine.kept holds few in
          elim outcome [
            | inl (e, kept) ↦ (
              os,
              k',
              none,
              rw (q, sys_pipe) (rw e refl),
              record { kept = kept; ranged = fine.ranged },
              refused refl refl,
            )
            | inr (rf, wf, p, e, lr, lw, ne, new, ends, kept) ↦
                subst (PipeCall end_addr others u os k) (rw (q, sys_pipe) (rw e refl))
                  (with_fd0-PipeCall k' fd rf wf p q kept lr lw ends new)
          ]
    ]
