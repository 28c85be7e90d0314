-- ===== src/Files/Tests.antt =====
-- file.c on a table of two files, of which the second is a pipe with two handles.
use os_assignment.Prelude.{
  ℕ, zero, suc, ◌≡◌, refl, [], ◌∷◌, true, false, some, arith, get_elem?, ok, inl,
}
use os_assignment.Files.{
  File, fd_none, fd_pipe, filealloc, filealloc_from, filedup, fileclose, closes_pipe,
}
use os_assignment.Files.Handles.{Sys, allocs, dups, uses, Reach, here, next, Safe, handles-Safe}

abbrev free_file : File
free_file = record { target = fd_none; ref = 0; readable = false; writable = false; off = 0 }

abbrev pipe_end : ℕ → File
pipe_end n = record free_file { target = fd_pipe 4096; ref = n; writable = true }

abbrev shared_pipe : Sys
shared_pipe = record { files = pipe_end 2 ∷ free_file ∷ []; handles = 0 ∷ 0 ∷ [] }

shared_pipe-Reach : Reach (record { files = free_file ∷ free_file ∷ []; handles = [] }) shared_pipe
unfolding filealloc filealloc_from filedup
shared_pipe-Reach =
    next
      (next
        (next here
          (allocs 0 (record free_file { ref = 1 } ∷ free_file ∷ []) (omega arith) refl refl))
        (uses 0 (record free_file { ref = 1 }) (pipe_end 1) refl refl refl))
      (dups 0 (pipe_end 2 ∷ free_file ∷ []) (omega arith) (inl refl) refl refl)

handles-Safe_example : Safe shared_pipe
handles-Safe_example = handles-Safe (free_file ∷ free_file ∷ []) all_free shared_pipe-Reach
  where
    all_free : (j : ℕ) (f : File) → get_elem? (free_file ∷ free_file ∷ []) j ≡ some f → f.ref ≡ 0
    all_free zero f e = ground arith
    all_free (suc zero) f e = ground arith
    all_free (suc (suc j)) f e = cc

-- The last close of a pipe's end closes it.
files_run :
    fileclose (pipe_end 1 ∷ []) 0
    ≡ ok (record free_file { writable = true } ∷ [], closes_pipe 4096 true)
unfolding fileclose
files_run = refl
