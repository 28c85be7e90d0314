-- ===== src/Proc/Waitx.antt =====
-- proc.c: `waitx` beside `wait`.
use os_assignment.Prelude.{
  ℕ, ◌≡◌, refl, false, Option, none, some, ◌||◌, get_elem?, inl, inr, Bool-cases, Option-cases,
  Result, ok, panic, ◌>>=◌, not,
}
use os_assignment.Kalloc.{Kmem}
use os_assignment.Proc.{
  Proc, Kernel, scan_children, reap, wait, waitx, waitx_times, WaitEnd, killed_at,
}
use os_assignment.Proc.Wait.{pair_eq}

module _ (end_addr : ℕ) (freevm : ℕ → Kmem → Result Kmem) (now self : ℕ) (k : Kernel) where
  abbrev pub drop_times : Kernel × WaitEnd × Option (ℕ × ℕ) → Result (Kernel × WaitEnd)
  drop_times r = ok (r.0, r.1)

  abbrev with_times : Option (ℕ × ℕ) → Kernel × WaitEnd → Result (Kernel × WaitEnd × Option (ℕ × ℕ))
  with_times t r = ok (r.0, r.1, t)

  drop-with :
      (m : Result (Kernel × WaitEnd)) (t : Option (ℕ × ℕ)) → (m >>= with_times t >>= drop_times) ≡ m
  drop-with (ok r) t = refl
  drop-with (panic s) t = refl

  reaps :
      (i : ℕ) (r : Option Proc)
      → get_elem? k.procs i ≡ r
      → scan_children self k.procs 0 false ≡ (some i, (scan_children self k.procs 0 false).1)
      → (waitx end_addr freevm now self k >>= drop_times) ≡ wait end_addr freevm self k
  unfolding wait waitx
  reaps i none at e = rw (e, wait, waitx) (rw (at, wait, waitx) refl)
  reaps i (some p) at e =
      rw (e, wait, waitx)
        (rw (at, wait, waitx) (drop-with (reap end_addr freevm k i p) (some (waitx_times now p))))

  -- `waitx` is `wait`, but for the times that it stores besides.
  pub waitx-wait : (waitx end_addr freevm now self k >>= drop_times) ≡ wait end_addr freevm self k
  unfolding wait waitx
  waitx-wait = elim (Option-cases (scan_children self k.procs 0 false).0) [
    | inl e ↦
        rw (e, wait, waitx)
          (elim (Bool-cases
            (not (scan_children self k.procs 0 false).1 || killed_at k.procs self)) [
              | inl b ↦ rw b refl
              | inr b ↦ rw b refl
            ])
    | inr (i, e) ↦ reaps i (get_elem? k.procs i) refl (pair_eq _ _ _ e refl)
  ]
