-- ===== src/Syscall/Dispatch.antt =====
-- syscall.c and syscall.h: which numbers reach which call.
use os_assignment.Prelude.{
  ℕ, zero, suc, ◌+◌, ◌-◌, ◌^◌, ◌≡◌, ◌≢◌, ◌↔◌, refl, ap, ◌∙◌, sym, arith, Option, none, some, ◌&&◌,
  ltb, if◌then◌else◌, List, Bool, true, false, [], ◌∷◌, get_elem?, inl, inr, Option-cases,
}
use os_assignment.Syscall.{
  Call, fork, exit, wait, pipe, read, kill, exec, fstat, chdir, dup, getpid, sbrk, sleep, uptime,
  open_, write, mknod, unlink, link, mkdir, close, waitx, setpriority, number, syscalls, chosen,
  syscall, entry,
}

-- The calls of a table stand at their numbers, less `i`.
abbrev Numbered : ℕ → List (Option Call) → Type 0
Numbered i [] = Unit
Numbered i (none ∷ cs) = Numbered (suc i) cs
Numbered i (some c ∷ cs) = (number c ≡ i) × Numbered (suc i) cs

Numbered-get_elem? :
    (i : ℕ) (cs : List (Option Call)) (n : ℕ) (c : Call)
    → Numbered i cs
    → get_elem? cs n ≡ some (some c)
    → number c ≡ i + n
Numbered-get_elem? i [] n c h e = cc
Numbered-get_elem? i (none ∷ cs) zero c h e = cc
Numbered-get_elem? i (some d ∷ cs) zero c h e =
    let same : d ≡ c = cc (e) in ap number (sym same) ∙ h.0 ∙ omega arith
Numbered-get_elem? i (none ∷ cs) (suc n) c h e =
    omega (arith, Numbered-get_elem? (suc i) cs n c h e)
Numbered-get_elem? i (some d ∷ cs) (suc n) c h e =
    omega (arith, Numbered-get_elem? (suc i) cs n c h.1 e)

entry-some : (o : Option (Option Call)) (c : Call) → entry o ≡ some c → o ≡ some (some c)
entry-some none c e = cc
entry-some (some k) c e = rw e refl

if-some :
    (b : Bool) (o : Option Call) (c : Call)
    → (if b then o else none) ≡ some c
    → (b ≡ true) × (o ≡ some c)
if-some true o c e = (refl, e)
if-some false o c e = cc

entry-get_elem? : (n : ℕ) (c : Call) → chosen n ≡ some c → get_elem? syscalls n ≡ some (some c)
unfolding chosen
entry-get_elem? n c e =
    let r = if-some (ltb 0 n && ltb n (2 ^ 31) && ltb n 23) (entry (get_elem? syscalls n)) c e in
    entry-some _ c r.1

chosen-number_only : (n : ℕ) (c : Call) → chosen n ≡ some c → n ≡ number c
chosen-number_only n c e =
    omega (arith, Numbered-get_elem? 0 syscalls n c (omega arith) (entry-get_elem? n c e))

chosen-number_reached : (c : Call) → c ≢ setpriority → chosen (number c) ≡ some c
unfolding chosen
chosen-number_reached fork h = refl
chosen-number_reached exit h = refl
chosen-number_reached wait h = refl
chosen-number_reached pipe h = refl
chosen-number_reached read h = refl
chosen-number_reached kill h = refl
chosen-number_reached exec h = refl
chosen-number_reached fstat h = refl
chosen-number_reached chdir h = refl
chosen-number_reached dup h = refl
chosen-number_reached getpid h = refl
chosen-number_reached sbrk h = refl
chosen-number_reached sleep h = refl
chosen-number_reached uptime h = refl
chosen-number_reached open_ h = refl
chosen-number_reached write h = refl
chosen-number_reached mknod h = refl
chosen-number_reached unlink h = refl
chosen-number_reached link h = refl
chosen-number_reached mkdir h = refl
chosen-number_reached close h = refl
chosen-number_reached waitx h = refl
chosen-number_reached setpriority h = absurd (h refl)

-- Every call of syscall.h but `setpriority` is reached by its number and by no other.
pub chosen-number : (c : Call) → c ≢ setpriority → (n : ℕ) → (chosen n ≡ some c) ↔ (n ≡ number c)
chosen-number c h n = (chosen-number_only n c, λ e. ap chosen e ∙ chosen-number_reached c h)

setpriority_unlisted : (n : ℕ) → chosen n ≢ some setpriority
unfolding chosen
setpriority_unlisted n e =
    let at : n ≡ 23 = chosen-number_only n setpriority e in
    let r : chosen 23 ≡ some setpriority = ap chosen (sym at) ∙ e in cc (r)

-- A number that is that of no call but `setpriority`, its own number 23 included, makes no call: the
-- state is as before and the process finds -1 in `eax`.
pub syscall-unknown {ℓ} :
    {S : Type ℓ} (run : Call → S → S × ℕ) (n : ℕ) (s : S)
    → ((c : Call) → c ≢ setpriority → n ≢ number c)
    → syscall run n s ≡ (s, 2 ^ 32 - 1)
unfolding syscall
syscall-unknown run n s h = elim (Option-cases (chosen n)) [
  | inl q ↦ rw (q, syscall) refl
  | inr (c, q) ↦
      absurd (h c (λ e. setpriority_unlisted n (q ∙ ap some e)) (chosen-number_only n c q))
]
