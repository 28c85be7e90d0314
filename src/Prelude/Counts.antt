-- ===== src/Prelude/Counts.antt =====
-- How often a number stands in a list.
use Prim.Native.Nat.{ℕ, ◌+◌, ◌≤◌, ◌<◌}
use os_assignment.Prelude.Tests.{◌==◌, if◌then◌else◌}
use mathlib.Core.Path.{◌≡◌, refl}
use mathlib.Core.Logic.{◌≢◌, inl, inr}
use mathlib.Core.List.{List, [], ◌∷◌, ◌++◌}
use native.Mathlib.Omega.{arith}
use native.Mathlib.Decide.{ℕ_discrete}
use os_assignment.Prelude.Lists.{
  length, All, All-append, All-append_left, All-append_right, Among, Distinct,
}

-- How often a number occurs.
abbrev pub times : ℕ → List ℕ → ℕ
times c [] = 0
times c (x ∷ xs) = (if x == c then 1 else 0) + times c xs

pub times-append : (c : ℕ) (xs ys : List ℕ) → times c (xs ++ ys) ≡ times c xs + times c ys
times-append c [] ys = omega arith
times-append c (x ∷ xs) ys = omega (arith, times-append c xs ys)

pub Among-times : (c : ℕ) (xs : List ℕ) → Among c xs → 0 < times c xs
Among-times c [] a = absurd a
Among-times c (x ∷ xs) (inl e) = ground arith
Among-times c (x ∷ xs) (inr a) = omega (arith, Among-times c xs a)

pub times-not-Among : (c : ℕ) (xs : List ℕ) → ¬ Among c xs → times c xs ≡ 0
times-not-Among c [] h = refl
times-not-Among c (x ∷ xs) h =
    ground (arith, times-not-Among c xs (λ a. h (inr a)), λ (e : x ≡ c). h (inl e))

pub times-Distinct : (c : ℕ) (xs : List ℕ) → Distinct xs → times c xs ≤ 1
times-Distinct c [] d = omega arith
times-Distinct c (x ∷ xs) d =
    ground (arith, times-Distinct c xs d.1, λ (e : x ≡ c). times-not-Among c xs (λ a. d.0 (rw e a)))

pub times-middle :
    (c : ℕ) (us vs : List ℕ) (p : ℕ) → times c (us ++ (p ∷ vs)) ≡ times c (p ∷ (us ++ vs))
times-middle c us vs p = omega (arith, times-append c us (p ∷ vs), times-append c us vs)

pub All-middle {κ} :
    (P : ℕ → Type κ) (us vs : List ℕ) (p : ℕ) → All P (us ++ (p ∷ vs)) → P p × All P (us ++ vs)
All-middle P us vs p h =
    let r = All-append_right P us (p ∷ vs) h in
    (r.0, All-append P us vs (All-append_left P us (p ∷ vs) h) r.1)

pub times-length : (c : ℕ) (xs : List ℕ) → times c xs ≤ length xs
times-length c [] = omega arith
times-length c (x ∷ xs) = ground (arith, times-length c xs)

pub Among-middle : (us vs : List ℕ) (h : ℕ) → Among h (us ++ (h ∷ vs))
Among-middle [] vs h = inl refl
Among-middle (u ∷ us) vs h = inr (Among-middle us vs h)

pub times-Among : (c : ℕ) (xs : List ℕ) → times c xs ≢ 0 → Among c xs
times-Among c [] h = absurd (h refl)
times-Among c (x ∷ xs) h = elim (ℕ_discrete x c) [
  | yes e ↦ inl e
  | no ne ↦ inr (times-Among c xs (ground (arith, h)))
]
