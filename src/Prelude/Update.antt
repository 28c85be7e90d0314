-- ===== src/Prelude/Update.antt =====
-- Memories and disks as functions of the address, updated at one place.
use Prim.Native.Nat.{ℕ}
use mathlib.Core.Path.{fun_ext, ◌≡◌}
use mathlib.Core.Logic.{◌≢◌}
use native.Mathlib.Omega.{arith}
use os_assignment.Prelude.Tests.{◌==◌, if◌then◌else◌}

module _ {ℓ} {A : Type ℓ} where
  abbrev pub update : (ℕ → A) → ℕ → A → ℕ → A
  update f i a j = if i == j then a else f j

  pub update_self : (f : ℕ → A) (i : ℕ) (a : A) → update f i a i ≡ a
  update_self f i a = ground arith

  pub update_ne : (f : ℕ → A) {i j : ℕ} (a : A) → i ≢ j → update f i a j ≡ f j
  update_ne f a h = ground arith

  pub update-update : (f : ℕ → A) (i : ℕ) (a b : A) → update (update f i a) i b ≡ update f i b
  update-update f i a b = fun_ext (λ j. ground arith)
