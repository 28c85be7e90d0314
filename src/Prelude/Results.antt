-- ===== src/Prelude/Results.antt =====
-- The result of kernel code that may stop the machine: `panic` in console.c never returns.
use Prim.Native.String.{String}
use mathlib.Core.Path.{◌≡◌, refl}
use mathlib.Core.Logic.{◌⊎◌, inl, inr}

pub data Result {ℓ} (A : Type ℓ) : Type ℓ where
  ok : A → Result A
  panic : String → Result A

infixl 5 ◌>>=◌
abbrev pub ◌>>=◌ {ℓ κ} : {A : Type ℓ} {B : Type κ} → Result A → (A → Result B) → Result B
ok a >>= f = f a
panic m >>= f = panic m

-- Whatever a computation returns has the property; nothing is said of a panic.
abbrev pub Ensures {ℓ κ} : {A : Type ℓ} → Result A → (A → Type κ) → Type κ
Ensures (ok a) P = P a
Ensures (panic m) P = Unit

pub ok-injective {ℓ} : {A : Type ℓ} {a b : A} → ok a ≡ ok b → a ≡ b
ok-injective e = cc

pub Result-cases {ℓ} :
    {A : Type ℓ} (r : Result A) → ((a : A) × (r ≡ ok a)) ⊎ ((s : String) × (r ≡ panic s))
Result-cases (ok a) = inl (a, refl)
Result-cases (panic s) = inr (s, refl)
