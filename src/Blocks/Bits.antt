-- ===== src/Blocks/Bits.antt =====
-- fs.c: a bit of a byte of the free map is set or cleared, and the others stay.
use Prim.Native.Nat.{bit_and, bit_or}
use os_assignment.Prelude.{
  ℕ, zero, suc, ◌-◌, ◌^◌, ◌<◌, ◌≡◌, refl, sym, arith, Bool, true, false, not, ◌&&◌, ◌||◌, ltb, ◌==◌,
}

-- The test of every number below `n`.
all_below : ℕ → (ℕ → Bool) → Bool
all_below zero p = true
all_below (suc n) p = p n && all_below n p

all_below_lem : (n : ℕ) (p : ℕ → Bool) (x : ℕ) → all_below n p ≡ true → x < n → p x ≡ true
unfolding all_below
all_below_lem zero p x h l = absurd (omega arith)
all_below_lem (suc n) p x h l = ground (arith, all_below_lem n p x)

abbrev pub clear : ℕ → ℕ → Bool
clear x k = bit_and x (2 ^ k) == 0

abbrev same : Bool → Bool → Bool
same true b = b
same false b = not b

-- Bit `j` of a byte in which bit `k` is set, and of one in which it is cleared.
abbrev set_case : ℕ → ℕ → ℕ → Bool
set_case x k j = same (clear (bit_or x (2 ^ k)) j) (not (k == j) && clear x j)

abbrev clear_case : ℕ → ℕ → ℕ → Bool
clear_case x k j = same (clear (bit_and x (255 - 2 ^ k)) j) (k == j || clear x j)

abbrev byte_case : ℕ → ℕ → Bool
byte_case x k = ltb (bit_or x (2 ^ k)) 256 && ltb (bit_and x (255 - 2 ^ k)) 256

abbrev all_bits : (ℕ → ℕ → ℕ → Bool) → Bool
all_bits p = all_below 256 (λ x. all_below 8 (λ k. all_below 8 (λ j. p x k j)))

set_table : all_bits set_case ≡ true
unfolding all_below
set_table = refl

clear_table : all_bits clear_case ≡ true
unfolding all_below
clear_table = refl

byte_table : all_below 256 (λ x. all_below 8 (λ k. byte_case x k)) ≡ true
unfolding all_below
byte_table = refl

same-eq : (a b : Bool) → same a b ≡ true → a ≡ b
same-eq true b e = sym e
same-eq false true e = cc
same-eq false false e = refl

module _ (x k : ℕ) (byte : x < 256) (bit : k < 8) where
  look : (p : ℕ → ℕ → ℕ → Bool) (j : ℕ) → j < 8 → all_bits p ≡ true → p x k j ≡ true
  look p j l e =
      all_below_lem 8 (λ i. p x k i) j
        (all_below_lem 8 (λ h. all_below 8 (λ i. p x h i)) k
          (all_below_lem 256 (λ y. all_below 8 (λ h. all_below 8 (λ i. p y h i))) x e byte) bit)
        l

  pub clear-bit_or : (j : ℕ) → j < 8 → clear (bit_or x (2 ^ k)) j ≡ (not (k == j) && clear x j)
  clear-bit_or j l = same-eq _ _ (look set_case j l set_table)

  pub clear-bit_and : (j : ℕ) → j < 8 → clear (bit_and x (255 - 2 ^ k)) j ≡ (k == j || clear x j)
  clear-bit_and j l = same-eq _ _ (look clear_case j l clear_table)

  pub stays_byte : (bit_or x (2 ^ k) < 256) × (bit_and x (255 - 2 ^ k) < 256)
  stays_byte =
      let e : byte_case x k ≡ true =
        all_below_lem 8 (λ h. byte_case x h) k
          (all_below_lem 256 (λ y. all_below 8 (λ h. byte_case y h)) x byte_table byte) bit in
      (ground (arith, e), ground (arith, e))
