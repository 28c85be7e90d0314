-- ===== src/Blocks/Map.antt =====
-- fs.c: a bit of the free map changes, and bfree.
use Prim.Native.Nat.{bit_and, bit_or}
use native.Mathlib.Decide.{ℕ_discrete}
use os_assignment.Prelude.{
  ℕ, ◌-◌, ◌/◌, ◌%◌, ◌^◌, ◌<◌, ◌≡◌, ◌≢◌, ◌⊎◌, inl, inr, refl, ap, ap₂, ◌∙◌, sym, arith, Bool, true,
  false, not, ◌&&◌, ◌||◌, ◌∷◌, ◌==◌, Bool-cases, update, update_ne, ok, panic,
}
use os_assignment.Blocks.{Super, Fs, bpb, clear_at, put_block, bblock, bfree}
use os_assignment.Blocks.Bits.{clear, clear-bit_or, clear-bit_and, stays_byte}

-- The free map says that the block is free.
abbrev pub is_free : Super → Fs → ℕ → Bool
is_free sb f b = clear_at (f.blocks (bblock sb b)) (b % bpb)

abbrev pub Bytes : Fs → Type 0
Bytes f = (b i : ℕ) → f.blocks b i < 256

module _ (bytes : ℕ → ℕ) (k i : ℕ) where
  -- The byte in which bit `i` stands, when the one of bit `k` was changed to `x`.
  update_at : (x : ℕ) → k / 8 ≡ i / 8 → update bytes (k / 8) x (i / 8) ≡ x
  update_at x e = ground (arith, e)

  same_bit : k / 8 ≡ i / 8 → (k % 8 == i % 8) ≡ (k == i)
  same_bit e = ground (arith, e)

  other_byte : (x : ℕ) → k / 8 ≢ i / 8 → clear_at (update bytes (k / 8) x) i ≡ clear_at bytes i
  other_byte x ne = ap (λ z. clear z (i % 8)) (update_ne bytes x ne)

  other_bit : k / 8 ≢ i / 8 → (k == i) ≡ false
  other_bit ne = ground (arith, ne)

  module _ (byte : bytes (k / 8) < 256) where
    pub clear_at-bit_or :
        clear_at (update bytes (k / 8) (bit_or (bytes (k / 8)) (2 ^ (k % 8)))) i
        ≡ (not (k == i) && clear_at bytes i)
    clear_at-bit_or = elim (ℕ_discrete (k / 8) (i / 8)) [
      | yes e ↦
          ap (λ z. clear z (i % 8)) (update_at (bit_or (bytes (k / 8)) (2 ^ (k % 8))) e)
          ∙ clear-bit_or (bytes (k / 8)) (k % 8) byte (omega arith) (i % 8) (omega arith)
          ∙ ap₂ (λ b y. not b && clear (bytes y) (i % 8)) (same_bit e) e
      | no ne ↦
          other_byte (bit_or (bytes (k / 8)) (2 ^ (k % 8))) ne
          ∙ sym (ap (λ b. not b && clear_at bytes i) (other_bit ne))
    ]

    clear_at-bit_and :
        clear_at (update bytes (k / 8) (bit_and (bytes (k / 8)) (255 - 2 ^ (k % 8)))) i
        ≡ (k == i || clear_at bytes i)
    clear_at-bit_and = elim (ℕ_discrete (k / 8) (i / 8)) [
      | yes e ↦
          ap (λ z. clear z (i % 8)) (update_at (bit_and (bytes (k / 8)) (255 - 2 ^ (k % 8))) e)
          ∙ clear-bit_and (bytes (k / 8)) (k % 8) byte (omega arith) (i % 8) (omega arith)
          ∙ ap₂ (λ b y. b || clear (bytes y) (i % 8)) (same_bit e) e
      | no ne ↦
          other_byte (bit_and (bytes (k / 8)) (255 - 2 ^ (k % 8))) ne
          ∙ sym (ap (λ b. b || clear_at bytes i) (other_bit ne))
    ]

-- A change of the map's block of `b` by which its bit becomes `g`, a function of the test whether a bit is
-- that of `b` and of what it was.
module _ (sb : Super) (f : Fs) (b : ℕ) (marked : ℕ → ℕ) (g : Bool → Bool → Bool) where
  pub is_free-marked :
      ((i : ℕ) → clear_at marked i ≡ g (b % bpb == i) (clear_at (f.blocks (bblock sb b)) i))
      → ((c : Bool) → g false c ≡ c)
      → (d : ℕ)
      → clear_at (update f.blocks (bblock sb b) marked (bblock sb d)) (d % bpb)
        ≡ g (b == d) (is_free sb f d)
  is_free-marked h out d = elim (ℕ_discrete (bblock sb b) (bblock sb d)) [
    | yes e ↦
        let there : update f.blocks (bblock sb b) marked (bblock sb d) ≡ marked =
          ground (arith, e) in
        let bit : (b % bpb == d % bpb) ≡ (b == d) = ground (arith, e) in
        ap (λ y. clear_at y (d % bpb)) there
        ∙ h (d % bpb)
        ∙ ap₂ (λ t y. g t (clear_at (f.blocks y) (d % bpb))) bit e
    | no ne ↦
        let bit : (b == d) ≡ false = ground (arith, ne) in
        ap (λ y. clear_at y (d % bpb)) (update_ne f.blocks marked ne)
        ∙ sym (out (is_free sb f d))
        ∙ sym (ap (λ t. g t (is_free sb f d)) bit)
  ]

pub update_byte :
    (blocks : ℕ → ℕ → ℕ) (b : ℕ) (new : ℕ → ℕ)
    → ((d i : ℕ) → blocks d i < 256)
    → ((i : ℕ) → new i < 256)
    → (d i : ℕ) → update blocks b new d i < 256
update_byte blocks b new h h' d i = elim (ℕ_discrete b d) [
  | yes e ↦ rw (ap (λ (g : ℕ → ℕ). g i) (update_eq blocks b new d e)) (h' i)
  | no ne ↦ rw (ap (λ (g : ℕ → ℕ). g i) (update_ne blocks new ne)) (h d i)
]
  where
    update_eq :
        (blocks : ℕ → ℕ → ℕ) (b : ℕ) (new : ℕ → ℕ) (d : ℕ) → b ≡ d → update blocks b new d ≡ new
    update_eq blocks b new d e = ground (arith, e)

cleared_byte :
    (old : ℕ → ℕ) (bi i : ℕ)
    → old (bi / 8) < 256
    → old i < 256
    → update old (bi / 8) (bit_and (old (bi / 8)) (255 - 2 ^ (bi % 8))) i < 256
cleared_byte old bi i h h' =
    let byte = stays_byte (old (bi / 8)) (bi % 8) h (omega arith) in ground (arith, byte.1, h')

-- What `bfree` leaves of a block in use.
pub record Freed (sb : Super) (f : Fs) (b : ℕ) (f' : Fs) : Type 0 where
  pub map_bits : (d : ℕ) → is_free sb f' d ≡ (b == d || is_free sb f d)
  pub others : (d : ℕ) → bblock sb b ≢ d → f'.blocks d ≡ f.blocks d
  pub logs : f'.logged ≡ bblock sb b ∷ f.logged
  pub still_bytes : Bytes f'

-- `bfree` of a block that is free panics; of a block in use it sets this block free in the map, keeps
-- what the map says of every other block and every block of the disk but the map's, and logs the
-- map's block.
pub bfree_lem :
    (sb : Super) (f : Fs) (b : ℕ)
    → Bytes f
    → ((is_free sb f b ≡ true) × (bfree sb f b ≡ panic "freeing free block"))
      ⊎ ((is_free sb f b ≡ false) × (f' : Fs) × (bfree sb f b ≡ ok f') × Freed sb f b f')
unfolding bfree
bfree_lem sb f b bytes = elim (Bool-cases (is_free sb f b)) [
  | inl e ↦ inl (e, rw e refl)
  | inr e ↦
      let old = f.blocks (bblock sb b) in
      let bi = b % bpb in
      let marked = update old (bi / 8) (bit_and (old (bi / 8)) (255 - 2 ^ (bi % 8))) in
      inr (
        e,
        put_block f (bblock sb b) marked,
        rw e refl,
        record {
          map_bits =
              is_free-marked sb f b marked (λ t c. t || c)
                (λ i. clear_at-bit_and old bi i (bytes (bblock sb b) (bi / 8))) (λ c. refl);
          others = λ d ne. update_ne f.blocks marked ne;
          logs = refl;
          still_bytes =
              update_byte f.blocks (bblock sb b) marked bytes
                (λ i. cleared_byte old bi i (bytes (bblock sb b) (bi / 8)) (bytes (bblock sb b) i));
        },
      )
]
