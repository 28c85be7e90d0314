-- ===== src/Blocks/Alloc.antt =====
-- fs.c: the block that balloc hands out.
use Prim.Native.Nat.{bit_or}
use os_assignment.Prelude.{
  ℕ, zero, suc, ◌+◌, ◌-◌, ◌*◌, ◌/◌, ◌%◌, ◌^◌, ◌<◌, ◌≤◌, ◌≡◌, ◌≢◌, ◌⊎◌, inl, inr, refl, ap, ap₂, ◌∙◌,
  sym, arith, true, false, not, ◌&&◌, ◌∷◌, ltb, leb, ◌==◌, Bool-cases, update, update_self,
  update_ne, Result, ok, panic,
}
use os_assignment.Blocks.{
  Super, Fs, bpb, clear_at, put_block, bzero, bblock, take_bit, balloc_from, balloc,
}
use os_assignment.Blocks.Bits.{stays_byte}
use os_assignment.Blocks.Scan.{scan-Scanned}
use os_assignment.Blocks.Map.{update_byte, is_free, Bytes, clear_at-bit_or, is_free-marked}

-- The outcome of the outer loop of `balloc`.
abbrev Found : Super → Fs → Result (Fs × ℕ) → Type 0
Found sb f r =
    ((r ≡ panic "balloc: out of blocks") × ((d : ℕ) → d < sb.size → is_free sb f d ≡ false))
    ⊎ ((b : ℕ) × (bi : ℕ) × (r ≡ ok (take_bit sb f b bi))
        × (b % bpb ≡ 0)
        × (bi < bpb)
        × (b + bi < sb.size)
        × (clear_at (f.blocks (bblock sb b)) bi ≡ true)
        × ((d : ℕ) → d < b + bi → is_free sb f d ≡ false))

-- Bit `i` of the map's block for `b`, a multiple of the bits in a block, is that of block b + i.
is_free_bit :
    (sb : Super) (f : Fs) (b i : ℕ)
    → b % bpb ≡ 0
    → i < bpb
    → is_free sb f (b + i) ≡ clear_at (f.blocks (bblock sb b)) i
is_free_bit sb f b i z l =
    let block : bblock sb (b + i) ≡ bblock sb b = omega arith in
    let bit : (b + i) % bpb ≡ i = omega arith in ap₂ (λ x y. clear_at (f.blocks x) y) block bit

-- The blocks below `b` and those of the bits below `n` behind it are in use.
used_below :
    (sb : Super) (f : Fs) (b n : ℕ)
    → b % bpb ≡ 0
    → n ≤ bpb
    → ((d : ℕ) → d < b → d < sb.size → is_free sb f d ≡ false)
    → ((i : ℕ) → i < n → b + i < sb.size → clear_at (f.blocks (bblock sb b)) i ≡ false)
    → (d : ℕ) → d < b + n
    → d < sb.size
    → is_free sb f d ≡ false
used_below sb f b n z l below here d h s = elim (Bool-cases (ltb d b)) [
  | inl t ↦ below d (ground (arith, t)) s
  | inr t ↦
      let split : b + (d - b) ≡ d = ground (arith, t) in
      let small : d - b < n = ground (arith, t, h) in
      let inside : b + (d - b) < sb.size = omega arith in
      ap (is_free sb f) (sym split)
      ∙ is_free_bit sb f b (d - b) z (omega arith)
      ∙ here (d - b) small inside
]

balloc_from-Found :
    (sb : Super) (n : ℕ) (f : Fs) (b : ℕ)
    → b % bpb ≡ 0
    → b < sb.size + bpb
    → sb.size + bpb ≤ b + n * bpb
    → ((d : ℕ) → d < b → d < sb.size → is_free sb f d ≡ false)
    → Found sb f (balloc_from sb n f b)
unfolding balloc_from
balloc_from-Found sb zero f b z h l below = absurd (omega arith)
balloc_from-Found sb (suc n) f b z h l below = elim (Bool-cases (leb sb.size b)) [
  | inl t ↦ inl (rw t refl, λ d s. below d (ground (arith, t)) s)
  | inr t ↦ elim (scan-Scanned sb (f.blocks (bblock sb b)) b 0 bpb) [
    | inl (r, all) ↦ rw t (
        rw r (
          balloc_from-Found sb n f (b + bpb) (omega arith) (ground (arith, t)) (omega arith) (
            used_below sb f b bpb z (omega arith) below
              (λ i q s. all i (omega arith) (omega arith) s))))
    | inr (k, r, p, q, s, c, under) ↦ inr (
      b,
      k,
      rw t (rw r refl),
      z,
      omega arith,
      s,
      c,
      λ d l'.
          used_below sb f b k z (omega arith) below (λ i q' s'. under i (omega arith) q') d l'
            (omega arith),
    )
  ]
]

-- What `balloc` leaves where it hands out block `c`.
pub record Taken (sb : Super) (f : Fs) (c : ℕ) (f' : Fs) : Type 0 where
  pub inside : c < sb.size
  pub was_free : is_free sb f c ≡ true
  pub lowest : (d : ℕ) → d < c → is_free sb f d ≡ false
  pub map_bits : (d : ℕ) → d < sb.size → is_free sb f' d ≡ (not (c == d) && is_free sb f d)
  pub zeroed : (i : ℕ) → f'.blocks c i ≡ 0
  pub others : (d : ℕ) → c ≢ d → bblock sb c ≢ d → f'.blocks d ≡ f.blocks d
  pub logs : f'.logged ≡ c ∷ bblock sb c ∷ f.logged
  pub still_bytes : Bytes f'

-- The map with block `c` marked as in use.
abbrev marked : Super → Fs → ℕ → ℕ → ℕ
marked sb f c =
    let old = f.blocks (bblock sb c) in
    let bi = c % bpb in update old (bi / 8) (bit_or (old (bi / 8)) (2 ^ (bi % 8)))

marked_byte : (sb : Super) (f : Fs) (c : ℕ) → Bytes f → (i : ℕ) → marked sb f c i < 256
marked_byte sb f c h i =
    let bi = c % bpb in
    let byte =
      stays_byte (f.blocks (bblock sb c) (bi / 8)) (bi % 8) (h (bblock sb c) (bi / 8))
        (omega arith) in
    ground (arith, byte.0, h (bblock sb c) i)

take_bit_lem :
    (sb : Super) (f : Fs) (b k : ℕ)
    → b % bpb ≡ 0
    → k < bpb
    → take_bit sb f b k
      ≡ (bzero (put_block f (bblock sb (b + k)) (marked sb f (b + k))) (b + k), b + k)
unfolding take_bit
take_bit_lem sb f b k z l =
    let block : bblock sb b ≡ bblock sb (b + k) = omega arith in
    let bit : k ≡ (b + k) % bpb = omega arith in
    ap₂
      (λ x y. (
        bzero
            (put_block f x
              (update (f.blocks x) (y / 8) (bit_or (f.blocks x (y / 8)) (2 ^ (y % 8)))))
            (b + k),
        b + k,
      ))
      block bit

module _ (sb : Super) (f : Fs) (bytes : Bytes f)
    (apart : (c d : ℕ) → c < sb.size → is_free sb f c ≡ true → d < sb.size → bblock sb d ≢ c) where
  bzero-Taken :
      (c : ℕ)
      → c < sb.size
      → is_free sb f c ≡ true
      → ((d : ℕ) → d < c → is_free sb f d ≡ false)
      → Taken sb f c (bzero (put_block f (bblock sb c) (marked sb f c)) c)
  unfolding bzero
  bzero-Taken c s free low =
      let after_mark = update f.blocks (bblock sb c) (marked sb f c) in
      record {
        inside = s;
        was_free = free;
        lowest = low;
        map_bits = λ d l.
            ap (λ y. clear_at y (d % bpb))
              (update_ne after_mark (λ i. 0) (λ e. apart c d s free l (sym e)))
            ∙ is_free-marked sb f c (marked sb f c) (λ t b. not t && b)
                (λ i.
                  clear_at-bit_or (f.blocks (bblock sb c)) (c % bpb) i
                    (bytes (bblock sb c) (c % bpb / 8)))
                (λ b. refl) d;
        zeroed = λ i. ap (λ (y : ℕ → ℕ). y i) (update_self after_mark c (λ j. 0));
        others =
            λ d ne ne'. update_ne after_mark (λ i. 0) ne ∙ update_ne f.blocks (marked sb f c) ne';
        logs = refl;
        still_bytes = λ b i.
            update_byte after_mark c (λ j. 0)
              (update_byte f.blocks (bblock sb c) (marked sb f c) bytes (marked_byte sb f c bytes))
              (λ j. omega arith) b i;
      }

  -- Where the map says of no block of its own that it is free, and bytes are below 256, `balloc`
  -- panics exactly if every block of the file system is in use. Else it returns the lowest free block:
  -- this is marked in the map, where every other block keeps its bit, and full of zeros; every other
  -- block of the disk is as before, and the two blocks that changed are logged.
  pub balloc_lem :
      ((balloc sb f ≡ panic "balloc: out of blocks")
        × ((d : ℕ) → d < sb.size → is_free sb f d ≡ false))
      ⊎ ((c : ℕ) × (f' : Fs) × (balloc sb f ≡ ok (f', c)) × Taken sb f c f')
  unfolding balloc
  balloc_lem =
      elim (balloc_from-Found sb (sb.size / bpb + 2) f 0 refl (omega arith) (omega arith)
        (λ d l. absurd (omega arith))) [
          | inl a ↦ inl a
          | inr (b, k, r, z, l, s, c, low) ↦ inr (
            b + k,
            bzero (put_block f (bblock sb (b + k)) (marked sb f (b + k))) (b + k),
            r ∙ ap ok (take_bit_lem sb f b k z l),
            bzero-Taken (b + k) s (is_free_bit sb f b k z l ∙ c) low,
          )
        ]
