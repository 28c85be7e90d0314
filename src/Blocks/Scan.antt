-- ===== src/Blocks/Scan.antt =====
-- fs.c: the first clear bit of a block of the free map.
use os_assignment.Prelude.{
  ℕ, zero, suc, ◌+◌, ◌<◌, ◌≤◌, ◌≡◌, ◌⊎◌, inl, inr, refl, arith, true, false, Option, none, some,
  leb, ◌==◌, Bool-cases,
}
use os_assignment.Blocks.{Super, clear_at, scan}

-- The outcome of a search of the bits from `bi` on, `n` of them.
abbrev pub Scanned : Super → (ℕ → ℕ) → ℕ → ℕ → ℕ → Option ℕ → Type 0
Scanned sb bytes b bi n r =
    ((r ≡ none) × ((i : ℕ) → bi ≤ i → i < bi + n → b + i < sb.size → clear_at bytes i ≡ false))
    ⊎ ((k : ℕ) × (r ≡ some k)
        × (bi ≤ k)
        × (k < bi + n)
        × (b + k < sb.size)
        × (clear_at bytes k ≡ true)
        × ((i : ℕ) → bi ≤ i → i < k → clear_at bytes i ≡ false))

pub scan-Scanned :
    (sb : Super) (bytes : ℕ → ℕ) (b bi n : ℕ) → Scanned sb bytes b bi n (scan sb bytes b bi n)
unfolding scan
scan-Scanned sb bytes b bi zero = inl (refl, λ i p q r. absurd (omega arith))
scan-Scanned sb bytes b bi (suc n) = elim (Bool-cases (leb sb.size (b + bi))) [
  | inl t ↦ inl (rw t refl, λ i p q r. absurd (ground (arith, t)))
  | inr t ↦ elim (Bool-cases (clear_at bytes bi)) [
    | inl c ↦ inr (
      bi,
      rw t (rw c refl),
      omega arith,
      omega arith,
      ground (arith, t),
      c,
      λ i p q. absurd (omega arith),
    )
    | inr c ↦ elim (scan-Scanned sb bytes b (bi + 1) n) [
      | inl (r, all) ↦ inl (rw t (rw c r), λ i p q s. first c i p (λ l. all i l (omega arith) s))
      | inr (k, r, p, q, s, d, below) ↦ inr (
        k,
        rw t (rw c r),
        omega arith,
        omega arith,
        s,
        d,
        λ i p' q'. first c i p' (λ l. below i l q'),
      )
    ]
  ]
]
  where
    first :
        clear_at bytes bi ≡ false
        → (i : ℕ) → bi ≤ i
        → (bi + 1 ≤ i → clear_at bytes i ≡ false)
        → clear_at bytes i ≡ false
    first c i p rest = elim (Bool-cases (bi == i)) [
      | inl e ↦ let same : bi ≡ i = ground (arith, e) in rw same at c
      | inr e ↦ rest (ground (arith, e, p))
    ]
