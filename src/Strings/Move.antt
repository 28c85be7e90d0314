-- ===== src/Strings/Move.antt =====
-- string.c: `memmove` where source and destination overlap, and `memset`.
use native.Mathlib.Decide.{ℕ_discrete, dec_lt}
use mathlib.Core.Path.{subst}
use os_assignment.Prelude.{
  ℕ, zero, suc, ◌+◌, ◌-◌, ◌*◌, ◌/◌, ◌%◌, ◌^◌, ◌≤◌, ◌<◌, ◌≡◌, refl, ap, ◌∙◌, arith, ◌&&◌, ltb, ◌==◌,
  update, update_self, update_ne, ◌⊎◌, inl, inr, Bool-cases,
}
use os_assignment.Strings.{Mem, next, prev, stosb, stosl, memset, copy_down, copy_up, memmove}

-- The bytes from `s` on are now those from `d` on, and the other bytes are as before.
pub record Moved (d s n : ℕ) (m r : Mem) : Type 0 where
  pub inside : (i : ℕ) → i < n → r (d + i) ≡ m (s + i)
  pub outside : (a : ℕ) → (a < d) ⊎ (d + n ≤ a) → r a ≡ m a

copy_up-Moved :
    (n d s : ℕ) (m : Mem)
    → d + n < 2 ^ 32
    → s + n < 2 ^ 32
    → (d ≤ s) ⊎ (s + n ≤ d)
    → Moved d s n m (copy_up n d s m)
unfolding copy_up
copy_up-Moved zero d s m b c o = record {
  inside = λ i h. absurd (omega arith);
  outside = λ a h. refl;
}
copy_up-Moved (suc n) d s m b c o =
    let wd : next d ≡ d + 1 = omega arith in
    let ws : next s ≡ s + 1 = omega arith in
    let m' = update m d (m s) in
    let r = copy_up-Moved n (d + 1) (s + 1) m' (omega arith) (omega arith) (omega arith) in
    rw (wd, ws)
      (record {
        inside = λ i h. moved i h r;
        outside = λ a h. r.outside a (omega arith) ∙ update_ne m (m s) (omega arith);
      })
  where
    moved :
        (i : ℕ)
        → i < suc n
        → Moved (d + 1) (s + 1) n (update m d (m s)) (copy_up n (d + 1) (s + 1) (update m d (m s)))
        → copy_up n (d + 1) (s + 1) (update m d (m s)) (d + i) ≡ m (s + i)
    moved zero h r =
        r.outside (d + 0) (inl (omega arith))
        ∙ ap (update m d (m s)) {x = d + 0} {y = d} (omega arith)
        ∙ update_self m d (m s)
        ∙ ap m (omega arith)
    moved (suc i) h r =
        ap (copy_up n (d + 1) (s + 1) (update m d (m s))) {x = d + suc i} {y = d + 1 + i}
          (omega arith)
        ∙ r.inside i (omega arith)
        ∙ update_ne m (m s) (omega arith)
        ∙ ap m (omega arith)

copy_down-Moved :
    (n d s : ℕ) (m : Mem) → d + n < 2 ^ 32 → s < d → Moved d s n m (copy_down n (d + n) (s + n) m)
unfolding copy_down
copy_down-Moved zero d s m b o = record {
  inside = λ i h. absurd (omega arith);
  outside = λ a h. refl;
}
copy_down-Moved (suc n) d s m b o =
    let wd : prev (d + suc n) ≡ d + n = omega arith in
    let ws : prev (s + suc n) ≡ s + n = omega arith in
    let m' = update m (d + n) (m (s + n)) in
    let r = copy_down-Moved n d s m' (omega arith) o in
    rw (wd, ws)
      (record {
        inside = λ i h. elim (ℕ_discrete i n) [
          | yes e ↦
              r.outside (d + i) (inr (omega arith))
              ∙ ap m' {x = d + i} {y = d + n} (omega arith)
              ∙ update_self m (d + n) (m (s + n))
              ∙ ap m (omega arith)
          | no ne ↦ r.inside i (omega arith) ∙ update_ne m (m (s + n)) (omega arith)
        ];
        outside = λ a h. r.outside a (omega arith) ∙ update_ne m (m (s + n)) (omega arith);
      })

-- `memmove` copies `n` bytes and changes no other, also where the two ranges overlap, in either
-- direction, if neither range reaches the end of the address space.
pub memmove-Moved :
    (dst src n : ℕ) (m : Mem)
    → dst + n < 2 ^ 32
    → src + n < 2 ^ 32
    → Moved dst src n m (memmove dst src n m)
unfolding memmove
memmove-Moved dst src n m b c = elim (Bool-cases (ltb src dst && ltb dst ((src + n) % 2 ^ 32))) [
  | inl e ↦
      let wd : (dst + n) % 2 ^ 32 ≡ dst + n = omega arith in
      let ws : (src + n) % 2 ^ 32 ≡ src + n = omega arith in
      rw (e, wd, ws) (copy_down-Moved n dst src m b (ground arith))
  | inr e ↦ rw e (copy_up-Moved n dst src m b c (ground arith))
]

-- The bytes from `d` on are all `c`, and the other bytes are as before.
pub record Filled (d c n : ℕ) (m r : Mem) : Type 0 where
  pub inside : (i : ℕ) → i < n → r (d + i) ≡ c
  pub outside : (a : ℕ) → (a < d) ⊎ (d + n ≤ a) → r a ≡ m a

stosb-Filled : (n d c : ℕ) (m : Mem) → d + n < 2 ^ 32 → Filled d (c % 256) n m (stosb n d c m)
unfolding stosb
stosb-Filled zero d c m b = record { inside = λ i h. absurd (omega arith); outside = λ a h. refl }
stosb-Filled (suc n) d c m b =
    let wd : next d ≡ d + 1 = omega arith in
    let r = stosb-Filled n (d + 1) c (update m d (c % 256)) (omega arith) in
    rw wd (record {
      inside = λ i h. filled i h r;
      outside = λ a h. r.outside a (omega arith) ∙ update_ne m (c % 256) (omega arith);
    })
  where
    filled :
        (i : ℕ)
        → i < suc n
        → Filled
            (d + 1)
            (c % 256)
            n
            (update m d (c % 256))
            (stosb n (d + 1) c (update m d (c % 256)))
        → stosb n (d + 1) c (update m d (c % 256)) (d + i) ≡ c % 256
    filled zero h r = r.outside (d + 0) (inl (omega arith)) ∙ ground arith
    filled (suc i) h r =
        ap (stosb n (d + 1) c (update m d (c % 256))) {x = d + suc i} {y = d + 1 + i} (omega arith)
        ∙ r.inside i (omega arith)

Filled-append :
    (d c n k : ℕ) (m r1 r2 : Mem)
    → Filled d c n m r1
    → Filled (d + n) c k r1 r2
    → Filled d c (n + k) m r2
Filled-append d c n k m r1 r2 f g = record {
  inside = λ i h. elim (dec_lt i n) [
    | yes lt ↦ g.outside (d + i) (inl (omega arith)) ∙ f.inside i lt
    | no ge ↦ ap r2 {x = d + i} {y = d + n + (i - n)} (omega arith) ∙ g.inside (i - n) (omega arith)
  ];
  outside = λ a h. g.outside a (omega arith) ∙ f.outside a (omega arith);
}

-- A word of four equal bytes is written like these bytes.
stosl-stosb :
    (n d b : ℕ) (m : Mem)
    → b < 256
    → d + 4 < 2 ^ 32
    → let w = b * 2 ^ 24 + b * 2 ^ 16 + b * 2 ^ 8 + b in
      stosl (suc n) d w m ≡ stosl n (d + 4) w (stosb 4 d b m)
unfolding stosl stosb
stosl-stosb n d b m h f =
    let w = b * 2 ^ 24 + b * 2 ^ 16 + b * 2 ^ 8 + b in
    let w0 : w % 256 ≡ b = omega arith in
    let w1 : w / 2 ^ 8 % 256 ≡ b = omega arith in
    let w2 : w / 2 ^ 16 % 256 ≡ b = omega arith in
    let w3 : w / 2 ^ 24 % 256 ≡ b = omega arith in
    let b0 : b % 256 ≡ b = omega arith in
    let d1 : (d + 1) % 2 ^ 32 ≡ d + 1 = omega arith in
    let d2 : (d + 2) % 2 ^ 32 ≡ d + 2 = omega arith in
    let d3 : (d + 3) % 2 ^ 32 ≡ d + 3 = omega arith in
    let d4 : (d + 4) % 2 ^ 32 ≡ d + 4 = omega arith in
    let e2 : (d + 1 + 1) % 2 ^ 32 ≡ d + 2 = omega arith in
    let e3 : (d + 2 + 1) % 2 ^ 32 ≡ d + 3 = omega arith in
    rw (w0, w1, w2, w3, b0, d1, d2, d3, d4, e2, e3) refl

stosl-Filled :
    (n d b : ℕ) (m : Mem)
    → b < 256
    → d + 4 * n < 2 ^ 32
    → Filled d b (4 * n) m (stosl n d (b * 2 ^ 24 + b * 2 ^ 16 + b * 2 ^ 8 + b) m)
unfolding stosl
stosl-Filled zero d b m h f = record { inside = λ i g. absurd (omega arith); outside = λ a g. refl }
stosl-Filled (suc n) d b m h f =
    let four : 4 * suc n ≡ 4 + 4 * n = omega arith in
    let low : b % 256 ≡ b = omega arith in
    rw (stosl-stosb n d b m h (omega arith), four)
      (Filled-append d b 4 (4 * n) m (stosb 4 d b m) _
        (subst (λ c. Filled d c 4 m (stosb 4 d b m)) low (stosb-Filled 4 d b m (omega arith)))
        (stosl-Filled n (d + 4) b (stosb 4 d b m) h (omega arith)))

-- `memset` sets `n` bytes to the low byte of `c` and changes no other, by words or by bytes, if the
-- range does not reach the end of the address space.
pub memset-Filled :
    (dst c n : ℕ) (m : Mem) → dst + n < 2 ^ 32 → Filled dst (c % 256) n m (memset dst c n m)
unfolding memset
memset-Filled dst c n m b = elim (Bool-cases (dst % 4 == 0 && n % 4 == 0)) [
  | inl e ↦
      let words : 4 * (n / 4) ≡ n = ground arith in
      rw e (
        subst
          (λ k.
            Filled dst (c % 256) k m (
              stosl (n / 4) dst (c % 256 * 2 ^ 24 + c % 256 * 2 ^ 16 + c % 256 * 2 ^ 8 + c % 256)
                m))
          words (stosl-Filled (n / 4) dst (c % 256) m (omega arith) (omega arith)))
  | inr e ↦ rw e (stosb-Filled n dst c m b)
]
