-- ===== src/Strings/Copy.antt =====
-- string.c: what `strncmp`, `strncpy`, `safestrcpy` and `strlen` do to strings.
use native.Mathlib.Decide.{ℕ_discrete}
use os_assignment.Prelude.{
  ℕ, zero, suc, ◌+◌, ◌-◌, ◌%◌, ◌^◌, ◌≤◌, ◌<◌, ◌≡◌, ◌≢◌, refl, ap, ap₂, ◌∙◌, sym, arith, List, [],
  ◌∷◌, true, false, some, ◌==◌, if◌then◌else◌, update, update_self, update_ne, ◌⊎◌, inl, inr,
  Bool-cases, length,
}
use os_assignment.Strings.{
  Mem, next, memcmp, strncmp, strncpy, zero_fill, copy_safe, safestrcpy, strlen_from, strlen,
}

-- The string at `p`: the bytes before the first zero, at most `n`.
abbrev pub cstr : ℕ → ℕ → Mem → List ℕ
cstr p zero m = []
cstr p (suc n) m = if m p == 0 then [] else m p ∷ cstr (next p) n m

head_eq : (x y : ℕ) (xs ys : List ℕ) → (x ∷ xs) ≡ (y ∷ ys) → (x ≡ y) × (xs ≡ ys)
head_eq x y xs ys e = (cc, cc)

-- `strncmp` gives 0 for equal strings and for no others, where it compares at most `n` bytes.
pub strncmp_lem :
    (p q n : ℕ) (m : Mem)
    → ((a : ℕ) → m a < 256)
    → (strncmp p q n m ≡ 0 → cstr p n m ≡ cstr q n m)
      × (cstr p n m ≡ cstr q n m → strncmp p q n m ≡ 0)
unfolding strncmp
strncmp_lem p q zero m b = (λ e. refl, λ e. refl)
strncmp_lem p q (suc n) m b = elim (Bool-cases (m p == 0)) [
  | inl z ↦ elim (Bool-cases (m q == 0)) [
    | inl y ↦ rw (z, y) (λ e. refl, λ e. ground (arith, b p, b q))
    | inr y ↦ rw (z, y) (λ e. absurd (ground (arith, b p, b q)), λ e. cc)
  ]
  | inr z ↦ elim (Bool-cases (m p == m q)) [
    | inl e ↦
        let (there, back) = strncmp_lem (next p) (next q) n m b in
        let same : m p ≡ m q = ground arith in
        let y : (m q == 0) ≡ false = ground arith in
        rw (z, e, y) (λ h. ap₂ ◌∷◌ same (there h), λ h. back (head_eq (m p) (m q) _ _ h).1)
    | inr e ↦ elim (Bool-cases (m q == 0)) [
      | inl y ↦ rw (z, e, y) (λ h. absurd (ground (arith, b p, b q)), λ h. cc)
      | inr y ↦
          rw (z, e, y)
            (
              λ h. absurd (ground (arith, b p, b q)),
              λ h. absurd (ground (arith, (head_eq (m p) (m q) _ _ h).0)),
            )
    ]
  ]
]

cstr_end : (p n : ℕ) (m : Mem) → m p ≡ 0 → cstr p (suc n) m ≡ []
cstr_end p n m e = rw e refl

cstr_cons :
    (p q n : ℕ) (m : Mem) → (m p == 0) ≡ false → next p ≡ q → cstr p (suc n) m ≡ m p ∷ cstr q n m
cstr_cons p q n m e w = rw e (ap (λ k. m p ∷ cstr k n m) w)

pub cstr-congr :
    (n p : ℕ) (m r : Mem)
    → p + n < 2 ^ 32
    → ((a : ℕ) → p ≤ a → a < p + n → r a ≡ m a)
    → cstr p n r ≡ cstr p n m
cstr-congr zero p m r b e = refl
cstr-congr (suc n) p m r b e =
    let w : next p ≡ p + 1 = omega arith in
    rw (e p (omega arith) (omega arith), w)
      (ap (λ k. if m p == 0 then [] else m p ∷ k)
        (cstr-congr n (p + 1) m r (omega arith) (λ a lo hi. e a (omega arith) (omega arith))))

zero_fill_lem :
    (n s : ℕ) (m : Mem)
    → s + n < 2 ^ 32
    → ((i : ℕ) → i < n → zero_fill s n m (s + i) ≡ 0)
      × ((a : ℕ) → (a < s) ⊎ (s + n ≤ a) → zero_fill s n m a ≡ m a)
unfolding zero_fill
zero_fill_lem zero s m b = (λ i h. absurd (omega arith), λ a h. refl)
zero_fill_lem (suc n) s m b =
    let w : next s ≡ s + 1 = omega arith in
    let (zeros, rest) = zero_fill_lem n (s + 1) (update m s 0) (omega arith) in
    rw w (fill zeros rest, λ a h. rest a (omega arith) ∙ update_ne m 0 (omega arith))
  where
    fill :
        ((i : ℕ) → i < n → zero_fill (s + 1) n (update m s 0) (s + 1 + i) ≡ 0)
        → ((a : ℕ)
            → (a < s + 1) ⊎ (s + 1 + n ≤ a)
            → zero_fill (s + 1) n (update m s 0) a ≡ update m s 0 a)
        → (i : ℕ) → i < suc n
        → zero_fill (s + 1) n (update m s 0) (s + i) ≡ 0
    fill zeros rest zero h = rest (s + 0) (inl (omega arith)) ∙ ground arith
    fill zeros rest (suc i) h =
        ap (zero_fill (s + 1) n (update m s 0)) {x = s + suc i} {y = s + 1 + i} (omega arith)
        ∙ zeros i (omega arith)

-- What `strncpy` makes of the `n` bytes from `s` on: the string at `t`, and zeros behind it.
pub record Padded (s t n : ℕ) (m r : Mem) : Type 0 where
  pub text : cstr s n r ≡ cstr t n m
  pub zeros : (i : ℕ) → length (cstr t n m) ≤ i → i < n → r (s + i) ≡ 0
  pub outside : (a : ℕ) → (a < s) ⊎ (s + n ≤ a) → r a ≡ m a

-- `strncpy` copies at most `n` bytes of the string, fills the rest of the `n` bytes with zeros and
-- changes no other byte, if the ranges are apart and do not reach the end of the address space.
pub strncpy-Padded :
    (s t n : ℕ) (m : Mem)
    → s + n < 2 ^ 32
    → t + n < 2 ^ 32
    → (s + n ≤ t) ⊎ (t + n ≤ s)
    → Padded s t n m (strncpy s t n m)
unfolding strncpy
strncpy-Padded s t zero m b c o = record {
  text = refl;
  zeros = λ i h g. absurd (omega arith);
  outside = λ a h. refl;
}
strncpy-Padded s t (suc n) m b c o = elim (Bool-cases (m t == 0)) [
  | inl e ↦
      let m' = update m s (m t) in
      let ws : next s ≡ s + 1 = omega arith in
      let zt : m t ≡ 0 = ground arith in
      let (zeros, rest) = zero_fill_lem n (s + 1) m' (omega arith) in
      let first : zero_fill (s + 1) n m' s ≡ 0 =
        rest s (inl (omega arith)) ∙ update_self m s (m t) ∙ zt in
      rw (e, ws)
        (record {
          text = cstr_end s n (zero_fill (s + 1) n m') first ∙ sym (cstr_end t n m zt);
          zeros = λ i h g. padding first zeros i g;
          outside = λ a h. rest a (omega arith) ∙ update_ne m (m t) (omega arith);
        })
  | inr e ↦
      let m' = update m s (m t) in
      let ws : next s ≡ s + 1 = omega arith in
      let wt : next t ≡ t + 1 = omega arith in
      let r = strncpy-Padded (s + 1) (t + 1) n m' (omega arith) (omega arith) (omega arith) in
      let first : strncpy (s + 1) (t + 1) n m' s ≡ m t =
        r.outside s (inl (omega arith)) ∙ update_self m s (m t) in
      let same : cstr (t + 1) n m' ≡ cstr (t + 1) n m =
        cstr-congr n (t + 1) m m' (omega arith) (λ a lo hi. update_ne m (m t) (omega arith)) in
      rw (e, ws, wt)
        (record {
          text =
              cstr_cons s (s + 1) n (strncpy (s + 1) (t + 1) n m') (ap (λ k. k == 0) first ∙ e) ws
              ∙ ap₂ ◌∷◌ first (r.text ∙ same)
              ∙ sym (cstr_cons t (t + 1) n m e wt);
          zeros = λ i h g.
              later same (λ j. r.zeros j) i
                (omega (arith, h, ap length (cstr_cons t (t + 1) n m e wt))) g;
          outside = λ a h. r.outside a (omega arith) ∙ update_ne m (m t) (omega arith);
        })
]
  where
    padding :
        zero_fill (s + 1) n (update m s (m t)) s ≡ 0
        → ((i : ℕ) → i < n → zero_fill (s + 1) n (update m s (m t)) (s + 1 + i) ≡ 0)
        → (i : ℕ) → i < suc n
        → zero_fill (s + 1) n (update m s (m t)) (s + i) ≡ 0
    padding first zeros zero g =
        ap (zero_fill (s + 1) n (update m s (m t))) {x = s + 0} {y = s} (omega arith) ∙ first
    padding first zeros (suc i) g =
        ap (zero_fill (s + 1) n (update m s (m t))) {x = s + suc i} {y = s + 1 + i} (omega arith)
        ∙ zeros i (omega arith)

    later :
        cstr (t + 1) n (update m s (m t)) ≡ cstr (t + 1) n m
        → ((i : ℕ)
            → length (cstr (t + 1) n (update m s (m t))) ≤ i
            → i < n
            → strncpy (s + 1) (t + 1) n (update m s (m t)) (s + 1 + i) ≡ 0)
        → (i : ℕ) → suc (length (cstr (t + 1) n m)) ≤ i
        → i < suc n
        → strncpy (s + 1) (t + 1) n (update m s (m t)) (s + i) ≡ 0
    later same zeros zero h g = absurd (omega arith)
    later same zeros (suc i) h g =
        ap (strncpy (s + 1) (t + 1) n (update m s (m t))) {x = s + suc i} {y = s + 1 + i}
          (omega arith)
        ∙ zeros i (omega (arith, ap length same)) (omega arith)

-- What `safestrcpy` makes of the `n` bytes from `s` on: the string at `t`, cut to leave room for its end.
pub record Terminated (s t n : ℕ) (m r : Mem) : Type 0 where
  pub text : cstr s n r ≡ cstr t (n - 1) m
  pub short : length (cstr s n r) < n
  pub outside : (a : ℕ) → (a < s) ⊎ (s + n ≤ a) → r a ≡ m a

length-cstr : (p n : ℕ) (m : Mem) → length (cstr p n m) ≤ n
length-cstr p zero m = omega arith
length-cstr p (suc n) m = ground (arith, length-cstr (next p) n m)

copy_safe_lem :
    (n s t : ℕ) (m : Mem)
    → s + suc n < 2 ^ 32
    → t + n < 2 ^ 32
    → (s + suc n ≤ t) ⊎ (t + n ≤ s)
    → (cstr s (suc n) (copy_safe s t n m) ≡ cstr t n m)
      × ((a : ℕ) → (a < s) ⊎ (s + suc n ≤ a) → copy_safe s t n m a ≡ m a)
unfolding copy_safe
copy_safe_lem zero s t m b c o = (ground arith, λ a h. update_ne m 0 (omega arith))
copy_safe_lem (suc n) s t m b c o = elim (Bool-cases (m t == 0)) [
  | inl e ↦
      let m' = update m s (m t) in
      let ws : next s ≡ s + 1 = omega arith in
      let zt : m t ≡ 0 = ground arith in
      let first : update m' (s + 1) 0 s ≡ 0 =
        update_ne m' 0 (omega arith) ∙ update_self m s (m t) ∙ zt in
      rw (e, ws)
        (rw first refl, λ a h. update_ne m' 0 (omega arith) ∙ update_ne m (m t) (omega arith))
  | inr e ↦
      let m' = update m s (m t) in
      let ws : next s ≡ s + 1 = omega arith in
      let wt : next t ≡ t + 1 = omega arith in
      let (text, rest) =
        copy_safe_lem n (s + 1) (t + 1) m' (omega arith) (omega arith) (omega arith) in
      let first : copy_safe (s + 1) (t + 1) n m' s ≡ m t =
        rest s (inl (omega arith)) ∙ update_self m s (m t) in
      let same : cstr (t + 1) n m' ≡ cstr (t + 1) n m =
        cstr-congr n (t + 1) m m' (omega arith) (λ a lo hi. update_ne m (m t) (omega arith)) in
      rw (e, ws, wt)
        (
          rw (first, e) (ap (λ k. m t ∷ k) (text ∙ same)),
          λ a h. rest a (omega arith) ∙ update_ne m (m t) (omega arith),
        )
]

-- `safestrcpy` with room for `n` bytes, one at least, leaves the string at `t`, cut to `n` - 1 bytes and
-- always with its end, and changes no byte outside that room, if the ranges are apart and do not reach
-- the end of the address space.
pub safestrcpy-Terminated :
    (s t n : ℕ) (m : Mem)
    → 0 < n
    → s + n < 2 ^ 32
    → t + n < 2 ^ 32
    → (s + n ≤ t) ⊎ (t + n ≤ s)
    → Terminated s t n m (safestrcpy s t n m)
unfolding safestrcpy
safestrcpy-Terminated s t zero m z b c o = absurd (omega arith)
safestrcpy-Terminated s t (suc n) m z b c o =
    let (text, rest) = copy_safe_lem n s t m b (omega arith) (omega arith) in
    record {
      text = text ∙ ap (λ k. cstr t k m) {x = n} {y = suc n - 1} (omega arith);
      short = omega (arith, ap length text, length-cstr t n m);
      outside = rest;
    }

-- The `n` bytes from `p` on.
abbrev pub bytes : ℕ → ℕ → Mem → List ℕ
bytes p zero m = []
bytes p (suc n) m = m p ∷ bytes (next p) n m

-- `memcmp` gives 0 for equal ranges and for no others.
pub memcmp_lem :
    (p q n : ℕ) (m : Mem)
    → ((a : ℕ) → m a < 256)
    → (memcmp p q n m ≡ 0 → bytes p n m ≡ bytes q n m)
      × (bytes p n m ≡ bytes q n m → memcmp p q n m ≡ 0)
unfolding memcmp
memcmp_lem p q zero m b = (λ e. refl, λ e. refl)
memcmp_lem p q (suc n) m b = elim (Bool-cases (m p == m q)) [
  | inl e ↦
      let (there, back) = memcmp_lem (next p) (next q) n m b in
      let same : m p ≡ m q = ground arith in
      rw e (λ h. ap₂ ◌∷◌ same (there h), λ h. back (head_eq (m p) (m q) _ _ h).1)
  | inr e ↦
      let differ : m p ≢ m q = ground arith in
      rw e (
        λ h. absurd (omega (arith, differ, b p, b q)),
        λ h. absurd (differ (head_eq (m p) (m q) _ _ h).0),
      )
]

strlen_from_lem :
    (f s n k : ℕ) (m : Mem)
    → n ≤ k
    → k < n + f
    → m ((s + k) % 2 ^ 32) ≡ 0
    → ((i : ℕ) → i < k → m ((s + i) % 2 ^ 32) ≢ 0)
    → strlen_from f s n m ≡ some k
unfolding strlen_from
strlen_from_lem zero s n k m lo hi z nz = absurd (omega arith)
strlen_from_lem (suc f) s n k m lo hi z nz = elim (ℕ_discrete n k) [
  | yes e ↦ let end : (m ((s + n) % 2 ^ 32) == 0) ≡ true = rw e (ground arith) in rw end (ap some e)
  | no ne ↦
      let more : (m ((s + n) % 2 ^ 32) == 0) ≡ false = ground (arith, nz n (omega arith)) in
      rw more (strlen_from_lem f s (n + 1) k m (omega arith) (omega arith) z nz)
]

-- `strlen` ends at the first zero byte and returns how many bytes stand before it; one unit of fuel
-- for each byte and one for the zero are enough.
pub strlen_lem :
    (fuel s k : ℕ) (m : Mem)
    → k < fuel
    → m ((s + k) % 2 ^ 32) ≡ 0
    → ((i : ℕ) → i < k → m ((s + i) % 2 ^ 32) ≢ 0)
    → strlen fuel s m ≡ some k
unfolding strlen
strlen_lem fuel s k m h z nz = strlen_from_lem fuel s 0 k m (omega arith) (omega arith) z nz
