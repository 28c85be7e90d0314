-- ===== src/Inodes/Words.antt =====
-- fs.c: words and runs of bytes in a block.
use os_assignment.Prelude.{
  ℕ, zero, suc, ◌+◌, ◌-◌, ◌*◌, ◌^◌, ◌<◌, ◌≤◌, ◌≡◌, ◌≢◌, ◌⊎◌, inl, inr, refl, ap, ap₂, ◌∙◌, arith,
  true, ◌&&◌, Bool-cases, List, [], ◌∷◌, ◌++◌, ltb, leb, ◌==◌, if◌then◌else◌, length, take, drop,
  get_or, update, All,
}
use os_assignment.Inodes.{byte_of, get_word, put_word, slice, splice}

put_word_at : (bytes : ℕ → ℕ) (i x k : ℕ) → k < 4 → put_word bytes i x (i + k) ≡ byte_of x k
put_word_at bytes i x k l =
    let back : i + k - i ≡ k = omega arith in
    let inside : (leb i (i + k) && ltb (i + k) (i + 4)) ≡ true = ground (arith, l) in
    rw inside (rw back refl)

put_word_out : (bytes : ℕ → ℕ) (i x j : ℕ) → (j < i) ⊎ (i + 4 ≤ j) → put_word bytes i x j ≡ bytes j
put_word_out bytes i x j (inl l) = ground (arith, l)
put_word_out bytes i x j (inr l) = ground (arith, l)

pub get_word-put_word : (bytes : ℕ → ℕ) (i x : ℕ) → x < 2 ^ 32 → get_word (put_word bytes i x) i ≡ x
get_word-put_word bytes i x l =
    let first : put_word bytes i x i ≡ byte_of x 0 =
      ap (put_word bytes i x) (omega arith) ∙ put_word_at bytes i x 0 (omega arith) in
    omega (
      arith,
      first,
      put_word_at bytes i x 1 (omega arith),
      put_word_at bytes i x 2 (omega arith),
      put_word_at bytes i x 3 (omega arith),
    )

pub get_word-other :
    (bytes : ℕ → ℕ) (i j x : ℕ)
    → i ≢ j
    → get_word (put_word bytes (4 * i) x) (4 * j) ≡ get_word bytes (4 * j)
get_word-other bytes i j x ne =
    let zeroth : put_word bytes (4 * i) x (4 * j) ≡ bytes (4 * j) =
      ap (put_word bytes (4 * i) x) (omega arith)
      ∙ put_word_out bytes (4 * i) x (4 * j + 0) (apart 0 (omega arith))
      ∙ ap bytes (omega arith) in
    omega (
      arith,
      zeroth,
      put_word_out bytes (4 * i) x (4 * j + 1) (apart 1 (omega arith)),
      put_word_out bytes (4 * i) x (4 * j + 2) (apart 2 (omega arith)),
      put_word_out bytes (4 * i) x (4 * j + 3) (apart 3 (omega arith)),
    )
  where
    apart : (k : ℕ) → k < 4 → (4 * j + k < 4 * i) ⊎ (4 * i + 4 ≤ 4 * j + k)
    apart k l = elim (Bool-cases (ltb j i)) [
      | inl t ↦ inl (ground (arith, t, l))
      | inr t ↦ inr (ground (arith, t, l, ne))
    ]

pub put_word_byte :
    (bytes : ℕ → ℕ) (i x : ℕ) → ((j : ℕ) → bytes j < 256) → (j : ℕ) → put_word bytes i x j < 256
put_word_byte bytes i x h j = ground (arith, h j)

pub get_word_lt : (bytes : ℕ → ℕ) (i : ℕ) → ((j : ℕ) → bytes j < 256) → get_word bytes i < 2 ^ 32
get_word_lt bytes i h = omega (arith, h i, h (i + 1), h (i + 2), h (i + 3))

pub length-slice : (g : ℕ → ℕ) (i n : ℕ) → length (slice g i n) ≡ n
length-slice g i zero = refl
length-slice g i (suc n) = ap suc (length-slice g (i + 1) n)

pub slice-append : (g : ℕ → ℕ) (i m n : ℕ) → slice g i m ++ slice g (i + m) n ≡ slice g i (m + n)
slice-append g i zero n = ap₂ (slice g) (omega arith) (omega arith)
slice-append g i (suc m) n =
    let shift : i + suc m ≡ i + 1 + m = omega arith in
    let count : suc m + n ≡ suc (m + n) = omega arith in
    rw (shift, count) (ap (λ l. g i ∷ l) (slice-append g (i + 1) m n))

pub slice-eq :
    (g h : ℕ → ℕ) (i j n : ℕ)
    → ((k : ℕ) → k < n → g (i + k) ≡ h (j + k))
    → slice g i n ≡ slice h j n
slice-eq g h i j zero e = refl
slice-eq g h i j (suc n) e =
    ap₂ (λ x l. x ∷ l) (ap g (omega arith) ∙ e 0 (omega arith) ∙ ap h (omega arith))
      (slice-eq g h (i + 1) (j + 1) n
        (λ k l. ap g (omega arith) ∙ e (suc k) (omega arith) ∙ ap h (omega arith)))

pub splice_out :
    (g : ℕ → ℕ) (i : ℕ) (xs : List ℕ) (j : ℕ)
    → (j < i) ⊎ (i + length xs ≤ j)
    → splice g i xs j ≡ g j
splice_out g i [] j h = refl
splice_out g i (x ∷ xs) j (inl l) =
    splice_out (update g i x) (i + 1) xs j (inl (omega arith)) ∙ ground (arith, l)
splice_out g i (x ∷ xs) j (inr l) =
    splice_out (update g i x) (i + 1) xs j (inr (omega arith)) ∙ ground (arith, l)

pub splice_in :
    (g : ℕ → ℕ) (i : ℕ) (xs : List ℕ) (k : ℕ)
    → k < length xs
    → splice g i xs (i + k) ≡ get_or xs k 0
splice_in g i [] k l = absurd (omega arith)
splice_in g i (x ∷ xs) zero l =
    splice_out (update g i x) (i + 1) xs (i + 0) (inl (omega arith)) ∙ ground arith
splice_in g i (x ∷ xs) (suc k) l =
    ap (splice (update g i x) (i + 1) xs) (omega arith)
    ∙ splice_in (update g i x) (i + 1) xs k (omega arith)

-- What was written is what is read.
pub slice-splice : (g : ℕ → ℕ) (i : ℕ) (xs : List ℕ) → slice (splice g i xs) i (length xs) ≡ xs
slice-splice g i [] = refl
slice-splice g i (x ∷ xs) =
    ap₂ (λ y l. y ∷ l) (splice_out (update g i x) (i + 1) xs i (inl (omega arith)) ∙ ground arith)
      (slice-splice (update g i x) (i + 1) xs)

pub splice_byte :
    (g : ℕ → ℕ) (i : ℕ) (xs : List ℕ)
    → ((j : ℕ) → g j < 256)
    → All (λ x. x < 256) xs
    → (j : ℕ) → splice g i xs j < 256
splice_byte g i [] h a j = h j
splice_byte g i (x ∷ xs) h a j =
    splice_byte (update g i x) (i + 1) xs (λ k. ground (arith, h k, a.0)) a.1 j

-- A long run is written in two pieces.
pub splice-take-drop :
    (g : ℕ → ℕ) (i m : ℕ) (xs : List ℕ)
    → m ≤ length xs
    → splice (splice g i (take m xs)) (i + m) (drop m xs) ≡ splice g i xs
splice-take-drop g i zero xs h = ap (λ k. splice g k xs) (omega arith)
splice-take-drop g i (suc m) [] h = refl
splice-take-drop g i (suc m) (x ∷ xs) h =
    ap (λ k. splice (splice (update g i x) (i + 1) (take m xs)) k (drop m xs)) (omega arith)
    ∙ splice-take-drop (update g i x) (i + 1) m xs (omega arith)

-- Where two memories agree they agree after the same write.
pub splice-at :
    (g h : ℕ → ℕ) (i : ℕ) (xs : List ℕ) (j : ℕ) → g j ≡ h j → splice g i xs j ≡ splice h i xs j
splice-at g h i [] j e = e
splice-at g h i (x ∷ xs) j e =
    splice-at (update g i x) (update h i x) (i + 1) xs j (ap (λ y. if i == j then x else y) e)
