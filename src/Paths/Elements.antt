-- ===== src/Paths/Elements.antt =====
-- fs.c: a path and the names in it.
use mathlib.Core.Path.{subst}
use os_assignment.Prelude.{
  ℕ, zero, suc, ◌+◌, ◌≤◌, ◌<◌, ◌≡◌, ◌≢◌, refl, ap, ap₂, ◌∙◌, sym, arith, List, [], ◌∷◌, ◌++◌, map,
  false, none, some, leb, ◌==◌, if◌then◌else◌, length, take, drop, All, Bool-cases, inl, inr,
}
use os_assignment.Paths.{dirsiz, skip_slashes, first_elem, after_elem, set_name, skipelem, walk}

-- The pieces between slashes, the first one apart.
abbrev split : List ℕ → List ℕ × List (List ℕ)
split [] = ([], [])
split (c ∷ cs) =
    if c == b'/' then ([], (split cs).0 ∷ (split cs).1) else (c ∷ (split cs).0, (split cs).1)

abbrev nonempty : List (List ℕ) → List (List ℕ)
nonempty [] = []
nonempty ([] ∷ xss) = nonempty xss
nonempty ((x ∷ xs) ∷ xss) = (x ∷ xs) ∷ nonempty xss

-- The names in a path: what stands between its slashes, if anything does.
abbrev pub components : List ℕ → List (List ℕ)
components p = nonempty ((split p).0 ∷ (split p).1)

-- What `namecmp` sees of a buffer.
abbrev pub before_zero : List ℕ → List ℕ
before_zero [] = []
before_zero (x ∷ xs) = if x == 0 then [] else x ∷ before_zero xs

abbrev pub Nonzero : List ℕ → Type 0
Nonzero xs = All (λ c. c ≢ 0) xs

split-first_elem : (p : List ℕ) → (split p).0 ≡ first_elem p
unfolding first_elem
split-first_elem [] = refl
split-first_elem (c ∷ cs) = elim (Bool-cases (c == b'/')) [
  | inl e ↦ rw e refl
  | inr e ↦ rw e (ap (λ k. c ∷ k) (split-first_elem cs))
]

components-after_elem : (p : List ℕ) → components (after_elem p) ≡ nonempty (split p).1
unfolding after_elem
components-after_elem [] = refl
components-after_elem (c ∷ cs) = elim (Bool-cases (c == b'/')) [
  | inl e ↦ rw (e, e) refl
  | inr e ↦ rw e (components-after_elem cs)
]

skip_slashes_stop : (c : ℕ) (cs : List ℕ) → (c == b'/') ≡ false → skip_slashes (c ∷ cs) ≡ c ∷ cs
unfolding skip_slashes
skip_slashes_stop c cs e = rw e refl

components-skip_slashes : (p : List ℕ) → components (skip_slashes p) ≡ components p
unfolding skip_slashes
components-skip_slashes [] = refl
components-skip_slashes (c ∷ cs) = elim (Bool-cases (c == b'/')) [
  | inl e ↦ rw e (components-skip_slashes cs)
  | inr e ↦ ap components (skip_slashes_stop c cs e)
]

components_cons :
    (c : ℕ) (cs : List ℕ)
    → (c == b'/') ≡ false
    → components (c ∷ cs) ≡ first_elem (c ∷ cs) ∷ components (after_elem (c ∷ cs))
unfolding first_elem after_elem
components_cons c cs e =
    rw e (ap₂ (λ x y. (c ∷ x) ∷ y) (split-first_elem cs) (sym (components-after_elem cs)))

-- What is left is shorter, and has no zeros either.
skip_slashes_lem :
    (p : List ℕ)
    → Nonzero p
    → (length (skip_slashes p) ≤ length p)
      × Nonzero (skip_slashes p)
      × ((c : ℕ) (cs : List ℕ) → skip_slashes p ≡ c ∷ cs → (c == b'/') ≡ false)
unfolding skip_slashes
skip_slashes_lem [] n = (omega arith, tt, λ c cs e. cc)
skip_slashes_lem (c ∷ cs) n = elim (Bool-cases (c == b'/')) [
  | inl e ↦ let (l, z, h) = skip_slashes_lem cs n.1 in rw e (omega arith, z, h)
  | inr e ↦ rw e (omega arith, n, λ d ds q. ground (arith, q, e))
]

after_elem_lem :
    (p : List ℕ) → Nonzero p → (length (after_elem p) ≤ length p) × Nonzero (after_elem p)
unfolding after_elem
after_elem_lem [] n = (omega arith, tt)
after_elem_lem (c ∷ cs) n = elim (Bool-cases (c == b'/')) [
  | inl e ↦ rw e (omega arith, n)
  | inr e ↦ let (l, z) = after_elem_lem cs n.1 in rw e (omega arith, z)
]

first_elem-Nonzero : (p : List ℕ) → Nonzero p → Nonzero (first_elem p)
unfolding first_elem
first_elem-Nonzero [] n = tt
first_elem-Nonzero (c ∷ cs) n = elim (Bool-cases (c == b'/')) [
  | inl e ↦ rw e tt
  | inr e ↦ rw e (n.0, first_elem-Nonzero cs n.1)
]

before_zero-take : (n : ℕ) (xs : List ℕ) → Nonzero xs → before_zero (take n xs) ≡ take n xs
before_zero-take zero xs n = refl
before_zero-take (suc k) [] n = refl
before_zero-take (suc k) (x ∷ xs) n =
    let nz : (x == 0) ≡ false = ground (arith, n.0) in
    rw nz (ap (λ t. x ∷ t) (before_zero-take k xs n.1))

before_zero-append : (xs ys : List ℕ) → Nonzero xs → before_zero (xs ++ (0 ∷ ys)) ≡ xs
before_zero-append [] ys n = refl
before_zero-append (x ∷ xs) ys n =
    let nz : (x == 0) ≡ false = ground (arith, n.0) in
    rw nz (ap (λ t. x ∷ t) (before_zero-append xs ys n.1))

take_all : (n : ℕ) (xs : List ℕ) → length xs ≤ n → take n xs ≡ xs
take_all zero [] h = refl
take_all zero (x ∷ xs) h = absurd (omega arith)
take_all (suc n) [] h = refl
take_all (suc n) (x ∷ xs) h = ap (λ t. x ∷ t) (take_all n xs (omega arith))

before_zero-set_name : (s name : List ℕ) → Nonzero s → before_zero (set_name s name) ≡ take dirsiz s
unfolding set_name
before_zero-set_name s name n = elim (Bool-cases (leb dirsiz (length s))) [
  | inl e ↦ rw e (before_zero-take dirsiz s n)
  | inr e ↦
      rw e
        (before_zero-append s (drop (length s + 1) name) n ∙ sym (take_all dirsiz s (ground arith)))
]

skipelem-none : (p name : List ℕ) → skip_slashes p ≡ [] → skipelem p name ≡ none
unfolding skipelem
skipelem-none p name e = rw (e, skipelem) refl

skipelem-some :
    (p name : List ℕ) (c : ℕ) (cs : List ℕ)
    → skip_slashes p ≡ c ∷ cs
    → skipelem p name
      ≡ some (skip_slashes (after_elem (c ∷ cs)), set_name (first_elem (c ∷ cs)) name)
unfolding skipelem
skipelem-some p name c cs e = rw (e, skipelem) refl

walk_end : (f : ℕ) (p name : List ℕ) → skip_slashes p ≡ [] → walk (suc f) p name ≡ some []
unfolding walk
walk_end f p name e = rw (skipelem-none p name e, walk) refl

walk_next :
    (f : ℕ) (p name : List ℕ) (c : ℕ) (cs : List ℕ) (names : List (List ℕ))
    → skip_slashes p ≡ c ∷ cs
    → walk f (skip_slashes (after_elem (c ∷ cs))) (set_name (first_elem (c ∷ cs)) name) ≡ some names
    → walk (suc f) p name ≡ some (set_name (first_elem (c ∷ cs)) name ∷ names)
unfolding walk
walk_next f p name c cs names e r = rw (skipelem-some p name c cs e, walk) (rw r refl)

after_elem_cons : (c : ℕ) (cs : List ℕ) → (c == b'/') ≡ false → after_elem (c ∷ cs) ≡ after_elem cs
unfolding after_elem
after_elem_cons c cs e = rw e refl

abbrev Walked : ℕ → List ℕ → List ℕ → Type 0
Walked f path name =
    (names : List (List ℕ)) × (walk f path name ≡ some names)
    × (map before_zero names ≡ map (take dirsiz) (components path))

walk_round :
    (f : ℕ) (path name p : List ℕ)
    → skip_slashes path ≡ p
    → length path < suc f
    → Nonzero path
    → ((q m : List ℕ) → length q < f → Nonzero q → Walked f q m)
    → Walked (suc f) path name
walk_round f path name [] e h n further = (
  [],
  walk_end f path name e,
  ap (map (take dirsiz)) (ap components (sym e) ∙ components-skip_slashes path),
)
walk_round f path name (c ∷ cs) e h n further =
    let (short, zs, stop) = skip_slashes_lem path n in
    let slash = stop c cs e in
    let whole : Nonzero (c ∷ cs) = subst Nonzero e zs in
    let (l1, n1) = after_elem_lem cs whole.1 in
    let same = after_elem_cons c cs slash in
    let rest = after_elem (c ∷ cs) in
    let n2 : Nonzero rest = subst Nonzero (sym same) n1 in
    let (l3, n3, more) = skip_slashes_lem rest n2 in
    let less : length (skip_slashes rest) < f =
      omega (arith, l1, l3, ap length same, ap length e, short, h) in
    let (names, r, seen) =
      further (skip_slashes rest) (set_name (first_elem (c ∷ cs)) name) less n3 in
    (
      set_name (first_elem (c ∷ cs)) name ∷ names,
      walk_next f path name c cs names e r,
      ap₂ ◌∷◌ (before_zero-set_name (first_elem (c ∷ cs)) name (first_elem-Nonzero (c ∷ cs) whole))
            (seen ∙ ap (map (take dirsiz)) (components-skip_slashes rest))
          ∙ ap (map (take dirsiz)) (
              sym (components_cons c cs slash)
              ∙ ap components (sym e)
              ∙ components-skip_slashes path),
    )

-- The names that the loop of `namex` looks up, as `namecmp` sees them, are the components of the path,
-- each cut to DIRSIZ bytes, in order, however many slashes stand between, before and behind them. The
-- loop ends; one unit of fuel for each byte and one more are enough. A path has no zero byte.
pub walk-components :
    (f : ℕ) (path name : List ℕ)
    → length path < f
    → Nonzero path
    → (names : List (List ℕ)) × (walk f path name ≡ some names)
      × (map before_zero names ≡ map (take dirsiz) (components path))
walk-components zero path name h n = absurd (omega arith)
walk-components (suc f) path name h n =
    walk_round f path name (skip_slashes path) refl h n (λ q m. walk-components f q m)
