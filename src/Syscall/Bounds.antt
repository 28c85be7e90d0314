-- ===== src/Syscall/Bounds.antt =====
-- syscall.c: what the argument checks promise of user pointers.
use os_assignment.Prelude.{
  ℕ, zero, suc, ◌+◌, ◌-◌, ◌*◌, ◌%◌, ◌^◌, ◌≤◌, ◌<◌, ◌≡◌, ◌≢◌, ◌↔◌, ap, ◌∙◌, sym, arith, none, some,
  ◌==◌, Bool-cases, Option-cases, inl, inr,
}
use os_assignment.Syscall.{User, fetchint, fetchstr, fetchstr_from, argint, argptr, argstr}

-- The range lies in the process.
abbrev pub Within : User → ℕ → ℕ → Type 0
Within u addr size = addr + size ≤ u.sz

-- The bytes at `addr` are a string of length `len` that ends in the process.
pub record StringAt (u : User) (addr len : ℕ) : Type 0 where
  pub ended : u.memory (addr + len) ≡ 0
  pub first : (j : ℕ) → j < len → u.memory (addr + j) ≢ 0
  pub inside : addr + len < u.sz

-- A process's memory ends below the kernel.
module _ (u : User) (user_sized : u.sz ≤ 2 ^ 31) where
  fetchint_lem : (addr v : ℕ) → fetchint u addr ≡ some v → addr + 4 ≤ u.sz
  unfolding fetchint
  fetchint_lem addr v e = ground (arith, e, user_sized)

  -- Where user memory is at most 2 ^ 31 bytes, `argptr` yields a pointer only to a range that lies in
  -- the process as a whole, whatever the user put on the stack: neither a negative size nor one that
  -- wraps gets through. The pointer is the argument of that number, and the stack slot that it is read
  -- from lies in the process too.
  pub argptr-Within :
      (n size i : ℕ)
      → size < 2 ^ 32
      → argptr u n size ≡ some i
      → Within u i size × (argint u n ≡ some i) × Within u ((u.esp + 4 + 4 * n) % 2 ^ 32) 4
  unfolding argptr
  argptr-Within n size i h e = elim (Option-cases (argint u n)) [
    | inl q ↦ ground (arith, q, e)
    | inr (k, q) ↦
        let same : k ≡ i = ground (arith, q, e) in
        (
          ground (arith, q, e, user_sized, h),
          q ∙ ap some same,
          fetchint_lem _ k (unfold argint in q),
        )
  ]

fetchstr_from-some :
    (u : User) (addr n len k : ℕ)
    → fetchstr_from u addr n len ≡ some k
    → (len ≤ k)
      × (k < len + n)
      × (u.memory (addr + k) ≡ 0)
      × ((j : ℕ) → len ≤ j → j < k → u.memory (addr + j) ≢ 0)
unfolding fetchstr_from
fetchstr_from-some u addr zero len k e = cc
fetchstr_from-some u addr (suc n) len k e = elim (Bool-cases (u.memory (addr + len) == 0)) [
  | inl t ↦
      let same : len ≡ k = ground (arith, t, e) in
      let zero_ : u.memory (addr + len) ≡ 0 = ground (arith, t) in
      (omega arith, omega arith, rw same at zero_, λ j a b. absurd (omega arith))
  | inr t ↦
      let ih = fetchstr_from-some u addr n (len + 1) k (ground (arith, t, e)) in
      (
        omega (arith, ih.0),
        omega (arith, ih.1),
        ih.2,
        λ j a b z. elim (Bool-cases (len == j)) [
          | inl w ↦ let same : len ≡ j = ground (arith, w) in ground (arith, t, same, z)
          | inr w ↦ ih.3 j (ground (arith, w, a)) b z
        ],
      )
]

fetchstr_from-none :
    (u : User) (addr n len : ℕ)
    → fetchstr_from u addr n len ≡ none
    → (j : ℕ) → len ≤ j
    → j < len + n
    → ¬ (u.memory (addr + j) ≡ 0)
unfolding fetchstr_from
fetchstr_from-none u addr zero len e j a b z = absurd (omega arith)
fetchstr_from-none u addr (suc n) len e j a b z = elim (Bool-cases (u.memory (addr + len) == 0)) [
  | inl t ↦ ground (arith, t, e)
  | inr t ↦ elim (Bool-cases (len == j)) [
    | inl w ↦ let same : len ≡ j = ground (arith, w) in ground (arith, t, same, z)
    | inr w ↦
        fetchstr_from-none u addr n (len + 1) (ground (arith, t, e)) j (ground (arith, w, a))
          (omega (arith, b)) z
  ]
]

fetchstr-some : (u : User) (addr k : ℕ) → fetchstr u addr ≡ some k → StringAt u addr k
unfolding fetchstr
fetchstr-some u addr k e =
    let found : fetchstr_from u addr (u.sz - addr) 0 ≡ some k = ground (arith, e) in
    let r = fetchstr_from-some u addr (u.sz - addr) 0 k found in
    record { ended = r.2; first = λ j b. r.3 j (omega arith) b; inside = ground (arith, e, r.1) }

StringAt-unique : (u : User) (addr j k : ℕ) → StringAt u addr j → StringAt u addr k → ¬ (j < k)
StringAt-unique u addr j k a b h = b.first j h a.ended

fetchstr-found : (u : User) (addr k : ℕ) → StringAt u addr k → fetchstr u addr ≡ some k
fetchstr-found u addr k a = elim (Option-cases (fetchstr u addr)) [
  | inl q ↦
      let missed : fetchstr_from u addr (u.sz - addr) 0 ≡ none =
        unfold fetchstr in ground (arith, q, a.inside) in
      absurd (
        fetchstr_from-none u addr (u.sz - addr) 0 missed k (omega arith) (omega (arith, a.inside))
          a.ended)
  | inr (j, q) ↦
      let b = fetchstr-some u addr j q in
      let same : j ≡ k =
        omega (arith, StringAt-unique u addr j k b a, StringAt-unique u addr k j a b) in
      q ∙ ap some same
]

-- `fetchstr` returns a length exactly if a string of this length stands at the address and ends, with
-- its zero byte, inside the process.
pub fetchstr-StringAt : (u : User) (addr k : ℕ) → (fetchstr u addr ≡ some k) ↔ StringAt u addr k
fetchstr-StringAt u addr k = (fetchstr-some u addr k, fetchstr-found u addr k)

argstr-parts :
    (u : User) (n addr k : ℕ)
    → argstr u n ≡ some (addr, k)
    → (argint u n ≡ some addr) × (fetchstr u addr ≡ some k)
unfolding argstr
argstr-parts u n addr k e = elim (Option-cases (argint u n)) [
  | inl q ↦ ground (arith, q, e)
  | inr (a, q) ↦ elim (Option-cases (fetchstr u a)) [
    | inl r ↦ ground (arith, q, r, e)
    | inr (b, r) ↦
        let same : a ≡ addr = ground (arith, q, r, e) in
        let same' : b ≡ k = ground (arith, q, r, e) in
        (q ∙ ap some same, ap (fetchstr u) (sym same) ∙ r ∙ ap some same')
  ]
]

-- `argstr` returns an address and a length exactly if the argument of that number is the address, and a
-- string of this length stands there and ends, with its zero byte, inside the process; else it fails.
pub argstr-StringAt :
    (u : User) (n addr k : ℕ)
    → (argstr u n ≡ some (addr, k)) ↔ ((argint u n ≡ some addr) × StringAt u addr k)
unfolding argstr
argstr-StringAt u n addr k = (
  λ e. (let p = argstr-parts u n addr k e in (p.0, fetchstr-some u addr k p.1)),
  λ p.
      (let found = fetchstr-found u addr k p.1 in
        elim (Option-cases (argint u n)) [
          | inl q ↦ cc (q, p.0)
          | inr (a, q) ↦ ground (arith, q, p.0, found)
        ]),
)
