-- ===== src/Locks/Nesting.antt =====
-- spinlock.c: sequences of `pushcli` and `popcli` that match.
use os_assignment.Prelude.{
  ◌+◌, ◌-◌, ◌%◌, ◌^◌, ◌<◌, ◌≡◌, refl, ap, ◌∙◌, arith, List, [], ◌∷◌, ◌++◌, false, leb, ◌==◌, Result,
  ok, panic, ◌>>=◌, length, length-append, Bool-cases, inl, inr,
}
use os_assignment.Locks.{Cpu, pushcli, popcli}

pub data Op : Type 0 where
  push pop : Op

pub run : List Op → Cpu → Result Cpu
run [] c = ok c
run (push ∷ ops) c = run ops (pushcli c)
run (pop ∷ ops) c = popcli c >>= run ops

-- Every `push` has its `pop`, as brackets have.
pub data Nested : List Op → Type 0 where
  empty : Nested []
  wrap : {xs ys : List Op} → Nested xs → Nested ys → Nested (push ∷ (xs ++ (pop ∷ ys)))

-- Inside a `pushcli` interrupts are off.
abbrev pub Masked : Cpu → Type 0
Masked c = 0 < c.ncli → c.interrupts ≡ false

bind_through :
    (f g h : Cpu → Result Cpu) (r : Result Cpu)
    → ((c : Cpu) → f c ≡ (g c >>= h))
    → (r >>= f) ≡ (r >>= g >>= h)
bind_through f g h (ok c) e = e c
bind_through f g h (panic s) e = refl

run-append : (xs ys : List Op) (c : Cpu) → run (xs ++ ys) c ≡ (run xs c >>= run ys)
unfolding run
run-append [] ys c = refl
run-append (push ∷ xs) ys c = run-append xs ys (pushcli c)
run-append (pop ∷ xs) ys c =
    bind_through (run (xs ++ ys)) (run xs) (run ys) (popcli c) (run-append xs ys)

-- What a matched sequence does.
pub record Restored (ops : List Op) (c : Cpu) : Type 0 where
  pub after : Cpu
  pub ran : run ops c ≡ ok after
  pub same_depth : after.ncli ≡ c.ncli
  pub same_interrupts : after.interrupts ≡ c.interrupts
  pub same : 0 < c.ncli → after ≡ c

popcli-pushcli :
    (c : Cpu)
    → c.ncli + 1 < 2 ^ 31
    → Masked c
    → (c' : Cpu) × (popcli (pushcli c) ≡ ok c')
      × (c'.ncli ≡ c.ncli)
      × (c'.interrupts ≡ c.interrupts)
      × (0 < c.ncli → c' ≡ c)
unfolding pushcli popcli
popcli-pushcli c h m =
    let up : (c.ncli + 1) % 2 ^ 32 ≡ c.ncli + 1 = omega arith in
    let down : (c.ncli + 1 + 2 ^ 32 - 1) % 2 ^ 32 ≡ c.ncli = omega arith in
    let small : leb (2 ^ 31) c.ncli ≡ false = ground arith in
    elim (Bool-cases (c.ncli == 0)) [
      | inl z ↦ (
        record { interrupts = c.interrupts; ncli = c.ncli; intena = c.interrupts },
        rw (up, down, small, z) refl,
        refl,
        refl,
        λ p. absurd (ground arith),
      )
      | inr z ↦
          let off : c.interrupts ≡ false = m (ground arith) in
          (c, rw (up, down, small, z) (rw off refl), refl, refl, λ p. refl)
    ]

run-wrap :
    (xs ys : List Op) (c c' : Cpu)
    → run xs (pushcli c) ≡ ok (pushcli c)
    → popcli (pushcli c) ≡ ok c'
    → run (push ∷ (xs ++ (pop ∷ ys))) c ≡ run ys c'
unfolding run
run-wrap xs ys c c' inner out = rw (run-append xs (pop ∷ ys) (pushcli c), inner) (rw out refl)

pushcli-Masked :
    (c : Cpu) → c.ncli + 1 < 2 ^ 31 → Masked (pushcli c) × ((pushcli c).ncli ≡ c.ncli + 1)
unfolding pushcli
pushcli-Masked c h = (λ p. refl, omega arith)

-- After a sequence of calls in which each `pushcli` has its `popcli`, nothing has panicked, interrupts
-- are on exactly if they were on before, and the depth is as before; and if the depth was not 0, the whole
-- state of the processor is as before. The conditions are that interrupts are off if the depth is not 0,
-- and that the depth before and the number of calls sum up to less than 2 ^ 31.
pub Nested-Restored :
    {ops : List Op}
    → Nested ops
    → (c : Cpu) → c.ncli + length ops < 2 ^ 31
    → Masked c
    → Restored ops c
unfolding run
Nested-Restored empty c h m = record {
  after = c;
  ran = refl;
  same_depth = refl;
  same_interrupts = refl;
  same = λ p. refl;
}
Nested-Restored (wrap {xs} {ys} nx ny) c h m =
    let long = length-append xs (pop ∷ ys) in
    let (m1, deep) = pushcli-Masked c (omega (arith, long)) in
    let r1 = Nested-Restored nx (pushcli c) (omega (arith, long)) m1 in
    let (c2, popped, d2, i2, s2) = popcli-pushcli c (omega (arith, long)) m in
    let inner : run xs (pushcli c) ≡ ok (pushcli c) = r1.ran ∙ ap ok (r1.same (omega arith)) in
    let r2 = Nested-Restored ny c2 (omega (arith, long)) (λ p. i2 ∙ m (omega arith)) in
    record {
      after = r2.after;
      ran = run-wrap xs ys c c2 inner popped ∙ r2.ran;
      same_depth = r2.same_depth ∙ d2;
      same_interrupts = r2.same_interrupts ∙ i2;
      same = λ p. r2.same (omega arith) ∙ s2 p;
    }
