-- ===== src/Strings/Small.antt =====
-- string.c: strncpy leaves bytes.
use os_assignment.Prelude.{ℕ, zero, suc, ◌<◌, inl, inr, arith, ◌==◌, Bool-cases, update}
use os_assignment.Strings.{Mem, next, strncpy, zero_fill}

abbrev AllBytes : Mem → Type 0
AllBytes m = (a : ℕ) → m a < 256

update-small : (m : Mem) (p x : ℕ) → AllBytes m → x < 256 → AllBytes (update m p x)
update-small m p x b l a = ground (arith, b a, l)

zero_fill-small : (n s : ℕ) (m : Mem) → AllBytes m → AllBytes (zero_fill s n m)
unfolding zero_fill
zero_fill-small zero s m b a = b a
zero_fill-small (suc n) s m b a =
    zero_fill-small n (next s) (update m s 0) (update-small m s 0 b (omega arith)) a

-- What `strncpy` leaves is bytes, if memory held bytes.
pub strncpy-small :
    (s t n : ℕ) (m : Mem) → ((a : ℕ) → m a < 256) → (a : ℕ) → strncpy s t n m a < 256
unfolding strncpy
strncpy-small s t zero m b a = b a
strncpy-small s t (suc n) m b a =
    let b' = update-small m s (m t) b (b t) in
    elim (Bool-cases (m t == 0)) [
      | inl e ↦ rw e (zero_fill-small n (next s) (update m s (m t)) b' a)
      | inr e ↦ rw e (strncpy-small (next s) (next t) n (update m s (m t)) b' a)
    ]
