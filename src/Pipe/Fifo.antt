-- ===== src/Pipe/Fifo.antt =====
-- pipe.c: the pipe as a queue of at most PIPESIZE bytes.
use os_assignment.Prelude.{
  ◌⊎◌, inl, inr, ℕ, zero, suc, ◌+◌, ◌-◌, ◌%◌, ◌^◌, ◌≤◌, ◌<◌, ◌≡◌, ◌≢◌, refl, ap, ap₂, ◌∙◌, sym,
  arith, min, Bool, true, false, not, ◌&&◌, ◌||◌, ◌==◌, Bool-cases, List, [], ◌∷◌, ◌++◌, get_or,
  set, length, length-set, get_or-set_self, get_or-set_ne, append-nil, append_assoc,
}
use os_assignment.Pipe.{
  Pipe, pipe_size, put, full, write, Write, wrote, write_failed, write_sleeps, copy, read, Read,
  got, read_failed, read_sleeps, on_nread, on_nwrite,
}

abbrev pub used : Pipe → ℕ
used p = (p.nwrite + 2 ^ 32 - p.nread) % 2 ^ 32

-- The `n` bytes from counter `h` on.
abbrev pub window : List ℕ → ℕ → ℕ → List ℕ
window bytes h zero = []
window bytes h (suc n) = get_or bytes (h % pipe_size) 0 ∷ window bytes ((h + 1) % 2 ^ 32) n

abbrev pub contents : Pipe → List ℕ
contents p = window p.bytes p.nread (used p)

pub record IsValid (p : Pipe) : Type 0 where
  pub sized : length p.bytes ≡ pipe_size
  pub nread_fits : p.nread < 2 ^ 32
  pub nwrite_fits : p.nwrite < 2 ^ 32
  pub bounded : used p ≤ pipe_size

pub length-window : (bytes : List ℕ) (h n : ℕ) → length (window bytes h n) ≡ n
length-window bytes h zero = refl
length-window bytes h (suc n) = ap suc (length-window bytes ((h + 1) % 2 ^ 32) n)

-- Writing just behind a window extends it by that byte.
window-set :
    (bytes : List ℕ) (x n h i : ℕ)
    → length bytes ≡ pipe_size
    → n < pipe_size
    → h < 2 ^ 32
    → i ≡ (h + n) % pipe_size
    → window (set bytes i x) h (suc n) ≡ window bytes h n ++ (x ∷ [])
window-set bytes x zero h i s b f e =
    let here : h % pipe_size ≡ i = omega arith in
    rw here (ap (λ k. k ∷ []) (get_or-set_self bytes i x 0 (omega arith)))
window-set bytes x (suc n) h i s b f e =
    ap₂ ◌∷◌ (get_or-set_ne bytes {i = i} {j = h % pipe_size} x 0 (omega arith))
      (window-set bytes x n ((h + 1) % 2 ^ 32) i s (omega arith) (omega arith) (omega arith))

put-IsValid :
    (p : Pipe) (x : ℕ)
    → IsValid p
    → full p ≡ false
    → IsValid (put p x) × (used (put p x) ≡ used p + 1)
unfolding put
put-IsValid p x v e =
    let room : p.nwrite ≢ (p.nread + pipe_size) % 2 ^ 32 = ground arith in
    (
      record {
        sized = length-set p.bytes (p.nwrite % pipe_size) x ∙ v.sized;
        nread_fits = v.nread_fits;
        nwrite_fits = omega arith;
        bounded = omega (arith, v.bounded, v.nread_fits, v.nwrite_fits);
      },
      omega (arith, v.bounded, v.nread_fits, v.nwrite_fits),
    )

contents-put :
    (p : Pipe) (x : ℕ) → IsValid p → full p ≡ false → contents (put p x) ≡ contents p ++ (x ∷ [])
unfolding put
contents-put p x v e =
    let room : p.nwrite ≢ (p.nread + pipe_size) % 2 ^ 32 = ground arith in
    let more : ((p.nwrite + 1) % 2 ^ 32 + 2 ^ 32 - p.nread) % 2 ^ 32 ≡ suc (used p) =
      omega (arith, v.bounded, v.nread_fits, v.nwrite_fits) in
    rw more (
      window-set p.bytes x (used p) p.nread (p.nwrite % pipe_size) v.sized
        (omega (arith, v.bounded, v.nread_fits, v.nwrite_fits)) v.nread_fits
        (omega (arith, v.bounded, v.nread_fits, v.nwrite_fits)))

module _ (p : Pipe) (v : IsValid p) where
  -- A byte leaves at the other end.
  contents_next :
      p.nread ≢ p.nwrite
      → contents p
        ≡ get_or p.bytes (p.nread % pipe_size) 0
          ∷ contents (record p { nread = (p.nread + 1) % 2 ^ 32 })
  contents_next ne =
      let less : used p ≡ suc (used (record p { nread = (p.nread + 1) % 2 ^ 32 })) =
        omega (arith, v.nread_fits, v.nwrite_fits) in
      rw less refl

  next-IsValid :
      p.nread ≢ p.nwrite
      → IsValid (record p { nread = (p.nread + 1) % 2 ^ 32 })
        × (used (record p { nread = (p.nread + 1) % 2 ^ 32 }) + 1 ≡ used p)
  next-IsValid ne = omega (arith, v.sized, v.nread_fits, v.nwrite_fits, v.bounded)

-- What a call of `write` did: it took the bytes `taken` and left the bytes `left`.
pub record Wrote (p : Pipe) (killed : Bool) (xs : List ℕ) (w : Write) : Type 0 where
  pub taken : List ℕ
  pub left : List ℕ
  pub split : xs ≡ taken ++ left
  pub count : length taken ≡ min (length xs) (pipe_size - used p)
  pub valid : IsValid w.pipe
  pub queued : contents w.pipe ≡ contents p ++ taken
  pub filled : used w.pipe ≡ used p + length taken
  pub ended :
      ((left ≡ []) × (w.end ≡ wrote) × (w.wakes ≡ on_nread ∷ []))
      ⊎ ((left ≢ []) × ((w.pipe.readopen ≡ false) ⊎ (killed ≡ true)) × (w.end ≡ write_failed))
      ⊎ ((left ≢ [])
          × (w.pipe.readopen ≡ true)
          × (killed ≡ false)
          × (w.end ≡ write_sleeps left)
          × (w.wakes ≡ on_nread ∷ []))

full_room : (p : Pipe) → IsValid p → full p ≡ true → used p ≡ pipe_size
full_room p v e =
    let at : p.nwrite ≡ (p.nread + pipe_size) % 2 ^ 32 = ground arith in
    omega (arith, v.nread_fits, v.nwrite_fits)

write-full :
    (x : ℕ) (xs : List ℕ) (p : Pipe) (killed : Bool)
    → IsValid p
    → full p ≡ true
    → Wrote p killed (x ∷ xs) (write p killed (x ∷ xs))
unfolding write
write-full x xs p killed v e = elim (Bool-cases (not p.readopen || killed)) [
  | inl f ↦
      rw (e, f)
        (record {
          taken = [];
          left = x ∷ xs;
          split = refl;
          count = none_fit;
          valid = v;
          queued = sym (append-nil (contents p));
          filled = omega arith;
          ended = inr (inl (cons_ne, ground arith, refl));
        })
  | inr f ↦
      rw (e, f)
        (record {
          taken = [];
          left = x ∷ xs;
          split = refl;
          count = none_fit;
          valid = v;
          queued = sym (append-nil (contents p));
          filled = omega arith;
          ended = inr (inr (cons_ne, ground arith, ground arith, refl, refl));
        })
]
  where
    none_fit : 0 ≡ min (length (x ∷ xs)) (pipe_size - used p)
    none_fit = omega (arith, full_room p v e)

    cons_ne : (x ∷ xs) ≢ []
    cons_ne q = cc

-- `write` on a valid pipe appends to the queue as many of its bytes as there is room for, in order. It
-- returns if these are all. Otherwise it fails if nobody reads or the caller is killed, and else wakes
-- the readers and sleeps with the bytes that are left. The pipe stays valid.
pub write-Wrote :
    (xs : List ℕ) (p : Pipe) (killed : Bool) → IsValid p → Wrote p killed xs (write p killed xs)
unfolding write
write-Wrote [] p killed v = record {
  taken = [];
  left = [];
  split = refl;
  count = omega arith;
  valid = v;
  queued = sym (append-nil (contents p));
  filled = omega arith;
  ended = inl (refl, refl, refl);
}
write-Wrote (x ∷ xs) p killed v = elim (Bool-cases (full p)) [
  | inl e ↦ write-full x xs p killed v e
  | inr e ↦
      let (v', more) = put-IsValid p x v e in
      let r = write-Wrote xs (put p x) killed v' in
      rw e (record {
        taken = x ∷ r.taken;
        left = r.left;
        split = ap (λ k. x ∷ k) r.split;
        count = omega (arith, r.count, more, v'.bounded);
        valid = r.valid;
        queued =
            r.queued
            ∙ ap (λ k. k ++ r.taken) (contents-put p x v e)
            ∙ append_assoc (contents p) (x ∷ []) r.taken;
        filled = omega (arith, r.filled, more);
        ended = r.ended;
      })
]

-- What a call of `read` did.
pub record DidRead (p : Pipe) (killed : Bool) (n : ℕ) (r : Read) : Type 0 where
  pub valid : IsValid r.pipe
  pub ended :
      ((taken : List ℕ) × (r.end ≡ got taken)
        × (length taken ≡ min n (used p))
        × (contents p ≡ taken ++ contents r.pipe)
        × (r.wakes ≡ on_nwrite ∷ [])
        × ((used p ≡ 0) → p.writeopen ≡ false))
      ⊎ ((used p ≡ 0)
          × (p.writeopen ≡ true)
          × (killed ≡ true)
          × (r.end ≡ read_failed)
          × (r.pipe ≡ p))
      ⊎ ((used p ≡ 0)
          × (p.writeopen ≡ true)
          × (killed ≡ false)
          × (r.end ≡ read_sleeps)
          × (r.pipe ≡ p))

copy_lem :
    (n : ℕ) (p : Pipe)
    → IsValid p
    → IsValid (copy p n).1
      × (length (copy p n).0 ≡ min n (used p))
      × (contents p ≡ (copy p n).0 ++ contents (copy p n).1)
unfolding copy
copy_lem zero p v = (v, omega arith, refl)
copy_lem (suc n) p v = elim (Bool-cases (p.nread == p.nwrite)) [
  | inl e ↦
      let same : p.nread ≡ p.nwrite = ground arith in
      let empty : used p ≡ 0 = omega (arith, v.nread_fits) in rw e (v, omega arith, refl)
  | inr e ↦
      let ne : p.nread ≢ p.nwrite = ground arith in
      let (v', less) = next-IsValid p v ne in
      let (v'', count, rest) = copy_lem n (record p { nread = (p.nread + 1) % 2 ^ 32 }) v' in
      rw e (
        v'',
        omega (arith, count, less),
        contents_next p v ne ∙ ap (λ k. get_or p.bytes (p.nread % pipe_size) 0 ∷ k) rest,
      )
]

-- `read` on a valid pipe takes as many bytes from the front of the queue as there are, at most `n`, and
-- wakes the writers. From an empty pipe it returns none only if nobody writes; otherwise it fails if the
-- caller is killed, and else sleeps, with the pipe unchanged. The pipe stays valid.
pub read-DidRead :
    (p : Pipe) (killed : Bool) (n : ℕ) → IsValid p → DidRead p killed n (read p killed n)
unfolding read
read-DidRead p killed n v = elim (Bool-cases (p.nread == p.nwrite && p.writeopen)) [
  | inl e ↦
      let same : p.nread ≡ p.nwrite = ground arith in
      let empty : used p ≡ 0 = omega (arith, v.nread_fits) in
      let open_ : p.writeopen ≡ true = ground arith in
      elim (Bool-cases killed) [
        | inl k ↦
            rw (e, k) (record { valid = v; ended = inr (inl (empty, open_, refl, refl, refl)) })
        | inr k ↦
            rw (e, k) (record { valid = v; ended = inr (inr (empty, open_, refl, refl, refl)) })
      ]
  | inr e ↦
      let (v', count, rest) = copy_lem n p v in
      let shut : used p ≡ 0 → p.writeopen ≡ false = λ z. closed z e in
      rw e (record { valid = v'; ended = inl ((copy p n).0, refl, count, rest, refl, shut) })
]
  where
    closed : used p ≡ 0 → (p.nread == p.nwrite && p.writeopen) ≡ false → p.writeopen ≡ false
    closed z e =
        let same : p.nread ≡ p.nwrite = omega (arith, v.nread_fits, v.nwrite_fits) in ground arith
