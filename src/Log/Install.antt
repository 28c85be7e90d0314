-- ===== src/Log/Install.antt =====
-- The two copying loops of log.c, `install_trans` and `write_log`: what they write, what they leave
-- alone, and how many disk writes they take.
use os_assignment.Prelude.{
  ℕ, ◌+◌, ◌-◌, ◌≤◌, ◌<◌, ◌≡◌, refl, ap, ◌∙◌, List, [], ◌∷◌, arith, length, All, All-among, Among,
  ◌⊎◌, inl, inr, update, update_self, update_ne,
}
use os_assignment.Disk.{
  Machine, Block, store, bwrite, disk-bwrite_self, disk-bwrite_ne, cache-bwrite, power-bwrite,
}
use os_assignment.Log.{install_from, write_log_from}

-- Block `b` is no block of a log of `size` blocks at `start`.
abbrev pub Outside : ℕ → ℕ → ℕ → Type 0
Outside start size b = (b < start) ⊎ (start + size ≤ b)

-- The log blocks from `tail` on hold the new contents of the blocks `bs`.
abbrev pub Logged : (ℕ → Block) → (ℕ → Block) → ℕ → ℕ → List ℕ → Type 0
Logged f new start tail [] = Unit
Logged f new start tail (b ∷ bs) = (f (start + tail + 1) ≡ new b) × Logged f new start (tail + 1) bs

pub Logged-congr :
    (f g new : ℕ → Block) (start tail : ℕ) (bs : List ℕ)
    → ((i : ℕ) → start + tail < i → i ≤ start + tail + length bs → g i ≡ f i)
    → Logged f new start tail bs
    → Logged g new start tail bs
Logged-congr f g new start tail [] h p = tt
Logged-congr f g new start tail (b ∷ bs) h p = (
  h (start + tail + 1) (omega arith) (omega arith) ∙ p.0,
  Logged-congr f g new start (tail + 1) bs (λ i lo hi. h i (omega arith) (omega arith)) p.1,
)

module _ (start : ℕ) where
  pub power-install :
      (tail : ℕ) (bs : List ℕ) (m : Machine)
      → (install_from start tail bs m).power ≡ m.power - length bs
  unfolding install_from
  power-install tail [] m = omega arith
  power-install tail (b ∷ bs) m =
      let m1 = store m b (m.cache (start + tail + 1)) in
      omega (arith, power-install (tail + 1) bs (bwrite m1 b), power-bwrite m1 b)

  -- Without power the disk stays as it is.
  pub disk-install_off :
      (tail : ℕ) (bs : List ℕ) (m : Machine) (c : ℕ)
      → m.power ≡ 0
      → (install_from start tail bs m).disk c ≡ m.disk c
  unfolding install_from
  disk-install_off tail [] m c h = refl
  disk-install_off tail (b ∷ bs) m c h =
      let m1 = store m b (m.cache (start + tail + 1)) in
      disk-install_off (tail + 1) bs (bwrite m1 b) c (omega (arith, power-bwrite m1 b))
      ∙ ground arith

  pub disk-install_ne :
      (tail : ℕ) (bs : List ℕ) (m : Machine) (c : ℕ)
      → ¬ Among c bs
      → (install_from start tail bs m).disk c ≡ m.disk c
  unfolding install_from
  disk-install_ne tail [] m c h = refl
  disk-install_ne tail (b ∷ bs) m c h =
      let m1 = store m b (m.cache (start + tail + 1)) in
      disk-install_ne (tail + 1) bs (bwrite m1 b) c (λ a. h (inr a))
      ∙ disk-bwrite_ne m1 b c (λ e. h (inl e))

  pub cache-install_ne :
      (tail : ℕ) (bs : List ℕ) (m : Machine) (c : ℕ)
      → ¬ Among c bs
      → (install_from start tail bs m).cache c ≡ m.cache c
  unfolding install_from
  cache-install_ne tail [] m c h = refl
  cache-install_ne tail (b ∷ bs) m c h =
      let m1 = store m b (m.cache (start + tail + 1)) in
      cache-install_ne (tail + 1) bs (bwrite m1 b) c (λ a. h (inr a))
      ∙ ap (λ (f : ℕ → Block). f c) (cache-bwrite m1 b)
      ∙ update_ne m.cache _ (λ e. h (inl e))

  module _ (size : ℕ) (new : ℕ → Block) where
    Logged-bwrite :
        (m : Machine) (v : Block) (tail b : ℕ) (bs : List ℕ)
        → Outside start size b
        → tail + length bs < size
        → Logged m.cache new start tail bs
        → Logged (bwrite (store m b v) b).cache new start tail bs
    Logged-bwrite m v tail b bs o h p = rw (cache-bwrite (store m b v) b) (
        Logged-congr m.cache (update m.cache b v) new start tail bs
          (λ i lo hi. update_ne m.cache {i = b} {j = i} v (omega arith)) p)

    bwrite_new :
        (m : Machine) (v : Block) (b c : ℕ)
        → v ≡ new b
        → m.disk c ≡ new c
        → (bwrite (store m b v) b).disk c ≡ new c
    bwrite_new m v b c p e = ground arith

    -- A home that holds its new contents keeps them.
    pub disk-install_keep :
        (tail : ℕ) (bs : List ℕ) (m : Machine) (c : ℕ)
        → All (Outside start size) bs
        → tail + length bs < size
        → Logged m.cache new start tail bs
        → m.disk c ≡ new c
        → (install_from start tail bs m).disk c ≡ new c
    unfolding install_from
    disk-install_keep tail [] m c o h p e = e
    disk-install_keep tail (b ∷ bs) m c o h p e =
        let v = m.cache (start + tail + 1) in
        disk-install_keep (tail + 1) bs (bwrite (store m b v) b) c o.1 (omega arith)
          (Logged-bwrite m v (tail + 1) b bs o.0 (omega arith) p.1) (bwrite_new m v b c p.0 e)

    -- With power left over every logged block has reached its home.
    pub disk-install_home :
        (tail : ℕ) (bs : List ℕ) (m : Machine) (c : ℕ)
        → All (Outside start size) bs
        → tail + length bs < size
        → Logged m.cache new start tail bs
        → 0 < (install_from start tail bs m).power
        → Among c bs
        → (install_from start tail bs m).disk c ≡ new c
    unfolding install_from
    disk-install_home tail [] m c o h p w a = absurd a
    disk-install_home tail (b ∷ bs) m c o h p w (inr a) =
        let v = m.cache (start + tail + 1) in
        disk-install_home (tail + 1) bs (bwrite (store m b v) b) c o.1 (omega arith)
          (Logged-bwrite m v (tail + 1) b bs o.0 (omega arith) p.1) w a
    disk-install_home tail (b ∷ bs) m c o h p w (inl e) =
        let v = m.cache (start + tail + 1) in
        let m1 = bwrite (store m b v) b in
        disk-install_keep (tail + 1) bs m1 c o.1 (omega arith)
          (Logged-bwrite m v (tail + 1) b bs o.0 (omega arith) p.1)
          (written m v b c e p.0
            (omega (arith, power-install (tail + 1) bs m1, power-bwrite (store m b v) b)))
      where
        written :
            (m : Machine) (v : Block) (b c : ℕ)
            → b ≡ c
            → v ≡ new b
            → 0 < m.power
            → (bwrite (store m b v) b).disk c ≡ new c
        written m v b c e p w = ground arith

  -- `write_log` writes in the log area only.
  pub power-write_log :
      (tail : ℕ) (bs : List ℕ) (m : Machine)
      → (write_log_from start tail bs m).power ≡ m.power - length bs
  unfolding write_log_from
  power-write_log tail [] m = omega arith
  power-write_log tail (b ∷ bs) m =
      let m1 = store m (start + tail + 1) (m.cache b) in
      omega (
        arith,
        power-write_log (tail + 1) bs (bwrite m1 (start + tail + 1)),
        power-bwrite m1 (start + tail + 1),
      )

  pub write_log_ne :
      (tail : ℕ) (bs : List ℕ) (m : Machine) (c : ℕ)
      → (c ≤ start + tail) ⊎ (start + tail + length bs < c)
      → ((write_log_from start tail bs m).disk c ≡ m.disk c)
        × ((write_log_from start tail bs m).cache c ≡ m.cache c)
  unfolding write_log_from
  write_log_ne tail [] m c h = (refl, refl)
  write_log_ne tail (b ∷ bs) m c h =
      let m1 = store m (start + tail + 1) (m.cache b) in
      ground (arith, write_log_ne (tail + 1) bs (bwrite m1 (start + tail + 1)) c)

  module _ (size : ℕ) (new : ℕ → Block) where
    write_log-round :
        (tail b : ℕ) (bs : List ℕ) (m : Machine)
        → All (Outside start size) (b ∷ bs)
        → tail + length (b ∷ bs) < size
        → ((c : ℕ) → Among c (b ∷ bs) → m.cache c ≡ new c)
        → let at = start + tail + 1 in
          let m1 = bwrite (store m at (m.cache b)) at in
          let m' = write_log_from start (tail + 1) bs m1 in
          ((c : ℕ) → Among c bs → m1.cache c ≡ new c)
          × (m'.cache at ≡ new b)
          × (0 < m'.power → m'.disk at ≡ new b)
    write_log-round tail b bs m o h n = (homes, frame.1 ∙ cached, λ w. frame.0 ∙ written w)
      where
        at : ℕ
        at = start + tail + 1

        m0 : Machine
        m0 = store m at (m.cache b)

        m1 : Machine
        m1 = bwrite m0 at

        homes : (c : ℕ) → Among c bs → m1.cache c ≡ new c
        homes c a =
            ap (λ (f : ℕ → Block). f c) (cache-bwrite m0 at)
            ∙ update_ne m.cache {i = at} {j = c} _
                (omega (arith, All-among (Outside start size) bs c o.1 a))
            ∙ n c (inr a)

        frame :
            ((write_log_from start (tail + 1) bs m1).disk at ≡ m1.disk at)
            × ((write_log_from start (tail + 1) bs m1).cache at ≡ m1.cache at)
        frame = write_log_ne (tail + 1) bs m1 at (inl (omega arith))

        cached : m1.cache at ≡ new b
        cached =
            ap (λ (f : ℕ → Block). f at) (cache-bwrite m0 at)
            ∙ update_self m.cache at (m.cache b)
            ∙ n b (inl refl)

        written : 0 < (write_log_from start (tail + 1) bs m1).power → m1.disk at ≡ new b
        written w =
            disk-bwrite_self m0 at
              (omega (arith, power-write_log (tail + 1) bs m1, power-bwrite m0 at))
            ∙ update_self m.cache at (m.cache b)
            ∙ n b (inl refl)

    -- After `write_log` the log blocks hold the new contents: in the cache, and with power left over
    -- on the disk.
    pub write_log-Logged :
        (tail : ℕ) (bs : List ℕ) (m : Machine)
        → All (Outside start size) bs
        → tail + length bs < size
        → ((c : ℕ) → Among c bs → m.cache c ≡ new c)
        → Logged (write_log_from start tail bs m).cache new start tail bs
          × (0 < (write_log_from start tail bs m).power
              → Logged (write_log_from start tail bs m).disk new start tail bs)
    unfolding write_log_from
    write_log-Logged tail [] m o h n = (tt, λ w. tt)
    write_log-Logged tail (b ∷ bs) m o h n =
        let at = start + tail + 1 in
        let m1 = bwrite (store m at (m.cache b)) at in
        let (homes, cached, written) = write_log-round tail b bs m o h n in
        let rest = write_log-Logged (tail + 1) bs m1 o.1 (omega arith) homes in
        ((cached, rest.0), λ w. (written w, rest.1 w))
