-- ===== src/Log/Crash.antt =====
-- log.c: the power may fail after any disk write of `commit`, and again during any recovery.
use os_assignment.Prelude.{
  ℕ, ◌+◌, ◌≤◌, ◌<◌, ◌≡◌, ◌≢◌, ap, ◌∙◌, List, [], arith, length, All, All-among, Among, ◌⊎◌, inl,
  inr,
}
use native.Mathlib.Decide.{dec_lt}
use os_assignment.Disk.{Machine, Block, store, bwrite}
use os_assignment.Log.{log_size, get_head, put_head, install_from}
use os_assignment.Log.Header.{get_head-clear}
use os_assignment.Log.Install.{
  Outside, Logged, Logged-congr, power-install, disk-install_ne, disk-install_keep,
  disk-install_home,
}

module _ (start size : ℕ) where
  -- No transaction is in the log, and the home blocks are `h`.
  pub record Cleared (h d : ℕ → Block) : Type 0 where
    pub empty : get_head (d start) ≡ []
    pub homes : (c : ℕ) → Outside start size c → d c ≡ h c

  -- The transaction is in the log, and only blocks that it names may differ from `new`.
  pub record Committed (new : ℕ → Block) (bs : List ℕ) (d : ℕ → Block) : Type 0 where
    pub named : get_head (d start) ≡ bs
    pub roomy : length bs < length (d start)
    pub fits : length bs < size
    pub small : length bs ≤ log_size
    pub outside : All (Outside start size) bs
    pub logged : Logged d new start 0 bs
    pub rest : (c : ℕ) → Outside start size c → Among c bs ⊎ (d c ≡ new c)

  -- The header block is not a home, and no log block is.
  start-not-Among : (bs : List ℕ) → 0 < size → All (Outside start size) bs → ¬ Among start bs
  start-not-Among bs h o a = omega (arith, All-among (Outside start size) bs start o a)

  log-not-Among :
      (bs : List ℕ) (i : ℕ)
      → start < i
      → i ≤ start + length bs
      → length bs < size
      → All (Outside start size) bs
      → ¬ Among i bs
  log-not-Among bs i lo hi h o a = omega (arith, All-among (Outside start size) bs i o a)

  -- `write_head`, from a log at `start`.
  abbrev pub put_header : List ℕ → Machine → Machine
  put_header bs m = bwrite (store m start (put_head (m.cache start) bs)) start

  pub put_header_off : (bs : List ℕ) (m : Machine) → m.power ≡ 0 → (put_header bs m).disk ≡ m.disk
  put_header_off bs m h = ground arith

  pub put_header_self :
      (bs : List ℕ) (m : Machine)
      → m.power ≢ 0
      → (put_header bs m).disk start ≡ put_head (m.cache start) bs
  put_header_self bs m h = ground arith

  pub put_header_ne :
      (bs : List ℕ) (m : Machine) (c : ℕ) → start ≢ c → (put_header bs m).disk c ≡ m.disk c
  put_header_ne bs m c h = ground arith

  -- Clearing the header on a disk whose homes are `h`.
  pub put_header-Cleared :
      (h : ℕ → Block) (m : Machine)
      → 0 < size
      → m.power ≢ 0
      → ((c : ℕ) → Outside start size c → m.disk c ≡ h c)
      → Cleared h (put_header [] m).disk
  put_header-Cleared h m z w e = record {
    empty = rw (put_header_self [] m w) (get_head-clear (m.cache start));
    homes = λ c o. put_header_ne [] m c (omega arith) ∙ e c o;
  }

  -- `install_trans` and the write that clears the header, from a committed disk.
  abbrev pub finish : List ℕ → Machine → Machine
  finish bs m = put_header [] (install_from start 0 bs m)

  module _ (new : ℕ → Block) (bs : List ℕ) (m : Machine) where
    install-Committed :
        Logged m.cache new start 0 bs
        → Committed new bs m.disk
        → Committed new bs (install_from start 0 bs m).disk
    install-Committed lg c = record {
      named = ap get_head same ∙ c.named;
      roomy = rw same c.roomy;
      fits = c.fits;
      small = c.small;
      outside = c.outside;
      logged =
          Logged-congr m.disk (install_from start 0 bs m).disk new start 0 bs
            (λ i lo hi.
              disk-install_ne start 0 bs m i
                (log-not-Among bs i (omega arith) (omega arith) c.fits c.outside))
            c.logged;
      rest = λ i o. elim (c.rest i o) [
        | inl a ↦ inl a
        | inr e ↦
            inr (disk-install_keep start size new 0 bs m i c.outside (omega (arith, c.fits)) lg e)
      ];
    }
      where
        same : (install_from start 0 bs m).disk start ≡ m.disk start
        same =
            disk-install_ne start 0 bs m start
              (start-not-Among bs (omega (arith, c.fits)) c.outside)

    install-homes :
        Logged m.cache new start 0 bs
        → Committed new bs m.disk
        → 0 < (install_from start 0 bs m).power
        → (c : ℕ) → Outside start size c
        → (install_from start 0 bs m).disk c ≡ new c
    install-homes lg k w c o = elim (k.rest c o) [
      | inl a ↦ disk-install_home start size new 0 bs m c k.outside (omega (arith, k.fits)) lg w a
      | inr e ↦ disk-install_keep start size new 0 bs m c k.outside (omega (arith, k.fits)) lg e
    ]

    finish_on :
        Logged m.cache new start 0 bs
        → Committed new bs m.disk
        → 0 < (install_from start 0 bs m).power
        → Cleared new (finish bs m).disk
    finish_on lg k w =
        put_header-Cleared new (install_from start 0 bs m) (omega (arith, k.fits)) (omega arith)
          (install-homes lg k w)

    -- However much power is left, the disk stays committed or ends up cleared with the new contents.
    pub finish_lem :
        Logged m.cache new start 0 bs
        → Committed new bs m.disk
        → Committed new bs (finish bs m).disk ⊎ Cleared new (finish bs m).disk
    finish_lem lg k = elim (dec_lt 0 (install_from start 0 bs m).power) [
      | yes w ↦ inr (finish_on lg k w)
      | no off ↦ inl (
          rw (put_header_off [] (install_from start 0 bs m) (omega arith)) (install-Committed lg k))
    ]

    pub finish_powered :
        Logged m.cache new start 0 bs
        → Committed new bs m.disk
        → length bs < m.power
        → Cleared new (finish bs m).disk
    finish_powered lg k w = finish_on lg k (omega (arith, power-install start 0 bs m))
