-- ===== src/Log/Commit.antt =====
-- log.c: `commit` and the recovery at boot, with the power failing after any disk write.
use native.Mathlib.Decide.{dec_lt}
use os_assignment.Prelude.{
  ℕ, ◌+◌, ◌≤◌, ◌<◌, ◌≡◌, refl, ap, ◌∙◌, List, [], ◌∷◌, arith, length, All, All-among, Among,
  Among-length, ◌⊎◌, inl, inr, Bool-cases, true, false, ltb,
}
use os_assignment.Disk.{Machine, Block, boot}
use os_assignment.Log.{
  Log, log_size, get_head, put_head, install_from, install_trans, write_log, write_log_from,
  write_head, read_head, recover_from_log, initlog, commit,
}
use os_assignment.Log.Header.{get_head-put_head, length-put_head}
use os_assignment.Log.Install.{
  power-write_log, Outside, Logged, Logged-congr, disk-install_off, power-install, write_log_ne,
  write_log-Logged,
}
use os_assignment.Log.Crash.{
  Cleared, Committed, put_header, put_header_off, put_header_self, put_header_ne,
  put_header-Cleared, finish, finish_lem, finish_powered,
}

module _ (start size : ℕ) where
  -- The disk after a boot whose power fails after `k` writes.
  unfoldable pub recovered : (ℕ → Block) → ℕ → ℕ → Block
  recovered d k = (initlog start size (boot d k)).1.disk

  -- Boots that are cut short, one after the other.
  pub recoveries : List ℕ → (ℕ → Block) → ℕ → Block
  recoveries [] d = d
  recoveries (k ∷ ks) d = recoveries ks (recovered d k)

  recovered-eq-finish :
      (d : ℕ → Block) (k : ℕ)
      → recovered d k ≡ (finish start size (get_head (d start)) (boot d k)).disk
  unfolding recovered initlog recover_from_log read_head install_trans write_head
  recovered-eq-finish d k = refl

  recovered-Cleared :
      (h d : ℕ → Block) (k : ℕ)
      → 0 < size
      → Cleared start size h d
      → Cleared start size h (recovered d k)
  unfolding install_from
  recovered-Cleared h d k z c =
      rw (recovered-eq-finish d k, c.empty)
        (elim (dec_lt 0 k) [
          | yes w ↦ put_header-Cleared start size h (boot d k) z (omega arith) c.homes
          | no off ↦ rw (put_header_off start size [] (boot d k) (omega arith)) c
        ])

  recovered-Committed :
      (new d : ℕ → Block) (bs : List ℕ) (k : ℕ)
      → Committed start size new bs d
      → Committed start size new bs (recovered d k) ⊎ Cleared start size new (recovered d k)
  recovered-Committed new d bs k c =
      rw (recovered-eq-finish d k, c.named) (finish_lem start size new bs (boot d k) c.logged c)

  recovered_powered :
      (new d : ℕ → Block) (bs : List ℕ) (k : ℕ)
      → log_size < k
      → Committed start size new bs d
      → Cleared start size new (recovered d k)
  recovered_powered new d bs k w c =
      rw (recovered-eq-finish d k, c.named)
        (finish_powered start size new bs (boot d k) c.logged c (omega (arith, c.small)))

  -- After any number of boots that are cut short, one that is not restores the blocks.
  pub recoveries-Cleared :
      (h d : ℕ → Block) (ks : List ℕ) (k : ℕ)
      → 0 < size
      → Cleared start size h d
      → Cleared start size h (recovered (recoveries ks d) k)
  unfolding recoveries
  recoveries-Cleared h d [] k z c = recovered-Cleared h d k z c
  recoveries-Cleared h d (j ∷ ks) k z c =
      recoveries-Cleared h (recovered d j) ks k z (recovered-Cleared h d j z c)

  pub recoveries-Committed :
      (new d : ℕ → Block) (bs ks : List ℕ) (k : ℕ)
      → log_size < k
      → Committed start size new bs d
      → Cleared start size new (recovered (recoveries ks d) k)
  unfolding recoveries
  recoveries-Committed new d bs [] k w c = recovered_powered new d bs k w c
  recoveries-Committed new d bs (j ∷ ks) k w c = elim (recovered-Committed new d bs j c) [
    | inl c' ↦ recoveries-Committed new (recovered d j) bs ks k w c'
    | inr c' ↦ recoveries-Cleared new (recovered d j) ks k (omega (arith, c.fits)) c'
  ]

-- The state in which `end_op` commits: the cache holds `new`, the disk `old`, and the log's list names
-- every block where they differ.
pub record Ready (l : Log) (old new : ℕ → Block) (m : Machine) : Type 0 where
  pub outside : All (Outside l.start l.size) l.blocks
  pub fits : length l.blocks < l.size
  pub small : length l.blocks ≤ log_size
  pub roomy : log_size < length (m.cache l.start)
  pub empty : get_head (m.disk l.start) ≡ []
  pub homes : (c : ℕ) → Outside l.start l.size c → m.disk c ≡ old c
  pub seen : (c : ℕ) → Outside l.start l.size c → m.cache c ≡ new c
  pub rest : (c : ℕ) → Outside l.start l.size c → Among c l.blocks ⊎ (old c ≡ new c)

module _ (l : Log) (old new : ℕ → Block) (m : Machine) (r : Ready l old new m) where
  abbrev logged : Machine
  logged = write_log_from l.start 0 l.blocks m

  abbrev headed : Machine
  headed = put_header l.start l.size l.blocks logged

  frame :
      (c : ℕ)
      → Outside l.start l.size c ⊎ (c ≡ l.start)
      → (logged.disk c ≡ m.disk c) × (logged.cache c ≡ m.cache c)
  frame c o = write_log_ne l.start 0 l.blocks m c (omega (arith, r.fits))

  log-Logged :
      Logged logged.cache new l.start 0 l.blocks
      × (0 < logged.power → Logged logged.disk new l.start 0 l.blocks)
  log-Logged =
      write_log-Logged l.start l.size new 0 l.blocks m r.outside (omega (arith, r.fits))
        (λ c a. r.seen c (All-among (Outside l.start l.size) l.blocks c r.outside a))

  headed-Committed : 0 < logged.power → Committed l.start l.size new l.blocks headed.disk
  headed-Committed w = record {
    named = rw head (get_head-put_head (logged.cache l.start) l.blocks room);
    roomy = rw head (rw (length-put_head (logged.cache l.start) l.blocks) room);
    fits = r.fits;
    small = r.small;
    outside = r.outside;
    logged =
        Logged-congr logged.disk headed.disk new l.start 0 l.blocks
          (λ i lo hi. put_header_ne l.start l.size l.blocks logged i (omega arith))
          (log-Logged.1 w);
    rest = λ c o. elim (r.rest c o) [ inl a ↦ inl a | inr e ↦ inr (same c o ∙ r.homes c o ∙ e) ];
  }
    where
      head : headed.disk l.start ≡ put_head (logged.cache l.start) l.blocks
      head = put_header_self l.start l.size l.blocks logged (omega arith)

      room : length l.blocks < length (logged.cache l.start)
      room = rw (frame l.start (inr refl)).1 (omega (arith, r.roomy, r.small))

      same : (c : ℕ) → Outside l.start l.size c → headed.disk c ≡ m.disk c
      same c o =
          put_header_ne l.start l.size l.blocks logged c (omega (arith, r.fits))
          ∙ (frame c (inl o)).0

  headed-Logged : Logged headed.cache new l.start 0 l.blocks
  headed-Logged =
      Logged-congr logged.cache headed.cache new l.start 0 l.blocks (λ i lo hi. ground arith)
        log-Logged.0

  -- A transaction that is not empty is logged, named in the header, installed and cleared.
  commit-eq-finish :
      ltb 0 (length l.blocks) ≡ true
      → (commit l m).1.disk ≡ (finish l.start l.size l.blocks headed).disk
  unfolding commit write_log write_head install_trans
  commit-eq-finish e = rw e

  commit_nothing : ltb 0 (length l.blocks) ≡ false → (commit l m).1.disk ≡ m.disk
  unfolding commit
  commit_nothing e = rw e

  old-Cleared :
      (d : ℕ → Block)
      → ((c : ℕ) → Outside l.start l.size c ⊎ (c ≡ l.start) → d c ≡ m.disk c)
      → Cleared l.start l.size old d
  old-Cleared d e = record {
    empty = rw (e l.start (inr refl)) r.empty;
    homes = λ c o. e c (inl o) ∙ r.homes c o;
  }

  off-Cleared :
      logged.power ≡ 0 → Cleared l.start l.size old (finish l.start l.size l.blocks headed).disk
  off-Cleared z =
      rw
        (put_header_off l.start l.size [] (install_from l.start 0 l.blocks headed)
          (omega (arith, power-install l.start 0 l.blocks headed, dead)))
        (old-Cleared (install_from l.start 0 l.blocks headed).disk (λ c o.
          disk-install_off l.start 0 l.blocks headed c dead
          ∙ ap (λ (f : ℕ → Block). f c) (put_header_off l.start l.size l.blocks logged z)
          ∙ (frame c o).0))
    where
      dead : headed.power ≡ 0
      dead = ground arith

  -- Wherever the power fails in `commit`, the disk holds the old contents or a whole transaction.
  pub commit_lem :
      Cleared l.start l.size old (commit l m).1.disk
      ⊎ Committed l.start l.size new l.blocks (commit l m).1.disk
      ⊎ Cleared l.start l.size new (commit l m).1.disk
  commit_lem = elim (Bool-cases (ltb 0 (length l.blocks))) [
    | inr e ↦ inl (rw (commit_nothing e) (old-Cleared m.disk (λ c o. refl)))
    | inl e ↦ rw (commit-eq-finish e) (elim (dec_lt 0 logged.power) [
      | no off ↦ inl (off-Cleared (omega arith))
      | yes w ↦
          inr (finish_lem l.start l.size new l.blocks headed headed-Logged (headed-Committed w))
    ])
  ]

  nothing_logged :
      (c : ℕ) → ltb 0 (length l.blocks) ≡ false → Outside l.start l.size c → old c ≡ new c
  nothing_logged c e o = elim (r.rest c o) [
    | inl a ↦ absurd (ground (arith, Among-length c l.blocks a))
    | inr q ↦ q
  ]

  -- With power for all its writes `commit` leaves the new contents in all blocks outside the log, and an
  -- empty log.
  pub commit_powered :
      length l.blocks + length l.blocks + 1 < m.power
      → Cleared l.start l.size new (commit l m).1.disk
  commit_powered w = elim (Bool-cases (ltb 0 (length l.blocks))) [
    | inr e ↦
        rw (commit_nothing e)
          (record { empty = r.empty; homes = λ c o. r.homes c o ∙ nothing_logged c e o })
    | inl e ↦
        let w1 : length l.blocks + 1 < logged.power =
          omega (arith, power-write_log l.start 0 l.blocks m) in
        rw (commit-eq-finish e) (
          finish_powered l.start l.size new l.blocks headed headed-Logged
            (headed-Committed (omega arith)) (ground arith))
  ]

-- A transaction survives a crash whole or not at all: if the power fails after any number of the disk
-- writes of `commit`, and again in any number of boots, then a boot with power for a full recovery
-- leaves all blocks outside the log as they were before the transaction, or all as it left them.
pub commit_atomic :
    (l : Log) (old new : ℕ → Block) (m : Machine) (boots : List ℕ) (k : ℕ)
    → Ready l old new m
    → log_size < k
    → let d = recovered l.start l.size (recoveries l.start l.size boots (commit l m).1.disk) k in
      ((c : ℕ) → Outside l.start l.size c → d c ≡ old c)
      ⊎ ((c : ℕ) → Outside l.start l.size c → d c ≡ new c)
commit_atomic l old new m boots k r w = elim (commit_lem l old new m r) [
  | inl a ↦ inl (recoveries-Cleared l.start l.size old _ boots k (omega (arith, r.fits)) a).homes
  | inr (inl b) ↦ inr (recoveries-Committed l.start l.size new _ l.blocks boots k w b).homes
  | inr (inr c) ↦
      inr (recoveries-Cleared l.start l.size new _ boots k (omega (arith, r.fits)) c).homes
]
