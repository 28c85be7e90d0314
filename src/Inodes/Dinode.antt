-- ===== src/Inodes/Dinode.antt =====
-- fs.c, fs.h: the inode in its block, as iupdate stores it and ilock loads it.
use os_assignment.Prelude.{
  ℕ, ◌+◌, ◌-◌, ◌*◌, ◌/◌, ◌%◌, ◌^◌, ◌<◌, ◌≤◌, ◌≡◌, ◌≢◌, ◌⊎◌, inl, inr, refl, ap, ◌∙◌, sym, arith,
  true, ltb, leb, ◌&&◌, Bool-cases,
}
use os_assignment.Inodes.{Inode, byte_of, get_short, get_word, dinode_byte, put_dinode, get_dinode}

module _ (bytes : ℕ → ℕ) (i : ℕ) (ip : Inode) where
  stored_byte : (k : ℕ) → k < 64 → put_dinode bytes i ip (i + k) ≡ dinode_byte ip k
  stored_byte k l =
      let back : i + k - i ≡ k = omega arith in
      let inside : (leb i (i + k) && ltb (i + k) (i + 64)) ≡ true = ground (arith, l) in
      rw inside (rw back refl)

  other_byte : (j : ℕ) → (j < i) ⊎ (i + 64 ≤ j) → put_dinode bytes i ip j ≡ bytes j
  other_byte j (inl l) = ground (arith, l)
  other_byte j (inr l) = ground (arith, l)

  -- Byte `j` of the address `k`.
  addr_byte :
      (k j : ℕ)
      → k < 13
      → j < 4
      → put_dinode bytes i ip (i + 12 + 4 * k + j) ≡ byte_of (ip.addrs k) j
  addr_byte k j l l' =
      let place : i + 12 + 4 * k + j ≡ i + (12 + 4 * k + j) = omega arith in
      let slot : (12 + 4 * k + j - 12) / 4 ≡ k = omega arith in
      let byte : (12 + 4 * k + j - 12) % 4 ≡ j = omega arith in
      ap (put_dinode bytes i ip) place
      ∙ stored_byte (12 + 4 * k + j) (omega arith)
      ∙ ground (arith, slot, byte)

  addr_word :
      (k : ℕ)
      → k < 13
      → ip.addrs k < 2 ^ 32
      → get_word (put_dinode bytes i ip) (i + 12 + 4 * k) ≡ ip.addrs k
  addr_word k l w =
      let first : put_dinode bytes i ip (i + 12 + 4 * k) ≡ byte_of (ip.addrs k) 0 =
        ap (put_dinode bytes i ip) (omega arith) ∙ addr_byte k 0 l (omega arith) in
      omega (
        arith,
        first,
        addr_byte k 1 l (omega arith),
        addr_byte k 2 l (omega arith),
        addr_byte k 3 l (omega arith),
        w,
      )

  short_at :
      (k x : ℕ)
      → k + 1 < 64
      → x < 2 ^ 16
      → dinode_byte ip k ≡ byte_of x 0
      → dinode_byte ip (k + 1) ≡ byte_of x 1
      → get_short (put_dinode bytes i ip) (i + k) ≡ x
  short_at k x l w e e' =
      let next : put_dinode bytes i ip (i + k + 1) ≡ byte_of x 1 =
        ap (put_dinode bytes i ip) (omega arith) ∙ stored_byte (k + 1) l ∙ e' in
      omega (arith, stored_byte k (omega arith) ∙ e, next, w)

-- The fields of an inode fit into its places on disk.
pub record Fits (ip : Inode) : Type 0 where
  pub type_ : ip.type < 2 ^ 16
  pub major_ : ip.major < 2 ^ 16
  pub minor_ : ip.minor < 2 ^ 16
  pub nlink_ : ip.nlink < 2 ^ 16
  pub size_ : ip.size < 2 ^ 32
  pub addrs_ : (k : ℕ) → k < 13 → ip.addrs k < 2 ^ 32

-- Two inodes have the same fields on disk.
pub record SameDinode (ip jp : Inode) : Type 0 where
  pub type_ : ip.type ≡ jp.type
  pub major_ : ip.major ≡ jp.major
  pub minor_ : ip.minor ≡ jp.minor
  pub nlink_ : ip.nlink ≡ jp.nlink
  pub size_ : ip.size ≡ jp.size
  pub addrs_ : (k : ℕ) → k < 13 → ip.addrs k ≡ jp.addrs k

get_short-eq :
    (g h : ℕ → ℕ) (i : ℕ) → g i ≡ h i → g (i + 1) ≡ h (i + 1) → get_short g i ≡ get_short h i
get_short-eq g h i a b = omega arith

get_word-eq :
    (g h : ℕ → ℕ) (i : ℕ)
    → g i ≡ h i
    → g (i + 1) ≡ h (i + 1)
    → g (i + 2) ≡ h (i + 2)
    → g (i + 3) ≡ h (i + 3)
    → get_word g i ≡ get_word h i
get_word-eq g h i a b c d = omega arith

four_bytes :
    (g : ℕ → ℕ) (i x : ℕ)
    → x < 2 ^ 32
    → g i ≡ byte_of x 0
    → g (i + 1) ≡ byte_of x 1
    → g (i + 2) ≡ byte_of x 2
    → g (i + 3) ≡ byte_of x 3
    → get_word g i ≡ x
four_bytes g i x w a b c d = omega arith

size_at :
    (bytes : ℕ → ℕ) (i : ℕ) (ip : Inode)
    → ip.size < 2 ^ 32
    → get_word (put_dinode bytes i ip) (i + 8) ≡ ip.size
size_at bytes i ip w =
    four_bytes (put_dinode bytes i ip) (i + 8) ip.size w (stored_byte bytes i ip 8 (omega arith))
      (byte 9 (omega arith) (omega arith)) (byte 10 (omega arith) (omega arith))
      (byte 11 (omega arith) (omega arith))
  where
    byte : (k : ℕ) → 8 ≤ k → k < 12 → put_dinode bytes i ip (i + 8 + (k - 8)) ≡ dinode_byte ip k
    byte k l l' = ap (put_dinode bytes i ip) (omega arith) ∙ stored_byte bytes i ip k (omega arith)

-- What `iupdate` stores in the block of an inode, `ilock` loads again, whatever the copy in memory held;
-- and the other inodes of the block, which stand 64 bytes apart, are loaded as before.
pub get_dinode-put_dinode :
    (bytes : ℕ → ℕ) (i j : ℕ) (ip jp : Inode)
    → Fits ip
    → SameDinode (get_dinode (put_dinode bytes (64 * i) ip) (64 * i) jp) ip
      × (i ≢ j
          → SameDinode
              (get_dinode (put_dinode bytes (64 * i) ip) (64 * j) jp)
              (get_dinode bytes (64 * j) jp))
get_dinode-put_dinode bytes i j ip jp w = (
  record {
    type_ =
        ap (get_short (put_dinode bytes (64 * i) ip)) (omega arith)
        ∙ short_at bytes (64 * i) ip 0 ip.type (omega arith) w.type_ refl refl;
    major_ = short_at bytes (64 * i) ip 2 ip.major (omega arith) w.major_ refl refl;
    minor_ = short_at bytes (64 * i) ip 4 ip.minor (omega arith) w.minor_ refl refl;
    nlink_ = short_at bytes (64 * i) ip 6 ip.nlink (omega arith) w.nlink_ refl refl;
    size_ = size_at bytes (64 * i) ip w.size_;
    addrs_ = λ k l. addr_word bytes (64 * i) ip k l (w.addrs_ k l);
  },
  λ ne. record {
    type_ = short_other ne (64 * j) 0 (omega arith) (omega arith);
    major_ = short_other ne (64 * j + 2) 2 refl (omega arith);
    minor_ = short_other ne (64 * j + 4) 4 refl (omega arith);
    nlink_ = short_other ne (64 * j + 6) 6 refl (omega arith);
    size_ = word_other ne (64 * j + 8) 8 refl (omega arith);
    addrs_ = λ k l. word_other ne (64 * j + 12 + 4 * k) (12 + 4 * k) (omega arith) (omega arith);
  },
)
  where
    apart : i ≢ j → (k : ℕ) → k < 64 → (64 * j + k < 64 * i) ⊎ (64 * i + 64 ≤ 64 * j + k)
    apart ne k l = elim (Bool-cases (ltb j i)) [
      | inl t ↦ inl (ground (arith, t, l))
      | inr t ↦ inr (ground (arith, t, l, ne))
    ]

    same : i ≢ j → (q k : ℕ) → q ≡ 64 * j + k → k < 64 → put_dinode bytes (64 * i) ip q ≡ bytes q
    same ne q k e l =
        ap (put_dinode bytes (64 * i) ip) e
        ∙ other_byte bytes (64 * i) ip (64 * j + k) (apart ne k l)
        ∙ ap bytes (sym e)

    short_other :
        i ≢ j
        → (q k : ℕ) → q ≡ 64 * j + k
        → k + 1 < 64
        → get_short (put_dinode bytes (64 * i) ip) q ≡ get_short bytes q
    short_other ne q k e l =
        get_short-eq (put_dinode bytes (64 * i) ip) bytes q (same ne q k e (omega arith))
          (same ne (q + 1) (k + 1) (omega arith) l)

    word_other :
        i ≢ j
        → (q k : ℕ) → q ≡ 64 * j + k
        → k + 3 < 64
        → get_word (put_dinode bytes (64 * i) ip) q ≡ get_word bytes q
    word_other ne q k e l =
        get_word-eq (put_dinode bytes (64 * i) ip) bytes q (same ne q k e (omega arith))
          (same ne (q + 1) (k + 1) (omega arith) (omega arith))
          (same ne (q + 2) (k + 2) (omega arith) (omega arith))
          (same ne (q + 3) (k + 3) (omega arith) l)
