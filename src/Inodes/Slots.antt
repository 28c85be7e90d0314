-- ===== src/Inodes/Slots.antt =====
-- fs.c: the blocks of an inode by their slots, and what a new block in an empty slot changes.
use native.Mathlib.Decide.{ℕ_discrete}
use os_assignment.Prelude.{
  ℕ, ◌-◌, ◌*◌, ◌/◌, ◌%◌, ◌^◌, ◌<◌, ◌≤◌, ◌≡◌, ◌≢◌, refl, ap, ◌∙◌, sym, arith, Bool, true, false, not,
  ◌&&◌, ltb, ◌==◌, if◌then◌else◌,
}
use os_assignment.Blocks.{Super, Fs, bsize, bblock}
use os_assignment.Blocks.Map.{is_free, Bytes}
use os_assignment.Blocks.Alloc.{Taken}
use os_assignment.Inodes.{Inode, ndirect, max_file, get_word}

-- The block numbers of an inode: those of its data below `max_file`, and at `max_file` that of its
-- indirect block. 0 is an empty slot.
abbrev pub slot : Fs → Inode → ℕ → ℕ
slot f ip s =
    if ltb s ndirect
    then ip.addrs s
    else if s == max_file
    then ip.addrs ndirect
    else if ip.addrs ndirect == 0
    then 0
    else get_word (f.blocks (ip.addrs ndirect)) (4 * (s - ndirect))

-- Byte `o` of the data of an inode; where no block was written yet it is 0.
abbrev pub byte_at : Fs → ℕ → ℕ → ℕ
byte_at f a i = if a == 0 then 0 else f.blocks a i

abbrev pub content : Fs → Inode → ℕ → ℕ
content f ip o = byte_at f (slot f ip (o / bsize)) (o % bsize)

-- A block that is in use and holds data or anything else but the free map.
pub record Used (sb : Super) (f : Fs) (d : ℕ) : Type 0 where
  pub inside : d < sb.size
  pub taken : is_free sb f d ≡ false
  pub no_map : (e : ℕ) → e < sb.size → bblock sb e ≢ d

pub record InodeOk (sb : Super) (f : Fs) (ip : Inode) : Type 0 where
  pub bytes : Bytes f
  pub small : sb.size < 2 ^ 32
  pub apart : (c d : ℕ) → c < sb.size → is_free sb f c ≡ true → d < sb.size → bblock sb d ≢ c
  pub boot : is_free sb f 0 ≡ false
  pub used : (s : ℕ) → s ≤ max_file → slot f ip s ≢ 0 → Used sb f (slot f ip s)
  pub distinct :
      (s t : ℕ) → s ≤ max_file → t ≤ max_file → s ≢ t → slot f ip s ≡ slot f ip t → slot f ip s ≡ 0

-- A block in use by others.
pub record Foreign (sb : Super) (f : Fs) (ip : Inode) (d : ℕ) : Type 0 where
  pub is_used : Used sb f d
  pub elsewhere : (s : ℕ) → s ≤ max_file → slot f ip s ≢ d

-- From (f, ip) to (f', ip') the inode may have got new blocks, and nothing else that shows has changed.
pub record Grown (sb : Super) (f : Fs) (ip : Inode) (f' : Fs) (ip' : Inode) : Type 0 where
  pub okay : InodeOk sb f' ip'
  pub contents : (o : ℕ) → o / bsize < max_file → content f' ip' o ≡ content f ip o
  pub fields : ip' ≡ record ip { addrs = ip'.addrs }
  pub kept_slots : (s : ℕ) → s ≤ max_file → slot f ip s ≢ 0 → slot f' ip' s ≡ slot f ip s
  pub foreign : (d : ℕ) → Foreign sb f ip d → Foreign sb f' ip' d × (f'.blocks d ≡ f.blocks d)

-- A slot that is not empty is not empty later.
pub still_some :
    (f f' : Fs) (ip ip' : Inode) (s : ℕ)
    → (slot f ip s ≢ 0 → slot f' ip' s ≡ slot f ip s)
    → slot f ip s ≢ 0
    → slot f' ip' s ≢ 0
still_some f f' ip ip' s h nz e = nz (sym (h nz) ∙ e)

pub Grown-trans :
    (sb : Super) (f f' f'' : Fs) (ip ip' ip'' : Inode)
    → Grown sb f ip f' ip'
    → Grown sb f' ip' f'' ip''
    → Grown sb f ip f'' ip''
Grown-trans sb f f' f'' ip ip' ip'' g h = record {
  okay = h.okay;
  contents = λ o l. h.contents o l ∙ g.contents o l;
  fields = h.fields ∙ ap (λ (i : Inode). record i { addrs = ip''.addrs }) g.fields;
  kept_slots = λ s l nz.
      h.kept_slots s l (still_some f f' ip ip' s (g.kept_slots s l) nz) ∙ g.kept_slots s l nz;
  foreign = λ d a. let (b, e) = g.foreign d a in let (c, e') = h.foreign d b in (c, e' ∙ e);
}

pub Grown-refl : (sb : Super) (f : Fs) (ip : Inode) → InodeOk sb f ip → Grown sb f ip f ip
Grown-refl sb f ip o = record {
  okay = o;
  contents = λ k l. refl;
  fields = refl;
  kept_slots = λ s l nz. refl;
  foreign = λ d a. (a, refl);
}

-- Block `c`, which `balloc` has handed out in `f1`, was put into the empty slot `s0`.
pub record Filled (sb : Super) (f : Fs) (ip : Inode) (s0 c : ℕ) (f1 f' : Fs) (ip' : Inode)
    : Type 0 where
  pub taken : Taken sb f c f1
  pub within : s0 ≤ max_file
  pub empty : slot f ip s0 ≡ 0
  pub filled : slot f' ip' s0 ≡ c
  pub others : (s : ℕ) → s ≤ max_file → s ≢ s0 → slot f' ip' s ≡ slot f ip s
  pub map_kept : (d : ℕ) → d < sb.size → is_free sb f' d ≡ is_free sb f1 d
  pub still_bytes : Bytes f'
  pub blocks_kept :
      (d : ℕ) → c ≢ d → bblock sb c ≢ d → slot f ip max_file ≢ d → f'.blocks d ≡ f.blocks d
  pub zeroed : (i : ℕ) → f'.blocks c i ≡ 0
  pub fields : ip' ≡ record ip { addrs = ip'.addrs }

module _ (sb : Super) (f : Fs) (ip : Inode) (s0 c : ℕ) (f1 f' : Fs) (ip' : Inode)
    (o : InodeOk sb f ip) (h : Filled sb f ip s0 c f1 f' ip') where
  now_free : (d : ℕ) → d < sb.size → is_free sb f' d ≡ (not (c == d) && is_free sb f d)
  now_free d l = h.map_kept d l ∙ h.taken.map_bits d l

  -- A block in use is not the new one, and stays in use.
  differs : (d : ℕ) → is_free sb f d ≡ false → c ≢ d
  differs d u e = cc (sym h.taken.was_free ∙ ap (is_free sb f) e ∙ u)

  stays : (d : ℕ) → Used sb f d → Used sb f' d
  stays d u = record {
    inside = u.inside;
    taken =
        now_free d u.inside
        ∙ ap (λ b. not (c == d) && b) u.taken
        ∙ ground (arith, differs d u.taken);
    no_map = u.no_map;
  }

  new_used : Used sb f' c
  new_used = record {
    inside = h.taken.inside;
    taken = now_free c h.taken.inside ∙ ground arith;
    no_map = λ e l. o.apart c e h.taken.inside h.taken.was_free l;
  }

  new_not_zero : c ≢ 0
  new_not_zero e = differs 0 o.boot e

  still_apart : (d e : ℕ) → d < sb.size → is_free sb f' d ≡ true → e < sb.size → bblock sb e ≢ d
  still_apart d e l u l' =
      o.apart d e l (was_free (c == d) (is_free sb f d) (sym (now_free d l) ∙ u)) l'
    where
      was_free : (a b : Bool) → (not a && b) ≡ true → b ≡ true
      was_free true b q = cc
      was_free false b q = q

  old_slot : (s : ℕ) → s ≤ max_file → s ≢ s0 → slot f' ip' s ≢ 0 → Used sb f (slot f' ip' s)
  old_slot s l ne nz = rw (h.others s l ne) (o.used s l (λ e. nz (h.others s l ne ∙ e)))

  each_used : (s : ℕ) → s ≤ max_file → slot f' ip' s ≢ 0 → Used sb f' (slot f' ip' s)
  each_used s l nz = elim (ℕ_discrete s s0) [
    | yes e ↦ rw (e, h.filled) new_used
    | no ne ↦ stays (slot f' ip' s) (old_slot s l ne nz)
  ]

  -- No other slot holds the new block.
  unique : (s : ℕ) → s ≤ max_file → s ≢ s0 → slot f' ip' s ≢ c
  unique s l ne e =
      let u = old_slot s l ne (λ z. new_not_zero (sym e ∙ z)) in
      differs c (ap (is_free sb f) (sym e) ∙ u.taken) refl

  each_distinct :
      (s t : ℕ)
      → s ≤ max_file
      → t ≤ max_file
      → s ≢ t
      → slot f' ip' s ≡ slot f' ip' t
      → slot f' ip' s ≡ 0
  each_distinct s t l l' ne e = elim (ℕ_discrete s s0) [
    | yes a ↦
        let there : t ≢ s0 = omega arith in
        absurd (unique t l' there (sym e ∙ ap (slot f' ip') a ∙ h.filled))
    | no na ↦ elim (ℕ_discrete t s0) [
      | yes b ↦ absurd (unique s l na (e ∙ ap (slot f' ip') b ∙ h.filled))
      | no nb ↦
          h.others s l na ∙ o.distinct s t l l' ne (sym (h.others s l na) ∙ e ∙ h.others t l' nb)
    ]
  ]

  Filled-InodeOk : InodeOk sb f' ip'
  Filled-InodeOk = record {
    bytes = h.still_bytes;
    small = o.small;
    apart = still_apart;
    boot = stays_boot;
    used = each_used;
    distinct = each_distinct;
  }
    where
      stays_boot : is_free sb f' 0 ≡ false
      stays_boot =
          let l : 0 < sb.size = omega (arith, h.taken.inside) in
          now_free 0 l ∙ ap (λ b. not (c == 0) && b) o.boot ∙ ground (arith, new_not_zero)

  same_content : (k : ℕ) → k / bsize < max_file → content f' ip' k ≡ content f ip k
  same_content k l = elim (ℕ_discrete (k / bsize) s0) [
    | yes e ↦
        let now : slot f' ip' (k / bsize) ≡ c = ap (slot f' ip') e ∙ h.filled in
        let was : slot f ip (k / bsize) ≡ 0 = ap (slot f ip) e ∙ h.empty in
        let zero_ : byte_at f' c (k % bsize) ≡ 0 = ground (arith, h.zeroed (k % bsize)) in
        ap (λ a. byte_at f' a (k % bsize)) now ∙ zero_ ∙ sym (ap (λ a. byte_at f a (k % bsize)) was)
    | no ne ↦ ap (λ a. byte_at f' a (k % bsize)) (h.others (k / bsize) (omega arith) ne) ∙ old_byte
  ]
    where
      old_byte :
          byte_at f' (slot f ip (k / bsize)) (k % bsize)
          ≡ byte_at f (slot f ip (k / bsize)) (k % bsize)
      old_byte = elim (ℕ_discrete (slot f ip (k / bsize)) 0) [
        | yes z ↦ ap (λ a. byte_at f' a (k % bsize)) z ∙ sym (ap (λ a. byte_at f a (k % bsize)) z)
        | no nz ↦
            let u = o.used (k / bsize) (omega arith) nz in
            let other : slot f ip max_file ≢ slot f ip (k / bsize) = λ e.
              nz (
                o.distinct (k / bsize) max_file (omega arith) (omega arith) (omega arith)
                  (sym e)) in
            let kept =
              h.blocks_kept (slot f ip (k / bsize)) (differs _ u.taken) (u.no_map c h.taken.inside)
                other in
            ap (λ (b : ℕ → ℕ). if slot f ip (k / bsize) == 0 then 0 else b (k % bsize)) kept
      ]

  pub Filled-Grown : Grown sb f ip f' ip'
  Filled-Grown = record {
    okay = Filled-InodeOk;
    contents = same_content;
    fields = h.fields;
    kept_slots = λ s l nz. h.others s l (λ e. nz (ap (slot f ip) e ∙ h.empty));
    foreign = λ d a. (
      record {
        is_used = stays d a.is_used;
        elsewhere = λ s l e. elim (ℕ_discrete s s0) [
          | yes q ↦ differs d a.is_used.taken (sym h.filled ∙ ap (slot f' ip') (sym q) ∙ e)
          | no nq ↦ a.elsewhere s l (sym (h.others s l nq) ∙ e)
        ];
      },
      h.blocks_kept d (differs d a.is_used.taken) (a.is_used.no_map c h.taken.inside)
          (a.elsewhere max_file (omega arith)),
    );
  }
