-- ===== src/Icache/Handles.antt =====
-- fs.c: any sequence of calls on the inode cache by clients that use only inodes of which they hold a pointer.
use native.Mathlib.Decide.{ℕ_discrete}
use mathlib.Core.Path.{subst}
use os_assignment.Prelude.{
  ℕ, ◌+◌, ◌^◌, ◌<◌, ◌≡◌, ◌≢◌, ap, ◌∙◌, sym, arith, List, ◌∷◌, ◌++◌, some, get_elem?, set, length,
  length-set, get_elem?-set_self, get_elem?-set_ne, get_elem?_lt, All, All-map, Among, times, ok,
}
use os_assignment.Blocks.{Super, Fs}
use os_assignment.Inodes.{Inode}
use os_assignment.Inodes.Same.{SameInode}
use os_assignment.Icache.{Entry, iget, idup, ilock, iput}

-- The disk, the cache, and the pointers that clients hold.
pub record Sys : Type 0 where
  pub fs : Fs
  pub cache : List Entry
  pub handles : List ℕ

-- `uses` is any change that a holder makes to the disk and to the contents of an inode. There are few
-- handles: the files and the current directories of processes, and local variables.
pub data Step (sb : Super) (s t : Sys) : Type 0 where
  gets :
      (dev inum i : ℕ) (es : List Entry)
      → length s.handles + 1 < 2 ^ 31
      → iget s.cache dev inum ≡ ok (es, i)
      → t ≡ record { fs = s.fs; cache = es; handles = i ∷ s.handles }
      → Step sb s t
  dups :
      (i : ℕ)
      → length s.handles + 1 < 2 ^ 31
      → Among i s.handles
      → t ≡ record { fs = s.fs; cache = idup s.cache i; handles = i ∷ s.handles }
      → Step sb s t
  loads :
      (i : ℕ) (es : List Entry)
      → ilock sb s.fs s.cache i ≡ ok es
      → t ≡ record { fs = s.fs; cache = es; handles = s.handles }
      → Step sb s t
  uses :
      (i : ℕ) (e e' : Entry) (f : Fs)
      → get_elem? s.cache i ≡ some e
      → e'.ref ≡ e.ref
      → SameInode e'.inode e.inode
      → t ≡ record { fs = f; cache = set s.cache i e'; handles = s.handles }
      → Step sb s t
  puts :
      (us vs : List ℕ) (i : ℕ) (f : Fs) (es : List Entry)
      → s.handles ≡ us ++ (i ∷ vs)
      → iput sb s.fs s.cache i ≡ ok (f, es)
      → t ≡ record { fs = f; cache = es; handles = us ++ vs }
      → Step sb s t

pub data Reach (sb : Super) (s : Sys) : Sys → Type 0 where
  here : Reach sb s s
  next : {t u : Sys} → Reach sb s t → Step sb t u → Reach sb s u

pub record Inv (s : Sys) : Type 0 where
  pub counted : (j : ℕ) (e : Entry) → get_elem? s.cache j ≡ some e → e.ref ≡ times j s.handles
  pub ranged : All (λ j. j < length s.cache) s.handles
  pub few : length s.handles < 2 ^ 31
  pub unique :
      (j k : ℕ) (e e' : Entry)
      → get_elem? s.cache j ≡ some e
      → get_elem? s.cache k ≡ some e'
      → 0 < e.ref
      → 0 < e'.ref
      → SameInode e.inode e'.inode
      → j ≡ k

SameInode-sym : (a b : Inode) → SameInode a b → SameInode b a
SameInode-sym a b h = (sym h.0, sym h.1)

module _ {s : Sys} (v : Inv s) where
  -- One entry and its count change.
  module _ (i : ℕ) (e e' : Entry) (f : Fs) (hs : List ℕ) (at : get_elem? s.cache i ≡ some e) where
    abbrev after : Sys
    after = record { fs = f; cache = set s.cache i e'; handles = hs }

    now : get_elem? (set s.cache i e') i ≡ some e'
    now = get_elem?-set_self s.cache i e' (get_elem?_lt s.cache i e at)

    was :
        (j : ℕ) (g : Entry)
        → i ≢ j
        → get_elem? (set s.cache i e') j ≡ some g
        → get_elem? s.cache j ≡ some g
    was j g ne q = sym (get_elem?-set_ne s.cache e' ne) ∙ q

    pub Inv-set :
        e'.ref ≡ times i hs
        → ((j : ℕ) → i ≢ j → times j hs ≡ times j s.handles)
        → All (λ j. j < length s.cache) hs
        → length hs < 2 ^ 31
        → ((k : ℕ) (g : Entry)
            → i ≢ k
            → get_elem? s.cache k ≡ some g
            → 0 < e'.ref
            → 0 < g.ref
            → ¬ SameInode e'.inode g.inode)
        → Inv after
    Inv-set r others range few_ alone = record {
      counted = λ j g q. elim (ℕ_discrete i j) [
        | yes same ↦
            let here_ : some e' ≡ some g = sym now ∙ ap (get_elem? (set s.cache i e')) same ∙ q in
            let eq : e' ≡ g = cc (here_) in
            sym (ap (λ (x : Entry). x.ref) eq) ∙ r ∙ ap (λ x. times x hs) same
        | no ne ↦ v.counted j g (was j g ne q) ∙ sym (others j ne)
      ];
      ranged =
          All-map (λ j. j < length s.cache) (λ j. j < length (set s.cache i e')) hs
            (λ j l. omega (arith, length-set s.cache i e')) range;
      few = few_;
      unique = λ j k g g' q q' p p' same. elim (ℕ_discrete i j) [
        | yes a ↦ elim (ℕ_discrete i k) [
          | yes b ↦ sym a ∙ b
          | no nb ↦
              let here_ : some e' ≡ some g = sym now ∙ ap (get_elem? (set s.cache i e')) a ∙ q in
              let eq : g ≡ e' = cc (here_) in
              absurd (
                alone k g' nb (was k g' nb q') (subst (λ x. 0 < x.ref) eq p) p'
                  (subst (λ (x : Entry). SameInode x.inode g'.inode) eq same))
        ]
        | no na ↦ elim (ℕ_discrete i k) [
          | yes b ↦
              let here_ : some e' ≡ some g' = sym now ∙ ap (get_elem? (set s.cache i e')) b ∙ q' in
              let eq : g' ≡ e' = cc (here_) in
              absurd (
                alone j g na (was j g na q) (subst (λ x. 0 < x.ref) eq p') p (
                  SameInode-sym g.inode e'.inode
                    (subst (λ (x : Entry). SameInode g.inode x.inode) eq same)))
          | no nb ↦ v.unique j k g g' (was j g na q) (was k g' nb q') p p' same
        ]
      ];
    }

    -- Where it stays the same inode it stays the only one.
    pub still_alone :
        SameInode e'.inode e.inode
        → (0 < e'.ref → 0 < e.ref)
        → (k : ℕ) (g : Entry) → i ≢ k
        → get_elem? s.cache k ≡ some g
        → 0 < e'.ref
        → 0 < g.ref
        → ¬ SameInode e'.inode g.inode
    still_alone same live k g ne q p p' h =
        ne (v.unique i k e g at q (live p) p' (sym same.0 ∙ h.0, sym same.1 ∙ h.1))
