-- ===== src/Dirs/Names.antt =====
-- fs.c: the names of directory entries and what `namecmp` says of them.
use os_assignment.Prelude.{
  ℕ, zero, suc, ◌+◌, ◌-◌, ◌*◌, ◌<◌, ◌≤◌, ◌≡◌, refl, ap, ◌≢◌, ◌∙◌, sym, arith, true, false, List,
  ◌==◌, get_or,
}
use os_assignment.Strings.{next}
use os_assignment.Strings.Copy.{cstr, strncmp_lem}
use os_assignment.Paths.{dirsiz}
use os_assignment.Inodes.{slice}
use os_assignment.Dirs.{Dirent, dirent_size, dirent_of, joined, namecmp}

-- The name as a string: its bytes before a zero, at most DIRSIZ.
abbrev pub string_of : (ℕ → ℕ) → List ℕ
string_of s = cstr 0 dirsiz s

-- The entry of the directory with these bytes at the index.
abbrev pub entry : (ℕ → ℕ) → ℕ → Dirent
entry g i = dirent_of (slice g (dirent_size * i) dirent_size)

-- The entry is in use and has the name.
pub record Matches (name : ℕ → ℕ) (d : Dirent) : Type 0 where
  pub in_use : d.inum ≢ 0
  pub same : string_of name ≡ string_of d.name

-- The two strings in the joined memory.
cstr-first : (s t : ℕ → ℕ) (p n : ℕ) → p + n ≤ dirsiz → cstr p n (joined s t) ≡ cstr p n s
cstr-first s t p zero l = refl
cstr-first s t p (suc n) l =
    let here : joined s t p ≡ s p = ground arith in
    let on : next p ≡ p + 1 = omega arith in
    rw here (rw on (rw (cstr-first s t (p + 1) n (omega arith)) refl))

pub cstr-second :
    (s t : ℕ → ℕ) (p n : ℕ) → p + n ≤ dirsiz → cstr (dirsiz + p) n (joined s t) ≡ cstr p n t
cstr-second s t p zero l = refl
cstr-second s t p (suc n) l =
    let back : 14 + p - 14 ≡ p = omega arith in
    let here : joined s t (dirsiz + p) ≡ t p = ground (arith, ap t back) in
    let on : next p ≡ p + 1 = omega arith in
    let on' : next (dirsiz + p) ≡ dirsiz + (p + 1) = omega arith in
    rw here (rw on (rw on' (rw (cstr-second s t (p + 1) n (omega arith)) refl)))

namecmp_lem :
    (s t : ℕ → ℕ)
    → ((a : ℕ) → s a < 256)
    → ((a : ℕ) → t a < 256)
    → (namecmp s t ≡ 0 → string_of s ≡ string_of t) × (string_of s ≡ string_of t → namecmp s t ≡ 0)
unfolding namecmp
namecmp_lem s t bs bt =
    let small : (a : ℕ) → joined s t a < 256 = λ a. ground (arith, bs a, bt (a - dirsiz)) in
    let (there, back) = strncmp_lem 0 dirsiz dirsiz (joined s t) small in
    let one = cstr-first s t 0 dirsiz (omega arith) in
    let two = cstr-second s t 0 dirsiz (omega arith) in
    (λ e. sym one ∙ there e ∙ two, λ e. back (one ∙ e ∙ sym two))

-- A byte of an entry is one of the directory, or the 0 behind its end.
pub get_or-slice-small :
    (g : ℕ → ℕ) (i n k : ℕ) → ((o : ℕ) → g o < 256) → get_or (slice g i n) k 0 < 256
get_or-slice-small g i zero k b = omega arith
get_or-slice-small g i (suc n) zero b = b i
get_or-slice-small g i (suc n) (suc k) b = get_or-slice-small g (i + 1) n k b

-- The result of the test that `dirlookup` makes of an entry.
pub found-Matches :
    (name : ℕ → ℕ) (d : Dirent)
    → ((a : ℕ) → name a < 256)
    → ((a : ℕ) → d.name a < 256)
    → (d.inum == 0) ≡ false
    → (namecmp name d.name == 0) ≡ true
    → Matches name d
found-Matches name d b b' t u = record {
  in_use = ground (arith, t);
  same = (namecmp_lem name d.name b b').0 (ground (arith, u));
}

pub other_name :
    (name : ℕ → ℕ) (d : Dirent)
    → ((a : ℕ) → name a < 256)
    → ((a : ℕ) → d.name a < 256)
    → (namecmp name d.name == 0) ≡ false
    → ¬ Matches name d
other_name name d b b' u m =
    let zero_ = (namecmp_lem name d.name b b').1 m.same in ground (arith, u, zero_)

pub unused_entry :
    (name : ℕ → ℕ) (d : Dirent) (k : ℕ) → d.inum ≡ k → (k == 0) ≡ true → ¬ Matches name d
unused_entry name d k e t m = m.in_use (e ∙ ground (arith, t))
