-- ===== src/Paths.antt =====
-- fs.c: `skipelem`, and the names that the loop of `namex` looks up.
--
-- A path is its bytes before the zero. `name` is the buffer of DIRSIZ bytes of the caller.
pub mod Elements
mod Tests
use os_assignment.Prelude.{
  ℕ, zero, suc, ◌+◌, List, [], ◌∷◌, ◌++◌, Option, none, some, leb, ◌==◌, if◌then◌else◌, length,
  take, drop,
}

abbrev pub dirsiz : ℕ
dirsiz = 14

pub skip_slashes : List ℕ → List ℕ
skip_slashes [] = []
skip_slashes (c ∷ cs) = let rest = skip_slashes cs in if c == b'/' then rest else c ∷ cs

-- The bytes up to the next slash or the end, and those from there on.
pub first_elem : List ℕ → List ℕ
first_elem [] = []
first_elem (c ∷ cs) = if c == b'/' then [] else c ∷ first_elem cs

pub after_elem : List ℕ → List ℕ
after_elem [] = []
after_elem (c ∷ cs) = let rest = after_elem cs in if c == b'/' then c ∷ cs else rest

pub set_name : List ℕ → List ℕ → List ℕ
set_name s name =
    if leb dirsiz (length s) then take dirsiz s else s ++ (0 ∷ drop (length s + 1) name)

-- The rest of the path and the name; `none` is the null pointer.
pub skipelem : List ℕ → List ℕ → Option (List ℕ × List ℕ)
skipelem path name = elim (skip_slashes path) [
  | [] ↦ none
  | ◌∷◌ c cs ↦ some (skip_slashes (after_elem (c ∷ cs)), set_name (first_elem (c ∷ cs)) name)
]

-- The buffer `name` after each round of the loop of `namex`, as long as every name is found; on fuel.
pub walk : ℕ → List ℕ → List ℕ → Option (List (List ℕ))
walk zero path name = none
walk (suc f) path name = elim (skipelem path name) [
  | none ↦ some []
  | some (rest, name') ↦ elim (walk f rest name') [
    | none ↦ none
    | some names ↦ some (name' ∷ names)
  ]
]
