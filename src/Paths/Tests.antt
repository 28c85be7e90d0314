-- ===== src/Paths/Tests.antt =====
-- fs.c: the path "//ab/c/" and some others.
use os_assignment.Prelude.{ℕ, ◌≡◌, refl, arith, List, [], ◌∷◌, map, none, some, take, replicate}
use os_assignment.Paths.{dirsiz, skipelem, skip_slashes, first_elem, after_elem, set_name, walk}
use os_assignment.Paths.Elements.{components, before_zero, walk-components}

abbrev path : List ℕ
path = b'/' ∷ b'/' ∷ b'a' ∷ b'b' ∷ b'/' ∷ b'c' ∷ b'/' ∷ []

abbrev blank : List ℕ
blank = replicate 14 0

walk-components_example :
    (names : List (List ℕ)) × (walk 8 path blank ≡ some names)
    × (map before_zero names ≡ map (take dirsiz) (components path))
walk-components_example = walk-components 8 path blank (omega arith) (
  omega arith,
  (omega arith, (omega arith, (omega arith, (omega arith, (omega arith, (omega arith, tt)))))),
)

paths_run :
    (components path ≡ (b'a' ∷ b'b' ∷ []) ∷ (b'c' ∷ []) ∷ [])
    × (skipelem (b'/' ∷ b'/' ∷ []) blank ≡ none)
    × (skipelem (b'a' ∷ []) [] ≡ some ([], b'a' ∷ 0 ∷ []))
unfolding skipelem skip_slashes first_elem after_elem set_name
paths_run = (refl, refl, refl)
