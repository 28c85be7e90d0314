-- ===== src/Strings/Tests.antt =====
-- string.c on a memory that holds the string "ab" at 100 and "abc" at 200.
use os_assignment.Prelude.{ℕ, ◌-◌, ◌^◌, ◌<◌, ◌≡◌, refl, arith, [], ◌∷◌, ◌==◌, if◌then◌else◌}
use os_assignment.Strings.{Mem, memmove, copy_down, copy_up, strncmp, safestrcpy, copy_safe}
use os_assignment.Strings.Move.{Moved, memmove-Moved}
use os_assignment.Strings.Copy.{cstr}

abbrev two_strings : Mem
two_strings a =
    if a == 100
    then 97
    else if a == 101
    then 98
    else if a == 200
    then 97
    else if a == 201
    then 98
    else if a == 202
    then 99
    else 0

are_bytes : (a : ℕ) → two_strings a < 256
are_bytes a = ground arith

-- The ranges overlap by two bytes.
memmove-Moved_example : Moved 101 100 3 two_strings (memmove 101 100 3 two_strings)
memmove-Moved_example = memmove-Moved 101 100 3 two_strings (omega arith) (omega arith)

strings_run :
    (memmove 101 100 3 two_strings 102 ≡ 98)
    × (strncmp 100 200 2 two_strings ≡ 0)
    × (strncmp 100 200 3 two_strings ≡ 2 ^ 32 - 99)
    × (cstr 300 9 (safestrcpy 300 200 3 two_strings) ≡ 97 ∷ 98 ∷ [])
unfolding memmove copy_down copy_up strncmp safestrcpy copy_safe
strings_run = (refl, refl, refl, refl)
