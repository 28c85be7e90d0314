-- ===== src/Syscall/Tests.antt =====
-- syscall.c: runs on small inputs.
use os_assignment.Prelude.{
  ℕ, ◌+◌, ◌-◌, ◌*◌, ◌%◌, ◌^◌, ◌≡◌, ◌≢◌, ◌↔◌, refl, arith, none, some, ◌==◌, if◌then◌else◌,
}
use os_assignment.Syscall.{
  User, Call, setpriority, number, chosen, syscall, fetchint, fetchstr_from, fetchstr, argint,
  argptr, argstr,
}
use os_assignment.Syscall.Bounds.{
  Within, StringAt, argptr-Within, fetchstr-StringAt, argstr-StringAt,
}
use os_assignment.Syscall.Dispatch.{chosen-number, syscall-unknown}

-- The argument of number 0, at 44, is 8, where the string "ab" stands.
abbrev user : User
user = record {
  sz = 100;
  memory = λ a. if a == 44 then 8 else if a == 8 then 97 else if a == 9 then 98 else 0;
  esp = 40;
}

argptr_of_user : argptr user 0 92 ≡ some 8
unfolding argptr argint fetchint
argptr_of_user = refl

user_too_long : argptr user 0 93 ≡ none
unfolding argptr argint fetchint
user_too_long = refl

user_negative : argptr user 0 (2 ^ 32 - 4) ≡ none
unfolding argptr argint fetchint
user_negative = refl

user_string : argstr user 0 ≡ some (8, 2)
unfolding argstr argint fetchint fetchstr fetchstr_from
user_string = refl

argptr-Within_example :
    Within user 8 92 × (argint user 0 ≡ some 8) × Within user ((40 + 4 + 4 * 0) % 2 ^ 32) 4
argptr-Within_example = argptr-Within user (omega arith) 0 92 8 (omega arith) argptr_of_user

fetchstr-StringAt_example : (fetchstr user 8 ≡ some 2) ↔ StringAt user 8 2
fetchstr-StringAt_example = fetchstr-StringAt user 8 2

argstr-StringAt_example :
    (argstr user 0 ≡ some (8, 2)) ↔ ((argint user 0 ≡ some 8) × StringAt user 8 2)
argstr-StringAt_example = argstr-StringAt user 0 8 2

abbrev counts : Call → ℕ → ℕ × ℕ
counts c s = (s + 1, 0)

unlisted : (c : Call) → c ≢ setpriority → 23 ≢ number c
unfolding chosen
unlisted c h e = cc ((chosen-number c h 23).1 e)

syscall-unknown_example : syscall counts 23 5 ≡ (5, 2 ^ 32 - 1)
syscall-unknown_example = syscall-unknown counts 23 5 unlisted
