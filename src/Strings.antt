-- ===== src/Strings.antt =====
-- string.c: the kernel's functions on bytes and strings.
--
-- Memory is a function from addresses to bytes, and pointers wrap at 2 ^ 32. A negative int is its bit
-- pattern; a count that is an int in the code is 0 here where it is negative there.
pub mod Move
pub mod Copy
pub mod Small
mod Tests
use os_assignment.Prelude.{
  ℕ, zero, suc, ◌+◌, ◌-◌, ◌*◌, ◌/◌, ◌%◌, ◌^◌, not, ◌&&◌, ltb, ◌==◌, if◌then◌else◌, update, Option,
  none, some,
}

abbrev pub Mem : Type 0
Mem = ℕ → ℕ

abbrev pub next : ℕ → ℕ
next p = (p + 1) % 2 ^ 32

abbrev pub prev : ℕ → ℕ
prev p = (p + 2 ^ 32 - 1) % 2 ^ 32

-- `stosb` and `stosl` of x86.h: `n` bytes, and `n` words of four bytes, the low one first.
pub stosb : ℕ → ℕ → ℕ → Mem → Mem
stosb zero d c m = m
stosb (suc n) d c m = stosb n (next d) c (update m d (c % 256))

pub stosl : ℕ → ℕ → ℕ → Mem → Mem
stosl zero d w m = m
stosl (suc n) d w m =
    let m1 = update m d (w % 256) in
    let m2 = update m1 ((d + 1) % 2 ^ 32) (w / 2 ^ 8 % 256) in
    let m3 = update m2 ((d + 2) % 2 ^ 32) (w / 2 ^ 16 % 256) in
    stosl n ((d + 4) % 2 ^ 32) w (update m3 ((d + 3) % 2 ^ 32) (w / 2 ^ 24 % 256))

-- The bits of the four shifted bytes are apart, so `|` is a sum.
pub memset : ℕ → ℕ → ℕ → Mem → Mem
memset dst c n m =
    let b = c % 256 in
    if dst % 4 == 0 && n % 4 == 0
    then stosl (n / 4) dst (b * 2 ^ 24 + b * 2 ^ 16 + b * 2 ^ 8 + b) m
    else stosb n dst c m

pub memcmp : ℕ → ℕ → ℕ → Mem → ℕ
memcmp p q zero m = 0
memcmp p q (suc n) m =
    let rest = memcmp (next p) (next q) n m in
    if m p == m q then rest else (m p + 2 ^ 32 - m q) % 2 ^ 32

-- The two loops of `memmove`.
pub copy_down : ℕ → ℕ → ℕ → Mem → Mem
copy_down zero d s m = m
copy_down (suc n) d s m = copy_down n (prev d) (prev s) (update m (prev d) (m (prev s)))

pub copy_up : ℕ → ℕ → ℕ → Mem → Mem
copy_up zero d s m = m
copy_up (suc n) d s m = copy_up n (next d) (next s) (update m d (m s))

pub memmove : ℕ → ℕ → ℕ → Mem → Mem
memmove dst src n m =
    if ltb src dst && ltb dst ((src + n) % 2 ^ 32)
    then copy_down n ((dst + n) % 2 ^ 32) ((src + n) % 2 ^ 32) m
    else copy_up n dst src m

pub strncmp : ℕ → ℕ → ℕ → Mem → ℕ
strncmp p q zero m = 0
strncmp p q (suc n) m =
    let rest = strncmp (next p) (next q) n m in
    if not (m p == 0) && m p == m q then rest else (m p + 2 ^ 32 - m q) % 2 ^ 32

-- The second loop of `strncpy`.
pub zero_fill : ℕ → ℕ → Mem → Mem
zero_fill s zero m = m
zero_fill s (suc n) m = zero_fill (next s) n (update m s 0)

pub strncpy : ℕ → ℕ → ℕ → Mem → Mem
strncpy s t zero m = m
strncpy s t (suc n) m =
    let m' = update m s (m t) in
    let rest = strncpy (next s) (next t) n m' in if m t == 0 then zero_fill (next s) n m' else rest

-- The loop of `safestrcpy` and the store behind it, where `n` has been decremented once.
pub copy_safe : ℕ → ℕ → ℕ → Mem → Mem
copy_safe s t zero m = update m s 0
copy_safe s t (suc n) m =
    let m' = update m s (m t) in
    let rest = copy_safe (next s) (next t) n m' in if m t == 0 then update m' (next s) 0 else rest

pub safestrcpy : ℕ → ℕ → ℕ → Mem → Mem
safestrcpy s t zero m = m
safestrcpy s t (suc n) m = copy_safe s t n m

-- The loop of `strlen` from `n` on, on fuel.
pub strlen_from : ℕ → ℕ → ℕ → Mem → Option ℕ
strlen_from zero s n m = none
strlen_from (suc f) s n m =
    let rest = strlen_from f s (n + 1) m in if m ((s + n) % 2 ^ 32) == 0 then some n else rest

pub strlen : ℕ → ℕ → Mem → Option ℕ
strlen fuel s m = strlen_from fuel s 0 m
