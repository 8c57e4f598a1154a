-- ===== src/Strings.antt =====
-- kernel/string.c over a memory of bytes. Addresses do not wrap around: the kernel's objects end below the
-- top of the address space. A pass of a loop that counts `n` down is one round.
pub mod Move
pub mod Copy
mod Tests
use aut_whuoslab.Prelude.{
  ℕ, zero, suc, ◌+◌, ◌-◌, ◌%◌, Bool, true, false, ◌&&◌, ltb, ◌==◌, if◌then◌else◌, ℤ, pos, negsuc,
}
use aut_whuoslab.Kalloc.{update}

-- `cdst[i] = c` from `i` on; a byte keeps the low 8 bits of the int.
pub memset_from : ℕ → ℕ → ℕ → ℕ → (ℕ → ℕ) → ℕ → ℕ
memset_from zero i dst c m = m
memset_from (suc rounds) i dst c m = memset_from rounds (suc i) dst c (update m (dst + i) (c % 256))

pub memset : ℕ → ℕ → ℕ → (ℕ → ℕ) → ℕ → ℕ
unfolding memset_from
memset dst c n m = memset_from n 0 dst c m

-- `*d++ = *s++` and `*--d = *--s`, `n` times.
pub copy_up : ℕ → ℕ → ℕ → (ℕ → ℕ) → ℕ → ℕ
copy_up zero d s m = m
copy_up (suc n) d s m = copy_up n (d + 1) (s + 1) (update m d (m s))

pub copy_down : ℕ → ℕ → ℕ → (ℕ → ℕ) → ℕ → ℕ
copy_down zero d s m = m
copy_down (suc n) d s m = copy_down n (d - 1) (s - 1) (update m (d - 1) (m (s - 1)))

pub memmove : ℕ → ℕ → ℕ → (ℕ → ℕ) → ℕ → ℕ
unfolding copy_up copy_down
memmove dst src n m =
    if n == 0
    then m
    else if ltb src dst && ltb dst (src + n)
    then copy_down n (dst + n) (src + n) m
    else copy_up n dst src m

pub memcpy : ℕ → ℕ → ℕ → (ℕ → ℕ) → ℕ → ℕ
unfolding memmove
memcpy dst src n m = memmove dst src n m

-- `a - b` of two bytes as an int.
abbrev pub difference : ℕ → ℕ → ℤ
difference a b = if ltb a b then negsuc (b - a - 1) else pos (a - b)

pub memcmp : ℕ → ℕ → ℕ → (ℕ → ℕ) → ℤ
memcmp zero s1 s2 m = pos 0
memcmp (suc n) s1 s2 m =
    if m s1 == m s2 then memcmp n (s1 + 1) (s2 + 1) m else difference (m s1) (m s2)

pub strncmp : ℕ → ℕ → ℕ → (ℕ → ℕ) → ℤ
strncmp zero p q m = pos 0
strncmp (suc n) p q m =
    if ltb 0 (m p) && (m p == m q) then strncmp n (p + 1) (q + 1) m else difference (m p) (m q)

-- The second loop of `strncpy`.
pub pad : ℕ → ℕ → (ℕ → ℕ) → ℕ → ℕ
pad zero s m = m
pad (suc n) s m = pad n (s + 1) (update m s 0)

-- `strncpy` for a count that an int holds; one that is not positive copies nothing.
pub strncpy : ℕ → ℕ → ℕ → (ℕ → ℕ) → ℕ → ℕ
unfolding pad
strncpy zero s t m = m
strncpy (suc n) s t m =
    let m' = update m s (m t) in
    elim (m t == 0) [ true ↦ pad n (s + 1) m' | false ↦ strncpy n (s + 1) (t + 1) m' ]

-- The loop of `safestrcpy` with `--n` rounds left, and the byte that ends it.
pub safestrcpy_from : ℕ → ℕ → ℕ → (ℕ → ℕ) → ℕ → ℕ
safestrcpy_from zero s t m = update m s 0
safestrcpy_from (suc n) s t m =
    let m' = update m s (m t) in
    elim (m t == 0) [ true ↦ update m' (s + 1) 0 | false ↦ safestrcpy_from n (s + 1) (t + 1) m' ]

pub safestrcpy : ℕ → ℕ → ℤ → (ℕ → ℕ) → ℕ → ℕ
unfolding safestrcpy_from
safestrcpy s t (pos zero) m = m
safestrcpy s t (pos (suc n)) m = safestrcpy_from n s t m
safestrcpy s t (negsuc n) m = m

-- The loop of `strlen` for at most `rounds` bytes, with no result when they hold no end.
pub strlen_from : ℕ → ℕ → ℕ → (ℕ → ℕ) → ℤ
strlen_from zero n s m = negsuc 0
strlen_from (suc rounds) n s m = if m (s + n) == 0 then pos n else strlen_from rounds (n + 1) s m
