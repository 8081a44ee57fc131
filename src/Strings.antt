-- ===== src/Strings.antt =====
-- string.c over a memory of bytes: an address is a number, and a store gives a new memory.
pub mod Move
use os_lab.Prelude.{ℕ, if◌then◌else◌, suc, Option, ◌==◌, ◌+◌, ltb, none, ◌%◌, not, ◌&&◌, some, zero}
use os_lab.Prelude.Int.{ℤ, pos, negsuc, ◌-ℤ◌}

abbrev pub Memory : Type 0
Memory = ℕ → ℕ

abbrev pub store : ℕ → ℕ → Memory → Memory
store a v m b = if a == b then v else m b

-- memset: both branches, of words and of bytes, store the low byte of `c` in `n` bytes.
unfoldable pub memset : ℕ → ℕ → ℕ → Memory → Memory
memset dst c zero m = m
memset dst c (suc n) m = memset (dst + 1) c n (store dst (c % 256) m)

-- The result of memcmp: the difference of the first two bytes that differ.
unfoldable pub memcmp : Memory → ℕ → ℕ → ℕ → ℤ
memcmp m v1 v2 zero = pos 0
memcmp m v1 v2 (suc n) =
    let rest = memcmp m (v1 + 1) (v2 + 1) n in
    if not (m v1 == m v2) then pos (m v1) -ℤ pos (m v2) else rest

-- while (n-- > 0) *--d = *--s; from the ends of the two areas.
unfoldable pub copy_down : ℕ → ℕ → ℕ → Memory → Memory
copy_down d s zero m = m
copy_down d s (suc n) m = copy_down d s n (store (d + n) (m (s + n)) m)

-- while (n-- > 0) *d++ = *s++;
unfoldable pub copy_up : ℕ → ℕ → ℕ → Memory → Memory
copy_up d s zero m = m
copy_up d s (suc n) m = copy_up (d + 1) (s + 1) n (store d (m s) m)

unfoldable pub memmove : ℕ → ℕ → ℕ → Memory → Memory
memmove d s n m = if ltb s d && ltb d (s + n) then copy_down d s n m else copy_up d s n m

unfoldable pub memcpy : ℕ → ℕ → ℕ → Memory → Memory
memcpy d s n m = memmove d s n m

unfoldable pub strncmp : Memory → ℕ → ℕ → ℕ → ℤ
strncmp m p q zero = pos 0
strncmp m p q (suc n) =
    let rest = strncmp m (p + 1) (q + 1) n in
    if not (m p == 0) && m p == m q then rest else pos (m p) -ℤ pos (m q)

-- The second loop of strncpy.
unfoldable pub pad : ℕ → ℕ → Memory → Memory
pad s zero m = m
pad s (suc n) m = pad (s + 1) n (store s 0 m)

-- strncpy with `n` not negative: the bytes of `t` up to its end or `n`, then zeros.
unfoldable pub strncpy : ℕ → ℕ → ℕ → Memory → Memory
strncpy s t zero m = m
strncpy s t (suc n) m =
    let rest = strncpy (s + 1) (t + 1) n (store s (m t) m) in
    if m t == 0 then pad (s + 1) n (store s (m t) m) else rest

-- safestrcpy with `n` above zero, given as `n - 1`: at most that many bytes, then a zero.
unfoldable pub safestrcpy_loop : ℕ → ℕ → ℕ → Memory → Memory
safestrcpy_loop s t zero m = store s 0 m
safestrcpy_loop s t (suc n) m =
    let rest = safestrcpy_loop (s + 1) (t + 1) n (store s (m t) m) in
    if m t == 0 then store (s + 1) 0 (store s (m t) m) else rest

unfoldable pub safestrcpy : ℕ → ℕ → ℤ → Memory → Memory
safestrcpy s t (negsuc n) m = m
safestrcpy s t (pos zero) m = m
safestrcpy s t (pos (suc n)) m = safestrcpy_loop s t n m

-- strlen, by fuel; `none` means that the fuel ran out.
unfoldable pub strlen_from : ℕ → Memory → ℕ → ℕ → Option ℕ
strlen_from zero m s n = none
strlen_from (suc fuel) m s n =
    let rest = strlen_from fuel m s (n + 1) in if m (s + n) == 0 then some n else rest

unfoldable pub strlen : ℕ → Memory → ℕ → Option ℕ
strlen fuel m s = strlen_from fuel m s 0
