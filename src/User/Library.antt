-- ===== src/User/Library.antt =====
-- ulib.c. A string that is only read is the list of its bytes; strcpy and memmove work on a memory.
use os_lab.Prelude.{
  ℕ, ◌+◌, ◌-◌, ◌*◌, ◌%◌, ◌^◌, ◌==◌, ◌&&◌, ◌||◌, if◌then◌else◌, Bool, Option, none, some, List, [],
  ◌∷◌, zero, suc, leb,
}
use os_lab.Prelude.Int.{ℤ, pos, ◌-ℤ◌}
use os_lab.Strings.{Memory, store}

-- while((*s++ = *t++) != 0); by fuel, with `none` if it runs out.
unfoldable pub strcpy : ℕ → ℕ → ℕ → Memory → Option Memory
strcpy zero s t m = none
strcpy (suc fuel) s t m =
    let rest = strcpy fuel (s + 1) (t + 1) (store s (m t) m) in
    if m t == 0 then some (store s (m t) m) else rest

unfoldable pub strcmp : List ℕ → List ℕ → ℤ
strcmp [] [] = pos 0
strcmp [] (d ∷ q) = pos 0 -ℤ pos d
strcmp (c ∷ p) [] = pos c
strcmp (c ∷ p) (d ∷ q) = let rest = strcmp p q in if c == d then rest else pos c -ℤ pos d

-- The place of the first `c`.
unfoldable pub strchr : List ℕ → ℕ → Option ℕ
strchr [] c = none
strchr (d ∷ s) c =
    if d == c then some 0 else elim (strchr s c) [ none ↦ none | some i ↦ some (i + 1) ]

abbrev pub is_digit : ℕ → Bool
is_digit c = leb b'0' c && leb c b'9'

-- The loop of atoi, on a word.
unfoldable pub atoi_from : ℕ → List ℕ → ℕ
atoi_from n [] = n
atoi_from n (c ∷ s) =
    let rest = atoi_from ((n * 10 + c + (2 ^ 32 - b'0')) % 2 ^ 32) s in
    if is_digit c then rest else n

unfoldable pub atoi : List ℕ → ℕ
atoi s = atoi_from 0 s

-- The loop of gets over what the reads of one byte give, with `left` bytes of room. An end of the
-- input ends it.
unfoldable pub gets_from : ℕ → List ℕ → List ℕ
gets_from zero input = []
gets_from (suc left) [] = []
gets_from (suc left) (c ∷ input) = c ∷ (if c == 10 || c == 13 then [] else gets_from left input)

-- `max` is above zero; a byte is left for the NUL.
unfoldable pub gets : ℕ → List ℕ → List ℕ
gets max input = gets_from (max - 1) input

-- while(n-- > 0) *dst++ = *src++;
unfoldable pub memmove : ℕ → ℕ → ℕ → Memory → Memory
memmove dst src zero m = m
memmove dst src (suc n) m = memmove (dst + 1) (src + 1) n (store dst (m src) m)
