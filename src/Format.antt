-- ===== src/Format.antt =====
-- The numbers that console.c and printf.c print: a word as the digits that printint puts into its
-- buffer, lowest first. The two differ in their table of digits.
pub mod Digits
use os_lab.Prelude.{
  ℕ, ◌+◌, ◌-◌, ◌/◌, ◌%◌, ◌^◌, ◌==◌, ◌&&◌, if◌then◌else◌, Bool, List, [], ◌∷◌, ◌++◌, zero, suc, leb,
  get_or,
}
use mathlib.Core.List.{reverse}

-- The loop of printint, by fuel.
unfoldable pub digits_of : ℕ → List ℕ → ℕ → ℕ → List ℕ
digits_of zero table base x = []
digits_of (suc fuel) table base x =
    let rest = digits_of fuel table base (x / base) in
    get_or table (x % base) 0 ∷ (if x / base == 0 then [] else rest)

-- xx < 0, of a word
abbrev pub is_negative : ℕ → Bool
is_negative x = leb (2 ^ 31) x

-- The buffer of printint at its end. One unit of fuel for each bit is more than enough.
unfoldable pub number_buf : List ℕ → ℕ → Bool → ℕ → List ℕ
number_buf table base signed x =
    if signed && is_negative x
    then digits_of 32 table base (2 ^ 32 - x) ++ (b'-' ∷ [])
    else digits_of 32 table base x

-- The bytes in the order in which they are written.
unfoldable pub number : List ℕ → ℕ → Bool → ℕ → List ℕ
number table base signed x = reverse (number_buf table base signed x)

-- "(null)"
abbrev null_text : List ℕ
null_text = b'(' ∷ b'n' ∷ b'u' ∷ b'l' ∷ b'l' ∷ b')' ∷ []

-- The bytes of the string at an address, for %s.
abbrev pub text_at : (ℕ → List ℕ) → ℕ → List ℕ
text_at string s = if s == 0 then null_text else string s

abbrev pub percent : ℕ
percent = b'%'
