-- ===== src/User/Printf.antt =====
-- printf.c: what printf writes. `string` gives the bytes of the string at an address, `arg` the words
-- behind the format on the stack.
pub mod Agree
use os_lab.Prelude.{ℕ, ◌+◌, ◌%◌, ◌==◌, ◌||◌, if◌then◌else◌, Bool, true, false, List, [], ◌∷◌, ◌++◌}
use os_lab.Format.{number, text_at, percent}

-- "0123456789ABCDEF"
abbrev pub upper_digits : List ℕ
upper_digits =
    b'0' ∷ b'1' ∷ b'2' ∷ b'3' ∷ b'4' ∷ b'5' ∷ b'6' ∷ b'7' ∷ b'8' ∷ b'9' ∷ b'A' ∷ b'B' ∷ b'C' ∷ b'D'
    ∷ b'E' ∷ b'F' ∷ []

unfoldable pub printint : ℕ → ℕ → Bool → List ℕ
printint xx base sgn = number upper_digits base sgn xx

-- A conversion: the bytes, and whether it takes an argument.
unfoldable pub convert : (ℕ → List ℕ) → ℕ → ℕ → List ℕ × Bool
convert string word c =
    if c == b'd'
    then (printint word 10 true, true)
    else if c == b'x' || c == b'p'
    then (printint word 16 false, true)
    else if c == b's'
    then (text_at string word, true)
    else if c == b'c'
    then ((word % 256) ∷ [], true)
    else if c == percent
    then (percent ∷ [], false)
    else (percent ∷ c ∷ [], false)

abbrev pub after_arg : Bool → ℕ → ℕ
after_arg takes i = if takes then i + 1 else i

-- The loop over the format; the Boolean says that state is '%', and `i` counts the arguments taken.
unfoldable pub printf_from : (ℕ → List ℕ) → (ℕ → ℕ) → Bool → ℕ → List ℕ → List ℕ
printf_from string arg state i [] = []
printf_from string arg true i (c ∷ fmt) =
    let r = convert string (arg i) c in r.0 ++ printf_from string arg false (after_arg r.1 i) fmt
printf_from string arg false i (c ∷ fmt) =
    let plain = c ∷ printf_from string arg false i fmt in
    let next = printf_from string arg true i fmt in if c == percent then next else plain

unfoldable pub printf : (ℕ → List ℕ) → (ℕ → ℕ) → List ℕ → List ℕ
printf string arg fmt = printf_from string arg false 0 fmt
