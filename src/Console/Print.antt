-- ===== src/Console/Print.antt =====
-- console.c: printint and cprintf. The lock of the console is taken only once `locking` is set.
use os_lab.Prelude.{ℕ, ◌+◌, ◌==◌, ◌||◌, if◌then◌else◌, Bool, true, false, List, [], ◌∷◌}
use os_lab.Format.{number, text_at, percent}
use os_lab.Console.{Console, consputc}

-- "0123456789abcdef"
abbrev pub lower_digits : List ℕ
lower_digits =
    b'0' ∷ b'1' ∷ b'2' ∷ b'3' ∷ b'4' ∷ b'5' ∷ b'6' ∷ b'7' ∷ b'8' ∷ b'9' ∷ b'a' ∷ b'b' ∷ b'c' ∷ b'd'
    ∷ b'e' ∷ b'f' ∷ []

-- consputc of each byte.
unfoldable pub put_all : List ℕ → Console → Console
put_all [] s = s
put_all (c ∷ cs) s = put_all cs (consputc c s)

unfoldable pub printint : ℕ → ℕ → Bool → Console → Console
printint xx base sign s = put_all (number lower_digits base sign xx) s

-- The cases of the switch: the console after it, and whether an argument was taken.
unfoldable pub print_item : (ℕ → List ℕ) → ℕ → ℕ → Console → Console × Bool
print_item string word c s =
    if c == b'd'
    then (printint word 10 true s, true)
    else if c == b'x' || c == b'p'
    then (printint word 16 false s, true)
    else if c == b's'
    then (put_all (text_at string word) s, true)
    else if c == percent
    then (consputc percent s, false)
    else (consputc c (consputc percent s), false)

-- The loop of cprintf. A '%' at the end of the format ends it.
unfoldable pub cprintf_from : (ℕ → List ℕ) → (ℕ → ℕ) → ℕ → List ℕ → Console → Console
cprintf_from string arg i [] s = s
cprintf_from string arg i (c ∷ []) s = if c == percent then s else consputc c s
cprintf_from string arg i (c ∷ d ∷ fmt) s =
    let plain = cprintf_from string arg i (d ∷ fmt) (consputc c s) in
    let r = print_item string (arg i) d s in
    let item = cprintf_from string arg (if r.1 then i + 1 else i) fmt r.0 in
    if c == percent then item else plain

unfoldable pub cprintf : (ℕ → List ℕ) → (ℕ → ℕ) → List ℕ → Console → Console
cprintf string arg fmt s = cprintf_from string arg 0 fmt s
