-- ===== src/User/Grep.antt =====
-- grep.c: the matcher of patterns, and the loop over the lines of a file.
pub mod Regex
pub mod Lines
pub mod Scan
pub mod Output
use os_lab.Prelude.{
  ℕ, Bool, Option, List, [], ◌∷◌, ◌++◌, true, false, none, some, zero, suc, ◌==◌, ◌-◌, ◌+◌, ◌&&◌,
  ◌||◌, if◌then◌else◌, length, take, drop,
}

abbrev pub Text : Type 0
Text = List ℕ

-- '^', '.', '*', '$' and '\n'
abbrev pub caret : ℕ
caret = 94

abbrev pub dot : ℕ
dot = 46

abbrev pub star : ℕ
star = 42

abbrev pub dollar : ℕ
dollar = 36

abbrev pub newline : ℕ
newline = 10

-- *text == '\0'
abbrev at_end : Text → Bool
at_end [] = true
at_end (t ∷ text) = false

-- The last test of matchhere: one byte, and then `rest`.
abbrev match_one : ℕ → (Text → Bool) → Text → Bool
match_one c rest [] = false
match_one c rest (t ∷ text) = if c == dot || c == t then rest text else false

-- `here` is matchhere of the pattern behind the star.
unfoldable pub matchstar : ℕ → (Text → Bool) → Text → Bool
matchstar c here [] = here []
matchstar c here (t ∷ text) = here (t ∷ text) || ((t == c || c == dot) && matchstar c here text)

unfoldable pub matchhere : Text → Text → Bool
matchhere [] text = true
matchhere (c ∷ []) text = if c == dollar then at_end text else match_one c (matchhere []) text
matchhere (c ∷ d ∷ re) text =
    if d == star then matchstar c (matchhere re) text else match_one c (matchhere (d ∷ re)) text

-- The loop of match: it looks at the empty string too.
unfoldable pub match_from : Text → Text → Bool
match_from re [] = matchhere re []
match_from re (t ∷ text) = matchhere re (t ∷ text) || match_from re text

unfoldable pub match : Text → Text → Bool
match [] text = match_from [] text
match (c ∷ re) text = if c == caret then matchhere re text else match_from (c ∷ re) text

-- strchr(p, '\n') on the bytes of the buffer: the line before it and what follows it. The search
-- ends at a NUL.
unfoldable pub find_line : Text → Option (Text × Text)
find_line [] = none
find_line (c ∷ p) =
    let rest : Option (Text × Text) = elim (find_line p) [
      | none ↦ none
      | some (line, q) ↦ some (c ∷ line, q)
    ] in
    if c == 0 then none else if c == newline then some ([], p) else rest

-- The inner loop of grep, by fuel: what is written, and the bytes behind the last line.
unfoldable pub scan_lines : ℕ → Text → Text → Text × Text
scan_lines zero pattern p = ([], p)
scan_lines (suc fuel) pattern p = elim (find_line p) [
  | none ↦ ([], p)
  | some (line, q) ↦
      let r = scan_lines fuel pattern q in
      (if match pattern line then line ++ (newline ∷ r.0) else r.0, r.1)
]

-- sizeof(buf) - 1
abbrev pub room : ℕ
room = 1023

-- What stays in the buffer: nothing if no line was found, that is, if p == buf.
unfoldable pub kept : Text → Text → Text
kept buf p = if length p == length buf then [] else p

-- The loop of grep, by fuel: what is written. `read n file` gives the bytes that a read of at most
-- `n` returns, and the file behind them; `buf` has the `m` bytes that were kept.
unfoldable pub grep_loop : ℕ → (ℕ → Text → Text × Text) → Text → Text → Text → Text
grep_loop zero read pattern buf file = []
grep_loop (suc fuel) read pattern buf file =
    let got = read (room - length buf) file in
    let buf' : Text = buf ++ got.0 in
    let r = scan_lines (length buf' + 1) pattern buf' in
    let rest = grep_loop fuel read pattern (kept buf' r.1) got.1 in
    if length got.0 == 0 then [] else r.0 ++ rest

-- Each read but the last takes a byte of the file.
unfoldable pub grep : (ℕ → Text → Text × Text) → Text → Text → Text
grep read pattern file = grep_loop (length file + 1) read pattern [] file
