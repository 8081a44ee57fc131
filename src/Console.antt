-- ===== src/Console.antt =====
-- console.c: the line that is being typed, what consoleread takes of it, and the text screen.
pub mod Line
pub mod Typing
pub mod Print
use os_lab.Prelude.{
  ℕ, ◌+◌, ◌-◌, ◌*◌, ◌/◌, ◌%◌, ◌^◌, ◌==◌, ◌&&◌, ◌||◌, if◌then◌else◌, Bool, true, false, not, zero,
  suc, List, [], ◌∷◌, ◌++◌, get_or, set, ltb, leb, Option, none, some,
}
use os_lab.Prelude.Int.{ℤ, pos, negsuc}

abbrev pub input_buf : ℕ
input_buf = 128

-- BACKSPACE, C('P'), C('U'), C('H'), '\x7f', C('D'), '\r', '\n'
abbrev backspace : ℕ
backspace = 256

abbrev pub ctrl_p : ℕ
ctrl_p = 16

abbrev pub ctrl_u : ℕ
ctrl_u = 21

abbrev pub ctrl_h : ℕ
ctrl_h = 8

abbrev pub delete : ℕ
delete = 127

abbrev pub ctrl_d : ℕ
ctrl_d = 4

abbrev pub carriage_return : ℕ
carriage_return = 13

abbrev pub newline : ℕ
newline = 10

-- `input`; the indices are `uint`.
pub record Input : Type 0 where
  pub buf : List ℕ
  pub r : ℕ
  pub w : ℕ
  pub e : ℕ

-- The input, the characters given to consputc so far, whether the readers were woken, and whether
-- a process listing was asked for.
pub record Console : Type 0 where
  pub input : Input
  pub echoed : List ℕ
  pub woken : Bool
  pub listing : Bool

abbrev pub at : Input → ℕ → ℕ
at i n = get_or i.buf (n % input_buf) 0

abbrev pub before : ℕ → ℕ
before n = (n + 2 ^ 32 - 1) % 2 ^ 32

unfoldable pub consputc : ℕ → Console → Console
consputc c s = record s { echoed = s.echoed ++ c ∷ [] }

-- input.e--; consputc(BACKSPACE);
unfoldable pub erase : Console → Console
erase s = consputc backspace (record s { input = record (s.input) { e = before s.input.e } })

-- The loop of C('U'), with fuel for each place of the buffer.
unfoldable pub kill_line : ℕ → Console → Console
kill_line zero s = s
kill_line (suc n) s =
    let rest = kill_line n (erase s) in
    if not (s.input.e == s.input.w) && not (at s.input (before s.input.e) == newline)
    then rest
    else s

-- input.buf[input.e++ % INPUT_BUF] = c; consputc(c);
unfoldable pub append : ℕ → Console → Console
append c s = consputc c (record s {
  input = record (s.input) {
    buf = set s.input.buf (s.input.e % input_buf) c;
    e = (s.input.e + 1) % 2 ^ 32;
  };
})

-- input.w = input.e; wakeup(&input.r);
unfoldable pub commit_line : Console → Console
commit_line s = record s { input = record (s.input) { w = s.input.e }; woken = true }

-- The default case, for the character after the exchange of '\r'.
unfoldable pub type_char : ℕ → Console → Console
type_char c s =
    let s' = append c s in
    if c == newline || c == ctrl_d || s'.input.e == (s'.input.r + input_buf) % 2 ^ 32
    then commit_line s'
    else s'

-- One round of the loop of consoleintr.
unfoldable pub key : ℕ → Console → Console
key c s =
    if c == ctrl_p
    then record s { listing = true }
    else if c == ctrl_u
    then kill_line (input_buf + 1) s
    else if c == ctrl_h || c == delete
    then (if not (s.input.e == s.input.w) then erase s else s)
    else if not (c == 0) && ltb ((s.input.e + 2 ^ 32 - s.input.r) % 2 ^ 32) input_buf
    then type_char (if c == carriage_return then newline else c) s
    else s

-- consoleintr, for the characters that getc gives before it gives -1.
unfoldable pub consoleintr : List ℕ → Console → Console
consoleintr [] s = s
consoleintr (c ∷ cs) s = consoleintr cs (key c s)

-- The loop of consoleread for `n` more bytes, as long as it does not sleep: the bytes, and the input.
-- `none` means that it would sleep. `first` is `n == target`.
unfoldable pub read_line : ℕ → Bool → Input → Option (List ℕ × Input)
read_line zero first i = some ([], i)
read_line (suc n) first i =
    let rest = read_line n false (record i { r = (i.r + 1) % 2 ^ 32 }) in
    let c = at i i.r in
    if i.r == i.w
    then none
    else if c == ctrl_d
    then some ([], if first then record i { r = (i.r + 1) % 2 ^ 32 } else i)
    else if c == newline
    then some (c ∷ [], record i { r = (i.r + 1) % 2 ^ 32 })
    else elim rest [ none ↦ none | some (bs, j) ↦ some (c ∷ bs, j) ]

-- consoleread, where no process sleeps in it.
unfoldable pub consoleread : ℕ → Input → Option (List ℕ × Input)
consoleread n i = read_line n true i

-- consolewrite: the low bytes, one by one.
unfoldable pub consolewrite : List ℕ → Console → Console
consolewrite [] s = s
consolewrite (b ∷ bs) s = consolewrite bs (consputc (b % 256) s)

-- CGA memory, and the cursor that the CRT ports keep.
pub record Screen : Type 0 where
  pub crt : ℕ → ℕ
  pub cursor : ℕ

-- `pos` after the character, and the memory; '\n' and BACKSPACE write nothing.
unfoldable pub place_char : ℕ → Screen → Screen
place_char c s =
    if c == newline
    then record s { cursor = s.cursor + (80 - s.cursor % 80) }
    else if c == backspace
    then (if ltb 0 s.cursor then record s { cursor = s.cursor - 1 } else s)
    else record {
      crt = λ i. if i == s.cursor then c % 256 + 0x700 else s.crt i;
      cursor = s.cursor + 1;
    }

-- Scroll up: 23 lines move, and the rest of the 24 lines is cleared.
unfoldable pub scroll : Screen → Screen
scroll s =
    if leb 24 (s.cursor / 80)
    then record {
      crt = λ i.
          if leb (s.cursor - 80) i && ltb i (24 * 80)
          then 0
          else if ltb i (23 * 80)
          then s.crt (i + 80)
          else s.crt i;
      cursor = s.cursor - 80;
    }
    else s

-- `none` is the panic.
unfoldable pub cgaputc : ℕ → Screen → Option Screen
cgaputc c s =
    let s' = place_char c s in
    let t = scroll s' in
    if ltb (25 * 80) s'.cursor
    then none
    else some (record t { crt = λ i. if i == t.cursor then 32 + 0x700 else t.crt i })
