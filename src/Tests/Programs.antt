-- ===== src/Tests/Programs.antt =====
-- Lines, formats and commands on which the theorems on the user programs are run.
use os_lab.Prelude.{
  ℕ, List, [], ◌∷◌, ◌++◌, true, false, arith, refl, ◌≡◌, ◌↔◌, take, drop, inr, some, none,
}
use os_lab.Format.{percent}
use os_lab.Console.{Console}
use os_lab.Console.Print.{cprintf}
use os_lab.User.Grep.{Text, match, grep, match_from, matchhere, matchstar}
use os_lab.User.Grep.Regex.{Occurs, match_iff}
use os_lab.User.Grep.Lines.{file_of, matching}
use os_lab.User.Grep.Output.{grep_lem}
use os_lab.User.Library.{atoi}
use os_lab.User.Printf.{printf}
use os_lab.User.Printf.Agree.{atoi-printf, cprintf-printf}
use os_lab.User.Shell.{
  Cmd, exec_cmd, redir_cmd, pipe_cmd, list_cmd, back_cmd, ok, parsecmd, redir_of,
}
use os_lab.User.Shell.Show.{show, IsCommand}
use os_lab.User.Shell.Reparse.{parsecmd-show}
use os_lab.User.Shell.Rounds.{StopsWithin}
use os_lab.User.Shell.Endings.{parsecmd-stops}
use os_lab.User.Shell.Run.Machine.{World, Fds, run, given}
use os_lab.User.Shell.Run.{runcmd}
use os_lab.User.Shell.Run.Meaning.{meaning}
use os_lab.User.Shell.Run.Parsed.{parsecmd-runcmd}

-- "b.*d$" and "abccd"
abbrev pattern_text : Text
pattern_text = b'b' ∷ b'.' ∷ b'*' ∷ b'd' ∷ b'$' ∷ []

abbrev line_text : Text
line_text = b'a' ∷ b'b' ∷ b'c' ∷ b'c' ∷ b'd' ∷ []

match_test : match pattern_text line_text ≡ true
unfolding match match_from matchhere matchstar
match_test = refl

match_iff_example : (match pattern_text line_text ≡ true) ↔ Occurs pattern_text line_text
match_iff_example = match_iff pattern_text line_text

abbrev read_all : ℕ → Text → Text × Text
read_all n file = (take n file, drop n file)

abbrev text_lines : List Text
text_lines = line_text ∷ (b'x' ∷ []) ∷ []

grep_lem_example :
    grep read_all pattern_text (file_of text_lines) ≡ file_of (matching pattern_text text_lines)
grep_lem_example = grep_lem read_all pattern_text text_lines (λ n file. refl) (omega arith)

abbrev no_string : ℕ → List ℕ
no_string a = []

abbrev words : ℕ → ℕ
words i = 1384

atoi-printf_example : atoi (printf no_string words (percent ∷ b'd' ∷ [])) ≡ 1384
atoi-printf_example = atoi-printf no_string words (omega arith)

-- "pid %d %s"
abbrev format : List ℕ
format = b'p' ∷ b'i' ∷ b'd' ∷ 32 ∷ percent ∷ b'd' ∷ 32 ∷ percent ∷ b's' ∷ []

abbrev screen : Console
screen = record {
  input = record { buf = []; r = 0; w = 0; e = 0 };
  echoed = b'$' ∷ [];
  woken = false;
  listing = false;
}

cprintf-printf_example :
    cprintf no_string words format screen
    ≡ record screen { echoed = screen.echoed ++ printf no_string words format }
cprintf-printf_example = cprintf-printf no_string words format screen (refl, (refl, tt))

-- (((cat x)|(wc))>out );((ls)&)
abbrev command : Cmd
command =
    list_cmd
      (redir_cmd
        (pipe_cmd (exec_cmd ((b'c' ∷ b'a' ∷ b't' ∷ []) ∷ (b'x' ∷ []) ∷ []))
          (exec_cmd ((b'w' ∷ b'c' ∷ []) ∷ [])))
        (redir_of b'>' (b'o' ∷ b'u' ∷ b't' ∷ [])))
      (back_cmd (exec_cmd ((b'l' ∷ b's' ∷ []) ∷ [])))

IsCommand-command : IsCommand command
IsCommand-command = (
  (
    (
      (((refl, (refl, (refl, tt))), ((refl, tt), tt)), omega arith),
      (((refl, (refl, tt)), tt), omega arith),
    ),
    ((refl, (refl, (refl, tt))), inr refl),
  ),
  (((refl, (refl, tt)), tt), omega arith),
)

parsecmd-show_example : parsecmd (show command) ≡ ok command []
parsecmd-show_example = parsecmd-show command IsCommand-command

abbrev kind_world : World
kind_world = record {
  can_exec = λ argv. true;
  can_open = λ name mode. true;
  can_fork = λ who. true;
}

abbrev others : Fds
others = some (given 2) ∷ none ∷ none ∷ none ∷ []

parsecmd-runcmd_example :
    run kind_world [] [] 0 (some (given 0) ∷ some (given 1) ∷ others) (runcmd command)
    ≡ meaning kind_world [] [] 0 (given 0) (given 1) others command
parsecmd-runcmd_example =
    parsecmd-runcmd (show command) command (parsecmd-show command IsCommand-command) kind_world []
      [] 0 (given 0) (given 1) others

parsecmd-stops_example : StopsWithin 0 (parsecmd (b'l' ∷ b's' ∷ b'|' ∷ b'(' ∷ []))
parsecmd-stops_example = parsecmd-stops (b'l' ∷ b's' ∷ b'|' ∷ b'(' ∷ [])
