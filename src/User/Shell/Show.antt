-- ===== src/User/Shell/Show.antt =====
-- Commands written out as lines: each part of a command in parentheses, each word with a blank.
use os_lab.Prelude.{
  ℕ, ◌+◌, ◌*◌, ◌<◌, ◌≤◌, ◌≡◌, ◌==◌, ◌⊎◌, if◌then◌else◌, true, List, [], ◌∷◌, ◌++◌, length, arith,
  length-append,
}
use os_lab.User.Shell.{
  Redir, Cmd, in_word, exec_cmd, redir_of, redir_cmd, max_args, pipe_cmd, list_cmd, back_cmd,
}

unfoldable pub show_words : List (List ℕ) → List ℕ
show_words [] = []
show_words (w ∷ ws) = w ++ (32 ∷ show_words ws)

unfoldable pub show_redir : Redir → List ℕ
show_redir r = (if r.fd == 0 then b'<' else b'>') ∷ r.file ++ (32 ∷ [])

unfoldable pub show : Cmd → List ℕ
unfolding show_words show_redir
show (exec_cmd ws) = show_words ws
show (redir_cmd c r) = b'(' ∷ show c ++ (b')' ∷ show_redir r)
show (pipe_cmd l r) = b'(' ∷ show l ++ (b')' ∷ b'|' ∷ b'(' ∷ show r ++ (b')' ∷ []))
show (list_cmd l r) = b'(' ∷ show l ++ (b')' ∷ b';' ∷ b'(' ∷ show r ++ (b')' ∷ []))
show (back_cmd c) = b'(' ∷ show c ++ (b')' ∷ b'&' ∷ [])

-- Bytes that belong to words, and one at least.
abbrev pub AllWord : List ℕ → Type 0
AllWord [] = Unit {0}
AllWord (c ∷ w) = (in_word c ≡ true) × AllWord w

abbrev pub IsWord : List ℕ → Type 0
IsWord [] = ⊥
IsWord (c ∷ w) = (in_word c ≡ true) × AllWord w

abbrev pub AreWords : List (List ℕ) → Type 0
AreWords [] = Unit {0}
AreWords (w ∷ ws) = IsWord w × AreWords ws

-- A redirection of the input or of the output.
abbrev pub IsRedir : Redir → Type 0
IsRedir r = IsWord r.file × ((r ≡ redir_of b'<' r.file) ⊎ (r ≡ redir_of b'>' r.file))

-- The commands that a user can ask for: at most nine words each.
abbrev pub IsCommand : Cmd → Type 0
IsCommand (exec_cmd ws) = AreWords ws × (length ws < max_args)
IsCommand (redir_cmd c r) = IsCommand c × IsRedir r
IsCommand (pipe_cmd l r) = IsCommand l × IsCommand r
IsCommand (list_cmd l r) = IsCommand l × IsCommand r
IsCommand (back_cmd c) = IsCommand c

-- The depth of calls that parseline needs for a command.
unfoldable pub cost : Cmd → ℕ
cost (exec_cmd ws) = 3
cost (redir_cmd c r) = cost c + 5
cost (pipe_cmd l r) = cost l + cost r + 5
cost (list_cmd l r) = cost l + cost r + 5
cost (back_cmd c) = cost c + 5

pub cost-le : (c : Cmd) → cost c ≤ 4 * length (show c) + 4
unfolding cost show
cost-le (exec_cmd ws) = omega arith
cost-le (redir_cmd c r) = omega (arith, cost-le c, length-append (show c) (b')' ∷ show_redir r))
cost-le (pipe_cmd l r) = omega (
  arith,
  cost-le l,
  cost-le r,
  length-append (show l) (b')' ∷ b'|' ∷ b'(' ∷ show r ++ (b')' ∷ [])),
  length-append (show r) (b')' ∷ []),
)
cost-le (list_cmd l r) = omega (
  arith,
  cost-le l,
  cost-le r,
  length-append (show l) (b')' ∷ b';' ∷ b'(' ∷ show r ++ (b')' ∷ [])),
  length-append (show r) (b')' ∷ []),
)
cost-le (back_cmd c) = omega (arith, cost-le c, length-append (show c) (b')' ∷ b'&' ∷ []))
