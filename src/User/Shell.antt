-- ===== src/User/Shell.antt =====
-- sh.c: the parser of the shell. A position in the line is the list of the bytes from it on, which
-- have no NUL among them; a word that a command points to is its bytes, as nulterminate cuts them.
pub mod Show
pub mod Words
pub mod Blocks
pub mod Reparse
pub mod Rounds
pub mod Endings
pub mod Run
use os_lab.Prelude.{
  ℕ, ◌+◌, ◌*◌, ◌==◌, ◌&&◌, ◌||◌, not, if◌then◌else◌, Bool, false, List, [], ◌∷◌, ◌++◌, zero, suc,
  leb, length,
}

-- strchr(s, c) != 0
abbrev pub elem : ℕ → List ℕ → Bool
elem c [] = false
elem c (d ∷ s) = d == c || elem c s

-- " \t\r\n\v"
abbrev pub whitespace : List ℕ
whitespace = 32 ∷ 9 ∷ 13 ∷ 10 ∷ 11 ∷ []

-- "<|>&;()"
abbrev pub symbols : List ℕ
symbols = b'<' ∷ b'|' ∷ b'>' ∷ b'&' ∷ b';' ∷ b'(' ∷ b')' ∷ []

abbrev pub max_args : ℕ
max_args = 10

-- The modes of a redirection: O_RDONLY, and O_WRONLY|O_CREATE.
abbrev o_rdonly : ℕ
o_rdonly = 0

abbrev o_wronly_create : ℕ
o_wronly_create = 0x201

pub record Redir : Type 0 where
  pub file : List ℕ
  pub mode : ℕ
  pub fd : ℕ

-- struct cmd
pub data Cmd : Type 0 where
  exec_cmd : List (List ℕ) → Cmd
  redir_cmd : Cmd → Redir → Cmd
  pipe_cmd : Cmd → Cmd → Cmd
  list_cmd : Cmd → Cmd → Cmd
  back_cmd : Cmd → Cmd

-- The calls of panic; `endless` means that the fuel ran out.
pub data ParseError : Type 0 where
  leftovers missing_file no_block missing_paren syntax too_many_args endless : ParseError

pub data Parsed (A : Type 0) : Type 0 where
  ok : A → List ℕ → Parsed A
  panic : ParseError → Parsed A

abbrev pub then_parse : {A B : Type 0} → Parsed A → (A → List ℕ → Parsed B) → Parsed B
then_parse (ok a s) f = f a s
then_parse (panic e) f = panic e

-- while(s < es && strchr(whitespace, *s)) s++;
unfoldable pub skip_space : List ℕ → List ℕ
skip_space [] = []
skip_space (c ∷ s) = if elem c whitespace then skip_space s else c ∷ s

abbrev pub in_word : ℕ → Bool
in_word c = not (elem c whitespace) && not (elem c symbols)

-- The word at the start, and what follows it.
unfoldable pub span_word : List ℕ → List ℕ × List ℕ
span_word [] = ([], [])
span_word (c ∷ s) = if in_word c then (c ∷ (span_word s).0, (span_word s).1) else ([], c ∷ s)

-- `ret`, the token from `*q` to `*eq`, and the position behind it.
pub record Token : Type 0 where
  pub kind : ℕ
  pub text : List ℕ
  pub rest : List ℕ

-- The switch of gettoken, without its last skip.
unfoldable pub token_at : List ℕ → Token
token_at [] = record { kind = 0; text = []; rest = [] }
token_at (c ∷ []) =
    if elem c symbols
    then record { kind = c; text = c ∷ []; rest = [] }
    else record { kind = b'a'; text = (span_word (c ∷ [])).0; rest = (span_word (c ∷ [])).1 }
token_at (c ∷ d ∷ s) =
    if c == b'>' && d == b'>'
    then record { kind = b'+'; text = c ∷ d ∷ []; rest = s }
    else if elem c symbols
    then record { kind = c; text = c ∷ []; rest = d ∷ s }
    else record { kind = b'a'; text = (span_word (c ∷ d ∷ s)).0; rest = (span_word (c ∷ d ∷ s)).1 }

unfoldable pub gettoken : List ℕ → Token
gettoken s = let t = token_at (skip_space s) in record t { rest = skip_space t.rest }

-- The test of peek; it leaves the position behind the whitespace, which is `skip_space s`.
abbrev begins : List ℕ → List ℕ → Bool
begins toks [] = false
begins toks (c ∷ s) = elem c toks

unfoldable pub peek : List ℕ → List ℕ → Bool
peek toks s = begins toks (skip_space s)

-- redircmd, once for each redirection, from the first on.
unfoldable pub wrap : Cmd → List Redir → Cmd
wrap cmd [] = cmd
wrap cmd (r ∷ rs) = wrap (redir_cmd cmd r) rs

abbrev pub redir_of : ℕ → List ℕ → Redir
redir_of tok file =
    if tok == b'<'
    then record { file = file; mode = o_rdonly; fd = 0 }
    else record { file = file; mode = o_wronly_create; fd = 1 }

-- The loop of parseredirs, by fuel: the redirections.
unfoldable pub redirs_from : ℕ → List ℕ → Parsed (List Redir)
redirs_from zero s = panic endless
redirs_from (suc fuel) s =
    let tok = gettoken (skip_space s) in
    let name = gettoken tok.rest in
    let rest = redirs_from fuel name.rest in
    if not (peek (b'<' ∷ b'>' ∷ []) s)
    then ok [] (skip_space s)
    else if not (name.kind == b'a')
    then panic missing_file
    else then_parse rest (λ rs s'. ok (redir_of tok.kind name.text ∷ rs) s')

unfoldable pub parseredirs : List ℕ → Parsed (List Redir)
parseredirs s = redirs_from (length s + 1) s

-- The loop of parseexec, by fuel, with the number of words so far: the words and the redirections
-- among them.
unfoldable pub args_from : ℕ → ℕ → List ℕ → Parsed (List (List ℕ) × List Redir)
args_from zero argc s = panic endless
args_from (suc fuel) argc s =
    let tok = gettoken (skip_space s) in
    let rest : Parsed (List (List ℕ) × List Redir) = then_parse (parseredirs tok.rest) (λ rs s'.
      then_parse (args_from fuel (argc + 1) s') (λ r s''. ok (tok.text ∷ r.0, rs ++ r.1) s'')) in
    if peek (b'|' ∷ b')' ∷ b'&' ∷ b';' ∷ []) s
    then ok ([], []) (skip_space s)
    else if tok.kind == 0
    then ok ([], []) tok.rest
    else if not (tok.kind == b'a')
    then panic syntax
    else if leb max_args (argc + 1)
    then panic too_many_args
    else rest

-- parseexec behind its test for a block. The words go into the command inside the redirections.
unfoldable pub parse_words : List ℕ → Parsed Cmd
parse_words s = then_parse (parseredirs s) (λ rs s'.
    then_parse (args_from (length s' + 1) 0 s') (λ r s''. ok (wrap (exec_cmd r.0) (rs ++ r.1)) s''))

-- while(peek(ps, es, "&")) in parseline, by fuel.
unfoldable pub backs_from : ℕ → Cmd → List ℕ → Parsed Cmd
backs_from zero cmd s = panic endless
backs_from (suc fuel) cmd s =
    let rest = backs_from fuel (back_cmd cmd) (gettoken (skip_space s)).rest in
    if peek (b'&' ∷ []) s then rest else ok cmd (skip_space s)

unfoldable mutual
  pub parseline : ℕ → List ℕ → Parsed Cmd
  parseline zero s = panic endless
  parseline (suc fuel) s = then_parse (parsepipe fuel s) (λ cmd s1.
      then_parse (backs_from (length s1 + 1) cmd s1) (λ cmd' s2.
        let rest : Parsed Cmd =
          then_parse (parseline fuel (gettoken (skip_space s2)).rest)
            (λ right s3. ok (list_cmd cmd' right) s3) in
        if peek (b';' ∷ []) s2 then rest else ok cmd' (skip_space s2)))

  pub parsepipe : ℕ → List ℕ → Parsed Cmd
  parsepipe zero s = panic endless
  parsepipe (suc fuel) s = then_parse (parseexec fuel s) (λ cmd s1.
      let rest : Parsed Cmd =
        then_parse (parsepipe fuel (gettoken (skip_space s1)).rest)
          (λ right s2. ok (pipe_cmd cmd right) s2) in
      if peek (b'|' ∷ []) s1 then rest else ok cmd (skip_space s1))

  pub parseexec : ℕ → List ℕ → Parsed Cmd
  parseexec zero s = panic endless
  parseexec (suc fuel) s =
      let block = parseblock fuel (skip_space s) in
      if peek (b'(' ∷ []) s then block else parse_words (skip_space s)

  pub parseblock : ℕ → List ℕ → Parsed Cmd
  parseblock zero s = panic endless
  parseblock (suc fuel) s =
      let inner : Parsed Cmd = then_parse (parseline fuel (gettoken (skip_space s)).rest) (λ cmd s1.
        if not (peek (b')' ∷ []) s1)
        then panic missing_paren
        else then_parse (parseredirs (gettoken (skip_space s1)).rest)
            (λ rs s2. ok (wrap cmd rs) s2)) in
      if not (peek (b'(' ∷ []) s) then panic no_block else inner

-- Four calls for each byte are enough.
unfoldable pub parsecmd : List ℕ → Parsed Cmd
parsecmd s =
    then_parse (parseline (4 * length s + 4) s)
      (λ cmd s'. if length (skip_space s') == 0 then ok cmd [] else panic leftovers)
