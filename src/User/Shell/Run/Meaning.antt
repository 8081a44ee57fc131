-- ===== src/User/Shell/Run/Meaning.antt =====
-- What a command of the shell is meant to start, in terms of standard input and output alone.
use os_lab.Prelude.{
  ℕ, Bool, List, [], ◌∷◌, ◌++◌, ◌+◌, none, some, true, false, if◌then◌else◌, ◌==◌, ◌≡◌, ◌⊎◌,
}
use os_lab.User.Shell.{Cmd, Redir, exec_cmd, redir_cmd, pipe_cmd, list_cmd, back_cmd}
use os_lab.User.Shell.Run.{message, fork_text, pipe_text, exec_failed, open_failed}
use os_lab.User.Shell.Run.Machine.{Object, opened, pipe_end, Fds, Ending, runs, exits, World, slots}

-- The text that panic writes.
abbrev pub panic_text : List ℕ → List ℕ
panic_text s = message (b'%' ∷ b's' ∷ 10 ∷ []) s

abbrev pub stdin_of : Redir → Object → Object
stdin_of r a = if r.fd == 0 then opened r.file r.mode else a

abbrev pub stdout_of : Redir → Object → Object
stdout_of r b = if r.fd == 0 then b else opened r.file r.mode

-- Input `a`, output `b` and the other descriptors `rest` of the process that runs the command. The
-- left side of a pipe gets the write end as its output, the right side the read end as its input, and
-- nobody else gets an end; only the child of & is not waited for.
unfoldable pub meaning : World → List Bool → List ℕ → ℕ → Object → Object → Fds → Cmd → List Ending
meaning w who said kids a b rest (exec_cmd []) = exits said kids ∷ []
meaning w who said kids a b rest (exec_cmd (name ∷ args)) =
    if w.can_exec (name ∷ args)
    then runs (name ∷ args) (some a ∷ some b ∷ rest) ∷ []
    else exits (said ++ message exec_failed name) kids ∷ []
meaning w who said kids a b rest (redir_cmd c r) =
    let go = meaning w who said kids (stdin_of r a) (stdout_of r b) rest c in
    if w.can_open r.file r.mode then go else exits (said ++ message open_failed r.file) kids ∷ []
meaning w who said kids a b rest (list_cmd left right) =
    let go =
      meaning w (true ∷ who) [] 0 a b rest left
      ++ meaning w (false ∷ who) said kids a b rest right in
    if w.can_fork who then go else exits (said ++ panic_text fork_text) kids ∷ []
meaning w who said kids a b rest (pipe_cmd left right) =
    let me = false ∷ who in
    let first = meaning w (true ∷ me) [] 0 a (pipe_end who true) rest left in
    let second = meaning w (true ∷ false ∷ me) [] 0 (pipe_end who false) b rest right in
    elim (slots rest) [
      | none ↦ exits (said ++ panic_text pipe_text) kids ∷ []
      | some _ ↦
          if w.can_fork me
          then first
            ++ (if w.can_fork (false ∷ me)
                then second ++ (exits said kids ∷ [])
                else exits (said ++ panic_text fork_text) (kids + 1) ∷ [])
          else exits (said ++ panic_text fork_text) kids ∷ []
    ]
meaning w who said kids a b rest (back_cmd c) =
    let go = meaning w (true ∷ who) [] 0 a b rest c ++ (exits said (kids + 1) ∷ []) in
    if w.can_fork who then go else exits (said ++ panic_text fork_text) kids ∷ []

-- Every redirection is of descriptor 0 or 1, as the parser makes them.
abbrev pub IsStandard : Cmd → Type 0
IsStandard (exec_cmd argv) = Unit
IsStandard (redir_cmd c r) = ((r.fd ≡ 0) ⊎ (r.fd ≡ 1)) × IsStandard c
IsStandard (pipe_cmd left right) = IsStandard left × IsStandard right
IsStandard (list_cmd left right) = IsStandard left × IsStandard right
IsStandard (back_cmd c) = IsStandard c
