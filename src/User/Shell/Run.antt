-- ===== src/User/Shell/Run.antt =====
-- runcmd of sh.c: the system calls that a command makes, as a tree. A call that can fail has a branch
-- for each outcome, and fork one for each of the two processes.
pub mod Machine
pub mod Meaning
pub mod Wiring
pub mod Agrees
pub mod Parsed
use os_lab.Prelude.{ℕ, List, [], ◌∷◌}
use os_lab.User.Printf.{printf}
use os_lab.User.Shell.{Cmd, Redir, exec_cmd, redir_cmd, pipe_cmd, list_cmd, back_cmd}

-- What a process does from here on. exec goes on only if it fails; `write` writes to descriptor 2;
-- the branches of fork are the failure, the child and the parent, in this order.
pub data Process : Type 0 where
  exit : Process
  exec : List (List ℕ) → Process → Process
  write : List ℕ → Process → Process
  close : ℕ → Process → Process
  dup : ℕ → Process → Process
  open_file : List ℕ → ℕ → Process → Process → Process
  pipe : (ℕ → ℕ → Process) → Process → Process
  fork : Process → Process → Process → Process
  wait : Process → Process

-- printf(2, fmt, s)
abbrev pub message : List ℕ → List ℕ → List ℕ
message fmt s = printf (λ address. s) (λ i. 1) fmt

-- "exec %s failed\n"
abbrev exec_failed : List ℕ
exec_failed =
    b'e' ∷ b'x' ∷ b'e' ∷ b'c' ∷ b' ' ∷ b'%' ∷ b's' ∷ b' ' ∷ b'f' ∷ b'a' ∷ b'i' ∷ b'l' ∷ b'e' ∷ b'd'
    ∷ 10 ∷ []

-- "open %s failed\n"
abbrev open_failed : List ℕ
open_failed =
    b'o' ∷ b'p' ∷ b'e' ∷ b'n' ∷ b' ' ∷ b'%' ∷ b's' ∷ b' ' ∷ b'f' ∷ b'a' ∷ b'i' ∷ b'l' ∷ b'e' ∷ b'd'
    ∷ 10 ∷ []

-- panic(s)
unfoldable pub panic : List ℕ → Process
panic s = write (message (b'%' ∷ b's' ∷ 10 ∷ []) s) exit

abbrev fork_text : List ℕ
fork_text = b'f' ∷ b'o' ∷ b'r' ∷ b'k' ∷ []

abbrev pipe_text : List ℕ
pipe_text = b'p' ∷ b'i' ∷ b'p' ∷ b'e' ∷ []

-- `if(fork1() == 0) child` with what follows.
unfoldable pub fork1 : Process → Process → Process
fork1 child parent = fork (panic fork_text) child parent

unfoldable pub runcmd : Cmd → Process
runcmd (exec_cmd []) = exit
runcmd (exec_cmd (name ∷ args)) = exec (name ∷ args) (write (message exec_failed name) exit)
runcmd (redir_cmd c r) =
    close r.fd (open_file r.file r.mode (runcmd c) (write (message open_failed r.file) exit))
runcmd (list_cmd left right) = fork1 (runcmd left) (wait (runcmd right))
runcmd (pipe_cmd left right) =
    pipe
      (λ p0 p1. fork1 (close 1 (dup p1 (close p0 (close p1 (runcmd left))))) (
        fork1 (close 0 (dup p0 (close p0 (close p1 (runcmd right)))))
          (close p0 (close p1 (wait (wait exit))))))
      (panic pipe_text)
runcmd (back_cmd c) = fork1 (runcmd c) exit
