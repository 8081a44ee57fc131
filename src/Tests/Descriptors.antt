-- ===== src/Tests/Descriptors.antt =====
-- Runs of the calls on file descriptors.
use os_lab.Prelude.{
  ℕ, List, ◌∷◌, [], some, none, ◌≡◌, true, false, ◌⊎◌, suc, zero, refl, count, arith, if◌then◌else◌,
  ◌==◌, ◌||◌, length,
}
use os_lab.Prelude.Int.{pos}
use os_lab.Files.{File, ok, fd_inode, fd_none, Table}
use os_lab.Sysfile.{Sys, sys_pipe}
use os_lab.Sysfile.Counts.{Counted}
use os_lab.Sysfile.Install.{sys_pipe_lem, Refused, Installed}
use os_lab.Sysfile.Handlers.{run_events, run_events-Counted, Event, dup, close, pipe}
use os_lab.Syscall.{argptr}
use os_lab.Sysfile.Pipes.{IsEnd}
use os_lab.Sysfile.Exec.{ExecOutcome, sys_exec_lem}

abbrev unused_file : File
unused_file = record {
  type = fd_none;
  ref = 0;
  readable = false;
  writable = false;
  pipe = 0;
  ip = 0;
  off = 0;
}

abbrev inode_entry : File
inode_entry = record {
  type = fd_inode;
  ref = 1;
  readable = true;
  writable = true;
  pipe = 0;
  ip = 5;
  off = 0;
}

-- One descriptor in use, and room for three more; all arguments are 0.
abbrev start : Sys
start = record {
  files = inode_entry ∷ unused_file ∷ unused_file ∷ [];
  ofile = some 0 ∷ none ∷ none ∷ none ∷ [];
  closed = [];
  memory = λ a. 0;
}

abbrev nobody : ℕ → ℕ
nobody i = 0

start-Counted : Counted nobody start
unfolding count
start-Counted zero = refl
start-Counted (suc zero) = refl
start-Counted (suc (suc zero)) = refl
start-Counted (suc (suc (suc i))) = ground arith

abbrev script : List Event
script = dup 0 ∷ pipe 0 (some 7) ∷ close 0 ∷ []

run_events-Counted_example : (s' : Sys) × (run_events 4096 script start ≡ ok s') × Counted nobody s'
run_events-Counted_example = run_events-Counted 4096 script start nobody start-Counted

sys_pipe_lem_example :
    Refused nobody start (sys_pipe 4096 0 (some 7) start)
    ⊎ ((a : ℕ) × (rf : ℕ) × (wf : ℕ) × (p : ℕ) × (t : Table) × (some 7 ≡ some p)
        × (argptr start.memory 4096 0 0 (pos 8) ≡ some a)
        × Installed nobody (record start { files = t }) a rf wf (sys_pipe 4096 0 (some 7) start)
        × IsEnd t p rf false
        × IsEnd t p wf true)
sys_pipe_lem_example = sys_pipe_lem 4096 0 start nobody (some 7) start-Counted

-- The stack pointer is 32: the path is the string A at 16, and the vector, with this string as the
-- only argument, is at 64.
abbrev vector : ℕ → ℕ
vector a = if a == 36 || a == 64 then 16 else if a == 40 then 64 else if a == 16 then 65 else 0

sys_exec_lem_example : ExecOutcome vector 4096 (λ path argv. pos (length argv)) 32
sys_exec_lem_example = sys_exec_lem vector 4096 (λ path argv. pos (length argv)) 32
