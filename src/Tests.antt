-- ===== src/Tests.antt =====
-- Test data: a process table and a kernel on which the theorems are run.
pub mod Sched
pub mod Switching
pub mod Memory
pub mod Disk
pub mod Paging
pub mod Programs
pub mod Descriptors
pub mod Turns
pub mod Calls
use os_lab.Prelude.{ℕ, List, none, some, false, true, [], ◌∷◌, refl, arith, count, ◌≡◌}
use os_lab.Prelude.Int.{ℤ, pos, negsuc}
use os_lab.Kernel.State.{
  Proc, ProcState, unused, embryo, sleeping, runnable, running, zombie, Kernel, Cpu, Counts,
}
use os_lab.Proc.Quiet.{Quiet}
use os_lab.Proc.Tally.{Tally}
use os_lab.Trap.{ticks_chan}

abbrev proc_of : ℤ → ProcState → ℕ → ℕ → ℤ → Proc
proc_of n st class level arrival = record {
  sz = 4096;
  pgdir = 1;
  kstack = 8192;
  state = st;
  pid = n;
  parent = none;
  eax = pos 0;
  chan = 0;
  killed = false;
  ofile = [];
  cwd = 0;
  name = [];
  sched_class = class;
  sched_level = level;
  deadline = pos 50;
  rr_ticks = pos 0;
  runnig_time = pos 0;
  arrival_time = arrival;
  waited_ticks = pos 0;
  consecutive_run = pos 0;
  max_consecutive_run = pos 0;
  last_run = pos 0;
}

-- init, asleep for the clock
abbrev pub sleeper : Proc
sleeper = record (proc_of (pos 1) sleeping 2 2 (pos 0)) { chan = ticks_chan }

abbrev pub waiting : Proc
waiting = proc_of (pos 2) runnable 2 2 (pos 10)

abbrev pub urgent : Proc
urgent = proc_of (pos 3) runnable 1 0 (pos 20)

abbrev pub shell : Proc
shell = proc_of (pos 4) running 2 1 (pos 30)

abbrev pub table : List Proc
table = sleeper ∷ waiting ∷ urgent ∷ shell ∷ []

abbrev pub kernel : Kernel
kernel = record {
  procs = table;
  counts = record { edf = pos 1; rr = pos 0; fcfs = pos 1 };
  next_pid = pos 5;
  ticks = 900;
  initproc = some 0;
  cpu = record { ncli = 0; intena = false; intr = true; proc = some 3 };
  ptable_held = false;
  ticks_held = false;
  other_held = λ n. false;
}

pub Tally-kernel : Tally kernel.procs kernel.counts
unfolding count
Tally-kernel = record { edf = refl; rr = refl; fcfs = refl }

pub Quiet-kernel : Quiet kernel
Quiet-kernel = record {
  nested = λ d. absurd (omega (arith, d));
  unlocked = refl;
  clock = refl;
  tally = Tally-kernel;
}
