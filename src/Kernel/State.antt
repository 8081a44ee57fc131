-- ===== src/Kernel/State.antt =====
-- proc.h, and the globals of proc.c and trap.c: the process table, the counters of runnable
-- processes, the clock, and the state of the CPU that runs the code. A pointer to a table entry is
-- its index; any other pointer is a number, with 0 for the null pointer.
use os_lab.Prelude.{ℕ, Bool, Option, List, ◌==◌, if◌then◌else◌}
use os_lab.Prelude.Int.{ℤ}

-- enum procstate
pub data ProcState : Type 0 where
  unused embryo sleeping runnable running zombie : ProcState

-- `struct proc`. `context` and `tf` are kept as the values that the C code writes through them.
pub record Proc : Type 0 where
  pub sz : ℕ
  pub pgdir : ℕ
  pub kstack : ℕ
  pub state : ProcState
  pub pid : ℤ
  pub parent : Option ℕ
  pub eax : ℤ
  pub chan : ℕ
  pub killed : Bool
  pub ofile : List ℕ
  pub cwd : ℕ
  pub name : List ℕ
  pub sched_class : ℕ
  pub sched_level : ℕ
  pub deadline : ℤ
  pub rr_ticks : ℤ
  pub runnig_time : ℤ
  pub arrival_time : ℤ
  pub waited_ticks : ℤ
  pub consecutive_run : ℤ
  pub max_consecutive_run : ℤ
  pub last_run : ℤ

-- The fields of `struct cpu` that the C code uses, with the interrupt flag of EFLAGS.
pub record Cpu : Type 0 where
  pub ncli : ℕ
  pub intena : Bool
  pub intr : Bool
  pub proc : Option ℕ

-- count_edf, count_rr, count_fcfs
pub record Counts : Type 0 where
  pub edf : ℤ
  pub rr : ℤ
  pub fcfs : ℤ

-- A lock is recorded as held if this CPU holds it; waiting for another CPU changes nothing here.
pub record Kernel : Type 0 where
  pub procs : List Proc
  pub counts : Counts
  pub next_pid : ℤ
  pub ticks : ℕ
  pub initproc : Option ℕ
  pub cpu : Cpu
  pub ptable_held : Bool
  pub ticks_held : Bool
  pub other_held : ℕ → Bool

-- The spinlocks that proc.c and trap.c take: ptable.lock, tickslock, and the lock of a caller.
pub data Lock : Type 0 where
  ptable_lock tickslock : Lock
  other_lock : ℕ → Lock

abbrev pub held : Lock → Kernel → Bool
held ptable_lock k = k.ptable_held
held tickslock k = k.ticks_held
held (other_lock n) k = k.other_held n

abbrev pub set_held : Lock → Bool → Kernel → Kernel
set_held ptable_lock b k = record k { ptable_held = b }
set_held tickslock b k = record k { ticks_held = b }
set_held (other_lock n) b k = record k { other_held = λ m. if m == n then b else k.other_held m }

abbrev pub nproc : ℕ
nproc = 64

abbrev pub nofile : ℕ
nofile = 16
