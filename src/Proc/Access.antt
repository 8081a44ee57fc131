-- ===== src/Proc/Access.antt =====
-- proc.c: the entries of ptable, the current process, and the counters of runnable processes.
use os_lab.Kernel.State.{
  Proc, Counts, ProcState, tickslock, unused, embryo, sleeping, runnable, running, zombie,
}
use os_lab.Kernel.Monad.{K, ◌>>=◌, ◌>>◌, gets, modify, deref, pure}
use Prim.Native.Nat.{ℕ}
use os_lab.Prelude.{ℕ, Option, if◌then◌else◌, ◌==◌, Bool, get_elem?, set, ◌&&◌, true, false}
use os_lab.Prelude.Int.{ℤ, pos, ◌+ℤ◌, ◌-ℤ◌, to_int}
use os_lab.Spinlock.{pushcli, acquire, mycpu, popcli, release}

-- An access through an index is one through a pointer into ptable.proc.
unfoldable pub proc_at : ℕ → K Proc
proc_at i = do ps ← gets (λ k. k.procs); deref (get_elem? ps i)

-- Writes to the fields of one entry.
unfoldable pub write_proc : ℕ → (Proc → Proc) → K (Unit {0})
write_proc i f = do p ← proc_at i; modify (λ k. record k { procs = set k.procs i (f p) })

-- myproc(): `c->proc` may be the null pointer.
unfoldable pub myproc : K (Option ℕ)
myproc = do pushcli; c ← mycpu; popcli; pure c.proc

-- myproc()->…
unfoldable pub current : K ℕ
current = do p ← myproc; deref p

-- The chain of tests by which the code chooses the counter of a process.
unfoldable pub count_up : Proc → Counts → Counts
count_up p c =
    if p.sched_class == 1
    then record c { edf = c.edf +ℤ pos 1 }
    else if p.sched_class == 2 && p.sched_level == 1
    then record c { rr = c.rr +ℤ pos 1 }
    else if p.sched_class == 2 && p.sched_level == 2
    then record c { fcfs = c.fcfs +ℤ pos 1 }
    else c

unfoldable pub count_down : Proc → Counts → Counts
count_down p c =
    if p.sched_class == 1
    then record c { edf = c.edf -ℤ pos 1 }
    else if p.sched_class == 2 && p.sched_level == 1
    then record c { rr = c.rr -ℤ pos 1 }
    else if p.sched_class == 2 && p.sched_level == 2
    then record c { fcfs = c.fcfs -ℤ pos 1 }
    else c

unfoldable pub add_to_count : ℕ → K (Unit {0})
add_to_count i = do p ← proc_at i; modify (λ k. record k { counts = count_up p k.counts })

unfoldable pub take_from_count : ℕ → K (Unit {0})
take_from_count i = do p ← proc_at i; modify (λ k. record k { counts = count_down p k.counts })

-- acquire(&tickslock); writes that read `ticks`; release(&tickslock).
unfoldable pub stamp : ℕ → (ℤ → Proc → Proc) → K (Unit {0})
stamp i f = do
  acquire tickslock
  t ← gets (λ k. to_int k.ticks)
  write_proc i (f t)
  release tickslock

abbrev pub arrive : ℤ → Proc → Proc
arrive t p = record p { arrival_time = t; waited_ticks = pos 0 }

abbrev pub is_state : ProcState → ProcState → Bool
is_state unused unused = true
is_state embryo embryo = true
is_state sleeping sleeping = true
is_state runnable runnable = true
is_state running running = true
is_state zombie zombie = true
is_state _ _ = false
