-- ===== src/Trap.antt =====
-- trap.c: the dispatch on the trap number, the clock, and preemption.
pub mod Clock
use os_lab.Kernel.Monad.{K, ◌>>=◌, ◌>>◌, modify, skip, gets, fail, unexpected_trap}
use Prim.Native.Nat.{ℕ}
use os_lab.Prelude.{ℕ, Bool, if◌then◌else◌, ◌+◌, none, ◌==◌, ◌%◌, ◌&&◌, some, ◌||◌, ◌^◌, true}
use os_lab.Prelude.Int.{ℤ, pos, ◌+ℤ◌, ltb_ℤ, to_int, eqb_ℤ}
use os_lab.Spinlock.{acquire, release}
use os_lab.Kernel.State.{Proc, nproc, tickslock, running}
use os_lab.Proc.Services.{Services}
use os_lab.Proc.Access.{write_proc, myproc, current, proc_at, is_state}
use os_lab.Proc.Finish.{exit}
use os_lab.Proc.Switch.{yield}
use os_lab.Proc.Classes.{is_higher_waiting, update_wait_time}
use os_lab.Proc.Wakeup.{wakeup}

-- The trap numbers of traps.h that trap tests for.
abbrev t_syscall : ℕ
t_syscall = 64

abbrev t_irq0 : ℕ
t_irq0 = 32

abbrev irq_timer : ℕ
irq_timer = 0

abbrev irq_kbd : ℕ
irq_kbd = 1

abbrev irq_com1 : ℕ
irq_com1 = 4

abbrev irq_ide : ℕ
irq_ide = 14

abbrev irq_spurious : ℕ
irq_spurious = 31

-- Time_Quantum / Unit_Quantum_length_ms
abbrev quantum : ℤ
quantum = pos 3

-- &ticks, the channel of those that sleep for the clock: no address of a table entry.
abbrev pub ticks_chan : ℕ
ticks_chan = nproc + 1

-- The device drivers and the table of system calls that trap calls.
pub record Devices : Type 0 where
  pub cpuid : K ℕ
  pub lapiceoi : K (Unit {0})
  pub ideintr : K (Unit {0})
  pub kbdintr : K (Unit {0})
  pub uartintr : K (Unit {0})
  pub syscall : K (Unit {0})

-- What CPU 0 does at a tick of the clock.
unfoldable pub clock_tick : K (Unit {0})
clock_tick = do
  acquire tickslock
  modify (λ k. record k { ticks = (k.ticks + 1) % 2 ^ 32 })
  os_ticks ← gets (λ k. to_int k.ticks)
  wakeup ticks_chan
  release tickslock
  update_wait_time os_ticks >>= (λ _. skip)

-- The counters of the running process at a tick.
abbrev tick_proc : Proc → Proc
tick_proc p = record p {
  consecutive_run = p.consecutive_run +ℤ pos 1;
  runnig_time = p.runnig_time +ℤ pos 1;
  max_consecutive_run =
      if ltb_ℤ p.max_consecutive_run (p.consecutive_run +ℤ pos 1)
      then p.consecutive_run +ℤ pos 1
      else p.max_consecutive_run;
}

module _ (sv : Services) (dev : Devices) where
  -- RR processes give way at the end of the quantum, FCFS ones if a higher class waits.
  unfoldable pub preempt : ℕ → K (Unit {0})
  preempt me = do
    write_proc me tick_proc
    p ← proc_at me
    if p.sched_class == 2 && p.sched_level == 1
        then (do
          write_proc me (λ q. record q { rr_ticks = q.rr_ticks +ℤ pos 1 })
          q ← proc_at me
          if ltb_ℤ q.rr_ticks quantum then skip else yield sv)
        else if p.sched_class == 2 && p.sched_level == 2
        then (do higher ← is_higher_waiting sv; if eqb_ℤ higher (pos 0) then skip else yield sv)
        else skip

  -- if (myproc() && myproc()->killed && (tf->cs & 3) == DPL_USER) exit();
  unfoldable pub exit_if_killed : Bool → K (Unit {0})
  exit_if_killed user = do
    found ← myproc
    elim found [
      | none ↦ skip
      | some me ↦ (do p ← proc_at me; if p.killed && user then exit sv else skip)
    ]

  unfoldable pub preempt_if_running : ℕ → K (Unit {0})
  preempt_if_running trapno = do
    found ← myproc
    elim found [
      | none ↦ skip
      | some me ↦ (do
        p ← proc_at me
        if is_state p.state running && trapno == t_irq0 + irq_timer then preempt me else skip)
    ]

  unfoldable pub trap_syscall : K (Unit {0})
  trap_syscall = do
    me ← current
    p ← proc_at me
    if p.killed then exit sv else skip
    dev.syscall
    me' ← current
    q ← proc_at me'
    if q.killed then exit sv else skip

  -- The switch on the trap number; `user` is (tf->cs & 3) == DPL_USER, and the kernel's own
  -- segment is the only other one.
  unfoldable pub trap_device : ℕ → Bool → K (Unit {0})
  trap_device trapno user =
      if trapno == t_irq0 + irq_timer
      then (do c ← dev.cpuid; if c == 0 then clock_tick else skip; dev.lapiceoi)
      else if trapno == t_irq0 + irq_ide
      then (do dev.ideintr; dev.lapiceoi)
      else if trapno == t_irq0 + irq_ide + 1
      then skip
      else if trapno == t_irq0 + irq_kbd
      then (do dev.kbdintr; dev.lapiceoi)
      else if trapno == t_irq0 + irq_com1
      then (do dev.uartintr; dev.lapiceoi)
      else if trapno == t_irq0 + 7 || trapno == t_irq0 + irq_spurious
      then dev.lapiceoi
      else (do
        found ← myproc
        elim found [
          | none ↦ fail unexpected_trap
          | some me ↦
              if user then write_proc me (λ p. record p { killed = true }) else fail unexpected_trap
        ])

  unfoldable pub trap : ℕ → Bool → K (Unit {0})
  trap trapno user = if trapno == t_syscall then trap_syscall else (do
    trap_device trapno user
    exit_if_killed user
    preempt_if_running trapno
    exit_if_killed user)
