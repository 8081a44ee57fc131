-- ===== src/Proc/Switch.antt =====
-- proc.c: sched, yield, sleep.
pub mod Point
pub mod Yield
use os_lab.Kernel.Monad.{
  K, ◌>>=◌, ◌>>◌, fail, sched_ptable_lock, sleep_no_proc, skip, sched_locks, sched_running, gets,
  sched_interruptible, modify,
}
use os_lab.Proc.Services.{Services}
use Prim.Native.Nat.{ℕ}
use os_lab.Proc.Access.{
  current, write_proc, myproc, proc_at, stamp, is_state, take_from_count, add_to_count,
}
use os_lab.Spinlock.{acquire, holding, mycpu, release, set_cpu}
use os_lab.Prelude.{ℕ, Bool, if◌then◌else◌, true, none, not, false, some, ◌==◌, Option}
use os_lab.Kernel.State.{Lock, ptable_lock, runnable, sleeping, running}
use os_lab.Prelude.Int.{pos}

module _ (sv : Services) where
  -- The tests of sched, in their order, then the switch; `intena` is saved across it.
  unfoldable pub sched : K (Unit {0})
  sched = do
    me ← current
    mine ← holding ptable_lock
    if not mine then fail sched_ptable_lock else (do
      c ← mycpu
      if not (c.ncli == 1) then fail sched_locks else (do
        p ← proc_at me
        if is_state p.state running then fail sched_running else (do
          on ← gets (λ k. k.cpu.intr)
          if on then fail sched_interruptible else (do
            saved ← mycpu
            sv.swtch
            now ← mycpu
            modify (set_cpu (record now { intena = saved.intena }))))))

  -- Each `myproc()` of the code is the same process: the lock is held throughout.
  unfoldable pub yield : K (Unit {0})
  yield = do
    acquire ptable_lock
    me ← current
    write_proc me (λ p. record p { state = runnable })
    stamp me (λ t p. record p { arrival_time = t; waited_ticks = pos 0; consecutive_run = pos 0 })
    add_to_count me
    sched
    release ptable_lock

  -- What sleep does to the entry of the process, with ptable.lock held.
  unfoldable pub fall_asleep : ℕ → ℕ → K (Unit {0})
  fall_asleep me chan = do
    write_proc me (λ p. record p { chan = chan })
    p ← proc_at me
    if is_state p.state runnable then take_from_count me else skip
    write_proc me (λ q. record q { consecutive_run = pos 0; state = sleeping })

  abbrev is_ptable : Lock → Bool
  is_ptable ptable_lock = true
  is_ptable _ = false

  -- sleep of entry `me`.
  unfoldable pub sleep_as : ℕ → ℕ → Lock → K (Unit {0})
  sleep_as me chan lk = do
    if is_ptable lk then skip else (do acquire ptable_lock; release lk)
    fall_asleep me chan
    sched
    write_proc me (λ q. record q { chan = 0 })
    if is_ptable lk then skip else (do release ptable_lock; acquire lk)

  unfoldable pub sleep_at : ℕ → Lock → Option ℕ → K (Unit {0})
  sleep_at chan lk none = fail sleep_no_proc
  sleep_at chan lk (some me) = sleep_as me chan lk

  -- `lk == 0` cannot happen: a `Lock` is a lock.
  unfoldable pub sleep : ℕ → Lock → K (Unit {0})
  sleep chan lk = do p ← myproc; sleep_at chan lk p
