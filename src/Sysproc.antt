-- ===== src/Sysproc.antt =====
-- sysproc.c: the handlers of the system calls on processes. The arguments stand in user memory `m`,
-- in a process of `size` bytes with the stack pointer `esp`. `none` means that a loop which waits ran
-- out of fuel.
pub mod Sleep
use os_lab.Prelude.{
  ℕ, Option, none, some, ◌+◌, ◌-◌, ◌%◌, ◌^◌, ltb, not, if◌then◌else◌, zero, suc, false, true,
}
use os_lab.Prelude.Int.{ℤ, pos, negsuc, to_int, ltb_ℤ}
use os_lab.Kernel.State.{Kernel, tickslock}
use os_lab.Kernel.Monad.{K, ◌>>=◌, ◌>>◌, pure, gets}
use os_lab.Spinlock.{acquire, release}
use os_lab.Syscall.{Memory, argint}
use os_lab.Proc.Services.{Services}
use os_lab.Proc.Access.{current, proc_at}
use os_lab.Proc.Create.{fork, growproc}
use os_lab.Proc.Finish.{exit, wait}
use os_lab.Proc.Wakeup.{kill}
use os_lab.Proc.Switch.{sleep}
use os_lab.Proc.Classes.{
  set_deadline_for_process, change_sched_level, update_wait_time, is_higher_waiting,
}
use os_lab.Trap.{ticks_chan}

unfoldable pub sys_uptime : K ℤ
sys_uptime = do
  acquire tickslock
  xticks ← gets (λ k. k.ticks)
  release tickslock
  pure (to_int xticks)

unfoldable pub sys_getpid : K ℤ
sys_getpid = do me ← current; p ← proc_at me; pure p.pid

module _ (sv : Services) where
  unfoldable pub sys_fork : K ℤ
  sys_fork = fork sv

  unfoldable pub sys_exit : K ℤ
  sys_exit = do exit sv; pure (pos 0)

  unfoldable pub sys_wait : ℕ → K (Option ℤ)
  sys_wait fuel = wait sv fuel

  -- The loop of sys_sleep, by fuel: `ticks - ticks0 < n` compares numbers without a sign.
  unfoldable pub sleep_until : ℕ → ℕ → ℕ → K (Option ℤ)
  sleep_until zero n ticks0 = pure none
  sleep_until (suc fuel) n ticks0 = do
    now ← gets (λ k. k.ticks)
    elim (ltb ((now + 2 ^ 32 - ticks0) % 2 ^ 32) n) [
      | false ↦ (do release tickslock; pure (some (pos 0)))
      | true ↦ (do
        me ← current
        p ← proc_at me
        elim p.killed [
          | true ↦ (do release tickslock; pure (some (negsuc 0)))
          | false ↦ (do sleep sv ticks_chan tickslock; sleep_until fuel n ticks0)
        ])
    ]

  unfoldable pub sleep_ticks : ℕ → ℕ → K (Option ℤ)
  sleep_ticks fuel n = do acquire tickslock; ticks0 ← gets (λ k. k.ticks); sleep_until fuel n ticks0

  unfoldable pub grow_from : ℤ → K ℤ
  grow_from n = do
    me ← current
    p ← proc_at me
    r ← growproc sv n
    pure (if ltb_ℤ r (pos 0) then negsuc 0 else to_int p.sz)

  unfoldable pub sys_is_higher_waiting : K ℤ
  sys_is_higher_waiting = is_higher_waiting sv

module _ (sv : Services) (m : Memory) (size esp : ℕ) where
  -- The call of a handler on one `int` argument, or on two; -1 if one cannot be read.
  abbrev with_int : (ℤ → K ℤ) → K ℤ
  with_int f = elim (argint m size esp 0) [ none ↦ pure (negsuc 0) | some n ↦ f (to_int n) ]

  abbrev with_ints : (ℤ → ℤ → K ℤ) → K ℤ
  with_ints f = elim (argint m size esp 0) [
    | none ↦ pure (negsuc 0)
    | some a ↦ elim (argint m size esp 1) [
      | none ↦ pure (negsuc 0)
      | some b ↦ f (to_int a) (to_int b)
    ]
  ]

  unfoldable pub sys_kill : K ℤ
  sys_kill = with_int kill

  unfoldable pub sys_sbrk : K ℤ
  sys_sbrk = with_int (grow_from sv)

  unfoldable pub sys_sleep : ℕ → K (Option ℤ)
  sys_sleep fuel = elim (argint m size esp 0) [
    | none ↦ pure (some (negsuc 0))
    | some n ↦ sleep_ticks sv fuel (n % 2 ^ 32)
  ]

  unfoldable pub sys_set_deadline_for_process : K ℤ
  sys_set_deadline_for_process = with_ints set_deadline_for_process

  unfoldable pub sys_change_sched_level : K ℤ
  sys_change_sched_level = with_ints change_sched_level

  unfoldable pub sys_update_wait_time : K ℤ
  sys_update_wait_time = with_int update_wait_time
