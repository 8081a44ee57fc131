-- ===== src/Proc/Finish.antt =====
-- proc.c: exit, wait.
use os_lab.Kernel.Monad.{
  K, ◌>>=◌, ◌>>◌, gets, pure, deref, skip, fail, for_each, init_exiting, zombie_exit,
}
use Prim.Native.Nat.{ℕ, suc}
use os_lab.Prelude.{
  ℕ, Option, ◌+◌, Bool, if◌then◌else◌, get_or, List, some, ◌==◌, ◌&&◌, find_index, none, false,
  length, set, true, zero, not, ◌||◌,
}
use os_lab.Proc.Services.{Services}
use os_lab.Kernel.State.{Proc, ptable_lock, zombie, unused, nofile}
use os_lab.Proc.Access.{proc_at, current, write_proc, is_state}
use os_lab.Prelude.Int.{ℤ, pos, negsuc}
use os_lab.Proc.Wakeup.{wakeup1}
use os_lab.Spinlock.{acquire, release}
use os_lab.Proc.Switch.{sleep, sched}

abbrev is_parent : ℕ → Proc → Bool
is_parent me p = elim p.parent [ none ↦ false | some q ↦ q == me ]

-- A process pointer as a sleep channel: the address of its entry. No channel is the null pointer.
pub chan_of : ℕ → ℕ
chan_of i = i + 1

-- The body of the loop that passes abandoned children to init.
unfoldable pub reparent_one : ℕ → ℕ → ℕ → K (Unit {0})
reparent_one me init i = do
  p ← proc_at i
  if is_parent me p
      then (do
        write_proc i (λ q. record q { parent = some init })
        q ← proc_at i
        if is_state q.state zombie then wakeup1 (chan_of init) else skip)
      else skip

-- exit from the wakeup of the parent up to the switch, with ptable.lock held. A process that has
-- no parent wakes those that sleep on the null channel.
unfoldable pub become_zombie : ℕ → ℕ → K (Unit {0})
become_zombie me init = do
  p ← proc_at me
  wakeup1 (elim p.parent [ none ↦ 0 | some q ↦ chan_of q ])
  n ← gets (λ k. length k.procs)
  for_each n 0 (reparent_one me init)
  write_proc me (λ q. record q { state = zombie })

abbrev is_dead_child : ℕ → Proc → Bool
is_dead_child me p = is_parent me p && is_state p.state zombie

-- `havekids`
abbrev any_child : ℕ → List Proc → Bool
any_child me ps = elim (find_index (is_parent me) ps) [ none ↦ false | some _ ↦ true ]

module _ (sv : Services) where
  unfoldable pub close_file : ℕ → ℕ → K (Unit {0})
  close_file me fd = do
    p ← proc_at me
    let f = get_or p.ofile fd 0
    if f == 0
        then skip
        else (do sv.fileclose f; write_proc me (λ q. record q { ofile = set q.ofile fd 0 }))

  -- exit does not return: after the switch there is a panic.
  unfoldable pub exit : K (Unit {0})
  exit = do
    me ← current
    i ← gets (λ k. k.initproc)
    init ← deref i
    if me == init then fail init_exiting else (do
      for_each nofile 0 (close_file me)
      sv.begin_op
      p ← proc_at me
      sv.iput p.cwd
      sv.end_op
      write_proc me (λ q. record q { cwd = 0 })
      acquire ptable_lock
      become_zombie me init
      sched sv
      fail zombie_exit)

  -- What wait does with the zombie that it finds.
  unfoldable pub reap : ℕ → K ℤ
  reap i = do
    p ← proc_at i
    sv.kfree p.kstack
    write_proc i (λ q. record q { kstack = 0 })
    sv.freevm p.pgdir
    write_proc i (λ q. record q {
      pid = pos 0;
      parent = none;
      name = set q.name 0 0;
      killed = false;
      state = unused;
    })
    pure p.pid

  -- After the scan of the table `ps`: the result, or `none` to sleep and try again.
  unfoldable pub wait_at : ℕ → List Proc → Option ℕ → K (Option ℤ)
  wait_at me ps (some i) = do pid ← reap i; release ptable_lock; pure (some pid)
  wait_at me ps none = do
    p ← proc_at me
    if not (any_child me ps) || p.killed
        then (do release ptable_lock; pure (some (negsuc 0)))
        else pure none

  -- One round of the loop of wait.
  unfoldable pub wait_round : ℕ → K (Option ℤ)
  wait_round me = do ps ← gets (λ k. k.procs); wait_at me ps (find_index (is_dead_child me) ps)

  -- for(;;), by fuel; `none` means that the fuel ran out.
  unfoldable pub wait_loop : ℕ → ℕ → K (Option ℤ)
  wait_loop zero me = pure none
  wait_loop (suc fuel) me = do
    r ← wait_round me
    elim r [
      | some pid ↦ pure (some pid)
      | none ↦ (do sleep sv (chan_of me) ptable_lock; wait_loop fuel me)
    ]

  unfoldable pub wait : ℕ → K (Option ℤ)
  wait fuel = do me ← current; acquire ptable_lock; wait_loop fuel me
