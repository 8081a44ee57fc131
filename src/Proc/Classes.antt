-- ===== src/Proc/Classes.antt =====
-- proc.c: the scheduling classes of a process, set by system calls and by the clock.
pub mod Deadline
pub mod Level
pub mod Waiting
pub mod Aging
use os_lab.Kernel.Monad.{K, ◌>>=◌, ◌>>◌, gets, pure, modify, for_each, skip}
use Prim.Native.Nat.{ℕ}
use os_lab.Prelude.{
  ℕ, if◌then◌else◌, Bool, not, ◌==◌, ◌&&◌, length, ◌||◌, find_index, none, some, Option,
}
use os_lab.Prelude.Int.{ℤ, pos, ltb_ℤ, eqb_ℤ, negsuc, ◌-ℤ◌, ◌+ℤ◌}
use os_lab.Kernel.State.{Proc, ptable_lock, runnable, Counts}
use os_lab.Proc.Services.{Services}
use os_lab.Proc.Access.{proc_at, is_state, write_proc}
use os_lab.Spinlock.{acquire, release}
use os_lab.Proc.Switch.{yield}
use os_lab.Proc.Wakeup.{has_pid}

-- What set_deadline_for_process does to the counters, for an entry `p`.
unfoldable pub deadline_counts : Proc → Counts → Counts
deadline_counts p c =
    if is_state p.state runnable
    then (if p.sched_level == 1
        then record c { rr = c.rr -ℤ pos 1; edf = c.edf +ℤ pos 1 }
        else if p.sched_level == 2
        then record c { fcfs = c.fcfs -ℤ pos 1; edf = c.edf +ℤ pos 1 }
        else c)
    else c

-- What set_deadline_for_process does to the entry that has the pid.
unfoldable pub to_edf : ℕ → ℤ → K (Unit {0})
to_edf i deadline = do
  p ← proc_at i
  modify (λ k. record k { counts = deadline_counts p k.counts })
  write_proc i (λ q. record q { sched_level = 0; sched_class = 1; deadline = deadline })

unfoldable pub set_deadline_at : ℤ → Option ℕ → K ℤ
set_deadline_at deadline none = do release ptable_lock; pure (negsuc 0)
set_deadline_at deadline (some i) = do to_edf i deadline; release ptable_lock; pure (pos 0)

unfoldable pub set_deadline_for_process : ℤ → ℤ → K ℤ
set_deadline_for_process pid deadline = if ltb_ℤ deadline (pos 0) then pure (negsuc 0) else (do
  acquire ptable_lock
  ps ← gets (λ k. k.procs)
  set_deadline_at deadline (find_index (has_pid pid) ps))

-- What change_sched_level does to the counters, for an entry `p`.
unfoldable pub level_counts : Proc → Counts → Counts
level_counts p c =
    if is_state p.state runnable
    then (if p.sched_level == 1
        then record c { rr = c.rr -ℤ pos 1; fcfs = c.fcfs +ℤ pos 1 }
        else record c { fcfs = c.fcfs -ℤ pos 1; rr = c.rr +ℤ pos 1 })
    else c

-- What change_sched_level does to the entry, which is not in the target level yet.
unfoldable pub to_level : ℕ → ℤ → K (Unit {0})
to_level i target = do
  p ← proc_at i
  modify (λ k. record k { counts = level_counts p k.counts })
  write_proc i (λ q. record q { sched_level = if eqb_ℤ target (pos 2) then 2 else 1 })

-- The return for a process that is in the target level already does not release ptable.lock.
unfoldable pub change_found : ℕ → ℤ → K ℤ
change_found i target = do
  p ← proc_at i
  if eqb_ℤ (pos p.sched_level) target
      then pure (negsuc 0)
      else (do to_level i target; release ptable_lock; pure (pos 0))

unfoldable pub change_at : ℤ → Option ℕ → K ℤ
change_at target none = do release ptable_lock; pure (negsuc 0)
change_at target (some i) = change_found i target

unfoldable pub change_sched_level : ℤ → ℤ → K ℤ
change_sched_level pid target =
    if not (eqb_ℤ target (pos 1)) && not (eqb_ℤ target (pos 2)) then pure (negsuc 0) else (do
      acquire ptable_lock
      ps ← gets (λ k. k.procs)
      change_at target (find_index (has_pid pid) ps))

-- AGING_THRESHOLD
abbrev pub aging_threshold : ℤ
aging_threshold = pos 800

abbrev pub is_fcfs : Proc → Bool
is_fcfs p = p.sched_class == 2 && p.sched_level == 2

-- The body of the loop of update_wait_time for entry `i`.
unfoldable pub age_one : ℤ → ℕ → K (Unit {0})
age_one os_ticks i = do
  p ← proc_at i
  if is_state p.state runnable
      then (do
        let waited = os_ticks -ℤ p.arrival_time
        write_proc i (λ q. record q { waited_ticks = waited })
        if is_fcfs p && not (ltb_ℤ waited aging_threshold)
            then (do
              release ptable_lock
              change_sched_level p.pid (pos 1) >>= (λ _. acquire ptable_lock)
              write_proc i (λ q. record q { arrival_time = os_ticks }))
            else skip)
      else skip

unfoldable pub update_wait_time : ℤ → K ℤ
update_wait_time os_ticks = do
  acquire ptable_lock
  n ← gets (λ k. length k.procs)
  for_each n 0 (age_one os_ticks)
  release ptable_lock
  pure (pos 0)

unfoldable pub is_higher_waiting : Services → K ℤ
is_higher_waiting sv = do
  c ← gets (λ k. k.counts)
  if ltb_ℤ (pos 0) c.edf || ltb_ℤ (pos 0) c.rr then (do yield sv; pure (pos 1)) else pure (pos 0)
