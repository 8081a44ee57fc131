-- ===== src/Tests/Sched.antt =====
-- The theorems on the scheduler at the table of the tests.
use os_lab.Tests.{kernel, table, Tally-kernel, Quiet-kernel, sleeper, waiting}
use os_lab.Prelude.{
  ◌≡◌, refl, arith, length, get_elem?, some, ℕ, if◌then◌else◌, true, false, zero, suc, find_index,
}
use os_lab.Prelude.Int.{pos, negsuc, eqb_ℤ, to_int}
use os_lab.Kernel.State.{Proc, ptable_lock, runnable}
use os_lab.Kernel.Monad.{panic, ok, acquire_twice}
use os_lab.Kernel.Returns.{Returns}
use os_lab.Spinlock.{acquire}
use os_lab.Proc.Choose.{choose}
use os_lab.Proc.Choose.Policy.{Policy, choose-Policy}
use os_lab.Proc.Quiet.{Quiet, inside, Section-inside, Busy-Section}
use os_lab.Proc.Tally.{Tally}
use os_lab.Proc.Wakeup.{kill, wakeup1, has_pid}
use os_lab.Proc.Wakeup.Kill.{KillOutcome, kill_lem}
use os_lab.Proc.Wakeup.Wakes.{wakeup1-wakes, sleeps_on, woken}
use os_lab.Proc.Classes.{update_wait_time, set_deadline_for_process, change_sched_level}
use os_lab.Proc.Classes.Aging.{update_wait_time_lem}
use os_lab.Proc.Classes.Waiting.{HaveOwnPids, aged}
use os_lab.Proc.Classes.Deadline.{set_deadline_lem, AreGraded, DeadlineOutcome}
use os_lab.Proc.Classes.Level.{change_level_lem, change_level_leaks_lock, LevelOutcome, is_normal}
use os_lab.Trap.{clock_tick, ticks_chan}
use os_lab.Trap.Clock.{clock_tick_panics}
use os_lab.Proc.Access.{is_state}

choose-Policy_example : Policy table 0 (choose kernel 0).0
choose-Policy_example = choose-Policy kernel 0 Tally-kernel (omega arith)

wakeup1-wakes_example :
    Returns
      (λ _ k'.
        ((j : ℕ) (p : Proc)
          → get_elem? table j ≡ some p
          → get_elem? k'.procs j
            ≡ some (if sleeps_on ticks_chan p then woken (to_int 900) p else p))
        × (length k'.procs ≡ 4)
        × Tally k'.procs k'.counts
        × (record k' { procs = table; counts = kernel.counts } ≡ inside kernel))
      (wakeup1 ticks_chan (inside kernel))
wakeup1-wakes_example =
    wakeup1-wakes ticks_chan (inside kernel)
      (Busy-Section kernel (inside kernel) (Section-inside kernel Quiet-kernel)) Tally-kernel

HaveOwnPids-table : HaveOwnPids table
HaveOwnPids-table zero j p q e f r s = absurd (ground arith)
HaveOwnPids-table (suc zero) zero p q e f r s = ground arith
HaveOwnPids-table (suc zero) (suc zero) p q e f r s = refl
HaveOwnPids-table (suc zero) (suc (suc zero)) p q e f r s = ground arith
HaveOwnPids-table (suc zero) (suc (suc (suc zero))) p q e f r s = ground arith
HaveOwnPids-table (suc zero) (suc (suc (suc (suc j)))) p q e f r s = ground arith
HaveOwnPids-table (suc (suc zero)) zero p q e f r s = ground arith
HaveOwnPids-table (suc (suc zero)) (suc zero) p q e f r s = ground arith
HaveOwnPids-table (suc (suc zero)) (suc (suc zero)) p q e f r s = refl
HaveOwnPids-table (suc (suc zero)) (suc (suc (suc zero))) p q e f r s = ground arith
HaveOwnPids-table (suc (suc zero)) (suc (suc (suc (suc j)))) p q e f r s = ground arith
HaveOwnPids-table (suc (suc (suc zero))) j p q e f r s = absurd (ground arith)
HaveOwnPids-table (suc (suc (suc (suc i)))) j p q e f r s = absurd (ground arith)

update_wait_time_lem_example :
    Returns
      (λ r k'.
        (r ≡ pos 0)
        × Quiet k'
        × (length k'.procs ≡ 4)
        × ((j : ℕ) (p : Proc)
            → get_elem? table j ≡ some p
            → get_elem? k'.procs j ≡ some (aged (pos 900) p)))
      (update_wait_time (pos 900) kernel)
update_wait_time_lem_example = update_wait_time_lem (pos 900) kernel Quiet-kernel HaveOwnPids-table

AreGraded-table : AreGraded table
AreGraded-table zero p e r = ground arith
AreGraded-table (suc zero) p e r = ground arith
AreGraded-table (suc (suc zero)) p e r = ground arith
AreGraded-table (suc (suc (suc zero))) p e r = ground arith
AreGraded-table (suc (suc (suc (suc i)))) p e r = ground arith

set_deadline_lem_example :
    Returns
      (λ r k'. Quiet k' × DeadlineOutcome (pos 2) (pos 70) kernel r k')
      (set_deadline_for_process (pos 2) (pos 70) kernel)
set_deadline_lem_example = set_deadline_lem (pos 2) (pos 70) kernel Quiet-kernel AreGraded-table

in_fcfs :
    (i : ℕ) (p : Proc)
    → find_index (has_pid (pos 2)) table ≡ some i
    → get_elem? table i ≡ some p
    → (eqb_ℤ (pos p.sched_level) (pos 1) ≡ false)
      × (is_state p.state runnable ≡ true → is_normal p ≡ true)
unfolding find_index
in_fcfs zero p f e = absurd (ground arith)
in_fcfs (suc zero) p f e = ground arith
in_fcfs (suc (suc i)) p f e = absurd (ground arith)

change_level_lem_example :
    Returns
      (λ r k'. Quiet k' × LevelOutcome (pos 2) (pos 1) kernel r k')
      (change_sched_level (pos 2) (pos 1) kernel)
change_level_lem_example = change_level_lem (pos 2) (pos 1) kernel Quiet-kernel refl in_fcfs

kill_lem_example :
    Returns (λ r k'. Quiet k' × KillOutcome (pos 1) kernel r k') (kill (pos 1) kernel)
kill_lem_example = kill_lem (pos 1) kernel Quiet-kernel

clock_tick_panics_example : clock_tick kernel ≡ panic acquire_twice
clock_tick_panics_example = clock_tick_panics kernel refl refl (0, sleeper, omega arith, refl, refl)

change_level_leaks_lock_example :
    Returns
      (λ r k'. (r ≡ negsuc 0) × (k'.procs ≡ table) × (k'.ptable_held ≡ true))
      (change_sched_level (pos 2) (pos 2) kernel)
    × (change_sched_level (pos 2) (pos 2) kernel ≡ ok (negsuc 0) (inside kernel))
    × (acquire ptable_lock (inside kernel) ≡ panic acquire_twice)
unfolding find_index
change_level_leaks_lock_example =
    change_level_leaks_lock (pos 2) (pos 2) kernel 1 waiting refl refl refl refl refl
