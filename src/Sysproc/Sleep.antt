-- ===== src/Sysproc/Sleep.antt =====
-- sys_sleep where it does not have to wait.
use os_lab.Prelude.{
  ℕ, Option, none, some, ◌+◌, ◌-◌, ◌%◌, ◌^◌, ◌==◌, ◌≡◌, ◌⊎◌, ltb, if◌then◌else◌, true, false, suc,
  arith, refl, inl, inr, get_elem?, Option-cases, Bool-cases,
}
use os_lab.Prelude.Int.{ℤ, pos, negsuc}
use os_lab.Kernel.State.{Kernel, Proc, tickslock, set_held}
use os_lab.Kernel.Monad.{ok, ◌>>=◌, Outcome}
use os_lab.Spinlock.Laws.{enter, leave, acquire_lem, release_lem}
use os_lab.Syscall.{Memory, argint}
use os_lab.Proc.Services.{Services}
use os_lab.Proc.Laws.{proc_at_lem}
use os_lab.Proc.Quiet.{Quiet}
use os_lab.Proc.Switch.Point.{current_lem}
use os_lab.Proc.Switch.Yield.{OnCpu}
use os_lab.Spinlock.{acquire, release}
use os_lab.Sysproc.{sleep_ticks, sys_sleep, sleep_until}

-- The state after a section under tickslock.
abbrev clocked : Kernel → Kernel
clocked k = set_held tickslock true (enter k)

abbrev past : Kernel → Kernel
past k = leave 0 (set_held tickslock false (clocked k))

-- The answer, unless the process has to wait.
abbrev pub answer : Option ℕ → ℤ
answer none = negsuc 0
answer (some n) = if n % 2 ^ 32 == 0 then pos 0 else negsuc 0

-- What the call returns, in a state like the first.
pub record Answered (k : Kernel) (a : ℤ) (o : Outcome (Option ℤ)) : Type 0 where
  pub state : Kernel
  pub returns : o ≡ ok (some a) state
  pub quiet : Quiet state
  pub procs : state.procs ≡ k.procs
  pub counts : state.counts ≡ k.counts

module _ (sv : Services) (me : ℕ) (k : Kernel) (p : Proc) (on : OnCpu me k)
    (g : get_elem? k.procs me ≡ some p) where
  lock_clock : acquire tickslock k ≡ ok tt (clocked k)
  lock_clock = acquire_lem tickslock k on.quiet.clock

  unlock_clock : release tickslock (clocked k) ≡ ok tt (past k)
  unlock_clock = release_lem tickslock 0 (clocked k) refl (omega (arith, on.depth)) refl

  Quiet-past : Quiet (past k)
  Quiet-past = record {
    nested = λ d. absurd (omega arith);
    unlocked = on.quiet.unlocked;
    clock = refl;
    tally = on.quiet.tally;
  }

  abbrev Bound : ℕ → Type 0
  Bound n = (n ≡ 0) ⊎ (p.killed ≡ true)

  sleep_until_lem :
      (fuel n : ℕ)
      → Bound n
      → sleep_until sv (suc fuel) n k.ticks (clocked k)
        ≡ ok (some (if n == 0 then pos 0 else negsuc 0)) (past k)
  unfolding sleep_until
  sleep_until_lem fuel n h = elim (Bool-cases (n == 0)) [
    | inl z ↦
        let now : ltb ((k.ticks + 2 ^ 32 - k.ticks) % 2 ^ 32) n ≡ false = ground arith in
        rw (now, ◌>>=◌) (rw (unlock_clock, ◌>>=◌) (rw z refl))
    | inr wait ↦
        let now : ltb ((k.ticks + 2 ^ 32 - k.ticks) % 2 ^ 32) n ≡ true = ground arith in
        let dead : p.killed ≡ true = ground (arith, h) in
        rw (now, ◌>>=◌)
          (rw (current_lem me (clocked k) (omega arith) refl on.proc, ◌>>=◌)
            (rw (proc_at_lem me (clocked k) g, ◌>>=◌)
              (rw dead (rw (unlock_clock, ◌>>=◌) (rw wait refl)))))
  ]

  sleep_ticks_lem :
      (fuel n : ℕ)
      → Bound n
      → sleep_ticks sv (suc fuel) n k ≡ ok (some (if n == 0 then pos 0 else negsuc 0)) (past k)
  unfolding sleep_ticks
  sleep_ticks_lem fuel n h = rw (lock_clock, ◌>>=◌) (sleep_until_lem fuel n h)

  -- In a process that runs outside all locks, with counters that agree with the table, and with any
  -- fuel: if the argument cannot be read, or is 0, or the process is killed, sys_sleep returns
  -- without a wait. The answer is 0 for an argument of 0, and otherwise -1; the table and the
  -- counters are as before, and no lock is held.
  pub sys_sleep_lem :
      (m : Memory) (size esp fuel : ℕ)
      → ((n : ℕ) → argint m size esp 0 ≡ some n → (n % 2 ^ 32 ≡ 0) ⊎ (p.killed ≡ true))
      → Answered k (answer (argint m size esp 0)) (sys_sleep sv m size esp (suc fuel) k)
  unfolding sys_sleep
  sys_sleep_lem m size esp fuel h = elim (Option-cases (argint m size esp 0)) [
    | inl e ↦
        rw (e, sys_sleep)
          (record { state = k; returns = refl; quiet = on.quiet; procs = refl; counts = refl })
    | inr (n, e) ↦
        rw (e, sys_sleep)
          (record {
            state = past k;
            returns = sleep_ticks_lem fuel (n % 2 ^ 32) (h n e);
            quiet = Quiet-past;
            procs = refl;
            counts = refl;
          })
  ]
