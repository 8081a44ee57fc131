-- ===== src/Trap/Clock.antt =====
-- The clock and the processes that sleep for it.
use os_lab.Kernel.State.{Kernel, Proc, set_held, ptable_lock, tickslock, runnable}
use os_lab.Kernel.Monad.{◌>>=◌, for_each, panic, acquire_twice, ok}
use Prim.Native.Nat.{ℕ, suc}
use os_lab.Prelude.{
  ℕ, List, get_elem?, ◌≡◌, true, some, false, ◌≤◌, ◌+◌, length, arith, lt_of_get_elem?, refl,
  get_elem?_of_lt, ◌%◌, set, Bool-cases, ◌^◌, inl, inr, zero, ◌==◌, sym, ◌∙◌, ap,
}
use os_lab.Proc.Wakeup.{wake_one, wakeup, wakeup1}
use os_lab.Trap.{clock_tick, ticks_chan}
use os_lab.Proc.Access.{stamp}
use os_lab.Proc.Wakeup.Wakes.{sleeps_on}
use os_lab.Proc.Laws.{proc_at_lem, write_proc_lem}
use os_lab.Spinlock.Laws.{acquire_lem, enter, acquire-held}
use os_lab.Proc.Quiet.{inside}

-- Some entry from `i` on sleeps on the channel.
abbrev SleeperFrom : ℕ → ℕ → List Proc → Type 0
SleeperFrom chan i ps =
    (j : ℕ) × (p : Proc) × (i ≤ j) × (get_elem? ps j ≡ some p) × (sleeps_on chan p ≡ true)

-- With tickslock held already, the first sleeper's arrival time cannot be set.
wake_one_panics :
    (chan i : ℕ) (k : Kernel) (p : Proc)
    → k.ticks_held ≡ true
    → get_elem? k.procs i ≡ some p
    → sleeps_on chan p ≡ true
    → wake_one chan i k ≡ panic acquire_twice
unfolding wake_one stamp
wake_one_panics chan i k p taken g asleep =
    rw (proc_at_lem i k g, ◌>>=◌)
      (rw asleep (
        rw (write_proc_lem i k g (λ q. record q { state = runnable }), ◌>>=◌)
          (rw
            (
              acquire-held tickslock
                  (record k { procs = set k.procs i (record p { state = runnable }) }) taken,
              ◌>>=◌,
            )
            refl)))

wake_one_skips :
    (chan i : ℕ) (k : Kernel) (p : Proc)
    → get_elem? k.procs i ≡ some p
    → sleeps_on chan p ≡ false
    → wake_one chan i k ≡ ok tt k
unfolding wake_one
wake_one_skips chan i k p g awake = rw (proc_at_lem i k g, ◌>>=◌) (rw awake refl)

later_sleeper :
    (chan i j : ℕ) (k : Kernel) (q p : Proc)
    → get_elem? k.procs i ≡ some q
    → get_elem? k.procs j ≡ some p
    → i ≤ j
    → sleeps_on chan q ≡ false
    → sleeps_on chan p ≡ true
    → i + 1 ≤ j
later_sleeper chan i j k q p gq g le awake asleep = elim (Bool-cases (i == j)) [
  | inr ne ↦ ground arith
  | inl e ↦
      let at : i ≡ j = ground arith in
      let same : some q ≡ some p = (sym gq ∙ ap (get_elem? k.procs) at) ∙ g in absurd (ground arith)
]

wake_loop_panics :
    (chan n i : ℕ) (k : Kernel)
    → k.ticks_held ≡ true
    → i + n ≡ length k.procs
    → SleeperFrom chan i k.procs
    → for_each n i (wake_one chan) k ≡ panic acquire_twice
unfolding for_each
wake_loop_panics chan zero i k taken e (j, p, le, g, asleep) =
    absurd (omega (arith, lt_of_get_elem? k.procs j g))
wake_loop_panics chan (suc n) i k taken e (j, p, le, g, asleep) =
    let (q, gq) = get_elem?_of_lt k.procs i (omega arith) in
    elim (Bool-cases (sleeps_on chan q)) [
      | inl here ↦ rw (wake_one_panics chan i k q taken gq here, ◌>>=◌) refl
      | inr awake ↦
          rw (wake_one_skips chan i k q gq awake, ◌>>=◌)
            (wake_loop_panics chan n (i + 1) k taken (omega arith)
              (j, p, later_sleeper chan i j k q p gq g le awake asleep, g, asleep))
    ]

-- wakeup, called while this CPU holds tickslock and not ptable.lock, panics in acquire if any
-- process sleeps on the channel.
wakeup_panics :
    (chan : ℕ) (k : Kernel)
    → k.ticks_held ≡ true
    → k.ptable_held ≡ false
    → SleeperFrom chan 0 k.procs
    → wakeup chan k ≡ panic acquire_twice
unfolding wakeup wakeup1
wakeup_panics chan k taken free s =
    rw (acquire_lem ptable_lock k free, ◌>>=◌)
      (rw (wake_loop_panics chan (length k.procs) 0 (inside k) taken (omega arith) s, ◌>>=◌) refl)

-- A tick of the clock, with no lock of the scheduler held, panics in acquire whenever some process
-- sleeps for the clock (as sys_sleep makes it do): trap holds tickslock when it calls wakeup, and
-- wakeup1 takes tickslock for every process that it wakes.
pub clock_tick_panics :
    (k : Kernel)
    → k.ptable_held ≡ false
    → k.ticks_held ≡ false
    → SleeperFrom ticks_chan 0 k.procs
    → clock_tick k ≡ panic acquire_twice
unfolding clock_tick
clock_tick_panics k free clock s =
    let k1 : Kernel = record (set_held tickslock true (enter k)) {
      ticks = (k.ticks + 1) % 2 ^ 32;
    } in
    rw (acquire_lem tickslock k clock, ◌>>=◌)
      (rw (wakeup_panics ticks_chan k1 refl free s, ◌>>=◌) refl)
