-- ===== src/Proc/Switch/Yield.antt =====
-- yield up to the switch, and what it leaves for the time after it.
use os_lab.Kernel.State.{Kernel, Proc, running, ptable_lock, runnable}
use os_lab.Kernel.Monad.{◌>>=◌, ok, panic, K, Outcome, ◌>>◌}
use Prim.Native.Nat.{ℕ}
use os_lab.Prelude.{
  ℕ, ◌≡◌, get_elem?, some, true, get_elem?-set_self, arith, ◌<◌, set, length, lt_of_get_elem?,
  set-set, refl, Bool, get_elem?-set_ne, ◌≢◌, ◌∙◌, ap,
}
use os_lab.Proc.Services.{Services}
use os_lab.Proc.Switch.Point.{SwitchPoint, current_lem, sched_lem, restore}
use os_lab.Proc.Quiet.{Quiet, inside, lock_ptable}
use os_lab.Proc.Access.{is_state, count_up}
use os_lab.Spinlock.{release}
use os_lab.Proc.Switch.{yield}
use os_lab.Prelude.Int.{to_int, pos}
use os_lab.Proc.Tally.{Tally-enqueue}
use os_lab.Proc.Laws.{write_proc_lem, stamp_lem, add_to_count_lem}

-- Process `me` runs on this CPU outside all locks.
pub record OnCpu (me : ℕ) (k : Kernel) : Type 0 where
  pub quiet : Quiet k
  pub depth : k.cpu.ncli ≡ 0
  pub proc : k.cpu.proc ≡ some me

-- What is left of yield once the process is switched back to.
abbrev pub resumed : Bool → K (Unit {0})
resumed saved = restore saved >> release ptable_lock

-- At the switch of yield, the state is `k'`.
pub record HandsOver (sv : Services) (me : ℕ) (k : Kernel) (p : Proc) (k' : Kernel) : Type 0 where
  pub rest : yield sv k ≡ (sv.swtch >> resumed k.cpu.intr) k'
  pub point : SwitchPoint me k'
  pub entry :
      get_elem? k'.procs me
      ≡ some (record p {
        state = runnable;
        arrival_time = to_int k.ticks;
        waited_ticks = pos 0;
        consecutive_run = pos 0;
      })
  pub others : (j : ℕ) → me ≢ j → get_elem? k'.procs j ≡ get_elem? k.procs j
  pub ticks : k'.ticks ≡ k.ticks

bind_assoc :
    {A B C : Type 0}
    → (o : Outcome A) (f : A → K B) (g : B → K C) (k : Kernel)
    → (((λ _. o) >>= f) >>= g) k ≡ ((λ _. o) >>= (λ a. f a >>= g)) k
bind_assoc (ok a k') f g k = refl
bind_assoc (panic e) f g k = refl

module _ (sv : Services) (me : ℕ) (k : Kernel) where
  module _ (on : OnCpu me k) (p : Proc) (g : get_elem? k.procs me ≡ some p)
      (run : is_state p.state running ≡ true) where
    abbrev p1 : Proc
    p1 = record p { state = runnable }

    abbrev p2 : Proc
    p2 = record p {
      state = runnable;
      arrival_time = to_int k.ticks;
      waited_ticks = pos 0;
      consecutive_run = pos 0;
    }

    abbrev k1 : Kernel
    k1 = record (inside k) { procs = set k.procs me p1 }

    abbrev k2 : Kernel
    k2 = record (inside k) { procs = set (set k.procs me p1) me p2 }

    abbrev k3 : Kernel
    k3 = record (inside k) { procs = set (set k.procs me p1) me p2; counts = count_up p2 k.counts }

    lt : me < length k.procs
    lt = lt_of_get_elem? k.procs me g

    here1 : get_elem? k1.procs me ≡ some p1
    here1 = get_elem?-set_self k.procs me p1 lt

    here2 : get_elem? k2.procs me ≡ some p2
    here2 = get_elem?-set_self k1.procs me p2 (lt_of_get_elem? k1.procs me here1)

    point : SwitchPoint me k3
    point = record {
      depth = omega (arith, on.depth);
      off = refl;
      mine = refl;
      clock = on.quiet.clock;
      proc = on.proc;
      tally =
          rw set-set (Tally-enqueue k.procs k.counts me p p2 g on.quiet.tally (ground arith) refl);
    }

    saved : k3.cpu.intena ≡ k.cpu.intr
    saved = ground (arith, on.depth)

    yield_steps : yield sv k ≡ (sv.swtch >> resumed k.cpu.intr) k3
    unfolding yield
    yield_steps =
        rw (lock_ptable k on.quiet, ◌>>=◌)
          (rw (current_lem me (inside k) (omega arith) refl on.proc, ◌>>=◌)
            (rw (write_proc_lem me (inside k) g (λ q. record q { state = runnable }), ◌>>=◌)
              (rw
                (
                  stamp_lem me k1 here1
                      (λ t q. record q {
                        arrival_time = t;
                        waited_ticks = pos 0;
                        consecutive_run = pos 0;
                      })
                      (record { deep = omega arith; off = refl; clock = on.quiet.clock }),
                  ◌>>=◌,
                )
                (rw (add_to_count_lem me k2 here2, ◌>>=◌)
                  (rw (sched_lem sv me k3 point (p2, here2, refl), ◌>>=◌)
                    (bind_assoc (sv.swtch k3) (λ _. restore k3.cpu.intena)
                        (λ _. release ptable_lock) k3
                      ∙ ap (λ z. (sv.swtch >> resumed z) k3) saved))))))

    pub hands_over : HandsOver sv me k p k3
    hands_over = record {
      rest = yield_steps;
      point = point;
      entry = here2;
      others = λ j ne. get_elem?-set_ne k1.procs p2 ne ∙ get_elem?-set_ne k.procs p1 ne;
      ticks = refl;
    }

-- A process that runs on this CPU outside all locks, with counters that agree with the table, passes
-- all tests of yield and of sched. At the switch it holds ptable.lock alone, interrupts
-- are off and the counters agree with the table: the process is RUNNABLE and counted in its queue,
-- arrived now, and has not waited or run; no other entry has changed. What yield then does is the
-- switch, and, when that returns, to put back the interrupt flag of the beginning as the one to
-- restore and to give back ptable.lock.
pub yield_lem :
    (sv : Services) (me : ℕ) (k : Kernel) (p : Proc)
    → OnCpu me k
    → get_elem? k.procs me ≡ some p
    → is_state p.state running ≡ true
    → (k' : Kernel) × HandsOver sv me k p k'
yield_lem sv me k p on g run = (k3 sv me k on p g run, hands_over sv me k on p g run)
