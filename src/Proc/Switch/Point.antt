-- ===== src/Proc/Switch/Point.antt =====
-- The state in which a process may be switched away from.
use os_lab.Kernel.State.{Kernel, Proc, running, ptable_lock}
use os_lab.Kernel.Monad.{◌>>=◌, ok, modify, K}
use Prim.Native.Nat.{ℕ}
use os_lab.Prelude.{
  ℕ, ◌≡◌, get_elem?, false, some, true, ◌<◌, refl, arith, if_else, not, ap, ◌==◌, Bool,
}
use os_lab.Proc.Services.{Services}
use os_lab.Proc.Access.{current, is_state, myproc}
use os_lab.Spinlock.{mycpu, set_cpu}
use os_lab.Proc.Tally.{Tally}
use os_lab.Spinlock.Laws.{pushcli_lem, popcli_lem, enter, holding_lem, mycpu_lem}
use os_lab.Proc.Switch.{sched, set_cpu}
use os_lab.Proc.Laws.{proc_at_lem}

-- Process `me` runs on this CPU, at depth one under ptable.lock, and the counters agree.
pub record SwitchPoint (me : ℕ) (k : Kernel) : Type 0 where
  pub depth : k.cpu.ncli ≡ 1
  pub off : k.cpu.intr ≡ false
  pub mine : k.ptable_held ≡ true
  pub clock : k.ticks_held ≡ false
  pub proc : k.cpu.proc ≡ some me
  pub tally : Tally k.procs k.counts

abbrev pub IsEntry : (Proc → Type 0) → ℕ → Kernel → Type 0
IsEntry P me k = (p : Proc) × (get_elem? k.procs me ≡ some p) × P p

myproc_lem : (k : Kernel) → 0 < k.cpu.ncli → k.cpu.intr ≡ false → myproc k ≡ ok k.cpu.proc k
unfolding myproc mycpu
myproc_lem k d off =
    rw (pushcli_lem k, ◌>>=◌)
      (rw (popcli_lem k.cpu.ncli (enter k) (omega arith) refl, ◌>>=◌) (ground arith))

pub current_lem :
    (me : ℕ) (k : Kernel)
    → 0 < k.cpu.ncli
    → k.cpu.intr ≡ false
    → k.cpu.proc ≡ some me
    → current k ≡ ok me k
unfolding current
current_lem me k d off e = rw (myproc_lem k d off, ◌>>=◌) (rw e refl)

-- What sched does once it is switched back to.
abbrev pub restore : Bool → K (Unit {0})
restore saved = do now ← mycpu; modify (set_cpu (record now { intena = saved }))

-- The tests of sched pass at a switch point if the process does not run.
pub sched_lem :
    (sv : Services) (me : ℕ) (k : Kernel)
    → SwitchPoint me k
    → IsEntry (λ p. is_state p.state running ≡ false) me k
    → sched sv k ≡ (sv.swtch >>= λ _. restore k.cpu.intena) k
unfolding sched
sched_lem sv me k sp (p, g, idle) =
    rw (current_lem me k (omega (arith, sp.depth)) sp.off sp.proc, ◌>>=◌)
      (rw (holding_lem ptable_lock k (omega (arith, sp.depth)) sp.off, ◌>>=◌)
        (rw (if_else (not k.ptable_held) _ _ (ap not sp.mine)) (
          rw (mycpu_lem k sp.off, ◌>>=◌)
            (rw (if_else (not (k.cpu.ncli == 1)) _ _ (ground arith)) (
              rw (proc_at_lem me k g, ◌>>=◌)
                (rw (if_else (is_state p.state running) _ _ idle)
                  (rw (if_else k.cpu.intr _ _ sp.off) (rw (mycpu_lem k sp.off, ◌>>=◌) refl))))))))
