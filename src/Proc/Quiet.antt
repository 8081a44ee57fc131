-- ===== src/Proc/Quiet.antt =====
-- The state in which the functions of proc.c are called and return: no lock of the scheduler held,
-- and counters that agree with the table. And the state inside a section under ptable.lock.
use os_lab.Kernel.State.{Kernel, set_held, ptable_lock, Cpu}
use os_lab.Kernel.Monad.{ok}
use os_lab.Spinlock.Nesting.{IsNested}
use os_lab.Prelude.{◌≡◌, false, arith, true, ap, refl, ◌∙◌}
use os_lab.Spinlock.Laws.{leave, enter, acquire_lem, release_lem}
use os_lab.Spinlock.{acquire, release}
use os_lab.Proc.Laws.{Busy}
use os_lab.Proc.Tally.{Tally}

pub record Quiet (k : Kernel) : Type 0 where
  pub nested : IsNested k
  pub unlocked : k.ptable_held ≡ false
  pub clock : k.ticks_held ≡ false
  pub tally : Tally k.procs k.counts

abbrev pub inside : Kernel → Kernel
inside k = set_held ptable_lock true (enter k)

-- `k'` is a state of the section that was entered from `k`.
pub record Section (k k' : Kernel) : Type 0 where
  pub cpu : k'.cpu ≡ (enter k).cpu
  pub mine : k'.ptable_held ≡ true
  pub clock : k'.ticks_held ≡ false

abbrev pub after : Kernel → Kernel → Kernel
after k k' = leave k.cpu.ncli (set_held ptable_lock false k')

pub lock_ptable : (k : Kernel) → Quiet k → acquire ptable_lock k ≡ ok tt (inside k)
lock_ptable k q = acquire_lem ptable_lock k q.unlocked

pub Section-inside : (k : Kernel) → Quiet k → Section k (inside k)
Section-inside k q = record { cpu = refl; mine = refl; clock = q.clock }

module _ (k k' : Kernel) (s : Section k k') where
  pub Busy-Section : Busy k'
  Busy-Section = record {
    deep = rw s.cpu (omega arith);
    off = ap (λ (c : Cpu). c.intr) s.cpu;
    clock = s.clock;
  }

  pub unlock_ptable : release ptable_lock k' ≡ ok tt (after k k')
  unlock_ptable =
      release_lem ptable_lock k.cpu.ncli k' s.mine (ap (λ (c : Cpu). c.ncli) s.cpu ∙ omega arith)
        (ap (λ (c : Cpu). c.intr) s.cpu)

  pub Quiet-after : Quiet k → Tally k'.procs k'.counts → Quiet (after k k')
  Quiet-after q t = record {
    nested = λ d. rw s.cpu (ground arith);
    unlocked = refl;
    clock = s.clock;
    tally = t;
  }

-- A state that differs from the entered one in the table and the counters alone.
pub Section-rest :
    (k : Kernel) {k' : Kernel}
    → Quiet k
    → record k' { procs = k.procs; counts = k.counts } ≡ inside k
    → Section k k'
Section-rest k q e = record {
  cpu = ap (λ (m : Kernel). m.cpu) e;
  mine = ap (λ (m : Kernel). m.ptable_held) e;
  clock = ap (λ (m : Kernel). m.ticks_held) e ∙ q.clock;
}
