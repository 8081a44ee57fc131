-- ===== src/Spinlock.antt =====
-- spinlock.c as the CPU that runs it sees it: the nesting of pushcli and popcli, and the locks that
-- this CPU holds. How CPUs contend for one lock word is the matter of Spinlock/Contention.
pub mod Laws
pub mod Nesting
pub mod Contention
use os_lab.Prelude.{ℕ, zero, suc, ◌+◌, Bool, true, false, ◌==◌, ◌&&◌, if◌then◌else◌}
use os_lab.Kernel.State.{Kernel, Cpu, Lock, held, set_held}
use os_lab.Kernel.Monad.{
  K, ok, panic, ◌>>=◌, ◌>>◌, pure, fail, gets, modify, skip, Fault, acquire_twice, release_free,
  popcli_interruptible, popcli_underflow, mycpu_interruptible,
}

abbrev pub set_cpu : Cpu → Kernel → Kernel
set_cpu c k = record k { cpu = c }

-- mycpu() refuses to run with interrupts on; the CPU that it finds is the one of the model.
unfoldable pub mycpu : K Cpu
mycpu k = if k.cpu.intr then panic mycpu_interruptible else ok k.cpu k

-- cli() comes before the tests of mycpu()->ncli.
unfoldable pub pushcli : K (Unit {0})
unfolding mycpu
pushcli = do
  eflags ← gets (λ k. k.cpu.intr)
  modify (λ k. set_cpu (record (k.cpu) { intr = false }) k)
  c ← mycpu
  modify (λ k. set_cpu (record c { intena = if c.ncli == 0 then eflags else c.intena }) k)
  modify (λ k. set_cpu (record (k.cpu) { ncli = k.cpu.ncli + 1 }) k)

-- `--ncli < 0` on an `int`: the depth below zero is the panic.
unfoldable pub popcli_depth : ℕ → Cpu → K (Unit {0})
popcli_depth zero c = fail popcli_underflow
popcli_depth (suc n) c = modify (set_cpu (record c { ncli = n; intr = (n == 0) && c.intena }))

unfoldable pub popcli : K (Unit {0})
unfolding mycpu popcli_depth
popcli = do
  eflags ← gets (λ k. k.cpu.intr)
  if eflags then fail popcli_interruptible else do c ← mycpu; popcli_depth c.ncli c

unfoldable pub holding : Lock → K Bool
holding l = do pushcli; r ← gets (held l); popcli; pure r

unfoldable pub acquire : Lock → K (Unit {0})
acquire l = do pushcli; r ← holding l; if r then fail acquire_twice else modify (set_held l true)

unfoldable pub release : Lock → K (Unit {0})
release l = do
  r ← holding l
  if r then (do modify (set_held l false); popcli) else fail release_free
